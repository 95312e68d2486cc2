-- ===== src/Msg/Options.antt =====
-- Each option of a message: what its adder adds is what `msg_decode` stores.
use corosync_qdevice.Prelude.{ℕ, ◌^◌, ◌<◌, ◌≡◌, refl, ap, ◌∙◌, ◌≢◌, Bool, some, List, length, arith}
use corosync_qdevice.Tlv.Types.{RingId, Vote}
use corosync_qdevice.Tlv.Bytes.{Memory, be_bytes, length-be_bytes}
use corosync_qdevice.Tlv.Add.{tlv_add, tlv_add_u8, tlv_add_u32, tlv_add_ring_id}
use corosync_qdevice.Tlv.Add.Numbers.{
  vote_number, opt_ring_id, opt_vote, opt_msg_seq_number, opt_node_list_type,
}
use corosync_qdevice.Tlv.Iter.{TlvIterator}
use corosync_qdevice.Tlv.Each.{ok, then_decode}
use corosync_qdevice.Tlv.Decode.{below, vote_of}
use corosync_qdevice.Tlv.RoundTrip.{ring_id_bytes, length-ring_id_bytes, ring_id-Finds, Finds}
use corosync_qdevice.Tlv.Walk.{IsShort, encode, TlvOption}
use corosync_qdevice.Tlv.Add.{tlv_add_config_version, tlv_add_quorate, tlv_add_u64}
use corosync_qdevice.Tlv.Add.Numbers.{
  opt_config_version, opt_quorate, opt_node_info, heuristics_number, opt_heuristics,
}
use corosync_qdevice.Tlv.Types.{Heuristics}
use corosync_qdevice.Tlv.Decode.{heuristics_value_of}
use corosync_qdevice.Tlv.NodeInfo.{info_options, tlv_add_node_info-Appended, node_info-Finds}
use corosync_qdevice.NodeList.{NodeListEntry, node_list_add, node_list_add_from_node_info}
use corosync_qdevice.Msg.Create.{node_info, node_list_entry_to_tlv_node_info, heuristics_result}
use corosync_qdevice.Prelude.{true, ◌++◌, ◌∷◌, []}
use corosync_qdevice.Msg.Decode.{store_value, stored_nodes}
use corosync_qdevice.Msg.Types.{MsgDecoded}
use corosync_qdevice.Msg.Create.{plain, seq_number, ring, ballot, node_list_type}
use corosync_qdevice.Msg.Decode.{option_switch, msg_option}
use corosync_qdevice.Tlv.Layout.{number_option, tlv_add_sized, number-Finds, enum-Finds, below-some}
use corosync_qdevice.Msg.Layout.{Adds}

pub tlv_add-Adds :
    (opt_type len : ℕ) (value : List ℕ)
    → length value ≡ len
    → len < 2 ^ 16
    → Adds (plain (λ g msg. tlv_add g msg opt_type len value)) (opt_type, value)
tlv_add-Adds opt_type len value same short g msg given v room =
    tlv_add_sized (g 0) msg opt_type len value (given 0) v same short room

abbrev pub ring_option : RingId → TlvOption
ring_option ring_id = (opt_ring_id, ring_id_bytes ring_id)

abbrev pub vote_option : Vote → TlvOption
vote_option vote = number_option opt_vote 1 (vote_number vote)

pub seq_number-Adds : (n : ℕ) → Adds (seq_number n) (number_option opt_msg_seq_number 4 n)
unfolding tlv_add_u32
seq_number-Adds n =
    tlv_add-Adds opt_msg_seq_number 4 (be_bytes 4 n) (length-be_bytes 4 n) (omega arith)

pub node_list_type-Adds : (n : ℕ) → Adds (node_list_type n) (number_option opt_node_list_type 1 n)
unfolding tlv_add_u8
node_list_type-Adds n =
    tlv_add-Adds opt_node_list_type 1 (be_bytes 1 n) (length-be_bytes 1 n) (omega arith)

pub ballot-Adds : (vote : Vote) → Adds (ballot vote) (vote_option vote)
unfolding tlv_add_u8
ballot-Adds vote =
    tlv_add-Adds opt_vote 1 (be_bytes 1 (vote_number vote)) (length-be_bytes 1 (vote_number vote))
      (omega arith)

pub ring-Adds : (ring_id : RingId) → Adds (ring ring_id) (ring_option ring_id)
unfolding tlv_add_ring_id
ring-Adds ring_id =
    tlv_add-Adds opt_ring_id 12 (ring_id_bytes ring_id) (length-ring_id_bytes ring_id) (omega arith)

vote_of-vote_number : (vote : Vote) → vote ≢ Vote.undefined → vote_of (vote_number vote) ≡ some vote
vote_of-vote_number Vote.undefined h = absurd (h refl)
vote_of-vote_number Vote.ack h = refl
vote_of-vote_number Vote.nack h = refl
vote_of-vote_number Vote.ask_later h = refl
vote_of-vote_number Vote.wait_for_reply h = refl
vote_of-vote_number Vote.no_change h = refl

vote_number_small : (vote : Vote) → vote_number vote < 256
vote_number_small Vote.undefined = omega arith
vote_number_small Vote.ack = omega arith
vote_number_small Vote.nack = omega arith
vote_number_small Vote.ask_later = omega arith
vote_number_small Vote.wait_for_reply = omega arith
vote_number_small Vote.no_change = omega arith

-- A node that a message can hold: its id is not zero, and the ids fit in 32 bits.
abbrev pub IsNode : NodeListEntry → Type 0
IsNode node = (node.node_id ≢ 0) × (node.node_id < 2 ^ 32) × (node.data_center_id < 2 ^ 32)

abbrev pub node_option : NodeListEntry → TlvOption
node_option node = (opt_node_info, encode (info_options (node_list_entry_to_tlv_node_info node)))

pub node_info-Adds : (node : NodeListEntry) → Adds (node_info node) (node_option node)
node_info-Adds node g msg given v room =
    tlv_add_node_info-Appended g given msg (node_list_entry_to_tlv_node_info node) v room

pub config_version-Adds :
    (n : ℕ)
    → Adds (plain (λ g msg. tlv_add_config_version g msg n)) (number_option opt_config_version 8 n)
unfolding tlv_add_u64
config_version-Adds n =
    tlv_add-Adds opt_config_version 8 (be_bytes 8 n) (length-be_bytes 8 n) (omega arith)

pub quorate-Adds :
    (n : ℕ) → Adds (plain (λ g msg. tlv_add_quorate g msg n)) (number_option opt_quorate 1 n)
unfolding tlv_add_u8
quorate-Adds n = tlv_add-Adds opt_quorate 1 (be_bytes 1 n) (length-be_bytes 1 n) (omega arith)

-- A result of the heuristics that can be told.
abbrev pub heuristics_option : Heuristics → TlvOption
heuristics_option heuristics = number_option opt_heuristics 1 (heuristics_number heuristics)

pub heuristics_result-Adds :
    (heuristics : Heuristics)
    → heuristics ≢ Heuristics.undefined
    → Adds (heuristics_result heuristics) (heuristics_option heuristics)
unfolding tlv_add_u8
heuristics_result-Adds Heuristics.undefined h = absurd (h refl)
heuristics_result-Adds Heuristics.pass h =
    tlv_add-Adds opt_heuristics 1 (be_bytes 1 1) (length-be_bytes 1 1) (omega arith)
heuristics_result-Adds Heuristics.fail h =
    tlv_add-Adds opt_heuristics 1 (be_bytes 1 2) (length-be_bytes 1 2) (omega arith)

pub ring-IsShort : (ring_id : RingId) → IsShort (ring_option ring_id)
ring-IsShort ring_id = (omega arith, omega (arith, length-ring_id_bytes ring_id))

module _ (grants : ℕ → ℕ → Bool) (it : TlvIterator) (beyond : Memory) where
  -- The switch goes by the type that is found.
  switch_at :
      (m : MsgDecoded) (o : TlvOption)
      → Finds it o.0 o.1 beyond
      → msg_option grants it m ≡ option_switch grants o.0 it m
  unfolding msg_option
  switch_at m o found = ap (λ t. option_switch grants t it m) found.has_type

  pub seq_number-reads :
      (m : MsgDecoded) (n : ℕ)
      → n < 2 ^ 32
      → Finds it opt_msg_seq_number (be_bytes 4 n) beyond
      → msg_option grants it m ≡ ok (record m { seq_number = some n })
  unfolding option_switch
  seq_number-reads m n small found =
      switch_at m (number_option opt_msg_seq_number 4 n) found
      ∙ ap (λ d. then_decode d (λ v. ok (record m { seq_number = some v })))
          (number-Finds it beyond opt_msg_seq_number 4 n found (omega arith))

  pub node_list_type-reads :
      (m : MsgDecoded) (n : ℕ)
      → n < 4
      → Finds it opt_node_list_type (be_bytes 1 n) beyond
      → msg_option grants it m ≡ ok (record m { node_list_type = some n })
  unfolding option_switch
  node_list_type-reads m n small found =
      switch_at m (number_option opt_node_list_type 1 n) found
      ∙ ap (λ d. then_decode d (λ v. ok (record m { node_list_type = some v })))
          (enum-Finds (below 4) it beyond opt_node_list_type n n found (omega arith)
            (below-some 4 n small))

  pub ballot-reads :
      (m : MsgDecoded) (vote : Vote)
      → vote ≢ Vote.undefined
      → Finds it opt_vote (be_bytes 1 (vote_number vote)) beyond
      → msg_option grants it m ≡ ok (record m { vote = some vote })
  unfolding option_switch
  ballot-reads m vote defined found =
      switch_at m (vote_option vote) found
      ∙ ap (λ d. then_decode d (λ v. ok (record m { vote = some v })))
          (enum-Finds vote_of it beyond opt_vote (vote_number vote) vote found
            (vote_number_small vote) (vote_of-vote_number vote defined))

  pub ring-reads :
      (m : MsgDecoded) (ring_id : RingId)
      → ring_id.node_id < 2 ^ 32
      → ring_id.seq < 2 ^ 64
      → Finds it opt_ring_id (ring_id_bytes ring_id) beyond
      → msg_option grants it m ≡ ok (record m { ring_id = some ring_id })
  unfolding option_switch
  ring-reads m ring_id id_small seq_small found =
      switch_at m (ring_option ring_id) found
      ∙ ap (λ d. then_decode d (λ v. ok (record m { ring_id = some v })))
          (ring_id-Finds it beyond ring_id id_small seq_small found)

  pub config_version-reads :
      (m : MsgDecoded) (n : ℕ)
      → n < 2 ^ 64
      → Finds it opt_config_version (be_bytes 8 n) beyond
      → msg_option grants it m ≡ ok (record m { config_version = some n })
  unfolding option_switch
  config_version-reads m n small found =
      switch_at m (number_option opt_config_version 8 n) found
      ∙ ap (λ d. then_decode d (λ v. ok (record m { config_version = some v })))
          (number-Finds it beyond opt_config_version 8 n found (omega arith))

  pub quorate-reads :
      (m : MsgDecoded) (n : ℕ)
      → n < 2
      → Finds it opt_quorate (be_bytes 1 n) beyond
      → msg_option grants it m ≡ ok (record m { quorate = some n })
  unfolding option_switch
  quorate-reads m n small found =
      switch_at m (number_option opt_quorate 1 n) found
      ∙ ap (λ d. then_decode d (λ v. ok (record m { quorate = some v })))
          (enum-Finds (below 2) it beyond opt_quorate n n found (omega arith)
            (below-some 2 n small))

  pub heuristics-reads :
      (m : MsgDecoded) (heuristics : Heuristics)
      → heuristics_number heuristics < 256
      → heuristics_value_of (heuristics_number heuristics) ≡ some heuristics
      → Finds it opt_heuristics (be_bytes 1 (heuristics_number heuristics)) beyond
      → msg_option grants it m ≡ ok (record m { heuristics = heuristics })
  unfolding option_switch
  heuristics-reads m heuristics small e found =
      switch_at m (number_option opt_heuristics 1 (heuristics_number heuristics)) found
      ∙ ap (λ d. then_decode d (λ v. ok (record m { heuristics = v })))
          (enum-Finds heuristics_value_of it beyond opt_heuristics (heuristics_number heuristics)
            heuristics found small e)

  pub node_info-reads :
      (m : MsgDecoded) (node : NodeListEntry)
      → grants it.current_pos 0 ≡ true
      → IsNode node
      → Finds it opt_node_info
          (encode (info_options (node_list_entry_to_tlv_node_info node)))
          beyond
      → msg_option grants it m ≡ ok (record m { nodes = m.nodes ++ node ∷ [] })
  unfolding option_switch node_list_add_from_node_info node_list_add
  node_info-reads m node given ok_node found =
      let info = node_list_entry_to_tlv_node_info node in
      switch_at m (node_option node) found
      ∙ ap
          (λ d. then_decode d (λ info.
            store_value
              (stored_nodes (node_list_add_from_node_info (grants it.current_pos 0) m.nodes info))
              (λ v. record m { nodes = v })))
          (node_info-Finds it beyond info ok_node.0 ok_node.1 ok_node.2 found)
      ∙ ap
          (λ b.
            store_value (stored_nodes (node_list_add_from_node_info b m.nodes info))
              (λ v. record m { nodes = v }))
          given
