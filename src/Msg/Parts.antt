-- ===== src/Msg/Parts.antt =====
-- A run of adders of a created message, with the options that they add and what decoding these
-- options stores.
pub mod Optional
use corosync_qdevice.Prelude.{
  ℕ, ◌+◌, ◌*◌, ◌^◌, ◌≤◌, ◌<◌, ◌≡◌, ◌≢◌, refl, sym, ap, ◌∙◌, Bool, true, Option, none, some, List,
  [], ◌∷◌, ◌++◌, map, length, All, arith, subst,
}
use mathlib.Core.List.{append_assoc, append-nil}
use corosync_qdevice.NodeList.{NodeListEntry, NodeList}
use corosync_qdevice.Tlv.Types.{RingId, Vote, Heuristics}
use corosync_qdevice.Tlv.Bytes.{Memory, be_bytes, length-be_bytes}
use corosync_qdevice.Tlv.Add.Numbers.{
  vote_number, opt_msg_seq_number, opt_node_list_type, opt_vote, opt_config_version, opt_quorate,
  opt_heuristics, opt_ring_id, opt_node_info,
}
use corosync_qdevice.Tlv.Iter.{TlvIterator}
use corosync_qdevice.Tlv.Each.{ok}
use corosync_qdevice.Tlv.RoundTrip.{Finds}
use corosync_qdevice.Tlv.Walk.{TlvOption, IsShort, encode, encode-append, Decodes}
use corosync_qdevice.Tlv.Layout.{number_option}
use corosync_qdevice.Tlv.NodeInfo.{number-IsShort, length-number}
use corosync_qdevice.Msg.Types.{MsgDecoded}
use corosync_qdevice.Msg.Create.{
  Adder, plain, optional, seq_number, node_list_type, ring, ballot, node_info, heuristics_result,
  defined_heuristics,
}
use corosync_qdevice.Msg.Layout.{Adds, AddsAll}
use corosync_qdevice.Msg.Options.{
  vote_option, ring_option, heuristics_option, node_option, IsNode, seq_number-Adds,
  node_list_type-Adds, ballot-Adds, ring-Adds, config_version-Adds, quorate-Adds, node_info-Adds,
  heuristics_result-Adds, ring-IsShort, seq_number-reads, node_list_type-reads, ballot-reads,
  ring-reads, config_version-reads, quorate-reads, node_info-reads, heuristics-reads,
}
use corosync_qdevice.Tlv.NodeInfo.{info_options-length}
use corosync_qdevice.Msg.Create.{node_list_entry_to_tlv_node_info}
use corosync_qdevice.Tlv.Add.{tlv_add_config_version, tlv_add_quorate}
use corosync_qdevice.Msg.Decode.{msg_option}

module _ (memory_grants : ℕ → ℕ → Bool) (beyond : Memory) where
  pub record Part (m : MsgDecoded) (adders : List Adder) (options : List TlvOption)
      (m' : MsgDecoded) : Type 0 where
    pub adds : AddsAll adders options
    pub short : All IsShort options
    pub reads : Decodes (msg_option memory_grants) beyond m options m'

  pub no-Part : (m : MsgDecoded) → Part m [] [] m
  no-Part m = record { adds = tt; short = tt; reads = refl }

  pub one-Part :
      {m m' : MsgDecoded} {add : Adder} {o : TlvOption}
      → Adds add o
      → IsShort o
      → ((it : TlvIterator) → Finds it o.0 o.1 beyond → msg_option memory_grants it m ≡ ok m')
      → Part m (add ∷ []) (o ∷ []) m'
  one-Part {m' = m'} adds short reads = record {
    adds = (adds, tt);
    short = (short, tt);
    reads = (m', reads, refl);
  }

  AddsAll-append :
      (adders more_adders : List Adder) (options more_options : List TlvOption)
      → AddsAll adders options
      → AddsAll more_adders more_options
      → AddsAll (adders ++ more_adders) (options ++ more_options)
  AddsAll-append [] more_adders [] more_options h h' = h'
  AddsAll-append [] more_adders (o ∷ options) more_options h h' = absurd h
  AddsAll-append (a ∷ adders) more_adders [] more_options h h' = absurd h
  AddsAll-append (a ∷ adders) more_adders (o ∷ options) more_options (x, h) h' =
      (x, AddsAll-append adders more_adders options more_options h h')

  Decodes-append :
      (m mid m' : MsgDecoded) (options more_options : List TlvOption)
      → Decodes (msg_option memory_grants) beyond m options mid
      → Decodes (msg_option memory_grants) beyond mid more_options m'
      → Decodes (msg_option memory_grants) beyond m (options ++ more_options) m'
  Decodes-append m mid m' [] more_options e d =
      subst (λ x. Decodes (msg_option memory_grants) beyond x more_options m') (sym e) d
  Decodes-append m mid m' (o ∷ options) more_options (next, x, d) d' =
      (next, x, Decodes-append next mid m' options more_options d d')

  IsShort-append :
      (options more_options : List TlvOption)
      → All IsShort options
      → All IsShort more_options
      → All IsShort (options ++ more_options)
  IsShort-append [] more_options h h' = h'
  IsShort-append (o ∷ options) more_options (x, h) h' =
      (x, IsShort-append options more_options h h')

  -- One run after another.
  pub both_parts :
      {m mid m' : MsgDecoded} {adders more_adders : List Adder}
      {options more_options : List TlvOption}
      → Part m adders options mid
      → Part mid more_adders more_options m'
      → Part m (adders ++ more_adders) (options ++ more_options) m'
  both_parts {m} {mid} {m'} {adders} {more_adders} {options} {more_options} p q = record {
    adds = AddsAll-append adders more_adders options more_options p.adds q.adds;
    short = IsShort-append options more_options p.short q.short;
    reads = Decodes-append m mid m' options more_options p.reads q.reads;
  }

  pub number-Part :
      {m m' : MsgDecoded} {add : Adder} (opt_type size n : ℕ)
      → opt_type < 2 ^ 16
      → size < 2 ^ 16
      → Adds add (number_option opt_type size n)
      → ((it : TlvIterator)
          → Finds it opt_type (be_bytes size n) beyond
          → msg_option memory_grants it m ≡ ok m')
      → Part m (add ∷ []) (number_option opt_type size n ∷ []) m'
  number-Part opt_type size n t s adds reads =
      one-Part adds (number-IsShort opt_type size n t s) reads

  pub seq_number-Part :
      (m : MsgDecoded) (n : ℕ)
      → n < 2 ^ 32
      → Part m
          (seq_number n ∷ [])
          (number_option opt_msg_seq_number 4 n ∷ [])
          (record m { seq_number = some n })
  seq_number-Part m n small =
      number-Part opt_msg_seq_number 4 n (omega arith) (omega arith) (seq_number-Adds n)
        (λ it. seq_number-reads memory_grants it beyond m n small)

  pub node_list_type-Part :
      (m : MsgDecoded) (n : ℕ)
      → n < 4
      → Part m
          (node_list_type n ∷ [])
          (number_option opt_node_list_type 1 n ∷ [])
          (record m { node_list_type = some n })
  node_list_type-Part m n small =
      number-Part opt_node_list_type 1 n (omega arith) (omega arith) (node_list_type-Adds n)
        (λ it. node_list_type-reads memory_grants it beyond m n small)

  pub ballot-Part :
      (m : MsgDecoded) (vote : Vote)
      → vote ≢ Vote.undefined
      → Part m (ballot vote ∷ []) (vote_option vote ∷ []) (record m { vote = some vote })
  ballot-Part m vote defined =
      number-Part opt_vote 1 (vote_number vote) (omega arith) (omega arith) (ballot-Adds vote)
        (λ it. ballot-reads memory_grants it beyond m vote defined)

  pub ring-Part :
      (m : MsgDecoded) (ring_id : RingId)
      → ring_id.node_id < 2 ^ 32
      → ring_id.seq < 2 ^ 64
      → Part m (ring ring_id ∷ []) (ring_option ring_id ∷ []) (record m { ring_id = some ring_id })
  ring-Part m ring_id id_small seq_small =
      one-Part (ring-Adds ring_id) (ring-IsShort ring_id)
        (λ it. ring-reads memory_grants it beyond m ring_id id_small seq_small)
