-- ===== src/Msg/RoundTrip.antt =====
-- What one side creates, the other decodes: whole messages.
use corosync_qdevice.Prelude.{
  ℕ, ◌+◌, ◌*◌, ◌^◌, ◌≤◌, ◌<◌, ◌≡◌, ◌≢◌, refl, ◌∙◌, Bool, true, Option, none, some, List, [], ◌∷◌,
  length, All, arith,
}
use corosync_qdevice.Dynar.{Dynar}
use corosync_qdevice.Dynar.Content.{IsValid}
use corosync_qdevice.NodeList.{NodeList}
use corosync_qdevice.Tlv.Types.{RingId, Vote, Heuristics}
use corosync_qdevice.Tlv.Bytes.{Memory}
use corosync_qdevice.Tlv.Add.Numbers.{opt_msg_seq_number, opt_node_list_type}
use corosync_qdevice.Tlv.Walk.{TlvOption, encode}
use corosync_qdevice.Tlv.Layout.{number_option}
use corosync_qdevice.Msg.Types.{MsgType, msg_type_number, msg_decoded_init}
use corosync_qdevice.Msg.Create.{msg_create_vote_info}
use corosync_qdevice.Msg.Decode.{msg_decode}
use corosync_qdevice.Msg.Created.{created-decode}
use corosync_qdevice.Msg.Options.{vote_option, ring_option}
use corosync_qdevice.Tlv.NodeInfo.{length-number}
use corosync_qdevice.Msg.Create.{seq_number, ballot, ring}
use corosync_qdevice.Tlv.RoundTrip.{length-option_before, ring_id_bytes, length-ring_id_bytes}
use corosync_qdevice.Tlv.Add.Numbers.{opt_vote, opt_ring_id, vote_number}
use corosync_qdevice.Msg.Create.{msg_create_node_list}
use corosync_qdevice.Msg.Options.{IsNode}
use corosync_qdevice.Msg.Parts.{
  both_parts, seq_number-Part, ballot-Part, ring-Part, node_list_type-Part,
}
use corosync_qdevice.Msg.Parts.Optional.{
  IfSet, RingIdFits, told_heuristics, optional-ring-Part, optional_config_version-Part,
  optional_quorate-Part, heuristics-Part, nodes-Part,
}
use corosync_qdevice.Msg.NodeListSize.{node_list_rest, node_list_size_bound}
use corosync_qdevice.Msg.Layout.{Grants}

abbrev vote_info_options : ℕ → RingId → Vote → List TlvOption
vote_info_options seq ring_id vote =
    number_option opt_msg_seq_number 4 seq ∷ vote_option vote ∷ ring_option ring_id ∷ []

-- What can stand in a node list message: the numbers fit in their fields, and the nodes have ids.
pub record IsNodeListMessage (seq list_type : ℕ) (ring_id : Option RingId)
    (config_version quorate : Option ℕ) (nodes : NodeList) : Type 0 where
  pub seq_fits : seq < 2 ^ 32
  pub type_fits : list_type < 4
  pub ring_fits : IfSet RingIdFits ring_id
  pub version_fits : IfSet (λ n. n < 2 ^ 64) config_version
  pub quorate_fits : IfSet (λ n. n < 2) quorate
  pub nodes_fit : All IsNode nodes

module _ (memory_grants : ℕ → ℕ → Bool) (beyond : Memory) (grants : Grants)
    (given : (k i j : ℕ) → grants k i j ≡ true) (msg : Dynar) (v : IsValid msg) where
  -- A vote info that is created with memory granted in a buffer for at least 35 bytes is decoded
  -- as the sequence number, the ring id and the vote that it was created from, and nothing else.
  -- The vote is defined, and the numbers fit in the widths of their fields.
  pub vote_info_roundtrip :
      (seq : ℕ) (ring_id : RingId) (vote : Vote)
      → seq < 2 ^ 32
      → ring_id.node_id < 2 ^ 32
      → ring_id.seq < 2 ^ 64
      → vote ≢ Vote.undefined
      → 35 ≤ msg.maximum_size
      → let r = msg_create_vote_info grants msg seq ring_id vote in
        (r.1 ≡ 35)
        × (msg_decode memory_grants beyond r.0 ≡ (
          record (msg_decoded_init (msg_type_number MsgType.vote_info)) {
            seq_number = some seq;
            ring_id = some ring_id;
            vote = some vote;
          },
          none,
        ))
  unfolding msg_create_vote_info
  vote_info_roundtrip seq ring_id vote seq_small id_small ring_small defined room =
      let len : 6 + length (encode (vote_info_options seq ring_id vote)) ≡ 35 = omega (
        arith,
        length-number opt_msg_seq_number 4 seq (vote_option vote ∷ ring_option ring_id ∷ []),
        length-number opt_vote 1 (vote_number vote) (ring_option ring_id ∷ []),
        length-option_before opt_ring_id (ring_id_bytes ring_id) [],
        length-ring_id_bytes ring_id,
      ) in
      let (size, decoded) =
        created-decode memory_grants beyond grants msg MsgType.vote_info
          (seq_number seq ∷ ballot vote ∷ ring ring_id ∷ [])
          (number_option opt_msg_seq_number 4 seq) (vote_option vote ∷ ring_option ring_id ∷ []) _
          given v
          (both_parts memory_grants beyond (seq_number-Part memory_grants beyond _ seq seq_small) (
            both_parts memory_grants beyond (ballot-Part memory_grants beyond _ vote defined)
              (ring-Part memory_grants beyond _ ring_id id_small ring_small)))
          (omega (arith, len)) in
      (size ∙ len, decoded)

  -- A node list that is created with memory granted, in a buffer for at least 57 bytes and 25 more
  -- for each node, is decoded, with memory granted, as what it was created from, and nothing else:
  -- an argument that was left out is not set, and heuristics that were left out are undefined. The
  -- numbers fit in the widths of their fields, and no node has the id 0.
  pub node_list_roundtrip :
      ((i j : ℕ) → memory_grants i j ≡ true)
      → (seq list_type : ℕ) (ring_id : Option RingId) (config_version quorate : Option ℕ)
        (heuristics : Option Heuristics) (nodes : NodeList)
      → IsNodeListMessage seq list_type ring_id config_version quorate nodes
      → 57 + 25 * length nodes ≤ msg.maximum_size
      → msg_decode memory_grants beyond
          (msg_create_node_list grants msg seq list_type ring_id config_version quorate heuristics
            nodes).0
        ≡ (
          record (msg_decoded_init (msg_type_number MsgType.node_list)) {
            seq_number = some seq;
            ring_id = ring_id;
            config_version = config_version;
            nodes = nodes;
            node_list_type = some list_type;
            quorate = quorate;
            heuristics = told_heuristics heuristics;
          },
          none,
        )
  unfolding msg_create_node_list msg_decoded_init
  node_list_roundtrip decoding seq list_type ring_id config_version quorate heuristics nodes fits
        room =
      let rest = node_list_rest ring_id config_version quorate heuristics nodes in
      let start = msg_decoded_init (msg_type_number MsgType.node_list) in
      let m1 = record start { seq_number = some seq; node_list_type = some list_type } in
      let m2 = record m1 { ring_id = ring_id } in
      let m3 = record m2 { config_version = config_version } in
      let m4 = record m3 { quorate = quorate } in
      let m5 = record m4 { nodes = nodes } in
      (created-decode memory_grants beyond grants msg MsgType.node_list _
        (number_option opt_msg_seq_number 4 seq)
        (number_option opt_node_list_type 1 list_type ∷ rest) _ given v
        (both_parts memory_grants beyond
          (both_parts memory_grants beyond
            (seq_number-Part memory_grants beyond start seq fits.seq_fits)
            (node_list_type-Part memory_grants beyond _ list_type fits.type_fits))
          (both_parts memory_grants beyond
            (optional-ring-Part memory_grants beyond m1 ring_id refl fits.ring_fits)
            (both_parts memory_grants beyond
              (optional_config_version-Part memory_grants beyond m2 config_version refl
                fits.version_fits)
              (both_parts memory_grants beyond
                (optional_quorate-Part memory_grants beyond m3 quorate refl fits.quorate_fits)
                (both_parts memory_grants beyond
                  (nodes-Part memory_grants beyond m4 nodes decoding fits.nodes_fit)
                  (heuristics-Part memory_grants beyond m5 heuristics refl))))))
        (omega (
          arith,
          node_list_size_bound seq list_type ring_id config_version quorate heuristics nodes,
        ))).1
