-- ===== src/Msg/NodeListSize.antt =====
-- The size of a node list message.
use corosync_qdevice.Prelude.{
  ℕ, ◌+◌, ◌*◌, ◌≤◌, ◌≡◌, ap, ◌∙◌, Option, none, some, List, [], ◌∷◌, ◌++◌, map, length,
  length-append, arith,
}
use corosync_qdevice.NodeList.{NodeList}
use corosync_qdevice.Tlv.Types.{RingId, Heuristics}
use corosync_qdevice.Tlv.Add.Numbers.{
  opt_msg_seq_number, opt_node_list_type, opt_config_version, opt_quorate,
}
use corosync_qdevice.Tlv.Walk.{TlvOption, encode, encode-append}
use corosync_qdevice.Tlv.Layout.{number_option}
use corosync_qdevice.Msg.Types.{}
use corosync_qdevice.Msg.Options.{ring_option}
use corosync_qdevice.Tlv.NodeInfo.{length-number}
use corosync_qdevice.Tlv.RoundTrip.{length-option_before, ring_id_bytes, length-ring_id_bytes}
use corosync_qdevice.Tlv.Add.Numbers.{opt_ring_id}
use corosync_qdevice.Tlv.NodeInfo.{info_options, info_options-length}
use corosync_qdevice.Tlv.Add.Numbers.{opt_node_info, opt_heuristics}
use corosync_qdevice.Msg.Create.{node_list_entry_to_tlv_node_info}
use corosync_qdevice.Msg.Options.{node_option}
use corosync_qdevice.Msg.Parts.Optional.{optional_options, defined_options}

abbrev pub node_list_rest :
    Option RingId → Option ℕ → Option ℕ → Option Heuristics → NodeList → List TlvOption
node_list_rest ring_id config_version quorate heuristics nodes =
    optional_options ring_id ring_option
    ++ (optional_options config_version (number_option opt_config_version 8)
        ++ (optional_options quorate (number_option opt_quorate 1)
            ++ (map node_option nodes ++ defined_options heuristics)))

size-append :
    (options more_options : List TlvOption)
    → length (encode (options ++ more_options))
      ≡ length (encode options) + length (encode more_options)
size-append options more_options =
    ap length (encode-append options more_options)
    ∙ length-append (encode options) (encode more_options)

nodes_size : (nodes : NodeList) → length (encode (map node_option nodes)) ≤ 25 * length nodes
nodes_size [] = omega arith
nodes_size (node ∷ nodes) =
    let info = encode (info_options (node_list_entry_to_tlv_node_info node)) in
    omega (
      arith,
      length-option_before opt_node_info info (encode (map node_option nodes)),
      info_options-length (node_list_entry_to_tlv_node_info node),
      nodes_size nodes,
    )

ring_size : (r : Option RingId) → length (encode (optional_options r ring_option)) ≤ 16
ring_size none = omega arith
ring_size (some ring_id) = omega (
  arith,
  length-option_before opt_ring_id (ring_id_bytes ring_id) [],
  length-ring_id_bytes ring_id,
)

number_size :
    (opt_type size : ℕ) (o : Option ℕ)
    → length (encode (optional_options o (number_option opt_type size))) ≤ 4 + size
number_size opt_type size none = omega arith
number_size opt_type size (some n) = omega (arith, length-number opt_type size n [])

defined_size : (h : Option Heuristics) → length (encode (defined_options h)) ≤ 5
defined_size none = omega arith
defined_size (some Heuristics.undefined) = omega arith
defined_size (some Heuristics.pass) = omega (arith, length-number opt_heuristics 1 1 [])
defined_size (some Heuristics.fail) = omega (arith, length-number opt_heuristics 1 2 [])

pub node_list_size_bound :
    (seq list_type : ℕ) (ring_id : Option RingId) (config_version quorate : Option ℕ)
    (heuristics : Option Heuristics) (nodes : NodeList)
    → length (
        encode (
          number_option opt_msg_seq_number 4 seq
          ∷ number_option opt_node_list_type 1 list_type
          ∷ node_list_rest ring_id config_version quorate heuristics nodes))
      ≤ 51 + 25 * length nodes
node_list_size_bound seq list_type ring_id config_version quorate heuristics nodes =
    let rest = node_list_rest ring_id config_version quorate heuristics nodes in
    omega (
      arith,
      length-number opt_msg_seq_number 4 seq (number_option opt_node_list_type 1 list_type ∷ rest),
      length-number opt_node_list_type 1 list_type rest,
      size-append (optional_options ring_id ring_option) (
          optional_options config_version (number_option opt_config_version 8)
          ++ (optional_options quorate (number_option opt_quorate 1)
              ++ (map node_option nodes ++ defined_options heuristics))),
      size-append (optional_options config_version (number_option opt_config_version 8)) (
          optional_options quorate (number_option opt_quorate 1)
          ++ (map node_option nodes ++ defined_options heuristics)),
      size-append (optional_options quorate (number_option opt_quorate 1))
          (map node_option nodes ++ defined_options heuristics),
      size-append (map node_option nodes) (defined_options heuristics),
      ring_size ring_id,
      number_size opt_config_version 8 config_version,
      number_size opt_quorate 1 quorate,
      nodes_size nodes,
      defined_size heuristics,
    )
