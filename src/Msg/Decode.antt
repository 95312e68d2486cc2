-- ===== src/Msg/Decode.antt =====
-- `msg_decode` of qdevices/msg.c. `grants p i` answers the call of `malloc` numbered `i` for the
-- option at the position `p` of the message.
use corosync_qdevice.Prelude.{ℕ, ◌+◌, Bool, Option, none, some, ◌==◌, if◌then◌else◌}
use corosync_qdevice.Dynar.{Dynar, dynar_size}
use corosync_qdevice.NodeList.{NodeList, node_list_add_from_node_info}
use corosync_qdevice.Tlv.Bytes.{Memory}
use corosync_qdevice.Tlv.Add.Numbers.{
  opt_msg_seq_number, opt_cluster_name, opt_tls_supported, opt_tls_client_cert_required,
  opt_supported_messages, opt_supported_options, opt_reply_error_code,
  opt_server_maximum_request_size, opt_server_maximum_reply_size, opt_node_id,
  opt_supported_decision_algorithms, opt_decision_algorithm, opt_heartbeat_interval, opt_ring_id,
  opt_config_version, opt_data_center_id, opt_node_state, opt_node_info, opt_node_list_type,
  opt_vote, opt_quorate, opt_tie_breaker, opt_heuristics, opt_keep_active_partition_tie_breaker,
}
use corosync_qdevice.Tlv.Iter.{TlvIterator, tlv_iter_init, tlv_iter_get_type}
use corosync_qdevice.Tlv.Each.{
  DecodeError, Decoded, ok, failed, no_memory, then_decode, each_option,
}
use corosync_qdevice.Tlv.Decode.{
  tlv_iter_decode_u32, tlv_iter_decode_u64, tlv_iter_decode_client_cert_required,
  tlv_iter_decode_str, tlv_iter_decode_u16_array, enum_array, tlv_iter_decode_supported_options,
  tlv_iter_decode_supported_decision_algorithms, tlv_iter_decode_decision_algorithm,
  tlv_iter_decode_reply_error_code, tlv_iter_decode_node_state, tlv_iter_decode_vote,
  tlv_iter_decode_heuristics, tlv_iter_decode_tls_supported, tlv_iter_decode_node_list_type,
  tlv_iter_decode_quorate, tlv_iter_decode_keep_active_partition_tie_breaker,
  tlv_iter_decode_ring_id, tlv_iter_decode_tie_breaker, tlv_iter_decode_node_info,
}
use corosync_qdevice.Msg.Types.{MsgDecoded, msg_decoded_init, msg_get_type, msg_get_header_length}

-- A decoded value is stored in the message.
abbrev pub store_value : {A : Type 0} → Decoded A → (A → MsgDecoded) → Decoded MsgDecoded
store_value r store = then_decode r (λ a. ok (store a))

-- A string that cannot be decoded has found no memory.
abbrev pub as_no_memory : {A : Type 0} → Decoded A → Decoded A
as_no_memory (ok a) = ok a
as_no_memory (failed e) = failed no_memory

abbrev pub stored_nodes : Option NodeList → Decoded NodeList
stored_nodes none = failed no_memory
stored_nodes (some nodes) = ok nodes

-- The `switch` on the type of an option; an unknown option is skipped.
unfoldable pub option_switch : (ℕ → ℕ → Bool) → ℕ → TlvIterator → MsgDecoded → Decoded MsgDecoded
option_switch grants opt_type it m =
    let granted : ℕ → Bool = grants it.current_pos in
    if opt_type == opt_msg_seq_number
    then store_value (tlv_iter_decode_u32 it) (λ v. record m { seq_number = some v })
    else if opt_type == opt_cluster_name
    then store_value (as_no_memory (tlv_iter_decode_str (granted 0) it))
        (λ v. record m { cluster_name = some v })
    else if opt_type == opt_tls_supported
    then store_value (tlv_iter_decode_tls_supported it) (λ v. record m { tls_supported = some v })
    else if opt_type == opt_tls_client_cert_required
    then store_value (tlv_iter_decode_client_cert_required it)
        (λ v. record m { tls_client_cert_required = some v })
    else if opt_type == opt_supported_messages
    then store_value (enum_array (granted 1) (tlv_iter_decode_u16_array (granted 0) it))
        (λ v. record m { supported_messages = some v })
    else if opt_type == opt_supported_options
    then store_value (tlv_iter_decode_supported_options (granted 0) (granted 1) it)
        (λ v. record m { supported_options = some v })
    else if opt_type == opt_reply_error_code
    then store_value (tlv_iter_decode_reply_error_code it)
        (λ v. record m { reply_error_code = some v })
    else if opt_type == opt_server_maximum_request_size
    then store_value (tlv_iter_decode_u32 it)
        (λ v. record m { server_maximum_request_size = some v })
    else if opt_type == opt_server_maximum_reply_size
    then store_value (tlv_iter_decode_u32 it) (λ v. record m { server_maximum_reply_size = some v })
    else if opt_type == opt_node_id
    then store_value (tlv_iter_decode_u32 it) (λ v. record m { node_id = some v })
    else if opt_type == opt_supported_decision_algorithms
    then store_value (tlv_iter_decode_supported_decision_algorithms (granted 0) (granted 1) it)
        (λ v. record m { supported_decision_algorithms = some v })
    else if opt_type == opt_decision_algorithm
    then store_value (tlv_iter_decode_decision_algorithm it)
        (λ v. record m { decision_algorithm = some v })
    else if opt_type == opt_heartbeat_interval
    then store_value (tlv_iter_decode_u32 it) (λ v. record m { heartbeat_interval = some v })
    else if opt_type == opt_ring_id
    then store_value (tlv_iter_decode_ring_id it) (λ v. record m { ring_id = some v })
    else if opt_type == opt_config_version
    then store_value (tlv_iter_decode_u64 it) (λ v. record m { config_version = some v })
    else if opt_type == opt_data_center_id
    then store_value (tlv_iter_decode_u32 it) (λ v. record m { data_center_id = v })
    else if opt_type == opt_node_state
    then store_value (tlv_iter_decode_node_state it) (λ v. record m { node_state = v })
    else if opt_type == opt_node_info
    then then_decode (tlv_iter_decode_node_info it) (λ info.
      store_value (stored_nodes (node_list_add_from_node_info (granted 0) m.nodes info))
        (λ v. record m { nodes = v }))
    else if opt_type == opt_node_list_type
    then store_value (tlv_iter_decode_node_list_type it) (λ v. record m { node_list_type = some v })
    else if opt_type == opt_vote
    then store_value (tlv_iter_decode_vote it) (λ v. record m { vote = some v })
    else if opt_type == opt_quorate
    then store_value (tlv_iter_decode_quorate it) (λ v. record m { quorate = some v })
    else if opt_type == opt_tie_breaker
    then store_value (tlv_iter_decode_tie_breaker it) (λ v. record m { tie_breaker = some v })
    else if opt_type == opt_heuristics
    then store_value (tlv_iter_decode_heuristics it) (λ v. record m { heuristics = v })
    else if opt_type == opt_keep_active_partition_tie_breaker
    then store_value (tlv_iter_decode_keep_active_partition_tie_breaker it)
        (λ v. record m { keep_active_partition_tie_breaker = some v })
    else ok m

unfoldable pub msg_option : (ℕ → ℕ → Bool) → TlvIterator → MsgDecoded → Decoded MsgDecoded
msg_option grants it m = option_switch grants (tlv_iter_get_type it) it m

-- The loop over the options, with the number of rounds that it may take.
unfoldable pub msg_decode_loop :
    (ℕ → ℕ → Bool) → Memory → Dynar → ℕ → MsgDecoded × Option DecodeError
msg_decode_loop grants beyond msg fuel =
    each_option (msg_option grants) fuel (tlv_iter_init beyond msg msg_get_header_length)
      (msg_decoded_init (msg_get_type beyond msg))

-- The decoded message as the loop left it, and the error, if any. After an error only the options
-- before the one that failed count.
unfoldable pub msg_decode : (ℕ → ℕ → Bool) → Memory → Dynar → MsgDecoded × Option DecodeError
msg_decode grants beyond msg = msg_decode_loop grants beyond msg (dynar_size msg + 2)
