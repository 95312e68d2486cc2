-- ===== src/Tlv/Add/Numbers.antt =====
-- The numbers on the wire: of the options, and of the enumerations, in qdevices/tlv.h.
use corosync_qdevice.Prelude.{ℕ}
use corosync_qdevice.Tlv.Types.{NodeState, TieBreakerMode, Vote, Heuristics, ReplyErrorCode}

abbrev pub opt_msg_seq_number : ℕ
opt_msg_seq_number = 0

abbrev pub opt_cluster_name : ℕ
opt_cluster_name = 1

abbrev pub opt_tls_supported : ℕ
opt_tls_supported = 2

abbrev pub opt_tls_client_cert_required : ℕ
opt_tls_client_cert_required = 3

abbrev pub opt_supported_messages : ℕ
opt_supported_messages = 4

abbrev pub opt_supported_options : ℕ
opt_supported_options = 5

abbrev pub opt_reply_error_code : ℕ
opt_reply_error_code = 6

abbrev pub opt_server_maximum_request_size : ℕ
opt_server_maximum_request_size = 7

abbrev pub opt_server_maximum_reply_size : ℕ
opt_server_maximum_reply_size = 8

abbrev pub opt_node_id : ℕ
opt_node_id = 9

abbrev pub opt_supported_decision_algorithms : ℕ
opt_supported_decision_algorithms = 10

abbrev pub opt_decision_algorithm : ℕ
opt_decision_algorithm = 11

abbrev pub opt_heartbeat_interval : ℕ
opt_heartbeat_interval = 12

abbrev pub opt_ring_id : ℕ
opt_ring_id = 13

abbrev pub opt_config_version : ℕ
opt_config_version = 14

abbrev pub opt_data_center_id : ℕ
opt_data_center_id = 15

abbrev pub opt_node_state : ℕ
opt_node_state = 16

abbrev pub opt_node_info : ℕ
opt_node_info = 17

abbrev pub opt_node_list_type : ℕ
opt_node_list_type = 18

abbrev pub opt_vote : ℕ
opt_vote = 19

abbrev pub opt_quorate : ℕ
opt_quorate = 20

abbrev pub opt_tie_breaker : ℕ
opt_tie_breaker = 21

abbrev pub opt_heuristics : ℕ
opt_heuristics = 22

abbrev pub opt_keep_active_partition_tie_breaker : ℕ
opt_keep_active_partition_tie_breaker = 23

abbrev pub node_state_number : NodeState → ℕ
node_state_number NodeState.not_set = 0
node_state_number NodeState.member = 1
node_state_number NodeState.dead = 2
node_state_number NodeState.leaving = 3

abbrev pub vote_number : Vote → ℕ
vote_number Vote.undefined = 0
vote_number Vote.ack = 1
vote_number Vote.nack = 2
vote_number Vote.ask_later = 3
vote_number Vote.wait_for_reply = 4
vote_number Vote.no_change = 5

abbrev pub heuristics_number : Heuristics → ℕ
heuristics_number Heuristics.undefined = 0
heuristics_number Heuristics.pass = 1
heuristics_number Heuristics.fail = 2

abbrev pub mode_number : TieBreakerMode → ℕ
mode_number TieBreakerMode.lowest = 1
mode_number TieBreakerMode.highest = 2
mode_number TieBreakerMode.node_id = 3

abbrev pub reply_error_code_number : ReplyErrorCode → ℕ
reply_error_code_number ReplyErrorCode.no_error = 0
reply_error_code_number ReplyErrorCode.unsupported_needed_message = 1
reply_error_code_number ReplyErrorCode.unsupported_needed_option = 2
reply_error_code_number ReplyErrorCode.tls_required = 3
reply_error_code_number ReplyErrorCode.unsupported_message = 4
reply_error_code_number ReplyErrorCode.message_too_long = 5
reply_error_code_number ReplyErrorCode.preinit_required = 6
reply_error_code_number ReplyErrorCode.doesnt_contain_required_option = 7
reply_error_code_number ReplyErrorCode.unexpected_message = 8
reply_error_code_number ReplyErrorCode.error_decoding_msg = 9
reply_error_code_number ReplyErrorCode.internal_error = 10
reply_error_code_number ReplyErrorCode.init_required = 11
reply_error_code_number ReplyErrorCode.unsupported_decision_algorithm = 12
reply_error_code_number ReplyErrorCode.invalid_heartbeat_interval = 13
reply_error_code_number ReplyErrorCode.unsupported_decision_algorithm_message = 14
reply_error_code_number ReplyErrorCode.tie_breaker_differs_from_other_nodes = 15
reply_error_code_number ReplyErrorCode.algorithm_differs_from_other_nodes = 16
reply_error_code_number ReplyErrorCode.duplicate_node_id = 17
reply_error_code_number ReplyErrorCode.invalid_config_node_list = 18
reply_error_code_number ReplyErrorCode.invalid_membership_node_list = 19
