-- ===== src/Msg/Types.antt =====
-- The types of messages and their names on the wire (`enum msg_type` of qdevices/msg.h), the header
-- of a message, and what `msg_decode` fills in.
use corosync_qdevice.Prelude.{
  ℕ, ◌+◌, Bool, false, Option, none, some, List, [], ◌∷◌, ◌++◌, take, drop, ◌==◌, ◌||◌,
}
use corosync_qdevice.Dynar.{Dynar}
use corosync_qdevice.NodeList.{NodeList}
use corosync_qdevice.Tlv.Types.{RingId, NodeState, TieBreaker, Vote, Heuristics}
use corosync_qdevice.Tlv.Bytes.{Memory, memory_of, be_bytes, read_be}

pub data MsgType : Type 0 where
  preinit preinit_reply starttls init init_reply server_error set_option set_option_reply
        echo_request echo_reply node_list node_list_reply ask_for_vote ask_for_vote_reply vote_info
        vote_info_reply heuristics_change heuristics_change_reply :
      MsgType

abbrev pub msg_type_number : MsgType → ℕ
msg_type_number MsgType.preinit = 0
msg_type_number MsgType.preinit_reply = 1
msg_type_number MsgType.starttls = 2
msg_type_number MsgType.init = 3
msg_type_number MsgType.init_reply = 4
msg_type_number MsgType.server_error = 5
msg_type_number MsgType.set_option = 6
msg_type_number MsgType.set_option_reply = 7
msg_type_number MsgType.echo_request = 8
msg_type_number MsgType.echo_reply = 9
msg_type_number MsgType.node_list = 10
msg_type_number MsgType.node_list_reply = 11
msg_type_number MsgType.ask_for_vote = 12
msg_type_number MsgType.ask_for_vote_reply = 13
msg_type_number MsgType.vote_info = 14
msg_type_number MsgType.vote_info_reply = 15
msg_type_number MsgType.heuristics_change = 16
msg_type_number MsgType.heuristics_change_reply = 17

abbrev pub msg_static_supported_messages : List MsgType
msg_static_supported_messages =
    MsgType.preinit ∷ MsgType.preinit_reply ∷ MsgType.starttls ∷ MsgType.init ∷ MsgType.init_reply
    ∷ MsgType.server_error ∷ MsgType.set_option ∷ MsgType.set_option_reply ∷ MsgType.echo_request
    ∷ MsgType.echo_reply ∷ MsgType.node_list ∷ MsgType.node_list_reply ∷ MsgType.ask_for_vote
    ∷ MsgType.ask_for_vote_reply ∷ MsgType.vote_info ∷ MsgType.vote_info_reply
    ∷ MsgType.heuristics_change ∷ MsgType.heuristics_change_reply ∷ []

abbrev pub msg_get_header_length : ℕ
msg_get_header_length = 2 + 4

-- `beyond` is what memory holds after the bytes of the message.
abbrev pub msg_get_type : Memory → Dynar → ℕ
msg_get_type beyond msg = read_be 2 (memory_of msg.bytes beyond) 0

abbrev pub msg_get_len : Memory → Dynar → ℕ
msg_get_len beyond msg = read_be 4 (memory_of msg.bytes beyond) 2

-- The message holds at least its header.
unfoldable pub msg_set_len : Dynar → ℕ → Dynar
msg_set_len msg len = record msg {
  bytes = take 2 msg.bytes ++ (be_bytes 4 len ++ drop 6 msg.bytes);
}

-- The message holds at least its type.
unfoldable pub msg_set_type : Dynar → MsgType → Dynar
msg_set_type msg msg_type = record msg {
  bytes = be_bytes 2 (msg_type_number msg_type) ++ drop 2 msg.bytes;
}

abbrev pub supported_loop : ℕ → List MsgType → Bool
supported_loop n [] = false
supported_loop n (supported ∷ rest) = msg_type_number supported == n || supported_loop n rest

unfoldable pub msg_is_valid_msg_type : Memory → Dynar → Bool
msg_is_valid_msg_type beyond msg =
    supported_loop (msg_get_type beyond msg) msg_static_supported_messages

-- `none` is an option that was not set, or NULL; `msg_type` and the smaller enumerations are kept as
-- their numbers.
pub record MsgDecoded : Type 0 where
  pub msg_type : ℕ
  pub seq_number : Option ℕ
  pub cluster_name : Option (List ℕ)
  pub tls_supported : Option ℕ
  pub tls_client_cert_required : Option ℕ
  pub supported_messages : Option (List ℕ)
  pub supported_options : Option (List ℕ)
  pub reply_error_code : Option ℕ
  pub server_maximum_request_size : Option ℕ
  pub server_maximum_reply_size : Option ℕ
  pub node_id : Option ℕ
  pub supported_decision_algorithms : Option (List ℕ)
  pub decision_algorithm : Option ℕ
  pub heartbeat_interval : Option ℕ
  pub ring_id : Option RingId
  pub config_version : Option ℕ
  pub data_center_id : ℕ
  pub node_state : NodeState
  pub nodes : NodeList
  pub node_list_type : Option ℕ
  pub vote : Option Vote
  pub quorate : Option ℕ
  pub tie_breaker : Option TieBreaker
  pub heuristics : Heuristics
  pub keep_active_partition_tie_breaker : Option ℕ

-- `msg_decoded_init`, and the type that `msg_decode` reads first.
unfoldable pub msg_decoded_init : ℕ → MsgDecoded
msg_decoded_init msg_type = record {
  msg_type = msg_type;
  seq_number = none;
  cluster_name = none;
  tls_supported = none;
  tls_client_cert_required = none;
  supported_messages = none;
  supported_options = none;
  reply_error_code = none;
  server_maximum_request_size = none;
  server_maximum_reply_size = none;
  node_id = none;
  supported_decision_algorithms = none;
  decision_algorithm = none;
  heartbeat_interval = none;
  ring_id = none;
  config_version = none;
  data_center_id = 0;
  node_state = NodeState.not_set;
  nodes = [];
  node_list_type = none;
  vote = none;
  quorate = none;
  tie_breaker = none;
  heuristics = Heuristics.undefined;
  keep_active_partition_tie_breaker = none;
}

-- A field that was not set reads as the zero that `memset` left.
abbrev pub or_zero : Option ℕ → ℕ
or_zero none = 0
or_zero (some n) = n
