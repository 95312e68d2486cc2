-- ===== src/Qnetd/Messages/Received.antt =====
-- `qnetd_client_msg_received`: the choice of the handler by the type of the message.
use corosync_qdevice.Prelude.{ℕ, Bool, Option, none, some, List, ltb, ◌==◌, if◌then◌else◌}
use corosync_qdevice.Tlv.Types.{error_decoding_msg, unsupported_message}
use corosync_qdevice.Tlv.Bytes.{Memory}
use corosync_qdevice.Tlv.Each.{DecodeError}
use corosync_qdevice.Dynar.{Dynar}
use corosync_qdevice.Msg.Types.{MsgDecoded}
use corosync_qdevice.Msg.Decode.{msg_decode}
use corosync_qdevice.Qnetd.Algorithm.{Registry}
use corosync_qdevice.Qnetd.Messages.Server.{Settings, Answers, Server, Handled}
use corosync_qdevice.Qnetd.Messages.Simple.{
  refuse, received_preinit, received_unexpected, received_starttls, received_set_option,
  received_echo_request,
}
use corosync_qdevice.Qnetd.Messages.Init.{received_init}
use corosync_qdevice.Qnetd.Messages.Reports.{
  received_node_list, received_ask_for_vote, received_vote_info_reply, received_heuristics_change,
}

-- What a message asks for.
pub data Request : Type 0 where
  preinit starttls init set_option echo_request node_list ask_for_vote vote_info_reply
        heuristics_change unexpected unsupported :
      Request

-- The `switch`: the handlers of the other types of `enum msg_type`, which only a server sends, do
-- the same.
abbrev pub request_of : ℕ → Request
request_of n =
    if n == 0
    then Request.preinit
    else if n == 2
    then Request.starttls
    else if n == 3
    then Request.init
    else if n == 6
    then Request.set_option
    else if n == 8
    then Request.echo_request
    else if n == 10
    then Request.node_list
    else if n == 12
    then Request.ask_for_vote
    else if n == 15
    then Request.vote_info_reply
    else if n == 16
    then Request.heuristics_change
    else if ltb n 18
    then Request.unexpected
    else Request.unsupported

module _ {D E : Type 0} (registry : Registry D E) (no_data : E) (settings : Settings)
    (answers : Answers) where
  -- A message that was decoded, with its bytes.
  unfoldable pub handle : MsgDecoded → List ℕ → Request → Server D E → Handled D E
  handle msg bytes Request.preinit = received_preinit settings answers msg
  handle msg bytes Request.starttls = received_starttls settings answers msg
  handle msg bytes Request.init = received_init registry no_data settings answers msg
  handle msg bytes Request.set_option = received_set_option settings answers msg
  handle msg bytes Request.echo_request = received_echo_request settings answers msg bytes
  handle msg bytes Request.node_list = received_node_list registry settings answers msg
  handle msg bytes Request.ask_for_vote = received_ask_for_vote registry settings answers msg
  handle msg bytes Request.vote_info_reply = received_vote_info_reply registry settings answers msg
  handle msg bytes Request.heuristics_change =
      received_heuristics_change registry settings answers msg
  handle msg bytes Request.unexpected = received_unexpected settings answers msg
  handle msg bytes Request.unsupported = refuse settings answers msg unsupported_message

  abbrev pub handle_decoded : List ℕ → MsgDecoded × Option DecodeError → Server D E → Handled D E
  handle_decoded bytes (msg, none) = handle msg bytes (request_of msg.msg_type)
  handle_decoded bytes (msg, some e) = refuse settings answers msg error_decoding_msg

  -- The receive buffer is decoded, with the answers of `malloc` and what memory holds after it.
  unfoldable pub qnetd_client_msg_received :
      (ℕ → ℕ → Bool) → Memory → Dynar → Server D E → Handled D E
  qnetd_client_msg_received grants beyond receive_buffer =
      handle_decoded receive_buffer.bytes (msg_decode grants beyond receive_buffer)
