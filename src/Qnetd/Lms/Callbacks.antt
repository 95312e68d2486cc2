-- ===== src/Qnetd/Lms/Callbacks.antt =====
-- The callbacks of `struct qnetd_algorithm` in qdevices/qnetd-algo-lms.c. Arguments that the code
-- does not read are left out; `client_disconnect` only frees the client's data, and
-- `vote_info_reply_received` only returns a constant.
use corosync_qdevice.Prelude.{ℕ, Bool, true, false, Option, none, some, List, [], if◌then◌else◌}
use corosync_qdevice.Tlv.Types.{RingId, Vote, ReplyErrorCode, no_error, no_change}
use corosync_qdevice.NodeList.{NodeList, node_list_size}
use corosync_qdevice.Qnetd.Lms.{LmsInfo, LmsClient, LmsReply, do_lms_algorithm}

-- `none` is TLV_REPLY_ERROR_CODE_INTERNAL_ERROR: `granted` is the answer of `malloc`.
unfoldable pub client_init : Bool → Option LmsInfo
client_init granted =
    if granted
    then some (record { num_config_nodes = 0; last_result = Vote.undefined; partition_list = [] })
    else none

module _ (grants : ℕ → Bool) (client : LmsClient) (clients : List LmsClient) where
  -- `timer` says whether the timer of the algorithm is scheduled already, here and below.
  unfoldable pub config_node_list_received : NodeList → Bool → LmsReply
  config_node_list_received nodes timer = record {
    info = record (client.algorithm_data) { num_config_nodes = node_list_size nodes };
    code = no_error;
    vote = no_change;
    timer = timer;
  }

  unfoldable pub membership_node_list_received : RingId → Vote → LmsReply
  membership_node_list_received ring_id vote = do_lms_algorithm grants client clients ring_id vote

  unfoldable pub quorum_node_list_received : Vote → LmsReply
  quorum_node_list_received vote = do_lms_algorithm grants client clients client.last_ring_id vote

  unfoldable pub ask_for_vote_received : Vote → LmsReply
  ask_for_vote_received vote = do_lms_algorithm grants client clients client.last_ring_id vote

  unfoldable pub heuristics_change_received : Bool → LmsReply
  heuristics_change_received timer = record {
    info = client.algorithm_data;
    code = no_error;
    vote = no_change;
    timer = timer;
  }

  -- Whether a vote is sent, and whether the timer is scheduled again.
  abbrev timer_answer : ReplyErrorCode → Vote → Bool × Bool
  timer_answer ReplyErrorCode.no_error Vote.ack = (true, false)
  timer_answer ReplyErrorCode.no_error Vote.nack = (true, false)
  timer_answer ReplyErrorCode.no_error Vote.wait_for_reply = (false, true)
  timer_answer code vote = (false, false)

  unfoldable pub timer_callback : Vote → LmsReply × Bool × Bool
  timer_callback vote =
      let r = do_lms_algorithm grants client clients client.last_ring_id vote in
      let (send_vote, reschedule_timer) = timer_answer r.code r.vote in
      (r, send_vote, reschedule_timer)
