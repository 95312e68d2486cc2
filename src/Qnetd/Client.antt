-- ===== src/Qnetd/Client.antt =====
-- `struct qnetd_client` and `struct qnetd_cluster` (qdevices/qnetd-client.h, qdevices/qnetd-cluster.h),
-- the lookups of qdevices/qnetd-cluster.c, and `qnetd_client_send_vote_info` of
-- qdevices/qnetd-client-send.c.
-- The fields are those that the decision algorithms, or the handling of messages of another client,
-- read or write. `algorithm_data` has the type of
-- the algorithm's own data. A pointer to a client is its `addr`.
use corosync_qdevice.Prelude.{
  ℕ, ◌+◌, Bool, true, false, Option, none, some, List, [], ◌∷◌, ◌++◌, ◌==◌, if◌then◌else◌,
}
use corosync_qdevice.Tlv.Types.{RingId, TieBreaker, Vote, Heuristics, ReplyErrorCode}
use corosync_qdevice.NodeList.{NodeList}

pub data TlsSupport : Type 0 where
  unsupported supported required : TlsSupport

-- A message in a client's send buffer list: the arguments of the function `msg_create_*` that made
-- it. `none` is a sequence number that is left out; an init reply tells whether the lists of the
-- supported messages and options are sent, and the maximum sizes.
pub data Outgoing : Type 0 where
  vote_info : ℕ → RingId → Vote → Outgoing
  server_error : Option ℕ → ReplyErrorCode → Outgoing
  preinit_reply : Option ℕ → TlsSupport → Bool → Outgoing
  init_reply : Option ℕ → ReplyErrorCode → Bool → Bool → ℕ → ℕ → Outgoing
  set_option_reply : Option ℕ → Option ℕ → Option Bool → Outgoing
  echo_reply : List ℕ → Outgoing
  node_list_reply : ℕ → ℕ → RingId → Vote → Outgoing
  ask_for_vote_reply : ℕ → RingId → Vote → Outgoing
  heuristics_change_reply : ℕ → RingId → Heuristics → Vote → Outgoing

pub record Client (D : Type 0) : Type 0 where
  pub addr : ℕ
  pub node_id : ℕ
  pub decision_algorithm : ℕ
  pub tie_breaker : TieBreaker
  pub keep_active_partition_tie_breaker : Bool
  pub configuration_node_list : NodeList
  pub last_membership_node_list : NodeList
  pub last_ring_id : RingId
  pub last_heuristics : Heuristics
  pub last_sent_vote : Vote
  pub last_sent_ack_nack_vote : Vote
  pub schedule_disconnect : Bool
  pub send_buffer_list : List Outgoing
  pub algorithm_data : D

-- `E` is the type of the data that an algorithm keeps for the cluster.
pub record Cluster (D E : Type 0) : Type 0 where
  pub client_list : List (Client D)
  pub algorithm_data : E

abbrev pub is_ack_or_nack : Vote → Bool
is_ack_or_nack Vote.ack = true
is_ack_or_nack Vote.nack = true
is_ack_or_nack v = false

module _ {D : Type 0} where
  unfoldable pub qnetd_cluster_size : List (Client D) → ℕ
  qnetd_cluster_size [] = 0
  qnetd_cluster_size (c ∷ clients) = qnetd_cluster_size clients + 1

  unfoldable pub qnetd_cluster_find_client_by_node_id : List (Client D) → ℕ → Option (Client D)
  qnetd_cluster_find_client_by_node_id [] id = none
  qnetd_cluster_find_client_by_node_id (c ∷ clients) id =
      if c.node_id == id then some c else qnetd_cluster_find_client_by_node_id clients id

  -- The second part is false for the result -1. `granted` says whether a send buffer was to be had
  -- and the message fitted in it.
  unfoldable pub qnetd_client_send_vote_info : Bool → Client D → ℕ → RingId → Vote → Client D × Bool
  qnetd_client_send_vote_info granted client seq ring vote =
      let stored = record client {
        last_sent_vote = vote;
        last_sent_ack_nack_vote =
            if is_ack_or_nack vote then vote else client.last_sent_ack_nack_vote;
      } in
      if granted
      then (
        record stored {
          send_buffer_list = client.send_buffer_list ++ Outgoing.vote_info seq ring vote ∷ [];
        },
        true,
      )
      else (stored, false)
