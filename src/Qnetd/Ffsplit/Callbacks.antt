-- ===== src/Qnetd/Ffsplit/Callbacks.antt =====
-- The callbacks of `struct qnetd_algorithm` in qdevices/qnetd-algo-ffsplit.c. `client` is the client
-- as it stands in the list of the cluster when the callback is called; arguments that the code does
-- not read are left out. `none` is the end of the server by a failed `assert`.
pub mod Replies
pub mod Leaving
pub mod Protocol
pub mod Safety
pub mod Abort
pub mod Careful
pub mod Shutdown
use corosync_qdevice.Prelude.{
  ℕ, Bool, true, false, ◌||◌, not, Option, some, List, [], ◌∷◌, ◌==◌, if◌then◌else◌, ◌>>=◌, is_some,
}
use corosync_qdevice.Tlv.Types.{
  RingId, Heuristics, Vote, ask_later, no_change, ReplyErrorCode, no_error, internal_error,
  invalid_config_node_list, invalid_membership_node_list, unsupported_decision_algorithm_message,
}
use corosync_qdevice.NodeList.{NodeList, node_list_find_node_id, node_list_size}
use corosync_qdevice.Qnetd.Client.{qnetd_cluster_size}
use corosync_qdevice.Qnetd.Ffsplit.Data.{
  Event, FfsplitClient, FfsplitCluster, ClusterState, ClientState, ClientData, sending_nacks,
  sending_acks,
}
use corosync_qdevice.Qnetd.Ffsplit.Votes.{with_state, send_votes, no_clients_in_sending_state}
use corosync_qdevice.Qnetd.Ffsplit.Do.{Reply, ffsplit_do}

-- A write through the pointer to a client.
unfoldable pub update_client :
    ℕ → (FfsplitClient → FfsplitClient) → List FfsplitClient → List FfsplitClient
update_client addr f [] = []
update_client addr f (c ∷ rest) = (if c.addr == addr then f c else c) ∷ update_client addr f rest

abbrev init_client_data : ClientData
init_client_data = record {
  client_state = ClientState.waiting_for_change;
  vote_info_expected_seq_num = 0;
}

unfoldable pub init_client : Bool → FfsplitClient → FfsplitCluster → FfsplitCluster × ReplyErrorCode
init_client granted client cluster =
    if granted
    then (
      record cluster {
        client_list =
            update_client client.addr (λ c. record c { algorithm_data = init_client_data })
              cluster.client_list;
      },
      no_error,
    )
    else (cluster, internal_error)

-- The two flags say whether `malloc` gave memory for the cluster's data and for the client's.
unfoldable pub client_init :
    Bool → Bool → FfsplitClient → FfsplitCluster → FfsplitCluster × ReplyErrorCode
client_init granted_cluster granted_client client cluster =
    let fresh = record cluster {
      algorithm_data = record {
        cluster_state = ClusterState.waiting_for_change;
        quorate_partition_node_list = [];
      };
    } in
    if qnetd_cluster_size cluster.client_list == 1
    then (if granted_cluster
        then init_client granted_client client fresh
        else (cluster, internal_error))
    else init_client granted_client client cluster

abbrev reply : FfsplitCluster → ReplyErrorCode → Vote → Option Reply
reply cluster code vote = some (record { cluster = cluster; code = code; vote = vote })

module _ (grants room : ℕ → Bool) (client : FfsplitClient) (cluster : FfsplitCluster) where
  unfoldable pub config_node_list_received : NodeList → Bool → Vote → Option Reply
  config_node_list_received nodes initial vote =
      if node_list_size nodes == 0
      then reply cluster invalid_config_node_list vote
      else if not (is_some (node_list_find_node_id nodes client.node_id))
      then reply cluster invalid_config_node_list vote
      else if initial || node_list_size client.last_membership_node_list == 0
      then reply cluster no_error ask_later
      else ffsplit_do grants room
          (record {
            client = client;
            client_leaving = false;
            ring_id = client.last_ring_id;
            config_node_list = nodes;
            membership_node_list = client.last_membership_node_list;
            client_heuristics = client.last_heuristics;
          })
          cluster vote

  unfoldable pub membership_node_list_received :
      RingId → NodeList → Heuristics → Vote → Option Reply
  membership_node_list_received ring_id nodes heuristics vote =
      if node_list_size nodes == 0
      then reply cluster invalid_membership_node_list vote
      else if not (is_some (node_list_find_node_id nodes client.node_id))
      then reply cluster invalid_membership_node_list vote
      else if node_list_size client.configuration_node_list == 0
      then reply cluster no_error ask_later
      else ffsplit_do grants room
          (record {
            client = client;
            client_leaving = false;
            ring_id = ring_id;
            config_node_list = client.configuration_node_list;
            membership_node_list = nodes;
            client_heuristics = heuristics;
          })
          cluster vote

  unfoldable pub heuristics_change_received : Heuristics → Vote → Option Reply
  heuristics_change_received heuristics vote =
      if node_list_size client.configuration_node_list == 0
        || node_list_size client.last_membership_node_list == 0
      then reply cluster no_error ask_later
      else ffsplit_do grants room
          (record {
            client = client;
            client_leaving = false;
            ring_id = client.last_ring_id;
            config_node_list = client.configuration_node_list;
            membership_node_list = client.last_membership_node_list;
            client_heuristics = heuristics;
          })
          cluster vote

  abbrev pub leave_event : Event
  leave_event = record {
    client = client;
    client_leaving = true;
    ring_id = client.last_ring_id;
    config_node_list = client.configuration_node_list;
    membership_node_list = client.last_membership_node_list;
    client_heuristics = client.last_heuristics;
  }

  -- The last client of a cluster takes the cluster's data with it.
  abbrev free_last : FfsplitCluster → FfsplitCluster
  free_last c =
      if qnetd_cluster_size c.client_list == 1
      then record c {
        algorithm_data = record (c.algorithm_data) { quorate_partition_node_list = [] };
      }
      else c

  -- The caller takes the client off the list afterwards (`qnetd_cluster_list_del_client`).
  unfoldable pub client_disconnect : Bool → Option FfsplitCluster
  client_disconnect server_going_down =
      if server_going_down
      then some (free_last cluster)
      else do r ← ffsplit_do grants room leave_event cluster no_change; some (free_last r.cluster)

  -- The last part of the handling of the reply to a vote: all votes of a kind are answered.
  abbrev set_state : List FfsplitClient → ClusterState → FfsplitCluster
  set_state clients state = record {
    client_list = clients;
    algorithm_data = record (cluster.algorithm_data) { cluster_state = state };
  }

  unfoldable pub nack_answered : List FfsplitClient → FfsplitCluster
  nack_answered clients =
      let (acked, acks) = send_votes room client false client.last_ring_id true clients in
      if no_clients_in_sending_state false clients == 0
      then set_state acked (if acks == 0 then ClusterState.waiting_for_change else sending_acks)
      else set_state clients sending_nacks

  unfoldable pub ack_answered : List FfsplitClient → FfsplitCluster
  ack_answered clients = set_state clients (
      if no_clients_in_sending_state true clients == 0
      then ClusterState.waiting_for_change
      else sending_acks)

  abbrev answered : ClusterState → List FfsplitClient → FfsplitCluster
  answered sending_nacks clients = nack_answered clients
  answered sending_acks clients = ack_answered clients
  answered state clients = set_state clients state

  unfoldable pub vote_info_reply_received : ℕ → FfsplitCluster × ReplyErrorCode
  vote_info_reply_received msg_seq_num =
      if not (client.algorithm_data.vote_info_expected_seq_num == msg_seq_num)
      then (cluster, no_error)
      else (
        answered cluster.algorithm_data.cluster_state (
            update_client client.addr (λ c. with_state c ClientState.waiting_for_change)
              cluster.client_list),
        no_error,
      )

  -- These two do not touch the state; the second leaves `*result_vote` as it is.
  unfoldable pub quorum_node_list_received : Option Reply
  quorum_node_list_received = reply cluster no_error no_change

  unfoldable pub ask_for_vote_received : Vote → Option Reply
  ask_for_vote_received vote = reply cluster unsupported_decision_algorithm_message vote
