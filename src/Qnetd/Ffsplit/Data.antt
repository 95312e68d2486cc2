-- ===== src/Qnetd/Ffsplit/Data.antt =====
-- The state of qdevices/qnetd-algo-ffsplit.c, and the arguments of `qnetd_algo_ffsplit_do`.
use corosync_qdevice.Prelude.{ℕ, Bool, ◌==◌, if◌then◌else◌}
use corosync_qdevice.Tlv.Types.{RingId, Heuristics}
use corosync_qdevice.NodeList.{NodeList}
use corosync_qdevice.Qnetd.Client.{Client, Cluster}

pub data ClusterState : Type 0 where
  waiting_for_change waiting_for_stable_membership sending_nacks sending_acks : ClusterState

pub record ClusterData : Type 0 where
  pub cluster_state : ClusterState
  pub quorate_partition_node_list : NodeList

pub data ClientState : Type 0 where
  waiting_for_change sending_nack sending_ack : ClientState

pub record ClientData : Type 0 where
  pub client_state : ClientState
  pub vote_info_expected_seq_num : ℕ

abbrev pub FfsplitClient : Type 0
FfsplitClient = Client ClientData

abbrev pub FfsplitCluster : Type 0
FfsplitCluster = Cluster ClientData ClusterData

-- The client that an event came from, and what the event says of it: these override what the
-- server has stored for this client, which is updated only when the algorithm is done.
pub record Event : Type 0 where
  pub client : FfsplitClient
  pub client_leaving : Bool
  pub ring_id : RingId
  pub config_node_list : NodeList
  pub membership_node_list : NodeList
  pub client_heuristics : Heuristics

module _ (e : Event) (iter : FfsplitClient) where
  abbrev pub is_self : Bool
  is_self = iter.node_id == e.client.node_id

  abbrev pub config_of : NodeList
  config_of = if is_self then e.config_node_list else iter.configuration_node_list

  abbrev pub membership_of : NodeList
  membership_of = if is_self then e.membership_node_list else iter.last_membership_node_list

  abbrev pub ring_id_of : RingId
  ring_id_of = if is_self then e.ring_id else iter.last_ring_id

  abbrev pub heuristics_of : Heuristics
  heuristics_of = if is_self then e.client_heuristics else iter.last_heuristics
