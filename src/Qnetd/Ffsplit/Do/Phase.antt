-- ===== src/Qnetd/Ffsplit/Do/Phase.antt =====
-- The state of the cluster says which answers are still owed.
use corosync_qdevice.Prelude.{◌<◌, ◌≡◌, true, false, List}
use corosync_qdevice.NodeList.{NodeList}
use corosync_qdevice.Qnetd.Ffsplit.Data.{
  FfsplitClient, FfsplitCluster, ClusterState, waiting_for_stable_membership, sending_nacks,
  sending_acks,
}
use corosync_qdevice.Qnetd.Ffsplit.Votes.Counts.{owing, AckedIn}

-- What each state of the cluster promises of the clients, with the quorate partition.
abbrev pub Phase : ClusterState → NodeList → List FfsplitClient → Type 0
Phase ClusterState.waiting_for_change q cs = (owing false cs ≡ 0) × (owing true cs ≡ 0)
Phase waiting_for_stable_membership q cs = Unit
Phase sending_nacks q cs = (0 < owing false cs) × AckedIn q cs
Phase sending_acks q cs = (owing false cs ≡ 0) × (0 < owing true cs) × AckedIn q cs

abbrev pub IsSound : FfsplitCluster → Type 0
IsSound c =
    Phase c.algorithm_data.cluster_state c.algorithm_data.quorate_partition_node_list c.client_list
