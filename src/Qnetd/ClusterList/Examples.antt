-- ===== src/Qnetd/ClusterList/Examples.antt =====
-- The order of a cluster's clients at a list of two, which a third client joins and leaves.
use corosync_qdevice.Prelude.{ℕ, List, [], ◌∷◌, arith, In, false}
use corosync_qdevice.Tlv.Types.{lowest, Vote, Heuristics}
use corosync_qdevice.Qnetd.Client.{Client}
use corosync_qdevice.Qnetd.ClusterList.{add_client}
use corosync_qdevice.Qnetd.ClusterList.Sorted.{IsSortedFrom, add_client-IsSortedFrom}

abbrev client : ℕ → Client ℕ
client id = record {
  addr = id;
  node_id = id;
  decision_algorithm = 1;
  tie_breaker = record { mode = lowest; node_id = 0 };
  keep_active_partition_tie_breaker = false;
  configuration_node_list = [];
  last_membership_node_list = [];
  last_ring_id = record { node_id = 0; seq = 0 };
  last_heuristics = Heuristics.undefined;
  last_sent_vote = Vote.undefined;
  last_sent_ack_nack_vote = Vote.undefined;
  schedule_disconnect = false;
  send_buffer_list = [];
  algorithm_data = 0;
}

abbrev two : List (Client ℕ)
two = client 1 ∷ client 5 ∷ []

add_client-IsSortedFrom_example :
    IsSortedFrom 0 (add_client (client 3) two) × In (client 3) (add_client (client 3) two)
add_client-IsSortedFrom_example =
    add_client-IsSortedFrom 0 (client 3) two (omega arith) (omega arith, (omega arith, tt))
