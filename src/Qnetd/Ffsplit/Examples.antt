-- ===== src/Qnetd/Ffsplit/Examples.antt =====
-- The theorems on the fifty-fifty split algorithm at a cluster of three nodes, split in two and one.
use corosync_qdevice.Prelude.{
  ◌⊎◌, ℕ, ◌*◌, ◌≤◌, ◌<◌, ◌≡◌, refl, Bool, true, false, inl, inr, Option, none, some, List, [], ◌∷◌,
  arith, ◌+◌,
}
use corosync_qdevice.Tlv.Types.{
  RingId, NodeState, lowest, Heuristics, Vote, no_change, ReplyErrorCode, no_error,
}
use corosync_qdevice.NodeList.{
  NodeListEntry, NodeList, node_list_size, node_list_find_node_id, node_list_clone,
}
use corosync_qdevice.Qnetd.Client.{
  qnetd_cluster_size, qnetd_cluster_find_client_by_node_id, qnetd_client_send_vote_info,
}
use corosync_qdevice.Qnetd.ClusterList.{add_client, del_client}
use corosync_qdevice.Qnetd.Ffsplit.Data.{
  ClusterState, ClientState, FfsplitClient, FfsplitCluster, Event, config_of, membership_of,
  ring_id_of,
}
use corosync_qdevice.Qnetd.Ffsplit.Stable.{
  all_found, same_config, configs_inner, configs_outer, same_membership, members_inner, own_members,
  members_outer, is_membership_stable,
}
use corosync_qdevice.Qnetd.Ffsplit.Stable.Spec.{Within, Takes, stable_configs, stable_partitions}
use corosync_qdevice.Qnetd.Ffsplit.Partition.{
  Partition, lowest_loop, preferred_node_id, is_preferred_partition, stats_loop,
  get_active_clients_in_partition_stats, score, break_tie, cmp_halves, partition_cmp,
}
use corosync_qdevice.Qnetd.Ffsplit.Partition.Score.{score_exact, nodes_with, has_failed}
use corosync_qdevice.Qnetd.Ffsplit.Select.{
  all_keep_active, partition_of, better, select_loop, select_partition, membership_of_best,
}
use corosync_qdevice.Qnetd.Ffsplit.Select.Majority.{
  IsCandidate, select_partition_half, select_partition-none,
}
use corosync_qdevice.Qnetd.Ffsplit.Select.Best.{
  AllHalves, AllConfigured, score_of, select_partition_score,
}
use corosync_qdevice.Qnetd.Ffsplit.Do.Runs.{ffsplit_do_runs}
use corosync_qdevice.Qnetd.Ffsplit.Callbacks.Leaving.{client_disconnect_runs}
use corosync_qdevice.Qnetd.Ffsplit.Votes.{
  update_nodes_state, send_vote, send_round, send_loop, schedule_disconnect, send_votes,
}
use corosync_qdevice.Qnetd.Ffsplit.Do.{
  Reply, start_votes, apply_partition, store_partition, finish, ffsplit_do,
}
use corosync_qdevice.Qnetd.Ffsplit.Do.Phase.{IsSound}
use corosync_qdevice.Qnetd.Ffsplit.Do.Sound.{ffsplit_do-IsSound}
use corosync_qdevice.Qnetd.Ffsplit.Callbacks.{
  update_client, init_client, client_init, membership_node_list_received, leave_event,
  client_disconnect,
}
use corosync_qdevice.Qnetd.Ffsplit.Callbacks.Protocol.{
  Reach, started, stepped, Step, joined, stored, membership_received,
}
use corosync_qdevice.Qnetd.Ffsplit.Callbacks.Safety.{Reach-IsSound}
use corosync_qdevice.Qnetd.Ffsplit.Callbacks.Abort.{client_disconnect_aborts}

abbrev entry : ℕ → NodeListEntry
entry id = record { node_id = id; data_center_id = 0; node_state = NodeState.not_set }

abbrev nodes_of : List ℕ → NodeList
nodes_of [] = []
nodes_of (id ∷ ids) = entry id ∷ nodes_of ids

abbrev all_nodes : NodeList
all_nodes = nodes_of (1 ∷ 2 ∷ 3 ∷ [])

abbrev old_ring : RingId
old_ring = record { node_id = 1; seq = 4 }

abbrev ring : RingId
ring = record { node_id = 1; seq = 8 }

abbrev always : ℕ → Bool
always i = true

-- A client as it connects: it has sent nothing yet.
abbrev new_client : ℕ → FfsplitClient
new_client id = record {
  addr = id;
  node_id = id;
  decision_algorithm = 1;
  tie_breaker = record { mode = lowest; node_id = 0 };
  keep_active_partition_tie_breaker = false;
  configuration_node_list = [];
  last_membership_node_list = [];
  last_ring_id = old_ring;
  last_heuristics = Heuristics.undefined;
  last_sent_vote = Vote.undefined;
  last_sent_ack_nack_vote = Vote.undefined;
  schedule_disconnect = false;
  send_buffer_list = [];
  algorithm_data = record {
    client_state = ClientState.waiting_for_change;
    vote_info_expected_seq_num = 0;
  };
}

abbrev set_lists : RingId → NodeList → FfsplitClient → FfsplitClient
set_lists r members c = record c {
  configuration_node_list = all_nodes;
  last_membership_node_list = members;
  last_ring_id = r;
}

abbrev part12 : NodeList
part12 = nodes_of (1 ∷ 2 ∷ [])

abbrev client1 : FfsplitClient
client1 = set_lists old_ring all_nodes (new_client 1)

abbrev client2 : FfsplitClient
client2 = set_lists ring part12 (new_client 2)

abbrev client3 : FfsplitClient
client3 = set_lists (record { node_id = 3; seq = 8 }) (nodes_of (3 ∷ [])) (new_client 3)

abbrev clients : List FfsplitClient
clients = client1 ∷ client2 ∷ client3 ∷ []

abbrev cluster_of : List FfsplitClient → FfsplitCluster
cluster_of cs = record {
  client_list = cs;
  algorithm_data = record {
    cluster_state = ClusterState.waiting_for_change;
    quorate_partition_node_list = [];
  };
}

-- The first node learns of the split after the other two.
abbrev event : Event
event = record {
  client = client1;
  client_leaving = false;
  ring_id = ring;
  config_node_list = all_nodes;
  membership_node_list = part12;
  client_heuristics = Heuristics.undefined;
}

split_stable : is_membership_stable event clients ≡ true
unfolding is_membership_stable configs_outer configs_inner same_config all_found
    node_list_find_node_id members_outer own_members members_inner same_membership
    qnetd_cluster_find_client_by_node_id
split_stable = refl

stable_partitions_example :
    (ring_id_of event client1 ≡ ring_id_of event client2)
    × Within (membership_of event client1) (membership_of event client2)
unfolding qnetd_cluster_find_client_by_node_id node_list_find_node_id
stable_partitions_example =
    stable_partitions event clients split_stable client1 client2 client2 (inl refl, refl)
      (inr (inl refl), refl) (inr (inl refl), refl) (refl, refl) (refl, refl) refl refl refl

stable_configs_example : Within (config_of event client1) (config_of event client3)
stable_configs_example =
    stable_configs event clients split_stable client1 client3 (inl refl, refl)
      (inr (inr (inl refl)), refl) (λ e. omega arith)

select_split : select_partition event clients [] ≡ some (some part12)
unfolding select_partition all_keep_active select_loop better partition_cmp cmp_halves break_tie
    is_preferred_partition score stats_loop get_active_clients_in_partition_stats node_list_size
    qnetd_cluster_find_client_by_node_id preferred_node_id lowest_loop node_list_find_node_id
select_split = refl

select_partition_half_example :
    (c : FfsplitClient) × Takes event clients c
    × (part12 ≡ membership_of event c)
    × (node_list_size (config_of event c) ≤ 2 * node_list_size part12)
select_partition_half_example = select_partition_half event clients [] part12 select_split

-- Three clients of five: nobody has a half.
abbrev lonely : ℕ → FfsplitClient
lonely id = set_lists ring (nodes_of (id ∷ [])) (new_client id)

abbrev lonely_event : Event
lonely_event = leave_event always always (new_client 9) (cluster_of [])

select_nothing : select_partition lonely_event (lonely 1 ∷ lonely 2 ∷ []) [] ≡ some none
unfolding select_partition all_keep_active select_loop better partition_cmp cmp_halves break_tie
    is_preferred_partition score stats_loop get_active_clients_in_partition_stats node_list_size
    qnetd_cluster_find_client_by_node_id preferred_node_id lowest_loop node_list_find_node_id
select_nothing = refl

select_partition-none_example :
    2 * node_list_size (membership_of lonely_event (lonely 1))
    < node_list_size (config_of lonely_event (lonely 1))
unfolding qnetd_cluster_find_client_by_node_id node_list_find_node_id
select_partition-none_example =
    select_partition-none lonely_event (lonely 1 ∷ lonely 2 ∷ []) [] (lonely 1) select_nothing
      (inl refl, refl) refl refl

score_exact_example :
    score (get_active_clients_in_partition_stats clients (some (partition_of event client1)))
      + nodes_with has_failed clients (partition_of event client1) (membership_of event client1)
    ≡ 2
unfolding node_list_size qnetd_cluster_find_client_by_node_id
score_exact_example = score_exact clients (partition_of event client1) (omega arith)

abbrev result : FfsplitCluster → Option Reply → Reply
result cluster none = record { cluster = cluster; code = no_error; vote = no_change }
result cluster (some r) = r

abbrev decided : Reply
decided = result (cluster_of []) (ffsplit_do always always event (cluster_of clients) no_change)

decided_eq : ffsplit_do always always event (cluster_of clients) no_change ≡ some decided
unfolding ffsplit_do
decided_eq = rw (split_stable, select_split) refl

ffsplit_do-IsSound_example : IsSound decided.cluster
ffsplit_do-IsSound_example =
    ffsplit_do-IsSound always always event (cluster_of clients) no_change decided_eq

client_disconnect_aborts_example :
    client_disconnect always always
      (new_client 1)
      (cluster_of (new_client 1 ∷ new_client 2 ∷ []))
      false
    ≡ none
client_disconnect_aborts_example =
    client_disconnect_aborts always always (new_client 1)
      (cluster_of (new_client 1 ∷ new_client 2 ∷ [])) (new_client 2)
      (inl refl, (inr (record { no_config = refl; no_membership = refl; by_list = λ e. cc }), tt))
      (inr (inl refl)) (λ e. omega arith)

-- A cluster of two of the nodes, up to its first decision.
abbrev state0 : FfsplitCluster
state0 =
    (client_init true true (new_client 1)
      (record (cluster_of []) { client_list = add_client (new_client 1) [] })).0

abbrev joining : FfsplitCluster → FfsplitCluster × ReplyErrorCode
joining c =
    client_init true true (new_client 2)
      (record c { client_list = add_client (new_client 2) c.client_list })

abbrev store : ℕ → FfsplitCluster → FfsplitCluster
store addr c = record c { client_list = update_client addr (set_lists ring part12) c.client_list }

abbrev state3 : FfsplitCluster
state3 = store 2 (store 1 (joining state0).0)

abbrev first : FfsplitClient
first = set_lists ring part12 (new_client 1)

abbrev received : Reply
received = result (cluster_of []) (
    membership_node_list_received always always first state3 ring part12 Heuristics.undefined
      no_change)

reach0 : Reach state0
unfolding client_init init_client qnetd_cluster_size add_client update_client
reach0 = started (new_client 1) (cluster_of []) refl

reach3 : Reach state3
unfolding client_init init_client qnetd_cluster_size add_client update_client
reach3 =
    let one =
      stepped reach0
        (joined true true (new_client 2) ((λ e. omega arith), tt) (omega arith) refl) in
    stepped (stepped one (stored 1 (set_lists ring part12) (λ c. (refl, refl, refl)) refl))
      (stored 2 (set_lists ring part12) (λ c. (refl, refl, refl)) refl)

step4 : Step state3 received.cluster
unfolding membership_node_list_received ffsplit_do finish apply_partition store_partition
    start_votes update_nodes_state send_votes send_loop send_round send_vote schedule_disconnect
    qnetd_client_send_vote_info node_list_clone client_init init_client qnetd_cluster_size
    add_client update_client is_membership_stable configs_outer configs_inner same_config all_found
    node_list_find_node_id members_outer own_members members_inner same_membership
    qnetd_cluster_find_client_by_node_id select_partition all_keep_active select_loop better
    partition_cmp cmp_halves break_tie is_preferred_partition score stats_loop
    get_active_clients_in_partition_stats node_list_size preferred_node_id lowest_loop
step4 =
    membership_received always always first ring part12 Heuristics.undefined no_change received
      (inl refl) refl refl

Reach-IsSound_example : IsSound received.cluster
Reach-IsSound_example = Reach-IsSound (stepped reach3 step4)

set_lists-runs : AllConfigured event clients
unfolding node_list_size
set_lists-runs c (inl p, takes) = rw p (omega arith)
set_lists-runs c (inr (inl p), takes) = rw p (omega arith)
set_lists-runs c (inr (inr (inl p)), takes) = rw p (omega arith)
set_lists-runs c (inr (inr (inr m)), takes) = absurd m

ffsplit_do_runs_example :
    (r : Reply) × (ffsplit_do always always event (cluster_of clients) no_change ≡ some r)
ffsplit_do_runs_example =
    ffsplit_do_runs always always event (cluster_of clients) no_change set_lists-runs

-- Two halves of a cluster of two, of which the second passes its heuristics.
abbrev half : ℕ → Heuristics → FfsplitClient
half id h = record (new_client id) {
  configuration_node_list = part12;
  last_membership_node_list = nodes_of (id ∷ []);
  last_ring_id = record { node_id = id; seq = 8 };
  last_heuristics = h;
}

abbrev halves : List FfsplitClient
halves = half 1 Heuristics.fail ∷ half 2 Heuristics.pass ∷ []

halves-AllHalves : AllHalves lonely_event halves
unfolding node_list_size
halves-AllHalves c (inl p, takes) = rw p refl
halves-AllHalves c (inr (inl p), takes) = rw p refl
halves-AllHalves c (inr (inr m), takes) = absurd m

select_half : select_partition lonely_event halves [] ≡ some (some (nodes_of (2 ∷ [])))
unfolding select_partition all_keep_active select_loop better partition_cmp cmp_halves break_tie
    is_preferred_partition score stats_loop get_active_clients_in_partition_stats node_list_size
    qnetd_cluster_find_client_by_node_id preferred_node_id lowest_loop node_list_find_node_id
select_half = refl

select_partition_score_example :
    (r : Option Partition) × (membership_of_best r ≡ some (nodes_of (2 ∷ [])))
    × IsCandidate lonely_event halves r
    × ((c : FfsplitClient)
        → Takes lonely_event halves c
        → score_of halves (some (partition_of lonely_event c)) ≤ score_of halves r)
select_partition_score_example =
    select_partition_score lonely_event halves [] halves-AllHalves select_half

-- The first node leaves; its peers decide.
abbrev leaving : Event
leaving = leave_event always always client1 (cluster_of clients)

leaving-AllConfigured : AllConfigured leaving clients
unfolding node_list_size
leaving-AllConfigured c (inl p, takes) = rw p (omega arith)
leaving-AllConfigured c (inr (inl p), takes) = rw p (omega arith)
leaving-AllConfigured c (inr (inr (inl p)), takes) = rw p (omega arith)
leaving-AllConfigured c (inr (inr (inr m)), takes) = absurd m

client_disconnect_runs_example :
    (c : FfsplitCluster) × (client_disconnect always always client1 (cluster_of clients) false
      ≡ some c)
    × ((qnetd_cluster_size c.client_list ≡ 1)
        ⊎ IsSound (record c { client_list = del_client 1 c.client_list }))
client_disconnect_runs_example =
    client_disconnect_runs always always client1 (cluster_of clients) leaving-AllConfigured
      (λ e. refl, (λ e. omega arith, (λ e. omega arith, tt)))

-- The second node sends another init message, and then the server goes down.
abbrev renamed : FfsplitCluster
renamed = record state3 {
  client_list = update_client 2 (λ c. record c { node_id = 7 }) state3.client_list;
}

abbrev shut_down : FfsplitCluster
shut_down = record renamed { client_list = del_client 1 renamed.client_list }
