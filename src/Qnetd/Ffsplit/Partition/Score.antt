-- ===== src/Qnetd/Ffsplit/Partition/Score.antt =====
-- The counts that `qnetd_algo_ffsplit_get_active_clients_in_partition_stats` returns, and the score.
use corosync_qdevice.Prelude.{
  ℕ, Bool, true, false, ◌==◌, if◌then◌else◌, ◌+◌, ◌^◌, ◌≤◌, ◌<◌, ◌≡◌, Option, none, some, List, [],
  ◌∷◌, arith,
}
use corosync_qdevice.Tlv.Types.{Heuristics}
use corosync_qdevice.NodeList.{NodeList, node_list_size}
use corosync_qdevice.Qnetd.Client.{qnetd_cluster_find_client_by_node_id}
use corosync_qdevice.Qnetd.Ffsplit.Data.{FfsplitClient}
use corosync_qdevice.Qnetd.Ffsplit.Partition.{
  Partition, Stats, no_stats, count_heuristics, count_client, stats_loop,
  get_active_clients_in_partition_stats, score,
}

-- Passes and failures together are no more than the clients counted, and these no more than `n`.
pub record IsCount (n : ℕ) (s : Stats) : Type 0 where
  pub split : s.no_heuristics_pass + s.no_heuristics_fail ≤ s.no_clients
  pub bounded : s.no_clients ≤ n

count_heuristics-IsCount :
    (n : ℕ) (h : Heuristics) (s : Stats)
    → IsCount n s
    → IsCount (n + 1) (count_heuristics h (record s { no_clients = s.no_clients + 1 }))
count_heuristics-IsCount n Heuristics.undefined s c = omega arith
count_heuristics-IsCount n h s c = omega arith

count_client-IsCount :
    (n : ℕ) (part : Partition) (found : Option FfsplitClient) (s : Stats)
    → IsCount n s
    → IsCount (n + 1) (count_client part found s)
count_client-IsCount n part none s c = omega arith
count_client-IsCount n part (some iter) s c = count_heuristics-IsCount n _ s c

stats_loop-IsCount :
    (clients : List FfsplitClient) (part : Partition) (list : NodeList) (n : ℕ) (s : Stats)
    → IsCount n s
    → IsCount (n + node_list_size list) (stats_loop clients part list s)
unfolding stats_loop node_list_size
stats_loop-IsCount clients part [] n s c = omega arith
stats_loop-IsCount clients part (x ∷ list) n s c =
    let found = qnetd_cluster_find_client_by_node_id clients x.node_id in
    let rest =
      stats_loop-IsCount clients part list (n + 1) _ (count_client-IsCount n part found s c) in
    record { split = rest.split; bounded = omega arith }

pub stats-IsCount :
    (clients : List FfsplitClient) (part : Partition)
    → IsCount
        (node_list_size part.membership_node_list)
        (get_active_clients_in_partition_stats clients (some part))
unfolding get_active_clients_in_partition_stats
stats-IsCount clients part =
    let c = stats_loop-IsCount clients part part.membership_node_list 0 no_stats (omega arith) in
    record { split = c.split; bounded = omega arith }

-- What is known of a node, by its id: nothing if no client of that id is connected, else the result of
-- that client's heuristics, which is the partition's own one for the client that stands for it.
abbrev pub verdict_of : Partition → Option FfsplitClient → Option Heuristics
verdict_of part none = none
verdict_of part (some c) =
    some (if c.addr == part.client.addr then part.heuristics else c.last_heuristics)

abbrev pub verdict : List FfsplitClient → Partition → ℕ → Option Heuristics
verdict clients part id = verdict_of part (qnetd_cluster_find_client_by_node_id clients id)

abbrev pub is_connected : Option Heuristics → Bool
is_connected none = false
is_connected (some h) = true

abbrev pub has_passed : Option Heuristics → Bool
has_passed (some Heuristics.pass) = true
has_passed h = false

abbrev pub has_failed : Option Heuristics → Bool
has_failed (some Heuristics.fail) = true
has_failed h = false

-- One for a verdict that meets the test.
abbrev pub one_if : Bool → ℕ
one_if b = if b then 1 else 0

-- The number of nodes of a list whose verdict meets a test.
abbrev pub nodes_with : (Option Heuristics → Bool) → List FfsplitClient → Partition → NodeList → ℕ
nodes_with test clients part [] = 0
nodes_with test clients part (n ∷ list) =
    one_if (test (verdict clients part n.node_id)) + nodes_with test clients part list

-- `t` counts a verdict more than `s`.
record Counted (v : Option Heuristics) (s t : Stats) : Type 0 where
  connected : t.no_clients ≡ s.no_clients + one_if (is_connected v)
  passed : t.no_heuristics_pass ≡ s.no_heuristics_pass + one_if (has_passed v)
  failed : t.no_heuristics_fail ≡ s.no_heuristics_fail + one_if (has_failed v)

count_heuristics-Counted :
    (h : Heuristics) (s : Stats)
    → Counted (some h) s (count_heuristics h (record s { no_clients = s.no_clients + 1 }))
count_heuristics-Counted Heuristics.undefined s = omega arith
count_heuristics-Counted Heuristics.pass s = omega arith
count_heuristics-Counted Heuristics.fail s = omega arith

count_client-Counted :
    (part : Partition) (found : Option FfsplitClient) (s : Stats)
    → Counted (verdict_of part found) s (count_client part found s)
count_client-Counted part none s = omega arith
count_client-Counted part (some c) s = count_heuristics-Counted _ s

-- `t` counts the nodes of the list more than `s`.
record Counts (clients : List FfsplitClient) (part : Partition) (list : NodeList) (s t : Stats)
    : Type 0 where
  connected : t.no_clients ≡ s.no_clients + nodes_with is_connected clients part list
  passed : t.no_heuristics_pass ≡ s.no_heuristics_pass + nodes_with has_passed clients part list
  failed : t.no_heuristics_fail ≡ s.no_heuristics_fail + nodes_with has_failed clients part list

stats_loop-Counts :
    (clients : List FfsplitClient) (part : Partition) (list : NodeList) (s : Stats)
    → Counts clients part list s (stats_loop clients part list s)
unfolding stats_loop
stats_loop-Counts clients part [] s = omega arith
stats_loop-Counts clients part (n ∷ list) s =
    let found = qnetd_cluster_find_client_by_node_id clients n.node_id in
    let one = count_client-Counted part found s in
    let rest = stats_loop-Counts clients part list (count_client part found s) in
    record {
      connected = omega (arith, one.connected, rest.connected);
      passed = omega (arith, one.passed, rest.passed);
      failed = omega (arith, one.failed, rest.failed);
    }

-- The score of a partition with fewer than 2 ^ 62 members is the number of its members that have a
-- connected client, plus one for each of these with passing heuristics and minus one for each with
-- failing ones: though the difference is taken without sign, no wrap is left in the sum. For the client
-- that stands for the partition the partition's own result of the heuristics counts.
pub score_exact :
    (clients : List FfsplitClient) (part : Partition)
    → node_list_size part.membership_node_list < 2 ^ 62
    → let members = part.membership_node_list in
      score (get_active_clients_in_partition_stats clients (some part))
        + nodes_with has_failed clients part members
      ≡ nodes_with is_connected clients part members + nodes_with has_passed clients part members
unfolding score get_active_clients_in_partition_stats
score_exact clients part h =
    let counts = stats_loop-Counts clients part part.membership_node_list no_stats in
    omega (arith, stats-IsCount clients part, counts.connected, counts.passed, counts.failed)
