-- ===== src/Qnetd/Ffsplit/Partition.antt =====
-- Which of two partitions is better: `qnetd_algo_ffsplit_is_preferred_partition`,
-- `qnetd_algo_ffsplit_get_active_clients_in_partition_stats` and
-- `qnetd_algo_ffsplit_partition_cmp`. Here `none` is the end of the server by a failed `assert`.
pub mod Score
pub mod Order
use corosync_qdevice.Prelude.{
  ℕ, ◌+◌, ◌-◌, ◌/◌, ◌%◌, ◌^◌, Bool, true, false, ◌&&◌, not, Option, none, some, List, [], ◌∷◌, ltb,
  ◌==◌, if◌then◌else◌, is_some, ◌>>=◌,
}
use corosync_qdevice.Tlv.Types.{Heuristics, TieBreakerMode, lowest, highest}
use corosync_qdevice.NodeList.{NodeList, node_list_find_node_id, node_list_size}
use corosync_qdevice.Qnetd.Client.{qnetd_cluster_find_client_by_node_id}
use corosync_qdevice.Qnetd.Ffsplit.Data.{FfsplitClient}

-- What is passed of each partition: a client in it, the lists and the heuristics of that client.
pub record Partition : Type 0 where
  pub client : FfsplitClient
  pub config_node_list : NodeList
  pub membership_node_list : NodeList
  pub heuristics : Heuristics

-- The loops of the lowest and the highest mode, from the preferred node id so far.
unfoldable pub lowest_loop : ℕ → NodeList → ℕ
lowest_loop preferred [] = preferred
lowest_loop preferred (n ∷ list) =
    lowest_loop (if ltb n.node_id preferred then n.node_id else preferred) list

unfoldable pub highest_loop : ℕ → NodeList → ℕ
highest_loop preferred [] = preferred
highest_loop preferred (n ∷ list) =
    highest_loop (if ltb preferred n.node_id then n.node_id else preferred) list

-- The `switch` on the mode; the first entry must be there.
unfoldable pub preferred_node_id : FfsplitClient → NodeList → TieBreakerMode → Option ℕ
preferred_node_id client [] lowest = none
preferred_node_id client (n ∷ list) lowest = some (lowest_loop n.node_id (n ∷ list))
preferred_node_id client [] highest = none
preferred_node_id client (n ∷ list) highest = some (highest_loop n.node_id (n ∷ list))
preferred_node_id client list TieBreakerMode.node_id = some client.tie_breaker.node_id

unfoldable pub is_preferred_partition : FfsplitClient → NodeList → NodeList → Option Bool
is_preferred_partition client config_node_list membership_node_list = do
  id ← preferred_node_id client config_node_list client.tie_breaker.mode
  some (is_some (node_list_find_node_id membership_node_list id))

pub record Stats : Type 0 where
  pub no_clients : ℕ
  pub no_heuristics_pass : ℕ
  pub no_heuristics_fail : ℕ

abbrev pub count_heuristics : Heuristics → Stats → Stats
count_heuristics Heuristics.pass s = record s { no_heuristics_pass = s.no_heuristics_pass + 1 }
count_heuristics Heuristics.fail s = record s { no_heuristics_fail = s.no_heuristics_fail + 1 }
count_heuristics Heuristics.undefined s = s

-- One round of the loop, with the client that was found for the node.
abbrev pub count_client : Partition → Option FfsplitClient → Stats → Stats
count_client part none s = s
count_client part (some iter) s =
    count_heuristics
      (if iter.addr == part.client.addr then part.heuristics else iter.last_heuristics)
      (record s { no_clients = s.no_clients + 1 })

unfoldable pub stats_loop : List FfsplitClient → Partition → NodeList → Stats → Stats
stats_loop clients part [] s = s
stats_loop clients part (n ∷ list) s =
    stats_loop clients part list
      (count_client part (qnetd_cluster_find_client_by_node_id clients n.node_id) s)

abbrev pub no_stats : Stats
no_stats = record { no_clients = 0; no_heuristics_pass = 0; no_heuristics_fail = 0 }

-- `none` is a client that is NULL.
unfoldable pub get_active_clients_in_partition_stats : List FfsplitClient → Option Partition → Stats
get_active_clients_in_partition_stats clients none = no_stats
get_active_clients_in_partition_stats clients (some part) =
    stats_loop clients part part.membership_node_list no_stats

-- In `size_t`, that is modulo 2 ^ 64, the difference in brackets first.
unfoldable pub score : Stats → ℕ
score s = (s.no_clients + (s.no_heuristics_pass + 2 ^ 64 - s.no_heuristics_fail) % 2 ^ 64) % 2 ^ 64

-- The keep active partition tie-breaker, and then the last one.
unfoldable pub break_tie : Partition → Option Partition → NodeList → Bool → Option Bool
break_tie part1 none quorate keep =
    is_preferred_partition part1.client part1.config_node_list part1.membership_node_list
break_tie part1 (some part2) quorate keep =
    let in1 = is_some (node_list_find_node_id quorate part1.client.node_id) in
    let in2 = is_some (node_list_find_node_id quorate part2.client.node_id) in
    if keep && (in1 && not in2)
    then some true
    else if keep && (not in1 && in2)
    then some false
    else is_preferred_partition part1.client part1.config_node_list part1.membership_node_list

-- The part for a fifty-fifty split.
unfoldable pub cmp_halves :
    List FfsplitClient → Partition → Option Partition → NodeList → Bool → Option Bool
cmp_halves clients part1 part2 quorate keep =
    let stats1 = get_active_clients_in_partition_stats clients (some part1) in
    let stats2 = get_active_clients_in_partition_stats clients part2 in
    if ltb (score stats2) (score stats1)
    then some true
    else if ltb (score stats1) (score stats2)
    then some false
    else if ltb stats2.no_clients stats1.no_clients
    then some true
    else if ltb stats1.no_clients stats2.no_clients
    then some false
    else break_tie part1 part2 quorate keep

unfoldable pub partition_cmp :
    List FfsplitClient → Partition → Option Partition → NodeList → Bool → Option Bool
partition_cmp clients part1 part2 quorate keep =
    let members = node_list_size part1.membership_node_list in
    let nodes = node_list_size part1.config_node_list in
    if not (nodes % 2 == 0)
    then some (ltb (nodes / 2) members)
    else if ltb (nodes / 2) members
    then some true
    else if ltb members (nodes / 2)
    then some false
    else cmp_halves clients part1 part2 quorate keep
