-- ===== src/Qnetd/Ffsplit/Select.antt =====
-- `qnetd_algo_ffsplit_select_partition`. The outer `none` is a failed `assert`, an inner one NULL.
pub mod Rounds
pub mod Majority
pub mod Best
use corosync_qdevice.Prelude.{
  Bool, true, false, ◌&&◌, Option, none, some, List, [], ◌∷◌, if◌then◌else◌, ◌>>=◌,
}
use corosync_qdevice.NodeList.{NodeList}
use corosync_qdevice.Qnetd.Ffsplit.Data.{
  Event, FfsplitClient, is_self, config_of, membership_of, heuristics_of,
}
use corosync_qdevice.Qnetd.Ffsplit.Partition.{Partition, partition_cmp}

unfoldable pub all_keep_active : List FfsplitClient → Bool
all_keep_active [] = true
all_keep_active (c ∷ clients) =
    if c.keep_active_partition_tie_breaker then all_keep_active clients else false

abbrev pub partition_of : Event → FfsplitClient → Partition
partition_of e iter = record {
  client = iter;
  config_node_list = config_of e iter;
  membership_node_list = membership_of e iter;
  heuristics = heuristics_of e iter;
}

-- The body of the loop over the clients.
unfoldable pub better :
    Event
    → List FfsplitClient
    → NodeList
    → Bool
    → FfsplitClient
    → Option Partition
    → Option (Option Partition)
better e clients quorate keep iter best =
    if is_self e iter && e.client_leaving then some best else do
      wins ← partition_cmp clients (partition_of e iter) best quorate keep
      some (if wins then some (partition_of e iter) else best)

unfoldable pub select_loop :
    Event
    → List FfsplitClient
    → NodeList
    → Bool
    → List FfsplitClient
    → Option Partition
    → Option (Option Partition)
select_loop e clients quorate keep [] best = some best
select_loop e clients quorate keep (iter ∷ rest) best =
    elim (better e clients quorate keep iter best) [
      | none ↦ none
      | some best' ↦ select_loop e clients quorate keep rest best'
    ]

abbrev pub membership_of_best : Option Partition → Option NodeList
membership_of_best none = none
membership_of_best (some part) = some part.membership_node_list

unfoldable pub select_partition : Event → List FfsplitClient → NodeList → Option (Option NodeList)
select_partition e clients quorate = do
  best ← select_loop e clients quorate (all_keep_active clients) clients none
  some (membership_of_best best)
