-- ===== src/Qnetd/Ffsplit/Partition/Order.antt =====
-- What `qnetd_algo_ffsplit_partition_cmp` decides by.
use corosync_qdevice.Prelude.{
  ℕ, ◌*◌, ◌≤◌, ◌<◌, ◌≡◌, ◌≢◌, Bool, true, false, Option, none, some, List, [], ◌∷◌, arith, is_some,
  Bool-cases, ==_iff, refl, ◌==◌, inl, inr,
}
use corosync_qdevice.Tlv.Types.{Heuristics, TieBreakerMode, lowest}
use corosync_qdevice.NodeList.{NodeList, node_list_size, node_list_find_node_id}
use corosync_qdevice.Qnetd.Client.{qnetd_cluster_find_client_by_node_id}
use corosync_qdevice.Qnetd.Ffsplit.Data.{FfsplitClient}
use corosync_qdevice.Qnetd.Ffsplit.Partition.{
  Partition, Stats, no_stats, count_heuristics, stats_loop, count_client,
  get_active_clients_in_partition_stats, score, preferred_node_id, is_preferred_partition,
  break_tie, cmp_halves, partition_cmp,
}

abbrev pub stats : List FfsplitClient → Option Partition → Stats
stats = get_active_clients_in_partition_stats

abbrev pub members : Partition → ℕ
members p = node_list_size p.membership_node_list

abbrev pub nodes : Partition → ℕ
nodes p = node_list_size p.config_node_list

module _ (clients : List FfsplitClient) (p : Partition) (best : Option Partition)
    (quorate : NodeList) (keep : Bool) where
  -- A partition is found better only if it has at least half of the configured nodes.
  pub partition_cmp_half :
      partition_cmp clients p best quorate keep ≡ some true → nodes p ≤ 2 * members p
  unfolding partition_cmp
  partition_cmp_half h = ground arith

  -- Between halves the comparison never goes against the score.
  pub partition_cmp-score :
      nodes p ≡ 2 * members p
      → (b : Bool) → partition_cmp clients p best quorate keep ≡ some b
      → (b ≡ true → score (stats clients best) ≤ score (stats clients (some p)))
        × (b ≡ false → score (stats clients (some p)) ≤ score (stats clients best))
  unfolding partition_cmp cmp_halves
  partition_cmp-score half b h = ground arith

no_score : score no_stats ≡ 0
unfolding score
no_score = refl

pub partition_cmp_first :
    (clients : List FfsplitClient) (p : Partition) (quorate : NodeList) (keep : Bool)
    → 0 < (stats clients (some p)).no_clients
    → nodes p ≤ 2 * members p
    → partition_cmp clients p none quorate keep ≡ some true
unfolding partition_cmp cmp_halves get_active_clients_in_partition_stats
partition_cmp_first clients p quorate keep active half = ground (arith, no_score)

preferred_runs :
    (p : Partition) (list : NodeList)
    → 0 < node_list_size list
    → (mode : TieBreakerMode) → preferred_node_id p.client list mode ≢ none
unfolding preferred_node_id node_list_size
preferred_runs p [] h mode = absurd (omega arith)
preferred_runs p (n ∷ list) h lowest = ground arith
preferred_runs p (n ∷ list) h mode = ground arith

break_tie_runs :
    (p : Partition) (best : Option Partition) (quorate : NodeList) (keep : Bool)
    → 0 < nodes p
    → break_tie p best quorate keep ≢ none
unfolding break_tie is_preferred_partition
break_tie_runs p none quorate keep h =
    ground (arith, preferred_runs p p.config_node_list h p.client.tie_breaker.mode)
break_tie_runs p best quorate keep h =
    ground (arith, preferred_runs p p.config_node_list h p.client.tie_breaker.mode)

-- The comparison ends by a failed assertion only if the configuration list is empty.
pub partition_cmp_runs :
    (clients : List FfsplitClient) (p : Partition) (best : Option Partition) (quorate : NodeList)
    (keep : Bool)
    → 0 < nodes p
    → partition_cmp clients p best quorate keep ≢ none
unfolding partition_cmp cmp_halves
partition_cmp_runs clients p best quorate keep h =
    ground (arith, break_tie_runs p best quorate keep h)

count_heuristics-no_clients :
    (h : Heuristics) (s : Stats) → (count_heuristics h s).no_clients ≡ s.no_clients
count_heuristics-no_clients Heuristics.pass s = refl
count_heuristics-no_clients h s = refl

count_client_mono :
    (p : Partition) (found : Option FfsplitClient) (s : Stats)
    → s.no_clients ≤ (count_client p found s).no_clients
count_client_mono p none s = omega arith
count_client_mono p (some iter) s = omega (arith, count_heuristics-no_clients)

stats_loop_mono :
    (clients : List FfsplitClient) (p : Partition) (list : NodeList) (s : Stats)
    → s.no_clients ≤ (stats_loop clients p list s).no_clients
unfolding stats_loop
stats_loop_mono clients p [] s = omega arith
stats_loop_mono clients p (n ∷ list) s =
    let found = qnetd_cluster_find_client_by_node_id clients n.node_id in
    omega
      (arith, stats_loop_mono clients p list (count_client p found s), count_client_mono p found s)

stats_loop-counts :
    (clients : List FfsplitClient) (p : Partition) (c : FfsplitClient) (id : ℕ) (list : NodeList)
    (s : Stats)
    → is_some (node_list_find_node_id list id) ≡ true
    → qnetd_cluster_find_client_by_node_id clients id ≡ some c
    → 0 < (stats_loop clients p list s).no_clients
unfolding stats_loop node_list_find_node_id
stats_loop-counts clients p c id [] s m found = cc
stats_loop-counts clients p c id (n ∷ list) s m found = elim (Bool-cases (n.node_id == id)) [
  | inl hit ↦
      let e : qnetd_cluster_find_client_by_node_id clients n.node_id ≡ some c =
        rw ((==_iff _ _).0 hit) found in
      rw (e, stats_loop)
        (omega (
          arith,
          stats_loop_mono clients p list (count_client p (some c) s),
          count_heuristics-no_clients,
        ))
  | inr miss ↦ stats_loop-counts clients p c id list _ (ground arith) found
]

-- A connected client on the membership list is counted.
pub stats_counts :
    (clients : List FfsplitClient) (p : Partition) (c : FfsplitClient) (id : ℕ)
    → is_some (node_list_find_node_id p.membership_node_list id) ≡ true
    → qnetd_cluster_find_client_by_node_id clients id ≡ some c
    → 0 < (stats clients (some p)).no_clients
unfolding get_active_clients_in_partition_stats
stats_counts clients p c id m found =
    stats_loop-counts clients p c id p.membership_node_list no_stats m found
