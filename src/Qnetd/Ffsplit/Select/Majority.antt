-- ===== src/Qnetd/Ffsplit/Select/Majority.antt =====
-- Which partition `qnetd_algo_ffsplit_select_partition` selects, and when it selects none.
use native.Mathlib.Decide.{dec_le}
use corosync_qdevice.Prelude.{
  ◌*◌, ◌≤◌, ◌<◌, ◌≡◌, refl, subst, ap, inl, inr, Bool, true, false, ◌&&◌, Option, none, some, List,
  arith, is_some, Option-cases, In,
}
use corosync_qdevice.NodeList.{NodeList, node_list_size}
use corosync_qdevice.Qnetd.Client.{qnetd_cluster_find_client_by_node_id}
use corosync_qdevice.Qnetd.Ffsplit.Data.{Event, FfsplitClient, is_self, config_of, membership_of}
use corosync_qdevice.Qnetd.Ffsplit.Stable.Spec.{Has, Takes}
use corosync_qdevice.Qnetd.Ffsplit.Partition.{Partition}
use corosync_qdevice.Qnetd.Ffsplit.Partition.Order.{
  stats, members, nodes, partition_cmp_half, partition_cmp_first, stats_counts,
}
use corosync_qdevice.Qnetd.Ffsplit.Select.Rounds.{
  Round, passed, lost, won, select_loop_inv, select_loop_round,
}
use corosync_qdevice.Qnetd.Ffsplit.Select.{
  partition_of, select_loop, all_keep_active, membership_of_best, select_partition,
}

-- The partition is that of a client that takes part, and has at least half of its nodes.
abbrev pub IsCandidate : Event → List FfsplitClient → Option Partition → Type 0
IsCandidate e clients none = Unit {0}
IsCandidate e clients (some p) =
    (c : FfsplitClient) × Takes e clients c × (p ≡ partition_of e c) × (nodes p ≤ 2 * members p)

module _ (e : Event) (clients : List FfsplitClient) (quorate : NodeList) (keep : Bool) where
  pub select_loop-IsCandidate :
      (r : Option Partition)
      → select_loop e clients quorate keep clients none ≡ some r
      → IsCandidate e clients r
  select_loop-IsCandidate r h =
      select_loop_inv e clients quorate keep (IsCandidate e clients) keeps clients (λ c m. m) none r
        h tt
    where
      keeps :
          (iter : FfsplitClient) (best r : Option Partition)
          → In iter clients
          → Round e clients quorate keep iter best r
          → IsCandidate e clients best
          → IsCandidate e clients r
      keeps iter best r m (passed _ same) p = rw same p
      keeps iter best r m (lost _ _ same) p = rw same p
      keeps iter best r m (won takes c same) p =
          rw same (iter, (m, takes), refl, partition_cmp_half clients _ best quorate keep c)

  -- Once there is a best partition there is one to the end.
  select_loop-some :
      (rest : List FfsplitClient)
      → ((c : FfsplitClient) → In c rest → In c clients)
      → (best r : Option Partition) → select_loop e clients quorate keep rest best ≡ some r
      → is_some best ≡ true
      → is_some r ≡ true
  select_loop-some = select_loop_inv e clients quorate keep (λ p. is_some p ≡ true) keeps
    where
      keeps :
          (iter : FfsplitClient) (best r : Option Partition)
          → In iter clients
          → Round e clients quorate keep iter best r
          → is_some best ≡ true
          → is_some r ≡ true
      keeps iter best r m (passed _ same) p = rw same p
      keeps iter best r m (lost _ _ same) p = rw same p
      keeps iter best r m (won _ _ same) p = rw same

  -- The round of a client that is on its own list and has half of its nodes leaves a best partition.
  Round-some :
      (c : FfsplitClient) (best r : Option Partition)
      → Round e clients quorate keep c best r
      → is_self e c && e.client_leaving ≡ false
      → 0 < (stats clients (some (partition_of e c))).no_clients
      → nodes (partition_of e c) ≤ 2 * members (partition_of e c)
      → is_some r ≡ true
  Round-some c best r (passed leaves _) takes active half = cc
  Round-some c none r (lost _ loses _) takes active half =
      cc (partition_cmp_first clients (partition_of e c) quorate keep active half)
  Round-some c (some p) r (lost _ _ same) takes active half = rw same
  Round-some c best r (won _ _ same) takes active half = rw same

pub select_partition-loop :
    (e : Event) (clients : List FfsplitClient) (quorate : NodeList) {q : Option NodeList}
    → select_partition e clients quorate ≡ some q
    → (r : Option Partition) × (select_loop e clients quorate (all_keep_active clients) clients none
        ≡ some r)
      × (membership_of_best r ≡ q)
unfolding select_partition
select_partition-loop e clients quorate h =
    elim (Option-cases (select_loop e clients quorate (all_keep_active clients) clients none)) [
      | inl stops ↦ cc (rw stops at h)
      | inr (r, run) ↦ (r, run, let f = rw run at h in cc)
    ]

listed_half :
    (e : Event) (clients : List FfsplitClient) (r : Option Partition) (list : NodeList)
    → IsCandidate e clients r
    → membership_of_best r ≡ some list
    → (c : FfsplitClient) × Takes e clients c
      × (list ≡ membership_of e c)
      × (node_list_size (config_of e c) ≤ 2 * node_list_size list)
listed_half e clients none list p out = cc
listed_half e clients (some p) list (c, takes, same, half) out =
    let own : list ≡ membership_of e c = cc (ap (λ (p : Partition). p.membership_node_list) same) in
    (c, takes, own, rw own (subst (λ (p : Partition). nodes p ≤ 2 * members p) same half))

best_listed : (r : Option Partition) → is_some r ≡ true → membership_of_best r ≡ none → ⊥
best_listed none s e = cc
best_listed (some p) s e = cc

-- The list that is selected is the membership list of a client that takes part, and holds at least
-- half as many nodes as the configuration list of that client.
pub select_partition_half :
    (e : Event) (clients : List FfsplitClient) (quorate list : NodeList)
    → select_partition e clients quorate ≡ some (some list)
    → (c : FfsplitClient) × Takes e clients c
      × (list ≡ membership_of e c)
      × (node_list_size (config_of e c) ≤ 2 * node_list_size list)
unfolding select_partition
select_partition_half e clients quorate list h =
    let (r, run, out) = select_partition-loop e clients quorate h in
    listed_half e clients r list
      (select_loop-IsCandidate e clients quorate (all_keep_active clients) r run) out

-- No partition is selected only if every client that takes part, and is found by its node id and
-- stands on its own membership list, has a membership list of fewer than half of its nodes.
pub select_partition-none :
    (e : Event) (clients : List FfsplitClient) (quorate : NodeList) (c : FfsplitClient)
    → select_partition e clients quorate ≡ some none
    → Takes e clients c
    → qnetd_cluster_find_client_by_node_id clients c.node_id ≡ some c
    → Has (membership_of e c) c.node_id
    → 2 * node_list_size (membership_of e c) < node_list_size (config_of e c)
unfolding select_partition
select_partition-none e clients quorate c h takes found own =
    elim (dec_le (nodes (partition_of e c)) (2 * members (partition_of e c))) [
      | no minority ↦ omega arith
      | yes half ↦
          let (r, run, out) = select_partition-loop e clients quorate h in
          let there = select_loop_round e clients quorate _ c clients none r takes.0 run in
          let now =
            Round-some e clients quorate _ c there.before there.after there.round takes.1
              (stats_counts clients (partition_of e c) c c.node_id own found) half in
          let ends =
            select_loop-some e clients quorate _ there.later there.sub there.after r there.onward
              now in
          absurd (best_listed r ends out)
    ]
