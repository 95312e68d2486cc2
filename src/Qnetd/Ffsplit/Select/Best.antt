-- ===== src/Qnetd/Ffsplit/Select/Best.antt =====
-- Between halves, the partition that `qnetd_algo_ffsplit_select_partition` selects has the highest
-- score; and the selection ends by a failed assertion only where a configuration list is empty.
use corosync_qdevice.Prelude.{
  ℕ, ◌*◌, ◌≤◌, ◌<◌, ◌≡◌, refl, ◌≢◌, inl, inr, Bool, true, false, ◌&&◌, Option, none, some, List, [],
  ◌∷◌, arith, Bool-cases, Option-cases, In, ◌>>=◌,
}
use corosync_qdevice.NodeList.{NodeList, node_list_size}
use corosync_qdevice.Qnetd.Ffsplit.Data.{Event, FfsplitClient, is_self, config_of}
use corosync_qdevice.Qnetd.Ffsplit.Stable.Spec.{Takes}
use corosync_qdevice.Qnetd.Ffsplit.Partition.{Partition, score}
use corosync_qdevice.Qnetd.Ffsplit.Partition.Order.{
  stats, members, nodes, partition_cmp-score, partition_cmp_runs,
}
use corosync_qdevice.Qnetd.Ffsplit.Select.Rounds.{
  Round, passed, lost, won, select_loop_inv, select_loop_round,
}
use corosync_qdevice.Qnetd.Ffsplit.Select.Majority.{
  IsCandidate, select_loop-IsCandidate, select_partition-loop,
}
use corosync_qdevice.Qnetd.Ffsplit.Select.{
  partition_of, better, select_loop, membership_of_best, select_partition,
}

bind_runs : {A B : Type 0} (o : Option A) (f : A → B) → o ≢ none → (o >>= λ a. some (f a)) ≢ none
bind_runs none f h = absurd (h refl)
bind_runs (some a) f h = λ e. cc

-- Every client that takes part sees half of its nodes.
abbrev pub AllHalves : Event → List FfsplitClient → Type 0
AllHalves e clients =
    (c : FfsplitClient)
    → Takes e clients c
    → nodes (partition_of e c) ≡ 2 * members (partition_of e c)

abbrev pub score_of : List FfsplitClient → Option Partition → ℕ
score_of clients p = score (stats clients p)

module _ (e : Event) (clients : List FfsplitClient) (quorate : NodeList) (keep : Bool)
    (halves : AllHalves e clients) where
  -- A round never lowers the score of the best partition, and the client's own is no higher then.
  Round-score :
      (c : FfsplitClient) (best r : Option Partition)
      → In c clients
      → Round e clients quorate keep c best r
      → (score_of clients best ≤ score_of clients r)
        × ((is_self e c && e.client_leaving ≡ false)
            → score_of clients (some (partition_of e c)) ≤ score_of clients r)
  Round-score c best r m (passed leaves same) = rw same (omega arith, λ takes. cc)
  Round-score c best r m (lost takes loses same) =
      let below =
        (partition_cmp-score clients (partition_of e c) best quorate keep (halves c (m, takes))
            false loses).1
          refl in
      rw same (omega arith, λ _. below)
  Round-score c best r m (won takes wins same) =
      let below =
        (partition_cmp-score clients (partition_of e c) best quorate keep (halves c (m, takes)) true
            wins).0
          refl in
      rw same (below, λ _. omega arith)

  select_loop-score :
      (r : Option Partition) (c : FfsplitClient)
      → select_loop e clients quorate keep clients none ≡ some r
      → Takes e clients c
      → score_of clients (some (partition_of e c)) ≤ score_of clients r
  select_loop-score r c run takes =
      let there = select_loop_round e clients quorate keep c clients none r takes.0 run in
      let now = (Round-score c there.before there.after takes.0 there.round).1 takes.1 in
      select_loop_inv e clients quorate keep
        (λ p. score_of clients (some (partition_of e c)) ≤ score_of clients p)
        (λ iter best r m round below. omega (arith, (Round-score iter best r m round).0))
        there.later there.sub there.after r there.onward now

-- If every client that takes part sees exactly half of its nodes, the list that is selected is that
-- of the best partition, which is the partition of a client that takes part, or none; and no client
-- that takes part has a partition with a higher score, where none scores as the counts of 0 do.
pub select_partition_score :
    (e : Event) (clients : List FfsplitClient) (quorate : NodeList) {q : Option NodeList}
    → AllHalves e clients
    → select_partition e clients quorate ≡ some q
    → (r : Option Partition) × (membership_of_best r ≡ q)
      × IsCandidate e clients r
      × ((c : FfsplitClient)
          → Takes e clients c
          → score_of clients (some (partition_of e c)) ≤ score_of clients r)
select_partition_score e clients quorate halves h =
    let (r, run, out) = select_partition-loop e clients quorate h in
    (
      r,
      out,
      select_loop-IsCandidate e clients quorate _ r run,
      λ c takes. select_loop-score e clients quorate _ halves r c run takes,
    )

-- Every client that takes part has a configuration list.
abbrev pub AllConfigured : Event → List FfsplitClient → Type 0
AllConfigured e clients =
    (c : FfsplitClient) → Takes e clients c → 0 < node_list_size (config_of e c)

better_runs :
    (e : Event) (clients : List FfsplitClient) (quorate : NodeList) (keep : Bool)
    (iter : FfsplitClient) (best : Option Partition)
    → AllConfigured e clients
    → In iter clients
    → better e clients quorate keep iter best ≢ none
unfolding better
better_runs e clients quorate keep iter best configured m =
    elim (Bool-cases (is_self e iter && e.client_leaving)) [
      | inl leaves ↦ rw leaves (λ f. cc)
      | inr takes ↦ rw takes (
          bind_runs _ _ (
            partition_cmp_runs clients (partition_of e iter) best quorate keep
              (configured iter (m, takes))))
    ]

select_loop_runs :
    (e : Event) (clients : List FfsplitClient) (quorate : NodeList) (keep : Bool)
    (rest : List FfsplitClient) (best : Option Partition)
    → AllConfigured e clients
    → ((c : FfsplitClient) → In c rest → In c clients)
    → select_loop e clients quorate keep rest best ≢ none
unfolding select_loop
select_loop_runs e clients quorate keep [] best configured sub = λ f. cc
select_loop_runs e clients quorate keep (iter ∷ rest) best configured sub =
    elim (Option-cases (better e clients quorate keep iter best)) [
      | inl stops ↦
          absurd
            (better_runs e clients quorate keep iter best configured (sub iter (inl refl)) stops)
      | inr (best', round) ↦
          rw (round, select_loop)
            (select_loop_runs e clients quorate keep rest best' configured (λ c m. sub c (inr m)))
    ]

-- The selection returns, with no failed assertion, if every client that takes part has a
-- configuration list that is not empty.
pub select_partition_runs :
    (e : Event) (clients : List FfsplitClient) (quorate : NodeList)
    → AllConfigured e clients
    → select_partition e clients quorate ≢ none
unfolding select_partition
select_partition_runs e clients quorate configured =
    bind_runs _ _ (select_loop_runs e clients quorate _ clients none configured (λ c m. m))
