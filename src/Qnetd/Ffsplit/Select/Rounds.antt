-- ===== src/Qnetd/Ffsplit/Select/Rounds.antt =====
-- The rounds of the loop in `qnetd_algo_ffsplit_select_partition`.
use corosync_qdevice.Prelude.{
  ◌≡◌, refl, subst, inl, inr, Bool, true, false, ◌&&◌, Option, none, some, List, [], ◌∷◌,
  Bool-cases, Option-cases, In, if◌then◌else◌, ◌>>=◌,
}
use corosync_qdevice.NodeList.{NodeList}
use corosync_qdevice.Qnetd.Ffsplit.Data.{Event, FfsplitClient, is_self}
use corosync_qdevice.Qnetd.Ffsplit.Partition.{Partition, partition_cmp}
use corosync_qdevice.Qnetd.Ffsplit.Select.{partition_of, better, select_loop}

-- How one round of the loop ends.
pub data Round (e : Event) (clients : List FfsplitClient) (quorate : NodeList) (keep : Bool)
    (iter : FfsplitClient) (best r : Option Partition) : Type 0 where
  passed :
      is_self e iter && e.client_leaving ≡ true
      → r ≡ best
      → Round e clients quorate keep iter best r
  lost :
      is_self e iter && e.client_leaving ≡ false
      → partition_cmp clients (partition_of e iter) best quorate keep ≡ some false
      → r ≡ best
      → Round e clients quorate keep iter best r
  won :
      is_self e iter && e.client_leaving ≡ false
      → partition_cmp clients (partition_of e iter) best quorate keep ≡ some true
      → r ≡ some (partition_of e iter)
      → Round e clients quorate keep iter best r

module _ (e : Event) (clients : List FfsplitClient) (quorate : NodeList) (keep : Bool) where
  compared :
      (iter : FfsplitClient) (best : Option Partition) (o : Option Bool) (r : Option Partition)
      → is_self e iter && e.client_leaving ≡ false
      → partition_cmp clients (partition_of e iter) best quorate keep ≡ o
      → (o >>= λ wins. some (if wins then some (partition_of e iter) else best)) ≡ some r
      → Round e clients quorate keep iter best r
  compared iter best none r takes c h = cc
  compared iter best (some true) r takes c h = won takes c (cc)
  compared iter best (some false) r takes c h = lost takes c (cc)

  better_cases :
      (iter : FfsplitClient) (best r : Option Partition)
      → better e clients quorate keep iter best ≡ some r
      → Round e clients quorate keep iter best r
  unfolding better
  better_cases iter best r h = elim (Bool-cases (is_self e iter && e.client_leaving)) [
    | inl leaves ↦ passed leaves (let f : some best ≡ some r = rw leaves at h in cc)
    | inr takes ↦ compared iter best _ r takes refl (rw takes at h)
  ]

  -- An invariant of the loop, from what each round does to it.
  pub select_loop_inv :
      (P : Option Partition → Type 0)
      → ((iter : FfsplitClient) (best r : Option Partition)
          → In iter clients
          → Round e clients quorate keep iter best r
          → P best
          → P r)
      → (rest : List FfsplitClient) → ((c : FfsplitClient) → In c rest → In c clients)
      → (best r : Option Partition) → select_loop e clients quorate keep rest best ≡ some r
      → P best
      → P r
  unfolding select_loop
  select_loop_inv P step [] sub best r h p = let same : best ≡ r = cc in subst P same p
  select_loop_inv P step (iter ∷ rest) sub best r h p =
      elim (Option-cases (better e clients quorate keep iter best)) [
        | inl stops ↦ cc (rw (stops, select_loop) at h)
        | inr (best', round) ↦
            select_loop_inv P step rest (λ c m. sub c (inr m)) best' r
              (rw (round, select_loop) at h)
              (step iter best best' (sub iter (inl refl)) (better_cases iter best best' round) p)
      ]

  -- The round of one client, and the rest of the loop.
  pub record RoundOf (c : FfsplitClient) (rest : List FfsplitClient) (r : Option Partition)
      : Type 0 where
    pub before : Option Partition
    pub after : Option Partition
    pub later : List FfsplitClient
    pub round : Round e clients quorate keep c before after
    pub onward : select_loop e clients quorate keep later after ≡ some r
    pub sub : (x : FfsplitClient) → In x later → In x rest

  pub select_loop_round :
      (c : FfsplitClient) (rest : List FfsplitClient) (best r : Option Partition)
      → In c rest
      → select_loop e clients quorate keep rest best ≡ some r
      → RoundOf c rest r
  unfolding select_loop
  select_loop_round c [] best r m h = absurd m
  select_loop_round c (iter ∷ rest) best r (inl p) h =
      elim (Option-cases (better e clients quorate keep iter best)) [
        | inl stops ↦ cc (rw (stops, select_loop) at h)
        | inr (best', round) ↦ record {
          before = best;
          after = best';
          later = rest;
          round = rw p (better_cases iter best best' round);
          onward = rw (round, select_loop) at h;
          sub = λ x k. inr k;
        }
      ]
  select_loop_round c (iter ∷ rest) best r (inr k) h =
      elim (Option-cases (better e clients quorate keep iter best)) [
        | inl stops ↦ cc (rw (stops, select_loop) at h)
        | inr (best', round) ↦
            let there = select_loop_round c rest best' r k (rw (round, select_loop) at h) in
            record {
              before = there.before;
              after = there.after;
              later = there.later;
              round = there.round;
              onward = there.onward;
              sub = λ x j. inr (there.sub x j);
            }
      ]
