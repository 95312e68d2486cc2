-- ===== src/Qnetd/Lms/Exclusive.antt =====
-- No two partitions win the tie-breaker of the last man standing algorithm.
use corosync_qdevice.Prelude.{
  ℕ, ◌-◌, ◌^◌, ◌<◌, ◌≡◌, ◌≢◌, refl, ap, ◌∙◌, sym, ◌||◌, ◌⊎◌, inl, inr, List, [], ◌∷◌, ltb, ◌==◌,
  arith, ==_iff, In, Bool-cases,
}
use corosync_qdevice.Tlv.Types.{RingId, Vote, TieBreakerMode, tlv_ring_id_eq}
use corosync_qdevice.Qnetd.Lms.{
  LmsClient, tie_break_start, tie_break_round, tie_break_loop, zero_ring, vote_for, tie_break,
}

-- The node id and the ring id are those of one client.
abbrev IsOf : List LmsClient → ℕ × RingId → Type 0
IsOf clients f = (x : LmsClient) × In x clients × (f.0 ≡ x.node_id) × (f.1 ≡ x.last_ring_id)

-- The node id is one that the search can tell from its start.
abbrev pub IsPlain : LmsClient → Type 0
IsPlain x = (0 < x.node_id) × (x.node_id < 2 ^ 31 - 1)

module _ (client : LmsClient) (clients : List LmsClient)
    (plain : (x : LmsClient) → In x clients → IsPlain x) where
  round-IsOf :
      (mode : TieBreakerMode) (x : LmsClient) (f : ℕ × RingId)
      → mode ≢ TieBreakerMode.node_id
      → In x clients
      → (f ≡ (tie_break_start client mode, zero_ring)) ⊎ IsOf clients f
      → IsOf clients (tie_break_round client x mode f)
  round-IsOf TieBreakerMode.lowest x (id, ring) m there from =
      elim (Bool-cases (ltb x.node_id id)) [
        | inl less ↦ rw less (x, there, refl, refl)
        | inr more ↦ elim from [
          | inl e ↦ absurd (ground (arith, (plain x there).1, ap (λ (f : ℕ × RingId). f.0) e))
          | inr found ↦ rw more found
        ]
      ]
  round-IsOf TieBreakerMode.highest x (id, ring) m there from =
      elim (Bool-cases (ltb id x.node_id)) [
        | inl more ↦ rw more (x, there, refl, refl)
        | inr less ↦ elim from [
          | inl e ↦ absurd (ground (arith, (plain x there).0, ap (λ (f : ℕ × RingId). f.0) e))
          | inr found ↦ rw less found
        ]
      ]
  round-IsOf TieBreakerMode.node_id x f m there from = absurd (m refl)

  loop-IsOf :
      (rest : List LmsClient) (f : ℕ × RingId)
      → client.tie_breaker.mode ≢ TieBreakerMode.node_id
      → ((x : LmsClient) → In x rest → In x clients)
      → IsOf clients f
      → IsOf clients (tie_break_loop client rest f)
  unfolding tie_break_loop
  loop-IsOf [] f m sub found = found
  loop-IsOf (x ∷ rest) f m sub found =
      loop-IsOf rest _ m (λ y h. sub y (inr h))
        (round-IsOf client.tie_breaker.mode x f m (sub x (inl refl)) (inr found))

  -- The search over a list that is not empty ends at one of the clients.
  search-IsOf :
      (rest : List LmsClient) (c : LmsClient)
      → In c rest
      → client.tie_breaker.mode ≢ TieBreakerMode.node_id
      → ((x : LmsClient) → In x rest → In x clients)
      → IsOf clients
          (tie_break_loop client rest (tie_break_start client client.tie_breaker.mode, zero_ring))
  unfolding tie_break_loop
  search-IsOf [] c there m sub = absurd there
  search-IsOf (x ∷ rest) c there m sub =
      loop-IsOf rest _ m (λ y h. sub y (inr h))
        (round-IsOf client.tie_breaker.mode x _ m (sub x (inl refl)) (inl refl))

round_same :
    (c d x : LmsClient) (mode : TieBreakerMode) (f : ℕ × RingId)
    → mode ≢ TieBreakerMode.node_id
    → tie_break_round c x mode f ≡ tie_break_round d x mode f
round_same c d x TieBreakerMode.lowest f m = refl
round_same c d x TieBreakerMode.highest f m = refl
round_same c d x TieBreakerMode.node_id f m = absurd (m refl)

start_same :
    (c d : LmsClient) (mode : TieBreakerMode)
    → mode ≢ TieBreakerMode.node_id
    → tie_break_start c mode ≡ tie_break_start d mode
start_same c d TieBreakerMode.lowest m = refl
start_same c d TieBreakerMode.highest m = refl
start_same c d TieBreakerMode.node_id m = absurd (m refl)

loop_same :
    (c d : LmsClient) (clients : List LmsClient) (f : ℕ × RingId)
    → c.tie_breaker.mode ≡ d.tie_breaker.mode
    → d.tie_breaker.mode ≢ TieBreakerMode.node_id
    → tie_break_loop c clients f ≡ tie_break_loop d clients f
unfolding tie_break_loop
loop_same c d [] f e m = refl
loop_same c d (x ∷ clients) f e m =
    loop_same c d clients _ e m
    ∙ ap (tie_break_loop d clients) (
        ap (λ (k : TieBreakerMode). tie_break_round c x k f) e
        ∙ round_same c d x d.tie_breaker.mode f m)

-- Who wins has the ring id that was found.
won_ring :
    (client : LmsClient) (clients : List LmsClient) (f : ℕ × RingId)
    → ((a b : LmsClient)
        → In a clients
        → In b clients
        → a.node_id ≡ b.node_id
        → a.last_ring_id ≡ b.last_ring_id)
    → In client clients
    → IsOf clients f
    → vote_for (client.node_id == f.0 || tlv_ring_id_eq f.1 client.last_ring_id) ≡ Vote.ack
    → client.last_ring_id ≡ f.1
won_ring client clients (id, ring) one there (x, m, same, last) ack =
    elim (Bool-cases (client.node_id == id)) [
      | inl hit ↦ one client x there m ((==_iff _ _).0 hit ∙ same) ∙ sym last
      | inr miss ↦ ground (arith, rw miss at ack)
    ]

-- Of the clients of a cluster that break ties by the lowest, or by the highest node id, two that both
-- win the tie-breaker have the same ring id: the vote goes to one partition. Clients of one node id
-- have one ring id, and node ids are above 0 and below the limit of an int.
pub tie_break-exclusive :
    (clients : List LmsClient) (c d : LmsClient)
    → ((x : LmsClient) → In x clients → IsPlain x)
    → ((a b : LmsClient)
        → In a clients
        → In b clients
        → a.node_id ≡ b.node_id
        → a.last_ring_id ≡ b.last_ring_id)
    → In c clients
    → In d clients
    → c.tie_breaker.mode ≡ d.tie_breaker.mode
    → d.tie_breaker.mode ≢ TieBreakerMode.node_id
    → tie_break c clients c.last_ring_id ≡ Vote.ack
    → tie_break d clients d.last_ring_id ≡ Vote.ack
    → c.last_ring_id ≡ d.last_ring_id
unfolding tie_break
tie_break-exclusive clients c d plain one inc ind mode m wc wd =
    let f = tie_break_loop d clients (tie_break_start d d.tie_breaker.mode, zero_ring) in
    let same : tie_break_loop c clients (tie_break_start c c.tie_breaker.mode, zero_ring) ≡ f =
      ap (λ (k : TieBreakerMode). tie_break_loop c clients (tie_break_start c k, zero_ring)) mode
      ∙ ap (λ (n : ℕ). tie_break_loop c clients (n, zero_ring))
          (start_same c d d.tie_breaker.mode m)
      ∙ loop_same c d clients _ mode m in
    let found = search-IsOf d clients plain clients d ind m (λ x h. h) in
    won_ring c clients f one inc found (
      sym (
        ap (λ (f : ℕ × RingId). vote_for (c.node_id == f.0 || tlv_ring_id_eq f.1 c.last_ring_id))
          same)
      ∙ wc)
    ∙ sym (won_ring d clients f one ind found wd)
