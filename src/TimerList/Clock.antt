-- ===== src/TimerList/Clock.antt =====
-- Times that wrap around, compared as the true times.
use native.Mathlib.Decide.{dec_le}
use corosync_qdevice.Prelude.{
  ◌⊎◌, ◌∙◌, ◌/◌, ◌*◌, ℕ, ◌+◌, ◌-◌, ◌%◌, ◌^◌, ◌<◌, ◌≡◌, refl, ap, true, false, ltb, arith, inl, inr,
}
use corosync_qdevice.TimerList.{TimerListEntry, remaining, expires_before}

-- The remaining time of a timer, in true times that are less than a half of all numbers apart.
pub remaining_exact :
    (expires now : ℕ)
    → expires < now + 2147483648
    → now < expires + 2147483648
    → remaining (expires % 2 ^ 32) (now % 2 ^ 32) ≡ expires - now
remaining_exact expires now near far =
    let diff = (expires % 2 ^ 32 + 2 ^ 32 - now % 2 ^ 32) % 2 ^ 32 in
    let whole : expires % 2 ^ 32 + 2 ^ 32 - now % 2 ^ 32
        ≡ diff + 2 ^ 32 * ((expires % 2 ^ 32 + 2 ^ 32 - now % 2 ^ 32) / 2 ^ 32) =
      omega arith in
    elim (dec_le now expires) [
      | yes later ↦
          let exact : diff ≡ expires - now = omega arith in
          let future : ltb 2147483647 diff ≡ false = ground arith in rw (future, exact) refl
      | no sooner ↦ let past : ltb 2147483647 diff ≡ true = ground arith in rw past (omega arith)
    ]

ltb_ahead : (a b now : ℕ) → (now < a) ⊎ (now < b) → ltb (a - now) (b - now) ≡ ltb a b
ltb_ahead a b now (inl h) = ground arith
ltb_ahead a b now (inr h) = ground arith

-- The comparison of two timers goes by their true times of expiry, though the times wrap around: at
-- a time that at least one of them is still to come at, and from which both are less than a half of
-- all numbers away.
pub expires_before_exact :
    (entry1 entry2 : TimerListEntry) (expires1 expires2 now : ℕ)
    → entry1.expire_time ≡ expires1 % 2 ^ 32
    → entry2.expire_time ≡ expires2 % 2 ^ 32
    → (now < expires1) ⊎ (now < expires2)
    → (expires1 < now + 2147483648) × (now < expires1 + 2147483648)
    → (expires2 < now + 2147483648) × (now < expires2 + 2147483648)
    → expires_before entry1 entry2 (now % 2 ^ 32) ≡ ltb expires1 expires2
expires_before_exact entry1 entry2 expires1 expires2 now e1 e2 ahead close1 close2 =
    ap (λ t. ltb (remaining t (now % 2 ^ 32)) (remaining entry2.expire_time (now % 2 ^ 32))) e1
    ∙ ap (λ t. ltb (remaining (expires1 % 2 ^ 32) (now % 2 ^ 32)) (remaining t (now % 2 ^ 32))) e2
    ∙ ap (λ r. ltb r (remaining (expires2 % 2 ^ 32) (now % 2 ^ 32)))
        (remaining_exact expires1 now close1.0 close1.1)
    ∙ ap (λ r. ltb (expires1 - now) r) (remaining_exact expires2 now close2.0 close2.1)
    ∙ ltb_ahead expires1 expires2 now ahead
