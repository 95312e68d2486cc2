-- ===== src/TimerList/First.antt =====
-- The timer at the top of the heap.
use corosync_qdevice.Prelude.{
  ℕ, zero, suc, ◌+◌, ◌-◌, ◌%◌, ◌^◌, ◌≤◌, ◌<◌, ◌≡◌, refl, ap, ◌∙◌, Option, some, ◌>>=◌, List, [],
  ◌∷◌, length, All, arith,
}
use corosync_qdevice.TimerList.{
  TimerListEntry, TimerList, remaining, timer_list_entry_time_to_expire, timer_list_heap_entry_get,
  timer_list_heap_index_parent, timer_list_time_to_expire,
}
use corosync_qdevice.TimerList.Clock.{remaining_exact}
use corosync_qdevice.TimerList.Order.{HeapOn}
use corosync_qdevice.TimerList.Insert.{IsTimed, time_at, IsHeap}

-- The first number of a heap is the least.
HeapOn-least : (n : ℕ) (k : ℕ → ℕ) (bound i : ℕ) → HeapOn n k → i < bound → i < n → k 0 ≤ k i
HeapOn-least n k zero i heap below inside = absurd (omega arith)
HeapOn-least n k (suc bound) zero heap below inside = omega arith
HeapOn-least n k (suc bound) (suc i) heap below inside =
    let parent = timer_list_heap_index_parent (suc i) in
    omega (
      arith,
      heap (suc i) (omega arith) inside,
      HeapOn-least n k bound parent heap (omega arith) (omega arith),
    )

module _ (times : ℕ → ℕ) (start : ℕ) where
  abbrev pub LeastOf : List TimerListEntry → ℕ → Option ℕ → Type 0
  LeastOf entries now answer =
      (least : ℕ) × (answer ≡ some (least - now))
      × ((i : ℕ) → i < length entries → least ≤ time_at times start entries i)
      × (least ≡ time_at times start entries 0)

  first-LeastOf :
      (entries : List TimerListEntry) (now : ℕ)
      → 0 < length entries
      → IsHeap times start entries
      → All (IsTimed times start) entries
      → start ≤ now
      → now < start + 2147483648
      → LeastOf entries now (
          timer_list_heap_entry_get entries 0
          >>= (λ e. some (timer_list_entry_time_to_expire e (now % 2 ^ 32))))
  unfolding timer_list_heap_entry_get
  first-LeastOf [] now some_timer heap timed after before = absurd (omega arith)
  first-LeastOf (e ∷ entries) now some_timer heap ((epoch, _, expires, from, later, close), timed)
        after before =
      (
        times e.id,
        ap (λ r. some r)
            (ap (λ x. remaining x (now % 2 ^ 32)) expires
              ∙ remaining_exact (times e.id) now (omega arith) (omega arith)),
        (λ i inside.
            HeapOn-least (length (e ∷ entries)) (time_at times start (e ∷ entries)) (i + 1) i heap
              (omega arith) inside),
        refl,
      )

  -- Of one or more timers in a heap in order, the time to expire is what is left to the earliest true
  -- time of expiry among them, and 0 when that is over: where every timer expires after its epoch, and
  -- the true epochs and times of expiry of all of them, and the time now, lie in a half of all
  -- numbers.
  pub timer_list_time_to_expire-LeastOf :
      (tlist : TimerList) (now : ℕ)
      → 0 < length tlist.entries
      → IsHeap times start tlist.entries
      → All (IsTimed times start) tlist.entries
      → start ≤ now
      → now < start + 2147483648
      → LeastOf tlist.entries now (timer_list_time_to_expire tlist (now % 2 ^ 32))
  unfolding timer_list_time_to_expire
  timer_list_time_to_expire-LeastOf tlist now some_timer heap timed after before =
      first-LeastOf tlist.entries now some_timer heap timed after before
