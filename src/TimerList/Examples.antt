-- ===== src/TimerList/Examples.antt =====
-- Three timers, and one that is late in the circle of times.
use corosync_qdevice.Prelude.{
  ℕ, zero, suc, ◌+◌, ◌^◌, All, ◌%◌, ◌≡◌, refl, true, false, inl, Option, none, some, List, [], ◌==◌,
  if◌then◌else◌, ◌∷◌, length, arith,
}
use corosync_qdevice.TimerList.{
  TimerListEntry, TimerList, timer_list_init, timer_list_add, timer_list_time_to_expire,
  expires_before, timer_list_heap_sift_up, sift_up_loop, swap, timer_list_heap_entry_get,
  timer_list_heap_entry_set, timer_list_heap_sift_down, sift_down_loop, smallest_of, smaller_child,
  timer_list_insert_into_list,
}
use corosync_qdevice.TimerList.Clock.{expires_before_exact}
use corosync_qdevice.TimerList.Insert.{IsTimed, IsHeap}
use corosync_qdevice.TimerList.Added.{insert_into_list-IsHeap}
use corosync_qdevice.TimerList.Bag.{total, insert_into_list_adds}
use corosync_qdevice.TimerList.First.{LeastOf, timer_list_time_to_expire-LeastOf}
use corosync_qdevice.TimerList.Sift.{KeepsSize, sift_up-KeepsSize, sift_down-KeepsSize}

abbrev timer : ℕ → ℕ → ℕ → ℕ → TimerListEntry
timer id epoch interval pos = record {
  id = id;
  epoch = epoch;
  interval = interval;
  expire_time = (epoch + interval) % 2 ^ 32;
  is_active = true;
  heap_pos = pos;
}

abbrev three : List TimerListEntry
three = timer 7 10 500 0 ∷ timer 8 20 900 1 ∷ timer 9 30 100 2 ∷ []

-- The third timer expires first, and moves up.
moved_up :
    timer_list_heap_sift_up three 2
    ≡ some (timer 9 30 100 0 ∷ timer 8 20 900 1 ∷ timer 7 10 500 2 ∷ [])
unfolding timer_list_heap_sift_up sift_up_loop swap timer_list_heap_entry_get
    timer_list_heap_entry_set
moved_up = refl

moved_down :
    timer_list_heap_sift_down three 0
    ≡ some (timer 9 30 100 0 ∷ timer 8 20 900 1 ∷ timer 7 10 500 2 ∷ [])
unfolding timer_list_heap_sift_down sift_down_loop smallest_of smaller_child swap
    timer_list_heap_entry_get timer_list_heap_entry_set
moved_down = refl

abbrev of_pair : Option (TimerList × Option ℕ) → TimerList
of_pair none = timer_list_init
of_pair (some r) = r.0

abbrev ids : List TimerListEntry → List ℕ
ids [] = []
ids (e ∷ entries) = e.id ∷ ids entries

abbrev ticks : ℕ → ℕ
ticks n = n

abbrev added : ℕ → ℕ → ℕ → TimerList → TimerList
added now fresh interval tlist =
    of_pair (timer_list_add ticks now true true fresh tlist interval true)

-- A timer that starts before the wrap-around of the clock expires after it.
abbrev around : TimerList
around = added 4294967295 2 50 (added 4294967290 1 100 timer_list_init)

around_order : ids around.entries ≡ 2 ∷ 1 ∷ []
unfolding timer_list_add timer_list_insert_into_list timer_list_heap_sift_up sift_up_loop swap
    timer_list_heap_entry_get timer_list_heap_entry_set
around_order = refl

around_expires : timer_list_time_to_expire around 4294967295 ≡ some 50
unfolding timer_list_time_to_expire timer_list_add timer_list_insert_into_list
    timer_list_heap_sift_up sift_up_loop swap timer_list_heap_entry_get timer_list_heap_entry_set
around_expires = refl

expires_before_exact_example :
    expires_before (timer 1 4294967290 100 0) (timer 2 4294967295 50 1) 4294967295 ≡ false
expires_before_exact_example =
    expires_before_exact (timer 1 4294967290 100 0) (timer 2 4294967295 50 1) 4294967390 4294967345
      4294967295 refl refl (inl (omega arith)) (omega arith, omega arith) (omega arith, omega arith)

sift_up-KeepsSize_example : KeepsSize 3 (timer_list_heap_sift_up three 2)
sift_up-KeepsSize_example = sift_up-KeepsSize three 2 (omega arith)

sift_down-KeepsSize_example : KeepsSize 3 (timer_list_heap_sift_down three 0)
sift_down-KeepsSize_example = sift_down-KeepsSize three 0 (omega arith)

abbrev two : TimerList
two = record { allocated = 2; entries = timer 7 10 500 0 ∷ timer 8 20 900 1 ∷ []; free_list = [] }

abbrev times : ℕ → ℕ
times id = if id == 7 then 510 else if id == 8 then 920 else 130

two-IsHeap : IsHeap times 0 two.entries
two-IsHeap zero positive inside = absurd (omega arith)
two-IsHeap (suc zero) positive inside = omega arith
two-IsHeap (suc (suc i)) positive inside = absurd (omega arith)

two-IsTimed : All (IsTimed times 0) two.entries
two-IsTimed = (
  (10, refl, refl, omega arith, omega arith, omega arith),
  ((20, refl, refl, omega arith, omega arith, omega arith), tt),
)

insert_into_list-IsHeap_example :
    (r : TimerList) × (timer_list_insert_into_list ticks true two (timer 9 30 100 5)
      ≡ some (r, true))
    × (length r.entries ≡ 3)
    × IsHeap times 0 r.entries
    × All (IsTimed times 0) r.entries
insert_into_list-IsHeap_example =
    insert_into_list-IsHeap times 0 ticks two (timer 9 30 100 5) two-IsHeap two-IsTimed
      (30, refl, refl, omega arith, omega arith, omega arith)

timer_list_time_to_expire-LeastOf_example :
    LeastOf times 0 two.entries 100 (timer_list_time_to_expire two 100)
timer_list_time_to_expire-LeastOf_example =
    timer_list_time_to_expire-LeastOf times 0 two 100 (omega arith) two-IsHeap two-IsTimed
      (omega arith) (omega arith)

insert_into_list_adds_example :
    (r : TimerList) × (timer_list_insert_into_list ticks true two (timer 9 30 100 5)
      ≡ some (r, true))
    × ((weight : ℕ → ℕ) → total weight r.entries ≡ total weight two.entries + weight 9)
insert_into_list_adds_example = insert_into_list_adds ticks two (timer 9 30 100 5)
