-- ===== src/TimerList/Added.antt =====
-- A timer that is added goes to its place in the heap.
use corosync_qdevice.Prelude.{
  ℕ, zero, suc, ◌+◌, ◌*◌, ◌%◌, ◌^◌, ◌<◌, ◌≡◌, refl, sym, ◌∙◌, subst, true, Bool-cases, inl, inr,
  some, List, [], ◌∷◌, ◌++◌, length, length-append, All, ltb, arith,
}
use corosync_qdevice.TimerList.{
  TimerListEntry, TimerList, timer_list_heap_entry_get, timer_list_heap_index_parent,
  timer_list_heap_sift_up, timer_list_insert_into_list,
}
use corosync_qdevice.TimerList.Order.{UpOn}
use corosync_qdevice.TimerList.Insert.{IsTimed, time_at, IsHeap, InOrder, sift_up_loop-InOrder}

pub get-last :
    (entries : List TimerListEntry) (e : TimerListEntry)
    → timer_list_heap_entry_get (entries ++ e ∷ []) (length entries) ≡ some e
unfolding timer_list_heap_entry_get
get-last [] e = refl
get-last (x ∷ entries) e = get-last entries e

module _ (times : ℕ → ℕ) (start : ℕ) where
  pub time_at-last :
      (entries : List TimerListEntry) (e : TimerListEntry)
      → time_at times start (entries ++ e ∷ []) (length entries) ≡ times e.id
  time_at-last [] e = refl
  time_at-last (x ∷ entries) e = time_at-last entries e

  time_at-before :
      (entries : List TimerListEntry) (e : TimerListEntry) (i : ℕ)
      → i < length entries
      → time_at times start (entries ++ e ∷ []) i ≡ time_at times start entries i
  time_at-before [] e i inside = absurd (omega arith)
  time_at-before (x ∷ entries) e zero inside = refl
  time_at-before (x ∷ entries) e (suc i) inside = time_at-before entries e i (omega arith)

  last-IsTimed :
      (entries : List TimerListEntry) (e : TimerListEntry)
      → All (IsTimed times start) entries
      → IsTimed times start e
      → All (IsTimed times start) (entries ++ e ∷ [])
  last-IsTimed [] e all t = (t, tt)
  last-IsTimed (x ∷ entries) e (u, all) t = (u, last-IsTimed entries e all t)

  -- A heap with an entry at its end.
  last-UpOn :
      (entries : List TimerListEntry) (e : TimerListEntry)
      → IsHeap times start entries
      → UpOn (length entries + 1) (time_at times start (entries ++ e ∷ [])) (length entries)
  last-UpOn entries e heap = record {
    others = λ i positive inside ne.
        let here : i < length entries = omega arith in
        omega (
          arith,
          heap i positive here,
          time_at-before entries e i here,
          time_at-before entries e (timer_list_heap_index_parent i) (omega arith),
        );
    bridge = λ i positive inside s _. absurd (omega arith);
  }

  sift_up-InOrder :
      (entries : List TimerListEntry) (e : TimerListEntry)
      → IsHeap times start entries
      → All (IsTimed times start) entries
      → IsTimed times start e
      → InOrder times start
          (entries ++ e ∷ [])
          (timer_list_heap_sift_up (entries ++ e ∷ []) (length entries))
  unfolding timer_list_heap_sift_up
  sift_up-InOrder entries e heap all timed =
      let n = length entries in
      let longer : length (entries ++ e ∷ []) ≡ n + 1 = length-append entries (e ∷ []) in
      rw (get-last entries e) (
        sift_up_loop-InOrder times start (n + 1) (entries ++ e ∷ []) n e (omega arith)
          (omega (arith, longer)) (time_at-last entries e) timed (last-IsTimed entries e all timed)
          (subst (λ m. UpOn m (time_at times start (entries ++ e ∷ [])) n) (sym longer)
            (last-UpOn entries e heap)))

  -- A timer that is inserted into a heap in order leaves the heap in order and one timer longer, and no
  -- assertion fails: where memory is granted, every timer, the new one too, expires after its epoch,
  -- and the true epochs and times of expiry of all of them lie in a half of all numbers.
  pub insert_into_list-IsHeap :
      (ticks : ℕ → ℕ) (tlist : TimerList) (new_entry : TimerListEntry)
      → IsHeap times start tlist.entries
      → All (IsTimed times start) tlist.entries
      → IsTimed times start
          (record new_entry { expire_time = (new_entry.epoch + ticks new_entry.interval) % 2 ^ 32 })
      → (r : TimerList) × (timer_list_insert_into_list ticks true tlist new_entry ≡ some (r, true))
        × (length r.entries ≡ length tlist.entries + 1)
        × IsHeap times start r.entries
        × All (IsTimed times start) r.entries
  unfolding timer_list_insert_into_list
  insert_into_list-IsHeap ticks tlist new_entry heap all timed =
      let n = length tlist.entries in
      let e = record new_entry {
        expire_time = (new_entry.epoch + ticks new_entry.interval) % 2 ^ 32;
        heap_pos = n;
      } in
      let (entries, ends, size, in_order, in_time) =
        sift_up-InOrder tlist.entries e heap all timed in
      elim (Bool-cases (ltb tlist.allocated (n + 1))) [
        | inl full ↦
            rw (full, ends)
              (
                record tlist { allocated = (tlist.allocated + 1) * 2; entries = entries },
                refl,
                size ∙ length-append tlist.entries (e ∷ []),
                in_order,
                in_time,
              )
        | inr fits ↦
            rw (fits, ends)
              (
                record tlist { entries = entries },
                refl,
                size ∙ length-append tlist.entries (e ∷ []),
                in_order,
                in_time,
              )
      ]
