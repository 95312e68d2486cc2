-- ===== src/TimerList/Insert.antt =====
-- A timer that moves up to its place leaves a heap in order.
use corosync_qdevice.Prelude.{
  ℕ, zero, suc, ◌+◌, ◌%◌, ◌^◌, ◌≤◌, ◌<◌, ◌≡◌, ◌≢◌, refl, sym, ap, ◌∙◌, subst, true, Bool-cases, inl,
  inr, Option, some, List, [], ◌∷◌, length, All, ltb, ◌==◌, ==_iff, arith,
}
use corosync_qdevice.TimerList.{
  TimerListEntry, replaced, timer_list_heap_entry_set, timer_list_heap_entry_get, swap,
  expires_before, expires_after, timer_list_heap_index_parent, sift_up_loop,
}
use corosync_qdevice.TimerList.Clock.{expires_before_exact}
use corosync_qdevice.TimerList.Order.{HeapOn, UpOn, UpOn-top, UpOn-done, UpOn-step, Exchanged}
use corosync_qdevice.TimerList.Sift.{length-replaced, get_inside}

-- `times` is the true time of expiry of each timer, by its id, where the 32-bit times are these
-- times and the true epochs, wrapped around; all of them lie in a half of all numbers from `start`.
abbrev pub IsTimed : (ℕ → ℕ) → ℕ → TimerListEntry → Type 0
IsTimed times start e =
    (true_epoch : ℕ) × (e.epoch ≡ true_epoch % 2 ^ 32)
    × (e.expire_time ≡ times e.id % 2 ^ 32)
    × (start ≤ true_epoch)
    × (true_epoch < times e.id)
    × (times e.id < start + 2147483648)

module _ (times : ℕ → ℕ) (start : ℕ) where
  -- The times in the array.
  abbrev pub time_at : List TimerListEntry → ℕ → ℕ
  time_at [] i = 0
  time_at (e ∷ entries) zero = times e.id
  time_at (e ∷ entries) (suc i) = time_at entries i

  -- No timer expires before its parent in the heap.
  abbrev pub IsHeap : List TimerListEntry → Type 0
  IsHeap entries = HeapOn (length entries) (time_at entries)

  -- At the epoch of the second timer the test is exact.
  after_exact :
      (p e : TimerListEntry)
      → IsTimed times start p
      → IsTimed times start e
      → expires_after p e e.epoch ≡ ltb (times e.id) (times p.id)
  after_exact p e (pn, pe, px, p0, p1, p2) (en, ee, ex, e0, e1, e2) =
      ap (λ t. expires_before e p t) ee
      ∙ expires_before_exact e p (times e.id) (times p.id) en ex px (inl e1)
          (omega arith, omega arith) (omega arith, omega arith)

  pub get-time_at :
      (entries : List TimerListEntry) (i : ℕ) (e : TimerListEntry)
      → timer_list_heap_entry_get entries i ≡ some e
      → time_at entries i ≡ times e.id
  unfolding timer_list_heap_entry_get
  get-time_at [] i e got = cc
  get-time_at (x ∷ entries) zero e got = ap (λ (y : TimerListEntry). times y.id) (some_same got)
    where
      some_same : some x ≡ some e → x ≡ e
      some_same h = cc
  get-time_at (x ∷ entries) (suc i) e got = get-time_at entries i e got

  get-IsTimed :
      (entries : List TimerListEntry) (i : ℕ) (e : TimerListEntry)
      → timer_list_heap_entry_get entries i ≡ some e
      → All (IsTimed times start) entries
      → IsTimed times start e
  unfolding timer_list_heap_entry_get
  get-IsTimed [] i e got all = cc
  get-IsTimed (x ∷ entries) zero e got (t, all) = subst (IsTimed times start) (some_same got) t
    where
      some_same : some x ≡ some e → x ≡ e
      some_same h = cc
  get-IsTimed (x ∷ entries) (suc i) e got (t, all) = get-IsTimed entries i e got all

  pub replaced-here :
      (n : ℕ) (e : TimerListEntry) (entries : List TimerListEntry)
      → n < length entries
      → time_at (replaced n e entries) n ≡ times e.id
  replaced-here n e [] inside = absurd (omega arith)
  replaced-here zero e (x ∷ entries) inside = refl
  replaced-here (suc n) e (x ∷ entries) inside = replaced-here n e entries (omega arith)

  pub replaced-there :
      (n i : ℕ) (e : TimerListEntry) (entries : List TimerListEntry)
      → i ≢ n
      → time_at (replaced n e entries) i ≡ time_at entries i
  replaced-there n i e [] ne = refl
  replaced-there zero zero e (x ∷ entries) ne = absurd (ne refl)
  replaced-there zero (suc i) e (x ∷ entries) ne = refl
  replaced-there (suc n) zero e (x ∷ entries) ne = refl
  replaced-there (suc n) (suc i) e (x ∷ entries) ne =
      replaced-there n i e entries (λ s. ne (ap suc s))

  replaced-IsTimed :
      (n : ℕ) (e : TimerListEntry) (entries : List TimerListEntry)
      → IsTimed times start e
      → All (IsTimed times start) entries
      → All (IsTimed times start) (replaced n e entries)
  replaced-IsTimed n e [] t all = tt
  replaced-IsTimed zero e (x ∷ entries) t (u, all) = (t, all)
  replaced-IsTimed (suc n) e (x ∷ entries) t (u, all) = (u, replaced-IsTimed n e entries t all)

  abbrev placed : ℕ → TimerListEntry → List TimerListEntry → List TimerListEntry
  placed pos e entries = replaced pos (record e { heap_pos = pos }) entries

  -- What an exchange of an entry with its parent makes.
  pub swap_lem :
      (entries : List TimerListEntry) (pos1 pos2 : ℕ) (entry1 entry2 : TimerListEntry)
      → pos1 < length entries
      → pos2 < length entries
      → swap entries pos1 entry1 pos2 entry2
        ≡ some (placed pos2 entry2 (placed pos1 entry1 entries))
  unfolding swap timer_list_heap_entry_set
  swap_lem entries pos1 pos2 entry1 entry2 in1 in2 =
      let fits1 : ltb pos1 (length entries) ≡ true = ground arith in
      let fits2 : ltb pos2 (length (placed pos1 entry1 entries)) ≡ true =
        ground (arith, length-replaced pos1 (record entry1 { heap_pos = pos1 }) entries) in
      rw (fits1, fits2) refl

  -- The end of the loop.
  abbrev pub InOrder : List TimerListEntry → Option (List TimerListEntry) → Type 0
  InOrder entries o =
      (r : List TimerListEntry) × (o ≡ some r)
      × (length r ≡ length entries)
      × IsHeap r
      × All (IsTimed times start) r

  swapped-Exchanged :
      (entries : List TimerListEntry) (pos : ℕ) (item parent_entry : TimerListEntry)
      → 0 < pos
      → pos < length entries
      → time_at entries pos ≡ times item.id
      → time_at entries (timer_list_heap_index_parent pos) ≡ times parent_entry.id
      → Exchanged
          (time_at entries)
          (time_at
            (placed pos parent_entry (placed (timer_list_heap_index_parent pos) item entries)))
          pos
          (timer_list_heap_index_parent pos)
  swapped-Exchanged entries pos item parent_entry positive inside at_item at_parent =
      let parent = timer_list_heap_index_parent pos in
      let there = placed parent item entries in
      let up = record item { heap_pos = parent } in
      let down = record parent_entry { heap_pos = pos } in
      let len = length-replaced parent up entries in
      record {
        at_pos = replaced-here pos down there (omega (arith, len)) ∙ sym at_parent;
        at_parent =
            replaced-there pos parent down there (λ s. omega arith)
            ∙ replaced-here parent up entries (omega arith)
            ∙ sym at_item;
        elsewhere = λ i off away.
            replaced-there pos i down there off ∙ replaced-there parent i up entries away;
      }

  pub length-swapped :
      (entries : List TimerListEntry) (pos1 pos2 : ℕ) (entry1 entry2 : TimerListEntry)
      → length (placed pos2 entry2 (placed pos1 entry1 entries)) ≡ length entries
  length-swapped entries pos1 pos2 entry1 entry2 =
      length-replaced pos2 (record entry2 { heap_pos = pos2 }) (placed pos1 entry1 entries)
      ∙ length-replaced pos1 (record entry1 { heap_pos = pos1 }) entries

  swapped-IsTimed :
      (entries : List TimerListEntry) (pos1 pos2 : ℕ) (entry1 entry2 : TimerListEntry)
      → IsTimed times start entry1
      → IsTimed times start entry2
      → All (IsTimed times start) entries
      → All (IsTimed times start) (placed pos2 entry2 (placed pos1 entry1 entries))
  swapped-IsTimed entries pos1 pos2 entry1 entry2 timed1 timed2 all =
      replaced-IsTimed pos2 (record entry2 { heap_pos = pos2 }) (placed pos1 entry1 entries) timed2
        (replaced-IsTimed pos1 (record entry1 { heap_pos = pos1 }) entries timed1 all)

  pub sift_up_loop-InOrder :
      (fuel : ℕ) (entries : List TimerListEntry) (pos : ℕ) (item : TimerListEntry)
      → pos < fuel
      → pos < length entries
      → time_at entries pos ≡ times item.id
      → IsTimed times start item
      → All (IsTimed times start) entries
      → UpOn (length entries) (time_at entries) pos
      → InOrder entries (sift_up_loop fuel entries pos item)
  unfolding sift_up_loop
  sift_up_loop-InOrder zero entries pos item enough inside at_item timed all up =
      absurd (omega arith)
  sift_up_loop-InOrder (suc fuel) entries pos item enough inside at_item timed all up =
      elim (Bool-cases (pos == 0)) [
        | inl top ↦
            let is_zero = (==_iff pos 0).0 top in
            rw top (
              entries,
              refl,
              refl,
              UpOn-top (length entries) (time_at entries)
                  (subst (UpOn (length entries) (time_at entries)) is_zero up),
              all,
            )
        | inr below ↦
            let positive : 0 < pos = ground arith in
            let parent_pos = timer_list_heap_index_parent pos in
            let (parent_entry, got) = get_inside entries parent_pos (omega arith) in
            let at_parent = get-time_at entries parent_pos parent_entry got in
            let parent_timed = get-IsTimed entries parent_pos parent_entry got all in
            let exact = after_exact parent_entry item parent_timed timed in
            rw
              (
                below,
                got,
                swap_lem entries parent_pos pos item parent_entry (omega arith) inside,
                exact,
              )
              (elim (Bool-cases (ltb (times item.id) (times parent_entry.id))) [
                | inr fine ↦ rw fine (
                  entries,
                  refl,
                  refl,
                  UpOn-done (length entries) (time_at entries) pos up
                      (ground (arith, at_item, at_parent)),
                  all,
                )
                | inl less ↦
                    let there = placed pos parent_entry (placed parent_pos item entries) in
                    let len = length-swapped entries parent_pos pos item parent_entry in
                    let x =
                      swapped-Exchanged entries pos item parent_entry positive inside at_item
                        at_parent in
                    let less_times : time_at entries pos < time_at entries parent_pos =
                      ground (arith, at_item, at_parent) in
                    let (r, ends, size, heap, result_timed) =
                      sift_up_loop-InOrder fuel there parent_pos item (omega arith)
                        (omega (arith, len)) (x.at_parent ∙ at_item) timed
                        (swapped-IsTimed entries parent_pos pos item parent_entry timed parent_timed
                          all)
                        (subst (λ n. UpOn n (time_at there) parent_pos) (sym len)
                          (UpOn-step (length entries) (time_at entries) (time_at there) pos positive
                            inside x less_times up)) in
                    rw less (r, ends, size ∙ len, heap, result_timed)
              ])
      ]
