-- ===== src/TimerList/Bag.antt =====
-- The timers in the heap as a bag: their order is forgotten.
use corosync_qdevice.Prelude.{
  ℕ, zero, suc, ◌+◌, ◌*◌, ◌%◌, ◌^◌, ◌<◌, ◌≡◌, ◌≢◌, refl, ◌∙◌, true, Bool-cases, inl, inr, Option,
  some, List, [], ◌∷◌, ◌++◌, length, length-append, ltb, ◌==◌, if_either, arith,
}
use corosync_qdevice.TimerList.{
  TimerListEntry, TimerList, replaced, timer_list_heap_index_parent, expires_after, sift_up_loop,
  timer_list_heap_sift_up, timer_list_insert_into_list,
}
use corosync_qdevice.TimerList.Sift.{length-replaced, get_inside}
use corosync_qdevice.TimerList.Insert.{
  time_at, swap_lem, length-swapped, get-time_at, replaced-here, replaced-there,
}
use corosync_qdevice.TimerList.Added.{get-last, time_at-last}

-- The sum of what a function gives for the ids. That two lists agree on it for every function says
-- that they have the same ids, each as many times.
abbrev pub total : (ℕ → ℕ) → List TimerListEntry → ℕ
total weight [] = 0
total weight (e ∷ entries) = weight e.id + total weight entries

abbrev pub SameBag : List TimerListEntry → Option (List TimerListEntry) → Type 0
SameBag entries o =
    (r : List TimerListEntry) × (o ≡ some r)
    × ((weight : ℕ → ℕ) → total weight r ≡ total weight entries)

total-replaced :
    (weight : ℕ → ℕ) (n : ℕ) (e : TimerListEntry) (entries : List TimerListEntry)
    → n < length entries
    → total weight (replaced n e entries) + time_at weight 0 entries n
      ≡ total weight entries + weight e.id
total-replaced weight n e [] inside = absurd (omega arith)
total-replaced weight zero e (x ∷ entries) inside = omega arith
total-replaced weight (suc n) e (x ∷ entries) inside =
    omega (arith, total-replaced weight n e entries (omega arith))

total-append :
    (weight : ℕ → ℕ) (entries : List TimerListEntry) (e : TimerListEntry)
    → total weight (entries ++ e ∷ []) ≡ total weight entries + weight e.id
total-append weight [] e = omega arith
total-append weight (x ∷ entries) e = omega (arith, total-append weight entries e)

abbrev exchanged :
    List TimerListEntry → ℕ → TimerListEntry → ℕ → TimerListEntry → List TimerListEntry
exchanged entries pos1 entry1 pos2 entry2 =
    replaced pos2 (record entry2 { heap_pos = pos2 })
      (replaced pos1 (record entry1 { heap_pos = pos1 }) entries)

total-exchanged :
    (weight : ℕ → ℕ) (entries : List TimerListEntry) (pos1 pos2 : ℕ)
    (entry1 entry2 : TimerListEntry)
    → pos1 < length entries
    → pos2 < length entries
    → pos2 ≢ pos1
    → time_at weight 0 entries pos2 ≡ weight entry1.id
    → time_at weight 0 entries pos1 ≡ weight entry2.id
    → total weight (exchanged entries pos1 entry1 pos2 entry2) ≡ total weight entries
total-exchanged weight entries pos1 pos2 entry1 entry2 in1 in2 ne at2 at1 =
    let up = record entry1 { heap_pos = pos1 } in
    let there = replaced pos1 up entries in
    omega (
      arith,
      at1,
      at2,
      replaced-there weight 0 pos1 pos2 up entries ne,
      total-replaced weight pos1 up entries in1,
      total-replaced weight pos2 (record entry2 { heap_pos = pos2 }) there
          (omega (arith, length-replaced pos1 up entries)),
    )

sift_up_loop-SameBag :
    (fuel : ℕ) (entries : List TimerListEntry) (pos : ℕ) (item : TimerListEntry)
    → pos < fuel
    → pos < length entries
    → ((weight : ℕ → ℕ) → time_at weight 0 entries pos ≡ weight item.id)
    → SameBag entries (sift_up_loop fuel entries pos item)
unfolding sift_up_loop
sift_up_loop-SameBag zero entries pos item enough inside at_item = absurd (omega arith)
sift_up_loop-SameBag (suc fuel) entries pos item enough inside at_item =
    elim (Bool-cases (pos == 0)) [
      | inl top ↦ rw top (entries, refl, λ weight. refl)
      | inr below ↦
          let positive : 0 < pos = ground arith in
          let parent_pos = timer_list_heap_index_parent pos in
          let (parent_entry, got) = get_inside entries parent_pos (omega arith) in
          let at_parent =
            λ (weight : ℕ → ℕ). get-time_at weight 0 entries parent_pos parent_entry got in
          let there = exchanged entries parent_pos item pos parent_entry in
          let len = length-swapped (λ n. n) 0 entries parent_pos pos item parent_entry in
          let apart : pos ≢ parent_pos = λ s. omega arith in
          let risen = record item { heap_pos = parent_pos } in
          let (r, ends, same) =
            sift_up_loop-SameBag fuel there parent_pos item (omega arith) (omega (arith, len))
              (λ weight.
                replaced-there weight 0 pos parent_pos (record parent_entry { heap_pos = pos })
                  (replaced parent_pos risen entries) (λ s. omega arith)
                ∙ replaced-here weight 0 parent_pos risen entries (omega arith)) in
          rw
            (
              below,
              got,
              swap_lem (λ n. n) 0 entries parent_pos pos item parent_entry (omega arith) inside,
            )
            (if_either (SameBag entries) (expires_after parent_entry item item.epoch) _ _
              (
                r,
                ends,
                λ weight.
                    same weight
                    ∙ total-exchanged weight entries parent_pos pos item parent_entry (omega arith)
                        inside apart (at_item weight) (at_parent weight),
              )
              (entries, refl, λ weight. refl))
    ]

sift_up-SameBag :
    (entries : List TimerListEntry) (e : TimerListEntry)
    → SameBag (entries ++ e ∷ []) (timer_list_heap_sift_up (entries ++ e ∷ []) (length entries))
unfolding timer_list_heap_sift_up
sift_up-SameBag entries e = rw (get-last entries e) (
    sift_up_loop-SameBag (length entries + 1) (entries ++ e ∷ []) (length entries) e (omega arith)
      (omega (arith, length-append entries (e ∷ []))) (λ weight. time_at-last weight 0 entries e))

-- Where memory is granted, inserting a timer adds its id to the bag of the ids in the heap and
-- changes nothing else in the bag, and no assertion fails.
pub insert_into_list_adds :
    (ticks : ℕ → ℕ) (tlist : TimerList) (new_entry : TimerListEntry)
    → (r : TimerList) × (timer_list_insert_into_list ticks true tlist new_entry ≡ some (r, true))
      × ((weight : ℕ → ℕ)
          → total weight r.entries ≡ total weight tlist.entries + weight new_entry.id)
unfolding timer_list_insert_into_list
insert_into_list_adds ticks tlist new_entry =
    let n = length tlist.entries in
    let e = record new_entry {
      expire_time = (new_entry.epoch + ticks new_entry.interval) % 2 ^ 32;
      heap_pos = n;
    } in
    let (entries, ends, same) = sift_up-SameBag tlist.entries e in
    let adds = λ (weight : ℕ → ℕ). same weight ∙ total-append weight tlist.entries e in
    elim (Bool-cases (ltb tlist.allocated (n + 1))) [
      | inl full ↦
          rw (full, ends)
            (record tlist { allocated = (tlist.allocated + 1) * 2; entries = entries }, refl, adds)
      | inr fits ↦ rw (fits, ends) (record tlist { entries = entries }, refl, adds)
    ]
