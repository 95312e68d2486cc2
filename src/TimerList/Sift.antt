-- ===== src/TimerList/Sift.antt =====
-- The loops on the heap end by themselves, and no assertion fails in them.
use corosync_qdevice.Prelude.{
  ℕ, zero, suc, ◌+◌, ◌≤◌, ◌<◌, ◌≡◌, refl, sym, ap, subst, true, Bool-cases, inl, inr, Option, none,
  some, ◌>>=◌, List, [], ◌∷◌, length, ltb, ◌==◌, if◌then◌else◌, if_either, arith,
}
use corosync_qdevice.TimerList.{
  TimerListEntry, replaced, timer_list_heap_entry_set, timer_list_heap_entry_get, swap,
  expires_after, expires_before, timer_list_heap_index_parent, timer_list_heap_index_left,
  timer_list_heap_index_right, sift_up_loop, timer_list_heap_sift_up, smaller_child, smallest_of,
  sift_down_loop, timer_list_heap_sift_down,
}

-- A result with as many entries.
abbrev pub KeepsSize : ℕ → Option (List TimerListEntry) → Type 0
KeepsSize n o = (r : List TimerListEntry) × (o ≡ some r) × (length r ≡ n)

pub length-replaced :
    (n : ℕ) (entry : TimerListEntry) (entries : List TimerListEntry)
    → length (replaced n entry entries) ≡ length entries
length-replaced n entry [] = refl
length-replaced zero entry (e ∷ entries) = refl
length-replaced (suc n) entry (e ∷ entries) = ap suc (length-replaced n entry entries)

pub set-KeepsSize :
    (entries : List TimerListEntry) (pos : ℕ) (entry : TimerListEntry)
    → pos < length entries
    → KeepsSize (length entries) (timer_list_heap_entry_set entries pos entry)
unfolding timer_list_heap_entry_set
set-KeepsSize entries pos entry inside =
    let placed = replaced pos (record entry { heap_pos = pos }) entries in
    let fits : ltb pos (length entries) ≡ true = ground arith in
    (
      placed,
      ap (λ b. if b then some placed else none) fits,
      length-replaced pos (record entry { heap_pos = pos }) entries,
    )

pub get_inside :
    (entries : List TimerListEntry) (pos : ℕ)
    → pos < length entries
    → (e : TimerListEntry) × (timer_list_heap_entry_get entries pos ≡ some e)
unfolding timer_list_heap_entry_get
get_inside [] pos inside = absurd (omega arith)
get_inside (e ∷ entries) zero inside = (e, refl)
get_inside (e ∷ entries) (suc n) inside = get_inside entries n (omega arith)

-- One step after another.
pub then-KeepsSize :
    (n : ℕ) (o : Option (List TimerListEntry))
    (f : List TimerListEntry → Option (List TimerListEntry))
    → KeepsSize n o
    → ((r : List TimerListEntry) → length r ≡ n → KeepsSize n (f r))
    → KeepsSize n (o >>= f)
then-KeepsSize n o f (r, e, len) h =
    subst (λ (x : Option (List TimerListEntry)). KeepsSize n (x >>= f)) (sym e) (h r len)

pub swap-KeepsSize :
    (entries : List TimerListEntry) (pos1 pos2 : ℕ) (entry1 entry2 : TimerListEntry)
    → pos1 < length entries
    → pos2 < length entries
    → KeepsSize (length entries) (swap entries pos1 entry1 pos2 entry2)
unfolding swap
swap-KeepsSize entries pos1 pos2 entry1 entry2 in1 in2 =
    then-KeepsSize (length entries) (timer_list_heap_entry_set entries pos1 entry1)
      (λ there. timer_list_heap_entry_set there pos2 entry2) (set-KeepsSize entries pos1 entry1 in1)
      (λ there len.
        subst (λ n. KeepsSize n (timer_list_heap_entry_set there pos2 entry2)) len
          (set-KeepsSize there pos2 entry2 (omega (arith, len))))

sift_up_loop-KeepsSize :
    (fuel : ℕ) (entries : List TimerListEntry) (item_pos : ℕ) (item_entry : TimerListEntry)
    → item_pos < fuel
    → item_pos < length entries
    → KeepsSize (length entries) (sift_up_loop fuel entries item_pos item_entry)
unfolding sift_up_loop
sift_up_loop-KeepsSize zero entries item_pos item_entry enough inside = absurd (omega arith)
sift_up_loop-KeepsSize (suc fuel) entries item_pos item_entry enough inside =
    elim (Bool-cases (item_pos == 0)) [
      | inl top ↦ rw top (entries, refl, refl)
      | inr below ↦
          let positive : 0 < item_pos = ground arith in
          let parent_pos = timer_list_heap_index_parent item_pos in
          let (parent_entry, got) = get_inside entries parent_pos (omega arith) in
          rw (below, got)
            (if_either (KeepsSize (length entries))
              (expires_after parent_entry item_entry item_entry.epoch) _ _
              (then-KeepsSize (length entries)
                (swap entries parent_pos item_entry item_pos parent_entry)
                (λ there. sift_up_loop fuel there parent_pos item_entry)
                (swap-KeepsSize entries parent_pos item_pos item_entry parent_entry (omega arith)
                  inside)
                (λ there len.
                  subst (λ n. KeepsSize n (sift_up_loop fuel there parent_pos item_entry)) len
                    (sift_up_loop-KeepsSize fuel there parent_pos item_entry (omega arith)
                      (omega (arith, len)))))
              (entries, refl, refl))
    ]

-- From any position in the heap, moving an entry up comes to an end with no assertion failed, and
-- with as many entries.
pub sift_up-KeepsSize :
    (entries : List TimerListEntry) (item_pos : ℕ)
    → item_pos < length entries
    → KeepsSize (length entries) (timer_list_heap_sift_up entries item_pos)
unfolding timer_list_heap_sift_up
sift_up-KeepsSize entries item_pos inside =
    let (item_entry, got) = get_inside entries item_pos inside in
    rw got (sift_up_loop-KeepsSize (item_pos + 1) entries item_pos item_entry (omega arith) inside)

-- The position that is found is the old one, or one further on in the heap.
abbrev FoundFrom : List TimerListEntry → ℕ → Option (ℕ × TimerListEntry) → Type 0
FoundFrom entries item_pos o =
    (r : ℕ × TimerListEntry) × (o ≡ some r) × (item_pos ≤ r.0) × (r.0 < length entries)

smaller_child-FoundFrom :
    (entries : List TimerListEntry) (item_pos child_pos : ℕ) (s : ℕ × TimerListEntry)
    → item_pos ≤ child_pos
    → item_pos ≤ s.0
    → s.0 < length entries
    → FoundFrom entries item_pos (smaller_child entries child_pos s)
unfolding smaller_child
smaller_child-FoundFrom entries item_pos child_pos (pos, entry) after from inside =
    elim (Bool-cases (ltb child_pos (length entries))) [
      | inr outside ↦ rw outside ((pos, entry), refl, from, inside)
      | inl fits ↦
          let (child, got) = get_inside entries child_pos (ground arith) in
          rw (fits, got)
            (if_either (λ (r : ℕ × TimerListEntry). FoundFrom entries item_pos (some r))
              (expires_before child entry entry.epoch) _ _
              ((child_pos, child), refl, after, ground arith) ((pos, entry), refl, from, inside))
    ]

smallest_of-FoundFrom :
    (entries : List TimerListEntry) (item_pos : ℕ) (item_entry : TimerListEntry)
    → item_pos < length entries
    → FoundFrom entries item_pos (smallest_of entries item_pos item_entry)
unfolding smallest_of
smallest_of-FoundFrom entries item_pos item_entry inside =
    let left = timer_list_heap_index_left item_pos in
    let right = timer_list_heap_index_right item_pos in
    let (s, e, from, fits) =
      smaller_child-FoundFrom entries item_pos left (item_pos, item_entry) (omega arith)
        (omega arith) inside in
    subst
      (λ (o : Option (ℕ × TimerListEntry)).
        FoundFrom entries item_pos (o >>= smaller_child entries right))
      (sym e) (smaller_child-FoundFrom entries item_pos right s (omega arith) from fits)

sift_down_loop-KeepsSize :
    (fuel : ℕ) (entries : List TimerListEntry) (item_pos : ℕ)
    → length entries ≤ item_pos + fuel
    → item_pos < length entries
    → KeepsSize (length entries) (sift_down_loop fuel entries item_pos)
unfolding sift_down_loop
sift_down_loop-KeepsSize zero entries item_pos enough inside = absurd (omega arith)
sift_down_loop-KeepsSize (suc fuel) entries item_pos enough inside =
    let (item_entry, got) = get_inside entries item_pos inside in
    let (found, e, from, fits) = smallest_of-FoundFrom entries item_pos item_entry inside in
    rw (got, e)
      (elim (Bool-cases (found.0 == item_pos)) [
        | inl done ↦ rw done (entries, refl, refl)
        | inr onward ↦
            let further : item_pos < found.0 = ground arith in
            rw onward (
              then-KeepsSize (length entries) (swap entries item_pos found.1 found.0 item_entry)
                (λ there. sift_down_loop fuel there found.0)
                (swap-KeepsSize entries item_pos found.0 found.1 item_entry inside fits)
                (λ there len.
                  subst (λ n. KeepsSize n (sift_down_loop fuel there found.0)) len
                    (sift_down_loop-KeepsSize fuel there found.0 (omega (arith, len))
                      (omega (arith, len)))))
      ])

-- From any position in the heap, moving an entry down comes to an end with no assertion failed, and
-- with as many entries.
pub sift_down-KeepsSize :
    (entries : List TimerListEntry) (item_pos : ℕ)
    → item_pos < length entries
    → KeepsSize (length entries) (timer_list_heap_sift_down entries item_pos)
unfolding timer_list_heap_sift_down
sift_down-KeepsSize entries item_pos inside =
    sift_down_loop-KeepsSize (length entries) entries item_pos (omega arith) inside
