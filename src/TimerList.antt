-- ===== src/TimerList.antt =====
-- qdevices/timer-list.h and qdevices/timer-list.c: timers in a binary heap, the next to expire first.
-- A PRIntervalTime is a 32-bit number that wraps around. A timer is known by `id`, which stands for
-- its pointer and its callback; `none` is the end of the program by a failed assertion. `now` is the
-- result of PR_IntervalNow, and `ticks` is PR_MillisecondsToInterval.
pub mod Clock
pub mod Sift
pub mod Order
pub mod Insert
pub mod Added
pub mod First
pub mod Bag
mod Examples
use corosync_qdevice.Prelude.{
  ℕ, zero, suc, ◌+◌, ◌*◌, ◌-◌, ◌/◌, ◌%◌, ◌^◌, Bool, true, false, ◌&&◌, ◌||◌, not, Option, none,
  some, ◌>>=◌, List, [], ◌∷◌, ◌++◌, length, take, ltb, ◌==◌, if◌then◌else◌,
}

pub record TimerListEntry : Type 0 where
  pub id : ℕ
  pub epoch : ℕ
  pub interval : ℕ
  pub expire_time : ℕ
  pub is_active : Bool
  pub heap_pos : ℕ

-- The entries in use are the heap; their number is the field `size`. A free entry is cleared before it
-- is used again, so that only its `id` matters.
pub record TimerList : Type 0 where
  pub allocated : ℕ
  pub entries : List TimerListEntry
  pub free_list : List TimerListEntry

abbrev pub timer_list_init : TimerList
timer_list_init = record { allocated = 0; entries = []; free_list = [] }

-- The difference wraps around; more than the half of all numbers is a time in the past.
abbrev pub remaining : ℕ → ℕ → ℕ
remaining expire_time current_time =
    let diff = (expire_time + 2 ^ 32 - current_time) % 2 ^ 32 in
    if ltb 2147483647 diff then 0 else diff

abbrev pub timer_list_entry_time_to_expire : TimerListEntry → ℕ → ℕ
timer_list_entry_time_to_expire entry current_time = remaining entry.expire_time current_time

-- `timer_list_entry_cmp` is below, or above, zero.
abbrev pub expires_before : TimerListEntry → TimerListEntry → ℕ → Bool
expires_before entry1 entry2 current_time =
    ltb (timer_list_entry_time_to_expire entry1 current_time)
      (timer_list_entry_time_to_expire entry2 current_time)

abbrev pub expires_after : TimerListEntry → TimerListEntry → ℕ → Bool
expires_after entry1 entry2 current_time = expires_before entry2 entry1 current_time

abbrev pub timer_list_heap_index_left : ℕ → ℕ
timer_list_heap_index_left index = 2 * index + 1

abbrev pub timer_list_heap_index_right : ℕ → ℕ
timer_list_heap_index_right index = 2 * index + 2

-- Of a position above 0.
abbrev pub timer_list_heap_index_parent : ℕ → ℕ
timer_list_heap_index_parent index = (index - 1) / 2

abbrev pub replaced : ℕ → TimerListEntry → List TimerListEntry → List TimerListEntry
replaced n entry [] = []
replaced zero entry (e ∷ entries) = entry ∷ entries
replaced (suc n) entry (e ∷ entries) = e ∷ replaced n entry entries

unfoldable pub timer_list_heap_entry_set :
    List TimerListEntry → ℕ → TimerListEntry → Option (List TimerListEntry)
timer_list_heap_entry_set entries item_pos entry =
    if ltb item_pos (length entries)
    then some (replaced item_pos (record entry { heap_pos = item_pos }) entries)
    else none

unfoldable pub timer_list_heap_entry_get : List TimerListEntry → ℕ → Option TimerListEntry
timer_list_heap_entry_get [] item_pos = none
timer_list_heap_entry_get (e ∷ entries) zero = some e
timer_list_heap_entry_get (e ∷ entries) (suc n) = timer_list_heap_entry_get entries n

-- The entries at two positions change places.
unfoldable pub swap :
    List TimerListEntry → ℕ → TimerListEntry → ℕ → TimerListEntry → Option (List TimerListEntry)
swap entries pos1 entry1 pos2 entry2 = do
  there ← timer_list_heap_entry_set entries pos1 entry1
  timer_list_heap_entry_set there pos2 entry2

-- The loop of `timer_list_heap_sift_up`; a round halves the position, so the position plus one is
-- enough fuel.
unfoldable pub sift_up_loop :
    ℕ → List TimerListEntry → ℕ → TimerListEntry → Option (List TimerListEntry)
sift_up_loop zero entries item_pos item_entry = none
sift_up_loop (suc fuel) entries item_pos item_entry = if item_pos == 0 then some entries else do
  parent_entry ← timer_list_heap_entry_get entries (timer_list_heap_index_parent item_pos)
  let parent_pos = timer_list_heap_index_parent item_pos in
      let next =
        swap entries parent_pos item_entry item_pos parent_entry
        >>= (λ there. sift_up_loop fuel there parent_pos item_entry) in
      if expires_after parent_entry item_entry item_entry.epoch then next else some entries

unfoldable pub timer_list_heap_sift_up : List TimerListEntry → ℕ → Option (List TimerListEntry)
timer_list_heap_sift_up entries item_pos = do
  item_entry ← timer_list_heap_entry_get entries item_pos
  sift_up_loop (item_pos + 1) entries item_pos item_entry

-- The smaller of an entry and the entry at a child's position, which may lie outside of the heap.
unfoldable pub smaller_child :
    List TimerListEntry → ℕ → ℕ × TimerListEntry → Option (ℕ × TimerListEntry)
smaller_child entries child_pos (smallest_pos, smallest_entry) =
    if ltb child_pos (length entries)
    then (do
      child ← timer_list_heap_entry_get entries child_pos
      some (
          if expires_before child smallest_entry smallest_entry.epoch
          then (child_pos, child)
          else (smallest_pos, smallest_entry)))
    else some (smallest_pos, smallest_entry)

unfoldable pub smallest_of : List TimerListEntry → ℕ → TimerListEntry → Option (ℕ × TimerListEntry)
smallest_of entries item_pos item_entry =
    smaller_child entries (timer_list_heap_index_left item_pos) (item_pos, item_entry)
    >>= smaller_child entries (timer_list_heap_index_right item_pos)

-- The loop of `timer_list_heap_sift_down`; a round moves on in the array, so its size is enough fuel.
unfoldable pub sift_down_loop : ℕ → List TimerListEntry → ℕ → Option (List TimerListEntry)
sift_down_loop zero entries item_pos = none
sift_down_loop (suc fuel) entries item_pos = do
  item_entry ← timer_list_heap_entry_get entries item_pos
  found ← smallest_of entries item_pos item_entry
  let next =
        swap entries item_pos found.1 found.0 item_entry
        >>= (λ there. sift_down_loop fuel there found.0) in
      if found.0 == item_pos then some entries else next

unfoldable pub timer_list_heap_sift_down : List TimerListEntry → ℕ → Option (List TimerListEntry)
timer_list_heap_sift_down entries item_pos = sift_down_loop (length entries) entries item_pos

-- The last entry takes the place of the deleted one, and moves up or down from there.
unfoldable pub timer_list_heap_delete :
    List TimerListEntry → TimerListEntry → Option (List TimerListEntry)
timer_list_heap_delete entries entry = do
  replacement ← timer_list_heap_entry_get entries (length entries - 1)
  moved ← timer_list_heap_entry_set entries entry.heap_pos replacement
  let rest = take (length entries - 1) moved in
      let up = timer_list_heap_sift_up rest entry.heap_pos in
      let down = timer_list_heap_sift_down rest entry.heap_pos in
      if expires_before replacement entry entry.epoch
      then up
      else if expires_after replacement entry entry.epoch
      then down
      else some rest

-- `granted` is the answer of `realloc`; the second part is false for -1.
unfoldable pub timer_list_insert_into_list :
    (ℕ → ℕ) → Bool → TimerList → TimerListEntry → Option (TimerList × Bool)
timer_list_insert_into_list ticks granted tlist new_entry =
    let entry = record new_entry {
      expire_time = (new_entry.epoch + ticks new_entry.interval) % 2 ^ 32;
    } in
    let full = ltb tlist.allocated (length tlist.entries + 1) in
    let allocated = if full then (tlist.allocated + 1) * 2 else tlist.allocated in
    let placed = record entry { heap_pos = length tlist.entries } in
    let inserted =
      timer_list_heap_sift_up (tlist.entries ++ placed ∷ []) (length tlist.entries)
      >>= (λ entries. some (record tlist { allocated = allocated; entries = entries }, true)) in
    if full && not granted then some (tlist, false) else inserted

abbrev pub timer_list_max_interval : ℕ
timer_list_max_interval = 18000000

abbrev pub out_of_bounds : ℕ → Bool
out_of_bounds interval = ltb interval 1 || ltb timer_list_max_interval interval

-- The entry that is used: the first of the free list, or a new one with the number `fresh`.
abbrev pub free_entry : ℕ → List TimerListEntry → ℕ × List TimerListEntry
free_entry fresh [] = (fresh, [])
free_entry fresh (e ∷ free) = (e.id, free)

abbrev pub is_nil : List TimerListEntry → Bool
is_nil [] = true
is_nil (e ∷ free) = false

-- The pointer of the timer is the result; NULL is `none` there. `func_given` is false for a callback
-- that is NULL; `granted_entry` and `granted_heap` answer `malloc` and `realloc`.
unfoldable pub timer_list_add :
    (ℕ → ℕ) → ℕ → Bool → Bool → ℕ → TimerList → ℕ → Bool → Option (TimerList × Option ℕ)
timer_list_add ticks now granted_entry granted_heap fresh tlist interval func_given =
    let (id, free) = free_entry fresh tlist.free_list in
    let new_entry : TimerListEntry = record {
      id = id;
      epoch = now;
      interval = interval;
      expire_time = 0;
      is_active = true;
      heap_pos = 2 ^ 64 - 1;
    } in
    let added =
      timer_list_insert_into_list ticks granted_heap (record tlist { free_list = free }) new_entry
      >>= (λ r. some (
          if r.1 then (r.0, some id) else (record (r.0) { free_list = new_entry ∷ free }, none))) in
    if out_of_bounds interval || not func_given
    then some (tlist, none)
    else if is_nil tlist.free_list && not granted_entry
    then some (tlist, none)
    else added

module _ (ticks : ℕ → ℕ) (now : ℕ) (granted : Bool) where
  -- The entry is taken from the heap and put back with another time.
  abbrev pub put_back : TimerList → TimerListEntry → TimerListEntry → Option (TimerList × Bool)
  put_back tlist entry changed = timer_list_heap_delete tlist.entries entry >>= (λ rest.
      timer_list_insert_into_list ticks granted (record tlist { entries = rest }) changed)

  unfoldable pub timer_list_entry_reschedule : TimerList → TimerListEntry → Option TimerList
  timer_list_entry_reschedule tlist entry =
      let rescheduled = put_back tlist entry (record entry { epoch = now }) >>= (λ r. some (r.0)) in
      if entry.is_active then rescheduled else some tlist

  -- The second part is false for -1.
  unfoldable pub timer_list_entry_set_interval :
      TimerList → TimerListEntry → ℕ → Option (TimerList × Bool)
  timer_list_entry_set_interval tlist entry interval =
      let changed =
        put_back tlist entry (record entry { interval = interval; epoch = now })
        >>= (λ r. some (r.0, true)) in
      if out_of_bounds interval
      then some (tlist, false)
      else if not entry.is_active
      then some (tlist, false)
      else changed

unfoldable pub timer_list_entry_delete : TimerList → TimerListEntry → Option TimerList
timer_list_entry_delete tlist entry =
    let deleted = timer_list_heap_delete tlist.entries entry >>= (λ rest. some (record tlist {
      entries = rest;
      free_list = record entry { is_active = false } ∷ tlist.free_list;
    })) in
    if entry.is_active then deleted else some tlist

-- `none` in the result is PR_INTERVAL_NO_TIMEOUT.
unfoldable pub timer_list_time_to_expire : TimerList → ℕ → Option ℕ
timer_list_time_to_expire tlist now =
    timer_list_heap_entry_get tlist.entries 0
    >>= (λ entry. some (timer_list_entry_time_to_expire entry now))
