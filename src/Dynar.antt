-- ===== src/Dynar.antt =====
-- qdevices/dynar.h and qdevices/dynar.c: arrays of bytes that grow up to a maximum size.
-- `bytes` holds the bytes in use, so their number is the field `size` of the code; what memory holds
-- after them up to `allocated` is not part of the array. `granted` is the answer of `realloc`, and a
-- size_t wraps around at 2 ^ 64. The second part of a result is false for -1.
pub mod Content
use corosync_qdevice.Prelude.{
  ℕ, ◌+◌, ◌*◌, ◌-◌, ◌%◌, ◌^◌, Bool, true, false, List, [], ◌++◌, ltb, if◌then◌else◌, length, take,
}

pub record Dynar : Type 0 where
  pub bytes : List ℕ
  pub allocated : ℕ
  pub maximum_size : ℕ

unfoldable pub dynar_init : ℕ → Dynar
dynar_init maximum_size = record { bytes = []; allocated = 0; maximum_size = maximum_size }

unfoldable pub dynar_set_max_size : Dynar → ℕ → Dynar
dynar_set_max_size array maximum_size = record array { maximum_size = maximum_size }

unfoldable pub dynar_destroy : Dynar → Dynar
dynar_destroy array = record { bytes = []; allocated = 0; maximum_size = array.maximum_size }

unfoldable pub dynar_clean : Dynar → Dynar
dynar_clean array = record array { bytes = [] }

abbrev pub dynar_size : Dynar → ℕ
dynar_size array = length array.bytes

abbrev pub dynar_max_size : Dynar → ℕ
dynar_max_size array = array.maximum_size

unfoldable pub dynar_realloc : Bool → Dynar → ℕ → Dynar × Bool
dynar_realloc granted array new_array_size =
    if ltb array.maximum_size new_array_size
    then (array, false)
    else if granted
    then (record array { allocated = new_array_size }, true)
    else (array, false)

-- The size that is asked of `realloc`.
unfoldable pub grown_size : Dynar → ℕ → ℕ
grown_size array size =
    let new_size = (array.allocated + size) * 2 % 2 ^ 64 in
    if ltb array.maximum_size new_size then array.maximum_size else new_size

unfoldable pub dynar_prealloc : Bool → Dynar → ℕ → Dynar × Bool
dynar_prealloc granted array size =
    let needed = (dynar_size array + size) % 2 ^ 64 in
    if ltb array.maximum_size needed
    then (array, false)
    else if ltb array.allocated needed
    then dynar_realloc granted array (grown_size array size)
    else (array, true)

-- `beyond` is what memory holds after the bytes in use.
unfoldable pub dynar_set_size : Bool → List ℕ → Dynar → ℕ → Dynar × Bool
dynar_set_size granted beyond array size =
    let wide = if ltb (dynar_max_size array) size then dynar_set_max_size array size else array in
    let (there, done) =
      if ltb (dynar_size wide) size
      then dynar_prealloc granted wide (size - dynar_size wide)
      else (wide, true) in
    if done
    then (record there { bytes = take size (there.bytes ++ beyond) }, true)
    else (there, false)

unfoldable pub dynar_cat : Bool → Dynar → List ℕ → Dynar × Bool
dynar_cat granted array src =
    let (there, done) = dynar_prealloc granted array (length src) in
    if done then (record there { bytes = there.bytes ++ src }, true) else (there, false)

unfoldable pub dynar_prepend : Bool → Dynar → List ℕ → Dynar × Bool
dynar_prepend granted array src =
    let (there, done) = dynar_prealloc granted array (length src) in
    if done then (record there { bytes = src ++ there.bytes }, true) else (there, false)
