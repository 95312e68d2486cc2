-- ===== src/Dynar/Content.antt =====
-- An array never holds more bytes than are allocated, and appending appends.
use native.Mathlib.Decide.{dec_le}
use corosync_qdevice.Prelude.{
  ◌⊎◌, ℕ, ◌+◌, ◌%◌, ◌^◌, ◌≤◌, ◌<◌, ◌≡◌, refl, sym, ap, ◌∙◌, if◌then◌else◌, Bool, true, false, List,
  ◌++◌, ltb, length, length-append, arith, Bool-cases, inl, inr,
}
use corosync_qdevice.Dynar.{
  Dynar, dynar_size, dynar_realloc, grown_size, dynar_prealloc, dynar_cat, dynar_prepend,
}

-- The bytes in use are allocated, and the sizes are far from the end of a size_t.
pub record IsValid (array : Dynar) : Type 0 where
  pub backed : dynar_size array ≤ array.allocated
  pub allocated_small : array.allocated < 2 ^ 62
  pub maximum_small : array.maximum_size < 2 ^ 62

-- What `dynar_prealloc` leaves: the bytes and the maximum as they were, and room if it succeeds.
pub record Prepared (granted : Bool) (array : Dynar) (size : ℕ) (r : Dynar × Bool) : Type 0 where
  pub valid : IsValid r.0
  pub same_bytes : r.0.bytes ≡ array.bytes
  pub same_maximum : r.0.maximum_size ≡ array.maximum_size
  pub room : r.1 ≡ true → dynar_size array + size ≤ r.0.allocated
  pub fits : r.1 ≡ true → dynar_size array + size ≤ array.maximum_size
  pub succeeds : granted ≡ true → dynar_size array + size ≤ array.maximum_size → r.1 ≡ true

grown_size_lem :
    (array : Dynar) (size : ℕ)
    → IsValid array
    → size < 2 ^ 62
    → dynar_size array + size ≤ array.maximum_size
    → (dynar_size array + size ≤ grown_size array size)
      × (grown_size array size ≤ array.maximum_size)
unfolding grown_size
grown_size_lem array size v small fits = ground arith

refused :
    (granted : Bool) (array : Dynar) (size : ℕ)
    → IsValid array
    → (granted ≡ true → dynar_size array + size ≤ array.maximum_size → ⊥)
    → Prepared granted array size (array, false)
refused granted array size v fails = record {
  valid = v;
  same_bytes = refl;
  same_maximum = refl;
  room = λ e. cc;
  fits = λ e. cc;
  succeeds = λ g f. absurd (fails g f);
}

dynar_realloc-Prepared :
    (granted : Bool) (array : Dynar) (size new_size : ℕ)
    → IsValid array
    → size < 2 ^ 62
    → dynar_size array + size ≤ array.maximum_size
    → (dynar_size array + size ≤ new_size) × (new_size ≤ array.maximum_size)
    → Prepared granted array size (dynar_realloc granted array new_size)
unfolding dynar_realloc
dynar_realloc-Prepared granted array size new_size v small fits (enough, bounded) =
    let allowed : ltb array.maximum_size new_size ≡ false = ground arith in
    elim (Bool-cases granted) [
      | inr denied ↦ rw (allowed, denied) (refused false array size v (λ g f. cc))
      | inl given ↦
          rw (allowed, given)
            (record {
              valid = record {
                backed = omega arith;
                allocated_small = omega (arith, v.maximum_small);
                maximum_small = v.maximum_small;
              };
              same_bytes = refl;
              same_maximum = refl;
              room = λ e. enough;
              fits = λ e. fits;
              succeeds = λ g f. refl;
            })
    ]

pub dynar_prealloc-Prepared :
    (granted : Bool) (array : Dynar) (size : ℕ)
    → IsValid array
    → size < 2 ^ 62
    → Prepared granted array size (dynar_prealloc granted array size)
unfolding dynar_prealloc dynar_realloc
dynar_prealloc-Prepared granted array size v small =
    elim (Bool-cases (ltb array.maximum_size ((dynar_size array + size) % 2 ^ 64))) [
      | inl full ↦ rw full (refused granted array size v (λ g f. ground arith))
      | inr fits ↦ elim (Bool-cases (ltb array.allocated ((dynar_size array + size) % 2 ^ 64))) [
        | inr enough ↦
            rw (fits, enough)
              (record {
                valid = v;
                same_bytes = refl;
                same_maximum = refl;
                room = λ e. ground arith;
                fits = λ e. ground arith;
                succeeds = λ g f. refl;
              })
        | inl short ↦
            rw (fits, short)
              (dynar_realloc-Prepared granted array size (grown_size array size) v small
                (ground arith) (grown_size_lem array size v small (ground arith)))
      ]
    ]

-- What an appending operation leaves: either `bytes`, which fit in the maximum, or the array's own
-- bytes, because memory is not granted or the new bytes do not fit.
pub record Extended (granted : Bool) (array : Dynar) (src bytes : List ℕ) (r : Dynar × Bool)
    : Type 0 where
  pub valid : IsValid r.0
  pub same_maximum : r.0.maximum_size ≡ array.maximum_size
  pub outcome :
      ((r.1 ≡ true) × (r.0.bytes ≡ bytes) × (dynar_size array + length src ≤ array.maximum_size))
      ⊎ ((r.1 ≡ false)
          × (r.0.bytes ≡ array.bytes)
          × ((granted ≡ false) ⊎ (array.maximum_size < dynar_size array + length src)))

-- From the room to the bytes, which `f` puts together.
extended :
    (granted : Bool) (array : Dynar) (src bytes : List ℕ) (r : Dynar × Bool) (f : List ℕ → List ℕ)
    → Prepared granted array (length src) r
    → ((b : List ℕ) → length (f b) ≡ length b + length src)
    → bytes ≡ f array.bytes
    → Extended granted array src bytes
        (if r.1 then (record (r.0) { bytes = f r.0.bytes }, true) else (r.0, false))
extended granted array src bytes (there, true) f p more same = record {
  valid = record {
    backed = omega (arith, more there.bytes, ap length p.same_bytes, p.room refl);
    allocated_small = p.valid.allocated_small;
    maximum_small = p.valid.maximum_small;
  };
  same_maximum = p.same_maximum;
  outcome = inl (refl, ap f p.same_bytes ∙ sym same, p.fits refl);
}
extended granted array src bytes (there, false) f p more same = record {
  valid = p.valid;
  same_maximum = p.same_maximum;
  outcome = inr (
    refl,
    p.same_bytes,
    elim (Bool-cases granted) [
      | inr denied ↦ inl denied
      | inl given ↦ elim (dec_le (dynar_size array + length src) array.maximum_size) [
        | yes fits ↦ cc (p.succeeds given fits)
        | no full ↦ inr (omega arith)
      ]
    ],
  );
}

-- Appending to a valid array leaves a valid one, whether it succeeds or not. It succeeds with the new
-- bytes after the old ones, or changes no byte; it fails only if memory is not granted or the bytes
-- do not fit in the maximum size. The new bytes are fewer than 2 ^ 62.
pub dynar_cat-Extended :
    (granted : Bool) (array : Dynar) (src : List ℕ)
    → IsValid array
    → length src < 2 ^ 62
    → Extended granted array src (array.bytes ++ src) (dynar_cat granted array src)
unfolding dynar_cat
dynar_cat-Extended granted array src v small =
    extended granted array src (array.bytes ++ src) _ (λ b. b ++ src)
      (dynar_prealloc-Prepared granted array (length src) v small) (λ b. length-append b src) refl

-- Prepending to a valid array leaves a valid one, whether it succeeds or not. It succeeds with the new
-- bytes before the old ones, or changes no byte; it fails only if memory is not granted or the bytes
-- do not fit in the maximum size. The new bytes are fewer than 2 ^ 62.
pub dynar_prepend-Extended :
    (granted : Bool) (array : Dynar) (src : List ℕ)
    → IsValid array
    → length src < 2 ^ 62
    → Extended granted array src (src ++ array.bytes) (dynar_prepend granted array src)
unfolding dynar_prepend
dynar_prepend-Extended granted array src v small =
    extended granted array src (src ++ array.bytes) _ (λ b. src ++ b)
      (dynar_prealloc-Prepared granted array (length src) v small)
      (λ b. omega (arith, length-append src b)) refl
