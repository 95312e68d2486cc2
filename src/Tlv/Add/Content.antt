-- ===== src/Tlv/Add/Content.antt =====
-- What `tlv_add` leaves in the message.
use mathlib.Core.List.{append-nil, append_assoc}
use corosync_qdevice.Prelude.{
  ℕ, zero, suc, subst, ◌+◌, ◌%◌, ◌^◌, ◌≤◌, ◌<◌, ◌≡◌, refl, sym, ap, ◌∙◌, Bool, true, false, ◌⊎◌,
  inl, inr, List, [], ◌∷◌, ◌++◌, ltb, length, length-append, take, arith, Bool-cases,
}
use corosync_qdevice.Dynar.{Dynar, dynar_size, dynar_cat}
use corosync_qdevice.Dynar.Content.{IsValid, Extended, dynar_cat-Extended}
use corosync_qdevice.Tlv.Bytes.{be_bytes, length-be_bytes}
use corosync_qdevice.Tlv.Add.{cat_all, tlv_add}

abbrev concat : List (List ℕ) → List ℕ
concat [] = []
concat (part ∷ parts) = part ++ concat parts

-- The bytes were appended, all of them.
pub record Appended (msg : Dynar) (bytes : List ℕ) (r : Dynar × Bool) : Type 0 where
  pub done : r.1 ≡ true
  pub content : r.0.bytes ≡ msg.bytes ++ bytes
  pub valid : IsValid r.0
  pub same_maximum : r.0.maximum_size ≡ msg.maximum_size

Appended-of_Extended :
    (granted : Bool) (msg : Dynar) (src : List ℕ) (r : Dynar × Bool)
    → granted ≡ true
    → dynar_size msg + length src ≤ msg.maximum_size
    → Extended granted msg src (msg.bytes ++ src) r
    → Appended msg src r
Appended-of_Extended granted msg src r g fits x = elim x.outcome [
  | inl (ok, same, _) ↦ record {
    done = ok;
    content = same;
    valid = x.valid;
    same_maximum = x.same_maximum;
  }
  | inr (_, _, inl denied) ↦ cc
  | inr (_, _, inr full) ↦ absurd (omega arith)
]

-- Where memory is granted and there is room, appending appends.
pub dynar_cat-Appended :
    (granted : Bool) (msg : Dynar) (src : List ℕ)
    → granted ≡ true
    → IsValid msg
    → dynar_size msg + length src ≤ msg.maximum_size
    → Appended msg src (dynar_cat granted msg src)
dynar_cat-Appended granted msg src given v fits =
    Appended-of_Extended granted msg src _ given fits
      (dynar_cat-Extended granted msg src v (omega (arith, v.maximum_small)))

module _ (grants : ℕ → Bool) (given : (i : ℕ) → grants i ≡ true) where
  cat_all-Appended :
      (i : ℕ) (msg : Dynar) (parts : List (List ℕ))
      → IsValid msg
      → dynar_size msg + length (concat parts) ≤ msg.maximum_size
      → Appended msg (concat parts) (cat_all grants i msg parts)
  unfolding cat_all
  cat_all-Appended i msg [] v fits = record {
    done = refl;
    content = sym (append-nil msg.bytes);
    valid = v;
    same_maximum = refl;
  }
  cat_all-Appended i msg (part ∷ parts) v fits =
      let sum = length-append part (concat parts) in
      let first = dynar_cat-Appended (grants i) msg part (given i) v (omega arith) in
      let there = (dynar_cat (grants i) msg part).0 in
      let rest = cat_all-Appended (i + 1) there parts first.valid (
        omega (
          arith,
          sum,
          first.same_maximum,
          ap length first.content,
          length-append msg.bytes part,
        )) in
      rw first.done (record {
        done = rest.done;
        content =
            rest.content
            ∙ ap (λ (b : List ℕ). b ++ concat parts) first.content
            ∙ append_assoc msg.bytes part (concat parts);
        valid = rest.valid;
        same_maximum = rest.same_maximum ∙ first.same_maximum;
      })

-- An option on the wire.
abbrev pub option_bytes : ℕ → ℕ → List ℕ → List ℕ
option_bytes opt_type opt_len value =
    be_bytes 2 opt_type ++ (be_bytes 2 opt_len ++ take opt_len value)

length-take : (n : ℕ) (xs : List ℕ) → n ≤ length xs → length (take n xs) ≡ n
length-take zero xs h = refl
length-take (suc n) [] h = absurd (omega arith)
length-take (suc n) (x ∷ xs) h = ap suc (length-take n xs (omega arith))

abbrev option_parts : ℕ → ℕ → List ℕ → List (List ℕ)
option_parts opt_type opt_len value =
    be_bytes 2 opt_type ∷ be_bytes 2 opt_len ∷ take opt_len value ∷ []

length-option :
    (opt_type opt_len : ℕ) (value : List ℕ)
    → opt_len ≤ length value
    → length (concat (option_parts opt_type opt_len value)) ≡ 4 + opt_len
unfolding be_bytes
length-option opt_type opt_len value h = omega (
  arith,
  length-append (be_bytes 2 opt_type) (be_bytes 2 opt_len ++ (take opt_len value ++ [])),
  length-append (be_bytes 2 opt_len) (take opt_len value ++ []),
  length-append (take opt_len value) [],
  length-take opt_len value h,
  length-be_bytes 2 opt_type,
  length-be_bytes 2 opt_len,
)

-- Where memory is granted, an option is added to a valid message completely, or not at all: it is
-- appended if it fits in the maximum size, and the message stays as it is otherwise. The length is
-- below 2 ^ 16, and the value has at least as many bytes.
pub tlv_add-Appended :
    (grants : ℕ → Bool) (msg : Dynar) (opt_type opt_len : ℕ) (value : List ℕ)
    → ((i : ℕ) → grants i ≡ true)
    → IsValid msg
    → opt_len < 2 ^ 16
    → opt_len ≤ length value
    → let r = tlv_add grants msg opt_type opt_len value in
      ((dynar_size msg + 4 + opt_len ≤ msg.maximum_size)
        × Appended msg (option_bytes opt_type opt_len value) r)
      ⊎ ((msg.maximum_size < dynar_size msg + 4 + opt_len) × (r ≡ (msg, false)))
unfolding tlv_add be_bytes
tlv_add-Appended grants msg opt_type opt_len value given v short long =
    elim (Bool-cases (ltb msg.maximum_size ((dynar_size msg + 2 + 2 + opt_len) % 2 ^ 64))) [
      | inl full ↦ rw full (inr (ground (arith, v.backed, v.allocated_small), refl))
      | inr fits ↦ rw fits (
          let room : dynar_size msg + 4 + opt_len ≤ msg.maximum_size =
            ground (arith, v.backed, v.allocated_small) in
          inl (
            room,
            subst
                (λ b.
                  Appended msg (be_bytes 2 opt_type ++ (be_bytes 2 opt_len ++ b))
                    (cat_all grants 0 msg (option_parts opt_type opt_len value)))
                (append-nil (take opt_len value))
                (cat_all-Appended grants given 0 msg (option_parts opt_type opt_len value) v
                  (omega (arith, length-option opt_type opt_len value long))),
          ))
    ]
