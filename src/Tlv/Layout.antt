-- ===== src/Tlv/Layout.antt =====
-- An option that was added, among others, and what a decoder finds there.
use corosync_qdevice.Prelude.{
  ℕ, zero, suc, ◌+◌, ◌^◌, ◌≤◌, ◌<◌, ◌≡◌, refl, sym, ap, ◌∙◌, Bool, true, inl, inr, Option, some,
  List, [], ◌∷◌, ◌++◌, length, arith, subst, ◌==◌, Bool-cases,
}
use mathlib.Core.List.{append_assoc, append-nil}
use corosync_qdevice.Dynar.{Dynar, dynar_size}
use corosync_qdevice.Dynar.Content.{IsValid}
use corosync_qdevice.Tlv.Bytes.{Memory, be_bytes, length-be_bytes, limit, read_be-be_bytes}
use corosync_qdevice.Tlv.Add.{tlv_add}
use corosync_qdevice.Tlv.Add.Content.{Appended, tlv_add-Appended}
use corosync_qdevice.Tlv.Iter.{TlvIterator}
use corosync_qdevice.Tlv.Each.{ok, then_decode}
use corosync_qdevice.Tlv.Decode.{decode_number, decode_enum, listed, below}
use corosync_qdevice.Tlv.RoundTrip.{take_all, Finds, read_data, decode_number-ok}
use corosync_qdevice.Tlv.Walk.{TlvOption, encode}

abbrev pub number_option : ℕ → ℕ → ℕ → TlvOption
number_option opt_type size n = (opt_type, be_bytes size n)

pub tlv_add_whole :
    (grants : ℕ → Bool) (msg : Dynar) (o : TlvOption)
    → ((i : ℕ) → grants i ≡ true)
    → IsValid msg
    → length o.1 < 2 ^ 16
    → dynar_size msg + 4 + length o.1 ≤ msg.maximum_size
    → Appended msg (encode (o ∷ [])) (tlv_add grants msg o.0 (length o.1) o.1)
tlv_add_whole grants msg o given v short room =
    elim (tlv_add-Appended grants msg o.0 (length o.1) o.1 given v short (omega arith)) [
      | inr (full, _) ↦ absurd (omega arith)
      | inl (_, a) ↦
          subst
            (λ b.
              Appended msg (be_bytes 2 o.0 ++ (be_bytes 2 (length o.1) ++ b))
                (tlv_add grants msg o.0 (length o.1) o.1))
            (take_all o.1 ∙ sym (append-nil o.1)) a
    ]

-- The same, where the length is known.
pub tlv_add_sized :
    (grants : ℕ → Bool) (msg : Dynar) (opt_type len : ℕ) (value : List ℕ)
    → ((i : ℕ) → grants i ≡ true)
    → IsValid msg
    → length value ≡ len
    → len < 2 ^ 16
    → dynar_size msg + 4 + length value ≤ msg.maximum_size
    → Appended msg (encode ((opt_type, value) ∷ [])) (tlv_add grants msg opt_type len value)
tlv_add_sized grants msg opt_type len value given v same short room =
    subst
      (λ l. Appended msg (encode ((opt_type, value) ∷ [])) (tlv_add grants msg opt_type l value))
      same (tlv_add_whole grants msg (opt_type, value) given v (omega arith) room)

-- One option after another.
pub Appended-then :
    (msg there : Dynar) (bytes more_bytes : List ℕ) (r : Dynar × Bool)
    → there.bytes ≡ msg.bytes ++ bytes
    → there.maximum_size ≡ msg.maximum_size
    → Appended there more_bytes r
    → Appended msg (bytes ++ more_bytes) r
Appended-then msg there bytes more_bytes r same maximum a = record {
  done = a.done;
  content = a.content ∙ ap (λ b. b ++ more_bytes) same ∙ append_assoc msg.bytes bytes more_bytes;
  valid = a.valid;
  same_maximum = a.same_maximum ∙ maximum;
}

pub number-Finds :
    (it : TlvIterator) (beyond : Memory) (opt_type size n : ℕ)
    → Finds it opt_type (be_bytes size n) beyond
    → n < limit size
    → decode_number size it ≡ ok n
number-Finds it beyond opt_type size n found small =
    let len = length-be_bytes size n in
    decode_number-ok size n it (found.has_len ∙ len) (
      read_data it opt_type (be_bytes size n) beyond size 0 found (omega (arith, len))
      ∙ read_be-be_bytes size n beyond small)

-- A byte that stands for a value of an enumeration.
pub enum-Finds :
    {A : Type 0} (value_of : ℕ → Option A) (it : TlvIterator) (beyond : Memory) (opt_type n : ℕ)
    (a : A)
    → Finds it opt_type (be_bytes 1 n) beyond
    → n < 256
    → value_of n ≡ some a
    → decode_enum value_of it ≡ ok a
enum-Finds value_of it beyond opt_type n a found small e =
    ap (λ d. then_decode d (λ u8. listed (value_of u8)))
      (number-Finds it beyond opt_type 1 n found (omega arith))
    ∙ ap listed e

pub below-some : (count n : ℕ) → n < count → below count n ≡ some n
below-some zero n h = absurd (omega arith)
below-some (suc count) n h = elim (Bool-cases (n == count)) [
  | inl e ↦ rw e refl
  | inr ne ↦ rw ne (below-some count n (ground arith))
]
