-- ===== src/Tlv/RoundTrip.antt =====
-- What was added to a message is decoded from it.
use mathlib.Core.List.{append-nil, append_assoc}
use corosync_qdevice.Prelude.{
  ℕ, ◌+◌, ◌≤◌, ◌<◌, ◌^◌, ◌≡◌, refl, sym, ap, ◌∙◌, Bool, true, inl, inr, List, [], ◌∷◌, ◌++◌, length,
  length-append, take, arith, subst, ==_iff,
}
use corosync_qdevice.Dynar.{Dynar, dynar_size}
use corosync_qdevice.Dynar.Content.{IsValid}
use corosync_qdevice.Tlv.Types.{RingId}
use corosync_qdevice.Tlv.Bytes.{
  Memory, memory_of, be_bytes, length-be_bytes, read_be, read_be-agree, read_be-be_bytes,
  memory_of-append, memory_of-before, limit,
}
use corosync_qdevice.Tlv.Add.Numbers.{opt_ring_id}
use corosync_qdevice.Tlv.Add.{tlv_add, tlv_add_ring_id}
use corosync_qdevice.Tlv.Add.Content.{tlv_add-Appended}
use corosync_qdevice.Tlv.Iter.{TlvIterator, tlv_iter_get_type, tlv_iter_get_len, tlv_iter_get_data}
use corosync_qdevice.Tlv.Each.{ok}
use corosync_qdevice.Tlv.Decode.{decode_number, tlv_iter_decode_ring_id}

-- An iterator over the message that stands at a position.
abbrev pub at_position : Memory → Dynar → ℕ → TlvIterator
at_position beyond msg pos = record {
  msg = memory_of msg.bytes beyond;
  msg_len = dynar_size msg;
  current_pos = pos;
  msg_header_len = 0;
  iter_next_called = true;
}

pub take_all : (xs : List ℕ) → take (length xs) xs ≡ xs
take_all [] = refl
take_all (x ∷ xs) = ap (◌∷◌ x) (take_all xs)

-- A part of a list of bytes, in memory.
part_at :
    (pre part post : List ℕ) (beyond : Memory) (i j : ℕ)
    → i < length part
    → j ≡ length pre + i
    → memory_of (pre ++ (part ++ post)) beyond j ≡ memory_of part beyond i
part_at pre part post beyond i j h e =
    memory_of-append pre (part ++ post) beyond i j e ∙ memory_of-before part post beyond beyond i h

pub read_number :
    (n v : ℕ) (pre post : List ℕ) (beyond : Memory) (p : ℕ)
    → v < limit n
    → p ≡ length pre
    → read_be n (memory_of (pre ++ (be_bytes n v ++ post)) beyond) p ≡ v
read_number n v pre post beyond p small e =
    read_be-agree n _ (memory_of (be_bytes n v) beyond) p 0 (λ i b.
      part_at pre (be_bytes n v) post beyond (0 + i) (p + i) (omega (arith, length-be_bytes n v))
        (omega arith))
    ∙ read_be-be_bytes n v beyond small

-- What an iterator finds at an option.
pub record Finds (it : TlvIterator) (opt_type : ℕ) (value : List ℕ) (beyond : Memory) : Type 0 where
  pub has_type : tlv_iter_get_type it ≡ opt_type
  pub has_len : tlv_iter_get_len it ≡ length value
  pub has_data : (i : ℕ) → i < length value → tlv_iter_get_data it i ≡ memory_of value beyond i

-- An option, and what follows it.
abbrev pub option_before : ℕ → List ℕ → List ℕ → List ℕ
option_before opt_type value post =
    be_bytes 2 opt_type ++ (be_bytes 2 (length value) ++ (value ++ post))

pub length-option_before :
    (opt_type : ℕ) (value post : List ℕ)
    → length (option_before opt_type value post) ≡ 4 + length value + length post
length-option_before opt_type value post = omega (
  arith,
  length-append (be_bytes 2 opt_type) (be_bytes 2 (length value) ++ (value ++ post)),
  length-append (be_bytes 2 (length value)) (value ++ post),
  length-append value post,
  length-be_bytes 2 opt_type,
  length-be_bytes 2 (length value),
)

pub option_before-Finds :
    (it : TlvIterator) (beyond : Memory) (bytes pre : List ℕ) (opt_type : ℕ) (value post : List ℕ)
    → it.msg ≡ memory_of bytes beyond
    → it.current_pos ≡ length pre
    → bytes ≡ pre ++ option_before opt_type value post
    → opt_type < 2 ^ 16
    → length value < 2 ^ 16
    → Finds it opt_type value beyond
option_before-Finds it beyond bytes pre opt_type value post memory at same small short =
    let t = be_bytes 2 opt_type in
    let l = be_bytes 2 (length value) in
    let before_len : bytes ≡ (pre ++ t) ++ (l ++ (value ++ post)) =
      same ∙ sym (append_assoc pre t (l ++ (value ++ post))) in
    let before_data : bytes ≡ ((pre ++ t) ++ l) ++ (value ++ post) =
      before_len ∙ sym (append_assoc (pre ++ t) l (value ++ post)) in
    let sum = length-append pre t in
    record {
      has_type =
          ap (λ m. read_be 2 m it.current_pos) (memory ∙ ap (λ b. memory_of b beyond) same)
          ∙ read_number 2 opt_type pre (l ++ (value ++ post)) beyond it.current_pos small at;
      has_len =
          ap (λ m. read_be 2 m (it.current_pos + 2))
            (memory ∙ ap (λ b. memory_of b beyond) before_len)
          ∙ read_number 2 (length value) (pre ++ t) (value ++ post) beyond (it.current_pos + 2)
              short (omega (arith, sum, length-be_bytes 2 opt_type));
      has_data = λ i b.
          ap (λ (m : Memory). m (it.current_pos + 2 + 2 + i))
            (memory ∙ ap (λ b. memory_of b beyond) before_data)
          ∙ part_at ((pre ++ t) ++ l) value post beyond i (it.current_pos + 2 + 2 + i) b (
              omega (
                arith,
                sum,
                length-append (pre ++ t) l,
                length-be_bytes 2 opt_type,
                length-be_bytes 2 (length value),
              ));
    }

pub read_data :
    (it : TlvIterator) (opt_type : ℕ) (value : List ℕ) (beyond : Memory) (n p : ℕ)
    → Finds it opt_type value beyond
    → p + n ≤ length value
    → read_be n (tlv_iter_get_data it) p ≡ read_be n (memory_of value beyond) p
read_data it opt_type value beyond n p found room =
    read_be-agree n _ (memory_of value beyond) p p (λ i b. found.has_data (p + i) (omega arith))

pub decode_number-ok :
    (size number : ℕ) (it : TlvIterator)
    → tlv_iter_get_len it ≡ size
    → read_be size (tlv_iter_get_data it) 0 ≡ number
    → decode_number size it ≡ ok number
decode_number-ok size number it len value = rw ((==_iff _ _).1 len) (ap ok value)

abbrev pub ring_id_bytes : RingId → List ℕ
ring_id_bytes ring_id = be_bytes 4 ring_id.node_id ++ be_bytes 8 ring_id.seq

pub length-ring_id_bytes : (ring_id : RingId) → length (ring_id_bytes ring_id) ≡ 12
length-ring_id_bytes ring_id = omega (
  arith,
  length-append (be_bytes 4 ring_id.node_id) (be_bytes 8 ring_id.seq),
  length-be_bytes 4 ring_id.node_id,
  length-be_bytes 8 ring_id.seq,
)

pub ring_id-Finds :
    (it : TlvIterator) (beyond : Memory) (ring_id : RingId)
    → ring_id.node_id < 2 ^ 32
    → ring_id.seq < 2 ^ 64
    → Finds it opt_ring_id (ring_id_bytes ring_id) beyond
    → tlv_iter_decode_ring_id it ≡ ok ring_id
unfolding tlv_iter_decode_ring_id
ring_id-Finds it beyond ring_id id_small seq_small found =
    let n = be_bytes 4 ring_id.node_id in
    let s = be_bytes 8 ring_id.seq in
    let len = length-ring_id_bytes ring_id in
    let id =
      read_data it opt_ring_id (n ++ s) beyond 4 0 found (omega (arith, len))
      ∙ read_number 4 ring_id.node_id [] s beyond 0 id_small refl in
    let seq =
      read_data it opt_ring_id (n ++ s) beyond 8 4 found (omega (arith, len))
      ∙ ap (λ b. read_be 8 (memory_of (n ++ b) beyond) 4) (sym (append-nil s))
      ∙ read_number 8 ring_id.seq n [] beyond 4 seq_small
          (omega (arith, length-be_bytes 4 ring_id.node_id)) in
    rw ((==_iff _ _).1 (found.has_len ∙ len), id, seq) refl

module _ (grants : ℕ → Bool) (beyond : Memory) (msg : Dynar) (given : (i : ℕ) → grants i ≡ true)
    (v : IsValid msg) where
  -- An option that is added to a valid message, with memory granted and room in it, is what an
  -- iterator finds at the old end of the message.
  pub tlv_add-Finds :
      (opt_type : ℕ) (value : List ℕ)
      → opt_type < 2 ^ 16
      → length value < 2 ^ 16
      → dynar_size msg + 4 + length value ≤ msg.maximum_size
      → let r = tlv_add grants msg opt_type (length value) value in
        (r.1 ≡ true) × Finds (at_position beyond r.0 (dynar_size msg)) opt_type value beyond
  tlv_add-Finds opt_type value small short room =
      elim (tlv_add-Appended grants msg opt_type (length value) value given v short (omega arith)) [
        | inr (full, _) ↦ absurd (omega arith)
        | inl (_, a) ↦ (
          a.done,
          option_before-Finds
              (at_position beyond (tlv_add grants msg opt_type (length value) value).0
                (dynar_size msg))
              beyond (tlv_add grants msg opt_type (length value) value).0.bytes msg.bytes opt_type
              value [] refl refl
              (a.content
                ∙ ap
                    (λ (b : List ℕ).
                      msg.bytes ++ (be_bytes 2 opt_type ++ (be_bytes 2 (length value) ++ b)))
                    (take_all value ∙ sym (append-nil value)))
              small short,
        )
      ]

  -- An option whose value is a number in network byte order, added with memory granted to a valid
  -- message that has room for it, is decoded as the same number at the old end of the message. The
  -- number fits in the size of the option, and this and the type fit in 16 bits.
  pub number_roundtrip :
      (opt_type size number : ℕ)
      → opt_type < 2 ^ 16
      → size < 2 ^ 16
      → number < limit size
      → dynar_size msg + 4 + size ≤ msg.maximum_size
      → let r = tlv_add grants msg opt_type size (be_bytes size number) in
        (r.1 ≡ true) × (decode_number size (at_position beyond r.0 (dynar_size msg)) ≡ ok number)
  number_roundtrip opt_type size number small short fits room =
      let len = length-be_bytes size number in
      let (added, found) =
        subst
          (λ s.
            let r = tlv_add grants msg opt_type s (be_bytes size number) in
            (r.1 ≡ true)
            × Finds (at_position beyond r.0 (dynar_size msg)) opt_type (be_bytes size number)
                beyond)
          len
          (tlv_add-Finds opt_type (be_bytes size number) small (omega (arith, len))
            (omega (arith, len))) in
      let it =
        at_position beyond (tlv_add grants msg opt_type size (be_bytes size number)).0
          (dynar_size msg) in
      (
        added,
        decode_number-ok size number it (found.has_len ∙ len) (
            read_data it opt_type (be_bytes size number) beyond size 0 found (omega (arith, len))
            ∙ read_be-be_bytes size number beyond fits),
      )

  -- A ring id with a node id of 32 and a sequence number of 64 bits, added with memory granted to a
  -- valid message that has room for it, is decoded as it was at the old end of the message.
  pub ring_id_roundtrip :
      (ring_id : RingId)
      → ring_id.node_id < 2 ^ 32
      → ring_id.seq < 2 ^ 64
      → dynar_size msg + 16 ≤ msg.maximum_size
      → let r = tlv_add_ring_id grants msg ring_id in
        (r.1 ≡ true)
        × (tlv_iter_decode_ring_id (at_position beyond r.0 (dynar_size msg)) ≡ ok ring_id)
  unfolding tlv_add_ring_id
  ring_id_roundtrip ring_id id_small seq_small room =
      let len = length-ring_id_bytes ring_id in
      let (added, found) =
        subst
          (λ l.
            let r = tlv_add grants msg opt_ring_id l (ring_id_bytes ring_id) in
            (r.1 ≡ true)
            × Finds (at_position beyond r.0 (dynar_size msg)) opt_ring_id (ring_id_bytes ring_id)
                beyond)
          len
          (tlv_add-Finds opt_ring_id (ring_id_bytes ring_id) (omega arith) (omega (arith, len))
            (omega (arith, len))) in
      (added, ring_id-Finds _ beyond ring_id id_small seq_small found)
