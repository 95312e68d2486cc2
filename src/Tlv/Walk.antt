-- ===== src/Tlv/Walk.antt =====
-- The loop over the options of a message that holds a sequence of options: it decodes each of them,
-- in order, and ends without an error.
use corosync_qdevice.Prelude.{
  ℕ, zero, suc, ◌+◌, ◌^◌, ◌≤◌, ◌<◌, ◌≡◌, refl, sym, ap, ◌∙◌, true, false, none, List, [], ◌∷◌, ◌++◌,
  ltb, leb, if◌then◌else◌, length, length-append, All, arith,
}
use mathlib.Core.List.{append_assoc}
use corosync_qdevice.Tlv.Bytes.{Memory, memory_of, be_bytes}
use corosync_qdevice.Tlv.Iter.{
  TlvIterator, tlv_iter_init_str, tlv_iter_get_len, option_end, Next, more, done,
  check_tlv_validity, tlv_iter_next,
}
use corosync_qdevice.Tlv.Iter.Bounds.{next_started, next_first, at_header}
use corosync_qdevice.Tlv.Each.{Decoded, ok, after_option, option_round, each_option}
use corosync_qdevice.Tlv.Each.Fuel.{each_option-round}
use corosync_qdevice.Tlv.RoundTrip.{Finds, option_before, length-option_before, option_before-Finds}

-- The type and the value of an option.
abbrev pub TlvOption : Type 0
TlvOption = ℕ × List ℕ

abbrev pub IsShort : TlvOption → Type 0
IsShort o = (o.0 < 2 ^ 16) × (length o.1 < 2 ^ 16)

-- The options on the wire.
abbrev pub encode : List TlvOption → List ℕ
encode [] = []
encode (o ∷ options) = option_before o.0 o.1 (encode options)

pub encode-append :
    (options more_options : List TlvOption)
    → encode (options ++ more_options) ≡ encode options ++ encode more_options
encode-append [] more_options = refl
encode-append (o ∷ options) more_options =
    ap (option_before o.0 o.1) (encode-append options more_options)
    ∙ ap (λ b. be_bytes 2 o.0 ++ (be_bytes 2 (length o.1) ++ b))
        (sym (append_assoc o.1 (encode options) (encode more_options)))
    ∙ ap (λ b. be_bytes 2 o.0 ++ b)
        (sym (append_assoc (be_bytes 2 (length o.1)) (o.1 ++ encode options) (encode more_options)))
    ∙ sym (
        append_assoc (be_bytes 2 o.0) (be_bytes 2 (length o.1) ++ (o.1 ++ encode options))
          (encode more_options))

pub length-encode : (options : List TlvOption) → length options ≤ length (encode options)
length-encode [] = omega arith
length-encode (o ∷ options) =
    omega (arith, length-option_before o.0 o.1 (encode options), length-encode options)

-- The iterator is at the option `o`; after it come `options`.
record Stands (it : TlvIterator) (beyond : Memory) (bytes pre : List ℕ) (o : TlvOption)
    (options : List TlvOption) : Type 0 where
  called : it.iter_next_called ≡ true
  memory : it.msg ≡ memory_of bytes beyond
  whole : it.msg_len ≡ length bytes
  at : it.current_pos ≡ length pre
  content : bytes ≡ pre ++ encode (o ∷ options)
  short : IsShort o

module _ (it : TlvIterator) (beyond : Memory) (bytes pre : List ℕ) (o : TlvOption)
    (options : List TlvOption) (s : Stands it beyond bytes pre o options) where
  Stands-Finds : Finds it o.0 o.1 beyond
  Stands-Finds =
      option_before-Finds it beyond bytes pre o.0 o.1 (encode options) s.memory s.at s.content
        s.short.0 s.short.1

  Stands-length : it.msg_len ≡ it.current_pos + 4 + length o.1 + length (encode options)
  Stands-length = omega (
    arith,
    s.whole,
    s.at,
    ap length s.content,
    length-append pre (encode (o ∷ options)),
    length-option_before o.0 o.1 (encode options),
  )

  Stands-end : it.msg_len < 2 ^ 62 → option_end it ≡ it.current_pos + 4 + length o.1
  Stands-end small = omega (arith, Stands-length, Stands-finds_len)
    where
      Stands-finds_len : tlv_iter_get_len it ≡ length o.1
      Stands-finds_len = Stands-Finds.has_len

  Stands-valid : it.msg_len < 2 ^ 62 → check_tlv_validity it ≡ (it, more)
  Stands-valid small =
      let inside : ltb it.msg_len (option_end it) ≡ false =
        ground (arith, Stands-length, Stands-end small) in
      rw inside refl

-- Each option takes the state on, whatever iterator finds it.
abbrev pub Decodes :
    {S : Type 0} → (TlvIterator → S → Decoded S) → Memory → S → List TlvOption → S → Type 0
Decodes option beyond s [] s' = s ≡ s'
Decodes {S} option beyond s (o ∷ options) s' =
    (mid : S) × ((it : TlvIterator) → Finds it o.0 o.1 beyond → option it s ≡ ok mid)
    × Decodes option beyond mid options s'

-- At the last option there is no next one.
Stands-last :
    (it : TlvIterator) (beyond : Memory) (bytes pre : List ℕ) (o : TlvOption)
    → Stands it beyond bytes pre o []
    → it.msg_len < 2 ^ 62
    → tlv_iter_next it ≡ (it, done)
Stands-last it beyond bytes pre o s small =
    let last : leb it.msg_len (option_end it) ≡ true = ground (
      arith,
      Stands-length it beyond bytes pre o [] s,
      Stands-end it beyond bytes pre o [] s small,
    ) in
    next_started it s.called
    ∙ ap
        (λ b.
          if b then (it, done) else check_tlv_validity (record it { current_pos = option_end it }))
        last

abbrev onward : TlvIterator → TlvIterator
onward it = record it { current_pos = option_end it }

Stands-onward :
    (it : TlvIterator) (beyond : Memory) (bytes pre : List ℕ) (o next : TlvOption)
    (options : List TlvOption)
    → Stands it beyond bytes pre o (next ∷ options)
    → it.msg_len < 2 ^ 62
    → IsShort next
    → Stands (onward it) beyond bytes (pre ++ option_before o.0 o.1 []) next options
Stands-onward it beyond bytes pre o next options s small short = record {
  called = s.called;
  memory = s.memory;
  whole = s.whole;
  at = omega (
    arith,
    Stands-end it beyond bytes pre o (next ∷ options) s small,
    s.at,
    length-append pre (option_before o.0 o.1 []),
    length-option_before o.0 o.1 [],
  );
  content =
      s.content
      ∙ ap (λ b. pre ++ b) (encode-append (o ∷ []) (next ∷ options))
      ∙ sym (append_assoc pre (option_before o.0 o.1 []) (encode (next ∷ options)));
  short = short;
}

Stands-next :
    (it : TlvIterator) (beyond : Memory) (bytes pre : List ℕ) (o next : TlvOption)
    (options : List TlvOption)
    → Stands it beyond bytes pre o (next ∷ options)
    → it.msg_len < 2 ^ 62
    → IsShort next
    → tlv_iter_next it ≡ (onward it, more)
Stands-next it beyond bytes pre o next options s small short =
    let further : leb it.msg_len (option_end it) ≡ false = ground (
      arith,
      Stands-length it beyond bytes pre o (next ∷ options) s,
      Stands-end it beyond bytes pre o (next ∷ options) s small,
      length-option_before next.0 next.1 (encode options),
    ) in
    next_started it s.called
    ∙ ap (λ b. if b then (it, done) else check_tlv_validity (onward it)) further
    ∙ Stands-valid (onward it) beyond bytes (pre ++ option_before o.0 o.1 []) next options
        (Stands-onward it beyond bytes pre o next options s small short) small

module _ {S : Type 0} (option : TlvIterator → S → Decoded S) (beyond : Memory)
    (bytes : List ℕ) where
  -- After an option, the loop decodes the rest of them.
  walk_on :
      (fuel : ℕ) (it : TlvIterator) (pre : List ℕ) (o : TlvOption) (options : List TlvOption)
      (s s' : S)
      → Stands it beyond bytes pre o options
      → it.msg_len < 2 ^ 62
      → All IsShort options
      → Decodes option beyond s options s'
      → length options < fuel
      → each_option option fuel it s ≡ (s', none)
  walk_on zero it pre o options s s' stands small short d enough = absurd (omega arith)
  walk_on (suc fuel) it pre o [] s s' stands small short d enough =
      each_option-round option fuel it s
      ∙ ap (λ (r : TlvIterator × Next). option_round option r s (each_option option fuel))
          (Stands-last it beyond bytes pre o stands small)
      ∙ ap (λ (i : S). (i, none)) d
  walk_on (suc fuel) it pre o (next ∷ options) s s' stands small short (mid, reads, rest) enough =
      let there = Stands-onward it beyond bytes pre o next options stands small short.0 in
      each_option-round option fuel it s
      ∙ ap (λ (r : TlvIterator × Next). option_round option r s (each_option option fuel))
          (Stands-next it beyond bytes pre o next options stands small short.0)
      ∙ ap (λ d. after_option s d (each_option option fuel (onward it)))
          (reads (onward it) (
            Stands-Finds (onward it) beyond bytes (pre ++ option_before o.0 o.1 []) next options
              there))
      ∙ walk_on fuel (onward it) (pre ++ option_before o.0 o.1 []) next options mid s' there small
          short.1 rest (omega arith)

  -- The loop decodes the options of a message that holds a header and at least one option, each
  -- taking the state on, and ends without an error. Types and lengths fit in 16 bits.
  pub each_option-Decodes :
      (fuel : ℕ) (header : List ℕ) (o : TlvOption) (options : List TlvOption) (s s' : S)
      → bytes ≡ header ++ encode (o ∷ options)
      → length bytes < 2 ^ 62
      → All IsShort (o ∷ options)
      → Decodes option beyond s (o ∷ options) s'
      → length options + 1 < fuel
      → each_option option fuel
          (tlv_iter_init_str (memory_of bytes beyond) (length bytes) (length header))
          s
        ≡ (s', none)
  each_option-Decodes zero header o options s s' same small short d enough = absurd (omega arith)
  each_option-Decodes (suc fuel) header o options s s' same small short (mid, reads, rest) enough =
      let start = tlv_iter_init_str (memory_of bytes beyond) (length bytes) (length header) in
      let first = at_header start in
      let stands : Stands first beyond bytes header o options = record {
        called = refl;
        memory = refl;
        whole = refl;
        at = refl;
        content = same;
        short = short.0;
      } in
      each_option-round option fuel start s
      ∙ ap (λ (r : TlvIterator × Next). option_round option r s (each_option option fuel))
          (next_first start refl ∙ Stands-valid first beyond bytes header o options stands small)
      ∙ ap (λ d. after_option s d (each_option option fuel first))
          (reads first (Stands-Finds first beyond bytes header o options stands))
      ∙ walk_on fuel first header o options mid s' stands small short.1 rest (omega arith)
