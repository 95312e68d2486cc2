-- ===== src/Msg/Layout.antt =====
-- What the functions `msg_create_*` leave in the buffer: the header, with the length of the options,
-- and the options in order.
use corosync_qdevice.Prelude.{
  ℕ, ◌+◌, ◌-◌, ◌≤◌, ◌≡◌, refl, sym, ap, ◌∙◌, Bool, true, List, [], ◌∷◌, ◌++◌, take, drop, length,
  length-append, arith, subst,
}
use mathlib.Core.List.{append-nil}
use corosync_qdevice.Dynar.{Dynar, dynar_size, dynar_clean}
use corosync_qdevice.Dynar.Content.{IsValid}
use corosync_qdevice.Tlv.Bytes.{be_bytes, length-be_bytes}
use corosync_qdevice.Tlv.Add.Content.{Appended, dynar_cat-Appended}
use corosync_qdevice.Tlv.RoundTrip.{length-option_before}
use corosync_qdevice.Tlv.Layout.{Appended-then}
use corosync_qdevice.Tlv.Walk.{TlvOption, encode, encode-append}
use corosync_qdevice.Msg.Types.{MsgType, msg_type_number, msg_set_len, msg_get_header_length}
use corosync_qdevice.Msg.Create.{Adder, msg_add_type, msg_add_len, add_options, create}

abbrev pub Grants : Type 0
Grants = ℕ → ℕ → ℕ → Bool

-- Where memory is granted, the adder appends the option to a valid message that has room for it.
abbrev pub Adds : Adder → TlvOption → Type 0
Adds add o =
    (g : ℕ → ℕ → Bool) (msg : Dynar)
    → ((i j : ℕ) → g i j ≡ true)
    → IsValid msg
    → dynar_size msg + 4 + length o.1 ≤ msg.maximum_size
    → Appended msg (encode (o ∷ [])) (add g msg)

abbrev pub AddsAll : List Adder → List TlvOption → Type 0
AddsAll [] [] = Unit
AddsAll [] (o ∷ options) = ⊥
AddsAll (add ∷ adders) [] = ⊥
AddsAll (add ∷ adders) (o ∷ options) = Adds add o × AddsAll adders options

module _ (grants : Grants) (given : (k i j : ℕ) → grants k i j ≡ true) where
  add_options-Appended :
      (k : ℕ) (msg : Dynar) (adders : List Adder) (options : List TlvOption)
      → AddsAll adders options
      → IsValid msg
      → dynar_size msg + length (encode options) ≤ msg.maximum_size
      → Appended msg (encode options) (add_options grants k msg adders)
  unfolding add_options
  add_options-Appended k msg [] [] adds v room = record {
    done = refl;
    content = sym (append-nil msg.bytes);
    valid = v;
    same_maximum = refl;
  }
  add_options-Appended k msg [] (o ∷ options) adds v room = absurd adds
  add_options-Appended k msg (add ∷ adders) [] adds v room = absurd adds
  add_options-Appended k msg (add ∷ adders) (o ∷ options) adds v room =
      let len = length-option_before o.0 o.1 (encode options) in
      let first = adds.0 (grants k) msg (given k) v (omega arith) in
      let there = (add (grants k) msg).0 in
      let rest = add_options-Appended (k + 1) there adders options adds.1 first.valid (
        omega (
          arith,
          len,
          first.same_maximum,
          ap length first.content,
          length-append msg.bytes (encode (o ∷ [])),
          length-option_before o.0 o.1 [],
        )) in
      rw first.done (
        subst (λ b. Appended msg b (add_options grants (k + 1) there adders))
          (sym (encode-append (o ∷ []) options))
          (Appended-then msg there (encode (o ∷ [])) (encode options) _ first.content
            first.same_maximum rest))

  abbrev titled : Dynar → MsgType → Dynar × Bool
  titled msg msg_type = msg_add_type (grants 0 0 0) (dynar_clean msg) msg_type

  abbrev started : Dynar → MsgType → Dynar × Bool
  started msg msg_type = msg_add_len (grants 0 0 1) (titled msg msg_type).0

  header_Appended :
      (msg : Dynar) (msg_type : MsgType)
      → IsValid msg
      → 6 ≤ msg.maximum_size
      → ((titled msg msg_type).1 ≡ true)
        × Appended
            (dynar_clean msg)
            (be_bytes 2 (msg_type_number msg_type) ++ be_bytes 4 0)
            (started msg msg_type)
  unfolding msg_add_type msg_add_len dynar_clean
  header_Appended msg msg_type v room =
      let t = be_bytes 2 (msg_type_number msg_type) in
      let clean : IsValid (dynar_clean msg) = record {
        backed = omega arith;
        allocated_small = v.allocated_small;
        maximum_small = v.maximum_small;
      } in
      let first =
        dynar_cat-Appended (grants 0 0 0) (dynar_clean msg) t (given 0 0 0) clean
          (omega (arith, length-be_bytes 2 (msg_type_number msg_type))) in
      let second =
        dynar_cat-Appended (grants 0 0 1) (titled msg msg_type).0 (be_bytes 4 0) (given 0 0 1)
          first.valid
          (omega (
            arith,
            ap length first.content,
            first.same_maximum,
            length-be_bytes 2 (msg_type_number msg_type),
            length-be_bytes 4 0,
          )) in
      (
        first.done,
        Appended-then (dynar_clean msg) (titled msg msg_type).0 t (be_bytes 4 0) _ first.content
            first.same_maximum second,
      )

  set_len-content :
      (full : Dynar) (t len : ℕ) (body : List ℕ)
      → full.bytes ≡ (be_bytes 2 t ++ be_bytes 4 0) ++ body
      → (msg_set_len full len).bytes ≡ (be_bytes 2 t ++ be_bytes 4 len) ++ body
  unfolding msg_set_len be_bytes
  set_len-content full t len body e = ap (λ b. take 2 b ++ (be_bytes 4 len ++ drop 6 b)) e

  -- Where memory is granted and the message fits in the maximum size of the buffer, a created
  -- message is its type, the length of its options in four bytes, and its options; its size is
  -- returned. The adders add the options that are named.
  pub create-layout :
      (msg : Dynar) (msg_type : MsgType) (adders : List Adder) (options : List TlvOption)
      → AddsAll adders options
      → IsValid msg
      → 6 + length (encode options) ≤ msg.maximum_size
      → let r = create grants msg msg_type adders in
        (r.0.bytes
          ≡ (be_bytes 2 (msg_type_number msg_type) ++ be_bytes 4 (length (encode options)))
            ++ encode options)
        × (r.1 ≡ 6 + length (encode options))
  unfolding create dynar_clean
  create-layout msg msg_type adders options adds v room =
      let t = msg_type_number msg_type in
      let (typed, header) = header_Appended msg msg_type v (omega arith) in
      let header_len : length (be_bytes 2 t ++ be_bytes 4 0) ≡ 6 = omega (
        arith,
        length-append (be_bytes 2 t) (be_bytes 4 0),
        length-be_bytes 2 t,
        length-be_bytes 4 0,
      ) in
      let body =
        add_options-Appended 1 (started msg msg_type).0 adders options adds header.valid
          (omega (arith, ap length header.content, header.same_maximum, header_len)) in
      let full = (add_options grants 1 (started msg msg_type).0 adders).0 in
      let same : full.bytes ≡ (be_bytes 2 t ++ be_bytes 4 0) ++ encode options =
        body.content ∙ ap (λ b. b ++ encode options) header.content in
      let size : dynar_size full ≡ 6 + length (encode options) = omega (
        arith,
        ap length same,
        length-append (be_bytes 2 t ++ be_bytes 4 0) (encode options),
        header_len,
      ) in
      let len : dynar_size full - msg_get_header_length ≡ length (encode options) = omega arith in
      let content =
        set_len-content full t (dynar_size full - msg_get_header_length) (encode options) same
        ∙ ap (λ n. (be_bytes 2 t ++ be_bytes 4 n) ++ encode options) len in
      rw (typed, header.done, body.done)
        (
          content,
          omega (
            arith,
            ap length content,
            length-append (be_bytes 2 t ++ be_bytes 4 (length (encode options))) (encode options),
            length-append (be_bytes 2 t) (be_bytes 4 (length (encode options))),
            length-be_bytes 2 t,
            length-be_bytes 4 (length (encode options)),
          ),
        )
