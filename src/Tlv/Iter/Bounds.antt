-- ===== src/Tlv/Iter/Bounds.antt =====
-- Where the iterator stands, and which bytes count.
use native.Mathlib.Decide.{dec_le}
use corosync_qdevice.Prelude.{
  subst, ap, sym, ◌∙◌, if◌then◌else◌, ◌⊎◌, ℕ, ◌+◌, ◌%◌, ◌^◌, ◌≤◌, ◌<◌, ◌≡◌, refl, true, false, ltb,
  leb, arith, Bool-cases, inl, inr,
}
use corosync_qdevice.Tlv.Bytes.{Memory, read_be, read_be-agree}
use corosync_qdevice.Tlv.Iter.{
  TlvIterator, tlv_iter_get_len, option_end, Next, more, done, check_tlv_validity, following,
  tlv_iter_next,
}

-- The option at the position lies in the message as a whole, its header included.
abbrev pub IsInside : TlvIterator → Type 0
IsInside it = it.current_pos + 4 + tlv_iter_get_len it ≤ it.msg_len

-- Memory holds bytes, and the message is far from the end of a size_t.
pub record IsReadable (it : TlvIterator) : Type 0 where
  pub byte : (i : ℕ) → it.msg i < 256
  pub small : it.msg_len < 2 ^ 62

-- The position is where the next option may begin.
abbrev pub IsStarted : TlvIterator → Type 0
IsStarted it = (it.iter_next_called ≡ true) × IsInside it

pub len_small : (it : TlvIterator) → ((i : ℕ) → it.msg i < 256) → tlv_iter_get_len it < 2 ^ 16
unfolding read_be
len_small it byte = omega (arith, byte (it.current_pos + 2 + 0), byte (it.current_pos + 2 + 1))

check-IsInside :
    (it it' : TlvIterator)
    → ((i : ℕ) → it.msg i < 256)
    → it.current_pos < 2 ^ 62
    → check_tlv_validity it ≡ (it', more)
    → (it ≡ it') × IsInside it
check-IsInside it it' byte small e = elim (Bool-cases (ltb it.msg_len (option_end it))) [
  | inl long ↦ cc (ap (λ (r : TlvIterator × Next). r.1) (rw long at e))
  | inr fits ↦ (ap (λ (r : TlvIterator × Next). r.0) e, ground (arith, len_small it byte))
]

abbrev pub at_header : TlvIterator → TlvIterator
at_header it = record it { iter_next_called = true; current_pos = it.msg_header_len }

pub next_started : (it : TlvIterator) → it.iter_next_called ≡ true → tlv_iter_next it ≡ following it
unfolding tlv_iter_next
next_started it h = ap (λ b. if b then following it else check_tlv_validity (at_header it)) h

pub next_first :
    (it : TlvIterator)
    → it.iter_next_called ≡ false
    → tlv_iter_next it ≡ check_tlv_validity (at_header it)
unfolding tlv_iter_next
next_first it h = ap (λ b. if b then following it else check_tlv_validity (at_header it)) h

-- An iterator never leaves its message.
abbrev pub Keeps : TlvIterator → TlvIterator → Type 0
Keeps it it' = (it.msg ≡ it'.msg) × (it.msg_len ≡ it'.msg_len)

following-Keeps : (it : TlvIterator) → Keeps it (following it).0
following-Keeps it = elim (Bool-cases (leb it.msg_len (option_end it))) [
  | inl last ↦ rw last (refl, refl)
  | inr onward ↦ rw onward (refl, refl)
]

pub tlv_iter_next-Keeps : (it : TlvIterator) → Keeps it (tlv_iter_next it).0
tlv_iter_next-Keeps it = elim (Bool-cases it.iter_next_called) [
  | inl called ↦
      subst (λ (r : TlvIterator × Next). Keeps it r.0) (sym (next_started it called))
        (following-Keeps it)
  | inr fresh ↦
      subst (λ (r : TlvIterator × Next). Keeps it r.0) (sym (next_first it fresh)) (refl, refl)
]

-- A later call moves on from an option that lies in the message as a whole.
pub tlv_iter_next_later :
    (it it' : TlvIterator)
    → IsReadable it
    → IsStarted it
    → tlv_iter_next it ≡ (it', more)
    → IsStarted it' × (it.current_pos + 4 ≤ it'.current_pos)
tlv_iter_next_later it it' readable start e =
    let moves = sym (next_started it start.0) ∙ e in
    let len = len_small it readable.byte in
    elim (Bool-cases (leb it.msg_len (option_end it))) [
      | inl last ↦ cc (ap (λ (r : TlvIterator × Next). r.1) (rw last at moves))
      | inr onward ↦
          let next = record it { current_pos = option_end it } in
          let (same, inside) =
            check-IsInside next it' readable.byte (ground (arith, readable.small))
              (rw onward at moves) in
          subst (λ x. IsStarted x × (it.current_pos + 4 ≤ x.current_pos)) same
            ((start.0, inside), ground (arith, readable.small, start.1))
    ]

-- The first call moves to the end of the message's header, on the same condition.
pub tlv_iter_next_first :
    (it it' : TlvIterator)
    → IsReadable it
    → it.iter_next_called ≡ false
    → it.msg_header_len < 2 ^ 62
    → tlv_iter_next it ≡ (it', more)
    → IsStarted it' × (it'.current_pos ≡ it.msg_header_len)
tlv_iter_next_first it it' readable fresh small e =
    let (same, inside) =
      check-IsInside (at_header it) it' readable.byte small (sym (next_first it fresh) ∙ e) in
    subst (λ x. IsStarted x × (x.current_pos ≡ it.msg_header_len)) same ((refl, inside), refl)

-- Where an iterator may be called: it is new, and the message's header is shorter than 2 ^ 62, or it
-- stands at an option that lies in the message as a whole.
abbrev pub IsCallable : TlvIterator → Type 0
IsCallable it = ((it.iter_next_called ≡ false) × (it.msg_header_len < 2 ^ 62)) ⊎ IsStarted it

-- From the header of the message, or by at least the four bytes of an option's header.
abbrev pub Moves : TlvIterator → TlvIterator → Type 0
Moves it it' =
    ((it.iter_next_called ≡ false) × (it'.current_pos ≡ it.msg_header_len))
    ⊎ ((it.iter_next_called ≡ true) × (it.current_pos + 4 ≤ it'.current_pos))

-- `tlv_iter_next` returns 1 only if the option that it moves to lies in the message as a whole. The
-- first call moves to the end of the message's header; a later call, from an option that lies in the
-- message, moves on by at least the four bytes of a header. Memory holds bytes, and the message and
-- its header are shorter than 2 ^ 62.
pub tlv_iter_next-IsInside :
    (it it' : TlvIterator)
    → IsReadable it
    → IsCallable it
    → tlv_iter_next it ≡ (it', more)
    → IsStarted it' × Moves it it'
tlv_iter_next-IsInside it it' readable (inl (fresh, small)) e =
    let (started, at) = tlv_iter_next_first it it' readable fresh small e in
    (started, inl (fresh, at))
tlv_iter_next-IsInside it it' readable (inr start) e =
    let (started, on) = tlv_iter_next_later it it' readable start e in (started, inr (start.0, on))

-- What the caller sees: the position and the result.
abbrev pub observed : TlvIterator × Next → ℕ × Next
observed r = (r.0.current_pos, r.1)

module _ (it : TlvIterator) (other : Memory) (same : (i : ℕ) → i < it.msg_len → it.msg i ≡ other i)
    (byte : (i : ℕ) → it.msg i < 256) (byte' : (i : ℕ) → other i < 256) where
  abbrev elsewhere : TlvIterator
  elsewhere = record it { msg = other }

  get_len_same : it.current_pos + 4 ≤ it.msg_len → tlv_iter_get_len it ≡ tlv_iter_get_len elsewhere
  get_len_same room =
      read_be-agree 2 it.msg other (it.current_pos + 2) (it.current_pos + 2)
        (λ i b. same (it.current_pos + 2 + i) (omega arith))

  check_same :
      it.current_pos < 2 ^ 62
      → it.msg_len < 2 ^ 62
      → (check_tlv_validity it).1 ≡ (check_tlv_validity elsewhere).1
  check_same small len_ok = elim (dec_le (it.current_pos + 4) it.msg_len) [
    | yes room ↦ rw (get_len_same room) refl
    | no short ↦
        let long : ltb it.msg_len (option_end it) ≡ true = ground (arith, len_small it byte) in
        let long' : ltb it.msg_len (option_end elsewhere) ≡ true =
          ground (arith, len_small elsewhere byte') in
        rw (long, long') refl
  ]

  check_same-observed :
      it.current_pos < 2 ^ 62
      → it.msg_len < 2 ^ 62
      → observed (check_tlv_validity it) ≡ observed (check_tlv_validity elsewhere)
  check_same-observed small len_ok =
      ap (λ (n : Next). (it.current_pos, n)) (check_same small len_ok)

abbrev move : TlvIterator → ℕ → TlvIterator
move it p = record it { current_pos = p }

-- `following`, with the length that it reads.
abbrev jump : TlvIterator → ℕ → TlvIterator × Next
jump it l =
    let p = (it.current_pos + 2 + 2 + l) % 2 ^ 64 in
    if leb it.msg_len p then (it, done) else check_tlv_validity (move it p)

module _ (it : TlvIterator) (other : Memory) (same : (i : ℕ) → i < it.msg_len → it.msg i ≡ other i)
    (byte : (i : ℕ) → it.msg i < 256) (byte' : (i : ℕ) → other i < 256)
    (small : it.msg_len < 2 ^ 62) where
  jump_same :
      (l : ℕ) → observed (jump it l) ≡ observed (jump (elsewhere it other same byte byte') l)
  jump_same l = elim (Bool-cases (leb it.msg_len ((it.current_pos + 2 + 2 + l) % 2 ^ 64))) [
    | inl last ↦ rw last refl
    | inr onward ↦ rw onward (
        check_same-observed (move it ((it.current_pos + 2 + 2 + l) % 2 ^ 64)) other same byte byte'
          (ground arith) small)
  ]

  -- The message alone decides what `tlv_iter_next` does, though it may read a length that lies
  -- beyond the end: whatever memory holds there, the result and the position are the same. Bytes
  -- are below 256; the iterator is new, or stands at an option that lies in the message.
  pub tlv_iter_next_same :
      IsCallable it
      → observed (tlv_iter_next it) ≡ observed (tlv_iter_next (record it { msg = other }))
  tlv_iter_next_same (inl (fresh, header)) =
      ap observed (next_first it fresh)
      ∙ check_same-observed (at_header it) other same byte byte' header small
      ∙ sym (ap observed (next_first (record it { msg = other }) fresh))
  tlv_iter_next_same (inr (called, inside)) =
      let len = get_len_same it other same byte byte' (omega arith) in
      ap observed (next_started it called)
      ∙ jump_same (tlv_iter_get_len it)
      ∙ ap (λ l. observed (jump (record it { msg = other }) l)) len
      ∙ sym (ap observed (next_started (record it { msg = other }) called))
