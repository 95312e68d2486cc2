-- ===== src/Tlv/Each/Fuel.antt =====
-- The loop over the options, with any number of rounds that is enough.
use corosync_qdevice.Prelude.{
  ℕ, zero, suc, ◌+◌, ◌*◌, ◌^◌, ◌≤◌, ◌<◌, ◌≡◌, refl, sym, ◌∙◌, false, Option, arith, subst,
}
use corosync_qdevice.Tlv.Bytes.{Memory}
use corosync_qdevice.Tlv.Iter.{TlvIterator, Next, more, done, invalid, tlv_iter_next}
use corosync_qdevice.Tlv.Iter.Bounds.{
  IsReadable, IsStarted, Keeps, tlv_iter_next-Keeps, tlv_iter_next_later, tlv_iter_next_first,
}
use corosync_qdevice.Tlv.Each.{
  DecodeError, Decoded, ok, failed, after_option, option_round, each_option,
}

abbrev Result : Type 0 → Type 0
Result S = S × Option DecodeError

module _ {S : Type 0} (option : TlvIterator → S → Decoded S) where
  pub each_option-round :
      (fuel : ℕ) (it : TlvIterator) (s : S)
      → each_option option (suc fuel) it s
        ≡ option_round option (tlv_iter_next it) s (each_option option fuel)
  unfolding each_option
  each_option-round fuel it s = refl

  after_agree :
      (s : S) (d : Decoded S) (f g : S → Result S)
      → ((i : S) → f i ≡ g i)
      → after_option s d f ≡ after_option s d g
  after_agree s (ok i) f g h = h i
  after_agree s (failed e) f g h = refl

  round_agree :
      (r : TlvIterator × Next) (s : S) (f g : TlvIterator → S → Result S)
      → ((it : TlvIterator) (i : S) → r ≡ (it, more) → f it i ≡ g it i)
      → option_round option r s f ≡ option_round option r s g
  round_agree (it, more) s f g h = after_agree s (option it s) (f it) (g it) (λ i. h it i refl)
  round_agree (it, done) s f g h = refl
  round_agree (it, invalid) s f g h = refl

  pub IsReadable-next :
      (it it' : TlvIterator)
      → IsReadable it
      → tlv_iter_next it ≡ (it', more)
      → IsReadable it' × (it.msg_len ≡ it'.msg_len)
  IsReadable-next it it' r e =
      let (msg, len) : Keeps it it' =
        subst (λ (r : TlvIterator × Next). Keeps it r.0) e (tlv_iter_next-Keeps it) in
      (
        record {
          byte = subst (λ (m : Memory). (i : ℕ) → m i < 256) msg r.byte;
          small = subst (λ n. n < 2 ^ 62) len r.small;
        },
        len,
      )

  -- From an option on, two numbers of rounds that are both enough give the same result.
  loop_agree :
      (n m : ℕ) (it : TlvIterator) (s : S)
      → IsReadable it
      → IsStarted it
      → it.msg_len < it.current_pos + 4 * n
      → it.msg_len < it.current_pos + 4 * m
      → each_option option n it s ≡ each_option option m it s
  loop_agree zero m it s r i hn hm = absurd (omega (arith, i.1))
  loop_agree (suc n) zero it s r i hn hm = absurd (omega (arith, i.1))
  loop_agree (suc n) (suc m) it s r i hn hm =
      each_option-round n it s
      ∙ round_agree (tlv_iter_next it) s (each_option option n) (each_option option m) (λ it' s' e.
        let (r', len) = IsReadable-next it it' r e in
        let (i', on) = tlv_iter_next_later it it' r i e in
        loop_agree n m it' s' r' i' (omega arith) (omega arith))
      ∙ sym (each_option-round m it s)

  -- For an iterator that is new and begins inside or at the end of the message, the length of the
  -- message plus two is enough.
  pub each_option_agree :
      (n m : ℕ) (it : TlvIterator) (s : S)
      → IsReadable it
      → it.iter_next_called ≡ false
      → it.msg_header_len < 2 ^ 62
      → it.msg_len + 2 ≤ n
      → it.msg_len + 2 ≤ m
      → each_option option n it s ≡ each_option option m it s
  each_option_agree zero m it s r fresh header hn hm = absurd (omega arith)
  each_option_agree (suc n) zero it s r fresh header hn hm = absurd (omega arith)
  each_option_agree (suc n) (suc m) it s r fresh header hn hm =
      each_option-round n it s
      ∙ round_agree (tlv_iter_next it) s (each_option option n) (each_option option m) (λ it' s' e.
        let (r', len) = IsReadable-next it it' r e in
        let (i', at) = tlv_iter_next_first it it' r fresh header e in
        loop_agree n m it' s' r' i' (omega arith) (omega arith))
      ∙ sym (each_option-round m it s)
