-- ===== src/Tlv/Each/Runs.antt =====
-- The loop over the options as it stands in the code, with no fuel: a relation between where it
-- starts and what it ends with. A loop that does not end is in no such relation.
use corosync_qdevice.Prelude.{
  ℕ, zero, suc, ◌+◌, ◌*◌, ◌^◌, ◌≤◌, ◌<◌, ◌≡◌, refl, sym, subst, false, Option, none, some, arith,
}
use corosync_qdevice.Tlv.Iter.{TlvIterator, Next, more, done, invalid, tlv_iter_next}
use corosync_qdevice.Tlv.Iter.Bounds.{
  IsReadable, IsStarted, tlv_iter_next_later, tlv_iter_next_first,
}
use corosync_qdevice.Tlv.Each.{
  DecodeError, bad_option, Decoded, ok, failed, after_option, option_round, each_option,
}
use corosync_qdevice.Tlv.Each.Fuel.{each_option-round, IsReadable-next}

module _ {S : Type 0} (option : TlvIterator → S → Decoded S) where
  -- `Runs it s r`: from the iterator `it` and the state `s`, the loop ends with `r`.
  pub data Runs : TlvIterator → S → S × Option DecodeError → Type 0 where
    at_end : {it it' : TlvIterator} {s : S} → tlv_iter_next it ≡ (it', done) → Runs it s (s, none)
    refused :
        {it it' : TlvIterator} {s : S}
        → tlv_iter_next it ≡ (it', invalid)
        → Runs it s (s, some bad_option)
    undecoded :
        {it it' : TlvIterator} {s : S} {e : DecodeError}
        → tlv_iter_next it ≡ (it', more)
        → option it' s ≡ failed e
        → Runs it s (s, some e)
    another :
        {it it' : TlvIterator} {s s' : S} {r : S × Option DecodeError}
        → tlv_iter_next it ≡ (it', more)
        → option it' s ≡ ok s'
        → Runs it' s' r
        → Runs it s r

  -- One round, and then what the rest of the rounds does.
  round-Runs :
      (it : TlvIterator) (s : S) (rest : TlvIterator → S → S × Option DecodeError)
      (n : TlvIterator × Next)
      → tlv_iter_next it ≡ n
      → ((it' : TlvIterator) (s' : S) → tlv_iter_next it ≡ (it', more) → Runs it' s' (rest it' s'))
      → Runs it s (option_round option n s rest)
  round-Runs it s rest (it', done) e h = at_end e
  round-Runs it s rest (it', invalid) e h = refused e
  round-Runs it s rest (it', more) e h = decoded (option it' s) refl
    where
      decoded : (d : Decoded S) → option it' s ≡ d → Runs it s (after_option s d (rest it'))
      decoded (ok s') o = another e o (h it' s' e)
      decoded (failed x) o = undecoded e o

  later-Runs :
      (n : ℕ) (it : TlvIterator) (s : S)
      → IsReadable it
      → IsStarted it
      → it.msg_len < it.current_pos + 4 * n
      → Runs it s (each_option option n it s)
  later-Runs zero it s r i enough = absurd (omega (arith, i.1))
  later-Runs (suc n) it s r i enough = subst (Runs it s) (sym (each_option-round option n it s)) (
      round-Runs it s (each_option option n) (tlv_iter_next it) refl (λ it' s' e.
        let (r', len) = IsReadable-next option it it' r e in
        let (i', on) = tlv_iter_next_later it it' r i e in later-Runs n it' s' r' i' (omega arith)))

  -- For a new iterator, the length of the message plus two is enough: the loop ends, with the result
  -- that this many rounds have.
  pub each_option-Runs :
      (n : ℕ) (it : TlvIterator) (s : S)
      → IsReadable it
      → it.iter_next_called ≡ false
      → it.msg_header_len < 2 ^ 62
      → it.msg_len + 2 ≤ n
      → Runs it s (each_option option n it s)
  each_option-Runs zero it s r fresh header enough = absurd (omega arith)
  each_option-Runs (suc n) it s r fresh header enough =
      subst (Runs it s) (sym (each_option-round option n it s)) (
        round-Runs it s (each_option option n) (tlv_iter_next it) refl (λ it' s' e.
          let (r', len) = IsReadable-next option it it' r e in
          let (i', at) = tlv_iter_next_first it it' r fresh header e in
          later-Runs n it' s' r' i' (omega arith)))
