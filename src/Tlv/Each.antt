-- ===== src/Tlv/Each.antt =====
-- The loop over the options of a message that `tlv_iter_decode_node_info` (qdevices/tlv.c) and
-- `msg_decode` (qdevices/msg.c) share, and the results of decoding.
pub mod Fuel
pub mod Runs
use corosync_qdevice.Prelude.{ℕ, zero, suc, Option, none, some}
use corosync_qdevice.Tlv.Iter.{TlvIterator, Next, more, done, invalid, tlv_iter_next}

-- The results -1, -2, -3 and -4. A string that finds no memory has the result -1 too.
pub data DecodeError : Type 0 where
  bad_length no_memory bad_option bad_value : DecodeError

pub data Decoded (A : Type 0) : Type 0 where
  ok : A → Decoded A
  failed : DecodeError → Decoded A

abbrev pub then_decode : {A B : Type 0} → Decoded A → (A → Decoded B) → Decoded B
then_decode (ok a) f = f a
then_decode (failed e) f = failed e

-- The loop ends at an option that cannot be decoded; the state is the one before this option.
abbrev pub after_option :
    {S : Type 0} → S → Decoded S → (S → S × Option DecodeError) → S × Option DecodeError
after_option s (ok s') rest = rest s'
after_option s (failed e) rest = (s, some e)

-- A round of the `while` loop, which `rest` goes on with, and the test after the loop.
abbrev pub option_round :
    {S : Type 0}
    → (TlvIterator → S → Decoded S)
    → TlvIterator × Next
    → S
    → (TlvIterator → S → S × Option DecodeError)
    → S × Option DecodeError
option_round option (it, more) s rest = after_option s (option it s) (rest it)
option_round option (it, done) s rest = (s, none)
option_round option (it, invalid) s rest = (s, some bad_option)

-- The loop takes at most one round for each option, and one to see the end.
unfoldable pub each_option :
    {S : Type 0} → (TlvIterator → S → Decoded S) → ℕ → TlvIterator → S → S × Option DecodeError
each_option option zero it s = (s, some bad_option)
each_option option (suc fuel) it s =
    option_round option (tlv_iter_next it) s (each_option option fuel)
