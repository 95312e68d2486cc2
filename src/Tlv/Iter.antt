-- ===== src/Tlv/Iter.antt =====
-- The iterator of qdevices/tlv.c over the options of a message. `msg` is memory from the first byte
-- of the message on; what stands there after `msg_len` bytes is no part of the message. A size_t
-- wraps around at 2 ^ 64.
pub mod Bounds
use corosync_qdevice.Prelude.{ℕ, ◌+◌, ◌%◌, ◌^◌, Bool, true, false, ltb, leb, if◌then◌else◌}
use corosync_qdevice.Dynar.{Dynar, dynar_size}
use corosync_qdevice.Tlv.Bytes.{Memory, memory_of, read_be}

pub record TlvIterator : Type 0 where
  pub msg : Memory
  pub msg_len : ℕ
  pub current_pos : ℕ
  pub msg_header_len : ℕ
  pub iter_next_called : Bool

abbrev pub tlv_iter_init_str : Memory → ℕ → ℕ → TlvIterator
tlv_iter_init_str msg msg_len msg_header_len = record {
  msg = msg;
  msg_len = msg_len;
  current_pos = 0;
  msg_header_len = msg_header_len;
  iter_next_called = false;
}

-- `beyond` is what memory holds after the bytes of the array.
unfoldable pub tlv_iter_init : Memory → Dynar → ℕ → TlvIterator
tlv_iter_init beyond msg msg_header_len =
    tlv_iter_init_str (memory_of msg.bytes beyond) (dynar_size msg) msg_header_len

abbrev pub tlv_iter_get_type : TlvIterator → ℕ
tlv_iter_get_type tlv_iter = read_be 2 tlv_iter.msg tlv_iter.current_pos

abbrev pub tlv_iter_get_len : TlvIterator → ℕ
tlv_iter_get_len tlv_iter = read_be 2 tlv_iter.msg (tlv_iter.current_pos + 2)

abbrev pub tlv_iter_get_data : TlvIterator → Memory
tlv_iter_get_data tlv_iter i = tlv_iter.msg (tlv_iter.current_pos + 2 + 2 + i)

-- Where the option at the position ends.
abbrev pub option_end : TlvIterator → ℕ
option_end tlv_iter = (tlv_iter.current_pos + 2 + 2 + tlv_iter_get_len tlv_iter) % 2 ^ 64

-- The results 1, 0 and -1.
pub data Next : Type 0 where
  more done invalid : Next

abbrev pub check_tlv_validity : TlvIterator → TlvIterator × Next
check_tlv_validity tlv_iter =
    (tlv_iter, if ltb tlv_iter.msg_len (option_end tlv_iter) then invalid else more)

abbrev pub following : TlvIterator → TlvIterator × Next
following tlv_iter =
    if leb tlv_iter.msg_len (option_end tlv_iter)
    then (tlv_iter, done)
    else check_tlv_validity (record tlv_iter { current_pos = option_end tlv_iter })

unfoldable pub tlv_iter_next : TlvIterator → TlvIterator × Next
tlv_iter_next tlv_iter =
    if tlv_iter.iter_next_called
    then following tlv_iter
    else check_tlv_validity
        (record tlv_iter { iter_next_called = true; current_pos = tlv_iter.msg_header_len })
