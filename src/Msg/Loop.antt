-- ===== src/Msg/Loop.antt =====
-- The loop of `msg_decode` in qdevices/msg.c, and a message with no options.
use corosync_qdevice.Prelude.{
  ℕ, suc, ◌+◌, ◌^◌, ◌≤◌, ◌<◌, ◌≡◌, refl, ap, ◌∙◌, Bool, true, some, ltb, if◌then◌else◌, arith,
}
use corosync_qdevice.Dynar.{Dynar, dynar_size}
use corosync_qdevice.Tlv.Bytes.{Memory, memory_of}
use corosync_qdevice.Tlv.Iter.{TlvIterator, tlv_iter_init, option_end, Next, more, invalid}
use corosync_qdevice.Tlv.Iter.Bounds.{IsReadable, len_small, at_header, next_first}
use corosync_qdevice.Tlv.Each.{bad_option, each_option, option_round}
use corosync_qdevice.Tlv.Each.Fuel.{each_option_agree, each_option-round}
use corosync_qdevice.Tlv.Each.Runs.{Runs, each_option-Runs}
use corosync_qdevice.Msg.Types.{msg_get_header_length, msg_decoded_init, msg_get_type}
use corosync_qdevice.Msg.Decode.{msg_option, msg_decode, msg_decode_loop}

module _ (grants : ℕ → ℕ → Bool) (beyond : Memory) (msg : Dynar)
    (byte : (i : ℕ) → memory_of msg.bytes beyond i < 256) (small : dynar_size msg < 2 ^ 62) where
  -- The loop of `msg_decode` ends by itself, whatever bytes the message holds, and `msg_decode` has
  -- the result that it ends with; so any number of rounds from the size of the message plus two on
  -- gives this result. Memory holds bytes, and the message is shorter than 2 ^ 62 bytes.
  pub msg_decode_ends :
      (m : ℕ)
      → dynar_size msg + 2 ≤ m
      → Runs
          (msg_option grants)
          (tlv_iter_init beyond msg msg_get_header_length)
          (msg_decoded_init (msg_get_type beyond msg))
          (msg_decode grants beyond msg)
        × (msg_decode_loop grants beyond msg m ≡ msg_decode grants beyond msg)
  unfolding msg_decode msg_decode_loop tlv_iter_init
  msg_decode_ends m enough =
      let start = tlv_iter_init beyond msg msg_get_header_length in
      let s = msg_decoded_init (msg_get_type beyond msg) in
      let readable : IsReadable start = record { byte = byte; small = small } in
      (
        each_option-Runs (msg_option grants) (dynar_size msg + 2) start s readable refl
            (omega arith) (omega arith),
        each_option_agree (msg_option grants) m (dynar_size msg + 2) start s readable refl
            (omega arith) enough (omega arith),
      )

  -- A message that ends less than four bytes after its header, so one that has no options too, is
  -- refused as inconsistent, with nothing decoded but the type. Memory holds bytes, and the message
  -- is shorter than 2 ^ 62 bytes.
  pub msg_decode-empty :
      dynar_size msg < 10
      → msg_decode grants beyond msg ≡ (msg_decoded_init (msg_get_type beyond msg), some bad_option)
  unfolding msg_decode msg_decode_loop tlv_iter_init
  msg_decode-empty short =
      let start = tlv_iter_init beyond msg msg_get_header_length in
      let s = msg_decoded_init (msg_get_type beyond msg) in
      let outside : ltb (dynar_size msg) (option_end (at_header start)) ≡ true =
        ground (arith, len_small (at_header start) byte) in
      ap (λ n. each_option (msg_option grants) n start s) (suc_of (dynar_size msg))
      ∙ each_option-round (msg_option grants) (dynar_size msg + 1) start s
      ∙ ap
          (λ (r : TlvIterator × Next).
            option_round (msg_option grants) r s
              (each_option (msg_option grants) (dynar_size msg + 1)))
          (next_first start refl ∙ ap (λ b. (at_header start, if b then invalid else more)) outside)
    where
      suc_of : (n : ℕ) → n + 2 ≡ suc (n + 1)
      suc_of n = omega arith
