-- ===== src/Tlv/Decode/Fuel.antt =====
-- The loop of `tlv_iter_decode_node_info` in qdevices/tlv.c, and its fuel.
use corosync_qdevice.Prelude.{ℕ, ◌+◌, ◌≤◌, ◌<◌, ◌≡◌, refl, ap, Option, arith}
use corosync_qdevice.Tlv.Iter.{TlvIterator, tlv_iter_init_str, tlv_iter_get_len, tlv_iter_get_data}
use corosync_qdevice.Tlv.Iter.Bounds.{IsReadable, len_small}
use corosync_qdevice.Tlv.Each.Fuel.{each_option_agree}
use corosync_qdevice.Tlv.Each.{DecodeError, each_option}
use corosync_qdevice.Tlv.Each.Runs.{Runs, each_option-Runs}
use corosync_qdevice.Tlv.Types.{NodeInfo}
use corosync_qdevice.Tlv.Decode.{
  node_info_option, node_info_end, node_info_loop, no_info, tlv_iter_decode_node_info,
}

-- The loop of `tlv_iter_decode_node_info` ends by itself, whatever bytes the option holds, and the
-- result is that of the test after the loop; any number of rounds from the length of the option plus
-- two on gives it. Memory holds bytes.
pub tlv_iter_decode_node_info_ends :
    (it : TlvIterator) (m : ℕ)
    → ((i : ℕ) → it.msg i < 256)
    → tlv_iter_get_len it + 2 ≤ m
    → let start = tlv_iter_init_str (tlv_iter_get_data it) (tlv_iter_get_len it) 0 in
      (r : NodeInfo × Option DecodeError) × Runs node_info_option start no_info r
      × (tlv_iter_decode_node_info it ≡ node_info_end r)
      × (node_info_loop m start no_info ≡ node_info_end r)
unfolding tlv_iter_decode_node_info node_info_loop
tlv_iter_decode_node_info_ends it m byte enough =
    let start = tlv_iter_init_str (tlv_iter_get_data it) (tlv_iter_get_len it) 0 in
    let len = tlv_iter_get_len it in
    let readable : IsReadable start = record {
      byte = λ i. byte (it.current_pos + 2 + 2 + i);
      small = omega (arith, len_small it byte);
    } in
    (
      each_option node_info_option (len + 2) start no_info,
      each_option-Runs node_info_option (len + 2) start no_info readable refl (omega arith)
          (omega arith),
      refl,
      ap node_info_end (
          each_option_agree node_info_option m (len + 2) start no_info readable refl (omega arith)
            enough (omega arith)),
    )
