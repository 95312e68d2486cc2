-- ===== src/Tlv/Examples.antt =====
-- The theorems on arrays and options at small messages.
use corosync_qdevice.Prelude.{
  Option, ℕ, ◌+◌, ◌%◌, ◌≤◌, ◌<◌, ◌≡◌, refl, Bool, true, false, ◌⊎◌, inr, [], ◌∷◌, ltb,
  if◌then◌else◌, arith,
}
use corosync_qdevice.Dynar.{Dynar, dynar_cat, dynar_prepend}
use corosync_qdevice.Dynar.Content.{IsValid, Extended, dynar_cat-Extended, dynar_prepend-Extended}
use corosync_qdevice.Tlv.Types.{RingId, NodeInfo}
use corosync_qdevice.Tlv.Bytes.{Memory, be_bytes, read_be}
use corosync_qdevice.Tlv.Add.{tlv_add, tlv_add_ring_id}
use corosync_qdevice.Tlv.Add.Content.{Appended, option_bytes, tlv_add-Appended}
use corosync_qdevice.Tlv.Iter.{
  TlvIterator, tlv_iter_init_str, tlv_iter_get_len, tlv_iter_get_data, more, tlv_iter_next,
}
use corosync_qdevice.Tlv.Iter.Bounds.{
  IsStarted, Moves, observed, tlv_iter_next-IsInside, tlv_iter_next_same,
}
use corosync_qdevice.Tlv.Each.{ok, DecodeError}
use corosync_qdevice.Tlv.Each.Runs.{Runs}
use corosync_qdevice.Tlv.Decode.{
  node_info_option, node_info_end, decode_number, tlv_iter_decode_ring_id, node_info_loop, no_info,
  tlv_iter_decode_node_info,
}
use corosync_qdevice.Tlv.Decode.Fuel.{tlv_iter_decode_node_info_ends}
use corosync_qdevice.Tlv.RoundTrip.{at_position, number_roundtrip, ring_id_roundtrip}

abbrev message : Dynar
message = record { bytes = 1 ∷ 2 ∷ []; allocated = 4; maximum_size = 64 }

message-IsValid : IsValid message
message-IsValid = omega arith

abbrev always : ℕ → Bool
always i = true

dynar_cat-Extended_example :
    Extended true message (3 ∷ []) (1 ∷ 2 ∷ 3 ∷ []) (dynar_cat true message (3 ∷ []))
dynar_cat-Extended_example = dynar_cat-Extended true message (3 ∷ []) message-IsValid (omega arith)

dynar_prepend-Extended_example :
    Extended true message (3 ∷ []) (3 ∷ 1 ∷ 2 ∷ []) (dynar_prepend true message (3 ∷ []))
dynar_prepend-Extended_example =
    dynar_prepend-Extended true message (3 ∷ []) message-IsValid (omega arith)

tlv_add-Appended_example :
    let r = tlv_add always message 19 1 (5 ∷ []) in
    ((7 ≤ 64) × Appended message (option_bytes 19 1 (5 ∷ [])) r)
    ⊎ ((64 < 7) × (r ≡ (message, false)))
tlv_add-Appended_example =
    tlv_add-Appended always message 19 1 (5 ∷ []) (λ i. refl) message-IsValid (omega arith)
      (omega arith)

abbrev zeros : Memory
zeros i = 0

number_roundtrip_example :
    let r = tlv_add always message 9 4 (be_bytes 4 70000) in
    (r.1 ≡ true) × (decode_number 4 (at_position zeros r.0 2) ≡ ok 70000)
number_roundtrip_example =
    number_roundtrip always zeros message (λ i. refl) message-IsValid 9 4 70000 (omega arith)
      (omega arith) (omega arith) (omega arith)

abbrev ring : RingId
ring = record { node_id = 1; seq = 70000000000 }

ring_id_roundtrip_example :
    let r = tlv_add_ring_id always message ring in
    (r.1 ≡ true) × (tlv_iter_decode_ring_id (at_position zeros r.0 2) ≡ ok ring)
ring_id_roundtrip_example =
    ring_id_roundtrip always zeros message (λ i. refl) message-IsValid ring (omega arith)
      (omega arith) (omega arith)

-- Memory in which the first option has the length 515 and the second the length 772.
abbrev pattern7 : Memory
pattern7 i = i % 7

abbrev at0 : TlvIterator
at0 = record {
  msg = pattern7;
  msg_len = 2000;
  current_pos = 0;
  msg_header_len = 0;
  iter_next_called = true;
}

abbrev at519 : TlvIterator
at519 = record at0 { current_pos = 519 }

moved : tlv_iter_next at0 ≡ (at519, more)
unfolding tlv_iter_next read_be
moved = refl

at0-IsStarted : IsStarted at0
unfolding read_be
at0-IsStarted = (refl, omega arith)

tlv_iter_next-IsInside_example : IsStarted at519 × Moves at0 at519
tlv_iter_next-IsInside_example =
    tlv_iter_next-IsInside at0 at519 (record { byte = λ i. omega arith; small = omega arith })
      (inr at0-IsStarted) moved

-- Other memory after the message.
abbrev other7 : Memory
other7 i = if ltb i 2000 then i % 7 else 255

tlv_iter_next_same_example :
    observed (tlv_iter_next at0) ≡ observed (tlv_iter_next (record at0 { msg = other7 }))
tlv_iter_next_same_example =
    tlv_iter_next_same at0 other7 (λ i h. ground arith) (λ i. omega arith) (λ i. ground arith)
      (omega arith) (inr at0-IsStarted)

few : tlv_iter_get_len at0 + 2 ≤ 1000
unfolding read_be
few = omega arith

tlv_iter_decode_node_info_ends_example :
    let start = tlv_iter_init_str (tlv_iter_get_data at0) (tlv_iter_get_len at0) 0 in
    (r : NodeInfo × Option DecodeError) × Runs node_info_option start no_info r
    × (tlv_iter_decode_node_info at0 ≡ node_info_end r)
    × (node_info_loop 1000 start no_info ≡ node_info_end r)
tlv_iter_decode_node_info_ends_example =
    tlv_iter_decode_node_info_ends at0 1000 (λ i. omega arith) few
