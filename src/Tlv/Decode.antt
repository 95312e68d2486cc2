-- ===== src/Tlv/Decode.antt =====
-- The functions of qdevices/tlv.c that decode the option at the position of an iterator.
pub mod Fuel
use corosync_qdevice.Prelude.{
  ℕ, zero, suc, ◌+◌, ◌/◌, ◌%◌, Bool, not, Option, none, some, List, [], ◌∷◌, ◌==◌, if◌then◌else◌,
}
use corosync_qdevice.Tlv.Types.{
  RingId, NodeState, TieBreaker, TieBreakerMode, NodeInfo, Vote, Heuristics,
}
use corosync_qdevice.Tlv.Bytes.{Memory, read_be}
use corosync_qdevice.Tlv.Add.Numbers.{opt_node_id, opt_data_center_id, opt_node_state}
use corosync_qdevice.Tlv.Each.{
  DecodeError, Decoded, ok, failed, bad_length, no_memory, bad_value, then_decode, each_option,
}
use corosync_qdevice.Tlv.Iter.{
  TlvIterator, Next, tlv_iter_init_str, tlv_iter_get_type, tlv_iter_get_len, tlv_iter_get_data,
  more, done, invalid, tlv_iter_next,
}

-- An unsigned number of `size` bytes, if the option is as long.
abbrev pub decode_number : ℕ → TlvIterator → Decoded ℕ
decode_number size tlv_iter =
    if not (tlv_iter_get_len tlv_iter == size)
    then failed bad_length
    else ok (read_be size (tlv_iter_get_data tlv_iter) 0)

abbrev pub tlv_iter_decode_u32 : TlvIterator → Decoded ℕ
tlv_iter_decode_u32 = decode_number 4

abbrev pub tlv_iter_decode_u8 : TlvIterator → Decoded ℕ
tlv_iter_decode_u8 = decode_number 1

abbrev pub tlv_iter_decode_client_cert_required : TlvIterator → Decoded ℕ
tlv_iter_decode_client_cert_required = tlv_iter_decode_u8

abbrev pub tlv_iter_decode_u16 : TlvIterator → Decoded ℕ
tlv_iter_decode_u16 = decode_number 2

abbrev pub tlv_iter_decode_reply_error_code : TlvIterator → Decoded ℕ
tlv_iter_decode_reply_error_code = tlv_iter_decode_u16

abbrev pub tlv_iter_decode_u64 : TlvIterator → Decoded ℕ
tlv_iter_decode_u64 = decode_number 8

-- The bytes from `p` on.
abbrev pub copied : ℕ → Memory → ℕ → List ℕ
copied zero mem p = []
copied (suc n) mem p = mem p ∷ copied n mem (p + 1)

-- The string without the zero that ends it. `granted` is the answer of `malloc`, here and below.
unfoldable pub tlv_iter_decode_str : Bool → TlvIterator → Decoded (List ℕ)
tlv_iter_decode_str granted tlv_iter =
    if granted
    then ok (copied (tlv_iter_get_len tlv_iter) (tlv_iter_get_data tlv_iter) 0)
    else failed bad_length

abbrev pub u16_items : ℕ → Memory → ℕ → List ℕ
u16_items zero mem p = []
u16_items (suc n) mem p = read_be 2 mem p ∷ u16_items n mem (p + 2)

unfoldable pub tlv_iter_decode_u16_array : Bool → TlvIterator → Decoded (List ℕ)
tlv_iter_decode_u16_array granted tlv_iter =
    let opt_len = tlv_iter_get_len tlv_iter in
    if not (opt_len % 2 == 0)
    then failed bad_length
    else if granted
    then ok (u16_items (opt_len / 2) (tlv_iter_get_data tlv_iter) 0)
    else failed no_memory

-- Both arrays of an enumeration are copies of the array of numbers.
abbrev pub enum_array : Bool → Decoded (List ℕ) → Decoded (List ℕ)
enum_array granted r = then_decode r (λ u16a. if granted then ok u16a else failed no_memory)

abbrev pub tlv_iter_decode_supported_options : Bool → Bool → TlvIterator → Decoded (List ℕ)
tlv_iter_decode_supported_options granted granted_copy tlv_iter =
    enum_array granted_copy (tlv_iter_decode_u16_array granted tlv_iter)

abbrev pub tlv_iter_decode_supported_decision_algorithms :
    Bool → Bool → TlvIterator → Decoded (List ℕ)
tlv_iter_decode_supported_decision_algorithms granted granted_copy tlv_iter =
    enum_array granted_copy (tlv_iter_decode_u16_array granted tlv_iter)

abbrev pub tlv_iter_decode_decision_algorithm : TlvIterator → Decoded ℕ
tlv_iter_decode_decision_algorithm = tlv_iter_decode_u16

-- A byte that stands for a value of an enumeration, if any.
abbrev pub listed : {A : Type 0} → Option A → Decoded A
listed none = failed bad_value
listed (some a) = ok a

abbrev pub decode_enum : {A : Type 0} → (ℕ → Option A) → TlvIterator → Decoded A
decode_enum value_of tlv_iter =
    then_decode (tlv_iter_decode_u8 tlv_iter) (λ u8. listed (value_of u8))

abbrev pub node_state_of : ℕ → Option NodeState
node_state_of n =
    if n == 1
    then some NodeState.member
    else if n == 2
    then some NodeState.dead
    else if n == 3
    then some NodeState.leaving
    else none

abbrev pub tlv_iter_decode_node_state : TlvIterator → Decoded NodeState
tlv_iter_decode_node_state = decode_enum node_state_of

abbrev pub vote_of : ℕ → Option Vote
vote_of n =
    if n == 1
    then some Vote.ack
    else if n == 2
    then some Vote.nack
    else if n == 3
    then some Vote.ask_later
    else if n == 4
    then some Vote.wait_for_reply
    else if n == 5
    then some Vote.no_change
    else none

abbrev pub tlv_iter_decode_vote : TlvIterator → Decoded Vote
tlv_iter_decode_vote = decode_enum vote_of

abbrev pub heuristics_value_of : ℕ → Option Heuristics
heuristics_value_of n =
    if n == 1 then some Heuristics.pass else if n == 2 then some Heuristics.fail else none

abbrev pub tlv_iter_decode_heuristics : TlvIterator → Decoded Heuristics
tlv_iter_decode_heuristics = decode_enum heuristics_value_of

-- The smaller enumerations are kept as their numbers, which must be below `count`.
abbrev pub below : ℕ → ℕ → Option ℕ
below zero n = none
below (suc count) n = if n == count then some n else below count n

abbrev pub tlv_iter_decode_tls_supported : TlvIterator → Decoded ℕ
tlv_iter_decode_tls_supported = decode_enum (below 3)

abbrev pub tlv_iter_decode_node_list_type : TlvIterator → Decoded ℕ
tlv_iter_decode_node_list_type = decode_enum (below 4)

abbrev pub tlv_iter_decode_quorate : TlvIterator → Decoded ℕ
tlv_iter_decode_quorate = decode_enum (below 2)

abbrev pub tlv_iter_decode_keep_active_partition_tie_breaker : TlvIterator → Decoded ℕ
tlv_iter_decode_keep_active_partition_tie_breaker = decode_enum (below 2)

unfoldable pub tlv_iter_decode_ring_id : TlvIterator → Decoded RingId
tlv_iter_decode_ring_id tlv_iter =
    let opt_data = tlv_iter_get_data tlv_iter in
    if not (tlv_iter_get_len tlv_iter == 12)
    then failed bad_length
    else ok (record { node_id = read_be 4 opt_data 0; seq = read_be 8 opt_data 4 })

abbrev pub mode_of : ℕ → Option TieBreakerMode
mode_of n =
    if n == 1
    then some TieBreakerMode.lowest
    else if n == 2
    then some TieBreakerMode.highest
    else if n == 3
    then some TieBreakerMode.node_id
    else none

abbrev pub tie_breaker_of : ℕ → TieBreakerMode → TieBreaker
tie_breaker_of id TieBreakerMode.node_id = record { mode = TieBreakerMode.node_id; node_id = id }
tie_breaker_of id mode = record { mode = mode; node_id = 0 }

unfoldable pub tlv_iter_decode_tie_breaker : TlvIterator → Decoded TieBreaker
tlv_iter_decode_tie_breaker tlv_iter =
    let opt_data = tlv_iter_get_data tlv_iter in
    if not (tlv_iter_get_len tlv_iter == 5)
    then failed bad_length
    else then_decode (listed (mode_of (read_be 1 opt_data 0)))
        (λ mode. ok (tie_breaker_of (read_be 4 opt_data 1) mode))

-- The `switch` of `tlv_iter_decode_node_info` on the type of an option in it.
unfoldable pub node_info_option : TlvIterator → NodeInfo → Decoded NodeInfo
node_info_option it info =
    if tlv_iter_get_type it == opt_node_id
    then then_decode (tlv_iter_decode_u32 it) (λ u32. ok (record info { node_id = u32 }))
    else if tlv_iter_get_type it == opt_data_center_id
    then then_decode (tlv_iter_decode_u32 it) (λ u32. ok (record info { data_center_id = u32 }))
    else if tlv_iter_get_type it == opt_node_state
    then then_decode (tlv_iter_decode_node_state it) (λ s. ok (record info { node_state = s }))
    else ok info

-- What follows the loop.
abbrev pub node_info_end : NodeInfo × Option DecodeError → Decoded NodeInfo
node_info_end (info, none) = if info.node_id == 0 then failed bad_value else ok info
node_info_end (info, some e) = failed e

-- The loop takes at most one round for each byte, and one to see the end.
unfoldable pub node_info_loop : ℕ → TlvIterator → NodeInfo → Decoded NodeInfo
node_info_loop fuel it info = node_info_end (each_option node_info_option fuel it info)

abbrev pub no_info : NodeInfo
no_info = record { node_id = 0; data_center_id = 0; node_state = NodeState.not_set }

unfoldable pub tlv_iter_decode_node_info : TlvIterator → Decoded NodeInfo
tlv_iter_decode_node_info tlv_iter =
    let len = tlv_iter_get_len tlv_iter in
    node_info_loop (len + 2) (tlv_iter_init_str (tlv_iter_get_data tlv_iter) len 0) no_info
