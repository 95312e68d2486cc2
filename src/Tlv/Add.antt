-- ===== src/Tlv/Add.antt =====
-- The functions of qdevices/tlv.c that add an option to a message. A number of an option's type is
-- that of `enum tlv_opt_type`. `grants` answers the calls of `realloc`, in order; the second part of
-- a result is false for -1, and the message may then hold a part of the option.
pub mod Numbers
pub mod Content
use corosync_qdevice.Prelude.{
  ℕ, ◌+◌, ◌*◌, ◌%◌, ◌^◌, Bool, true, false, List, [], ◌∷◌, ◌++◌, ltb, if◌then◌else◌, length, take,
  ◌==◌, not,
}
use corosync_qdevice.Dynar.{Dynar, dynar_size, dynar_max_size, dynar_cat, dynar_init}
use corosync_qdevice.Tlv.Types.{
  RingId, NodeState, TieBreaker, TieBreakerMode, NodeInfo, Vote, Heuristics, ReplyErrorCode,
  node_state_eq,
}
use corosync_qdevice.Tlv.Bytes.{be_bytes}
use corosync_qdevice.Tlv.Add.Numbers.{
  node_state_number, vote_number, heuristics_number, mode_number, reply_error_code_number,
  opt_msg_seq_number, opt_cluster_name, opt_tls_supported, opt_tls_client_cert_required,
  opt_supported_options, opt_reply_error_code, opt_server_maximum_request_size,
  opt_server_maximum_reply_size, opt_node_id, opt_supported_decision_algorithms,
  opt_decision_algorithm, opt_heartbeat_interval, opt_ring_id, opt_config_version,
  opt_data_center_id, opt_node_state, opt_node_info, opt_node_list_type, opt_vote, opt_quorate,
  opt_tie_breaker, opt_heuristics, opt_keep_active_partition_tie_breaker,
}

-- The chain of the three `dynar_cat`: a call that fails ends it.
unfoldable pub cat_all : (ℕ → Bool) → ℕ → Dynar → List (List ℕ) → Dynar × Bool
cat_all grants i msg [] = (msg, true)
cat_all grants i msg (part ∷ parts) =
    let (there, done) = dynar_cat (grants i) msg part in
    let rest = cat_all grants (i + 1) there parts in if done then rest else (there, false)

-- `value` holds at least the `opt_len` bytes that are copied.
unfoldable pub tlv_add : (ℕ → Bool) → Dynar → ℕ → ℕ → List ℕ → Dynar × Bool
tlv_add grants msg opt_type opt_len value =
    if ltb (dynar_max_size msg) ((dynar_size msg + 2 + 2 + opt_len) % 2 ^ 64)
    then (msg, false)
    else cat_all grants 0 msg (be_bytes 2 opt_type ∷ be_bytes 2 opt_len ∷ take opt_len value ∷ [])

module _ (grants : ℕ → Bool) (msg : Dynar) where
  unfoldable pub tlv_add_u32 : ℕ → ℕ → Dynar × Bool
  tlv_add_u32 opt_type u32 = tlv_add grants msg opt_type 4 (be_bytes 4 u32)

  unfoldable pub tlv_add_u8 : ℕ → ℕ → Dynar × Bool
  tlv_add_u8 opt_type u8 = tlv_add grants msg opt_type 1 (be_bytes 1 u8)

  unfoldable pub tlv_add_u16 : ℕ → ℕ → Dynar × Bool
  tlv_add_u16 opt_type u16 = tlv_add grants msg opt_type 2 (be_bytes 2 u16)

  unfoldable pub tlv_add_u64 : ℕ → ℕ → Dynar × Bool
  tlv_add_u64 opt_type u64 = tlv_add grants msg opt_type 8 (be_bytes 8 u64)

  -- The length is cut to 16 bits when it is passed on.
  unfoldable pub tlv_add_string : ℕ → List ℕ → Dynar × Bool
  tlv_add_string opt_type str = tlv_add grants msg opt_type (length str % 2 ^ 16) str

  abbrev pub tlv_add_msg_seq_number : ℕ → Dynar × Bool
  tlv_add_msg_seq_number = tlv_add_u32 opt_msg_seq_number

  abbrev pub tlv_add_cluster_name : List ℕ → Dynar × Bool
  tlv_add_cluster_name = tlv_add_string opt_cluster_name

  abbrev pub tlv_add_tls_supported : ℕ → Dynar × Bool
  tlv_add_tls_supported = tlv_add_u8 opt_tls_supported

  abbrev pub tlv_add_tls_client_cert_required : ℕ → Dynar × Bool
  tlv_add_tls_client_cert_required = tlv_add_u8 opt_tls_client_cert_required

  abbrev pub u16_bytes : List ℕ → List ℕ
  u16_bytes [] = []
  u16_bytes (v ∷ array) = be_bytes 2 v ++ u16_bytes array

  -- `granted` says whether `malloc` gave the memory for the copy.
  unfoldable pub tlv_add_u16_array : Bool → ℕ → List ℕ → Dynar × Bool
  tlv_add_u16_array granted opt_type array =
      if granted
      then tlv_add grants msg opt_type (2 * length array % 2 ^ 16) (u16_bytes array)
      else (msg, false)

  unfoldable pub tlv_add_supported_options : Bool → Bool → List ℕ → Dynar × Bool
  tlv_add_supported_options granted granted_copy options =
      if granted then tlv_add_u16_array granted_copy opt_supported_options options else (msg, false)

  unfoldable pub tlv_add_supported_decision_algorithms : Bool → Bool → List ℕ → Dynar × Bool
  tlv_add_supported_decision_algorithms granted granted_copy algorithms =
      if granted
      then tlv_add_u16_array granted_copy opt_supported_decision_algorithms algorithms
      else (msg, false)

  abbrev pub tlv_add_reply_error_code : ReplyErrorCode → Dynar × Bool
  tlv_add_reply_error_code code = tlv_add_u16 opt_reply_error_code (reply_error_code_number code)

  abbrev pub tlv_add_server_maximum_request_size : ℕ → Dynar × Bool
  tlv_add_server_maximum_request_size = tlv_add_u32 opt_server_maximum_request_size

  abbrev pub tlv_add_server_maximum_reply_size : ℕ → Dynar × Bool
  tlv_add_server_maximum_reply_size = tlv_add_u32 opt_server_maximum_reply_size

  abbrev pub tlv_add_node_id : ℕ → Dynar × Bool
  tlv_add_node_id = tlv_add_u32 opt_node_id

  abbrev pub tlv_add_decision_algorithm : ℕ → Dynar × Bool
  tlv_add_decision_algorithm = tlv_add_u16 opt_decision_algorithm

  abbrev pub tlv_add_heartbeat_interval : ℕ → Dynar × Bool
  tlv_add_heartbeat_interval = tlv_add_u32 opt_heartbeat_interval

  unfoldable pub tlv_add_ring_id : RingId → Dynar × Bool
  tlv_add_ring_id ring_id =
      tlv_add grants msg opt_ring_id 12 (be_bytes 4 ring_id.node_id ++ be_bytes 8 ring_id.seq)

  abbrev pub tie_breaker_id : TieBreakerMode → ℕ → ℕ
  tie_breaker_id TieBreakerMode.node_id id = id
  tie_breaker_id mode id = 0

  unfoldable pub tlv_add_tie_breaker : TieBreaker → Dynar × Bool
  tlv_add_tie_breaker tie_breaker = tlv_add grants msg opt_tie_breaker 5 (
      be_bytes 1 (mode_number tie_breaker.mode)
      ++ be_bytes 4 (tie_breaker_id tie_breaker.mode tie_breaker.node_id))

  abbrev pub tlv_add_config_version : ℕ → Dynar × Bool
  tlv_add_config_version = tlv_add_u64 opt_config_version

  abbrev pub tlv_add_data_center_id : ℕ → Dynar × Bool
  tlv_add_data_center_id = tlv_add_u32 opt_data_center_id

  abbrev pub tlv_add_node_state : NodeState → Dynar × Bool
  tlv_add_node_state state = tlv_add_u8 opt_node_state (node_state_number state)

  abbrev pub tlv_add_node_list_type : ℕ → Dynar × Bool
  tlv_add_node_list_type = tlv_add_u8 opt_node_list_type

  abbrev pub tlv_add_vote : Vote → Dynar × Bool
  tlv_add_vote vote = tlv_add_u8 opt_vote (vote_number vote)

  abbrev pub tlv_add_quorate : ℕ → Dynar × Bool
  tlv_add_quorate = tlv_add_u8 opt_quorate

  abbrev pub tlv_add_heuristics : Heuristics → Dynar × Bool
  tlv_add_heuristics Heuristics.undefined = (msg, false)
  tlv_add_heuristics heuristics = tlv_add_u8 opt_heuristics (heuristics_number heuristics)

  abbrev pub tlv_add_keep_active_partition_tie_breaker : ℕ → Dynar × Bool
  tlv_add_keep_active_partition_tie_breaker = tlv_add_u8 opt_keep_active_partition_tie_breaker

-- The sub-message of a node info, from the options that are already in it; `grants k` answers the
-- calls for the `k`-th option.
unfoldable pub add_state : (ℕ → ℕ → Bool) → Dynar → NodeState → Dynar × Bool
add_state grants opt_value NodeState.not_set = (opt_value, true)
add_state grants opt_value state = tlv_add_node_state (grants 2) opt_value state

unfoldable pub add_data_center : (ℕ → ℕ → Bool) → Dynar → NodeInfo → Dynar × Bool
add_data_center grants opt_value info =
    let (there, done) =
      if info.data_center_id == 0
      then (opt_value, true)
      else tlv_add_data_center_id (grants 1) opt_value info.data_center_id in
    if done then add_state grants there info.node_state else (there, false)

unfoldable pub tlv_add_node_info : (ℕ → ℕ → Bool) → Dynar → NodeInfo → Dynar × Bool
tlv_add_node_info grants msg info =
    let (first, id_done) = tlv_add_node_id (grants 0) (dynar_init 1024) info.node_id in
    let (opt_value, rest_done) = add_data_center grants first info in
    if not id_done
    then (msg, false)
    else if not rest_done
    then (msg, false)
    else tlv_add (grants 3) msg opt_node_info (dynar_size opt_value % 2 ^ 16) opt_value.bytes
