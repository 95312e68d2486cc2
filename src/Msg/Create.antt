-- ===== src/Msg/Create.antt =====
-- The functions `msg_create_*` of qdevices/msg.c. `grants k i j` answers the call of `malloc` or
-- `realloc` numbered `j` for the step `i` of the part `k` of the message; part 0 is the header. The
-- result is the buffer with the size of the message, or with 0 where a part found no room. An
-- argument with a flag that says whether it is added is an option, and an array that is NULL is
-- empty.
use corosync_qdevice.Prelude.{
  ℕ, ◌+◌, ◌-◌, Bool, true, false, Option, none, some, List, [], ◌∷◌, ◌++◌, if◌then◌else◌, not, map,
}
use corosync_qdevice.Dynar.{Dynar, dynar_size, dynar_cat, dynar_clean}
use corosync_qdevice.NodeList.{NodeListEntry, NodeList}
use corosync_qdevice.Tlv.Types.{RingId, TieBreaker, NodeInfo, Vote, Heuristics, ReplyErrorCode}
use corosync_qdevice.Tlv.Bytes.{be_bytes}
use corosync_qdevice.Tlv.Add.Numbers.{opt_supported_messages}
use corosync_qdevice.Tlv.Add.{
  tlv_add_msg_seq_number, tlv_add_cluster_name, tlv_add_tls_supported,
  tlv_add_tls_client_cert_required, tlv_add_u16_array, tlv_add_supported_options,
  tlv_add_supported_decision_algorithms, tlv_add_reply_error_code,
  tlv_add_server_maximum_request_size, tlv_add_server_maximum_reply_size, tlv_add_node_id,
  tlv_add_decision_algorithm, tlv_add_heartbeat_interval, tlv_add_ring_id, tlv_add_tie_breaker,
  tlv_add_config_version, tlv_add_node_list_type, tlv_add_vote, tlv_add_quorate, tlv_add_heuristics,
  tlv_add_keep_active_partition_tie_breaker, tlv_add_node_info,
}
use corosync_qdevice.Msg.Types.{
  MsgType, msg_type_number, msg_get_header_length, msg_set_len, msg_set_type,
}

-- What adds an option to a message, given the answers of the memory calls.
abbrev pub Adder : Type 0
Adder = (ℕ → ℕ → Bool) → Dynar → Dynar × Bool

-- An option with no options inside.
abbrev pub plain : ((ℕ → Bool) → Dynar → Dynar × Bool) → Adder
plain add grants = add (grants 0)

unfoldable pub msg_add_type : Bool → Dynar → MsgType → Dynar × Bool
msg_add_type granted msg msg_type = dynar_cat granted msg (be_bytes 2 (msg_type_number msg_type))

unfoldable pub msg_add_len : Bool → Dynar → Dynar × Bool
msg_add_len granted msg = dynar_cat granted msg (be_bytes 4 0)

-- The options one after the other; one that finds no room ends the chain.
unfoldable pub add_options : (ℕ → ℕ → ℕ → Bool) → ℕ → Dynar → List Adder → Dynar × Bool
add_options grants k msg [] = (msg, true)
add_options grants k msg (add ∷ options) =
    let (there, done) = add (grants k) msg in
    let rest = add_options grants (k + 1) there options in if done then rest else (there, false)

-- What every function `msg_create_*` but the echo reply does with its options.
unfoldable pub create : (ℕ → ℕ → ℕ → Bool) → Dynar → MsgType → List Adder → Dynar × ℕ
create grants msg msg_type options =
    let (titled, typed) = msg_add_type (grants 0 0 0) (dynar_clean msg) msg_type in
    let (started, sized) = msg_add_len (grants 0 0 1) titled in
    let (full, added) = add_options grants 1 started options in
    if not typed
    then (titled, 0)
    else if not sized
    then (started, 0)
    else if not added
    then (full, 0)
    else let whole = msg_set_len full (dynar_size full - msg_get_header_length) in
      (whole, dynar_size whole)

-- An option that is added only if there is a value.
abbrev pub optional : {A : Type 0} → Option A → (A → Adder) → List Adder
optional none add = []
optional (some a) add = add a ∷ []

abbrev pub seq_number : ℕ → Adder
seq_number n = plain (λ g msg. tlv_add_msg_seq_number g msg n)

-- `msg_convert_msg_type_array_to_u16_array`, where `malloc` gives the memory, and the option.
abbrev pub supported_messages : List MsgType → List Adder
supported_messages [] = []
supported_messages (t ∷ types) =
    (λ g msg.
      if g 1 0
      then tlv_add_u16_array (g 0) msg (g 1 1) opt_supported_messages
          (map msg_type_number (t ∷ types))
      else (msg, false))
    ∷ []

abbrev pub supported_options : List ℕ → List Adder
supported_options [] = []
supported_options (o ∷ options) =
    (λ g msg. tlv_add_supported_options (g 0) msg (g 1 0) (g 1 1) (o ∷ options)) ∷ []

abbrev pub supported_algorithms : List ℕ → List Adder
supported_algorithms [] = []
supported_algorithms (a ∷ algorithms) =
    (λ g msg. tlv_add_supported_decision_algorithms (g 0) msg (g 1 0) (g 1 1) (a ∷ algorithms)) ∷ []

abbrev pub heartbeat_interval : ℕ → Adder
heartbeat_interval n = plain (λ g msg. tlv_add_heartbeat_interval g msg n)

abbrev pub keep_tie_breaker : ℕ → Adder
keep_tie_breaker n = plain (λ g msg. tlv_add_keep_active_partition_tie_breaker g msg n)

abbrev pub ring : RingId → Adder
ring ring_id = plain (λ g msg. tlv_add_ring_id g msg ring_id)

abbrev pub node_list_type : ℕ → Adder
node_list_type n = plain (λ g msg. tlv_add_node_list_type g msg n)

abbrev pub ballot : Vote → Adder
ballot vote = plain (λ g msg. tlv_add_vote g msg vote)

abbrev pub reply_error : ReplyErrorCode → Adder
reply_error code = plain (λ g msg. tlv_add_reply_error_code g msg code)

abbrev pub heuristics_result : Heuristics → Adder
heuristics_result heuristics = plain (λ g msg. tlv_add_heuristics g msg heuristics)

-- A list of nodes has one option for each.
abbrev pub node_list_entry_to_tlv_node_info : NodeListEntry → NodeInfo
node_list_entry_to_tlv_node_info node = record {
  node_id = node.node_id;
  data_center_id = node.data_center_id;
  node_state = node.node_state;
}

abbrev pub node_info : NodeListEntry → Adder
node_info node g msg = tlv_add_node_info g msg (node_list_entry_to_tlv_node_info node)

-- Heuristics that are undefined are left out.
abbrev pub defined_heuristics : Option Heuristics → List Adder
defined_heuristics none = []
defined_heuristics (some Heuristics.undefined) = []
defined_heuristics (some heuristics) = heuristics_result heuristics ∷ []

module _ (grants : ℕ → ℕ → ℕ → Bool) (msg : Dynar) where
  unfoldable pub msg_create_preinit : List ℕ → Option ℕ → Dynar × ℕ
  msg_create_preinit cluster_name seq =
      create grants msg MsgType.preinit
        (optional seq seq_number ++ plain (λ g msg. tlv_add_cluster_name g msg cluster_name) ∷ [])

  unfoldable pub msg_create_preinit_reply : Option ℕ → ℕ → ℕ → Dynar × ℕ
  msg_create_preinit_reply seq tls_supported tls_client_cert_required =
      create grants msg MsgType.preinit_reply (
        optional seq seq_number
        ++ (plain (λ g msg. tlv_add_tls_supported g msg tls_supported)
            ∷ plain (λ g msg. tlv_add_tls_client_cert_required g msg tls_client_cert_required)
            ∷ []))

  unfoldable pub msg_create_starttls : Option ℕ → Dynar × ℕ
  msg_create_starttls seq = create grants msg MsgType.starttls (optional seq seq_number)

  unfoldable pub msg_create_server_error : Option ℕ → ReplyErrorCode → Dynar × ℕ
  msg_create_server_error seq code =
      create grants msg MsgType.server_error (optional seq seq_number ++ reply_error code ∷ [])

  unfoldable pub msg_create_init :
      Option ℕ → ℕ → List MsgType → List ℕ → ℕ → ℕ → TieBreaker → RingId → Dynar × ℕ
  msg_create_init seq decision_algorithm messages options node_id interval tie_breaker ring_id =
      create grants msg MsgType.init (
        optional seq seq_number
        ++ (supported_messages messages
            ++ (supported_options options
                ++ (plain (λ g msg. tlv_add_node_id g msg node_id)
                    ∷ plain (λ g msg. tlv_add_decision_algorithm g msg decision_algorithm)
                    ∷ heartbeat_interval interval
                    ∷ plain (λ g msg. tlv_add_tie_breaker g msg tie_breaker)
                    ∷ ring ring_id
                    ∷ []))))

  unfoldable pub msg_create_init_reply :
      Option ℕ → ReplyErrorCode → List MsgType → List ℕ → ℕ → ℕ → List ℕ → Dynar × ℕ
  msg_create_init_reply seq code messages options request_size reply_size algorithms =
      create grants msg MsgType.init_reply (
        reply_error code ∷ []
        ++ (supported_messages messages
            ++ (supported_options options
                ++ (optional seq seq_number
                    ++ (plain (λ g msg. tlv_add_server_maximum_request_size g msg request_size)
                        ∷ plain (λ g msg. tlv_add_server_maximum_reply_size g msg reply_size)
                        ∷ supported_algorithms algorithms)))))

  unfoldable pub msg_create_set_option : Option ℕ → Option ℕ → Option ℕ → Dynar × ℕ
  msg_create_set_option seq interval tie_breaker = create grants msg MsgType.set_option (
      optional seq seq_number
      ++ (optional interval heartbeat_interval ++ optional tie_breaker keep_tie_breaker))

  unfoldable pub msg_create_set_option_reply : Option ℕ → Option ℕ → Option ℕ → Dynar × ℕ
  msg_create_set_option_reply seq interval tie_breaker =
      create grants msg MsgType.set_option_reply (
        optional seq seq_number
        ++ (optional interval heartbeat_interval ++ optional tie_breaker keep_tie_breaker))

  unfoldable pub msg_create_echo_request : Option ℕ → Dynar × ℕ
  msg_create_echo_request seq = create grants msg MsgType.echo_request (optional seq seq_number)

  -- The request comes back with the type of the reply.
  unfoldable pub msg_create_echo_reply : Dynar → Dynar × ℕ
  msg_create_echo_reply echo_request_msg =
      let (copy, done) = dynar_cat (grants 0 0 0) (dynar_clean msg) echo_request_msg.bytes in
      if not done
      then (copy, 0)
      else let reply = msg_set_type copy MsgType.echo_reply in (reply, dynar_size reply)

  unfoldable pub msg_create_node_list :
      ℕ → ℕ → Option RingId → Option ℕ → Option ℕ → Option Heuristics → NodeList → Dynar × ℕ
  msg_create_node_list seq list_type ring_id config_version quorate heuristics nodes =
      create grants msg MsgType.node_list (
        (seq_number seq ∷ node_list_type list_type ∷ [])
        ++ (optional ring_id ring
            ++ (optional config_version (λ n. plain (λ g msg. tlv_add_config_version g msg n))
                ++ (optional quorate (λ n. plain (λ g msg. tlv_add_quorate g msg n))
                    ++ (map node_info nodes ++ defined_heuristics heuristics)))))

  unfoldable pub msg_create_node_list_reply : ℕ → ℕ → RingId → Vote → Dynar × ℕ
  msg_create_node_list_reply seq list_type ring_id vote =
      create grants msg MsgType.node_list_reply
        (seq_number seq ∷ node_list_type list_type ∷ ring ring_id ∷ ballot vote ∷ [])

  unfoldable pub msg_create_ask_for_vote : ℕ → Dynar × ℕ
  msg_create_ask_for_vote seq = create grants msg MsgType.ask_for_vote (seq_number seq ∷ [])

  unfoldable pub msg_create_ask_for_vote_reply : ℕ → RingId → Vote → Dynar × ℕ
  msg_create_ask_for_vote_reply seq ring_id vote =
      create grants msg MsgType.ask_for_vote_reply
        (seq_number seq ∷ ballot vote ∷ ring ring_id ∷ [])

  unfoldable pub msg_create_vote_info : ℕ → RingId → Vote → Dynar × ℕ
  msg_create_vote_info seq ring_id vote =
      create grants msg MsgType.vote_info (seq_number seq ∷ ballot vote ∷ ring ring_id ∷ [])

  unfoldable pub msg_create_vote_info_reply : ℕ → Dynar × ℕ
  msg_create_vote_info_reply seq = create grants msg MsgType.vote_info_reply (seq_number seq ∷ [])

  unfoldable pub msg_create_heuristics_change : ℕ → Heuristics → Dynar × ℕ
  msg_create_heuristics_change seq heuristics =
      create grants msg MsgType.heuristics_change
        (seq_number seq ∷ heuristics_result heuristics ∷ [])

  unfoldable pub msg_create_heuristics_change_reply : ℕ → RingId → Heuristics → Vote → Dynar × ℕ
  msg_create_heuristics_change_reply seq ring_id heuristics vote =
      create grants msg MsgType.heuristics_change_reply
        (seq_number seq ∷ ballot vote ∷ ring ring_id ∷ heuristics_result heuristics ∷ [])
