-- ===== src/Msg/Examples.antt =====
-- The theorems on messages at small messages.
use corosync_qdevice.Prelude.{ℕ, ◌%◌, ◌<◌, ◌≡◌, refl, Bool, true, none, some, [], ◌∷◌, arith}
use corosync_qdevice.Dynar.{
  Dynar, dynar_cat, dynar_prealloc, dynar_realloc, grown_size, dynar_clean,
}
use corosync_qdevice.Dynar.Content.{IsValid}
use corosync_qdevice.NodeList.{NodeListEntry}
use corosync_qdevice.Tlv.Types.{RingId, NodeState, Vote, Heuristics}
use corosync_qdevice.Tlv.Bytes.{Memory, be_bytes, memory_of, memory_of-small}
use corosync_qdevice.Tlv.Each.{bad_option}
use corosync_qdevice.Tlv.Each.Runs.{Runs}
use corosync_qdevice.Tlv.Iter.{tlv_iter_init}
use corosync_qdevice.Msg.Types.{
  msg_get_header_length, MsgType, msg_type_number, msg_decoded_init, msg_get_type, msg_set_len,
}
use corosync_qdevice.Msg.Create.{
  create, msg_add_type, msg_add_len, add_options, msg_create_vote_info, msg_create_node_list,
  msg_create_echo_request,
}
use corosync_qdevice.Msg.Decode.{msg_option, msg_decode, msg_decode_loop}
use corosync_qdevice.Msg.RoundTrip.{vote_info_roundtrip, node_list_roundtrip}
use corosync_qdevice.Msg.Loop.{msg_decode_ends, msg_decode-empty}

abbrev buffer : Dynar
buffer = record { bytes = 7 ∷ []; allocated = 1; maximum_size = 4096 }

buffer-IsValid : IsValid buffer
buffer-IsValid = omega arith

abbrev always : ℕ → ℕ → ℕ → Bool
always k i j = true

abbrev granted : ℕ → ℕ → Bool
granted i j = true

abbrev beyond : Memory
beyond i = i % 251

abbrev ring_id : RingId
ring_id = record { node_id = 2; seq = 70000000000 }

vote_info_roundtrip_example :
    ((msg_create_vote_info always buffer 9 ring_id Vote.ack).1 ≡ 35)
    × (msg_decode granted beyond (msg_create_vote_info always buffer 9 ring_id Vote.ack).0 ≡ (
      record (msg_decoded_init (msg_type_number MsgType.vote_info)) {
        seq_number = some 9;
        ring_id = some ring_id;
        vote = some Vote.ack;
      },
      none,
    ))
vote_info_roundtrip_example =
    vote_info_roundtrip granted beyond always (λ k i j. refl) buffer buffer-IsValid 9 ring_id
      Vote.ack (omega arith) (omega arith) (omega arith) (λ e. cc) (omega arith)

abbrev node1 : NodeListEntry
node1 = record { node_id = 1; data_center_id = 0; node_state = NodeState.member }

abbrev node2 : NodeListEntry
node2 = record { node_id = 2; data_center_id = 300; node_state = NodeState.not_set }

node_list_roundtrip_example :
    msg_decode granted beyond
      (msg_create_node_list always buffer 4 2
        (some ring_id)
        none
        (some 1)
        (some Heuristics.pass)
        (node1 ∷ node2 ∷ [])).0
    ≡ (
      record (msg_decoded_init (msg_type_number MsgType.node_list)) {
        seq_number = some 4;
        ring_id = some ring_id;
        config_version = none;
        nodes = node1 ∷ node2 ∷ [];
        node_list_type = some 2;
        quorate = some 1;
        heuristics = Heuristics.pass;
      },
      none,
    )
node_list_roundtrip_example =
    node_list_roundtrip granted beyond always (λ k i j. refl) buffer buffer-IsValid (λ i j. refl) 4
      2 (some ring_id) none (some 1) (some Heuristics.pass) (node1 ∷ node2 ∷ [])
      (record {
        seq_fits = omega arith;
        type_fits = omega arith;
        ring_fits = (omega arith, omega arith);
        version_fits = tt;
        quorate_fits = omega arith;
        nodes_fit = (
          ((λ e. omega arith), omega arith, omega arith),
          (((λ e. omega arith), omega arith, omega arith), tt),
        );
      })
      (omega arith)

-- A message of the type 14 with the length 5 and the option 19 of one byte.
abbrev short_vote : Dynar
short_vote = record {
  bytes = 0 ∷ 14 ∷ 0 ∷ 0 ∷ 0 ∷ 5 ∷ 0 ∷ 19 ∷ 0 ∷ 1 ∷ 1 ∷ [];
  allocated = 16;
  maximum_size = 64;
}

short_vote_small : (i : ℕ) → memory_of short_vote.bytes beyond i < 256
short_vote_small = memory_of-small short_vote.bytes beyond (omega arith) (λ i. omega arith)

msg_decode_ends_example :
    Runs
      (msg_option granted)
      (tlv_iter_init beyond short_vote msg_get_header_length)
      (msg_decoded_init (msg_get_type beyond short_vote))
      (msg_decode granted beyond short_vote)
    × (msg_decode_loop granted beyond short_vote 100 ≡ msg_decode granted beyond short_vote)
msg_decode_ends_example =
    msg_decode_ends granted beyond short_vote short_vote_small (omega arith) 100 (omega arith)

-- What `msg_create_echo_request` makes without a sequence number.
abbrev echo_request : Dynar
echo_request = record { bytes = 0 ∷ 8 ∷ 0 ∷ 0 ∷ 0 ∷ 0 ∷ []; allocated = 14; maximum_size = 4096 }

created : (msg_create_echo_request always buffer none).0.bytes ≡ echo_request.bytes
unfolding msg_create_echo_request create msg_add_type msg_add_len add_options msg_set_len dynar_cat
    dynar_prealloc dynar_realloc grown_size dynar_clean be_bytes
created = refl

msg_decode-empty_example :
    msg_decode granted beyond echo_request
    ≡ (msg_decoded_init (msg_get_type beyond echo_request), some bad_option)
msg_decode-empty_example =
    msg_decode-empty granted beyond echo_request
      (memory_of-small echo_request.bytes beyond (omega arith) (λ i. omega arith)) (omega arith)
      (omega arith)
