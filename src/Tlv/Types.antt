-- ===== src/Tlv/Types.antt =====
-- The enumerations and structures of qdevices/tlv.h, and their comparisons in qdevices/tlv.c.
-- A 32-bit or 64-bit field is a number; where its width matters a statement says so.
use corosync_qdevice.Prelude.{ℕ, Bool, true, false, ◌&&◌, ◌==◌, if◌then◌else◌}

pub record RingId : Type 0 where
  pub node_id : ℕ
  pub seq : ℕ

pub data NodeState : Type 0 where
  not_set member dead leaving : NodeState

pub data Vote : Type 0 where
  undefined ack nack ask_later wait_for_reply no_change : Vote

pub data TieBreakerMode : Type 0 where
  lowest highest node_id : TieBreakerMode

pub record TieBreaker : Type 0 where
  pub mode : TieBreakerMode
  pub node_id : ℕ

pub record NodeInfo : Type 0 where
  pub node_id : ℕ
  pub data_center_id : ℕ
  pub node_state : NodeState

pub data Heuristics : Type 0 where
  undefined pass fail : Heuristics

pub data ReplyErrorCode : Type 0 where
  no_error unsupported_needed_message unsupported_needed_option tls_required unsupported_message
        message_too_long preinit_required doesnt_contain_required_option unexpected_message
        error_decoding_msg internal_error init_required unsupported_decision_algorithm
        invalid_heartbeat_interval unsupported_decision_algorithm_message
        tie_breaker_differs_from_other_nodes algorithm_differs_from_other_nodes duplicate_node_id
        invalid_config_node_list invalid_membership_node_list :
      ReplyErrorCode

abbrev pub tlv_ring_id_eq : RingId → RingId → Bool
tlv_ring_id_eq rid1 rid2 = rid1.node_id == rid2.node_id && rid1.seq == rid2.seq

abbrev pub node_state_eq : NodeState → NodeState → Bool
node_state_eq NodeState.not_set NodeState.not_set = true
node_state_eq NodeState.member NodeState.member = true
node_state_eq NodeState.dead NodeState.dead = true
node_state_eq NodeState.leaving NodeState.leaving = true
node_state_eq a b = false

abbrev pub mode_eq : TieBreakerMode → TieBreakerMode → Bool
mode_eq lowest lowest = true
mode_eq highest highest = true
mode_eq TieBreakerMode.node_id TieBreakerMode.node_id = true
mode_eq a b = false

abbrev pub tlv_tie_breaker_eq : TieBreaker → TieBreaker → Bool
tlv_tie_breaker_eq tb1 tb2 =
    if mode_eq tb1.mode tb2.mode && mode_eq tb1.mode TieBreakerMode.node_id
    then tb1.node_id == tb2.node_id
    else mode_eq tb1.mode tb2.mode
