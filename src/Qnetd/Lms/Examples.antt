-- ===== src/Qnetd/Lms/Examples.antt =====
-- The tie-breaker of the last man standing algorithm at a cluster of three nodes.
use corosync_qdevice.Prelude.{
  ℕ, ◌≡◌, refl, ap, ◌∙◌, sym, false, inl, inr, List, [], ◌∷◌, ◌==◌, if◌then◌else◌, arith, In,
}
use corosync_qdevice.Tlv.Types.{RingId, TieBreakerMode, Vote, Heuristics, lowest}
use corosync_qdevice.Qnetd.Lms.{LmsClient, tie_break_loop, tie_break}
use corosync_qdevice.Qnetd.Lms.TieBreak.{tie_break-nack}
use corosync_qdevice.Qnetd.Lms.Exclusive.{IsPlain, tie_break-exclusive}

abbrev ring_of : ℕ → RingId
ring_of id = if id == 3 then record { node_id = 3; seq = 8 } else record { node_id = 1; seq = 8 }

abbrev client : TieBreakerMode → ℕ → LmsClient
client mode id = record {
  addr = id;
  node_id = id;
  decision_algorithm = 1;
  tie_breaker = record { mode = mode; node_id = 1 };
  keep_active_partition_tie_breaker = false;
  configuration_node_list = [];
  last_membership_node_list = [];
  last_ring_id = ring_of id;
  last_heuristics = Heuristics.undefined;
  last_sent_vote = Vote.undefined;
  last_sent_ack_nack_vote = Vote.undefined;
  schedule_disconnect = false;
  send_buffer_list = [];
  algorithm_data = record { num_config_nodes = 3; last_result = Vote.ack; partition_list = [] };
}

abbrev clients : TieBreakerMode → List LmsClient
clients mode = client mode 1 ∷ client mode 2 ∷ client mode 3 ∷ []

tie_break-nack_example :
    tie_break (client TieBreakerMode.node_id 2) (clients TieBreakerMode.node_id) (ring_of 2)
    ≡ Vote.nack
tie_break-nack_example =
    tie_break-nack (client TieBreakerMode.node_id 2) (clients TieBreakerMode.node_id) (ring_of 2)
      refl (λ e. omega arith) (λ e. omega arith)

clients-IsPlain : (x : LmsClient) → In x (clients lowest) → IsPlain x
clients-IsPlain x (inl e) = rw e (omega arith)
clients-IsPlain x (inr (inl e)) = rw e (omega arith)
clients-IsPlain x (inr (inr (inl e))) = rw e (omega arith)
clients-IsPlain x (inr (inr (inr m))) = absurd m

ring_known : (x : LmsClient) → In x (clients lowest) → x.last_ring_id ≡ ring_of x.node_id
ring_known x (inl e) = rw e refl
ring_known x (inr (inl e)) = rw e refl
ring_known x (inr (inr (inl e))) = rw e refl
ring_known x (inr (inr (inr m))) = absurd m

one_ring :
    (a b : LmsClient)
    → In a (clients lowest)
    → In b (clients lowest)
    → a.node_id ≡ b.node_id
    → a.last_ring_id ≡ b.last_ring_id
one_ring a b m n e = ring_known a m ∙ ap ring_of e ∙ sym (ring_known b n)

first_wins : tie_break (client lowest 1) (clients lowest) (ring_of 1) ≡ Vote.ack
unfolding tie_break tie_break_loop
first_wins = refl

second_wins : tie_break (client lowest 2) (clients lowest) (ring_of 2) ≡ Vote.ack
unfolding tie_break tie_break_loop
second_wins = refl

tie_break-exclusive_example : ring_of 1 ≡ ring_of 2
tie_break-exclusive_example =
    tie_break-exclusive (clients lowest) (client lowest 1) (client lowest 2) clients-IsPlain
      one_ring (inl refl) (inr (inl refl)) refl (λ e. cc) first_wins second_wins
