-- ===== src/Qnetd/Lms/TieBreak.antt =====
-- The tie-breaker of the last man standing algorithm.
use corosync_qdevice.Prelude.{
  ℕ, ◌≡◌, ◌≢◌, refl, ap, ◌∙◌, sym, false, ◌||◌, List, [], ◌∷◌, ◌==◌, arith, ==-ne,
}
use corosync_qdevice.Tlv.Types.{RingId, Vote, TieBreakerMode, tlv_ring_id_eq}
use corosync_qdevice.Qnetd.Lms.{
  LmsClient, tie_break_start, tie_break_round, tie_break_loop, zero_ring, vote_for, tie_break,
}

-- Where the tie-breaker is a node id, the search of any other client finds nothing.
round_other :
    (client other_client : LmsClient) (mode : TieBreakerMode) (found : ℕ × RingId)
    → mode ≡ TieBreakerMode.node_id
    → client.tie_breaker.node_id ≢ client.node_id
    → tie_break_round client other_client mode found ≡ found
round_other client other_client TieBreakerMode.node_id (id, ring) m apart =
    rw (==-ne _ _ apart) refl
round_other client other_client TieBreakerMode.lowest found m apart = cc
round_other client other_client TieBreakerMode.highest found m apart = cc

loop_other :
    (client : LmsClient) (clients : List LmsClient) (found : ℕ × RingId)
    → client.tie_breaker.mode ≡ TieBreakerMode.node_id
    → client.tie_breaker.node_id ≢ client.node_id
    → tie_break_loop client clients found ≡ found
unfolding tie_break_loop
loop_other client [] found m apart = refl
loop_other client (c ∷ clients) found m apart =
    loop_other client clients _ m apart ∙ round_other client c client.tie_breaker.mode found m apart

zero_ring_ne : (ring_id : RingId) → ring_id.seq ≢ 0 → tlv_ring_id_eq zero_ring ring_id ≡ false
zero_ring_ne ring_id h = ground arith

start_other :
    (client : LmsClient)
    → client.tie_breaker.mode ≡ TieBreakerMode.node_id
    → tie_break_start client client.tie_breaker.mode ≡ client.tie_breaker.node_id
start_other client m = rw m refl

-- Where ties are broken by a node id, a client of any other node is refused the vote in a tie,
-- whatever the other clients are: even if it is in the partition of the named node. The ring id's
-- sequence number is not 0.
pub tie_break-nack :
    (client : LmsClient) (clients : List LmsClient) (ring_id : RingId)
    → client.tie_breaker.mode ≡ TieBreakerMode.node_id
    → client.tie_breaker.node_id ≢ client.node_id
    → ring_id.seq ≢ 0
    → tie_break client clients ring_id ≡ Vote.nack
unfolding tie_break
tie_break-nack client clients ring_id m apart ring =
    let (id, ring') =
      tie_break_loop client clients (tie_break_start client client.tie_breaker.mode, zero_ring) in
    let other : (client.node_id == client.tie_breaker.node_id) ≡ false =
      ==-ne _ _ (λ e. apart (sym e)) in
    ap (λ (f : ℕ × RingId). vote_for (client.node_id == f.0 || tlv_ring_id_eq f.1 ring_id))
      (loop_other client clients _ m apart)
    ∙ rw (start_other client m, other, zero_ring_ne ring_id ring) refl
