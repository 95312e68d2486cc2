-- ===== src/Qnetd/Ffsplit/Callbacks/Careful.antt =====
-- The part of what each state of a cluster promises that does not depend on node ids, and that holds
-- too of a cluster with fewer answers owed.
use corosync_qdevice.Prelude.{
  ℕ, ◌≤◌, ◌≡◌, refl, sym, Bool, true, false, inl, inr, List, [], ◌∷◌, ◌==◌, arith, Bool-cases,
}
use corosync_qdevice.NodeList.{NodeList}
use corosync_qdevice.Qnetd.ClusterList.{del_client}
use corosync_qdevice.Qnetd.Ffsplit.Data.{
  FfsplitClient, FfsplitCluster, ClusterState, waiting_for_stable_membership, sending_nacks,
  sending_acks,
}
use corosync_qdevice.Qnetd.Ffsplit.Votes.{send_votes, no_clients_in_sending_state}
use corosync_qdevice.Qnetd.Ffsplit.Votes.Counts.{owing, state, owing-SameStates, send_votes_lem}
use corosync_qdevice.Qnetd.Ffsplit.Do.Phase.{Phase, IsSound}
use corosync_qdevice.Qnetd.Ffsplit.Callbacks.{
  update_client, nack_answered, ack_answered, answered, vote_info_reply_received,
}
use corosync_qdevice.Qnetd.Ffsplit.Callbacks.Replies.{settle, settle-owing, stays_quiet}
use corosync_qdevice.Qnetd.Ffsplit.Callbacks.Protocol.{}

-- What each state of the cluster still promises of the clients.
abbrev pub CarefulPhase : ClusterState → List FfsplitClient → Type 0
CarefulPhase ClusterState.waiting_for_change cs = (owing false cs ≡ 0) × (owing true cs ≡ 0)
CarefulPhase waiting_for_stable_membership cs = Unit
CarefulPhase sending_nacks cs = Unit
CarefulPhase sending_acks cs = owing false cs ≡ 0

abbrev pub IsCareful : FfsplitCluster → Type 0
IsCareful c = CarefulPhase c.algorithm_data.cluster_state c.client_list

Phase-CarefulPhase :
    (p : ClusterState) (q : NodeList) (cs : List FfsplitClient) → Phase p q cs → CarefulPhase p cs
Phase-CarefulPhase ClusterState.waiting_for_change q cs h = h
Phase-CarefulPhase waiting_for_stable_membership q cs h = tt
Phase-CarefulPhase sending_nacks q cs h = tt
Phase-CarefulPhase sending_acks q cs h = h.0

pub IsSound-IsCareful : (c : FfsplitCluster) → IsSound c → IsCareful c
IsSound-IsCareful c h =
    Phase-CarefulPhase c.algorithm_data.cluster_state c.algorithm_data.quorate_partition_node_list
      c.client_list h

-- It is kept when no more answers are owed than before.
fewer-CarefulPhase :
    (p : ClusterState) (cs ds : List FfsplitClient)
    → ((b : Bool) → owing b ds ≤ owing b cs)
    → CarefulPhase p cs
    → CarefulPhase p ds
fewer-CarefulPhase ClusterState.waiting_for_change cs ds n h =
    (omega (arith, n false, h.0), omega (arith, n true, h.1))
fewer-CarefulPhase waiting_for_stable_membership cs ds n h = tt
fewer-CarefulPhase sending_nacks cs ds n h = tt
fewer-CarefulPhase sending_acks cs ds n h = omega (arith, n false, h)

pub fewer-IsCareful :
    (c : FfsplitCluster) (ds : List FfsplitClient)
    → ((b : Bool) → owing b ds ≤ owing b c.client_list)
    → IsCareful c
    → IsCareful (record c { client_list = ds })
fewer-IsCareful c ds n h = fewer-CarefulPhase c.algorithm_data.cluster_state c.client_list ds n h

pub owing-del_client :
    (b : Bool) (addr : ℕ) (cs : List FfsplitClient) → owing b (del_client addr cs) ≤ owing b cs
unfolding del_client no_clients_in_sending_state
owing-del_client b addr [] = omega arith
owing-del_client b addr (c ∷ cs) = elim (Bool-cases (c.addr == addr)) [
  | inl hit ↦ rw hit (ground arith)
  | inr miss ↦ rw miss (ground (arith, owing-del_client b addr cs))
]

pub owing-update_client :
    (b : Bool) (addr : ℕ) (f : FfsplitClient → FfsplitClient) (cs : List FfsplitClient)
    → ((c : FfsplitClient) → state c ≡ state (f c))
    → owing b (update_client addr f cs) ≡ owing b cs
unfolding update_client no_clients_in_sending_state
owing-update_client b addr f [] k = refl
owing-update_client b addr f (c ∷ cs) k = elim (Bool-cases (c.addr == addr)) [
  | inl hit ↦ rw (hit, sym (k c), owing-update_client b addr f cs k) refl
  | inr miss ↦ rw (miss, owing-update_client b addr f cs k) refl
]

module _ (grants room : ℕ → Bool) (client : FfsplitClient) (cluster : FfsplitCluster) where
  nack_answered-IsCareful :
      (cs : List FfsplitClient) → IsCareful (nack_answered grants room client cluster cs)
  unfolding nack_answered
  nack_answered-IsCareful cs =
      let out = (send_votes room client false client.last_ring_id true cs).0 in
      let (same, acks) =
        send_votes_lem room client false client.last_ring_id true cs
          (stays_quiet room client client.last_ring_id true cs) in
      let fewer = owing-SameStates false cs out same in
      let owed = owing-SameStates true cs out same in
      elim (Bool-cases (owing false cs == 0)) [
        | inr others ↦ rw others tt
        | inl done ↦
            elim (Bool-cases ((send_votes room client false client.last_ring_id true cs).1 == 0)) [
              | inl no_ack ↦ rw (done, no_ack) (ground arith, ground arith)
              | inr some_ack ↦ rw (done, some_ack) (ground arith)
            ]
      ]

  ack_answered-IsCareful :
      (cs : List FfsplitClient)
      → owing false cs ≡ 0
      → IsCareful (ack_answered grants room client cluster cs)
  unfolding ack_answered
  ack_answered-IsCareful cs settled = elim (Bool-cases (owing true cs == 0)) [
    | inl done ↦ rw done (settled, ground arith)
    | inr others ↦ rw others settled
  ]

  answered-IsCareful :
      (phase : ClusterState) (addr : ℕ)
      → CarefulPhase phase cluster.client_list
      → IsCareful (answered grants room client cluster phase (settle addr cluster.client_list))
  answered-IsCareful sending_nacks addr h = nack_answered-IsCareful _
  answered-IsCareful sending_acks addr h =
      ack_answered-IsCareful _ (omega (arith, h, settle-owing false addr cluster.client_list))
  answered-IsCareful waiting_for_stable_membership addr h = tt
  answered-IsCareful ClusterState.waiting_for_change addr h = (
    omega (arith, h.0, settle-owing false addr cluster.client_list),
    omega (arith, h.1, settle-owing true addr cluster.client_list),
  )

  pub reply-IsCareful :
      (seq : ℕ)
      → IsCareful cluster
      → IsCareful (vote_info_reply_received grants room client cluster seq).0
  unfolding vote_info_reply_received
  reply-IsCareful seq h =
      elim (Bool-cases (client.algorithm_data.vote_info_expected_seq_num == seq)) [
        | inl fits ↦ rw fits (answered-IsCareful _ client.addr h)
        | inr old ↦ rw old h
      ]
