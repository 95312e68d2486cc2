-- ===== src/Qnetd/Ffsplit/Callbacks/Replies.antt =====
-- Each callback leaves the cluster in a state that fits what the clients owe.
use corosync_qdevice.Prelude.{
  ℕ, ◌≤◌, ◌≡◌, refl, ◌⊎◌, subst, Bool, true, false, ◌||◌, ◌&&◌, inl, inr, some, List, [], ◌∷◌, ◌==◌,
  arith, All, is_some, Bool-cases,
}
use corosync_qdevice.Tlv.Types.{RingId, Heuristics, Vote}
use corosync_qdevice.NodeList.{NodeList, node_list_find_node_id, node_list_size}
use corosync_qdevice.Qnetd.Ffsplit.Data.{
  FfsplitClient, FfsplitCluster, ClusterState, ClientState, waiting_for_stable_membership,
  sending_nacks, sending_acks,
}
use corosync_qdevice.Qnetd.Ffsplit.Votes.{with_state, send_votes, no_clients_in_sending_state}
use corosync_qdevice.Qnetd.Ffsplit.Votes.Counts.{
  owing, owing-SameStates, AckedIn, AckedIn-SameStates, LeavesQuietly, send_votes_lem,
}
use corosync_qdevice.Qnetd.Ffsplit.Do.{Reply}
use corosync_qdevice.Qnetd.Ffsplit.Do.Phase.{Phase, IsSound}
use corosync_qdevice.Qnetd.Ffsplit.Do.Sound.{not_sending, ffsplit_do-IsSound}
use corosync_qdevice.Qnetd.Ffsplit.Callbacks.{
  update_client, config_node_list_received, membership_node_list_received,
  heuristics_change_received, nack_answered, ack_answered, answered, vote_info_reply_received,
}

-- The reply of a client takes it out of the count.
abbrev pub settle : ℕ → List FfsplitClient → List FfsplitClient
settle addr = update_client addr (λ c. with_state c ClientState.waiting_for_change)

pub settle-owing :
    (b : Bool) (addr : ℕ) (cs : List FfsplitClient) → owing b (settle addr cs) ≤ owing b cs
unfolding no_clients_in_sending_state update_client
settle-owing b addr [] = omega arith
settle-owing b addr (c ∷ cs) = elim (Bool-cases (c.addr == addr)) [
  | inl hit ↦ rw (hit, not_sending b) (omega (arith, settle-owing b addr cs))
  | inr miss ↦ rw miss (omega (arith, settle-owing b addr cs))
]

pub settle-AckedIn :
    (list : NodeList) (addr : ℕ) (cs : List FfsplitClient)
    → AckedIn list cs
    → AckedIn list (settle addr cs)
unfolding update_client
settle-AckedIn list addr [] a = tt
settle-AckedIn list addr (c ∷ cs) a = elim (Bool-cases (c.addr == addr)) [
  | inl hit ↦ rw hit (λ e. cc, settle-AckedIn list addr cs a.1)
  | inr miss ↦ rw miss (a.0, settle-AckedIn list addr cs a.1)
]

never : (b : Bool) → b && false ≡ true → true ≡ false
never b h = ground arith

pub stays_quiet :
    (room : ℕ → Bool) (client : FfsplitClient) (ring : RingId) (acks : Bool)
    (cs : List FfsplitClient)
    → All (LeavesQuietly room client false ring acks) cs
stays_quiet room client ring acks [] = tt
stays_quiet room client ring acks (c ∷ cs) =
    (λ leaves. cc (never _ leaves), stays_quiet room client ring acks cs)

module _ (grants room : ℕ → Bool) (client : FfsplitClient) (cluster : FfsplitCluster) where
  nack_answered-IsSound :
      (cs : List FfsplitClient)
      → AckedIn cluster.algorithm_data.quorate_partition_node_list cs
      → IsSound (nack_answered grants room client cluster cs)
  unfolding nack_answered
  nack_answered-IsSound cs acked =
      let quorate = cluster.algorithm_data.quorate_partition_node_list in
      let out = (send_votes room client false client.last_ring_id true cs).0 in
      let (same, acks) =
        send_votes_lem room client false client.last_ring_id true cs
          (stays_quiet room client client.last_ring_id true cs) in
      let fewer = owing-SameStates false cs out same in
      let owed = owing-SameStates true cs out same in
      elim (Bool-cases (owing false cs == 0)) [
        | inr left ↦ rw left (ground arith, acked)
        | inl done ↦
            elim (Bool-cases ((send_votes room client false client.last_ring_id true cs).1 == 0)) [
              | inl no_ack ↦ rw (done, no_ack) (ground arith, ground arith)
              | inr some_ack ↦
                  rw (done, some_ack)
                    (ground arith, ground arith, AckedIn-SameStates quorate cs out same acked)
            ]
      ]

  ack_answered-IsSound :
      (cs : List FfsplitClient)
      → owing false cs ≡ 0
      → AckedIn cluster.algorithm_data.quorate_partition_node_list cs
      → IsSound (ack_answered grants room client cluster cs)
  unfolding ack_answered
  ack_answered-IsSound cs settled acked = elim (Bool-cases (owing true cs == 0)) [
    | inl done ↦ rw done (settled, ground arith)
    | inr left ↦ rw left (settled, ground arith, acked)
  ]

  answered-IsSound :
      (phase : ClusterState) (addr : ℕ)
      → Phase phase cluster.algorithm_data.quorate_partition_node_list cluster.client_list
      → IsSound (answered grants room client cluster phase (settle addr cluster.client_list))
  answered-IsSound sending_nacks addr h =
      nack_answered-IsSound _ (settle-AckedIn _ addr cluster.client_list h.1)
  answered-IsSound sending_acks addr h =
      ack_answered-IsSound _ (omega (arith, h.0, settle-owing false addr cluster.client_list))
        (settle-AckedIn _ addr cluster.client_list h.2)
  answered-IsSound waiting_for_stable_membership addr h = tt
  answered-IsSound ClusterState.waiting_for_change addr h = (
    omega (arith, h.0, settle-owing false addr cluster.client_list),
    omega (arith, h.1, settle-owing true addr cluster.client_list),
  )

  pub vote_info_reply_received-IsSound :
      (seq : ℕ)
      → IsSound cluster
      → IsSound (vote_info_reply_received grants room client cluster seq).0
  unfolding vote_info_reply_received
  vote_info_reply_received-IsSound seq h =
      elim (Bool-cases (client.algorithm_data.vote_info_expected_seq_num == seq)) [
        | inl fits ↦ rw fits (answered-IsSound _ client.addr h)
        | inr old ↦ rw old h
      ]

  -- What a report from a client makes of the cluster: nothing new, or a sound cluster.
  abbrev pub IsKeptOrSound : FfsplitCluster → Type 0
  IsKeptOrSound d = (d ≡ cluster) ⊎ IsSound d

  kept : {r s : Reply} → some r ≡ some s → r.cluster ≡ cluster → IsKeptOrSound s.cluster
  kept {r} {s} e same =
      let equal : r ≡ s = cc in inl (subst (λ (r : Reply). r.cluster ≡ cluster) equal same)

  pub config_node_list_received_cases :
      (nodes : NodeList) (initial : Bool) (vote : Vote) {r : Reply}
      → config_node_list_received grants room client cluster nodes initial vote ≡ some r
      → IsKeptOrSound r.cluster
  unfolding config_node_list_received
  config_node_list_received_cases nodes initial vote e =
      elim (Bool-cases (node_list_size nodes == 0)) [
        | inl empty ↦ kept (rw empty at e) refl
        | inr filled ↦ elim (Bool-cases (is_some (node_list_find_node_id nodes client.node_id))) [
          | inr absent ↦ kept (rw (filled, absent) at e) refl
          | inl present ↦
              elim (Bool-cases (initial || node_list_size client.last_membership_node_list == 0)) [
                | inl early ↦ kept (rw (filled, present, early) at e) refl
                | inr ready ↦ inr (
                    ffsplit_do-IsSound grants room _ cluster vote
                      (rw (filled, present, ready) at e))
              ]
        ]
      ]

  pub membership_node_list_received_cases :
      (ring_id : RingId) (nodes : NodeList) (heuristics : Heuristics) (vote : Vote) {r : Reply}
      → membership_node_list_received grants room client cluster ring_id nodes heuristics vote
        ≡ some r
      → IsKeptOrSound r.cluster
  unfolding membership_node_list_received
  membership_node_list_received_cases ring_id nodes heuristics vote e =
      elim (Bool-cases (node_list_size nodes == 0)) [
        | inl empty ↦ kept (rw empty at e) refl
        | inr filled ↦ elim (Bool-cases (is_some (node_list_find_node_id nodes client.node_id))) [
          | inr absent ↦ kept (rw (filled, absent) at e) refl
          | inl present ↦ elim (Bool-cases (node_list_size client.configuration_node_list == 0)) [
            | inl early ↦ kept (rw (filled, present, early) at e) refl
            | inr ready ↦
                inr
                  (ffsplit_do-IsSound grants room _ cluster vote (rw (filled, present, ready) at e))
          ]
        ]
      ]

  pub heuristics_change_received_cases :
      (heuristics : Heuristics) (vote : Vote) {r : Reply}
      → heuristics_change_received grants room client cluster heuristics vote ≡ some r
      → IsKeptOrSound r.cluster
  unfolding heuristics_change_received
  heuristics_change_received_cases heuristics vote e =
      elim (Bool-cases (
        node_list_size client.configuration_node_list == 0
        || node_list_size client.last_membership_node_list == 0)) [
          | inl early ↦ kept (rw early at e) refl
          | inr ready ↦ inr (ffsplit_do-IsSound grants room _ cluster vote (rw ready at e))
        ]
