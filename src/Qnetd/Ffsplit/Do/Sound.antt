-- ===== src/Qnetd/Ffsplit/Do/Sound.antt =====
-- `qnetd_algo_ffsplit_do` leaves the cluster in the state that the clients' states call for.
use corosync_qdevice.Prelude.{
  ℕ, ◌≡◌, subst, Bool, true, false, inl, inr, Option, none, some, List, [], ◌∷◌, ◌==◌,
  if◌then◌else◌, arith, All, is_some, Bool-cases, Option-cases,
}
use corosync_qdevice.Tlv.Types.{RingId, Vote, wait_for_reply, no_error}
use corosync_qdevice.NodeList.{NodeList, node_list_find_node_id}
use corosync_qdevice.NodeList.Eq.{node_list_clone-eq}
use corosync_qdevice.Qnetd.Ffsplit.Data.{
  waiting_for_stable_membership, Event, FfsplitClient, FfsplitCluster, ClientState, ClusterState,
  sending_nacks, sending_acks, sending_ack,
}
use corosync_qdevice.Qnetd.Ffsplit.Stable.{is_membership_stable}
use corosync_qdevice.Qnetd.Ffsplit.Select.{select_partition}
use corosync_qdevice.Qnetd.Ffsplit.Votes.{
  next_state, in_partition, update_nodes_state, send_votes, is_sending,
}
use corosync_qdevice.Qnetd.Ffsplit.Votes.Counts.{
  owing, SameStates, owing-SameStates, AckedIn, AckedIn-SameStates, LeavesQuietly, send_votes_lem,
}
use corosync_qdevice.Qnetd.Ffsplit.Do.Phase.{Phase, IsSound}
use corosync_qdevice.Qnetd.Ffsplit.Do.{
  Reply, start_votes, apply_partition, store_partition, finish, ffsplit_do,
}

some_eq : (a b : Reply) → some a ≡ some b → a ≡ b
some_eq a b e = cc

-- The clone of the partition, or the empty list for NULL.
abbrev Stores : Option NodeList → NodeList → Type 0
Stores none stored = stored ≡ []
Stores (some list) stored = stored ≡ list

store_partition-Stores :
    (grants : ℕ → Bool) (q : Option NodeList) {stored : NodeList}
    → store_partition grants q ≡ some stored
    → Stores q stored
unfolding store_partition
store_partition-Stores grants none e = cc
store_partition-Stores grants (some list) e = node_list_clone-eq grants list e

in_partition-stored :
    (q : Option NodeList) (stored : NodeList) (id : ℕ)
    → Stores q stored
    → in_partition q id ≡ true
    → is_some (node_list_find_node_id stored id) ≡ true
in_partition-stored none stored id st h = cc
in_partition-stored (some list) stored id st h = rw st h

pub not_sending : (acks : Bool) → is_sending acks ClientState.waiting_for_change ≡ false
not_sending acks = ground arith

module _ (client : FfsplitClient) (leaving : Bool) (quorate : Option NodeList)
    (stored : NodeList) where
  next_state-acked :
      (c : FfsplitClient)
      → Stores quorate stored
      → next_state client leaving quorate c ≡ sending_ack
      → is_some (node_list_find_node_id stored c.node_id) ≡ true
  next_state-acked c st e = in_partition-stored quorate stored c.node_id st (ground arith)

  update-AckedIn :
      (cs : List FfsplitClient)
      → Stores quorate stored
      → AckedIn stored (update_nodes_state client leaving quorate cs)
  unfolding update_nodes_state
  update-AckedIn [] st = tt
  update-AckedIn (c ∷ cs) st = (next_state-acked c st, update-AckedIn cs st)

  pub update-LeavesQuietly :
      (room : ℕ → Bool) (ring : RingId) (acks : Bool) (cs : List FfsplitClient)
      → All
          (LeavesQuietly room client leaving ring acks)
          (update_nodes_state client leaving quorate cs)
  unfolding update_nodes_state
  update-LeavesQuietly room ring acks [] = tt
  update-LeavesQuietly room ring acks (c ∷ cs) =
      (λ leaves. rw leaves (not_sending acks), update-LeavesQuietly room ring acks cs)

module _ (room : ℕ → Bool) (client : FfsplitClient) (leaving : Bool) (ring : RingId) where
  pub quiet-SameStates :
      (acks : Bool) (cs ds : List FfsplitClient)
      → SameStates cs ds
      → All (LeavesQuietly room client leaving ring acks) cs
      → All (LeavesQuietly room client leaving ring acks) ds
  quiet-SameStates acks [] [] s q = tt
  quiet-SameStates acks (c ∷ cs) (d ∷ ds) s q =
      (λ leaves. rw (← s.0) (q.0 (rw s.1 leaves)), quiet-SameStates acks cs ds s.3 q.1)
  quiet-SameStates acks [] (d ∷ ds) s q = absurd s
  quiet-SameStates acks (c ∷ cs) [] s q = absurd s

-- The phase after the two loops, from the counts that they return.
Phase-of_counts :
    (cs ns as' : List FfsplitClient) (stored : NodeList) (nacks acks : ℕ)
    → AckedIn stored cs
    → SameStates cs ns
    → SameStates ns as'
    → nacks ≡ owing false cs
    → acks ≡ owing true ns
    → let (out, phase) : List FfsplitClient × ClusterState =
        if nacks == 0
        then (as', if acks == 0 then ClusterState.waiting_for_change else sending_acks)
        else (ns, sending_nacks) in
      Phase phase stored out
Phase-of_counts cs ns as' stored nacks acks acked s t n a =
    let kept = AckedIn-SameStates stored cs ns s acked in
    elim (Bool-cases (nacks == 0)) [
      | inr some_nack ↦ rw some_nack (ground (arith, owing-SameStates false cs ns s), kept)
      | inl no_nack ↦ elim (Bool-cases (acks == 0)) [
        | inl no_ack ↦
            rw (no_nack, no_ack)
              (
                ground (arith, owing-SameStates false cs ns s, owing-SameStates false ns as' t),
                ground (arith, owing-SameStates true ns as' t),
              )
        | inr some_ack ↦
            rw (no_nack, some_ack)
              (
                ground (arith, owing-SameStates false cs ns s, owing-SameStates false ns as' t),
                ground (arith, owing-SameStates true ns as' t),
                AckedIn-SameStates stored ns as' t kept,
              )
      ]
    ]

start_votes-Phase :
    (room : ℕ → Bool) (e : Event) (cs : List FfsplitClient) (stored : NodeList)
    → AckedIn stored cs
    → ((acks : Bool) → All (LeavesQuietly room e.client e.client_leaving e.ring_id acks) cs)
    → Phase (start_votes room e cs).1 stored (start_votes room e cs).0
unfolding start_votes
start_votes-Phase room e cs stored acked quiet =
    let nacked = (send_votes room e.client e.client_leaving e.ring_id false cs).0 in
    let (same, nacks) =
      send_votes_lem room e.client e.client_leaving e.ring_id false cs (quiet false) in
    let quiet' =
      quiet-SameStates room e.client e.client_leaving e.ring_id true cs nacked same (quiet true) in
    let (same', acks) =
      send_votes_lem room e.client e.client_leaving e.ring_id true nacked quiet' in
    Phase-of_counts cs nacked (send_votes room e.client e.client_leaving e.ring_id true nacked).0
      stored _ _ acked same same' nacks acks

finish-IsSound :
    (grants room : ℕ → Bool) (e : Event) (cluster : FfsplitCluster) (vote : Vote)
    (quorate : Option NodeList)
    → IsSound (finish grants room e cluster vote quorate).cluster
unfolding finish apply_partition
finish-IsSound grants room e cluster vote quorate =
    elim (Option-cases (store_partition grants quorate)) [
      | inl failed ↦ rw (failed, finish) tt
      | inr (stored, cloned) ↦
          let st = store_partition-Stores grants quorate cloned in
          rw (cloned, finish)
            (start_votes-Phase room e _ stored
              (update-AckedIn e.client e.client_leaving quorate stored cluster.client_list st)
              λ acks.
                update-LeavesQuietly e.client e.client_leaving quorate stored room e.ring_id acks
                  cluster.client_list)
    ]

-- The answer while the membership is not stable.
abbrev pub waiting_reply : FfsplitCluster → Reply
waiting_reply cluster = record {
  cluster = record cluster {
    algorithm_data = record (cluster.algorithm_data) {
      cluster_state = waiting_for_stable_membership;
    };
  };
  code = no_error;
  vote = wait_for_reply;
}

-- A decision that returns either waits, or finishes with a selected partition.
pub ffsplit_do_cases :
    (P : Reply → Type 0) (grants room : ℕ → Bool) (e : Event) (cluster : FfsplitCluster)
    (vote : Vote)
    → P (waiting_reply cluster)
    → ((q : Option NodeList) → P (finish grants room e cluster vote q))
    → {r : Reply} → ffsplit_do grants room e cluster vote ≡ some r
    → P r
unfolding ffsplit_do
ffsplit_do_cases P grants room e cluster vote waits finishes {r} h =
    elim (Bool-cases (is_membership_stable e cluster.client_list)) [
      | inl stable ↦
          elim (Option-cases (
            select_partition e cluster.client_list
              cluster.algorithm_data.quorate_partition_node_list)) [
                | inl fails ↦ cc (rw (stable, fails) at h)
                | inr (q, selected) ↦
                    subst P
                      (some_eq (finish grants room e cluster vote q) r (rw (stable, selected) at h))
                      (finishes q)
              ]
      | inr unstable ↦ subst P (some_eq (waiting_reply cluster) r (rw unstable at h)) waits
    ]

-- Whatever the state of the cluster was, a decision that returns leaves it sound: it waits for a
-- stable membership; or it sends NACKs, and an answer to one is owed; or it sends ACKs, no answer to
-- a NACK is owed, and one to an ACK is; or it waits for a change and is owed no answer. While votes
-- are being sent, the clients in the state of an ACK are in the stored partition.
pub ffsplit_do-IsSound :
    (grants room : ℕ → Bool) (e : Event) (cluster : FfsplitCluster) (vote : Vote) {r : Reply}
    → ffsplit_do grants room e cluster vote ≡ some r
    → IsSound r.cluster
ffsplit_do-IsSound grants room e cluster vote =
    ffsplit_do_cases (λ r. IsSound r.cluster) grants room e cluster vote tt
      (finish-IsSound grants room e cluster vote)
