-- ===== src/Qnetd/Ffsplit/Callbacks/Safety.antt =====
-- The states that a cluster reaches by the steps of Protocol.
use corosync_qdevice.Prelude.{
  ℕ, ◌+◌, ◌<◌, ◌≡◌, ◌≢◌, refl, ap, sym, ◌∙◌, subst, Bool, true, false, List, [], ◌∷◌, ◌==◌, ltb,
  arith, All, Bool-cases, ◌⊎◌, inl, inr, ==-ne, ==_iff,
}
use corosync_qdevice.Tlv.Types.{ReplyErrorCode, no_error}
use corosync_qdevice.NodeList.{NodeList}
use corosync_qdevice.Qnetd.ClusterList.{add_client}
use corosync_qdevice.Qnetd.Client.{qnetd_cluster_size}
use corosync_qdevice.Qnetd.Ffsplit.Data.{
  FfsplitClient, FfsplitCluster, ClusterState, sending_nacks, sending_acks,
  waiting_for_stable_membership,
}
use corosync_qdevice.Qnetd.Ffsplit.Votes.{no_clients_in_sending_state}
use corosync_qdevice.Qnetd.Ffsplit.Votes.Counts.{
  owing, SameStates, owing-SameStates, AckedIn, AckedIn-SameStates,
}
use corosync_qdevice.Qnetd.Ffsplit.Do.Phase.{Phase, IsSound}
use corosync_qdevice.Qnetd.Ffsplit.Do.Sound.{not_sending}
use corosync_qdevice.Qnetd.Ffsplit.Callbacks.{
  update_client, init_client, init_client_data, client_init,
}
use corosync_qdevice.Qnetd.Ffsplit.Callbacks.Replies.{
  config_node_list_received_cases, membership_node_list_received_cases,
  heuristics_change_received_cases, vote_info_reply_received-IsSound,
}
use corosync_qdevice.Qnetd.Ffsplit.Callbacks.Leaving.{client_disconnect-IsSound}
use corosync_qdevice.Qnetd.Ffsplit.Callbacks.Protocol.{
  KeepsData, Step, config_received, membership_received, heuristics_received, vote_replied, stored,
  joined, left, Reach, started, stepped,
}

-- A phase depends on the counts and on who is acknowledged only.
Phase-of :
    (p : ClusterState) (q : NodeList) (cs ds : List FfsplitClient)
    → ((b : Bool) → owing b ds ≡ owing b cs)
    → (AckedIn q cs → AckedIn q ds)
    → Phase p q cs
    → Phase p q ds
Phase-of ClusterState.waiting_for_change q cs ds n a h = (n false ∙ h.0, n true ∙ h.1)
Phase-of waiting_for_stable_membership q cs ds n a h = tt
Phase-of sending_nacks q cs ds n a h = (rw (n false) h.0, a h.1)
Phase-of sending_acks q cs ds n a h = (n false ∙ h.0, rw (n true) h.1, a h.2)

update_client-SameStates :
    (addr : ℕ) (f : FfsplitClient → FfsplitClient) (cs : List FfsplitClient)
    → KeepsData f
    → SameStates cs (update_client addr f cs)
unfolding update_client
update_client-SameStates addr f [] k = tt
update_client-SameStates addr f (c ∷ cs) k = elim (Bool-cases (c.addr == addr)) [
  | inl hit ↦ let (s, i, a) = k c in rw hit (s, i, a, update_client-SameStates addr f cs k)
  | inr miss ↦ rw miss (refl, refl, refl, update_client-SameStates addr f cs k)
]

abbrev pub set_init : FfsplitClient → FfsplitClient
set_init c = record c { algorithm_data = init_client_data }

module _ (client : FfsplitClient) where
  abbrev pub AreOthers : List FfsplitClient → Type 0
  AreOthers = All (λ x. x.addr ≢ client.addr)

  abbrev pub with_client : List FfsplitClient → List FfsplitClient
  with_client cs = update_client client.addr set_init (add_client client cs)

  others_kept :
      (cs : List FfsplitClient) → AreOthers cs → update_client client.addr set_init cs ≡ cs
  unfolding update_client
  others_kept [] o = refl
  others_kept (c ∷ cs) o = rw (==-ne c.addr client.addr o.0) (ap (◌∷◌ c) (others_kept cs o.1))

  same_addr : (client.addr == client.addr) ≡ true
  same_addr = (==_iff _ _).1 refl

  with_client_nil : with_client [] ≡ set_init client ∷ []
  unfolding add_client update_client
  with_client_nil = rw same_addr

  with_client_before :
      (c : FfsplitClient) (cs : List FfsplitClient)
      → AreOthers (c ∷ cs)
      → ltb client.node_id c.node_id ≡ true
      → with_client (c ∷ cs) ≡ set_init client ∷ c ∷ cs
  unfolding add_client update_client
  with_client_before c cs o h =
      rw (h, same_addr, ==-ne c.addr client.addr o.0)
        (ap (λ (r : List FfsplitClient). set_init client ∷ c ∷ r) (others_kept cs o.1))

  with_client_after :
      (c : FfsplitClient) (cs : List FfsplitClient)
      → AreOthers (c ∷ cs)
      → ltb client.node_id c.node_id ≡ false
      → with_client (c ∷ cs) ≡ c ∷ with_client cs
  unfolding add_client update_client
  with_client_after c cs o h = rw h (rw (==-ne c.addr client.addr o.0) refl)

  pub with_client-owing :
      (b : Bool) (cs : List FfsplitClient) → AreOthers cs → owing b (with_client cs) ≡ owing b cs
  unfolding no_clients_in_sending_state
  with_client-owing b [] o = rw (with_client_nil, not_sending b) (omega arith)
  with_client-owing b (c ∷ cs) o = elim (Bool-cases (ltb client.node_id c.node_id)) [
    | inl before ↦ rw (with_client_before c cs o before, not_sending b) (omega arith)
    | inr after ↦ rw (with_client_after c cs o after) (omega (arith, with_client-owing b cs o.1))
  ]

  with_client-AckedIn :
      (q : NodeList) (cs : List FfsplitClient)
      → AreOthers cs
      → AckedIn q cs
      → AckedIn q (with_client cs)
  with_client-AckedIn q [] o a = rw with_client_nil (λ e. cc, tt)
  with_client-AckedIn q (c ∷ cs) o a = elim (Bool-cases (ltb client.node_id c.node_id)) [
    | inl before ↦ rw (with_client_before c cs o before) (λ e. cc, a)
    | inr after ↦ rw (with_client_after c cs o after) (a.0, with_client-AckedIn q cs o.1 a.1)
  ]

  -- A client's own initialisation either succeeds, or reports an internal error.
  init_client-ok :
      (granted : Bool) (c d : FfsplitCluster)
      → (d, no_error) ≡ init_client granted client c
      → d ≡ record c { client_list = update_client client.addr set_init c.client_list }
  unfolding init_client
  init_client-ok true c d e = ap (λ (x : FfsplitCluster × ReplyErrorCode). x.0) e
  init_client-ok false c d e = cc (ap (λ (x : FfsplitCluster × ReplyErrorCode). x.1) e)

size-add_client :
    (client : FfsplitClient) (cs : List FfsplitClient)
    → qnetd_cluster_size (add_client client cs) ≡ qnetd_cluster_size cs + 1
unfolding add_client qnetd_cluster_size
size-add_client client [] = refl
size-add_client client (c ∷ cs) = ground (arith, size-add_client client cs)

-- A client that joins others is one more entry of the list, and nothing else changes.
pub joined_lem :
    (gc g : Bool) (client : FfsplitClient) (c d : FfsplitCluster)
    → 0 < qnetd_cluster_size c.client_list
    → (d, no_error)
      ≡ client_init gc g client (record c { client_list = add_client client c.client_list })
    → d ≡ record c { client_list = with_client client c.client_list }
unfolding client_init
joined_lem gc g client c d more e =
    let many : (qnetd_cluster_size (add_client client c.client_list) == 1) ≡ false =
      ground (arith, size-add_client client c.client_list) in
    init_client-ok client g _ d (rw many at e)

joined-IsSound :
    (gc g : Bool) (client : FfsplitClient) (c d : FfsplitCluster)
    → AreOthers client c.client_list
    → 0 < qnetd_cluster_size c.client_list
    → (d, no_error)
      ≡ client_init gc g client (record c { client_list = add_client client c.client_list })
    → IsSound c
    → IsSound d
joined-IsSound gc g client c d o more e s =
    let there : IsSound (record c { client_list = with_client client c.client_list }) =
      Phase-of c.algorithm_data.cluster_state c.algorithm_data.quorate_partition_node_list
        c.client_list _ (λ b. with_client-owing client b c.client_list o)
        (with_client-AckedIn client _ c.client_list o) s in
    subst IsSound (sym (joined_lem gc g client c d more e)) there

pub started-IsSound :
    (client : FfsplitClient) (c before : FfsplitCluster)
    → (c, no_error)
      ≡ client_init true true client (record before { client_list = add_client client [] })
    → IsSound c
unfolding client_init init_client add_client update_client qnetd_cluster_size
    no_clients_in_sending_state
started-IsSound client c before e =
    subst IsSound (ap (λ (x : FfsplitCluster × ReplyErrorCode). x.0) (sym e))
      (with_client-owing client false [] tt, with_client-owing client true [] tt)

kept-IsSound :
    {c : FfsplitCluster} (d : FfsplitCluster) → (d ≡ c) ⊎ IsSound d → IsSound c → IsSound d
kept-IsSound d (inl same) s = subst IsSound (sym same) s
kept-IsSound d (inr sound) s = sound

pub Step-IsSound : {c d : FfsplitCluster} → Step c d → IsSound c → IsSound d
Step-IsSound (config_received grants room client nodes initial vote r m h e) s =
    rw e
      (kept-IsSound _ (config_node_list_received_cases grants room client _ nodes initial vote h) s)
Step-IsSound (membership_received grants room client ring_id nodes heuristics vote r m h e) s =
    rw e (
      kept-IsSound _
        (membership_node_list_received_cases grants room client _ ring_id nodes heuristics vote h)
        s)
Step-IsSound (heuristics_received grants room client heuristics vote r m h e) s =
    rw e
      (kept-IsSound _ (heuristics_change_received_cases grants room client _ heuristics vote h) s)
Step-IsSound (vote_replied grants room client seq m e) s =
    rw e (vote_info_reply_received-IsSound grants room client _ seq s)
Step-IsSound {c} (stored addr f k e) s =
    let same = update_client-SameStates addr f c.client_list k in
    rw e (
      Phase-of c.algorithm_data.cluster_state c.algorithm_data.quorate_partition_node_list
        c.client_list _ (λ b. sym (owing-SameStates b _ _ same)) (AckedIn-SameStates _ _ _ same) s)
Step-IsSound {c} {d} (joined gc g client o more e) s = joined-IsSound gc g client c d o more e s
Step-IsSound (left grants room client r m i h others e) s =
    rw e (client_disconnect-IsSound grants room client _ h i others)

-- In every state that a cluster reaches before the server goes down, as long as the initialisation of
-- each client succeeds and no client that is initialised sends an init message again: while NACKs are being sent some client still owes an answer
-- to one; while ACKs are being sent no client owes an answer to a NACK, and some client owes one to
-- an ACK; in both, the clients in the state of an ACK are nodes of the stored quorate partition; and
-- a cluster that waits for a change is owed no answer. Of a cluster that waits for a stable
-- membership nothing is said.
pub Reach-IsSound : {c : FfsplitCluster} → Reach c → IsSound c
Reach-IsSound {c} (started client before e) = started-IsSound client c before e
Reach-IsSound (stepped r st) = Step-IsSound st (Reach-IsSound r)
