-- ===== src/Qnetd/Ffsplit/Callbacks/Shutdown.antt =====
-- What is left of the order of the votes when the server goes down, and when a client that is
-- initialised sends an init message again, which overwrites its node id.
use corosync_qdevice.Prelude.{
  ℕ, ◌≡◌, sym, subst, Bool, true, ◌⊎◌, inl, inr, some, [], ◌==◌, arith, Bool-cases, In,
}
use corosync_qdevice.Tlv.Types.{no_error}
use corosync_qdevice.Qnetd.ClusterList.{add_client, del_client}
use corosync_qdevice.Qnetd.Client.{qnetd_cluster_size}
use corosync_qdevice.Qnetd.Ffsplit.Data.{FfsplitClient, FfsplitCluster}
use corosync_qdevice.Qnetd.Ffsplit.Votes.Counts.{state}
use corosync_qdevice.Qnetd.Ffsplit.Do.Phase.{IsSound}
use corosync_qdevice.Qnetd.Ffsplit.Callbacks.{update_client, client_init, client_disconnect}
use corosync_qdevice.Qnetd.Ffsplit.Callbacks.Replies.{
  config_node_list_received_cases, membership_node_list_received_cases,
  heuristics_change_received_cases,
}
use corosync_qdevice.Qnetd.Ffsplit.Callbacks.Leaving.{client_disconnect-IsSound}
use corosync_qdevice.Qnetd.Ffsplit.Callbacks.Safety.{with_client-owing, joined_lem}
use corosync_qdevice.Qnetd.Ffsplit.Callbacks.Careful.{
  IsCareful, IsSound-IsCareful, fewer-IsCareful, owing-del_client, owing-update_client,
  reply-IsCareful,
}
use corosync_qdevice.Qnetd.Ffsplit.Callbacks.Protocol.{
  Reach, started, stepped, Step, config_received, membership_received, heuristics_received,
  vote_replied, stored, joined, left,
}

kept-IsCareful :
    {c : FfsplitCluster} (d : FfsplitCluster) → (d ≡ c) ⊎ IsSound d → IsCareful c → IsCareful d
kept-IsCareful d (inl same) s = subst IsCareful (sym same) s
kept-IsCareful d (inr sound) s = IsSound-IsCareful d sound

Step-IsCareful : {c d : FfsplitCluster} → Step c d → IsCareful c → IsCareful d
Step-IsCareful (config_received grants room client nodes initial vote r m h e) s =
    rw e (
      kept-IsCareful _ (config_node_list_received_cases grants room client _ nodes initial vote h)
        s)
Step-IsCareful (membership_received grants room client ring_id nodes heuristics vote r m h e) s =
    rw e (
      kept-IsCareful _
        (membership_node_list_received_cases grants room client _ ring_id nodes heuristics vote h)
        s)
Step-IsCareful (heuristics_received grants room client heuristics vote r m h e) s =
    rw e
      (kept-IsCareful _ (heuristics_change_received_cases grants room client _ heuristics vote h) s)
Step-IsCareful (vote_replied grants room client seq m e) s =
    rw e (reply-IsCareful grants room client _ seq s)
Step-IsCareful {c} (stored addr f k e) s = rw e (
    fewer-IsCareful c _
      (λ b. omega (arith, owing-update_client b addr f c.client_list (λ x. (k x).0))) s)
Step-IsCareful {c} {d} (joined gc g client o more e) s =
    subst IsCareful (sym (joined_lem gc g client c d more e))
      (fewer-IsCareful c _ (λ b. omega (arith, with_client-owing client b c.client_list o)) s)
Step-IsCareful (left grants room client r m i h others e) s =
    rw e (IsSound-IsCareful _ (client_disconnect-IsSound grants room client _ h i others))

-- A step, or one of the two that `Step` leaves out: a client that is initialised sends an init message
-- again, which overwrites what the server stores of it and not the algorithm's own data; and a client
-- is removed as the server goes down.
pub data AnyStep (c : FfsplitCluster) (d : FfsplitCluster) : Type 0 where
  in_order : Step c d → AnyStep c d
  initialised_again :
      (addr : ℕ) (f : FfsplitClient → FfsplitClient)
      → ((x : FfsplitClient) → state x ≡ state (f x))
      → d ≡ record c { client_list = update_client addr f c.client_list }
      → AnyStep c d
  removed :
      (grants room : ℕ → Bool) (client : FfsplitClient) (r : FfsplitCluster)
      → In client c.client_list
      → client_disconnect grants room client c true ≡ some r
      → d ≡ record r { client_list = del_client client.addr r.client_list }
      → AnyStep c d

pub data AnyReach : FfsplitCluster → Type 0 where
  begun :
      {c : FfsplitCluster} (client : FfsplitClient) (before : FfsplitCluster)
      → (c, no_error)
        ≡ client_init true true client (record before { client_list = add_client client [] })
      → AnyReach c
  then_step : {c d : FfsplitCluster} → AnyReach c → AnyStep c d → AnyReach d

some_eq : (a b : FfsplitCluster) → some a ≡ some b → a ≡ b
some_eq a b e = cc

removed-IsCareful :
    (grants room : ℕ → Bool) (client : FfsplitClient) (c r : FfsplitCluster)
    → client_disconnect grants room client c true ≡ some r
    → IsCareful c
    → IsCareful (record r { client_list = del_client client.addr r.client_list })
unfolding client_disconnect
removed-IsCareful grants room client c r h s =
    let fewer : IsCareful (record c { client_list = del_client client.addr c.client_list }) =
      fewer-IsCareful c _ (λ b. owing-del_client b client.addr c.client_list) s in
    elim (Bool-cases (qnetd_cluster_size c.client_list == 1)) [
      | inl last ↦
          subst
            (λ (x : FfsplitCluster).
              IsCareful (record x { client_list = del_client client.addr x.client_list }))
            (some_eq _ r (rw last at h)) fewer
      | inr more ↦
          subst
            (λ (x : FfsplitCluster).
              IsCareful (record x { client_list = del_client client.addr x.client_list }))
            (some_eq _ r (rw more at h)) fewer
    ]

pub AnyStep-IsCareful : {c d : FfsplitCluster} → AnyStep c d → IsCareful c → IsCareful d
AnyStep-IsCareful (in_order st) s = Step-IsCareful st s
AnyStep-IsCareful {c} (initialised_again addr f k e) s =
    rw e (fewer-IsCareful c _ (λ b. omega (arith, owing-update_client b addr f c.client_list k)) s)
AnyStep-IsCareful {c} (removed grants room client r m h e) s =
    rw e (removed-IsCareful grants room client c r h s)

pub Reach-AnyReach : {c : FfsplitCluster} → Reach c → AnyReach c
Reach-AnyReach (started client before e) = begun client before e
Reach-AnyReach (stepped r st) = then_step (Reach-AnyReach r) (in_order st)
