-- ===== src/Qnetd/Ffsplit/Callbacks/Leaving.antt =====
-- A client that disconnects, and its removal from the cluster.
use corosync_qdevice.Prelude.{
  ℕ, ◌≡◌, ◌≢◌, refl, ap, subst, Bool, true, false, ◌⊎◌, inl, inr, Option, some, List, [], ◌∷◌, ◌==◌,
  if◌then◌else◌, arith, ◌∙◌, sym, All, Bool-cases, Option-cases, ==_iff,
}
use corosync_qdevice.Tlv.Types.{Vote, no_change}
use corosync_qdevice.NodeList.{NodeList}
use corosync_qdevice.Qnetd.ClusterList.{del_client}
use corosync_qdevice.Qnetd.Client.{qnetd_cluster_size}
use corosync_qdevice.Qnetd.Ffsplit.Data.{
  Event, FfsplitClient, FfsplitCluster, ClusterState, ClientState, waiting_for_stable_membership,
  sending_nacks, sending_acks,
}
use corosync_qdevice.Qnetd.Ffsplit.Votes.{
  update_nodes_state, next_state, no_clients_in_sending_state,
}
use corosync_qdevice.Qnetd.Ffsplit.Votes.Counts.{
  owing, state, SameStates, SameStates-trans, AckedIn, send_votes_lem,
}
use corosync_qdevice.Qnetd.Ffsplit.Do.{
  Reply, ffsplit_do, finish, apply_partition, start_votes, store_partition,
}
use corosync_qdevice.Qnetd.Ffsplit.Do.Phase.{Phase, IsSound}
use corosync_qdevice.Qnetd.Ffsplit.Do.Sound.{
  ffsplit_do-IsSound, ffsplit_do_cases, not_sending, update-LeavesQuietly, quiet-SameStates,
}
use corosync_qdevice.Qnetd.Ffsplit.Select.Best.{AllConfigured}
use corosync_qdevice.Qnetd.Ffsplit.Do.Runs.{ffsplit_do_runs}
use corosync_qdevice.Qnetd.Ffsplit.Callbacks.{leave_event, free_last, client_disconnect}

-- The client at this address owes nothing.
abbrev IsIdleAt : ℕ → List FfsplitClient → Type 0
IsIdleAt addr = All (λ c. c.addr ≡ addr → state c ≡ ClientState.waiting_for_change)

-- Who stands in the list at the address of the client has the node id of the client.
abbrev pub Identifies : FfsplitClient → List FfsplitClient → Type 0
Identifies client = All (λ c. c.addr ≡ client.addr → c.node_id ≡ client.node_id)

del_client-owing :
    (b : Bool) (addr : ℕ) (cs : List FfsplitClient)
    → IsIdleAt addr cs
    → owing b (del_client addr cs) ≡ owing b cs
unfolding del_client no_clients_in_sending_state
del_client-owing b addr [] idle = refl
del_client-owing b addr (c ∷ cs) idle = elim (Bool-cases (c.addr == addr)) [
  | inl hit ↦ rw (hit, idle.0 ((==_iff _ _).0 hit), not_sending b) (omega arith)
  | inr miss ↦ rw miss (omega (arith, del_client-owing b addr cs idle.1))
]

del_client-AckedIn :
    (list : NodeList) (addr : ℕ) (cs : List FfsplitClient)
    → AckedIn list cs
    → AckedIn list (del_client addr cs)
unfolding del_client
del_client-AckedIn list addr [] a = tt
del_client-AckedIn list addr (c ∷ cs) a = elim (Bool-cases (c.addr == addr)) [
  | inl hit ↦ rw hit a.1
  | inr miss ↦ rw miss (a.0, del_client-AckedIn list addr cs a.1)
]

del_client-Phase :
    (phase : ClusterState) (list : NodeList) (addr : ℕ) (cs : List FfsplitClient)
    → IsIdleAt addr cs
    → Phase phase list cs
    → Phase phase list (del_client addr cs)
del_client-Phase ClusterState.waiting_for_change list addr cs idle p =
    (del_client-owing false addr cs idle ∙ p.0, del_client-owing true addr cs idle ∙ p.1)
del_client-Phase waiting_for_stable_membership list addr cs idle p = tt
del_client-Phase sending_nacks list addr cs idle p =
    (omega (arith, p.0, del_client-owing false addr cs idle), del_client-AckedIn list addr cs p.1)
del_client-Phase sending_acks list addr cs idle p = (
  omega (arith, p.0, del_client-owing false addr cs idle),
  omega (arith, p.1, del_client-owing true addr cs idle),
  del_client-AckedIn list addr cs p.2,
)

either_list :
    (b : Bool) (cs ns ms : List FfsplitClient) (s t : ClusterState)
    → SameStates cs ns
    → SameStates cs ms
    → let out : List FfsplitClient × ClusterState = if b then (ms, s) else (ns, t) in
      SameStates cs out.0
either_list true cs ns ms s t n m = m
either_list false cs ns ms s t n m = n

-- The votes move nobody to another state.
start_votes-SameStates :
    (room : ℕ → Bool) (e : Event) (q : Option NodeList) (cs : List FfsplitClient)
    → let updated = update_nodes_state e.client e.client_leaving q cs in
      SameStates updated (start_votes room e updated).0
unfolding start_votes
start_votes-SameStates room e q cs =
    let updated = update_nodes_state e.client e.client_leaving q cs in
    let quiet =
      λ (acks : Bool). update-LeavesQuietly e.client e.client_leaving q [] room e.ring_id acks cs in
    let (nacked, _) =
      send_votes_lem room e.client e.client_leaving e.ring_id false updated (quiet false) in
    let (acked, _) =
      send_votes_lem room e.client e.client_leaving e.ring_id true _
        (quiet-SameStates room e.client e.client_leaving e.ring_id true _ _ nacked (quiet true)) in
    either_list _ _ _ _ _ _ nacked (SameStates-trans _ _ _ nacked acked)

leaving_state :
    (client : FfsplitClient) (q : Option NodeList) (c : FfsplitClient)
    → c.node_id ≡ client.node_id
    → next_state client true q c ≡ ClientState.waiting_for_change
leaving_state client q c e = ground arith

update-IsIdleAt :
    (client : FfsplitClient) (q : Option NodeList) (cs : List FfsplitClient)
    → Identifies client cs
    → IsIdleAt client.addr (update_nodes_state client true q cs)
unfolding update_nodes_state
update-IsIdleAt client q [] i = tt
update-IsIdleAt client q (c ∷ cs) i =
    (λ e. leaving_state client q c (i.0 e), update-IsIdleAt client q cs i.1)

IsIdleAt-SameStates :
    (addr : ℕ) (cs ds : List FfsplitClient) → SameStates cs ds → IsIdleAt addr cs → IsIdleAt addr ds
IsIdleAt-SameStates addr [] [] s i = tt
IsIdleAt-SameStates addr (c ∷ cs) (d ∷ ds) s i =
    (λ e. sym s.0 ∙ i.0 (s.2 ∙ e), IsIdleAt-SameStates addr cs ds s.3 i.1)
IsIdleAt-SameStates addr [] (d ∷ ds) s i = absurd s
IsIdleAt-SameStates addr (c ∷ cs) [] s i = absurd s

-- After a decision without the client: either it waits for a stable membership, or the client owes
-- no answer.
finish-leaving :
    (grants room : ℕ → Bool) (e : Event) (cluster : FfsplitCluster) (vote : Vote)
    (q : Option NodeList)
    → e.client_leaving ≡ true
    → Identifies e.client cluster.client_list
    → let r = finish grants room e cluster vote q in
      (r.cluster.algorithm_data.cluster_state ≡ waiting_for_stable_membership)
      ⊎ IsIdleAt e.client.addr r.cluster.client_list
unfolding finish apply_partition
finish-leaving grants room e cluster vote q leaving i =
    elim (Option-cases (store_partition grants q)) [
      | inl failed ↦ rw (failed, finish) (inl refl)
      | inr (stored, cloned) ↦
          rw (cloned, finish)
            (inr (
              IsIdleAt-SameStates e.client.addr _ _
                (start_votes-SameStates room e q cluster.client_list)
                (rw leaving (update-IsIdleAt e.client q cluster.client_list i))))
    ]

some_eq : (a b : FfsplitCluster) → some a ≡ some b → a ≡ b
some_eq a b e = cc

-- What holds of a cluster once a client has been left out of the decision.
abbrev Forgotten : ℕ → FfsplitCluster → Type 0
Forgotten addr c =
    Phase c.algorithm_data.cluster_state c.algorithm_data.quorate_partition_node_list
      (del_client addr c.client_list)

forget :
    (addr : ℕ) (c : FfsplitCluster)
    → IsSound c
    → (c.algorithm_data.cluster_state ≡ waiting_for_stable_membership) ⊎ IsIdleAt addr c.client_list
    → Forgotten addr c
forget addr c s (inl waits) = rw waits tt
forget addr c s (inr idle) =
    del_client-Phase c.algorithm_data.cluster_state c.algorithm_data.quorate_partition_node_list
      addr c.client_list idle s

module _ (grants room : ℕ → Bool) (client : FfsplitClient) (cluster : FfsplitCluster) where
  -- The data of the cluster is freed only with its last client.
  others_stay :
      (d c : FfsplitCluster)
      → some (free_last grants room client cluster d) ≡ some c
      → qnetd_cluster_size c.client_list ≢ 1
      → d ≡ c
  others_stay d c e others = elim (Bool-cases (qnetd_cluster_size d.client_list == 1)) [
    | inl last ↦
        let same = ap (λ (x : FfsplitCluster). x.client_list) (some_eq _ c (rw last at e)) in
        absurd (others (subst (λ cs. qnetd_cluster_size cs ≡ 1) same ((==_iff _ _).0 last)))
    | inr more ↦ some_eq d c (rw more at e)
  ]

  decision-Forgotten :
      {r : Reply}
      → Identifies client cluster.client_list
      → ffsplit_do grants room (leave_event grants room client cluster) cluster no_change ≡ some r
      → Forgotten client.addr r.cluster
  decision-Forgotten {r} i h =
      let left : (r.cluster.algorithm_data.cluster_state ≡ waiting_for_stable_membership)
          ⊎ IsIdleAt client.addr r.cluster.client_list =
        ffsplit_do_cases
          (λ r.
            (r.cluster.algorithm_data.cluster_state ≡ waiting_for_stable_membership)
            ⊎ IsIdleAt client.addr r.cluster.client_list)
          grants room _ cluster no_change (inl refl)
          (λ q. finish-leaving grants room _ cluster no_change q refl i) h in
      forget client.addr r.cluster (ffsplit_do-IsSound grants room _ cluster no_change h) left

  -- If the callback returns, and it was not the last client, its removal leaves a sound cluster.
  pub client_disconnect-IsSound :
      {c : FfsplitCluster}
      → client_disconnect grants room client cluster false ≡ some c
      → Identifies client cluster.client_list
      → qnetd_cluster_size c.client_list ≢ 1
      → IsSound (record c { client_list = del_client client.addr c.client_list })
  unfolding client_disconnect
  client_disconnect-IsSound {c} h i others =
      elim (Option-cases
        (ffsplit_do grants room (leave_event grants room client cluster) cluster no_change)) [
          | inl fails ↦ cc (rw fails at h)
          | inr (r, decided) ↦
              subst (Forgotten client.addr) (others_stay r.cluster c (rw decided at h) others)
                (decision-Forgotten i decided)
        ]

  -- A client disconnects from a server that is not going down. If every other client of the cluster
  -- that takes part in the decision has a configuration list that is not empty, the callback returns
  -- with no failed assertion; and after the removal of the client, unless it was the last one, the
  -- state of the cluster again fits the answers that the remaining clients owe. Each entry of the
  -- list at the address of the client has the node id of the client.
  pub client_disconnect_runs :
      AllConfigured (leave_event grants room client cluster) cluster.client_list
      → Identifies client cluster.client_list
      → (c : FfsplitCluster) × (client_disconnect grants room client cluster false ≡ some c)
        × ((qnetd_cluster_size c.client_list ≡ 1)
            ⊎ IsSound (record c { client_list = del_client client.addr c.client_list }))
  unfolding client_disconnect
  client_disconnect_runs configured i =
      let e = leave_event grants room client cluster in
      let (r, runs) = ffsplit_do_runs grants room e cluster no_change configured in
      let c = free_last grants room client cluster r.cluster in
      let returns : client_disconnect grants room client cluster false ≡ some c = rw runs refl in
      (
        c,
        returns,
        elim (Bool-cases (qnetd_cluster_size c.client_list == 1)) [
          | inl last ↦ inl ((==_iff _ _).0 last)
          | inr more ↦ inr (client_disconnect-IsSound returns i (λ one. ground arith))
        ],
      )
