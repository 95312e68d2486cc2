-- ===== src/Qnetd/Messages/Join/Ordered.antt =====
-- An init message of a client that is in no cluster yet keeps the node ids of every cluster distinct.
use corosync_qdevice.Prelude.{
  ℕ, ◌≡◌, refl, sym, ◌∙◌, subst, Bool, true, false, Bool-cases, inl, inr, Option, none, some, List,
  [], ◌∷◌, ◌++◌, All, ==_iff, if◌then◌else◌, if_either,
}
use corosync_qdevice.Tlv.Types.{ReplyErrorCode, internal_error, Vote}
use corosync_qdevice.Msg.Types.{MsgDecoded}
use corosync_qdevice.Qnetd.Client.{Client, Cluster}
use corosync_qdevice.Qnetd.ClusterList.{add_client}
use corosync_qdevice.Qnetd.Algorithm.{
  Registry, Algorithm, AlgorithmReply, registered, call_found, qnetd_algorithm,
}
use corosync_qdevice.Qnetd.Messages.Server.{
  Settings, Answers, NamedCluster, Server, Handled, write, find_by_name, put_cluster, name_eq, call,
  call_at, call_in, called,
}
use corosync_qdevice.Qnetd.Messages.Simple.{
  TlsCheck, passed, disconnect, error_sent, check_tls, after_check,
}
use corosync_qdevice.Qnetd.Messages.Init.{
  is_ok, check_cluster, init_values, joined, init_reply, init_called, init_joined, init_in,
  init_checked, received_init,
}
use corosync_qdevice.Qnetd.Messages.Join.{
  node_ids, IsAscending, IsOrdered, add_client-IsAscending, check_clients-new, send-IsOrdered,
  put_cluster-IsOrdered, find_by_name-IsOrdered,
}
use corosync_qdevice.Qnetd.Messages.Join.Outside.{
  IsOutside, Alike, write-Alike, check_tls-Alike, init_values-Alike,
}

-- The registered algorithms take a new client without ending the server, and leave the clients of
-- its cluster as they are but for their own data.
pub record KeepsNodes {D E : Type 0} (registry : Registry D E) : Type 0 where
  pub init_keeps :
      (n : ℕ) (a : Algorithm D E)
      → registered registry n ≡ some a
      → (client : Client D) (cluster : Cluster D E) (vote : Vote)
      → (r : AlgorithmReply D E) × (a.init client cluster vote ≡ some r)
        × (node_ids r.cluster.client_list ≡ node_ids cluster.client_list)

-- A handler that comes to an end with the clusters in order.
abbrev pub EndsOrdered : {D E : Type 0} → Handled D E → Type 0
EndsOrdered {D} {E} h = (r : Server D E × Bool) × (h ≡ some r) × All IsOrdered r.0.clusters

name_eq_refl : (name : List ℕ) → name_eq name name ≡ true
name_eq_refl [] = refl
name_eq_refl (a ∷ rest) = rw ((==_iff a a).1 refl) (name_eq_refl rest)

module _ {D E : Type 0} where
  find-put :
      (name : List ℕ) (cluster old : Cluster D E) (clusters : List (NamedCluster D E))
      → find_by_name clusters name ≡ some old
      → find_by_name (put_cluster name cluster clusters) name ≡ some cluster
  unfolding find_by_name put_cluster
  find-put name cluster old [] e = cc
  find-put name cluster old (n ∷ rest) e = elim (Bool-cases (name_eq n.cluster_name name)) [
    | inl hit ↦ rw (hit, hit) refl
    | inr miss ↦ rw (miss, miss) (find-put name cluster old rest (rw miss at e))
  ]

  find-added :
      (name : List ℕ) (cluster : Cluster D E) (clusters : List (NamedCluster D E))
      → find_by_name clusters name ≡ none
      → find_by_name (clusters ++ (record { cluster_name = name; cluster = cluster }) ∷ []) name
        ≡ some cluster
  unfolding find_by_name
  find-added name cluster [] e = rw (name_eq_refl name) refl
  find-added name cluster (n ∷ rest) e = elim (Bool-cases (name_eq n.cluster_name name)) [
    | inl hit ↦ cc (rw hit at e)
    | inr miss ↦ rw miss (find-added name cluster rest (rw miss at e))
  ]

  added-IsOrdered :
      (clusters : List (NamedCluster D E)) (n : NamedCluster D E)
      → All IsOrdered clusters
      → IsOrdered n
      → All IsOrdered (clusters ++ n ∷ [])
  added-IsOrdered [] n all x = (x, tt)
  added-IsOrdered (m ∷ rest) n (y, all) x = (y, added-IsOrdered rest n all x)

abbrev preset : {D : Type 0} → Settings → Client D → Client D
preset settings c = record c {
  keep_active_partition_tie_breaker = settings.keep_active_partition_tie_breaker;
}

module _ {D E : Type 0} (registry : Registry D E) (lawful : KeepsNodes registry) (no_data : E)
    (settings : Settings) (answers : Answers) (msg : MsgDecoded) where
  reply-EndsOrdered :
      (code : ReplyErrorCode) (there : Server D E)
      → All IsOrdered there.clusters
      → EndsOrdered (init_reply registry no_data settings answers msg (code, there))
  unfolding init_reply
  reply-EndsOrdered code there all = (
    _,
    refl,
    send-IsOrdered answers _ _
        (if_either (λ (s : Server D E). All IsOrdered s.clusters) (is_ok code) _ _ all all),
  )

  called-EndsOrdered :
      (name : List ℕ) (there : Server D E) (cluster : Cluster D E) (found : Option (Algorithm D E))
      → registered registry there.client.decision_algorithm ≡ found
      → All IsOrdered there.clusters
      → IsAscending (node_ids cluster.client_list)
      → EndsOrdered (
          init_called registry no_data settings answers msg (
            called name there
              (call_found found (λ a. a.init) there.client cluster answers.any_vote)))
  called-EndsOrdered name there cluster none e all ordered =
      reply-EndsOrdered internal_error _
        (put_cluster-IsOrdered name cluster there.clusters ordered all)
  called-EndsOrdered name there cluster (some a) e all ordered =
      let (r, runs, keeps) =
        lawful.init_keeps there.client.decision_algorithm a e there.client cluster
          answers.any_vote in
      subst
        (λ o. EndsOrdered (init_called registry no_data settings answers msg (called name there o)))
        (sym runs)
        (reply-EndsOrdered r.code _ (
          put_cluster-IsOrdered name r.cluster there.clusters
            (subst IsAscending (sym keeps) ordered) all))

  -- The client stands in its cluster, and the algorithm is called.
  call-EndsOrdered :
      (name : List ℕ) (there : Server D E) (cluster : Cluster D E)
      → there.connection.cluster ≡ some name
      → find_by_name there.clusters name ≡ some cluster
      → All IsOrdered there.clusters
      → EndsOrdered (
          init_called registry no_data settings answers msg
            (call registry (λ a. a.init) there answers.any_vote))
  unfolding call qnetd_algorithm
  call-EndsOrdered name there cluster pointer found all =
      subst
        (λ p. EndsOrdered (
          init_called registry no_data settings answers msg
            (call_at (qnetd_algorithm registry (λ a. a.init)) there answers.any_vote p)))
        (sym pointer)
        (subst
          (λ f. EndsOrdered (
            init_called registry no_data settings answers msg
              (call_in (qnetd_algorithm registry (λ a. a.init)) name there answers.any_vote f)))
          (sym found)
          (called-EndsOrdered name there cluster
            (registered registry there.client.decision_algorithm) refl all
            (find_by_name-IsOrdered name cluster there.clusters found all)))

  joined-EndsOrdered :
      (name : List ℕ) (there : Server D E) (found : Option (Cluster D E))
      → find_by_name there.clusters name ≡ found
      → is_ok (check_cluster there.client found) ≡ true
      → All IsOrdered there.clusters
      → EndsOrdered (
          init_joined registry no_data settings answers msg name there
            (joined registry no_data settings answers msg name there found))
  joined-EndsOrdered name there none e ok all =
      let cluster : Cluster D E = record {
        client_list = add_client there.client [];
        algorithm_data = no_data;
      } in
      let added : NamedCluster D E = record { cluster_name = name; cluster = cluster } in
      if_either (λ o. EndsOrdered (init_joined registry no_data settings answers msg name there o))
        answers.cluster_granted _ _
        (call-EndsOrdered name _ cluster refl (find-added name cluster there.clusters e)
          (added-IsOrdered there.clusters added all (add_client-IsAscending there.client [] tt tt)))
        (reply-EndsOrdered internal_error there all)
  joined-EndsOrdered name there (some cluster) e ok all =
      let there_list = add_client there.client cluster.client_list in
      let bigger = record cluster { client_list = there_list } in
      call-EndsOrdered name _ bigger refl (find-put name bigger cluster there.clusters e) (
        put_cluster-IsOrdered name bigger there.clusters
          (add_client-IsAscending there.client cluster.client_list
            (check_clients-new there.client cluster.client_list ok)
            (find_by_name-IsOrdered name cluster there.clusters e all))
          all)

  in-EndsOrdered :
      (name : List ℕ) (there : Server D E)
      → All IsOrdered (write (preset settings) there).clusters
      → EndsOrdered (init_in registry no_data settings answers msg (some name) there)
  in-EndsOrdered name there all =
      let set = write (preset settings) there in
      let found = find_by_name set.clusters name in
      elim (Bool-cases (is_ok (check_cluster set.client found))) [
        | inl ok ↦
            subst
              (λ b. EndsOrdered (
                if b
                then init_joined registry no_data settings answers msg name set
                    (joined registry no_data settings answers msg name set found)
                else init_reply registry no_data settings answers msg
                    (check_cluster set.client found, set)))
              (sym ok) (joined-EndsOrdered name set found refl ok all)
        | inr refused ↦
            subst
              (λ b. EndsOrdered (
                if b
                then init_joined registry no_data settings answers msg name set
                    (joined registry no_data settings answers msg name set found)
                else init_reply registry no_data settings answers msg
                    (check_cluster set.client found, set)))
              (sym refused) (reply-EndsOrdered (check_cluster set.client found) set all)
      ]

  module _ (server : Server D E) (name : List ℕ)
      (named : server.connection.cluster_name ≡ some name)
      (out : IsOutside server.client.addr server.clusters)
      (all : All IsOrdered server.clusters) where
    IsOrdered-there : (there : Server D E) → Alike server there → All IsOrdered there.clusters
    IsOrdered-there there a = subst (All IsOrdered) (sym a.same_clusters) all

    checked-EndsOrdered :
        (s : ReplyErrorCode × Server D E)
        → Alike server s.1
        → EndsOrdered (init_checked registry no_data settings answers msg s)
    unfolding init_checked
    checked-EndsOrdered (code, there) a =
        if_either EndsOrdered (is_ok code) _ _
          (subst (λ n. EndsOrdered (init_in registry no_data settings answers msg n there))
            (sym (a.same_name ∙ named))
            (in-EndsOrdered name there (
              IsOrdered-there (write (preset settings) there)
                (write-Alike server out (preset settings) there (λ c. refl) a))))
          (reply-EndsOrdered code there (IsOrdered-there there a))

    after_check-EndsOrdered :
        (r : Server D E × TlsCheck)
        → Alike server r.0
        → EndsOrdered (
            after_check settings answers msg r (λ checked.
              init_checked registry no_data settings answers msg
                (init_values registry no_data settings answers msg checked)))
    after_check-EndsOrdered (checked, passed) a =
        checked-EndsOrdered (init_values registry no_data settings answers msg checked)
          (init_values-Alike server out registry no_data settings answers msg checked a)
    after_check-EndsOrdered (checked, disconnect) a =
        ((checked, false), refl, IsOrdered-there checked a)
    after_check-EndsOrdered (checked, error_sent) a =
        ((checked, true), refl, IsOrdered-there checked a)

  -- An init message of a client that has a cluster name and is in no cluster is handled without
  -- ending the server, and if the node ids of the clients are distinct and in order in every
  -- cluster before, they are so afterwards, whether the client joins or is refused. The registered
  -- algorithms take a new client without ending the server or changing the clients' node ids.
  pub received_init-IsOrdered :
      (server : Server D E) (name : List ℕ)
      → server.connection.cluster_name ≡ some name
      → IsOutside server.client.addr server.clusters
      → All IsOrdered server.clusters
      → EndsOrdered (received_init registry no_data settings answers msg server)
  unfolding received_init
  received_init-IsOrdered server name named out all =
      after_check-EndsOrdered server name named out all (check_tls settings answers msg server)
        (check_tls-Alike server out settings answers msg)
