-- ===== src/Qnetd/Messages/Join.antt =====
-- How a client joins its cluster by an init message: the node ids in the cluster stay distinct.
pub mod Outside
pub mod Ordered
use corosync_qdevice.Prelude.{
  ℕ, ◌<◌, ◌≡◌, ◌≢◌, refl, sym, ap, ◌∙◌, subst, Bool, true, false, not, Bool-cases, inl, inr, Option,
  none, some, List, [], ◌∷◌, ◌++◌, map, All, ltb, ◌==◌, if◌then◌else◌, if_either, arith, ◌&&◌,
  Option-cases,
}
use corosync_qdevice.Tlv.Types.{
  ReplyErrorCode, no_error, Vote, tlv_tie_breaker_eq, duplicate_node_id,
}
use corosync_qdevice.Msg.Types.{MsgDecoded}
use corosync_qdevice.Qnetd.Client.{Client, Cluster, Outgoing}
use corosync_qdevice.Qnetd.ClusterList.{add_client}
use corosync_qdevice.Qnetd.Algorithm.{
  Registry, Algorithm, AlgorithmReply, registered, qnetd_algorithm, Callback,
}
use corosync_qdevice.Qnetd.Messages.Server.{
  Settings, Answers, NamedCluster, Server, Handled, write_clients, write_cluster, write, connect,
  send, find_by_name, put_cluster, name_eq, call,
}
use corosync_qdevice.Qnetd.Messages.Init.{check_clients, is_ok}

abbrev pub node_ids : {D : Type 0} → List (Client D) → List ℕ
node_ids [] = []
node_ids (c ∷ rest) = c.node_id ∷ node_ids rest

abbrev pub IsAscending : List ℕ → Type 0
IsAscending [] = Unit
IsAscending (a ∷ rest) = All (λ b. a < b) rest × IsAscending rest

-- The node ids in the cluster are distinct, and stand in order.
abbrev pub IsOrdered : {D E : Type 0} → NamedCluster D E → Type 0
IsOrdered n = IsAscending (node_ids n.cluster.client_list)

All-below : (a b : ℕ) (ids : List ℕ) → a < b → All (λ i. b < i) ids → All (λ i. a < i) ids
All-below a b [] h all = tt
All-below a b (i ∷ ids) h (x, all) = (omega arith, All-below a b ids h all)

module _ {D : Type 0} where
  add_client-All :
      (P : ℕ → Type 0) (client : Client D) (clients : List (Client D))
      → P client.node_id
      → All P (node_ids clients)
      → All P (node_ids (add_client client clients))
  unfolding add_client
  add_client-All P client [] p all = (p, tt)
  add_client-All P client (c ∷ rest) p (x, all) =
      if_either (λ (l : List (Client D)). All P (node_ids l)) (ltb client.node_id c.node_id) _ _
        (p, (x, all)) (x, add_client-All P client rest p all)

  -- A client whose node id is new joins the list in order.
  pub add_client-IsAscending :
      (client : Client D) (clients : List (Client D))
      → All (λ id. client.node_id ≢ id) (node_ids clients)
      → IsAscending (node_ids clients)
      → IsAscending (node_ids (add_client client clients))
  unfolding add_client
  add_client-IsAscending client [] new ordered = (tt, tt)
  add_client-IsAscending client (c ∷ rest) (n, new) (first, ordered) =
      elim (Bool-cases (ltb client.node_id c.node_id)) [
        | inl before ↦ rw before (
            let less : client.node_id < c.node_id = ground arith in
            (
              (less, All-below client.node_id c.node_id (node_ids rest) less first),
              (first, ordered),
            ))
        | inr after ↦ rw after (
          add_client-All (λ id. c.node_id < id) client rest (ground arith) first,
          add_client-IsAscending client rest new ordered,
        )
      ]

  -- The check of a new client finds the clients of the cluster that have its node id.
  pub check_clients-new :
      (new_client : Client D) (clients : List (Client D))
      → is_ok (check_clients new_client clients) ≡ true
      → All (λ id. new_client.node_id ≢ id) (node_ids clients)
  unfolding check_clients
  check_clients-new new_client [] ok = tt
  check_clients-new new_client (c ∷ rest) ok =
      elim (Bool-cases (not (tlv_tie_breaker_eq new_client.tie_breaker c.tie_breaker))) [
        | inl differs ↦ cc (rw differs at ok)
        | inr same ↦
            elim (Bool-cases (not (new_client.decision_algorithm == c.decision_algorithm))) [
              | inl other ↦ cc (rw (same, other) at ok)
              | inr equal ↦ elim (Bool-cases (new_client.node_id == c.node_id)) [
                | inl duplicate ↦ cc (rw (same, equal, duplicate) at ok)
                | inr fresh ↦ (
                  ground arith,
                  check_clients-new new_client rest (rw (same, equal, fresh) at ok),
                )
              ]
            ]
      ]

  write_clients_ids :
      (addr : ℕ) (f : Client D → Client D) (clients : List (Client D))
      → ((c : Client D) → (f c).node_id ≡ c.node_id)
      → node_ids (write_clients addr f clients) ≡ node_ids clients
  unfolding write_clients
  write_clients_ids addr f [] keeps = refl
  write_clients_ids addr f (c ∷ rest) keeps =
      if_either
        (λ (x : Client D).
          x.node_id ∷ node_ids (write_clients addr f rest) ≡ c.node_id ∷ node_ids rest)
        (c.addr == addr) _ _
        (rw (keeps c) (ap (λ l. c.node_id ∷ l) (write_clients_ids addr f rest keeps)))
        (ap (λ l. c.node_id ∷ l) (write_clients_ids addr f rest keeps))

module _ {D E : Type 0} where
  pub write-IsOrdered :
      (f : Client D → Client D) (server : Server D E)
      → ((c : Client D) → (f c).node_id ≡ c.node_id)
      → All IsOrdered server.clusters
      → All IsOrdered (write f server).clusters
  unfolding write
  write-IsOrdered f server keeps all = go server.clusters all
    where
      go :
          (clusters : List (NamedCluster D E))
          → All IsOrdered clusters
          → All IsOrdered (map (write_cluster server.client.addr f) clusters)
      go [] all = tt
      go (n ∷ rest) (x, all) = (
        subst IsAscending (sym (write_clients_ids server.client.addr f n.cluster.client_list keeps))
            x,
        go rest all,
      )

  pub send-IsOrdered :
      (answers : Answers) (message : Outgoing) (server : Server D E)
      → All IsOrdered server.clusters
      → All IsOrdered (send answers message server).0.clusters
  unfolding send
  send-IsOrdered answers message server all =
      if_either (λ (r : Server D E × Bool). All IsOrdered r.0.clusters) answers.reply_queued _ _
        (write-IsOrdered (λ c. record c { send_buffer_list = c.send_buffer_list ++ message ∷ [] })
          server (λ c. refl) all)
        all

  pub put_cluster-IsOrdered :
      (name : List ℕ) (cluster : Cluster D E) (clusters : List (NamedCluster D E))
      → IsAscending (node_ids cluster.client_list)
      → All IsOrdered clusters
      → All IsOrdered (put_cluster name cluster clusters)
  unfolding put_cluster
  put_cluster-IsOrdered name cluster [] ordered all = tt
  put_cluster-IsOrdered name cluster (n ∷ rest) ordered (x, all) =
      if_either (All IsOrdered) (name_eq n.cluster_name name) _ _ (ordered, all)
        (x, put_cluster-IsOrdered name cluster rest ordered all)

  pub find_by_name-IsOrdered :
      (name : List ℕ) (cluster : Cluster D E) (clusters : List (NamedCluster D E))
      → find_by_name clusters name ≡ some cluster
      → All IsOrdered clusters
      → IsAscending (node_ids cluster.client_list)
  unfolding find_by_name
  find_by_name-IsOrdered name cluster [] e all = cc
  find_by_name-IsOrdered name cluster (n ∷ rest) e (x, all) =
      elim (Bool-cases (name_eq n.cluster_name name)) [
        | inl hit ↦
            let same : some n.cluster ≡ some cluster = rw hit at e in
            let found : n.cluster ≡ cluster = cc in
            subst (λ (c : Cluster D E). IsAscending (node_ids c.client_list)) found x
        | inr miss ↦ find_by_name-IsOrdered name cluster rest (rw miss at e) all
      ]
