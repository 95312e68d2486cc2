-- ===== src/Qnetd/Ffsplit/Registered.antt =====
-- The fifty-fifty split algorithm as the server registers it (`qnetd_algo_ffsplit` in
-- qdevices/qnetd-algo-ffsplit.c). `grants` and `room` answer the calls of one callback.
use corosync_qdevice.Prelude.{
  ℕ, ◌≡◌, refl, ap, subst, Bool, Bool-cases, inl, inr, Option, none, some, List, [], ◌∷◌, ◌==◌, ltb,
  if◌then◌else◌, if_either,
}
use corosync_qdevice.Tlv.Types.{ReplyErrorCode, Vote}
use corosync_qdevice.Qnetd.Client.{qnetd_cluster_size}
use corosync_qdevice.Qnetd.Algorithm.{Registry, Algorithm, AlgorithmReply, registered}
use corosync_qdevice.Qnetd.Ffsplit.Data.{FfsplitClient, FfsplitCluster, ClientData, ClusterData}
use corosync_qdevice.Qnetd.Ffsplit.Do.{Reply}
use corosync_qdevice.Qnetd.Ffsplit.Callbacks.{
  update_client, init_client, client_init, config_node_list_received, membership_node_list_received,
  quorum_node_list_received, ask_for_vote_received, vote_info_reply_received,
  heuristics_change_received,
}
use corosync_qdevice.Qnetd.Messages.Join.{node_ids}
use corosync_qdevice.Qnetd.Messages.Join.Ordered.{KeepsNodes}

abbrev pub given_reply : Option Reply → Option (AlgorithmReply ClientData ClusterData)
given_reply none = none
given_reply (some r) = some (record { cluster = r.cluster; code = r.code; vote = r.vote })

abbrev pub coded_reply :
    FfsplitCluster × ReplyErrorCode → Vote → Option (AlgorithmReply ClientData ClusterData)
coded_reply (cluster, code) vote = some (record { cluster = cluster; code = code; vote = vote })

unfoldable pub qnetd_algo_ffsplit : (ℕ → Bool) → (ℕ → Bool) → Algorithm ClientData ClusterData
qnetd_algo_ffsplit grants room = record {
  init = λ client cluster vote. coded_reply (client_init (grants 0) (grants 1) client cluster) vote;
  config_node_list_received = λ nodes initial client cluster vote.
      given_reply (config_node_list_received grants room client cluster nodes initial vote);
  membership_node_list_received = λ ring_id nodes heuristics client cluster vote.
      given_reply
        (membership_node_list_received grants room client cluster ring_id nodes heuristics vote);
  quorum_node_list_received = λ nodes client cluster vote.
      given_reply (quorum_node_list_received grants room client cluster);
  ask_for_vote_received =
      λ client cluster vote. given_reply (ask_for_vote_received grants room client cluster vote);
  vote_info_reply_received = λ seq client cluster vote.
      coded_reply (vote_info_reply_received grants room client cluster seq) vote;
  heuristics_change_received = λ heuristics client cluster vote.
      given_reply (heuristics_change_received grants room client cluster heuristics vote);
}

-- A server with no other algorithm.
unfoldable pub only_ffsplit : (ℕ → Bool) → (ℕ → Bool) → Registry ClientData ClusterData
only_ffsplit grants room n = if n == 1 then some (qnetd_algo_ffsplit grants room) else none

update_client_ids :
    (addr : ℕ) (f : FfsplitClient → FfsplitClient) (clients : List FfsplitClient)
    → ((c : FfsplitClient) → (f c).node_id ≡ c.node_id)
    → node_ids (update_client addr f clients) ≡ node_ids clients
unfolding update_client
update_client_ids addr f [] keeps = refl
update_client_ids addr f (c ∷ rest) keeps =
    if_either
      (λ (x : FfsplitClient).
        x.node_id ∷ node_ids (update_client addr f rest) ≡ c.node_id ∷ node_ids rest)
      (c.addr == addr) _ _
      (rw (keeps c) (ap (λ l. c.node_id ∷ l) (update_client_ids addr f rest keeps)))
      (ap (λ l. c.node_id ∷ l) (update_client_ids addr f rest keeps))

init_client_ids :
    (granted : Bool) (client : FfsplitClient) (cluster : FfsplitCluster)
    → node_ids (init_client granted client cluster).0.client_list ≡ node_ids cluster.client_list
unfolding init_client
init_client_ids granted client cluster =
    if_either
      (λ (r : FfsplitCluster × ReplyErrorCode).
        node_ids r.0.client_list ≡ node_ids cluster.client_list)
      granted _ _ (update_client_ids client.addr _ cluster.client_list (λ c. refl)) refl

client_init_ids :
    (granted_cluster granted_client : Bool) (client : FfsplitClient) (cluster : FfsplitCluster)
    → node_ids (client_init granted_cluster granted_client client cluster).0.client_list
      ≡ node_ids cluster.client_list
unfolding client_init
client_init_ids granted_cluster granted_client client cluster =
    if_either
      (λ (r : FfsplitCluster × ReplyErrorCode).
        node_ids r.0.client_list ≡ node_ids cluster.client_list)
      (qnetd_cluster_size cluster.client_list == 1) _ _
      (if_either
        (λ (r : FfsplitCluster × ReplyErrorCode).
          node_ids r.0.client_list ≡ node_ids cluster.client_list)
        granted_cluster _ _ (init_client_ids granted_client client _) refl)
      (init_client_ids granted_client client cluster)

the_algorithm :
    (grants room : ℕ → Bool) (n : ℕ) (a : Algorithm ClientData ClusterData)
    → registered (only_ffsplit grants room) n ≡ some a
    → qnetd_algo_ffsplit grants room ≡ a
unfolding only_ffsplit registered
the_algorithm grants room n a e = elim (Bool-cases (ltb n 4)) [
  | inr out ↦ cc (rw out at e)
  | inl fits ↦ elim (Bool-cases (n == 1)) [
    | inr other ↦ cc (rw (fits, other) at e)
    | inl hit ↦
        let same : some (qnetd_algo_ffsplit grants room) ≡ some a = rw (fits, hit) at e in cc
  ]
]

-- The fifty-fifty split algorithm takes new clients as the server needs it.
pub only_ffsplit-KeepsNodes : (grants room : ℕ → Bool) → KeepsNodes (only_ffsplit grants room)
unfolding only_ffsplit registered qnetd_algo_ffsplit
only_ffsplit-KeepsNodes grants room = record {
  init_keeps = λ n a e client cluster vote.
      subst
        (λ (b : Algorithm ClientData ClusterData).
          (r : AlgorithmReply ClientData ClusterData) × (b.init client cluster vote ≡ some r)
          × (node_ids r.cluster.client_list ≡ node_ids cluster.client_list))
        (the_algorithm grants room n a e)
        (_, refl, client_init_ids (grants 0) (grants 1) client cluster);
}
