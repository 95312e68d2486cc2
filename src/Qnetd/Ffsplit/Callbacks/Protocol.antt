-- ===== src/Qnetd/Ffsplit/Callbacks/Protocol.antt =====
-- The life of one cluster under the fifty-fifty split algorithm, as a step relation: the server
-- handles one event after the other, each on behalf of one connected client. The steps are those up to
-- the shutdown of the server, at which it removes all clients with no new decision
-- (`server_going_down`), and those of clients that send one init message each: a second one is refused,
-- but has overwritten the client's node id and algorithm before.
use corosync_qdevice.Prelude.{ℕ, ◌<◌, ◌≡◌, ◌≢◌, Bool, true, false, some, [], All, In}
use corosync_qdevice.Tlv.Types.{RingId, Heuristics, Vote, no_error}
use corosync_qdevice.NodeList.{NodeList}
use corosync_qdevice.Qnetd.ClusterList.{add_client, del_client}
use corosync_qdevice.Qnetd.Client.{qnetd_cluster_size}
use corosync_qdevice.Qnetd.Ffsplit.Data.{FfsplitClient, FfsplitCluster}
use corosync_qdevice.Qnetd.Ffsplit.Votes.Counts.{state}
use corosync_qdevice.Qnetd.Ffsplit.Do.{Reply}
use corosync_qdevice.Qnetd.Ffsplit.Callbacks.{
  update_client, client_init, config_node_list_received, membership_node_list_received,
  heuristics_change_received, client_disconnect, vote_info_reply_received,
}
use corosync_qdevice.Qnetd.Ffsplit.Callbacks.Leaving.{Identifies}

-- What the server stores of a client between the callbacks: never the algorithm's own data.
abbrev pub KeepsData : (FfsplitClient → FfsplitClient) → Type 0
KeepsData f =
    (c : FfsplitClient)
    → (state c ≡ state (f c)) × (c.node_id ≡ (f c).node_id) × (c.addr ≡ (f c).addr)

pub data Step (c : FfsplitCluster) (d : FfsplitCluster) : Type 0 where
  config_received :
      (grants room : ℕ → Bool) (client : FfsplitClient) (nodes : NodeList) (initial : Bool)
      (vote : Vote) (r : Reply)
      → In client c.client_list
      → config_node_list_received grants room client c nodes initial vote ≡ some r
      → d ≡ r.cluster
      → Step c d
  membership_received :
      (grants room : ℕ → Bool) (client : FfsplitClient) (ring_id : RingId) (nodes : NodeList)
      (heuristics : Heuristics) (vote : Vote) (r : Reply)
      → In client c.client_list
      → membership_node_list_received grants room client c ring_id nodes heuristics vote ≡ some r
      → d ≡ r.cluster
      → Step c d
  heuristics_received :
      (grants room : ℕ → Bool) (client : FfsplitClient) (heuristics : Heuristics) (vote : Vote)
      (r : Reply)
      → In client c.client_list
      → heuristics_change_received grants room client c heuristics vote ≡ some r
      → d ≡ r.cluster
      → Step c d
  vote_replied :
      (grants room : ℕ → Bool) (client : FfsplitClient) (seq : ℕ)
      → In client c.client_list
      → d ≡ (vote_info_reply_received grants room client c seq).0
      → Step c d
  stored :
      (addr : ℕ) (f : FfsplitClient → FfsplitClient)
      → KeepsData f
      → d ≡ record c { client_list = update_client addr f c.client_list }
      → Step c d
  joined :
      (granted_cluster granted_client : Bool) (client : FfsplitClient)
      → All (λ x. x.addr ≢ client.addr) c.client_list
      → 0 < qnetd_cluster_size c.client_list
      → (d, no_error)
        ≡ client_init granted_cluster granted_client client
            (record c { client_list = add_client client c.client_list })
      → Step c d
  left :
      (grants room : ℕ → Bool) (client : FfsplitClient) (r : FfsplitCluster)
      → In client c.client_list
      → Identifies client c.client_list
      → client_disconnect grants room client c false ≡ some r
      → qnetd_cluster_size r.client_list ≢ 1
      → d ≡ record r { client_list = del_client client.addr r.client_list }
      → Step c d

-- A cluster starts with its first client; `before` is the cluster's record as it was allocated.
pub data Reach : FfsplitCluster → Type 0 where
  started :
      {c : FfsplitCluster} (client : FfsplitClient) (before : FfsplitCluster)
      → (c, no_error)
        ≡ client_init true true client (record before { client_list = add_client client [] })
      → Reach c
  stepped : {c d : FfsplitCluster} → Reach c → Step c d → Reach d
