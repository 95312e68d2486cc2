-- ===== src/Qnetd/Messages/Server.antt =====
-- The state that the handling of a message of one client changes, and the answers that the code
-- gets from outside. A client is written through a pointer: the client that is handled and its entry
-- in the list of its cluster are the same object, which is known by its address `addr`.
use corosync_qdevice.Prelude.{
  ℕ, Bool, true, false, ◌&&◌, Option, none, some, List, [], ◌∷◌, ◌++◌, ◌==◌, if◌then◌else◌, map,
}
use corosync_qdevice.Tlv.Types.{TieBreaker, Vote, Heuristics, ReplyErrorCode}
use corosync_qdevice.NodeList.{NodeList}
use corosync_qdevice.Msg.Types.{MsgDecoded}
use corosync_qdevice.Qnetd.Client.{Client, Cluster, Outgoing, TlsSupport}
use corosync_qdevice.Qnetd.Algorithm.{
  Registry, Algorithm, AlgorithmReply, Callback, qnetd_algorithm,
}

-- The fields of `struct qnetd_instance` and its advanced settings.
pub record Settings : Type 0 where
  pub tls_supported : TlsSupport
  pub tls_client_cert_required : Bool
  pub heartbeat_interval_min : ℕ
  pub heartbeat_interval_max : ℕ
  pub keep_active_partition_tie_breaker : Bool
  pub max_client_receive_size : ℕ
  pub max_client_send_size : ℕ

-- For one message: whether the reply finds a send buffer and room in it, whether `malloc` gives
-- memory for the name of the cluster and for a new cluster, whether NSS starts TLS, the certificate
-- of the peer as the test of a name, whether the timer takes the interval, and the answers of
-- `malloc` in `node_list_clone`. Then what an uninitialised vote holds, and a tie-breaker of zeros,
-- which is none of the enumeration.
pub record Answers : Type 0 where
  pub reply_queued : Bool
  pub name_granted : Bool
  pub cluster_granted : Bool
  pub tls_starts : Bool
  pub peer_certificate : Option (List ℕ → Bool)
  pub timer_updated : Bool
  pub clone_grants : ℕ → Bool
  pub any_vote : Vote
  pub zero_tie_breaker : TieBreaker

-- The fields of `struct qnetd_client` that only the handling of the client's own messages uses.
-- `cluster` is the name of the cluster that the client's pointer leads to.
pub record Connection : Type 0 where
  pub tls_started : Bool
  pub tls_peer_certificate_verified : Bool
  pub preinit_received : Bool
  pub init_received : Bool
  pub cluster_name : Option (List ℕ)
  pub node_id_set : Bool
  pub heartbeat_interval : ℕ
  pub config_version : Option ℕ
  pub last_quorum_node_list : NodeList
  pub last_membership_heuristics : Heuristics
  pub last_regular_heuristics : Heuristics
  pub cluster : Option (List ℕ)

pub record NamedCluster (D E : Type 0) : Type 0 where
  pub cluster_name : List ℕ
  pub cluster : Cluster D E

pub record Server (D E : Type 0) : Type 0 where
  pub connection : Connection
  pub client : Client D
  pub clusters : List (NamedCluster D E)

-- `none` is the end of the server, and the second part is false for -1: the client is disconnected.
abbrev pub Handled : Type 0 → Type 0 → Type 0
Handled D E = Option (Server D E × Bool)

abbrev pub name_eq : List ℕ → List ℕ → Bool
name_eq [] [] = true
name_eq (a ∷ rest) (b ∷ others) = a == b && name_eq rest others
name_eq name other = false

module _ {D : Type 0} where
  -- A write to the entries with an address.
  unfoldable pub write_clients : ℕ → (Client D → Client D) → List (Client D) → List (Client D)
  write_clients addr f [] = []
  write_clients addr f (c ∷ rest) = (if c.addr == addr then f c else c) ∷ write_clients addr f rest

  unfoldable pub find_client : ℕ → List (Client D) → Option (Client D)
  find_client addr [] = none
  find_client addr (c ∷ rest) = if c.addr == addr then some c else find_client addr rest

  abbrev pub or_client : Client D → Option (Client D) → Client D
  or_client client none = client
  or_client client (some c) = c

module _ {D E : Type 0} where
  abbrev pub write_cluster : ℕ → (Client D → Client D) → NamedCluster D E → NamedCluster D E
  write_cluster addr f n = record n {
    cluster = record (n.cluster) { client_list = write_clients addr f n.cluster.client_list };
  }

  -- A write through the pointer to the client that is handled.
  unfoldable pub write : (Client D → Client D) → Server D E → Server D E
  write f server = record server {
    client = f server.client;
    clusters = map (write_cluster server.client.addr f) server.clusters;
  }

  abbrev pub connect : (Connection → Connection) → Server D E → Server D E
  connect f server = record server { connection = f server.connection }

  -- `qnetd_cluster_list_find_by_name`.
  unfoldable pub find_by_name : List (NamedCluster D E) → List ℕ → Option (Cluster D E)
  find_by_name [] name = none
  find_by_name (n ∷ clusters) name =
      if name_eq n.cluster_name name then some n.cluster else find_by_name clusters name

  -- A write to the cluster that `find_by_name` finds.
  unfoldable pub put_cluster :
      List ℕ → Cluster D E → List (NamedCluster D E) → List (NamedCluster D E)
  put_cluster name cluster [] = []
  put_cluster name cluster (n ∷ clusters) =
      if name_eq n.cluster_name name
      then record n { cluster = cluster } ∷ clusters
      else n ∷ put_cluster name cluster clusters

  -- A message at the end of the client's send buffer list; -1 if there is no buffer for it.
  unfoldable pub send : Answers → Outgoing → Server D E → Server D E × Bool
  send answers message server =
      if answers.reply_queued
      then (
        write (λ c. record c { send_buffer_list = c.send_buffer_list ++ message ∷ [] }) server,
        true,
      )
      else (server, false)

  -- `qnetd_client_send_err`.
  abbrev pub send_err : Answers → MsgDecoded → ReplyErrorCode → Server D E → Server D E × Bool
  send_err answers msg code = send answers (Outgoing.server_error msg.seq_number code)

  -- The cluster after a callback, and the client as its entry there has become.
  abbrev pub with_reply :
      List ℕ → Server D E → AlgorithmReply D E → Server D E × (ReplyErrorCode × Vote)
  with_reply name server r = (
    record server {
      client = or_client server.client (find_client server.client.addr r.cluster.client_list);
      clusters = put_cluster name r.cluster server.clusters;
    },
    (r.code, r.vote),
  )

  abbrev pub called :
      List ℕ
      → Server D E
      → Option (AlgorithmReply D E)
      → Option (Server D E × (ReplyErrorCode × Vote))
  called name server none = none
  called name server (some r) = some (with_reply name server r)

  abbrev pub call_in :
      Callback D E
      → List ℕ
      → Server D E
      → Vote
      → Option (Cluster D E)
      → Option (Server D E × (ReplyErrorCode × Vote))
  call_in callback name server vote none = none
  call_in callback name server vote (some cluster) =
      called name server (callback server.client cluster vote)

  abbrev pub call_at :
      Callback D E
      → Server D E
      → Vote
      → Option (List ℕ)
      → Option (Server D E × (ReplyErrorCode × Vote))
  call_at callback server vote none = none
  call_at callback server vote (some name) =
      call_in callback name server vote (find_by_name server.clusters name)

  -- A call of the algorithm for the client that is handled, with the client's cluster. A client that
  -- has no cluster would be a NULL pointer.
  unfoldable pub call :
      Registry D E
      → (Algorithm D E → Callback D E)
      → Server D E
      → Vote
      → Option (Server D E × (ReplyErrorCode × Vote))
  call registry callback server vote =
      call_at (qnetd_algorithm registry callback) server vote server.connection.cluster
