-- ===== src/Qnetd/Messages/Init.antt =====
-- The handler of an init message. Each step stores what the message says, unless it is missing, and
-- may set the reply code; a step that finds an error code goes on storing.
use corosync_qdevice.Prelude.{
  ℕ, Bool, true, false, not, ◌&&◌, Option, none, some, List, [], ◌∷◌, ◌++◌, ◌==◌, if◌then◌else◌,
}
use corosync_qdevice.Tlv.Types.{
  RingId, TieBreaker, ReplyErrorCode, no_error, preinit_required, doesnt_contain_required_option,
  invalid_heartbeat_interval, unsupported_decision_algorithm, tie_breaker_differs_from_other_nodes,
  algorithm_differs_from_other_nodes, duplicate_node_id, internal_error, tlv_tie_breaker_eq, Vote,
}
use corosync_qdevice.Msg.Types.{MsgDecoded, or_zero}
use corosync_qdevice.Qnetd.Client.{Client, Cluster, Outgoing}
use corosync_qdevice.Qnetd.ClusterList.{add_client}
use corosync_qdevice.Qnetd.Algorithm.{Registry, qnetd_static_supported_decision_algorithms}
use corosync_qdevice.Qnetd.Messages.Server.{
  Settings, Answers, NamedCluster, Server, Handled, write, connect, send, call, find_by_name,
  put_cluster,
}
use corosync_qdevice.Qnetd.Messages.Simple.{is_set, out_of_range, check_tls, after_check}

abbrev pub is_ok : ReplyErrorCode → Bool
is_ok ReplyErrorCode.no_error = true
is_ok code = false

abbrev pub or_ring : Option RingId → RingId
or_ring none = record { node_id = 0; seq = 0 }
or_ring (some ring_id) = ring_id

abbrev pub or_tie_breaker : TieBreaker → Option TieBreaker → TieBreaker
or_tie_breaker zeros none = zeros
or_tie_breaker zeros (some tie_breaker) = tie_breaker

abbrev pub is_supported : List ℕ → ℕ → Bool
is_supported [] n = false
is_supported (a ∷ algorithms) n = if a == n then true else is_supported algorithms n

-- The test of a new client against those of its cluster.
unfoldable pub check_clients : {D : Type 0} → Client D → List (Client D) → ReplyErrorCode
check_clients new_client [] = no_error
check_clients new_client (client ∷ rest) =
    if not (tlv_tie_breaker_eq new_client.tie_breaker client.tie_breaker)
    then tie_breaker_differs_from_other_nodes
    else if not (new_client.decision_algorithm == client.decision_algorithm)
    then algorithm_differs_from_other_nodes
    else if new_client.node_id == client.node_id
    then duplicate_node_id
    else check_clients new_client rest

abbrev pub check_cluster : {D E : Type 0} → Client D → Option (Cluster D E) → ReplyErrorCode
check_cluster new_client none = no_error
check_cluster new_client (some cluster) = check_clients new_client cluster.client_list

module _ {D E : Type 0} (registry : Registry D E) (no_data : E) (settings : Settings)
    (answers : Answers) (msg : MsgDecoded) where
  -- The reply code so far, and the server.
  abbrev pub State : Type 0
  State = ReplyErrorCode × Server D E

  -- A value that the message must have, as long as there is no error.
  abbrev pub required : Bool → State → (Server D E → State) → State
  required has (code, server) store =
      if is_ok code && not has then (doesnt_contain_required_option, server) else store server

  abbrev pub store_node_id : ReplyErrorCode → Server D E → State
  store_node_id code server = (
    code,
    connect (λ c. record c { node_id_set = true })
        (write (λ c. record c { node_id = or_zero msg.node_id }) server),
  )

  abbrev pub init_node_id : State → State
  init_node_id s = required (is_set msg.node_id) s (store_node_id s.0)

  abbrev pub store_ring_id : ReplyErrorCode → Server D E → State
  store_ring_id code server =
      (code, write (λ c. record c { last_ring_id = or_ring msg.ring_id }) server)

  abbrev pub init_ring_id : State → State
  init_ring_id s = required (is_set msg.ring_id) s (store_ring_id s.0)

  abbrev pub store_heartbeat : ReplyErrorCode → Server D E → State
  store_heartbeat code server =
      let interval = or_zero msg.heartbeat_interval in
      if out_of_range settings interval then (invalid_heartbeat_interval, server) else (
        (if answers.timer_updated then code else invalid_heartbeat_interval),
        connect (λ c. record c { heartbeat_interval = interval }) server,
      )

  abbrev pub init_heartbeat : State → State
  init_heartbeat s = required (is_set msg.heartbeat_interval) s (store_heartbeat s.0)

  abbrev pub store_tie_breaker : ReplyErrorCode → Server D E → State
  store_tie_breaker code server = (
    code,
    write (λ c. record c { tie_breaker = or_tie_breaker answers.zero_tie_breaker msg.tie_breaker })
        server,
  )

  abbrev pub init_tie_breaker : State → State
  init_tie_breaker s = required (is_set msg.tie_breaker) s (store_tie_breaker s.0)

  abbrev pub store_algorithm : ReplyErrorCode → Server D E → State
  store_algorithm code server =
      let n = or_zero msg.decision_algorithm in
      (
        (if is_supported qnetd_static_supported_decision_algorithms n
            then code
            else unsupported_decision_algorithm),
        write (λ c. record c { decision_algorithm = n }) server,
      )

  abbrev pub init_algorithm : State → State
  init_algorithm s = required (is_set msg.decision_algorithm) s (store_algorithm s.0)

  -- The steps up to here, from the test of the preinit on.
  unfoldable pub init_values : Server D E → State
  init_values server =
      let code =
        if server.connection.preinit_received then ReplyErrorCode.no_error else preinit_required in
      init_algorithm
        (init_tie_breaker (init_heartbeat (init_ring_id (init_node_id (code, server)))))

  -- The cluster's list with the client; a cluster that is not there is made.
  abbrev pub joined : List ℕ → Server D E → Option (Cluster D E) → Option (List (NamedCluster D E))
  joined name server none =
      if answers.cluster_granted
      then some (
          server.clusters
          ++ (record {
            cluster_name = name;
            cluster = record {
              client_list = add_client server.client [];
              algorithm_data = no_data;
            };
          })
            ∷ [])
      else none
  joined name server (some cluster) = some (
      put_cluster name
        (record cluster { client_list = add_client server.client cluster.client_list })
        server.clusters)

  -- The reply, and the end of the handler.
  unfoldable pub init_reply : State → Handled D E
  init_reply (code, server) =
      let there =
        if is_ok code then connect (λ c. record c { init_received = true }) server else server in
      some (
        send answers
          (Outgoing.init_reply msg.seq_number code (is_set msg.supported_messages)
            (is_set msg.supported_options) settings.max_client_receive_size
            settings.max_client_send_size)
          there)

  abbrev pub init_called : Option (Server D E × (ReplyErrorCode × Vote)) → Handled D E
  init_called none = none
  init_called (some (server, (code, vote))) = init_reply (code, server)

  abbrev pub init_joined : List ℕ → Server D E → Option (List (NamedCluster D E)) → Handled D E
  init_joined name server none = init_reply (internal_error, server)
  init_joined name server (some clusters) = init_called (
      call registry (λ a. a.init)
        (connect (λ c. record c { cluster = some name }) (record server { clusters = clusters }))
        answers.any_vote)

  -- A client without a name would be a NULL pointer.
  abbrev pub init_in : Option (List ℕ) → Server D E → Handled D E
  init_in none server = none
  init_in (some name) server =
      let preset =
        write
          (λ c. record c {
            keep_active_partition_tie_breaker = settings.keep_active_partition_tie_breaker;
          })
          server in
      let found = find_by_name preset.clusters name in
      let code = check_cluster preset.client found in
      if is_ok code
      then init_joined name preset (joined name preset found)
      else init_reply (code, preset)

  unfoldable pub init_checked : State → Handled D E
  init_checked (code, server) =
      if is_ok code
      then init_in server.connection.cluster_name server
      else init_reply (code, server)

  unfoldable pub received_init : Server D E → Handled D E
  received_init server =
      after_check settings answers msg (check_tls settings answers msg server)
        (λ checked. init_checked (init_values checked))
