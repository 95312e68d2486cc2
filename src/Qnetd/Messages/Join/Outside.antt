-- ===== src/Qnetd/Messages/Join/Outside.antt =====
-- A client that is in no cluster yet: what the init message stores of it changes no cluster.
use corosync_qdevice.Prelude.{
  ℕ, ◌≡◌, ◌≢◌, refl, ap, ◌∙◌, Bool, not, List, [], ◌∷◌, ◌++◌, map, All, ==-ne, if◌then◌else◌,
  if_either, ◌&&◌,
}
use corosync_qdevice.Tlv.Types.{ReplyErrorCode, tls_required}
use corosync_qdevice.Msg.Types.{MsgDecoded, or_zero}
use corosync_qdevice.Qnetd.Client.{Client, Outgoing}
use corosync_qdevice.Qnetd.Algorithm.{Registry}
use corosync_qdevice.Qnetd.Messages.Server.{
  Settings, Answers, NamedCluster, Server, write_clients, write_cluster, write, send,
}
use corosync_qdevice.Qnetd.Messages.Simple.{
  TlsCheck, check_tls, must_check, is_required, verify_name, is_set, out_of_range,
}
use corosync_qdevice.Qnetd.Messages.Init.{
  required, store_node_id, store_ring_id, store_heartbeat, store_tie_breaker, store_algorithm,
  init_node_id, init_ring_id, init_heartbeat, init_tie_breaker, init_algorithm, init_values,
}

-- No client of the clusters has the address.
abbrev pub IsOutside : {D E : Type 0} → ℕ → List (NamedCluster D E) → Type 0
IsOutside addr clusters = All (λ n. All (λ c. c.addr ≢ addr) n.cluster.client_list) clusters

-- A server that differs in the client and the connection only.
pub record Alike {D E : Type 0} (server there : Server D E) : Type 0 where
  pub same_clusters : there.clusters ≡ server.clusters
  pub same_addr : there.client.addr ≡ server.client.addr
  pub same_name : there.connection.cluster_name ≡ server.connection.cluster_name

module _ {D : Type 0} where
  write_clients_outside :
      (addr : ℕ) (f : Client D → Client D) (clients : List (Client D))
      → All (λ c. c.addr ≢ addr) clients
      → write_clients addr f clients ≡ clients
  unfolding write_clients
  write_clients_outside addr f [] out = refl
  write_clients_outside addr f (c ∷ rest) (n, out) =
      ap (λ b. (if b then f c else c) ∷ write_clients addr f rest) (==-ne c.addr addr n)
      ∙ ap (λ l. c ∷ l) (write_clients_outside addr f rest out)

module _ {D E : Type 0} where
  write_outside :
      (addr : ℕ) (f : Client D → Client D) (clusters : List (NamedCluster D E))
      → IsOutside addr clusters
      → map (write_cluster addr f) clusters ≡ clusters
  write_outside addr f [] out = refl
  write_outside addr f (n ∷ rest) (x, out) =
      ap
        (λ (l : List (Client D)).
          record n { cluster = record (n.cluster) { client_list = l } }
          ∷ map (write_cluster addr f) rest)
        (write_clients_outside addr f n.cluster.client_list x)
      ∙ ap (λ (l : List (NamedCluster D E)). n ∷ l) (write_outside addr f rest out)

  Alike-refl : (server : Server D E) → Alike server server
  Alike-refl server = record { same_clusters = refl; same_addr = refl; same_name = refl }

  module _ (server : Server D E) (out : IsOutside server.client.addr server.clusters) where
    pub write-Alike :
        (f : Client D → Client D) (there : Server D E)
        → ((c : Client D) → (f c).addr ≡ c.addr)
        → Alike server there
        → Alike server (write f there)
    unfolding write
    write-Alike f there keeps a = record {
      same_clusters =
          ap (λ addr. map (write_cluster addr f) there.clusters) a.same_addr
          ∙ ap (λ (l : List (NamedCluster D E)). map (write_cluster server.client.addr f) l)
              a.same_clusters
          ∙ write_outside server.client.addr f server.clusters out;
      same_addr = keeps there.client ∙ a.same_addr;
      same_name = a.same_name;
    }

    pub send-Alike :
        (answers : Answers) (message : Outgoing) (there : Server D E)
        → Alike server there
        → Alike server (send answers message there).0
    unfolding send
    send-Alike answers message there a =
        if_either (λ (r : Server D E × Bool). Alike server r.0) answers.reply_queued _ _
          (write-Alike (λ c. record c { send_buffer_list = c.send_buffer_list ++ message ∷ [] })
            there (λ c. refl) a)
          a

    module _ (settings : Settings) (answers : Answers) (msg : MsgDecoded) where
      pub check_tls-Alike : Alike server (check_tls settings answers msg server).0
      unfolding check_tls
      check_tls-Alike =
          if_either (λ (r : Server D E × TlsCheck). Alike server r.0)
            (is_required settings.tls_supported && not server.connection.tls_started) _ _
            (send-Alike answers (Outgoing.server_error msg.seq_number tls_required) server
              (Alike-refl server))
            (if_either (λ (r : Server D E × TlsCheck). Alike server r.0)
              (must_check settings settings.tls_supported server.connection) _ _
              (if_either (λ (r : Server D E × TlsCheck). Alike server r.0)
                (verify_name answers.peer_certificate server.connection.cluster_name) _ _
                (record { same_clusters = refl; same_addr = refl; same_name = refl })
                (Alike-refl server))
              (Alike-refl server))

    module _ (registry : Registry D E) (no_data : E) (settings : Settings) (answers : Answers)
        (msg : MsgDecoded) where
      required-Alike :
          (has : Bool) (s : ReplyErrorCode × Server D E)
          (store : Server D E → ReplyErrorCode × Server D E)
          → Alike server s.1
          → Alike server (store s.1).1
          → Alike server (required registry no_data settings answers msg has s store).1
      required-Alike has (code, there) store a b =
          if_either (λ (r : ReplyErrorCode × Server D E). Alike server r.1) _ _ _ a b

      store_heartbeat-Alike :
          (code : ReplyErrorCode) (there : Server D E)
          → Alike server there
          → Alike server (store_heartbeat registry no_data settings answers msg code there).1
      store_heartbeat-Alike code there a =
          if_either (λ (r : ReplyErrorCode × Server D E). Alike server r.1)
            (out_of_range settings (or_zero msg.heartbeat_interval)) _ _ a
            (record {
              same_clusters = a.same_clusters;
              same_addr = a.same_addr;
              same_name = a.same_name;
            })

      node_id-Alike :
          (s : ReplyErrorCode × Server D E)
          → Alike server s.1
          → Alike server (init_node_id registry no_data settings answers msg s).1
      node_id-Alike s a =
          let w = write-Alike (λ c. record c { node_id = or_zero msg.node_id }) s.1 (λ c. refl) a in
          required-Alike (is_set msg.node_id) s
            (store_node_id registry no_data settings answers msg s.0) a
            (record {
              same_clusters = w.same_clusters;
              same_addr = w.same_addr;
              same_name = w.same_name;
            })

      ring_id-Alike :
          (s : ReplyErrorCode × Server D E)
          → Alike server s.1
          → Alike server (init_ring_id registry no_data settings answers msg s).1
      ring_id-Alike s a =
          required-Alike (is_set msg.ring_id) s
            (store_ring_id registry no_data settings answers msg s.0) a
            (write-Alike _ s.1 (λ c. refl) a)

      heartbeat-Alike :
          (s : ReplyErrorCode × Server D E)
          → Alike server s.1
          → Alike server (init_heartbeat registry no_data settings answers msg s).1
      heartbeat-Alike s a =
          required-Alike (is_set msg.heartbeat_interval) s
            (store_heartbeat registry no_data settings answers msg s.0) a
            (store_heartbeat-Alike s.0 s.1 a)

      tie_breaker-Alike :
          (s : ReplyErrorCode × Server D E)
          → Alike server s.1
          → Alike server (init_tie_breaker registry no_data settings answers msg s).1
      tie_breaker-Alike s a =
          required-Alike (is_set msg.tie_breaker) s
            (store_tie_breaker registry no_data settings answers msg s.0) a
            (write-Alike _ s.1 (λ c. refl) a)

      algorithm-Alike :
          (s : ReplyErrorCode × Server D E)
          → Alike server s.1
          → Alike server (init_algorithm registry no_data settings answers msg s).1
      algorithm-Alike s a =
          required-Alike (is_set msg.decision_algorithm) s
            (store_algorithm registry no_data settings answers msg s.0) a
            (write-Alike _ s.1 (λ c. refl) a)

      -- The values of the message are stored, as far as the message goes.
      pub init_values-Alike :
          (there : Server D E)
          → Alike server there
          → Alike server (init_values registry no_data settings answers msg there).1
      unfolding init_values
      init_values-Alike there a =
          algorithm-Alike _
            (tie_breaker-Alike _ (heartbeat-Alike _ (ring_id-Alike _ (node_id-Alike _ a))))
