-- ===== src/Qnetd/Messages/Guards.antt =====
-- A client that is not initialised cannot reach the decision algorithm but by an init message.
use corosync_qdevice.Prelude.{
  if_either, subst, ℕ, ◌≡◌, ◌≢◌, refl, sym, ap, ◌∙◌, Bool, true, false, not, Bool-cases, inl, inr,
  Option, none, some, List, [], ◌∷◌, ◌++◌, map, ◌==◌, if◌then◌else◌, ◌&&◌,
}
use corosync_qdevice.Dynar.{Dynar}
use corosync_qdevice.Tlv.Types.{
  ReplyErrorCode, init_required, tls_required, doesnt_contain_required_option, internal_error,
  preinit_required, unexpected_message, unsupported_message, error_decoding_msg,
}
use corosync_qdevice.Tlv.Bytes.{Memory}
use corosync_qdevice.Tlv.Each.{DecodeError}
use corosync_qdevice.Msg.Types.{MsgDecoded}
use corosync_qdevice.Msg.Decode.{msg_decode}
use corosync_qdevice.Qnetd.Client.{Client, Outgoing}
use corosync_qdevice.Qnetd.Algorithm.{Registry}
use corosync_qdevice.Qnetd.Messages.Server.{
  Settings, Answers, NamedCluster, Server, Handled, write_clients, write_cluster, write, connect,
  send, send_err,
}
use corosync_qdevice.Qnetd.Messages.Simple.{
  TlsCheck, passed, disconnect, error_sent, check_tls, check_certificate, must_check, is_required,
  verify_name, after_check, refuse, preinit_named, received_preinit, received_unexpected,
  received_starttls, after_init, received_set_option, received_echo_request,
}
use corosync_qdevice.Qnetd.Messages.Reports.{
  received_node_list, received_ask_for_vote, received_vote_info_reply, received_heuristics_change,
}
use corosync_qdevice.Qnetd.Messages.Received.{
  Request, request_of, handle, handle_decoded, qnetd_client_msg_received,
}

-- What the decision algorithms keep: the data of each client of a cluster, and of the cluster.
abbrev pub client_data : {D : Type 0} → List (Client D) → List (ℕ × D)
client_data [] = []
client_data (c ∷ rest) = (c.addr, c.algorithm_data) ∷ client_data rest

abbrev pub algorithms_data :
    {D E : Type 0} → List (NamedCluster D E) → List (List ℕ × (List (ℕ × D) × E))
algorithms_data [] = []
algorithms_data (n ∷ rest) =
    (n.cluster_name, (client_data n.cluster.client_list, n.cluster.algorithm_data))
    ∷ algorithms_data rest

-- The client is as initialised as it was, and nothing that an algorithm keeps has changed.
pub record Untouched {D E : Type 0} (server there : Server D E) : Type 0 where
  pub same_init : there.connection.init_received ≡ server.connection.init_received
  pub same_data : algorithms_data there.clusters ≡ algorithms_data server.clusters

-- A write that leaves the address and the algorithm's data.
abbrev pub Keeps : {D : Type 0} → (Client D → Client D) → Type 0
Keeps {D} f = (c : Client D) → ((f c).addr ≡ c.addr) × ((f c).algorithm_data ≡ c.algorithm_data)

module _ {D : Type 0} where
  write_clients_data :
      (addr : ℕ) (f : Client D → Client D) (clients : List (Client D))
      → Keeps f
      → client_data (write_clients addr f clients) ≡ client_data clients
  unfolding write_clients
  write_clients_data addr f [] keeps = refl
  write_clients_data addr f (c ∷ rest) keeps = elim (Bool-cases (c.addr == addr)) [
    | inl hit ↦
        rw (hit, (keeps c).0, (keeps c).1)
          (ap (λ l. (c.addr, c.algorithm_data) ∷ l) (write_clients_data addr f rest keeps))
    | inr miss ↦
        rw miss (ap (λ l. (c.addr, c.algorithm_data) ∷ l) (write_clients_data addr f rest keeps))
  ]

module _ {D E : Type 0} where
  Untouched-refl : (server : Server D E) → Untouched server server
  Untouched-refl server = record { same_init = refl; same_data = refl }

  Untouched-trans : (a b c : Server D E) → Untouched a b → Untouched b c → Untouched a c
  Untouched-trans a b c p q = record {
    same_init = q.same_init ∙ p.same_init;
    same_data = q.same_data ∙ p.same_data;
  }

  write_data :
      (addr : ℕ) (f : Client D → Client D) (clusters : List (NamedCluster D E))
      → Keeps f
      → algorithms_data (map (write_cluster addr f) clusters) ≡ algorithms_data clusters
  write_data addr f [] keeps = refl
  write_data addr f (n ∷ rest) keeps =
      ap
        (λ (x : List (ℕ × D)).
          (n.cluster_name, (x, n.cluster.algorithm_data))
          ∷ algorithms_data (map (write_cluster addr f) rest))
        (write_clients_data addr f n.cluster.client_list keeps)
      ∙ ap
          (λ (l : List (List ℕ × (List (ℕ × D) × E))).
            (n.cluster_name, (client_data n.cluster.client_list, n.cluster.algorithm_data)) ∷ l)
          (write_data addr f rest keeps)

  pub write-Untouched :
      (f : Client D → Client D) (server : Server D E) → Keeps f → Untouched server (write f server)
  unfolding write
  write-Untouched f server keeps = record {
    same_init = refl;
    same_data = write_data server.client.addr f server.clusters keeps;
  }

  pub send-Untouched :
      (answers : Answers) (message : Outgoing) (server : Server D E)
      → Untouched server (send answers message server).0
  unfolding send
  send-Untouched answers message server = elim (Bool-cases answers.reply_queued) [
    | inl queued ↦ rw queued (
        write-Untouched (λ c. record c { send_buffer_list = c.send_buffer_list ++ message ∷ [] })
          server (λ c. (refl, refl)))
    | inr full ↦ rw full (Untouched-refl server)
  ]

-- A handler that comes to an end with nothing touched.
abbrev pub Settles : {D E : Type 0} → Server D E → Handled D E → Type 0
Settles {D} {E} server h = (r : Server D E × Bool) × (h ≡ some r) × Untouched server r.0

module _ {D E : Type 0} (settings : Settings) (answers : Answers) (msg : MsgDecoded) where
  refuse-Settles :
      (code : ReplyErrorCode) (server there : Server D E)
      → Untouched server there
      → Settles server (refuse settings answers msg code there)
  refuse-Settles code server there u =
      let sent = send_err answers msg code there in
      (
        sent,
        refl,
        Untouched-trans server there sent.0 u
            (send-Untouched answers (Outgoing.server_error msg.seq_number code) there),
      )

  certificate-Untouched :
      (server : Server D E) → Untouched server (check_certificate settings answers msg server).0
  certificate-Untouched server =
      elim (Bool-cases (verify_name answers.peer_certificate server.connection.cluster_name)) [
        | inl verified ↦ rw verified (record { same_init = refl; same_data = refl })
        | inr wrong ↦ rw wrong (Untouched-refl server)
      ]

  pub check_tls-Untouched :
      (server : Server D E) → Untouched server (check_tls settings answers msg server).0
  unfolding check_tls
  check_tls-Untouched server =
      elim (Bool-cases (is_required settings.tls_supported && not server.connection.tls_started)) [
        | inl missing ↦
            rw missing
              (send-Untouched answers (Outgoing.server_error msg.seq_number tls_required) server)
        | inr fine ↦
            elim (Bool-cases (must_check settings settings.tls_supported server.connection)) [
              | inl check ↦ rw (fine, check) (certificate-Untouched server)
              | inr free ↦ rw (fine, free) (Untouched-refl server)
            ]
      ]

  checked-Settles :
      (handler : Server D E → Handled D E) (server : Server D E) (r : Server D E × TlsCheck)
      → server.connection.init_received ≡ false
      → Untouched server r.0
      → Settles server (
          after_check settings answers msg r (λ checked.
            if not checked.connection.init_received
            then refuse settings answers msg init_required checked
            else handler checked))
  checked-Settles handler server (checked, passed) fresh u =
      subst
        (λ b.
          Settles server
            (if not b then refuse settings answers msg init_required checked else handler checked))
        (sym (u.same_init ∙ fresh)) (refuse-Settles init_required server checked u)
  checked-Settles handler server (checked, disconnect) fresh u = ((checked, false), refl, u)
  checked-Settles handler server (checked, error_sent) fresh u = ((checked, true), refl, u)

  after_init-Settles :
      (handler : Server D E → Handled D E) (server : Server D E)
      → server.connection.init_received ≡ false
      → Settles server (after_init settings answers msg handler server)
  unfolding after_init
  after_init-Settles handler server fresh =
      checked-Settles handler server (check_tls settings answers msg server) fresh
        (check_tls-Untouched server)

  preinit-Settles :
      (server : Server D E) (name : Option (List ℕ))
      → Settles server (preinit_named settings answers msg name server)
  unfolding preinit_named
  preinit-Settles server none =
      refuse-Settles doesnt_contain_required_option server server (Untouched-refl server)
  preinit-Settles server (some name) =
      let named =
        connect (λ c. record c { cluster_name = some name; preinit_received = true }) server in
      if_either (Settles server) answers.name_granted _ _
        (
          _,
          refl,
          Untouched-trans server named _ (record { same_init = refl; same_data = refl })
              (send-Untouched answers
                (Outgoing.preinit_reply msg.seq_number settings.tls_supported
                  settings.tls_client_cert_required)
                named),
        )
        (refuse-Settles internal_error server
          (connect (λ c. record c { cluster_name = none }) server)
          (record { same_init = refl; same_data = refl }))

  abbrev started : Server D E → Handled D E
  started server =
      if answers.tls_starts
      then some (
        connect (λ c. record c { tls_started = true; tls_peer_certificate_verified = false })
            server,
        true,
      )
      else some (server, false)

  started-Settles : (server : Server D E) → Settles server (started server)
  started-Settles server =
      if_either (Settles server) answers.tls_starts _ _
        (_, refl, record { same_init = refl; same_data = refl }) (_, refl, Untouched-refl server)

  starttls-Settles :
      (server : Server D E) → Settles server (received_starttls settings answers msg server)
  unfolding received_starttls
  starttls-Settles server =
      if_either (Settles server) (not server.connection.preinit_received) _ _
        (refuse-Settles preinit_required server server (Untouched-refl server))
        (started-Settles server)

module _ {D E : Type 0} (registry : Registry D E) (no_data : E) (settings : Settings)
    (answers : Answers) where
  handle-Settles :
      (msg : MsgDecoded) (bytes : List ℕ) (request : Request) (server : Server D E)
      → server.connection.init_received ≡ false
      → request ≢ Request.init
      → Settles server (handle registry no_data settings answers msg bytes request server)
  unfolding handle received_preinit received_unexpected received_set_option received_echo_request
      received_node_list received_ask_for_vote received_vote_info_reply received_heuristics_change
  handle-Settles msg bytes Request.preinit server fresh other =
      preinit-Settles settings answers msg server msg.cluster_name
  handle-Settles msg bytes Request.starttls server fresh other =
      starttls-Settles settings answers msg server
  handle-Settles msg bytes Request.init server fresh other = absurd (other refl)
  handle-Settles msg bytes Request.set_option server fresh other =
      after_init-Settles settings answers msg _ server fresh
  handle-Settles msg bytes Request.echo_request server fresh other =
      after_init-Settles settings answers msg _ server fresh
  handle-Settles msg bytes Request.node_list server fresh other =
      after_init-Settles settings answers msg _ server fresh
  handle-Settles msg bytes Request.ask_for_vote server fresh other =
      after_init-Settles settings answers msg _ server fresh
  handle-Settles msg bytes Request.vote_info_reply server fresh other =
      after_init-Settles settings answers msg _ server fresh
  handle-Settles msg bytes Request.heuristics_change server fresh other =
      after_init-Settles settings answers msg _ server fresh
  handle-Settles msg bytes Request.unexpected server fresh other =
      refuse-Settles settings answers msg unexpected_message server server (Untouched-refl server)
  handle-Settles msg bytes Request.unsupported server fresh other =
      refuse-Settles settings answers msg unsupported_message server server (Untouched-refl server)

  decoded-Settles :
      (bytes : List ℕ) (r : MsgDecoded × Option DecodeError) (server : Server D E)
      → server.connection.init_received ≡ false
      → request_of r.0.msg_type ≢ Request.init
      → Settles server (handle_decoded registry no_data settings answers bytes r server)
  decoded-Settles bytes (msg, none) server fresh other =
      handle-Settles msg bytes (request_of msg.msg_type) server fresh other
  decoded-Settles bytes (msg, some e) server fresh other =
      refuse-Settles settings answers msg error_decoding_msg server server (Untouched-refl server)

  -- Whatever bytes a client sends before it is initialised, unless they are of the type of an init
  -- message, the server handles them without ending, the client is not initialised afterwards, and
  -- the data that the decision algorithms keep of the clients and the clusters is what it was.
  pub received_before_init :
      (grants : ℕ → ℕ → Bool) (beyond : Memory) (receive_buffer : Dynar) (server : Server D E)
      → server.connection.init_received ≡ false
      → request_of (msg_decode grants beyond receive_buffer).0.msg_type ≢ Request.init
      → Settles server (
          qnetd_client_msg_received registry no_data settings answers grants beyond receive_buffer
            server)
  unfolding qnetd_client_msg_received
  received_before_init grants beyond receive_buffer server fresh other =
      decoded-Settles receive_buffer.bytes (msg_decode grants beyond receive_buffer) server fresh
        other
