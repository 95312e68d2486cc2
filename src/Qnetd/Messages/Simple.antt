-- ===== src/Qnetd/Messages/Simple.antt =====
-- The check of TLS, and the handlers that do not call the decision algorithm.
use corosync_qdevice.Prelude.{
  ℕ, Bool, true, false, not, ◌&&◌, ◌||◌, Option, none, some, List, [], ltb, ◌==◌, if◌then◌else◌,
}
use corosync_qdevice.Tlv.Types.{
  ReplyErrorCode, tls_required, doesnt_contain_required_option, internal_error, unexpected_message,
  preinit_required, init_required, invalid_heartbeat_interval,
}
use corosync_qdevice.Msg.Types.{MsgDecoded}
use corosync_qdevice.Qnetd.Client.{Outgoing, TlsSupport}
use corosync_qdevice.Qnetd.Messages.Server.{
  Settings, Answers, Connection, Server, Handled, write, connect, send, send_err,
}

-- The results 0, -1 and -2.
pub data TlsCheck : Type 0 where
  passed disconnect error_sent : TlsCheck

abbrev pub is_set : {A : Type 0} → Option A → Bool
is_set none = false
is_set (some a) = true

-- The name is compared only if the peer has a certificate.
abbrev pub verify_name : Option (List ℕ → Bool) → Option (List ℕ) → Bool
verify_name none name = false
verify_name (some has_name) none = has_name []
verify_name (some has_name) (some name) = has_name name

abbrev pub is_required : TlsSupport → Bool
is_required TlsSupport.required = true
is_required _ = false

abbrev pub if_set : {A B : Type 0} → Option A → B → Option B
if_set none b = none
if_set (some a) b = some b

module _ (settings : Settings) where
  -- Whether the certificate is to be checked, and whether TLS is required.
  abbrev pub must_check : TlsSupport → Connection → Bool
  must_check TlsSupport.unsupported c = false
  must_check TlsSupport.supported c =
      c.tls_started && (settings.tls_client_cert_required && not c.tls_peer_certificate_verified)
  must_check TlsSupport.required c =
      settings.tls_client_cert_required && not c.tls_peer_certificate_verified

  abbrev pub out_of_range : ℕ → Bool
  out_of_range interval =
      ltb interval settings.heartbeat_interval_min || ltb settings.heartbeat_interval_max interval

module _ {D E : Type 0} (settings : Settings) (answers : Answers) (msg : MsgDecoded) where
  abbrev pub check_certificate : Server D E → Server D E × TlsCheck
  check_certificate server =
      if verify_name answers.peer_certificate server.connection.cluster_name
      then (connect (λ c. record c { tls_peer_certificate_verified = true }) server, passed)
      else (server, disconnect)

  unfoldable pub check_tls : Server D E → Server D E × TlsCheck
  check_tls server =
      if is_required settings.tls_supported && not server.connection.tls_started
      then (let (sent, done) = send_err answers msg tls_required server in
          (sent, if done then error_sent else disconnect))
      else if must_check settings settings.tls_supported server.connection
      then check_certificate server
      else (server, passed)

  -- What a handler does after the check.
  abbrev pub after_check : Server D E × TlsCheck → (Server D E → Handled D E) → Handled D E
  after_check (server, passed) handler = handler server
  after_check (server, disconnect) handler = some (server, false)
  after_check (server, error_sent) handler = some (server, true)

  -- A server error as the whole answer.
  abbrev pub refuse : ReplyErrorCode → Server D E → Handled D E
  refuse code server = some (send_err answers msg code server)

  unfoldable pub preinit_named : Option (List ℕ) → Server D E → Handled D E
  preinit_named none server = refuse doesnt_contain_required_option server
  preinit_named (some name) server =
      if answers.name_granted
      then some (
          send answers
            (Outgoing.preinit_reply msg.seq_number settings.tls_supported
              settings.tls_client_cert_required)
            (connect (λ c. record c { cluster_name = some name; preinit_received = true }) server))
      else refuse internal_error (connect (λ c. record c { cluster_name = none }) server)

  unfoldable pub received_preinit : Server D E → Handled D E
  received_preinit = preinit_named msg.cluster_name

  -- The messages that a server does not expect.
  unfoldable pub received_unexpected : Server D E → Handled D E
  received_unexpected = refuse unexpected_message

  unfoldable pub received_starttls : Server D E → Handled D E
  received_starttls server =
      if not server.connection.preinit_received
      then refuse preinit_required server
      else if answers.tls_starts
      then some (
        connect (λ c. record c { tls_started = true; tls_peer_certificate_verified = false })
            server,
        true,
      )
      else some (server, false)

  -- The guards that the handlers of an initialised client begin with.
  unfoldable pub after_init : (Server D E → Handled D E) → Server D E → Handled D E
  after_init handler server = after_check (check_tls server) (λ checked.
      if not checked.connection.init_received
      then refuse init_required checked
      else handler checked)

  -- The interval of a set option message; the second part is false after an error.
  abbrev pub set_interval : Option ℕ → Server D E → Server D E × Bool
  set_interval none server = (server, true)
  set_interval (some interval) server =
      if out_of_range settings interval
      then (server, false)
      else (connect (λ c. record c { heartbeat_interval = interval }) server, answers.timer_updated)

  abbrev pub set_tie_breaker : Option ℕ → Server D E → Server D E
  set_tie_breaker none server = server
  set_tie_breaker (some n) server =
      write (λ c. record c { keep_active_partition_tie_breaker = n == 1 }) server

  unfoldable pub set_options : Server D E → Handled D E
  set_options server =
      let (timed, accepted) = set_interval msg.heartbeat_interval server in
      if not accepted
      then refuse invalid_heartbeat_interval timed
      else (let done = set_tie_breaker msg.keep_active_partition_tie_breaker timed in
          some (
            send answers
              (Outgoing.set_option_reply msg.seq_number
                (if_set msg.heartbeat_interval done.connection.heartbeat_interval)
                (if_set msg.keep_active_partition_tie_breaker
                  done.client.keep_active_partition_tie_breaker))
              done))

  unfoldable pub received_set_option : Server D E → Handled D E
  received_set_option = after_init set_options

  -- `request` is the message as it was received.
  unfoldable pub received_echo_request : List ℕ → Server D E → Handled D E
  received_echo_request request =
      after_init (λ server. some (send answers (Outgoing.echo_reply request) server))
