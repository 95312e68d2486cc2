-- ===== src/Qnetd/Messages/Examples.antt =====
-- The theorems on the handling of messages at a server with one cluster of two clients.
use corosync_qdevice.Prelude.{ℕ, refl, Bool, true, false, none, some, [], ◌∷◌, arith}
use corosync_qdevice.Dynar.{Dynar}
use corosync_qdevice.Tlv.Types.{RingId, TieBreaker, lowest, Vote, Heuristics}
use corosync_qdevice.Tlv.Bytes.{Memory, read_be, memory_of}
use corosync_qdevice.Tlv.Each.{each_option}
use corosync_qdevice.Tlv.Iter.{tlv_iter_init, tlv_iter_next}
use corosync_qdevice.Msg.Types.{MsgType, msg_type_number, MsgDecoded, msg_decoded_init}
use corosync_qdevice.Msg.Decode.{msg_decode, msg_decode_loop, msg_option, option_switch}
use corosync_qdevice.Qnetd.Client.{TlsSupport}
use corosync_qdevice.Qnetd.Ffsplit.Data.{
  FfsplitClient, ClientState, ClusterState, ClientData, ClusterData,
}
use corosync_qdevice.Qnetd.Ffsplit.Registered.{only_ffsplit, only_ffsplit-KeepsNodes}
use corosync_qdevice.Qnetd.Messages.Server.{Settings, Answers, Connection, Server}
use corosync_qdevice.Qnetd.Messages.Init.{received_init}
use corosync_qdevice.Qnetd.Messages.Received.{qnetd_client_msg_received}
use corosync_qdevice.Qnetd.Messages.Guards.{Settles, received_before_init}
use corosync_qdevice.Qnetd.Messages.Join.Ordered.{EndsOrdered, received_init-IsOrdered}

abbrev settings : Settings
settings = record {
  tls_supported = TlsSupport.supported;
  tls_client_cert_required = true;
  heartbeat_interval_min = 1000;
  heartbeat_interval_max = 20000;
  keep_active_partition_tie_breaker = false;
  max_client_receive_size = 32768;
  max_client_send_size = 32768;
}

abbrev ties : TieBreaker
ties = record { mode = lowest; node_id = 0 }

abbrev answers : Answers
answers = record {
  reply_queued = true;
  name_granted = true;
  cluster_granted = true;
  tls_starts = true;
  peer_certificate = none;
  timer_updated = true;
  clone_grants = λ i. true;
  any_vote = Vote.undefined;
  zero_tie_breaker = ties;
}

abbrev no_ring : RingId
no_ring = record { node_id = 0; seq = 0 }

abbrev client : ℕ → ℕ → FfsplitClient
client id at = record {
  addr = at;
  node_id = id;
  decision_algorithm = 1;
  tie_breaker = ties;
  keep_active_partition_tie_breaker = false;
  configuration_node_list = [];
  last_membership_node_list = [];
  last_ring_id = no_ring;
  last_heuristics = Heuristics.undefined;
  last_sent_vote = Vote.undefined;
  last_sent_ack_nack_vote = Vote.undefined;
  schedule_disconnect = false;
  send_buffer_list = [];
  algorithm_data = record {
    client_state = ClientState.waiting_for_change;
    vote_info_expected_seq_num = 0;
  };
}

abbrev no_data : ClusterData
no_data = record {
  cluster_state = ClusterState.waiting_for_change;
  quorate_partition_node_list = [];
}

abbrev connection : Connection
connection = record {
  tls_started = false;
  tls_peer_certificate_verified = false;
  preinit_received = true;
  init_received = false;
  cluster_name = some (99 ∷ []);
  node_id_set = false;
  heartbeat_interval = 0;
  config_version = none;
  last_quorum_node_list = [];
  last_membership_heuristics = Heuristics.undefined;
  last_regular_heuristics = Heuristics.undefined;
  cluster = none;
}

-- Two clients stand in the cluster, and a third is connected.
abbrev server : Server ClientData ClusterData
server = record {
  connection = connection;
  client = client 0 3;
  clusters =
      (record {
        cluster_name = 99 ∷ [];
        cluster = record { client_list = client 1 1 ∷ client 5 2 ∷ []; algorithm_data = no_data };
      })
      ∷ [];
}

-- A message that asks for a vote, with the sequence number 7.
abbrev ask_for_vote : Dynar
ask_for_vote = record {
  bytes = 0 ∷ 12 ∷ 0 ∷ 0 ∷ 0 ∷ 8 ∷ 0 ∷ 0 ∷ 0 ∷ 4 ∷ 0 ∷ 0 ∷ 0 ∷ 7 ∷ [];
  allocated = 14;
  maximum_size = 4096;
}

abbrev beyond : Memory
beyond i = 0

abbrev always : ℕ → Bool
always i = true

received_before_init_example : Settles server (
    qnetd_client_msg_received
      (only_ffsplit always always)
      no_data
      settings
      answers
      (λ i j. true)
      beyond
      ask_for_vote
      server)
unfolding msg_decode msg_decode_loop each_option tlv_iter_init tlv_iter_next msg_option
    option_switch read_be memory_of msg_decoded_init
received_before_init_example =
    received_before_init (only_ffsplit always always) no_data settings answers (λ i j. true) beyond
      ask_for_vote server refl (λ e. cc)

abbrev init_message : MsgDecoded
init_message = record (msg_decoded_init (msg_type_number MsgType.init)) {
  seq_number = some 1;
  node_id = some 3;
  ring_id = some no_ring;
  heartbeat_interval = some 5000;
  tie_breaker = some ties;
  decision_algorithm = some 1;
}

received_init-IsOrdered_example :
    EndsOrdered
      (received_init (only_ffsplit always always) no_data settings answers init_message server)
received_init-IsOrdered_example =
    received_init-IsOrdered (only_ffsplit always always) (only_ffsplit-KeepsNodes always always)
      no_data settings answers init_message server (99 ∷ []) refl
      ((((λ e. omega arith), ((λ e. omega arith), tt))), tt) (omega arith, tt)
