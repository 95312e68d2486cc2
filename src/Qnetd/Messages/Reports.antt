-- ===== src/Qnetd/Messages/Reports.antt =====
-- The handlers that pass a report of the client to the decision algorithm, store what was reported,
-- and answer with the vote.
use corosync_qdevice.Prelude.{
  ℕ, Bool, true, false, Option, none, some, [], ◌==◌, if◌then◌else◌, ◌||◌, not,
}
use corosync_qdevice.Tlv.Types.{
  RingId, Vote, no_change, Heuristics, ReplyErrorCode, doesnt_contain_required_option,
}
use corosync_qdevice.NodeList.{NodeList, node_list_clone}
use corosync_qdevice.Msg.Types.{MsgDecoded, or_zero}
use corosync_qdevice.Qnetd.Client.{Client, Outgoing, is_ack_or_nack}
use corosync_qdevice.Qnetd.Algorithm.{Registry}
use corosync_qdevice.Qnetd.Messages.Server.{
  Settings, Answers, Server, Handled, write, connect, send, call,
}
use corosync_qdevice.Qnetd.Messages.Simple.{is_set, refuse, after_init}

abbrev pub cloned : Answers → MsgDecoded → Option NodeList
cloned answers msg = node_list_clone answers.clone_grants msg.nodes

abbrev pub is_undefined : Heuristics → Bool
is_undefined Heuristics.undefined = true
is_undefined heuristics = false

-- The vote of the reply is the last vote of the client.
abbrev pub store_vote : {D : Type 0} → Vote → Client D → Client D
store_vote vote c = record c {
  last_sent_vote = vote;
  last_sent_ack_nack_vote = if is_ack_or_nack vote then vote else c.last_sent_ack_nack_vote;
}

module _ {D E : Type 0} (registry : Registry D E) (settings : Settings) (answers : Answers)
    (msg : MsgDecoded) where
  -- The server once the algorithm has answered: an error code goes to the client.
  abbrev pub after_call :
      Option (Server D E × (ReplyErrorCode × Vote))
      → (Server D E → Vote → Handled D E)
      → Handled D E
  after_call none rest = none
  after_call (some (server, (ReplyErrorCode.no_error, vote))) rest = rest server vote
  after_call (some (server, (code, vote))) rest = refuse settings answers msg code server

  abbrev pub vote_then : (Server D E → Outgoing) → Vote → Server D E → Handled D E
  vote_then message vote server =
      let stored = write (store_vote vote) server in some (send answers (message stored) stored)

  abbrev pub node_list_reply : Vote → Server D E → Handled D E
  node_list_reply vote =
      vote_then
        (λ s.
          Outgoing.node_list_reply (or_zero msg.seq_number) (or_zero msg.node_list_type)
            s.client.last_ring_id vote)
        vote

  -- A clone of the nodes of the message goes where `store` puts it; the old list is freed first, and
  -- `node_list_clone` leaves an empty list where it finds no memory.
  abbrev pub store_clone :
      (NodeList → Server D E → Server D E)
      → Option NodeList
      → Server D E
      → (Server D E → Handled D E)
      → Handled D E
  store_clone store none server rest = some (store [] server, false)
  store_clone store (some nodes) server rest = rest (store nodes server)

  unfoldable pub config_list : Bool → Server D E → Handled D E
  config_list initial server =
      after_call
        (call registry (λ a. a.config_node_list_received msg.nodes initial) server no_change)
        (λ decided vote.
          store_clone (λ nodes. write (λ c. record c { configuration_node_list = nodes }))
            (cloned answers msg) decided
            (λ stored.
              node_list_reply vote
                (connect (λ c. record c { config_version = msg.config_version }) stored)))

  unfoldable pub membership_list : Option RingId → Server D E → Handled D E
  membership_list none server = refuse settings answers msg doesnt_contain_required_option server
  membership_list (some ring_id) server =
      after_call
        (call registry (λ a. a.membership_node_list_received ring_id msg.nodes msg.heuristics)
          server no_change)
        (λ decided vote.
          store_clone (λ nodes. write (λ c. record c { last_membership_node_list = nodes }))
            (cloned answers msg) decided
            (λ stored. node_list_reply vote (
              write (λ c. record c { last_ring_id = ring_id; last_heuristics = msg.heuristics })
                (connect (λ c. record c { last_membership_heuristics = msg.heuristics }) stored))))

  unfoldable pub quorum_list : Option ℕ → Server D E → Handled D E
  quorum_list none server = refuse settings answers msg doesnt_contain_required_option server
  quorum_list (some quorate) server =
      after_call (call registry (λ a. a.quorum_node_list_received msg.nodes) server no_change)
        (λ decided vote.
          store_clone (λ nodes. connect (λ c. record c { last_quorum_node_list = nodes }))
            (cloned answers msg) decided (node_list_reply vote))

  -- A type beyond the enumeration would end the server.
  unfoldable pub node_list_of : ℕ → Server D E → Handled D E
  node_list_of list_type server =
      if list_type == 0
      then config_list true server
      else if list_type == 1
      then config_list false server
      else if list_type == 2
      then membership_list msg.ring_id server
      else if list_type == 3
      then quorum_list msg.quorate server
      else none

  unfoldable pub received_node_list : Server D E → Handled D E
  received_node_list = after_init settings answers msg (λ server.
      if not (is_set msg.node_list_type)
      then refuse settings answers msg doesnt_contain_required_option server
      else if not (is_set msg.seq_number)
      then refuse settings answers msg doesnt_contain_required_option server
      else node_list_of (or_zero msg.node_list_type) server)

  unfoldable pub received_ask_for_vote : Server D E → Handled D E
  received_ask_for_vote = after_init settings answers msg (λ server.
      if not (is_set msg.seq_number)
      then refuse settings answers msg doesnt_contain_required_option server
      else after_call (call registry (λ a. a.ask_for_vote_received) server answers.any_vote)
          (λ decided vote.
            vote_then
              (λ s. Outgoing.ask_for_vote_reply (or_zero msg.seq_number) s.client.last_ring_id vote)
              vote decided))

  unfoldable pub received_vote_info_reply : Server D E → Handled D E
  received_vote_info_reply = after_init settings answers msg (λ server.
      if not (is_set msg.seq_number)
      then refuse settings answers msg doesnt_contain_required_option server
      else after_call
          (call registry (λ a. a.vote_info_reply_received (or_zero msg.seq_number)) server
            answers.any_vote)
          (λ decided vote. some (decided, true)))

  unfoldable pub received_heuristics_change : Server D E → Handled D E
  received_heuristics_change = after_init settings answers msg (λ server.
      if not (is_set msg.seq_number) || is_undefined msg.heuristics
      then refuse settings answers msg doesnt_contain_required_option server
      else after_call
          (call registry (λ a. a.heuristics_change_received msg.heuristics) server answers.any_vote)
          (λ decided vote.
            let voted = write (store_vote vote) decided in
            let stored =
              connect (λ c. record c { last_regular_heuristics = msg.heuristics })
                (write (λ c. record c { last_heuristics = msg.heuristics }) voted) in
            some (
              send answers
                (Outgoing.heuristics_change_reply (or_zero msg.seq_number)
                  stored.client.last_ring_id msg.heuristics vote)
                stored)))
