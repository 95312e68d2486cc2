-- ===== src/Qnetd/Ffsplit/Votes.antt =====
-- How the votes go out: `qnetd_algo_ffsplit_update_nodes_state`, `qnetd_algo_ffsplit_send_votes` and
-- `qnetd_algo_ffsplit_no_clients_in_sending_state`. Each loop returns the clients as it leaves them.
pub mod Counts
use corosync_qdevice.Prelude.{
  ℕ, ◌+◌, ◌%◌, ◌^◌, Bool, true, false, ◌&&◌, ◌||◌, not, Option, none, some, List, [], ◌∷◌, ◌==◌,
  if◌then◌else◌, is_some,
}
use corosync_qdevice.Tlv.Types.{RingId, Vote}
use corosync_qdevice.NodeList.{NodeList, node_list_find_node_id}
use corosync_qdevice.Qnetd.Client.{qnetd_client_send_vote_info}
use corosync_qdevice.Qnetd.Ffsplit.Data.{FfsplitClient, ClientState, sending_nack, sending_ack}

abbrev pub with_state : FfsplitClient → ClientState → FfsplitClient
with_state c s = record c { algorithm_data = record (c.algorithm_data) { client_state = s } }

-- Is there a quorate partition, and is the node in it?
abbrev pub in_partition : Option NodeList → ℕ → Bool
in_partition none id = false
in_partition (some list) id = is_some (node_list_find_node_id list id)

-- `quorate` is `none` where the pointer is NULL.
abbrev pub next_state : FfsplitClient → Bool → Option NodeList → FfsplitClient → ClientState
next_state client client_leaving quorate iter =
    if iter.node_id == client.node_id && client_leaving
    then ClientState.waiting_for_change
    else if in_partition quorate iter.node_id
    then sending_ack
    else sending_nack

unfoldable pub update_nodes_state :
    FfsplitClient → Bool → Option NodeList → List FfsplitClient → List FfsplitClient
update_nodes_state client client_leaving quorate [] = []
update_nodes_state client client_leaving quorate (iter ∷ rest) =
    with_state iter (next_state client client_leaving quorate iter)
    ∷ update_nodes_state client client_leaving quorate rest

-- `none` is TLV_VOTE_UNDEFINED: nothing is sent.
abbrev pub vote_to_send : Bool → ClientState → Option Vote
vote_to_send true sending_ack = some Vote.ack
vote_to_send true s = none
vote_to_send false sending_nack = some Vote.nack
vote_to_send false s = none

-- The part of a round that follows the choice of the vote: the client, the number of votes sent,
-- and whether the send failed.
unfoldable pub send_vote : Bool → FfsplitClient → RingId → Option Vote → FfsplitClient × ℕ × Bool
send_vote granted iter ring none = (iter, 0, false)
send_vote granted iter ring (some vote) =
    let next = (iter.algorithm_data.vote_info_expected_seq_num + 1) % 2 ^ 32 in
    let counted = record iter {
      algorithm_data = record (iter.algorithm_data) { vote_info_expected_seq_num = next };
    } in
    let (sent, done) = qnetd_client_send_vote_info granted counted next ring vote in
    (sent, 1, not done)

unfoldable pub send_round :
    (ℕ → Bool) → FfsplitClient → Bool → RingId → Bool → FfsplitClient → FfsplitClient × ℕ × Bool
send_round room client client_leaving ring send_acks iter =
    if iter.node_id == client.node_id && client_leaving
    then (iter, 0, false)
    else send_vote (room iter.addr) iter
        (if iter.node_id == client.node_id then ring else iter.last_ring_id)
        (vote_to_send send_acks iter.algorithm_data.client_state)

unfoldable pub send_loop :
    (ℕ → Bool)
    → FfsplitClient
    → Bool
    → RingId
    → Bool
    → List FfsplitClient
    → List FfsplitClient × ℕ × Bool
send_loop room client client_leaving ring send_acks [] = ([], 0, false)
send_loop room client client_leaving ring send_acks (iter ∷ rest) =
    let (iter', sent, failed) = send_round room client client_leaving ring send_acks iter in
    let (rest', sent_rest, failed_rest) =
      send_loop room client client_leaving ring send_acks rest in
    (iter' ∷ rest', sent + sent_rest, failed || failed_rest)

-- `client->schedule_disconnect = 1`, through the pointer.
unfoldable pub schedule_disconnect : ℕ → Bool → List FfsplitClient → List FfsplitClient
schedule_disconnect addr failed [] = []
schedule_disconnect addr failed (c ∷ rest) =
    (if failed && c.addr == addr then record c { schedule_disconnect = true } else c)
    ∷ schedule_disconnect addr failed rest

-- `room a` says whether a vote can be queued for the client at address `a`. A failed send marks
-- `client`; no round of the loop reads the mark, so it is set when the loop is done.
unfoldable pub send_votes :
    (ℕ → Bool) → FfsplitClient → Bool → RingId → Bool → List FfsplitClient → List FfsplitClient × ℕ
send_votes room client client_leaving ring send_acks clients =
    let (clients', sent, failed) = send_loop room client client_leaving ring send_acks clients in
    (schedule_disconnect client.addr failed clients', sent)

abbrev pub is_sending : Bool → ClientState → Bool
is_sending true sending_ack = true
is_sending true s = false
is_sending false sending_nack = true
is_sending false s = false

unfoldable pub no_clients_in_sending_state : Bool → List FfsplitClient → ℕ
no_clients_in_sending_state sending_acks [] = 0
no_clients_in_sending_state sending_acks (c ∷ rest) =
    (if is_sending sending_acks c.algorithm_data.client_state then 1 else 0)
    + no_clients_in_sending_state sending_acks rest
