-- ===== src/Qnetd/Ffsplit/Votes/Counts.antt =====
-- How many clients still owe an answer to a vote, before and after each of the loops.
use corosync_qdevice.Prelude.{
  ℕ, ◌≡◌, refl, Bool, true, false, ◌&&◌, Option, none, some, List, [], ◌∷◌, ◌==◌, if◌then◌else◌,
  arith, ◌∙◌, sym, Bool-cases, inl, inr, All, is_some,
}
use corosync_qdevice.Tlv.Types.{RingId, Vote}
use corosync_qdevice.NodeList.{NodeList, node_list_find_node_id}
use corosync_qdevice.Qnetd.Client.{qnetd_client_send_vote_info}
use corosync_qdevice.Qnetd.Ffsplit.Data.{FfsplitClient, ClientState, sending_ack}
use corosync_qdevice.Qnetd.Ffsplit.Votes.{
  vote_to_send, send_vote, send_round, send_loop, schedule_disconnect, send_votes, is_sending,
  no_clients_in_sending_state,
}

abbrev pub owing : Bool → List FfsplitClient → ℕ
owing = no_clients_in_sending_state

abbrev pub state : FfsplitClient → ClientState
state c = c.algorithm_data.client_state

-- The two lists hold the same clients, in the same states.
abbrev pub SameStates : List FfsplitClient → List FfsplitClient → Type 0
SameStates [] [] = Unit
SameStates (c ∷ cs) (d ∷ ds) =
    (state c ≡ state d) × (c.node_id ≡ d.node_id) × (c.addr ≡ d.addr) × SameStates cs ds
SameStates cs ds = ⊥

pub owing-SameStates :
    (b : Bool) (cs ds : List FfsplitClient) → SameStates cs ds → owing b cs ≡ owing b ds
unfolding no_clients_in_sending_state
owing-SameStates b [] [] h = refl
owing-SameStates b (c ∷ cs) (d ∷ ds) h = cc (owing-SameStates b cs ds h.3)
owing-SameStates b [] (d ∷ ds) h = absurd h
owing-SameStates b (c ∷ cs) [] h = absurd h

-- A client that is acknowledged is in the partition.
abbrev pub AckedIn : NodeList → List FfsplitClient → Type 0
AckedIn list [] = Unit
AckedIn list (c ∷ cs) =
    (state c ≡ sending_ack → is_some (node_list_find_node_id list c.node_id) ≡ true)
    × AckedIn list cs

pub AckedIn-SameStates :
    (list : NodeList) (cs ds : List FfsplitClient)
    → SameStates cs ds
    → AckedIn list cs
    → AckedIn list ds
AckedIn-SameStates list [] [] h a = tt
AckedIn-SameStates list (c ∷ cs) (d ∷ ds) h a =
    (λ e. rw (← h.1) (a.0 (h.0 ∙ e)), AckedIn-SameStates list cs ds h.3 a.1)
AckedIn-SameStates list [] (d ∷ ds) h a = absurd h
AckedIn-SameStates list (c ∷ cs) [] h a = absurd h

module _ (room : ℕ → Bool) (client : FfsplitClient) (leaving : Bool) (ring : RingId)
    (acks : Bool) where
  -- A client that is leaving is not waited for.
  abbrev pub LeavesQuietly : FfsplitClient → Type 0
  LeavesQuietly c =
      c.node_id == client.node_id && leaving ≡ true → is_sending acks (state c) ≡ false

  send_vote_lem :
      (granted : Bool) (c : FfsplitClient) (r : RingId) (v : Option Vote)
      → (state (send_vote granted c r v).0 ≡ state c)
        × ((send_vote granted c r v).0.node_id ≡ c.node_id)
        × ((send_vote granted c r v).0.addr ≡ c.addr)
        × ((send_vote granted c r v).1 ≡ (if is_some v then 1 else 0))
  unfolding send_vote qnetd_client_send_vote_info
  send_vote_lem granted c r none = (refl, refl, refl, refl)
  send_vote_lem true c r (some v) = (refl, refl, refl, refl)
  send_vote_lem false c r (some v) = (refl, refl, refl, refl)

  vote_to_send-is_sending : (s : ClientState) → is_some (vote_to_send acks s) ≡ is_sending acks s
  vote_to_send-is_sending s = ground arith

  send_round_lem :
      (c : FfsplitClient)
      → LeavesQuietly c
      → (state (send_round room client leaving ring acks c).0 ≡ state c)
        × ((send_round room client leaving ring acks c).0.node_id ≡ c.node_id)
        × ((send_round room client leaving ring acks c).0.addr ≡ c.addr)
        × ((send_round room client leaving ring acks c).1
            ≡ (if is_sending acks (state c) then 1 else 0))
  unfolding send_round
  send_round_lem c quiet = elim (Bool-cases (c.node_id == client.node_id && leaving)) [
    | inl leaves ↦ rw (leaves, quiet leaves) (refl, refl, refl, refl)
    | inr takes ↦
        rw (takes, ← vote_to_send-is_sending (state c)) (send_vote_lem (room c.addr) c _ _)
  ]

  send_loop_lem :
      (cs : List FfsplitClient)
      → All LeavesQuietly cs
      → SameStates (send_loop room client leaving ring acks cs).0 cs
        × ((send_loop room client leaving ring acks cs).1 ≡ owing acks cs)
  unfolding send_loop no_clients_in_sending_state
  send_loop_lem [] q = (tt, refl)
  send_loop_lem (c ∷ cs) q =
      let (s, i, a, n) = send_round_lem c q.0 in
      let (rest, m) = send_loop_lem cs q.1 in ((s, i, a, rest), omega (arith, n, m))

pub schedule_disconnect-SameStates :
    (addr : ℕ) (failed : Bool) (cs : List FfsplitClient)
    → SameStates (schedule_disconnect addr failed cs) cs
unfolding schedule_disconnect
schedule_disconnect-SameStates addr failed [] = tt
schedule_disconnect-SameStates addr failed (c ∷ cs) = elim (Bool-cases (failed && c.addr == addr)) [
  | inl hit ↦ rw hit (refl, refl, refl, schedule_disconnect-SameStates addr failed cs)
  | inr miss ↦ rw miss (refl, refl, refl, schedule_disconnect-SameStates addr failed cs)
]

pub SameStates-trans :
    (xs ys cs : List FfsplitClient) → SameStates xs ys → SameStates ys cs → SameStates xs cs
SameStates-trans [] [] [] p q = tt
SameStates-trans (a ∷ xs) (b ∷ ys) (c ∷ cs) p q =
    (p.0 ∙ q.0, p.1 ∙ q.1, p.2 ∙ q.2, SameStates-trans xs ys cs p.3 q.3)
SameStates-trans xs ys cs p q = ground arith

pub SameStates-sym : (xs ys : List FfsplitClient) → SameStates xs ys → SameStates ys xs
SameStates-sym [] [] p = tt
SameStates-sym (a ∷ xs) (b ∷ ys) p = (sym p.0, sym p.1, sym p.2, SameStates-sym xs ys p.3)
SameStates-sym [] (b ∷ ys) p = absurd p
SameStates-sym (a ∷ xs) [] p = absurd p

-- `qnetd_algo_ffsplit_send_votes` moves no client to another state, and counts the clients that were
-- to be sent to, provided that a client that is leaving is not among them.
pub send_votes_lem :
    (room : ℕ → Bool) (client : FfsplitClient) (leaving : Bool) (ring : RingId) (acks : Bool)
    (cs : List FfsplitClient)
    → All (LeavesQuietly room client leaving ring acks) cs
    → SameStates cs (send_votes room client leaving ring acks cs).0
      × ((send_votes room client leaving ring acks cs).1 ≡ owing acks cs)
unfolding send_votes
send_votes_lem room client leaving ring acks cs q =
    let (same, n) = send_loop_lem room client leaving ring acks cs q in
    (
      SameStates-sym _ cs
          (SameStates-trans _ _ cs (schedule_disconnect-SameStates client.addr _ _) same),
      n,
    )
