-- ===== src/Qnetd/Lms.antt =====
-- qdevices/qnetd-algo-lms.c: the last man standing algorithm. The cluster has no data of its own;
-- `clients` is its list of clients, in which `client` stands.
pub mod TieBreak
pub mod Exclusive
pub mod Callbacks
mod Examples
use corosync_qdevice.Prelude.{
  ℕ, ◌+◌, ◌-◌, ◌^◌, Bool, true, false, ◌&&◌, ◌||◌, not, Option, none, some, List, [], ◌∷◌, ltb,
  ◌==◌, if◌then◌else◌,
}
use corosync_qdevice.Tlv.Types.{
  RingId, Vote, TieBreakerMode, lowest, highest, ReplyErrorCode, no_error, internal_error,
  tlv_ring_id_eq,
}
use corosync_qdevice.NodeList.{NodeList, node_list_size}
use corosync_qdevice.Qnetd.Client.{Client}
use corosync_qdevice.Qnetd.AlgoUtils.{
  AlgoPartition, qnetd_algo_all_ring_ids_match, qnetd_algo_create_partitions,
}

-- `last_result` starts as 0, which is `undefined`.
pub record LmsInfo : Type 0 where
  pub num_config_nodes : ℕ
  pub last_result : Vote
  pub partition_list : List AlgoPartition

abbrev pub LmsClient : Type 0
LmsClient = Client LmsInfo

-- What a callback leaves: the client's data, the reply code, `*result_vote`, and whether the timer
-- of the algorithm is scheduled.
pub record LmsReply : Type 0 where
  pub info : LmsInfo
  pub code : ReplyErrorCode
  pub vote : Vote
  pub timer : Bool

-- The first of the partitions with the highest value.
unfoldable pub best_loop :
    (AlgoPartition → ℕ) → Option AlgoPartition → List AlgoPartition → Option AlgoPartition
best_loop value best [] = best
best_loop value none (p ∷ partitions) = best_loop value (some p) partitions
best_loop value (some best) (p ∷ partitions) =
    best_loop value (some (if ltb (value best) (value p) then p else best)) partitions

-- How many partitions have this value: the best is a joint leader if another has it too.
unfoldable pub count_value : (AlgoPartition → ℕ) → ℕ → List AlgoPartition → ℕ
count_value value n [] = 0
count_value value n (p ∷ partitions) =
    (if value p == n then 1 else 0) + count_value value n partitions

-- The unique best partition, unless several share its value.
unfoldable pub unique_best : (AlgoPartition → ℕ) → List AlgoPartition → Option AlgoPartition
unique_best value partitions = elim (best_loop value none partitions) [
  | none ↦ none
  | some best ↦ if ltb 1 (count_value value (value best) partitions) then none else some best
]

abbrev pub other_active : RingId → LmsClient → Bool
other_active ring_id other_client =
    not (tlv_ring_id_eq ring_id other_client.last_ring_id)
    && (elim other_client.algorithm_data.last_result [ Vote.ack ↦ true | _ ↦ false ])

unfoldable pub any_other_active : RingId → List LmsClient → Bool
any_other_active ring_id [] = false
any_other_active ring_id (other_client ∷ rest) =
    other_active ring_id other_client || any_other_active ring_id rest

-- The tie-breaker's node id and ring id, as the search for them begins.
abbrev pub tie_break_start : LmsClient → TieBreakerMode → ℕ
tie_break_start client lowest = 2 ^ 31 - 1
tie_break_start client highest = 0
tie_break_start client TieBreakerMode.node_id = client.tie_breaker.node_id

-- One round of the search for the tie-breaker's node.
abbrev pub tie_break_round : LmsClient → LmsClient → TieBreakerMode → ℕ × RingId → ℕ × RingId
tie_break_round client other_client lowest (id, ring) =
    if ltb other_client.node_id id
    then (other_client.node_id, other_client.last_ring_id)
    else (id, ring)
tie_break_round client other_client highest (id, ring) =
    if ltb id other_client.node_id
    then (other_client.node_id, other_client.last_ring_id)
    else (id, ring)
tie_break_round client other_client TieBreakerMode.node_id (id, ring) =
    if client.tie_breaker.node_id == client.node_id
    then (id, other_client.last_ring_id)
    else (id, ring)

unfoldable pub tie_break_loop : LmsClient → List LmsClient → ℕ × RingId → ℕ × RingId
tie_break_loop client [] found = found
tie_break_loop client (other_client ∷ rest) found =
    tie_break_loop client rest (tie_break_round client other_client client.tie_breaker.mode found)

abbrev pub zero_ring : RingId
zero_ring = record { node_id = 0; seq = 0 }

abbrev pub vote_for : Bool → Vote
vote_for true = Vote.ack
vote_for false = Vote.nack

unfoldable pub tie_break : LmsClient → List LmsClient → RingId → Vote
tie_break client clients ring_id =
    let start : ℕ × RingId = (tie_break_start client client.tie_breaker.mode, zero_ring) in
    let (id, ring) = tie_break_loop client clients start in
    vote_for (client.node_id == id || tlv_ring_id_eq ring ring_id)

-- The decision between several partitions: by score, then by size, then by the tie-breaker.
unfoldable pub decide_vote : LmsClient → List LmsClient → RingId → List AlgoPartition → Vote
decide_vote client clients ring_id partitions =
    elim (unique_best (λ (p : AlgoPartition). p.score) partitions) [
      | some best ↦ vote_for (tlv_ring_id_eq best.ring_id ring_id)
      | none ↦ elim (unique_best (λ (p : AlgoPartition). p.num_nodes) partitions) [
        | some largest ↦ vote_for (tlv_ring_id_eq largest.ring_id ring_id)
        | none ↦ tie_break client clients ring_id
      ]
    ]

abbrev pub is_new : Vote → Bool
is_new Vote.undefined = true
is_new v = false

-- The reply that saves the vote, with the partitions freed or kept.
abbrev pub saved : LmsInfo → List AlgoPartition → Vote → Bool → LmsReply
saved info partitions vote timer = record {
  info = record info { last_result = vote; partition_list = partitions };
  code = no_error;
  vote = vote;
  timer = timer;
}

-- From the partitions on, of which `num_partitions` are new.
abbrev pub vote_among : LmsClient → List LmsClient → RingId → List AlgoPartition → ℕ → LmsReply
vote_among client clients ring_id partitions num_partitions =
    let info = client.algorithm_data in
    if num_partitions == 0
    then saved info partitions Vote.wait_for_reply true
    else if num_partitions == 1
    then saved info [] Vote.ack false
    else if is_new info.last_result && any_other_active ring_id clients
    then record {
      info = record info { partition_list = [] };
      code = no_error;
      vote = Vote.nack;
      timer = false;
    }
    else saved info [] (decide_vote client clients ring_id partitions) false

-- `vote` is `*result_vote` before the call.
unfoldable pub do_lms_algorithm : (ℕ → Bool) → LmsClient → List LmsClient → RingId → Vote → LmsReply
do_lms_algorithm grants client clients ring_id vote =
    let info = client.algorithm_data in
    let (partitions, created) = qnetd_algo_create_partitions grants info.partition_list clients in
    if not (qnetd_algo_all_ring_ids_match client ring_id clients)
    then saved info info.partition_list Vote.wait_for_reply true
    else elim created [
      | none ↦ record {
        info = record info { partition_list = partitions };
        code = internal_error;
        vote = vote;
        timer = false;
      }
      | some num_partitions ↦ vote_among client clients ring_id partitions num_partitions
    ]
