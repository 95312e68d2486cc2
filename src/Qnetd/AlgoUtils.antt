-- ===== src/Qnetd/AlgoUtils.antt =====
-- qdevices/qnetd-algo-utils.h and qdevices/qnetd-algo-utils.c: the partitions of a cluster by the ring
-- ids of its clients. An int stays far below its limit here: it counts clients.
use corosync_qdevice.Prelude.{
  ℕ, ◌+◌, Bool, true, false, ◌&&◌, ◌||◌, not, Option, none, some, List, [], ◌∷◌, ◌++◌, ◌==◌,
  if◌then◌else◌, is_some,
}
use corosync_qdevice.Tlv.Types.{RingId, Heuristics, tlv_ring_id_eq}
use corosync_qdevice.NodeList.{node_list_find_node_id}
use corosync_qdevice.Qnetd.Client.{Client}

pub record AlgoPartition : Type 0 where
  pub ring_id : RingId
  pub num_nodes : ℕ
  pub score : ℕ

module _ {D : Type 0} where
  -- Is the other client in the partition of `client`, seen from either side?
  abbrev pub in_our_partition : Client D → Client D → Bool
  in_our_partition client other_client =
      is_some (node_list_find_node_id client.last_membership_node_list other_client.node_id)
      || is_some (node_list_find_node_id other_client.last_membership_node_list client.node_id)

  -- False is the result -1.
  unfoldable pub qnetd_algo_all_ring_ids_match : Client D → RingId → List (Client D) → Bool
  qnetd_algo_all_ring_ids_match client ring_id [] = true
  qnetd_algo_all_ring_ids_match client ring_id (other_client ∷ rest) =
      if other_client.addr == client.addr
      then qnetd_algo_all_ring_ids_match client ring_id rest
      else if in_our_partition client other_client
          && not (tlv_ring_id_eq ring_id other_client.last_ring_id)
      then false
      else qnetd_algo_all_ring_ids_match client ring_id rest

unfoldable pub qnetd_algo_find_partition : List AlgoPartition → RingId → Option AlgoPartition
qnetd_algo_find_partition [] ring_id = none
qnetd_algo_find_partition (p ∷ partitions) ring_id =
    if tlv_ring_id_eq p.ring_id ring_id
    then some p
    else qnetd_algo_find_partition partitions ring_id

-- `partition->num_nodes++` and the changes of the score, where they leave at least 0.
abbrev pub scored : Heuristics → ℕ → ℕ
scored Heuristics.pass score = score + 2
scored Heuristics.fail score = score
scored Heuristics.undefined score = score + 1

abbrev pub counted : Heuristics → AlgoPartition → AlgoPartition
counted h p = record p { num_nodes = p.num_nodes + 1; score = scored h p.score }

-- A write through the pointer that `qnetd_algo_find_partition` returns.
unfoldable pub count_in : RingId → Heuristics → List AlgoPartition → List AlgoPartition
count_in ring_id h [] = []
count_in ring_id h (p ∷ partitions) =
    if tlv_ring_id_eq p.ring_id ring_id
    then counted h p ∷ partitions
    else p ∷ count_in ring_id h partitions

module _ {D : Type 0} where
  -- The list as it stands at the end, and the number of new partitions, or `none` for -1.
  -- `grants` answers the calls of `malloc`; `num_partitions` is also the number of them so far.
  unfoldable pub create_loop :
      (ℕ → Bool) → ℕ → List AlgoPartition → List (Client D) → List AlgoPartition × Option ℕ
  create_loop grants num_partitions partitions [] = (partitions, some num_partitions)
  create_loop grants num_partitions partitions (other_client ∷ rest) =
      let ring_id = other_client.last_ring_id in
      let h = other_client.last_heuristics in
      let fresh : AlgoPartition = record { ring_id = ring_id; num_nodes = 0; score = 0 } in
      let passed = create_loop grants num_partitions partitions rest in
      let found = create_loop grants num_partitions (count_in ring_id h partitions) rest in
      let new = create_loop grants (num_partitions + 1) (partitions ++ counted h fresh ∷ []) rest in
      if ring_id.seq == 0
      then passed
      else if is_some (qnetd_algo_find_partition partitions ring_id)
      then found
      else if grants num_partitions
      then new
      else (partitions, none)

  unfoldable pub qnetd_algo_create_partitions :
      (ℕ → Bool) → List AlgoPartition → List (Client D) → List AlgoPartition × Option ℕ
  qnetd_algo_create_partitions grants partitions clients = create_loop grants 0 partitions clients
