-- ===== src/Qnetd/Ffsplit/Do.antt =====
-- `qnetd_algo_ffsplit_do`: a decision about the votes of the whole cluster.
pub mod Phase
pub mod Sound
pub mod Runs
use corosync_qdevice.Prelude.{
  ℕ, Bool, true, false, Option, none, some, List, [], ◌==◌, if◌then◌else◌, ◌>>=◌,
}
use corosync_qdevice.Tlv.Types.{
  Vote, wait_for_reply, no_change, ReplyErrorCode, no_error, internal_error,
}
use corosync_qdevice.NodeList.{NodeList, node_list_clone}
use corosync_qdevice.Qnetd.Ffsplit.Data.{
  Event, FfsplitClient, FfsplitCluster, ClusterState, waiting_for_stable_membership, sending_nacks,
  sending_acks,
}
use corosync_qdevice.Qnetd.Ffsplit.Stable.{is_membership_stable}
use corosync_qdevice.Qnetd.Ffsplit.Select.{select_partition}
use corosync_qdevice.Qnetd.Ffsplit.Votes.{update_nodes_state, send_votes}

-- What a callback of the algorithm leaves: the cluster, the reply code, and `*result_vote`.
pub record Reply : Type 0 where
  pub cluster : FfsplitCluster
  pub code : ReplyErrorCode
  pub vote : Vote

-- The two sends, and the state of the cluster after them.
unfoldable pub start_votes :
    (ℕ → Bool) → Event → List FfsplitClient → List FfsplitClient × ClusterState
start_votes room e clients =
    let (nacked, nacks) = send_votes room e.client e.client_leaving e.ring_id false clients in
    let (acked, acks) = send_votes room e.client e.client_leaving e.ring_id true nacked in
    if nacks == 0
    then (acked, if acks == 0 then ClusterState.waiting_for_change else sending_acks)
    else (nacked, sending_nacks)

-- From the selected partition on, which is `none` for NULL. `stored` is the clone of it.
unfoldable pub apply_partition :
    (ℕ → Bool) → Event → FfsplitCluster → Option NodeList → NodeList → Reply
apply_partition room e cluster quorate stored =
    let updated = update_nodes_state e.client e.client_leaving quorate cluster.client_list in
    let (clients, state) = start_votes room e updated in
    record {
      cluster = record {
        client_list = clients;
        algorithm_data = record { cluster_state = state; quorate_partition_node_list = stored };
      };
      code = no_error;
      vote = no_change;
    }

-- The old partition is freed, and the new one is cloned if there is one; `none` is a failed clone.
unfoldable pub store_partition : (ℕ → Bool) → Option NodeList → Option NodeList
store_partition grants none = some []
store_partition grants (some list) = node_list_clone grants list

unfoldable pub finish :
    (ℕ → Bool) → (ℕ → Bool) → Event → FfsplitCluster → Vote → Option NodeList → Reply
finish grants room e cluster vote quorate = elim (store_partition grants quorate) [
  | none ↦ record {
    cluster = record cluster {
      algorithm_data = record {
        cluster_state = waiting_for_stable_membership;
        quorate_partition_node_list = [];
      };
    };
    code = internal_error;
    vote = vote;
  }
  | some stored ↦ apply_partition room e cluster quorate stored
]

-- `grants` answers the calls of `malloc` in the clone, `room` is that of `send_votes`, and `vote` is
-- `*result_vote` before the call. `none` is the end of the server by a failed `assert`.
unfoldable pub ffsplit_do : (ℕ → Bool) → (ℕ → Bool) → Event → FfsplitCluster → Vote → Option Reply
ffsplit_do grants room e cluster vote =
    let waiting = record (cluster.algorithm_data) {
      cluster_state = waiting_for_stable_membership;
    } in
    if is_membership_stable e cluster.client_list
    then (do
      quorate ←
          select_partition e cluster.client_list cluster.algorithm_data.quorate_partition_node_list
      some (finish grants room e cluster vote quorate))
    else some (record {
      cluster = record cluster { algorithm_data = waiting };
      code = no_error;
      vote = wait_for_reply;
    })
