-- ===== src/Qnetd/Ffsplit/Do/Runs.antt =====
-- When `qnetd_algo_ffsplit_do` returns at all.
use corosync_qdevice.Prelude.{ℕ, ◌≡◌, Bool, some, Bool-cases, Option-cases, inl, inr}
use corosync_qdevice.Tlv.Types.{Vote}
use corosync_qdevice.Qnetd.Ffsplit.Data.{Event, FfsplitCluster}
use corosync_qdevice.Qnetd.Ffsplit.Stable.{is_membership_stable}
use corosync_qdevice.Qnetd.Ffsplit.Select.{select_partition}
use corosync_qdevice.Qnetd.Ffsplit.Select.Best.{AllConfigured, select_partition_runs}
use corosync_qdevice.Qnetd.Ffsplit.Do.Sound.{waiting_reply}
use corosync_qdevice.Qnetd.Ffsplit.Do.{Reply, finish, ffsplit_do}

-- A decision returns, with no failed assertion, if every client that takes part has a configuration
-- list that is not empty.
pub ffsplit_do_runs :
    (grants room : ℕ → Bool) (e : Event) (cluster : FfsplitCluster) (vote : Vote)
    → AllConfigured e cluster.client_list
    → (r : Reply) × (ffsplit_do grants room e cluster vote ≡ some r)
unfolding ffsplit_do
ffsplit_do_runs grants room e cluster vote configured =
    elim (Bool-cases (is_membership_stable e cluster.client_list)) [
      | inr unstable ↦ (waiting_reply cluster, rw unstable)
      | inl stable ↦
          elim (Option-cases (
            select_partition e cluster.client_list
              cluster.algorithm_data.quorate_partition_node_list)) [
                | inl fails ↦
                    absurd (select_partition_runs e cluster.client_list _ configured fails)
                | inr (q, selected) ↦ (finish grants room e cluster vote q, rw (stable, selected))
              ]
    ]
