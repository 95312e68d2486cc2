-- ===== src/Qnetd/ClusterList.antt =====
-- qdevices/qnetd-cluster-list.c: how clients join and leave the list of their cluster. A cluster is
-- looked up by its name; the list of one cluster is modelled here.
pub mod Sorted
mod Examples
use corosync_qdevice.Prelude.{ℕ, Bool, true, false, List, [], ◌∷◌, ltb, ◌==◌, if◌then◌else◌}
use corosync_qdevice.Qnetd.Client.{Client}

module _ {D : Type 0} where
  -- The entry before which `qnetd_cluster_list_add_client` inserts is the first whose node id is
  -- greater; without one the client goes to the end.
  unfoldable pub add_client : Client D → List (Client D) → List (Client D)
  add_client client [] = client ∷ []
  add_client client (entry ∷ rest) =
      if ltb client.node_id entry.node_id
      then client ∷ entry ∷ rest
      else entry ∷ add_client client rest

  -- `qnetd_cluster_list_del_client`, by the pointer.
  unfoldable pub del_client : ℕ → List (Client D) → List (Client D)
  del_client addr [] = []
  del_client addr (c ∷ rest) = if c.addr == addr then rest else c ∷ del_client addr rest
