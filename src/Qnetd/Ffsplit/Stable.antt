-- ===== src/Qnetd/Ffsplit/Stable.antt =====
-- `qnetd_algo_ffsplit_is_membership_stable`: do the connected clients tell one story?
pub mod Spec
use corosync_qdevice.Prelude.{
  Bool, true, false, ◌&&◌, Option, none, some, List, [], ◌∷◌, ◌==◌, if◌then◌else◌, is_some,
}
use corosync_qdevice.Tlv.Types.{tlv_ring_id_eq}
use corosync_qdevice.NodeList.{NodeList, node_list_find_node_id}
use corosync_qdevice.Qnetd.Client.{qnetd_cluster_find_client_by_node_id}
use corosync_qdevice.Qnetd.Ffsplit.Data.{
  Event, FfsplitClient, is_self, config_of, membership_of, ring_id_of,
}

-- The walk through the first list that looks up each node id in the second; false is `return (0)`.
unfoldable pub all_found : NodeList → NodeList → Bool
all_found [] list2 = true
all_found (n ∷ list1) list2 =
    if is_some (node_list_find_node_id list2 n.node_id) then all_found list1 list2 else false

-- The body of the two nested loops over the configuration lists.
unfoldable pub same_config : Event → FfsplitClient → FfsplitClient → Bool
same_config e iter1 iter2 =
    if iter1.addr == iter2.addr
    then true
    else if is_self e iter1 && e.client_leaving
    then true
    else if is_self e iter2 && e.client_leaving
    then true
    else all_found (config_of e iter1) (config_of e iter2)

unfoldable pub configs_inner : Event → FfsplitClient → List FfsplitClient → Bool
configs_inner e iter1 [] = true
configs_inner e iter1 (iter2 ∷ rest) =
    if same_config e iter1 iter2 then configs_inner e iter1 rest else false

unfoldable pub configs_outer : Event → List FfsplitClient → List FfsplitClient → Bool
configs_outer e clients [] = true
configs_outer e clients (iter1 ∷ rest) =
    if configs_inner e iter1 clients then configs_outer e clients rest else false

-- The body of the walk through the members of one client: the member's own client agrees.
unfoldable pub same_membership : Event → FfsplitClient → Option FfsplitClient → Bool
same_membership e iter1 none = true
same_membership e iter1 (some iter2) =
    if is_self e iter2 && e.client_leaving
    then true
    else if tlv_ring_id_eq (ring_id_of e iter1) (ring_id_of e iter2)
    then all_found (membership_of e iter1) (membership_of e iter2)
    else false

unfoldable pub members_inner : Event → List FfsplitClient → FfsplitClient → NodeList → Bool
members_inner e clients iter1 [] = true
members_inner e clients iter1 (n ∷ rest) =
    if same_membership e iter1 (qnetd_cluster_find_client_by_node_id clients n.node_id)
    then members_inner e clients iter1 rest
    else false

-- The body of the outer loop over the clients; a leaving client is passed over.
unfoldable pub own_members : Event → List FfsplitClient → FfsplitClient → Bool
own_members e clients iter1 =
    if is_self e iter1 && e.client_leaving
    then true
    else members_inner e clients iter1 (membership_of e iter1)

unfoldable pub members_outer : Event → List FfsplitClient → List FfsplitClient → Bool
members_outer e clients [] = true
members_outer e clients (iter1 ∷ rest) =
    if own_members e clients iter1 then members_outer e clients rest else false

unfoldable pub is_membership_stable : Event → List FfsplitClient → Bool
is_membership_stable e clients =
    if configs_outer e clients clients then members_outer e clients clients else false
