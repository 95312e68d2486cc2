-- ===== src/NodeList/Examples.antt =====
-- The theorems on node lists at small lists.
use mathlib.Core.List.{Perm}
use corosync_qdevice.Prelude.{ℕ, ◌≡◌, refl, ◌↔◌, Bool, true, some, [], ◌∷◌}
use corosync_qdevice.Tlv.Types.{NodeState}
use corosync_qdevice.NodeList.{
  NodeListEntry, NodeList, node_list_clone, node_list_find_node_id, node_list_del,
  node_list_is_empty,
}
use corosync_qdevice.NodeList.Eq.{node_list_eq, node_list_eq_iff, node_list_eq-perm}

abbrev entry : ℕ → NodeListEntry
entry id = record { node_id = id; data_center_id = 7; node_state = NodeState.member }

abbrev ascending : NodeList
ascending = entry 1 ∷ entry 2 ∷ entry 3 ∷ []

abbrev mixed : NodeList
mixed = entry 2 ∷ entry 3 ∷ entry 1 ∷ []

abbrev always : ℕ → Bool
always i = true

node_list_eq_iff_example : (node_list_eq always ascending mixed ≡ some true) ↔ Perm ascending mixed
unfolding node_list_find_node_id
node_list_eq_iff_example =
    node_list_eq_iff always ascending mixed (λ k. refl) (refl, (refl, (refl, tt)))

equal_mixed : node_list_eq always ascending mixed ≡ some true
unfolding node_list_eq node_list_clone node_list_find_node_id node_list_del node_list_is_empty
equal_mixed = refl

node_list_eq-perm_example : Perm ascending mixed
node_list_eq-perm_example = node_list_eq-perm always ascending mixed equal_mixed
