-- ===== src/NodeList.antt =====
-- qdevices/node-list.h and qdevices/node-list.c: lists of cluster nodes. A list is the sequence of
-- its entries; whether `malloc` succeeds is an argument of the operations that call it.
pub mod Eq
mod Examples
use corosync_qdevice.Prelude.{
  ℕ, ◌+◌, Bool, true, false, Option, none, some, List, [], ◌∷◌, ◌++◌, ◌==◌, if◌then◌else◌,
}
use corosync_qdevice.Tlv.Types.{NodeState, NodeInfo}

pub record NodeListEntry : Type 0 where
  pub node_id : ℕ
  pub data_center_id : ℕ
  pub node_state : NodeState

abbrev pub NodeList : Type 0
NodeList = List NodeListEntry

-- `granted` says whether `malloc` returned memory; `none` is the NULL result.
unfoldable pub node_list_add : Bool → NodeList → ℕ → ℕ → NodeState → Option NodeList
node_list_add granted list node_id data_center_id node_state =
    if granted
    then some (
        list
        ++ (record { node_id = node_id; data_center_id = data_center_id; node_state = node_state })
          ∷ [])
    else none

unfoldable pub node_list_add_from_node_info : Bool → NodeList → NodeInfo → Option NodeList
unfolding node_list_add
node_list_add_from_node_info granted list info =
    node_list_add granted list info.node_id info.data_center_id info.node_state

-- The loop of `node_list_clone`: `i` counts the calls of `malloc`, and `grants i` is the answer to
-- the one numbered `i`.
clone_loop : (ℕ → Bool) → ℕ → NodeList → NodeList → Option NodeList
clone_loop grants i dst [] = some dst
clone_loop grants i dst (n ∷ src) =
    elim (node_list_add (grants i) dst n.node_id n.data_center_id n.node_state) [
      | none ↦ none
      | some dst' ↦ clone_loop grants (i + 1) dst' src
    ]

-- `none` is the result -1, after which the destination is empty.
unfoldable pub node_list_clone : (ℕ → Bool) → NodeList → Option NodeList
unfolding clone_loop node_list_add
node_list_clone grants src = clone_loop grants 0 [] src

-- The entry that is returned is the first with the node id.
unfoldable pub node_list_find_node_id : NodeList → ℕ → Option NodeListEntry
node_list_find_node_id [] id = none
node_list_find_node_id (n ∷ list) id =
    if n.node_id == id then some n else node_list_find_node_id list id

-- `node_list_del` of the entry that `node_list_find_node_id` returns for this node id.
unfoldable pub node_list_del : NodeList → ℕ → NodeList
node_list_del [] id = []
node_list_del (n ∷ list) id = if n.node_id == id then list else n ∷ node_list_del list id

unfoldable pub node_list_is_empty : NodeList → Bool
node_list_is_empty [] = true
node_list_is_empty (n ∷ list) = false

unfoldable pub node_list_size : NodeList → ℕ
node_list_size [] = 0
node_list_size (n ∷ list) = node_list_size list + 1
