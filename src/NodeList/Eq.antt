-- ===== src/NodeList/Eq.antt =====
-- `node_list_clone` and `node_list_eq` of qdevices/node-list.c.
use mathlib.Core.Logic.Or
use mathlib.Core.List.{append-nil, append_assoc, Perm, Mem, mem-cons, mem-cons_self, not-mem-nil}
use mathlib.Core.List.Perm
use corosync_qdevice.Prelude.{
  ℕ, ◌+◌, ◌≡◌, refl, ap, ◌↔◌, Bool, true, false, ◌&&◌, Option, none, some, [], ◌∷◌, ◌++◌, ◌==◌,
  if◌then◌else◌, arith, ◌>>=◌, Option-cases, and_parts, Bool-cases, inl, inr,
}
use corosync_qdevice.Tlv.Types.{node_state_eq}
use corosync_qdevice.NodeList.{
  NodeListEntry, NodeList, node_list_add, clone_loop, node_list_clone, node_list_find_node_id,
  node_list_del, node_list_is_empty,
}

-- The test on the three fields in the loop of `node_list_eq`.
abbrev entry_eq : NodeListEntry → NodeListEntry → Bool
entry_eq n m =
    n.node_id == m.node_id
    && n.data_center_id == m.data_center_id
    && node_state_eq n.node_state m.node_state

eq_loop : NodeList → NodeList → Bool
eq_loop [] tmp = node_list_is_empty tmp
eq_loop (n ∷ list) tmp = elim (node_list_find_node_id tmp n.node_id) [
  | none ↦ false
  | some m ↦ if entry_eq n m then eq_loop list (node_list_del tmp n.node_id) else false
]

-- `none` is the result -1 of a clone that ran out of memory.
unfoldable pub node_list_eq : (ℕ → Bool) → NodeList → NodeList → Option Bool
unfolding eq_loop
node_list_eq grants list1 list2 = do tmp ← node_list_clone grants list2; some (eq_loop list1 tmp)

abbrev copy : NodeListEntry → NodeListEntry
copy n = record {
  node_id = n.node_id;
  data_center_id = n.data_center_id;
  node_state = n.node_state;
}

clone_loop-eq :
    (grants : ℕ → Bool) (i : ℕ) (dst src : NodeList) {r : NodeList}
    → clone_loop grants i dst src ≡ some r
    → r ≡ dst ++ src
unfolding clone_loop node_list_add
clone_loop-eq grants i dst [] e = ground (arith, append-nil dst)
clone_loop-eq grants i dst (n ∷ src) {r} e = ground (
  arith,
  append_assoc dst (copy n ∷ []) src,
  clone_loop-eq grants (i + 1) (dst ++ copy n ∷ []) src {r = r},
)

-- A clone that succeeds holds the entries of its source, in order.
pub node_list_clone-eq :
    (grants : ℕ → Bool) (src : NodeList) {r : NodeList}
    → node_list_clone grants src ≡ some r
    → r ≡ src
unfolding node_list_clone
node_list_clone-eq grants src e = clone_loop-eq grants 0 [] src e

clone_loop_total :
    (grants : ℕ → Bool) (i : ℕ) (dst src : NodeList)
    → ((k : ℕ) → grants k ≡ true)
    → clone_loop grants i dst src ≡ some (dst ++ src)
unfolding clone_loop node_list_add
clone_loop_total grants i dst [] g = ground (arith, append-nil dst)
clone_loop_total grants i dst (n ∷ src) g = ground (
  arith,
  g i,
  append_assoc dst (copy n ∷ []) src,
  clone_loop_total grants (i + 1) (dst ++ copy n ∷ []) src g,
)

pub node_list_clone_total :
    (grants : ℕ → Bool) (src : NodeList)
    → ((k : ℕ) → grants k ≡ true)
    → node_list_clone grants src ≡ some src
unfolding node_list_clone
node_list_clone_total grants src g = clone_loop_total grants 0 [] src g

-- No two entries share a node id.
abbrev pub IsDistinct : NodeList → Type 0
IsDistinct [] = Unit
IsDistinct (n ∷ list) = (node_list_find_node_id list n.node_id ≡ none) × IsDistinct list

entry_eq-eq : (n m : NodeListEntry) → entry_eq n m ≡ true → n ≡ m
entry_eq-eq n m e = ground arith

entry_eq_refl : (n : NodeListEntry) → entry_eq n n ≡ true
entry_eq_refl n = ground arith

find-perm :
    (list : NodeList) (id : ℕ) {m : NodeListEntry}
    → node_list_find_node_id list id ≡ some m
    → Perm list (m ∷ node_list_del list id)
unfolding node_list_find_node_id node_list_del
find-perm [] id e = cc
find-perm (n ∷ list) id {m} e = elim (Bool-cases (n.node_id == id)) [
  | inl hit ↦ rw hit (Perm.cons' (ground arith) Perm.rfl)
  | inr miss ↦
      rw miss (Perm.trans (Perm.cons n (find-perm list id (ground arith))) (Perm.swap m n _))
]

NodeListEntry-set : IsSet NodeListEntry
NodeListEntry-set = hlevel

found_prop :
    (list : NodeList) (n : NodeListEntry) → IsProp (node_list_find_node_id list n.node_id ≡ some n)
found_prop list n = (let s : IsSet (Option NodeListEntry) = hlevel NodeListEntry-set in s) _ _

find_of_mem :
    (list : NodeList) (n : NodeListEntry)
    → IsDistinct list
    → Mem n list
    → node_list_find_node_id list n.node_id ≡ some n
unfolding node_list_find_node_id
find_of_mem [] n d m = absurd (not-mem-nil m)
find_of_mem (x ∷ list) n d m =
    Or.elim (found_prop (x ∷ list) n) (mem-cons.0 m) (λ e. ground (arith, e))
      λ rest. ground (arith, find_of_mem list n d.1 rest, ap (λ k. node_list_find_node_id list k))

find-del :
    (list : NodeList) (id j : ℕ)
    → node_list_find_node_id list j ≡ none
    → node_list_find_node_id (node_list_del list id) j ≡ none
unfolding node_list_find_node_id node_list_del
find-del [] id j e = refl
find-del (n ∷ list) id j e = ground (arith, find-del list id j)

IsDistinct-del : (list : NodeList) (id : ℕ) → IsDistinct list → IsDistinct (node_list_del list id)
unfolding node_list_find_node_id node_list_del
IsDistinct-del [] id d = tt
IsDistinct-del (n ∷ list) id d =
    ground (arith, IsDistinct-del list id d.1, find-del list id n.node_id)

eq_loop-perm : (list tmp : NodeList) → eq_loop list tmp ≡ true → Perm list tmp
unfolding eq_loop node_list_is_empty
eq_loop-perm [] [] e = Perm.nil
eq_loop-perm [] (n ∷ tmp) e = cc
eq_loop-perm (n ∷ list) tmp e = elim (Option-cases (node_list_find_node_id tmp n.node_id)) [
  | inl missing ↦ cc (rw (missing, eq_loop) at e)
  | inr (m, found) ↦
      let (same, rest) = and_parts (entry_eq n m) _ (rw (found, eq_loop) at e) in
      Perm.trans (Perm.cons' (entry_eq-eq n m same) (eq_loop-perm list _ rest))
        (Perm.symm (find-perm tmp n.node_id found))
]

perm-eq_loop : (list tmp : NodeList) → IsDistinct tmp → Perm list tmp → eq_loop list tmp ≡ true
unfolding eq_loop node_list_is_empty
perm-eq_loop [] tmp d p = rw (← Perm.nil-eq p)
perm-eq_loop (n ∷ list) tmp d p =
    let found = find_of_mem tmp n d ((Perm.mem_iff p).0 mem-cons_self) in
    let rest = Perm.cons_inv (Perm.trans p (find-perm tmp n.node_id found)) in
    rw (found, eq_loop)
      (rw (entry_eq_refl n) (perm-eq_loop list _ (IsDistinct-del tmp n.node_id d) rest))

-- `node_list_eq` reports two lists as equal only if they hold the same entries, as often, in some
-- order.
pub node_list_eq-perm :
    (grants : ℕ → Bool) (list1 list2 : NodeList)
    → node_list_eq grants list1 list2 ≡ some true
    → Perm list1 list2
unfolding node_list_eq
node_list_eq-perm grants list1 list2 e = elim (Option-cases (node_list_clone grants list2)) [
  | inl failed ↦ cc (rw failed at e)
  | inr (tmp, cloned) ↦
      let matched : some (eq_loop list1 tmp) ≡ some true = rw cloned at e in
      rw (← node_list_clone-eq grants list2 cloned) (eq_loop-perm list1 tmp (cc))
]

-- Where memory is granted and the second list has no two entries of one node id, `node_list_eq`
-- returns 1 exactly if the lists hold the same entries in some order.
pub node_list_eq_iff :
    (grants : ℕ → Bool) (list1 list2 : NodeList)
    → ((k : ℕ) → grants k ≡ true)
    → IsDistinct list2
    → (node_list_eq grants list1 list2 ≡ some true) ↔ Perm list1 list2
unfolding node_list_eq
node_list_eq_iff grants list1 list2 g d = (
  node_list_eq-perm grants list1 list2,
  λ p. rw (node_list_clone_total grants list2 g) (ap some (perm-eq_loop list1 list2 d p)),
)
