-- ===== src/Qnetd/Ffsplit/Stable/Spec.antt =====
-- What a stable membership means.
use corosync_qdevice.Prelude.{
  ℕ, ◌≡◌, ◌≢◌, ◌⊎◌, inl, inr, true, false, ◌&&◌, some, List, [], ◌∷◌, arith, is_some, In, and_parts,
  sym, ◌∙◌, ==-ne,
}
use corosync_qdevice.Tlv.Types.{RingId, tlv_ring_id_eq}
use corosync_qdevice.NodeList.{NodeList, NodeListEntry, node_list_find_node_id}
use corosync_qdevice.Qnetd.Client.{qnetd_cluster_find_client_by_node_id}
use corosync_qdevice.Qnetd.Ffsplit.Data.{
  Event, FfsplitClient, is_self, config_of, membership_of, ring_id_of,
}
use corosync_qdevice.Qnetd.Ffsplit.Stable.{
  all_found, same_config, configs_inner, configs_outer, same_membership, members_inner, own_members,
  members_outer, is_membership_stable,
}

-- The node id is on the list.
abbrev pub Has : NodeList → ℕ → Type 0
Has list id = is_some (node_list_find_node_id list id) ≡ true

-- Every node id of the first list is on the second.
abbrev pub Within : NodeList → NodeList → Type 0
Within list1 list2 = (id : ℕ) → Has list1 id → Has list2 id

-- A client that takes part in the decision.
abbrev pub Takes : Event → List FfsplitClient → FfsplitClient → Type 0
Takes e clients c = In c clients × (is_self e c && e.client_leaving ≡ false)

Has-cons :
    (n : NodeListEntry) (list : NodeList) (id : ℕ)
    → Has (n ∷ list) id
    → (n.node_id ≡ id) ⊎ Has list id
unfolding node_list_find_node_id
Has-cons n list id m = ground arith

all_found-Within : (list1 list2 : NodeList) → all_found list1 list2 ≡ true → Within list1 list2
unfolding all_found node_list_find_node_id
all_found-Within [] list2 h id m = cc
all_found-Within (n ∷ list1) list2 h id m = elim (Has-cons n list1 id m) [
  | inl e ↦ rw (← e) (ground arith)
  | inr later ↦ all_found-Within list1 list2 (ground arith) id later
]

configs_inner-In :
    (e : Event) (c : FfsplitClient) (clients : List FfsplitClient) (d : FfsplitClient)
    → configs_inner e c clients ≡ true
    → In d clients
    → same_config e c d ≡ true
unfolding configs_inner
configs_inner-In e c [] d h m = absurd m
configs_inner-In e c (x ∷ clients) d h (inl p) = rw p (ground arith)
configs_inner-In e c (x ∷ clients) d h (inr m) = configs_inner-In e c clients d (ground arith) m

configs_outer-In :
    (e : Event) (all clients : List FfsplitClient) (c : FfsplitClient)
    → configs_outer e all clients ≡ true
    → In c clients
    → configs_inner e c all ≡ true
unfolding configs_outer
configs_outer-In e all [] c h m = absurd m
configs_outer-In e all (x ∷ clients) c h (inl p) = rw p (ground arith)
configs_outer-In e all (x ∷ clients) c h (inr m) = configs_outer-In e all clients c (ground arith) m

members_outer-In :
    (e : Event) (all clients : List FfsplitClient) (c : FfsplitClient)
    → members_outer e all clients ≡ true
    → In c clients
    → own_members e all c ≡ true
unfolding members_outer
members_outer-In e all [] c h m = absurd m
members_outer-In e all (x ∷ clients) c h (inl p) = rw p (ground arith)
members_outer-In e all (x ∷ clients) c h (inr m) = members_outer-In e all clients c (ground arith) m

members_inner-Has :
    (e : Event) (all : List FfsplitClient) (c : FfsplitClient) (list : NodeList) (id : ℕ)
    → members_inner e all c list ≡ true
    → Has list id
    → same_membership e c (qnetd_cluster_find_client_by_node_id all id) ≡ true
unfolding members_inner node_list_find_node_id
members_inner-Has e all c [] id h m = cc
members_inner-Has e all c (n ∷ list) id h m = elim (Has-cons n list id m) [
  | inl p ↦ rw (← p) (ground arith)
  | inr later ↦ members_inner-Has e all c list id (ground arith) later
]

ring_id_eq-eq : (r1 r2 : RingId) → tlv_ring_id_eq r1 r2 ≡ true → r1 ≡ r2
ring_id_eq-eq r1 r2 h = ground arith

same_membership-some :
    (e : Event) (c x : FfsplitClient)
    → same_membership e c (some x) ≡ true
    → is_self e x && e.client_leaving ≡ false
    → (ring_id_of e c ≡ ring_id_of e x) × (all_found (membership_of e c) (membership_of e x) ≡ true)
unfolding same_membership
same_membership-some e c x h takes =
    let (rings, lists) = and_parts _ _ (rw (takes, same_membership) at h) in
    (ring_id_eq-eq (ring_id_of e c) (ring_id_of e x) rings, lists)

same_config-all_found :
    (e : Event) (c d : FfsplitClient)
    → same_config e c d ≡ true
    → c.addr ≢ d.addr
    → is_self e c && e.client_leaving ≡ false
    → is_self e d && e.client_leaving ≡ false
    → all_found (config_of e c) (config_of e d) ≡ true
unfolding same_config
same_config-all_found e c d h apart tc td =
    let h' = rw (==-ne c.addr d.addr apart) at h in rw (tc, td) at h'

own_members-inner :
    (e : Event) (clients : List FfsplitClient) (c : FfsplitClient)
    → own_members e clients c ≡ true
    → is_self e c && e.client_leaving ≡ false
    → members_inner e clients c (membership_of e c) ≡ true
unfolding own_members
own_members-inner e clients c h tc = rw tc at h

-- The parts of the two tests that matter, apart.
is_membership_stable-parts :
    (e : Event) (clients : List FfsplitClient)
    → is_membership_stable e clients ≡ true
    → (configs_outer e clients clients ≡ true) × (members_outer e clients clients ≡ true)
unfolding is_membership_stable
is_membership_stable-parts e clients h = and_parts _ _ h

module _ (e : Event) (clients : List FfsplitClient)
    (stable : is_membership_stable e clients ≡ true) where
  -- Where the membership is stable, any two clients at different addresses that take part have
  -- configuration lists of the same node ids.
  pub stable_configs :
      (c d : FfsplitClient)
      → Takes e clients c
      → Takes e clients d
      → c.addr ≢ d.addr
      → Within (config_of e c) (config_of e d)
  stable_configs c d tc td apart =
      all_found-Within _ _ (same_config-all_found e c d inner apart tc.1 td.1)
    where
      inner : same_config e c d ≡ true
      inner =
          configs_inner-In e c clients d
            (configs_outer-In e clients clients c (is_membership_stable-parts e clients stable).0
              tc.0)
            td.0

  stable_member :
      (c x : FfsplitClient) (id : ℕ)
      → Takes e clients c
      → Takes e clients x
      → Has (membership_of e c) id
      → qnetd_cluster_find_client_by_node_id clients id ≡ some x
      → (ring_id_of e c ≡ ring_id_of e x) × Within (membership_of e c) (membership_of e x)
  stable_member c x id tc tx m found =
      let own =
        members_outer-In e clients clients c (is_membership_stable-parts e clients stable).1 tc.0 in
      let walk : members_inner e clients c (membership_of e c) ≡ true =
        own_members-inner e clients c own tc.1 in
      let (rings, lists) =
        same_membership-some e c x (rw found at (members_inner-Has e clients c _ id walk m)) tx.1 in
      (rings, all_found-Within _ _ lists)

  -- The client is the one that is found by its node id, and is on its own membership list.
  abbrev IsOwn : FfsplitClient → Type 0
  IsOwn c =
      (qnetd_cluster_find_client_by_node_id clients c.node_id ≡ some c)
      × Has (membership_of e c) c.node_id

  -- Seen from two members of one partition, in both directions.
  stable_pair :
      (c x : FfsplitClient)
      → Takes e clients c
      → Takes e clients x
      → IsOwn c
      → Has (membership_of e c) x.node_id
      → qnetd_cluster_find_client_by_node_id clients x.node_id ≡ some x
      → (ring_id_of e c ≡ ring_id_of e x)
        × Within (membership_of e c) (membership_of e x)
        × Within (membership_of e x) (membership_of e c)
  stable_pair c x tc tx own m found =
      let (rings, there) = stable_member c x x.node_id tc tx m found in
      (rings, there, (stable_member x c c.node_id tx tc (there c.node_id own.1) own.0).1)

  -- Where the membership is stable, the views of the clients that take part divide the cluster: two
  -- clients whose membership lists share a node whose client takes part too have the same ring id,
  -- and lists of the same node ids. Each of the two is on its own list, and node ids lead to the
  -- clients that bear them.
  pub stable_partitions :
      (c d x : FfsplitClient)
      → Takes e clients c
      → Takes e clients d
      → Takes e clients x
      → IsOwn c
      → IsOwn d
      → qnetd_cluster_find_client_by_node_id clients x.node_id ≡ some x
      → Has (membership_of e c) x.node_id
      → Has (membership_of e d) x.node_id
      → (ring_id_of e c ≡ ring_id_of e d) × Within (membership_of e c) (membership_of e d)
  stable_partitions c d x tc td tx oc od found mc md =
      let (rc, there, _) = stable_pair c x tc tx oc mc found in
      let (rd, _, back) = stable_pair d x td tx od md found in
      (rc ∙ sym rd, λ id h. back id (there id h))
