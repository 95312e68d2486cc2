-- ===== src/Qnetd/Ffsplit/Callbacks/Abort.antt =====
-- When a disconnection ends the server: the assertion of the tie-breaker meets an empty list.
use corosync_qdevice.Prelude.{
  ℕ, ◌≡◌, ◌≢◌, refl, ap, ◌∙◌, Bool, true, false, ◌&&◌, ◌⊎◌, none, some, List, [], ◌∷◌, ◌==◌, arith,
  All, In, Bool-cases, inl, inr, ==_iff,
}
use corosync_qdevice.Tlv.Types.{TieBreakerMode, Heuristics}
use corosync_qdevice.NodeList.{NodeList, node_list_size}
use corosync_qdevice.Qnetd.Ffsplit.Data.{
  Event, FfsplitClient, FfsplitCluster, is_self, config_of, membership_of,
}
use corosync_qdevice.Qnetd.Ffsplit.Stable.{
  all_found, same_config, configs_inner, configs_outer, members_inner, own_members, members_outer,
  is_membership_stable,
}
use corosync_qdevice.Qnetd.Ffsplit.Partition.{
  preferred_node_id, is_preferred_partition, break_tie, cmp_halves, partition_cmp, score,
  stats_loop, get_active_clients_in_partition_stats,
}
use corosync_qdevice.Qnetd.Ffsplit.Select.{partition_of, better, select_loop, select_partition}
use corosync_qdevice.Qnetd.Ffsplit.Do.{ffsplit_do}
use corosync_qdevice.Qnetd.Ffsplit.Callbacks.{leave_event, client_disconnect}

-- A client that has been initialised, and has sent no node list yet.
pub record IsNew (c : FfsplitClient) : Type 0 where
  pub no_config : c.configuration_node_list ≡ []
  pub no_membership : c.last_membership_node_list ≡ []
  pub by_list : c.tie_breaker.mode ≢ TieBreakerMode.node_id

abbrev pub AreNew : FfsplitClient → List FfsplitClient → Type 0
AreNew client = All (λ c. (c.node_id ≡ client.node_id) ⊎ IsNew c)

module _ (grants room : ℕ → Bool) (client : FfsplitClient) (cluster : FfsplitCluster) where
  abbrev e : Event
  e = leave_event grants room client cluster

  -- What is asked of the lists of a client that does not leave holds of empty ones.
  leaves_or_empty :
      (c : FfsplitClient)
      → (c.node_id ≡ client.node_id) ⊎ IsNew c
      → ((is_self e c && true) ≡ true)
        ⊎ (((is_self e c && true) ≡ false)
            × IsNew c
            × (config_of e c ≡ [])
            × (membership_of e c ≡ []))
  leaves_or_empty c (inl same) = inl (rw ((==_iff _ _).1 same))
  leaves_or_empty c (inr new) = elim (Bool-cases (c.node_id == client.node_id)) [
    | inl hit ↦ inl (rw hit)
    | inr miss ↦ inr (rw miss, new, rw miss new.no_config, rw miss new.no_membership)
  ]

  same_config_new :
      (c d : FfsplitClient) → (c.node_id ≡ client.node_id) ⊎ IsNew c → same_config e c d ≡ true
  unfolding same_config all_found
  same_config_new c d h = elim (leaves_or_empty c h) [
    | inl leaves ↦ rw leaves (ground arith)
    | inr (stays, new, config, _) ↦ rw (stays, config) (ground arith)
  ]

  configs_inner_new :
      (c : FfsplitClient) (ds : List FfsplitClient)
      → (c.node_id ≡ client.node_id) ⊎ IsNew c
      → configs_inner e c ds ≡ true
  unfolding configs_inner
  configs_inner_new c [] h = refl
  configs_inner_new c (d ∷ ds) h = rw (same_config_new c d h) (configs_inner_new c ds h)

  configs_outer_new :
      (all cs : List FfsplitClient) → AreNew client cs → configs_outer e all cs ≡ true
  unfolding configs_outer
  configs_outer_new all [] h = refl
  configs_outer_new all (c ∷ cs) h = rw (configs_inner_new c all h.0) (configs_outer_new all cs h.1)

  own_members_new :
      (all : List FfsplitClient) (c : FfsplitClient)
      → (c.node_id ≡ client.node_id) ⊎ IsNew c
      → own_members e all c ≡ true
  unfolding own_members members_inner
  own_members_new all c h = elim (leaves_or_empty c h) [
    | inl leaves ↦ rw leaves
    | inr (stays, new, _, membership) ↦ rw (stays, membership)
  ]

  members_outer_new :
      (all cs : List FfsplitClient) → AreNew client cs → members_outer e all cs ≡ true
  unfolding members_outer
  members_outer_new all [] h = refl
  members_outer_new all (c ∷ cs) h = rw (own_members_new all c h.0) (members_outer_new all cs h.1)

  stable_new : AreNew client cluster.client_list → is_membership_stable e cluster.client_list ≡ true
  unfolding is_membership_stable
  stable_new h = rw (configs_outer_new _ _ h) (members_outer_new _ _ h)

  -- With empty lists all counts are 0, and the tie-breaker looks for the first entry.
  no_preference :
      (c : FfsplitClient) (m : TieBreakerMode)
      → m ≢ TieBreakerMode.node_id
      → preferred_node_id c [] m ≡ none
  unfolding preferred_node_id
  no_preference c m h = ground arith

  partition_cmp_empty :
      (all : List FfsplitClient) (c : FfsplitClient) (h : Heuristics) (quorate : NodeList)
      (keep : Bool)
      → c.tie_breaker.mode ≢ TieBreakerMode.node_id
      → partition_cmp all
          (record { client = c; config_node_list = []; membership_node_list = []; heuristics = h })
          none
          quorate
          keep
        ≡ none
  unfolding partition_cmp cmp_halves get_active_clients_in_partition_stats stats_loop score
      break_tie is_preferred_partition node_list_size
  partition_cmp_empty all c h quorate keep n = rw (no_preference c c.tie_breaker.mode n)

  partition_cmp_new :
      (all : List FfsplitClient) (c : FfsplitClient) (quorate : NodeList) (keep : Bool)
      → IsNew c
      → config_of e c ≡ []
      → membership_of e c ≡ []
      → partition_cmp all (partition_of e c) none quorate keep ≡ none
  partition_cmp_new all c quorate keep new config membership =
      rw (config, membership) (partition_cmp_empty all c _ quorate keep new.by_list)

  better_new :
      (all : List FfsplitClient) (c : FfsplitClient) (quorate : NodeList) (keep : Bool)
      → is_self e c && true ≡ false
      → IsNew c
      → config_of e c ≡ []
      → membership_of e c ≡ []
      → better e all quorate keep c none ≡ none
  unfolding better
  better_new all c quorate keep stays new config membership =
      rw (stays, partition_cmp_new all c quorate keep new config membership)

  better_leaves :
      (all : List FfsplitClient) (c : FfsplitClient) (quorate : NodeList) (keep : Bool)
      → is_self e c && true ≡ true
      → better e all quorate keep c none ≡ some none
  unfolding better
  better_leaves all c quorate keep leaves = rw leaves

  still_there :
      (x c : FfsplitClient) (cs : List FfsplitClient)
      → In c (x ∷ cs)
      → x.node_id ≡ client.node_id
      → c.node_id ≢ client.node_id
      → In c cs
  still_there x c cs (inl p) same other =
      absurd (other (ap (λ (d : FfsplitClient). d.node_id) p ∙ same))
  still_there x c cs (inr m) same other = m

  select_loop_new :
      (all cs : List FfsplitClient) (quorate : NodeList) (keep : Bool) (c : FfsplitClient)
      → AreNew client cs
      → In c cs
      → c.node_id ≢ client.node_id
      → select_loop e all quorate keep cs none ≡ none
  unfolding select_loop
  select_loop_new all [] quorate keep c h m other = absurd m
  select_loop_new all (x ∷ cs) quorate keep c h m other = elim (leaves_or_empty x h.0) [
    | inr (stays, new, config, membership) ↦
        rw (better_new all x quorate keep stays new config membership, select_loop)
    | inl leaves ↦
        rw (better_leaves all x quorate keep leaves, select_loop)
          (select_loop_new all cs quorate keep c h.1 (still_there x c cs m (ground arith) other)
            other)
  ]

  -- A client disconnects from a server that is not going down, while every other client of its
  -- cluster is new, that is has sent neither node list and breaks ties by the lowest or the highest
  -- node id. If there is such a client, the server does not survive: an assertion fails. Other
  -- clients of the same node id do not count.
  pub client_disconnect_aborts :
      (other : FfsplitClient)
      → AreNew client cluster.client_list
      → In other cluster.client_list
      → other.node_id ≢ client.node_id
      → client_disconnect grants room client cluster false ≡ none
  unfolding client_disconnect ffsplit_do select_partition
  client_disconnect_aborts other h m apart =
      rw (stable_new h, select_loop_new cluster.client_list cluster.client_list _ _ other h m apart)
