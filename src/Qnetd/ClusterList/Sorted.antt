-- ===== src/Qnetd/ClusterList/Sorted.antt =====
-- The clients of a cluster stand in the order of their node ids.
use corosync_qdevice.Prelude.{
  ℕ, ◌≤◌, inl, inr, List, [], ◌∷◌, ltb, arith, Bool-cases, In, refl, ◌==◌,
}
use corosync_qdevice.Qnetd.Client.{Client}
use corosync_qdevice.Qnetd.ClusterList.{add_client, del_client}

module _ {D : Type 0} where
  -- Node ids do not fall along the list, and are at least `low`.
  abbrev pub IsSortedFrom : ℕ → List (Client D) → Type 0
  IsSortedFrom low [] = Unit
  IsSortedFrom low (c ∷ rest) = (low ≤ c.node_id) × IsSortedFrom c.node_id rest

  IsSortedFrom-mono :
      (low high : ℕ) (cs : List (Client D))
      → low ≤ high
      → IsSortedFrom high cs
      → IsSortedFrom low cs
  IsSortedFrom-mono low high [] h s = tt
  IsSortedFrom-mono low high (c ∷ cs) h s = (omega arith, s.1)

  -- A client that joins a sorted list is on it afterwards, and the list stays sorted.
  pub add_client-IsSortedFrom :
      (low : ℕ) (client : Client D) (cs : List (Client D))
      → low ≤ client.node_id
      → IsSortedFrom low cs
      → IsSortedFrom low (add_client client cs) × In client (add_client client cs)
  unfolding add_client
  add_client-IsSortedFrom low client [] h s = ((h, tt), inl refl)
  add_client-IsSortedFrom low client (c ∷ cs) h s =
      elim (Bool-cases (ltb client.node_id c.node_id)) [
        | inl before ↦ rw before ((h, (ground arith, s.1)), inl refl)
        | inr after ↦
            let (rest, there) = add_client-IsSortedFrom c.node_id client cs (ground arith) s.1 in
            rw after ((s.0, rest), inr there)
      ]

  -- So does the list from which a client is removed.
  pub del_client-IsSortedFrom :
      (low addr : ℕ) (cs : List (Client D))
      → IsSortedFrom low cs
      → IsSortedFrom low (del_client addr cs)
  unfolding del_client
  del_client-IsSortedFrom low addr [] s = tt
  del_client-IsSortedFrom low addr (c ∷ cs) s = elim (Bool-cases (c.addr == addr)) [
    | inl hit ↦ rw hit (IsSortedFrom-mono low c.node_id cs s.0 s.1)
    | inr miss ↦ rw miss (s.0, del_client-IsSortedFrom c.node_id addr cs s.1)
  ]
