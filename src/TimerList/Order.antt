-- ===== src/TimerList/Order.antt =====
-- The order of the heap: no timer expires before its parent.
use corosync_qdevice.Prelude.{
  ℕ, ◌≤◌, ◌<◌, ◌≡◌, ◌≢◌, sym, subst, Bool-cases, inl, inr, ◌⊎◌, ◌==◌, ==_iff, arith,
}
use corosync_qdevice.TimerList.{timer_list_heap_index_parent}

-- Numbers at the positions below `n`: each at least as great as that of its parent.
abbrev pub HeapOn : ℕ → (ℕ → ℕ) → Type 0
HeapOn n k = (i : ℕ) → 0 < i → i < n → k (timer_list_heap_index_parent i) ≤ k i

-- The same, but for the number at one position, which may be too small.
pub record UpOn (n : ℕ) (k : ℕ → ℕ) (pos : ℕ) : Type 0 where
  pub others : (i : ℕ) → 0 < i → i < n → i ≢ pos → k (timer_list_heap_index_parent i) ≤ k i
  pub bridge :
      (i : ℕ)
      → 0 < i
      → i < n
      → timer_list_heap_index_parent i ≡ pos
      → 0 < pos
      → k (timer_list_heap_index_parent pos) ≤ k i

same_or_not : (a b : ℕ) → (a ≡ b) ⊎ (a ≢ b)
same_or_not a b = elim (Bool-cases (a == b)) [
  | inl e ↦ inl ((==_iff a b).0 e)
  | inr e ↦ inr (λ s. ground arith)
]

pub UpOn-top : (n : ℕ) (k : ℕ → ℕ) → UpOn n k 0 → HeapOn n k
UpOn-top n k up i positive inside = up.others i positive inside (λ e. omega arith)

-- The number is not too small after all.
pub UpOn-done :
    (n : ℕ) (k : ℕ → ℕ) (pos : ℕ)
    → UpOn n k pos
    → k (timer_list_heap_index_parent pos) ≤ k pos
    → HeapOn n k
UpOn-done n k pos up fine i positive inside = elim (same_or_not i pos) [
  | inl e ↦ subst (λ p. k (timer_list_heap_index_parent p) ≤ k p) (sym e) fine
  | inr ne ↦ up.others i positive inside ne
]

-- What the exchange of an entry with its parent does to the numbers.
pub record Exchanged (k k' : ℕ → ℕ) (pos parent : ℕ) : Type 0 where
  pub at_pos : k' pos ≡ k parent
  pub at_parent : k' parent ≡ k pos
  pub elsewhere : (i : ℕ) → i ≢ pos → i ≢ parent → k' i ≡ k i

-- The number that is too small moves to its parent's position.
pub UpOn-step :
    (n : ℕ) (k k' : ℕ → ℕ) (pos : ℕ)
    → 0 < pos
    → pos < n
    → Exchanged k k' pos (timer_list_heap_index_parent pos)
    → k pos < k (timer_list_heap_index_parent pos)
    → UpOn n k pos
    → UpOn n k' (timer_list_heap_index_parent pos)
UpOn-step n k k' pos positive inside x less up =
    let parent = timer_list_heap_index_parent pos in
    record {
      others = λ i i_positive i_inside ne.
          let q = timer_list_heap_index_parent i in
          elim (same_or_not i pos) [
            | inl e ↦
                subst (λ p. k' (timer_list_heap_index_parent p) ≤ k' p) (sym e)
                  (omega (arith, x.at_pos, x.at_parent))
            | inr other ↦
                let same = x.elsewhere i other ne in
                elim (same_or_not q pos) [
                  | inl e ↦
                      subst (λ p. k' p ≤ k' i) (sym e)
                        (omega (arith, same, x.at_pos, up.bridge i i_positive i_inside e positive))
                  | inr off ↦ elim (same_or_not q parent) [
                    | inl e ↦
                        let above =
                          subst (λ p. k p ≤ k i) e (up.others i i_positive i_inside other) in
                        subst (λ p. k' p ≤ k' i) (sym e) (omega (arith, same, x.at_parent))
                    | inr away ↦
                        omega (
                          arith,
                          same,
                          x.elsewhere q off away,
                          up.others i i_positive i_inside other,
                        )
                  ]
                ]
          ];
      bridge = λ i i_positive i_inside e parent_positive.
          let top = timer_list_heap_index_parent parent in
          let at_top = x.elsewhere top (λ s. omega arith) (λ s. omega arith) in
          let above = up.others parent parent_positive (omega arith) (λ s. omega arith) in
          elim (same_or_not i pos) [
            | inl s ↦ subst (λ p. k' top ≤ k' p) (sym s) (omega (arith, at_top, above, x.at_pos))
            | inr other ↦
                let same = x.elsewhere i other (λ s. omega arith) in
                let below = subst (λ p. k p ≤ k i) e (up.others i i_positive i_inside other) in
                omega (arith, at_top, above, same, below)
          ];
    }
