-- ===== src/TreeDecomp/Computed.antt =====
-- `getPartialOrderComputed` of cube_generator/CubeGeneratorCLI.cpp over the levels of the stub.
use hydra_sat.Base.{
  elim_some, ℕ, zero, suc, ◌+◌, ◌-◌, ◌^◌, ◌≤◌, ◌<◌, ◌≡◌, refl, sym, subst, ◌∙◌, inl, inr, List,
  Option, none, some, ◌==◌, ==_iff, Bool-cases, length, get_or, set, replicate, length-set,
  length-replicate, get_or-set_self, get_or-set_ne, arith,
}
use hydra_sat.Formula.ProblemTypes.{Lit}
use hydra_sat.TreeDecomp.{
  TreeDecompLocal, get_level, compute_from, get_partial_order_computed, tree_decomp_local,
}
use hydra_sat.TreeDecomp.Degrees.{occurrences, total}
use hydra_sat.TreeDecomp.Levels.{most, most_lt, tree_decomp_local-levels}

module _ {D : Type 0} (one : D) (of_nat : ℕ → D) (truncate : D → ℕ)
    (exact : (k : ℕ) → k < 2 ^ 32 → truncate (of_nat k) ≡ k) where
  -- The vector after the loop over k variables from i on, which all have a level.
  Computed : (ℕ → ℕ) → ℕ → ℕ → List ℕ → Option (List ℕ) → Type 0
  Computed f i k order none = ⊥
  Computed f i k order (some r) =
      (length r ≡ length order)
      × ((v : ℕ) → i ≤ v → v < i + k → get_or r v 0 ≡ f v)
      × ((v : ℕ) → v < i → get_or r v 0 ≡ get_or order v 0)

  compute_from-Computed :
      (t : TreeDecompLocal D) (f : ℕ → ℕ) (k i : ℕ) (order : List ℕ)
      → i + k ≤ length order
      → ((v : ℕ)
          → i ≤ v
          → v < i + k
          → (f v < 2 ^ 32) × (get_level one of_nat t v ≡ some (of_nat (f v))))
      → Computed f i k order (compute_from one of_nat truncate t i k order)
  unfolding compute_from Computed
  compute_from-Computed t f zero i order fits h =
      (refl, (λ v ge lt. absurd (omega arith)), λ v lt. refl)
  compute_from-Computed t f (suc k) i order fits h =
      let (small, e) = h i (omega arith) (omega arith) in
      subst (Computed f i (suc k) order)
        (sym (
          elim_some none
            (λ d. compute_from one of_nat truncate t (suc i) k (set order i (truncate d))) e))
        (go (compute_from one of_nat truncate t (suc i) k order')
          (compute_from-Computed t f k (suc i) order'
            (omega (arith, length-set order i (truncate (of_nat (f i)))))
            (λ v ge lt. h v (omega arith) (omega arith)))
          small)
    where
      order' : List ℕ
      order' = set order i (truncate (of_nat (f i)))

      go :
          (r : Option (List ℕ))
          → Computed f (suc i) k order' r
          → f i < 2 ^ 32
          → Computed f i (suc k) order r
      go none c small = c
      go (some r) (len, inside, before) small = (
        len ∙ length-set order i (truncate (of_nat (f i))),
        at,
        λ v lt.
            before v (omega arith)
            ∙ get_or-set_ne order i v (truncate (of_nat (f i))) 0 (λ e. absurd (omega arith)),
      )
        where
          at : (v : ℕ) → i ≤ v → v < i + suc k → get_or r v 0 ≡ f v
          at v ge lt = elim (Bool-cases (i == v)) [
            | inl same ↦
                let e : i ≡ v = (==_iff i v).0 same in
                before v (omega arith)
                ∙ subst (λ u. get_or order' u 0 ≡ f u) e
                    (get_or-set_self order i (truncate (of_nat (f i))) 0 (omega arith)
                      ∙ exact (f i) small)
            | inr other ↦ inside v (ground arith) (omega arith)
          ]

  -- While runFlowCutter is a stub, the partial order that the generator computes gives each variable one
  -- more than the greatest number of occurrences of a variable, less its own, and no assert fails, for a
  -- formula of fewer than 2^32 - 1 literals and doubles that keep an `unsigned`.
  pub computed_order :
      (arrivals : List ℕ) (n : ℕ) (cs : List (List Lit))
      → of_nat 1 ≡ one
      → total cs < 2 ^ 32 - 1
      → (order : List ℕ) × (get_partial_order_computed one of_nat truncate
            (some (tree_decomp_local one of_nat arrivals n cs))
            n
          ≡ some order)
        × ((v : ℕ) → 1 ≤ v → v ≤ n → get_or order v 0 ≡ suc (most n cs) - occurrences v cs)
  unfolding get_partial_order_computed Computed
  computed_order arrivals n cs unit small =
      go (compute_from one of_nat truncate t 1 n (replicate (n + 1) 1)) (
        compute_from-Computed t (λ v. suc (most n cs) - occurrences v cs) n 1 (replicate (n + 1) 1)
          (omega (arith, length-replicate {A = ℕ} (n + 1) 1))
          (λ v ge lt. (omega (arith, most_lt n cs small), (levels v ge (omega arith)).1)))
    where
      t : TreeDecompLocal D
      t = tree_decomp_local one of_nat arrivals n cs

      levels :
          (v : ℕ)
          → 1 ≤ v
          → v ≤ n
          → (occurrences v cs ≤ most n cs)
            × (get_level one of_nat t v ≡ some (of_nat (suc (most n cs) - occurrences v cs)))
      levels = (tree_decomp_local-levels one of_nat arrivals n cs unit small).1

      go :
          (r : Option (List ℕ))
          → Computed (λ v. suc (most n cs) - occurrences v cs) 1 n (replicate (n + 1) 1) r
          → (order : List ℕ) × (r ≡ some order)
            × ((v : ℕ) → 1 ≤ v → v ≤ n → get_or order v 0 ≡ suc (most n cs) - occurrences v cs)
      go none c = elim c [ ]
      go (some order) (len, inside, before) = (order, refl, λ v ge le. inside v ge (omega arith))
