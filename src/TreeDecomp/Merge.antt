-- ===== src/TreeDecomp/Merge.antt =====
-- The threads of cube_generator/partialOrderHeuristic/PartialOrderHeuristicTreeDecompLocal.cpp: the width that
-- remains does not depend on the order in which they get the lock.
use hydra_sat.Base.{
  ℕ, ◌≡◌, refl, sym, ap, ap₂, ◌∙◌, inl, inr, List, [], ◌∷◌, map, ℤ, pos, negsuc, if◌then◌else◌, ltb,
  ◌==◌, Bool-cases, arith,
}
use mathlib.Core.List.{Permᴰ, Perm}
use mathlib.Core.Logic.{∥∥₁_elim}
use hydra_sat.Formula.ProblemTypes.{Lit}
use mathlib.Core.List.Perm
use native.Mathlib.Decide.{ℕ_discrete}
use hydra_sat.TreeDecomp.{Best, offer, merge, from_results, no_best, int_max}

-- The smaller of a width, if it is known, and a number.
abbrev pub min_width : ℤ → ℕ → ℕ
min_width (negsuc n) b = b
min_width (pos w) b = if ltb w b then w else b

-- The least of the known widths and `b`.
unfoldable pub least : List ℤ → ℕ → ℕ
least [] b = b
least (w ∷ ws) b = least ws (min_width w b)

min_width-swap : (v w : ℤ) (b : ℕ) → min_width v (min_width w b) ≡ min_width w (min_width v b)
min_width-swap (pos v) (pos w) b = ground arith
min_width-swap (pos v) (negsuc w) b = refl
min_width-swap (negsuc v) (pos w) b = refl
min_width-swap (negsuc v) (negsuc w) b = refl

least-Permᴰ : {vs ws : List ℤ} → Permᴰ vs ws → (b : ℕ) → least vs b ≡ least ws b
unfolding least
least-Permᴰ Permᴰ.nil b = refl
least-Permᴰ (Permᴰ.cons {b = w} {l₂ = ws} e p) b =
    least-Permᴰ p _ ∙ ap (λ v. least ws (min_width v b)) e
least-Permᴰ (Permᴰ.swap {a = v} {b = w} {l = ws} e f) b =
    ap (least ws) (min_width-swap w v b ∙ ap₂ (λ x y. min_width x (min_width y b)) e f)
least-Permᴰ (Permᴰ.trans p q) b = least-Permᴰ p b ∙ least-Permᴰ q b

least-Perm : {vs ws : List ℤ} → Perm vs ws → (b : ℕ) → least vs b ≡ least ws b
least-Perm p b = ∥∥₁_elim p (hlevel ℕ_discrete) (λ q. least-Permᴰ q b)

module _ {D : Type 0} where
  offer-min_width :
      (r : ℤ × List D) (best : Best D) → (offer r best).best_width ≡ min_width r.0 best.best_width
  unfolding offer
  offer-min_width (negsuc n, order) best = refl
  offer-min_width (pos w, order) best = elim (Bool-cases (ltb w best.best_width)) [
    | inl lt ↦ rw (lt) refl
    | inr ge ↦ rw (ge) refl
  ]

  -- The width that remains is the least of the known ones and of the first.
  pub merge-least :
      (rs : List (ℤ × List D)) (best : Best D)
      → (merge rs best).best_width ≡ least (map (λ r. r.0) rs) best.best_width
  unfolding merge least
  merge-least [] best = refl
  merge-least (r ∷ rs) best =
      merge-least rs (offer r best) ∙ ap (least (map (λ r. r.0) rs)) (offer-min_width r best)

-- The treewidth is the same in whatever order the threads get the lock.
pub treewidth-Perm :
    {D : Type 0} (one : D) (of_nat : ℕ → D) {rs rs' : List (ℤ × List D)}
    → Perm rs rs'
    → (n : ℕ) (cs : List (List Lit))
    → (from_results one of_nat rs n cs).treewidth ≡ (from_results one of_nat rs' n cs).treewidth
unfolding from_results
treewidth-Perm one of_nat {rs} {rs'} p n cs =
    ap (λ w. if w == int_max then negsuc 0 else pos w)
      (merge-least rs (no_best one of_nat n)
        ∙ least-Perm (Perm.map (λ r. r.0) p) int_max
        ∙ sym (merge-least rs' (no_best one of_nat n)))
