-- ===== src/Cli/Generator/Fill.antt =====
-- Filling the propagator of cube_gen_cli/cube_gen_cli.cpp with the literals of a cube.
use mathlib.Core.Path.{subst₂}
use mathlib.Core.List.{append-nil, append_assoc}
use hydra_sat.Base.{
  ℕ, ◌≡◌, refl, sym, ap, subst, Bool, true, false, List, [], ◌∷◌, ◌++◌, if◌then◌else◌, ltb, arith,
}
use hydra_sat.Cli.Lit.{Lit, var}
use hydra_sat.Cli.Propagator.{Propagator, restart, value, unchecked_enqueue}
use hydra_sat.Cli.Propagator.Trail.{mentions, Distinct, Below, Distinct-disjoint}
use hydra_sat.Cli.Propagator.Clause.{value_unset}
use hydra_sat.Cli.Propagator.Invariant.{IsValid, unchecked_enqueue-IsValid}
use hydra_sat.Cli.Propagator.Reset.{restart-IsValid}
use hydra_sat.Cli.Generator.{fill}

module _ (cs : List (List Lit)) (n : ℕ) where
  abbrev Filled : List Lit → Bool → Propagator → Type 0
  Filled t u q = IsValid cs n q × (q.trail ≡ t) × (q.unsat ≡ u)

  fill-Filled :
      (ls : List Lit) (p : Propagator)
      → IsValid cs n p
      → Distinct (p.trail ++ ls)
      → Below n ls
      → Filled (p.trail ++ ls) p.unsat (fill ls p)
  unfolding fill unchecked_enqueue
  fill-Filled [] p v d b = (v, sym (append-nil p.trail), refl)
  fill-Filled (l ∷ ls) p v d b =
      let fresh : mentions (var l) p.trail ≡ false =
        Distinct-disjoint (var l) p.trail (l ∷ ls) d (unfold mentions in ground arith) in
      let free : value p.assign l ≡ 2 = value_unset p.assign p.trail l v.reflects fresh in
      let test : ltb 1 (value p.assign l) ≡ true = ground arith in
      let regroup : (p.trail ++ l ∷ []) ++ ls ≡ p.trail ++ l ∷ ls =
        append_assoc p.trail (l ∷ []) ls in
      let step : fill (l ∷ ls) p ≡ fill ls (unchecked_enqueue p l) =
        ap (λ b. fill ls (if b then unchecked_enqueue p l else p)) test in
      subst₂ (λ t q. Filled t p.unsat q) regroup (sym step)
        (fill-Filled ls (unchecked_enqueue p l) (unchecked_enqueue-IsValid cs n p l b.0 fresh v)
          (subst Distinct (sym regroup) d) b.1)

  -- A cube of distinct variables is put on the trail as it is.
  pub fill-restart :
      (ls : List Lit) (p : Propagator)
      → IsValid cs n p
      → Distinct ls
      → Below n ls
      → IsValid cs n (fill ls (restart p))
        × ((fill ls (restart p)).trail ≡ ls)
        × ((fill ls (restart p)).unsat ≡ false)
  unfolding restart
  fill-restart ls p v d b = fill-Filled ls (restart p) (restart-IsValid cs n p v).0 d b
