-- ===== src/Pool/Generated.antt =====
-- `generate` of cube_generator/CubeGeneratorCLI.cpp with the heuristic, the solvers and the queue that it makes,
-- over the libraries d4 and bipe.
use hydra_sat.Base.{ℕ, ◌≤◌, ◌≡◌, refl, sym, subst, ◌∙◌, Bool, true, false, List, [], some}
use hydra_sat.Formula.ProblemTypes.{Lit}
use hydra_sat.Formula.Models.{Model, holds, all_of, sat_formula, is_in}
use hydra_sat.Formula.WeightedCnf.{FormulaTypeEnum, mp_none, mp_int, mp_float}
use hydra_sat.D4Heuristic.{Library, Chosen, new, score_vsads}
use hydra_sat.D4Heuristic.Next.{
  Selects, IsClear, IsChoice, none_left, one_left, all_skipped, next-IsChoice, next-IsClear, start,
  start-IsClear,
}
use hydra_sat.Pool.Splitter.{BipePropagator, chosen}
use hydra_sat.Pool.System.{System, Run, finished}
use hydra_sat.Pool.Measure.{sum_lits}
use hydra_sat.Pool.Lawful.{BipeLaws}
use hydra_sat.Pool.Shared.{hit}
use hydra_sat.Pool.Models.{finished_models}
use hydra_sat.Pool.Setup.{
  WrapperMinisat, Setup, D4State, d4_heuristic, ask, answer, with_heuristic, set_up, check_cube,
  solver_of,
}

module _ (L : Library) (D : Type 0) where
  answer-IsChoice :
      {n : ℕ} {ls : List Lit} {m : L.Manager} {c : Chosen} (v : ℕ)
      → IsChoice L n ls m c
      → answer c ≡ some (some v)
      → (v ≤ n) × (is_in v ls ≡ false)
  unfolding answer
  answer-IsChoice v (none_left full) e = absurd (cc e)
  answer-IsChoice {n} {ls} v (one_left {v = w} left kept) e =
      let same : w ≡ v = cc e in subst (λ w. (w ≤ n) × (is_in w ls ≡ false)) same (left.1, left.2)
  answer-IsChoice v (all_skipped left skipped) e = absurd (cc e)

  -- Between two calls no variable is marked, and the variables are those of the formula.
  abbrev IsReady : ℕ → D4State L D → Type 0
  IsReady n s = IsClear L s.0 × (s.0.nb_variables ≡ n)

  module _ (selects : Selects L) (n : ℕ) where
    ask_picks :
        (s : D4State L D) (ls : List Lit) (v : ℕ)
        → IsReady n s
        → chosen (d4_heuristic L D) s ls ≡ some (some v)
        → (v ≤ n) × (is_in v ls ≡ false)
    unfolding ask
    ask_picks (h, order) ls v (clear, same) e =
        subst (λ n. (v ≤ n) × (is_in v ls ≡ false)) same
          (answer-IsChoice v (next-IsChoice L ls order h selects clear).1 e)

    ask_ready : (ls : List Lit) (s : D4State L D) → IsReady n s → IsReady n (ask L D ls s).1
    unfolding ask
    ask_ready ls (h, order) (clear, same) =
        let after = next-IsClear L ls order h selects clear in (after.0, after.1 ∙ same)

module _ (L : Library) (D : Type 0) (one : D) (of_nat : ℕ → D) (B : BipePropagator)
    (M : WrapperMinisat L) where
  set_up_lem :
      (nb_threads : ℕ) (arrivals : List ℕ) (type : FormulaTypeEnum) (n : ℕ) (weights : L.Weights)
      (cs : List (List Lit)) (s : Setup L D B M)
      → set_up L D one of_nat B M nb_threads arrivals type n weights cs ≡ some s
      → with_heuristic L D one of_nat B M nb_threads arrivals n cs
          (start L n weights cs score_vsads)
        ≡ s
  unfolding set_up new
  set_up_lem nb_threads arrivals mp_none n weights cs s e = absurd (cc e)
  set_up_lem nb_threads arrivals mp_int n weights cs s e = cc e
  set_up_lem nb_threads arrivals mp_float n weights cs s e = cc e

  -- Over a propagator that behaves as that of bipe, scores of d4 that select one of the variables that they
  -- get or nothing where d4 skips them all, and a solver that, called with the literals of a cube, refutes
  -- none with a model of the formula: whatever the threads do from the state that `generate` makes, once its
  -- loop has ended with no result left uncollected, each model of the formula satisfies exactly one cube of
  -- the output, and where `generate` reports unsatisfiability there is no model. A build that checks
  -- assertions is meant: where d4 skips all the variables that a cube leaves open, the program stops.
  pub generated_models :
      (nb_threads limit : ℕ) (arrivals : List ℕ) (type : FormulaTypeEnum) (n : ℕ)
      (weights : L.Weights) (cs : List (List Lit)) (s : Setup L D B M)
      → BipeLaws B n cs
      → Selects L
      → ((c : List Lit) (m : Model)
          → check_cube L M (solver_of L M n weights cs) c ≡ false
          → sat_formula m cs ≡ true
          → all_of (holds m) c ≡ false)
      → set_up L D one of_nat B M nb_threads arrivals type n weights cs ≡ some s
      → {t : System B (d4_heuristic L D)} (unsat : Bool)
      → Run B (d4_heuristic L D) (check_cube L M (solver_of L M n weights cs)) limit s.system t
      → t.main ≡ finished unsat
      → t.results ≡ []
      → (m : Model) → sat_formula m cs ≡ true
      → (sum_lits (hit m) t.cubes ≡ 1) × (unsat ≡ false)
  unfolding with_heuristic
  generated_models nb_threads limit arrivals type n weights cs s laws selects refutes e {t} unsat
        r =
      finished_models laws (d4_heuristic L D) (IsReady L D n)
        (λ h ready ls v c. ask_picks L D selects n h ls v ready c) (ask_ready L D selects n) _
        (start-IsClear L n weights cs score_vsads, refl)
        (check_cube L M (solver_of L M n weights cs)) limit nb_threads refutes unsat
        (subst
          (λ (s : Setup L D B M).
            Run B (d4_heuristic L D) (check_cube L M (solver_of L M n weights cs)) limit s.system t)
          (sym (set_up_lem nb_threads arrivals type n weights cs s e)) r)
