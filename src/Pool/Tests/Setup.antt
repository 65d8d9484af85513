-- ===== src/Pool/Tests/Setup.antt =====
-- `generate` of cube_generator/CubeGeneratorCLI.cpp on the formula of one variable without a clause, with one
-- worker and a library that selects the first variable.
use mathlib.Core.List.{append-nil}
use hydra_sat.Base.{
  ℕ, zero, suc, ◌≡◌, ◌≤◌, refl, sym, ap, ◌∙◌, not, take_append, ltb, take, Bool, true, false, List,
  [], ◌∷◌, ◌++◌, none, some, length, arith,
}
use hydra_sat.Formula.ProblemTypes.{Lit, var, sign, make_lit_true, make_lit_false}
use hydra_sat.Formula.Models.{Model, holds, all_of, is_in}
use hydra_sat.Formula.WeightedCnf.{mp_int}
use hydra_sat.D4Heuristic.{score_vsads, new, next, mark, collect, select_from, scoring_of}
use hydra_sat.D4Heuristic.Marks.{listed}
use hydra_sat.D4Heuristic.Tests.{library, selects, first}
use hydra_sat.D4Heuristic.Next.{start}
use hydra_sat.Pool.Queue.{push, cube_of, drain}
use hydra_sat.Pool.Splitter.{Heuristic, split, fill, branch_on, add_branch, init_queue}
use hydra_sat.Pool.System.{
  System, begin, main_at, main_step, worker_at, worker_step, expand, take_results, accept, Run,
}
use hydra_sat.Pool.Measure.{sum_lits}
use hydra_sat.Pool.Lawful.{BipeLaws, Proper, is_in-middle}
use hydra_sat.Pool.Counted.{IfSome-some}
use hydra_sat.Pool.Shared.{hit}
use hydra_sat.Pool.Setup.{
  WrapperMinisat, Setup, d4_heuristic, ask, answer, with_heuristic, set_up, check_cube, solver_of,
}
use hydra_sat.Pool.Generated.{generated_models}
use hydra_sat.Pool.Tests.{value_of, naive, exec, exec-Run, good}

snoc-Proper :
    (p : List Lit) (l : Lit)
    → Proper 1 p
    → var l ≤ 1
    → is_in (var l) p ≡ false
    → Proper 1 (p ++ l ∷ [])
unfolding is_in
snoc-Proper [] l h le out = (refl, le, tt)
snoc-Proper (x ∷ p) l h le out = (
  ground (arith, is_in-middle (var x) p l [], h.0, out),
  h.1,
  snoc-Proper p l h.2 le (ground (arith, out)),
)

is_in-take : (v k : ℕ) (p : List Lit) → is_in v p ≡ false → is_in v (take k p) ≡ false
unfolding is_in
is_in-take v zero p h = refl
is_in-take v (suc k) [] h = refl
is_in-take v (suc k) (x ∷ p) h = ground (arith, h, is_in-take v k p)

take-Proper : (k : ℕ) (p : List Lit) → Proper 1 p → Proper 1 (take k p)
take-Proper zero p h = tt
take-Proper (suc k) [] h = tt
take-Proper (suc k) (x ∷ p) h = (is_in-take (var x) k p h.0, h.1, take-Proper k p h.2)

value_of_lem : (p : List Lit) (l : Lit) → ltb 1 (value_of p l) ≡ not (is_in (var l) p)
unfolding value_of is_in
value_of_lem [] l = refl
value_of_lem (k ∷ p) l = ground (arith, value_of_lem p l)

naive_laws : BipeLaws naive 1 []
unfolding all_of
naive_laws = record {
  Valid = Proper 1;
  root = [];
  proper = λ h. h;
  begins = λ {p} h. (p, refl);
  make_valid = tt;
  restart_valid = λ p h. tt;
  restart_trail = λ p h. refl;
  value_lem = λ p l h le. value_of_lem p l;
  enqueue_valid = λ p l h le out. snoc-Proper p l h le out;
  enqueue_trail = λ p l h le out. refl;
  propagate_valid = λ p h. h;
  propagate_trail = λ p h. ([], sym (append-nil p));
  cancel_valid = λ p xs ys h e. take-Proper (length xs) p h;
  cancel_trail = λ p xs ys h e. ap (take (length xs)) e ∙ take_append xs ys;
  make_sound = λ m sat. refl;
  propagate_sound = λ m p sat h sound. (refl, sound);
}

abbrev all_true : Model
all_true v = true

-- A solver that refutes nothing, which is right for the formula.
abbrev satisfied : WrapperMinisat library
satisfied = record { Solver = List ℕ; init_solver = λ m. m; solve = λ v c. true }

by_code : Unit {0}
unfolding first listed value_of make_lit_true make_lit_false var sign holds all_of push cube_of
    drain split fill branch_on add_branch init_queue begin main_at main_step worker_at worker_step
    expand take_results accept sum_lits new scoring_of next mark collect select_from ask answer
    with_heuristic set_up check_cube exec
by_code = tt

abbrev heuristic : Heuristic
heuristic = d4_heuristic library ℕ

abbrev solver : List Lit → Bool
solver = check_cube library satisfied (solver_of library satisfied 1 0 [])

abbrev set_up_1 : Setup library ℕ naive satisfied
set_up_1 =
    with_heuristic library ℕ 1 (λ k. k) naive satisfied 1 (0 ∷ []) 1 []
      (start library 1 0 [] score_vsads)

set_up_1-made : set_up library ℕ 1 (λ k. k) naive satisfied 1 (0 ∷ []) mp_int 1 0 [] ≡ some set_up_1
unfolding set_up new with_heuristic
set_up_1-made = refl

abbrev end_1 : System naive heuristic
unfolding exec
end_1 = elim (exec heuristic solver 2 good set_up_1.system) [ none ↦ set_up_1.system | some s ↦ s ]

end_1-Run : Run naive heuristic solver 2 set_up_1.system end_1
unfolding by_code
end_1-Run =
    IfSome-some (Run naive heuristic solver 2 set_up_1.system)
      (exec heuristic solver 2 good set_up_1.system) end_1 refl
      (exec-Run heuristic solver 2 good set_up_1.system set_up_1.system Run.start)

generated_models_example : (sum_lits (hit all_true) end_1.cubes ≡ 1) × (◌≡◌ {A = Bool} false false)
unfolding by_code
generated_models_example =
    generated_models library ℕ 1 (λ k. k) naive satisfied 1 2 (0 ∷ []) mp_int 1 0 [] set_up_1
      naive_laws selects (λ c m e. absurd (cc e)) set_up_1-made false end_1-Run refl refl all_true
      refl
