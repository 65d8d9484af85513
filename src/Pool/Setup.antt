-- ===== src/Pool/Setup.antt =====
-- What `generate` of cube_generator/CubeGeneratorCLI.cpp makes before its loop: the heuristic, the partial
-- order, the solvers of the workers and their threads, the propagator and the queue.
-- The solver of d4, like its scores, is a parameter.
use hydra_sat.Base.{ℕ, Bool, List, map, Option, none, some, ℤ, replicate}
use hydra_sat.Formula.ProblemTypes.{Lit}
use hydra_sat.Formula.WeightedCnf.{FormulaTypeEnum}
use hydra_sat.Options.Tables.{vsads}
use hydra_sat.D4Heuristic.{
  Library, D4BranchingCubeHeuristic, Chosen, var_undef, failed, branch_on, made, no_type,
  unsupported, to_d4, new, next,
}
use hydra_sat.TreeDecomp.{TreeDecompLocal, tree_decomp_local}
use hydra_sat.Pool.Splitter.{BipePropagator, Heuristic}
use hydra_sat.Pool.System.{System, begin}

-- The solver as the code uses it: what initSolver makes of the formula that the manager holds, and whether
-- solve, called with literals, finds them and the formula satisfiable. The class WrapperMinisat of d4 as it is
-- in 3rdParty has no such overload: its solve() takes the literals from setAssumption. The heuristic has no
-- getProblemManager either, which the code calls for the argument of initSolver.
pub record WrapperMinisat (L : Library) : Type 1 where
  pub Solver : Type 0
  pub init_solver : L.Manager → Solver
  pub solve : Solver → List L.D4Lit → Bool

module _ (L : Library) (M : WrapperMinisat L) where
  -- What initSolver makes of a formula.
  abbrev pub solver_of : ℕ → L.Weights → List (List Lit) → M.Solver
  solver_of n weights cs = M.init_solver (L.new_manager n weights (map (to_d4 L) cs))

  -- What workerLoop asks of a solver, with the literals of the cube as the assumptions.
  unfoldable pub check_cube : M.Solver → List Lit → Bool
  check_cube solver cube = M.solve solver (to_d4 L cube)

-- The answer of `next`, as createCubes takes it.
unfoldable pub answer : Chosen → Option (Option ℕ)
answer failed = none
answer var_undef = some none
answer (branch_on v) = some (some v)

module _ (L : Library) (D : Type 0) where
  -- m_branchingHeuristic, and m_partialOrderHeuristic that it is given.
  abbrev pub D4State : Type 0
  D4State = D4BranchingCubeHeuristic L × TreeDecompLocal D

  unfoldable pub ask : List Lit → D4State → Option (Option ℕ) × D4State
  unfolding answer next
  ask ls (h, order) = let (v, h') = next L ls order h in (answer v, (h', order))

  abbrev pub d4_heuristic : Heuristic
  d4_heuristic = record { State = D4State; next = ask }

  -- The members of CubeGeneratorCLI when the loop begins.
  pub record Setup (B : BipePropagator) (M : WrapperMinisat L) : Type 0 where
    pub nb_variable : ℕ
    pub treewidth : ℤ
    pub solvers : List M.Solver
    pub system : System B d4_heuristic

  module _ (one : D) (of_nat : ℕ → D) (B : BipePropagator) (M : WrapperMinisat L) where
    -- Once the heuristic is there. `arrivals` are the threads of the tree decomposition in the order in
    -- which they get the lock.
    unfoldable pub with_heuristic :
        ℕ → List ℕ → ℕ → List (List Lit) → D4BranchingCubeHeuristic L → Setup B M
    unfolding tree_decomp_local begin
    with_heuristic nb_threads arrivals n cs h =
        let order = tree_decomp_local one of_nat arrivals n cs in
        record {
          nb_variable = n;
          treewidth = order.treewidth;
          solvers = replicate nb_threads (M.init_solver h.manager);
          system = begin B d4_heuristic (h, order) nb_threads n cs;
        }

    -- `generate` up to its loop, on a formula with its type, weights and clauses; `none` if the
    -- constructor of the heuristic fails an assertion or throws.
    unfoldable pub set_up :
        ℕ → List ℕ → FormulaTypeEnum → ℕ → L.Weights → List (List Lit) → Option (Setup B M)
    unfolding new with_heuristic
    set_up nb_threads arrivals type n weights cs = elim (new L type n weights cs vsads) [
      | made h ↦ some (with_heuristic nb_threads arrivals n cs h)
      | no_type ↦ none
      | unsupported ↦ none
    ]
