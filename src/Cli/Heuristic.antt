-- ===== src/Cli/Heuristic.antt =====
-- `BranchingCubeHeuristic` of cube_gen_cli/cube_gen_cli.cpp: what the cube generator asks of the
-- heuristic that picks the next variable.
pub mod Jwts
pub mod Marks
pub mod Choice
use hydra_sat.Base.{ℕ, ◌≤◌, ◌≡◌, false, List, Option, some}
use hydra_sat.Cli.Lit.{Lit}
use hydra_sat.Cli.Propagator.Trail.{mentions}

-- `next` of a heuristic over `n` variables; `none` is var_Undef. It picks a variable of the formula
-- that the cube leaves open.
pub record BranchingCubeHeuristic (n : ℕ) : Type 0 where
  pub next : List Lit → Option ℕ
  pub next_range : (lits : List Lit) (v : ℕ) → next lits ≡ some v → (1 ≤ v) × (v ≤ n)
  pub next_open : (lits : List Lit) (v : ℕ) → next lits ≡ some v → mentions v lits ≡ false
