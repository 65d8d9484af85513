-- ===== src/Cli/Tests.antt =====
-- A small formula, scores and a heuristic for the tests of cube_gen_cli/cube_gen_cli.cpp.
mod Propagation
mod Next
mod Generation
mod Input
use mathlib.Core.Option
use hydra_sat.Base.{
  ℕ, ◌+◌, ◌-◌, ◌*◌, ◌/◌, ◌^◌, ◌≡◌, refl, Bool, true, false, List, [], ◌∷◌, Option, none, some, ℤ,
  pos, negsuc, ltb, ◌==◌, All, arith,
}
use hydra_sat.Cli.Lit.{
  Lit, Model, sat_formula, sat_clause, sat_cube, holds, var, sign, make_lit, make_lit_true,
  make_lit_false,
}
use hydra_sat.Cli.Double.{Double}
use hydra_sat.Cli.Propagator.{
  Propagator, new, propagate, unchecked_enqueue, value, restart, cancel_until_pos,
}
use hydra_sat.Cli.Queue.{drain, push, top, pop, cube_of}
use hydra_sat.Cli.Propagator.Trail.{Below, mentions}
use hydra_sat.Cli.Heuristic.{BranchingCubeHeuristic}
use hydra_sat.Cli.Heuristic.Jwts.{Jwts, new_jwts, next}
use hydra_sat.Cli.Heuristic.Choice.{new_jwts-IsReady, jwts_heuristic}
use hydra_sat.Cli.Generator.{generate}
use hydra_sat.Cli.Generator.Branch.{hits}
use hydra_sat.Cli.Generator.Generate.{run_picks}

abbrev pub lit : ℤ → Lit
lit x = record { x = x }

-- (1 ∨ 2 ∨ 3) ∧ (¬1 ∨ 2)
abbrev pub cnf : List (List Lit)
cnf = (lit (pos 1) ∷ lit (pos 2) ∷ lit (pos 3) ∷ []) ∷ (lit (negsuc 0) ∷ lit (pos 2) ∷ []) ∷ []

pub cnf-Below : All (Below 4) cnf
unfolding var
cnf-Below = omega arith

-- Sixty-fourths: every score of a formula with clauses of at most six literals is a whole number of
-- them. `none` stands for -1.
abbrev pub add_d : Option ℕ → Option ℕ → Option ℕ
add_d (some a) (some b) = some (a + b)
add_d _ _ = none

abbrev pub mul_d : Option ℕ → Option ℕ → Option ℕ
mul_d (some a) (some b) = some (a * b / 64)
mul_d _ _ = none

abbrev pub gt_d : Option ℕ → Option ℕ → Bool
gt_d none b = false
gt_d (some a) none = true
gt_d (some a) (some b) = ltb b a

pub gt_d_irrefl : (a : Option ℕ) → gt_d a a ≡ false
gt_d_irrefl none = refl
gt_d_irrefl (some a) = ground arith

pub gt_d_trans : (a b c : Option ℕ) → gt_d a b ≡ true → gt_d b c ≡ true → gt_d a c ≡ true
gt_d_trans a b c p q = ground arith

pub le_d_trans : (a b c : Option ℕ) → gt_d a b ≡ false → gt_d b c ≡ false → gt_d a c ≡ false
le_d_trans a b c p q = ground arith

abbrev pub sixty_fourths : Double
sixty_fourths = record {
  D = Option ℕ;
  zero_d = some 0;
  one = some 64;
  minus_one = none;
  add = add_d;
  mul = mul_d;
  half_pow = λ k. some (2 ^ (6 - k));
  gt = gt_d;
  gt_irrefl = gt_d_irrefl;
  gt_trans = gt_d_trans;
  le_trans = le_d_trans;
}

-- The heuristic that `--strategy jwts` runs: every variable is on level 1.0.
abbrev pub jwts_3 : Jwts sixty_fourths
jwts_3 = new_jwts sixty_fourths 3 cnf

abbrev pub heuristic : BranchingCubeHeuristic 3
unfolding new_jwts
heuristic =
    jwts_heuristic sixty_fourths (λ _. some 64) jwts_3 (new_jwts-IsReady sixty_fourths 3 cnf)

pub program : Unit {0}
unfolding generate make_lit make_lit_true make_lit_false sign drain propagate new restart value
    unchecked_enqueue cancel_until_pos push top pop cube_of new_jwts next mentions var sat_formula
    sat_clause sat_cube holds run_picks hits
program = tt

abbrev pub never : ℕ → Bool
never _ = false

-- ¬1 ¬2 3
abbrev pub third : Model
third v = v == 3
