-- ===== src/Cli/Double.antt =====
-- The `double`s that the scores and levels of cube_gen_cli/cube_gen_cli.cpp are made of.
use hydra_sat.Base.{ℕ, ◌≡◌, Bool, true, false}

-- The `double`s of the source, without NaN, and the operations on them that the heuristics take.
-- `gt a b` is a > b.
pub record Double : Type 1 where
  pub D : Type 0
  pub zero_d : D
  pub one : D
  pub minus_one : D
  pub add : D → D → D
  pub mul : D → D → D
  pub half_pow : ℕ → D
  pub gt : D → D → Bool
  pub gt_irrefl : (a : D) → gt a a ≡ false
  pub gt_trans : (a b c : D) → gt a b ≡ true → gt b c ≡ true → gt a c ≡ true
  pub le_trans : (a b c : D) → gt a b ≡ false → gt b c ≡ false → gt a c ≡ false
