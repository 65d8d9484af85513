-- ===== src/Cli/Order.antt =====
-- `PartialOrderHeuristic` of cube_gen_cli/cube_gen_cli.cpp: no order, or the levels of the min-degree elimination,
-- and their normalization.
use hydra_sat.Base.{
  ℕ, zero, suc, Bool, ◌&&◌, List, [], ◌∷◌, map, if◌then◌else◌, ltb, length, get_or, set, drop,
}
use hydra_sat.Cli.Lit.{Lit}
use hydra_sat.Cli.Double.{Double}
use hydra_sat.Cli.MinDegree.{min_degree}

-- More of the arithmetic of double: division, subtraction, and the conversion of an `int`.
pub record Arithmetic (F : Double) : Type 0 where
  pub div : F.D → F.D → F.D
  pub sub : F.D → F.D → F.D
  pub of_nat : ℕ → F.D

module _ (F : Double) (A : Arithmetic F) where
  open F use {D, zero_d, one, add, mul, gt}
  open A use {div, of_nat}

  -- *std::max_element, from the first element on; 0.0 for no element, for which the source reads past the
  -- end.
  unfoldable pub max_from : D → List D → D
  max_from m [] = m
  max_from m (x ∷ xs) = max_from (if gt x m then x else m) xs

  unfoldable pub max_element : List D → D
  unfolding max_from
  max_element [] = zero_d
  max_element (x ∷ xs) = max_from x xs

  -- m_level[v] = m_level[v] / mx * n + 1.0 for `k` variables from `v` on.
  unfoldable pub rescale : D → ℕ → ℕ → ℕ → List D → List D
  rescale mx n v zero levels = levels
  rescale mx n v (suc k) levels =
      rescale mx n (suc v) k
        (set levels v (add (mul (div (get_or levels v zero_d) mx) (of_nat n)) one))

  unfoldable pub normalize : ℕ → List D → List D
  unfolding max_element rescale
  normalize n levels =
      let mx = max_element (drop 1 levels) in
      if gt mx zero_d then rescale mx n 1 n levels else levels

  -- The two classes.
  pub data PartialOrderHeuristic : Type 0 where
    no_heuristic : PartialOrderHeuristic
    min_degree_heuristic : List D → PartialOrderHeuristic

  unfoldable pub make : Bool → ℕ → List (List Lit) → PartialOrderHeuristic
  unfolding normalize min_degree
  make use_min_deg n cs =
      if use_min_deg
      then min_degree_heuristic (normalize n (map of_nat (min_degree n cs).level))
      else no_heuristic

  -- getLevel of both, for a variable that is not negative.
  unfoldable pub get_level : PartialOrderHeuristic → ℕ → D
  get_level no_heuristic v = one
  get_level (min_degree_heuristic levels) v =
      if ltb 0 v && ltb v (length levels) then get_or levels v one else one
