-- ===== src/Formula/Uniform.antt =====
-- The formula of cube_generator/src/formula/WeightedCNF.hpp in which every literal has the same weight.
use hydra_sat.Base.{
  ℕ, zero, suc, ◌+◌, ◌*◌, ◌<◌, ◌≤◌, ◌≡◌, refl, ap, ap₂, false, List, [], ◌∷◌, get_or, replicate,
  arith,
}
use hydra_sat.Formula.ProblemTypes.{Lit}
use hydra_sat.Formula.WeightedCnf.{Weight, WeightedCnf, sum_weights, new}

-- No projected variables, and the weight `w` for every literal.
abbrev pub uniform : (F : Weight) → ℕ → F.T → List (List Lit) → WeightedCnf F
uniform F n w cs = record {
  clauses = cs;
  projected_vars = [];
  is_unsat = false;
  nb_var = n;
  weight_lit = replicate (2 * (n + 1)) w;
  weight_var = replicate (n + 1) (F.add w w);
}

get_or-replicate_lt : {A : Type 0} (n i : ℕ) (a d : A) → i < n → get_or (replicate n a) i d ≡ a
get_or-replicate_lt zero i a d lt = elim lt [ ]
get_or-replicate_lt (suc n) zero a d lt = refl
get_or-replicate_lt (suc n) (suc i) a d lt = get_or-replicate_lt n i a d (omega arith)

module _ (F : Weight) where
  sum_weights-replicate :
      (m : ℕ) (w : F.T) (i k : ℕ)
      → 2 * (i + k) ≤ m
      → sum_weights F (replicate m w) i k ≡ replicate k (F.add w w)
  unfolding sum_weights
  sum_weights-replicate m w i zero le = refl
  sum_weights-replicate m w i (suc k) le =
      ap₂ (◌∷◌)
        (ap₂ F.add (get_or-replicate_lt m (2 * i) w F.one (omega arith))
          (get_or-replicate_lt m (2 * i + 1) w F.one (omega arith)))
        (sum_weights-replicate m w (i + 1) k (omega arith))

  pub new-replicate :
      (n : ℕ) (w : F.T) (cs : List (List Lit))
      → new F n (replicate (2 * (n + 1)) w) [] cs ≡ uniform F n w cs
  unfolding new
  new-replicate n w cs =
      ap (λ ws. record (uniform F n w cs) { weight_var = ws })
        (sum_weights-replicate (2 * (n + 1)) w 0 (n + 1) (omega arith))
