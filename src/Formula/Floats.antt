-- ===== src/Formula/Floats.antt =====
-- `Formula::getWeightsInFloat` of cube_generator/src/formula/Formula.cpp.
use hydra_sat.Base.{
  ℕ, ◌≡◌, refl, ap₂, inl, inr, true, and-eq-true, Bool-cases, List, [], ◌∷◌, ◌++◌, map,
}
use hydra_sat.Dimacs.Reader.{
  Numbers, Formula, int_formula, float_formula, DataFormula, all_whole, make_formula,
}

module _ (N : Numbers) (to_float : N.mpz_int.T → N.mpf_float.T) where
  -- Floats replace what the vectors hold, and converted integers are added to it.
  unfoldable pub get_weights_in_float :
      Formula N → List N.mpf_float.T → List N.mpf_float.T → List N.mpf_float.T × List N.mpf_float.T
  get_weights_in_float (float_formula w) lits vars = (w.weight_lit, w.weight_var)
  get_weights_in_float (int_formula w) lits vars =
      (lits ++ map to_float w.weight_lit, vars ++ map to_float w.weight_var)

  module _ (exact : (w : N.mpf_float.T) → N.is_whole w ≡ true → to_float (N.round w) ≡ w) where
    map_round :
        (ws : List N.mpf_float.T) → all_whole N ws ≡ true → map to_float (map N.round ws) ≡ ws
    unfolding all_whole
    map_round [] h = refl
    map_round (w ∷ ws) h =
        let both = and-eq-true (N.is_whole w) (all_whole N ws) h in
        ap₂ ◌∷◌ (exact w both.0) (map_round ws both.1)

    -- The weights of the literals of a formula that was read, taken as floats into empty vectors, are those
    -- that were read, whichever of the two types of formula was made, where a whole number survives the
    -- rounding and the way back.
    pub get_weights_in_float-make_formula :
        (n : ℕ) (form : DataFormula N.mpf_float.T)
        → (get_weights_in_float (make_formula N n form) [] []).0 ≡ form.weight_lit
    unfolding get_weights_in_float make_formula
    get_weights_in_float-make_formula n form = elim (Bool-cases (all_whole N form.weight_lit)) [
      | inl whole ↦ rw whole (map_round form.weight_lit whole)
      | inr broken ↦ rw broken refl
    ]
