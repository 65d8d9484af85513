-- ===== src/Formula/Models.antt =====
-- What the literals and clauses of cube_generator/src/formula mean under an assignment.
use hydra_sat.Base.{
  ℕ, ◌≡◌, refl, Bool, true, false, not, ◌&&◌, ◌||◌, List, [], ◌∷◌, ◌++◌, if◌then◌else◌, ◌==◌, arith,
}
use hydra_sat.Formula.ProblemTypes.{Lit, var, sign}

-- A total assignment of the variables.
abbrev pub Model : Type 0
Model = ℕ → Bool

unfoldable pub holds : Model → Lit → Bool
holds m l = if sign l then not (m (var l)) else m (var l)

module _ {ℓ} {A : Type ℓ} where
  unfoldable pub any_of : (A → Bool) → List A → Bool
  any_of h [] = false
  any_of h (x ∷ xs) = h x || any_of h xs

  unfoldable pub all_of : (A → Bool) → List A → Bool
  all_of h [] = true
  all_of h (x ∷ xs) = h x && all_of h xs

  pub any_of-snoc :
      (h : A → Bool) (xs : List A) (x : A) → any_of h (xs ++ x ∷ []) ≡ (any_of h xs || h x)
  unfolding any_of
  any_of-snoc h [] x = ground arith
  any_of-snoc h (y ∷ xs) x = ground (arith, any_of-snoc h xs x)

  pub all_of-append :
      (h : A → Bool) (xs ys : List A) → all_of h (xs ++ ys) ≡ (all_of h xs && all_of h ys)
  unfolding all_of
  all_of-append h [] ys = refl
  all_of-append h (x ∷ xs) ys = ground (arith, all_of-append h xs ys)

-- A literal on the variable.
unfoldable pub is_in : ℕ → List Lit → Bool
is_in v [] = false
is_in v (l ∷ ls) = (var l == v) || is_in v ls

-- Clauses of literals of any kind.
abbrev pub all_any {ℓ} : {A : Type ℓ} → (A → Bool) → List (List A) → Bool
all_any h = all_of (any_of h)

abbrev pub sat_formula : Model → List (List Lit) → Bool
sat_formula m = all_any (holds m)
