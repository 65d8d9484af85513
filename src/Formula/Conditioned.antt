-- ===== src/Formula/Conditioned.antt =====
-- `getConditionedFormula` and `getUnsatProblem` of cube_generator/src/formula/WeightedCNF.hpp: the
-- assignments that satisfy what they return.
pub mod Free
use hydra_sat.Base.{
  ℕ, zero, suc, ◌+◌, ◌-◌, ◌≡◌, refl, ap, ◌∙◌, ◌⊎◌, inl, inr, true, false, ◌&&◌, ◌||◌, List, [], ◌∷◌,
  ◌++◌, map, if◌then◌else◌, ◌==◌, Bool-cases, and-eq-true, get_or, set, replicate, get_or-replicate,
  arith,
}
use hydra_sat.Formula.ProblemTypes.{Lit, var, sign, neg, make_lit}
use hydra_sat.Formula.Models.{Model, holds, any_of, all_of, all_of-append, any_of-snoc, sat_formula}
use hydra_sat.Formula.WeightedCnf.{
  Weight, WeightedCnf, sign_code, assign_units, simplify, condition, get_conditioned_formula,
  get_unsat_problem,
}

pub get_or-set_cases {ℓ} :
    {A : Type ℓ} (xs : List A) (i j : ℕ) (v d : A)
    → (get_or (set xs i v) j d ≡ get_or xs j d) ⊎ ((i ≡ j) × (get_or (set xs i v) j d ≡ v))
get_or-set_cases [] i j v d = inl refl
get_or-set_cases (x ∷ xs) zero zero v d = inr (refl, refl)
get_or-set_cases (x ∷ xs) zero (suc j) v d = inl refl
get_or-set_cases (x ∷ xs) (suc i) zero v d = inl refl
get_or-set_cases (x ∷ xs) (suc i) (suc j) v d = elim (get_or-set_cases xs i j v d) [
  | inl same ↦ inl same
  | inr (here, e) ↦ inr (ap suc here, e)
]

module _ (F : Weight) where
  -- Every value that `value` holds is the one of the assignment.
  abbrev Agrees : Model → List ℕ → Type 0
  Agrees m value = (v : ℕ) → (get_or value v 0 ≡ 0) ⊎ (get_or value v 0 ≡ (if m v then 1 else 2))

  sign_value :
      (m : Model) (l : Lit) (v : ℕ)
      → holds m l ≡ true
      → var l ≡ v
      → sign_code l ≡ (if m v then 1 else 2)
  unfolding holds
  sign_value m l v h e = ground (arith, ap m e)

  set-Agrees :
      (m : Model) (l : Lit) (value : List ℕ)
      → holds m l ≡ true
      → Agrees m value
      → Agrees m (set value (var l) (sign_code l))
  unfolding holds
  set-Agrees m l value h a v = elim (get_or-set_cases value (var l) v (sign_code l) 0) [
    | inl same ↦ rw same (a v)
    | inr (here, e) ↦ inr (e ∙ sign_value m l v h here)
  ]

  assign_units-Agrees :
      (m : Model) (units : List Lit) (value : List ℕ)
      → all_of (holds m) units ≡ true
      → Agrees m value
      → Agrees m (assign_units units value)
  unfolding assign_units all_of
  assign_units-Agrees m [] value h a = a
  assign_units-Agrees m (l ∷ ls) value h a =
      let (hl, hs) = and-eq-true (holds m l) (all_of (holds m) ls) h in
      assign_units-Agrees m ls (set value (var l) (sign_code l)) hs (set-Agrees m l value hl a)

  simplify_lem :
      (m : Model) (value : List ℕ) (c scl : List Lit)
      → Agrees m value
      → ((simplify value c scl).1 || any_of (holds m) (simplify value c scl).0)
        ≡ (any_of (holds m) scl || any_of (holds m) c)
  unfolding simplify any_of holds
  simplify_lem m value [] scl a = ground arith
  simplify_lem m value (l ∷ c) scl a = elim (Bool-cases (sign_code l == get_or value (var l) 0)) [
    | inl met ↦ rw (met, simplify) (ground (arith, a (var l)))
    | inr unmet ↦ elim (Bool-cases (get_or value (var l) 0 == 0)) [
      | inl unset ↦
          rw (unmet, unset, simplify)
            (simplify_lem m value c (scl ++ l ∷ []) a ∙ ground (arith, any_of-snoc (holds m) scl l))
      | inr given ↦
          rw (unmet, given, simplify) (simplify_lem m value c scl a ∙ ground (arith, a (var l)))
    ]
  ]

  condition_lem :
      (m : Model) (value : List ℕ) (cs : List (List Lit))
      → Agrees m value
      → sat_formula m (condition value cs) ≡ sat_formula m cs
  unfolding condition all_of any_of
  condition_lem m value [] a = refl
  condition_lem m value (c ∷ cs) a =
      ground (arith, condition_lem m value cs a, simplify_lem m value c [] a)

  all_any_units :
      (m : Model) (units : List Lit)
      → sat_formula m (map (λ l. l ∷ []) units) ≡ all_of (holds m) units
  unfolding all_of any_of
  all_any_units m [] = refl
  all_any_units m (l ∷ ls) = ground (arith, all_any_units m ls)

  -- An assignment satisfies the conditioned formula exactly when it satisfies the formula and every
  -- unit; units that contradict one another are no exception.
  pub conditioned_models :
      (w : WeightedCnf F) (units : List Lit) (m : Model)
      → sat_formula m (get_conditioned_formula F w units).clauses
        ≡ (all_of (holds m) units && sat_formula m w.clauses)
  unfolding get_conditioned_formula
  conditioned_models w units m = elim (Bool-cases (all_of (holds m) units)) [
    | inl met ↦ rw met (
        split w units m
        ∙ rw (all_any_units m units, met)
            (condition_lem m (assign_units units (replicate (w.nb_var + 1) 0)) w.clauses
              (agrees w units m met)))
    | inr unmet ↦ rw unmet (split w units m ∙ rw (all_any_units m units, unmet) refl)
  ]
    where
      split :
          (w : WeightedCnf F) (units : List Lit) (m : Model)
          → sat_formula m (get_conditioned_formula F w units).clauses ≡ (
              sat_formula m (map (λ l. l ∷ []) units)
              && sat_formula m
                  (condition (assign_units units (replicate (w.nb_var + 1) 0)) w.clauses))
      split w units m =
          all_of-append (any_of (holds m)) (map (λ l. l ∷ []) units)
            (condition (assign_units units (replicate (w.nb_var + 1) 0)) w.clauses)

      agrees :
          (w : WeightedCnf F) (units : List Lit) (m : Model)
          → all_of (holds m) units ≡ true
          → Agrees m (assign_units units (replicate (w.nb_var + 1) 0))
      agrees w units m met =
          assign_units-Agrees m units (replicate (w.nb_var + 1) 0) met
            (λ v. inl (get_or-replicate (w.nb_var + 1) v 0))

  -- No assignment satisfies the problem that `getUnsatProblem` makes.
  pub unsat_problem_models :
      (w : WeightedCnf F) (m : Model) → sat_formula m (get_unsat_problem F w).clauses ≡ false
  unfolding get_unsat_problem all_of any_of holds neg sign var make_lit
  unsat_problem_models w m = ground arith
