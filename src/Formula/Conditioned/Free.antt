-- ===== src/Formula/Conditioned/Free.antt =====
-- `getConditionedFormula` of cube_generator/src/formula/WeightedCNF.hpp: no clause that it keeps has a
-- variable of a unit.
use hydra_sat.Base.{
  ℕ, ◌+◌, ◌≤◌, ◌<◌, ◌≡◌, refl, sym, ap, ◌∙◌, ◌≢◌, inl, inr, Bool, true, false, List, [], ◌∷◌, ◌++◌,
  map, if◌then◌else◌, ◌==◌, ==_iff, Bool-cases, length, get_or, set, replicate, All, All-append,
  All-mono, length-set, length-replicate, get_or-set_self, arith,
}
use hydra_sat.Formula.ProblemTypes.{Lit, var}
use hydra_sat.Formula.Models.{any_of}
use hydra_sat.Formula.WeightedCnf.{
  Weight, WeightedCnf, sign_code, assign_units, simplify, condition, get_conditioned_formula,
}
use hydra_sat.Formula.Conditioned.{get_or-set_cases}

-- The literals that `value` leaves open.
abbrev IsOpen : List ℕ → Lit → Type 0
IsOpen value l = get_or value (var l) 0 ≡ 0

assign_units_keeps :
    (ls : List Lit) (value : List ℕ) (v : ℕ)
    → get_or value v 0 ≢ 0
    → get_or (assign_units ls value) v 0 ≢ 0
unfolding assign_units
assign_units_keeps [] value v given = given
assign_units_keeps (l ∷ ls) value v given =
    assign_units_keeps ls (set value (var l) (sign_code l)) v
      (elim (get_or-set_cases value (var l) v (sign_code l) 0) [
        | inl same ↦ λ e. given (sym same ∙ e)
        | inr (here, e) ↦ ground arith
      ])

abbrev pub is_on : ℕ → Lit → Bool
is_on v u = var u == v

assign_units_sets :
    (ls : List Lit) (value : List ℕ) (v : ℕ)
    → All (λ u. var u < length value) ls
    → any_of (is_on v) ls ≡ true
    → get_or (assign_units ls value) v 0 ≢ 0
unfolding assign_units any_of
assign_units_sets [] value v lt on = absurd (ground arith)
assign_units_sets (l ∷ ls) value v lt on = elim (Bool-cases (var l == v)) [
  | inl here ↦ assign_units_keeps ls (set value (var l) (sign_code l)) v (
      ground (
        arith,
        get_or-set_self value (var l) (sign_code l) 0 lt.0,
        ap (λ i. get_or (set value (var l) (sign_code l)) i 0) ((==_iff (var l) v).0 here),
      ))
  | inr other ↦
      assign_units_sets ls (set value (var l) (sign_code l)) v
        (All-mono (λ u. var u < length value)
          (λ u. var u < length (set value (var l) (sign_code l))) ls
          (λ u h. omega (arith, length-set value (var l) (sign_code l))) lt.1)
        (ground arith)
]

simplify-IsOpen :
    (value : List ℕ) (c scl : List Lit)
    → All (IsOpen value) scl
    → All (IsOpen value) (simplify value c scl).0
unfolding simplify
simplify-IsOpen value [] scl h = h
simplify-IsOpen value (l ∷ c) scl h = elim (Bool-cases (sign_code l == get_or value (var l) 0)) [
  | inl met ↦ rw (met, simplify) (kept value l scl h)
  | inr unmet ↦
      rw (unmet, simplify)
        (simplify-IsOpen value c (if get_or value (var l) 0 == 0 then scl ++ l ∷ [] else scl)
          (kept value l scl h))
]
  where
    kept :
        (value : List ℕ) (l : Lit) (scl : List Lit)
        → All (IsOpen value) scl
        → All (IsOpen value) (if get_or value (var l) 0 == 0 then scl ++ l ∷ [] else scl)
    kept value l scl h = elim (Bool-cases (get_or value (var l) 0 == 0)) [
      | inl unset ↦ rw unset (
          All-append (IsOpen value) scl (l ∷ []) h
            ((==_iff (get_or value (var l) 0) 0).0 unset, tt))
      | inr given ↦ rw given h
    ]

condition-IsOpen :
    (value : List ℕ) (cs : List (List Lit)) → All (All (IsOpen value)) (condition value cs)
unfolding condition
condition-IsOpen value [] = tt
condition-IsOpen value (c ∷ cs) = elim (Bool-cases (simplify value c []).1) [
  | inl met ↦ rw met (condition-IsOpen value cs)
  | inr unmet ↦ rw unmet (simplify-IsOpen value c [] tt, condition-IsOpen value cs)
]

-- Where the units are on variables of the formula, the conditioned formula is the units, a clause
-- each, and clauses in which no variable of a unit occurs.
pub conditioned_free :
    (F : Weight) (w : WeightedCnf F) (units : List Lit)
    → All (λ u. var u ≤ w.nb_var) units
    → (rest : List (List Lit)) × ((get_conditioned_formula F w units).clauses
        ≡ map (λ l. l ∷ []) units ++ rest)
      × All (All (λ l. any_of (is_on (var l)) units ≡ false)) rest
unfolding get_conditioned_formula
conditioned_free F w units below =
    let value = assign_units units (replicate (w.nb_var + 1) 0) in
    (
      condition value w.clauses,
      refl,
      All-mono (All (IsOpen value)) (All (λ l. any_of (is_on (var l)) units ≡ false))
          (condition value w.clauses)
          (λ c.
            All-mono (IsOpen value) (λ l. any_of (is_on (var l)) units ≡ false) c
              (λ l open_l. elim (Bool-cases (any_of (is_on (var l)) units)) [
                | inl on ↦ absurd (
                    assign_units_sets units (replicate (w.nb_var + 1) 0) (var l) in_range on open_l)
                | inr off ↦ off
              ]))
          (condition-IsOpen value w.clauses),
    )
  where
    in_range : All (λ u. var u < length {A = ℕ} (replicate (w.nb_var + 1) 0)) units
    in_range =
        All-mono (λ u. var u ≤ w.nb_var) (λ u. var u < length {A = ℕ} (replicate (w.nb_var + 1) 0))
          units (λ u h. omega (arith, length-replicate {A = ℕ} (w.nb_var + 1) 0)) below
