-- ===== src/TreeDecomp/Degrees.antt =====
-- The degrees that cube_generator/partialOrderHeuristic/PartialOrderHeuristicTreeDecompLocal.cpp counts.
use hydra_sat.Base.{
  ℕ, zero, suc, ◌+◌, ◌%◌, ◌^◌, ◌≤◌, ◌<◌, ◌≡◌, refl, sym, subst, ◌∙◌, ◌⊎◌, inl, inr, List, [], ◌∷◌,
  if◌then◌else◌, ltb, ◌==◌, ==_iff, Bool-cases, length, get_or, length-set, get_or-set_self,
  get_or-set_ne, arith,
}
use hydra_sat.Formula.ProblemTypes.{Lit, var}
use hydra_sat.TreeDecomp.{increment, count_lits, count_clauses, max_element}

-- How often a variable is in a clause, and in a formula.
unfoldable pub occurs_in : ℕ → List Lit → ℕ
occurs_in v [] = 0
occurs_in v (l ∷ ls) = (if var l == v then 1 else 0) + occurs_in v ls

unfoldable pub occurrences : ℕ → List (List Lit) → ℕ
unfolding occurs_in
occurrences v [] = 0
occurrences v (c ∷ cs) = occurs_in v c + occurrences v cs

unfoldable pub total : List (List Lit) → ℕ
total [] = 0
total (c ∷ cs) = length c + total cs

occurs_in_le : (v : ℕ) (ls : List Lit) → occurs_in v ls ≤ length ls
unfolding occurs_in
occurs_in_le v [] = omega arith
occurs_in_le v (l ∷ ls) = ground (arith, occurs_in_le v ls)

pub occurrences_le : (v : ℕ) (cs : List (List Lit)) → occurrences v cs ≤ total cs
unfolding occurrences total
occurrences_le v [] = omega arith
occurrences_le v (c ∷ cs) = omega (arith, occurs_in_le v c, occurrences_le v cs)

get_or-increment :
    (w v : ℕ) (degree : List ℕ)
    → v < length degree
    → get_or degree v 0 + 1 < 2 ^ 32
    → get_or (increment w degree) v 0 ≡ (if w == v then 1 else 0) + get_or degree v 0
get_or-increment w v degree lt small = elim (Bool-cases (w == v)) [
  | inl same ↦
      let e : w ≡ v = (==_iff w v).0 same in
      rw (same) (
        subst (λ u. get_or (increment u degree) v 0 ≡ 1 + get_or degree v 0) (sym e)
          (get_or-set_self degree v _ 0 lt ∙ omega arith))
  | inr other ↦ rw (other) (get_or-set_ne degree w v _ 0 (λ e. absurd (ground arith)) ∙ omega arith)
]

length-count_lits :
    (ls : List Lit) (degree : List ℕ) → length (count_lits ls degree) ≡ length degree
unfolding count_lits
length-count_lits [] degree = refl
length-count_lits (l ∷ ls) degree =
    length-count_lits ls (increment (var l) degree) ∙ length-set degree (var l) _

pub length-count_clauses :
    (cs : List (List Lit)) (degree : List ℕ) → length (count_clauses cs degree) ≡ length degree
unfolding count_clauses
length-count_clauses [] degree = refl
length-count_clauses (c ∷ cs) degree =
    length-count_clauses cs (count_lits c degree) ∙ length-count_lits c degree

get_or-count_lits :
    (ls : List Lit) (v : ℕ) (degree : List ℕ)
    → v < length degree
    → get_or degree v 0 + length ls < 2 ^ 32
    → get_or (count_lits ls degree) v 0 ≡ occurs_in v ls + get_or degree v 0
unfolding count_lits occurs_in
get_or-count_lits [] v degree lt small = omega arith
get_or-count_lits (l ∷ ls) v degree lt small =
    let one = get_or-increment (var l) v degree lt (omega arith) in
    get_or-count_lits ls v (increment (var l) degree)
      (omega (arith, length-set degree (var l) ((get_or degree (var l) 0 + 1) % 2 ^ 32)))
      (ground (arith, one))
    ∙ ground (arith, one)

pub get_or-count_clauses :
    (cs : List (List Lit)) (v : ℕ) (degree : List ℕ)
    → v < length degree
    → get_or degree v 0 + total cs < 2 ^ 32
    → get_or (count_clauses cs degree) v 0 ≡ occurrences v cs + get_or degree v 0
unfolding count_clauses occurrences total
get_or-count_clauses [] v degree lt small = omega arith
get_or-count_clauses (c ∷ cs) v degree lt small =
    let first = get_or-count_lits c v degree lt (omega arith) in
    get_or-count_clauses cs v (count_lits c degree) (omega (arith, length-count_lits c degree))
      (omega (arith, first, occurs_in_le v c))
    ∙ omega (arith, first)

-- The greatest element is above every element, and it is one of them or 0.
pub get_or_le_max : (ds : List ℕ) (i : ℕ) → get_or ds i 0 ≤ max_element ds
unfolding max_element
get_or_le_max [] i = omega arith
get_or_le_max (d ∷ ds) zero = ground arith
get_or_le_max (d ∷ ds) (suc i) = ground (arith, get_or_le_max ds i)

pub max_element-cases :
    (ds : List ℕ)
    → (max_element ds ≡ 0) ⊎ ((i : ℕ) × (i < length ds) × (get_or ds i 0 ≡ max_element ds))
unfolding max_element
max_element-cases [] = inl refl
max_element-cases (d ∷ ds) = elim (Bool-cases (ltb (max_element ds) d)) [
  | inl lt ↦ inr (0, omega arith, sym (rw (lt) refl))
  | inr ge ↦ elim (max_element-cases ds) [
    | inl e ↦ inl (rw (ge) e)
    | inr (i, lt, e) ↦ inr (suc i, omega arith, e ∙ sym (rw (ge) refl))
  ]
]
