-- ===== src/Dimacs/Clause.antt =====
-- What `parse_DIMACS_main` of cube_generator/src/formula/ParserDimacs.cpp does with the literals of a
-- clause: it sorts them, drops those that are there twice, and tells whether the clause is a tautology.
pub mod Refined
pub mod Meaning
use hydra_sat.Base.{
  ℕ, zero, suc, ◌-◌, Bool, true, false, List, [], ◌∷◌, Option, none, some, if◌then◌else◌, ltb, ◌==◌,
  length, get_or, set, take,
}
use hydra_sat.Formula.ProblemTypes.{Lit, neg}

-- std::sort under operator< of Lit.
unfoldable pub insert : Lit → List Lit → List Lit
insert l [] = l ∷ []
insert l (k ∷ ks) = let rest = insert l ks in if ltb k.m_x l.m_x then k ∷ rest else l ∷ k ∷ ks

unfoldable pub sort : List Lit → List Lit
unfolding insert
sort [] = []
sort (l ∷ ls) = insert l (sort ls)

abbrev pub eq_lit : Lit → Lit → Bool
eq_lit k l = k.m_x == l.m_x

-- Lit(), for a read out of range.
abbrev pub lit_zero : Lit
lit_zero = record { m_x = 0 }

-- The loop over `n` more literals, at the index `i`, with `j` literals kept: isSat, j and the vector.
unfoldable pub compact : ℕ → ℕ → ℕ → List Lit → Bool × ℕ × List Lit
compact zero i j lits = (false, j, lits)
compact (suc n) i j lits =
    let l = get_or lits i lit_zero in
    let last = get_or lits (j - 1) lit_zero in
    elim (eq_lit l last) [
      | true ↦ compact n (suc i) j lits
      | false ↦ elim (eq_lit l (neg last)) [
        | true ↦ (true, suc j, set lits j l)
        | false ↦ compact n (suc i) (suc j) (set lits j l)
      ]
    ]

-- From the sort to the end: the clause that is added, if one is, to a clause that is not empty.
unfoldable pub normalize : List Lit → Option (List Lit)
unfolding sort compact
normalize lits =
    let (is_sat, j, kept) = compact (length lits - 1) 1 1 (sort lits) in
    if is_sat then none else some (take j kept)
