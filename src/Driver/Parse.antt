-- ===== src/Driver/Parse.antt =====
-- `parseDIMACS` of cube_generator/main.cpp, over what the standard streams make of the lines of a file.
use hydra_sat.Base.{
  ℕ, zero, suc, ◌+◌, ◌*◌, ◌≤◌, ◌≡◌, sym, ap, ◌∙◌, Bool, true, false, List, [], ◌∷◌, ◌++◌, map,
  Option, none, some, ℤ, pos, negsuc, abs, is_negative, eqb_ℤ, if◌then◌else◌, replicate, All, arith,
}
use mathlib.Core.List.{append_assoc, append-nil}
use hydra_sat.Formula.ProblemTypes.{Lit, var, human, make_lit, human-nonzero, make_lit-human}
use hydra_sat.Formula.WeightedCnf.{Weight, WeightedCnf, new}
use hydra_sat.Formula.Uniform.{uniform, new-replicate}

-- A line: empty or a comment, a line p with the number that `>>` reads into nbVar, 0 if it reads none, or
-- another; and the integers that `>>` reads from it, up to its end if the line has nothing else.
pub record FileLine : Type 0 where
  pub is_skipped : Bool
  pub header : Option ℤ
  pub numbers : List ℤ
  pub is_clean : Bool

-- The first loop: nbVar, and the lines after it.
unfoldable pub read_header : List FileLine → ℤ × List FileLine
read_header [] = (pos 0, [])
read_header (l ∷ ls) =
    let rest = read_header ls in
    if l.is_skipped then rest else elim l.header [ none ↦ rest | some n ↦ (n, ls) ]

-- in >> lit reads on over the ends of lines, until it fails.
unfoldable pub numbers_of : List FileLine → List ℤ
numbers_of [] = []
numbers_of (l ∷ ls) =
    let rest = numbers_of ls in if l.is_clean then l.numbers ++ rest else l.numbers

-- The flush of a clause without a 0.
abbrev pub flush : List Lit → List (List Lit) → List (List Lit)
flush [] clauses = clauses
flush (l ∷ clause) clauses = clauses ++ (l ∷ clause) ∷ []

-- The second loop.
unfoldable pub read_clauses : List ℤ → List Lit → List (List Lit) → List (List Lit)
read_clauses [] clause clauses = flush clause clauses
read_clauses (x ∷ xs) clause clauses = elim (eqb_ℤ x (pos 0)) [
  | true ↦ read_clauses xs [] (clauses ++ clause ∷ [])
  | false ↦ read_clauses xs (clause ++ make_lit (abs x) (is_negative x) ∷ []) clauses
]

-- `none` where the code throws: without a number of variables, or with a negative one, of which -1 alone
-- would only make a formula that is none.
unfoldable pub parse_dimacs : (F : Weight) → List FileLine → Option (WeightedCnf F)
unfolding read_header numbers_of read_clauses new
parse_dimacs F lines =
    let (nb_var, rest) = read_header lines in
    elim nb_var [
      | negsuc n ↦ none
      | pos zero ↦ none
      | pos (suc n) ↦ some (
          new F (suc n) (replicate (2 * (suc n + 1)) F.one) []
            (read_clauses (numbers_of rest) [] []))
    ]

-- Lines of a file: the header, integers, and a comment.
abbrev pub header_line : ℕ → FileLine
header_line n = record { is_skipped = false; header = some (pos n); numbers = []; is_clean = false }

abbrev pub number_line : List ℤ → FileLine
number_line xs = record { is_skipped = false; header = none; numbers = xs; is_clean = true }

abbrev pub clause_line : List Lit → FileLine
clause_line c = number_line (map human c ++ pos 0 ∷ [])

read_clauses-append :
    (c : List Lit) (xs : List ℤ) (acc : List Lit) (cs : List (List Lit))
    → All (λ l. 1 ≤ var l) c
    → read_clauses (map human c ++ xs) acc cs ≡ read_clauses xs (acc ++ c) cs
unfolding read_clauses
read_clauses-append [] xs acc cs h = ap (λ a. read_clauses xs a cs) (sym (append-nil acc))
read_clauses-append (l ∷ c) xs acc cs (ge, h) =
    rw (human-nonzero l ge, read_clauses)
      (ap (λ k. read_clauses (map human c ++ xs) (acc ++ k ∷ []) cs) (make_lit-human l ge))
    ∙ read_clauses-append c xs (acc ++ l ∷ []) cs h
    ∙ ap (λ a. read_clauses xs a cs) (append_assoc acc (l ∷ []) c)

read_clauses-lines :
    (cs ds : List (List Lit)) (ends : List FileLine)
    → All (All (λ l. 1 ≤ var l)) cs
    → read_clauses (numbers_of (map clause_line cs ++ ends)) [] ds
      ≡ read_clauses (numbers_of ends) [] (ds ++ cs)
unfolding read_clauses numbers_of
read_clauses-lines [] ds ends h = ap (read_clauses (numbers_of ends) []) (sym (append-nil ds))
read_clauses-lines (c ∷ cs) ds ends (hc, h) =
    ap (λ xs. read_clauses xs [] ds) (append_assoc (map human c) (pos 0 ∷ []) rest)
    ∙ read_clauses-append c (pos 0 ∷ rest) [] ds hc
    ∙ read_clauses-lines cs (ds ++ c ∷ []) ends h
    ∙ ap (read_clauses (numbers_of ends) []) (append_assoc ds (c ∷ []) cs)
  where
    rest : List ℤ
    rest = numbers_of (map clause_line cs ++ ends)

-- The formula of `n` variables with the weight 1 for every literal and no projected variables.
abbrev pub plain : (F : Weight) → ℕ → List (List Lit) → WeightedCnf F
plain F n cs = uniform F n F.one cs

-- Reading the header and a line for each clause with its 0 gives these clauses, empty ones too; with a last
-- line of literals without a 0 after them, it gives these clauses and then the clause of that line. The
-- formula has the number of variables of the header, no projected variables, and the weight 1 for every
-- literal. There is a variable, and every literal is on a variable from 1 up.
pub parse_dimacs-lines :
    (F : Weight) (n : ℕ) (cs : List (List Lit)) (l : Lit) (last : List Lit)
    → 1 ≤ n
    → All (All (λ l. 1 ≤ var l)) cs
    → All (λ l. 1 ≤ var l) (l ∷ last)
    → (parse_dimacs F (header_line n ∷ map clause_line cs) ≡ some (plain F n cs))
      × (parse_dimacs F
            (header_line n ∷ map clause_line cs ++ number_line (map human (l ∷ last)) ∷ [])
          ≡ some (plain F n (cs ++ (l ∷ last) ∷ [])))
unfolding parse_dimacs read_clauses numbers_of
parse_dimacs-lines F zero cs l last ge h k = absurd (omega arith)
parse_dimacs-lines F (suc n) cs l last ge h k =
    (ap formula whole ∙ made cs, ap formula with_last ∙ made (cs ++ (l ∷ last) ∷ []))
  where
    formula : List (List Lit) → Option (WeightedCnf F)
    formula ds = some (new F (suc n) (replicate (2 * (suc n + 1)) F.one) [] ds)

    made : (ds : List (List Lit)) → formula ds ≡ some (plain F (suc n) ds)
    made ds = ap some (new-replicate F (suc n) F.one ds)

    whole : read_clauses (numbers_of (map clause_line cs)) [] [] ≡ cs
    whole =
        ap (λ ls. read_clauses (numbers_of ls) [] []) (sym (append-nil (map clause_line cs)))
        ∙ read_clauses-lines cs [] [] h

    with_last :
        read_clauses
          (numbers_of (map clause_line cs ++ number_line (map human (l ∷ last)) ∷ []))
          []
          []
        ≡ cs ++ (l ∷ last) ∷ []
    with_last =
        read_clauses-lines cs [] (number_line (map human (l ∷ last)) ∷ []) h
        ∙ read_clauses-append (l ∷ last) [] [] cs k
