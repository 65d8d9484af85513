-- ===== src/Cli/Parser.antt =====
-- `Formula` and `parseCNF` of cube_gen_cli/cube_gen_cli.cpp: the reader of DIMACS files, one line at a
-- time. What the standard streams make of a line is its `Line`.
use mathlib.Core.List.{append_assoc, append-nil}
use hydra_sat.Base.{
  ℕ, ◌≡◌, refl, sym, ap, ap₂, ◌∙◌, ◌≢◌, inl, inr, false, List, [], ◌∷◌, ◌++◌, map, ℤ, pos, negsuc,
  abs, is_negative, eqb_ℤ, if◌then◌else◌, Bool-cases, All, All-append,
}
use hydra_sat.Cli.Lit.{Lit, make_lit}

pub record Formula : Type 0 where
  pub nb_var : ℕ
  pub clauses : List (List Lit)

-- A line of the file: empty or a comment; the problem line with its number of variables; any other line,
-- with the numbers that `ss >> x` reads from it until it fails.
pub data Line : Type 0 where
  skipped : Line
  problem : ℕ → Line
  numbers : List ℤ → Line

-- while (ss >> x && x != 0) cl.push_back(...)
unfoldable pub read_clause : List ℤ → List Lit
read_clause [] = []
read_clause (x ∷ xs) =
    let rest = read_clause xs in
    if eqb_ℤ x (pos 0) then [] else make_lit (abs x) (is_negative x) ∷ rest

-- if (!cl.empty()) formula.clauses.push_back(...)
abbrev pub add_line : List Lit → Formula → Formula
add_line [] f = f
add_line (l ∷ c) f = record f { clauses = f.clauses ++ (l ∷ c) ∷ [] }

unfoldable pub read_line : Line → Formula → Formula
unfolding read_clause
read_line skipped f = f
read_line (problem v) f = record f { nb_var = v }
read_line (numbers xs) f = add_line (read_clause xs) f

unfoldable pub read_lines : List Line → Formula → Formula
unfolding read_line
read_lines [] f = f
read_lines (l ∷ ls) f = read_lines ls (read_line l f)

unfoldable pub parse_cnf : List Line → Formula
unfolding read_lines
parse_cnf ls = read_lines ls (record { nb_var = 0; clauses = [] })

-- A clause as a line of a file: its literals and 0.
unfoldable pub print_clause : List Lit → List ℤ
print_clause [] = pos 0 ∷ []
print_clause (l ∷ c) = l.x ∷ print_clause c

abbrev pub IsProper : Lit → Type 0
IsProper l = eqb_ℤ l.x (pos 0) ≡ false

abbrev pub IsClause : List Lit → Type 0
IsClause c = All IsProper c × (c ≢ [])

lit_of_int : (x : ℤ) → eqb_ℤ x (pos 0) ≡ false → make_lit (abs x) (is_negative x) ≡ record { x = x }
unfolding make_lit
lit_of_int (pos n) h = refl
lit_of_int (negsuc n) h = refl

read_clause-print_clause : (c : List Lit) → All IsProper c → read_clause (print_clause c) ≡ c
unfolding read_clause print_clause
read_clause-print_clause [] h = refl
read_clause-print_clause (l ∷ c) h =
    rw h.0 (ap₂ ◌∷◌ (lit_of_int l.x h.0) (read_clause-print_clause c h.1))

add_line_lem :
    (c : List Lit) (f : Formula)
    → c ≢ []
    → add_line c f ≡ record f { clauses = f.clauses ++ c ∷ [] }
add_line_lem [] f ne = absurd (ne refl)
add_line_lem (l ∷ c) f ne = refl

read_lines-print :
    (cs : List (List Lit)) (f : Formula)
    → All IsClause cs
    → read_lines (map (λ c. numbers (print_clause c)) cs) f ≡ record f { clauses = f.clauses ++ cs }
unfolding read_lines read_line
read_lines-print [] f h = ap (λ cs. record f { clauses = cs }) (sym (append-nil f.clauses))
read_lines-print (c ∷ cs) f h =
    let one : add_line (read_clause (print_clause c)) f
        ≡ record f { clauses = f.clauses ++ c ∷ [] } =
      ap (λ d. add_line d f) (read_clause-print_clause c h.0.0) ∙ add_line_lem c f h.0.1 in
    ap (read_lines (map (λ d. numbers (print_clause d)) cs)) one
    ∙ read_lines-print cs (record f { clauses = f.clauses ++ c ∷ [] }) h.1
    ∙ ap (λ ds. record f { clauses = ds }) (append_assoc f.clauses (c ∷ []) cs)

-- Reading a problem line and one line for each clause gives the number of variables and the clauses,
-- where no clause is empty and no literal is 0.
pub parse_cnf-print :
    (n : ℕ) (cs : List (List Lit))
    → All IsClause cs
    → parse_cnf (problem n ∷ map (λ c. numbers (print_clause c)) cs)
      ≡ record { nb_var = n; clauses = cs }
unfolding parse_cnf read_lines read_line
parse_cnf-print n cs h = read_lines-print cs (record { nb_var = n; clauses = [] }) h

read_clause-IsProper : (xs : List ℤ) → All IsProper (read_clause xs)
unfolding read_clause
read_clause-IsProper [] = tt
read_clause-IsProper (x ∷ xs) = elim (Bool-cases (eqb_ℤ x (pos 0))) [
  | inl end_ ↦ rw end_ tt
  | inr other ↦ rw other (rw (lit_of_int x other) other, read_clause-IsProper xs)
]

add_line-IsClause :
    (c : List Lit) (f : Formula)
    → All IsProper c
    → All IsClause f.clauses
    → All IsClause (add_line c f).clauses
add_line-IsClause [] f p h = h
add_line-IsClause (l ∷ c) f p h =
    All-append IsClause f.clauses ((l ∷ c) ∷ []) h ((p, λ e. cc e), tt)

read_lines-IsClause :
    (ls : List Line) (f : Formula) → All IsClause f.clauses → All IsClause (read_lines ls f).clauses
unfolding read_lines read_line
read_lines-IsClause [] f h = h
read_lines-IsClause (skipped ∷ ls) f h = read_lines-IsClause ls f h
read_lines-IsClause (problem v ∷ ls) f h = read_lines-IsClause ls (record f { nb_var = v }) h
read_lines-IsClause (numbers xs ∷ ls) f h =
    read_lines-IsClause ls (add_line (read_clause xs) f)
      (add_line-IsClause (read_clause xs) f (read_clause-IsProper xs) h)

-- Whatever the file, no clause that is read is empty, and no literal in it is 0.
pub parse_cnf-IsClause : (ls : List Line) → All IsClause (parse_cnf ls).clauses
unfolding parse_cnf
parse_cnf-IsClause ls = read_lines-IsClause ls (record { nb_var = 0; clauses = [] }) tt
