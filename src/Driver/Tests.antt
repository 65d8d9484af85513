-- ===== src/Driver/Tests.antt =====
-- cube_generator/main.cpp on a small file and a few arguments.
use text.Mathlib.Text.{◌==◌ as str_eq}
use Prim.Native.String.{String}
use hydra_sat.Base.{
  ℕ, ◌+◌, ◌*◌, ◌≤◌, ◌≡◌, refl, true, false, List, [], ◌∷◌, ◌++◌, map, Option, none, some,
  if◌then◌else◌, ◌==◌, All, arith,
}
use hydra_sat.Formula.ProblemTypes.{Lit, var, human, make_lit}
use hydra_sat.Formula.WeightedCnf.{Weight, new}
use hydra_sat.Driver.Parse.{
  FileLine, parse_dimacs, header_line, clause_line, number_line, plain, parse_dimacs-lines,
}
use hydra_sat.Driver.Json.{items_before_last}
use hydra_sat.Driver.Args.{ready, wrong_usage, not_a_number, read_args, default_args}

abbrev naturals : Weight
naturals = record {
  T = ℕ;
  one = 1;
  add = ◌+◌;
  mul = ◌*◌;
  is_one = λ n. n == 1;
  str = λ n. n ∷ [];
  is_float = true;
}

abbrev lit : ℕ → Lit
lit x = record { m_x = x }

abbrev clauses : List (List Lit)
clauses = (lit 2 ∷ lit 5 ∷ []) ∷ [] ∷ []

abbrev last : List Lit
last = lit 6 ∷ []

vars_positive : All (All (λ l. 1 ≤ var l)) clauses
unfolding var
vars_positive = ((omega arith, (omega arith, tt)), (tt, tt))

last_positive : All (λ l. 1 ≤ var l) last
unfolding var
last_positive = (omega arith, tt)

parse_dimacs-lines_example :
    (parse_dimacs naturals (header_line 3 ∷ map clause_line clauses)
      ≡ some (plain naturals 3 clauses))
    × (parse_dimacs naturals
          (header_line 3 ∷ map clause_line clauses ++ number_line (map human last) ∷ [])
        ≡ some (plain naturals 3 (clauses ++ last ∷ [])))
parse_dimacs-lines_example =
    parse_dimacs-lines naturals 3 clauses (lit 6) [] (omega arith) vars_positive last_positive

-- A comment between the clauses ends the reading: the clause after it is lost.
abbrev comment : FileLine
comment = record { is_skipped = true; header = none; numbers = []; is_clean = false }

lost_clause :
    parse_dimacs naturals
      (header_line 2 ∷ clause_line (lit 2 ∷ []) ∷ comment ∷ clause_line (lit 4 ∷ []) ∷ [])
    ≡ some (plain naturals 2 ((lit 2 ∷ []) ∷ []))
unfolding parse_dimacs new human var make_lit
lost_clause = refl

row_of_three : items_before_last 3 0 ("1" ∷ "-2" ∷ "3" ∷ []) ≡ "1, -2, 3"
unfolding items_before_last
row_of_three = refl

abbrev digit : String → Option ℕ
digit s = if str_eq s "9" then some 9 else none

arguments_read :
    read_args digit digit ("-i" ∷ "a.cnf" ∷ "--threads" ∷ "9" ∷ []) (default_args digit digit 60)
    ≡ ready (record { input_file = "a.cnf"; limit_cubes = 1000; nb_threads = 9; time_budget = 60 })
unfolding read_args
arguments_read = refl

value_missing : read_args digit digit ("--threads" ∷ []) (default_args digit digit 60) ≡ wrong_usage
unfolding read_args
value_missing = refl

not_number :
    read_args digit digit ("-n" ∷ "many" ∷ []) (default_args digit digit 60) ≡ not_a_number "many"
unfolding read_args
not_number = refl
