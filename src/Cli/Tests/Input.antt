-- ===== src/Cli/Tests/Input.antt =====
-- The reader and the min-degree elimination of cube_gen_cli/cube_gen_cli.cpp at a small formula.
use hydra_sat.Base.{◌≤◌, ℕ, get_or, ◌≡◌, refl, [], ◌∷◌, pos, negsuc, All, arith}
use hydra_sat.Cli.Lit.{var, make_lit}
use hydra_sat.Cli.Parser.{
  IsClause, parse_cnf, problem, numbers, print_clause, parse_cnf-print, parse_cnf-IsClause,
}
use hydra_sat.Cli.MinDegree.{min_degree}
use hydra_sat.Cli.MinDegree.Levels.{min_degree_levels}
use hydra_sat.Cli.Tests.{lit, cnf}

parse_cnf-print_example :
    parse_cnf (
      problem 3
      ∷ numbers (pos 1 ∷ pos 2 ∷ pos 3 ∷ pos 0 ∷ [])
      ∷ numbers (negsuc 0 ∷ pos 2 ∷ pos 0 ∷ [])
      ∷ [])
    ≡ record { nb_var = 3; clauses = cnf }
unfolding print_clause
parse_cnf-print_example = parse_cnf-print 3 cnf (
  ((refl, (refl, (refl, tt))), λ e. absurd (cc e)),
  (((refl, (refl, tt)), λ e. absurd (cc e)), tt),
)

parse_cnf-IsClause_example :
    All IsClause
      (parse_cnf
        (problem 3 ∷ numbers (pos 0 ∷ []) ∷ numbers (pos 1 ∷ pos 0 ∷ pos 2 ∷ []) ∷ [])).clauses
parse_cnf-IsClause_example =
    parse_cnf-IsClause
      (problem 3 ∷ numbers (pos 0 ∷ []) ∷ numbers (pos 1 ∷ pos 0 ∷ pos 2 ∷ []) ∷ [])

-- A clause after the 0 of another one is dropped.
second_dropped :
    parse_cnf (problem 3 ∷ numbers (pos 1 ∷ pos 0 ∷ pos 2 ∷ pos 0 ∷ []) ∷ [])
    ≡ record { nb_var = 3; clauses = (lit (pos 1) ∷ []) ∷ [] }
unfolding parse_cnf make_lit
second_dropped = refl

min_degree_levels_example :
    (1 ≤ get_or (min_degree 3 cnf).level 1 0)
    × (get_or (min_degree 3 cnf).level 1 0 ≤ 3)
    × (get_or (min_degree 3 cnf).level 1 0 ≡ get_or (min_degree 3 cnf).level 2 0 → ◌≡◌ {A = ℕ} 1 2)
min_degree_levels_example =
    min_degree_levels 3 cnf 1 2 (omega arith) (omega arith) (omega arith) (omega arith)

-- 1, 2 and 3 are a triangle: they are eliminated in this order.
cnf_levels : (min_degree 3 cnf).level ≡ 1 ∷ 3 ∷ 2 ∷ 1 ∷ []
unfolding min_degree var
cnf_levels = refl
