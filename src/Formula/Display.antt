-- ===== src/Formula/Display.antt =====
-- What the classes of cube_generator/src/formula print, as texts. `show` is how the standard streams print an
-- integer, and `show_t` a weight.
use Prim.Native.String.{String, ◌++◌ as ◌<>◌}
use hydra_sat.Base.{ℕ, zero, suc, ◌+◌, List, [], ◌∷◌, ℤ, pos, length, false}
use hydra_sat.Formula.ProblemTypes.{Lit, human, neg, make_lit}
use hydra_sat.Formula.WeightedCnf.{
  Weight, WeightedCnf, get_weight_lit, get_weight_var, display_stat,
}

module _ (show : ℤ → String) where
  -- operator<< of Lit: (l.sign() ? -l.var() : l.var())
  unfoldable pub print_lit : Lit → String
  unfolding human
  print_lit l = show (human l)

  unfoldable pub show_list_lit : List Lit → String
  unfolding print_lit
  show_list_lit [] = ""
  show_list_lit (l ∷ ls) = print_lit l <> " " <> show_list_lit ls

  unfoldable pub display_clauses : List (List Lit) → String
  unfolding show_list_lit
  display_clauses [] = ""
  display_clauses (c ∷ cs) = show_list_lit c <> "0\n" <> display_clauses cs

  unfoldable pub display_vars : List ℕ → String
  display_vars [] = ""
  display_vars (v ∷ vs) = show (pos v) <> " " <> display_vars vs

  module _ (F : Weight) (show_t : F.T → String) where
    -- for (unsigned i = 1; i <= m_nbVar; i++), with the number of rounds left.
    unfoldable pub display_weights : WeightedCnf F → ℕ → ℕ → String
    unfolding print_lit make_lit neg
    display_weights w i zero = ""
    display_weights w i (suc k) =
        let l = make_lit i false in
        show (pos i)
        <> "["
        <> show_t (get_weight_var F w i)
        <> "] "
        <> print_lit l
        <> "("
        <> show_t (get_weight_lit F w l)
        <> ") "
        <> print_lit (neg l)
        <> "("
        <> show_t (get_weight_lit F w (neg l))
        <> ") "
        <> display_weights w (i + 1) k

    unfoldable pub display : WeightedCnf F → String
    unfolding display_weights display_vars display_clauses
    display w =
        "weight list: "
        <> display_weights w 1 w.nb_var
        <> "\n"
        <> "projected var: "
        <> display_vars w.projected_vars
        <> "\n"
        <> "p cnf "
        <> show (pos w.nb_var)
        <> " "
        <> show (pos (length w.clauses))
        <> "\n"
        <> display_clauses w.clauses

    -- The lines that `displayStat` prints of its counters.
    unfoldable pub display_stat_lines : String → WeightedCnf F → String
    unfolding display_stat
    display_stat_lines start_line w =
        let s = display_stat F w in
        start_line
        <> "Number of variables: "
        <> show (pos w.nb_var)
        <> "\n"
        <> start_line
        <> "Number of clauses: "
        <> show (pos (length w.clauses))
        <> "\n"
        <> start_line
        <> "Number of unit clauses: "
        <> show (pos s.nb_unit)
        <> "\n"
        <> start_line
        <> "Number of binary clauses: "
        <> show (pos s.nb_bin)
        <> "\n"
        <> start_line
        <> "Number of ternary clauses: "
        <> show (pos s.nb_ter)
        <> "\n"
        <> start_line
        <> "Number of clauses larger than 3: "
        <> show (pos s.nb_more_three)
        <> "\n"
        <> start_line
        <> "Number of literals: "
        <> show (pos s.nb_lits)
        <> "\n"

    unfoldable pub get_info_formula : WeightedCnf F → String
    get_info_formula w =
        "c Information about the formula:\n"
        <> "c Number of variables: "
        <> show (pos w.nb_var)
        <> "\n"
        <> "c Number of clauses: "
        <> show (pos (length w.clauses))
        <> "\n"
