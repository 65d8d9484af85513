-- ===== src/Dimacs/Reader.antt =====
-- `parse_DIMACS_main` and `parserDIMACS` of cube_generator/src/formula/ParserDimacs.cpp, over the reader of
-- the d4 library. Numbers are not bounded by the `int` that d4 reads them into.
pub mod Progress
pub mod Lines
pub mod Fuel
pub mod Total
pub mod Printed
pub mod RoundTrip
use Prim.Native.String.{String}
use hydra_sat.Base.{
  ℕ, zero, suc, ◌+◌, ◌-◌, ◌*◌, Bool, true, false, ◌&&◌, List, [], ◌∷◌, ◌++◌, map, none, some, ℤ,
  pos, negsuc, abs, is_negative, eqb_ℤ, if◌then◌else◌, ltb, ◌==◌, length, take, replicate,
}
use hydra_sat.Formula.ProblemTypes.{Lit, make_lit}
use hydra_sat.Formula.WeightedCnf.{Weight, WeightedCnf, new}
use hydra_sat.Dimacs.Clause.{normalize}

-- The calls of d4: BufferRead over the states of a buffer, with characters as their codes, and the two
-- readers of Parsing.
pub record BufferRead (W : Type 0) : Type 1 where
  pub State : Type 0
  pub eof : State → Bool
  pub current_char : State → ℕ
  pub consume_char : State → State
  pub next_char : State → ℕ × State
  pub skip_space : State → State
  pub skip_simple_space : State → State
  pub skip_line : State → State
  pub next_int : State → ℤ × State
  pub can_consume : String → State → Bool × State
  pub parse_next_weighted_lits : State → List W → State × List W
  pub read_list_int_terminated_by_zero : State → List ℕ → State × List ℕ

-- How a call ends: with a value, in exit, in a failing assert, in the exception that a vector cannot have a
-- negative size, or, of the model only, without fuel or with a negative number of variables, for which
-- there is no WeightedCnf.
pub data Outcome (A : Type 0) : Type 0 where
  done : A → Outcome A
  exited : ℕ → Outcome A
  aborted bad_size negative_vars starved : Outcome A

infixl 5 ◌>>=◌
unfoldable pub ◌>>=◌ : {A B : Type 0} → Outcome A → (A → Outcome B) → Outcome B
done a >>= f = f a
exited n >>= f = exited n
aborted >>= f = aborted
bad_size >>= f = bad_size
negative_vars >>= f = negative_vars
starved >>= f = starved

pub record DataFormula (W : Type 0) : Type 0 where
  pub weight_lit : List W
  pub clauses : List (List Lit)
  pub projected_var : List ℕ
  pub nb_vars : ℤ

abbrev pub char_p : ℕ
char_p = 112

abbrev pub char_w : ℕ
char_w = 119

abbrev pub char_c : ℕ
char_c = 99

abbrev pub char_n : ℕ
char_n = 110

abbrev pub char_f : ℕ
char_f = 102

-- n < a on `int`, for a number `a` that is not negative.
abbrev pub lt_int : ℤ → ℕ → Bool
lt_int (pos n) a = ltb n a
lt_int (negsuc n) a = true

-- (v > 0 && nbVars < v) || (-v > 0 && nbVars < -v)
unfoldable pub is_outside : ℤ → ℤ → Bool
is_outside nb_vars v = ltb 0 (abs v) && lt_int nb_vars (abs v)

-- weightLit.resize((nbVars + 1) << 1, 1)
unfoldable pub resize : {W : Type 0} → W → ℤ → List W → Outcome (List W)
resize one (pos n) ws = done (take (2 * (n + 1)) ws ++ replicate (2 * (n + 1) - length ws) one)
resize one (negsuc zero) ws = done []
resize one (negsuc (suc n)) ws = bad_size

module _ {W : Type 0} (one : W) (B : BufferRead W) where
  open B use {
    State, eof, current_char, consume_char, next_char, skip_space, skip_simple_space, skip_line,
    next_int, can_consume, parse_next_weighted_lits, read_list_int_terminated_by_zero,
  }

  -- The condition on the next three characters, which stops at the first that is wrong.
  unfoldable pub expect : List ℕ → State → Bool × State
  expect [] s = (true, s)
  expect (c ∷ cs) s =
      let (d, s') = next_char s in let rest = expect cs s' in if d == c then rest else (false, s')

  -- Consumes the character `c`, if it is there.
  unfoldable pub optional : ℕ → State → Bool × State
  optional c s = if current_char s == c then (true, consume_char s) else (false, s)

  -- From the line `p` on.
  unfoldable pub read_header : State → DataFormula W → Outcome (State × DataFormula W)
  unfolding expect optional resize
  read_header s form =
      let (vp_activated, s1) = optional char_p (skip_space (consume_char s)) in
      let (_, s2) = optional char_w s1 in
      let (good, s3) = expect (char_c ∷ char_n ∷ char_f ∷ []) s2 in
      let (nb_vars, s4) = next_int s3 in
      let (nb_clauses, s5) = next_int s4 in
      let s6 = if vp_activated then (next_int s5).1 else s5 in
      if good
      then (do
        ws ← resize one nb_vars form.weight_lit
        if is_negative nb_clauses
            then exited 2
            else done (s6, record form { weight_lit = ws; nb_vars = nb_vars }))
      else exited 3

  -- A comment, which may give a weight or projected variables.
  unfoldable pub read_comment : State → DataFormula W → Outcome (State × DataFormula W)
  read_comment s form =
      let s1 = skip_simple_space (consume_char s) in
      let s2 = consume_char s1 in
      let (is_weight, s3) = can_consume "weight" s2 in
      let (s4, ws) = parse_next_weighted_lits s3 form.weight_lit in
      let (end_line, s5) = next_int s4 in
      let (is_show, s6) = can_consume "show" s3 in
      let (s7, projected) = read_list_int_terminated_by_zero s6 form.projected_var in
      if current_char s1 == char_p
      then if is_weight
        then if eqb_ℤ end_line (pos 0) then done (s5, record form { weight_lit = ws }) else aborted
        else if is_show
        then done (s7, record form { projected_var = projected })
        else done (skip_line s6, form)
      else done (skip_line s1, form)

  -- The loop over the literals of a clause.
  unfoldable pub read_lits : ℕ → ℤ → State → List Lit → Outcome (State × List Lit)
  unfolding is_outside
  read_lits zero nb_vars s lits = starved
  read_lits (suc k) nb_vars s lits =
      let (v, s') = next_int s in
      elim (is_outside nb_vars v) [
        | true ↦ exited 3
        | false ↦ elim (eqb_ℤ v (pos 0)) [
          | true ↦ done (s', lits)
          | false ↦ read_lits k nb_vars s' (lits ++ make_lit (abs v) (is_negative v) ∷ [])
        ]
      ]

  -- assert(lits.size()), and the clause unless it is a tautology.
  unfoldable pub add_clause : List Lit → DataFormula W → Outcome (DataFormula W)
  unfolding normalize
  add_clause [] form = aborted
  add_clause (l ∷ ls) form = elim (normalize (l ∷ ls)) [
    | none ↦ done form
    | some c ↦ done (record form { clauses = form.clauses ++ c ∷ [] })
  ]

  unfoldable pub read_clause : ℕ → State → DataFormula W → Outcome (State × DataFormula W)
  unfolding read_lits add_clause ◌>>=◌
  read_clause fuel s form = do
    (s', lits) ← read_lits fuel form.nb_vars s []
    form' ← add_clause lits form
    done (s', form')

  -- The body of the loop, after the space is skipped and the end of the file is ruled out.
  unfoldable pub read_item : ℕ → State → DataFormula W → Outcome (State × DataFormula W)
  unfolding read_header read_comment read_clause
  read_item fuel s form =
      if current_char s == char_p
      then read_header s form
      else if current_char s == char_c
      then read_comment s form
      else read_clause fuel s form

  unfoldable pub parse_dimacs_main : ℕ → State → DataFormula W → Outcome (DataFormula W)
  unfolding read_item ◌>>=◌
  parse_dimacs_main zero s form = starved
  parse_dimacs_main (suc k) s form =
      let s' = skip_space s in
      elim (eof s') [
        | true ↦ done form
        | false ↦ read_item (suc k) s' form >>= (λ r. parse_dimacs_main k r.0 r.1)
      ]

-- The two types of weights, and mpz::round from the one to the other.
pub record Numbers : Type 1 where
  pub mpz_int : Weight
  pub mpf_float : Weight
  pub is_whole : mpf_float.T → Bool
  pub round : mpf_float.T → mpz_int.T

module _ (N : Numbers) where
  open N use {mpz_int, mpf_float, is_whole, round}

  pub data Formula : Type 0 where
    int_formula : WeightedCnf mpz_int → Formula
    float_formula : WeightedCnf mpf_float → Formula

  -- isInt
  unfoldable pub all_whole : List mpf_float.T → Bool
  all_whole [] = true
  all_whole (w ∷ ws) = is_whole w && all_whole ws

  unfoldable pub make_formula : ℕ → DataFormula mpf_float.T → Formula
  unfolding all_whole new
  make_formula n form =
      if all_whole form.weight_lit
      then int_formula (new mpz_int n (map round form.weight_lit) form.projected_var form.clauses)
      else float_formula (new mpf_float n form.weight_lit form.projected_var form.clauses)

  -- `undef` is what is in nbVars before a line `p` sets it.
  unfoldable pub parser_dimacs : (B : BufferRead mpf_float.T) → ℕ → ℤ → B.State → Outcome Formula
  unfolding parse_dimacs_main make_formula
  parser_dimacs B fuel undef s = do
    form ←
        parse_dimacs_main mpf_float.one B fuel s
          (record { weight_lit = []; clauses = []; projected_var = []; nb_vars = undef })
    elim form.nb_vars [ pos n ↦ done (make_formula n form) | negsuc n ↦ negative_vars ]
