-- ===== src/Dimacs/Tests.antt =====
-- The reader of cube_generator/src/formula/ParserDimacs.cpp on a small file, given as words and numbers.
mod Words
use Prim.Native.String.{String}
use text.Mathlib.Text.{◌==◌ as str_eq}
use hydra_sat.Base.{
  holds-if, ℕ, zero, suc, ◌+◌, ◌*◌, ◌≤◌, ◌<◌, ◌≡◌, refl, ◌≢◌, Bool, true, false, List, [], ◌∷◌,
  ◌++◌, ℤ, pos, negsuc, abs, is_negative, eqb_ℤ, if◌then◌else◌, ◌==◌, length, set, replicate, All,
  arith,
}
use hydra_sat.Formula.ProblemTypes.{Lit, var, neg, make_lit}
use hydra_sat.Formula.WeightedCnf.{Weight}
use hydra_sat.Dimacs.Clause.{normalize, sort}
use hydra_sat.Dimacs.Clause.Refined.{unique, normalize-unique}
use hydra_sat.Dimacs.Clause.Meaning.{IsClause, Normalized, normalize-Normalized}
use hydra_sat.Dimacs.Reader.{
  BufferRead, done, starved, aborted, exited, Numbers, Formula, int_formula, parser_dimacs,
}
use hydra_sat.Dimacs.Reader.Progress.{Progress}
use hydra_sat.Dimacs.Reader.Total.{clauses_of, parser_dimacs_ends, parser_dimacs-IsClause}

pub data Token : Type 0 where
  char : ℕ → Token
  word : String → Token
  number : ℤ → Token

abbrev pub first : List Token → ℕ
first (char c ∷ s) = c
first (_ ∷ s) = 49
first [] = 0

abbrev pub is_over : List Token → Bool
is_over [] = true
is_over (t ∷ s) = false

abbrev pub rest : List Token → List Token
rest [] = []
rest (t ∷ s) = s

abbrev pub read_number : List Token → ℤ × List Token
read_number (number v ∷ s) = (v, s)
read_number s = (pos 0, s)

abbrev pub read_word : String → List Token → Bool × List Token
read_word w (word v ∷ s) = if str_eq w v then (true, s) else (false, word v ∷ s)
read_word w s = (false, s)

abbrev pub read_weight : List Token → List ℕ → List Token × List ℕ
read_weight (number l ∷ number w ∷ s) ws =
    (s, set ws (2 * abs l + (if is_negative l then 1 else 0)) (abs w))
read_weight s ws = (s, ws)

abbrev pub read_list : List Token → List ℕ → List Token × List ℕ
read_list (number (pos zero) ∷ s) vs = (s, vs)
read_list (number v ∷ s) vs = read_list s (vs ++ abs v ∷ [])
read_list s vs = (s, vs)

abbrev pub tokens : BufferRead ℕ
tokens = record {
  State = List Token;
  eof = is_over;
  current_char = first;
  consume_char = rest;
  next_char = λ s. (first s, rest s);
  skip_space = λ s. s;
  skip_simple_space = λ s. s;
  skip_line = rest;
  next_int = read_number;
  can_consume = read_word;
  parse_next_weighted_lits = read_weight;
  read_list_int_terminated_by_zero = read_list;
}

rest_le : (s : List Token) → length (rest s) ≤ length s
rest_le [] = omega arith
rest_le (t ∷ s) = omega arith

rest_lt : (s : List Token) → is_over s ≡ false → length (rest s) < length s
rest_lt [] h = cc
rest_lt (t ∷ s) h = omega arith

read_number_le : (s : List Token) → length (read_number s).1 ≤ length s
read_number_le [] = omega arith
read_number_le (number v ∷ s) = omega arith
read_number_le (char c ∷ s) = omega arith
read_number_le (word w ∷ s) = omega arith

read_number_lt :
    (s : List Token) → eqb_ℤ (read_number s).0 (pos 0) ≡ false → length (read_number s).1 < length s
read_number_lt [] h = cc
read_number_lt (number v ∷ s) h = omega arith
read_number_lt (char c ∷ s) h = cc
read_number_lt (word w ∷ s) h = cc

read_word_le : (w : String) (s : List Token) → length (read_word w s).1 ≤ length s
read_word_le w [] = omega arith
read_word_le w (word v ∷ s) =
    holds-if {A = Bool × List Token} (λ r. length r.1 ≤ suc (length s)) (str_eq w v) (omega arith)
      (omega arith)
read_word_le w (char c ∷ s) = omega arith
read_word_le w (number v ∷ s) = omega arith

read_weight_le : (s : List Token) (ws : List ℕ) → length (read_weight s ws).0 ≤ length s
read_weight_le [] ws = omega arith
read_weight_le (number l ∷ []) ws = omega arith
read_weight_le (number l ∷ number w ∷ s) ws = omega arith
read_weight_le (number l ∷ char c ∷ s) ws = omega arith
read_weight_le (number l ∷ word w ∷ s) ws = omega arith
read_weight_le (char c ∷ s) ws = omega arith
read_weight_le (word w ∷ s) ws = omega arith

read_list_le : (s : List Token) (vs : List ℕ) → length (read_list s vs).0 ≤ length s
read_list_le [] vs = omega arith
read_list_le (number (pos zero) ∷ s) vs = omega arith
read_list_le (number (pos (suc n)) ∷ s) vs = omega (arith, read_list_le s (vs ++ suc n ∷ []))
read_list_le (number (negsuc n) ∷ s) vs = omega (arith, read_list_le s (vs ++ suc n ∷ []))
read_list_le (char c ∷ s) vs = omega arith
read_list_le (word w ∷ s) vs = omega arith

abbrev progress : Progress tokens
progress = record {
  left = length;
  consume_lt = rest_lt;
  consume_le = rest_le;
  next_char_le = rest_le;
  skip_space_le = λ s. omega arith;
  skip_simple_space_le = λ s. omega arith;
  skip_line_le = rest_le;
  next_int_le = read_number_le;
  next_int_lt = read_number_lt;
  can_consume_le = read_word_le;
  weights_le = read_weight_le;
  list_le = read_list_le;
}

-- Natural numbers for both types of weights.
abbrev pub naturals : Weight
naturals = record {
  T = ℕ;
  one = 1;
  add = ◌+◌;
  mul = ◌*◌;
  is_one = λ n. n == 1;
  str = λ n. n ∷ [];
  is_float = false;
}

abbrev pub numbers : Numbers
numbers = record { mpz_int = naturals; mpf_float = naturals; is_whole = λ n. true; round = λ n. n }

-- p cnf 3 2, then 3 1 -2 1 0 and the tautology 2 -2 0.
abbrev file : List Token
file =
    char 112
    ∷ char 99
    ∷ char 110
    ∷ char 102
    ∷ number (pos 3)
    ∷ number (pos 2)
    ∷ number (pos 3)
    ∷ number (pos 1)
    ∷ number (negsuc 1)
    ∷ number (pos 1)
    ∷ number (pos 0)
    ∷ number (pos 2)
    ∷ number (negsuc 1)
    ∷ number (pos 0)
    ∷ []

abbrev clause : List Lit
clause = make_lit 3 false ∷ make_lit 1 false ∷ make_lit 2 true ∷ make_lit 1 false ∷ []

abbrev formula : Formula numbers
formula = int_formula (record {
  clauses = (record { m_x = 2 } ∷ record { m_x = 5 } ∷ record { m_x = 6 } ∷ []) ∷ [];
  projected_vars = [];
  is_unsat = false;
  nb_var = 3;
  weight_lit = replicate 8 1;
  weight_var = replicate 4 2;
})

read_file : parser_dimacs numbers tokens 20 (pos 0) file ≡ done formula
unfolding parser_dimacs make_lit neg
read_file = refl

-- A line with a lone 0, or a line that starts with another character, fails the assertion.
lone_zero : parser_dimacs numbers tokens 20 (pos 0) (number (pos 0) ∷ []) ≡ aborted
unfolding parser_dimacs
lone_zero = refl

out_of_range :
    parser_dimacs numbers tokens 20 (pos 0) (number (pos 1) ∷ number (pos 0) ∷ []) ≡ exited 3
unfolding parser_dimacs
out_of_range = refl

parser_dimacs_ends_example : parser_dimacs numbers tokens 20 (pos 0) file ≢ starved
parser_dimacs_ends_example =
    parser_dimacs_ends numbers tokens progress 20 (pos 0) file (omega arith)

parser_dimacs-IsClause_example : All IsClause (clauses_of numbers formula)
parser_dimacs-IsClause_example =
    parser_dimacs-IsClause numbers tokens progress 20 (pos 0) file formula (omega arith) read_file

normalize-unique_example : normalize clause ≡ unique (sort clause)
normalize-unique_example = normalize-unique clause (omega arith)

normalize-Normalized_example : Normalized clause (normalize clause)
unfolding make_lit var
normalize-Normalized_example =
    normalize-Normalized clause (omega arith)
      (omega arith, (omega arith, (omega arith, (omega arith, tt))))
