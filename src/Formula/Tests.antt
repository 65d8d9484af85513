-- ===== src/Formula/Tests.antt =====
-- The theorems about cube_generator/src/formula at a small weighted formula.
use Prim.Native.String.{String}
use hydra_sat.Base.{
  ℕ, zero, suc, ◌+◌, ◌*◌, ◌/◌, ◌%◌, ==_iff, ℤ, ◌≡◌, refl, Bool, true, false, not, ◌&&◌, List, [],
  ◌∷◌, pos, negsuc, if◌then◌else◌, ◌==◌, All, arith,
}
use hydra_sat.Formula.ProblemTypes.{Lit, var, sign, human, make_lit_true, make_lit_false, intern}
use hydra_sat.Formula.Models.{Model, holds, any_of, all_of, all_any, sat_formula}
use hydra_sat.Formula.Rewrite.{rewrite, non_empty, rewrite_lem}
use hydra_sat.Formula.WeightedCnf.{
  Weight, WeightedCnf, new, get_conditioned_formula, compute_weight_unit_free,
  serialize_weighted_lits,
}
use hydra_sat.Formula.Display.{display}
use hydra_sat.Formula.Floats.{get_weights_in_float, get_weights_in_float-make_formula}
use hydra_sat.Dimacs.Reader.{Numbers, DataFormula, make_formula}
use hydra_sat.Formula.Conditioned.{conditioned_models}
use hydra_sat.Formula.Conditioned.Free.{is_on, conditioned_free}
use hydra_sat.Formula.Weights.{Distributes, compute_weight_split}
use hydra_sat.Formula.Serialized.{decode, entries, serialize-decode}

abbrev lit : ℕ → Lit
lit x = record { m_x = x }

-- The natural numbers as weights; a weight is written in one character.
abbrev naturals : Weight
naturals = record {
  T = ℕ;
  one = 1;
  add = λ a b. a + b;
  mul = λ a b. a * b;
  is_one = λ a. a == 1;
  str = λ a. a ∷ [];
  is_float = false;
}

naturals-Distributes : Distributes naturals
naturals-Distributes = record { mul_add = λ a b c. grind arith; add_mul = λ a b c. grind arith }

-- (1 ∨ ¬2) ∧ (2 ∨ 3), with the weights 3 and 5 on 1 and ¬1.
abbrev weighted : WeightedCnf naturals
unfolding new
weighted =
    new naturals 3 (1 ∷ 1 ∷ 3 ∷ 5 ∷ 1 ∷ 1 ∷ 1 ∷ 1 ∷ []) []
      ((lit 2 ∷ lit 5 ∷ []) ∷ (lit 4 ∷ lit 6 ∷ []) ∷ [])

all_true : Model
all_true v = true

abbrev pair : ℕ → Bool → ℕ × Bool
pair v s = (v, s)

abbrev pair_holds : Model → ℕ × Bool → Bool
pair_holds m (v, s) = if s then not (m v) else m v

pair_same : (m : Model) (l : Lit) → pair_holds m (pair (var l) (sign l)) ≡ holds m l
unfolding holds
pair_same m l = refl

rewrite_lem_example :
    all_any (pair_holds all_true) (rewrite pair ((lit 2 ∷ []) ∷ [] ∷ []) (lit 3 ∷ [])) ≡ (
      all_of (holds all_true) (lit 3 ∷ [])
      && sat_formula all_true (non_empty ((lit 2 ∷ []) ∷ [] ∷ [])))
rewrite_lem_example =
    rewrite_lem pair (pair_holds all_true) all_true ((lit 2 ∷ []) ∷ [] ∷ []) (lit 3 ∷ [])
      (pair_same all_true)

conditioned_models_example :
    sat_formula all_true (get_conditioned_formula naturals weighted (lit 4 ∷ [])).clauses
    ≡ (all_of (holds all_true) (lit 4 ∷ []) && sat_formula all_true weighted.clauses)
conditioned_models_example = conditioned_models naturals weighted (lit 4 ∷ []) all_true

conditioned_free_example :
    (rest : List (List Lit)) × ((get_conditioned_formula naturals weighted (lit 4 ∷ [])).clauses
      ≡ (lit 4 ∷ []) ∷ rest)
    × All (All (λ l. any_of (is_on (var l)) (lit 4 ∷ []) ≡ false)) rest
unfolding var weighted
conditioned_free_example = conditioned_free naturals weighted (lit 4 ∷ []) (omega arith)

compute_weight_split_example :
    compute_weight_unit_free naturals weighted [] (1 ∷ 2 ∷ [])
    ≡ compute_weight_unit_free naturals weighted (make_lit_true 1 ∷ []) (2 ∷ [])
      + compute_weight_unit_free naturals weighted (make_lit_false 1 ∷ []) (2 ∷ [])
unfolding new
compute_weight_split_example =
    compute_weight_split naturals naturals-Distributes 3 (1 ∷ 1 ∷ 3 ∷ 5 ∷ 1 ∷ 1 ∷ 1 ∷ 1 ∷ []) []
      ((lit 2 ∷ lit 5 ∷ []) ∷ (lit 4 ∷ lit 6 ∷ []) ∷ []) [] 1 (2 ∷ []) (omega arith)

serialize-decode_example :
    decode
      (serialize_weighted_lits naturals weighted ([], [])).1
      (serialize_weighted_lits naturals weighted ([], [])).0
    ≡ entries naturals weighted 1 3
unfolding weighted
serialize-decode_example = serialize-decode naturals weighted

three_entries : entries naturals weighted 1 3 ≡ (pos 1, 3 ∷ []) ∷ (negsuc 0, 5 ∷ []) ∷ []
unfolding entries human make_lit_true make_lit_false var weighted intern
three_entries = refl

-- Weights in halves as floats, whole numbers as integers.
abbrev halves : Numbers
halves = record {
  mpz_int = naturals;
  mpf_float = record naturals { one = 2; is_float = true };
  is_whole = λ w. w % 2 == 0;
  round = λ w. w / 2;
}

doubled : (w : ℕ) → (w % 2 == 0) ≡ true → 2 * (w / 2) ≡ w
doubled w h = omega (arith, (==_iff (w % 2) 0).0 h)

-- The weights 1, 2, 1, 1.
abbrev read_weights : DataFormula ℕ
read_weights = record {
  weight_lit = 2 ∷ 4 ∷ 2 ∷ 2 ∷ [];
  clauses = [];
  projected_var = [];
  nb_vars = pos 1;
}

get_weights_in_float-make_formula_example :
    (get_weights_in_float halves (λ n. 2 * n) (make_formula halves 1 read_weights) [] []).0
    ≡ 2 ∷ 4 ∷ 2 ∷ 2 ∷ []
get_weights_in_float-make_formula_example =
    get_weights_in_float-make_formula halves (λ n. 2 * n) doubled 1 read_weights

-- `show` for small numbers.
abbrev digit : ℤ → String
digit (pos zero) = "0"
digit (pos (suc zero)) = "1"
digit (pos (suc (suc zero))) = "2"
digit (pos n) = "3"
digit (negsuc n) = "-2"

printed :
    display digit naturals
      (λ n. digit (pos n))
      (new naturals 1 (1 ∷ 1 ∷ 1 ∷ 2 ∷ []) (1 ∷ []) ((lit 2 ∷ lit 5 ∷ []) ∷ []))
    ≡ "weight list: 1[3] 1(1) -2(2) \nprojected var: 1 \np cnf 1 1\n1 -2 0\n"
unfolding display new intern
printed = refl
