-- ===== src/Cli/Main/Tests.antt =====
-- `main` of cube_gen_cli/cube_gen_cli.cpp on a small formula, with natural numbers for doubles.
use Prim.Native.String.{String}
use text.Mathlib.Text.{◌==◌ as str_eq}
use mathlib.Core.List.{Perm}
use hydra_sat.Base.{
  ℕ, ◌+◌, ◌-◌, ◌*◌, ◌/◌, ◌^◌, ◌≡◌, refl, true, false, List, [], ◌∷◌, Option, none, some, ℤ, pos,
  if◌then◌else◌, ltb, arith,
}
use hydra_sat.Cli.Double.{Double}
use hydra_sat.Cli.Order.{Arithmetic, make, get_level}
use hydra_sat.Cli.Ranking.{var_order, iota, IsRanked, var_order-IsRanked}
use hydra_sat.Cli.Main.{Settings, ready, unknown_option, not_a_number, default_settings, read_args}

gt_trans_ℕ : (a b c : ℕ) → ltb b a ≡ true → ltb c b ≡ true → ltb c a ≡ true
gt_trans_ℕ a b c h k = ground arith

le_trans_ℕ : (a b c : ℕ) → ltb b a ≡ false → ltb c b ≡ false → ltb c a ≡ false
le_trans_ℕ a b c h k = ground arith

gt_irrefl_ℕ : (a : ℕ) → ltb a a ≡ false
gt_irrefl_ℕ a = ground arith

abbrev naturals : Double
naturals = record {
  D = ℕ;
  zero_d = 0;
  one = 1;
  minus_one = 0;
  add = ◌+◌;
  mul = ◌*◌;
  half_pow = λ k. 2 ^ (6 - k);
  gt = λ a b. ltb b a;
  gt_irrefl = gt_irrefl_ℕ;
  gt_trans = gt_trans_ℕ;
  le_trans = le_trans_ℕ;
}

abbrev arithmetic : Arithmetic naturals
arithmetic = record { div = ◌/◌; sub = ◌-◌; of_nat = λ n. n }

abbrev scores : List ℕ
scores = 0 ∷ 2 ∷ 5 ∷ 2 ∷ 7 ∷ []

order_of_scores : var_order naturals arithmetic scores 4 ≡ 4 ∷ 2 ∷ 1 ∷ 3 ∷ []
unfolding var_order
order_of_scores = refl

var_order-IsRanked_example :
    Perm (var_order naturals arithmetic scores 4) (iota 1 4)
    × IsRanked naturals arithmetic scores (var_order naturals arithmetic scores 4)
var_order-IsRanked_example = var_order-IsRanked naturals arithmetic scores 4

-- Without an order all levels are 1.0.
flat_level : get_level naturals arithmetic (make naturals arithmetic false 2 []) 2 ≡ 1
unfolding get_level make
flat_level = refl

abbrev digit : String → Option ℕ
digit s = if str_eq s "9" then some 9 else none

abbrev digit_int : String → Option ℤ
digit_int s = if str_eq s "9" then some (pos 9) else none

abbrev defaults : Settings naturals arithmetic
defaults = default_settings naturals arithmetic 0 30

arguments_read :
    read_args naturals arithmetic digit_int digit
      ("--verbose" ∷ "--num-cubes" ∷ "9" ∷ "--strategy" ∷ "jwts" ∷ [])
      defaults
    ≡ ready (record {
      output_file = "";
      strategy = "jwts";
      opts = record {
        num_cubes = 9;
        timeout_sec = 30;
        alpha = 0;
        use_min_deg = true;
        verbose = true;
      };
    })
unfolding read_args
arguments_read = refl

-- An option after which the value is missing gets the empty text.
value_missing :
    read_args naturals arithmetic digit_int digit ("--timeout" ∷ []) defaults ≡ not_a_number ""
unfolding read_args
value_missing = refl

option_unknown :
    read_args naturals arithmetic digit_int digit ("--cubes" ∷ "9" ∷ []) defaults
    ≡ unknown_option "--cubes"
unfolding read_args
option_unknown = refl
