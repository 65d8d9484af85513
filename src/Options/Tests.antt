-- ===== src/Options/Tests.antt =====
-- The command line of cube_generator/src/option/Option.cpp, on a few arguments, with numbers in unary.
use Prim.Native.String.{String, [] as empty, ◌∷◌ as ◌⊳◌}
use hydra_sat.Base.{
  ℕ, zero, suc, ◌≡◌, ◌≢◌, refl, ap, ◌⊎◌, true, List, [], ◌∷◌, Option, some, ℤ, pos, All, arith,
}
use hydra_sat.Options.Tables.{
  method_cube_generator, preproc_none, branching_words, jwts, no_order, get_enum_value,
  get_enum_value_lem,
}
use hydra_sat.Options.Records.{OptionCubeGenerator}
use hydra_sat.Options.Parse.{
  to_generate, stopped, parse, find, read_pairs, incorrect_option, bad_number,
}
use hydra_sat.Options.Parse.RoundTrip.{args_of, parse-args_of}
use hydra_sat.Options.Parse.Bounds.{IsOption, parse-IsOption}
use hydra_sat.Options.Parse.Errors.{IsBad, parse-unknown_branching}

abbrev ones : ℕ → String
ones zero = ""
ones (suc n) = "I" ⊳ ones n

abbrev count : String → ℕ
count empty = 0
count (c ⊳ s) = suc (count s)

abbrev stoi : String → Option ℤ
stoi s = some (pos (count s))

count-ones : (n : ℕ) → count (ones n) ≡ n
count-ones zero = refl
count-ones (suc n) = ap suc (count-ones n)

abbrev options : OptionCubeGenerator
options = record {
  base = record {
    path_formula = "a.cnf";
    option_method_type = method_cube_generator;
    preproc_method = preproc_none;
    preproc_timeout = 2;
    verbosity = true;
  };
  budget_tree_decomp = 3;
  nb_cube_by_worker = 4;
  branching_heuristic = jwts;
  partial_order_heuristic = no_order;
}

mom_place : get_enum_value branching_words "mom" ≡ some 4
unfolding get_enum_value
mom_place = refl

parse-args_of_example : parse stoi {D = ℕ} (args_of ones options) ≡ to_generate options
parse-args_of_example =
    parse-args_of stoi ones (λ n _. ap (λ k. some (pos k)) (count-ones n)) options
      (record {
        is_generator = refl;
        cubes_lt = omega arith;
        budget_lt = omega arith;
        timeout_lt = omega arith;
      })

abbrev to_counter : List String
to_counter = "-i" ∷ "a.cnf" ∷ "-m" ∷ "counter" ∷ "-preproc-timeout" ∷ "III" ∷ []

parse-IsOption_example : IsOption to_counter (parse stoi {D = ℕ} to_counter)
parse-IsOption_example = parse-IsOption stoi to_counter

abbrev unknown : List String
unknown = "-i" ∷ "a.cnf" ∷ "-m" ∷ "counter" ∷ "-cube-generator-branching-heuristic" ∷ "dlis" ∷ []

dlis_unknown : All (λ v. v ≢ "dlis") branching_words
unfolding get_enum_value
dlis_unknown = (get_enum_value_lem branching_words "dlis").1 refl

parse-unknown_branching_example :
    (parse stoi {D = ℕ} unknown ≡ stopped (incorrect_option "dlis"))
    ⊎ ((t : String) × IsBad stoi "-cube-byWorker" (read_pairs unknown []) t
        × (parse stoi {D = ℕ} unknown ≡ stopped (bad_number t)))
unfolding read_pairs find
parse-unknown_branching_example =
    parse-unknown_branching stoi unknown refl refl refl refl dlis_unknown
