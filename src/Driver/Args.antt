-- ===== src/Driver/Args.antt =====
-- `main` of cube_generator/main.cpp: its command line, and what it does with a formula.
use Prim.Native.String.{String, ◌++◌ as ◌<>◌}
use text.Mathlib.Text.{◌==◌ as str_eq}
use hydra_sat.Base.{ℕ, ◌%◌, ◌^◌, Bool, ◌||◌, List, [], ◌∷◌, Option, none, some, ℤ, if◌then◌else◌}
use hydra_sat.Formula.ProblemTypes.{Lit}
use hydra_sat.Formula.WeightedCnf.{Weight, WeightedCnf}
use hydra_sat.Driver.Parse.{FileLine, parse_dimacs}
use hydra_sat.Driver.Json.{emit_json}

-- The options; `D` is double.
pub record Args (D : Type 0) : Type 0 where
  pub input_file : String
  pub limit_cubes : ℕ
  pub nb_threads : ℕ
  pub time_budget : D

-- How the loop over the arguments ends: with options, at --help, at an argument that is none, or in the
-- exception of a text that is no number, which nothing catches.
pub data ReadArgs (D : Type 0) : Type 0 where
  ready : Args D → ReadArgs D
  help_asked wrong_usage : ReadArgs D
  not_a_number : String → ReadArgs D

abbrev pub is_either : String → String → String → Bool
is_either arg long short = str_eq arg long || str_eq arg short

-- `stoul` and `stod` are std::stoul and std::stod, `none` where they throw.
module _ {D : Type 0} (stoul : String → Option ℕ) (stod : String → Option D) where
  -- What an option with its value does; `none` if it is no such option.
  unfoldable pub apply_arg : String → String → Args D → Option (ReadArgs D)
  apply_arg arg v a =
      if is_either arg "--input" "-i"
      then some (ready (record a { input_file = v }))
      else if is_either arg "--cubes" "-n"
      then some (elim (stoul v) [
        | none ↦ not_a_number v
        | some k ↦ ready (record a { limit_cubes = k % 2 ^ 32 })
      ])
      else if is_either arg "--threads" "-t"
      then some (elim (stoul v) [
        | none ↦ not_a_number v
        | some k ↦ ready (record a { nb_threads = k % 2 ^ 32 })
      ])
      else if is_either arg "--time" "-s"
      then some
          (elim (stod v) [ none ↦ not_a_number v | some t ↦ ready (record a { time_budget = t }) ])
      else none

  abbrev pub no_value : String → ReadArgs D
  no_value arg = if is_either arg "--help" "-h" then help_asked else wrong_usage

  unfoldable pub read_args : List String → Args D → ReadArgs D
  unfolding apply_arg
  read_args [] a = ready a
  read_args (arg ∷ []) a = no_value arg
  read_args (arg ∷ v ∷ args) a = elim (apply_arg arg v a) [
    | none ↦ no_value arg
    | some (ready b) ↦ read_args args b
    | some help_asked ↦ help_asked
    | some wrong_usage ↦ wrong_usage
    | some (not_a_number s) ↦ not_a_number s
  ]

  -- The defaults; `minute` is 60.0.
  abbrev pub default_args : D → Args D
  default_args minute = record {
    input_file = "";
    limit_cubes = 1000;
    nb_threads = 4;
    time_budget = minute;
  }

-- What a run of CubeGeneratorCLI leaves: the answer of generate, the cubes, the partial order, the
-- treewidth, and the seconds that it took.
pub record Run (D : Type 0) : Type 0 where
  pub satisfiable : Bool
  pub cubes : List (List Lit)
  pub partial_order : List ℕ
  pub treewidth : ℤ
  pub elapsed : D

-- How `main` ends.
pub data Exit : Type 0 where
  printed : String → Exit
  exited : ℕ → Exit
  terminated : Exit

unfoldable pub usage : String → String
usage prog =
    "Usage: " <> prog <> " [--input FILE] [--cubes N] [--threads T] [--time S]\n"
    <> "  --input   path to DIMACS CNF  (default: stdin)\n"
    <> "  --cubes   target cube count    (default: 1000)\n"
    <> "  --threads parallel SAT workers (default: 4)\n"
    <> "  --time    budget in seconds    (default: 60)\n"

-- `file` gives the lines of a file, `none` if it cannot be opened; `generate` is CubeGeneratorCLI.
module _ {D : Type 0} (F : Weight) (stoul : String → Option ℕ) (stod : String → Option D)
    (minute : D) (show : ℤ → String) (show_d : D → String) (stdin : List FileLine)
    (file : String → Option (List FileLine)) (generate : ℕ → WeightedCnf F → ℕ → D → Run D) where
  -- From the parse of the formula on.
  unfoldable pub run_main : Args D → Exit
  unfolding parse_dimacs emit_json
  run_main a =
      let input = if str_eq a.input_file "" then some stdin else file a.input_file in
      elim input [
        | none ↦ exited 2
        | some lines ↦ elim (parse_dimacs F lines) [
          | none ↦ exited 2
          | some formula ↦
              let r = generate a.nb_threads formula a.limit_cubes a.time_budget in
              printed
                (emit_json show show_d r.cubes r.partial_order r.satisfiable r.elapsed r.treewidth)
        ]
      ]

  unfoldable pub main : List String → Exit
  unfolding read_args run_main
  main args = elim (read_args stoul stod args (default_args stoul stod minute)) [
    | ready a ↦ run_main a
    | help_asked ↦ exited 0
    | wrong_usage ↦ exited 1
    | not_a_number s ↦ terminated
  ]
