-- ===== src/Cli/Main.antt =====
-- `main` of cube_gen_cli/cube_gen_cli.cpp: its command line, and what it does with a formula.
mod Tests
use Prim.Native.String.{String, ◌++◌ as ◌<>◌}
use text.Mathlib.Text.{◌==◌ as str_eq}
use mathlib.Core.Option
use hydra_sat.Base.{
  ℕ, ◌+◌, ◌-◌, ◌<◌, Bool, true, false, not, List, [], ◌∷◌, ◌++◌, Option, none, some, ℤ,
  if◌then◌else◌, ◌==◌, length,
}
use hydra_sat.Options.Parse.{to_unsigned}
use hydra_sat.Cli.Lit.{Lit}
use hydra_sat.Cli.Double.{Double}
use hydra_sat.Cli.Parser.{Formula, Line, parse_cnf}
use hydra_sat.Cli.Order.{Arithmetic, make}
use hydra_sat.Cli.Ranking.{final_scores, var_order}
use hydra_sat.Driver.Json.{to_json}

module _ (F : Double) (A : Arithmetic F) where
  open F use {D, zero_d}

  -- OptionCubeGenerator.
  pub record OptionCubeGenerator : Type 0 where
    pub num_cubes : ℕ
    pub timeout_sec : D
    pub alpha : D
    pub use_min_deg : Bool
    pub verbose : Bool

  -- The locals of `main` that the options set.
  pub record Settings : Type 0 where
    pub output_file : String
    pub strategy : String
    pub opts : OptionCubeGenerator

  -- How the loop over the arguments ends: with settings, at an unknown option, or in the exception of a
  -- text that is no number.
  pub data ReadArgs : Type 0 where
    ready : Settings → ReadArgs
    unknown_option not_a_number : String → ReadArgs

  abbrev pub usage : String
  usage =
      "Usage: cube_gen <formula.cnf> [options]\n"
      <> "  --num-cubes N   target cube count        (default: 64)\n"
      <> "  --timeout   S   wall-clock budget (s)    (default: 30)\n"
      <> "  --alpha     F   structural weight [0,1]  (default: 0.5)\n"
      <> "  --strategy  S   combined|jwts|mindeg     (default: combined)\n"
      <> "  --output    F   JSON file (default: stdout)\n"
      <> "  --verbose       progress to stderr\n"

  -- `half` and `thirty` are 0.5 and 30.0.
  abbrev pub default_settings : (half thirty : D) → Settings
  default_settings half thirty = record {
    output_file = "";
    strategy = "combined";
    opts = record {
      num_cubes = 64;
      timeout_sec = thirty;
      alpha = half;
      use_min_deg = true;
      verbose = false;
    };
  }

  module _ (stoi : String → Option ℤ) (stod : String → Option D) where
    -- What an option that takes a value does with it.
    unfoldable pub apply_arg : String → String → Settings → ReadArgs
    unfolding to_unsigned
    apply_arg arg v s =
        if str_eq arg "--num-cubes"
        then elim (stoi v) [
          | none ↦ not_a_number v
          | some k ↦ ready (record s { opts = record s.opts { num_cubes = to_unsigned k } })
        ]
        else if str_eq arg "--timeout"
        then elim (stod v) [
          | none ↦ not_a_number v
          | some t ↦ ready (record s { opts = record s.opts { timeout_sec = t } })
        ]
        else if str_eq arg "--alpha"
        then elim (stod v) [
          | none ↦ not_a_number v
          | some t ↦ ready (record s { opts = record s.opts { alpha = t } })
        ]
        else if str_eq arg "--strategy"
        then ready (record s { strategy = v })
        else if str_eq arg "--output"
        then ready (record s { output_file = v })
        else unknown_option arg

    abbrev pub be_verbose : Settings → Settings
    be_verbose s = record s { opts = record s.opts { verbose = true } }

    -- `nxt` gives the next argument, or the empty text after the last.
    unfoldable pub read_args : List String → Settings → ReadArgs
    unfolding apply_arg
    read_args [] s = ready s
    read_args (arg ∷ []) s =
        if str_eq arg "--verbose" then ready (be_verbose s) else apply_arg arg "" s
    read_args (arg ∷ v ∷ args) s = elim (str_eq arg "--verbose") [
      | true ↦ read_args (v ∷ args) (be_verbose s)
      | false ↦ elim (apply_arg arg v s) [
        | ready t ↦ read_args args t
        | unknown_option o ↦ unknown_option o
        | not_a_number o ↦ not_a_number o
      ]
    ]

    -- opts.useMinDeg = (strategy != "jwts")
    abbrev pub with_strategy : Settings → Settings
    with_strategy s = record s {
      opts = record s.opts { use_min_deg = not (str_eq s.strategy "jwts") };
    }

    -- How `main` ends: with a text on the output or in a file, with exit code 1, or in an exception.
    pub data Exit : Type 0 where
      printed : String → Exit
      written : String → String → Exit
      exited_1 terminated : Exit

    -- `file` gives the lines of a file, `can_write` tells whether one can be written, `generate` is
    -- CubeGenerator: the cubes, the pruned branches and the seconds.
    module _ (half thirty : D) (show : ℤ → String) (show_d : D → String)
        (file : String → Option (List Line)) (can_write : String → Bool)
        (generate : Formula → OptionCubeGenerator → List (List Lit) × ℕ × D) where
      -- The text that is written for a formula.
      unfoldable pub report : Settings → Formula → String
      unfolding make final_scores var_order to_json
      report s f =
          let (cubes, pruned, elapsed) = generate f s.opts in
          let scores =
            final_scores F A s.opts.alpha (make F A s.opts.use_min_deg f.nb_var f.clauses) f.nb_var
              f.clauses in
          to_json show show_d zero_d f.nb_var (length f.clauses) scores
            (var_order F A scores f.nb_var) cubes pruned elapsed s.strategy

      unfoldable pub run_main : String → Settings → Exit
      unfolding report parse_cnf
      run_main path s = elim (file path) [
        | none ↦ exited_1
        | some lines ↦
            let json = report s (parse_cnf lines) in
            if str_eq s.output_file ""
            then printed json
            else if can_write s.output_file
            then written s.output_file json
            else exited_1
      ]

      unfoldable pub main : List String → Exit
      unfolding read_args run_main
      main [] = exited_1
      main (path ∷ args) = elim (read_args args (default_settings half thirty)) [
        | ready s ↦ run_main path (with_strategy s)
        | unknown_option o ↦ exited_1
        | not_a_number o ↦ terminated
      ]
