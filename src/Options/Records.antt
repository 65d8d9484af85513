-- ===== src/Options/Records.antt =====
-- `Option`, `OptionCubeGenerator` and `OptionCounter` of cube_generator/src/option: their fields, their
-- constructors and setters, and what they print.
use text.Mathlib.Text.{◌==◌ as str_eq}
use Prim.Native.String.{String, ◌++◌ as ◌<>◌}
use hydra_sat.Base.{
  ℕ, ◌+◌, Bool, false, ◌||◌, List, [], ◌∷◌, Option, none, some, if◌then◌else◌, ◌==◌, get_or,
}
use hydra_sat.Options.Tables.{
  OptionMethodType, method_cube_generator, method_counter, PreprocMethod, preproc_equiv,
  BranchingCubeHeuristic, vsads, PartialOrderCubeHeuristic, tree_decomposition, CounterMethod,
  counter_d4, counter_sharpsattd, PartialOrderCounter, partial_order_compute, preproc_words,
  branching_words, partial_order_words, counter_words, partial_order_counter_words, preproc_index,
  branching_index, partial_order_index, counter_index, partial_order_counter_index,
}

-- DEFAULT_NB_CUBES_BY_WORKER, DEFAULT_BUDGET_TREE_DECOMP and DEFAULT_PREPROC_TIMEOUT.
abbrev pub default_nb_cubes_by_worker : ℕ
default_nb_cubes_by_worker = 30

abbrev pub default_budget_tree_decomp : ℕ
default_budget_tree_decomp = 10

abbrev pub default_preproc_timeout : ℕ
default_preproc_timeout = 5

-- The fields of `Option`.
pub record BaseOption : Type 0 where
  pub path_formula : String
  pub option_method_type : OptionMethodType
  pub preproc_method : PreprocMethod
  pub preproc_timeout : ℕ
  pub verbosity : Bool

pub record OptionCubeGenerator : Type 0 where
  pub base : BaseOption
  pub budget_tree_decomp : ℕ
  pub nb_cube_by_worker : ℕ
  pub branching_heuristic : BranchingCubeHeuristic
  pub partial_order_heuristic : PartialOrderCubeHeuristic

-- `D` is double. The scale factor has no value before setScaleFactor.
pub record OptionCounter (D : Type 0) : Type 0 where
  pub base : BaseOption
  pub counter_method : CounterMethod
  pub option_cube_generator : OptionCubeGenerator
  pub partial_order_counter : PartialOrderCounter
  pub partial_order : List D
  pub scale_factor : Option D

-- The fields as their declarations initialize them.
abbrev pub new_base : String → OptionMethodType → BaseOption
new_base path m = record {
  path_formula = path;
  option_method_type = m;
  preproc_method = preproc_equiv;
  preproc_timeout = default_preproc_timeout;
  verbosity = false;
}

-- The constructor with a path.
unfoldable pub new_cube_generator :
    String → ℕ → BranchingCubeHeuristic → PartialOrderCubeHeuristic → ℕ → OptionCubeGenerator
new_cube_generator path nb_cube branching partial_order budget = record {
  base = new_base path method_cube_generator;
  budget_tree_decomp = budget;
  nb_cube_by_worker = nb_cube;
  branching_heuristic = branching;
  partial_order_heuristic = partial_order;
}

-- The constructor without a path.
unfoldable pub new_cube_generator_no_path :
    ℕ → BranchingCubeHeuristic → PartialOrderCubeHeuristic → ℕ → OptionCubeGenerator
unfolding new_cube_generator
new_cube_generator_no_path = new_cube_generator "/dev/null"

-- The counter that a name stands for; `none` where the constructor throws.
unfoldable pub counter_of_name : String → Option CounterMethod
counter_of_name s =
    if str_eq s "d4" || str_eq s "D4"
    then some counter_d4
    else if str_eq s "SharpSatTD" || str_eq s "sstd"
    then some counter_sharpsattd
    else none

module _ {D : Type 0} where
  unfoldable pub new_counter :
      String → String → OptionCubeGenerator → PartialOrderCounter → Option (OptionCounter D)
  unfolding counter_of_name
  new_counter path name given partial_order = elim (counter_of_name name) [
    | none ↦ none
    | some c ↦ some (record {
      base = new_base path method_counter;
      counter_method = c;
      option_cube_generator = given;
      partial_order_counter = partial_order;
      partial_order = [];
      scale_factor = none;
    })
  ]

  unfoldable pub set_counter_method : CounterMethod → OptionCounter D → OptionCounter D
  set_counter_method c o = record o { counter_method = c }

  unfoldable pub set_partial_order : List D → OptionCounter D → OptionCounter D
  set_partial_order order o = record o { partial_order = order }

  unfoldable pub set_scale_factor : D → OptionCounter D → OptionCounter D
  set_scale_factor v o = record o { scale_factor = some v }

-- The loop that the four functions helpBranchingCubeHeuristic, helpPartialOrderCubeHeuristic,
-- helpCounterMethod and helpPartialOrderCounterHeuristic share; `i` is the number of the first word.
unfoldable pub help_words : ℕ → ℕ → String → List String → String
help_words i default_index head [] = ""
help_words i default_index head (w ∷ ws) =
    head
    <> w
    <> " "
    <> (if i == default_index then "(default)" else "")
    <> "\n"
    <> help_words (i + 1) default_index head ws

unfoldable pub help_branching_cube_heuristic : String → String
unfolding help_words
help_branching_cube_heuristic head = help_words 0 (branching_index vsads) head branching_words

unfoldable pub help_partial_order_cube_heuristic : String → String
unfolding help_words
help_partial_order_cube_heuristic head =
    help_words 0 (partial_order_index tree_decomposition) head partial_order_words

unfoldable pub help_counter_method : String → String
unfolding help_words
help_counter_method head = help_words 0 (counter_index counter_d4) head counter_words

unfoldable pub help_partial_order_counter_heuristic : String → String
unfolding help_words
help_partial_order_counter_heuristic head =
    help_words 0 (partial_order_counter_index partial_order_compute) head
      partial_order_counter_words

-- `show` is how the standard streams print a number.
module _ (show : ℕ → String) where
  unfoldable pub display_cube_generator : OptionCubeGenerator → String
  display_cube_generator o =
      "c The number of cubes by worker is: "
      <> show o.nb_cube_by_worker
      <> "\n"
      <> "c The approach used for generating the cubes is:\n"
      <> "c\t-branching heuristic: "
      <> get_or branching_words (branching_index o.branching_heuristic) ""
      <> "\n"
      <> "c\t-partial order heuristic: "
      <> get_or partial_order_words (partial_order_index o.partial_order_heuristic) ""
      <> "\n"
      <> "c\t-budget (in seconds) for computing the partial order: "
      <> show o.budget_tree_decomp
      <> "\n"

  unfoldable pub display_counter : {D : Type 0} → OptionCounter D → String
  unfolding display_cube_generator
  display_counter o =
      "c The instance we are considering is: "
      <> o.base.path_formula
      <> "\n"
      <> "c The underlying counter used is: "
      <> get_or counter_words (counter_index o.counter_method) ""
      <> "\n"
      <> "c The partial order heuristic used by the counter: "
      <> get_or partial_order_counter_words (partial_order_counter_index o.partial_order_counter) ""
      <> "\n"
      <> "c The preprocessing used is: "
      <> get_or preproc_words (preproc_index o.base.preproc_method) ""
      <> "\n"
      <> "c The budget given for computing the backbone is: "
      <> show o.base.preproc_timeout
      <> "\n"
      <> display_cube_generator o.option_cube_generator

  -- The words of s_preprocMethod in `help`, each on a line of its own.
  unfoldable pub help_preproc : ℕ → List String → String
  help_preproc i [] = ""
  help_preproc i (w ∷ ws) =
      "\t\t* "
      <> w
      <> (if i == preproc_index preproc_equiv then " (default)\n" else "\n")
      <> help_preproc (i + 1) ws

  -- Option::help for a program of the name `prog`.
  unfoldable pub help : String → String
  unfolding help_preproc help_branching_cube_heuristic help_partial_order_cube_heuristic
      help_counter_method help_partial_order_counter_heuristic
  help prog =
      "[USAGE] mpirun -np NB_PROC "
      <> prog
      <> " -m METHOD -i CNF [OPTIONS]\n\n"
      <> "\tNB_PROC: The number of processes to launch. Must be greater than 2.\n"
      <> "\tMETHOD: The method to execute (either 'cube-generator' or 'counter').\n"
      <> "\tCNF: The file path to a formula in CNF format.\n\n"
      <> "Available methods:\n"
      <> "\t-cube-generator: Generates a set of cubes only.\n"
      <> "\t-counter: Counts the number of models using a cube-and-conquer approach.\n\n"
      <> "Available OPTIONS:\n"
      <> "\t-verbosity BOOL: set the verbosity (default: false)\n"
      <> "\t-preproc STRING: Set the preprocessing method used.\n"
      <> help_preproc 0 preproc_words
      <> "\t-preproc-timeout INT: Set the timeout for the preprocessing method used (default"
      <> show default_preproc_timeout
      <> ").\n"
      <> "\t-cube-byWorker INT: Specifies the number of cubes per worker (default: "
      <> show default_nb_cubes_by_worker
      <> ").\n"
      <> "\t-cube-generator-branching-heuristic STRING: Specifies the heuristic used for generating the cubes:\n"
      <> help_branching_cube_heuristic "\t\t* "
      <> "\t-cube-generator-partial-order-heuristic STRING: Specifies the heuristic used for generating the cubes:\n"
      <> help_partial_order_cube_heuristic "\t\t* "
      <> "\t-cube-generator-partial-order-budget INT: Specifies the budget allocated for computing the partial order (default: "
      <> show default_budget_tree_decomp
      <> ")\n"
      <> "\t-counter-name STRING: Specifies the underlying counter to use:\n"
      <> help_counter_method "\t\t* "
      <> "\t-counter-partial-order-heuristic STRING: Specifies the partial order heuristic for the counter:\n"
      <> help_partial_order_counter_heuristic "\t\t* "
