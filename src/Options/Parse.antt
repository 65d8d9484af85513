-- ===== src/Options/Parse.antt =====
-- `Option::parse` of cube_generator/src/option/Option.cpp: the command line, as pairs of an option and its
-- value.
pub mod RoundTrip
pub mod Bounds
pub mod Errors
use text.Mathlib.Text.{◌==◌ as str_eq}
use Prim.Native.String.{String}
use hydra_sat.Base.{
  ℕ, ◌-◌, ◌%◌, ◌^◌, Bool, true, false, List, [], ◌∷◌, Option, none, some, ℤ, pos, negsuc,
  if◌then◌else◌, ◌==◌, length, get_or,
}
use hydra_sat.Options.Tables.{
  PreprocMethod, preproc_none, preproc_equiv, BranchingCubeHeuristic, random, vsads,
  PartialOrderCubeHeuristic, no_order, tree_decomposition, PartialOrderCounter,
  partial_order_compute, partial_order_share, preproc_words, branching_words, partial_order_words,
  partial_order_counter_words, preproc_values, branching_values, partial_order_values,
  partial_order_counter_values, get_enum_value,
}
use hydra_sat.Options.Records.{
  OptionCubeGenerator, OptionCounter, new_cube_generator, new_cube_generator_no_path, new_counter,
  default_nb_cubes_by_worker, default_budget_tree_decomp, default_preproc_timeout,
}

-- What the code throws: std::stoi on a text that is no `int`, a word that is in no table, a counter
-- that is not known.
pub data ParseError : Type 0 where
  bad_number incorrect_option not_a_counter : String → ParseError

pub data Result (A : Type 0) : Type 0 where
  ok : A → Result A
  thrown : ParseError → Result A

infixl 5 ◌>>=◌
unfoldable pub ◌>>=◌ : {A B : Type 0} → Result A → (A → Result B) → Result B
ok a >>= f = f a
thrown e >>= f = thrown e

-- mapOption: a later value of an option hides an earlier one.
abbrev pub OptionMap : Type 0
OptionMap = List (String × String)

unfoldable pub find : String → OptionMap → Option String
find k [] = none
find k ((j, v) ∷ m) = let rest = find k m in if str_eq j k then some v else rest

-- for (int i = 1; i < argc; i += 2) mapOption[argv[i]] = argv[i + 1];
unfoldable pub read_pairs : List String → OptionMap → OptionMap
read_pairs (k ∷ v ∷ args) m = read_pairs args ((k, v) ∷ m)
read_pairs _ m = m

abbrev pub is_given : String → OptionMap → Bool
is_given k m = elim (find k m) [ none ↦ false | some v ↦ true ]

-- The value of an option, or its default.
abbrev pub option_or : {A : Type 0} → String → OptionMap → A → (String → Result A) → Result A
option_or k m default f = elim (find k m) [ none ↦ ok default | some s ↦ f s ]

-- The cast of the number that `getEnumValue` returns.
abbrev pub enum_of : {E : Type 0} → List String → List E → E → String → Result E
enum_of ws es default s = elim (get_enum_value ws s) [
  | none ↦ thrown (incorrect_option s)
  | some i ↦ ok (get_or es i default)
]

-- An `int` that goes into an `unsigned` of 32 bits.
unfoldable pub to_unsigned : ℤ → ℕ
to_unsigned (pos n) = n % 2 ^ 32
to_unsigned (negsuc n) = 2 ^ 32 - 1 - n % 2 ^ 32

-- The locals of `parse`.
pub record Settings : Type 0 where
  pub nb_cube_by_worker : ℕ
  pub branching : BranchingCubeHeuristic
  pub verbosity : Bool
  pub partial_order : PartialOrderCubeHeuristic
  pub partial_order_counter : PartialOrderCounter
  pub budget : ℕ
  pub preproc : PreprocMethod
  pub preproc_timeout : ℕ

-- A call of `parse`: NULL after the help, an exception, or one of the two kinds of options.
pub data Parsed (D : Type 0) : Type 0 where
  helped : Parsed D
  stopped : ParseError → Parsed D
  to_generate : OptionCubeGenerator → Parsed D
  to_count : OptionCounter D → Parsed D

-- The assignments after `new`, and to `given` but for the last one.
abbrev pub with_verbosity : Settings → OptionCubeGenerator → OptionCubeGenerator
with_verbosity s o = record o {
  base = record o.base { verbosity = s.verbosity; preproc_method = s.preproc };
}

abbrev pub with_timeout : Settings → OptionCubeGenerator → OptionCubeGenerator
with_timeout s o = record o { base = record o.base { preproc_timeout = s.preproc_timeout } }

-- `stoi` is std::stoi, `none` where it throws.
module _ (stoi : String → Option ℤ) where
  abbrev pub unsigned_of : String → Result ℕ
  unsigned_of s = elim (stoi s) [ none ↦ thrown (bad_number s) | some x ↦ ok (to_unsigned x) ]

  -- In the order of the code, on which it depends which error is thrown.
  unfoldable pub read_settings : OptionMap → Result Settings
  unfolding find get_enum_value to_unsigned
  read_settings m = do
    nb ← option_or "-cube-byWorker" m default_nb_cubes_by_worker unsigned_of
    br ←
        option_or "-cube-generator-branching-heuristic" m vsads
          (enum_of branching_words branching_values random)
    vb ← option_or "-verbosity" m false (λ s. ok (str_eq s "true"))
    po ←
        option_or "-cube-generator-partial-order-heuristic" m tree_decomposition
          (enum_of partial_order_words partial_order_values no_order)
    pc ←
        option_or "-counter-partial-order-heuristic" m partial_order_compute
          (enum_of partial_order_counter_words partial_order_counter_values partial_order_share)
    bu ← option_or "-cube-generator-partial-order-budget" m default_budget_tree_decomp unsigned_of
    pp ← option_or "-preproc" m preproc_equiv (enum_of preproc_words preproc_values preproc_none)
    pt ← option_or "-preproc-timeout" m default_preproc_timeout unsigned_of
    ok (record {
      nb_cube_by_worker = nb;
      branching = br;
      verbosity = vb;
      partial_order = po;
      partial_order_counter = pc;
      budget = bu;
      preproc = pp;
      preproc_timeout = pt;
    })

  module _ {D : Type 0} where
    -- The assignments to a new counter, or the exception of its constructor.
    abbrev pub count_with : String → Settings → Option (OptionCounter D) → Parsed D
    count_with name s none = stopped (not_a_counter name)
    count_with name s (some o) = to_count (record o {
      base = record o.base {
        verbosity = s.verbosity;
        preproc_method = s.preproc;
        preproc_timeout = s.preproc_timeout;
      };
    })

    -- The options of `-m counter`.
    unfoldable pub make_counter : String → String → Settings → Parsed D
    unfolding new_counter new_cube_generator_no_path
    make_counter path name s =
        let given =
          with_verbosity s
            (new_cube_generator_no_path s.nb_cube_by_worker s.branching s.partial_order s.budget) in
        count_with name s (new_counter path name given s.partial_order_counter)

    -- The options of a method, once `-i`, `-m` and the settings are known.
    unfoldable pub make_options : String → String → OptionMap → Settings → Parsed D
    unfolding make_counter new_cube_generator
    make_options path method m s =
        if str_eq method "cube-generator"
        then to_generate (
            with_timeout s (
              with_verbosity s
                (new_cube_generator path s.nb_cube_by_worker s.branching s.partial_order s.budget)))
        else if str_eq method "counter"
        then make_counter path (elim (find "-counter-name" m) [ none ↦ "D4" | some n ↦ n ]) s
        else helped

    abbrev pub with_settings : String → String → OptionMap → Result Settings → Parsed D
    with_settings path method m (thrown e) = stopped e
    with_settings path method m (ok s) = make_options path method m s

    abbrev pub parse_map : OptionMap → Parsed D
    parse_map m = elim (find "-i" m) [
      | none ↦ helped
      | some path ↦ elim (find "-m" m) [
        | none ↦ helped
        | some method ↦ with_settings path method m (read_settings m)
      ]
    ]

    -- `parse` on the arguments after the name of the program.
    unfoldable pub parse : List String → Parsed D
    unfolding read_pairs find read_settings ◌>>=◌ make_options
    parse args = if length args % 2 == 1 then helped else parse_map (read_pairs args [])
