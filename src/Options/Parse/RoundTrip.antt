-- ===== src/Options/Parse/RoundTrip.antt =====
-- The command line of cube_generator/src/option/Option.cpp: what `parse` makes of a printed one.
use text.Mathlib.Text.{◌==◌ as str_eq}
use Prim.Native.String.{String}
use hydra_sat.Options.Tables.{
  method_cube_generator, PreprocMethod, preproc_none, preproc_equiv, BranchingCubeHeuristic, random,
  vsads, vsids, dlcs, mom, jwts, PartialOrderCubeHeuristic, no_order, tree_decomposition,
  partial_order_compute, partial_order_share, preproc_words, branching_words, partial_order_words,
  partial_order_counter_words, preproc_values, branching_values, partial_order_values,
  partial_order_counter_values, preproc_index, branching_index, partial_order_index, get_enum_value,
}
use hydra_sat.Options.Records.{
  OptionCubeGenerator, new_cube_generator, default_nb_cubes_by_worker, default_budget_tree_decomp,
  default_preproc_timeout,
}
use hydra_sat.Options.Parse.{
  bad_number, Result, ok, thrown, ◌>>=◌, OptionMap, find, read_pairs, option_or, enum_of,
  to_unsigned, Settings, to_generate, unsigned_of, read_settings, make_options, with_settings,
  parse,
}
use hydra_sat.Base.{
  ℕ, ◌%◌, ◌^◌, ◌<◌, ◌≡◌, refl, sym, ap, subst, ◌∙◌, Bool, true, false, List, [], ◌∷◌, Option, none,
  some, ℤ, pos, if◌then◌else◌, get_or, arith,
}

-- The command line that prints the options of a generator, `show` as the standard streams print a number.
unfoldable pub args_of : (show : ℕ → String) → OptionCubeGenerator → List String
args_of show o =
    "-i"
    ∷ o.base.path_formula
    ∷ "-m"
    ∷ "cube-generator"
    ∷ "-cube-byWorker"
    ∷ show o.nb_cube_by_worker
    ∷ "-cube-generator-branching-heuristic"
    ∷ get_or branching_words (branching_index o.branching_heuristic) ""
    ∷ "-verbosity"
    ∷ (if o.base.verbosity then "true" else "false")
    ∷ "-cube-generator-partial-order-heuristic"
    ∷ get_or partial_order_words (partial_order_index o.partial_order_heuristic) ""
    ∷ "-cube-generator-partial-order-budget"
    ∷ show o.budget_tree_decomp
    ∷ "-preproc"
    ∷ get_or preproc_words (preproc_index o.base.preproc_method) ""
    ∷ "-preproc-timeout"
    ∷ show o.base.preproc_timeout
    ∷ []

-- Options of a generator whose numbers an `int` holds.
pub record IsPrintable (o : OptionCubeGenerator) : Type 0 where
  pub is_generator : o.base.option_method_type ≡ method_cube_generator
  pub cubes_lt : o.nb_cube_by_worker < 2 ^ 31
  pub budget_lt : o.budget_tree_decomp < 2 ^ 31
  pub timeout_lt : o.base.preproc_timeout < 2 ^ 31

enum_of-branching_words :
    (b : BranchingCubeHeuristic)
    → enum_of branching_words branching_values random
        (get_or branching_words (branching_index b) "")
      ≡ ok b
unfolding get_enum_value
enum_of-branching_words random = refl
enum_of-branching_words vsads = refl
enum_of-branching_words vsids = refl
enum_of-branching_words dlcs = refl
enum_of-branching_words mom = refl
enum_of-branching_words jwts = refl

enum_of-partial_order_words :
    (b : PartialOrderCubeHeuristic)
    → enum_of partial_order_words partial_order_values no_order
        (get_or partial_order_words (partial_order_index b) "")
      ≡ ok b
unfolding get_enum_value
enum_of-partial_order_words no_order = refl
enum_of-partial_order_words tree_decomposition = refl

enum_of-preproc_words :
    (b : PreprocMethod)
    → enum_of preproc_words preproc_values preproc_none (get_or preproc_words (preproc_index b) "")
      ≡ ok b
unfolding get_enum_value
enum_of-preproc_words preproc_none = refl
enum_of-preproc_words preproc_equiv = refl

is_true-word : (b : Bool) → str_eq (if b then "true" else "false") "true" ≡ b
is_true-word true = refl
is_true-word false = refl

pub after-ok :
    {A B : Type 0} {r : Result A} {a : A} (f : A → Result B) {b : Result B}
    → r ≡ ok a
    → f a ≡ b
    → (r >>= f) ≡ b
unfolding ◌>>=◌
after-ok f {b} e h = subst (λ x. (x >>= f) ≡ b) (sym e) h

module _ (stoi : String → Option ℤ) where
  unsigned_of-int :
      {s : String} {n : ℕ} → stoi s ≡ some (pos n) → n < 2 ^ 31 → unsigned_of stoi s ≡ ok n
  unfolding to_unsigned
  unsigned_of-int {s} {n} h l =
      subst (λ x. elim x [ none ↦ thrown (bad_number s) | some y ↦ ok (to_unsigned y) ] ≡ ok n)
        (sym h) (ap ok (mod_small l))
    where
      mod_small : {n : ℕ} → n < 2 ^ 31 → n % 2 ^ 32 ≡ n
      mod_small l = omega arith

  -- The value of each option in `m`, and the settings that they make.
  pub record Reads (m : OptionMap) (s : Settings) : Type 0 where
    pub nb_eq :
        option_or "-cube-byWorker" m default_nb_cubes_by_worker (unsigned_of stoi)
        ≡ ok s.nb_cube_by_worker
    pub branching_eq :
        option_or "-cube-generator-branching-heuristic" m vsads
          (enum_of branching_words branching_values random)
        ≡ ok s.branching
    pub verbosity_eq : option_or "-verbosity" m false (λ t. ok (str_eq t "true")) ≡ ok s.verbosity
    pub order_eq :
        option_or "-cube-generator-partial-order-heuristic" m tree_decomposition
          (enum_of partial_order_words partial_order_values no_order)
        ≡ ok s.partial_order
    pub counter_eq :
        option_or "-counter-partial-order-heuristic" m partial_order_compute
          (enum_of partial_order_counter_words partial_order_counter_values partial_order_share)
        ≡ ok s.partial_order_counter
    pub budget_eq :
        option_or "-cube-generator-partial-order-budget" m default_budget_tree_decomp
          (unsigned_of stoi)
        ≡ ok s.budget
    pub preproc_eq :
        option_or "-preproc" m preproc_equiv (enum_of preproc_words preproc_values preproc_none)
        ≡ ok s.preproc
    pub timeout_eq :
        option_or "-preproc-timeout" m default_preproc_timeout (unsigned_of stoi)
        ≡ ok s.preproc_timeout

  read_settings-Reads : {m : OptionMap} {s : Settings} → Reads m s → read_settings stoi m ≡ ok s
  unfolding read_settings
  read_settings-Reads r = after-ok _ r.nb_eq (
      after-ok _ r.branching_eq (
        after-ok _ r.verbosity_eq (
          after-ok _ r.order_eq (
            after-ok _ r.counter_eq
              (after-ok _ r.budget_eq (after-ok _ r.preproc_eq (after-ok _ r.timeout_eq refl)))))))

  module _ {D : Type 0} (show : ℕ → String) where
    -- Parsing the command line that gives every option of a generator makes those options, where stoi
    -- reads back each number below 2^31 as printed and the numbers of the options are below 2^31.
    pub parse-args_of :
        ((n : ℕ) → n < 2 ^ 31 → stoi (show n) ≡ some (pos n))
        → (o : OptionCubeGenerator) → IsPrintable o
        → parse stoi {D = D} (args_of show o) ≡ to_generate o
    unfolding parse read_pairs find read_settings make_options new_cube_generator args_of
    parse-args_of h o p =
        ap (with_settings stoi o.base.path_formula "cube-generator" m) (read_settings-Reads reads)
        ∙ ap (λ k. to_generate (record o { base = record o.base { option_method_type = k } }))
            (sym p.is_generator)
      where
        m : OptionMap
        m = read_pairs (args_of show o) []

        reads : Reads m (record {
          nb_cube_by_worker = o.nb_cube_by_worker;
          branching = o.branching_heuristic;
          verbosity = o.base.verbosity;
          partial_order = o.partial_order_heuristic;
          partial_order_counter = partial_order_compute;
          budget = o.budget_tree_decomp;
          preproc = o.base.preproc_method;
          preproc_timeout = o.base.preproc_timeout;
        })
        reads = record {
          nb_eq = unsigned_of-int (h o.nb_cube_by_worker p.cubes_lt) p.cubes_lt;
          branching_eq = enum_of-branching_words o.branching_heuristic;
          verbosity_eq = ap ok (is_true-word o.base.verbosity);
          order_eq = enum_of-partial_order_words o.partial_order_heuristic;
          counter_eq = refl;
          budget_eq = unsigned_of-int (h o.budget_tree_decomp p.budget_lt) p.budget_lt;
          preproc_eq = enum_of-preproc_words o.base.preproc_method;
          timeout_eq = unsigned_of-int (h o.base.preproc_timeout p.timeout_lt) p.timeout_lt;
        }
