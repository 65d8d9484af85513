-- ===== src/Options/Parse/Bounds.antt =====
-- The command line of cube_generator/src/option/Option.cpp: what `parse` returns on any arguments.
use text.Mathlib.Text.{◌==◌ as str_eq}
use Prim.Native.String.{String}
use text.Mathlib.TextEquality.{eq_iff}
use hydra_sat.Options.Tables.{
  method_cube_generator, method_counter, CounterMethod, counter_d4, counter_sharpsattd,
}
use hydra_sat.Options.Records.{
  OptionCubeGenerator, OptionCounter, new_cube_generator, new_cube_generator_no_path, new_counter,
  counter_of_name, default_nb_cubes_by_worker, default_budget_tree_decomp, default_preproc_timeout,
}
use hydra_sat.Options.Parse.{
  ParseError, Result, ok, thrown, ◌>>=◌, OptionMap, find, read_pairs, option_or, to_unsigned,
  Settings, Parsed, helped, stopped, to_generate, to_count, unsigned_of, read_settings,
  make_counter, count_with, make_options, with_settings, parse,
}
use hydra_sat.Base.{
  holds-if_eq, holds-elim, holds-elim_eq, ℕ, ◌%◌, ◌^◌, ◌<◌, ◌≡◌, ◌≢◌, refl, sym, ap, subst, ◌∙◌,
  ◌⊎◌, inl, inr, Bool, true, false, ◌||◌, ◌∷◌, if◌then◌else◌, Bool-cases, ==_iff, List, [], Option,
  none, some, ℤ, pos, negsuc, ◌==◌, length, arith,
}

-- What holds of a result, if there is one.
pub data Holds {A : Type 0} (P : A → Type 0) : Result A → Type 0 where
  on_ok : {a : A} → P a → Holds P (ok a)
  on_thrown : {e : ParseError} → Holds P (thrown e)

Holds-bind :
    {A B : Type 0} {P : A → Type 0} {Q : B → Type 0} (r : Result A) (f : A → Result B)
    → Holds P r
    → ((a : A) → P a → Holds Q (f a))
    → Holds Q (r >>= f)
unfolding ◌>>=◌
Holds-bind (ok a) f (on_ok h) k = k a h
Holds-bind (thrown e) f h k = on_thrown

Holds-skip :
    {A B : Type 0} {Q : B → Type 0} (r : Result A) (f : A → Result B)
    → ((a : A) → Holds Q (f a))
    → Holds Q (r >>= f)
unfolding ◌>>=◌
Holds-skip (ok a) f k = k a
Holds-skip (thrown e) f k = on_thrown

-- Numbers that an `unsigned` of 32 bits holds.
pub record IsWord (s : Settings) : Type 0 where
  pub nb_lt : s.nb_cube_by_worker < 2 ^ 32
  pub budget_lt : s.budget < 2 ^ 32
  pub timeout_lt : s.preproc_timeout < 2 ^ 32

to_unsigned_lt : (x : ℤ) → to_unsigned x < 2 ^ 32
unfolding to_unsigned
to_unsigned_lt (pos n) = omega arith
to_unsigned_lt (negsuc n) = omega arith

abbrev or_else : Option String → Option String → Option String
or_else none d = d
or_else (some w) d = some w

-- The value of an option on a command line: that of its last place.
unfoldable pub last_of : String → List String → Option String
last_of k (j ∷ v ∷ args) = or_else (last_of k args) (if str_eq j k then some v else none)
last_of k _ = none

or_else-if :
    (o : Option String) (b : Bool) (v : String) (d : Option String)
    → or_else o (if b then some v else d) ≡ or_else (or_else o (if b then some v else none)) d
or_else-if (some w) b v d = refl
or_else-if none true v d = refl
or_else-if none false v d = refl

find-read_pairs :
    (k : String) (args : List String) (m : OptionMap)
    → find k (read_pairs args m) ≡ or_else (last_of k args) (find k m)
unfolding find read_pairs last_of
find-read_pairs k [] m = refl
find-read_pairs k (j ∷ []) m = refl
find-read_pairs k (j ∷ v ∷ args) m =
    find-read_pairs k args ((j, v) ∷ m) ∙ or_else-if (last_of k args) (str_eq j k) v (find k m)

find-last_of :
    (k : String) (args : List String) {o : Option String}
    → find k (read_pairs args []) ≡ o
    → last_of k args ≡ o
unfolding find
find-last_of k args e = by_last (last_of k args) ∙ sym (find-read_pairs k args []) ∙ e
  where
    by_last : (o : Option String) → o ≡ or_else o none
    by_last none = refl
    by_last (some w) = refl

-- The counters by their names.
pub data IsNamed (s : String) : CounterMethod → Type 0 where
  names_d4 : (s ≡ "d4") ⊎ (s ≡ "D4") → IsNamed s counter_d4
  names_sharpsattd : (s ≡ "SharpSatTD") ⊎ (s ≡ "sstd") → IsNamed s counter_sharpsattd

one_of : (s u v : String) → (str_eq s u || str_eq s v) ≡ true → (s ≡ u) ⊎ (s ≡ v)
one_of s u v e = elim (Bool-cases (str_eq s u)) [
  | inl same ↦ inl ((eq_iff s u).0 same)
  | inr other ↦ inr ((eq_iff s v).0 (ground (arith, other, e)))
]

counter_of_name-IsNamed :
    (s : String) (c : CounterMethod) → counter_of_name s ≡ some c → IsNamed s c
unfolding counter_of_name
counter_of_name-IsNamed s c e = elim (Bool-cases (str_eq s "d4" || str_eq s "D4")) [
  | inl d4 ↦
      let same : some counter_d4 ≡ some c = sym (rw (d4, counter_of_name) refl) ∙ e in
      let named : counter_d4 ≡ c = cc same in
      subst (IsNamed s) named (names_d4 (one_of s "d4" "D4" d4))
  | inr other ↦ elim (Bool-cases (str_eq s "SharpSatTD" || str_eq s "sstd")) [
    | inl sharp ↦
        let same : some counter_sharpsattd ≡ some c =
          sym (rw (other, sharp, counter_of_name) refl) ∙ e in
        let named : counter_sharpsattd ≡ c = cc same in
        subst (IsNamed s) named (names_sharpsattd (one_of s "SharpSatTD" "sstd" sharp))
    | inr neither ↦
        let clash : none ≡ some c = sym (rw (other, neither, counter_of_name) refl) ∙ e in
        absurd (cc clash)
  ]
]

-- Options of a generator of a formula with numbers that an `unsigned` holds.
pub record IsGenerator (path : String) (o : OptionCubeGenerator) : Type 0 where
  pub method_eq : o.base.option_method_type ≡ method_cube_generator
  pub path_eq : o.base.path_formula ≡ path
  pub nb_lt : o.nb_cube_by_worker < 2 ^ 32
  pub budget_lt : o.budget_tree_decomp < 2 ^ 32
  pub timeout_lt : o.base.preproc_timeout < 2 ^ 32

-- Options of a counter of a formula, and of its generator, which does not get the path or the timeout.
pub record IsCounter {D : Type 0} (path name : String) (c : OptionCounter D) : Type 0 where
  pub method_eq : c.base.option_method_type ≡ method_counter
  pub path_eq : c.base.path_formula ≡ path
  pub counter_named : IsNamed name c.counter_method
  pub timeout_lt : c.base.preproc_timeout < 2 ^ 32
  pub given : IsGenerator "/dev/null" c.option_cube_generator
  pub given_timeout : c.option_cube_generator.base.preproc_timeout ≡ default_preproc_timeout
  pub given_verbosity : c.option_cube_generator.base.verbosity ≡ c.base.verbosity
  pub given_preproc : c.option_cube_generator.base.preproc_method ≡ c.base.preproc_method
  pub no_order_yet : c.partial_order ≡ []
  pub no_factor_yet : c.scale_factor ≡ none

-- What brings up the help.
pub data IsAsking (args : List String) : Type 0 where
  half_a_pair : length args % 2 ≡ 1 → IsAsking args
  no_path : last_of "-i" args ≡ none → IsAsking args
  no_method : last_of "-m" args ≡ none → IsAsking args
  other_method :
      {m : String}
      → last_of "-m" args ≡ some m
      → m ≢ "cube-generator"
      → m ≢ "counter"
      → IsAsking args

-- What a command line gives.
pub data IsOption {D : Type 0} (args : List String) : Parsed D → Type 0 where
  is_helped : IsAsking args → IsOption args helped
  is_stopped : {e : ParseError} → IsOption args (stopped e)
  is_to_generate :
      {path : String} {o : OptionCubeGenerator}
      → last_of "-i" args ≡ some path
      → last_of "-m" args ≡ some "cube-generator"
      → IsGenerator path o
      → IsOption args (to_generate o)
  is_to_count :
      {path name : String} {c : OptionCounter D}
      → last_of "-i" args ≡ some path
      → last_of "-m" args ≡ some "counter"
      → (last_of "-counter-name" args ≡ some name)
        ⊎ ((last_of "-counter-name" args ≡ none) × (name ≡ "D4"))
      → IsCounter path name c
      → IsOption args (to_count c)

module _ (stoi : String → Option ℤ) where
  unsigned_of_lt : (s : String) → Holds (λ n. n < 2 ^ 32) (unsigned_of stoi s)
  unsigned_of_lt s =
      holds-elim (Holds (λ n. n < 2 ^ 32)) (stoi s) on_thrown (λ x. on_ok (to_unsigned_lt x))

  option_or_lt :
      (k : String) (m : OptionMap) (d : ℕ)
      → d < 2 ^ 32
      → Holds (λ n. n < 2 ^ 32) (option_or k m d (unsigned_of stoi))
  option_or_lt k m d h = holds-elim (Holds (λ n. n < 2 ^ 32)) (find k m) (on_ok h) unsigned_of_lt

  read_settings-IsWord : (m : OptionMap) → Holds IsWord (read_settings stoi m)
  unfolding read_settings
  read_settings-IsWord m =
      Holds-bind _ _ (option_or_lt "-cube-byWorker" m default_nb_cubes_by_worker (omega arith))
        (λ nb nb_lt. Holds-skip _ _ (λ br. Holds-skip _ _ (λ vb. Holds-skip _ _ (λ po.
          Holds-skip _ _ (λ pc.
            Holds-bind _ _
              (option_or_lt "-cube-generator-partial-order-budget" m default_budget_tree_decomp
                (omega arith))
              (λ bu bu_lt. Holds-skip _ _ (λ pp.
                Holds-bind _ _
                  (option_or_lt "-preproc-timeout" m default_preproc_timeout (omega arith))
                  (λ pt pt_lt.
                    on_ok (record { nb_lt = nb_lt; budget_lt = bu_lt; timeout_lt = pt_lt })))))))))

  module _ {D : Type 0} (args : List String) (path : String)
      (path_given : last_of "-i" args ≡ some path) where
    make_counter-IsOption :
        (name : String) (s : Settings)
        → last_of "-m" args ≡ some "counter"
        → (last_of "-counter-name" args ≡ some name)
          ⊎ ((last_of "-counter-name" args ≡ none) × (name ≡ "D4"))
        → IsWord s
        → IsOption args (make_counter stoi {D = D} path name s)
    unfolding make_counter new_counter new_cube_generator_no_path new_cube_generator
    make_counter-IsOption name s is_counter named w =
        holds-elim_eq {B = Option (OptionCounter D)}
          (λ x. IsOption {D = D} args (count_with stoi name s x)) (counter_of_name name)
          (λ e. is_stopped)
          (λ c e. is_to_count path_given is_counter named (record {
            method_eq = refl;
            path_eq = refl;
            counter_named = counter_of_name-IsNamed name c e;
            timeout_lt = w.timeout_lt;
            given = record {
              method_eq = refl;
              path_eq = refl;
              nb_lt = w.nb_lt;
              budget_lt = w.budget_lt;
              timeout_lt = omega arith;
            };
            given_timeout = refl;
            given_verbosity = refl;
            given_preproc = refl;
            no_order_yet = refl;
            no_factor_yet = refl;
          }))

    named_counter :
        (s : Settings)
        → last_of "-m" args ≡ some "counter"
        → IsWord s
        → IsOption args (
            make_counter stoi {D = D} path
              (elim (find "-counter-name" (read_pairs args [])) [ none ↦ "D4" | some n ↦ n ])
              s)
    named_counter s is_counter w =
        holds-elim_eq (λ n. IsOption args (make_counter stoi {D = D} path n s))
          (find "-counter-name" (read_pairs args []))
          (λ e.
            make_counter-IsOption "D4" s is_counter
              (inr (find-last_of "-counter-name" args e, refl)) w)
          (λ name e.
            make_counter-IsOption name s is_counter (inl (find-last_of "-counter-name" args e)) w)

    make_options-IsOption :
        (method : String) (s : Settings)
        → last_of "-m" args ≡ some method
        → IsWord s
        → IsOption args (make_options stoi {D = D} path method (read_pairs args []) s)
    unfolding make_options new_cube_generator
    make_options-IsOption method s given w = elim (Bool-cases (str_eq method "cube-generator")) [
      | inl e ↦ rw e (
          is_to_generate path_given (given ∙ ap some ((eq_iff method "cube-generator").0 e))
            (record {
              method_eq = refl;
              path_eq = refl;
              nb_lt = w.nb_lt;
              budget_lt = w.budget_lt;
              timeout_lt = w.timeout_lt;
            }))
      | inr no_generator ↦ elim (Bool-cases (str_eq method "counter")) [
        | inl e ↦
            rw (no_generator, e)
              (named_counter s (given ∙ ap some ((eq_iff method "counter").0 e)) w)
        | inr no_counter ↦
            rw (no_generator, no_counter)
              (is_helped (
                other_method given
                  (λ same. cc ((eq_iff method "cube-generator").1 same, no_generator))
                  (λ same. cc ((eq_iff method "counter").1 same, no_counter))))
      ]
    ]

    with_settings-IsOption :
        (method : String) (r : Result Settings)
        → last_of "-m" args ≡ some method
        → Holds IsWord r
        → IsOption args (with_settings stoi {D = D} path method (read_pairs args []) r)
    with_settings-IsOption method (thrown e) given h = is_stopped
    with_settings-IsOption method (ok s) given (on_ok h) = make_options-IsOption method s given h

  -- Whatever the command line: parse returns the help only where an argument has no pair, -i or -m is
  -- missing, or the last -m is neither method; otherwise it stops with an error, or it returns the options of
  -- the last -m, with the path of the last -i and numbers below 2^32. Those of a counter have the counter of
  -- the last -counter-name, D4 without one, and the generator inside has the verbosity and the preprocessing
  -- of the counter, the path /dev/null and always the default timeout.
  pub parse-IsOption : {D : Type 0} (args : List String) → IsOption args (parse stoi {D = D} args)
  unfolding parse
  parse-IsOption args =
      holds-if_eq (IsOption args) (length args % 2 == 1)
        (λ odd. is_helped (half_a_pair ((==_iff (length args % 2) 1).0 odd)))
        (λ even.
          holds-elim_eq (IsOption args) (find "-i" m)
            (λ e. is_helped (no_path (find-last_of "-i" args e)))
            (λ path e.
              holds-elim_eq (IsOption args) (find "-m" m)
                (λ none_given. is_helped (no_method (find-last_of "-m" args none_given)))
                (λ method given.
                  with_settings-IsOption args path (find-last_of "-i" args e) method _
                    (find-last_of "-m" args given) (read_settings-IsWord m))))
    where
      m : OptionMap
      m = read_pairs args []
