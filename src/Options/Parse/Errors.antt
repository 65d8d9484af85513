-- ===== src/Options/Parse/Errors.antt =====
-- The command line of cube_generator/src/option/Option.cpp: a word that is in no table.
use Prim.Native.String.{String}
use hydra_sat.Options.Tables.{
  random, vsads, branching_words, branching_values, get_enum_value-absent,
}
use hydra_sat.Options.Records.{default_nb_cubes_by_worker}
use hydra_sat.Options.Parse.{
  ParseError, incorrect_option, bad_number, Result, ok, thrown, ◌>>=◌, OptionMap, find, read_pairs,
  option_or, enum_of, to_unsigned, helped, stopped, unsigned_of, read_settings, with_settings,
  parse_map, parse,
}
use hydra_sat.Options.Parse.RoundTrip.{after-ok}
use hydra_sat.Base.{
  elim_some, elim_none, ℕ, ◌%◌, ◌≡◌, refl, sym, ap, subst, ◌∙◌, ◌≢◌, ◌⊎◌, inl, inr, List, [],
  Option, none, some, ℤ, if◌then◌else◌, ◌==◌, Option-cases, length, get_or, All,
}

after-thrown :
    {A B : Type 0} {r : Result A} {e : ParseError} (f : A → Result B)
    → r ≡ thrown e
    → (r >>= f) ≡ thrown e
unfolding ◌>>=◌
after-thrown {e} f h = subst (λ x. (x >>= f) ≡ thrown e) (sym h) refl

if_odd : {A : Type 0} (x y : A) (n : ℕ) → n ≡ 0 → (if n == 1 then x else y) ≡ y
if_odd x y n h = subst (λ k. (if k == 1 then x else y) ≡ y) (sym h) refl

module _ (stoi : String → Option ℤ) where
  -- The text of an option is no number.
  pub IsBad : String → OptionMap → String → Type 0
  IsBad k m t = (find k m ≡ some t) × (stoi t ≡ none)

  option_or-cases :
      (k : String) (m : OptionMap) (d : ℕ)
      → ((n : ℕ) × (option_or k m d (unsigned_of stoi) ≡ ok n))
        ⊎ ((t : String) × IsBad k m t
            × (option_or k m d (unsigned_of stoi) ≡ thrown (bad_number t)))
  unfolding IsBad
  option_or-cases k m d = elim (Option-cases (find k m)) [
    | inl absent ↦ inl (d, elim_none (ok d) (unsigned_of stoi) absent)
    | inr (t, given) ↦ elim (Option-cases (stoi t)) [
      | inl bad ↦ inr (
        t,
        (given, bad),
        elim_some (ok d) (unsigned_of stoi) given
            ∙ elim_none (thrown (bad_number t)) (λ y. ok (to_unsigned y)) bad,
      )
      | inr (x, good) ↦ inl (
        to_unsigned x,
        elim_some (ok d) (unsigned_of stoi) given
            ∙ elim_some (thrown (bad_number t)) (λ y. ok (to_unsigned y)) good,
      )
    ]
  ]

  read_settings-branching :
      (m : OptionMap) (w : String)
      → find "-cube-generator-branching-heuristic" m ≡ some w
      → All (λ v. v ≢ w) branching_words
      → (read_settings stoi m ≡ thrown (incorrect_option w))
        ⊎ ((t : String) × IsBad "-cube-byWorker" m t
            × (read_settings stoi m ≡ thrown (bad_number t)))
  unfolding read_settings
  read_settings-branching m w h k =
      elim (option_or-cases "-cube-byWorker" m default_nb_cubes_by_worker) [
        | inl (n, e) ↦ inl (after-ok _ e (after-thrown _ branching))
        | inr (t, bad, e) ↦ inr (t, bad, after-thrown _ e)
      ]
    where
      branching :
          option_or "-cube-generator-branching-heuristic" m vsads
            (enum_of branching_words branching_values random)
          ≡ thrown (incorrect_option w)
      branching =
          elim_some (ok vsads) (enum_of branching_words branching_values random) h
          ∙ elim_none (thrown (incorrect_option w)) (λ i. ok (get_or branching_values i random))
              (get_enum_value-absent branching_words w k)

  parse-settings :
      {D : Type 0} (args : List String) {path method : String} {e : ParseError}
      → length args % 2 ≡ 0
      → find "-i" (read_pairs args []) ≡ some path
      → find "-m" (read_pairs args []) ≡ some method
      → read_settings stoi (read_pairs args []) ≡ thrown e
      → parse stoi {D = D} args ≡ stopped e
  unfolding parse
  parse-settings args {path} {method} even i j h =
      if_odd helped (parse_map stoi m) (length args % 2) even
      ∙ elim_some helped
          (λ p. elim (find "-m" m) [
            | none ↦ helped
            | some k ↦ with_settings stoi p k m (read_settings stoi m)
          ])
          i
      ∙ elim_some helped (λ k. with_settings stoi path k m (read_settings stoi m)) j
      ∙ ap (with_settings stoi path method m) h
    where
      m : OptionMap
      m = read_pairs args []

  -- A branching word of no table stops parse, on arguments in pairs with -i and -m among them: with the
  -- error that names the word, unless the number of cubes, which is read before it, is no number.
  pub parse-unknown_branching :
      {D : Type 0} (args : List String) {path method w : String}
      → length args % 2 ≡ 0
      → find "-i" (read_pairs args []) ≡ some path
      → find "-m" (read_pairs args []) ≡ some method
      → find "-cube-generator-branching-heuristic" (read_pairs args []) ≡ some w
      → All (λ v. v ≢ w) branching_words
      → (parse stoi {D = D} args ≡ stopped (incorrect_option w))
        ⊎ ((t : String) × IsBad "-cube-byWorker" (read_pairs args []) t
            × (parse stoi {D = D} args ≡ stopped (bad_number t)))
  parse-unknown_branching args {w} even i j h k =
      elim (read_settings-branching (read_pairs args []) w h k) [
        | inl e ↦ inl (parse-settings args even i j e)
        | inr (t, bad, e) ↦ inr (t, bad, parse-settings args even i j e)
      ]
