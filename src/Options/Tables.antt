-- ===== src/Options/Tables.antt =====
-- The enumerations of cube_generator/src/option, with the words that stand for their values on the
-- command line, and `getEnumValue` of Option.cpp.
use text.Mathlib.Text.{◌==◌ as str_eq}
use Prim.Native.String.{String}
use text.Mathlib.TextEquality.{eq_iff}
use mathlib.Core.Option
use hydra_sat.Base.{
  ℕ, zero, suc, ◌<◌, ◌≡◌, refl, sym, ap, subst, ◌∙◌, ◌≢◌, inl, inr, List, [], ◌∷◌, Option, none,
  some, if◌then◌else◌, Bool-cases, length, get_or, All, arith,
}

pub data OptionMethodType : Type 0 where
  method_cube_generator method_counter : OptionMethodType

pub data PreprocMethod : Type 0 where
  preproc_none preproc_equiv : PreprocMethod

pub data BranchingCubeHeuristic : Type 0 where
  random vsads vsids dlcs mom jwts : BranchingCubeHeuristic

pub data PartialOrderCubeHeuristic : Type 0 where
  no_order tree_decomposition : PartialOrderCubeHeuristic

pub data CounterMethod : Type 0 where
  counter_d4 counter_sharpsattd : CounterMethod

pub data PartialOrderCounter : Type 0 where
  partial_order_share partial_order_compute partial_order_no : PartialOrderCounter

-- The tables s_preprocMethod, s_branchingHeuristiCubeGenerator, and so on.
abbrev pub preproc_words : List String
preproc_words = "none" ∷ "equiv" ∷ []

abbrev pub branching_words : List String
branching_words = "random" ∷ "vsads" ∷ "vsids" ∷ "dlcs" ∷ "mom" ∷ "jwts" ∷ []

abbrev pub partial_order_words : List String
partial_order_words = "none" ∷ "tree-decomposition" ∷ []

abbrev pub counter_words : List String
counter_words = "d4" ∷ "SharpSatTD" ∷ []

abbrev pub partial_order_counter_words : List String
partial_order_counter_words = "share" ∷ "compute" ∷ "no" ∷ []

-- The values in the order of their numbers, for the casts from `int`.
abbrev pub preproc_values : List PreprocMethod
preproc_values = preproc_none ∷ preproc_equiv ∷ []

abbrev pub branching_values : List BranchingCubeHeuristic
branching_values = random ∷ vsads ∷ vsids ∷ dlcs ∷ mom ∷ jwts ∷ []

abbrev pub partial_order_values : List PartialOrderCubeHeuristic
partial_order_values = no_order ∷ tree_decomposition ∷ []

abbrev pub partial_order_counter_values : List PartialOrderCounter
partial_order_counter_values = partial_order_share ∷ partial_order_compute ∷ partial_order_no ∷ []

-- The number of a value.
abbrev pub branching_index : BranchingCubeHeuristic → ℕ
branching_index random = 0
branching_index vsads = 1
branching_index vsids = 2
branching_index dlcs = 3
branching_index mom = 4
branching_index jwts = 5

abbrev pub partial_order_index : PartialOrderCubeHeuristic → ℕ
partial_order_index no_order = 0
partial_order_index tree_decomposition = 1

abbrev pub preproc_index : PreprocMethod → ℕ
preproc_index preproc_none = 0
preproc_index preproc_equiv = 1

abbrev pub counter_index : CounterMethod → ℕ
counter_index counter_d4 = 0
counter_index counter_sharpsattd = 1

abbrev pub partial_order_counter_index : PartialOrderCounter → ℕ
partial_order_counter_index partial_order_share = 0
partial_order_counter_index partial_order_compute = 1
partial_order_counter_index partial_order_no = 2

-- The loop of `getEnumValue`: the first place of the word; `none` where it prints the help and throws.
unfoldable pub get_enum_value : List String → String → Option ℕ
get_enum_value [] s = none
get_enum_value (w ∷ ws) s =
    let rest = get_enum_value ws s in if str_eq w s then some 0 else Option.map suc rest

map-suc : (o : Option ℕ) (i : ℕ) → Option.map suc o ≡ some i → (k : ℕ) × (o ≡ some k) × (suc k ≡ i)
map-suc none i e = cc
map-suc (some k) i e = (k, refl, cc)

-- The place of a word in a table: the first place that holds it.
abbrev pub IsPlace : List String → String → ℕ → Type 0
IsPlace ws s i = (i < length ws) × (get_or ws i "" ≡ s) × ((j : ℕ) → j < i → get_or ws j "" ≢ s)

IsPlace-suc :
    (w : String) (ws : List String) (s : String) (k : ℕ)
    → w ≢ s
    → IsPlace ws s k
    → IsPlace (w ∷ ws) s (suc k)
IsPlace-suc w ws s k ne (lt, e, first) = (omega arith, e, before)
  where
    before : (j : ℕ) → j < suc k → get_or (w ∷ ws) j "" ≢ s
    before zero l = ne
    before (suc j) l = first j (omega arith)

get_enum_value-IsPlace :
    (ws : List String) (s : String) (i : ℕ) → get_enum_value ws s ≡ some i → IsPlace ws s i
unfolding get_enum_value
get_enum_value-IsPlace [] s i e = cc
get_enum_value-IsPlace (w ∷ ws) s i e = elim (Bool-cases (str_eq w s)) [
  | inl same ↦
      let here : some 0 ≡ some i = sym (rw (same, get_enum_value) refl) ∙ e in
      let at_zero : 0 ≡ i = cc here in
      subst (IsPlace (w ∷ ws) s) at_zero
        (omega arith, (eq_iff w s).0 same, λ j lt. absurd (omega arith))
  | inr other ↦
      let later : Option.map suc (get_enum_value ws s) ≡ some i =
        sym (rw (other, get_enum_value) refl) ∙ e in
      let (k, found, next) = map-suc (get_enum_value ws s) i later in
      subst (IsPlace (w ∷ ws) s) next (
        IsPlace-suc w ws s k (λ same. cc ((eq_iff w s).1 same, other))
          (get_enum_value-IsPlace ws s k found))
]

get_enum_value-none :
    (ws : List String) (s : String) → get_enum_value ws s ≡ none → All (λ w. w ≢ s) ws
unfolding get_enum_value
get_enum_value-none [] s e = tt
get_enum_value-none (w ∷ ws) s e = elim (Bool-cases (str_eq w s)) [
  | inl same ↦
      let clash : some 0 ≡ none = sym (rw (same, get_enum_value) refl) ∙ e in absurd (cc clash)
  | inr other ↦
      let later : Option.map suc (get_enum_value ws s) ≡ none =
        sym (rw (other, get_enum_value) refl) ∙ e in
      (
        λ same. cc ((eq_iff w s).1 same, other),
        get_enum_value-none ws s (absent (get_enum_value ws s) later),
      )
]
  where
    absent : (o : Option ℕ) → Option.map suc o ≡ none → o ≡ none
    absent none h = refl
    absent (some k) h = cc

-- What `getEnumValue` returns is the first place of the table that holds the word, and it throws only
-- if no place does.
pub get_enum_value_lem :
    (ws : List String) (s : String)
    → ((i : ℕ) → get_enum_value ws s ≡ some i → IsPlace ws s i)
      × (get_enum_value ws s ≡ none → All (λ w. w ≢ s) ws)
get_enum_value_lem ws s = (get_enum_value-IsPlace ws s, get_enum_value-none ws s)

pub get_enum_value-absent :
    (ws : List String) (s : String) → All (λ w. w ≢ s) ws → get_enum_value ws s ≡ none
unfolding get_enum_value
get_enum_value-absent [] s h = refl
get_enum_value-absent (w ∷ ws) s (ne, h) = elim (Bool-cases (str_eq w s)) [
  | inl same ↦ absurd (ne ((eq_iff w s).0 same))
  | inr other ↦ rw (other, get_enum_value) (ap (Option.map suc) (get_enum_value-absent ws s h))
]
