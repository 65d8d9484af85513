-- ===== src/Driver/Json.antt =====
-- `emitJSON` of cube_generator/main.cpp and `toJSON` of cube_gen_cli/cube_gen_cli.cpp: what they write.
use Prim.Native.String.{String, ◌++◌ as ◌<>◌}
use text.Mathlib.TextLemmas.{append-nil as text_append-nil, nil-append as text_nil-append}
use hydra_sat.Base.{
  ℕ, zero, suc, ◌+◌, ◌≡◌, refl, sym, ap, ◌∙◌, Bool, false, List, [], ◌∷◌, map, ℤ, pos, neg_ℕ,
  if◌then◌else◌, ltb, ◌==◌, lt→ltb, length, get_or, arith,
}
use hydra_sat.Formula.ProblemTypes.{Lit, var, sign}
use hydra_sat.Cli.Lit.{Lit as CliLit}

-- The elements of a vector, with ", " after each but the last, as emitJSON does; `n` is the size, `i` the
-- index of the first.
unfoldable pub items_before_last : ℕ → ℕ → List String → String
items_before_last n i [] = ""
items_before_last n i (x ∷ xs) =
    x <> (if ltb (i + 1) n then ", " else "") <> items_before_last n (i + 1) xs

-- With ", " before each but the first, as toJSON does.
unfoldable pub items_after_first : ℕ → List String → String
items_after_first i [] = ""
items_after_first i (x ∷ xs) = (if i == 0 then "" else ", ") <> x <> items_after_first (suc i) xs

-- The rows of the cubes, which both write alike.
unfoldable pub rows : ℕ → ℕ → List String → String
rows n i [] = ""
rows n i (r ∷ rs) =
    "    [" <> r <> "]" <> (if ltb (i + 1) n then "," else "") <> "\n" <> rows n (i + 1) rs

-- l.sign() ? -(int)l.var() : (int)l.var()
abbrev pub dimacs_lit : Lit → ℤ
dimacs_lit l = if sign l then neg_ℕ (var l) else pos (var l)

-- `show` is how the standard streams print an integer, `show_d` a double.
module _ {D : Type 0} (show : ℤ → String) (show_d : D → String) where
  unfoldable pub cube_row : List Lit → String
  unfolding items_before_last
  cube_row c = items_before_last (length c) 0 (map (λ l. show (dimacs_lit l)) c)

  unfoldable pub emit_json : List (List Lit) → List ℕ → Bool → D → ℤ → String
  unfolding rows cube_row
  emit_json cubes partial_order satisfiable elapsed treewidth =
      "{\n"
      <> "  \"satisfiable\": "
      <> (if satisfiable then "true" else "false")
      <> ",\n"
      <> "  \"cubes\": [\n"
      <> rows (length cubes) 0 (map cube_row cubes)
      <> "  ],\n"
      <> "  \"partial_order\": ["
      <> items_before_last (length partial_order) 0 (map (λ k. show (pos k)) partial_order)
      <> "],\n"
      <> "  \"stats\": {\n"
      <> "    \"nb_cubes\": "
      <> show (pos (length cubes))
      <> ",\n"
      <> "    \"time_seconds\": "
      <> show_d elapsed
      <> ",\n"
      <> "    \"treewidth\": "
      <> show treewidth
      <> "\n"
      <> "  }\n"
      <> "}\n"

  unfoldable pub cli_cube_row : List CliLit → String
  unfolding items_after_first
  cli_cube_row c = items_after_first 0 (map (λ l. show l.x) c)

  -- scores[v] for `k` variables from `v` on.
  unfoldable pub score_items : D → List D → ℕ → ℕ → String
  score_items zero_d scores v zero = ""
  score_items zero_d scores v (suc k) =
      ", " <> show_d (get_or scores v zero_d) <> score_items zero_d scores (suc v) k

  unfoldable pub to_json :
      D → ℕ → ℕ → List D → List ℕ → List (List CliLit) → ℕ → D → String → String
  unfolding rows cli_cube_row score_items
  to_json zero_d nb_var nb_clauses scores var_order cubes pruned elapsed strategy =
      "{\n"
      <> "  \"variable_order\": ["
      <> items_after_first 0 (map (λ v. show (pos v)) var_order)
      <> "],\n"
      <> "  \"variable_scores\": [0.0"
      <> score_items zero_d scores 1 nb_var
      <> "],\n"
      <> "  \"initial_cubes\": [\n"
      <> rows (length cubes) 0 (map cli_cube_row cubes)
      <> "  ],\n"
      <> "  \"stats\": {\n"
      <> "    \"num_vars\": "
      <> show (pos nb_var)
      <> ",\n"
      <> "    \"num_clauses\": "
      <> show (pos nb_clauses)
      <> ",\n"
      <> "    \"num_cubes\": "
      <> show (pos (length cubes))
      <> ",\n"
      <> "    \"pruned\": "
      <> show (pos pruned)
      <> ",\n"
      <> "    \"time_sec\": "
      <> show_d elapsed
      <> ",\n"
      <> "    \"strategy\": \""
      <> strategy
      <> "\"\n"
      <> "  }\n}\n"

-- The elements, parted by ", ".
unfoldable pub join : List String → String
join [] = ""
join (x ∷ []) = x
join (x ∷ y ∷ ys) = x <> ", " <> join (y ∷ ys)

at_last : (i n : ℕ) → i ≡ n → ltb i n ≡ false
at_last i n e = ground arith

not_first : (i : ℕ) → (suc i == 0) ≡ false
not_first i = ground arith

items_before_last-join :
    (n i : ℕ) (xs : List String) → i + length xs ≡ n → items_before_last n i xs ≡ join xs
unfolding items_before_last join
items_before_last-join n i [] e = refl
items_before_last-join n i (x ∷ []) e =
    ap (λ b. x <> (if b then ", " else "") <> "") (at_last (i + 1) n e) ∙ text_append-nil x
items_before_last-join n i (x ∷ y ∷ ys) e =
    ap (λ b. x <> (if b then ", " else "") <> items_before_last n (i + 1) (y ∷ ys))
      (lt→ltb (i + 1) n (omega arith))
    ∙ ap (λ t. x <> ", " <> t) (items_before_last-join n (i + 1) (y ∷ ys) (omega arith))

items_after_first-suc :
    (i : ℕ) (x : String) (xs : List String)
    → items_after_first (suc i) (x ∷ xs) ≡ ", " <> join (x ∷ xs)
unfolding items_after_first join
items_after_first-suc i x [] =
    ap (λ b. (if b then "" else ", ") <> x <> "") (not_first i)
    ∙ ap (λ t. ", " <> t) (text_append-nil x)
items_after_first-suc i x (y ∷ ys) =
    ap (λ b. (if b then "" else ", ") <> x <> items_after_first (suc (suc i)) (y ∷ ys))
      (not_first i)
    ∙ ap (λ t. ", " <> x <> t) (items_after_first-suc (suc i) y ys)

items_after_first-join : (xs : List String) → items_after_first 0 xs ≡ join xs
unfolding items_after_first join
items_after_first-join [] = refl
items_after_first-join (x ∷ []) = text_nil-append (x <> "") ∙ text_append-nil x
items_after_first-join (x ∷ y ∷ ys) =
    text_nil-append (x <> items_after_first 1 (y ∷ ys))
    ∙ ap (λ t. x <> t) (items_after_first-suc 0 y ys)

-- The two ways to write the elements of a vector, with a separator after each but the last and with one
-- before each but the first, give the same text: the elements parted by ", ".
items_lem :
    (xs : List String)
    → (items_before_last (length xs) 0 xs ≡ join xs)
      × (items_after_first 0 xs ≡ items_before_last (length xs) 0 xs)
items_lem xs =
    let one = items_before_last-join (length xs) 0 xs (omega arith) in
    (one, items_after_first-join xs ∙ sym one)
