-- ===== src/Formula/Serialized.antt =====
-- `serializeWeightedLits` of cube_generator/src/formula/WeightedCNF.hpp: the weights can be told apart
-- again.
use mathlib.Core.List.{append_assoc, append-nil}
use hydra_sat.Base.{
  ℕ, zero, suc, ◌+◌, ◌≡◌, refl, sym, ap, ap₂, ◌∙◌, inl, inr, List, [], ◌∷◌, ◌++◌, ℤ, pos, negsuc,
  if◌then◌else◌, Bool-cases, length, take, drop, take_append, drop_append,
}
use hydra_sat.Formula.ProblemTypes.{Lit, human, make_lit_true, make_lit_false}
use hydra_sat.Formula.WeightedCnf.{
  Weight, WeightedCnf, get_weight_lit, Encoded, serialize_lit, serialize_from,
  serialize_weighted_lits,
}

-- A literal as it is printed, with the characters of its weight.
abbrev pub Entry : Type 0
Entry = ℤ × List ℕ

-- What a reader of the two vectors does: take as many characters as each pair says.
unfoldable pub decode : List ℤ → List ℕ → List Entry
decode [] weights = []
decode (l ∷ []) weights = []
decode (l ∷ negsuc k ∷ couples) weights = []
decode (l ∷ pos k ∷ couples) weights = (l, take k weights) ∷ decode couples (drop k weights)

chars_of : List Entry → List ℕ
chars_of [] = []
chars_of ((l, s) ∷ es) = s ++ chars_of es

couples_of : List Entry → List ℤ
couples_of [] = []
couples_of ((l, s) ∷ es) = l ∷ pos (length s) ∷ couples_of es

decode-couples_of : (es : List Entry) → decode (couples_of es) (chars_of es) ≡ es
unfolding decode couples_of chars_of
decode-couples_of [] = refl
decode-couples_of ((l, s) ∷ es) =
    rw (take_append s (chars_of es), drop_append s (chars_of es), decode-couples_of es) refl

chars_of-append : (xs ys : List Entry) → chars_of (xs ++ ys) ≡ chars_of xs ++ chars_of ys
unfolding chars_of
chars_of-append [] ys = refl
chars_of-append ((l, s) ∷ xs) ys =
    ap (λ c. s ++ c) (chars_of-append xs ys) ∙ sym (append_assoc s (chars_of xs) (chars_of ys))

couples_of-append : (xs ys : List Entry) → couples_of (xs ++ ys) ≡ couples_of xs ++ couples_of ys
unfolding couples_of
couples_of-append [] ys = refl
couples_of-append ((l, s) ∷ xs) ys = ap (λ c. l ∷ pos (length s) ∷ c) (couples_of-append xs ys)

-- What the vectors hold once entries have been added to them.
abbrev added : Encoded → List Entry → Encoded
added e es = (e.0 ++ chars_of es, e.1 ++ couples_of es)

added-append : (e : Encoded) (xs ys : List Entry) → added (added e xs) ys ≡ added e (xs ++ ys)
added-append e xs ys =
    ap₂ (λ a b. (a, b))
      (append_assoc e.0 (chars_of xs) (chars_of ys)
        ∙ ap (λ c. e.0 ++ c) (sym (chars_of-append xs ys)))
      (append_assoc e.1 (couples_of xs) (couples_of ys)
        ∙ ap (λ c. e.1 ++ c) (sym (couples_of-append xs ys)))

module _ (F : Weight) where
  open F use {T, is_one, str}

  -- The entry of a literal, if its weight is not 1.
  unfoldable pub entry : WeightedCnf F → Lit → List Entry
  entry w l =
      if is_one (get_weight_lit F w l) then [] else (human l, str (get_weight_lit F w l)) ∷ []

  -- The entries of `k` variables from `i` on.
  unfoldable pub entries : WeightedCnf F → ℕ → ℕ → List Entry
  unfolding entry
  entries w i zero = []
  entries w i (suc k) =
      (entry w (make_lit_true i) ++ entry w (make_lit_false i)) ++ entries w (i + 1) k

  serialize_lit-entry :
      (w : WeightedCnf F) (l : Lit) (e : Encoded) → serialize_lit F w l e ≡ added e (entry w l)
  unfolding serialize_lit entry chars_of couples_of
  serialize_lit-entry w l e = elim (Bool-cases (is_one (get_weight_lit F w l))) [
    | inl one ↦ rw one (sym (ap₂ (λ a b. (a, b)) (append-nil e.0) (append-nil e.1)))
    | inr other ↦ rw other (
        ap₂ (λ a b. (a, b)) (ap (λ c. e.0 ++ c) (sym (append-nil (str (get_weight_lit F w l)))))
          (append_assoc e.1 (human l ∷ []) (pos (length (str (get_weight_lit F w l))) ∷ [])))
  ]

  serialize_from-entries :
      (w : WeightedCnf F) (i k : ℕ) (e : Encoded)
      → serialize_from F w i k e ≡ added e (entries w i k)
  unfolding serialize_from entries chars_of couples_of
  serialize_from-entries w i zero e = sym (ap₂ (λ a b. (a, b)) (append-nil e.0) (append-nil e.1))
  serialize_from-entries w i (suc k) e =
      let xs = entry w (make_lit_true i) in
      let ys = entry w (make_lit_false i) in
      serialize_from-entries w (i + 1) k
        (serialize_lit F w (make_lit_false i) (serialize_lit F w (make_lit_true i) e))
      ∙ ap (λ d. added d (entries w (i + 1) k))
          (serialize_lit-entry w (make_lit_false i) (serialize_lit F w (make_lit_true i) e)
            ∙ ap (λ d. added d ys) (serialize_lit-entry w (make_lit_true i) e)
            ∙ added-append e xs ys)
      ∙ added-append e (xs ++ ys) (entries w (i + 1) k)

  -- Reading back what `serializeWeightedLits` writes gives each literal of the formula whose weight is
  -- not 1, in order, with the characters of its weight.
  pub serialize-decode :
      (w : WeightedCnf F)
      → decode (serialize_weighted_lits F w ([], [])).1 (serialize_weighted_lits F w ([], [])).0
        ≡ entries w 1 w.nb_var
  unfolding serialize_weighted_lits
  serialize-decode w =
      ap (λ e. decode e.1 e.0) (serialize_from-entries w 1 w.nb_var ([], []))
      ∙ decode-couples_of (entries w 1 w.nb_var)
