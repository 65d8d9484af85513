-- ===== src/Dimacs/Clause/Refined.antt =====
-- The loop of cube_generator/src/formula/ParserDimacs.cpp that compacts a sorted clause in place, against a
-- function on lists.
use hydra_sat.Base.{
  ℕ, zero, suc, ◌+◌, ◌-◌, ◌≤◌, ◌<◌, ◌≡◌, refl, sym, ap, subst, ◌∙◌, Bool, true, false, List, [],
  ◌∷◌, ◌++◌, Option, none, some, if◌then◌else◌, ltb, length, get_or, set, take, drop, length-set,
  get_or-set_self, arith,
}
use hydra_sat.Formula.ProblemTypes.{Lit, neg}
use hydra_sat.Dimacs.Clause.{eq_lit, lit_zero, insert, sort, compact, normalize}
use mathlib.Core.Option
use mathlib.Core.List.{append_assoc, append-nil}

-- The literals after `l`, without those that repeat the one before; none at a complement of the one before.
unfoldable pub dedupe : Lit → List Lit → Option (List Lit)
dedupe l [] = some []
dedupe l (k ∷ ks) = elim (eq_lit k l) [
  | true ↦ dedupe l ks
  | false ↦ elim (eq_lit k (neg l)) [ true ↦ none | false ↦ Option.map (◌∷◌ k) (dedupe k ks) ]
]

-- What the loop leaves, after the literals `kept`, when `dedupe` gives `r`.
abbrev pub Leaves : List Lit → Bool × ℕ × List Lit → Option (List Lit) → Type 0
Leaves kept (is_sat, j, lits) none = is_sat ≡ true
Leaves kept (is_sat, j, lits) (some r) = (is_sat ≡ false) × (take j lits ≡ kept ++ r)

take-set :
    (xs : List Lit) (j : ℕ) (x : Lit)
    → j < length xs
    → take (suc j) (set xs j x) ≡ take j xs ++ x ∷ []
take-set [] j x h = absurd (omega arith)
take-set (y ∷ xs) zero x h = refl
take-set (y ∷ xs) (suc j) x h = ap (◌∷◌ y) (take-set xs j x (omega arith))

drop-set : (xs : List Lit) (i j : ℕ) (x : Lit) → j < i → drop i (set xs j x) ≡ drop i xs
drop-set [] i j x h = refl
drop-set (y ∷ xs) zero j x h = absurd (omega arith)
drop-set (y ∷ xs) (suc i) zero x h = refl
drop-set (y ∷ xs) (suc i) (suc j) x h = drop-set xs i j x (omega arith)

drop-get_or :
    (xs : List Lit) (i : ℕ) → i < length xs → drop i xs ≡ get_or xs i lit_zero ∷ drop (suc i) xs
drop-get_or [] i h = absurd (omega arith)
drop-get_or (y ∷ xs) zero h = refl
drop-get_or (y ∷ xs) (suc i) h = drop-get_or xs i (omega arith)

drop-length : (xs : List Lit) (i : ℕ) → length xs ≤ i → drop i xs ≡ []
drop-length [] zero h = refl
drop-length [] (suc i) h = refl
drop-length (y ∷ xs) zero h = absurd (omega arith)
drop-length (y ∷ xs) (suc i) h = drop-length xs i (omega arith)

Leaves-map :
    (kept : List Lit) (l : Lit) (x : Bool × ℕ × List Lit) (r : Option (List Lit))
    → Leaves (kept ++ l ∷ []) x r
    → Leaves kept x (Option.map (◌∷◌ l) r)
Leaves-map kept l x none h = h
Leaves-map kept l (is_sat, j, lits) (some r) (h, e) = (h, e ∙ append_assoc kept (l ∷ []) r)

-- A step of the loop against a step of `dedupe`, whatever the two tests say.
Leaves-step :
    (kept : List Lit) (l : Lit) (b c : Bool) (x y z : Bool × ℕ × List Lit) (r s : Option (List Lit))
    → Leaves kept x r
    → y.0 ≡ true
    → Leaves (kept ++ l ∷ []) z s
    → Leaves kept
        (elim b [ true ↦ x | false ↦ elim c [ true ↦ y | false ↦ z ] ])
        (elim b [ true ↦ r | false ↦ elim c [ true ↦ none | false ↦ Option.map (◌∷◌ l) s ] ])
Leaves-step kept l true c x y z r s hx hy hz = hx
Leaves-step kept l false true x y z r s hx hy hz = hy
Leaves-step kept l false false x y z r s hx hy hz = Leaves-map kept l z s hz

-- The vector after one more literal is kept.
Leaves-keep :
    (lits : List Lit) (l : Lit) (i j : ℕ) (after : Bool × ℕ × List Lit)
    → suc j < length lits
    → suc j < suc i
    → Leaves
        (take (suc (suc j)) (set lits (suc j) l))
        after
        (dedupe (get_or (set lits (suc j) l) (suc j) lit_zero) (drop (suc i) (set lits (suc j) l)))
    → Leaves (take (suc j) lits ++ l ∷ []) after (dedupe l (drop (suc i) lits))
Leaves-keep lits l i j after lt le h =
    subst (λ t. Leaves t after (dedupe l (drop (suc i) lits))) (take-set lits (suc j) l lt)
      (subst
        (λ k. Leaves (take (suc (suc j)) (set lits (suc j) l)) after (dedupe k (drop (suc i) lits)))
        (get_or-set_self lits (suc j) l lit_zero lt)
        (subst
          (λ t.
            Leaves (take (suc (suc j)) (set lits (suc j) l)) after
              (dedupe (get_or (set lits (suc j) l) (suc j) lit_zero) t))
          (drop-set lits (suc i) (suc j) l le) h))

-- From the index i on, with j + 1 literals kept, the loop does what `dedupe` does.
pub compact-dedupe :
    (n i j : ℕ) (lits : List Lit)
    → i + n ≡ length lits
    → j < i
    → Leaves
        (take (suc j) lits)
        (compact n i (suc j) lits)
        (dedupe (get_or lits j lit_zero) (drop i lits))
unfolding compact dedupe
compact-dedupe zero i j lits e h =
    subst
      (λ xs. Leaves (take (suc j) lits) (false, suc j, lits) (dedupe (get_or lits j lit_zero) xs))
      (sym (drop-length lits i (omega arith))) (refl, sym (append-nil (take (suc j) lits)))
compact-dedupe (suc n) i j lits e h =
    subst (λ xs. Leaves (take (suc j) lits) (compact (suc n) i (suc j) lits) (dedupe last xs))
      (sym (drop-get_or lits i (omega arith)))
      (subst (λ k. Leaves (take (suc j) lits) (body k) (dedupe last (l ∷ drop (suc i) lits))) before
        (Leaves-step (take (suc j) lits) l (eq_lit l last) (eq_lit l (neg last)) _ _ _ _ _
          (compact-dedupe n (suc i) j lits (omega arith) (omega arith)) refl
          (Leaves-keep lits l i j after (omega arith) (omega arith) (
            compact-dedupe n (suc i) (suc j) lits' (omega (arith, length-set lits (suc j) l))
              (omega arith)))))
  where
    l : Lit
    l = get_or lits i lit_zero

    last : Lit
    last = get_or lits j lit_zero

    lits' : List Lit
    lits' = set lits (suc j) l

    before : j ≡ suc j - 1
    before = omega arith

    -- The step of `compact`, with the index of the last literal kept.
    body : ℕ → Bool × ℕ × List Lit
    body k = elim (eq_lit l (get_or lits k lit_zero)) [
      | true ↦ compact n (suc i) (suc j) lits
      | false ↦ elim (eq_lit l (neg (get_or lits k lit_zero))) [
        | true ↦ (true, suc (suc j), lits')
        | false ↦ compact n (suc i) (suc (suc j)) lits'
      ]
    ]

    after : Bool × ℕ × List Lit
    after = compact n (suc i) (suc (suc j)) lits'

-- A clause without its repeated literals; none if two of them are complements.
unfoldable pub unique : List Lit → Option (List Lit)
unfolding dedupe
unique [] = some []
unique (l ∷ ls) = Option.map (◌∷◌ l) (dedupe l ls)

length-insert : (l : Lit) (ls : List Lit) → length (insert l ls) ≡ suc (length ls)
unfolding insert
length-insert l [] = refl
length-insert l (k ∷ ks) =
    elim (ltb k.m_x l.m_x)
      as (λ b. length (if b then k ∷ insert l ks else l ∷ k ∷ ks) ≡ suc (suc (length ks))) [
        | true ↦ ap suc (length-insert l ks)
        | false ↦ refl
      ]

pub length-sort : (ls : List Lit) → length (sort ls) ≡ length ls
unfolding sort
length-sort [] = refl
length-sort (l ∷ ls) = length-insert l (sort ls) ∙ ap suc (length-sort ls)

-- What the loop leaves is what is added.
added :
    (kept : List Lit) (x : Bool × ℕ × List Lit) (r : Option (List Lit))
    → Leaves kept x r
    → (if x.0 then none else some (take x.1 x.2)) ≡ Option.map (◌++◌ kept) r
added kept (is_sat, j, lits) none h =
    subst (λ b. (if b then none else some (take j lits)) ≡ none) (sym h) refl
added kept (is_sat, j, lits) (some r) (h, e) =
    subst (λ b. (if b then none else some (take j lits)) ≡ some (kept ++ r)) (sym h) (ap some e)

-- The clause that the code adds is the sorted clause without repetitions, and it adds none exactly where
-- that one has complementary literals side by side, for a clause that is not empty.
pub normalize-unique : (lits : List Lit) → 0 < length lits → normalize lits ≡ unique (sort lits)
unfolding normalize unique
normalize-unique lits lt = go (sort lits) (length lits - 1) (omega (arith, length-sort lits))
  where
    go :
        (ls : List Lit) (n : ℕ)
        → 1 + n ≡ length ls
        → (let (is_sat, j, kept) = compact n 1 1 ls in if is_sat then none else some (take j kept))
          ≡ unique ls
    go [] n e = absurd (omega arith)
    go (l ∷ ls) n e =
        added (l ∷ []) (compact n 1 1 (l ∷ ls)) (dedupe l ls)
          (compact-dedupe n 1 0 (l ∷ ls) e (omega arith))
