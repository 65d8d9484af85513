-- ===== src/Dimacs/Clause/Meaning.antt =====
-- What the clauses that cube_generator/src/formula/ParserDimacs.cpp adds say, and the order of their literals.
use hydra_sat.Base.{
  ℕ, suc, ◌≤◌, ◌<◌, ◌≡◌, refl, sym, ap, ap₂, subst, ◌∙◌, inl, inr, Bool, true, false, not, ◌||◌,
  List, [], ◌∷◌, Option, none, some, if◌then◌else◌, ltb, ◌==◌, Bool-cases, length, All, All-mono,
  arith,
}
use hydra_sat.Formula.ProblemTypes.{Lit, var, sign, neg, neg_lem}
use hydra_sat.Formula.Models.{Model, holds, any_of}
use hydra_sat.Dimacs.Clause.{eq_lit, insert, sort, normalize}
use hydra_sat.Dimacs.Clause.Refined.{dedupe, unique, normalize-unique, length-sort}
use mathlib.Core.Option

-- Literals in the order of m_x, from n up.
abbrev pub IsSorted : ℕ → List Lit → Type 0
IsSorted n [] = Unit
IsSorted n (l ∷ ls) = (n ≤ l.m_x) × IsSorted l.m_x ls

-- Literals on variables from n up, each on a greater variable than the one before.
abbrev pub IsAbove : ℕ → List Lit → Type 0
IsAbove n [] = Unit
IsAbove n (l ∷ ls) = (n ≤ var l) × IsAbove (suc (var l)) ls

insert-IsSorted :
    (n : ℕ) (l : Lit) (ls : List Lit) → n ≤ l.m_x → IsSorted n ls → IsSorted n (insert l ls)
unfolding insert
insert-IsSorted n l [] h s = (h, tt)
insert-IsSorted n l (k ∷ ks) h (le, s) = elim (Bool-cases (ltb k.m_x l.m_x)) [
  | inl lt ↦ rw (lt, insert) (le, insert-IsSorted k.m_x l ks (ground arith) s)
  | inr ge ↦ rw (ge, insert) (h, (ground arith, s))
]

sort-IsSorted : (n : ℕ) (ls : List Lit) → All (λ l. n ≤ l.m_x) ls → IsSorted n (sort ls)
unfolding sort
sort-IsSorted n [] h = tt
sort-IsSorted n (l ∷ ls) (le, h) = insert-IsSorted n l (sort ls) le (sort-IsSorted n ls h)

any_of-insert :
    (h : Lit → Bool) (l : Lit) (ls : List Lit) → any_of h (insert l ls) ≡ (h l || any_of h ls)
unfolding insert any_of
any_of-insert h l [] = refl
any_of-insert h l (k ∷ ks) = elim (Bool-cases (ltb k.m_x l.m_x)) [
  | inl lt ↦ rw (lt, insert) (ground (arith, any_of-insert h l ks))
  | inr ge ↦ rw (ge, insert) refl
]

any_of-sort : (h : Lit → Bool) (ls : List Lit) → any_of h (sort ls) ≡ any_of h ls
unfolding sort any_of
any_of-sort h [] = refl
any_of-sort h (l ∷ ls) = any_of-insert h l (sort ls) ∙ ap (λ b. h l || b) (any_of-sort h ls)

lit_eq : (k l : Lit) → eq_lit k l ≡ true → k ≡ l
lit_eq k l h = ap (λ x. record { m_x = x }) (ground arith)

holds-neg : (m : Model) (l : Lit) → holds m (neg l) ≡ not (holds m l)
unfolding holds
holds-neg m l = let h = neg_lem l in ground (arith, h.0, h.1, ap m h.0)

-- Literals apart from one another and from their complements are on different variables.
next_var :
    (l k : Lit)
    → l.m_x ≤ k.m_x
    → (k.m_x == l.m_x) ≡ false
    → (k.m_x == (neg l).m_x) ≡ false
    → suc (var l) ≤ var k
unfolding var neg
next_var l k le other far = ground arith

-- What `dedupe` after the literal l makes of the clause.
Deduped : Lit → List Lit → Option (List Lit) → Type 0
Deduped l ks none = (m : Model) → (holds m l || any_of (holds m) ks) ≡ true
Deduped l ks (some r) =
    IsAbove (suc (var l)) r
    × ((m : Model) → (holds m l || any_of (holds m) r) ≡ (holds m l || any_of (holds m) ks))

Deduped-same :
    (l k : Lit) (ks : List Lit) (r : Option (List Lit))
    → k ≡ l
    → Deduped l ks r
    → Deduped l (k ∷ ks) r
unfolding Deduped any_of
Deduped-same l k ks none e h = λ m. ground (arith, h m, ap (holds m) e)
Deduped-same l k ks (some r) e (above, h) = (above, λ m. ground (arith, h m, ap (holds m) e))

Deduped-clash : (l k : Lit) (ks : List Lit) → k ≡ neg l → Deduped l (k ∷ ks) none
unfolding Deduped any_of
Deduped-clash l k ks e = λ m. ground (arith, ap (holds m) e ∙ holds-neg m l)

Deduped-far :
    (l k : Lit) (ks : List Lit) (r : Option (List Lit))
    → l.m_x ≤ k.m_x
    → (k.m_x == l.m_x) ≡ false
    → (k.m_x == (neg l).m_x) ≡ false
    → Deduped k ks r
    → Deduped l (k ∷ ks) (Option.map (◌∷◌ k) r)
unfolding Deduped any_of
Deduped-far l k ks none le other far h = λ m. ground (arith, h m)
Deduped-far l k ks (some r) le other far (above, h) =
    ((next_var l k le other far, above), λ m. ground (arith, h m))

dedupe-Deduped : (l : Lit) (ks : List Lit) → IsSorted l.m_x ks → Deduped l ks (dedupe l ks)
unfolding dedupe Deduped
dedupe-Deduped l [] s = (tt, λ m. refl)
dedupe-Deduped l (k ∷ ks) (le, s) = elim (Bool-cases (eq_lit k l)) [
  | inl same ↦
      let e : k ≡ l = lit_eq k l same in
      rw (same, dedupe)
        (Deduped-same l k ks (dedupe l ks) e
          (dedupe-Deduped l ks (subst (λ x. IsSorted x.m_x ks) e s)))
  | inr other ↦ elim (Bool-cases (eq_lit k (neg l))) [
    | inl clash ↦ rw (other, clash, dedupe) (Deduped-clash l k ks (lit_eq k (neg l) clash))
    | inr far ↦
        rw (other, far, dedupe)
          (Deduped-far l k ks (dedupe k ks) le other far (dedupe-Deduped k ks s))
  ]
]

-- A model in which every literal of the clause is false.
unfoldable pub falsify : List Lit → Model
falsify [] x = false
falsify (l ∷ ls) x = if x == var l then sign l else falsify ls x

any_of-agree :
    (m m' : Model) (n : ℕ) (ls : List Lit)
    → IsAbove n ls
    → ((x : ℕ) → n ≤ x → m x ≡ m' x)
    → any_of (holds m) ls ≡ any_of (holds m') ls
unfolding any_of holds
any_of-agree m m' n [] above h = refl
any_of-agree m m' n (l ∷ ls) (le, above) h =
    ground
      (arith, h (var l) le, any_of-agree m m' (suc (var l)) ls above (λ x lt. h x (omega arith)))

holds-falsify : (l : Lit) (ls : List Lit) → holds (falsify (l ∷ ls)) l ≡ false
unfolding holds falsify
holds-falsify l ls = ground arith

any_of-falsify : (n : ℕ) (ls : List Lit) → IsAbove n ls → any_of (holds (falsify ls)) ls ≡ false
unfolding any_of falsify
any_of-falsify n [] above = refl
any_of-falsify n (l ∷ ls) (le, above) = ap₂ (◌||◌) (holds-falsify l ls) (
    any_of-agree (falsify (l ∷ ls)) (falsify ls) (suc (var l)) ls above (λ x lt. ground arith)
    ∙ any_of-falsify (suc (var l)) ls above)

-- Clauses with a literal, on increasing variables from 1 up.
abbrev pub IsClause : List Lit → Type 0
IsClause c = (0 < length c) × IsAbove 1 c

-- What a clause becomes: none if every model satisfies it, else a clause on increasing variables from 1
-- up that the same models satisfy, and that some model does not.
unfoldable pub Normalized : List Lit → Option (List Lit) → Type 0
Normalized lits none = (m : Model) → any_of (holds m) lits ≡ true
Normalized lits (some c) =
    IsClause c
    × ((m : Model) → any_of (holds m) c ≡ any_of (holds m) lits)
    × (any_of (holds (falsify c)) lits ≡ false)

var_pos : (l : Lit) → 2 ≤ l.m_x → 1 ≤ var l
unfolding var
var_pos l h = omega arith

var_two : (l : Lit) → 1 ≤ var l → 2 ≤ l.m_x
unfolding var
var_two l h = omega arith

unique-Normalized : (ls : List Lit) → 0 < length ls → IsSorted 2 ls → Normalized ls (unique ls)
unfolding Normalized unique any_of Deduped
unique-Normalized [] lt s = absurd (omega arith)
unique-Normalized (l ∷ ls) lt (le, s) = go (dedupe l ls) (dedupe-Deduped l ls s)
  where
    go : (r : Option (List Lit)) → Deduped l ls r → Normalized (l ∷ ls) (Option.map (◌∷◌ l) r)
    go none h = h
    go (some r) (above, same) =
        let clause : IsAbove 1 (l ∷ r) = (var_pos l le, above) in
        (
          (omega arith, clause),
          same,
          sym (same (falsify (l ∷ r))) ∙ any_of-falsify 1 (l ∷ r) clause,
        )

Normalized-sort :
    (lits : List Lit) (r : Option (List Lit)) → Normalized (sort lits) r → Normalized lits r
unfolding Normalized
Normalized-sort lits none h = λ m. sym (any_of-sort (holds m) lits) ∙ h m
Normalized-sort lits (some c) (above, same, false_somewhere) = (
  above,
  (λ m. same m ∙ any_of-sort (holds m) lits),
  sym (any_of-sort (holds (falsify c)) lits) ∙ false_somewhere,
)

-- A clause with a literal, on variables from 1 up, is dropped only if every model satisfies it. Otherwise
-- the clause that is added has its literals on increasing variables from 1 up, the same models satisfy
-- it, and some model does not.
pub normalize-Normalized :
    (lits : List Lit)
    → 0 < length lits
    → All (λ l. 1 ≤ var l) lits
    → Normalized lits (normalize lits)
normalize-Normalized lits lt h = subst (Normalized lits) (sym (normalize-unique lits lt)) (
    Normalized-sort lits (unique (sort lits)) (
      unique-Normalized (sort lits) (omega (arith, length-sort lits))
        (sort-IsSorted 2 lits (All-mono (λ l. 1 ≤ var l) (λ l. 2 ≤ l.m_x) lits var_two h))))
