-- ===== src/Pool/Lawful.antt =====
-- What cube_generator/CubeGeneratorCLI.cpp relies on in the propagator of the bipe library, and the trail after a
-- cube is filled in.
use mathlib.Core.List.{append_assoc, append-nil}
use hydra_sat.Base.{
  ℕ, ◌≤◌, ◌≡◌, refl, sym, ap, subst, ◌∙◌, true, false, not, ◌||◌, List, [], ◌∷◌, ◌++◌,
  if◌then◌else◌, ltb, ◌==◌, length, arith,
}
use hydra_sat.Formula.ProblemTypes.{Lit, var}
use hydra_sat.Formula.Models.{Model, holds, all_of, sat_formula, is_in}
use hydra_sat.Pool.Splitter.{BipePropagator, fill}

-- Literals on different variables from 0 to n.
abbrev pub Proper : ℕ → List Lit → Type 0
Proper n [] = Unit
Proper n (l ∷ ls) = (is_in (var l) ls ≡ false) × (var l ≤ n) × Proper n ls

-- The propagator over a formula. Between two calls it is valid: its trail has literals on different variables,
-- and starts with those that are set for good.
pub record BipeLaws (B : BipePropagator) (n : ℕ) (cs : List (List Lit)) : Type 1 where
  pub Valid : B.State → Type 0
  pub root : List Lit
  pub proper : {p : B.State} → Valid p → Proper n (B.trail p)
  pub begins : {p : B.State} → Valid p → (xs : List Lit) × (B.trail p ≡ root ++ xs)
  pub make_valid : Valid (B.make n cs)
  pub restart_valid : (p : B.State) → Valid p → Valid (B.restart p)
  pub restart_trail : (p : B.State) → Valid p → B.trail (B.restart p) ≡ root
  -- `value` is above 1 exactly on the variables that have no value.
  pub value_lem :
      (p : B.State) (l : Lit)
      → Valid p
      → var l ≤ n
      → ltb 1 (B.value p l) ≡ not (is_in (var l) (B.trail p))
  pub enqueue_valid :
      (p : B.State) (l : Lit)
      → Valid p
      → var l ≤ n
      → is_in (var l) (B.trail p) ≡ false
      → Valid (B.unchecked_enqueue p l)
  pub enqueue_trail :
      (p : B.State) (l : Lit)
      → Valid p
      → var l ≤ n
      → is_in (var l) (B.trail p) ≡ false
      → B.trail (B.unchecked_enqueue p l) ≡ B.trail p ++ l ∷ []
  pub propagate_valid : (p : B.State) → Valid p → Valid (B.propagate p).0
  pub propagate_trail :
      (p : B.State) → Valid p → (xs : List Lit) × (B.trail (B.propagate p).0 ≡ B.trail p ++ xs)
  -- Only literals that are set later are taken back.
  pub cancel_valid :
      (p : B.State) (xs ys : List Lit)
      → Valid p
      → B.trail p ≡ (root ++ xs) ++ ys
      → Valid (B.cancel_until_pos p (length (root ++ xs)))
  pub cancel_trail :
      (p : B.State) (xs ys : List Lit)
      → Valid p
      → B.trail p ≡ (root ++ xs) ++ ys
      → B.trail (B.cancel_until_pos p (length (root ++ xs))) ≡ root ++ xs
  -- Propagation loses no model.
  pub make_sound :
      (m : Model) → sat_formula m cs ≡ true → all_of (holds m) (B.trail (B.make n cs)) ≡ true
  pub propagate_sound :
      (m : Model) (p : B.State)
      → sat_formula m cs ≡ true
      → Valid p
      → all_of (holds m) (B.trail p) ≡ true
      → ((B.propagate p).1 ≡ true) × (all_of (holds m) (B.trail (B.propagate p).0) ≡ true)

pub is_in-middle :
    (v : ℕ) (xs : List Lit) (l : Lit) (ys : List Lit)
    → is_in v (xs ++ l ∷ ys) ≡ (is_in v xs || (var l == v) || is_in v ys)
unfolding is_in
is_in-middle v [] l ys = ground arith
is_in-middle v (x ∷ xs) l ys = ground (arith, is_in-middle v xs l ys)

Proper-middle :
    (n : ℕ) (xs : List Lit) (l : Lit) (ys : List Lit)
    → Proper n (xs ++ l ∷ ys)
    → (is_in (var l) xs ≡ false) × (var l ≤ n)
unfolding is_in
Proper-middle n [] l ys h = (refl, h.1)
Proper-middle n (x ∷ xs) l ys h =
    let rest = Proper-middle n xs l ys h.2 in
    (ground (arith, is_in-middle (var x) xs l ys, h.0, rest.0), rest.1)

is_in_self : (xs : List Lit) (l : Lit) (ys : List Lit) → is_in (var l) (xs ++ l ∷ ys) ≡ true
is_in_self xs l ys = ground (arith, is_in-middle (var l) xs l ys)

module _ {B : BipePropagator} {n : ℕ} {cs : List (List Lit)} (L : BipeLaws B n cs) where
  open B use {State, restart, value, unchecked_enqueue, trail}
  open L use {Valid, root}

  -- A trail that the propagator can have.
  pub record IsBase (c : List Lit) : Type 0 where
    pub proper : Proper n c
    pub rest : List Lit
    pub eq : c ≡ root ++ rest

  pub trail-IsBase : (p : State) → Valid p → IsBase (trail p)
  trail-IsBase p v =
      let begun = L.begins v in record { proper = L.proper v; rest = begun.0; eq = begun.1 }

  fill-append : (xs ys : List Lit) (p : State) → fill B (xs ++ ys) p ≡ fill B ys (fill B xs p)
  unfolding fill
  fill-append [] ys p = refl
  fill-append (x ∷ xs) ys p =
      fill-append xs ys (if ltb 1 (value p x) then unchecked_enqueue p x else p)

  -- Literals of the trail are skipped.
  fill_old :
      (xs ys : List Lit) (p : State)
      → Valid p
      → trail p ≡ xs ++ ys
      → Proper n (xs ++ ys)
      → fill B ys p ≡ p
  unfolding fill
  fill_old xs [] p v e h = refl
  fill_old xs (l ∷ ys) p v e h =
      let here : ltb 1 (value p l) ≡ false =
        L.value_lem p l v (Proper-middle n xs l ys h).1
        ∙ ap not (ap (is_in (var l)) e ∙ is_in_self xs l ys) in
      let assoc = append_assoc xs (l ∷ []) ys in
      rw here (fill_old (xs ++ l ∷ []) ys p v (e ∙ sym assoc) (subst (Proper n) (sym assoc) h))

  -- Other literals are set in order.
  fill_new :
      (ys : List Lit) (p : State)
      → Valid p
      → Proper n (trail p ++ ys)
      → Valid (fill B ys p) × (trail (fill B ys p) ≡ trail p ++ ys)
  unfolding fill
  fill_new [] p v h = (v, sym (append-nil (trail p)))
  fill_new (l ∷ ys) p v h =
      let open_ = Proper-middle n (trail p) l ys h in
      let here : ltb 1 (value p l) ≡ true = L.value_lem p l v open_.1 ∙ ap not open_.0 in
      let moved = L.enqueue_trail p l v open_.1 open_.0 in
      let all_ : trail (unchecked_enqueue p l) ++ ys ≡ trail p ++ l ∷ ys =
        ap (λ t. t ++ ys) moved ∙ append_assoc (trail p) (l ∷ []) ys in
      let more =
        fill_new ys (unchecked_enqueue p l) (L.enqueue_valid p l v open_.1 open_.0)
          (subst (Proper n) (sym all_) h) in
      rw here (more.0, more.1 ∙ all_)

  -- Filling in a cube that was a trail makes it the trail.
  pub fill_base :
      (c : List Lit) (p : State)
      → Valid p
      → IsBase c
      → Valid (fill B c (restart p)) × (trail (fill B c (restart p)) ≡ c)
  fill_base c p v b =
      let w = L.restart_valid p v in
      let at_root : trail (restart p) ≡ root = L.restart_trail p v in
      let whole : trail (restart p) ++ b.rest ≡ c = ap (λ t. t ++ b.rest) at_root ∙ sym b.eq in
      let same : fill B c (restart p) ≡ fill B b.rest (restart p) =
        ap (λ t. fill B t (restart p)) b.eq
        ∙ fill-append root b.rest (restart p)
        ∙ ap (fill B b.rest)
            (fill_old [] root (restart p) w at_root (subst (Proper n) at_root (L.proper w))) in
      let filled = fill_new b.rest (restart p) w (subst (Proper n) (sym whole) b.proper) in
      (subst Valid (sym same) filled.0, ap trail same ∙ filled.1 ∙ whole)
