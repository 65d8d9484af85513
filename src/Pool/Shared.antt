-- ===== src/Pool/Shared.antt =====
-- The two branches of `createCubes` of cube_generator/CubeGeneratorCLI.cpp, over a lawful propagator: they share
-- out the models of the cube.
use mathlib.Core.List.{append_assoc}
use hydra_sat.Base.{
  ℕ, ◌+◌, ◌*◌, ◌/◌, ◌≤◌, ◌≡◌, refl, sym, ap, subst, ◌∙◌, inl, inr, Bool, true, false, not, ◌&&◌,
  List, [], ◌∷◌, ◌++◌, if◌then◌else◌, Bool-cases, length, All, All-append, arith,
}
use hydra_sat.Formula.ProblemTypes.{Lit, var, sign, make_lit_true, make_lit_false}
use hydra_sat.Formula.Models.{Model, holds, all_of, all_of-append, sat_formula, is_in}
use hydra_sat.Pool.Splitter.{BipePropagator, add_branch}
use hydra_sat.Pool.Measure.{sum_lits, sum_lits-append}
use hydra_sat.Pool.Lawful.{BipeLaws, IsBase, trail-IsBase}

-- Whether the model satisfies the cube, as a number.
abbrev pub hit : Model → List Lit → ℕ
hit m ls = if all_of (holds m) ls then 1 else 0

holds_true : (m : Model) (v : ℕ) → holds m (make_lit_true v) ≡ m v
unfolding holds sign var make_lit_true
holds_true m v = let half : 2 * v / 2 ≡ v = omega arith in ground (arith, ap m half)

holds_false : (m : Model) (v : ℕ) → holds m (make_lit_false v) ≡ not (m v)
unfolding holds sign var make_lit_false
holds_false m v = let half : (2 * v + 1) / 2 ≡ v = omega arith in ground (arith, ap m half)

var_true : (v : ℕ) → var (make_lit_true v) ≡ v
unfolding var make_lit_true
var_true v = omega arith

var_false : (v : ℕ) → var (make_lit_false v) ≡ v
unfolding var make_lit_false
var_false v = omega arith

module _ {B : BipePropagator} {n : ℕ} {cs : List (List Lit)} (L : BipeLaws B n cs) where
  open B use {State, restart, unchecked_enqueue, propagate, trail, is_unsat, cancel_until_pos}
  open L use {Valid, root}

  sum-add_branch :
      (f : List Lit → ℕ) (b : State × Bool) (pending : List (List Lit))
      → sum_lits f (add_branch B b pending)
        ≡ sum_lits f pending + (if b.1 then f (trail b.0) else 0)
  unfolding add_branch sum_lits
  sum-add_branch f (p, true) pending = omega (arith, sum_lits-append f pending (trail p ∷ []))
  sum-add_branch f (p, false) pending = omega arith

  All-add_branch :
      (b : State × Bool) (pending : List (List Lit))
      → Valid b.0
      → All (IsBase L) pending
      → All (IsBase L) (add_branch B b pending)
  unfolding add_branch
  All-add_branch (p, true) pending v h =
      All-append (IsBase L) pending (trail p ∷ []) h (trail-IsBase L p v, tt)
  All-add_branch (p, false) pending v h = h

  -- A literal on a variable without a value is set, and propagated.
  abbrev pub set_lit : State → Lit → State × Bool
  set_lit p l = propagate (unchecked_enqueue p l)

  module _ (p : State) (l : Lit) (v : Valid p) (le : var l ≤ n)
      (open_ : is_in (var l) (trail p) ≡ false) where
    set_lit-Valid : Valid (set_lit p l).0
    set_lit-Valid = L.propagate_valid (unchecked_enqueue p l) (L.enqueue_valid p l v le open_)

    set_lit-trail : (xs : List Lit) × (trail (set_lit p l).0 ≡ trail p ++ l ∷ xs)
    set_lit-trail =
        let more = L.propagate_trail (unchecked_enqueue p l) (L.enqueue_valid p l v le open_) in
        (
          more.0,
          more.1
              ∙ ap (λ t. t ++ more.0) (L.enqueue_trail p l v le open_)
              ∙ append_assoc (trail p) (l ∷ []) more.0,
        )

    -- The models of the formula that satisfy the branch are those that satisfy the trail and the literal.
    set_lit-hit :
        (m : Model)
        → sat_formula m cs ≡ true
        → (if (set_lit p l).1 then hit m (trail (set_lit p l).0) else 0)
          ≡ (if all_of (holds m) (trail p) && holds m l then 1 else 0)
    unfolding all_of
    set_lit-hit m sat = elim (Bool-cases (all_of (holds m) (trail p) && holds m l)) [
      | inl yes_ ↦
          let sound =
            L.propagate_sound m (unchecked_enqueue p l) sat (L.enqueue_valid p l v le open_)
              (ground (arith, before, yes_)) in
          rw (sound.0, sound.1, yes_) refl
      | inr no_ ↦
          let lost : all_of (holds m) (trail (set_lit p l).0) ≡ false =
            ap (all_of (holds m)) set_lit-trail.1
            ∙ ground (arith, all_of-append (holds m) (trail p) (l ∷ set_lit-trail.0), no_) in
          rw (lost, no_) (ground arith)
    ]
      where
        before :
            all_of (holds m) (trail (unchecked_enqueue p l))
            ≡ (all_of (holds m) (trail p) && (holds m l && true))
        before =
            ap (all_of (holds m)) (L.enqueue_trail p l v le open_)
            ∙ all_of-append (holds m) (trail p) (l ∷ [])

  -- Both branches of a variable, with the propagator taken back in between.
  module _ (p : State) (v : ℕ) (valid : Valid p) (le : v ≤ n)
      (open_ : is_in v (trail p) ≡ false) where
    le_true : var (make_lit_true v) ≤ n
    le_true = omega (arith, var_true v)

    le_false : var (make_lit_false v) ≤ n
    le_false = omega (arith, var_false v)

    open_true : is_in (var (make_lit_true v)) (trail p) ≡ false
    open_true = ap (λ u. is_in u (trail p)) (var_true v) ∙ open_

    abbrev pub back : State
    back = cancel_until_pos (set_lit p (make_lit_true v)).0 (length (trail p))

    back_lem : Valid back × (trail back ≡ trail p)
    back_lem =
        let begun = L.begins valid in
        let after = set_lit-trail p (make_lit_true v) valid le_true open_true in
        let e = after.1 ∙ ap (λ t. t ++ make_lit_true v ∷ after.0) begun.1 in
        let w = set_lit-Valid p (make_lit_true v) valid le_true open_true in
        let b = (set_lit p (make_lit_true v)).0 in
        let at = sym begun.1 in
        (
          subst (λ t. Valid (cancel_until_pos b (length t))) at
              (L.cancel_valid b begun.0 (make_lit_true v ∷ after.0) w e),
          subst (λ t. trail (cancel_until_pos b (length t)) ≡ t) at
              (L.cancel_trail b begun.0 (make_lit_true v ∷ after.0) w e),
        )

    open_false : is_in (var (make_lit_false v)) (trail back) ≡ false
    open_false = ap (λ u. is_in u (trail back)) (var_false v) ∙ ap (is_in v) back_lem.1 ∙ open_

    pub branches_hit :
        (m : Model)
        → sat_formula m cs ≡ true
        → sum_lits (hit m) (
            add_branch B
              (set_lit back (make_lit_false v))
              (add_branch B (set_lit p (make_lit_true v)) []))
          ≡ hit m (trail p)
    unfolding sum_lits
    branches_hit m sat = omega (
      arith,
      sum-add_branch (hit m) (set_lit back (make_lit_false v))
          (add_branch B (set_lit p (make_lit_true v)) []),
      sum-add_branch (hit m) (set_lit p (make_lit_true v)) [],
      set_lit-hit p (make_lit_true v) valid le_true open_true m sat,
      set_lit-hit back (make_lit_false v) back_lem.0 le_false open_false m sat,
      either,
    )
      where
        either :
            (if all_of (holds m) (trail p) && holds m (make_lit_true v) then 1 else 0)
              + (if all_of (holds m) (trail back) && holds m (make_lit_false v) then 1 else 0)
            ≡ hit m (trail p)
        either = ground (arith, holds_true m v, holds_false m v, ap (all_of (holds m)) back_lem.1)

    pub branches-IsBase :
        Valid (set_lit back (make_lit_false v)).0
        × All (IsBase L) (
            add_branch B
              (set_lit back (make_lit_false v))
              (add_branch B (set_lit p (make_lit_true v)) []))
    branches-IsBase =
        let v_true = set_lit-Valid p (make_lit_true v) valid le_true open_true in
        let v_false = set_lit-Valid back (make_lit_false v) back_lem.0 le_false open_false in
        (
          v_false,
          All-add_branch (set_lit back (make_lit_false v))
              (add_branch B (set_lit p (make_lit_true v)) []) v_false
              (All-add_branch (set_lit p (make_lit_true v)) [] v_true tt),
        )
