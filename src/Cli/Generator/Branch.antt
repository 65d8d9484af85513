-- ===== src/Cli/Generator/Branch.antt =====
-- One branch of `createCubes` of cube_gen_cli/cube_gen_cli.cpp: a literal on top of a trail, and what
-- propagation makes of it.
use mathlib.Core.List.{append_assoc}
use hydra_sat.Base.{
  ℕ, ◌+◌, ◌<◌, ◌≡◌, refl, ◌∙◌, inl, inr, Bool, true, false, ◌&&◌, List, [], ◌∷◌, ◌++◌,
  if◌then◌else◌, Bool-cases, length, All, arith,
}
use hydra_sat.Cli.Lit.{Lit, Model, var, holds, sat_cube, sat_formula, sat_cube-append}
use hydra_sat.Cli.Propagator.{Propagator, unchecked_enqueue, propagate}
use hydra_sat.Cli.Propagator.Trail.{mentions, Distinct, Below}
use hydra_sat.Cli.Propagator.Invariant.{
  IsValid, Steps, Steps-trail, Steps-IsValid, Steps-sat_cube, unchecked_enqueue-IsValid,
}
use hydra_sat.Cli.Propagator.Sound.{propagate-RunSteps, propagate_sound}
use hydra_sat.Cli.Queue.{Cube, cube_of}

-- How often an assignment satisfies a cube, or the cubes of a list.
abbrev pub hit : Model → List Lit → ℕ
hit m ls = if sat_cube m ls then 1 else 0

unfoldable pub hits : Model → List (List Lit) → ℕ
hits m [] = 0
hits m (c ∷ cs) = hit m c + hits m cs

-- What a branch adds to the sum of a measure over the queue.
abbrev pub gain : (Cube → ℕ) → Propagator × Bool → ℕ
gain f (p, true) = f (cube_of p.trail)
gain f (p, false) = 0

-- The cubes of the queue: no variable twice, all in range, and the weight is the size.
abbrev pub IsGood : ℕ → Cube → Type 0
IsGood n c = Distinct c.lits × Below n c.lits × (c.weight ≡ length c.lits)

gain-hit :
    (m : Model) (r : Propagator × Bool)
    → r.1 ≡ true
    → sat_cube m r.0.trail ≡ true
    → gain (λ c. hit m c.lits) r ≡ 1
unfolding cube_of
gain-hit m (p, true) ok sat = rw sat
gain-hit m (p, false) ok sat = cc

gain_no_hit :
    (m : Model) (r : Propagator × Bool)
    → ¬ (sat_cube m r.0.trail ≡ true)
    → gain (λ c. hit m c.lits) r ≡ 0
unfolding cube_of
gain_no_hit m (p, true) unsat = ground arith
gain_no_hit m (p, false) unsat = refl

pub cube_of-IsGood :
    (cs : List (List Lit)) (n : ℕ) (p : Propagator) → IsValid cs n p → IsGood n (cube_of p.trail)
unfolding cube_of
cube_of-IsGood cs n p v = (v.distinct, v.trail_below, refl)

module _ (cs : List (List Lit)) (n : ℕ) (below : All (Below n) cs) where
  module _ (p : Propagator) (l : Lit) (lt : var l < n) (fresh : mentions (var l) p.trail ≡ false)
      (v : IsValid cs n p) where
    abbrev branched : Propagator × Bool
    branched = propagate (unchecked_enqueue p l)

    start-IsValid : IsValid cs n (unchecked_enqueue p l)
    start-IsValid = unchecked_enqueue-IsValid cs n p l lt fresh v

    steps : Steps cs n (unchecked_enqueue p l) branched.0
    steps = (propagate-RunSteps cs n below (unchecked_enqueue p l) start-IsValid).0

    pub branch-IsValid : IsValid cs n branched.0
    branch-IsValid = Steps-IsValid cs n steps start-IsValid

    -- The trail of a branch starts with the old trail and the literal.
    pub branch-trail : (new : List Lit) × (branched.0.trail ≡ p.trail ++ l ∷ new)
    unfolding unchecked_enqueue
    branch-trail = regroup (Steps-trail cs n steps)
      where
        regroup :
            (new : List Lit) × (branched.0.trail ≡ (p.trail ++ l ∷ []) ++ new)
            → (new : List Lit) × (branched.0.trail ≡ p.trail ++ l ∷ new)
        regroup (new, e) = (new, e ∙ append_assoc p.trail (l ∷ []) new)

    start-sat_cube :
        (m : Model) → sat_cube m (unchecked_enqueue p l).trail ≡ sat_cube m p.trail && holds m l
    unfolding unchecked_enqueue sat_cube
    start-sat_cube m = ground (arith, sat_cube-append m p.trail (l ∷ []))

    -- A model of the formula satisfies the cube of a branch exactly if it satisfies the old trail and
    -- the literal; a branch that is pruned had none.
    pub branch-gain :
        (m : Model)
        → sat_formula m cs ≡ true
        → gain (λ c. hit m c.lits) branched ≡ (if sat_cube m p.trail && holds m l then 1 else 0)
    branch-gain m f = elim (Bool-cases (sat_cube m p.trail && holds m l)) [
      | inl sat ↦
          let (ok, t) =
            propagate_sound cs n below (unchecked_enqueue p l) m start-IsValid f
              (start-sat_cube m ∙ sat) in
          rw sat (gain-hit m branched ok t)
      | inr unsat ↦ rw unsat (
          gain_no_hit m branched (λ t. cc (start-sat_cube m, unsat, Steps-sat_cube cs n m steps t)))
    ]
