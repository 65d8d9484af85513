-- ===== src/Cli/Generator/Split.antt =====
-- Both branches of `createCubes` of cube_gen_cli/cube_gen_cli.cpp, and the queue that they leave.
use hydra_sat.Base.{
  ℕ, ◌+◌, ◌≤◌, ◌<◌, ◌≡◌, refl, sym, ap, subst, ◌∙◌, Bool, true, false, List, ◌∷◌, ◌++◌, leb, length,
  All, length-append, arith,
}
use hydra_sat.Cli.Lit.{
  Lit, Model, var, sat_formula, make_lit_true, make_lit_false, var-make_lit_true,
  var-make_lit_false, holds-make_lit_true, holds-make_lit_false,
}
use hydra_sat.Cli.Propagator.{Propagator, unchecked_enqueue, propagate, cancel_until_pos}
use hydra_sat.Cli.Propagator.Trail.{mentions, Below}
use hydra_sat.Cli.Propagator.Invariant.{IsValid}
use hydra_sat.Cli.Propagator.Reset.{cancel_until_pos-IsValid}
use hydra_sat.Cli.Queue.{Cube, PriorityQueue, cube_of, push, pop, sum_of, sum_of-push, All-push}
use hydra_sat.Cli.Generator.{Gen, push_branch, branch}
use hydra_sat.Cli.Generator.Branch.{
  hit, hits, gain, IsGood, cube_of-IsGood, branch-IsValid, branch-trail, branch-gain,
}

-- The cubes below the top of the queue once a branch is done.
abbrev pub queue_after : Propagator × Bool → PriorityQueue → PriorityQueue
queue_after (p, true) q = push (cube_of p.trail) q
queue_after (p, false) q = q

sum_of-queue_after :
    (f : Cube → ℕ) (r : Propagator × Bool) (q : PriorityQueue)
    → sum_of f (queue_after r q) ≡ gain f r + sum_of f q
sum_of-queue_after f (p, true) q = sum_of-push f (cube_of p.trail) q
sum_of-queue_after f (p, false) q = omega arith

All-queue_after :
    (P : Cube → Type 0) (r : Propagator × Bool) (q : PriorityQueue)
    → P (cube_of r.0.trail)
    → All P q
    → All P (queue_after r q)
All-queue_after P (p, true) q h a = All-push P (cube_of p.trail) q h a
All-queue_after P (p, false) q h a = a

-- A cube that is no lighter than the top goes below it.
push_branch-queue :
    (r : Propagator × Bool) (g : Gen) (c : Cube) (q : PriorityQueue)
    → g.queue ≡ c ∷ q
    → c.weight ≤ length r.0.trail
    → ((push_branch r g).queue ≡ c ∷ queue_after r q)
      × ((push_branch r g).prop ≡ r.0)
      × ((push_branch r g).cubes ≡ g.cubes)
unfolding push_branch push cube_of
push_branch-queue (p, true) g c q e le =
    let below_c : leb c.weight (length p.trail) ≡ true = ground arith in
    (ap (push (cube_of p.trail)) e ∙ rw below_c, refl, refl)
push_branch-queue (p, false) g c q e le = (e, refl, refl)

module _ (cs : List (List Lit)) (n : ℕ) (below : All (Below n) cs) where
  module _ (v : ℕ) (p : Propagator) (lo : 1 ≤ v) (hi : v < n) (fresh : mentions v p.trail ≡ false)
      (valid : IsValid cs n p) where
    abbrev pub pos_branch : Propagator × Bool
    pos_branch = propagate (unchecked_enqueue p (make_lit_true v))

    abbrev pub back : Propagator
    back = cancel_until_pos pos_branch.0 (length p.trail)

    abbrev pub neg_branch : Propagator × Bool
    neg_branch = propagate (unchecked_enqueue back (make_lit_false v))

    pos_lt : var (make_lit_true v) < n
    pos_lt = rw (var-make_lit_true v) hi

    pos_fresh : mentions (var (make_lit_true v)) p.trail ≡ false
    pos_fresh = rw (var-make_lit_true v) fresh

    pub pos_trail : (new : List Lit) × (pos_branch.0.trail ≡ p.trail ++ make_lit_true v ∷ new)
    pos_trail = branch-trail cs n below p (make_lit_true v) pos_lt pos_fresh valid

    pub pos-IsValid : IsValid cs n pos_branch.0
    pos-IsValid = branch-IsValid cs n below p (make_lit_true v) pos_lt pos_fresh valid

    -- The propagator is back where it was before the first branch.
    back-IsValid : IsValid cs n back × (back.trail ≡ p.trail)
    back-IsValid =
        cancel_until_pos-IsValid cs n pos_branch.0 pos-IsValid p.trail
          (make_lit_true v ∷ pos_trail.0) pos_trail.1

    neg_lt : var (make_lit_false v) < n
    neg_lt = rw (var-make_lit_false v) hi

    neg_fresh : mentions (var (make_lit_false v)) back.trail ≡ false
    neg_fresh = rw (var-make_lit_false v, back-IsValid.1) fresh

    pub neg_trail : (new : List Lit) × (neg_branch.0.trail ≡ p.trail ++ make_lit_false v ∷ new)
    neg_trail =
        subst (λ t. (new : List Lit) × (neg_branch.0.trail ≡ t ++ make_lit_false v ∷ new))
          back-IsValid.1
          (branch-trail cs n below back (make_lit_false v) neg_lt neg_fresh back-IsValid.0)

    pub neg-IsValid : IsValid cs n neg_branch.0
    neg-IsValid = branch-IsValid cs n below back (make_lit_false v) neg_lt neg_fresh back-IsValid.0

    -- A model of the formula that satisfies the trail satisfies one of the two cubes, and no other
    -- assignment satisfies any.
    pub both-gain :
        (m : Model)
        → sat_formula m cs ≡ true
        → gain (λ c. hit m c.lits) pos_branch + gain (λ c. hit m c.lits) neg_branch ≡ hit m p.trail
    both-gain m f = ground (
      arith,
      branch-gain cs n below p (make_lit_true v) pos_lt pos_fresh valid m f,
      branch-gain cs n below back (make_lit_false v) neg_lt neg_fresh back-IsValid.0 m f,
      back-IsValid.1,
      holds-make_lit_true m v,
      holds-make_lit_false m v lo,
    )

    module _ (g : Gen) (c : Cube) (q : PriorityQueue) (e : g.queue ≡ c ∷ q)
        (light : c.weight ≤ length p.trail) where
      pub branch-queue :
          ((branch v p g).queue ≡ queue_after neg_branch (queue_after pos_branch q))
          × ((branch v p g).prop ≡ neg_branch.0)
          × ((branch v p g).cubes ≡ g.cubes)
      unfolding branch pop
      branch-queue = (ap pop second.0, second.1, second.2 ∙ first.2)
        where
          longer :
              (r : Propagator × Bool) (l : Lit)
              → (new : List Lit) × (r.0.trail ≡ p.trail ++ l ∷ new)
              → c.weight ≤ length r.0.trail
          longer r l (new, s) = omega (arith, light, ap length s, length-append p.trail (l ∷ new))

          first :
              ((push_branch pos_branch g).queue ≡ c ∷ queue_after pos_branch q)
              × ((push_branch pos_branch g).prop ≡ pos_branch.0)
              × ((push_branch pos_branch g).cubes ≡ g.cubes)
          first =
              push_branch-queue pos_branch g c q e (longer pos_branch (make_lit_true v) pos_trail)

          second_of : Propagator → Gen
          second_of a =
              push_branch
                (propagate
                  (unchecked_enqueue (cancel_until_pos a (length p.trail)) (make_lit_false v)))
                (push_branch pos_branch g)

          second :
              ((second_of (push_branch pos_branch g).prop).queue
                ≡ c ∷ queue_after neg_branch (queue_after pos_branch q))
              × ((second_of (push_branch pos_branch g).prop).prop ≡ neg_branch.0)
              × ((second_of (push_branch pos_branch g).prop).cubes
                  ≡ (push_branch pos_branch g).cubes)
          second =
              subst
                (λ a.
                  ((second_of a).queue ≡ c ∷ queue_after neg_branch (queue_after pos_branch q))
                  × ((second_of a).prop ≡ neg_branch.0)
                  × ((second_of a).cubes ≡ (push_branch pos_branch g).cubes))
                (sym first.1)
                (push_branch-queue neg_branch (push_branch pos_branch g) c
                  (queue_after pos_branch q) first.0
                  (longer neg_branch (make_lit_false v) neg_trail))

      -- The queue gains the cubes of the two branches and loses the cube that was split.
      pub sum_of-branch :
          (f : Cube → ℕ)
          → sum_of f (branch v p g).queue ≡ gain f neg_branch + (gain f pos_branch + sum_of f q)
      sum_of-branch f = rw branch-queue.0 (
          sum_of-queue_after f neg_branch (queue_after pos_branch q)
          ∙ ap (λ k. gain f neg_branch + k) (sum_of-queue_after f pos_branch q))

      pub branch-IsGood : All (IsGood n) q → All (IsGood n) (branch v p g).queue
      branch-IsGood good = rw branch-queue.0 (
          All-queue_after (IsGood n) neg_branch (queue_after pos_branch q)
            (cube_of-IsGood cs n neg_branch.0 neg-IsValid)
            (All-queue_after (IsGood n) pos_branch q (cube_of-IsGood cs n pos_branch.0 pos-IsValid)
              good))

      pub branch-prop-IsValid : IsValid cs n (branch v p g).prop
      branch-prop-IsValid = rw branch-queue.1 neg-IsValid

      -- After both branches each model of the formula is covered as often as by the trail before.
      pub branch-hits :
          (m : Model)
          → sat_formula m cs ≡ true
          → hits m (branch v p g).cubes + sum_of (λ d. hit m d.lits) (branch v p g).queue
            ≡ hits m g.cubes + (hit m p.trail + sum_of (λ d. hit m d.lits) q)
      branch-hits m f =
          omega
            (arith, ap (hits m) branch-queue.2, sum_of-branch (λ d. hit m d.lits), both-gain m f)
