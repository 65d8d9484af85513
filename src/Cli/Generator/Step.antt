-- ===== src/Cli/Generator/Step.antt =====
-- One call of `createCubes` of cube_gen_cli/cube_gen_cli.cpp: the invariant, and the models covered.
use hydra_sat.Base.{
  ℕ, ◌+◌, ◌≤◌, ◌≡◌, refl, ap, true, false, List, [], ◌∷◌, ◌++◌, none, length, All, length-append,
  arith,
}
use hydra_sat.Cli.Lit.{Lit, Model, sat_formula}
use hydra_sat.Cli.Propagator.{Propagator}
use hydra_sat.Cli.Propagator.Trail.{mentions, Below}
use hydra_sat.Cli.Propagator.Invariant.{IsValid}
use hydra_sat.Cli.Queue.{Cube, PriorityQueue, top, pop, sum_of}
use hydra_sat.Cli.Heuristic.{BranchingCubeHeuristic}
use hydra_sat.Cli.Generator.{Gen, create_cubes}
use hydra_sat.Cli.Generator.Branch.{hit, hits, IsGood}
use hydra_sat.Cli.Generator.Split.{branch-IsGood, branch-prop-IsValid, branch-hits}
use hydra_sat.Cli.Generator.Partition.{
  IsWell, settled, PicksUnassigned, covered, hits-snoc, settled-IsValid, settled-trail, settled-hit,
  top-IsGood, expand_cases,
}

create_cubes_empty :
    {n : ℕ} (h : BranchingCubeHeuristic n) (g : Gen) → g.queue ≡ [] → create_cubes h g ≡ g
unfolding create_cubes top
create_cubes_empty h g e =
    let none_left : top g.queue ≡ none = ap top e in rw (none_left, create_cubes)

module _ (cs : List (List Lit)) (nb : ℕ) (below : All (Below (nb + 1)) cs)
    (h : BranchingCubeHeuristic nb) where
  module _ (g : Gen) (c : Cube) (q : PriorityQueue) (e : g.queue ≡ c ∷ q)
      (w : IsWell cs (nb + 1) g) where
    pub popped : pop g.queue ≡ q
    unfolding pop
    popped = ap pop e

    settled_prop : Propagator
    settled_prop = (settled g c.lits).0

    pub light : c.weight ≤ length (settled g c.lits).0.trail
    light = longer (settled-trail cs (nb + 1) below g c q e w)
      where
        longer :
            (new : List Lit) × ((settled g c.lits).0.trail ≡ c.lits ++ new)
            → c.weight ≤ length (settled g c.lits).0.trail
        longer (new, s) = omega (
          arith,
          (top-IsGood cs (nb + 1) below g c q e w).0.2,
          ap length s,
          length-append c.lits new,
        )

    settled_ok : IsValid cs (nb + 1) (settled g c.lits).0
    settled_ok = settled-IsValid cs (nb + 1) below g c q e w

    rest-IsGood : All (IsGood (nb + 1)) q
    rest-IsGood = (top-IsGood cs (nb + 1) below g c q e w).1

    covered-top :
        (m : Model) → covered m g ≡ hits m g.cubes + (hit m c.lits + sum_of (λ d. hit m d.lits) q)
    unfolding sum_of
    covered-top m = ap (λ x. hits m g.cubes + sum_of (λ d. hit m d.lits) x) e

    step_IsWell : PicksUnassigned h g → IsWell cs (nb + 1) (create_cubes h g)
    unfolding top
    step_IsWell picks =
        expand_cases cs (nb + 1) below g c q e w nb h (IsWell cs (nb + 1))
          (λ _. record { valid = settled_ok; good = rw popped rest-IsGood })
          (λ _. record { valid = settled_ok; good = rw popped rest-IsGood })
          λ v picked.
            let (lo, hi) = h.next_range c.lits v picked in
            let fresh : mentions v (settled g c.lits).0.trail ≡ false =
              picks c v (ap top e) picked in
            record {
              valid =
                  branch-prop-IsValid cs (nb + 1) below v (settled g c.lits).0 lo (omega arith)
                    fresh settled_ok g c q e light;
              good =
                  branch-IsGood cs (nb + 1) below v (settled g c.lits).0 lo (omega arith) fresh
                    settled_ok g c q e light rest-IsGood;
            }

    step-covered :
        (m : Model)
        → sat_formula m cs ≡ true
        → PicksUnassigned h g
        → covered m (create_cubes h g) ≡ covered m g
    unfolding top
    step-covered m f picks =
        expand_cases cs (nb + 1) below g c q e w nb h (λ r. covered m r ≡ covered m g)
          (λ no_model.
            omega (arith, covered-top m, no_model m f, ap (sum_of (λ d. hit m d.lits)) popped))
          (λ _. omega (
            arith,
            covered-top m,
            hits-snoc m g.cubes c.lits,
            ap (sum_of (λ d. hit m d.lits)) popped,
          ))
          λ v picked.
            let (lo, hi) = h.next_range c.lits v picked in
            let fresh : mentions v (settled g c.lits).0.trail ≡ false =
              picks c v (ap top e) picked in
            omega (
              arith,
              covered-top m,
              settled-hit cs (nb + 1) below g c q e w m f,
              branch-hits cs (nb + 1) below v (settled g c.lits).0 lo (omega arith) fresh settled_ok
                  g c q e light m f,
            )

  -- Where the propagator is valid and the queued cubes are good, and the variable picked for the top
  -- cube has no value, a call of `createCubes` leaves the propagator valid and the queued cubes good:
  -- no variable twice, all variables in range, and the weight is the size.
  pub create_cubes-IsWell :
      (g : Gen) → IsWell cs (nb + 1) g → PicksUnassigned h g → IsWell cs (nb + 1) (create_cubes h g)
  create_cubes-IsWell g w picks = by_queue g.queue refl
    where
      by_queue : (q : PriorityQueue) → g.queue ≡ q → IsWell cs (nb + 1) (create_cubes h g)
      by_queue [] e = rw (create_cubes_empty h g e) w
      by_queue (c ∷ q) e = step_IsWell g c q e w picks

  -- Where the propagator is valid, the queued cubes are good and the variable picked for the top cube
  -- has no value, each model of the formula satisfies exactly as many cubes, done or in the queue,
  -- after a call of `createCubes` as before it: whatever the call does with the top cube, prune it,
  -- close it or split it.
  pub create_cubes-covered :
      (g : Gen) (m : Model)
      → IsWell cs (nb + 1) g
      → PicksUnassigned h g
      → sat_formula m cs ≡ true
      → covered m (create_cubes h g) ≡ covered m g
  create_cubes-covered g m w picks f = by_queue g.queue refl
    where
      by_queue : (q : PriorityQueue) → g.queue ≡ q → covered m (create_cubes h g) ≡ covered m g
      by_queue [] e = rw (create_cubes_empty h g e)
      by_queue (c ∷ q) e = step-covered g c q e w m f picks
