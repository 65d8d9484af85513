-- ===== src/Cli/Generator/Generate.antt =====
-- `generate` of cube_gen_cli/cube_gen_cli.cpp: it ends, and its cubes share out the models of the
-- formula.
use hydra_sat.Base.{
  ℕ, zero, suc, ◌+◌, ◌<◌, ◌≡◌, refl, ap, ◌∙◌, ◌≢◌, inl, inr, Bool, true, false, not, List, [], ◌∷◌,
  ◌++◌, Option, none, some, Bool-cases, length, All, arith,
}
use hydra_sat.Cli.Lit.{Lit, Model, sat_formula, sat_cube}
use hydra_sat.Cli.Propagator.{new, propagate}
use hydra_sat.Cli.Propagator.Trail.{mentions, Below}
use hydra_sat.Cli.Propagator.Invariant.{IsValid}
use hydra_sat.Cli.Propagator.Reset.{new-IsValid}
use hydra_sat.Cli.Propagator.Sound.{propagate-IsValid, propagate_sound}
use hydra_sat.Cli.Queue.{PriorityQueue, cube_of, push, top, sum_of, drain}
use hydra_sat.Cli.Heuristic.{BranchingCubeHeuristic}
use hydra_sat.Cli.Generator.{Gen, create_cubes, stops, run, init_gen, collect, generate, cost}
use hydra_sat.Cli.Generator.Branch.{hit, hits, cube_of-IsGood}
use hydra_sat.Cli.Generator.Partition.{IsWell, settled, PicksUnassigned, covered}
use hydra_sat.Cli.Generator.Step.{create_cubes-IsWell, create_cubes-covered}
use hydra_sat.Cli.Generator.Bound.{cube_cost, create_cubes-cost, cube_cost-le}

-- `PicksUnassigned` as a test.
unfoldable pub picks_unassigned : {n : ℕ} → BranchingCubeHeuristic n → Gen → Bool
picks_unassigned h g = elim (top g.queue) [
  | none ↦ true
  | some c ↦ elim (h.next c.lits) [
    | none ↦ true
    | some v ↦ not (mentions v (settled g c.lits).0.trail)
  ]
]

pub picks_unassigned_lem :
    {n : ℕ} (h : BranchingCubeHeuristic n) (g : Gen)
    → picks_unassigned h g ≡ true
    → PicksUnassigned h g
unfolding picks_unassigned
picks_unassigned_lem h g t c v on_top picked = ground arith

-- The test at every call that the loop makes.
unfoldable pub run_picks : {n : ℕ} → BranchingCubeHeuristic n → ℕ → (ℕ → Bool) → ℕ → ℕ → Gen → Bool
unfolding picks_unassigned
run_picks h num_cubes late zero i g = true
run_picks h num_cubes late (suc f) i g = elim (stops h num_cubes late i g) [
  | true ↦ true
  | false ↦ elim (picks_unassigned h g) [
    | true ↦ run_picks h num_cubes late f (i + 1) (create_cubes h g)
    | false ↦ false
  ]
]

run_picks_step :
    {n : ℕ} (h : BranchingCubeHeuristic n) (num_cubes : ℕ) (late : ℕ → Bool) (f i : ℕ) (g : Gen)
    → stops h num_cubes late i g ≡ false
    → run_picks h num_cubes late (suc f) i g ≡ true
    → (picks_unassigned h g ≡ true)
      × (run_picks h num_cubes late f (i + 1) (create_cubes h g) ≡ true)
unfolding run_picks
run_picks_step h num_cubes late f i g more picks = elim (Bool-cases (picks_unassigned h g)) [
  | inl p ↦ (p, ground arith)
  | inr np ↦ absurd (ground arith)
]

stops-queue :
    {n : ℕ} (h : BranchingCubeHeuristic n) (num_cubes : ℕ) (late : ℕ → Bool) (i : ℕ) (g : Gen)
    → stops h num_cubes late i g ≡ false
    → g.queue ≢ []
stops-queue h num_cubes late i g more e = ground (arith, ap length e)

module _ (cs : List (List Lit)) (nb : ℕ) (below : All (Below (nb + 1)) cs)
    (h : BranchingCubeHeuristic nb) (num_cubes : ℕ) (late : ℕ → Bool) where
  pub init_gen-IsWell : IsWell cs (nb + 1) (init_gen nb cs)
  unfolding init_gen push
  init_gen-IsWell =
      let v : IsValid cs (nb + 1) (propagate (new nb cs)).0 =
        propagate-IsValid cs (nb + 1) below (new nb cs) (new-IsValid nb cs) in
      record { valid = v; good = (cube_of-IsGood cs (nb + 1) (propagate (new nb cs)).0 v, tt) }

  -- The first cube is satisfied by every model.
  init_gen-covered : (m : Model) → sat_formula m cs ≡ true → covered m (init_gen nb cs) ≡ 1
  unfolding init_gen push cube_of sum_of hits new sat_cube
  init_gen-covered m f =
      let (ok, sat) = propagate_sound cs (nb + 1) below (new nb cs) m (new-IsValid nb cs) f refl in
      rw sat

  abbrev Shares : Gen → Option Gen → Type 0
  Shares g r =
      (g' : Gen) × (r ≡ some g')
      × ((m : Model) → sat_formula m cs ≡ true → covered m g' ≡ covered m g)

  run-Shares :
      (f i : ℕ) (g : Gen)
      → IsWell cs (nb + 1) g
      → sum_of (cube_cost nb) g.queue < f
      → run_picks h num_cubes late f i g ≡ true
      → Shares g (run h num_cubes late f i g)
  unfolding run run_picks
  run-Shares zero i g w lt picks = absurd (omega arith)
  run-Shares (suc f) i g w lt picks = elim (Bool-cases (stops h num_cubes late i g)) [
    | inl stop ↦ rw (stop, run) (g, refl, λ m s. refl)
    | inr more ↦
        let (now, later) = run_picks_step h num_cubes late f i g more picks in
        let here : PicksUnassigned h g = picks_unassigned_lem h g now in
        let less : sum_of (cube_cost nb) (create_cubes h g).queue < sum_of (cube_cost nb) g.queue =
          create_cubes-cost cs nb below h g w here (stops-queue h num_cubes late i g more) in
        let (g', e, same) =
          run-Shares f (i + 1) (create_cubes h g) (create_cubes-IsWell cs nb below h g w here)
            (omega arith) later in
        rw (more, run) (g', e, λ m s. same m s ∙ create_cubes-covered cs nb below h g m w here s)
  ]

  hits-append : (m : Model) (xs ys : List (List Lit)) → hits m (xs ++ ys) ≡ hits m xs + hits m ys
  unfolding hits
  hits-append m [] ys = omega arith
  hits-append m (x ∷ xs) ys = omega (arith, hits-append m xs ys)

  hits-drain : (m : Model) (q : PriorityQueue) → hits m (drain q) ≡ sum_of (λ c. hit m c.lits) q
  unfolding hits drain sum_of
  hits-drain m [] = refl
  hits-drain m (c ∷ q) = omega (arith, hits-drain m q)

  init_gen-cost : sum_of (cube_cost nb) (init_gen nb cs).queue < suc (cost nb)
  unfolding init_gen push sum_of
  init_gen-cost = omega (arith, cube_cost-le nb (cube_of (propagate (new nb cs)).0.trail))

  covered-collect : (m : Model) (g : Gen) → hits m (collect g).cubes ≡ covered m g
  unfolding collect
  covered-collect m g = omega (arith, hits-append m g.cubes (drain g.queue), hits-drain m g.queue)

  -- `generate` ends, and each model of the formula satisfies exactly one of its cubes, where the
  -- variables of the clauses are in range and, at each call of `createCubes` in the run, the variable
  -- that the heuristic picks has no value once the propagator is filled with the cube.
  pub generate_partition :
      run_picks h num_cubes late (suc (cost nb)) 0 (init_gen nb cs) ≡ true
      → (g : Gen) × (generate h cs num_cubes late ≡ some g)
        × ((m : Model) → sat_formula m cs ≡ true → hits m g.cubes ≡ 1)
  unfolding generate
  generate_partition picks =
      let (g, e, same) =
        run-Shares (suc (cost nb)) 0 (init_gen nb cs) init_gen-IsWell init_gen-cost picks in
      (collect g, rw e, λ m f. covered-collect m g ∙ same m f ∙ init_gen-covered m f)
