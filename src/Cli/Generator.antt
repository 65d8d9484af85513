-- ===== src/Cli/Generator.antt =====
-- `CubeGenerator` of cube_gen_cli/cube_gen_cli.cpp: splitting the space of assignments into cubes.
pub mod Fill
pub mod Branch
pub mod Split
pub mod Partition
pub mod Step
pub mod Bound
pub mod Generate
use mathlib.Core.Option
use hydra_sat.Base.{
  ℕ, zero, suc, ◌+◌, ◌-◌, Bool, true, false, not, ◌||◌, List, [], ◌∷◌, ◌++◌, map, Option, none,
  some, if◌then◌else◌, ltb, ◌==◌, length, take,
}
use hydra_sat.Cli.Lit.{Lit, make_lit_true, make_lit_false}
use hydra_sat.Cli.Propagator.{
  Propagator, new, restart, value, unchecked_enqueue, propagate, cancel_until_pos,
}
use hydra_sat.Cli.Queue.{Cube, PriorityQueue, cube_of, push, top, pop, drain}
use hydra_sat.Cli.Heuristic.{BranchingCubeHeuristic}

-- The state that `generate` and `createCubes` share: m_propagator, the output vector `cubes`, the
-- queue and the counter `pruned`.
pub record Gen : Type 0 where
  pub prop : Propagator
  pub cubes : List (List Lit)
  pub queue : PriorityQueue
  pub pruned : ℕ

-- for (auto& l : cBest.lits) if (m_propagator->value(l) > 1) m_propagator->uncheckedEnqueue(l);
unfoldable pub fill : List Lit → Propagator → Propagator
fill [] p = p
fill (l ∷ ls) p = fill ls (if ltb 1 (value p.assign l) then unchecked_enqueue p l else p)

-- What a branch adds to the queue: the cube of the whole trail, or one more pruned branch.
unfoldable pub push_branch : Propagator × Bool → Gen → Gen
push_branch (p, true) g = record g { prop = p; queue = push (cube_of p.trail) g.queue }
push_branch (p, false) g = record g { prop = p; pruned = g.pruned + 1 }

-- The two branches of `createCubes` on variable `v`. A branch copies the trail that propagation
-- leaves; the source reads it through a pointer that it took before the branch.
unfoldable pub branch : ℕ → Propagator → Gen → Gen
unfolding push_branch
branch v p g =
    let g' = push_branch (propagate (unchecked_enqueue p (make_lit_true v))) g in
    let back = cancel_until_pos g'.prop (length p.trail) in
    let g'' = push_branch (propagate (unchecked_enqueue back (make_lit_false v))) g' in
    record g'' { queue = pop g''.queue }

-- From the choice of the variable on.
unfoldable pub split_cube : Option ℕ → List Lit → Propagator → Gen → Gen
unfolding branch
split_cube none lits p g = record g { prop = p; cubes = g.cubes ++ lits ∷ []; queue = pop g.queue }
split_cube (some v) lits p g = branch v p g

module _ {n : ℕ} (h : BranchingCubeHeuristic n) where
  -- `createCubes` on the cube `c`, which is on top of the queue.
  unfoldable pub expand : Cube → Gen → Gen
  unfolding split_cube fill
  expand c g =
      let (p, done) = propagate (fill c.lits (restart g.prop)) in
      if not done || p.unsat
      then record g { prop = p; queue = pop g.queue; pruned = g.pruned + 1 }
      else split_cube (h.next c.lits) c.lits p g

  -- `generate` calls it on a queue that is not empty.
  unfoldable pub create_cubes : Gen → Gen
  unfolding expand
  create_cubes g = elim (top g.queue) [ none ↦ g | some c ↦ expand c g ]

  -- The tests at the head of the loop of `generate`. `late i` tells whether the clock has passed the
  -- time limit at test number `i`.
  abbrev pub stops : ℕ → (ℕ → Bool) → ℕ → Gen → Bool
  stops num_cubes late i g = not (ltb (length g.queue) num_cubes) || length g.queue == 0 || late i

  -- The loop of `generate`, with the rounds that it may still take; `none` if there are too few.
  unfoldable pub run : ℕ → (ℕ → Bool) → ℕ → ℕ → Gen → Option Gen
  unfolding create_cubes
  run num_cubes late zero i g = none
  run num_cubes late (suc f) i g = elim (stops num_cubes late i g) [
    | true ↦ some g
    | false ↦ run num_cubes late f (i + 1) (create_cubes g)
  ]

-- `initPropagator` and `initQueue`: the queue holds the trail of the first propagation.
unfoldable pub init_gen : ℕ → List (List Lit) → Gen
init_gen n cs =
    let (p, _) = propagate (new n cs) in
    record { prop = p; cubes = []; queue = push (cube_of p.trail) []; pruned = 0 }

-- How many cubes a cube with `k` open variables can give rise to: 2 ^ (k + 1) - 1.
unfoldable pub cost : ℕ → ℕ
cost zero = 1
cost (suc k) = suc (cost k + cost k)

-- What `generate` leaves in the state: the cubes of the queue follow those that are done.
unfoldable pub collect : Gen → Gen
collect g = record g { cubes = g.cubes ++ drain g.queue; queue = [] }

unfoldable pub generate :
    {n : ℕ} → BranchingCubeHeuristic n → List (List Lit) → ℕ → (ℕ → Bool) → Option Gen
unfolding run init_gen cost collect
generate {n} h cs num_cubes late =
    Option.map collect (run h num_cubes late (suc (cost n)) 0 (init_gen n cs))
