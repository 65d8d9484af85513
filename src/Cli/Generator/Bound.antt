-- ===== src/Cli/Generator/Bound.antt =====
-- The loop of `generate` of cube_gen_cli/cube_gen_cli.cpp ends: each call of `createCubes` takes from
-- the number of cubes that can still come.
use hydra_sat.Base.{
  ℕ, zero, suc, ◌+◌, ◌≤◌, ◌<◌, ◌≡◌, refl, sym, ap, ◌∙◌, ◌≢◌, inl, inr, Bool, true, false, List, [],
  ◌∷◌, ◌++◌, some, if◌then◌else◌, ◌==◌, ==_iff, Bool-cases, All, arith,
}
use hydra_sat.Cli.Lit.{
  Lit, make_lit_true, make_lit_false, var, var-make_lit_true, var-make_lit_false,
}
use hydra_sat.Cli.Propagator.{Propagator}
use hydra_sat.Cli.Propagator.Trail.{mentions, mentions-append, Below}
use hydra_sat.Cli.Propagator.Invariant.{IsValid}
use hydra_sat.Cli.Queue.{Cube, PriorityQueue, cube_of, top, pop, sum_of}
use hydra_sat.Cli.Heuristic.{BranchingCubeHeuristic}
use hydra_sat.Cli.Generator.{Gen, branch, create_cubes, cost}
use hydra_sat.Cli.Generator.Branch.{gain}
use hydra_sat.Cli.Generator.Split.{pos_branch, neg_branch, pos_trail, neg_trail, sum_of-branch}
use hydra_sat.Cli.Generator.Partition.{
  IsWell, settled, PicksUnassigned, settled-IsValid, settled-trail, expand_cases,
}
use hydra_sat.Cli.Generator.Step.{light, popped}

-- The variables 1..n that a cube leaves open.
unfoldable pub count_open : ℕ → List Lit → ℕ
count_open zero ls = 0
count_open (suc k) ls = (if mentions (suc k) ls then 0 else 1) + count_open k ls

-- `ys` mentions what `xs` does.
abbrev Mentions : List Lit → List Lit → Type 0
Mentions xs ys = (u : ℕ) → mentions u xs ≡ true → mentions u ys ≡ true

count_open-le : (n : ℕ) (xs ys : List Lit) → Mentions xs ys → count_open n ys ≤ count_open n xs
unfolding count_open
count_open-le zero xs ys h = omega arith
count_open-le (suc k) xs ys h = ground (arith, h (suc k), count_open-le k xs ys h)

count_open-lt :
    (n : ℕ) (xs ys : List Lit) (v : ℕ)
    → Mentions xs ys
    → 1 ≤ v
    → v ≤ n
    → mentions v xs ≡ false
    → mentions v ys ≡ true
    → count_open n ys < count_open n xs
unfolding count_open
count_open-lt zero xs ys v h lo hi out into = absurd (omega arith)
count_open-lt (suc k) xs ys v h lo hi out into = elim (Bool-cases (v == suc k)) [
  | inl e ↦
      let same : v ≡ suc k = (==_iff v (suc k)).0 e in
      let out' : mentions (suc k) xs ≡ false = ap (λ u. mentions u xs) (sym same) ∙ out in
      let into' : mentions (suc k) ys ≡ true = ap (λ u. mentions u ys) (sym same) ∙ into in
      ground (arith, count_open-le k xs ys h)
  | inr ne ↦ ground (arith, h (suc k), count_open-lt k xs ys v h lo)
]

cost_pos : (k : ℕ) → 1 ≤ cost k
unfolding cost
cost_pos zero = omega arith
cost_pos (suc k) = omega arith

cost_mono : (j k : ℕ) → j ≤ k → cost j ≤ cost k
unfolding cost
cost_mono zero k h = cost_pos k
cost_mono (suc j) zero h = absurd (omega arith)
cost_mono (suc j) (suc k) h = omega (arith, cost_mono j k (omega arith))

-- Two cubes with fewer open variables cost less than one.
cost_two : (i j k : ℕ) → i < k → j < k → cost i + cost j < cost k
unfolding cost
cost_two i j zero h h' = absurd (omega arith)
cost_two i j (suc k) h h' = omega (arith, cost_mono i k (omega arith), cost_mono j k (omega arith))

-- How many cubes the cubes of the queue can still give rise to.
abbrev pub cube_cost : ℕ → Cube → ℕ
cube_cost nb c = cost (count_open nb c.lits)

gain-le : (f : Cube → ℕ) (r : Propagator × Bool) → gain f r ≤ f (cube_of r.0.trail)
gain-le f (p, true) = omega arith
gain-le f (p, false) = omega arith

-- A trail that goes on from a cube with a literal on a variable that the cube leaves open.
extended :
    (nb : ℕ) (ls base t : List Lit) (l : Lit) (v : ℕ)
    → 1 ≤ v
    → v ≤ nb
    → var l ≡ v
    → mentions v ls ≡ false
    → (new : List Lit) × (base ≡ ls ++ new)
    → (new : List Lit) × (t ≡ base ++ l ∷ new)
    → count_open nb t < count_open nb ls
unfolding mentions
extended nb ls base t l v lo hi same out (new, e) (more, e') =
    count_open-lt nb ls t v
      (λ u h.
        rw (e', e)
          (ground (arith, mentions-append u (ls ++ new) (l ∷ more), mentions-append u ls new)))
      lo hi out (rw (e', e) (ground (arith, mentions-append v (ls ++ new) (l ∷ more))))

module _ (cs : List (List Lit)) (nb : ℕ) (below : All (Below (nb + 1)) cs)
    (h : BranchingCubeHeuristic nb) where
  step_cost :
      (g : Gen) (c : Cube) (q : PriorityQueue)
      → g.queue ≡ c ∷ q
      → IsWell cs (nb + 1) g
      → PicksUnassigned h g
      → sum_of (cube_cost nb) (create_cubes h g).queue < sum_of (cube_cost nb) g.queue
  unfolding top sum_of cube_of
  step_cost g c q e w picks =
      expand_cases cs (nb + 1) below g c q e w nb h
        (λ r. sum_of (cube_cost nb) r.queue < sum_of (cube_cost nb) g.queue)
        (λ _. omega (arith, cost_pos (count_open nb c.lits), here, shorter))
        (λ _. omega (arith, cost_pos (count_open nb c.lits), here, shorter))
        (λ v picked. split v picked (h.next_range c.lits v picked))
    where
      here : sum_of (cube_cost nb) g.queue ≡ cube_cost nb c + sum_of (cube_cost nb) q
      here = ap (sum_of (cube_cost nb)) e

      shorter : sum_of (cube_cost nb) (pop g.queue) ≡ sum_of (cube_cost nb) q
      shorter = ap (sum_of (cube_cost nb)) (popped cs nb below h g c q e w)

      split :
          (v : ℕ)
          → h.next c.lits ≡ some v
          → (1 ≤ v) × (v ≤ nb)
          → sum_of (cube_cost nb) (branch v (settled g c.lits).0 g).queue
            < sum_of (cube_cost nb) g.queue
      split v picked (lo, hi) =
          let p : Propagator = (settled g c.lits).0 in
          let sv : IsValid cs (nb + 1) p = settled-IsValid cs (nb + 1) below g c q e w in
          let st : (new : List Lit) × (p.trail ≡ c.lits ++ new) =
            settled-trail cs (nb + 1) below g c q e w in
          let fresh : mentions v p.trail ≡ false = picks c v (ap top e) picked in
          let out : mentions v c.lits ≡ false = h.next_open c.lits v picked in
          let hi' : v < nb + 1 = omega arith in
          let a : Propagator × Bool = pos_branch cs (nb + 1) below v p lo hi' fresh sv in
          let b : Propagator × Bool = neg_branch cs (nb + 1) below v p lo hi' fresh sv in
          let fewer_a : count_open nb a.0.trail < count_open nb c.lits =
            extended nb c.lits p.trail a.0.trail (make_lit_true v) v lo hi (var-make_lit_true v) out
              st (pos_trail cs (nb + 1) below v p lo hi' fresh sv) in
          let fewer_b : count_open nb b.0.trail < count_open nb c.lits =
            extended nb c.lits p.trail b.0.trail (make_lit_false v) v lo hi (var-make_lit_false v)
              out st (neg_trail cs (nb + 1) below v p lo hi' fresh sv) in
          omega (
            arith,
            here,
            sum_of-branch cs (nb + 1) below v p lo hi' fresh sv g c q e
                (light cs nb below h g c q e w) (cube_cost nb),
            gain-le (cube_cost nb) a,
            gain-le (cube_cost nb) b,
            cost_two (count_open nb a.0.trail) (count_open nb b.0.trail) (count_open nb c.lits)
                fewer_a fewer_b,
          )

  -- Where the propagator is valid, the queued cubes are good and the variable picked for the top cube
  -- has no value, a call of `createCubes` on a queue that is not empty strictly lessens the number of
  -- cubes that the queue can give rise to.
  pub create_cubes-cost :
      (g : Gen)
      → IsWell cs (nb + 1) g
      → PicksUnassigned h g
      → g.queue ≢ []
      → sum_of (cube_cost nb) (create_cubes h g).queue < sum_of (cube_cost nb) g.queue
  create_cubes-cost g w picks some_left = by_queue g.queue refl
    where
      by_queue :
          (q : PriorityQueue)
          → g.queue ≡ q
          → sum_of (cube_cost nb) (create_cubes h g).queue < sum_of (cube_cost nb) g.queue
      by_queue [] e = absurd (some_left e)
      by_queue (c ∷ q) e = step_cost g c q e w picks

-- A cube on `n` variables leaves at most `n` open.
pub count_open-le_n : (n : ℕ) (ls : List Lit) → count_open n ls ≤ n
unfolding count_open
count_open-le_n zero ls = omega arith
count_open-le_n (suc k) ls = ground (arith, count_open-le_n k ls)

pub cube_cost-le : (nb : ℕ) (c : Cube) → cube_cost nb c ≤ cost nb
cube_cost-le nb c = cost_mono (count_open nb c.lits) nb (count_open-le_n nb c.lits)
