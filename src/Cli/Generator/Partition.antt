-- ===== src/Cli/Generator/Partition.antt =====
-- `createCubes` of cube_gen_cli/cube_gen_cli.cpp: the cases of one call, and that the cubes it leaves
-- cover each model of the formula as often as those it found.
use hydra_sat.Base.{
  ℕ, ◌+◌, ◌≡◌, ap, subst, ◌∙◌, inl, inr, Bool, true, false, not, ◌||◌, List, [], ◌∷◌, ◌++◌, none,
  some, Bool-cases, Option-cases, All, arith,
}
use hydra_sat.Cli.Lit.{Lit, Model, sat_cube, sat_formula}
use hydra_sat.Cli.Propagator.{Propagator, restart, propagate}
use hydra_sat.Cli.Propagator.Trail.{mentions, Below}
use hydra_sat.Cli.Propagator.Invariant.{
  IsValid, Refuted, Steps, Steps-trail, Steps-IsValid, Steps_sound, Steps-sat_cube, Steps-unsat,
}
use hydra_sat.Cli.Propagator.Sound.{propagate-RunSteps}
use hydra_sat.Cli.Queue.{Cube, PriorityQueue, top, pop, sum_of}
use hydra_sat.Cli.Heuristic.{BranchingCubeHeuristic}
use hydra_sat.Cli.Generator.{Gen, fill, branch, split_cube, expand, create_cubes}
use hydra_sat.Cli.Generator.Fill.{fill-restart}
use hydra_sat.Cli.Generator.Branch.{hit, hits, IsGood}

-- The state between two calls.
pub record IsWell (cs : List (List Lit)) (n : ℕ) (g : Gen) : Type 0 where
  pub valid : IsValid cs n g.prop
  pub good : All (IsGood n) g.queue

-- The propagator filled with a cube, after propagation.
abbrev pub settled : Gen → List Lit → Propagator × Bool
settled g lits = propagate (fill lits (restart g.prop))

-- The variable that the heuristic picks for the top cube has no value once the propagator is filled
-- with this cube. The source does not test it: an assertion that implies it stands there as a comment.
abbrev pub PicksUnassigned : {n : ℕ} → BranchingCubeHeuristic n → Gen → Type 0
PicksUnassigned h g =
    (c : Cube) (v : ℕ)
    → top g.queue ≡ some c
    → h.next c.lits ≡ some v
    → mentions v (settled g c.lits).0.trail ≡ false

-- How often an assignment satisfies the cubes that are done and those in the queue.
abbrev pub covered : Model → Gen → ℕ
covered m g = hits m g.cubes + sum_of (λ c. hit m c.lits) g.queue

pub hits-snoc :
    (m : Model) (xs : List (List Lit)) (c : List Lit) → hits m (xs ++ c ∷ []) ≡ hits m xs + hit m c
unfolding hits
hits-snoc m [] c = omega arith
hits-snoc m (x ∷ xs) c = omega (arith, hits-snoc m xs c)

module _ (cs : List (List Lit)) (n : ℕ) (below : All (Below n) cs) where
  module _ (g : Gen) (c : Cube) (q : PriorityQueue) (e : g.queue ≡ c ∷ q) (w : IsWell cs n g) where
    pub top-IsGood : IsGood n c × All (IsGood n) q
    top-IsGood = subst (All (IsGood n)) e w.good

    filled :
        IsValid cs n (fill c.lits (restart g.prop))
        × ((fill c.lits (restart g.prop)).trail ≡ c.lits)
        × ((fill c.lits (restart g.prop)).unsat ≡ false)
    filled = fill-restart cs n c.lits g.prop w.valid top-IsGood.0.0 top-IsGood.0.1

    settles : Steps cs n (fill c.lits (restart g.prop)) (settled g c.lits).0
    settles = (propagate-RunSteps cs n below (fill c.lits (restart g.prop)) filled.0).0

    pub settled-IsValid : IsValid cs n (settled g c.lits).0
    settled-IsValid = Steps-IsValid cs n settles filled.0

    pub settled-trail : (new : List Lit) × ((settled g c.lits).0.trail ≡ c.lits ++ new)
    settled-trail =
        subst (λ t. (new : List Lit) × ((settled g c.lits).0.trail ≡ t ++ new)) filled.1
          (Steps-trail cs n settles)

    pub settled-hit :
        (m : Model) → sat_formula m cs ≡ true → hit m (settled g c.lits).0.trail ≡ hit m c.lits
    settled-hit m f = elim (Bool-cases (sat_cube m c.lits)) [
      | inl sat ↦ rw (sat, Steps_sound cs n m settles f (ap (sat_cube m) filled.1 ∙ sat))
      | inr unsat ↦ elim (Bool-cases (sat_cube m (settled g c.lits).0.trail)) [
        | inr same ↦ rw (unsat, same)
        | inl t ↦ absurd (cc (unsat, filled.1, Steps-sat_cube cs n m settles t))
      ]
    ]

    -- A cube that is dropped has no model of the formula.
    dropped :
        not (settled g c.lits).1 || (settled g c.lits).0.unsat ≡ true
        → (m : Model) → sat_formula m cs ≡ true
        → hit m c.lits ≡ 0
    dropped d m f = elim (Bool-cases (sat_cube m c.lits)) [
      | inr unsat ↦ rw unsat
      | inl sat ↦ absurd (refuted d m f (ap (sat_cube m) filled.1 ∙ sat))
    ]
      where
        refuted :
            not (settled g c.lits).1 || (settled g c.lits).0.unsat ≡ true
            → Refuted cs n (fill c.lits (restart g.prop))
        refuted d = elim (Bool-cases (settled g c.lits).1) [
          | inr conflict ↦
              (propagate-RunSteps cs n below (fill c.lits (restart g.prop)) filled.0).1 conflict
          | inl ok ↦ Steps-unsat cs n settles filled.2 (ground arith)
        ]

    -- The three ways in which a call ends.
    pub expand_cases {ℓ} :
        (n' : ℕ) (h : BranchingCubeHeuristic n') (P : Gen → Type ℓ)
        → (((m : Model) → sat_formula m cs ≡ true → hit m c.lits ≡ 0)
            → P (record g {
              prop = (settled g c.lits).0;
              queue = pop g.queue;
              pruned = g.pruned + 1;
            }))
        → (h.next c.lits ≡ none
            → P (record g {
              prop = (settled g c.lits).0;
              cubes = g.cubes ++ c.lits ∷ [];
              queue = pop g.queue;
            }))
        → ((v : ℕ) → h.next c.lits ≡ some v → P (branch v (settled g c.lits).0 g))
        → P (create_cubes h g)
    unfolding create_cubes top split_cube
    expand_cases n' h P drop_it leaf split =
        let on_top : top g.queue ≡ some c = ap top e in
        let test : Bool = not (settled g c.lits).1 || (settled g c.lits).0.unsat in
        rw (on_top, create_cubes)
          (elim (Bool-cases test) [
            | inl d ↦ rw (d, expand) (drop_it (dropped d))
            | inr k ↦
                rw (k, expand)
                  (elim (Option-cases (h.next c.lits)) [
                    | inl closed ↦ rw (closed, split_cube) (leaf closed)
                    | inr (v, open_var) ↦ rw (open_var, split_cube) (split v open_var)
                  ])
          ])
