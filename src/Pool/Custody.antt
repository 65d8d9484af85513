-- ===== src/Pool/Custody.antt =====
-- Where the cubes are in cube_generator/CubeGeneratorCLI.cpp: no step of the main thread loses one.
use hydra_sat.Base.{
  ℕ, ◌+◌, ◌≡◌, refl, ap, subst, ◌⊎◌, inl, inr, Bool, false, not, ◌&&◌, List, [], ◌∷◌, ◌++◌, Option,
  none, some, ltb, leb, ◌==◌, Bool-cases, length, All, arith,
}
use hydra_sat.Formula.ProblemTypes.{Lit}
use hydra_sat.Pool.Queue.{Cube, PriorityQueue, is_empty, push, cube_of, drain}
use hydra_sat.Pool.Splitter.{BipePropagator, Heuristic, chosen, Split, split}
use hydra_sat.Pool.System.{
  Main, System, WorkerResult, main_at, expand, take_results, accept, head, submit, submitting,
  decide, collecting, test_done, test_full, test_late, finished, aborted,
}
use hydra_sat.Pool.Counted.{IfSome}
use hydra_sat.Pool.Cubes.{GoodCube, IsSafe}
use hydra_sat.Pool.Measure.{
  pending_of, sum_lits, sum_queue, sum_results, sum_workers, sum_lits-append, sum_queue-push,
  sum_lits-drain,
}

module _ (B : BipePropagator) (H : Heuristic) (f : List Lit → ℕ) where
  sum_queue-accept :
      (rs : List WorkerResult) (q : PriorityQueue)
      → sum_queue f (accept B H rs q) ≡ sum_queue f q + sum_results f rs
  unfolding accept sum_results cube_of
  sum_queue-accept [] q = omega arith
  sum_queue-accept (r ∷ rs) q = elim (Bool-cases r.sat) [
    | inl sat ↦
        rw (sat, accept, sum_results)
          (omega (
            arith,
            sum_queue-accept rs (push (cube_of r.lits) q),
            sum_queue-push f (cube_of r.lits) q,
          ))
    | inr unsat ↦ rw (unsat, accept, sum_results) (omega (arith, sum_queue-accept rs q))
  ]

  -- The measure of all the cubes, wherever they are, with those that a worker found satisfiable.
  abbrev pub total_at : Main → System B H → ℕ
  total_at m s =
      sum_lits f s.cubes
      + sum_queue f s.queue
      + sum_lits f (pending_of m)
      + sum_lits f s.jobs
      + sum_workers f s.workers
      + sum_results f s.results

  abbrev pub total : System B H → ℕ
  total s = total_at s.main s

  module _ (Good : List Lit → Type 0) (Valid : B.State → Type 0) (Ready : H.State → Type 0)
      (solve : List Lit → Bool) (limit : ℕ) where
    -- A call of createCubes on a good cube shares out its measure.
    abbrev pub Shares : Type 0
    Shares =
        (h : H.State) (c : Cube) (q : PriorityQueue) (p : B.State) (done : List (List Lit))
        (r : Split B)
        → Ready h
        → Good c.lits
        → Valid p
        → split B (chosen H h) c q p done ≡ some r
        → sum_lits f r.done + sum_queue f r.queue + sum_lits f r.pending
          ≡ sum_lits f done + sum_queue f q + f c.lits

    -- What the solver refutes has no measure.
    abbrev pub Refutes : Type 0
    Refutes = (c : List Lit) → solve c ≡ false → f c ≡ 0

    -- The total is kept, or an assertion stopped the program.
    abbrev pub Kept : ℕ → System B H → Type 0
    Kept k s = (total s ≡ k) ⊎ (s.main ≡ aborted)

    expand-Kept :
        Shares
        → (late : Bool) (q : PriorityQueue) (s : System B H) → s.queue ≡ q
        → IsSafe B H Good Valid Ready head s
        → Kept (total_at head s) (expand B H solve limit late q s)
    unfolding expand sum_queue sum_lits
    expand-Kept shares late [] s e h = inl refl
    expand-Kept shares late (c ∷ q) s e h =
        by_split (split B (chosen H s.heuristic) c q s.prop s.cubes) refl
      where
        good : All (GoodCube B H Good Valid Ready) (c ∷ q)
        good = subst (All (GoodCube B H Good Valid Ready)) e h.queue_good

        by_split :
            (r : Option (Split B))
            → split B (chosen H s.heuristic) c q s.prop s.cubes ≡ r
            → Kept (total_at head s) (expand B H solve limit late (c ∷ q) s)
        by_split none n = rw (n, expand) (inr refl)
        by_split (some r) n =
            rw (n, expand)
              (inl (
                omega (
                  arith,
                  shares s.heuristic c q s.prop s.cubes r h.heuristic_ready good.0 h.prop_valid n,
                  ap (sum_queue f) e,
                )))

    -- The end of the loop moves the queue to the output.
    drained :
        (s : System B H)
        → sum_lits f (s.cubes ++ drain s.queue)
            + sum_queue f []
            + sum_lits f []
            + sum_lits f s.jobs
            + sum_workers f s.workers
            + sum_results f s.results
          ≡ sum_lits f s.cubes
            + sum_queue f s.queue
            + sum_lits f []
            + sum_lits f s.jobs
            + sum_workers f s.workers
            + sum_results f s.results
    unfolding sum_queue
    drained s = omega (arith, sum_lits-append f s.cubes (drain s.queue), sum_lits-drain f s.queue)

    pub main_at-Kept :
        Shares
        → (late : Bool) (m : Main) (s : System B H) → IsSafe B H Good Valid Ready m s
        → IfSome (Kept (total_at m s)) (main_at B H solve limit late m s)
    unfolding main_at take_results sum_lits sum_results
    main_at-Kept shares late head s h =
        elim (Bool-cases (not late && ltb (length s.queue) limit && s.in_flight == 0)) [
          | inl go ↦ rw go (expand-Kept shares late s.queue s refl h)
          | inr wait ↦ rw wait (inl refl)
        ]
    main_at-Kept shares late (submit l []) s h = inl refl
    main_at-Kept shares late (submit l (c ∷ cs)) s h = inl refl
    main_at-Kept shares late (submitting l c cs) s h =
        inl (omega (arith, sum_lits-append f s.jobs (c ∷ [])))
    main_at-Kept shares late (decide l) s h = inl refl
    main_at-Kept shares late (collecting l block) s h = elim (Bool-cases (is_empty s.results)) [
      | inl none_yet ↦ elim (Bool-cases block) [
        | inl b ↦ rw (none_yet, b) tt
        | inr b ↦ rw (none_yet, b) (inl refl)
      ]
      | inr some_there ↦ rw some_there (inl (omega (arith, sum_queue-accept s.results s.queue)))
    ]
    main_at-Kept shares late (test_done l) s h =
        elim (Bool-cases (is_empty s.queue && s.in_flight == 0)) [
          | inl end_ ↦ rw end_ (inl refl)
          | inr on ↦ rw on (inl refl)
        ]
    main_at-Kept shares late (test_full l) s h =
        elim (Bool-cases (leb limit (length s.queue) && s.in_flight == 0)) [
          | inl end_ ↦ rw end_ (inl (drained s))
          | inr on ↦ rw on (inl refl)
        ]
    main_at-Kept shares late (test_late l) s h = elim (Bool-cases (l && s.in_flight == 0)) [
      | inl end_ ↦ rw end_ (inl (drained s))
      | inr on ↦ rw on (inl refl)
    ]
    main_at-Kept shares late (finished u) s h = elim (Bool-cases s.shutdown) [
      | inl down ↦ rw down tt
      | inr up ↦ rw up (inl refl)
    ]
    main_at-Kept shares late aborted s h = tt
