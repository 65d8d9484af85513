-- ===== src/Pool/Kept.antt =====
-- Where the cubes are in cube_generator/CubeGeneratorCLI.cpp: no step of a worker loses one, and a cube that is
-- still in `results` when the loop ends is not in the output.
use hydra_sat.Base.{
  ℕ, ◌<◌, ◌≡◌, refl, sym, ap, subst, ◌∙◌, inl, inr, Bool, List, [], ◌∷◌, none, some, if◌then◌else◌,
  Bool-cases, length, get_or, arith,
}
use hydra_sat.Formula.ProblemTypes.{Lit}
use hydra_sat.Pool.Splitter.{BipePropagator, Heuristic}
use hydra_sat.Pool.System.{
  Worker, System, main_at, main_step, worker_at, worker_step, Step, by_main, by_worker, Run, start,
  more, finished, aborted, waiting, solving, reported, ended,
}
use hydra_sat.Pool.Counted.{IfSome, IfSome-some, half_submitted, IsCounted, IsClosed, Run-IsCounted}
use hydra_sat.Pool.Cubes.{IsSafe, Keeps}
use hydra_sat.Pool.Safe.{Run-IsSafe}
use hydra_sat.Pool.Measure.{
  pending_of, sum_lits, sum_queue, sum_results, in_worker, sum_results-snoc, sum_workers-set,
  sum_workers-idle, sum_lits-none,
}
use hydra_sat.Pool.Custody.{total, Shares, Refutes, Kept, main_at-Kept}

module _ (B : BipePropagator) (H : Heuristic) (f : List Lit → ℕ) (Good : List Lit → Type 0)
    (Valid : B.State → Type 0) (Ready : H.State → Type 0) (solve : List Lit → Bool)
    (limit : ℕ) where
  -- A worker moves its cube from the jobs to the results, and the main thread is where it was.
  abbrev Handed : System B H → System B H → Type 0
  Handed s t = (total B H f t ≡ total B H f s) × (t.main ≡ s.main)

  worker_at-Handed :
      Refutes B H f Good Valid Ready solve limit
      → (i : ℕ) (w : Worker) (s : System B H) → i < length s.workers
      → get_or s.workers i ended ≡ w
      → IfSome (Handed s) (worker_at B H solve limit i w s)
  unfolding worker_at sum_lits
  worker_at-Handed refutes i waiting s lt e = by_jobs s.jobs refl
    where
      by_jobs :
          (js : List (List Lit))
          → s.jobs ≡ js
          → IfSome (Handed s) (worker_at B H solve limit i waiting s)
      by_jobs [] none_left = elim (Bool-cases s.shutdown) [
        | inl down ↦
            rw (none_left, down)
              (
                omega (
                  arith,
                  ap (sum_lits f) none_left,
                  ap (in_worker f) e,
                  sum_workers-set f s.workers i ended lt,
                ),
                refl,
              )
        | inr up ↦ rw (none_left, up) tt
      ]
      by_jobs (c ∷ cs) some_left = rw some_left (
        omega (
          arith,
          ap (sum_lits f) some_left,
          ap (in_worker f) e,
          sum_workers-set f s.workers i (solving c) lt,
        ),
        refl,
      )
  worker_at-Handed refutes i (solving c) s lt e = (
    omega (
      arith,
      ap (in_worker f) e,
      sum_workers-set f s.workers i reported lt,
      sum_results-snoc f s.results (record { lits = c; sat = solve c }),
      weighed c,
    ),
    refl,
  )
    where
      weighed : (c : List Lit) → (if solve c then f c else 0) ≡ f c
      weighed c = elim (Bool-cases (solve c)) [
        | inl sat ↦ rw sat refl
        | inr unsat ↦ rw unsat (sym (refutes c unsat))
      ]
  worker_at-Handed refutes i reported s lt e =
      (omega (arith, ap (in_worker f) e, sum_workers-set f s.workers i waiting lt), refl)
  worker_at-Handed refutes i ended s lt e = tt

  Step-Kept :
      Shares B H f Good Valid Ready solve limit
      → Refutes B H f Good Valid Ready solve limit
      → {s t : System B H} → Step B H solve limit s t
      → IsSafe B H Good Valid Ready s.main s
      → (k : ℕ) → Kept B H f Good Valid Ready solve limit k s
      → Kept B H f Good Valid Ready solve limit k t
  unfolding main_step worker_step
  Step-Kept shares refutes {s} (by_main late t e) h k (inl same) =
      elim (IfSome-some (Kept B H f Good Valid Ready solve limit (total B H f s))
        (main_step B H solve limit late s) t e
        (main_at-Kept B H f Good Valid Ready solve limit shares late s.main s h)) [
          | inl kept ↦ inl (kept ∙ same)
          | inr dead ↦ inr dead
        ]
  Step-Kept shares refutes {s} (by_main late t e) h k (inr dead) =
      let clash : none ≡ some t = ap (λ m. main_at B H solve limit late m s) (sym dead) ∙ e in
      absurd (cc clash)
  Step-Kept shares refutes {s} (by_worker i t lt e) h k kept =
      let handed : Handed s t =
        IfSome-some (Handed s) (worker_step B H solve limit i s) t e
          (worker_at-Handed refutes i (get_or s.workers i ended) s lt refl) in
      elim kept [ inl same ↦ inl (handed.0 ∙ same) | inr dead ↦ inr (handed.1 ∙ dead) ]

  Run-Kept :
      Shares B H f Good Valid Ready solve limit
      → Refutes B H f Good Valid Ready solve limit
      → Keeps B H Good Valid Ready solve limit
      → {s t : System B H} → Run B H solve limit s t
      → IsSafe B H Good Valid Ready s.main s
      → Kept B H f Good Valid Ready solve limit (total B H f s) t
  Run-Kept shares refutes keeps start h = inl refl
  Run-Kept shares refutes keeps (more r step) h =
      Step-Kept shares refutes step (Run-IsSafe B H Good Valid Ready solve limit keeps r h) _
        (Run-Kept shares refutes keeps r h)

  -- Where a call of createCubes on a good cube shares out its measure and leaves good cubes, and a cube
  -- that the solver refutes has measure 0, every run that begins with good cubes and ends the loop of
  -- `generate` with no result left uncollected has in the output cubes of the same total measure as all
  -- the cubes of the state where it began.
  pub finished_cubes :
      Shares B H f Good Valid Ready solve limit
      → Refutes B H f Good Valid Ready solve limit
      → Keeps B H Good Valid Ready solve limit
      → {s t : System B H} (unsat : Bool) → Run B H solve limit s t
      → IsCounted B H s
      → IsSafe B H Good Valid Ready s.main s
      → t.main ≡ finished unsat
      → t.results ≡ []
      → sum_lits f t.cubes ≡ total B H f s
  unfolding sum_queue sum_lits sum_results
  finished_cubes shares refutes keeps {s} {t} unsat r counted safe done_ collected =
      elim (Run-Kept shares refutes keeps r safe) [
        | inl same ↦ ending ∙ same
        | inr dead ↦ let clash : finished unsat ≡ aborted = sym done_ ∙ dead in absurd (cc clash)
      ]
    where
      ending : sum_lits f t.cubes ≡ total B H f t
      ending =
          let c : IsCounted B H t = Run-IsCounted B H solve limit r counted in
          let closed : IsClosed B H (finished unsat) t =
            subst (λ m. IsClosed B H m t) done_ c.closed in
          omega (
            arith,
            c.count,
            closed.0,
            ap half_submitted done_,
            ap (sum_queue f) closed.1,
            ap (λ m. sum_lits f (pending_of m)) done_,
            ap (sum_results f) collected,
            sum_lits-none f t.jobs (omega (arith, c.count, closed.0)),
            sum_workers-idle f t.workers (omega (arith, c.count, closed.0)),
          )
