-- ===== src/Pool/Safe.antt =====
-- In every run of cube_generator/CubeGeneratorCLI.cpp the cubes stay as Pool.Cubes has them.
use hydra_sat.Base.{
  ℕ, ◌≡◌, refl, inl, inr, Bool, List, [], ◌∷◌, All, All-append, All-get_or, Bool-cases, get_or,
  subst,
}
use hydra_sat.Formula.ProblemTypes.{Lit}
use hydra_sat.Pool.Splitter.{BipePropagator, Heuristic}
use hydra_sat.Pool.System.{
  Worker, System, main_step, worker_at, worker_step, Step, by_main, by_worker, Run, start, more,
  waiting, solving, reported, ended,
}
use hydra_sat.Pool.Counted.{IfSome, IfSome-some}
use hydra_sat.Pool.Cubes.{GoodWorker, GoodResult, IsSafe, Keeps, with_worker, main_at-IsSafe}

module _ (B : BipePropagator) (H : Heuristic) (Good : List Lit → Type 0) (Valid : B.State → Type 0)
    (Ready : H.State → Type 0) (solve : List Lit → Bool) (limit : ℕ) where
  worker_at-IsSafe :
      (i : ℕ) (w : Worker) (s : System B H)
      → GoodWorker B H Good Valid Ready w
      → IsSafe B H Good Valid Ready s.main s
      → IfSome (λ t. IsSafe B H Good Valid Ready t.main t) (worker_at B H solve limit i w s)
  unfolding worker_at
  worker_at-IsSafe i waiting s g h = by_jobs s.jobs refl
    where
      by_jobs :
          (js : List (List Lit))
          → s.jobs ≡ js
          → IfSome
              (λ t. IsSafe B H Good Valid Ready t.main t)
              (worker_at B H solve limit i waiting s)
      by_jobs [] none_left = elim (Bool-cases s.shutdown) [
        | inl down ↦ rw (none_left, down) (with_worker B H Good Valid Ready s i ended tt h [] tt)
        | inr up ↦ rw (none_left, up) tt
      ]
      by_jobs (c ∷ cs) some_left =
          let good : All Good (c ∷ cs) = subst (All Good) some_left h.jobs_good in
          rw some_left (with_worker B H Good Valid Ready s i (solving c) good.0 h cs good.1)
  worker_at-IsSafe i (solving c) s g h =
      let moved = with_worker B H Good Valid Ready s i reported tt h s.jobs h.jobs_good in
      record {
        prop_valid = h.prop_valid;
        heuristic_ready = h.heuristic_ready;
        queue_good = h.queue_good;
        pending_good = h.pending_good;
        jobs_good = h.jobs_good;
        workers_good = moved.workers_good;
        results_good =
            All-append (GoodResult B H Good Valid Ready) s.results
              ((record { lits = c; sat = solve c }) ∷ []) h.results_good (g, tt);
      }
  worker_at-IsSafe i reported s g h =
      with_worker B H Good Valid Ready s i waiting tt h s.jobs h.jobs_good
  worker_at-IsSafe i ended s g h = tt

  Step-IsSafe :
      Keeps B H Good Valid Ready solve limit
      → {s t : System B H} → Step B H solve limit s t
      → IsSafe B H Good Valid Ready s.main s
      → IsSafe B H Good Valid Ready t.main t
  unfolding main_step worker_step
  Step-IsSafe keeps {s} (by_main late t e) h =
      IfSome-some (λ t. IsSafe B H Good Valid Ready t.main t) (main_step B H solve limit late s) t e
        (main_at-IsSafe B H Good Valid Ready solve limit keeps late s.main s h)
  Step-IsSafe keeps {s} (by_worker i t lt e) h =
      IfSome-some (λ t. IsSafe B H Good Valid Ready t.main t) (worker_step B H solve limit i s) t e
        (worker_at-IsSafe i (get_or s.workers i ended) s
          (All-get_or (GoodWorker B H Good Valid Ready) s.workers i ended tt h.workers_good) h)

  -- Cubes stay good, the propagator valid and the heuristic ready, in every run.
  pub Run-IsSafe :
      Keeps B H Good Valid Ready solve limit
      → {s t : System B H} → Run B H solve limit s t
      → IsSafe B H Good Valid Ready s.main s
      → IsSafe B H Good Valid Ready t.main t
  Run-IsSafe keeps start h = h
  Run-IsSafe keeps (more r step) h = Step-IsSafe keeps step (Run-IsSafe keeps r h)
