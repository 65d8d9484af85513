-- ===== src/Pool/Cubes.antt =====
-- What holds of each cube of cube_generator/CubeGeneratorCLI.cpp, wherever it is: in the queue, in `pending`, a
-- job, with a worker, or in a result.
use hydra_sat.Base.{
  ℕ, ◌≡◌, refl, inl, inr, Bool, false, not, ◌&&◌, List, [], ◌∷◌, Option, none, some, ltb, leb, ◌==◌,
  All, All-append, All-set, Bool-cases, length, set, subst, sym,
}
use hydra_sat.Formula.ProblemTypes.{Lit}
use hydra_sat.Pool.Queue.{Cube, PriorityQueue, is_empty, push, cube_of}
use hydra_sat.Pool.Splitter.{BipePropagator, Heuristic, chosen, Split, split}
use hydra_sat.Pool.System.{
  Main, Worker, System, WorkerResult, main_at, expand, take_results, accept, head, submit,
  submitting, decide, collecting, test_done, test_full, test_late, finished, aborted, solving,
}
use hydra_sat.Pool.Measure.{pending_of}
use hydra_sat.Pool.Counted.{IfSome}

module _ (B : BipePropagator) (H : Heuristic) (Good : List Lit → Type 0) (Valid : B.State → Type 0)
    (Ready : H.State → Type 0) where
  abbrev pub GoodCube : Cube → Type 0
  GoodCube c = Good c.lits

  abbrev pub GoodResult : WorkerResult → Type 0
  GoodResult r = Good r.lits

  abbrev pub GoodWorker : Worker → Type 0
  GoodWorker (solving c) = Good c
  GoodWorker _ = Unit {0}

  -- Every cube that is not done is good, where the main thread is at `m`.
  pub record AllSafe (m : Main) (p : B.State) (h : H.State) (q : PriorityQueue)
      (jobs : List (List Lit)) (workers : List Worker) (results : List WorkerResult) : Type 0 where
    pub prop_valid : Valid p
    pub heuristic_ready : Ready h
    pub queue_good : All GoodCube q
    pub pending_good : All Good (pending_of m)
    pub jobs_good : All Good jobs
    pub workers_good : All GoodWorker workers
    pub results_good : All GoodResult results

  abbrev pub IsSafe : Main → System B H → Type 0
  IsSafe m s = AllSafe m s.prop s.heuristic s.queue s.jobs s.workers s.results

  -- The main thread moves on.
  move : {m : Main} (s : System B H) (n : Main) → IsSafe m s → All Good (pending_of n) → IsSafe n s
  move s n h g = record {
    prop_valid = h.prop_valid;
    heuristic_ready = h.heuristic_ready;
    queue_good = h.queue_good;
    pending_good = g;
    jobs_good = h.jobs_good;
    workers_good = h.workers_good;
    results_good = h.results_good;
  }

  -- The end of the loop empties the queue.
  emptied :
      {m : Main} (s : System B H)
      → IsSafe m s
      → AllSafe (finished false) s.prop s.heuristic [] s.jobs s.workers s.results
  emptied s h = record {
    prop_valid = h.prop_valid;
    heuristic_ready = h.heuristic_ready;
    queue_good = tt;
    pending_good = tt;
    jobs_good = h.jobs_good;
    workers_good = h.workers_good;
    results_good = h.results_good;
  }

  -- A worker moves on, and may take a job.
  pub with_worker :
      {m : Main} (s : System B H) (i : ℕ) (w : Worker)
      → GoodWorker w
      → IsSafe m s
      → (js : List (List Lit)) → All Good js
      → AllSafe m s.prop s.heuristic s.queue js (set s.workers i w) s.results
  with_worker s i w g h js left = record {
    prop_valid = h.prop_valid;
    heuristic_ready = h.heuristic_ready;
    queue_good = h.queue_good;
    pending_good = h.pending_good;
    jobs_good = left;
    workers_good = All-set GoodWorker s.workers i w g h.workers_good;
    results_good = h.results_good;
  }

  push-GoodCube :
      (d : Cube) (q : PriorityQueue) → GoodCube d → All GoodCube q → All GoodCube (push d q)
  unfolding push
  push-GoodCube d [] g h = (g, tt)
  push-GoodCube d (c ∷ q) g h = elim (Bool-cases (leb c.weight d.weight)) [
    | inl le ↦ rw (le, push) (h.0, push-GoodCube d q g h.1)
    | inr gt ↦ rw (gt, push) (g, h)
  ]

  accept-GoodCube :
      (rs : List WorkerResult) (q : PriorityQueue)
      → All GoodResult rs
      → All GoodCube q
      → All GoodCube (accept B H rs q)
  unfolding accept cube_of
  accept-GoodCube [] q h g = g
  accept-GoodCube (r ∷ rs) q h g = elim (Bool-cases r.sat) [
    | inl sat ↦
        rw (sat, accept)
          (accept-GoodCube rs (push (cube_of r.lits) q) h.1
            (push-GoodCube (cube_of r.lits) q h.0 g))
    | inr unsat ↦ rw (unsat, accept) (accept-GoodCube rs q h.1 g)
  ]

  module _ (solve : List Lit → Bool) (limit : ℕ) where
    -- A call of createCubes on a good cube leaves a valid propagator, good cubes, and a ready heuristic.
    abbrev pub Keeps : Type 0
    Keeps =
        (h : H.State) (c : Cube) (q : PriorityQueue) (p : B.State) (done : List (List Lit))
        (r : Split B)
        → Ready h
        → Good c.lits
        → Valid p
        → split B (chosen H h) c q p done ≡ some r
        → (r.queue ≡ q) × Valid r.prop × All Good r.pending × Ready (H.next c.lits h).1

    expand-IsSafe :
        Keeps
        → (late : Bool) (q : PriorityQueue) (s : System B H) → s.queue ≡ q
        → IsSafe head s
        → IsSafe (expand B H solve limit late q s).main (expand B H solve limit late q s)
    unfolding expand
    expand-IsSafe keeps late [] s e h = move s (decide late) h tt
    expand-IsSafe keeps late (c ∷ q) s e h =
        by_split (split B (chosen H s.heuristic) c q s.prop s.cubes) refl
      where
        good : All GoodCube (c ∷ q)
        good = subst (All GoodCube) e h.queue_good

        by_split :
            (r : Option (Split B))
            → split B (chosen H s.heuristic) c q s.prop s.cubes ≡ r
            → IsSafe
                (expand B H solve limit late (c ∷ q) s).main
                (expand B H solve limit late (c ∷ q) s)
        by_split none n = rw (n, expand) (move s aborted h tt)
        by_split (some r) n =
            let kept =
              keeps s.heuristic c q s.prop s.cubes r h.heuristic_ready good.0 h.prop_valid n in
            rw (n, expand)
              (record {
                prop_valid = kept.1;
                heuristic_ready = kept.3;
                queue_good = subst (All GoodCube) (sym kept.0) good.1;
                pending_good = kept.2;
                jobs_good = h.jobs_good;
                workers_good = h.workers_good;
                results_good = h.results_good;
              })

    pub main_at-IsSafe :
        Keeps
        → (late : Bool) (m : Main) (s : System B H) → IsSafe m s
        → IfSome (λ t. IsSafe t.main t) (main_at B H solve limit late m s)
    unfolding main_at take_results
    main_at-IsSafe keeps late head s h =
        elim (Bool-cases (not late && ltb (length s.queue) limit && s.in_flight == 0)) [
          | inl go ↦ rw go (expand-IsSafe keeps late s.queue s refl h)
          | inr wait ↦ rw wait (move s (decide late) h tt)
        ]
    main_at-IsSafe keeps late (submit l []) s h = move s (decide l) h tt
    main_at-IsSafe keeps late (submit l (c ∷ cs)) s h = move s (submitting l c cs) h h.pending_good
    main_at-IsSafe keeps late (submitting l c cs) s h = record {
      prop_valid = h.prop_valid;
      heuristic_ready = h.heuristic_ready;
      queue_good = h.queue_good;
      pending_good = h.pending_good.1;
      jobs_good = All-append Good s.jobs (c ∷ []) h.jobs_good (h.pending_good.0, tt);
      workers_good = h.workers_good;
      results_good = h.results_good;
    }
    main_at-IsSafe keeps late (decide l) s h =
        move s (collecting l (is_empty s.queue && ltb 0 s.in_flight)) h tt
    main_at-IsSafe keeps late (collecting l block) s h = elim (Bool-cases (is_empty s.results)) [
      | inl none_yet ↦ elim (Bool-cases block) [
        | inl b ↦ rw (none_yet, b) tt
        | inr b ↦ rw (none_yet, b) (move s (test_done l) h tt)
      ]
      | inr some_there ↦ rw some_there (record {
        prop_valid = h.prop_valid;
        heuristic_ready = h.heuristic_ready;
        queue_good = accept-GoodCube s.results s.queue h.results_good h.queue_good;
        pending_good = tt;
        jobs_good = h.jobs_good;
        workers_good = h.workers_good;
        results_good = tt;
      })
    ]
    main_at-IsSafe keeps late (test_done l) s h =
        elim (Bool-cases (is_empty s.queue && s.in_flight == 0)) [
          | inl end_ ↦ rw end_ (move s (finished (is_empty s.cubes)) h tt)
          | inr on ↦ rw on (move s (test_full l) h tt)
        ]
    main_at-IsSafe keeps late (test_full l) s h =
        elim (Bool-cases (leb limit (length s.queue) && s.in_flight == 0)) [
          | inl end_ ↦ rw end_ (emptied s h)
          | inr on ↦ rw on (move s (test_late l) h tt)
        ]
    main_at-IsSafe keeps late (test_late l) s h = elim (Bool-cases (l && s.in_flight == 0)) [
      | inl end_ ↦ rw end_ (emptied s h)
      | inr on ↦ rw on (move s head h tt)
    ]
    main_at-IsSafe keeps late (finished u) s h = elim (Bool-cases s.shutdown) [
      | inl down ↦ rw down tt
      | inr up ↦ rw up (move s (finished u) h tt)
    ]
    main_at-IsSafe keeps late aborted s h = tt
