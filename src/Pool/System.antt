-- ===== src/Pool/System.antt =====
-- The threads of cube_generator/CubeGeneratorCLI.cpp: the main thread in `generate` and the workers in
-- `workerLoop`, as steps between the points where another thread can come in.
-- A step is one critical section, or one access of the atomic m_inFlight with the code of the thread's
-- own that follows it. A wait on a condition variable goes on when its condition holds.
use hydra_sat.Base.{
  ℕ, ◌+◌, ◌-◌, ◌<◌, ◌≡◌, Bool, true, false, not, ◌&&◌, List, [], ◌∷◌, ◌++◌, Option, none, some,
  if◌then◌else◌, ltb, leb, ◌==◌, length, get_or, set, replicate,
}
use hydra_sat.Formula.ProblemTypes.{Lit}
use hydra_sat.Pool.Queue.{PriorityQueue, cube_of, push, is_empty, drain}
use hydra_sat.Pool.Splitter.{BipePropagator, Heuristic, chosen, split, init_queue}

pub record WorkerResult : Type 0 where
  pub lits : List Lit
  pub sat : Bool

-- Where the main thread is: at the head of the loop; before and after ++m_inFlight of submitSATCheck,
-- with the cubes of `pending` that are left; before the test of mustBlock; in collectResults; before
-- the three tests that end the loop; past the loop; stopped by an assertion. `time_up` is the local.
pub data Main : Type 0 where
  head : Main
  submit : Bool → List (List Lit) → Main
  submitting : Bool → List Lit → List (List Lit) → Main
  decide : Bool → Main
  collecting : Bool → Bool → Main
  test_done test_full test_late : Bool → Main
  finished : Bool → Main
  aborted : Main

-- Where a worker is: waiting for a job; solving; before --m_inFlight, with its result pushed; ended.
pub data Worker : Type 0 where
  waiting : Worker
  solving : List Lit → Worker
  reported : Worker
  ended : Worker

module _ (B : BipePropagator) (H : Heuristic) where
  pub record System : Type 0 where
    pub main : Main
    pub prop : B.State
    pub heuristic : H.State
    pub cubes : List (List Lit)
    pub queue : PriorityQueue
    pub jobs : List (List Lit)
    pub results : List WorkerResult
    pub in_flight : ℕ
    pub shutdown : Bool
    pub workers : List Worker

  -- `generate` from the heuristic that it makes up to its loop: `k` threads wait, and the queue has the literals that the propagator finds.
  unfoldable pub begin : H.State → (k n : ℕ) → List (List Lit) → System
  unfolding init_queue
  begin h k n cs = record {
    main = head;
    prop = (init_queue B n cs).0;
    heuristic = h;
    cubes = [];
    queue = (init_queue B n cs).1;
    jobs = [];
    results = [];
    in_flight = 0;
    shutdown = false;
    workers = replicate k waiting;
  }

  -- if (r.sat) queue.push(...) for each result.
  unfoldable pub accept : List WorkerResult → PriorityQueue → PriorityQueue
  accept [] q = q
  accept (r ∷ rs) q = accept rs (if r.sat then push (cube_of r.lits) q else q)

  -- The parameters: the SAT solver of the workers, and limitNbCubes.
  module _ (solve : List Lit → Bool) (limit : ℕ) where
    -- createCubes on the top of the queue, and on to the submission of `pending`.
    unfoldable pub expand : Bool → PriorityQueue → System → System
    expand late [] s = record s { main = decide late }
    expand late (c ∷ q) s = elim (split B (chosen H s.heuristic) c q s.prop s.cubes) [
      | none ↦ record s { main = aborted }
      | some r ↦ record s {
        main = submit late r.pending;
        prop = r.prop;
        heuristic = (H.next c.lits s.heuristic).1;
        cubes = r.done;
        queue = r.queue;
      }
    ]

    -- collectResults, once it has the lock and does not wait.
    unfoldable pub take_results : Bool → System → System
    unfolding accept
    take_results late s = record s {
      main = test_done late;
      queue = accept s.results s.queue;
      results = [];
    }

    -- A step of the main thread; `late` is what the clock says at the head of the loop. `none` if the
    -- thread waits or is at its end.
    unfoldable pub main_at : Bool → Main → System → Option System
    unfolding expand take_results drain
    main_at late m s = elim m [
      | head ↦ some (
          if not late && ltb (length s.queue) limit && s.in_flight == 0
          then expand late s.queue s
          else record s { main = decide late })
      | submit l [] ↦ some (record s { main = decide l })
      | submit l (c ∷ cs) ↦
          some (record s { main = submitting l c cs; in_flight = s.in_flight + 1 })
      | submitting l c cs ↦ some (record s { main = submit l cs; jobs = s.jobs ++ c ∷ [] })
      | decide l ↦ some (record s { main = collecting l (is_empty s.queue && ltb 0 s.in_flight) })
      | collecting l block ↦
          if is_empty s.results
          then if block then none else some (record s { main = test_done l })
          else some (take_results l s)
      | test_done l ↦ some (
          if is_empty s.queue && s.in_flight == 0
          then record s { main = finished (is_empty s.cubes) }
          else record s { main = test_full l })
      | test_full l ↦ some (
          if leb limit (length s.queue) && s.in_flight == 0
          then record s { main = finished false; cubes = s.cubes ++ drain s.queue; queue = [] }
          else record s { main = test_late l })
      | test_late l ↦ some (
          if l && s.in_flight == 0
          then record s { main = finished false; cubes = s.cubes ++ drain s.queue; queue = [] }
          else record s { main = head })
      | finished u ↦
          if s.shutdown then none else some (record s { main = finished u; shutdown = true })
      | aborted ↦ none
    ]

    unfoldable pub main_step : Bool → System → Option System
    unfolding main_at
    main_step late s = main_at late s.main s

    -- A step of worker number `i`; `none` if it waits or has ended.
    unfoldable pub worker_at : ℕ → Worker → System → Option System
    worker_at i w s = elim w [
      | waiting ↦ elim s.jobs [
        | [] ↦ if s.shutdown then some (record s { workers = set s.workers i ended }) else none
        | c ∷ cs ↦ some (record s { jobs = cs; workers = set s.workers i (solving c) })
      ]
      | solving c ↦ some (record s {
        results = s.results ++ (record { lits = c; sat = solve c }) ∷ [];
        workers = set s.workers i reported;
      })
      | reported ↦
          some (record s { in_flight = s.in_flight - 1; workers = set s.workers i waiting })
      | ended ↦ none
    ]

    unfoldable pub worker_step : ℕ → System → Option System
    unfolding worker_at
    worker_step i s = worker_at i (get_or s.workers i ended) s

    -- One step of one thread.
    pub data Step (s : System) : System → Type 0 where
      by_main : (late : Bool) (t : System) → main_step late s ≡ some t → Step s t
      by_worker : (i : ℕ) (t : System) → i < length s.workers → worker_step i s ≡ some t → Step s t

    -- A run of the program.
    pub data Run (s : System) : System → Type 0 where
      start : Run s s
      more : {t u : System} → Run s t → Step t u → Run s u
