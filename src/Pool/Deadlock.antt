-- ===== src/Pool/Deadlock.antt =====
-- A deadlock of cube_generator/CubeGeneratorCLI.cpp: a worker pushes its result before it counts
-- m_inFlight down, so the main thread can collect the last result, read m_inFlight above 0, and wait
-- for a result that never comes.
use hydra_sat.Base.{
  ℕ, zero, suc, ◌+◌, ◌<◌, ◌≡◌, ◌≢◌, ◌↔◌, ◌⊎◌, refl, sym, ap, ◌∙◌, inl, inr, Bool, true, false, List,
  [], ◌∷◌, Option, none, some, length, get_or, arith,
}
use hydra_sat.Formula.ProblemTypes.{Lit}
use hydra_sat.Pool.Splitter.{BipePropagator, Heuristic}
use hydra_sat.Pool.System.{
  Main, Worker, System, WorkerResult, main_at, main_step, worker_at, worker_step, Step, by_main,
  by_worker, head, submit, submitting, decide, collecting, test_done, test_full, test_late,
  finished, aborted, waiting, solving, reported, ended,
}
use hydra_sat.Pool.Counted.{half_submitted, busy, is_busy, IsCounted}

busy-get_or : (ws : List Worker) (i : ℕ) → busy ws ≡ 0 → is_busy (get_or ws i ended) ≡ 0
unfolding busy
busy-get_or [] i e = refl
busy-get_or (w ∷ ws) zero e = omega arith
busy-get_or (w ∷ ws) (suc i) e = busy-get_or ws i (omega arith)

pub some_of {ℓ} : {A : Type ℓ} (o : Option A) → o ≢ none → (a : A) × (o ≡ some a)
some_of none h = absurd (h refl)
some_of (some a) h = (a, refl)

-- Some worker is busy if their number is not 0.
find_busy :
    (ws : List Worker) → 0 < busy ws → (i : ℕ) × (i < length ws) × (0 < is_busy (get_or ws i ended))
unfolding busy
find_busy [] lt = absurd (omega arith)
find_busy (waiting ∷ ws) lt =
    let found = find_busy ws (omega arith) in (suc found.0, omega (arith, found.1), found.2)
find_busy (solving c ∷ ws) lt = (0, omega arith, omega arith)
find_busy (reported ∷ ws) lt = (0, omega arith, omega arith)
find_busy (ended ∷ ws) lt =
    let found = find_busy ws (omega arith) in (suc found.0, omega (arith, found.1), found.2)

module _ (B : BipePropagator) (H : Heuristic) where
  -- The main thread waits in collectResults, with no result there.
  abbrev pub Waits : Main → System B H → Type 0
  Waits m s = (l : Bool) × (m ≡ collecting l true) × (s.results ≡ [])

module _ (B : BipePropagator) (H : Heuristic) (solve : List Lit → Bool) (limit : ℕ) where
  worker_at-stuck :
      (i : ℕ) (w : Worker) (s : System B H)
      → is_busy w ≡ 0
      → s.jobs ≡ []
      → s.shutdown ≡ false
      → worker_at B H solve limit i w s ≡ none
  unfolding worker_at
  worker_at-stuck i waiting s idle no_job up = rw (no_job, up) refl
  worker_at-stuck i (solving c) s idle no_job up = absurd (omega arith)
  worker_at-stuck i reported s idle no_job up = absurd (omega arith)
  worker_at-stuck i ended s idle no_job up = refl

  -- Where the main thread waits in collectResults, m_inFlight is 0 and right, there is no result, and
  -- the pool is not shut down, no thread can ever take a step.
  collecting_stuck :
      (s : System B H) (l : Bool)
      → IsCounted B H s
      → s.main ≡ collecting l true
      → s.in_flight ≡ 0
      → s.results ≡ []
      → s.shutdown ≡ false
      → (t : System B H) → ¬ Step B H solve limit s t
  unfolding main_step worker_step main_at
  collecting_stuck s l c waits none_in_flight no_result up t (by_main late t' e) =
      let stuck : main_at B H solve limit late s.main s ≡ none =
        ap (λ m. main_at B H solve limit late m s) waits ∙ rw no_result refl in
      let clash : none ≡ some t' = sym stuck ∙ e in cc clash
  collecting_stuck s l c waits none_in_flight no_result up t (by_worker i t' lt e) =
      let stuck : worker_at B H solve limit i (get_or s.workers i ended) s ≡ none =
        worker_at-stuck i (get_or s.workers i ended) s
          (busy-get_or s.workers i (omega (arith, c.count, none_in_flight)))
          (empty s.jobs (omega (arith, c.count, none_in_flight))) up in
      let clash : none ≡ some t' = sym stuck ∙ e in cc clash
    where
      empty : (js : List (List Lit)) → length js ≡ 0 → js ≡ []
      empty [] h = refl
      empty (j ∷ js) h = absurd (omega arith)

  pub main_at-some :
      (m : Main) (s : System B H)
      → m ≢ aborted
      → s.shutdown ≡ false
      → Waits B H m s ⊎ (main_at B H solve limit false m s ≢ none)
  unfolding main_at
  main_at-some head s alive up = inr (λ e. cc e)
  main_at-some (submit l []) s alive up = inr (λ e. cc e)
  main_at-some (submit l (c ∷ cs)) s alive up = inr (λ e. cc e)
  main_at-some (submitting l c cs) s alive up = inr (λ e. cc e)
  main_at-some (decide l) s alive up = inr (λ e. cc e)
  main_at-some (collecting l block) s alive up = by_results s.results block refl
    where
      by_results :
          (rs : List WorkerResult) (b : Bool)
          → s.results ≡ rs
          → Waits B H (collecting l b) s ⊎ (main_at B H solve limit false (collecting l b) s ≢ none)
      by_results [] true e = inl (l, refl, e)
      by_results [] false e = inr (rw e (λ n. cc n))
      by_results (r ∷ rs) b e = inr (rw e (λ n. cc n))
  main_at-some (test_done l) s alive up = inr (λ e. cc e)
  main_at-some (test_full l) s alive up = inr (λ e. cc e)
  main_at-some (test_late l) s alive up = inr (λ e. cc e)
  main_at-some (finished u) s alive up = inr (rw up (λ n. cc n))
  main_at-some aborted s alive up = absurd (alive refl)

  worker_at-some :
      (i : ℕ) (w : Worker) (s : System B H)
      → w ≢ ended
      → 0 < length s.jobs + is_busy w
      → worker_at B H solve limit i w s ≢ none
  unfolding worker_at
  worker_at-some i waiting s alive lt = by_jobs s.jobs refl
    where
      by_jobs : (js : List (List Lit)) → s.jobs ≡ js → worker_at B H solve limit i waiting s ≢ none
      by_jobs [] e = absurd (omega (arith, ap length e))
      by_jobs (c ∷ cs) e = rw e (λ n. cc n)
  worker_at-some i (solving c) s alive lt = λ n. cc n
  worker_at-some i reported s alive lt = λ n. cc n
  worker_at-some i ended s alive lt = absurd (alive refl)

  busy-alive : (w : Worker) → 0 < is_busy w → w ≢ ended
  busy-alive w lt e = omega (arith, ap is_busy e)

  -- A job, or a busy worker, lets a worker step.
  worker_steps :
      (s : System B H) (i : ℕ)
      → i < length s.workers
      → get_or s.workers i ended ≢ ended
      → 0 < length s.jobs + busy s.workers
      → (t : System B H) × Step B H solve limit s t
  unfolding worker_step
  worker_steps s i lt alive work = elim (zero_or_pos (busy s.workers)) [
    | inl idle ↦
        let moved =
          some_of (worker_step B H solve limit i s)
            (worker_at-some i (get_or s.workers i ended) s alive (omega (arith, idle))) in
        (moved.0, by_worker i moved.0 lt moved.1)
    | inr some_busy ↦
        let found = find_busy s.workers some_busy in
        let moved = some_of (worker_step B H solve limit found.0 s) (
          worker_at-some found.0 (get_or s.workers found.0 ended) s
            (busy-alive (get_or s.workers found.0 ended) found.2) (omega (arith, found.2))) in
        (moved.0, by_worker found.0 moved.0 found.1 moved.1)
  ]
    where
      zero_or_pos : (n : ℕ) → (n ≡ 0) ⊎ (0 < n)
      zero_or_pos zero = inl refl
      zero_or_pos (suc n) = inr (omega arith)

  -- Where m_inFlight is right, no assertion stopped the program, the pool is not shut down and some worker
  -- has not ended, no thread can ever take a step exactly when the main thread waits in collectResults, no
  -- result is there, and m_inFlight is 0.
  pub deadlock_iff :
      (s : System B H) (i : ℕ)
      → IsCounted B H s
      → s.main ≢ aborted
      → s.shutdown ≡ false
      → i < length s.workers
      → get_or s.workers i ended ≢ ended
      → ((t : System B H) → ¬ Step B H solve limit s t) ↔ (Waits B H s.main s × (s.in_flight ≡ 0))
  unfolding main_step
  deadlock_iff s i c alive up lt works = (
    λ stuck. elim (main_at-some s.main s alive up) [
      | inl waits ↦ (waits, none_in_flight stuck waits (s.in_flight) refl)
      | inr moves ↦
          let moved = some_of (main_step B H solve limit false s) moves in
          absurd (stuck moved.0 (by_main false moved.0 moved.1))
    ],
    λ h. collecting_stuck s h.0.0 c h.0.1 h.1 h.0.2 up,
  )
    where
      none_in_flight :
          ((t : System B H) → ¬ Step B H solve limit s t)
          → Waits B H s.main s
          → (n : ℕ) → s.in_flight ≡ n
          → n ≡ 0
      none_in_flight stuck waits zero e = refl
      none_in_flight stuck waits (suc n) e =
          let moved =
            worker_steps s i lt works (omega (arith, c.count, e, ap half_submitted waits.1)) in
          absurd (stuck moved.0 moved.1)
