-- ===== src/Pool/Stops.antt =====
-- How a run of cube_generator/CubeGeneratorCLI.cpp can stop.
use hydra_sat.Base.{
  ℕ, ◌<◌, ◌≡◌, ◌≢◌, refl, ◌⊎◌, inl, inr, Bool, true, false, List, [], ◌∷◌, none, All, Bool-cases,
  length, get_or, arith,
}
use hydra_sat.Formula.ProblemTypes.{Lit}
use hydra_sat.Pool.Splitter.{BipePropagator, Heuristic}
use hydra_sat.Pool.System.{
  Main, Worker, System, worker_at, worker_step, Step, by_worker, Run, head, submit, submitting,
  decide, collecting, test_done, test_full, test_late, finished, aborted, waiting, solving,
  reported, ended,
}
use hydra_sat.Pool.Counted.{IsCounted, Run-IsCounted}
use hydra_sat.Pool.Deadlock.{Waits, deadlock_iff, some_of}
use hydra_sat.Pool.Shutdown.{IsLooping, IsAlive, IsOrderly, Run-IsOrderly}

worker_cases : (w : Worker) → (w ≡ ended) ⊎ IsAlive w
worker_cases waiting = inr (λ e. cc e)
worker_cases (solving c) = inr (λ e. cc e)
worker_cases reported = inr (λ e. cc e)
worker_cases ended = inl refl

-- Past the loop, stopped by an assertion, or neither.
past_or_looping :
    (m : Main) (b : Bool)
    → IsLooping m b
    → ((u : Bool) × (m ≡ finished u)) ⊎ ((m ≡ aborted) ⊎ ((b ≡ false) × (m ≢ aborted)))
past_or_looping (finished u) b h = inl (u, refl)
past_or_looping aborted b h = inr (inl refl)
past_or_looping head b h = inr (inr (h, λ e. cc e))
past_or_looping (submit l cs) b h = inr (inr (h, λ e. cc e))
past_or_looping (submitting l c cs) b h = inr (inr (h, λ e. cc e))
past_or_looping (decide l) b h = inr (inr (h, λ e. cc e))
past_or_looping (collecting l block) b h = inr (inr (h, λ e. cc e))
past_or_looping (test_done l) b h = inr (inr (h, λ e. cc e))
past_or_looping (test_full l) b h = inr (inr (h, λ e. cc e))
past_or_looping (test_late l) b h = inr (inr (h, λ e. cc e))

module _ (B : BipePropagator) (H : Heuristic) (solve : List Lit → Bool) (limit : ℕ) where
  -- Once the pool is shut down, a worker that has not ended can move on.
  worker_at-down :
      (i : ℕ) (w : Worker) (s : System B H)
      → IsAlive w
      → s.shutdown ≡ true
      → worker_at B H solve limit i w s ≢ none
  unfolding worker_at
  worker_at-down i waiting s alive down = by_jobs s.jobs refl
    where
      by_jobs : (js : List (List Lit)) → s.jobs ≡ js → worker_at B H solve limit i waiting s ≢ none
      by_jobs [] e = rw (e, down) (λ n. cc n)
      by_jobs (c ∷ cs) e = rw e (λ n. cc n)
  worker_at-down i (solving c) s alive down = λ n. cc n
  worker_at-down i reported s alive down = λ n. cc n
  worker_at-down i ended s alive down = absurd (alive refl)

  -- No thread can take a step.
  abbrev pub IsStuck : System B H → Type 0
  IsStuck s = (t : System B H) → ¬ Step B H solve limit s t

  all_ended :
      (s : System B H)
      → IsStuck s
      → s.shutdown ≡ true
      → (i : ℕ) → i < length s.workers
      → get_or s.workers i ended ≡ ended
  unfolding worker_step
  all_ended s stuck down i lt = elim (worker_cases (get_or s.workers i ended)) [
    | inl e ↦ e
    | inr alive ↦
        let moved =
          some_of (worker_step B H solve limit i s)
            (worker_at-down i (get_or s.workers i ended) s alive down) in
        absurd (stuck moved.0 (by_worker i moved.0 lt moved.1))
  ]

  -- The three ways for the program to stop.
  abbrev pub Stopped : Main → System B H → Type 0
  Stopped m s =
      (Waits B H m s × (s.in_flight ≡ 0))
      ⊎ ((m ≡ aborted)
          ⊎ ((u : Bool) × (m ≡ finished u)
              × ((i : ℕ) → i < length s.workers → get_or s.workers i ended ≡ ended)))

  -- A run from a state in which m_inFlight is right, the pool is not shut down before the loop ends, no
  -- worker ends before that and there is a worker, can stop in three ways only: an assertion has stopped
  -- the program; or the loop of `generate` has ended and so has every worker; or the main thread waits
  -- in collectResults with no result there and m_inFlight at 0.
  pub run_stops :
      {s t : System B H}
      → Run B H solve limit s t
      → IsCounted B H s
      → IsOrderly B H s
      → IsStuck t
      → Stopped t.main t
  run_stops {s} {t} r counted orderly stuck =
      elim (past_or_looping t.main t.shutdown after.looping) [
        | inl (u, e) ↦ elim (Bool-cases t.shutdown) [
          | inl down ↦ inr (inr (u, e, all_ended t stuck down))
          | inr up ↦ in_loop up (λ dead. cc (e, dead))
        ]
        | inr (inl dead) ↦ inr (inl dead)
        | inr (inr (up, going)) ↦ in_loop up going
      ]
    where
      after : IsOrderly B H t
      after = Run-IsOrderly B H solve limit r orderly

      first_alive :
          (ws : List Worker) → 0 < length ws → All IsAlive ws → IsAlive (get_or ws 0 ended)
      first_alive [] lt h = absurd (omega arith)
      first_alive (w ∷ ws) lt h = h.0

      in_loop : t.shutdown ≡ false → t.main ≢ aborted → Stopped t.main t
      in_loop up going = inl (
          (deadlock_iff B H solve limit t 0 (Run-IsCounted B H solve limit r counted) going up
              after.manned
              (elim after.alive [
                | inl all ↦ first_alive t.workers after.manned all
                | inr down ↦ absurd (cc (up, down))
              ])).0
            stuck)
