-- ===== src/Pool/Shutdown.antt =====
-- The pool of cube_generator/CubeGeneratorCLI.cpp is shut down past the loop of `generate` only, and the
-- workers end after that.
use hydra_sat.Base.{
  ℕ, ◌<◌, ◌≡◌, ◌≢◌, refl, sym, ap, subst, ◌⊎◌, inl, inr, Bool, true, false, not, ◌&&◌, List, [],
  ◌∷◌, Option, none, some, ltb, leb, ◌==◌, All, Bool-cases, length, get_or, set, All-set,
  length-set, arith,
}
use hydra_sat.Formula.ProblemTypes.{Lit}
use hydra_sat.Pool.Queue.{PriorityQueue, is_empty}
use hydra_sat.Pool.Splitter.{BipePropagator, Heuristic, chosen, Split, split}
use hydra_sat.Pool.System.{
  Main, Worker, System, main_at, main_step, worker_at, worker_step, expand, take_results, Step,
  by_main, by_worker, Run, start, more, head, submit, submitting, decide, collecting, test_done,
  test_full, test_late, finished, aborted, waiting, solving, reported, ended,
}
use hydra_sat.Pool.Counted.{IfSome, IfSome-some}

-- The pool is not shut down before the loop ends.
abbrev pub IsLooping : Main → Bool → Type 0
IsLooping (finished u) b = Unit {0}
IsLooping _ b = b ≡ false

abbrev pub IsAlive : Worker → Type 0
IsAlive w = w ≢ ended

module _ (B : BipePropagator) (H : Heuristic) where
  pub record IsOrderly (s : System B H) : Type 0 where
    pub looping : IsLooping s.main s.shutdown
    pub alive : All IsAlive s.workers ⊎ (s.shutdown ≡ true)
    pub manned : 0 < length s.workers

  -- What a step of the main thread does to the pool.
  record Leads (s t : System B H) : Type 0 where
    looping : IsLooping t.main t.shutdown
    workers : t.workers ≡ s.workers
    down : s.shutdown ≡ true → t.shutdown ≡ true

  module _ (solve : List Lit → Bool) (limit : ℕ) where
    expand-Leads :
        (late : Bool) (q : PriorityQueue) (s : System B H)
        → s.shutdown ≡ false
        → Leads s (expand B H solve limit late q s)
    unfolding expand
    expand-Leads late [] s up = record { looping = up; workers = refl; down = λ e. e }
    expand-Leads late (c ∷ q) s up =
        by_split (split B (chosen H s.heuristic) c q s.prop s.cubes) refl
      where
        by_split :
            (r : Option (Split B))
            → split B (chosen H s.heuristic) c q s.prop s.cubes ≡ r
            → Leads s (expand B H solve limit late (c ∷ q) s)
        by_split none e = rw (e, expand) (record { looping = up; workers = refl; down = λ e. e })
        by_split (some r) e =
            rw (e, expand) (record { looping = up; workers = refl; down = λ e. e })

    main_at-Leads :
        (late : Bool) (m : Main) (s : System B H)
        → IsLooping m s.shutdown
        → IfSome (Leads s) (main_at B H solve limit late m s)
    unfolding main_at take_results
    main_at-Leads late head s up =
        elim (Bool-cases (not late && ltb (length s.queue) limit && s.in_flight == 0)) [
          | inl go ↦ rw go (expand-Leads late s.queue s up)
          | inr wait ↦ rw wait (record { looping = up; workers = refl; down = λ e. e })
        ]
    main_at-Leads late (submit l []) s up = record { looping = up; workers = refl; down = λ e. e }
    main_at-Leads late (submit l (c ∷ cs)) s up = record {
      looping = up;
      workers = refl;
      down = λ e. e;
    }
    main_at-Leads late (submitting l c cs) s up = record {
      looping = up;
      workers = refl;
      down = λ e. e;
    }
    main_at-Leads late (decide l) s up = record { looping = up; workers = refl; down = λ e. e }
    main_at-Leads late (collecting l block) s up = elim (Bool-cases (is_empty s.results)) [
      | inl none_yet ↦ elim (Bool-cases block) [
        | inl b ↦ rw (none_yet, b) tt
        | inr b ↦ rw (none_yet, b) (record { looping = up; workers = refl; down = λ e. e })
      ]
      | inr some_there ↦ rw some_there (record { looping = up; workers = refl; down = λ e. e })
    ]
    main_at-Leads late (test_done l) s up =
        elim (Bool-cases (is_empty s.queue && s.in_flight == 0)) [
          | inl end_ ↦ rw end_ (record { looping = tt; workers = refl; down = λ e. e })
          | inr on ↦ rw on (record { looping = up; workers = refl; down = λ e. e })
        ]
    main_at-Leads late (test_full l) s up =
        elim (Bool-cases (leb limit (length s.queue) && s.in_flight == 0)) [
          | inl end_ ↦ rw end_ (record { looping = tt; workers = refl; down = λ e. e })
          | inr on ↦ rw on (record { looping = up; workers = refl; down = λ e. e })
        ]
    main_at-Leads late (test_late l) s up = elim (Bool-cases (l && s.in_flight == 0)) [
      | inl end_ ↦ rw end_ (record { looping = tt; workers = refl; down = λ e. e })
      | inr on ↦ rw on (record { looping = up; workers = refl; down = λ e. e })
    ]
    main_at-Leads late (finished u) s up = elim (Bool-cases s.shutdown) [
      | inl down ↦ rw down tt
      | inr open_ ↦ rw open_ (record { looping = tt; workers = refl; down = λ e. refl })
    ]
    main_at-Leads late aborted s up = tt

    -- A worker that goes on living.
    moved_on :
        (s : System B H) (i : ℕ) (w : Worker)
        → IsAlive w
        → All IsAlive s.workers ⊎ (s.shutdown ≡ true)
        → All IsAlive (set s.workers i w) ⊎ (s.shutdown ≡ true)
    moved_on s i w p (inl h) = inl (All-set IsAlive s.workers i w p h)
    moved_on s i w p (inr down) = inr down

    manned-set :
        (s : System B H) (i : ℕ) (w : Worker)
        → 0 < length s.workers
        → 0 < length (set s.workers i w)
    manned-set s i w lt = omega (arith, length-set s.workers i w)

    worker_at-IsOrderly :
        (i : ℕ) (w : Worker) (s : System B H)
        → IsOrderly s
        → IfSome IsOrderly (worker_at B H solve limit i w s)
    unfolding worker_at
    worker_at-IsOrderly i waiting s h = by_jobs s.jobs refl
      where
        by_jobs :
            (js : List (List Lit))
            → s.jobs ≡ js
            → IfSome IsOrderly (worker_at B H solve limit i waiting s)
        by_jobs [] none_left = elim (Bool-cases s.shutdown) [
          | inl down ↦
              rw (none_left, down)
                (record {
                  looping = subst (IsLooping s.main) down h.looping;
                  alive = inr refl;
                  manned = manned-set s i ended h.manned;
                })
          | inr up ↦ rw (none_left, up) tt
        ]
        by_jobs (c ∷ cs) some_left = rw some_left (record {
          looping = h.looping;
          alive = moved_on s i (solving c) (λ e. cc e) h.alive;
          manned = manned-set s i (solving c) h.manned;
        })
    worker_at-IsOrderly i (solving c) s h = record {
      looping = h.looping;
      alive = moved_on s i reported (λ e. cc e) h.alive;
      manned = manned-set s i reported h.manned;
    }
    worker_at-IsOrderly i reported s h = record {
      looping = h.looping;
      alive = moved_on s i waiting (λ e. cc e) h.alive;
      manned = manned-set s i waiting h.manned;
    }
    worker_at-IsOrderly i ended s h = tt

    Step-IsOrderly : {s t : System B H} → Step B H solve limit s t → IsOrderly s → IsOrderly t
    unfolding main_step worker_step
    Step-IsOrderly {s} (by_main late t e) h =
        let led : Leads s t =
          IfSome-some (Leads s) (main_step B H solve limit late s) t e
            (main_at-Leads late s.main s h.looping) in
        record {
          looping = led.looping;
          alive = elim h.alive [
            | inl all ↦ inl (subst (All IsAlive) (sym led.workers) all)
            | inr down ↦ inr (led.down down)
          ];
          manned = omega (arith, h.manned, ap length led.workers);
        }
    Step-IsOrderly {s} (by_worker i t lt e) h =
        IfSome-some IsOrderly (worker_step B H solve limit i s) t e
          (worker_at-IsOrderly i (get_or s.workers i ended) s h)

    pub Run-IsOrderly : {s t : System B H} → Run B H solve limit s t → IsOrderly s → IsOrderly t
    Run-IsOrderly start h = h
    Run-IsOrderly (more r step) h = Step-IsOrderly step (Run-IsOrderly r h)
