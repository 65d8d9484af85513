-- ===== src/Pool/Counted.antt =====
-- The count m_inFlight of cube_generator/CubeGeneratorCLI.cpp: it is the number of cubes that were
-- submitted and whose worker is not done with them.
use hydra_sat.Base.{
  ℕ, zero, suc, ◌+◌, ◌≤◌, ◌<◌, ◌≡◌, refl, ap, subst, ◌∙◌, inl, inr, Bool, true, not, ◌&&◌, List, [],
  ◌∷◌, Option, none, some, ltb, leb, ◌==◌, Bool-cases, and-eq-true, length, get_or, set,
  length-append, arith,
}
use hydra_sat.Formula.ProblemTypes.{Lit}
use hydra_sat.Pool.Queue.{PriorityQueue, is_empty}
use hydra_sat.Pool.Splitter.{BipePropagator, Heuristic, chosen, Split, split}
use hydra_sat.Pool.System.{
  Main, Worker, System, main_at, main_step, worker_at, worker_step, expand, take_results, Step,
  by_main, by_worker, Run, start, more, head, submit, submitting, decide, collecting, test_done,
  test_full, test_late, finished, aborted, waiting, solving, reported, ended,
}

-- What a step leaves, if there is a step.
abbrev pub IfSome {ℓ κ} : {A : Type ℓ} → (A → Type κ) → Option A → Type κ
IfSome P none = Unit
IfSome P (some a) = P a

pub IfSome-some {ℓ κ} :
    {A : Type ℓ} (P : A → Type κ) (o : Option A) (a : A) → o ≡ some a → IfSome P o → P a
IfSome-some P o a e h = subst (IfSome P) e h

abbrev pub is_busy : Worker → ℕ
is_busy waiting = 0
is_busy (solving c) = 1
is_busy reported = 1
is_busy ended = 0

unfoldable pub busy : List Worker → ℕ
busy [] = 0
busy (w ∷ ws) = is_busy w + busy ws

-- A cube that is counted and not yet a job.
abbrev pub half_submitted : Main → ℕ
half_submitted (submitting l c cs) = 1
half_submitted _ = 0

pub busy-set :
    (ws : List Worker) (i : ℕ) (w : Worker)
    → i < length ws
    → busy (set ws i w) + is_busy (get_or ws i ended) ≡ busy ws + is_busy w
unfolding busy
busy-set [] i w lt = elim lt [ ]
busy-set (x ∷ ws) zero w lt = omega arith
busy-set (x ∷ ws) (suc i) w lt = omega (arith, busy-set ws i w (omega arith))

module _ (B : BipePropagator) (H : Heuristic) where
  -- The loop ends with nothing in flight and the queue empty, and with `unsat` only if there is no cube.
  abbrev pub IsClosed : Main → System B H → Type 0
  IsClosed (finished u) s = (s.in_flight ≡ 0) × (s.queue ≡ []) × (u ≡ true → s.cubes ≡ [])
  IsClosed _ s = Unit {0}

  pub record IsCounted (s : System B H) : Type 0 where
    pub count : s.in_flight ≡ length s.jobs + busy s.workers + half_submitted s.main
    pub closed : IsClosed s.main s

  IsClosed-le :
      (m : Main) (s t : System B H)
      → t.in_flight ≤ s.in_flight
      → t.queue ≡ s.queue
      → t.cubes ≡ s.cubes
      → IsClosed m s
      → IsClosed m t
  IsClosed-le (finished u) s t le e d o = (omega (arith, o.0), e ∙ o.1, λ h. d ∙ o.2 h)
  IsClosed-le head s t le e d o = tt
  IsClosed-le (submit l cs) s t le e d o = tt
  IsClosed-le (submitting l c cs) s t le e d o = tt
  IsClosed-le (decide l) s t le e d o = tt
  IsClosed-le (collecting l b) s t le e d o = tt
  IsClosed-le (test_done l) s t le e d o = tt
  IsClosed-le (test_full l) s t le e d o = tt
  IsClosed-le (test_late l) s t le e d o = tt
  IsClosed-le aborted s t le e d o = tt

  module _ (solve : List Lit → Bool) (limit : ℕ) where
    expand-IsCounted :
        (late : Bool) (q : PriorityQueue) (s : System B H)
        → s.in_flight ≡ length s.jobs + busy s.workers + 0
        → IsCounted (expand B H solve limit late q s)
    unfolding expand
    expand-IsCounted late [] s h = record { count = h; closed = tt }
    expand-IsCounted late (c ∷ q) s h =
        by_split (split B (chosen H s.heuristic) c q s.prop s.cubes) refl
      where
        by_split :
            (r : Option (Split B))
            → split B (chosen H s.heuristic) c q s.prop s.cubes ≡ r
            → IsCounted (expand B H solve limit late (c ∷ q) s)
        by_split none e = rw (e, expand) (record { count = h; closed = tt })
        by_split (some r) e = rw (e, expand) (record { count = h; closed = tt })

    -- The tests of m_inFlight.
    both-zero : (b : Bool) (n : ℕ) → (b && n == 0) ≡ true → n ≡ 0
    both-zero b n h = ground arith

    main_at-IsCounted :
        (late : Bool) (m : Main) (s : System B H)
        → s.in_flight ≡ length s.jobs + busy s.workers + half_submitted m
        → IsClosed m s
        → IfSome IsCounted (main_at B H solve limit late m s)
    unfolding main_at take_results
    main_at-IsCounted late head s h o =
        elim (Bool-cases (not late && ltb (length s.queue) limit && s.in_flight == 0)) [
          | inl go ↦ rw go (expand-IsCounted late s.queue s h)
          | inr wait ↦ rw wait (record { count = h; closed = tt })
        ]
    main_at-IsCounted late (submit l []) s h o = record { count = h; closed = tt }
    main_at-IsCounted late (submit l (c ∷ cs)) s h o = record { count = omega arith; closed = tt }
    main_at-IsCounted late (submitting l c cs) s h o = record {
      count = omega (arith, length-append s.jobs (c ∷ []));
      closed = tt;
    }
    main_at-IsCounted late (decide l) s h o = record { count = h; closed = tt }
    main_at-IsCounted late (collecting l block) s h o = elim (Bool-cases (is_empty s.results)) [
      | inl none_yet ↦ elim (Bool-cases block) [
        | inl b ↦ rw (none_yet, b) tt
        | inr b ↦ rw (none_yet, b) (record { count = h; closed = tt })
      ]
      | inr some_there ↦ rw some_there (record { count = h; closed = tt })
    ]
    main_at-IsCounted late (test_done l) s h o =
        elim (Bool-cases (is_empty s.queue && s.in_flight == 0)) [
          | inl end_ ↦ rw end_ (record {
            count = h;
            closed = (
              both-zero (is_empty s.queue) s.in_flight end_,
              empty s.queue (and-eq-true (is_empty s.queue) (s.in_flight == 0) end_).0,
              empty s.cubes,
            );
          })
          | inr on ↦ rw on (record { count = h; closed = tt })
        ]
      where
        empty : {A : Type 0} (q : List A) → is_empty q ≡ true → q ≡ []
        empty [] e = refl
        empty (c ∷ q) e = absurd (cc (e))
    main_at-IsCounted late (test_full l) s h o =
        elim (Bool-cases (leb limit (length s.queue) && s.in_flight == 0)) [
          | inl end_ ↦ rw end_ (record {
            count = h;
            closed = (
              both-zero (leb limit (length s.queue)) s.in_flight end_,
              refl,
              λ e. absurd (cc (e)),
            );
          })
          | inr on ↦ rw on (record { count = h; closed = tt })
        ]
    main_at-IsCounted late (test_late l) s h o = elim (Bool-cases (l && s.in_flight == 0)) [
      | inl end_ ↦ rw end_ (record {
        count = h;
        closed = (both-zero l s.in_flight end_, refl, λ e. absurd (cc (e)));
      })
      | inr on ↦ rw on (record { count = h; closed = tt })
    ]
    main_at-IsCounted late (finished u) s h o = elim (Bool-cases s.shutdown) [
      | inl down ↦ rw down tt
      | inr up ↦ rw up (record { count = h; closed = o })
    ]
    main_at-IsCounted late aborted s h o = tt

    worker_at-IsCounted :
        (i : ℕ) (w : Worker) (s : System B H)
        → i < length s.workers
        → get_or s.workers i ended ≡ w
        → IsCounted s
        → IfSome IsCounted (worker_at B H solve limit i w s)
    unfolding worker_at
    worker_at-IsCounted i waiting s lt e h = by_jobs s.jobs refl
      where
        by_jobs :
            (js : List (List Lit))
            → s.jobs ≡ js
            → IfSome IsCounted (worker_at B H solve limit i waiting s)
        by_jobs [] none_left = elim (Bool-cases s.shutdown) [
          | inl down ↦
              rw (none_left, down)
                (record {
                  count = omega (
                    arith,
                    h.count,
                    ap length none_left,
                    ap is_busy e,
                    busy-set s.workers i ended lt,
                  );
                  closed = IsClosed-le s.main s _ (omega arith) refl refl h.closed;
                })
          | inr up ↦ rw (none_left, up) tt
        ]
        by_jobs (c ∷ cs) some_left = rw some_left (record {
          count = omega (
            arith,
            h.count,
            ap length some_left,
            ap is_busy e,
            busy-set s.workers i (solving c) lt,
          );
          closed = IsClosed-le s.main s _ (omega arith) refl refl h.closed;
        })
    worker_at-IsCounted i (solving c) s lt e h = record {
      count = omega (arith, h.count, ap is_busy e, busy-set s.workers i reported lt);
      closed = IsClosed-le s.main s _ (omega arith) refl refl h.closed;
    }
    worker_at-IsCounted i reported s lt e h = record {
      count = omega (arith, h.count, ap is_busy e, busy-set s.workers i waiting lt);
      closed = IsClosed-le s.main s _ (omega arith) refl refl h.closed;
    }
    worker_at-IsCounted i ended s lt e h = tt

    pub Step-IsCounted : {s t : System B H} → Step B H solve limit s t → IsCounted s → IsCounted t
    unfolding main_step worker_step
    Step-IsCounted {s} (by_main late t e) h =
        IfSome-some IsCounted (main_step B H solve limit late s) t e
          (main_at-IsCounted late s.main s h.count h.closed)
    Step-IsCounted {s} (by_worker i t lt e) h =
        IfSome-some IsCounted (worker_step B H solve limit i s) t e
          (worker_at-IsCounted i (get_or s.workers i ended) s lt refl h)

    -- In every run from a state in which m_inFlight is right it stays right: it is the number of the jobs
    -- in the queue, of the workers that are busy and of the cube that is being submitted; and the loop
    -- of `generate` ends only with m_inFlight at 0 and the queue of cubes emptied, and with `unsat` only if
    -- no cube is done.
    pub Run-IsCounted : {s t : System B H} → Run B H solve limit s t → IsCounted s → IsCounted t
    Run-IsCounted start h = h
    Run-IsCounted (more r step) h = Step-IsCounted step (Run-IsCounted r h)
