-- ===== src/Pool/Measure.antt =====
-- A measure of the cubes of cube_generator/CubeGeneratorCLI.cpp, summed over each place that holds some.
use hydra_sat.Base.{
  ℕ, zero, suc, ◌+◌, ◌<◌, ◌≡◌, refl, List, [], ◌∷◌, ◌++◌, if◌then◌else◌, length, get_or, set, arith,
}
use hydra_sat.Formula.ProblemTypes.{Lit}
use hydra_sat.Pool.Queue.{Cube, PriorityQueue, push, drain}
use hydra_sat.Pool.System.{
  Main, submit, submitting, Worker, WorkerResult, waiting, solving, reported, ended,
}
use hydra_sat.Pool.Counted.{busy}

-- A measure of cubes, summed over a list of them.
unfoldable pub sum_lits : (List Lit → ℕ) → List (List Lit) → ℕ
sum_lits f [] = 0
sum_lits f (c ∷ cs) = f c + sum_lits f cs

unfoldable pub sum_queue : (List Lit → ℕ) → PriorityQueue → ℕ
sum_queue f [] = 0
sum_queue f (c ∷ q) = f c.lits + sum_queue f q

-- The results that say satisfiable.
unfoldable pub sum_results : (List Lit → ℕ) → List WorkerResult → ℕ
sum_results f [] = 0
sum_results f (r ∷ rs) = (if r.sat then f r.lits else 0) + sum_results f rs

abbrev pub in_worker : (List Lit → ℕ) → Worker → ℕ
in_worker f waiting = 0
in_worker f (solving c) = f c
in_worker f reported = 0
in_worker f ended = 0

unfoldable pub sum_workers : (List Lit → ℕ) → List Worker → ℕ
sum_workers f [] = 0
sum_workers f (w ∷ ws) = in_worker f w + sum_workers f ws

pub sum_lits-append :
    (f : List Lit → ℕ) (xs ys : List (List Lit))
    → sum_lits f (xs ++ ys) ≡ sum_lits f xs + sum_lits f ys
unfolding sum_lits
sum_lits-append f [] ys = omega arith
sum_lits-append f (x ∷ xs) ys = omega (arith, sum_lits-append f xs ys)

pub sum_results-snoc :
    (f : List Lit → ℕ) (xs : List WorkerResult) (r : WorkerResult)
    → sum_results f (xs ++ r ∷ []) ≡ sum_results f xs + (if r.sat then f r.lits else 0)
unfolding sum_results
sum_results-snoc f [] r = omega arith
sum_results-snoc f (x ∷ xs) r = omega (arith, sum_results-snoc f xs r)

pub sum_queue-push :
    (f : List Lit → ℕ) (d : Cube) (q : PriorityQueue)
    → sum_queue f (push d q) ≡ f d.lits + sum_queue f q
unfolding sum_queue push
sum_queue-push f d [] = refl
sum_queue-push f d (c ∷ q) = ground (arith, sum_queue-push f d q)

pub sum_lits-drain : (f : List Lit → ℕ) (q : PriorityQueue) → sum_lits f (drain q) ≡ sum_queue f q
unfolding sum_queue sum_lits drain
sum_lits-drain f [] = refl
sum_lits-drain f (c ∷ q) = omega (arith, sum_lits-drain f q)

pub sum_workers-set :
    (f : List Lit → ℕ) (ws : List Worker) (i : ℕ) (w : Worker)
    → i < length ws
    → sum_workers f (set ws i w) + in_worker f (get_or ws i ended)
      ≡ sum_workers f ws + in_worker f w
unfolding sum_workers
sum_workers-set f [] i w lt = elim lt [ ]
sum_workers-set f (x ∷ ws) zero w lt = omega arith
sum_workers-set f (x ∷ ws) (suc i) w lt = omega (arith, sum_workers-set f ws i w (omega arith))

-- Idle workers hold no cube.
pub sum_workers-idle : (f : List Lit → ℕ) (ws : List Worker) → busy ws ≡ 0 → sum_workers f ws ≡ 0
unfolding sum_workers busy
sum_workers-idle f [] e = refl
sum_workers-idle f (waiting ∷ ws) e = omega (arith, sum_workers-idle f ws (omega arith))
sum_workers-idle f (solving c ∷ ws) e = absurd (omega arith)
sum_workers-idle f (reported ∷ ws) e = absurd (omega arith)
sum_workers-idle f (ended ∷ ws) e = omega (arith, sum_workers-idle f ws (omega arith))

pub sum_lits-none : (f : List Lit → ℕ) (cs : List (List Lit)) → length cs ≡ 0 → sum_lits f cs ≡ 0
unfolding sum_lits
sum_lits-none f [] e = refl
sum_lits-none f (c ∷ cs) e = absurd (omega arith)

-- The part of `pending` that is not yet submitted.
abbrev pub pending_of : Main → List (List Lit)
pending_of (submit l cs) = cs
pending_of (submitting l c cs) = c ∷ cs
pending_of _ = []
