-- ===== src/Pool/Tests/Deadlocked.antt =====
-- A run of cube_generator/CubeGeneratorCLI.cpp with one worker that reaches the deadlock of collectResults.

use hydra_sat.Base.{ℕ, ◌≡◌, ◌↔◌, refl, inl, Bool, false, List, [], ◌∷◌, ◌++◌, Option, none, arith}
use hydra_sat.Formula.ProblemTypes.{Lit}
use hydra_sat.Pool.System.{System, begin, Step, Run, start}
use hydra_sat.Pool.Counted.{IfSome-some, Run-IsCounted}
use hydra_sat.Pool.Deadlock.{Waits, deadlock_iff}
use hydra_sat.Pool.Shutdown.{IsOrderly}
use hydra_sat.Pool.Stops.{Stopped, run_stops}
use hydra_sat.Pool.Tests.{
  naive, once, code, exec, exec-Run, start_1, start_1-IsCounted, reached, submission, worker,
}

-- The worker refutes both cubes, and the main thread collects the second result before it is counted.
abbrev all_unsat : List Lit → Bool
all_unsat ls = false

abbrev blocking : List (Option ℕ)
blocking =
    submission
    ++ worker ∷ worker ∷ worker ∷ worker ∷ worker ∷ none ∷ none ∷ none ∷ none ∷ none ∷ none ∷ none
      ∷ worker ∷ []

abbrev dead_1 : System naive once
unfolding exec
dead_1 = reached (exec once all_unsat 5 blocking start_1)

dead-Run : Run naive once all_unsat 5 start_1 dead_1
unfolding code exec
dead-Run =
    IfSome-some (Run naive once all_unsat 5 start_1) (exec once all_unsat 5 blocking start_1) dead_1
      refl (exec-Run once all_unsat 5 blocking start_1 start_1 start)

deadlock_iff_example :
    ((t : System naive once) → ¬ Step naive once all_unsat 5 dead_1 t)
    ↔ (Waits naive once dead_1.main dead_1 × (dead_1.in_flight ≡ 0))
unfolding code exec
deadlock_iff_example =
    deadlock_iff naive once all_unsat 5 dead_1 0
      (Run-IsCounted naive once all_unsat 5 dead-Run start_1-IsCounted) (λ e. cc e) refl
      (omega arith) (λ e. cc e)

-- The deadlock.
dead_1-stuck : (t : System naive once) → ¬ Step naive once all_unsat 5 dead_1 t
unfolding code exec
dead_1-stuck =
    (deadlock_iff naive once all_unsat 5 dead_1 0
        (Run-IsCounted naive once all_unsat 5 dead-Run start_1-IsCounted) (λ e. cc e) refl
        (omega arith) (λ e. cc e)).1
      ((false, refl, refl), refl)

start_1-IsOrderly : IsOrderly naive once start_1
unfolding begin
start_1-IsOrderly = record { looping = refl; alive = inl ((λ e. cc e), tt); manned = omega arith }

run_stops_example : Stopped naive once all_unsat 5 dead_1.main dead_1
run_stops_example =
    run_stops naive once all_unsat 5 dead-Run start_1-IsCounted start_1-IsOrderly dead_1-stuck
