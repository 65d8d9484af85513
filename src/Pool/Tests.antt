-- ===== src/Pool/Tests.antt =====
-- The theorems about cube_generator/CubeGeneratorCLI.cpp at a pool of one worker, and runs that go wrong.
mod Setup
mod Deadlocked
use mathlib.Core.Option
use hydra_sat.Base.{
  ℕ, suc, ◌≡◌, refl, inl, inr, Bool, true, false, List, [], ◌∷◌, ◌++◌, Option, none, some,
  if◌then◌else◌, ltb, ◌==◌, ltb→lt, Bool-cases, Option-cases, length, take,
}
use hydra_sat.Formula.ProblemTypes.{Lit, var, sign, make_lit_true, make_lit_false}
use hydra_sat.Formula.Models.{holds, all_of}
use hydra_sat.Pool.Queue.{push, cube_of, drain}
use hydra_sat.Pool.Splitter.{
  BipePropagator, Heuristic, split, fill, branch_on, add_branch, init_queue,
}
use hydra_sat.Pool.System.{
  System, begin, main_at, main_step, worker_at, worker_step, expand, take_results, accept, by_main,
  by_worker, Run, start, more, head, submit, submitting, decide, collecting, test_done, test_full,
  test_late, finished, aborted,
}
use hydra_sat.Pool.Counted.{IfSome, IfSome-some, busy, IsCounted, Run-IsCounted}
use hydra_sat.Pool.Measure.{sum_lits, sum_queue, sum_results, sum_workers}

-- 0 if true, 1 if false.
unfoldable pub value_of : List Lit → Lit → ℕ
value_of [] l = 2
value_of (k ∷ p) l = if var k == var l then if k.m_x == l.m_x then 0 else 1 else value_of p l

-- A propagator that finds nothing: its state is the trail.
abbrev pub naive : BipePropagator
naive = record {
  State = List Lit;
  make = λ n cs. [];
  restart = λ p. [];
  value = value_of;
  unchecked_enqueue = λ p l. p ++ l ∷ [];
  propagate = λ p. (p, true);
  is_unsat = λ p. false;
  trail = λ p. p;
  cancel_until_pos = λ p k. take k p;
}

-- Branch on 1, then stop.
abbrev pub next_once : List Lit → Option (Option ℕ)
next_once [] = some (some 1)
next_once (l ∷ ls) = some none

-- It counts its calls.
abbrev pub once : Heuristic
once = record { State = ℕ; next = λ ls k. (next_once ls, suc k) }

unfoldable pub code : Unit {0}
unfolding value_of make_lit_true make_lit_false var sign holds all_of push cube_of drain split fill
    branch_on add_branch init_queue begin main_at main_step worker_at worker_step expand
    take_results accept sum_lits sum_queue sum_results sum_workers busy
code = tt

-- One worker; the queue is that of initQueue.
abbrev pub start_1 : System naive once
start_1 = begin naive once 0 1 1 []

-- The main thread is `none`, the worker `some 0`; the time is never up.
unfoldable pub exec :
    (H : Heuristic)
    → (List Lit → Bool)
    → ℕ
    → List (Option ℕ)
    → System naive H
    → Option (System naive H)
unfolding main_step worker_step
exec H solve limit [] s = some s
exec H solve limit (none ∷ is) s = elim (main_step naive H solve limit false s) [
  | none ↦ none
  | some t ↦ exec H solve limit is t
]
exec H solve limit (some i ∷ is) s =
    elim (if ltb i (length s.workers) then worker_step naive H solve limit i s else none) [
      | none ↦ none
      | some t ↦ exec H solve limit is t
    ]

pub exec-Run :
    (H : Heuristic) (solve : List Lit → Bool) (limit : ℕ) (is : List (Option ℕ))
    (s s' : System naive H)
    → Run naive H solve limit s s'
    → IfSome (Run naive H solve limit s) (exec H solve limit is s')
unfolding exec
exec-Run H solve limit [] s s' r = r
exec-Run H solve limit (none ∷ is) s s' r =
    elim (Option-cases (main_step naive H solve limit false s')) [
      | inl e ↦ rw (e, exec) tt
      | inr (t, e) ↦ rw (e, exec) (exec-Run H solve limit is s t (more r (by_main false t e)))
    ]
exec-Run H solve limit (some i ∷ is) s s' r = elim (Bool-cases (ltb i (length s'.workers))) [
  | inl lt ↦ elim (Option-cases (worker_step naive H solve limit i s')) [
    | inl e ↦ rw (lt, e, exec) tt
    | inr (t, e) ↦
        rw (lt, e, exec)
          (exec-Run H solve limit is s t
            (more r (by_worker i t (ltb→lt i (length s'.workers) lt) e)))
  ]
  | inr out ↦ rw (out, exec) tt
]

abbrev main_thread : Option ℕ
main_thread = none

abbrev pub worker : Option ℕ
worker = some 0

-- createCubes, and the submission of its two cubes.
abbrev pub submission : List (Option ℕ)
submission = none ∷ none ∷ none ∷ none ∷ none ∷ none ∷ []

abbrev outcome : System naive once → Option Bool × ℕ × ℕ
outcome s = (
  elim s.main as (λ m. Option Bool) [
    | finished u ↦ some u
    | head ↦ none
    | submit l cs ↦ none
    | submitting l c cs ↦ none
    | decide l ↦ none
    | collecting l b ↦ none
    | test_done l ↦ none
    | test_full l ↦ none
    | test_late l ↦ none
    | aborted ↦ none
  ],
  length s.cubes,
  length s.results,
)

-- The worker refutes 1 and accepts ¬1; the main thread collects the first result before the second
-- comes in, and reads m_inFlight after it: the formula is reported unsatisfiable.
abbrev only_false : List Lit → Bool
only_false [] = true
only_false (l ∷ ls) = l.m_x == 3

abbrev losing : List (Option ℕ)
losing = submission ++ worker ∷ worker ∷ worker ∷ none ∷ none ∷ worker ∷ worker ∷ worker ∷ none ∷ []

lost_result : Option.map outcome (exec once only_false 5 losing start_1) ≡ some (some true, 0, 1)
unfolding code exec
lost_result = refl

abbrev pub reached : Option (System naive once) → System naive once
reached none = start_1
reached (some s) = s

pub start_1-IsCounted : IsCounted naive once start_1
unfolding code
start_1-IsCounted = record { count = refl; closed = tt }

-- Both cubes are accepted, and collected before the loop ends.
abbrev all_sat : List Lit → Bool
all_sat ls = true

abbrev pub good : List (Option ℕ)
good =
    submission
    ++ worker ∷ worker ∷ worker ∷ worker ∷ worker ∷ worker ∷ none ∷ none ∷ none ∷ none ∷ []

abbrev end_1 : System naive once
unfolding exec
end_1 = reached (exec once all_sat 2 good start_1)

good-Run : Run naive once all_sat 2 start_1 end_1
unfolding code exec
good-Run =
    IfSome-some (Run naive once all_sat 2 start_1) (exec once all_sat 2 good start_1) end_1 refl
      (exec-Run once all_sat 2 good start_1 start_1 start)

Run-IsCounted_example : IsCounted naive once end_1
Run-IsCounted_example = Run-IsCounted naive once all_sat 2 good-Run start_1-IsCounted
