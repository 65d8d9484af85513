-- ===== src/Pool/Splitter.antt =====
-- `createCubes`, `initPropagator` and `initQueue` of cube_generator/CubeGeneratorCLI.cpp.
-- The propagator of the bipe library and the branching heuristic, which asks the d4 library, are
-- parameters. A literal of bipe is a variable and a sign, and is written as a literal here.
use mathlib.Core.Option
use hydra_sat.Base.{
  ℕ, Bool, true, false, not, ◌&&◌, List, [], ◌∷◌, ◌++◌, Option, none, some, if◌then◌else◌, ltb,
  ◌==◌, length,
}
use hydra_sat.Formula.ProblemTypes.{Lit, make_lit_true, make_lit_false}
use hydra_sat.Pool.Queue.{Cube, PriorityQueue, cube_of, push}

-- bipe::reducer::Propagator
pub record BipePropagator : Type 1 where
  pub State : Type 0
  pub make : ℕ → List (List Lit) → State
  pub restart : State → State
  pub value : State → Lit → ℕ
  pub unchecked_enqueue : State → Lit → State
  pub propagate : State → State × Bool
  pub is_unsat : State → Bool
  pub trail : State → List Lit
  pub cancel_until_pos : State → ℕ → State

-- The branching heuristic, with the state that a call of `next` leaves: `none` if an assertion fails
-- in it, and `some none` for var_Undef.
pub record Heuristic : Type 1 where
  pub State : Type 0
  pub next : List Lit → State → Option (Option ℕ) × State

-- What `next` answers in a state.
abbrev pub chosen : (H : Heuristic) → H.State → List Lit → Option (Option ℕ)
chosen H h ls = (H.next ls h).0

module _ (B : BipePropagator) where
  open B use {
    State, make, restart, value, unchecked_enqueue, propagate, is_unsat, trail, cancel_until_pos,
  }

  -- What a call changes: m_propagator, `done`, the queue and `pending`.
  pub record Split : Type 0 where
    pub prop : State
    pub done : List (List Lit)
    pub queue : PriorityQueue
    pub pending : List (List Lit)

  -- for (auto& l : cBest.lits) if (value(lb) > 1) uncheckedEnqueue(lb);
  unfoldable pub fill : List Lit → State → State
  fill [] p = p
  fill (l ∷ ls) p = fill ls (if ltb 1 (value p l) then unchecked_enqueue p l else p)

  -- A branch is checked by the workers unless propagation refutes it.
  unfoldable pub add_branch : State × Bool → List (List Lit) → List (List Lit)
  add_branch (p, true) pending = pending ++ trail p ∷ []
  add_branch (p, false) pending = pending

  -- From the choice of the variable on, with the queue without its top.
  unfoldable pub branch_on : Option ℕ → List Lit → State → List (List Lit) → PriorityQueue → Split
  unfolding add_branch
  branch_on none lits p done rest = record {
    prop = p;
    done = done ++ lits ∷ [];
    queue = rest;
    pending = [];
  }
  branch_on (some v) lits p done rest =
      let pos_branch = propagate (unchecked_enqueue p (make_lit_true v)) in
      let back = cancel_until_pos pos_branch.0 (length (trail p)) in
      let neg_branch = propagate (unchecked_enqueue back (make_lit_false v)) in
      record {
        prop = neg_branch.0;
        done = done;
        queue = rest;
        pending = add_branch neg_branch (add_branch pos_branch []);
      }

  -- `createCubes` on a queue with `c` on top, in a build that checks assertions; `none` if one fails.
  unfoldable pub split :
      (List Lit → Option (Option ℕ)) → Cube → PriorityQueue → State → List (List Lit) → Option Split
  unfolding fill branch_on
  split next c rest p done =
      let (q, ok) = propagate (fill c.lits (restart p)) in
      if ok && not (is_unsat q) && (length c.lits == length (trail q))
      then Option.map (λ v. branch_on v c.lits q done rest) (next c.lits)
      else none

  -- `initPropagator` and `initQueue`.
  unfoldable pub init_queue : ℕ → List (List Lit) → State × PriorityQueue
  unfolding push cube_of
  init_queue n cs = let (p, _) = propagate (make n cs) in (p, push (cube_of (trail p)) [])
