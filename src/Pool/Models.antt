-- ===== src/Pool/Models.antt =====
-- What the cubes of cube_generator/CubeGeneratorCLI.cpp say of the formula, over a lawful propagator, a solver that
-- refutes no cube with a model, and a heuristic that picks a variable that the cube leaves open.
use hydra_sat.Base.{
  ℕ, zero, suc, ◌≡◌, refl, ap, subst, ◌∙◌, Bool-cases, inl, inr, Bool, true, false, List, [],
  replicate, All-replicate, arith,
}
use hydra_sat.Formula.ProblemTypes.{Lit}
use hydra_sat.Formula.Models.{Model, holds, all_of, sat_formula}
use hydra_sat.Pool.Queue.{push, cube_of}
use hydra_sat.Pool.Splitter.{BipePropagator, Heuristic, chosen}
use hydra_sat.Pool.System.{System, Run, begin, finished, waiting}
use hydra_sat.Pool.Measure.{sum_lits, sum_queue, sum_results, sum_workers-idle}
use hydra_sat.Pool.Counted.{IsCounted, IsClosed, Run-IsCounted, busy}
use hydra_sat.Pool.Lawful.{BipeLaws, IsBase, trail-IsBase}
use hydra_sat.Pool.Shared.{hit}
use hydra_sat.Pool.Calls.{Picks, split-shares, split-keeps}
use hydra_sat.Pool.Cubes.{GoodWorker, IsSafe}
use hydra_sat.Pool.Custody.{total}
use hydra_sat.Pool.Kept.{finished_cubes}

busy-replicate : (k : ℕ) → busy (replicate k waiting) ≡ 0
unfolding busy
busy-replicate zero = refl
busy-replicate (suc k) = omega (arith, busy-replicate k)

module _ {B : BipePropagator} {n : ℕ} {cs : List (List Lit)} (L : BipeLaws B n cs) (H : Heuristic)
    (Ready : H.State → Type 0) (picks : (h : H.State) → Ready h → Picks L (chosen H h))
    (lasts : (ls : List Lit) (h : H.State) → Ready h → Ready (H.next ls h).1) (h : H.State)
    (ready : Ready h) (solve : List Lit → Bool) (limit k : ℕ) where
  begin-IsSafe : IsSafe B H (IsBase L) L.Valid Ready (begin B H h k n cs).main (begin B H h k n cs)
  unfolding begin push cube_of
  begin-IsSafe =
      let v = L.propagate_valid (B.make n cs) L.make_valid in
      record {
        heuristic_ready = ready;
        prop_valid = v;
        queue_good = (trail-IsBase L (B.propagate (B.make n cs)).0 v, tt);
        pending_good = tt;
        jobs_good = tt;
        workers_good = All-replicate (GoodWorker B H (IsBase L) L.Valid Ready) k waiting tt;
        results_good = tt;
      }

  begin-IsCounted : IsCounted B H (begin B H h k n cs)
  unfolding begin
  begin-IsCounted = record { count = omega (arith, busy-replicate k); closed = tt }

  begin-total : (m : Model) → sat_formula m cs ≡ true → total B H (hit m) (begin B H h k n cs) ≡ 1
  unfolding begin push cube_of sum_lits sum_queue sum_results
  begin-total m sat =
      let sound = L.propagate_sound m (B.make n cs) sat L.make_valid (L.make_sound m sat) in
      rw sound.1 (omega (arith, sum_workers-idle (hit m) (replicate k waiting) (busy-replicate k)))

  -- Over a propagator that behaves as that of bipe, a solver that refutes no cube with a model of the formula,
  -- and a heuristic that is ready, stays so, and then picks variables that the cube leaves open, whatever the
  -- threads do: once the loop of `generate` has ended with no result left uncollected, each model of the
  -- formula satisfies exactly one cube of the output, and where `generate` reports unsatisfiability there is
  -- no model.
  pub finished_models :
      ((c : List Lit) (m : Model)
        → solve c ≡ false
        → sat_formula m cs ≡ true
        → all_of (holds m) c ≡ false)
      → {t : System B H} (unsat : Bool) → Run B H solve limit (begin B H h k n cs) t
      → t.main ≡ finished unsat
      → t.results ≡ []
      → (m : Model) → sat_formula m cs ≡ true
      → (sum_lits (hit m) t.cubes ≡ 1) × (unsat ≡ false)
  unfolding sum_lits
  finished_models refutes {t} unsat r at_end collected m sat = (
    one,
    elim (Bool-cases unsat) [
      | inl u ↦ absurd (omega (arith, one, ap (sum_lits (hit m)) (closed.2 u)))
      | inr s ↦ s
    ],
  )
    where
      one : sum_lits (hit m) t.cubes ≡ 1
      one =
          finished_cubes B H (hit m) (IsBase L) L.Valid Ready solve limit
            (λ g c q p done r good base v e.
              split-shares L (chosen H g) (picks g good) c q p done r base v e m sat)
            (λ c s. rw (refutes c m s sat) refl)
            (λ g c q p done r good base v e.
              let kept = split-keeps L (chosen H g) (picks g good) c q p done r base v e in
              (kept.0, kept.1, kept.2, lasts c.lits g good))
            unsat r begin-IsCounted begin-IsSafe at_end collected
          ∙ begin-total m sat

      closed : IsClosed B H (finished unsat) t
      closed =
          subst (λ s. IsClosed B H s t) at_end
            (Run-IsCounted B H solve limit r begin-IsCounted).closed
