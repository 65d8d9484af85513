-- ===== src/Pool/Calls.antt =====
-- A call of `createCubes` of cube_generator/CubeGeneratorCLI.cpp on a cube shares out its models, over a lawful
-- propagator and a heuristic that picks a variable that the cube leaves open.
use mathlib.Core.List.{append-nil}
use mathlib.Core.Option
use hydra_sat.Base.{
  ℕ, ◌+◌, ◌≤◌, ◌≡◌, refl, sym, ap, subst, ◌∙◌, inl, inr, Bool, true, false, not, ◌&&◌, List, [],
  ◌∷◌, ◌++◌, Option, none, some, if◌then◌else◌, ◌==◌, ==_iff, and-eq-true, Bool-cases, length,
  length-append, All, arith,
}
use hydra_sat.Formula.ProblemTypes.{Lit}
use hydra_sat.Formula.Models.{Model, sat_formula, is_in}
use hydra_sat.Pool.Queue.{Cube, PriorityQueue}
use hydra_sat.Pool.Splitter.{BipePropagator, Split, fill, branch_on, split}
use hydra_sat.Pool.Measure.{sum_lits, sum_queue, sum_lits-append}
use hydra_sat.Pool.Lawful.{BipeLaws, IsBase, fill_base}
use hydra_sat.Pool.Shared.{hit, branches_hit, branches-IsBase}

mapped :
    {A C : Type 0} (f : A → C) (o : Option A) (c : C)
    → Option.map f o ≡ some c
    → (a : A) × (o ≡ some a) × (f a ≡ c)
mapped f none c e = absurd (cc e)
mapped f (some a) c e = (a, refl, cc e)

module _ {B : BipePropagator} {n : ℕ} {cs : List (List Lit)} (L : BipeLaws B n cs) where
  open B use {State, restart, propagate, trail, is_unsat}
  open L use {Valid}

  -- The heuristic picks a variable of the formula that the cube leaves open.
  abbrev pub Picks : (List Lit → Option (Option ℕ)) → Type 0
  Picks next = (ls : List Lit) (v : ℕ) → next ls ≡ some (some v) → (v ≤ n) × (is_in v ls ≡ false)

  -- What `createCubes` has at hand once its assertions hold.
  record Filled (ls : List Lit) (q : State) : Type 0 where
    valid : Valid q
    same : trail q ≡ ls

  nil_of_length : (xs : List Lit) → length xs ≡ 0 → xs ≡ []
  nil_of_length [] e = refl
  nil_of_length (x ∷ xs) e = absurd (omega arith)

  filled_lem :
      (ls : List Lit) (p : State)
      → Valid p
      → IsBase L ls
      → (length ls == length (trail (propagate (fill B ls (restart p))).0)) ≡ true
      → Filled ls (propagate (fill B ls (restart p))).0
  filled_lem ls p v b e =
      let base = fill_base L ls p v b in
      let more = L.propagate_trail (fill B ls (restart p)) base.0 in
      let whole : trail (propagate (fill B ls (restart p))).0 ≡ ls ++ more.0 =
        more.1 ∙ ap (λ t. t ++ more.0) base.1 in
      let none_new : more.0 ≡ [] = nil_of_length more.0 (
        omega (
          arith,
          (==_iff (length ls) (length (trail (propagate (fill B ls (restart p))).0))).0 e,
          ap length whole,
          length-append ls more.0,
        )) in
      record {
        valid = L.propagate_valid (fill B ls (restart p)) base.0;
        same = whole ∙ ap (λ t. ls ++ t) none_new ∙ append-nil ls;
      }

  -- The call of `createCubes`, with its assertions passed.
  split-branch_on :
      (next : List Lit → Option (Option ℕ)) (c : Cube) (rest : PriorityQueue) (p : State)
      (done : List (List Lit)) (r : Split B)
      → Valid p
      → IsBase L c.lits
      → split B next c rest p done ≡ some r
      → (q : State) × (o : Option ℕ) × Filled c.lits q
        × (next c.lits ≡ some o)
        × (branch_on B o c.lits q done rest ≡ r)
  unfolding split
  split-branch_on next c rest p done r v b e = elim (Bool-cases passed) [
    | inl yes_ ↦
        let here =
          mapped answer (next c.lits) r
            (sym (ap (λ t. if t then Option.map answer (next c.lits) else none) yes_) ∙ e) in
        (q, here.0, filled_lem c.lits p v b (and-eq-true _ _ yes_).1, here.1, here.2)
    | inr no_ ↦
        let clash : none ≡ some r =
          sym (ap (λ t. if t then Option.map answer (next c.lits) else none) no_) ∙ e in
        absurd (cc (clash))
  ]
    where
      q : State
      q = (propagate (fill B c.lits (restart p))).0

      answer : Option ℕ → Split B
      answer o = branch_on B o c.lits q done rest

      passed : Bool
      passed =
          (propagate (fill B c.lits (restart p))).1
          && not (is_unsat q)
          && (length c.lits == length (trail q))

  module _ (next : List Lit → Option (Option ℕ)) (picks : Picks next) where
    branch-shares :
        (m : Model) (sat : sat_formula m cs ≡ true) (o : Option ℕ) (ls : List Lit) (q : State)
        (done : List (List Lit)) (rest : PriorityQueue)
        → next ls ≡ some o
        → Filled ls q
        → sum_lits (hit m) (branch_on B o ls q done rest).done
            + sum_queue (hit m) (branch_on B o ls q done rest).queue
            + sum_lits (hit m) (branch_on B o ls q done rest).pending
          ≡ sum_lits (hit m) done + sum_queue (hit m) rest + hit m ls
    unfolding branch_on sum_lits
    branch-shares m sat none ls q done rest e h =
        omega (arith, sum_lits-append (hit m) done (ls ∷ []))
    branch-shares m sat (some v) ls q done rest e h =
        let open_ = picks ls v e in
        omega (
          arith,
          branches_hit L q v h.valid open_.0 (ap (is_in v) h.same ∙ open_.1) m sat,
          ap (hit m) h.same,
        )

    branch-keeps :
        (o : Option ℕ) (ls : List Lit) (q : State) (done : List (List Lit)) (rest : PriorityQueue)
        → next ls ≡ some o
        → Filled ls q
        → ((branch_on B o ls q done rest).queue ≡ rest)
          × Valid (branch_on B o ls q done rest).prop
          × All (IsBase L) (branch_on B o ls q done rest).pending
    unfolding branch_on
    branch-keeps none ls q done rest e h = (refl, h.valid, tt)
    branch-keeps (some v) ls q done rest e h =
        let open_ = picks ls v e in
        let kept = branches-IsBase L q v h.valid open_.0 (ap (is_in v) h.same ∙ open_.1) in
        (refl, kept.0, kept.1)

    module _ (c : Cube) (rest : PriorityQueue) (p : State) (done : List (List Lit)) (r : Split B)
        (base : IsBase L c.lits) (v : Valid p) (e : split B next c rest p done ≡ some r) where
      pub split-shares :
          (m : Model)
          → sat_formula m cs ≡ true
          → sum_lits (hit m) r.done + sum_queue (hit m) r.queue + sum_lits (hit m) r.pending
            ≡ sum_lits (hit m) done + sum_queue (hit m) rest + hit m c.lits
      split-shares m sat =
          let here = split-branch_on next c rest p done r v base e in
          subst
            (λ (r : Split B).
              sum_lits (hit m) r.done + sum_queue (hit m) r.queue + sum_lits (hit m) r.pending
              ≡ sum_lits (hit m) done + sum_queue (hit m) rest + hit m c.lits)
            here.4 (branch-shares m sat here.1 c.lits here.0 done rest here.3 here.2)

      pub split-keeps : (r.queue ≡ rest) × Valid r.prop × All (IsBase L) r.pending
      split-keeps =
          let here = split-branch_on next c rest p done r v base e in
          subst (λ (r : Split B). (r.queue ≡ rest) × Valid r.prop × All (IsBase L) r.pending) here.4
            (branch-keeps here.1 c.lits here.0 done rest here.3 here.2)
