-- ===== src/Cli/Propagator/Sound.antt =====
-- Unit propagation of cube_gen_cli/cube_gen_cli.cpp as small steps: `propagateLit` and `propagate`
-- take only steps of `Invariant`, and report a conflict only where there is one.
use hydra_sat.Base.{
  ℕ, zero, suc, ◌+◌, ◌<◌, ◌≡◌, refl, sym, subst, ◌≢◌, inl, inr, Bool, true, false, List, [], ◌∷◌,
  ◌++◌, ltb, ◌==◌, ==_iff, ltb→lt, Bool-cases, length, get_or, set, All, All-append, All-set,
  All-get_or, All-get_or_lt, arith,
}
use hydra_sat.Cli.Lit.{Lit, Model, var, holds, sat_cube, sat_clause, sat_formula}
use hydra_sat.Cli.Propagator.{
  Propagator, Scan, Round, go, stop, scan, scan_start, visit, after_round, after_lit, watch_loop,
  propagate_lit, propagate_loop, propagate, value, push_at, lit_idx, false_lit, lit_zero,
}
use hydra_sat.Cli.Propagator.Trail.{Below}
use hydra_sat.Cli.Propagator.Clause.{Noted, scan-Noted, scan_sound, Reflects-Agrees}
use hydra_sat.Cli.Propagator.Invariant.{
  IsValid, IsWatchList, Implied, Refuted, Steps, rewatch, enqueue, dequeue, flag, done, next,
  Steps_trans, Steps-IsValid, Steps_sound, Refuted-later,
}

pub sat_formula-get_or :
    (m : Model) (cs : List (List Lit)) (i : ℕ)
    → i < length cs
    → sat_formula m cs ≡ true
    → sat_clause m (get_or cs i []) ≡ true
unfolding sat_formula
sat_formula-get_or m [] i lt h = elim lt [ ]
sat_formula-get_or m (c ∷ cs) zero lt h = ground arith
sat_formula-get_or m (c ∷ cs) (suc i) lt h = sat_formula-get_or m cs i (omega arith) (ground arith)

module _ (cs : List (List Lit)) (n : ℕ) (below : All (Below n) cs) where
  pub push_at-IsWatchList :
      (ws : List (List ℕ)) (i ci : ℕ)
      → ci < length cs
      → All (IsWatchList cs n) ws
      → All (IsWatchList cs n) (push_at ws i ci)
  push_at-IsWatchList ws i ci lt h =
      All-set (IsWatchList cs n) ws i (get_or ws i [] ++ ci ∷ [])
        (All-append (λ k. k < length cs) (get_or ws i []) (ci ∷ [])
          (All-get_or (IsWatchList cs n) ws i [] tt h) (lt, tt))
        h

  -- What one round does, in small steps.
  abbrev RoundSteps : Propagator → Round → Type 0
  RoundSteps p (go kept q) = Steps cs n p q × IsWatchList cs n kept
  RoundSteps p (stop kept q) = (q ≡ p) × IsWatchList cs n kept × Refuted cs n p

  module _ (p : Propagator) (v : IsValid cs n p) (ci : ℕ) (lt : ci < length cs) where
    found : Scan
    unfolding scan
    found = scan p.assign (get_or p.clauses ci []) scan_start

    found-Noted : Noted p.assign n found
    unfolding found
    found-Noted =
        scan-Noted p.assign n (get_or p.clauses ci [])
          (rw v.same_clauses (All-get_or_lt (Below n) cs ci [] lt below))

    found_sound :
        (m : Model)
        → sat_formula m cs ≡ true
        → sat_cube m p.trail ≡ true
        → found.sat ≡ false
        → (found.free ≢ 0) × (found.free ≡ 1 → holds m found.unit ≡ true)
    unfolding found
    found_sound m f t h =
        scan_sound m p.assign (get_or p.clauses ci [])
          (Reflects-Agrees m p.assign p.trail v.reflects t)
          (rw v.same_clauses (sat_formula-get_or m cs ci lt f)) h

    -- A clause with one free literal and no true one makes it true.
    found-Implied : found.sat ≡ false → found.free ≡ 1 → Implied cs n p found.unit
    found-Implied s one m f t = (found_sound m f t s).1 one

    visit_unit :
        (ws kept : List ℕ)
        → IsWatchList cs n kept
        → found.sat ≡ false
        → found.free ≡ 1
        → RoundSteps p (visit found ci ws kept p)
    unfolding visit
    visit_unit ws kept hk s one =
        let open_clause : (value p.assign found.unit == 2) ≡ true = ground (arith, found-Noted) in
        let below_n : var found.unit < n = ground (arith, found-Noted) in
        let unset : value p.assign found.unit ≡ 2 = ground arith in
        rw (s, one, open_clause)
          (
            next done (enqueue found.unit below_n unset (found-Implied s one)),
            All-append (λ k. k < length cs) kept (ci ∷ []) hk (lt, tt),
          )

    visit-RoundSteps :
        (ws kept : List ℕ)
        → IsWatchList cs n ws
        → IsWatchList cs n kept
        → RoundSteps p (visit found ci ws kept p)
    unfolding visit
    visit-RoundSteps ws kept hw hk = elim (Bool-cases found.sat) [
      | inl sat ↦ rw sat (done, All-append (λ k. k < length cs) kept (ci ∷ []) hk (lt, tt))
      | inr s ↦ elim (Bool-cases (found.free == 0)) [
        | inl none_free ↦
            rw (s, none_free)
              (
                refl,
                All-append (λ k. k < length cs) kept (ci ∷ ws) hk (lt, hw),
                λ m f t. (found_sound m f t s).0 ((==_iff found.free 0).0 none_free),
              )
        | inr some_free ↦ elim (Bool-cases (found.free == 1)) [
          | inl one ↦ visit_unit ws kept hk s ((==_iff found.free 1).0 one)
          | inr more ↦
              rw (s, some_free, more)
                (
                  next done (
                      rewatch _
                        (push_at-IsWatchList p.watches (lit_idx found.new_w) ci lt v.watch_lists)),
                  hk,
                )
        ]
      ]
    ]

  -- What the loop over a watch list, or a longer run, does: small steps, and a conflict only where
  -- the clauses and the trail have no model.
  abbrev pub RunSteps : Propagator → Propagator × Bool → Type 0
  RunSteps p (q, ok) = Steps cs n p q × (ok ≡ false → Refuted cs n p)

  abbrev LoopSteps : Propagator → Propagator × List ℕ × Bool → Type 0
  LoopSteps p (q, kept, ok) = Steps cs n p q × IsWatchList cs n kept × (ok ≡ false → Refuted cs n p)

  LoopSteps-after :
      (p q : Propagator) (r : Propagator × List ℕ × Bool)
      → Steps cs n p q
      → LoopSteps q r
      → LoopSteps p r
  LoopSteps-after p q (r, kept, ok) s (t, hk, refuted) =
      (Steps_trans cs n s t, hk, λ e m f h. refuted e m f (Steps_sound cs n m s f h))

  watch_loop-LoopSteps :
      (ws kept : List ℕ) (p : Propagator)
      → IsValid cs n p
      → IsWatchList cs n ws
      → IsWatchList cs n kept
      → LoopSteps p (watch_loop ws kept p)
  unfolding watch_loop found
  watch_loop-LoopSteps [] kept p v hw hk = (done, hk, λ e. cc)
  watch_loop-LoopSteps (ci ∷ ws) kept p v hw hk =
      round (watch_loop ws) (λ k q. watch_loop-LoopSteps ws k q)
        (visit (found p v ci hw.0) ci ws kept p) (visit-RoundSteps p v ci hw.0 ws kept hw.1 hk)
    where
      round :
          (rest : List ℕ → Propagator → Propagator × List ℕ × Bool)
          → ((k : List ℕ) (q : Propagator)
              → IsValid cs n q
              → IsWatchList cs n ws
              → IsWatchList cs n k
              → LoopSteps q (rest k q))
          → (r : Round) → RoundSteps p r
          → LoopSteps p (after_round rest r)
      round rest ih (go k q) (s, h) =
          LoopSteps-after p q (rest k q) s (ih k q (Steps-IsValid cs n s v) hw.1 h)
      round rest ih (stop k q) (e, h, refuted) =
          (subst (Steps cs n p) (sym e) done, h, λ _. refuted)

  pub propagate_lit-RunSteps :
      (p : Propagator) (l : Lit) → IsValid cs n p → RunSteps p (propagate_lit p l)
  unfolding propagate_lit
  propagate_lit-RunSteps p l v = (next run.0 (rewatch _ lists), run.2)
    where
      i : ℕ
      i = lit_idx (false_lit l)

      run : LoopSteps p (watch_loop (get_or p.watches i []) [] p)
      run =
          watch_loop-LoopSteps (get_or p.watches i []) [] p v
            (All-get_or (IsWatchList cs n) p.watches i [] tt v.watch_lists) tt

      lists : All (IsWatchList cs n) (
          set
            (watch_loop (get_or p.watches i []) [] p).0.watches
            i
            (watch_loop (get_or p.watches i []) [] p).1)
      lists =
          All-set (IsWatchList cs n) (watch_loop (get_or p.watches i []) [] p).0.watches i
            (watch_loop (get_or p.watches i []) [] p).1 run.1
            (Steps-IsValid cs n run.0 v).watch_lists

  RunSteps-after :
      (p q : Propagator) (r : Propagator × Bool) → Steps cs n p q → RunSteps q r → RunSteps p r
  RunSteps-after p q (r, ok) s (t, refuted) =
      (Steps_trans cs n s t, λ e m f h. refuted e m f (Steps_sound cs n m s f h))

  propagate_loop-RunSteps :
      (f : ℕ) (p : Propagator) → IsValid cs n p → RunSteps p (propagate_loop f p)
  unfolding propagate_loop
  propagate_loop-RunSteps zero p v = (done, λ e. cc)
  propagate_loop-RunSteps (suc f) p v = elim (Bool-cases (ltb p.qhead (length p.trail))) [
    | inr at_end ↦ rw (at_end, propagate_loop) (done, λ e. cc)
    | inl more ↦
        let first : Steps cs n p (record p { qhead = p.qhead + 1 }) =
          next done (dequeue (ltb→lt _ _ more)) in
        rw (more, propagate_loop)
          (rest (propagate_loop f) (propagate_loop-RunSteps f)
            (propagate_lit (record p { qhead = p.qhead + 1 }) (get_or p.trail p.qhead lit_zero))
            (RunSteps-after p _
              (propagate_lit (record p { qhead = p.qhead + 1 }) (get_or p.trail p.qhead lit_zero))
              first (propagate_lit-RunSteps _ _ (Steps-IsValid cs n first v))))
  ]
    where
      rest :
          (k : Propagator → Propagator × Bool)
          → ((q : Propagator) → IsValid cs n q → RunSteps q (k q))
          → (r : Propagator × Bool) → RunSteps p r
          → RunSteps p (after_lit k r)
      rest k ih (q, true) (s, refuted) = RunSteps-after p q (k q) s (ih q (Steps-IsValid cs n s v))
      rest k ih (q, false) (s, refuted) =
          (next s (flag (Refuted-later cs n s (refuted refl))), λ _. refuted refl)

  pub propagate-RunSteps : (p : Propagator) → IsValid cs n p → RunSteps p (propagate p)
  unfolding propagate
  propagate-RunSteps p v = propagate_loop-RunSteps _ p v

  pub propagate-IsValid : (p : Propagator) → IsValid cs n p → IsValid cs n (propagate p).0
  propagate-IsValid p v = Steps-IsValid cs n (propagate-RunSteps p v).0 v

  -- Unit propagation loses no model: from a valid state over clauses with variables in range, where
  -- an assignment satisfies the clauses and the trail, propagation does not report a conflict, and
  -- the assignment satisfies the trail that it leaves.
  pub propagate_sound :
      (p : Propagator) (m : Model)
      → IsValid cs n p
      → sat_formula m cs ≡ true
      → sat_cube m p.trail ≡ true
      → ((propagate p).1 ≡ true) × (sat_cube m (propagate p).0.trail ≡ true)
  propagate_sound p m v f t = elim (Bool-cases (propagate p).1) [
    | inl ok ↦ (ok, Steps_sound cs n m (propagate-RunSteps p v).0 f t)
    | inr conflict ↦ absurd ((propagate-RunSteps p v).1 conflict m f t)
  ]
