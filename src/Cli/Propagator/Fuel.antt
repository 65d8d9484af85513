-- ===== src/Cli/Propagator/Fuel.antt =====
-- `propagate` of cube_gen_cli/cube_gen_cli.cpp ends with the queue empty, unless it meets a conflict:
-- the fuel of the model is never used up.
use hydra_sat.Base.{
  ℕ, zero, suc, ◌+◌, ◌≤◌, ◌<◌, ◌≡◌, refl, ◌≢◌, inl, inr, Bool, true, false, List, [], ◌∷◌, ℤ, pos,
  eqb_ℤ, ltb, ltb→lt, ltb→le, Bool-cases, length, get_or, set, All, length-append, arith,
}
use hydra_sat.Cli.Lit.{Lit, var}
use hydra_sat.Cli.Propagator.{
  Propagator, after_lit, propagate_lit, propagate_loop, propagate, value, unchecked_enqueue,
  polarity, count_unset, lit_zero,
}
use hydra_sat.Cli.Propagator.Trail.{Below, polarity-ne}
use hydra_sat.Cli.Propagator.Invariant.{
  IsValid, Step, Steps, rewatch, enqueue, dequeue, flag, done, next, Steps-IsValid,
}
use hydra_sat.Cli.Propagator.Sound.{propagate_lit-RunSteps}

count_unset-set :
    (a : List ℤ) (i : ℕ) (x : ℤ)
    → i < length a
    → get_or a i (pos 0) ≡ pos 0
    → x ≢ pos 0
    → suc (count_unset (set a i x)) ≡ count_unset a
unfolding count_unset
count_unset-set [] i x lt e ne = elim lt [ ]
count_unset-set (y ∷ a) zero x lt e ne = ground (arith, nonzero x)
  where
    nonzero : (x : ℤ) → (eqb_ℤ x (pos 0) ≡ true) → x ≡ pos 0
    nonzero x h = ground arith
count_unset-set (y ∷ a) (suc i) x lt e ne = omega (arith, count_unset-set a i x (omega arith) e ne)

value-two_get_or : (a : List ℤ) (l : Lit) → value a l ≡ 2 → get_or a (var l) (pos 0) ≡ pos 0
unfolding value
value-two_get_or a l h = ground arith

-- The literals on the trail and those that may still come.
total : Propagator → ℕ
total p = count_unset p.assign + length p.trail

module _ (cs : List (List Lit)) (n : ℕ) (below : All (Below n) cs) where
  Step-total :
      {p q : Propagator}
      → Step cs n p q
      → IsValid cs n p
      → (total q ≡ total p) × (p.qhead ≤ q.qhead)
  unfolding total unchecked_enqueue
  Step-total (rewatch ws h) v = (refl, omega arith)
  Step-total {p} (enqueue l lt u i) v = (
    omega (
      arith,
      length-append p.trail (l ∷ []),
      count_unset-set p.assign (var l) (polarity l) (omega (arith, v.same_length))
          (value-two_get_or p.assign l u) (polarity-ne l),
    ),
    omega arith,
  )
  Step-total (dequeue h) v = (refl, omega arith)
  Step-total (flag c) v = (refl, omega arith)

  Steps-total :
      {p q : Propagator}
      → Steps cs n p q
      → IsValid cs n p
      → (total q ≡ total p) × (p.qhead ≤ q.qhead)
  Steps-total done v = (refl, omega arith)
  Steps-total (next s t) v = omega (arith, Steps-total s v, Step-total t (Steps-IsValid cs n s v))

  abbrev Ends : Propagator × Bool → Type 0
  Ends (q, ok) = ok ≡ true → q.qhead ≡ length q.trail

  -- With no more literals to come than rounds, the loop empties the queue or meets a conflict.
  propagate_loop-Ends :
      (f : ℕ) (p : Propagator) → IsValid cs n p → total p ≤ f + p.qhead → Ends (propagate_loop f p)
  unfolding propagate_loop
  propagate_loop-Ends zero p v b = unfold total in λ _. omega (arith, v.qhead_le)
  propagate_loop-Ends (suc f) p v b = elim (Bool-cases (ltb p.qhead (length p.trail))) [
    | inr at_end ↦ rw (at_end, propagate_loop) (λ _. omega (arith, v.qhead_le, ltb→le _ _ at_end))
    | inl more ↦
        let first : Steps cs n p start = next done (dequeue (ltb→lt _ _ more)) in
        let v' : IsValid cs n start = Steps-IsValid cs n first v in
        rw (more, propagate_loop)
          (rest (propagate_loop f) (propagate_loop-Ends f) (propagate_lit start lit)
            (propagate_lit-RunSteps cs n below start lit v').0 v')
  ]
    where
      start : Propagator
      start = record p { qhead = p.qhead + 1 }

      lit : Lit
      lit = get_or p.trail p.qhead lit_zero

      rest :
          (k : Propagator → Propagator × Bool)
          → ((q : Propagator) → IsValid cs n q → total q ≤ f + q.qhead → Ends (k q))
          → (r : Propagator × Bool) → Steps cs n start r.0
          → IsValid cs n start
          → Ends (after_lit k r)
      rest k ih (q, true) s v' =
          let same : (total q ≡ total p) × (p.qhead + 1 ≤ q.qhead) =
            unfold total in Steps-total s v' in
          ih q (Steps-IsValid cs n s v') (omega arith)
      rest k ih (q, false) s v' = λ e. cc

  -- From a valid state, propagation that reports no conflict has looked at every literal on the trail
  -- that it leaves: it had rounds enough.
  pub propagate_complete :
      (p : Propagator)
      → IsValid cs n p
      → (propagate p).1 ≡ true
      → (propagate p).0.qhead ≡ length (propagate p).0.trail
  unfolding propagate total
  propagate_complete p v ok = propagate_loop-Ends _ p v (omega arith) ok
