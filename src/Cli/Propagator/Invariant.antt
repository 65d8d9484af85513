-- ===== src/Cli/Propagator/Invariant.antt =====
-- The invariant of `Propagator` of cube_gen_cli/cube_gen_cli.cpp, and the small steps by which unit
-- propagation changes its state.
use mathlib.Core.List.{append-nil, append_assoc}
use hydra_sat.Base.{
  ℕ, ◌+◌, ◌≤◌, ◌<◌, ◌≡◌, refl, sym, ap, ◌∙◌, true, false, List, [], ◌∷◌, ◌++◌, length, All,
  All-append, length-append, length-set, arith,
}
use hydra_sat.Cli.Lit.{Lit, Model, var, holds, sat_cube, sat_formula, sat_cube-append}
use hydra_sat.Cli.Propagator.{Propagator, value, unchecked_enqueue, polarity}
use hydra_sat.Cli.Propagator.Trail.{
  mentions, Distinct, Reflects, Below, set-Reflects_snoc, Distinct-snoc,
}
use hydra_sat.Cli.Propagator.Clause.{value-eq-two}

module _ (cs : List (List Lit)) (n : ℕ) where
  -- Lists of clause numbers.
  abbrev pub IsWatchList : List ℕ → Type 0
  IsWatchList = All (λ ci. ci < length cs)

  -- The state of a propagator over the clauses `cs` with `n` entries in m_assign.
  pub record IsValid (p : Propagator) : Type 0 where
    pub same_clauses : p.clauses ≡ cs
    pub same_length : length p.assign ≡ n
    pub watch_lists : All IsWatchList p.watches
    pub reflects : Reflects p.assign p.trail
    pub distinct : Distinct p.trail
    pub trail_below : Below n p.trail
    pub qhead_le : p.qhead ≤ length p.trail

  -- Every assignment that satisfies the clauses and the trail satisfies `l`.
  abbrev pub Implied : Propagator → Lit → Type 0
  Implied p l = (m : Model) → sat_formula m cs ≡ true → sat_cube m p.trail ≡ true → holds m l ≡ true

  -- No assignment satisfies the clauses and the trail.
  abbrev pub Refuted : Propagator → Type 0
  Refuted p = (m : Model) → sat_formula m cs ≡ true → sat_cube m p.trail ≡ true → ⊥

  pub data Step (p : Propagator) : Propagator → Type 0 where
    rewatch : (ws : List (List ℕ)) → All IsWatchList ws → Step p (record p { watches = ws })
    enqueue :
        (l : Lit) → var l < n → value p.assign l ≡ 2 → Implied p l → Step p (unchecked_enqueue p l)
    dequeue : p.qhead < length p.trail → Step p (record p { qhead = p.qhead + 1 })
    flag : Refuted p → Step p (record p { unsat = true })

  pub data Steps (p : Propagator) : Propagator → Type 0 where
    done : Steps p p
    next : {q r : Propagator} → Steps p q → Step q r → Steps p r

  pub Steps_trans : {p q r : Propagator} → Steps p q → Steps q r → Steps p r
  Steps_trans s done = s
  Steps_trans s (next t u) = next (Steps_trans s t) u

  pub unchecked_enqueue-IsValid :
      (p : Propagator) (l : Lit)
      → var l < n
      → mentions (var l) p.trail ≡ false
      → IsValid p
      → IsValid (unchecked_enqueue p l)
  unfolding unchecked_enqueue
  unchecked_enqueue-IsValid p l lt fresh v = record {
    same_clauses = v.same_clauses;
    same_length = length-set p.assign (var l) (polarity l) ∙ v.same_length;
    watch_lists = v.watch_lists;
    reflects = set-Reflects_snoc p.assign p.trail l (omega (arith, v.same_length)) fresh v.reflects;
    distinct = Distinct-snoc p.trail l fresh v.distinct;
    trail_below = All-append (λ k. var k < n) p.trail (l ∷ []) v.trail_below (lt, tt);
    qhead_le = omega (arith, v.qhead_le, length-append p.trail (l ∷ []));
  }

  pub Step-IsValid : {p q : Propagator} → Step p q → IsValid p → IsValid q
  Step-IsValid {p} (rewatch ws h) v = record {
    same_clauses = v.same_clauses;
    same_length = v.same_length;
    watch_lists = h;
    reflects = v.reflects;
    distinct = v.distinct;
    trail_below = v.trail_below;
    qhead_le = v.qhead_le;
  }
  Step-IsValid {p} (enqueue l lt u i) v =
      unchecked_enqueue-IsValid p l lt (value-eq-two p.assign p.trail l v.reflects u) v
  Step-IsValid {p} (dequeue h) v = record {
    same_clauses = v.same_clauses;
    same_length = v.same_length;
    watch_lists = v.watch_lists;
    reflects = v.reflects;
    distinct = v.distinct;
    trail_below = v.trail_below;
    qhead_le = omega (arith, h);
  }
  Step-IsValid {p} (flag c) v = record {
    same_clauses = v.same_clauses;
    same_length = v.same_length;
    watch_lists = v.watch_lists;
    reflects = v.reflects;
    distinct = v.distinct;
    trail_below = v.trail_below;
    qhead_le = v.qhead_le;
  }

  pub Steps-IsValid : {p q : Propagator} → Steps p q → IsValid p → IsValid q
  Steps-IsValid done v = v
  Steps-IsValid (next s t) v = Step-IsValid t (Steps-IsValid s v)

  -- Propagation only adds what the clauses and the trail imply.
  Step-sound :
      {p q : Propagator} (m : Model)
      → Step p q
      → sat_formula m cs ≡ true
      → sat_cube m p.trail ≡ true
      → sat_cube m q.trail ≡ true
  unfolding unchecked_enqueue sat_cube
  Step-sound m (rewatch ws h) f t = t
  Step-sound {p} m (enqueue l lt u i) f t =
      ground (arith, sat_cube-append m p.trail (l ∷ []), i m f t)
  Step-sound m (dequeue h) f t = t
  Step-sound m (flag c) f t = t

  pub Steps_sound :
      {p q : Propagator} (m : Model)
      → Steps p q
      → sat_formula m cs ≡ true
      → sat_cube m p.trail ≡ true
      → sat_cube m q.trail ≡ true
  Steps_sound m done f t = t
  Steps_sound m (next s u) f t = Step-sound m u f (Steps_sound m s f t)

  -- The trail is only extended.
  Step-trail : {p q : Propagator} → Step p q → (new : List Lit) × (q.trail ≡ p.trail ++ new)
  unfolding unchecked_enqueue
  Step-trail {p} (rewatch ws h) = ([], sym (append-nil p.trail))
  Step-trail {p} (enqueue l lt u i) = (l ∷ [], refl)
  Step-trail {p} (dequeue h) = ([], sym (append-nil p.trail))
  Step-trail {p} (flag c) = ([], sym (append-nil p.trail))

  pub Steps-trail : {p q : Propagator} → Steps p q → (new : List Lit) × (q.trail ≡ p.trail ++ new)
  Steps-trail {p} done = ([], sym (append-nil p.trail))
  Steps-trail {p} (next s u) = joined (Steps-trail s) (Step-trail u)
    where
      joined :
          {t u : List Lit}
          → (new : List Lit) × (t ≡ p.trail ++ new)
          → (new : List Lit) × (u ≡ t ++ new)
          → (new : List Lit) × (u ≡ p.trail ++ new)
      joined (xs, e) (ys, f) = (xs ++ ys, rw (f, e) (append_assoc p.trail xs ys))

  pub Steps-sat_cube :
      {p q : Propagator} (m : Model)
      → Steps p q
      → sat_cube m q.trail ≡ true
      → sat_cube m p.trail ≡ true
  Steps-sat_cube {p} {q} m s h = earlier (Steps-trail s)
    where
      earlier : (new : List Lit) × (q.trail ≡ p.trail ++ new) → sat_cube m p.trail ≡ true
      earlier (new, e) = ground (arith, ap (sat_cube m) e, sat_cube-append m p.trail new)

  pub Refuted-later : {p q : Propagator} → Steps p q → Refuted p → Refuted q
  Refuted-later s r m f t = r m f (Steps-sat_cube m s t)

  -- m_unsat is set only where there is a conflict.
  pub Steps-unsat : {p q : Propagator} → Steps p q → p.unsat ≡ false → q.unsat ≡ true → Refuted p
  unfolding unchecked_enqueue
  Steps-unsat done a b = cc
  Steps-unsat (next s (rewatch ws h)) a b = Steps-unsat s a b
  Steps-unsat (next s (enqueue l lt u i)) a b = Steps-unsat s a b
  Steps-unsat (next s (dequeue h)) a b = Steps-unsat s a b
  Steps-unsat (next s (flag c)) a b = λ m f t. c m f (Steps_sound m s f t)
