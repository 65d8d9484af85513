-- ===== src/Cli/Heuristic/Choice.antt =====
-- What `JWTSBranchingCubeHeuristic::next` of cube_gen_cli/cube_gen_cli.cpp returns: the first of the
-- open variables of the highest score, and the scratch buffer as it was.
use hydra_sat.Base.{
  ℕ, zero, suc, ◌+◌, ◌≤◌, ◌<◌, ◌≡◌, refl, sym, ap, subst, ◌∙◌, ◌↔◌, ◌⊎◌, inl, inr, Bool, true,
  false, List, Option, none, some, Bool-cases, Option-cases, length, get_or, length-replicate,
  get_or-replicate, arith,
}
use hydra_sat.Cli.Lit.{Lit}
use hydra_sat.Cli.Propagator.Trail.{mentions}
use hydra_sat.Cli.Double.{Double}
use hydra_sat.Cli.Heuristic.Jwts.{Jwts, new_jwts, mark, score, consider, pick, next}
use hydra_sat.Cli.Heuristic.Marks.{get_or-mark, IsClear, mark_unmark}
use hydra_sat.Cli.Heuristic.{BranchingCubeHeuristic}

module _ (F : Double) where
  open F use {D, minus_one, gt, gt_irrefl, gt_trans, le_trans}

  module _ (sc : ℕ → D) (ms : List Bool) where
    -- What the loop knows once it has gone through the variables below `v`.
    record Picked (v : ℕ) (b : Option ℕ × D) : Type 0 where
      chosen :
          (w : ℕ) → b.0 ≡ some w → (1 ≤ w) × (w < v) × (get_or ms w false ≡ false) × (b.1 ≡ sc w)
      nothing : b.0 ≡ none → b.1 ≡ minus_one
      highest : (u : ℕ) → 1 ≤ u → u < v → get_or ms u false ≡ false → gt (sc u) b.1 ≡ false
      first :
          (w u : ℕ)
          → b.0 ≡ some w
          → 1 ≤ u
          → u < w
          → get_or ms u false ≡ false
          → gt (sc w) (sc u) ≡ true

    up_to : (u v : ℕ) → u < v + 1 → (u ≡ v) ⊎ (u < v)
    up_to u v h = ground arith

    stays :
        (v : ℕ) (b : Option ℕ × D)
        → (get_or ms v false ≡ true) ⊎ (gt (sc v) b.1 ≡ false)
        → Picked v b
        → Picked (v + 1) b
    stays v b why p = record {
      chosen = λ w e. let (lo, hi, open_var, s) = p.chosen w e in (lo, omega arith, open_var, s);
      nothing = p.nothing;
      highest = λ u lo hi open_var. last u (up_to u v hi) lo open_var why;
      first = p.first;
    }
      where
        last :
            (u : ℕ)
            → (u ≡ v) ⊎ (u < v)
            → 1 ≤ u
            → get_or ms u false ≡ false
            → (get_or ms v false ≡ true) ⊎ (gt (sc v) b.1 ≡ false)
            → gt (sc u) b.1 ≡ false
        last u (inr below) lo open_var why = p.highest u lo below open_var
        last u (inl e) lo open_var (inr low) = rw e low
        last u (inl e) lo open_var (inl taken) = absurd (cc (ap (λ k. get_or ms k false) e))

    takes :
        (v : ℕ) (b : Option ℕ × D)
        → 1 ≤ v
        → get_or ms v false ≡ false
        → gt (sc v) b.1 ≡ true
        → Picked v b
        → Picked (v + 1) (some v, sc v)
    takes v b lo open_var more p = record {
      chosen = λ w e.
          let same : v ≡ w = ground arith in
          subst (λ k. (1 ≤ k) × (k < v + 1) × (get_or ms k false ≡ false) × (sc v ≡ sc k)) same
            (lo, omega arith, open_var, refl);
      nothing = λ e. cc;
      highest = λ u l hi o. last u (up_to u v hi) l o;
      first = λ w u e l hi o.
          let same : v ≡ w = ground arith in rw (← same) (beats u l (omega arith) o);
    }
      where
        last :
            (u : ℕ)
            → (u ≡ v) ⊎ (u < v)
            → 1 ≤ u
            → get_or ms u false ≡ false
            → gt (sc u) (sc v) ≡ false
        last u (inl e) l o = rw e (gt_irrefl (sc v))
        last u (inr below) l o = elim (Bool-cases (gt (sc u) (sc v))) [
          | inl above ↦ absurd (cc (p.highest u l below o, gt_trans (sc u) (sc v) b.1 above more))
          | inr low ↦ low
        ]

        beats : (u : ℕ) → 1 ≤ u → u < v → get_or ms u false ≡ false → gt (sc v) (sc u) ≡ true
        beats u l below o = elim (Bool-cases (gt (sc v) (sc u))) [
          | inl above ↦ above
          | inr low ↦ absurd (cc (more, le_trans (sc v) (sc u) b.1 low (p.highest u l below o)))
        ]

    consider-Picked :
        (v : ℕ) (b : Option ℕ × D) → 1 ≤ v → Picked v b → Picked (v + 1) (consider F sc ms v b)
    unfolding consider
    consider-Picked v (best, s) lo p = elim (Bool-cases (get_or ms v false)) [
      | inl taken ↦ rw taken (stays v (best, s) (inl taken) p)
      | inr open_var ↦ elim (Bool-cases (gt (sc v) s)) [
        | inl more ↦ rw (open_var, more) (takes v (best, s) lo open_var more p)
        | inr low ↦ rw (open_var, low) (stays v (best, s) (inr low) p)
      ]
    ]

    pick-Picked :
        (k v : ℕ) (b : Option ℕ × D) (end : ℕ)
        → 1 ≤ v
        → v + k ≡ end
        → Picked v b
        → Picked end (pick F sc ms k v b)
    unfolding pick
    pick-Picked zero v b end lo e p =
        let same : v ≡ end = omega arith in subst (λ n. Picked n b) same p
    pick-Picked (suc k) v b end lo e p =
        pick-Picked k (v + 1) (consider F sc ms v b) end (omega arith) (omega arith)
          (consider-Picked v b lo p)

    start-Picked : Picked 1 (none, minus_one)
    start-Picked = record {
      chosen = λ w e. cc;
      nothing = λ e. refl;
      highest = λ u lo hi o. absurd (omega arith);
      first = λ w u e lo hi o. cc;
    }

  -- A heuristic between two calls of `next`.
  abbrev pub IsReady : Jwts F → Type 0
  IsReady h = (length h.marked ≡ h.nb_vars + 1) × IsClear h.marked

  -- The constructor makes a heuristic that is ready.
  pub new_jwts-IsReady : (n : ℕ) (cs : List (List Lit)) → IsReady (new_jwts F n cs)
  unfolding new_jwts
  new_jwts-IsReady n cs = (length-replicate (n + 1) false, λ v. get_or-replicate (n + 1) v false)

  module _ (level : ℕ → D) (h : Jwts F) (ready : IsReady h) where
    -- The variables that the formula has and the cube leaves open.
    abbrev pub IsOpen : List Lit → ℕ → Type 0
    IsOpen lits u = (1 ≤ u) × (u ≤ h.nb_vars) × (mentions u lits ≡ false)

    abbrev score_of : ℕ → D
    score_of = score F level h.jwts

    picked :
        (lits : List Lit)
        → Picked score_of
            (mark true lits h.marked)
            (h.nb_vars + 1)
            (pick F score_of (mark true lits h.marked) h.nb_vars 1 (none, minus_one))
    picked lits =
        pick-Picked score_of (mark true lits h.marked) h.nb_vars 1 (none, minus_one) (h.nb_vars + 1)
          (omega arith) (omega arith) (start-Picked score_of (mark true lits h.marked))

    marked-mentions :
        (lits : List Lit) (u : ℕ)
        → u ≤ h.nb_vars
        → get_or (mark true lits h.marked) u false ≡ mentions u lits
    marked-mentions lits u le = ground (arith, get_or-mark true lits h.marked u, ready.0, ready.1 u)

    -- Where the scratch buffer is clear and `next` returns a variable, the cube leaves it open, no open
    -- variable has a higher score, the open variables before it have lower scores, and the state of
    -- the heuristic, the buffer included, is as it was.
    pub next_best :
        (lits : List Lit) (w : ℕ)
        → (next F level h lits).0 ≡ some w
        → IsOpen lits w
          × ((u : ℕ) → IsOpen lits u → gt (score_of u) (score_of w) ≡ false)
          × ((u : ℕ) → IsOpen lits u → u < w → gt (score_of w) (score_of u) ≡ true)
          × ((next F level h lits).1 ≡ h)
    unfolding next
    next_best lits w e = (
      opened (found.chosen w e),
      λ u o. rw (← (found.chosen w e).3) (found.highest u o.0 (omega (arith, o.1)) (unmarked u o)),
      λ u o lt. found.first w u e o.0 lt (unmarked u o),
      ap (λ ms. record h { marked = ms }) (mark_unmark lits h.marked ready.1),
    )
      where
        found :
            Picked score_of
              (mark true lits h.marked)
              (h.nb_vars + 1)
              (pick F score_of (mark true lits h.marked) h.nb_vars 1 (none, minus_one))
        found = picked lits

        unmarked : (u : ℕ) → IsOpen lits u → get_or (mark true lits h.marked) u false ≡ false
        unmarked u o = marked-mentions lits u o.1 ∙ o.2

        opened :
            (1 ≤ w)
              × (w < h.nb_vars + 1)
              × (get_or (mark true lits h.marked) w false ≡ false)
              × ((pick F score_of (mark true lits h.marked) h.nb_vars 1 (none, minus_one)).1
                  ≡ score_of w)
            → IsOpen lits w
        opened (lo, hi, o, s) = (lo, omega arith, sym (marked-mentions lits w (omega arith)) ∙ o)

    -- Where the buffer is clear and every score is above -1, `next` returns var_Undef exactly when the cube leaves no variable
    -- of the formula open.
    pub next-eq-none :
        (lits : List Lit)
        → ((u : ℕ) → gt (score_of u) minus_one ≡ true)
        → ((next F level h lits).0 ≡ none) ↔ ((u : ℕ) → ¬ IsOpen lits u)
    unfolding next
    next-eq-none lits above = (
      λ e u o. cc (
        above u,
        (picked lits).nothing e,
        (picked lits).highest u o.0 (omega (arith, o.1)) (marked-mentions lits u o.1 ∙ o.2),
      ),
      λ closed. elim (Option-cases (next F level h lits).0) [
        | inl e ↦ e
        | inr (w, e) ↦ absurd (closed w (next_best lits w e).0)
      ],
    )

  -- The heuristic as the cube generator sees it.
  abbrev pub jwts_heuristic :
      (level : ℕ → D) (h : Jwts F) → IsReady h → BranchingCubeHeuristic h.nb_vars
  jwts_heuristic level h ready = record {
    next = λ lits. (next F level h lits).0;
    next_range = λ lits v e. let o = (next_best level h ready lits v e).0 in (o.0, o.1);
    next_open = λ lits v e. (next_best level h ready lits v e).0.2;
  }
