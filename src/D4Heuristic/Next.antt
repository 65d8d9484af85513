-- ===== src/D4Heuristic/Next.antt =====
-- The variable that `D4BranchingCubeHeuristic` of cube_generator/src/branchingHeuristic chooses, and the
-- heuristics that its factory makes.
use hydra_sat.Base.{
  elim_some, ℕ, ◌+◌, ◌≤◌, ◌≡◌, refl, sym, ap, subst, ◌∙◌, ◌≢◌, ◌⊎◌, inl, inr, true, false, not,
  List, [], ◌∷◌, map, some, length, replicate, All, All-get_or, All-replicate, length-replicate,
  arith,
}
use hydra_sat.Formula.ProblemTypes.{Lit}
use hydra_sat.Formula.WeightedCnf.{FormulaTypeEnum, mp_none, mp_int, mp_float}
use hydra_sat.Options.Tables.{BranchingCubeHeuristic, random, vsads, vsids, dlcs, mom, jwts}
use hydra_sat.D4Heuristic.{
  Library, D4BranchingCubeHeuristic, ScoringMethodType, score_vsads, score_vsids, score_mom,
  score_dlcs, score_jwts, made, unsupported, to_d4, mark, collect, select_from, next, Chosen,
  var_undef, branch_on, failed, only, new, scoring_of, make_branching_cube_heuristic,
}
use hydra_sat.Formula.Models.{is_in}
use hydra_sat.D4Heuristic.Marks.{listed, get_or-mark, unmark, listed-collect}

module _ (L : Library) where
  open L use {D4Lit, var_of, Manager, select_lit_set, pre_update, is_skipped}

  -- What BranchingHeuristicClassic::selectLitSet leaves in its list: one literal, on a variable that it gets
  -- and does not skip, or nothing where it skips all of them.
  pub data Selection (vs : List ℕ) (m : Manager) : List D4Lit → Type 0 where
    selected :
        {l : D4Lit}
        → listed (var_of l) vs ≡ true
        → is_skipped m (var_of l) ≡ false
        → Selection vs m (l ∷ [])
    nothing : ((v : ℕ) → listed v vs ≡ true → is_skipped m v ≡ true) → Selection vs m []

  unfoldable pub Selects : Type 0
  Selects =
      (s : ScoringMethodType) (vs : List ℕ) (m : Manager) → Selection vs m (select_lit_set s vs m).0

  -- The marks between two calls.
  pub record IsClear (h : D4BranchingCubeHeuristic L) : Type 0 where
    pub length_eq : length h.marked ≡ h.nb_variables + 1
    pub all_false : All (λ b. b ≡ false) h.marked

  -- A variable of the formula that the cube leaves open.
  abbrev pub IsLeft : ℕ → List Lit → ℕ → Type 0
  IsLeft n lits v = (1 ≤ v) × (v ≤ n) × (is_in v lits ≡ false)

  -- A choice among the variables from 1 to n without those of the cube, of which d4 skips some.
  pub data IsChoice (n : ℕ) (lits : List Lit) (m : Manager) : Chosen → Type 0 where
    none_left : ((v : ℕ) → ¬ IsLeft n lits v) → IsChoice n lits m var_undef
    one_left : {v : ℕ} → IsLeft n lits v → is_skipped m v ≡ false → IsChoice n lits m (branch_on v)
    all_skipped :
        {u : ℕ}
        → IsLeft n lits u
        → ((v : ℕ) → IsLeft n lits v → is_skipped m v ≡ true)
        → IsChoice n lits m failed

  listed-cube :
      (h : D4BranchingCubeHeuristic L) (lits : List Lit) (v : ℕ)
      → IsClear h
      → 1 ≤ v
      → v ≤ h.nb_variables
      → listed v (collect L (mark L true lits h.marked) 1 h.nb_variables) ≡ not (is_in v lits)
  listed-cube h lits v c ge le =
      let marks = get_or-mark L true lits h.marked v (omega (arith, c.length_eq)) in
      let clear = All-get_or (λ b. b ≡ false) h.marked v false refl c.all_false in
      listed-collect L (mark L true lits h.marked) v 1 h.nb_variables ∙ ground (arith, marks, clear)

  listed-range :
      (h : D4BranchingCubeHeuristic L) (lits : List Lit) (v : ℕ)
      → listed v (collect L (mark L true lits h.marked) 1 h.nb_variables) ≡ true
      → (1 ≤ v) × (v ≤ h.nb_variables)
  listed-range h lits v e =
      let spec = listed-collect L (mark L true lits h.marked) v 1 h.nb_variables in
      (ground (arith, spec, e), ground (arith, spec, e))

  select_from-IsChoice :
      (lits : List Lit) (before : Manager) (h : D4BranchingCubeHeuristic L) (n : ℕ) (vs : List ℕ)
      → Selects
      → ((v : ℕ) → 1 ≤ v → v ≤ n → listed v vs ≡ not (is_in v lits))
      → ((v : ℕ) → listed v vs ≡ true → (1 ≤ v) × (v ≤ n))
      → ((select_from L lits before h vs).1.marked ≡ h.marked)
        × IsChoice n lits before (select_from L lits before h vs).0
  unfolding select_from Selects listed
  select_from-IsChoice lits before h n [] s free range =
      (refl, none_left (λ v o. ground (arith, free v o.0 o.1, o.2)))
  select_from-IsChoice lits before h n (v ∷ vs) s free range = (
    refl,
    by_selection (select_lit_set h.scoring (v ∷ vs) before).0 (s h.scoring (v ∷ vs) before),
  )
    where
      is_left : (u : ℕ) → listed u (v ∷ vs) ≡ true → IsLeft n lits u
      is_left u inside =
          let (ge, le) = range u inside in (ge, le, ground (arith, free u ge le, inside))

      by_selection :
          (ls : List D4Lit) → Selection (v ∷ vs) before ls → IsChoice n lits before (only L ls)
      by_selection ls (selected {l} inside kept) = one_left (is_left (var_of l) inside) kept
      by_selection ls (nothing skipped) =
          all_skipped (is_left v (ground arith))
            (λ u o. skipped u (ground (arith, free u o.0 o.1, o.2)))

  select_from-nb_variables :
      (lits : List Lit) (before : Manager) (h : D4BranchingCubeHeuristic L) (vs : List ℕ)
      → (select_from L lits before h vs).1.nb_variables ≡ h.nb_variables
  unfolding select_from
  select_from-nb_variables lits before h [] = refl
  select_from-nb_variables lits before h (v ∷ vs) = refl

  -- Between two calls no variable is marked. Then next leaves no variable marked, and it gives var_Undef only
  -- if all variables from 1 to n are in the cube; a variable only if it is one of them that is not in the cube
  -- and that d4 does not skip; and its assertion fails only if some are not in the cube and d4 skips them all.
  -- The variables that d4 skips are those after preUpdate with the cube.
  pub next-IsChoice :
      {P : Type 0} (lits : List Lit) (partial_order : P) (h : D4BranchingCubeHeuristic L)
      → Selects
      → IsClear h
      → ((next L lits partial_order h).1.marked ≡ h.marked)
        × IsChoice h.nb_variables lits
            (pre_update (to_d4 L lits) h.manager)
            (next L lits partial_order h).0
  unfolding next Selects
  next-IsChoice lits partial_order h s c =
      let (same, choice) =
        select_from-IsChoice lits (pre_update (to_d4 L lits) h.manager)
          (record h { marked = mark L false lits (mark L true lits h.marked) }) h.nb_variables
          (collect L (mark L true lits h.marked) 1 h.nb_variables) s
          (λ v ge le. listed-cube h lits v c ge le) (λ v e. listed-range h lits v e) in
      (same ∙ unmark L lits h.marked c.all_false, choice)

  -- `next` leaves the heuristic as clear as it was, over as many variables.
  pub next-IsClear :
      {P : Type 0} (lits : List Lit) (partial_order : P) (h : D4BranchingCubeHeuristic L)
      → Selects
      → IsClear h
      → IsClear (next L lits partial_order h).1
        × ((next L lits partial_order h).1.nb_variables ≡ h.nb_variables)
  unfolding next
  next-IsClear lits partial_order h s c =
      let marks = (next-IsChoice lits partial_order h s c).0 in
      let vars =
        select_from-nb_variables lits (pre_update (to_d4 L lits) h.manager)
          (record h { marked = mark L false lits (mark L true lits h.marked) })
          (collect L (mark L true lits h.marked) 1 h.nb_variables) in
      (
        record {
          length_eq = ap length marks ∙ c.length_eq ∙ ap (λ n. n + 1) (sym vars);
          all_false = subst (All (λ b. b ≡ false)) (sym marks) c.all_false;
        },
        vars,
      )

  abbrev pub start :
      ℕ → L.Weights → List (List Lit) → ScoringMethodType → D4BranchingCubeHeuristic L
  start n w cs sc = record {
    nb_variables = n;
    marked = replicate (n + 1) false;
    manager = L.new_manager n w (map (to_d4 L) cs);
    scoring = sc;
  }

  pub start-IsClear :
      (n : ℕ) (w : L.Weights) (cs : List (List Lit)) (sc : ScoringMethodType)
      → IsClear (start n w cs sc)
  start-IsClear n w cs sc = record {
    length_eq = length-replicate (n + 1) false;
    all_false = All-replicate (λ b. b ≡ false) (n + 1) false refl;
  }

  pub new-start :
      (type : FormulaTypeEnum) (n : ℕ) (w : L.Weights) (cs : List (List Lit))
      (option : BranchingCubeHeuristic) (sc : ScoringMethodType)
      → type ≢ mp_none
      → scoring_of option ≡ some sc
      → new L type n w cs option ≡ made (start n w cs sc)
  unfolding new
  new-start mp_none n w cs option sc typed e = absurd (typed refl)
  new-start mp_int n w cs option sc typed e = elim_some unsupported (λ k. made (start n w cs k)) e
  new-start mp_float n w cs option sc typed e = elim_some unsupported (λ k. made (start n w cs k)) e

  -- For a formula with a type of weights the factory makes a heuristic, whatever the option: the random
  -- one, or one of d4 without a mark.
  make_branching_cube_heuristic_lem :
      {R : Type 0} (r : R) (type : FormulaTypeEnum) (n : ℕ) (w : L.Weights) (cs : List (List Lit))
      (option : BranchingCubeHeuristic)
      → type ≢ mp_none
      → (make_branching_cube_heuristic L r type n w cs option ≡ inl r)
        ⊎ ((h : D4BranchingCubeHeuristic L) × (make_branching_cube_heuristic L r type n w cs option
              ≡ inr (made h))
            × IsClear h)
  unfolding make_branching_cube_heuristic scoring_of
  make_branching_cube_heuristic_lem r type n w cs random typed = inl refl
  make_branching_cube_heuristic_lem r type n w cs vsads typed = inr (
    start n w cs score_vsads,
    ap inr (new-start type n w cs vsads score_vsads typed refl),
    start-IsClear n w cs score_vsads,
  )
  make_branching_cube_heuristic_lem r type n w cs vsids typed = inr (
    start n w cs score_vsids,
    ap inr (new-start type n w cs vsids score_vsids typed refl),
    start-IsClear n w cs score_vsids,
  )
  make_branching_cube_heuristic_lem r type n w cs mom typed = inr (
    start n w cs score_mom,
    ap inr (new-start type n w cs mom score_mom typed refl),
    start-IsClear n w cs score_mom,
  )
  make_branching_cube_heuristic_lem r type n w cs dlcs typed = inr (
    start n w cs score_dlcs,
    ap inr (new-start type n w cs dlcs score_dlcs typed refl),
    start-IsClear n w cs score_dlcs,
  )
  make_branching_cube_heuristic_lem r type n w cs jwts typed = inr (
    start n w cs score_jwts,
    ap inr (new-start type n w cs jwts score_jwts typed refl),
    start-IsClear n w cs score_jwts,
  )
