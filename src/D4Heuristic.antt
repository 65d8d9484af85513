-- ===== src/D4Heuristic.antt =====
-- cube_generator/src/branchingHeuristic: `D4BranchingCubeHeuristic` over the heuristics of the d4 library, and the
-- factory of BranchingCubeHeuristic.cpp.
pub mod Marks
pub mod Next
pub mod Tests
use hydra_sat.Base.{
  ℕ, zero, suc, ◌+◌, ◌⊎◌, inl, inr, Bool, true, false, List, [], ◌∷◌, map, Option, none, some,
  if◌then◌else◌, get_or, set, replicate,
}
use hydra_sat.Formula.ProblemTypes.{Lit, var, sign}
use hydra_sat.Formula.WeightedCnf.{FormulaTypeEnum, mp_none, mp_int, mp_float}
use hydra_sat.Options.Tables.{BranchingCubeHeuristic, random, vsads, vsids, dlcs, mom, jwts}

-- The scores of d4 that the constructor chooses from.
pub data ScoringMethodType : Type 0 where
  score_vsads score_vsids score_mom score_dlcs score_jwts : ScoringMethodType

-- The switch of the constructor; `none` where it throws.
unfoldable pub scoring_of : BranchingCubeHeuristic → Option ScoringMethodType
scoring_of vsads = some score_vsads
scoring_of vsids = some score_vsids
scoring_of mom = some score_mom
scoring_of dlcs = some score_dlcs
scoring_of jwts = some score_jwts
scoring_of random = none

-- What `next` returns: var_Undef, a variable, or a failing assert.
pub data Chosen : Type 0 where
  var_undef failed : Chosen
  branch_on : ℕ → Chosen

-- The calls of d4: its literals, the manager of the formula, and the heuristic, which may change its state.
-- `is_skipped` is varIsAssigned, or no decision variable: the variables that selectLitSet passes over.
pub record Library : Type 1 where
  pub D4Lit : Type 0
  pub make_lit : ℕ → Bool → D4Lit
  pub var_of : D4Lit → ℕ
  pub Weights : Type 0
  pub Manager : Type 0
  pub new_manager : ℕ → Weights → List (List D4Lit) → Manager
  pub pre_update : List D4Lit → Manager → Manager
  pub post_update : List D4Lit → Manager → Manager
  pub is_skipped : Manager → ℕ → Bool
  pub select_lit_set : ScoringMethodType → List ℕ → Manager → List D4Lit × Manager

module _ (L : Library) where
  open L use {
    D4Lit, make_lit, var_of, Weights, Manager, new_manager, pre_update, post_update, select_lit_set,
  }

  -- m_cnfManager and the heuristic are one state here.
  pub record D4BranchingCubeHeuristic : Type 0 where
    pub nb_variables : ℕ
    pub marked : List Bool
    pub manager : Manager
    pub scoring : ScoringMethodType

  -- How the constructor ends.
  pub data Made : Type 0 where
    made : D4BranchingCubeHeuristic → Made
    no_type unsupported : Made

  abbrev pub to_d4 : List Lit → List D4Lit
  to_d4 = map (λ l. make_lit (var l) (sign l))

  unfoldable pub new :
      FormulaTypeEnum → ℕ → Weights → List (List Lit) → BranchingCubeHeuristic → Made
  unfolding scoring_of
  new mp_none n weights clauses option = no_type
  new mp_int n weights clauses option = elim (scoring_of option) [
    | none ↦ unsupported
    | some scoring ↦ made (record {
      nb_variables = n;
      marked = replicate (n + 1) false;
      manager = new_manager n weights (map to_d4 clauses);
      scoring = scoring;
    })
  ]
  new mp_float n weights clauses option = elim (scoring_of option) [
    | none ↦ unsupported
    | some scoring ↦ made (record {
      nb_variables = n;
      marked = replicate (n + 1) false;
      manager = new_manager n weights (map to_d4 clauses);
      scoring = scoring;
    })
  ]

  -- m_marked[l.var()] = b for each literal.
  unfoldable pub mark : Bool → List Lit → List Bool → List Bool
  mark b [] marked = marked
  mark b (l ∷ ls) marked = mark b ls (set marked (var l) b)

  -- The variables without a mark among `k` from `i` on.
  unfoldable pub collect : List Bool → ℕ → ℕ → List ℕ
  collect marked i zero = []
  collect marked i (suc k) =
      let rest = collect marked (suc i) k in if get_or marked i false then rest else i ∷ rest

  -- assert(d4Lits.size() == 1), and the variable of the literal.
  abbrev pub only : List D4Lit → Chosen
  only (l ∷ []) = branch_on (var_of l)
  only _ = failed

  -- From the test on the variables on, after preUpdate made `before`.
  unfoldable pub select_from :
      List Lit → Manager → D4BranchingCubeHeuristic → List ℕ → Chosen × D4BranchingCubeHeuristic
  select_from lits before h [] = (var_undef, record h { manager = post_update (to_d4 lits) before })
  select_from lits before h (v ∷ vs) =
      let (d4_lits, after) = select_lit_set h.scoring (v ∷ vs) before in
      (only d4_lits, record h { manager = post_update (to_d4 lits) after })

  -- The source does not use the partial order.
  unfoldable pub next :
      {P : Type 0} → List Lit → P → D4BranchingCubeHeuristic → Chosen × D4BranchingCubeHeuristic
  unfolding mark collect select_from
  next lits partial_order h =
      let before = pre_update (to_d4 lits) h.manager in
      let marked = mark true lits h.marked in
      let variables = collect marked 1 h.nb_variables in
      let unmarked = mark false lits marked in
      select_from lits before (record h { marked = unmarked }) variables

  -- BranchingCubeHeuristic::makeBranchingCubeHeuristic; the class of the random heuristic is not in the
  -- repository.
  unfoldable pub make_branching_cube_heuristic :
      {R : Type 0}
      → R
      → FormulaTypeEnum
      → ℕ
      → Weights
      → List (List Lit)
      → BranchingCubeHeuristic
      → R ⊎ Made
  unfolding new
  make_branching_cube_heuristic r type n weights clauses random = inl r
  make_branching_cube_heuristic r type n weights clauses vsads =
      inr (new type n weights clauses vsads)
  make_branching_cube_heuristic r type n weights clauses vsids =
      inr (new type n weights clauses vsids)
  make_branching_cube_heuristic r type n weights clauses mom = inr (new type n weights clauses mom)
  make_branching_cube_heuristic r type n weights clauses dlcs =
      inr (new type n weights clauses dlcs)
  make_branching_cube_heuristic r type n weights clauses jwts =
      inr (new type n weights clauses jwts)
