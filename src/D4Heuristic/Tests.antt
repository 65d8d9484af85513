-- ===== src/D4Heuristic/Tests.antt =====
-- `D4BranchingCubeHeuristic` of cube_generator/src/branchingHeuristic on a small cube, with a library that selects
-- the first variable.
use hydra_sat.Base.{
  ℕ, ◌≡◌, refl, subst, ◌≢◌, inl, inr, if◌then◌else◌, ◌==◌, ==_iff, Bool-cases, true, false, List,
  [], ◌∷◌, ◌++◌, length, drop, replicate, arith,
}
use hydra_sat.Formula.ProblemTypes.{Lit, var}
use hydra_sat.Formula.WeightedCnf.{mp_none, mp_int}
use hydra_sat.D4Heuristic.{Library, D4BranchingCubeHeuristic, score_vsids, next, branch_on}
use hydra_sat.D4Heuristic.Marks.{listed}
use hydra_sat.D4Heuristic.Next.{
  Selects, Selection, selected, nothing, IsClear, IsChoice, next-IsChoice,
}

-- The first variable that is not assigned.
unfoldable pub first : List ℕ → List ℕ → List ℕ
unfolding listed
first m [] = []
first m (v ∷ vs) = let rest = first m vs in if listed v m then rest else v ∷ []

-- The state of the manager is the variables that are assigned.
abbrev pub library : Library
library = record {
  D4Lit = ℕ;
  make_lit = λ v s. v;
  var_of = λ v. v;
  Weights = ℕ;
  Manager = List ℕ;
  new_manager = λ n w cs. [];
  pre_update = λ ls m. ls ++ m;
  post_update = λ ls m. drop (length ls) m;
  is_skipped = λ m v. listed v m;
  select_lit_set = λ s vs m. (first m vs, m);
}

abbrev heuristic : D4BranchingCubeHeuristic library
heuristic = record {
  nb_variables = 3;
  marked = replicate 4 false;
  manager = [];
  scoring = score_vsids;
}

-- 1 and -2
abbrev cube : List Lit
cube = record { m_x = 2 } ∷ record { m_x = 5 } ∷ []

first-Selection : (m vs : List ℕ) → Selection library vs m (first m vs)
unfolding first listed
first-Selection m [] = nothing (λ v e. absurd (cc e))
first-Selection m (v ∷ vs) = elim (Bool-cases (listed v m)) [
  | inl taken ↦ rw (taken, first) (wider (first m vs) (first-Selection m vs) taken)
  | inr free ↦ rw (free, first) (selected (ground arith) free)
]
  where
    wider :
        (ls : List ℕ)
        → Selection library vs m ls
        → listed v m ≡ true
        → Selection library (v ∷ vs) m ls
    wider ls (selected inside kept) taken = selected (ground (arith, inside)) kept
    wider ls (nothing skipped) taken = nothing (λ u e. elim (Bool-cases (v == u)) [
      | inl same ↦ subst (λ u. listed u m ≡ true) ((==_iff v u).0 same) taken
      | inr other ↦ skipped u (ground (arith, other, e))
    ])

pub selects : Selects library
unfolding Selects
selects s vs m = first-Selection m vs

clear : IsClear library heuristic
clear = record { length_eq = refl; all_false = (refl, (refl, (refl, (refl, tt)))) }

third : (next library cube true heuristic).0 ≡ branch_on 3
unfolding next var first listed
third = refl

next-IsChoice_example :
    ((next library cube true heuristic).1.marked ≡ replicate 4 false)
    × IsChoice library 3 cube (1 ∷ 2 ∷ []) (next library cube true heuristic).0
unfolding var
next-IsChoice_example = next-IsChoice library cube true heuristic selects clear

int_typed : mp_int ≢ mp_none
int_typed e = cc e
