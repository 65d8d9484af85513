-- ===== src/TreeDecomp.antt =====
-- cube_generator/partialOrderHeuristic/PartialOrderHeuristicTreeDecompLocal.cpp and PartialOrderHeuristic.cpp, and
-- `getPartialOrderComputed` of cube_generator/CubeGeneratorCLI.cpp. An `unsigned` of 32 bits wraps around.
pub mod Merge
pub mod Degrees
pub mod Levels
pub mod Computed
mod Tests
use hydra_sat.Base.{
  ℕ, zero, suc, ◌+◌, ◌-◌, ◌*◌, ◌%◌, ◌^◌, ◌&&◌, List, [], ◌∷◌, map, Option, none, some, ℤ, pos,
  negsuc, eqb_ℤ, if◌then◌else◌, ltb, ◌==◌, length, get_or, set, drop, replicate,
}
use hydra_sat.Formula.ProblemTypes.{Lit, var}
use hydra_sat.Options.Tables.{PartialOrderCubeHeuristic, no_order, tree_decomposition}

-- INT_MAX
abbrev pub int_max : ℕ
int_max = 2 ^ 31 - 1

-- degree[l.var()]++
abbrev pub increment : ℕ → List ℕ → List ℕ
increment v degree = set degree v ((get_or degree v 0 + 1) % 2 ^ 32)

unfoldable pub count_lits : List Lit → List ℕ → List ℕ
count_lits [] degree = degree
count_lits (l ∷ ls) degree = count_lits ls (increment (var l) degree)

unfoldable pub count_clauses : List (List Lit) → List ℕ → List ℕ
unfolding count_lits
count_clauses [] degree = degree
count_clauses (c ∷ cs) degree = count_clauses cs (count_lits c degree)

-- std::max_element and `*`; 0 for no element, for which the source reads past the end.
unfoldable pub max_element : List ℕ → ℕ
max_element [] = 0
max_element (d ∷ ds) = let m = max_element ds in if ltb m d then d else m

-- maxDeg - degree + 1 on `unsigned`.
unfoldable pub level_of : ℕ → ℕ → ℕ
level_of max_deg degree = (max_deg + 2 ^ 32 - degree + 1) % 2 ^ 32

-- w * 1337 + 42
unfoldable pub seed_of : ℕ → ℕ
seed_of w = (w * 1337 + 42) % 2 ^ 32

-- What the threads share under the lock; `D` is double.
pub record Best (D : Type 0) : Type 0 where
  pub best_width : ℕ
  pub best_order : List D

-- The fields m_level and m_treewidth.
pub record TreeDecompLocal (D : Type 0) : Type 0 where
  pub level : List D
  pub treewidth : ℤ

module _ {D : Type 0} where
  -- The end of a thread, under the lock.
  unfoldable pub offer : ℤ × List D → Best D → Best D
  offer (negsuc n, order) best = best
  offer (pos width, order) best =
      if ltb width best.best_width then record { best_width = width; best_order = order } else best

  -- The threads, in the order in which they get the lock.
  unfoldable pub merge : List (ℤ × List D) → Best D → Best D
  unfolding offer
  merge [] best = best
  merge (r ∷ rs) best = merge rs (offer r best)

-- `of_nat` is the conversion of an `unsigned` to double.
module _ {D : Type 0} (one : D) (of_nat : ℕ → D) where
  -- runFlowCutter, which is a stub: a width and an order.
  unfoldable pub run_flow_cutter : ℕ → ℕ → ℤ × List D
  run_flow_cutter n seed = (negsuc 0, replicate (n + 1) one)

  abbrev pub no_best : ℕ → Best D
  no_best n = record { best_width = int_max; best_order = replicate (n + 1) one }

  -- The loop that gives `k` variables from `i` on their levels.
  unfoldable pub set_levels : ℕ → List ℕ → ℕ → ℕ → List D → List D
  unfolding level_of
  set_levels max_deg degree i zero levels = levels
  set_levels max_deg degree i (suc k) levels =
      set_levels max_deg degree (suc i) k
        (set levels i (of_nat (level_of max_deg (get_or degree i 0))))

  -- The constructor, once the threads left `best`.
  unfoldable pub with_best : Best D → ℕ → List (List Lit) → TreeDecompLocal D
  unfolding count_clauses max_element set_levels
  with_best best n cs =
      let treewidth : ℤ = if best.best_width == int_max then negsuc 0 else pos best.best_width in
      let degree = count_clauses cs (replicate (n + 1) 0) in
      let max_deg = max_element (drop 1 degree) in
      record {
        level =
            if ltb 0 max_deg && eqb_ℤ treewidth (negsuc 0)
            then set_levels max_deg degree 1 n best.best_order
            else best.best_order;
        treewidth = treewidth;
      }

  -- The constructor, with the results of the threads in the order in which they get the lock.
  unfoldable pub from_results : List (ℤ × List D) → ℕ → List (List Lit) → TreeDecompLocal D
  unfolding merge with_best
  from_results rs n cs = with_best (merge rs (no_best n)) n cs

  -- The constructor; `arrivals` are the threads in the order in which they get the lock.
  unfoldable pub tree_decomp_local : List ℕ → ℕ → List (List Lit) → TreeDecompLocal D
  unfolding run_flow_cutter seed_of from_results
  tree_decomp_local arrivals n cs =
      from_results (map (λ w. run_flow_cutter n (seed_of w)) arrivals) n cs

  -- getLevel; `none` where the assert fails.
  unfoldable pub get_level : TreeDecompLocal D → ℕ → Option D
  get_level t v = if ltb v (length t.level) then some (get_or t.level v one) else none

  -- `truncate` is the conversion to `unsigned`. The loop over `k` variables from `i` on.
  unfoldable pub compute_from :
      (truncate : D → ℕ) → TreeDecompLocal D → ℕ → ℕ → List ℕ → Option (List ℕ)
  unfolding get_level
  compute_from truncate t i zero order = some order
  compute_from truncate t i (suc k) order = elim (get_level t i) [
    | none ↦ none
    | some d ↦ compute_from truncate t (suc i) k (set order i (truncate d))
  ]

  -- CubeGeneratorCLI::getPartialOrderComputed, with or without a heuristic.
  unfoldable pub get_partial_order_computed :
      (truncate : D → ℕ) → Option (TreeDecompLocal D) → ℕ → Option (List ℕ)
  unfolding compute_from
  get_partial_order_computed truncate none n = some (replicate (n + 1) 1)
  get_partial_order_computed truncate (some t) n = compute_from truncate t 1 n (replicate (n + 1) 1)

-- PartialOrderHeuristic::makePartialOrderHeuristic: the two classes are not in the repository. Every value of
-- the enumeration has its case.
unfoldable pub make_partial_order_heuristic :
    {F H : Type 0}
    → (none_heuristic : H) (decomposition : F → ℕ → List ℕ → H) → F
    → ℕ
    → List ℕ
    → PartialOrderCubeHeuristic
    → H
make_partial_order_heuristic none_heuristic decomposition formula id_root id_workers no_order =
    none_heuristic
make_partial_order_heuristic none_heuristic decomposition formula id_root id_workers
      tree_decomposition =
    decomposition formula id_root id_workers
