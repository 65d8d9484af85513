-- ===== src/TreeDecomp/Levels.antt =====
-- The levels that cube_generator/partialOrderHeuristic/PartialOrderHeuristicTreeDecompLocal.cpp gives while its
-- runFlowCutter is a stub, and what cube_generator/CubeGeneratorCLI.cpp makes of them.
use hydra_sat.Base.{
  holds-if, ℕ, zero, suc, ◌+◌, ◌-◌, ◌^◌, ◌≤◌, ◌<◌, ◌≡◌, refl, sym, ap, subst, ◌∙◌, ◌⊎◌, inl, inr,
  true, ◌&&◌, List, [], ◌∷◌, map, some, negsuc, if◌then◌else◌, ltb, ◌==◌, ==_iff, lt→ltb,
  Bool-cases, length, get_or, set, drop, replicate, length-set, length-replicate, get_or-set_self,
  get_or-set_ne, get_or-replicate, arith,
}
use hydra_sat.Formula.ProblemTypes.{Lit}
use hydra_sat.TreeDecomp.{
  count_clauses, max_element, level_of, seed_of, Best, merge, TreeDecompLocal, run_flow_cutter,
  no_best, set_levels, with_best, from_results, tree_decomp_local, get_level,
}
use hydra_sat.TreeDecomp.Degrees.{
  occurrences, total, occurrences_le, length-count_clauses, get_or-count_clauses, get_or_le_max,
  max_element-cases,
}

get_or-drop : (ds : List ℕ) (i : ℕ) → get_or (drop 1 ds) i 0 ≡ get_or ds (suc i) 0
get_or-drop [] i = refl
get_or-drop (d ∷ ds) i = refl

length-drop : (ds : List ℕ) → length (drop 1 ds) ≡ length ds - 1
length-drop [] = refl
length-drop (d ∷ ds) = omega arith

-- The degrees of the variables of a formula, and the greatest of them.
abbrev pub degrees : ℕ → List (List Lit) → List ℕ
degrees n cs = count_clauses cs (replicate (n + 1) 0)

abbrev pub most : ℕ → List (List Lit) → ℕ
most n cs = max_element (drop 1 (degrees n cs))

get_or-degrees :
    (n : ℕ) (cs : List (List Lit)) (v : ℕ)
    → total cs < 2 ^ 32
    → v ≤ n
    → get_or (degrees n cs) v 0 ≡ occurrences v cs
get_or-degrees n cs v small le =
    let start : get_or {A = ℕ} (replicate (n + 1) 0) v 0 ≡ zero = get_or-replicate (n + 1) v 0 in
    get_or-count_clauses cs v (replicate (n + 1) 0)
      (omega (arith, length-replicate {A = ℕ} (n + 1) 0)) (omega (arith, start))
    ∙ omega (arith, start)

-- No variable occurs more often than the greatest degree says, and some variable as often, if any occurs.
pub occurrences_le_most :
    (n : ℕ) (cs : List (List Lit)) (v : ℕ)
    → total cs < 2 ^ 32
    → 1 ≤ v
    → v ≤ n
    → occurrences v cs ≤ most n cs
occurrences_le_most n cs zero small ge le = absurd (omega arith)
occurrences_le_most n cs (suc v) small ge le = omega (
  arith,
  get_or-degrees n cs (suc v) small le,
  get_or-drop (degrees n cs) v,
  get_or_le_max (drop 1 (degrees n cs)) v,
)

pub most-occurrences :
    (n : ℕ) (cs : List (List Lit))
    → total cs < 2 ^ 32
    → (most n cs ≡ 0) ⊎ ((v : ℕ) × (1 ≤ v) × (v ≤ n) × (occurrences v cs ≡ most n cs))
most-occurrences n cs small = elim (max_element-cases (drop 1 (degrees n cs))) [
  | inl e ↦ inl e
  | inr (i, lt, e) ↦
      let le : suc i ≤ n = omega (
        arith,
        length-drop (degrees n cs),
        length-count_clauses cs (replicate (n + 1) 0),
        length-replicate {A = ℕ} (n + 1) 0,
      ) in
      inr (
        suc i,
        omega arith,
        le,
        sym (get_or-degrees n cs (suc i) small le) ∙ sym (get_or-drop (degrees n cs) i) ∙ e,
      )
]

pub most_lt : (n : ℕ) (cs : List (List Lit)) → total cs < 2 ^ 32 - 1 → most n cs < 2 ^ 32 - 1
most_lt n cs small = elim (most-occurrences n cs (omega arith)) [
  | inl z ↦ omega arith
  | inr (u, _, _, h) ↦ omega (arith, h, occurrences_le u cs)
]

-- Without wrapping around.
level_of_lem : (m d : ℕ) → d ≤ m → m < 2 ^ 32 - 1 → level_of m d ≡ suc m - d
unfolding level_of
level_of_lem m d le lt = omega arith

module _ {D : Type 0} (one : D) (of_nat : ℕ → D) where
  length-set_levels :
      (m : ℕ) (ds : List ℕ) (i k : ℕ) (levels : List D)
      → length (set_levels one of_nat m ds i k levels) ≡ length levels
  unfolding set_levels
  length-set_levels m ds i zero levels = refl
  length-set_levels m ds i (suc k) levels =
      length-set_levels m ds (suc i) k (set levels i _) ∙ length-set levels i _

  set_levels-before :
      (m : ℕ) (ds : List ℕ) (i k : ℕ) (levels : List D) (v : ℕ)
      → v < i
      → get_or (set_levels one of_nat m ds i k levels) v one ≡ get_or levels v one
  unfolding set_levels
  set_levels-before m ds i zero levels v lt = refl
  set_levels-before m ds i (suc k) levels v lt =
      set_levels-before m ds (suc i) k (set levels i _) v (omega arith)
      ∙ get_or-set_ne levels i v _ one (λ e. absurd (omega arith))

  get_or-set_levels :
      (m : ℕ) (ds : List ℕ) (i k : ℕ) (levels : List D) (v : ℕ)
      → i ≤ v
      → v < i + k
      → i + k ≤ length levels
      → get_or (set_levels one of_nat m ds i k levels) v one ≡ of_nat (level_of m (get_or ds v 0))
  unfolding set_levels
  get_or-set_levels m ds i zero levels v le lt fits = absurd (omega arith)
  get_or-set_levels m ds i (suc k) levels v le lt fits = elim (Bool-cases (i == v)) [
    | inl same ↦
        let e : i ≡ v = (==_iff i v).0 same in
        set_levels-before m ds (suc i) k (set levels i _) v (omega arith)
        ∙ subst
            (λ u.
              get_or (set levels i (of_nat (level_of m (get_or ds i 0)))) u one
              ≡ of_nat (level_of m (get_or ds u 0)))
            e (get_or-set_self levels i _ one (omega arith))
    | inr other ↦
        get_or-set_levels m ds (suc i) k (set levels i _) v (ground arith) (omega arith)
          (omega (arith, length-set levels i (of_nat (level_of m (get_or ds i 0)))))
  ]

  -- No thread of the stub is heard.
  merge-stub :
      (n : ℕ) (ws : List ℕ) (best : Best D)
      → merge (map (λ w. run_flow_cutter one of_nat n (seed_of w)) ws) best ≡ best
  unfolding merge run_flow_cutter
  merge-stub n [] best = refl
  merge-stub n (w ∷ ws) best = merge-stub n ws best

  -- The levels after no thread was heard, where 1.0 is the number 1.
  get_or-levels :
      (n : ℕ) (cs : List (List Lit)) (v m : ℕ)
      → of_nat 1 ≡ one
      → total cs < 2 ^ 32 - 1
      → 1 ≤ v
      → v ≤ n
      → m ≡ most n cs
      → get_or
          (if ltb 0 m && true
            then set_levels one of_nat m (degrees n cs) 1 n (replicate (n + 1) one)
            else replicate (n + 1) one)
          v
          one
        ≡ of_nat (suc m - occurrences v cs)
  get_or-levels n cs v m unit small ge le e = elim (Bool-cases (ltb 0 m)) [
    | inl some_degree ↦ rw (some_degree) (
        get_or-set_levels m (degrees n cs) 1 n (replicate (n + 1) one) v ge (omega arith)
          (omega (arith, length-replicate (n + 1) one))
        ∙ ap of_nat (
            ap (level_of m) (get_or-degrees n cs v (omega arith) le)
            ∙ level_of_lem m (occurrences v cs) (omega (arith, occurs, e))
                (omega (arith, most_lt n cs small, e))))
    | inr none_occurs ↦
        rw (none_occurs)
          (get_or-replicate (n + 1) v one ∙ sym unit ∙ ap of_nat (ground (arith, occurs, e)))
  ]
    where
      occurs : occurrences v cs ≤ most n cs
      occurs = occurrences_le_most n cs v (omega arith) ge le

  tree_decomp_local-stub :
      (arrivals : List ℕ) (n : ℕ) (cs : List (List Lit))
      → with_best one of_nat (no_best one of_nat n) n cs
        ≡ tree_decomp_local one of_nat arrivals n cs
  unfolding tree_decomp_local from_results
  tree_decomp_local-stub arrivals n cs =
      ap (λ b. with_best one of_nat b n cs) (sym (merge-stub n arrivals (no_best one of_nat n)))

  length-with_best :
      (n : ℕ) (cs : List (List Lit))
      → length (with_best one of_nat (no_best one of_nat n) n cs).level ≡ n + 1
  unfolding with_best
  length-with_best n cs =
      holds-if {A = List D} (λ levels. length levels ≡ n + 1) (ltb 0 (most n cs) && true)
        (length-set_levels (most n cs) (degrees n cs) 1 n (replicate (n + 1) one)
          ∙ length-replicate (n + 1) one)
        (length-replicate (n + 1) one)

  get_level-in_range :
      (t : TreeDecompLocal D) (v : ℕ)
      → v < length t.level
      → get_level one of_nat t v ≡ some (get_or t.level v one)
  unfolding get_level
  get_level-in_range t v lt = rw (lt→ltb v (length t.level) lt) refl

  -- While runFlowCutter is a stub, the treewidth is -1 and the level of a variable is one more than the
  -- greatest number of occurrences of a variable, less its own, whatever order the threads finish in, for a
  -- formula of fewer than 2^32 - 1 literals.
  pub tree_decomp_local-levels :
      (arrivals : List ℕ) (n : ℕ) (cs : List (List Lit))
      → of_nat 1 ≡ one
      → total cs < 2 ^ 32 - 1
      → ((tree_decomp_local one of_nat arrivals n cs).treewidth ≡ negsuc 0)
        × ((v : ℕ)
            → 1 ≤ v
            → v ≤ n
            → (occurrences v cs ≤ most n cs)
              × (get_level one of_nat (tree_decomp_local one of_nat arrivals n cs) v
                  ≡ some (of_nat (suc (most n cs) - occurrences v cs))))
  unfolding with_best
  tree_decomp_local-levels arrivals n cs unit small =
      subst
        (λ t.
          (t.treewidth ≡ negsuc 0)
          × ((v : ℕ)
              → 1 ≤ v
              → v ≤ n
              → (occurrences v cs ≤ most n cs)
                × (get_level one of_nat t v ≡ some (of_nat (suc (most n cs) - occurrences v cs)))))
        (tree_decomp_local-stub arrivals n cs)
        (
          refl,
          λ v ge le. (
            occurrences_le_most n cs v (omega arith) ge le,
            get_level-in_range (with_best one of_nat (no_best one of_nat n) n cs) v
                  (omega (arith, length-with_best n cs))
                ∙ ap some (get_or-levels n cs v (most n cs) unit small ge le refl),
          ),
        )
