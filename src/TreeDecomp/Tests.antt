-- ===== src/TreeDecomp/Tests.antt =====
-- The partial order of cube_generator over tree decompositions, at a small formula, with numbers for doubles.
use hydra_sat.Base.{ℕ, suc, ◌-◌, ◌≤◌, ◌≡◌, refl, List, [], ◌∷◌, some, ℤ, pos, negsuc, get_or, arith}
use mathlib.Core.List.{Permᴰ}
use hydra_sat.Formula.ProblemTypes.{Lit, var}
use hydra_sat.TreeDecomp.{from_results, tree_decomp_local, get_level, get_partial_order_computed}
use hydra_sat.TreeDecomp.Merge.{treewidth-Perm}
use hydra_sat.TreeDecomp.Degrees.{occurrences, total}
use hydra_sat.TreeDecomp.Levels.{most, tree_decomp_local-levels}
use hydra_sat.TreeDecomp.Computed.{computed_order}

abbrev lit : ℕ → Lit
lit x = record { m_x = x }

-- 1 2, 1 -2 and 1 3 : the variables occur 3, 2 and 1 times.
abbrev formula : List (List Lit)
formula = (lit 2 ∷ lit 4 ∷ []) ∷ (lit 2 ∷ lit 5 ∷ []) ∷ (lit 2 ∷ lit 6 ∷ []) ∷ []

abbrev number : ℕ → ℕ
number k = k

abbrev results : List (ℤ × List ℕ)
results = (pos 3, 1 ∷ []) ∷ (negsuc 0, 2 ∷ []) ∷ []

abbrev results_swapped : List (ℤ × List ℕ)
results_swapped = (negsuc 0, 2 ∷ []) ∷ (pos 3, 1 ∷ []) ∷ []

order_of_formula :
    get_partial_order_computed 1 number number
      (some (tree_decomp_local 1 number (1 ∷ 0 ∷ []) 3 formula))
      3
    ≡ some (1 ∷ 1 ∷ 2 ∷ 3 ∷ [])
unfolding get_partial_order_computed tree_decomp_local var
order_of_formula = refl

treewidth-Perm_example :
    (from_results 1 number results 3 formula).treewidth
    ≡ (from_results 1 number results_swapped 3 formula).treewidth
treewidth-Perm_example = treewidth-Perm 1 number ∣ Permᴰ.swap refl refl ∣₁ 3 formula

tree_decomp_local-levels_example :
    ((tree_decomp_local 1 number (1 ∷ 0 ∷ []) 3 formula).treewidth ≡ negsuc 0)
    × ((v : ℕ)
        → 1 ≤ v
        → v ≤ 3
        → (occurrences v formula ≤ most 3 formula)
          × (get_level 1 number (tree_decomp_local 1 number (1 ∷ 0 ∷ []) 3 formula) v
              ≡ some (suc (most 3 formula) - occurrences v formula)))
unfolding total
tree_decomp_local-levels_example =
    tree_decomp_local-levels 1 number (1 ∷ 0 ∷ []) 3 formula refl (omega arith)

computed_order_example :
    (order : List ℕ) × (get_partial_order_computed 1 number number
        (some (tree_decomp_local 1 number (1 ∷ 0 ∷ []) 3 formula))
        3
      ≡ some order)
    × ((v : ℕ) → 1 ≤ v → v ≤ 3 → get_or order v 0 ≡ suc (most 3 formula) - occurrences v formula)
unfolding total
computed_order_example =
    computed_order 1 number number (λ k lt. refl) (1 ∷ 0 ∷ []) 3 formula refl (omega arith)
