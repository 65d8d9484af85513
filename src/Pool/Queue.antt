-- ===== src/Pool/Queue.antt =====
-- `Cube` and `PriorityQueue` of cube_generator/CubeGeneratorCLI.hpp: a min-heap of cubes on their
-- weight, as a list with the lightest first; of several lightest cubes, the one pushed first.
use hydra_sat.Base.{ℕ, Bool, true, false, List, [], ◌∷◌, if◌then◌else◌, leb, length}
use hydra_sat.Formula.ProblemTypes.{Lit}

pub record Cube : Type 0 where
  pub lits : List Lit
  pub weight : ℕ

-- {lits, (double)lits.size()}
unfoldable pub cube_of : List Lit → Cube
cube_of ls = record { lits = ls; weight = length ls }

abbrev pub PriorityQueue : Type 0
PriorityQueue = List Cube

unfoldable pub push : Cube → PriorityQueue → PriorityQueue
push d [] = d ∷ []
push d (c ∷ q) = if leb c.weight d.weight then c ∷ push d q else d ∷ c ∷ q

abbrev pub is_empty {ℓ} : {A : Type ℓ} → List A → Bool
is_empty [] = true
is_empty (x ∷ xs) = false

-- while (!queue.empty()) { cubes.push_back(queue.top().lits); queue.pop(); }
unfoldable pub drain : PriorityQueue → List (List Lit)
drain [] = []
drain (c ∷ q) = c.lits ∷ drain q
