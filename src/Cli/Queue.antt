-- ===== src/Cli/Queue.antt =====
-- `Cube` and `PriorityQueue` of cube_gen_cli/cube_gen_cli.cpp: a queue of cubes on their weight.
-- A weight is `(double)lits.size()`, a whole number. std::priority_queue leaves open which of several
-- lightest cubes is on top; here it is the one that was pushed first.
use hydra_sat.Base.{
  ℕ, ◌+◌, ◌≡◌, refl, inl, inr, List, [], ◌∷◌, Option, none, some, if◌then◌else◌, leb, Bool-cases,
  length, All, arith,
}
use hydra_sat.Cli.Lit.{Lit}

pub record Cube : Type 0 where
  pub lits : List Lit
  pub weight : ℕ

-- {lits, (double)lits.size()}
unfoldable pub cube_of : List Lit → Cube
cube_of ls = record { lits = ls; weight = length ls }

-- Lightest first.
abbrev pub PriorityQueue : Type 0
PriorityQueue = List Cube

unfoldable pub push : Cube → PriorityQueue → PriorityQueue
push d [] = d ∷ []
push d (c ∷ q) = if leb c.weight d.weight then c ∷ push d q else d ∷ c ∷ q

unfoldable pub top : PriorityQueue → Option Cube
top [] = none
top (c ∷ q) = some c

unfoldable pub pop : PriorityQueue → PriorityQueue
pop [] = []
pop (c ∷ q) = q

-- while (!queue.empty()) { cubes.push_back(queue.top().lits); queue.pop(); }
unfoldable pub drain : PriorityQueue → List (List Lit)
drain [] = []
drain (c ∷ q) = c.lits ∷ drain q

-- The sum of a measure over the queue. Two queues with the same sums hold the same cubes.
unfoldable pub sum_of : (Cube → ℕ) → PriorityQueue → ℕ
sum_of f [] = 0
sum_of f (c ∷ q) = f c + sum_of f q

pub sum_of-push :
    (f : Cube → ℕ) (d : Cube) (q : PriorityQueue) → sum_of f (push d q) ≡ f d + sum_of f q
unfolding sum_of push
sum_of-push f d [] = refl
sum_of-push f d (c ∷ q) = ground (arith, sum_of-push f d q)

pub All-push {ℓ} :
    (P : Cube → Type ℓ) (d : Cube) (q : PriorityQueue) → P d → All P q → All P (push d q)
unfolding push
All-push P d [] pd h = (pd, tt)
All-push P d (c ∷ q) pd h = elim (Bool-cases (leb c.weight d.weight)) [
  | inl light ↦ rw light (h.0, All-push P d q pd h.1)
  | inr heavy ↦ rw heavy (pd, h)
]
