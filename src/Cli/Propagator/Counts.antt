-- ===== src/Cli/Propagator/Counts.antt =====
-- How often a clause stands in the watch lists of cube_gen_cli/cube_gen_cli.cpp.
use hydra_sat.Base.{
  ℕ, zero, suc, ◌+◌, ◌*◌, ◌<◌, ◌≡◌, true, List, [], ◌∷◌, ◌++◌, if◌then◌else◌, ◌==◌, length, get_or,
  set, arith,
}
use hydra_sat.Cli.Lit.{Lit, var}
use hydra_sat.Cli.Propagator.{push_at, lit_idx, lit_zero}
use hydra_sat.Cli.Propagator.Trail.{mentions}

-- How often a clause stands in a list, and in all the lists.
unfoldable pub count : ℕ → List ℕ → ℕ
count x [] = 0
count x (ci ∷ ws) = (if ci == x then 1 else 0) + count x ws

unfoldable pub total : ℕ → List (List ℕ) → ℕ
unfolding count
total x [] = 0
total x (ws ∷ wss) = count x ws + total x wss

pub count-append : (x : ℕ) (ws us : List ℕ) → count x (ws ++ us) ≡ count x ws + count x us
unfolding count
count-append x [] us = omega arith
count-append x (ci ∷ ws) us = omega (arith, count-append x ws us)

pub total-set :
    (x : ℕ) (wss : List (List ℕ)) (i : ℕ) (ws : List ℕ)
    → i < length wss
    → total x (set wss i ws) + count x (get_or wss i []) ≡ total x wss + count x ws
unfolding total
total-set x [] i ws lt = elim lt [ ]
total-set x (us ∷ wss) zero ws lt = omega arith
total-set x (us ∷ wss) (suc i) ws lt = omega (arith, total-set x wss i ws (omega arith))

pub total-push_at :
    (x : ℕ) (wss : List (List ℕ)) (i ci : ℕ)
    → i < length wss
    → total x (push_at wss i ci) ≡ total x wss + count x (ci ∷ [])
total-push_at x wss i ci lt = omega (
  arith,
  total-set x wss i (get_or wss i [] ++ ci ∷ []) lt,
  count-append x (get_or wss i []) (ci ∷ []),
)

pub mentions-get_or :
    (t : List Lit) (k : ℕ) → k < length t → mentions (var (get_or t k lit_zero)) t ≡ true
unfolding mentions
mentions-get_or [] k lt = elim lt [ ]
mentions-get_or (l ∷ t) zero lt = ground arith
mentions-get_or (l ∷ t) (suc k) lt = ground (arith, mentions-get_or t k (omega arith))

pub lit_idx-lt : (l : Lit) (n : ℕ) → var l < n → lit_idx l < 2 * n
unfolding lit_idx
lit_idx-lt l n lt = ground arith
