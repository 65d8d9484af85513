-- ===== src/Cli/Tests/Next.antt =====
-- The heuristic of cube_gen_cli/cube_gen_cli.cpp at a small formula.
use hydra_sat.Base.{
  ℕ, suc, ◌<◌, ◌↔◌, zero, ◌≡◌, refl, true, false, List, [], ◌∷◌, Option, none, some, pos,
}
use hydra_sat.Cli.Lit.{Lit}
use hydra_sat.Cli.Heuristic.Jwts.{next, score}
use hydra_sat.Cli.Heuristic.Choice.{IsReady, IsOpen, next_best, next-eq-none, new_jwts-IsReady}
use hydra_sat.Cli.Tests.{lit, cnf, gt_d, sixty_fourths, jwts_3, program}

abbrev cnf_vars : List Lit
cnf_vars = lit (pos 1) ∷ lit (pos 2) ∷ lit (pos 3) ∷ []

abbrev level_1 : ℕ → Option ℕ
level_1 _ = some 64

jwts_3-IsReady : IsReady sixty_fourths jwts_3
jwts_3-IsReady = new_jwts-IsReady sixty_fourths 3 cnf

next_best_example :
    IsOpen sixty_fourths level_1 jwts_3 jwts_3-IsReady (lit (pos 2) ∷ []) 1
    × ((u : ℕ)
        → IsOpen sixty_fourths level_1 jwts_3 jwts_3-IsReady (lit (pos 2) ∷ []) u
        → gt_d
            (score sixty_fourths level_1 jwts_3.jwts u)
            (score sixty_fourths level_1 jwts_3.jwts 1)
          ≡ false)
    × ((u : ℕ)
        → IsOpen sixty_fourths level_1 jwts_3 jwts_3-IsReady (lit (pos 2) ∷ []) u
        → u < 1
        → gt_d
            (score sixty_fourths level_1 jwts_3.jwts 1)
            (score sixty_fourths level_1 jwts_3.jwts u)
          ≡ true)
    × ((next sixty_fourths level_1 jwts_3 (lit (pos 2) ∷ [])).1 ≡ jwts_3)
unfolding program
next_best_example = next_best sixty_fourths level_1 jwts_3 jwts_3-IsReady (lit (pos 2) ∷ []) 1 refl

above : (u : ℕ) → gt_d (score sixty_fourths level_1 jwts_3.jwts u) none ≡ true
unfolding program
above zero = refl
above (suc zero) = refl
above (suc (suc zero)) = refl
above (suc (suc (suc zero))) = refl
above (suc (suc (suc (suc u)))) = refl

next-eq-none_example :
    ((next sixty_fourths level_1 jwts_3 cnf_vars).0 ≡ none)
    ↔ ((u : ℕ) → ¬ IsOpen sixty_fourths level_1 jwts_3 jwts_3-IsReady cnf_vars u)
next-eq-none_example = next-eq-none sixty_fourths level_1 jwts_3 jwts_3-IsReady cnf_vars above
