-- ===== src/Cli/Tests/Generation.antt =====
-- The cube generator of cube_gen_cli/cube_gen_cli.cpp at a small formula, and a run at which the cubes overlap.
use mathlib.Core.Option
use hydra_sat.Base.{
  suc, ◌<◌, ap, length, ◌≡◌, refl, true, ◌||◌, List, [], ◌∷◌, map, some, ℤ, pos, negsuc, ◌==◌,
  arith,
}
use hydra_sat.Cli.Lit.{Lit, Model, sat_formula}
use hydra_sat.Cli.Queue.{sum_of}
use hydra_sat.Cli.Heuristic.{BranchingCubeHeuristic}
use hydra_sat.Cli.Heuristic.Jwts.{new_jwts}
use hydra_sat.Cli.Heuristic.Choice.{new_jwts-IsReady, jwts_heuristic}
use hydra_sat.Cli.Generator.{Gen, create_cubes, generate, init_gen, cost}
use hydra_sat.Cli.Generator.Partition.{IsWell, PicksUnassigned, covered}
use hydra_sat.Cli.Generator.Step.{create_cubes-IsWell, create_cubes-covered}
use hydra_sat.Cli.Generator.Bound.{cube_cost, create_cubes-cost}
use hydra_sat.Cli.Generator.Branch.{hits}
use hydra_sat.Cli.Generator.Generate.{
  run_picks, picks_unassigned_lem, init_gen-IsWell, generate_partition,
}
use hydra_sat.Cli.Tests.{lit, cnf, cnf-Below, sixty_fourths, heuristic, program, never, third}

picks_3 : run_picks heuristic 8 never (suc (cost 3)) 0 (init_gen 3 cnf) ≡ true
unfolding program
picks_3 = refl

ints : List ℤ → List Lit
ints = map lit

-- A formula at which the cubes overlap.
abbrev overlapping : List (List Lit)
unfolding ints
overlapping =
    ints (pos 3 ∷ pos 4 ∷ negsuc 6 ∷ negsuc 7 ∷ [])
    ∷ ints (pos 1 ∷ negsuc 4 ∷ [])
    ∷ ints (negsuc 4 ∷ pos 1 ∷ [])
    ∷ ints (negsuc 3 ∷ pos 6 ∷ pos 5 ∷ pos 8 ∷ [])
    ∷ ints (negsuc 7 ∷ pos 7 ∷ [])
    ∷ ints (negsuc 5 ∷ negsuc 1 ∷ [])
    ∷ ints (pos 6 ∷ negsuc 7 ∷ pos 3 ∷ [])
    ∷ ints (pos 8 ∷ pos 2 ∷ pos 1 ∷ negsuc 4 ∷ negsuc 2 ∷ [])
    ∷ ints (pos 4 ∷ pos 2 ∷ [])
    ∷ []

abbrev heuristic_8 : BranchingCubeHeuristic 8
unfolding new_jwts
heuristic_8 =
    jwts_heuristic sixty_fourths (λ _. some 64) (new_jwts sixty_fourths 8 overlapping)
      (new_jwts-IsReady sixty_fourths 8 overlapping)

-- ¬5 1 2 ¬6 ¬8 ¬4 7 3
abbrev doubled : Model
doubled v = v == 1 || v == 2 || v == 7 || v == 3

doubled_sat : sat_formula doubled overlapping ≡ true
unfolding program ints
doubled_sat = refl

overlap :
    Option.map (λ g. hits doubled g.cubes) (generate heuristic_8 overlapping 1000 never) ≡ some 2
unfolding program ints
overlap = refl

-- The state before the first call of `createCubes`.
abbrev first : Gen
first = init_gen 3 cnf

first-IsWell : IsWell cnf 4 first
first-IsWell = init_gen-IsWell cnf 3 cnf-Below heuristic 8 never

first_picks : PicksUnassigned heuristic first
unfolding program
first_picks = picks_unassigned_lem heuristic first refl

create_cubes-IsWell_example : IsWell cnf 4 (create_cubes heuristic first)
create_cubes-IsWell_example =
    create_cubes-IsWell cnf 3 cnf-Below heuristic first first-IsWell first_picks

create_cubes-covered_example : covered third (create_cubes heuristic first) ≡ covered third first
unfolding program
create_cubes-covered_example =
    create_cubes-covered cnf 3 cnf-Below heuristic first third first-IsWell first_picks refl

create_cubes-cost_example :
    sum_of (cube_cost 3) (create_cubes heuristic first).queue < sum_of (cube_cost 3) first.queue
unfolding program
create_cubes-cost_example =
    create_cubes-cost cnf 3 cnf-Below heuristic first first-IsWell first_picks
      (λ e. absurd (ground (arith, ap length e)))

generate_partition_example :
    (g : Gen) × (generate heuristic cnf 8 never ≡ some g)
    × ((m : Model) → sat_formula m cnf ≡ true → hits m g.cubes ≡ 1)
generate_partition_example = generate_partition cnf 3 cnf-Below heuristic 8 never picks_3
