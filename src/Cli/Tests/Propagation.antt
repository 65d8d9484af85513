-- ===== src/Cli/Tests/Propagation.antt =====
-- The propagator and the queue of cube_gen_cli/cube_gen_cli.cpp at a small formula.
use hydra_sat.Base.{◌*◌, length, ◌≡◌, refl, true, [], ◌∷◌, negsuc, arith}
use hydra_sat.Cli.Lit.{Lit, sat_cube}
use hydra_sat.Cli.Propagator.{Propagator, new, propagate, unchecked_enqueue, cancel_until_pos}
use hydra_sat.Cli.Propagator.Watches.{propagate_watches}
use hydra_sat.Cli.Propagator.Counts.{total}
use hydra_sat.Cli.Propagator.Invariant.{IsValid, unchecked_enqueue-IsValid}
use hydra_sat.Cli.Propagator.Sound.{propagate_sound}
use hydra_sat.Cli.Propagator.Fuel.{propagate_complete}
use hydra_sat.Cli.Propagator.Reset.{new-IsValid, cancel_until_pos-IsValid}
use hydra_sat.Cli.Tests.{lit, cnf, cnf-Below, program, third}

-- The propagator of `cnf` in which 2 has just been made false.
abbrev start_3 : Propagator
start_3 = unchecked_enqueue (new 3 cnf) (lit (negsuc 1))

start_3-IsValid : IsValid cnf 4 start_3
unfolding program
start_3-IsValid =
    unchecked_enqueue-IsValid cnf 4 (new 3 cnf) (lit (negsuc 1)) (omega arith) refl
      (new-IsValid 3 cnf)

propagate_watches_example : total 0 (propagate start_3).0.watches ≡ total 0 start_3.watches
unfolding program
propagate_watches_example = propagate_watches cnf 4 cnf-Below 0 start_3 start_3-IsValid room
  where
    room : length start_3.watches ≡ 2 * 4
    room = refl

propagate_sound_example :
    ((propagate start_3).1 ≡ true) × (sat_cube third (propagate start_3).0.trail ≡ true)
unfolding program
propagate_sound_example = propagate_sound cnf 4 cnf-Below start_3 third start_3-IsValid refl refl

propagate_complete_example : (propagate start_3).0.qhead ≡ length (propagate start_3).0.trail
unfolding program
propagate_complete_example = propagate_complete cnf 4 cnf-Below start_3 start_3-IsValid refl

cancel_until_pos-IsValid_example :
    IsValid cnf 4 (cancel_until_pos start_3 (length {A = Lit} []))
    × ((cancel_until_pos start_3 0).trail ≡ [])
unfolding program
cancel_until_pos-IsValid_example =
    cancel_until_pos-IsValid cnf 4 start_3 start_3-IsValid [] (lit (negsuc 1) ∷ []) refl
