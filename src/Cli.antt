-- ===== src/Cli.antt =====
-- cube_gen_cli/cube_gen_cli.cpp, the stand-alone cube generator.
pub mod Lit
pub mod Propagator
pub mod Queue
pub mod Double
pub mod Heuristic
pub mod Generator
pub mod Parser
pub mod Scores
pub mod MinDegree
pub mod Order
pub mod Ranking
pub mod Main
mod Tests
