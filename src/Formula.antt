-- ===== src/Formula.antt =====
-- cube_generator/src/formula: literals, and the weighted formula that the counters work on.
pub mod ProblemTypes
pub mod Models
pub mod Display
pub mod Floats
pub mod Uniform
pub mod Rewrite
pub mod WeightedCnf
pub mod Conditioned
pub mod Weights
pub mod Serialized
mod Tests
