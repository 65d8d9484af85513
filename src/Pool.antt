-- ===== src/Pool.antt =====
-- cube_generator/CubeGeneratorCLI.cpp: the cube generator whose cubes a pool of threads checks.
pub mod Queue
pub mod Splitter
pub mod System
pub mod Measure
pub mod Counted
pub mod Lawful
pub mod Shared
pub mod Calls
pub mod Cubes
pub mod Safe
pub mod Custody
pub mod Kept
pub mod Deadlock
pub mod Shutdown
pub mod Stops
pub mod Models
pub mod Setup
pub mod Generated
mod Tests
