-- ===== src/Driver.antt =====
-- cube_generator/main.cpp: the program around CubeGeneratorCLI.
pub mod Parse
pub mod Json
pub mod Args
mod Tests
