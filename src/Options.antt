-- ===== src/Options.antt =====
-- cube_generator/src/option: the options of the distributed cube generator and counter, and the command
-- line that they are read from.
pub mod Tables
pub mod Records
pub mod Parse
mod Tests
