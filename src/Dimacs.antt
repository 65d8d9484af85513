-- ===== src/Dimacs.antt =====
-- cube_generator/src/formula/ParserDimacs.cpp: the reader of weighted formulas.
pub mod Clause
pub mod Reader
mod Tests
