-- ===== src/Dimacs/Reader/Fuel.antt =====
-- The loops of cube_generator/src/formula/ParserDimacs.cpp end: every turn of `parse_DIMACS_main` that does not
-- stop the program consumes a character.
use Prim.{tt}
use hydra_sat.Base.{
  ℕ, zero, suc, ◌+◌, ◌≤◌, ◌<◌, ◌≡◌, false, List, [], ◌∷◌, ◌++◌, Option, none, some, ℤ, pos, abs,
  is_negative, eqb_ℤ, ◌==◌, length, All, All-append, All-mono, length-append, arith,
}
use hydra_sat.Formula.ProblemTypes.{Lit, var, make_lit}
use hydra_sat.Dimacs.Clause.{normalize}
use hydra_sat.Dimacs.Clause.Meaning.{IsClause, Normalized, normalize-Normalized}
use hydra_sat.Dimacs.Reader.{
  BufferRead, done, DataFormula, is_outside, read_lits, add_clause, read_clause, read_item,
  parse_dimacs_main, char_p, char_c,
}
use hydra_sat.Dimacs.Reader.Progress.{
  Progress, Fed, fed_done, fed_exited, fed_aborted, Fed-bind, Fed-if, Fed-split, Fed-mono, InRange,
  make_lit-InRange, Turn,
}
use hydra_sat.Dimacs.Reader.Lines.{read_header-Turn, read_comment-Turn}

module _ {W : Type 0} (one : W) (B : BufferRead W) (P : Progress B) where
  open P use {left, skip_space_le, next_int_le, next_int_lt}

  -- The literals read from s after `lits`: each costs a character.
  Lits : ℤ → B.State → List Lit → B.State × List Lit → Type 0
  Lits n s lits r = (left r.0 + length r.1 ≤ left s + length lits) × All (InRange n) r.1

  read_lits-Lits :
      (k : ℕ) (n : ℤ) (s : B.State) (lits : List Lit)
      → left s < k
      → All (InRange n) lits
      → Fed (Lits n s lits) (read_lits one B k n s lits)
  unfolding read_lits Lits
  read_lits-Lits zero n s lits lt h = absurd (omega arith)
  read_lits-Lits (suc k) n s lits lt h =
      Fed-split (is_outside n (B.next_int s).0) (λ _. fed_exited)
        (λ inside.
          Fed-split (eqb_ℤ (B.next_int s).0 (pos 0))
            (λ _. fed_done (omega (arith, next_int_le s), h))
            (λ nonzero.
              Fed-mono
                (λ r got. (
                  omega (
                    arith,
                    got.0,
                    length-append lits
                        (make_lit (abs (B.next_int s).0) (is_negative (B.next_int s).0) ∷ []),
                    next_int_lt s nonzero,
                  ),
                  got.1,
                ))
                (read_lits-Lits k n (B.next_int s).1
                  (lits ++ make_lit (abs (B.next_int s).0) (is_negative (B.next_int s).0) ∷ [])
                  (omega (arith, next_int_lt s nonzero, lt))
                  (All-append (InRange n) lits _ h
                    (make_lit-InRange n (B.next_int s).0 inside nonzero, tt)))))

  -- A clause that is read is dropped as a tautology, or it is added with a literal and on increasing
  -- variables from 1 up.
  add_clause-IsClause :
      (n : ℤ) (lits : List Lit) (form : DataFormula W)
      → All (InRange n) lits
      → Fed
          (λ r. (0 < length lits) × (All IsClause form.clauses → All IsClause r.clauses))
          (add_clause one B lits form)
  unfolding add_clause Normalized
  add_clause-IsClause n [] form h = fed_aborted
  add_clause-IsClause n (l ∷ ls) form h = go (normalize (l ∷ ls)) (
      normalize-Normalized (l ∷ ls) (omega arith)
        (All-mono (InRange n) (λ k. 1 ≤ var k) (l ∷ ls) (λ k r. r.0) h))
    where
      go :
          (r : Option (List Lit))
          → Normalized (l ∷ ls) r
          → Fed
              (λ f. (0 < length (l ∷ ls)) × (All IsClause form.clauses → All IsClause f.clauses))
              (elim r [
                | none ↦ done form
                | some c ↦ done (record form { clauses = form.clauses ++ c ∷ [] })
              ])
      go none m = fed_done (omega arith, λ cs. cs)
      go (some c) m =
          fed_done (omega arith, λ cs. All-append IsClause form.clauses (c ∷ []) cs (m.0, tt))

  read_clause-Turn :
      (k : ℕ) (s : B.State) (form : DataFormula W)
      → left s < k
      → Fed (Turn left (left s) form.clauses) (read_clause one B k s form)
  unfolding read_clause Lits
  read_clause-Turn k s form lt = Fed-bind _ _ (read_lits-Lits k form.nb_vars s [] lt tt) (λ r got.
      Fed-bind _ _ (add_clause-IsClause form.nb_vars r.1 form got.1)
        (λ form' more. fed_done (omega (arith, got.0, more.0), more.1)))

  read_item-Turn :
      (k : ℕ) (s : B.State) (form : DataFormula W)
      → left s < k
      → B.eof s ≡ false
      → Fed (Turn left (left s) form.clauses) (read_item one B k s form)
  unfolding read_item
  read_item-Turn k s form lt h =
      Fed-if (B.current_char s == char_p) (read_header-Turn one B P s form h) (
        Fed-if (B.current_char s == char_c) (read_comment-Turn one B P s form h)
          (read_clause-Turn k s form lt))

  -- More fuel than there are characters left is enough, and all clauses of the formula are clauses with
  -- a literal, on increasing variables from 1 up, if those before are.
  pub parse_dimacs_main-Fed :
      (k : ℕ) (s : B.State) (form : DataFormula W)
      → left s < k
      → All IsClause form.clauses
      → Fed (λ r. All IsClause r.clauses) (parse_dimacs_main one B k s form)
  unfolding parse_dimacs_main
  parse_dimacs_main-Fed zero s form lt h = absurd (omega arith)
  parse_dimacs_main-Fed (suc k) s form lt h =
      Fed-split (B.eof (B.skip_space s)) (λ _. fed_done h)
        (λ more.
          Fed-bind _ _
            (read_item-Turn (suc k) (B.skip_space s) form (omega (arith, skip_space_le s)) more)
            (λ r turn.
              parse_dimacs_main-Fed k r.0 r.1 (omega (arith, turn.0, skip_space_le s)) (turn.1 h)))
