-- ===== src/Dimacs/Reader/Lines.antt =====
-- The header and the comments that cube_generator/src/formula/ParserDimacs.cpp reads.
use Prim.{Unit, tt}
use hydra_sat.Base.{
  holds-if, ℕ, zero, suc, ◌≤◌, ◌<◌, ◌≡◌, Bool, false, List, [], ◌∷◌, ℤ, pos, negsuc, is_negative,
  if◌then◌else◌, ◌==◌, arith,
}
use hydra_sat.Dimacs.Reader.{
  BufferRead, DataFormula, resize, expect, optional, read_header, read_comment, char_p, char_w,
  char_c, char_n, char_f,
}
use hydra_sat.Dimacs.Reader.Progress.{
  Progress, Fed, fed_done, fed_exited, fed_aborted, fed_bad_size, Fed-bind, Fed-if, Turn,
}

module _ {W : Type 0} (one : W) (B : BufferRead W) (P : Progress B) where
  open P use {
    left, consume_lt, consume_le, next_char_le, skip_space_le, skip_simple_space_le, skip_line_le,
    next_int_le, next_int_lt, can_consume_le, weights_le, list_le,
  }

  expect_le : (cs : List ℕ) (s : B.State) → left (expect one B cs s).1 ≤ left s
  unfolding expect
  expect_le [] s = omega arith
  expect_le (c ∷ cs) s =
      holds-if {A = Bool × B.State} (λ r. left r.1 ≤ left s) ((B.next_char s).0 == c)
        (omega (arith, expect_le cs (B.next_char s).1, next_char_le s)) (next_char_le s)

  optional_le : (c : ℕ) (s : B.State) → left (optional one B c s).1 ≤ left s
  unfolding optional
  optional_le c s =
      holds-if {A = Bool × B.State} (λ r. left r.1 ≤ left s) (B.current_char s == c) (consume_le s)
        (omega arith)

  resize-Fed : (n : ℤ) (ws : List W) → Fed (λ r. Unit {0}) (resize one n ws)
  unfolding resize
  resize-Fed (pos n) ws = fed_done tt
  resize-Fed (negsuc zero) ws = fed_done tt
  resize-Fed (negsuc (suc n)) ws = fed_bad_size

  pub read_header-Turn :
      (s : B.State) (form : DataFormula W)
      → B.eof s ≡ false
      → Fed (Turn left (left s) form.clauses) (read_header one B s form)
  unfolding read_header
  read_header-Turn s form h =
      Fed-if (expect one B (char_c ∷ char_n ∷ char_f ∷ []) s2).0
        (Fed-bind (resize one (B.next_int s3).0 form.weight_lit) _
          (resize-Fed (B.next_int s3).0 form.weight_lit)
          (λ ws _. Fed-if (is_negative (B.next_int s4).0) fed_exited (fed_done (s6_lt, λ cs. cs))))
        fed_exited
    where
      s1 : B.State
      s1 = (optional one B char_p (B.skip_space (B.consume_char s))).1

      s2 : B.State
      s2 = (optional one B char_w s1).1

      s3 : B.State
      s3 = (expect one B (char_c ∷ char_n ∷ char_f ∷ []) s2).1

      s4 : B.State
      s4 = (B.next_int s3).1

      s5 : B.State
      s5 = (B.next_int s4).1

      s5_lt : left s5 < left s
      s5_lt = omega (
        arith,
        consume_lt s h,
        skip_space_le (B.consume_char s),
        optional_le char_p (B.skip_space (B.consume_char s)),
        optional_le char_w s1,
        expect_le (char_c ∷ char_n ∷ char_f ∷ []) s2,
        next_int_le s3,
        next_int_le s4,
      )

      s6_lt :
          left (
            if (optional one B char_p (B.skip_space (B.consume_char s))).0
            then (B.next_int s5).1
            else s5)
          < left s
      s6_lt =
          holds-if (λ t. left t < left s)
            (optional one B char_p (B.skip_space (B.consume_char s))).0
            (omega (arith, s5_lt, next_int_le s5)) s5_lt

  pub read_comment-Turn :
      (s : B.State) (form : DataFormula W)
      → B.eof s ≡ false
      → Fed (Turn left (left s) form.clauses) (read_comment one B s form)
  unfolding read_comment
  read_comment-Turn s form h =
      Fed-if (B.current_char s1 == char_p)
        (Fed-if (B.can_consume "weight" (B.consume_char s1)).0
          (Fed-if _ (fed_done (omega (arith, s1_lt), λ cs. cs)) fed_aborted)
          (Fed-if _ (fed_done (omega (arith, s1_lt), λ cs. cs))
            (fed_done (omega (arith, s1_lt), λ cs. cs))))
        (fed_done (omega (arith, s1_lt, skip_line_le s1), λ cs. cs))
    where
      s1 : B.State
      s1 = B.skip_simple_space (B.consume_char s)

      s1_lt : left s1 < left s
      s1_lt = omega (arith, consume_lt s h, skip_simple_space_le (B.consume_char s))
