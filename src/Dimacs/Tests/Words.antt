-- ===== src/Dimacs/Tests/Words.antt =====
-- The reader of cube_generator/src/formula/ParserDimacs.cpp on a small file of words.
use hydra_sat.Base.{◌≡◌, refl, ap, ◌∙◌, true, false, List, [], ◌∷◌, ◌++◌, map, pos, ◌==◌, arith}
use hydra_sat.Formula.ProblemTypes.{Lit, var, neg, make_lit}
use hydra_sat.Dimacs.Clause.{normalize}
use hydra_sat.Dimacs.Reader.{done, parser_dimacs}
use hydra_sat.Dimacs.Reader.Printed.{Word, letters, Reads, file_words, kept}
use hydra_sat.Dimacs.Reader.RoundTrip.{plain, parser_dimacs-file}
use hydra_sat.Dimacs.Tests.{Token, char, tokens, first, is_over, rest, read_number, numbers}

encode : List Word → List Token
encode [] = []
encode (letters c cs ∷ ws) = char c ∷ map char cs ++ encode ws
encode (Word.number v ∷ ws) = Token.number v ∷ encode ws

reads : Reads tokens
unfolding encode
reads = record {
  At = λ s ws. s ≡ encode ws;
  Here = λ s ws. s ≡ encode ws;
  skip_space_here = λ s ws h. h;
  here_at = λ s ws h. h;
  eof_end = λ s h. ap is_over h;
  eof_word = λ s w ws h. ap is_over h ∙ more w ws;
  current_letter = λ s c cs ws h. ap first h;
  current_number = λ s v ws h. (ap (λ t. first t == 112) h, ap (λ t. first t == 99) h);
  consume_last = λ s c ws h. ap rest h;
  next_letter = λ s c d cs ws h. (ap first h, ap rest h);
  next_last = λ s c ws h. (ap first h, ap rest h);
  next_int_lem = λ s v ws h. (ap (λ t. (read_number t).0) h, ap (λ t. (read_number t).1) h);
}
  where
    more : (w : Word) (ws : List Word) → is_over (encode (w ∷ ws)) ≡ false
    more (letters c cs) ws = refl
    more (Word.number v) ws = refl

-- 3 1 -2 1, and the tautology 2 -2.
abbrev clauses : List (List Lit)
clauses =
    (make_lit 3 false ∷ make_lit 1 false ∷ make_lit 2 true ∷ make_lit 1 false ∷ [])
    ∷ (make_lit 2 false ∷ make_lit 2 true ∷ [])
    ∷ []

-- 1 -2 3, as the reader makes it.
abbrev sorted : List (List Lit)
sorted = (make_lit 1 false ∷ make_lit 2 true ∷ make_lit 3 false ∷ []) ∷ []

clauses-kept : kept clauses ≡ sorted
unfolding kept normalize make_lit neg
clauses-kept = refl

parser_dimacs-file_example :
    parser_dimacs numbers tokens 20 (pos 0) (encode (file_words 3 clauses))
    ≡ done (plain numbers 3 (kept clauses))
unfolding encode make_lit var reads
parser_dimacs-file_example =
    parser_dimacs-file numbers tokens reads 20 3 (pos 0) clauses (encode (file_words 3 clauses))
      (omega arith) (omega arith) refl
