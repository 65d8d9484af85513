-- ===== src/Dimacs/Reader/Total.antt =====
-- `parse_DIMACS_main` and `parserDIMACS` of cube_generator/src/formula/ParserDimacs.cpp as a whole.
use hydra_sat.Base.{holds-if, ℕ, ◌<◌, ◌≡◌, subst, ◌≢◌, List, ℤ, pos, negsuc, All}
use hydra_sat.Formula.ProblemTypes.{Lit}
use hydra_sat.Dimacs.Clause.Meaning.{IsClause}
use hydra_sat.Dimacs.Reader.{
  BufferRead, Outcome, done, starved, negative_vars, DataFormula, Numbers, Formula, int_formula,
  float_formula, make_formula, all_whole, parser_dimacs,
}
use hydra_sat.Dimacs.Reader.Progress.{Progress, Fed, fed_done, fed_negative, Fed-bind}
use hydra_sat.Dimacs.Reader.Fuel.{parse_dimacs_main-Fed}

Fed-starved : {A : Type 0} {P : A → Type 0} (x : Outcome A) → Fed P x → x ≢ starved
Fed-starved {P} x h e = elim (subst (Fed P) e h) [ ]

Fed-value : {A : Type 0} {P : A → Type 0} {x : Outcome A} {a : A} → Fed P x → x ≡ done a → P a
Fed-value {P} {a} h e = go (subst (Fed P) e h)
  where
    go : Fed P (done a) → P a
    go (fed_done p) = p

module _ (N : Numbers) where
  pub clauses_of : Formula N → List (List Lit)
  clauses_of (int_formula f) = f.clauses
  clauses_of (float_formula f) = f.clauses

  module _ (B : BufferRead N.mpf_float.T) (P : Progress B) where
    parser_dimacs-Fed :
        (k : ℕ) (undef : ℤ) (s : B.State)
        → P.left s < k
        → Fed (λ f. All IsClause (clauses_of f)) (parser_dimacs N B k undef s)
    unfolding parser_dimacs clauses_of
    parser_dimacs-Fed k undef s lt =
        Fed-bind _ _ (parse_dimacs_main-Fed N.mpf_float.one B P k s _ lt tt)
          (λ form cs. go form form.nb_vars cs)
      where
        go :
            (form : DataFormula N.mpf_float.T) (n : ℤ)
            → All IsClause form.clauses
            → Fed
                (λ f. All IsClause (clauses_of f))
                (elim n [ pos m ↦ done (make_formula N m form) | negsuc m ↦ negative_vars ])
        go form (pos m) cs =
            fed_done
              (holds-if (λ f. All IsClause (clauses_of f)) (all_whole N form.weight_lit) cs cs)
        go form (negsuc m) cs = fed_negative

    -- Reading a file of fewer characters than the fuel ends, in a formula, an exit, a failing assert, the
    -- exception of a negative size or a negative number of variables.
    pub parser_dimacs_ends :
        (k : ℕ) (undef : ℤ) (s : B.State) → P.left s < k → parser_dimacs N B k undef s ≢ starved
    parser_dimacs_ends k undef s lt = Fed-starved _ (parser_dimacs-Fed k undef s lt)

    -- Every clause of a formula that is read has a literal, and its literals are on increasing variables
    -- from 1 up: none is there twice, and none with its complement.
    pub parser_dimacs-IsClause :
        (k : ℕ) (undef : ℤ) (s : B.State) (f : Formula N)
        → P.left s < k
        → parser_dimacs N B k undef s ≡ done f
        → All IsClause (clauses_of f)
    parser_dimacs-IsClause k undef s f lt e = Fed-value (parser_dimacs-Fed k undef s lt) e
