-- ===== src/Dimacs/Reader/RoundTrip.antt =====
-- What cube_generator/src/formula/ParserDimacs.cpp makes of a file that a formula is printed in.
use hydra_sat.Base.{
  ℕ, zero, suc, ◌+◌, ◌-◌, ◌*◌, ◌<◌, ◌≡◌, refl, ap, ◌∙◌, Bool, true, false, List, [], ◌∷◌, ◌++◌, map,
  ℤ, pos, negsuc, is_negative, if◌then◌else◌, ◌==◌, ==_iff, length, take, replicate, All, arith,
}
use hydra_sat.Formula.ProblemTypes.{Lit}
use hydra_sat.Formula.WeightedCnf.{new}
use hydra_sat.Formula.Uniform.{uniform, new-replicate}
use hydra_sat.Dimacs.Reader.{
  BufferRead, Outcome, done, exited, negative_vars, DataFormula, read_item, read_header, expect,
  optional, resize, parse_dimacs_main, char_p, char_w, char_c, char_n, char_f, ◌>>=◌, Numbers,
  Formula, int_formula, float_formula, all_whole, make_formula, parser_dimacs,
}
use hydra_sat.Dimacs.Reader.Printed.{
  Word, letters, number, Reads, clauses_words, file_words, kept, Fits, parse_dimacs_main-clauses,
}

module _ {W : Type 0} (one : W) (B : BufferRead W) (R : Reads B) where
  open R use {At, Here}

  abbrev cnf : List ℕ
  cnf = char_c ∷ char_n ∷ char_f ∷ []

  expect-letters :
      (c : ℕ) (cs : List ℕ) (s : B.State) (ws : List Word)
      → Here s (letters c cs ∷ ws)
      → (s' : B.State) × (expect one B (c ∷ cs) s ≡ (true, s')) × At s' ws
  unfolding expect
  expect-letters c [] s ws h =
      let (e, after) = R.next_last s c ws h in
      ((B.next_char s).1, rw (expect, (==_iff (B.next_char s).0 c).1 e) refl, after)
  expect-letters c (d ∷ cs) s ws h =
      let (e, after) = R.next_letter s c d cs ws h in
      let (s', same, more) = expect-letters d cs (B.next_char s).1 ws after in
      (s', rw (expect, (==_iff (B.next_char s).0 c).1 e) same, more)

  optional-other :
      (c : ℕ) (s : B.State) → (B.current_char s == c) ≡ false → optional one B c s ≡ (false, s)
  unfolding optional
  optional-other c s e = rw (optional, e) refl

  -- What `read_header` does once the letters are read.
  abbrev after_letters : Bool → Bool × B.State → DataFormula W → Outcome (B.State × DataFormula W)
  after_letters vp (good, s3) form =
      let (nb_vars, s4) = B.next_int s3 in
      let (nb_clauses, s5) = B.next_int s4 in
      let s6 = if vp then (B.next_int s5).1 else s5 in
      if good
      then (do
        ws ← resize one nb_vars form.weight_lit
        if is_negative nb_clauses
            then exited 2
            else done (s6, record form { weight_lit = ws; nb_vars = nb_vars }))
      else exited 3

  read_header-after_letters :
      (s : B.State) (form : DataFormula W)
      → read_header one B s form ≡ (
          let o = optional one B char_p (B.skip_space (B.consume_char s)) in
          after_letters o.0 (expect one B cnf (optional one B char_w o.1).1) form)
  unfolding read_header
  read_header-after_letters s form = refl

  -- With what `read_header` leaves in `form`.
  abbrev with_header : ℕ → B.State → DataFormula W → List W → B.State × DataFormula W
  with_header n s form ws = (s, record form { weight_lit = ws; nb_vars = pos n })

  take-nil : (k : ℕ) → take {A = W} k [] ≡ []
  take-nil zero = refl
  take-nil (suc k) = refl

  resize-nil : (n : ℕ) → resize one (pos n) [] ≡ done (replicate (2 * (n + 1)) one)
  unfolding resize
  resize-nil n = ap done (
      ap (λ t. t ++ replicate (2 * (n + 1) - 0) one) (take-nil (2 * (n + 1)))
      ∙ ap (λ k. replicate k one) (omega arith))

  abbrev header_words : ℕ → ℕ → List Word → List Word
  header_words n m ws =
      letters char_p []
      ∷ letters char_c (char_n ∷ char_f ∷ [])
      ∷ number (pos n)
      ∷ number (pos m)
      ∷ ws

  read_header-words :
      (n m : ℕ) (s : B.State) (ws : List Word) (form : DataFormula W)
      → form.weight_lit ≡ []
      → Here s (header_words n m ws)
      → (s' : B.State) × (read_header one B s form
          ≡ done (with_header n s' form (replicate (2 * (n + 1)) one)))
        × At s' ws
  unfolding ◌>>=◌
  read_header-words n m s ws form empty here =
      let t = B.skip_space (B.consume_char s) in
      let at_t =
        R.skip_space_here (B.consume_char s)
          (letters char_c (char_n ∷ char_f ∷ []) ∷ number (pos n) ∷ number (pos m) ∷ ws)
          (R.consume_last s char_p
            (letters char_c (char_n ∷ char_f ∷ []) ∷ number (pos n) ∷ number (pos m) ∷ ws) here) in
      let is_c =
        R.current_letter t char_c (char_n ∷ char_f ∷ []) (number (pos n) ∷ number (pos m) ∷ ws)
          at_t in
      let (s3, read, at_3) =
        expect-letters char_c (char_n ∷ char_f ∷ []) t (number (pos n) ∷ number (pos m) ∷ ws)
          at_t in
      let (e_n, at_4) = R.next_int_lem s3 (pos n) (number (pos m) ∷ ws) at_3 in
      let (e_m, at_5) = R.next_int_lem (B.next_int s3).1 (pos m) ws at_4 in
      (
        (B.next_int (B.next_int s3).1).1,
        read_header-after_letters s form
            ∙ ap
                (λ (o : Bool × B.State).
                  after_letters o.0 (expect one B cnf (optional one B char_w o.1).1) form)
                (optional-other char_p t (ap (λ x. x == char_p) is_c))
            ∙ ap (λ (o : Bool × B.State). after_letters false (expect one B cnf o.1) form)
                (optional-other char_w t (ap (λ x. x == char_w) is_c))
            ∙ ap (λ r. after_letters false r form) read
            ∙ rw (after_letters, e_n, e_m, empty, resize-nil n) refl,
        at_5,
      )

  read_item-header :
      (k : ℕ) (s : B.State) (form : DataFormula W)
      → (B.current_char s == char_p) ≡ true
      → read_item one B k s form ≡ read_header one B s form
  unfolding read_item
  read_item-header k s form e = rw (read_item, e) refl

  parse_dimacs_main-turn :
      (k : ℕ) (s : B.State) (form : DataFormula W)
      → B.eof (B.skip_space s) ≡ false
      → parse_dimacs_main one B (suc k) s form ≡ (
          read_item one B (suc k) (B.skip_space s) form
          >>= (λ r. parse_dimacs_main one B k r.0 r.1))
  unfolding parse_dimacs_main
  parse_dimacs_main-turn k s form e = rw (parse_dimacs_main, e) refl

  -- The whole file.
  pub parse_dimacs_main-file :
      (k n : ℕ) (cs : List (List Lit)) (s : B.State) (form : DataFormula W)
      → length (file_words n cs) < k
      → All (Fits n) cs
      → form.weight_lit ≡ []
      → form.clauses ≡ []
      → At s (file_words n cs)
      → parse_dimacs_main one B k s form
        ≡ done (record form {
          weight_lit = replicate (2 * (n + 1)) one;
          nb_vars = pos n;
          clauses = kept cs;
        })
  unfolding ◌>>=◌
  parse_dimacs_main-file zero n cs s form lt h empty none_yet at = absurd (omega arith)
  parse_dimacs_main-file (suc k) n cs s form lt h empty none_yet at =
      let s1 = B.skip_space s in
      let here = R.skip_space_here s (file_words n cs) at in
      let rest =
        letters char_c (char_n ∷ char_f ∷ [])
        ∷ number (pos n)
        ∷ number (pos (length cs))
        ∷ clauses_words cs in
      let is_p = (==_iff (B.current_char s1) char_p).1 (R.current_letter s1 char_p [] rest here) in
      let (s', header, at') =
        read_header-words n (length cs) s1 (clauses_words cs) form empty here in
      parse_dimacs_main-turn k s form (R.eof_word s1 (letters char_p []) rest here)
      ∙ ap (λ x. x >>= (λ r. parse_dimacs_main one B k r.0 r.1))
          (read_item-header (suc k) s1 form is_p ∙ header)
      ∙ parse_dimacs_main-clauses one B R k n cs s'
          (record form { weight_lit = replicate (2 * (n + 1)) one; nb_vars = pos n }) (omega arith)
          h refl at'
      ∙ ap
          (λ t. done (record form {
            weight_lit = replicate (2 * (n + 1)) one;
            nb_vars = pos n;
            clauses = t ++ kept cs;
          }))
          none_yet

module _ (N : Numbers) where
  -- The formula of `n` variables with weights 1 on the clauses, of whole numbers if 1 is one.
  abbrev pub plain : ℕ → List (List Lit) → Formula N
  plain n cs =
      if N.is_whole N.mpf_float.one
      then int_formula (uniform N.mpz_int n (N.round N.mpf_float.one) cs)
      else float_formula (uniform N.mpf_float n N.mpf_float.one cs)

  all_whole-replicate :
      (k : ℕ) (w : N.mpf_float.T) → all_whole N (replicate (suc k) w) ≡ N.is_whole w
  unfolding all_whole
  all_whole-replicate zero w = ground arith
  all_whole-replicate (suc k) w = ground (arith, all_whole-replicate k w)

  map-replicate :
      {A C : Type 0} (f : A → C) (k : ℕ) (a : A) → map f (replicate k a) ≡ replicate k (f a)
  map-replicate f zero a = refl
  map-replicate f (suc k) a = ap (◌∷◌ (f a)) (map-replicate f k a)

  make_formula-plain :
      (n : ℕ) (cs : List (List Lit))
      → make_formula N n (record {
        weight_lit = replicate (2 * (n + 1)) N.mpf_float.one;
        clauses = cs;
        projected_var = [];
        nb_vars = pos n;
      })
        ≡ plain n cs
  unfolding make_formula
  make_formula-plain n cs =
      let size : 2 * (n + 1) ≡ suc (2 * n + 1) = omega arith in
      let one = N.mpf_float.one in
      let whole : all_whole N (replicate (2 * (n + 1)) one) ≡ N.is_whole one =
        ap (λ k. all_whole N (replicate k one)) size ∙ all_whole-replicate (2 * n + 1) one in
      let ints : new N.mpz_int n (map N.round (replicate (2 * (n + 1)) one)) [] cs
          ≡ uniform N.mpz_int n (N.round one) cs =
        ap (λ ws. new N.mpz_int n ws [] cs) (map-replicate N.round (2 * (n + 1)) one)
        ∙ new-replicate N.mpz_int n (N.round one) cs in
      let floats = new-replicate N.mpf_float n one cs in
      ap
        (λ b.
          if b
          then int_formula (new N.mpz_int n (map N.round (replicate (2 * (n + 1)) one)) [] cs)
          else float_formula (new N.mpf_float n (replicate (2 * (n + 1)) one) [] cs))
        whole
      ∙ ap
          (λ f.
            if N.is_whole one
            then int_formula f
            else float_formula (new N.mpf_float n (replicate (2 * (n + 1)) one) [] cs))
          ints
      ∙ ap
          (λ f.
            if N.is_whole one
            then int_formula (uniform N.mpz_int n (N.round one) cs)
            else float_formula f)
          floats

  module _ (B : BufferRead N.mpf_float.T) (R : Reads B) where
    -- Reading the words p and cnf, the two numbers, and the literals of each clause with a 0 at its end gives
    -- the formula with the number of variables of the header, no projected variables, and the weight 1 for every
    -- literal, of whole numbers if 1 is one, on what sorting and dropping repetitions makes of each clause, in order,
    -- without the tautologies, where no clause is empty, its variables are from 1 up to the number of the
    -- header, and the fuel is more than the number of words.
    pub parser_dimacs-file :
        (k n : ℕ) (undef : ℤ) (cs : List (List Lit)) (s : B.State)
        → length (file_words n cs) < k
        → All (Fits n) cs
        → R.At s (file_words n cs)
        → parser_dimacs N B k undef s ≡ done (plain n (kept cs))
    unfolding parser_dimacs ◌>>=◌
    parser_dimacs-file k n undef cs s lt h at =
        ap
          (λ (x : Outcome (DataFormula N.mpf_float.T)). x >>= (λ form. elim form.nb_vars [
            | pos n ↦ done (make_formula N n form)
            | negsuc n ↦ negative_vars
          ]))
          (parse_dimacs_main-file N.mpf_float.one B R k n cs s
            (record { weight_lit = []; clauses = []; projected_var = []; nb_vars = undef }) lt h
            refl refl at)
        ∙ ap done (make_formula-plain n (kept cs))
