-- ===== src/Dimacs/Reader/Printed.antt =====
-- What cube_generator/src/formula/ParserDimacs.cpp makes of a file of words with space between them: the header,
-- and the clauses.
use mathlib.Core.List.{append_assoc, append-nil}
use hydra_sat.Base.{
  ℕ, zero, suc, ◌+◌, ◌≤◌, ◌<◌, ◌≡◌, refl, sym, ap, ◌∙◌, true, false, List, [], ◌∷◌, ◌++◌, Option,
  none, some, ℤ, pos, abs, is_negative, eqb_ℤ, ◌==◌, length, All, arith,
}
use hydra_sat.Formula.ProblemTypes.{Lit, var, human, human-nonzero, make_lit-human, make_lit}
use hydra_sat.Dimacs.Clause.{normalize}
use hydra_sat.Dimacs.Reader.{
  BufferRead, Outcome, done, exited, DataFormula, read_lits, read_clause, read_item, add_clause,
  parse_dimacs_main, is_outside, char_p, char_c, char_n, char_f, ◌>>=◌,
}

-- A word of a file, by the codes of its characters, the first apart, or a number.
pub data Word : Type 0 where
  letters : ℕ → List ℕ → Word
  number : ℤ → Word

-- What BufferRead does on words: `At s ws` if the words `ws` are left with space before each of them, `Here s ws`
-- if the first of them comes at once.
pub record Reads {W : Type 0} (B : BufferRead W) : Type 1 where
  pub At : B.State → List Word → Type 0
  pub Here : B.State → List Word → Type 0
  pub skip_space_here : (s : B.State) (ws : List Word) → At s ws → Here (B.skip_space s) ws
  pub here_at : (s : B.State) (ws : List Word) → Here s ws → At s ws
  pub eof_end : (s : B.State) → Here s [] → B.eof s ≡ true
  pub eof_word : (s : B.State) (w : Word) (ws : List Word) → Here s (w ∷ ws) → B.eof s ≡ false
  pub current_letter :
      (s : B.State) (c : ℕ) (cs : List ℕ) (ws : List Word)
      → Here s (letters c cs ∷ ws)
      → B.current_char s ≡ c
  -- A number begins with a digit or a sign.
  pub current_number :
      (s : B.State) (v : ℤ) (ws : List Word)
      → Here s (number v ∷ ws)
      → ((B.current_char s == char_p) ≡ false) × ((B.current_char s == char_c) ≡ false)
  pub consume_last :
      (s : B.State) (c : ℕ) (ws : List Word) → Here s (letters c [] ∷ ws) → At (B.consume_char s) ws
  pub next_letter :
      (s : B.State) (c d : ℕ) (cs : List ℕ) (ws : List Word)
      → Here s (letters c (d ∷ cs) ∷ ws)
      → ((B.next_char s).0 ≡ c) × Here (B.next_char s).1 (letters d cs ∷ ws)
  pub next_last :
      (s : B.State) (c : ℕ) (ws : List Word)
      → Here s (letters c [] ∷ ws)
      → ((B.next_char s).0 ≡ c) × At (B.next_char s).1 ws
  pub next_int_lem :
      (s : B.State) (v : ℤ) (ws : List Word)
      → At s (number v ∷ ws)
      → ((B.next_int s).0 ≡ v) × At (B.next_int s).1 ws

-- A clause, with the 0 at its end.
abbrev pub clause_words : List Lit → List Word → List Word
clause_words [] ws = number (pos 0) ∷ ws
clause_words (l ∷ c) ws = number (human l) ∷ clause_words c ws

abbrev pub clauses_words : List (List Lit) → List Word
clauses_words [] = []
clauses_words (c ∷ cs) = clause_words c (clauses_words cs)

-- p cnf, the two numbers, and the clauses.
abbrev pub file_words : ℕ → List (List Lit) → List Word
file_words n cs =
    letters char_p []
    ∷ letters char_c (char_n ∷ char_f ∷ [])
    ∷ number (pos n)
    ∷ number (pos (length cs))
    ∷ clauses_words cs

-- The clauses that are added.
unfoldable pub kept : List (List Lit) → List (List Lit)
kept [] = []
kept (c ∷ cs) = let rest = kept cs in elim (normalize c) [ none ↦ rest | some d ↦ d ∷ rest ]

kept-none : (c : List Lit) (cs : List (List Lit)) → normalize c ≡ none → kept (c ∷ cs) ≡ kept cs
unfolding kept
kept-none c cs e = rw (kept, e) refl

pub kept-some :
    (c d : List Lit) (cs : List (List Lit)) → normalize c ≡ some d → kept (c ∷ cs) ≡ d ∷ kept cs
unfolding kept
kept-some c d cs e = rw (kept, e) refl

-- A clause as the header allows it.
abbrev pub Fits : ℕ → List Lit → Type 0
Fits n c = (0 < length c) × All (λ l. (1 ≤ var l) × (var l ≤ n)) c

zero-is_outside : (n : ℕ) → is_outside (pos n) (pos 0) ≡ false
unfolding is_outside
zero-is_outside n = refl

human-is_outside : (n : ℕ) (l : Lit) → 1 ≤ var l → var l ≤ n → is_outside (pos n) (human l) ≡ false
unfolding is_outside human
human-is_outside n l ge le = ground arith

length-clause_words :
    (c : List Lit) (ws : List Word) → length (clause_words c ws) ≡ suc (length c + length ws)
length-clause_words [] ws = omega arith
length-clause_words (l ∷ c) ws = omega (arith, length-clause_words c ws)

module _ {W : Type 0} (one : W) (B : BufferRead W) (R : Reads B) where
  open R use {At, Here}

  add_clause-none :
      (l : Lit) (c : List Lit) (form : DataFormula W)
      → normalize (l ∷ c) ≡ none
      → add_clause one B (l ∷ c) form ≡ done form
  unfolding add_clause
  add_clause-none l c form e = rw (add_clause, e) refl

  add_clause-some :
      (l : Lit) (c d : List Lit) (form : DataFormula W)
      → normalize (l ∷ c) ≡ some d
      → add_clause one B (l ∷ c) form ≡ done (record form { clauses = form.clauses ++ d ∷ [] })
  unfolding add_clause
  add_clause-some l c d form e = rw (add_clause, e) refl

  -- What `read_lits` does with the number that it reads.
  abbrev after_int : ℕ → ℕ → B.State → List Lit → ℤ → Outcome (B.State × List Lit)
  after_int k n s lits v = elim (is_outside (pos n) v) [
    | true ↦ exited 3
    | false ↦ elim (eqb_ℤ v (pos 0)) [
      | true ↦ done (s, lits)
      | false ↦ read_lits one B k (pos n) s (lits ++ make_lit (abs v) (is_negative v) ∷ [])
    ]
  ]

  read_lits-after_int :
      (k n : ℕ) (s : B.State) (lits : List Lit)
      → read_lits one B (suc k) (pos n) s lits
        ≡ after_int k n (B.next_int s).1 lits (B.next_int s).0
  unfolding read_lits
  read_lits-after_int k n s lits = refl

  read_lits-words :
      (k n : ℕ) (c : List Lit) (acc : List Lit) (s : B.State) (ws : List Word)
      → length c < k
      → All (λ l. (1 ≤ var l) × (var l ≤ n)) c
      → At s (clause_words c ws)
      → (s' : B.State) × (read_lits one B k (pos n) s acc ≡ done (s', acc ++ c)) × At s' ws
  read_lits-words zero n c acc s ws lt h at = absurd (omega arith)
  read_lits-words (suc k) n [] acc s ws lt h at =
      let (e, after) = R.next_int_lem s (pos 0) ws at in
      (
        (B.next_int s).1,
        read_lits-after_int k n s acc
            ∙ ap (after_int k n (B.next_int s).1 acc) e
            ∙ rw (after_int, zero-is_outside n)
                (ap (λ a. done ((B.next_int s).1, a)) (sym (append-nil acc))),
        after,
      )
  read_lits-words (suc k) n (l ∷ c) acc s ws lt ((ge, le), h) at =
      let (e, after) = R.next_int_lem s (human l) (clause_words c ws) at in
      let (s', same, more) =
        read_lits-words k n c (acc ++ l ∷ []) (B.next_int s).1 ws (omega arith) h after in
      (
        s',
        read_lits-after_int k n s acc
            ∙ ap (after_int k n (B.next_int s).1 acc) e
            ∙ rw (after_int, human-is_outside n l ge le, human-nonzero l ge, make_lit-human l ge)
                same
            ∙ ap (λ a. done (s', a)) (append_assoc acc (l ∷ []) c),
        more,
      )

  abbrev with_state : B.State → DataFormula W → Outcome (B.State × DataFormula W)
  with_state s form = done (s, form)

  -- A clause that comes at once.
  read_item-clause :
      (k n : ℕ) (l : Lit) (c : List Lit) (s : B.State) (ws : List Word) (form : DataFormula W)
      → length (l ∷ c) < k
      → All (λ l. (1 ≤ var l) × (var l ≤ n)) (l ∷ c)
      → form.nb_vars ≡ pos n
      → Here s (clause_words (l ∷ c) ws)
      → (s' : B.State) × (read_item one B k s form
          ≡ (add_clause one B (l ∷ c) form >>= with_state s'))
        × At s' ws
  unfolding read_item read_clause ◌>>=◌
  read_item-clause k n l c s ws form lt h vars here =
      let (no_p, no_c) = R.current_number s (human l) (clause_words c ws) here in
      let (s', same, after) =
        read_lits-words k n (l ∷ c) [] s ws lt h (R.here_at s (clause_words (l ∷ c) ws) here) in
      (s', rw (no_p, no_c, vars, same) refl, after)

  -- The clauses, to the end of the file.
  pub parse_dimacs_main-clauses :
      (k n : ℕ) (cs : List (List Lit)) (s : B.State) (form : DataFormula W)
      → length (clauses_words cs) < k
      → All (Fits n) cs
      → form.nb_vars ≡ pos n
      → At s (clauses_words cs)
      → parse_dimacs_main one B k s form ≡ done (record form { clauses = form.clauses ++ kept cs })
  unfolding parse_dimacs_main kept
  parse_dimacs_main-clauses zero n cs s form lt h vars at = absurd (omega arith)
  parse_dimacs_main-clauses (suc k) n [] s form lt h vars at =
      rw (R.eof_end (B.skip_space s) (R.skip_space_here s [] at), parse_dimacs_main)
        (ap (λ cs. done (record form { clauses = cs })) (sym (append-nil form.clauses)))
  parse_dimacs_main-clauses (suc k) n ([] ∷ cs) s form lt h vars at = absurd (omega (arith, h.0.0))
  parse_dimacs_main-clauses (suc k) n ((l ∷ c) ∷ cs) s form lt h vars at =
      rw
        (
          R.eof_word (B.skip_space s) (number (human l)) (clause_words c (clauses_words cs)) here,
          parse_dimacs_main,
        )
        (ap (λ x. x >>= (λ r. parse_dimacs_main one B k r.0 r.1)) item.1
          ∙ added (normalize (l ∷ c)) refl (λ f v.
            parse_dimacs_main-clauses k n cs item.0 f
              (omega (arith, length-clause_words c (clauses_words cs))) h.1 v item.2))
    where
      here : Here (B.skip_space s) (clauses_words ((l ∷ c) ∷ cs))
      here = R.skip_space_here s (clauses_words ((l ∷ c) ∷ cs)) at

      item :
          (s' : B.State) × (read_item one B (suc k) (B.skip_space s) form
            ≡ (add_clause one B (l ∷ c) form >>= with_state s'))
          × At s' (clauses_words cs)
      item =
          read_item-clause (suc k) n l c (B.skip_space s) (clauses_words cs) form
            (omega (arith, length-clause_words c (clauses_words cs))) h.0.1 vars here

      next_turn : Outcome (DataFormula W) → Outcome (DataFormula W)
      next_turn x = (x >>= with_state item.0) >>= (λ r. parse_dimacs_main one B k r.0 r.1)

      added :
          (o : Option (List Lit))
          → normalize (l ∷ c) ≡ o
          → ((f : DataFormula W)
              → f.nb_vars ≡ pos n
              → parse_dimacs_main one B k item.0 f
                ≡ done (record f { clauses = f.clauses ++ kept cs }))
          → ((add_clause one B (l ∷ c) form >>= with_state item.0)
              >>= (λ r. parse_dimacs_main one B k r.0 r.1))
            ≡ done (record form { clauses = form.clauses ++ kept ((l ∷ c) ∷ cs) })
      added none e rest =
          ap next_turn (add_clause-none l c form e)
          ∙ rest form vars
          ∙ ap (λ t. done (record form { clauses = form.clauses ++ t }))
              (sym (kept-none (l ∷ c) cs e))
      added (some d) e rest =
          ap next_turn (add_clause-some l c d form e)
          ∙ rest (record form { clauses = form.clauses ++ d ∷ [] }) vars
          ∙ ap (λ t. done (record form { clauses = t }))
              (append_assoc form.clauses (d ∷ []) (kept cs)
                ∙ ap (λ t. form.clauses ++ t) (sym (kept-some (l ∷ c) d cs e)))
