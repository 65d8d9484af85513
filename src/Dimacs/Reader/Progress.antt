-- ===== src/Dimacs/Reader/Progress.antt =====
-- What the loops of cube_generator/src/formula/ParserDimacs.cpp rely on to end, and what is said of a call.
use Prim.Native.String.{String}
use hydra_sat.Base.{
  ℕ, ◌≤◌, ◌<◌, ◌≡◌, refl, sym, subst, Bool, true, false, List, ℤ, pos, negsuc, abs, is_negative,
  eqb_ℤ, if◌then◌else◌, All, arith,
}
use hydra_sat.Formula.ProblemTypes.{Lit, var, make_lit}
use hydra_sat.Dimacs.Clause.Meaning.{IsClause}
use hydra_sat.Dimacs.Reader.{
  BufferRead, Outcome, done, exited, aborted, bad_size, negative_vars, starved, ◌>>=◌, DataFormula,
  is_outside,
}

-- What the code relies on: the characters left do not grow, a consumed character and a number other than 0
-- cost one at least.
pub record Progress {W : Type 0} (B : BufferRead W) : Type 0 where
  pub left : B.State → ℕ
  pub consume_lt : (s : B.State) → B.eof s ≡ false → left (B.consume_char s) < left s
  pub consume_le : (s : B.State) → left (B.consume_char s) ≤ left s
  pub next_char_le : (s : B.State) → left (B.next_char s).1 ≤ left s
  pub skip_space_le : (s : B.State) → left (B.skip_space s) ≤ left s
  pub skip_simple_space_le : (s : B.State) → left (B.skip_simple_space s) ≤ left s
  pub skip_line_le : (s : B.State) → left (B.skip_line s) ≤ left s
  pub next_int_le : (s : B.State) → left (B.next_int s).1 ≤ left s
  pub next_int_lt :
      (s : B.State) → eqb_ℤ (B.next_int s).0 (pos 0) ≡ false → left (B.next_int s).1 < left s
  pub can_consume_le : (w : String) (s : B.State) → left (B.can_consume w s).1 ≤ left s
  pub weights_le : (s : B.State) (ws : List W) → left (B.parse_next_weighted_lits s ws).0 ≤ left s
  pub list_le :
      (s : B.State) (vs : List ℕ) → left (B.read_list_int_terminated_by_zero s vs).0 ≤ left s

-- A call that has fuel enough, with what holds of its value.
pub data Fed {A : Type 0} (P : A → Type 0) : Outcome A → Type 0 where
  fed_done : {a : A} → P a → Fed P (done a)
  fed_exited : {n : ℕ} → Fed P (exited n)
  fed_aborted : Fed P aborted
  fed_bad_size : Fed P bad_size
  fed_negative : Fed P negative_vars

pub Fed-bind :
    {A B : Type 0} {P : A → Type 0} {Q : B → Type 0} (x : Outcome A) (f : A → Outcome B)
    → Fed P x
    → ((a : A) → P a → Fed Q (f a))
    → Fed Q (x >>= f)
unfolding ◌>>=◌
Fed-bind (done a) f (fed_done h) k = k a h
Fed-bind (exited n) f h k = fed_exited
Fed-bind aborted f h k = fed_aborted
Fed-bind bad_size f h k = fed_bad_size
Fed-bind negative_vars f h k = fed_negative
Fed-bind starved f h k = elim h [ ]

pub Fed-if :
    {A : Type 0} {P : A → Type 0} (b : Bool) {x y : Outcome A}
    → Fed P x
    → Fed P y
    → Fed P (if b then x else y)
Fed-if true h k = h
Fed-if false h k = k

pub Fed-split :
    {A : Type 0} {P : A → Type 0} (b : Bool) {x y : Outcome A}
    → (b ≡ true → Fed P x)
    → (b ≡ false → Fed P y)
    → Fed P (elim b [ true ↦ x | false ↦ y ])
Fed-split true h k = h refl
Fed-split false h k = k refl

pub Fed-mono :
    {A : Type 0} {P Q : A → Type 0} {x : Outcome A} → ((a : A) → P a → Q a) → Fed P x → Fed Q x
Fed-mono f (fed_done h) = fed_done (f _ h)
Fed-mono f fed_exited = fed_exited
Fed-mono f fed_aborted = fed_aborted
Fed-mono f fed_bad_size = fed_bad_size
Fed-mono f fed_negative = fed_negative

-- A literal on a variable from 1 to the number of variables that is not negative.
abbrev pub InRange : ℤ → Lit → Type 0
InRange nb_vars l = (1 ≤ var l) × (is_outside nb_vars (pos (var l)) ≡ false)

var-make_lit : (v : ℕ) (b : Bool) → var (make_lit v b) ≡ v
unfolding var make_lit
var-make_lit v b = ground arith

abs_pos : (v : ℤ) → eqb_ℤ v (pos 0) ≡ false → 1 ≤ abs v
abs_pos (pos n) h = ground arith
abs_pos (negsuc n) h = omega arith

pub make_lit-InRange :
    (n v : ℤ)
    → is_outside n v ≡ false
    → eqb_ℤ v (pos 0) ≡ false
    → InRange n (make_lit (abs v) (is_negative v))
unfolding is_outside
make_lit-InRange n v inside nonzero =
    subst (λ x. (1 ≤ x) × (is_outside n (pos x) ≡ false))
      (sym (var-make_lit (abs v) (is_negative v))) (abs_pos v nonzero, inside)

-- A turn of the loop from a state with `n` characters left, on the clauses `cs`.
abbrev pub Turn : {S W : Type 0} → (S → ℕ) → ℕ → List (List Lit) → S × DataFormula W → Type 0
Turn left n cs r = (left r.0 < n) × (All IsClause cs → All IsClause r.1.clauses)
