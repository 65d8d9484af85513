-- ===== src/Cli/Lit.antt =====
-- `Lit`, the literals of cube_gen_cli/cube_gen_cli.cpp, and what they mean under an assignment of
-- the variables. `Var` is `int` there; the variables that reach a literal are never negative.
use hydra_sat.Base.{
  ℕ, suc, ◌≡◌, refl, Bool, true, false, not, ◌&&◌, ◌||◌, List, [], ◌∷◌, ◌++◌, ℤ, pos, neg_ℕ, abs,
  is_negative, if◌then◌else◌, arith, ◌<◌,
}

pub record Lit : Type 0 where
  pub x : ℤ

unfoldable pub make_lit : ℕ → Bool → Lit
make_lit v sign = record { x = if sign then neg_ℕ v else pos v }

unfoldable pub make_lit_true : ℕ → Lit
make_lit_true v = record { x = pos v }

unfoldable pub make_lit_false : ℕ → Lit
make_lit_false v = record { x = neg_ℕ v }

unfoldable pub var : Lit → ℕ
var l = abs l.x

unfoldable pub sign : Lit → Bool
sign l = is_negative l.x

-- A total assignment of the variables.
abbrev pub Model : Type 0
Model = ℕ → Bool

unfoldable pub holds : Model → Lit → Bool
holds m l = if sign l then not (m (var l)) else m (var l)

-- A clause is the disjunction of its literals, and a cube their conjunction.
unfoldable pub sat_clause : Model → List Lit → Bool
sat_clause m [] = false
sat_clause m (l ∷ c) = holds m l || sat_clause m c

unfoldable pub sat_cube : Model → List Lit → Bool
sat_cube m [] = true
sat_cube m (l ∷ c) = holds m l && sat_cube m c

unfoldable pub sat_formula : Model → List (List Lit) → Bool
sat_formula m [] = true
sat_formula m (c ∷ cs) = sat_clause m c && sat_formula m cs

pub var-make_lit : (v : ℕ) (s : Bool) → var (make_lit v s) ≡ v
unfolding make_lit var
var-make_lit v true = ground arith
var-make_lit v false = refl

pub var-make_lit_true : (v : ℕ) → var (make_lit_true v) ≡ v
unfolding make_lit_true var
var-make_lit_true v = refl

pub var-make_lit_false : (v : ℕ) → var (make_lit_false v) ≡ v
unfolding make_lit_false var
var-make_lit_false v = ground arith

pub holds-make_lit_true : (m : Model) (v : ℕ) → holds m (make_lit_true v) ≡ m v
unfolding make_lit_true holds var sign
holds-make_lit_true m v = refl

-- -0 is 0, so variable 0 has no negative literal.
pub holds-make_lit_false : (m : Model) (v : ℕ) → 0 < v → holds m (make_lit_false v) ≡ not (m v)
unfolding make_lit_false holds var sign
holds-make_lit_false m (suc v) h = refl
holds-make_lit_false m v h = ground arith

pub sat_cube-append :
    (m : Model) (xs ys : List Lit) → sat_cube m (xs ++ ys) ≡ sat_cube m xs && sat_cube m ys
unfolding sat_cube
sat_cube-append m [] ys = refl
sat_cube-append m (x ∷ xs) ys = ground (arith, sat_cube-append m xs ys)
