-- ===== src/Formula/ProblemTypes.antt =====
-- cube_generator/src/formula/ProblemTypes.hpp: `Lit`, a variable and a sign in one `int`.
-- `m_x` is a natural number here: lit_Undef and lit_Error, which hold -2 and -1, stand for no
-- literal, and no code of the repository uses them.
use hydra_sat.Base.{
  ℕ, ◌+◌, ◌-◌, ◌*◌, ◌/◌, ◌%◌, ◌^◌, ◌≤◌, ◌<◌, ◌≡◌, ap, Bool, not, ℤ, pos, neg_ℕ, abs, is_negative,
  eqb_ℤ, false, if◌then◌else◌, ◌==◌, arith,
}

pub record Lit : Type 0 where
  pub m_x : ℕ

-- m_x & 1
unfoldable pub sign : Lit → Bool
sign l = l.m_x % 2 == 1

-- m_x >> 1
unfoldable pub var : Lit → ℕ
var l = l.m_x / 2

-- m_x ^ 1; `operator~` is the same.
unfoldable pub neg : Lit → Lit
neg l = record { m_x = if l.m_x % 2 == 1 then l.m_x - 1 else l.m_x + 1 }

unfoldable pub intern : Lit → ℕ
intern l = l.m_x

unfoldable pub human : Lit → ℤ
unfolding var
human l = if l.m_x % 2 == 1 then neg_ℕ (var l) else pos (var l)

-- (v << 1) + sign
unfoldable pub make_lit : ℕ → Bool → Lit
make_lit v s = record { m_x = 2 * v + (if s then 1 else 0) }

unfoldable pub make_lit_false : ℕ → Lit
make_lit_false v = record { m_x = 2 * v + 1 }

unfoldable pub make_lit_true : ℕ → Lit
make_lit_true v = record { m_x = 2 * v }

-- Taking a literal apart and putting it together again: a variable below 2 ^ 30 and a sign make a
-- literal that fits an `int` and has this variable and sign, and every literal is made of its own.
make_lit_round_trip :
    (v : ℕ) (s : Bool) (l : Lit)
    → v < 2 ^ 30
    → (var (make_lit v s) ≡ v)
      × (sign (make_lit v s) ≡ s)
      × ((make_lit v s).m_x < 2 ^ 31)
      × (make_lit (var l) (sign l) ≡ l)
unfolding var sign make_lit
make_lit_round_trip v s l lt =
    ((ground arith), (ground arith), (ground arith), ap (λ x. record { m_x = x }) (ground arith))

-- The complement keeps the variable, flips the sign, is an involution, and stands next to the literal.
pub neg_lem : (l : Lit) → (var (neg l) ≡ var l) × (sign (neg l) ≡ not (sign l)) × (neg (neg l) ≡ l)
unfolding var sign neg
neg_lem l = (ground arith, ground arith, ap (λ x. record { m_x = x }) (ground arith))

-- Two literals on variables from 1 up that print alike are the same literal.
pub human_injective : (k l : Lit) → 1 ≤ var k → 1 ≤ var l → human k ≡ human l → k ≡ l
unfolding var human
human_injective k l lk ll e = ap (λ x. record { m_x = x }) (ground arith)

-- What `human` prints is read back.
pub human-nonzero : (l : Lit) → 1 ≤ var l → eqb_ℤ (human l) (pos 0) ≡ false
unfolding human var
human-nonzero l h = ground arith

pub make_lit-human : (l : Lit) → 1 ≤ var l → make_lit (abs (human l)) (is_negative (human l)) ≡ l
unfolding human make_lit var
make_lit-human l h = ap (λ x. record { m_x = x }) (ground arith)
