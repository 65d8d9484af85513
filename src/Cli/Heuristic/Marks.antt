-- ===== src/Cli/Heuristic/Marks.antt =====
-- The marks of `JWTSBranchingCubeHeuristic` of cube_gen_cli/cube_gen_cli.cpp.
use hydra_sat.Base.{
  ℕ, zero, suc, ◌<◌, ◌≡◌, refl, ◌∙◌, Bool, true, false, List, [], ◌∷◌, if◌then◌else◌, ◌==◌, length,
  get_or, set, length-set, eq_of_get_or, arith,
}
use hydra_sat.Cli.Lit.{Lit, var}
use hydra_sat.Cli.Propagator.Trail.{mentions}
use hydra_sat.Cli.Heuristic.Jwts.{mark}

get_or-set :
    (ms : List Bool) (i v : ℕ) (b : Bool)
    → v < length ms
    → get_or (set ms i b) v false ≡ (if i == v then b else get_or ms v false)
get_or-set [] i v b lt = elim lt [ ]
get_or-set (x ∷ ms) zero zero b lt = ground arith
get_or-set (x ∷ ms) zero (suc v) b lt = ground arith
get_or-set (x ∷ ms) (suc i) zero b lt = ground arith
get_or-set (x ∷ ms) (suc i) (suc v) b lt = ground (arith, get_or-set ms i v b)

length-mark : (b : Bool) (lits : List Lit) (ms : List Bool) → length (mark b lits ms) ≡ length ms
unfolding mark
length-mark b [] ms = refl
length-mark b (l ∷ ls) ms = length-mark b ls (set ms (var l) b) ∙ length-set ms (var l) b

pub get_or-mark :
    (b : Bool) (lits : List Lit) (ms : List Bool) (v : ℕ)
    → v < length ms
    → get_or (mark b lits ms) v false ≡ (if mentions v lits then b else get_or ms v false)
unfolding mark mentions
get_or-mark b [] ms v lt = refl
get_or-mark b (l ∷ ls) ms v lt = ground (
  arith,
  length-set ms (var l) b,
  get_or-mark b ls (set ms (var l) b) v,
  get_or-set ms (var l) v b lt,
)

-- No variable is marked.
abbrev pub IsClear : List Bool → Type 0
IsClear ms = (v : ℕ) → get_or ms v false ≡ false

-- Marking and unmarking the same literals leaves a clear buffer as it was.
pub mark_unmark :
    (lits : List Lit) (ms : List Bool) → IsClear ms → mark false lits (mark true lits ms) ≡ ms
mark_unmark lits ms clear =
    eq_of_get_or (mark false lits (mark true lits ms)) ms false
      (length-mark false lits (mark true lits ms) ∙ length-mark true lits ms)
      λ v lt. ground (
        arith,
        length-mark false lits (mark true lits ms),
        length-mark true lits ms,
        get_or-mark false lits (mark true lits ms) v,
        get_or-mark true lits ms v,
        clear v,
      )
