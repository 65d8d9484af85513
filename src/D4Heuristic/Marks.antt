-- ===== src/D4Heuristic/Marks.antt =====
-- The marks of `D4BranchingCubeHeuristic` of cube_generator/src/branchingHeuristic.
use hydra_sat.Base.{
  holds-if, ℕ, zero, suc, ◌+◌, ◌<◌, ◌≡◌, refl, sym, ap, subst, ◌∙◌, ◌⊎◌, inl, inr, Bool, true,
  false, not, ◌&&◌, ◌||◌, List, [], ◌∷◌, if◌then◌else◌, ltb, leb, ◌==◌, ==_iff, Bool-cases, length,
  get_or, set, All, All-get_or, length-set, eq_of_get_or, get_or-set_self, get_or-set_ne, arith,
}
use hydra_sat.Formula.Models.{is_in}
use hydra_sat.Formula.ProblemTypes.{Lit, var}
use hydra_sat.D4Heuristic.{mark, collect, Library}

unfoldable pub listed : ℕ → List ℕ → Bool
listed v [] = false
listed v (w ∷ ws) = (w == v) || listed v ws

listed-if :
    (v i : ℕ) (b : Bool) (ws : List ℕ)
    → listed v (if b then ws else i ∷ ws) ≡ (listed v ws || (not b && (i == v)))
unfolding listed
listed-if v i true ws = ground arith
listed-if v i false ws = ground arith

module _ (L : Library) where
  length-mark : (b : Bool) (ls : List Lit) (m : List Bool) → length (mark L b ls m) ≡ length m
  unfolding mark
  length-mark b [] m = refl
  length-mark b (l ∷ ls) m = length-mark b ls (set m (var l) b) ∙ length-set m (var l) b

  pub get_or-mark :
      (b : Bool) (ls : List Lit) (m : List Bool) (v : ℕ)
      → v < length m
      → get_or (mark L b ls m) v false ≡ (if is_in v ls then b else get_or m v false)
  unfolding mark is_in
  get_or-mark b [] m v lt = refl
  get_or-mark b (l ∷ ls) m v lt =
      get_or-mark b ls (set m (var l) b) v (omega (arith, length-set m (var l) b))
      ∙ here (Bool-cases (var l == v))
    where
      here :
          ((var l == v) ≡ true) ⊎ ((var l == v) ≡ false)
          → (if is_in v ls then b else get_or (set m (var l) b) v false)
            ≡ (if (var l == v) || is_in v ls then b else get_or m v false)
      here (inl same) =
          let e : var l ≡ v = (==_iff (var l) v).0 same in
          let set_here : get_or (set m (var l) b) v false ≡ b =
            subst (λ u. get_or (set m u b) v false ≡ b) (sym e) (get_or-set_self m v b false lt) in
          rw (same, set_here) (holds-if {A = Bool} (λ x. x ≡ b) (is_in v ls) refl refl)
      here (inr other) = rw (other) (
          ap (λ x. if is_in v ls then b else x)
            (get_or-set_ne m (var l) v b false (λ e. absurd (ground arith))))

  -- Marking and unmarking the literals of a cube gives back marks that are all false.
  pub unmark :
      (ls : List Lit) (m : List Bool)
      → All (λ b. b ≡ false) m
      → mark L false ls (mark L true ls m) ≡ m
  unmark ls m clear =
      eq_of_get_or (mark L false ls (mark L true ls m)) m false
        (length-mark false ls (mark L true ls m) ∙ length-mark true ls m)
        (λ v lt.
          let in_range : v < length m =
            omega (arith, length-mark false ls (mark L true ls m), length-mark true ls m) in
          get_or-mark false ls (mark L true ls m) v (omega (arith, length-mark true ls m))
          ∙ ap (λ x. if is_in v ls then false else x) (get_or-mark true ls m v in_range)
          ∙ both (is_in v ls) (All-get_or (λ b. b ≡ false) m v false refl clear))
    where
      both : {x : Bool} (b : Bool) → x ≡ false → (if b then false else (if b then true else x)) ≡ x
      both true e = sym e
      both false e = refl

  -- Whether a variable is collected.
  pub listed-collect :
      (m : List Bool) (v i k : ℕ)
      → listed v (collect L m i k) ≡ (leb i v && ltb v (i + k) && not (get_or m v false))
  unfolding listed collect
  listed-collect m v i zero = ground arith
  listed-collect m v i (suc k) =
      let later = listed-collect m v (suc i) k in
      listed-if v i (get_or m i false) (collect L m (suc i) k) ∙ elim (Bool-cases (i == v)) [
        | inl same ↦ ground (arith, later, ap (λ u. get_or m u false) ((==_iff i v).0 same))
        | inr other ↦ ground (arith, later)
      ]
