-- ===== src/Cli/Propagator/Trail.antt =====
-- What the trail says of each variable, and the operations that keep m_assign in step with it:
-- `uncheckedEnqueue`, `restart` and `cancelUntilPos` of cube_gen_cli/cube_gen_cli.cpp.
use mathlib.Core.List.{reverse, reverse-cons}
use hydra_sat.Base.{
  ℕ, zero, suc, ◌<◌, ◌≡◌, refl, subst, ◌∙◌, ◌≢◌, ◌⊎◌, inl, inr, Bool, true, false, ◌||◌, List, [],
  ◌∷◌, ◌++◌, ℤ, pos, negsuc, if◌then◌else◌, ◌==◌, ==_iff, Bool-cases, length, get_or, set, All,
  length-set, get_or-set_self, get_or-set_ne, arith,
}
use hydra_sat.Cli.Lit.{Lit, Model, var, holds, sat_cube}
use hydra_sat.Cli.Propagator.{polarity, unassign}

-- The value that the first literal of a variable on the trail gives it.
unfoldable pub trail_value : ℕ → List Lit → ℤ
trail_value v [] = pos 0
trail_value v (l ∷ t) = if var l == v then polarity l else trail_value v t

unfoldable pub mentions : ℕ → List Lit → Bool
mentions v [] = false
mentions v (l ∷ t) = var l == v || mentions v t

-- No variable stands on the trail twice.
abbrev pub Distinct : List Lit → Type 0
Distinct [] = Unit {0}
Distinct (l ∷ t) = (mentions (var l) t ≡ false) × Distinct t

abbrev pub Below : ℕ → List Lit → Type 0
Below n = All (λ l. var l < n)

-- m_assign is what the trail says, for every variable.
abbrev pub Reflects : List ℤ → List Lit → Type 0
Reflects a t = (v : ℕ) → get_or a v (pos 0) ≡ trail_value v t

pub polarity-ne : (l : Lit) → polarity l ≢ pos 0
polarity-ne l = ground arith

pub trail_value-append :
    (v : ℕ) (t u : List Lit)
    → trail_value v (t ++ u) ≡ (if mentions v t then trail_value v t else trail_value v u)
unfolding trail_value mentions
trail_value-append v [] u = refl
trail_value-append v (l ∷ t) u = ground (arith, trail_value-append v t u)

pub mentions-append : (v : ℕ) (t u : List Lit) → mentions v (t ++ u) ≡ mentions v t || mentions v u
unfolding mentions
mentions-append v [] u = refl
mentions-append v (l ∷ t) u = ground (arith, mentions-append v t u)

mentions-reverse : (v : ℕ) (t : List Lit) → mentions v (reverse t) ≡ mentions v t
unfolding mentions
mentions-reverse v [] = refl
mentions-reverse v (l ∷ t) =
    rw (reverse-cons l t)
      (ground (arith, mentions-append v (reverse t) (l ∷ []), mentions-reverse v t))

-- A variable has no value exactly when the trail does not mention it.
pub trail_value_unset : (v : ℕ) (t : List Lit) → mentions v t ≡ false → trail_value v t ≡ pos 0
unfolding trail_value mentions
trail_value_unset v [] h = refl
trail_value_unset v (l ∷ t) h = ground (arith, trail_value_unset v t)

pub mentions_of_unset : (v : ℕ) (t : List Lit) → trail_value v t ≡ pos 0 → mentions v t ≡ false
unfolding trail_value mentions
mentions_of_unset v [] h = refl
mentions_of_unset v (l ∷ t) h = ground (arith, mentions_of_unset v t, polarity-ne l)

pub Distinct-snoc :
    (t : List Lit) (l : Lit) → mentions (var l) t ≡ false → Distinct t → Distinct (t ++ l ∷ [])
unfolding mentions
Distinct-snoc [] l h d = (refl, tt)
Distinct-snoc (k ∷ t) l h d =
    (ground (arith, mentions-append (var k) t (l ∷ [])), Distinct-snoc t l (ground arith) d.1)

pub Distinct-append_left : (t u : List Lit) → Distinct (t ++ u) → Distinct t
Distinct-append_left [] u d = tt
Distinct-append_left (l ∷ t) u d =
    (ground (arith, mentions-append (var l) t u), Distinct-append_left t u d.1)

pub Distinct-disjoint :
    (v : ℕ) (t u : List Lit) → Distinct (t ++ u) → mentions v u ≡ true → mentions v t ≡ false
unfolding mentions
Distinct-disjoint v [] u d h = refl
Distinct-disjoint v (l ∷ t) u d h =
    ground
      (arith, mentions-append (var l) t u, mentions-append v t u, Distinct-disjoint v t u d.1 h)

get_or-unassign_one :
    (a : List ℤ) (i v : ℕ)
    → get_or (set a i (pos 0)) v (pos 0) ≡ (if i == v then pos 0 else get_or a v (pos 0))
get_or-unassign_one [] i v = ground arith
get_or-unassign_one (x ∷ a) zero zero = ground arith
get_or-unassign_one (x ∷ a) zero (suc v) = ground arith
get_or-unassign_one (x ∷ a) (suc i) zero = ground arith
get_or-unassign_one (x ∷ a) (suc i) (suc v) = ground (arith, get_or-unassign_one a i v)

pub get_or-unassign :
    (ls : List Lit) (a : List ℤ) (v : ℕ)
    → get_or (unassign ls a) v (pos 0) ≡ (if mentions v ls then pos 0 else get_or a v (pos 0))
unfolding unassign mentions
get_or-unassign [] a v = refl
get_or-unassign (l ∷ ls) a v =
    get_or-unassign ls (set a (var l) (pos 0)) v ∙ ground (arith, get_or-unassign_one a (var l) v)

pub length-unassign : (ls : List Lit) (a : List ℤ) → length (unassign ls a) ≡ length a
unfolding unassign
length-unassign [] a = refl
length-unassign (l ∷ ls) a =
    length-unassign ls (set a (var l) (pos 0)) ∙ length-set a (var l) (pos 0)

-- `restart` leaves no variable assigned.
pub unassign-Reflects_nil : (a : List ℤ) (t : List Lit) → Reflects a t → Reflects (unassign t a) []
unfolding trail_value
unassign-Reflects_nil a t r v = ground (arith, get_or-unassign t a v, r v, trail_value_unset v t)

-- Taking back the end of the trail leaves what the rest of it says.
pub unassign-Reflects_take :
    (a : List ℤ) (t u : List Lit)
    → Distinct (t ++ u)
    → Reflects a (t ++ u)
    → Reflects (unassign (reverse u) a) t
unassign-Reflects_take a t u d r v = ground (
  arith,
  get_or-unassign (reverse u) a v,
  mentions-reverse v u,
  r v,
  trail_value-append v t u,
  trail_value_unset v t,
  trail_value_unset v u,
  Distinct-disjoint v t u d,
)

-- A new literal on the trail, of a variable that has no value.
pub set-Reflects_snoc :
    (a : List ℤ) (t : List Lit) (l : Lit)
    → var l < length a
    → mentions (var l) t ≡ false
    → Reflects a t
    → Reflects (set a (var l) (polarity l)) (t ++ l ∷ [])
unfolding trail_value
set-Reflects_snoc a t l lt h r v = elim (Bool-cases (var l == v)) [
  | inl same ↦
      subst (λ w. get_or (set a (var l) (polarity l)) w (pos 0) ≡ trail_value w (t ++ l ∷ []))
        ((==_iff (var l) v).0 same)
        (get_or-set_self a (var l) (polarity l) (pos 0) lt
          ∙ ground (arith, trail_value-append (var l) t (l ∷ [])))
  | inr other ↦
      get_or-set_ne a (var l) v (polarity l) (pos 0) (ground arith)
      ∙ ground (arith, r v, trail_value-append v t (l ∷ []), trail_value_unset v t)
]

-- Under an assignment that satisfies the trail, each variable has no value or the right one.
pub trail_value-holds :
    (m : Model) (t : List Lit) (v : ℕ)
    → sat_cube m t ≡ true
    → (trail_value v t ≡ pos 0)
      ⊎ ((trail_value v t ≡ pos 1) × (m v ≡ true))
      ⊎ ((trail_value v t ≡ negsuc 0) × (m v ≡ false))
unfolding trail_value sat_cube holds
trail_value-holds m [] v h = inl refl
trail_value-holds m (l ∷ t) v h = elim (Bool-cases (var l == v)) [
  | inl same ↦
      subst
        (λ w.
          (trail_value w (l ∷ t) ≡ pos 0)
          ⊎ ((trail_value w (l ∷ t) ≡ pos 1) × (m w ≡ true))
          ⊎ ((trail_value w (l ∷ t) ≡ negsuc 0) × (m w ≡ false)))
        ((==_iff (var l) v).0 same) (ground arith)
  | inr other ↦ ground (arith, trail_value-holds m t v)
]
