-- ===== src/Cli/Propagator/Clause.antt =====
-- The clause loop of `propagateLit` of cube_gen_cli/cube_gen_cli.cpp: what it finds in a clause.
use hydra_sat.Base.{
  ℕ, ◌+◌, ◌≤◌, ◌<◌, ◌≡◌, refl, ap, ◌∙◌, ◌≢◌, ◌⊎◌, inl, true, false, not, List, [], ◌∷◌, ℤ, pos,
  negsuc, get_or, arith,
}
use hydra_sat.Cli.Lit.{Lit, Model, var, sign, holds, sat_cube, sat_clause, var-make_lit}
use hydra_sat.Cli.Propagator.{Scan, scan, scan_start, note_free, value, false_lit, lit_idx}
use hydra_sat.Cli.Propagator.Trail.{
  mentions, Reflects, Below, trail_value-holds, trail_value_unset, mentions_of_unset,
}

-- No variable has a value that the assignment `m` does not give it.
abbrev pub Agrees : Model → List ℤ → Type 0
Agrees m a =
    (v : ℕ)
    → (get_or a v (pos 0) ≡ pos 0)
      ⊎ ((get_or a v (pos 0) ≡ pos 1) × (m v ≡ true))
      ⊎ ((get_or a v (pos 0) ≡ negsuc 0) × (m v ≡ false))

pub Reflects-Agrees :
    (m : Model) (a : List ℤ) (t : List Lit) → Reflects a t → sat_cube m t ≡ true → Agrees m a
Reflects-Agrees m a t r h v = rw (r v) (trail_value-holds m t v h)

-- A literal is true, false or unassigned, and where it has a value it is the right one.
pub value_cases :
    (m : Model) (a : List ℤ) (l : Lit)
    → Agrees m a
    → ((value a l ≡ 1) × (holds m l ≡ true))
      ⊎ ((value a l ≡ 0) × (holds m l ≡ false))
      ⊎ (value a l ≡ 2)
unfolding value holds
value_cases m a l ag = ground (arith, ag (var l))

pub value-eq-two :
    (a : List ℤ) (t : List Lit) (l : Lit)
    → Reflects a t
    → value a l ≡ 2
    → mentions (var l) t ≡ false
unfolding value
value-eq-two a t l r h = mentions_of_unset (var l) t (ground (arith, r (var l)))

pub value_unset :
    (a : List ℤ) (t : List Lit) (l : Lit)
    → Reflects a t
    → mentions (var l) t ≡ false
    → value a l ≡ 2
unfolding value
value_unset a t l r h = ground (arith, r (var l), trail_value_unset (var l) t)

pub value-le : (a : List ℤ) (l : Lit) → value a l ≤ 2
unfolding value
value-le a l = ground arith

-- Where no literal is true: no free literal means that the clause fails, and a single one must hold.
abbrev Finds : Model → List Lit → Scan → Scan → Type 0
Finds m c s r =
    (s.free ≤ r.free)
    × (r.free ≡ s.free → r.unit ≡ s.unit)
    × (r.free ≡ s.free → sat_clause m c ≡ false)
    × (r.free ≡ s.free + 1 → sat_clause m c ≡ true → holds m r.unit ≡ true)

scan-Finds :
    (m : Model) (a : List ℤ) (c : List Lit) (s : Scan)
    → Agrees m a
    → (scan a c s).sat ≡ false
    → Finds m c s (scan a c s)
unfolding scan sat_clause
scan-Finds m a [] s ag h = ground arith
scan-Finds m a (l ∷ c) s ag h =
    ground (arith, value_cases m a l ag, scan-Finds m a c (note_free (value a l) l s) ag)

-- The unit literal and the new watch, once there is a free literal, are unassigned and in range.
abbrev pub Noted : List ℤ → ℕ → Scan → Type 0
Noted a n s =
    (s.free ≡ 0)
    ⊎ ((value a s.unit ≡ 2) × (value a s.new_w ≡ 2) × (var s.unit < n) × (var s.new_w < n))

note_free-Noted :
    (a : List ℤ) (n : ℕ) (l : Lit) (s : Scan)
    → var l < n
    → Noted a n s
    → Noted a n (note_free (value a l) l s)
note_free-Noted a n l s lt h = ground arith

scan-Noted_from :
    (a : List ℤ) (n : ℕ) (c : List Lit) (s : Scan)
    → Below n c
    → Noted a n s
    → Noted a n (scan a c s)
unfolding scan
scan-Noted_from a n [] s b h = h
scan-Noted_from a n (l ∷ c) s b h =
    ground
      (arith, scan-Noted_from a n c (note_free (value a l) l s) b.1 (note_free-Noted a n l s b.0 h))

pub scan-Noted : (a : List ℤ) (n : ℕ) (c : List Lit) → Below n c → Noted a n (scan a c scan_start)
scan-Noted a n c b = scan-Noted_from a n c scan_start b (inl refl)

-- What a scan from the start tells of a clause that holds.
pub scan_sound :
    (m : Model) (a : List ℤ) (c : List Lit)
    → Agrees m a
    → sat_clause m c ≡ true
    → (scan a c scan_start).sat ≡ false
    → ((scan a c scan_start).free ≢ 0)
      × ((scan a c scan_start).free ≡ 1 → holds m (scan a c scan_start).unit ≡ true)
scan_sound m a c ag sat h = (
  λ e. ground (arith, scan-Finds m a c scan_start ag h),
  λ e. ground (arith, scan-Finds m a c scan_start ag h),
)

lit_idx-var : (k l : Lit) → lit_idx k ≡ lit_idx l → var k ≡ var l
unfolding lit_idx
lit_idx-var k l e = ground arith

value-eq_of_var : (a : List ℤ) (k l : Lit) → var k ≡ var l → value a k ≡ 2 → value a l ≡ 2
unfolding value
value-eq_of_var a k l e h =
    let same : get_or a (var k) (pos 0) ≡ get_or a (var l) (pos 0) =
      ap (λ v. get_or a v (pos 0)) e in
    ground arith

-- Where a literal `p` has a value and the scan of a clause with variables in range finds a literal
-- without one, the watch list that the clause moves to is not the list of the negation of `p`.
pub scan-new_w :
    (a : List ℤ) (n : ℕ) (c : List Lit) (p : Lit)
    → Below n c
    → (scan a c scan_start).free ≢ 0
    → value a p ≢ 2
    → lit_idx (scan a c scan_start).new_w ≢ lit_idx (false_lit p)
scan-new_w a n c p b f h e = ground (
  arith,
  scan-Noted a n c b,
  value-eq_of_var a (scan a c scan_start).new_w p (
      lit_idx-var (scan a c scan_start).new_w (false_lit p) e
      ∙ var-make_lit (var p) (not (sign p))),
)
