-- ===== src/Base/Tests.antt =====
-- Boolean tests on the native numbers, the conditional, and case splits that keep their equation.
use Prim.Native.Nat.{ℕ, ◌≤◌, ◌<◌, compare, Ordering}
use mathlib.Core.Path.{◌≡◌, refl, sym, subst}
use mathlib.Core.Logic.{◌↔◌, ◌⊎◌, inl, inr}
use mathlib.Core.Bool.{Bool, true, false, ◌&&◌}
use mathlib.Core.Option.{Option, none, some}
use native.Mathlib.Omega.{arith}

abbrev pub ltb : ℕ → ℕ → Bool
ltb a b = elim (compare a b) [ Ordering.lt ↦ true | _ ↦ false ]

abbrev pub leb : ℕ → ℕ → Bool
leb a b = elim (compare a b) [ Ordering.gt ↦ false | _ ↦ true ]

infix 50 ◌==◌
abbrev pub ◌==◌ : ℕ → ℕ → Bool
a == b = elim (compare a b) [ Ordering.eq ↦ true | _ ↦ false ]

infix 1 if◌then◌else◌
abbrev pub if◌then◌else◌ {ℓ} : {A : Type ℓ} → Bool → A → A → A
if true then x else y = x
if false then x else y = y

pub ltb→lt : (a b : ℕ) → ltb a b ≡ true → a < b
ltb→lt a b h = ground arith

pub lt→ltb : (a b : ℕ) → a < b → ltb a b ≡ true
lt→ltb a b h = ground arith

pub ltb→le : (a b : ℕ) → ltb a b ≡ false → b ≤ a
ltb→le a b h = ground arith

pub ==_iff : (a b : ℕ) → ((a == b) ≡ true) ↔ (a ≡ b)
==_iff a b = ground arith

pub Bool-cases : (b : Bool) → (b ≡ true) ⊎ (b ≡ false)
Bool-cases true = inl refl
Bool-cases false = inr refl

pub Option-cases {ℓ} : {A : Type ℓ} (o : Option A) → (o ≡ none) ⊎ ((a : A) × (o ≡ some a))
Option-cases none = inl refl
Option-cases (some a) = inr (a, refl)

pub and-eq-true : (a b : Bool) → (a && b) ≡ true → (a ≡ true) × (b ≡ true)
and-eq-true a b h = ground arith

-- What holds of both branches holds of the conditional.
pub holds-if {ℓ κ} :
    {A : Type ℓ} (P : A → Type κ) {x y : A} (b : Bool) → P x → P y → P (if b then x else y)
holds-if P true h k = h
holds-if P false h k = k

pub holds-elim {ℓ κ μ} :
    {A : Type ℓ} {B : Type κ} (P : B → Type μ) {x : B} {f : A → B} (o : Option A)
    → P x
    → ((a : A) → P (f a))
    → P (elim o [ none ↦ x | some a ↦ f a ])
holds-elim P none h k = h
holds-elim P (some a) h k = k a

-- The same, with what was tested at hand.
pub holds-if_eq {ℓ κ} :
    {A : Type ℓ} (P : A → Type κ) {x y : A} (b : Bool)
    → (b ≡ true → P x)
    → (b ≡ false → P y)
    → P (if b then x else y)
holds-if_eq P true h k = h refl
holds-if_eq P false h k = k refl

pub holds-elim_eq {ℓ κ μ} :
    {A : Type ℓ} {B : Type κ} (P : B → Type μ) {x : B} {f : A → B} (o : Option A)
    → (o ≡ none → P x)
    → ((a : A) → o ≡ some a → P (f a))
    → P (elim o [ none ↦ x | some a ↦ f a ])
holds-elim_eq P none h k = h refl
holds-elim_eq P (some a) h k = k a refl

pub elim_some {ℓ κ} :
    {A : Type ℓ} {B : Type κ} (x : B) (f : A → B) {o : Option A} {a : A}
    → o ≡ some a
    → elim o [ none ↦ x | some s ↦ f s ] ≡ f a
elim_some x f {a} h = subst (λ o. elim o [ none ↦ x | some s ↦ f s ] ≡ f a) (sym h) refl

pub elim_none {ℓ κ} :
    {A : Type ℓ} {B : Type κ} (x : B) (f : A → B) {o : Option A}
    → o ≡ none
    → elim o [ none ↦ x | some s ↦ f s ] ≡ x
elim_none x f h = subst (λ o. elim o [ none ↦ x | some s ↦ f s ] ≡ x) (sym h) refl
