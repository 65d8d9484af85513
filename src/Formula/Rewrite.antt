-- ===== src/Formula/Rewrite.antt =====
-- `Lit::rewrite` of cube_generator/src/formula/ProblemTypes.hpp: a formula over the literals of another
-- library, which a function of that library makes.
use hydra_sat.Base.{ℕ, ◌≡◌, refl, ap, ap₂, ◌∙◌, Bool, ◌&&◌, List, [], ◌∷◌, ◌++◌, map, arith}
use hydra_sat.Formula.ProblemTypes.{Lit, var, sign}
use hydra_sat.Formula.Models.{Model, holds, any_of, all_of, all_any, all_of-append, sat_formula}

-- The loop over the clauses, which both functions have.
unfoldable pub rewrite_clauses {ℓ κ} :
    {A : Type ℓ} {T : Type κ} → (A → T) → List (List A) → List (List T)
rewrite_clauses f [] = []
rewrite_clauses f ([] ∷ cs) = rewrite_clauses f cs
rewrite_clauses f ((l ∷ c) ∷ cs) = map f (l ∷ c) ∷ rewrite_clauses f cs

-- The first: it clears `res`, and puts the units first.
unfoldable pub rewrite {ℓ} :
    {T : Type ℓ} → (ℕ → Bool → T) → List (List Lit) → List Lit → List (List T)
unfolding rewrite_clauses
rewrite create cs units =
    map (λ l. create (var l) (sign l) ∷ []) units
    ++ rewrite_clauses (λ l. create (var l) (sign l)) cs

-- The second adds to what `res` holds.
unfoldable pub rewrite_onto {ℓ κ} :
    {A : Type ℓ} {T : Type κ} → (A → T) → List (List A) → List (List T) → List (List T)
unfolding rewrite_clauses
rewrite_onto f cs res = res ++ rewrite_clauses f cs

-- The clauses that are not empty.
unfoldable pub non_empty {ℓ} : {A : Type ℓ} → List (List A) → List (List A)
non_empty [] = []
non_empty ([] ∷ cs) = non_empty cs
non_empty ((l ∷ c) ∷ cs) = (l ∷ c) ∷ non_empty cs

any_of-map {ℓ κ} :
    {A : Type ℓ} {T : Type κ} (f : A → T) (h : T → Bool) (g : A → Bool)
    → ((a : A) → h (f a) ≡ g a)
    → (c : List A) → any_of h (map f c) ≡ any_of g c
unfolding any_of
any_of-map f h g same [] = refl
any_of-map f h g same (l ∷ c) = ground (arith, same l, any_of-map f h g same c)

all_any-rewrite_clauses {ℓ κ} :
    {A : Type ℓ} {T : Type κ} (f : A → T) (h : T → Bool) (g : A → Bool)
    → ((a : A) → h (f a) ≡ g a)
    → (cs : List (List A)) → all_any h (rewrite_clauses f cs) ≡ all_any g (non_empty cs)
unfolding all_of rewrite_clauses non_empty
all_any-rewrite_clauses f h g same [] = refl
all_any-rewrite_clauses f h g same ([] ∷ cs) = all_any-rewrite_clauses f h g same cs
all_any-rewrite_clauses f h g same ((l ∷ c) ∷ cs) =
    ap₂ ◌&&◌ (any_of-map f h g same (l ∷ c)) (all_any-rewrite_clauses f h g same cs)

-- Where a literal of the other library holds when the literal it is made of holds, the clauses that
-- are added to `res` keep the meaning of the clauses, but for the empty ones, which are dropped.
pub rewrite_onto_lem {ℓ κ} :
    {A : Type ℓ} {T : Type κ} (f : A → T) (h : T → Bool) (g : A → Bool) (cs : List (List A))
    (res : List (List T))
    → ((a : A) → h (f a) ≡ g a)
    → all_any h (rewrite_onto f cs res) ≡ (all_any h res && all_any g (non_empty cs))
unfolding rewrite_onto
rewrite_onto_lem f h g cs res same =
    all_of-append (any_of h) res (rewrite_clauses f cs)
    ∙ ap (λ b. all_any h res && b) (all_any-rewrite_clauses f h g same cs)

all_any_units {ℓ} :
    {T : Type ℓ} (create : ℕ → Bool → T) (h : T → Bool) (m : Model)
    → ((l : Lit) → h (create (var l) (sign l)) ≡ holds m l)
    → (units : List Lit)
    → all_any h (map (λ l. create (var l) (sign l) ∷ []) units) ≡ all_of (holds m) units
unfolding any_of all_of
all_any_units create h m same [] = refl
all_any_units create h m same (l ∷ units) =
    ground (arith, same l, all_any_units create h m same units)

-- Where a made literal holds when the literal it is made of holds, the rewritten formula says that the
-- units hold and that the clauses that are not empty hold: an empty clause is dropped.
pub rewrite_lem {ℓ} :
    {T : Type ℓ} (create : ℕ → Bool → T) (h : T → Bool) (m : Model) (cs : List (List Lit))
    (units : List Lit)
    → ((l : Lit) → h (create (var l) (sign l)) ≡ holds m l)
    → all_any h (rewrite create cs units) ≡ (all_of (holds m) units && sat_formula m (non_empty cs))
unfolding rewrite rewrite_onto
rewrite_lem create h m cs units same =
    rewrite_onto_lem (λ l. create (var l) (sign l)) h (holds m) cs
      (map (λ l. create (var l) (sign l) ∷ []) units) same
    ∙ ap (λ b. b && sat_formula m (non_empty cs)) (all_any_units create h m same units)
