-- ===== src/Cli/MinDegree.antt =====
-- `PartialOrderHeuristicMinDegree` of cube_gen_cli/cube_gen_cli.cpp: the elimination of the variables by
-- least degree. A set of neighbours is a list without repetitions; only its members matter.
pub mod Levels
use hydra_sat.Base.{
  ℕ, zero, suc, ◌+◌, ◌-◌, ◌≤◌, ◌<◌, ◌≡◌, refl, ap, subst, ◌⊎◌, inl, inr, Bool, true, false, ◌||◌,
  List, [], ◌∷◌, ◌++◌, Option, none, some, if◌then◌else◌, ltb, ◌==◌, ltb→lt, ltb→le, Bool-cases,
  length, get_or, set, replicate, arith,
}
use hydra_sat.Cli.Lit.{Lit, var}

-- adj, elim and m_level before it is normalized, where a level is a whole number.
pub record Order : Type 0 where
  pub adj : List (List ℕ)
  pub eliminated : List Bool
  pub level : List ℕ

unfoldable pub is_member : ℕ → List ℕ → Bool
is_member v [] = false
is_member v (u ∷ us) = u == v || is_member v us

-- adj[u].insert(v)
abbrev pub insert : ℕ → ℕ → List (List ℕ) → List (List ℕ)
insert u v adj =
    if is_member v (get_or adj u []) then adj else set adj u (get_or adj u [] ++ v ∷ [])

-- One edge, both ways.
abbrev pub connect : ℕ → ℕ → List (List ℕ) → List (List ℕ)
connect u v adj = insert v u (insert u v adj)

-- The inner loop over the rest of a clause.
unfoldable pub join_rest : ℕ → List Lit → List (List ℕ) → List (List ℕ)
unfolding is_member
join_rest u [] adj = adj
join_rest u (l ∷ c) adj = join_rest u c (if u == var l then adj else connect u (var l) adj)

unfoldable pub join_clause : List Lit → List (List ℕ) → List (List ℕ)
unfolding join_rest
join_clause [] adj = adj
join_clause (l ∷ c) adj = join_clause c (join_rest (var l) c adj)

unfoldable pub primal_graph : List (List Lit) → List (List ℕ) → List (List ℕ)
unfolding join_clause
primal_graph [] adj = adj
primal_graph (c ∷ cs) adj = primal_graph cs (join_clause c adj)

-- The neighbours that are not eliminated.
unfoldable pub open_of : List Bool → List ℕ → List ℕ
open_of eliminated [] = []
open_of eliminated (u ∷ us) =
    if get_or eliminated u false then open_of eliminated us else u ∷ open_of eliminated us

unfoldable pub degree : Order → ℕ → ℕ
unfolding open_of
degree o v = length (open_of o.eliminated (get_or o.adj v []))

-- best and bestDeg; `none` is -1 with INT_MAX, which no degree reaches.
abbrev pub Least : Type 0
Least = Option (ℕ × ℕ)

unfoldable pub consider_degree : Order → ℕ → Least → Least
unfolding degree
consider_degree o v none = if get_or o.eliminated v false then none else some (v, degree o v)
consider_degree o v (some (b, d)) =
    if get_or o.eliminated v false
    then some (b, d)
    else if ltb (degree o v) d
    then some (v, degree o v)
    else some (b, d)

-- for (int v = 1; v <= n; v++), with the number of rounds left.
unfoldable pub least_degree : Order → ℕ → ℕ → Least → Least
unfolding consider_degree
least_degree o v zero b = b
least_degree o v (suc k) b = least_degree o (v + 1) k (consider_degree o v b)

-- The fill-in edges.
unfoldable pub link_rest : ℕ → List ℕ → List (List ℕ) → List (List ℕ)
link_rest u [] adj = adj
link_rest u (v ∷ vs) adj = link_rest u vs (connect u v adj)

unfoldable pub link_all : List ℕ → List (List ℕ) → List (List ℕ)
unfolding link_rest
link_all [] adj = adj
link_all (u ∷ us) adj = link_all us (link_rest u us adj)

-- The rest of a step, for the variable `b` and the level n - step + 1.
unfoldable pub eliminate : ℕ → ℕ → Order → Order
unfolding link_all
eliminate b lvl o =
    let eliminated' = set o.eliminated b true in
    record {
      adj = link_all (open_of eliminated' (get_or o.adj b [])) o.adj;
      eliminated = eliminated';
      level = set o.level b lvl;
    }

-- for (int step = 1; step <= n; step++); the number of rounds left is the level that a step gives.
unfoldable pub eliminate_all : ℕ → ℕ → Order → Order
unfolding least_degree eliminate
eliminate_all n zero o = o
eliminate_all n (suc k) o = elim (least_degree o 1 n none) [
  | none ↦ o
  | some (b, d) ↦ eliminate_all n k (eliminate b (suc k) o)
]

unfoldable pub min_degree : ℕ → List (List Lit) → Order
unfolding primal_graph eliminate_all
min_degree n cs = eliminate_all n n (record {
  adj = primal_graph cs (replicate (n + 1) []);
  eliminated = replicate (n + 1) false;
  level = replicate (n + 1) 1;
})

-- The candidates that the loop has passed: from 1 to below `i`, and not eliminated.
abbrev pub IsLeast : Order → ℕ → Least → Type 0
IsLeast o i none = (u : ℕ) → 1 ≤ u → u < i → get_or o.eliminated u false ≡ true
IsLeast o i (some (b, d)) =
    (1 ≤ b)
    × (b < i)
    × (get_or o.eliminated b false ≡ false)
    × (d ≡ degree o b)
    × ((u : ℕ) → 1 ≤ u → u < i → get_or o.eliminated u false ≡ false → d ≤ degree o u)

at_or_before : (u v : ℕ) → u < v + 1 → (u < v) ⊎ (v ≡ u)
at_or_before u v lt = elim (Bool-cases (ltb u v)) [
  | inl l ↦ inl (ltb→lt u v l)
  | inr g ↦ inr (ground arith)
]

consider_degree-IsLeast :
    (o : Order) (v : ℕ) (b : Least)
    → 1 ≤ v
    → IsLeast o v b
    → IsLeast o (v + 1) (consider_degree o v b)
unfolding consider_degree
consider_degree-IsLeast o v none lo h = elim (Bool-cases (get_or o.eliminated v false)) [
  | inl out ↦ rw out (λ u l lt. elim (at_or_before u v lt) [
    | inl before ↦ h u l before
    | inr here ↦ subst (λ i. get_or o.eliminated i false ≡ true) here out
  ])
  | inr still ↦ rw still (
    lo,
    omega arith,
    still,
    refl,
    λ u l lt open_u. elim (at_or_before u v lt) [
      | inl before ↦ cc (h u l before, open_u)
      | inr here ↦ omega (arith, ap (degree o) here)
    ],
  )
]
consider_degree-IsLeast o v (some (b, d)) lo h = elim (Bool-cases (get_or o.eliminated v false)) [
  | inl out ↦ rw out (
    h.0,
    omega (arith, h.1),
    h.2,
    h.3,
    λ u l lt open_u. elim (at_or_before u v lt) [
      | inl before ↦ h.4 u l before open_u
      | inr here ↦ cc (ap (λ i. get_or o.eliminated i false) here, out, open_u)
    ],
  )
  | inr still ↦ elim (Bool-cases (ltb (degree o v) d)) [
    | inl less ↦
        rw (still, less)
          (
            lo,
            omega arith,
            still,
            refl,
            λ u l lt open_u. elim (at_or_before u v lt) [
              | inl before ↦ omega (arith, h.4 u l before open_u, ltb→lt (degree o v) d less)
              | inr here ↦ omega (arith, ap (degree o) here)
            ],
          )
    | inr more ↦
        rw (still, more)
          (
            h.0,
            omega (arith, h.1),
            h.2,
            h.3,
            λ u l lt open_u. elim (at_or_before u v lt) [
              | inl before ↦ h.4 u l before open_u
              | inr here ↦ omega (arith, ap (degree o) here, ltb→le (degree o v) d more)
            ],
          )
  ]
]

pub least_degree-IsLeast :
    (o : Order) (v k : ℕ) (b : Least)
    → 1 ≤ v
    → IsLeast o v b
    → IsLeast o (v + k) (least_degree o v k b)
unfolding least_degree
least_degree-IsLeast o v zero b lo h = subst (λ i. IsLeast o i b) (omega arith) h
least_degree-IsLeast o v (suc k) b lo h =
    subst (λ i. IsLeast o i (least_degree o (v + 1) k (consider_degree o v b))) (omega arith)
      (least_degree-IsLeast o (v + 1) k (consider_degree o v b) (omega arith)
        (consider_degree-IsLeast o v b lo h))
