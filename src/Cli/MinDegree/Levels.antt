-- ===== src/Cli/MinDegree/Levels.antt =====
-- The levels that `PartialOrderHeuristicMinDegree` of cube_gen_cli/cube_gen_cli.cpp gives before it
-- normalizes them.
use hydra_sat.Base.{
  ℕ, zero, suc, ◌+◌, ◌≤◌, ◌<◌, ◌≡◌, refl, sym, ap, subst, ◌∙◌, ◌≢◌, inl, inr, Bool, true, false,
  List, [], ◌∷◌, none, some, if◌then◌else◌, ◌==◌, ==_iff, Bool-cases, length, get_or, set,
  replicate, length-set, length-replicate, get_or-set_self, get_or-set_ne, get_or-replicate, arith,
}
use hydra_sat.Cli.Lit.{Lit}
use hydra_sat.Cli.MinDegree.{
  Order, Least, IsLeast, least_degree, least_degree-IsLeast, eliminate, eliminate_all, min_degree,
}

count_open : List Bool → ℕ
count_open [] = 0
count_open (b ∷ bs) = (if b then 0 else 1) + count_open bs

count_open-set :
    (bs : List Bool) (i : ℕ)
    → i < length bs
    → get_or bs i false ≡ false
    → count_open (set bs i true) + 1 ≡ count_open bs
unfolding count_open
count_open-set [] i lt e = elim lt [ ]
count_open-set (b ∷ bs) zero lt e = ground arith
count_open-set (b ∷ bs) (suc i) lt e = ground (arith, count_open-set bs i)

count_open-zero :
    (bs : List Bool) (i : ℕ) → i < length bs → count_open bs ≡ 0 → get_or bs i false ≡ true
unfolding count_open
count_open-zero [] i lt e = elim lt [ ]
count_open-zero (b ∷ bs) zero lt e = ground arith
count_open-zero (b ∷ bs) (suc i) lt e = count_open-zero bs i (omega arith) (ground arith)

count_open-one :
    (bs : List Bool) (i : ℕ)
    → 1 ≤ i
    → i < length bs
    → get_or bs 0 true ≡ false
    → count_open bs ≡ 1
    → get_or bs i false ≡ true
unfolding count_open
count_open-one [] i lo lt z e = elim lt [ ]
count_open-one (b ∷ bs) zero lo lt z e = absurd (omega arith)
count_open-one (b ∷ bs) (suc i) lo lt z e = count_open-zero bs i (omega arith) (ground arith)

count_open-replicate : (n : ℕ) → count_open (replicate n false) ≡ n
unfolding count_open
count_open-replicate zero = refl
count_open-replicate (suc n) = omega (arith, count_open-replicate n)

-- The state with `k` steps to go.
record IsPartial (n k : ℕ) (o : Order) : Type 0 where
  length_elim : length o.eliminated ≡ n + 1
  length_level : length o.level ≡ n + 1
  zero_open : get_or o.eliminated 0 true ≡ false
  open_left : count_open o.eliminated ≡ k + 1
  range :
      (v : ℕ)
      → 1 ≤ v
      → v ≤ n
      → get_or o.eliminated v false ≡ true
      → (k < get_or o.level v 0) × (get_or o.level v 0 ≤ n)
  injective :
      (u v : ℕ)
      → 1 ≤ u
      → u ≤ n
      → 1 ≤ v
      → v ≤ n
      → get_or o.eliminated u false ≡ true
      → get_or o.eliminated v false ≡ true
      → get_or o.level u 0 ≡ get_or o.level v 0
      → u ≡ v

set_zero : (bs : List Bool) (b : ℕ) → 1 ≤ b → get_or (set bs b true) 0 true ≡ get_or bs 0 true
set_zero bs b lo = get_or-set_ne bs b 0 true true (λ e. absurd (omega (arith, e)))

eliminate-IsPartial :
    (n k b d : ℕ) (o : Order)
    → k + 1 ≤ n
    → IsPartial n (suc k) o
    → IsLeast o (n + 1) (some (b, d))
    → IsPartial n k (eliminate b (suc k) o)
unfolding eliminate
eliminate-IsPartial n k b d o le h (lo, hi, open_b, e, least) = record {
  length_elim = length-set o.eliminated b true ∙ h.length_elim;
  length_level = length-set o.level b (suc k) ∙ h.length_level;
  zero_open = set_zero o.eliminated b lo ∙ h.zero_open;
  open_left =
      omega
        (arith, h.open_left, count_open-set o.eliminated b (omega (arith, h.length_elim)) open_b);
  range = λ v vl vh out. elim (Bool-cases (b == v)) [
    | inl here ↦ at_b v here
    | inr other ↦ away_range v (λ q. absurd (ground arith)) vl vh out
  ];
  injective = λ u v ul uh vl vh ou ov same. elim (Bool-cases (b == u)) [
    | inl here_u ↦ elim (Bool-cases (b == v)) [
      | inl here_v ↦ ground arith
      | inr other_v ↦ absurd (
          omega (arith, same, level_at u here_u, away_more v (λ q. absurd (ground arith)) vl vh ov))
    ]
    | inr other_u ↦ elim (Bool-cases (b == v)) [
      | inl here_v ↦ absurd (
          omega (arith, same, level_at v here_v, away_more u (λ q. absurd (ground arith)) ul uh ou))
      | inr other_v ↦
          h.injective u v ul uh vl vh (elim_away u (λ q. absurd (ground arith)) ou)
            (elim_away v (λ q. absurd (ground arith)) ov)
            (sym (level_away u (λ q. absurd (ground arith)))
              ∙ same
              ∙ level_away v (λ q. absurd (ground arith)))
    ]
  ];
}
  where
    level_at : (v : ℕ) → (b == v) ≡ true → get_or (set o.level b (suc k)) v 0 ≡ suc k
    level_at v here =
        ap (λ j. get_or (set o.level b (suc k)) j 0) (sym ((==_iff b v).0 here))
        ∙ get_or-set_self o.level b (suc k) 0 (omega (arith, h.length_level))

    at_b :
        (v : ℕ)
        → (b == v) ≡ true
        → (k < get_or (set o.level b (suc k)) v 0) × (get_or (set o.level b (suc k)) v 0 ≤ n)
    at_b v here = (omega (arith, level_at v here), omega (arith, level_at v here))

    level_away : (v : ℕ) → b ≢ v → get_or (set o.level b (suc k)) v 0 ≡ get_or o.level v 0
    level_away v ne = get_or-set_ne o.level b v (suc k) 0 ne

    elim_away :
        (v : ℕ)
        → b ≢ v
        → get_or (set o.eliminated b true) v false ≡ true
        → get_or o.eliminated v false ≡ true
    elim_away v ne out = sym (get_or-set_ne o.eliminated b v true false ne) ∙ out

    away_more :
        (v : ℕ)
        → b ≢ v
        → 1 ≤ v
        → v ≤ n
        → get_or (set o.eliminated b true) v false ≡ true
        → suc k < get_or (set o.level b (suc k)) v 0
    away_more v ne vl vh out =
        omega (arith, level_away v ne, (h.range v vl vh (elim_away v ne out)).0)

    away_range :
        (v : ℕ)
        → b ≢ v
        → 1 ≤ v
        → v ≤ n
        → get_or (set o.eliminated b true) v false ≡ true
        → (k < get_or (set o.level b (suc k)) v 0) × (get_or (set o.level b (suc k)) v 0 ≤ n)
    away_range v ne vl vh out = (
      omega (arith, away_more v ne vl vh out),
      omega (arith, level_away v ne, (h.range v vl vh (elim_away v ne out)).1),
    )

-- Every variable is eliminated, and the levels are as they should be.
abbrev IsRanked : ℕ → Order → Type 0
IsRanked n o =
    (u v : ℕ)
    → 1 ≤ u
    → u ≤ n
    → 1 ≤ v
    → v ≤ n
    → (1 ≤ get_or o.level u 0)
      × (get_or o.level u 0 ≤ n)
      × (get_or o.level u 0 ≡ get_or o.level v 0 → u ≡ v)

finish :
    (n k : ℕ) (o : Order)
    → IsPartial n k o
    → ((v : ℕ) → 1 ≤ v → v ≤ n → get_or o.eliminated v false ≡ true)
    → IsRanked n o
finish n k o h out u v ul uh vl vh = (
  omega (arith, (h.range u ul uh (out u ul uh)).0),
  (h.range u ul uh (out u ul uh)).1,
  h.injective u v ul uh vl vh (out u ul uh) (out v vl vh),
)

eliminate_all-IsRanked :
    (n k : ℕ) (o : Order) → k ≤ n → IsPartial n k o → IsRanked n (eliminate_all n k o)
unfolding eliminate_all
eliminate_all-IsRanked n zero o le h = finish n 0 o h (λ v vl vh.
    count_open-one o.eliminated v vl (omega (arith, h.length_elim)) h.zero_open
      (omega (arith, h.open_left)))
eliminate_all-IsRanked n (suc k) o le h =
    by_least (λ o' h'. eliminate_all-IsRanked n k o' (omega arith) h') (least_degree o 1 n none)
      refl
  where
    found : IsLeast o (1 + n) (least_degree o 1 n none)
    found = least_degree-IsLeast o 1 n none (omega arith) (λ u l lt. absurd (omega arith))

    by_least :
        ((o' : Order) → IsPartial n k o' → IsRanked n (eliminate_all n k o'))
        → (b : Least) → least_degree o 1 n none ≡ b
        → IsRanked n (eliminate_all n (suc k) o)
    by_least rest none e =
        rw (e, eliminate_all)
          (finish n (suc k) o h (λ v vl vh. subst (IsLeast o (1 + n)) e found v vl (omega arith)))
    by_least rest (some (b, d)) e =
        rw (e, eliminate_all)
          (rest (eliminate b (suc k) o) (
            eliminate-IsPartial n k b d o (omega arith) h (
              subst (λ i. IsLeast o i (some (b, d))) (omega arith)
                (subst (IsLeast o (1 + n)) e found))))

-- Before they are normalized, the levels that the min-degree elimination gives the variables from 1 to
-- n are numbers from 1 to n, and no two variables have the same level.
pub min_degree_levels :
    (n : ℕ) (cs : List (List Lit)) (u v : ℕ)
    → 1 ≤ u
    → u ≤ n
    → 1 ≤ v
    → v ≤ n
    → (1 ≤ get_or (min_degree n cs).level u 0)
      × (get_or (min_degree n cs).level u 0 ≤ n)
      × (get_or (min_degree n cs).level u 0 ≡ get_or (min_degree n cs).level v 0 → u ≡ v)
unfolding min_degree
min_degree_levels n cs = eliminate_all-IsRanked n n _ (omega arith) (record {
  length_elim = length-replicate (n + 1) false;
  length_level = length-replicate (n + 1) 1;
  zero_open = starts (n + 1) (omega arith);
  open_left = count_open-replicate (n + 1);
  range = λ v vl vh out. absurd (untouched v out);
  injective = λ u v ul uh vl vh ou ov same. absurd (untouched u ou);
})
  where
    untouched : (v : ℕ) → get_or (replicate (n + 1) false) v false ≡ true → ⊥
    untouched v out =
        let clash : false ≡ true = sym (get_or-replicate (n + 1) v false) ∙ out in absurd (cc clash)

    starts : (k : ℕ) → 1 ≤ k → get_or (replicate k false) 0 true ≡ false
    starts zero lo = absurd (omega arith)
    starts (suc k) lo = refl
