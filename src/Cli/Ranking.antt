-- ===== src/Cli/Ranking.antt =====
-- The scores and the order of the variables that `main` of cube_gen_cli/cube_gen_cli.cpp writes.
use hydra_sat.Base.{
  holds-if, ℕ, zero, suc, ◌+◌, ◌-◌, ◌≡◌, refl, inl, inr, true, false, List, [], ◌∷◌, if◌then◌else◌,
  Bool-cases, length, get_or, set, drop, replicate, All, All-mono,
}
use mathlib.Core.List.{Permᴰ, Perm}
use mathlib.Core.List.Permᴰ
use hydra_sat.Cli.Lit.{Lit}
use hydra_sat.Cli.Double.{Double}
use hydra_sat.Cli.Heuristic.Jwts.{add_clauses}
use hydra_sat.Cli.Order.{Arithmetic, max_element, PartialOrderHeuristic, get_level}

-- std::iota from `v` on.
unfoldable pub iota : ℕ → ℕ → List ℕ
iota v zero = []
iota v (suc k) = v ∷ iota (suc v) k

module _ (F : Double) (A : Arithmetic F) where
  open F use {D, zero_d, one, add, mul, gt, gt_irrefl, gt_trans, le_trans}
  open A use {div, sub}

  -- structScores[v] = po->getLevel(v) for `k` variables from `v` on.
  unfoldable pub struct_from : PartialOrderHeuristic F A → ℕ → ℕ → List D → List D
  struct_from po v zero scores = scores
  struct_from po v (suc k) scores = struct_from po (suc v) k (set scores v (get_level F A po v))

  -- v[i] /= mx for `k` indices from `i` on.
  unfoldable pub divide_from : D → ℕ → ℕ → List D → List D
  divide_from mx i zero v = v
  divide_from mx i (suc k) v = divide_from mx (suc i) k (set v i (div (get_or v i zero_d) mx))

  unfoldable pub norm : List D → List D
  unfolding divide_from max_element
  norm v =
      let mx = max_element F A (drop 1 v) in
      if gt mx zero_d then divide_from mx 1 (length v - 1) v else v

  -- finalScores for `k` variables from `v` on.
  unfoldable pub combine_from : D → List D → List D → ℕ → ℕ → List D → List D
  combine_from alpha struct jwts v zero scores = scores
  combine_from alpha struct jwts v (suc k) scores = combine_from alpha struct jwts (suc v) k (
      set scores v
        (add (mul alpha (get_or struct v zero_d)) (mul (sub one alpha) (get_or jwts v zero_d))))

  unfoldable pub final_scores : D → PartialOrderHeuristic F A → ℕ → List (List Lit) → List D
  unfolding struct_from norm combine_from add_clauses
  final_scores alpha po n cs =
      let struct = norm (struct_from po 1 n (replicate (n + 1) one)) in
      let jwts = norm (add_clauses F cs (replicate (n + 1) zero_d)) in
      combine_from alpha struct jwts 1 n (replicate (n + 1) zero_d)

  -- std::sort under finalScores[a] > finalScores[b].
  unfoldable pub insert : List D → ℕ → List ℕ → List ℕ
  insert scores v [] = v ∷ []
  insert scores v (w ∷ ws) =
      let rest = insert scores v ws in
      if gt (get_or scores w zero_d) (get_or scores v zero_d) then w ∷ rest else v ∷ w ∷ ws

  unfoldable pub sort : List D → List ℕ → List ℕ
  unfolding insert
  sort scores [] = []
  sort scores (v ∷ vs) = insert scores v (sort scores vs)

  unfoldable pub var_order : List D → ℕ → List ℕ
  unfolding iota sort
  var_order scores n = sort scores (iota 1 n)

  insert-Permᴰ : (scores : List D) (v : ℕ) (ws : List ℕ) → Permᴰ (insert scores v ws) (v ∷ ws)
  unfolding insert
  insert-Permᴰ scores v [] = Permᴰ.refl (v ∷ [])
  insert-Permᴰ scores v (w ∷ ws) =
      holds-if (λ xs. Permᴰ xs (v ∷ w ∷ ws)) (gt (get_or scores w zero_d) (get_or scores v zero_d))
        (Permᴰ.trans (Permᴰ.cons refl (insert-Permᴰ scores v ws)) (Permᴰ.swap refl refl))
        (Permᴰ.refl (v ∷ w ∷ ws))

  sort-Permᴰ : (scores : List D) (vs : List ℕ) → Permᴰ (sort scores vs) vs
  unfolding sort
  sort-Permᴰ scores [] = Permᴰ.nil
  sort-Permᴰ scores (v ∷ vs) =
      Permᴰ.trans (insert-Permᴰ scores v (sort scores vs)) (Permᴰ.cons refl (sort-Permᴰ scores vs))

  -- Best first: no later variable has a greater score.
  abbrev pub IsRanked : List D → List ℕ → Type 0
  IsRanked scores [] = Unit
  IsRanked scores (v ∷ vs) =
      All (λ w. gt (get_or scores w zero_d) (get_or scores v zero_d) ≡ false) vs
      × IsRanked scores vs

  insert-All :
      (P : ℕ → Type 0) (scores : List D) (v : ℕ) (ws : List ℕ)
      → P v
      → All P ws
      → All P (insert scores v ws)
  unfolding insert
  insert-All P scores v [] p h = (p, tt)
  insert-All P scores v (w ∷ ws) p (q, h) =
      holds-if (All P) (gt (get_or scores w zero_d) (get_or scores v zero_d))
        (q, insert-All P scores v ws p h) (p, (q, h))

  asym : (a b : D) → gt a b ≡ true → gt b a ≡ false
  asym a b above = elim (Bool-cases (gt b a)) [
    | inl under ↦ absurd (cc (gt_trans a b a above under, gt_irrefl a))
    | inr other ↦ other
  ]

  insert-IsRanked :
      (scores : List D) (v : ℕ) (ws : List ℕ)
      → IsRanked scores ws
      → IsRanked scores (insert scores v ws)
  unfolding insert
  insert-IsRanked scores v [] h = (tt, tt)
  insert-IsRanked scores v (w ∷ ws) (below, h) =
      elim (Bool-cases (gt (get_or scores w zero_d) (get_or scores v zero_d))) [
        | inl above ↦
            rw (above, insert)
              (
                insert-All _ scores v ws
                    (asym (get_or scores w zero_d) (get_or scores v zero_d) above) below,
                insert-IsRanked scores v ws h,
              )
        | inr not_above ↦
            rw (not_above, insert)
              ((not_above, All-mono _ _ ws (λ u le. le_trans _ _ _ le not_above) below), (below, h))
      ]

  sort-IsRanked : (scores : List D) (vs : List ℕ) → IsRanked scores (sort scores vs)
  unfolding sort
  sort-IsRanked scores [] = tt
  sort-IsRanked scores (v ∷ vs) =
      insert-IsRanked scores v (sort scores vs) (sort-IsRanked scores vs)

  -- The order of the variables has each of those from 1 to n once, and no variable before one of a
  -- greater score.
  pub var_order-IsRanked :
      (scores : List D) (n : ℕ)
      → Perm (var_order scores n) (iota 1 n) × IsRanked scores (var_order scores n)
  unfolding var_order
  var_order-IsRanked scores n = (∣ sort-Permᴰ scores (iota 1 n) ∣₁, sort-IsRanked scores (iota 1 n))
