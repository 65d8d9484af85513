-- ===== src/Cli/Scores.antt =====
-- The scores that `CubeGenerator` of cube_gen_cli/cube_gen_cli.cpp keeps for its caller: cacheScores and
-- getPartialOrderScores.
use hydra_sat.Base.{
  ℕ, zero, suc, ◌+◌, ◌≤◌, ◌<◌, ◌≡◌, refl, sym, ap, ◌∙◌, inl, inr, List, [], ◌∷◌, if◌then◌else◌, ltb,
  ◌==◌, ==_iff, Bool-cases, length, get_or, set, replicate, length-set, length-replicate,
  get_or-set_self, get_or-set_ne, arith,
}
use hydra_sat.Cli.Double.{Double}

module _ (F : Double) where
  open F use {D, one}

  -- The field m_cachedScores, which nothing else of the class reads or writes.
  pub record Cache : Type 0 where
    pub cached_scores : List D

  unfoldable pub cache_scores : List D → Cache → Cache
  cache_scores s c = record { cached_scores = s }

  -- The loop over i from 1 to nbVar, with the number of rounds left; each round writes scores[i].
  unfoldable pub fill_scores : List D → ℕ → ℕ → List D → List D
  fill_scores cached i zero scores = scores
  fill_scores cached i (suc k) scores =
      fill_scores cached (i + 1) k
        (set scores i (if ltb i (length cached) then get_or cached i one else one))

  -- scores.assign(nbVar + 1, 1.0), and the loop.
  unfoldable pub get_partial_order_scores : Cache → ℕ → List D
  unfolding fill_scores
  get_partial_order_scores c nb = fill_scores c.cached_scores 1 nb (replicate (nb + 1) one)

  length-fill_scores :
      (cached : List D) (i k : ℕ) (scores : List D)
      → length (fill_scores cached i k scores) ≡ length scores
  unfolding fill_scores
  length-fill_scores cached i zero scores = refl
  length-fill_scores cached i (suc k) scores =
      length-fill_scores cached (i + 1) k _ ∙ length-set scores i _

  -- A round leaves the entries before its own as they are.
  fill_scores_before :
      (cached : List D) (i k : ℕ) (scores : List D) (v : ℕ)
      → v < i
      → get_or (fill_scores cached i k scores) v one ≡ get_or scores v one
  unfolding fill_scores
  fill_scores_before cached i zero scores v lt = refl
  fill_scores_before cached i (suc k) scores v lt =
      fill_scores_before cached (i + 1) k _ v (omega arith)
      ∙ get_or-set_ne scores i v _ one (λ e. absurd (omega (arith, e)))

  fill_scores_at :
      (cached : List D) (i k : ℕ) (scores : List D) (v : ℕ)
      → i ≤ v
      → v < i + k
      → i + k ≤ length scores
      → get_or (fill_scores cached i k scores) v one ≡ get_or cached v one
  unfolding fill_scores
  fill_scores_at cached i zero scores v lo hi fits = absurd (omega arith)
  fill_scores_at cached i (suc k) scores v lo hi fits = elim (Bool-cases (i == v)) [
    | inl here ↦
        let e : i ≡ v = (==_iff i v).0 here in
        fill_scores_before cached (i + 1) k _ v (omega (arith, e))
        ∙ ap
            (λ j.
              get_or (set scores i (if ltb i (length cached) then get_or cached i one else one)) j
                one)
            (sym e)
        ∙ get_or-set_self scores i _ one (omega arith)
        ∙ known cached i
        ∙ ap (λ j. get_or cached j one) e
    | inr later ↦ fill_scores_at cached (i + 1) k _ v (ground arith) (omega arith) (
        omega
          (arith, length-set scores i (if ltb i (length cached) then get_or cached i one else one)))
  ]
    where
      known :
          (xs : List D) (j : ℕ)
          → (if ltb j (length xs) then get_or xs j one else one) ≡ get_or xs j one
      known [] j = ground arith
      known (x ∷ xs) zero = ground arith
      known (x ∷ xs) (suc j) = ground (arith, known xs j)

  -- After cacheScores, getPartialOrderScores has an entry for 0 and for each variable; the entry of a
  -- variable is its cached score, and 1.0 where the cache is too short.
  pub get_partial_order_scores_lem :
      (s : List D) (c : Cache) (nb v : ℕ)
      → 1 ≤ v
      → v ≤ nb
      → (length (get_partial_order_scores (cache_scores s c) nb) ≡ nb + 1)
        × (get_or (get_partial_order_scores (cache_scores s c) nb) v one ≡ get_or s v one)
  unfolding get_partial_order_scores cache_scores
  get_partial_order_scores_lem s c nb v lo hi = (
    length-fill_scores s 1 nb (replicate (nb + 1) one) ∙ length-replicate (nb + 1) one,
    fill_scores_at s 1 nb (replicate (nb + 1) one) v lo (omega arith)
        (omega (arith, length-replicate (nb + 1) one)),
  )
