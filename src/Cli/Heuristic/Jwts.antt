-- ===== src/Cli/Heuristic/Jwts.antt =====
-- `JWTSBranchingCubeHeuristic` of cube_gen_cli/cube_gen_cli.cpp: the open variable of the highest
-- Jeroslow-Wang score, weighted by its level in the partial order.
use hydra_sat.Base.{
  ℕ, zero, suc, ◌+◌, Bool, true, false, List, [], ◌∷◌, Option, none, some, if◌then◌else◌, length,
  get_or, set, replicate,
}
use hydra_sat.Cli.Lit.{Lit, var}
use hydra_sat.Cli.Double.{Double}

-- for (const Lit& l : lits) m_marked[l.var()] = b;
unfoldable pub mark : Bool → List Lit → List Bool → List Bool
mark b [] ms = ms
mark b (l ∷ ls) ms = mark b ls (set ms (var l) b)

module _ (F : Double) where
  open F use {D, zero_d, minus_one, add, mul, half_pow, gt}

  -- `level` is getLevel of the partial order that `next` is given.
  pub record Jwts : Type 0 where
    pub nb_vars : ℕ
    pub jwts : List D
    pub marked : List Bool

  -- for (Lit l : c) m_jwts[l.var()] += w;
  unfoldable pub add_clause : D → List Lit → List D → List D
  add_clause w [] js = js
  add_clause w (l ∷ c) js = add_clause w c (set js (var l) (add (get_or js (var l) zero_d) w))

  unfoldable pub add_clauses : List (List Lit) → List D → List D
  unfolding add_clause
  add_clauses [] js = js
  add_clauses (c ∷ cs) js = add_clauses cs (add_clause (half_pow (length c)) c js)

  -- The constructor.
  unfoldable pub new_jwts : ℕ → List (List Lit) → Jwts
  unfolding add_clauses
  new_jwts n cs = record {
    nb_vars = n;
    jwts = add_clauses cs (replicate (n + 1) zero_d);
    marked = replicate (n + 1) false;
  }

  -- m_jwts[v] * po->getLevel(v)
  abbrev pub score : (ℕ → D) → List D → ℕ → D
  score level js v = mul (get_or js v zero_d) (level v)

  -- `best` and `bestScore`.
  abbrev Best : Type 0
  Best = Option ℕ × D

  -- The body of the loop over the variables.
  unfoldable pub consider : (ℕ → D) → List Bool → ℕ → Best → Best
  consider sc ms v (best, s) =
      if get_or ms v false then (best, s) else if gt (sc v) s then (some v, sc v) else (best, s)

  -- for (int v = 1; v <= m_nbVars; v++), with the number of rounds left.
  unfoldable pub pick : (ℕ → D) → List Bool → ℕ → ℕ → Best → Best
  unfolding consider
  pick sc ms zero v b = b
  pick sc ms (suc k) v b = pick sc ms k (v + 1) (consider sc ms v b)

  -- `next`, and the state of the heuristic that it leaves.
  unfoldable pub next : (ℕ → D) → Jwts → List Lit → Option ℕ × Jwts
  unfolding mark pick
  next level h lits =
      let ms = mark true lits h.marked in
      (
        (pick (score level h.jwts) ms h.nb_vars 1 (none, minus_one)).0,
        record h { marked = mark false lits ms },
      )
