-- ===== src/Cli/Propagator/Reset.antt =====
-- The constructor, `restart` and `cancelUntilPos` of `Propagator` of cube_gen_cli/cube_gen_cli.cpp
-- keep the invariant.
use mathlib.Core.List.{reverse}
use hydra_sat.Base.{
  ℕ, ◌+◌, ◌*◌, ◌≤◌, ◌<◌, ◌≡◌, refl, subst, ◌∙◌, List, [], ◌∷◌, ◌++◌, pos, length, get_or, take,
  drop, replicate, All, All-append, All-append_left, All-set, All-get_or, All-replicate,
  length-replicate, get_or-replicate, take_append, drop_append, arith,
}
use hydra_sat.Cli.Lit.{Lit, var}
use hydra_sat.Cli.Propagator.{
  Propagator, new, build_watches, watch_clause, push_at, restart, cancel_until_pos, lit_idx,
}
use hydra_sat.Cli.Propagator.Trail.{
  trail_value, Distinct, Below, Reflects, unassign-Reflects_nil, unassign-Reflects_take,
  Distinct-append_left, length-unassign,
}
use hydra_sat.Cli.Propagator.Invariant.{IsValid}

-- Lists of clause numbers below `k`.
abbrev NumbersBelow : ℕ → List ℕ → Type 0
NumbersBelow k = All (λ ci. ci < k)

push_at-NumbersBelow :
    (k : ℕ) (ws : List (List ℕ)) (i ci : ℕ)
    → ci < k
    → All (NumbersBelow k) ws
    → All (NumbersBelow k) (push_at ws i ci)
push_at-NumbersBelow k ws i ci lt h =
    All-set (NumbersBelow k) ws i (get_or ws i [] ++ ci ∷ [])
      (All-append (λ c. c < k) (get_or ws i []) (ci ∷ []) (All-get_or (NumbersBelow k) ws i [] tt h)
        (lt, tt))
      h

watch_clause-NumbersBelow :
    (k ci : ℕ) (c : List Lit) (ws : List (List ℕ))
    → ci < k
    → All (NumbersBelow k) ws
    → All (NumbersBelow k) (watch_clause ci c ws)
unfolding watch_clause
watch_clause-NumbersBelow k ci [] ws lt h = h
watch_clause-NumbersBelow k ci (a ∷ []) ws lt h = push_at-NumbersBelow k ws (lit_idx a) ci lt h
watch_clause-NumbersBelow k ci (a ∷ b ∷ c) ws lt h =
    push_at-NumbersBelow k (push_at ws (lit_idx a) ci) (lit_idx b) ci lt
      (push_at-NumbersBelow k ws (lit_idx a) ci lt h)

build_watches-NumbersBelow :
    (k ci : ℕ) (cs : List (List Lit)) (ws : List (List ℕ))
    → ci + length cs ≤ k
    → All (NumbersBelow k) ws
    → All (NumbersBelow k) (build_watches ci cs ws)
unfolding build_watches
build_watches-NumbersBelow k ci [] ws lt h = h
build_watches-NumbersBelow k ci (c ∷ cs) ws lt h =
    build_watches-NumbersBelow k (ci + 1) cs (watch_clause ci c ws) (omega arith)
      (watch_clause-NumbersBelow k ci c ws (omega arith) h)

pub new-IsValid : (n : ℕ) (cs : List (List Lit)) → IsValid cs (n + 1) (new n cs)
unfolding new trail_value
new-IsValid n cs = record {
  same_clauses = refl;
  same_length = length-replicate (n + 1) (pos 0);
  watch_lists =
      build_watches-NumbersBelow (length cs) 0 cs (replicate (2 * (n + 1)) []) (omega arith)
        (All-replicate (NumbersBelow (length cs)) (2 * (n + 1)) [] tt);
  reflects = λ v. get_or-replicate (n + 1) v (pos 0);
  distinct = tt;
  trail_below = tt;
  qhead_le = omega arith;
}

module _ (cs : List (List Lit)) (n : ℕ) (p : Propagator) (v : IsValid cs n p) where
  -- `restart` forgets the assignment, whatever it was.
  pub restart-IsValid : IsValid cs n (restart p) × ((restart p).trail ≡ [])
  unfolding restart
  restart-IsValid = (
    record {
      same_clauses = v.same_clauses;
      same_length = length-unassign p.trail p.assign ∙ v.same_length;
      watch_lists = v.watch_lists;
      reflects = unassign-Reflects_nil p.assign p.trail v.reflects;
      distinct = tt;
      trail_below = tt;
      qhead_le = omega arith;
    },
    refl,
  )

  -- In a valid state, `cancelUntilPos` back to the length of a prefix of the trail leaves a valid
  -- state, in which m_assign is what the prefix says of each variable, with the prefix as its trail.
  pub cancel_until_pos-IsValid :
      (base new : List Lit)
      → p.trail ≡ base ++ new
      → IsValid cs n (cancel_until_pos p (length base))
        × ((cancel_until_pos p (length base)).trail ≡ base)
  unfolding cancel_until_pos
  cancel_until_pos-IsValid base new e =
      let kept : take (length base) p.trail ≡ base = rw e (take_append base new) in
      let gone : drop (length base) p.trail ≡ new = rw e (drop_append base new) in
      let d : Distinct (base ++ new) = subst Distinct e v.distinct in
      let b : Below n (base ++ new) = subst (Below n) e v.trail_below in
      (
        record {
          same_clauses = v.same_clauses;
          same_length =
              length-unassign (reverse (drop (length base) p.trail)) p.assign ∙ v.same_length;
          watch_lists = v.watch_lists;
          reflects =
              rw (kept, gone)
                (unassign-Reflects_take p.assign base new d
                  (subst (Reflects p.assign) e v.reflects));
          distinct = rw kept (Distinct-append_left base new d);
          trail_below = rw kept (All-append_left (λ l. var l < n) base new b);
          qhead_le = rw kept (ground arith);
        },
        kept,
      )
