-- ===== src/Cli/Propagator/Watches.antt =====
-- The watch lists of cube_gen_cli/cube_gen_cli.cpp under `propagateLit` and `propagate`: a clause moves from one
-- list to another, while the list that is being scanned is held by reference.
use hydra_sat.Base.{
  ℕ, zero, suc, ◌+◌, ◌*◌, ◌<◌, ◌≡◌, ◌≢◌, refl, ap, subst, ◌∙◌, inl, inr, Bool, true, false, not,
  List, [], ◌∷◌, ◌++◌, ltb, ◌==◌, ==_iff, ltb→lt, Bool-cases, length, get_or, All, All-get_or,
  All-get_or_lt, length-set, get_or-set_ne, arith,
}
use hydra_sat.Cli.Lit.{Lit, var, sign, var-make_lit}
use hydra_sat.Cli.Propagator.{
  Propagator, Scan, Round, go, stop, scan, scan_start, visit, after_round, after_lit, watch_loop,
  propagate_lit, propagate_loop, propagate, value, push_at, lit_idx, false_lit, lit_zero,
  unchecked_enqueue,
}
use hydra_sat.Cli.Propagator.Counts.{
  count, total, count-append, total-set, total-push_at, mentions-get_or, lit_idx-lt,
}
use hydra_sat.Cli.Propagator.Trail.{Below, mentions, mentions-append}
use hydra_sat.Cli.Propagator.Clause.{Noted, scan-Noted, scan-new_w, value-eq-two}
use hydra_sat.Cli.Propagator.Invariant.{
  IsValid, IsWatchList, Steps, dequeue, done, next, unchecked_enqueue-IsValid, Steps-IsValid,
}
use hydra_sat.Cli.Propagator.Sound.{push_at-IsWatchList, propagate_lit-RunSteps}

module _ (cs : List (List Lit)) (n : ℕ) (below : All (Below n) cs) (x : ℕ) where
  module _ (l : Lit) where
    abbrev scanned : ℕ
    scanned = lit_idx (false_lit l)

    -- A state in which `l` is on the trail.
    record IsReady (p : Propagator) : Type 0 where
      valid : IsValid cs n p
      on_trail : mentions (var l) p.trail ≡ true
      room : length p.watches ≡ 2 * n

    -- From `p`, with `k` places of the clause outside the lists, to `q` with `k'` of them.
    record Moves (p : Propagator) (k : ℕ) (q : Propagator) (k' : ℕ) : Type 0 where
      ready : IsReady q
      list_eq : get_or q.watches scanned [] ≡ get_or p.watches scanned []
      total_eq : total x q.watches + k' ≡ total x p.watches + k

    Moves-trans : {p q r : Propagator} {a b c : ℕ} → Moves p a q b → Moves q b r c → Moves p a r c
    Moves-trans f g = record {
      ready = g.ready;
      list_eq = g.list_eq ∙ f.list_eq;
      total_eq = g.total_eq ∙ f.total_eq;
    }

    stays : {p : Propagator} {a b : ℕ} → IsReady p → b ≡ a → Moves p a p b
    stays {p} h e = record {
      ready = h;
      list_eq = refl;
      total_eq = ap (λ k. total x p.watches + k) e;
    }

    enqueues :
        {p : Propagator} {a b : ℕ} (u : Lit)
        → var u < n
        → value p.assign u ≡ 2
        → IsReady p
        → b ≡ a
        → Moves p a (unchecked_enqueue p u) b
    unfolding unchecked_enqueue
    enqueues {p} u lt free h e = record {
      ready = record {
        valid =
            unchecked_enqueue-IsValid cs n p u lt
              (value-eq-two p.assign p.trail u h.valid.reflects free) h.valid;
        on_trail = ground (arith, mentions-append (var l) p.trail (u ∷ []), h.on_trail);
        room = h.room;
      };
      list_eq = refl;
      total_eq = ap (λ k. total x p.watches + k) e;
    }

    rewatches :
        {p : Propagator} {a b : ℕ} (i ci : ℕ)
        → i < 2 * n
        → i ≢ scanned
        → ci < length cs
        → IsReady p
        → a ≡ count x (ci ∷ []) + b
        → Moves p a (record p { watches = push_at p.watches i ci }) b
    rewatches {p} i ci lt other in_range h e = record {
      ready = record {
        valid = record {
          same_clauses = h.valid.same_clauses;
          same_length = h.valid.same_length;
          watch_lists = push_at-IsWatchList cs n below p.watches i ci in_range h.valid.watch_lists;
          reflects = h.valid.reflects;
          distinct = h.valid.distinct;
          trail_below = h.valid.trail_below;
          qhead_le = h.valid.qhead_le;
        };
        on_trail = h.on_trail;
        room = length-set p.watches i (get_or p.watches i [] ++ ci ∷ []) ∙ h.room;
      };
      list_eq = get_or-set_ne p.watches i scanned (get_or p.watches i [] ++ ci ∷ []) [] other;
      total_eq = omega (arith, total-push_at x p.watches i ci (omega (arith, h.room)), e);
    }

    -- A round has the clause `ci`, the kept ones and the rest of the list outside the lists.
    abbrev RoundMoves : Propagator → ℕ → List ℕ → Round → Type 0
    RoundMoves p k ws (go kept q) = Moves p k q (count x kept + count x ws)
    RoundMoves p k ws (stop kept q) = Moves p k q (count x kept)

    module _ (p : Propagator) (h : IsReady p) (ci : ℕ) (in_range : ci < length cs) where
      found : Scan
      unfolding scan
      found = scan p.assign (get_or p.clauses ci []) scan_start

      clause-Below : Below n (get_or p.clauses ci [])
      clause-Below = rw h.valid.same_clauses (All-get_or_lt (Below n) cs ci [] in_range below)

      found-Noted : Noted p.assign n found
      unfolding found
      found-Noted = scan-Noted p.assign n (get_or p.clauses ci []) clause-Below

      -- The list of the new watch is not the list that is being scanned.
      found-new_w : found.free ≢ 0 → lit_idx found.new_w ≢ scanned
      unfolding found
      found-new_w free =
          scan-new_w p.assign n (get_or p.clauses ci []) l clause-Below free
            (λ e. cc (value-eq-two p.assign p.trail l h.valid.reflects e, h.on_trail))

      visit-RoundMoves :
          (ws kept : List ℕ)
          → RoundMoves p (count x kept + count x (ci ∷ ws)) ws (visit found ci ws kept p)
      unfolding visit count
      visit-RoundMoves ws kept = elim (Bool-cases found.sat) [
        | inl sat ↦ rw sat (stays h keeps)
        | inr s ↦ elim (Bool-cases (found.free == 0)) [
          | inl none_free ↦ rw (s, none_free) (stays h (count-append x kept (ci ∷ ws)))
          | inr some_free ↦ elim (Bool-cases (found.free == 1)) [
            | inl one ↦ elim (Bool-cases (value p.assign found.unit == 2)) [
              | inl unset ↦
                  rw (s, some_free, one, unset)
                    (enqueues found.unit (ground (arith, found-Noted, some_free))
                      ((==_iff (value p.assign found.unit) 2).0 unset) h keeps)
              | inr has_value ↦ rw (s, some_free, one, has_value) (stays h keeps)
            ]
            | inr more ↦
                rw (s, some_free, more)
                  (rewatches (lit_idx found.new_w) ci
                    (lit_idx-lt found.new_w n (ground (arith, found-Noted, some_free)))
                    (found-new_w (λ e. ground (arith, some_free, e))) in_range h moved)
          ]
        ]
      ]
        where
          keeps : count x (kept ++ ci ∷ []) + count x ws ≡ count x kept + count x (ci ∷ ws)
          keeps = omega (arith, count-append x kept (ci ∷ []))

          moved : count x kept + count x (ci ∷ ws) ≡ count x (ci ∷ []) + (count x kept + count x ws)
          moved = omega arith

    -- The loop over the scanned list.
    abbrev LoopMoves : Propagator → ℕ → Propagator × List ℕ × Bool → Type 0
    LoopMoves p k (q, kept, ok) = Moves p k q (count x kept)

    watch_loop-LoopMoves :
        (ws kept : List ℕ) (p : Propagator)
        → IsReady p
        → IsWatchList cs n ws
        → LoopMoves p (count x kept + count x ws) (watch_loop ws kept p)
    unfolding watch_loop found count
    watch_loop-LoopMoves [] kept p h hw = stays h (omega arith)
    watch_loop-LoopMoves (ci ∷ ws) kept p h hw =
        round (watch_loop ws) (λ k q r. watch_loop-LoopMoves ws k q r hw.1)
          (visit (found p h ci hw.0) ci ws kept p) (visit-RoundMoves p h ci hw.0 ws kept)
      where
        round :
            (rest : List ℕ → Propagator → Propagator × List ℕ × Bool)
            → ((k : List ℕ) (q : Propagator)
                → IsReady q
                → LoopMoves q (count x k + count x ws) (rest k q))
            → (r : Round) → RoundMoves p (count x kept + count x (ci ∷ ws)) ws r
            → LoopMoves p (count x kept + count x (ci ∷ ws)) (after_round rest r)
        round rest ih (go k q) f = Moves-trans f (ih k q f.ready)
        round rest ih (stop k q) f = f

    propagate_lit-total :
        (p : Propagator)
        → IsReady p
        → var l < n
        → (total x (propagate_lit p l).0.watches ≡ total x p.watches)
          × (length (propagate_lit p l).0.watches ≡ 2 * n)
    unfolding propagate_lit count
    propagate_lit-total p h lt =
        let run =
          watch_loop-LoopMoves (get_or p.watches scanned []) [] p h
            (All-get_or (IsWatchList cs n) p.watches scanned [] tt h.valid.watch_lists) in
        let q = (watch_loop (get_or p.watches scanned []) [] p).0 in
        let kept = (watch_loop (get_or p.watches scanned []) [] p).1 in
        let inside : scanned < 2 * n =
          lit_idx-lt (false_lit l) n (omega (arith, var-make_lit (var l) (not (sign l)), lt)) in
        (
          omega (
            arith,
            run.total_eq,
            ap (count x) run.list_eq,
            total-set x q.watches scanned kept (omega (arith, run.ready.room, inside)),
          ),
          length-set q.watches scanned kept ∙ run.ready.room,
        )

  -- A state of `propagate`.
  record IsRoomy (p : Propagator) : Type 0 where
    valid : IsValid cs n p
    room : length p.watches ≡ 2 * n

  round_total :
      (p : Propagator)
      → IsRoomy p
      → p.qhead < length p.trail
      → (r : Propagator × Bool) × (r
          ≡ propagate_lit (record p { qhead = p.qhead + 1 }) (get_or p.trail p.qhead lit_zero))
        × IsRoomy r.0
        × (total x r.0.watches ≡ total x p.watches)
  round_total p h more =
      let l = get_or p.trail p.qhead lit_zero in
      let q : Propagator = record p { qhead = p.qhead + 1 } in
      let first : Steps cs n p q = next done (dequeue more) in
      let valid = Steps-IsValid cs n first h.valid in
      let moved =
        propagate_lit-total l q
          (record { valid = valid; on_trail = mentions-get_or p.trail p.qhead more; room = h.room })
          (All-get_or_lt (λ l. var l < n) p.trail p.qhead lit_zero more h.valid.trail_below) in
      (
        propagate_lit q l,
        refl,
        record {
          valid = Steps-IsValid cs n (propagate_lit-RunSteps cs n below q l valid).0 valid;
          room = moved.1;
        },
        moved.0,
      )

  total-propagate_loop :
      (f : ℕ) (p : Propagator)
      → IsRoomy p
      → total x (propagate_loop f p).0.watches ≡ total x p.watches
  unfolding propagate_loop
  total-propagate_loop zero p h = refl
  total-propagate_loop (suc f) p h = elim (Bool-cases (ltb p.qhead (length p.trail))) [
    | inr at_end ↦ rw (at_end, propagate_loop) refl
    | inl more ↦
        let (r, e, roomy, same) = round_total p h (ltb→lt _ _ more) in
        rw (more, propagate_loop)
          (subst (λ r. total x (after_lit (propagate_loop f) r).0.watches ≡ total x p.watches) e
            (rest (propagate_loop f) (total-propagate_loop f) r roomy same))
  ]
    where
      rest :
          (k : Propagator → Propagator × Bool)
          → ((q : Propagator) → IsRoomy q → total x (k q).0.watches ≡ total x q.watches)
          → (r : Propagator × Bool) → IsRoomy r.0
          → total x r.0.watches ≡ total x p.watches
          → total x (after_lit k r).0.watches ≡ total x p.watches
      rest k ih (q, true) roomy same = ih q roomy ∙ same
      rest k ih (q, false) roomy same = same

  -- Unit propagation moves clauses between the watch lists and neither loses nor doubles one: from a valid
  -- state over clauses with variables in range and two watch lists for each variable, each clause
  -- stands as often in the watch lists after `propagate` as before, conflict or not.
  pub propagate_watches :
      (p : Propagator)
      → IsValid cs n p
      → length p.watches ≡ 2 * n
      → total x (propagate p).0.watches ≡ total x p.watches
  unfolding propagate
  propagate_watches p v room = total-propagate_loop _ p (record { valid = v; room = room })
