-- ===== src/Cli/Propagator.antt =====
-- `Propagator` of cube_gen_cli/cube_gen_cli.cpp: unit propagation over watched literals.
-- The clause vectors, the assignment and the watch lists are lists read by index. Indices are in
-- range for the formulas that the theorems speak of; out of range the source is undefined, and here
-- a read gives the default and a write does nothing.
pub mod Trail
pub mod Clause
pub mod Invariant
pub mod Sound
pub mod Counts
pub mod Watches
pub mod Fuel
pub mod Reset
use hydra_sat.Base.{
  ℕ, zero, suc, ◌+◌, ◌-◌, ◌*◌, Bool, true, false, not, List, [], ◌∷◌, ◌++◌, ℤ, pos, negsuc,
  if◌then◌else◌, ltb, ◌==◌, eqb_ℤ, length, get_or, set, take, drop, replicate,
}
use mathlib.Core.List.{reverse}
use hydra_sat.Cli.Lit.{Lit, make_lit, var, sign}

-- `m_unsat` and the other fields without their prefix; `assign` holds 0, 1 or -1 for each variable.
pub record Propagator : Type 0 where
  pub n : ℕ
  pub clauses : List (List Lit)
  pub assign : List ℤ
  pub trail : List Lit
  pub qhead : ℕ
  pub unsat : Bool
  pub watches : List (List ℕ)

unfoldable pub lit_idx : Lit → ℕ
lit_idx l = if sign l then 2 * var l + 1 else 2 * var l

-- m_watches[i].push_back(ci)
abbrev pub push_at : List (List ℕ) → ℕ → ℕ → List (List ℕ)
push_at ws i ci = set ws i (get_or ws i [] ++ ci ∷ [])

-- The body of the loop of `buildWatches`.
unfoldable pub watch_clause : ℕ → List Lit → List (List ℕ) → List (List ℕ)
watch_clause ci [] ws = ws
watch_clause ci (a ∷ []) ws = push_at ws (lit_idx a) ci
watch_clause ci (a ∷ b ∷ c) ws = push_at (push_at ws (lit_idx a) ci) (lit_idx b) ci

unfoldable pub build_watches : ℕ → List (List Lit) → List (List ℕ) → List (List ℕ)
unfolding watch_clause lit_idx
build_watches ci [] ws = ws
build_watches ci (c ∷ cs) ws = build_watches (ci + 1) cs (watch_clause ci c ws)

unfoldable pub new : ℕ → List (List Lit) → Propagator
unfolding build_watches
new n clauses = record {
  n = n;
  clauses = clauses;
  assign = replicate (n + 1) (pos 0);
  trail = [];
  qhead = 0;
  unsat = false;
  watches = build_watches 0 clauses (replicate (2 * (n + 1)) []);
}

-- m_assign[l.var()] = 0 for each literal of a list.
unfoldable pub unassign : List Lit → List ℤ → List ℤ
unassign [] a = a
unassign (l ∷ ls) a = unassign ls (set a (var l) (pos 0))

unfoldable pub restart : Propagator → Propagator
unfolding unassign
restart p = record p { assign = unassign p.trail p.assign; trail = []; qhead = 0; unsat = false }

-- 2 is unassigned, 1 is true, 0 is false.
abbrev pub value_of : ℤ → Bool → ℕ
value_of a s =
    if eqb_ℤ a (pos 0)
    then 2
    else if (if s then eqb_ℤ a (negsuc 0) else eqb_ℤ a (pos 1))
    then 1
    else 0

unfoldable pub value : List ℤ → Lit → ℕ
value assign l = value_of (get_or assign (var l) (pos 0)) (sign l)

-- What `uncheckedEnqueue` writes for a literal.
abbrev pub polarity : Lit → ℤ
polarity l = if sign l then negsuc 0 else pos 1

unfoldable pub unchecked_enqueue : Propagator → Lit → Propagator
unchecked_enqueue p l = record p {
  assign = set p.assign (var l) (polarity l);
  trail = p.trail ++ l ∷ [];
}

-- The locals of the clause loop of `propagateLit`.
pub record Scan : Type 0 where
  pub sat : Bool
  pub free : ℕ
  pub unit : Lit
  pub new_w : Lit

abbrev pub lit_zero : Lit
lit_zero = record { x = pos 0 }

abbrev pub scan_start : Scan
scan_start = record { sat = false; free = 0; unit = lit_zero; new_w = lit_zero }

-- One literal that is not true.
abbrev pub note_free : ℕ → Lit → Scan → Scan
note_free v l s =
    if v == 2
    then record s { free = s.free + 1; unit = l; new_w = if s.free == 0 then l else s.new_w }
    else s

-- `for (Lit cl : c)`, with its break at a true literal.
unfoldable pub scan : List ℤ → List Lit → Scan → Scan
unfolding value
scan a [] s = s
scan a (l ∷ c) s = elim (value a l == 1) [
  | true ↦ record s { sat = true }
  | false ↦ scan a c (note_free (value a l) l s)
]

-- What one round of the loop over the watch list does: go on, or stop at a conflict. `kept` is
-- ws[0..j).
pub data Round : Type 0 where
  go stop : List ℕ → Propagator → Round

-- What the code does with a clause, by what the scan found.
unfoldable pub visit : Scan → ℕ → List ℕ → List ℕ → Propagator → Round
unfolding value unchecked_enqueue lit_idx
visit s ci ws kept p =
    if s.sat
    then go (kept ++ ci ∷ []) p
    else if s.free == 0
    then stop (kept ++ ci ∷ ws) p
    else if s.free == 1
    then go (kept ++ ci ∷ []) (if value p.assign s.unit == 2 then unchecked_enqueue p s.unit else p)
    else go kept (record p { watches = push_at p.watches (lit_idx s.new_w) ci })

-- A round goes on with the rest of the list, or ends the loop.
abbrev pub after_round :
    (List ℕ → Propagator → Propagator × List ℕ × Bool) → Round → Propagator × List ℕ × Bool
after_round rest (go kept p) = rest kept p
after_round rest (stop kept p) = (p, kept, false)

-- The loop over ws = m_watches[litIdx(falseLit)]. The reference `ws` is read before the loop and
-- written back after it: no round pushes to this list, since it pushes to the list of an unassigned
-- literal, and `falseLit` is assigned (`Watches`).
unfoldable pub watch_loop : List ℕ → List ℕ → Propagator → Propagator × List ℕ × Bool
unfolding visit scan
watch_loop [] kept p = (p, kept, true)
watch_loop (ci ∷ ws) kept p =
    after_round (watch_loop ws)
      (visit (scan p.assign (get_or p.clauses ci []) scan_start) ci ws kept p)

-- The literal that `p` makes false.
abbrev pub false_lit : Lit → Lit
false_lit l = make_lit (var l) (not (sign l))

unfoldable pub propagate_lit : Propagator → Lit → Propagator × Bool
unfolding watch_loop
propagate_lit p l =
    let i = lit_idx (false_lit l) in
    let (q, kept, done) = watch_loop (get_or p.watches i []) [] p in
    (record q { watches = set q.watches i kept }, done)

-- A conflict sets m_unsat and ends the loop.
abbrev pub after_lit : (Propagator → Propagator × Bool) → Propagator × Bool → Propagator × Bool
after_lit rest (p, true) = rest p
after_lit rest (p, false) = (record p { unsat = true }, false)

-- `propagate`, with the rounds that it may still take.
unfoldable pub propagate_loop : ℕ → Propagator → Propagator × Bool
unfolding propagate_lit
propagate_loop zero p = (p, true)
propagate_loop (suc f) p = elim (ltb p.qhead (length p.trail)) [
  | true ↦
      after_lit (propagate_loop f)
        (propagate_lit (record p { qhead = p.qhead + 1 }) (get_or p.trail p.qhead lit_zero))
  | false ↦ (p, true)
]

-- The unassigned entries, var 0 among them.
unfoldable pub count_unset : List ℤ → ℕ
count_unset [] = 0
count_unset (a ∷ as') = (if eqb_ℤ a (pos 0) then 1 else 0) + count_unset as'

-- Each round takes one literal off the queue, and each new one takes an unassigned variable.
unfoldable pub propagate : Propagator → Propagator × Bool
unfolding propagate_loop count_unset
propagate p = propagate_loop (count_unset p.assign + (length p.trail - p.qhead)) p

-- The loop pops the trail from the back.
unfoldable pub cancel_until_pos : Propagator → ℕ → Propagator
unfolding unassign
cancel_until_pos p k = record p {
  assign = unassign (reverse (drop k p.trail)) p.assign;
  trail = take k p.trail;
  qhead = if ltb k p.qhead then k else p.qhead;
  unsat = false;
}
