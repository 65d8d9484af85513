-- ===== src/Formula/WeightedCnf.antt =====
-- `WeightedCNF` of cube_generator/src/formula/WeightedCNF.hpp, with the fields that it has from
-- `Formula`. A read of a vector out of range, which is undefined in the source, gives a default.
use hydra_sat.Base.{
  ℕ, zero, suc, ◌+◌, ◌*◌, Bool, true, false, List, [], ◌∷◌, ◌++◌, map, ℤ, pos, if◌then◌else◌, ltb,
  ◌==◌, length, get_or, set, replicate,
}
use hydra_sat.Formula.ProblemTypes.{
  Lit, var, sign, neg, intern, human, make_lit, make_lit_true, make_lit_false,
}

-- What the class asks of its type of numbers `T`, mpz_int or mpf_float; `str` gives the characters of
-- T::str, and `is_float` tells which of the two it is.
pub record Weight : Type 1 where
  pub T : Type 0
  pub one : T
  pub add : T → T → T
  pub mul : T → T → T
  pub is_one : T → Bool
  pub str : T → List ℕ
  pub is_float : Bool

-- FormulaTypeEnum
pub data FormulaTypeEnum : Type 0 where
  mp_none mp_int mp_float : FormulaTypeEnum

-- The counters of `displayStat`.
pub record Stat : Type 0 where
  pub nb_lits : ℕ
  pub nb_bin : ℕ
  pub nb_ter : ℕ
  pub nb_unit : ℕ
  pub nb_more_three : ℕ

abbrev pub no_stat : Stat
no_stat = record { nb_lits = 0; nb_bin = 0; nb_ter = 0; nb_unit = 0; nb_more_three = 0 }

-- The body of the loop of `displayStat`.
abbrev pub tally : List Lit → Stat → Stat
tally c s = record {
  nb_lits = s.nb_lits + length c;
  nb_bin = if length c == 2 then s.nb_bin + 1 else s.nb_bin;
  nb_ter = if length c == 3 then s.nb_ter + 1 else s.nb_ter;
  nb_unit = if length c == 1 then s.nb_unit + 1 else s.nb_unit;
  nb_more_three = if ltb 3 (length c) then s.nb_more_three + 1 else s.nb_more_three;
}

unfoldable pub stat : List (List Lit) → Stat → Stat
stat [] s = s
stat (c ∷ cs) s = stat cs (tally c s)

-- l.sign() + 1
abbrev pub sign_code : Lit → ℕ
sign_code l = if sign l then 2 else 1

-- value[l.var()] = l.sign() + 1 for each unit.
unfoldable pub assign_units : List Lit → List ℕ → List ℕ
assign_units [] value = value
assign_units (l ∷ ls) value = assign_units ls (set value (var l) (sign_code l))

-- The loop over a clause: scl and isSAT.
unfoldable pub simplify : List ℕ → List Lit → List Lit → List Lit × Bool
simplify value [] scl = (scl, false)
simplify value (l ∷ c) scl =
    let scl' = if get_or value (var l) 0 == 0 then scl ++ l ∷ [] else scl in
    elim (sign_code l == get_or value (var l) 0) [
      | true ↦ (scl', true)
      | false ↦ simplify value c scl'
    ]

-- The loop over the clauses.
unfoldable pub condition : List ℕ → List (List Lit) → List (List Lit)
unfolding simplify
condition value [] = []
condition value (c ∷ cs) =
    let (scl, is_sat) = simplify value c [] in
    if is_sat then condition value cs else scl ∷ condition value cs

-- The vectors `weights` and `coupleLitSizeStr`.
abbrev pub Encoded : Type 0
Encoded = List ℕ × List ℤ

module _ (F : Weight) where
  open F use {T, one, add, mul, is_one, str, is_float}

  pub record WeightedCnf : Type 0 where
    pub clauses : List (List Lit)
    pub projected_vars : List ℕ
    pub is_unsat : Bool
    pub nb_var : ℕ
    pub weight_lit : List T
    pub weight_var : List T

  -- weightLit[i << 1] + weightLit[(i << 1) | 1] for `k` variables from `i` on.
  unfoldable pub sum_weights : List T → ℕ → ℕ → List T
  sum_weights ws i zero = []
  sum_weights ws i (suc k) =
      add (get_or ws (2 * i) one) (get_or ws (2 * i + 1) one) ∷ sum_weights ws (i + 1) k

  -- The constructor.
  unfoldable pub new : ℕ → List T → List ℕ → List (List Lit) → WeightedCnf
  unfolding sum_weights
  new n ws projected cs = record {
    clauses = cs;
    projected_vars = projected;
    is_unsat = false;
    nb_var = n;
    weight_lit = ws;
    weight_var = sum_weights ws 0 (n + 1);
  }

  abbrev pub get_weight_lit : WeightedCnf → Lit → T
  get_weight_lit w l = get_or w.weight_lit (intern l) one

  abbrev pub get_weight_var : WeightedCnf → ℕ → T
  get_weight_var w v = get_or w.weight_var v one

  unfoldable pub get_type : FormulaTypeEnum
  get_type = if is_float then mp_float else mp_int

  unfoldable pub display_stat : WeightedCnf → Stat
  unfolding stat
  display_stat w = stat w.clauses no_stat

  unfoldable pub get_unsat_problem : WeightedCnf → WeightedCnf
  unfolding new
  get_unsat_problem w =
      let l = make_lit 1 false in
      record (new w.nb_var w.weight_lit w.projected_vars []) {
        is_unsat = true;
        clauses = (l ∷ []) ∷ (neg l ∷ []) ∷ [];
      }

  unfoldable pub get_conditioned_formula : WeightedCnf → List Lit → WeightedCnf
  unfolding new assign_units condition
  get_conditioned_formula w units = record (new w.nb_var w.weight_lit w.projected_vars []) {
    clauses =
        map (λ l. l ∷ []) units
        ++ condition (assign_units units (replicate (w.nb_var + 1) 0)) w.clauses;
  }

  -- tmp *= T(m_weightLit[l.intern()]) for each unit, and tmp *= T(m_weightVar[v]) for each variable.
  unfoldable pub mul_lits : WeightedCnf → T → List Lit → T
  mul_lits w t [] = t
  mul_lits w t (l ∷ ls) = mul_lits w (mul t (get_or w.weight_lit (intern l) one)) ls

  unfoldable pub mul_vars : WeightedCnf → T → List ℕ → T
  mul_vars w t [] = t
  mul_vars w t (v ∷ vs) = mul_vars w (mul t (get_or w.weight_var v one)) vs

  unfoldable pub compute_weight_unit_free : WeightedCnf → List Lit → List ℕ → T
  unfolding mul_lits mul_vars
  compute_weight_unit_free w units frees = mul_vars w (mul_lits w one units) frees

  -- The body of the loops of `serializeWeightedLits`.
  unfoldable pub serialize_lit : WeightedCnf → Lit → Encoded → Encoded
  serialize_lit w l (weights, couples) =
      if is_one (get_weight_lit w l) then (weights, couples) else (
        weights ++ str (get_weight_lit w l),
        (couples ++ human l ∷ []) ++ pos (length (str (get_weight_lit w l))) ∷ [],
      )

  -- for (unsigned i = 1; i <= getNbVar(); i++), with the number of rounds left.
  unfoldable pub serialize_from : WeightedCnf → ℕ → ℕ → Encoded → Encoded
  unfolding serialize_lit
  serialize_from w i zero e = e
  serialize_from w i (suc k) e =
      serialize_from w (i + 1) k
        (serialize_lit w (make_lit_false i) (serialize_lit w (make_lit_true i) e))

  unfoldable pub serialize_weighted_lits : WeightedCnf → Encoded → Encoded
  unfolding serialize_from
  serialize_weighted_lits w e = serialize_from w 1 w.nb_var e
