-- ===== src/Formula/Weights.antt =====
-- The weights of cube_generator/src/formula/WeightedCNF.hpp: what `computeWeightUnitFree` adds up to;
-- and the counters of `displayStat`.
use hydra_sat.Base.{
  ℕ, zero, suc, ◌+◌, ◌*◌, ◌≤◌, ◌<◌, ◌≡◌, refl, sym, ap, ap₂, ◌∙◌, List, [], ◌∷◌, ◌++◌,
  if◌then◌else◌, ◌==◌, length, get_or, arith,
}
use hydra_sat.Formula.ProblemTypes.{Lit, intern, make_lit_true, make_lit_false}
use hydra_sat.Formula.WeightedCnf.{
  Weight, WeightedCnf, Stat, no_stat, tally, new, sum_weights, mul_lits, mul_vars,
  compute_weight_unit_free, stat, display_stat,
}

-- What the integers of the library have; its floats round.
pub record Distributes (F : Weight) : Type 0 where
  pub mul_add : (a b c : F.T) → F.mul a (F.add b c) ≡ F.add (F.mul a b) (F.mul a c)
  pub add_mul : (a b c : F.T) → F.mul (F.add a b) c ≡ F.add (F.mul a c) (F.mul b c)

module _ (F : Weight) where
  open F use {T, one, add, mul}

  get_or-sum_weights :
      (ws : List T) (i k v : ℕ) (d : T)
      → v < k
      → get_or (sum_weights F ws i k) v d
        ≡ add (get_or ws (2 * (i + v)) one) (get_or ws (2 * (i + v) + 1) one)
  unfolding sum_weights
  get_or-sum_weights ws i zero v d lt = absurd (omega arith)
  get_or-sum_weights ws i (suc k) zero d lt =
      ap (λ j. add (get_or ws (2 * j) one) (get_or ws (2 * j + 1) one)) (omega arith)
  get_or-sum_weights ws i (suc k) (suc v) d lt =
      get_or-sum_weights ws (i + 1) k v d (omega arith)
      ∙ ap (λ j. add (get_or ws (2 * j) one) (get_or ws (2 * j + 1) one)) (omega arith)

  get_or-weight_var :
      (ws : List T) (k v : ℕ) (d : T)
      → v < k
      → get_or (sum_weights F ws 0 k) v d ≡ add (get_or ws (2 * v) one) (get_or ws (2 * v + 1) one)
  get_or-weight_var ws k v d lt =
      get_or-sum_weights ws 0 k v d lt
      ∙ ap (λ j. add (get_or ws (2 * j) one) (get_or ws (2 * j + 1) one)) (omega arith)

  mul_lits-snoc :
      (w : WeightedCnf F) (t : T) (ls : List Lit) (l : Lit)
      → mul_lits F w t (ls ++ l ∷ []) ≡ mul (mul_lits F w t ls) (get_or w.weight_lit (intern l) one)
  unfolding mul_lits
  mul_lits-snoc w t [] l = refl
  mul_lits-snoc w t (k ∷ ls) l = mul_lits-snoc w (mul t (get_or w.weight_lit (intern k) one)) ls l

  mul_vars-add :
      (laws : Distributes F) (w : WeightedCnf F) (a b : T) (vs : List ℕ)
      → mul_vars F w (add a b) vs ≡ add (mul_vars F w a vs) (mul_vars F w b vs)
  unfolding mul_vars
  mul_vars-add laws w a b [] = refl
  mul_vars-add laws w a b (v ∷ vs) =
      ap (λ t. mul_vars F w t vs) (laws.add_mul a b (get_or w.weight_var v one))
      ∙ mul_vars-add laws w (mul a (get_or w.weight_var v one)) (mul b (get_or w.weight_var v one))
          vs

  -- Where multiplication distributes over addition, the weight with a variable of the formula left free
  -- is the sum of the weights with the variable true and with it false.
  pub compute_weight_split :
      (laws : Distributes F) (n : ℕ) (ws : List T) (projected : List ℕ) (cs : List (List Lit))
      (units : List Lit) (v : ℕ) (frees : List ℕ)
      → v ≤ n
      → compute_weight_unit_free F (new F n ws projected cs) units (v ∷ frees)
        ≡ add
            (compute_weight_unit_free F
              (new F n ws projected cs)
              (units ++ make_lit_true v ∷ [])
              frees)
            (compute_weight_unit_free F
              (new F n ws projected cs)
              (units ++ make_lit_false v ∷ [])
              frees)
  unfolding compute_weight_unit_free mul_vars new intern make_lit_true make_lit_false
  compute_weight_split laws n ws projected cs units v frees le =
      let w = new F n ws projected cs in
      let u = mul_lits F w one units in
      ap (λ x. mul_vars F w (mul u x) frees) (get_or-weight_var ws (n + 1) v one (omega arith))
      ∙ ap (λ x. mul_vars F w x frees)
          (laws.mul_add u (get_or ws (2 * v) one) (get_or ws (2 * v + 1) one))
      ∙ mul_vars-add laws w (mul u (get_or ws (2 * v) one)) (mul u (get_or ws (2 * v + 1) one))
          frees
      ∙ ap₂ (λ x y. add (mul_vars F w x frees) (mul_vars F w y frees))
          (sym (mul_lits-snoc w one units (make_lit_true v)))
          (sym (mul_lits-snoc w one units (make_lit_false v)))

-- The literals of a list of clauses, and its empty clauses.
unfoldable pub total_length : List (List Lit) → ℕ
total_length [] = 0
total_length (c ∷ cs) = length c + total_length cs

unfoldable pub count_empty : List (List Lit) → ℕ
count_empty [] = 0
count_empty (c ∷ cs) = (if length c == 0 then 1 else 0) + count_empty cs

abbrev sorted_clauses : Stat → ℕ
sorted_clauses s = s.nb_unit + s.nb_bin + s.nb_ter + s.nb_more_three

stat_sums :
    (cs : List (List Lit)) (s : Stat)
    → ((stat cs s).nb_lits ≡ s.nb_lits + total_length cs)
      × (sorted_clauses (stat cs s) + count_empty cs ≡ sorted_clauses s + length cs)
unfolding stat total_length count_empty
stat_sums [] s = (omega arith, omega arith)
stat_sums (c ∷ cs) s =
    (ground (arith, (stat_sums cs (tally c s)).0), ground (arith, (stat_sums cs (tally c s)).1))

-- `displayStat` counts every literal, and counts every clause under exactly one of its sizes, but for
-- the empty clauses, which it counts nowhere.
pub display_stat_lem :
    (F : Weight) (w : WeightedCnf F)
    → ((display_stat F w).nb_lits ≡ total_length w.clauses)
      × (sorted_clauses (display_stat F w) + count_empty w.clauses ≡ length w.clauses)
unfolding display_stat
display_stat_lem F w =
    (omega (arith, (stat_sums w.clauses no_stat).0), omega (arith, (stat_sums w.clauses no_stat).1))
