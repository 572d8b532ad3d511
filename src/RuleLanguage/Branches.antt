-- ===== src/RuleLanguage/Branches.antt =====
-- `condition` and `side`: the variables that they use, and their fuel.
use quant_factory.RuleLanguage.Parameters.{is_count}
use quant_factory.RuleLanguage.Operands.{no_depth}
use quant_factory.Prelude.{
  ap, ℕ, zero, suc, ◌≤◌, true, false, ◌||◌, [], ◌++◌, ◌≡◌, refl, arith, String, string_eq, ◌==◌,
}
use quant_factory.Python.Json.{
  Json, null, array, object, boolean, number, negative, fraction, text, Items, nil, item, Fields,
  end, field,
}
use quant_factory.RuleLanguage.Checked.{
  Checked, Ensures, Ensures-need, Ensures-invalid, Ensures-ok, Ensures-bind, Ensures-if,
}
use quant_factory.RuleLanguage.Nodes.{is_member}
use quant_factory.RuleLanguage.Clock.{Bar}
use quant_factory.RuleLanguage.Conditions.{
  side_node, pair_operators, condition_operators, side_operators, compared, every_minutes, time_is,
  time_between, each, combined, negated, condition_by, condition_node, condition, side,
}
use quant_factory.RuleLanguage.Rules.{
  Ensures-object, Ensures-item, Ensures-sequence, Ensures-plain, clock-IsTime, pair-depth,
  operator_of-member,
}
use quant_factory.RuleLanguage.Variables.{
  Tracks, TracksItems, Refers-nil, Refers-append, not_param, params,
}
use quant_factory.RuleLanguage.Depth.{depth, depth_items, depth_fields}
use native.Mathlib.Nat.{le_trans}
use mathlib.Core.List.{append-nil}

pub items_below :
    (v : Json) (xs : Items) (level : ℕ) → v ≡ array xs → depth v ≤ level → depth_items xs ≤ level
unfolding depth
items_below v xs level same le = omega (arith, ap depth same)

pub le-suc : (n : ℕ) → n ≤ suc n
le-suc n = omega arith

-- A part of a node that has been read as an object.
pub below-node :
    (node : Json) (gs : Fields) (limit : ℕ) (v : Json)
    → node ≡ object gs
    → depth node ≤ suc limit
    → depth v ≤ depth_fields gs
    → depth v ≤ limit
unfolding depth
below-node node gs limit v same le under = omega (arith, ap depth same)

module _ (variables : Fields) (bar : Bar) (series : Json → Checked Json) (limit : ℕ)
    (checked : (v : Json) → depth v ≤ limit → Ensures (Tracks variables) (series v)) where
  compared-Tracks :
      (operator : String) (v : Json)
      → depth v ≤ limit
      → is_member operator pair_operators ≡ true
      → Ensures (Tracks variables) (compared bar series operator v)
  unfolding compared params
  compared-Tracks operator v le member = Ensures-plain _ _ _ _ (pair-depth v) (λ (left, right) h.
      Ensures-bind _ _ _ _ (checked left (omega (arith, h.0))) (λ first us k.
        Ensures-bind _ _ _ _ (checked right (omega (arith, h.1))) (λ second vs m. Ensures-ok _ _ _ (
          rw (not_param operator pair_operators refl member) (
            rw (append-nil (params first ++ (params second ++ []))) (
              Refers-append variables _ _ _ _ k
                (Refers-append variables _ _ _ _ m (Refers-nil variables))))))))

  every_minutes-Tracks : (v : Json) → Ensures (Tracks variables) (every_minutes bar series v)
  unfolding every_minutes is_count params
  every_minutes-Tracks (number n) =
      Ensures-need _ _ _ (λ _. Ensures-ok _ _ _ (Refers-nil variables))
  every_minutes-Tracks v = Ensures-need _ _ _ (λ e. absurd (cc e))

  time_is-Tracks : (v : Json) → Ensures (Tracks variables) (time_is bar series v)
  unfolding time_is params
  time_is-Tracks v =
      Ensures-plain _ _ _ _ (clock-IsTime _ _ _ v)
        (λ time _. Ensures-ok _ _ _ (Refers-nil variables))

  time_between-Tracks : (v : Json) → Ensures (Tracks variables) (time_between bar series v)
  unfolding time_between params
  time_between-Tracks v = Ensures-plain _ _ _ _ (pair-depth v) (λ (first, second) _.
      Ensures-plain _ _ _ _ (clock-IsTime _ _ _ first) (λ start _.
        Ensures-plain _ _ _ _ (clock-IsTime _ _ _ second)
          (λ end_of _. Ensures-need _ _ _ (λ _. Ensures-ok _ _ _ (Refers-nil variables)))))

  module _ (condition : Json → Checked Json) (level : ℕ)
      (sound : (v : Json) → depth v ≤ level → Ensures (Tracks variables) (condition v)) where
    each-Tracks :
        (xs : Items)
        → depth_items xs ≤ level
        → Ensures (TracksItems variables) (each bar series condition xs)
    unfolding each params depth
    each-Tracks nil le = Ensures-ok _ _ _ (Refers-nil variables)
    each-Tracks (item x xs) le = Ensures-bind _ _ _ _ (sound x (omega arith)) (λ v us h.
        Ensures-bind _ _ _ _ (each-Tracks xs (omega arith)) (λ rest vs k.
          Ensures-ok _ _ _ (rw (append-nil vs) (Refers-append variables _ _ _ _ h k))))

    combined-Tracks :
        (operator : String) (v : Json)
        → depth v ≤ level
        → (operator == "param") ≡ false
        → Ensures (Tracks variables) (combined bar series condition operator v)
    unfolding combined params
    combined-Tracks operator v le other = Ensures-sequence _ _ _ (λ xs same.
        Ensures-need _ _ _ (λ _.
          Ensures-bind _ _ _ _ (each-Tracks xs (items_below v xs level same le)) (λ ys us h.
            Ensures-ok _ _ _
              (rw other (Refers-append variables _ _ _ _ h (Refers-nil variables))))))

    negated-Tracks :
        (v : Json) → depth v ≤ level → Ensures (Tracks variables) (negated bar series condition v)
    unfolding negated params
    negated-Tracks v le =
        Ensures-bind _ _ _ _ (sound v le)
          (λ w us h. Ensures-ok _ _ _ (Refers-append variables _ _ _ _ h (Refers-nil variables)))

    condition_by-Tracks :
        (operator : String) (v : Json)
        → depth v ≤ level
        → depth v ≤ limit
        → is_member operator condition_operators ≡ true
        → Ensures (Tracks variables) (condition_by bar series condition operator v)
    unfolding condition_by
    condition_by-Tracks operator v le below member =
        Ensures-if _ (is_member operator pair_operators) _ _
          (λ pair. compared-Tracks operator v below pair)
          (λ _.
            Ensures-if _ (operator == "all" || operator == "any") _ _
              (λ _.
                combined-Tracks operator v le (not_param operator condition_operators refl member))
              (λ _.
                Ensures-if _ (operator == "not") _ _ (λ _. negated-Tracks v le)
                  (λ _.
                    Ensures-if _ (operator == "every_minutes") _ _ (λ _. every_minutes-Tracks v)
                      (λ _.
                        Ensures-if _ (operator == "time_is") _ _ (λ _. time_is-Tracks v)
                          (λ _. time_between-Tracks v)))))

    condition_node-Tracks :
        (node : Json)
        → depth node ≤ suc level
        → depth node ≤ suc limit
        → Ensures (Tracks variables) (condition_node bar series condition node)
    unfolding condition_node
    condition_node-Tracks node le below =
        Ensures-plain _ _ _ _ (operator_of-member condition_operators node) (λ operator member.
          Ensures-object _ _ _ _ _ (λ gs same. Ensures-item _ _ _ _ (λ v under.
            condition_by-Tracks operator v (below-node node gs level v same le under)
              (below-node node gs limit v same below under) member)))

  pub condition-Tracks :
      (fuel : ℕ) (v : Json)
      → fuel ≤ suc limit
      → depth v ≤ fuel
      → Ensures (Tracks variables) (condition bar series fuel v)
  unfolding condition
  condition-Tracks zero v enough le = absurd (no_depth v le)
  condition-Tracks (suc fuel) v enough le =
      condition_node-Tracks (condition bar series fuel) fuel
        (λ w under. condition-Tracks fuel w (le_trans (le-suc fuel) enough) under) v le
        (le_trans le enough)

  side_node-Tracks :
      (key : String) (v : Json)
      → depth v ≤ limit
      → Ensures (Tracks variables) (side_node bar series key v)
  unfolding side_node params
  side_node-Tracks key v le = Ensures-need _ _ _ (λ member.
      Ensures-bind _ _ _ _ (checked v le) (λ w us h.
        Ensures-ok (λ b vs. Tracks variables b (us ++ vs)) (object (field key w end)) []
          (rw (not_param key side_operators refl member)
            (Refers-append variables _ _ _ _ h (Refers-nil variables)))))

  pub side-Tracks : (v : Json) → depth v ≤ limit → Ensures (Tracks variables) (side bar series v)
  unfolding side params depth
  side-Tracks (text s) le = Ensures-need _ _ _ (λ _. Ensures-ok _ _ _ (Refers-nil variables))
  side-Tracks (object (field key v end)) le = side_node-Tracks key v (omega arith)
  side-Tracks (object end) le = Ensures-invalid _
  side-Tracks (object (field key v (field _ _ _))) le = Ensures-invalid _
  side-Tracks null le = Ensures-invalid _
  side-Tracks (boolean _) le = Ensures-invalid _
  side-Tracks (number _) le = Ensures-invalid _
  side-Tracks (negative _) le = Ensures-invalid _
  side-Tracks (fraction _) le = Ensures-invalid _
  side-Tracks (array _) le = Ensures-invalid _
