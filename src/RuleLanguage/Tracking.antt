-- ===== src/RuleLanguage/Tracking.antt =====
-- `spec` and `validate_rule_spec`: the variables that a spec refers to, and the fuel.
use quant_factory.RuleLanguage.Pieces.{
  skip_days-Plain, is_amount-number, is_count-params, bar_step-params, fields_within,
  optional_depth,
}
use quant_factory.Prelude.{
  sym, leb, suc, ◌≤◌, true, none, List, [], ◌∷◌, ◌≡◌, ◌≢◌, refl, arith, String, string_eq, all,
}
use quant_factory.Python.Json.{
  Json, null, object, Items, nil, item, Fields, end, field, get_field, has_field,
}
use quant_factory.RuleLanguage.Checked.{
  invalid, overflow, Checked, ok, err, out_of_fuel, Ensures, Ensures-need, Ensures-ok, Ensures-bind,
  Ensures-some,
}
use quant_factory.RuleLanguage.Nodes.{mapping, is_member, keys}
use quant_factory.RuleLanguage.Clock.{Bar, set_bar}
use quant_factory.RuleLanguage.Parameters.{Floats}
use quant_factory.RuleLanguage.Indicators.{Library, value_or}
use quant_factory.RuleLanguage.Exits.{optional_field}
use quant_factory.RuleLanguage.Specs.{
  max_rule_depth, max_variable_grid, spec_series, spec_condition, signal, signals, skip_days_field,
  minutes_at, spec_of_bar, spec, combinations, variables_of, with_used, validate_rule_spec,
}
use quant_factory.RuleLanguage.Rules.{
  Ensures-object, Ensures-item, Ensures-sequence, Ensures-mapping, Ensures-plain,
}
use quant_factory.RuleLanguage.Variables.{
  Refers-rotated, Tracks, TracksItems, Refers-nil, Refers-append, params, params_fields,
  params-join,
}
use quant_factory.RuleLanguage.Depth.{depth, depth_items, depth_fields, check_size-Ensures}
use quant_factory.RuleLanguage.Operands.{series-Tracks}
use quant_factory.RuleLanguage.Branches.{condition-Tracks, side-Tracks, below-node, items_below}
use quant_factory.RuleLanguage.Stops.{exit-Tracks, if_given-Tracks, exit_time-Tracks}
use native.Mathlib.Nat.{le-suc, le_trans}
use mathlib.Core.List.{append-nil}

module _ (floats : Floats) (library : Library) (variables : Fields) where
  module _ (bar : Bar) where
    series_sound :
        (v : Json)
        → depth v ≤ max_rule_depth
        → Ensures (Tracks variables) (spec_series floats library variables bar v)
    series_sound v le = series-Tracks floats variables bar library max_rule_depth v le

    condition_sound :
        (v : Json)
        → depth v ≤ max_rule_depth
        → Ensures (Tracks variables) (spec_condition floats library variables bar v)
    condition_sound v le =
        condition-Tracks variables bar (spec_series floats library variables bar) max_rule_depth
          series_sound max_rule_depth v (omega arith) le

    signal-Tracks :
        (node : Json)
        → depth node ≤ suc max_rule_depth
        → Ensures (Tracks variables) (signal floats library variables bar node)
    unfolding signal params
    signal-Tracks node le = Ensures-object _ _ _ _ _ (λ fs same.
        Ensures-item _ _ _ _ (λ given under.
          Ensures-bind _ _ _ _
            (condition_sound given (below-node node fs max_rule_depth given same le under))
            (λ when us h. Ensures-item _ _ _ _ (λ chosen under'.
              Ensures-bind _ _ _ _
                (side-Tracks variables bar (spec_series floats library variables bar) max_rule_depth
                  series_sound chosen (below-node node fs max_rule_depth chosen same le under'))
                (λ side vs k. Ensures-ok _ _ _ (
                  Refers-append variables _ _ _ _ h
                    (Refers-append variables _ _ _ _ k (Refers-nil variables))))))))

    signals-Tracks :
        (xs : Items)
        → depth_items xs ≤ suc max_rule_depth
        → Ensures (TracksItems variables) (signals floats library variables bar xs)
    unfolding signals params depth
    signals-Tracks nil le = Ensures-ok _ _ _ (Refers-nil variables)
    signals-Tracks (item x xs) le = Ensures-bind _ _ _ _ (signal-Tracks x (omega arith)) (λ v us h.
        Ensures-bind _ _ _ _ (signals-Tracks xs (omega arith)) (λ rest vs k.
          Ensures-ok _ _ _ (rw (append-nil vs) (Refers-append variables _ _ _ _ h k))))

    spec_of_bar-Tracks :
        (bar_name : Json) (fs : Fields)
        → params bar_name ≡ []
        → depth_fields fs ≤ max_rule_depth
        → Ensures (Tracks variables) (spec_of_bar floats library variables bar bar_name fs)
    unfolding spec_of_bar params
    spec_of_bar-Tracks bar_name fs plain le = Ensures-item _ _ _ _ (λ tick_size _.
        Ensures-plain _ _ _ _ (is_amount-number floats tick_size) (λ positive number.
          Ensures-need _ _ _ (λ yes_positive. Ensures-item _ _ _ _ (λ given_session _.
            Ensures-object _ _ _ _ _ (λ session _. Ensures-need _ _ _ (λ _. Ensures-need _ _ _ (λ _.
              Ensures-need _ _ _ (λ _.
                Ensures-bind _ _ _ _
                  (if_given-Tracks variables _ (get_field "flat_at" fs)
                    (λ v _. exit_time-Tracks variables bar none v))
                  (λ flat_at us0 h0. Ensures-item _ _ _ _ (λ given_signals under.
                    Ensures-sequence _ _ _ (λ xs same. Ensures-need _ _ _ (λ _.
                      Ensures-bind _ _ _ _
                        (signals-Tracks xs (
                          items_below given_signals xs (suc max_rule_depth) same
                            (le_trans (le_trans under le) (le-suc max_rule_depth))))
                        (λ checked us1 h1. Ensures-item _ _ _ _ (λ max_trades _.
                          Ensures-need _ _ _ (λ counted.
                            Ensures-plain _ _ _ _ (skip_days-Plain (get_field "skip_days" fs))
                              (λ skipped none_skipped.
                                Ensures-bind _ _ _ _
                                  (exit-Tracks floats variables bar
                                    (spec_series floats library variables bar) max_rule_depth
                                    series_sound (spec_condition floats library variables bar)
                                    condition_sound (minutes_at flat_at)
                                    (value_or (object end) (get_field "exit" fs))
                                    (optional_depth "exit" fs max_rule_depth le))
                                  (λ exits us2 h2. Ensures-ok _ _ _ (
                                    rw plain (
                                      rw (number yes_positive) (
                                        rw (is_count-params max_trades 1 _ counted) (
                                          rw
                                            (params-join (optional_field "flat_at" flat_at)
                                              (skip_days_field skipped))
                                            (rw none_skipped (
                                              rw
                                                (append-nil (
                                                  params_fields (optional_field "flat_at" flat_at)))
                                                (Refers-rotated variables _ _ _ us1 us2 us0 h1 h2
                                                  (h0 "flat_at" refl)))))))))))))))))))))))))

  spec-Tracks :
      (node : Json)
      → depth node ≤ max_rule_depth
      → Ensures (Tracks variables) (spec floats library variables node)
  unfolding spec
  spec-Tracks node le = Ensures-object _ _ _ _ _ (λ fs same. Ensures-item _ _ _ _ (λ language _.
      Ensures-need _ _ _ (λ _. Ensures-item _ _ _ _ (λ bar _. Ensures-some _ _ _ (λ step known.
        spec_of_bar-Tracks (set_bar step) bar fs (bar_step-params bar step known)
          (fields_within node fs max_rule_depth same le))))))

has_field-keys : (name : String) (fs : Fields) → has_field name fs ≡ is_member name (keys fs)
has_field-keys name end = refl
has_field-keys name (field k v fs) = ground (arith, has_field-keys name fs)

all-member :
    (names used : List String) (name : String)
    → all (λ other. is_member other used) names ≡ true
    → is_member name names ≡ true
    → is_member name used ≡ true
all-member [] used name every h = cc
all-member (first ∷ rest) used name every h =
    ground (arith, (string_eq.same_iff first name).0, all-member rest used name)

variables_of_self :
    (given : Json)
    → Ensures (λ fs us. (us ≡ []) × (variables_of given ≡ ok fs [])) (variables_of given)
unfolding Ensures mapping
variables_of_self null = (refl, refl)
variables_of_self (object fs) = (refl, refl)
variables_of_self _ = tt

with_used-Tracks :
    (variables : Fields) (m : Checked Json)
    → Ensures (Tracks variables) m
    → Ensures (λ found _. Tracks variables found.0 found.1) (with_used m)
unfolding Ensures
with_used-Tracks variables (ok v us) h = h
with_used-Tracks variables (err invalid) h = tt
with_used-Tracks variables (err overflow) h = tt
with_used-Tracks variables (err out_of_fuel) h = h

-- The declared variables are those that the copy refers to, and their grid is bounded.
abbrev IsClosed : (given normalized : Json) → Type 0
IsClosed given normalized =
    (variables : Fields)
    → variables_of given ≡ ok variables []
    → ((name : String) → is_member name (params normalized) ≡ is_member name (keys variables))
      × (combinations variables ≤ max_variable_grid)

closed_lem :
    (variables : Fields) (given normalized : Json) (used : List String)
    → variables_of given ≡ ok variables []
    → Tracks variables normalized used
    → all (λ name. is_member name used) (keys variables) ≡ true
    → leb (combinations variables) max_variable_grid ≡ true
    → IsClosed given normalized
closed_lem variables given normalized used same tracks every small others same' =
    let e : variables ≡ others = cc (same, same') in
    rw (sym e) (
      λ name. ground (
        arith,
        tracks name,
        has_field-keys name variables,
        all-member (keys variables) used name every,
      ),
      ground arith,
    )

validate_rule_spec-Ensures :
    (floats : Floats) (library : Library) (node given : Json)
    → Ensures
        (λ normalized _. IsClosed given normalized)
        (validate_rule_spec floats library node given)
unfolding validate_rule_spec
validate_rule_spec-Ensures floats library node given = Ensures-mapping _ node _ (λ _ _.
    Ensures-plain _ _ _ _ (variables_of_self given) (λ variables same.
      Ensures-bind _ _ _ _ (check_size-Ensures node) (λ _ _ fits.
        Ensures-bind _ _ _ _
          (with_used-Tracks variables _ (spec-Tracks floats library variables node fits.0))
          (λ (normalized, used) _ tracks. Ensures-need _ _ _ (λ every. Ensures-need _ _ _ (λ small.
            Ensures-ok _ _ _
              (closed_lem variables given normalized used same tracks every small)))))))

Ensures-no_fuel :
    {A : Type 0} (P : A → List String → Type 0) (m : Checked A) → Ensures P m → m ≢ err out_of_fuel
unfolding Ensures
Ensures-no_fuel P (ok a us) h e = cc e
Ensures-no_fuel P (err invalid) h e = cc e
Ensures-no_fuel P (err overflow) h e = cc e
Ensures-no_fuel P (err out_of_fuel) h e = h

ensures-found :
    {A : Type 0} (P : A → List String → Type 0) (m : Checked A) (a : A) (us : List String)
    → Ensures P m
    → m ≡ ok a us
    → P a us
unfolding Ensures
ensures-found P m a us h e = unfold Ensures in (rw e at h)

-- The validation of any document, with any variables, ends by itself: the levels that `_check_size`
-- allows bound the calls of `series` and `condition`, and the elements that it allows its own rounds.
pub validate_rule_spec-terminates :
    (floats : Floats) (library : Library) (node given : Json)
    → validate_rule_spec floats library node given ≢ err out_of_fuel
validate_rule_spec-terminates floats library node given =
    Ensures-no_fuel _ _ (validate_rule_spec-Ensures floats library node given)

-- The normalized copy of an accepted spec refers to exactly the declared variables, wherever
-- `{"param": name}` stands in it; and the product of their numbers of values is at most 100.
pub validate_rule_spec-params :
    (floats : Floats) (library : Library) (node given normalized : Json) (used : List String)
    (variables : Fields)
    → validate_rule_spec floats library node given ≡ ok normalized used
    → variables_of given ≡ ok variables []
    → ((name : String) → is_member name (params normalized) ≡ is_member name (keys variables))
      × (combinations variables ≤ max_variable_grid)
validate_rule_spec-params floats library node given normalized used variables accepted same =
    ensures-found (λ v _. IsClosed given v) _ normalized used
      (validate_rule_spec-Ensures floats library node given) accepted variables same
