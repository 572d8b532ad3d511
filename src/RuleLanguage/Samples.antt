-- ===== src/RuleLanguage/Samples.antt =====
-- Tests of the validation of a rule spec, and the theorems at a small spec.
use quant_factory.RuleLanguage.Times.{clock_codes_iff}
use quant_factory.Prelude.{
  ◌<◌, ◌↔◌, ◌↔◌, ◌==◌, ◌≤◌, Bool, true, false, nat_eq, ◌==◌, none, some, [], ◌∷◌, ◌≡◌, ◌≢◌, refl,
  String, string_eq,
}
use quant_factory.Python.Json.{
  Json, null, array, object, boolean, number, text, nil, item, Fields, end, field,
}
use quant_factory.RuleLanguage.Checked.{◌>>=◌, need, need_some}
use quant_factory.RuleLanguage.Nodes.{
  mapping, object_with, sequence, pair, operator_of, item_of, flag_of,
}
use quant_factory.RuleLanguage.Clock.{hhmm, codes, clock_codes, clock_minutes, set_bar, clock}
use quant_factory.RuleLanguage.Parameters.{
  float_limit, finite_integer, is_count, is_number, is_within_amount, is_amount, is_usable,
  check_values, is_distinct, param, param_node, number_node, count, amount,
}
use quant_factory.RuleLanguage.Indicators.{
  usable_class, library_indicator, indicator_params, operand, indicator_output, indicator,
  library_params, library_inputs, library_node,
}
use quant_factory.RuleLanguage.Series.{
  smoothing_of, atr_series, range_window, prev_node, rolling_node, value_at_node, param_series,
  binary_node, unary_node, atr_node, session_node, single_node, other_node, series_by, series_node,
  series,
}
use quant_factory.RuleLanguage.Conditions.{
  compared, every_minutes, time_is, time_between, each, combined, negated, condition_by,
  condition_node, condition, side_node, side,
}
use quant_factory.RuleLanguage.Exits.{
  if_given, exit_time, atr_distance, plain_distance, signal_bar_distance, distance_by, distance,
  exit_when, exit,
}
use quant_factory.RuleLanguage.Specs.{
  check_stack, check_size, are_skip_days, skip_days, signal, signals, spec_of_bar, spec,
  combinations, validate_rule_spec,
}
use quant_factory.RuleLanguage.Checked.{ok, err, invalid, overflow, out_of_fuel, Ensures}
use quant_factory.RuleLanguage.Parameters.{Floats}
use quant_factory.RuleLanguage.Specs.{
  combinations, max_variable_grid, max_rule_depth, max_rule_nodes,
}
use quant_factory.RuleLanguage.Nodes.{is_member, keys}
use Prim.Native.Nat.{◌^◌}
use quant_factory.RuleLanguage.Variables.{params}
use quant_factory.RuleLanguage.Depth.{depth, size, check_size-Ensures}
use quant_factory.RuleLanguage.Tracking.{validate_rule_spec-params, validate_rule_spec-terminates}

abbrev is_same_number : Json → Json → Bool
is_same_number (number a) (number b) = a == b
is_same_number _ _ = false

-- A spec without floats, so these tests of floats are not read.
abbrev pub floats : Floats
floats = record {
  is_finite = λ s. true;
  is_positive = λ s. true;
  is_below = λ s limit. false;
  is_same = λ a b. is_same_number a b;
}

abbrev variable : String → Json
variable name = object (field "param" (text name) end)

-- The close crosses its average of `length` bars from below: buy, and stop four ticks away.
abbrev when : Json
when = object (
    field "crosses_above"
      (array (
        item (text "close") (
          item (object (field "sma" (text "close") (field "length" (variable "length") end))) nil)))
      end)

abbrev checked_when : Json
checked_when = object (
    field "crosses_above"
      (array (
        item (text "close") (
          item
            (object (
              field "sma" (text "close")
                (field "length" (variable "length") (field "across_sessions" (boolean false) end))))
            nil)))
      end)

abbrev session : Json
session = object (
    field "timezone" (text "America/New_York")
      (field "open" (text "09:30") (field "close" (text "16:00") end)))

abbrev pub spec_with : (tick_size : Json) → Json
spec_with tick_size = object (
    field "language" (text "qf_rules_v1") (
      field "bar" (text "5m") (
        field "tick_size" tick_size (
          field "session" session (
            field "signals"
              (array (item (object (field "when" when (field "side" (text "long") end))) nil))
              (field "max_trades_per_session" (number 2) (
                field "exit"
                  (object (
                    field "at_time" (text "15:50")
                      (field "stop_loss" (object (field "ticks" (number 4) end)) end)))
                  end)))))))

abbrev pub normalized : Json
normalized = object (
    field "language" (text "qf_rules_v1") (
      field "bar" (text "5m") (
        field "tick_size" (number 1) (
          field "session" session (
            field "signals"
              (array
                (item (object (field "when" checked_when (field "side" (text "long") end))) nil))
              (field "exit"
                (object (
                  field "at_time" (text "15:50") (
                    field "on_opposite_signal" (boolean false)
                      (field "stop_loss" (object (field "ticks" (number 4) end)) end))))
                (field "max_trades_per_session" (number 2) end)))))))

abbrev pub variables : Fields
variables =
    field "length" (object (field "values" (array (item (number 10) (item (number 20) nil))) end))
      end

pub validated :
    validate_rule_spec floats none (spec_with (number 1)) (object variables)
    ≡ ok normalized ("length" ∷ [])
unfolding ◌>>=◌ need need_some mapping object_with sequence pair operator_of item_of flag_of
    clock_minutes set_bar clock float_limit finite_integer is_count is_number is_within_amount
    is_amount is_usable check_values is_distinct param param_node number_node count amount
    usable_class library_indicator indicator_params operand indicator_output indicator
    library_params library_inputs library_node smoothing_of atr_series range_window prev_node
    rolling_node value_at_node param_series binary_node unary_node atr_node session_node single_node
    other_node series_by series_node series compared every_minutes time_is time_between each
    combined negated condition_by condition_node condition side_node side if_given exit_time
    atr_distance plain_distance signal_bar_distance distance_by distance exit_when exit check_stack
    check_size are_skip_days skip_days signal signals spec_of_bar spec combinations
    validate_rule_spec
validated = refl

-- `math.isfinite` of an integer that no float can hold: the error is no `RuleSpecError`.
huge_tick :
    validate_rule_spec floats none (spec_with (number (10 ^ 400))) (object variables) ≡ err overflow
unfolding ◌>>=◌ need need_some mapping object_with sequence pair operator_of item_of flag_of
    clock_minutes set_bar clock float_limit finite_integer is_count is_number is_within_amount
    is_amount is_usable check_values is_distinct param param_node number_node count amount
    usable_class library_indicator indicator_params operand indicator_output indicator
    library_params library_inputs library_node smoothing_of atr_series range_window prev_node
    rolling_node value_at_node param_series binary_node unary_node atr_node session_node single_node
    other_node series_by series_node series compared every_minutes time_is time_between each
    combined negated condition_by condition_node condition side_node side if_given exit_time
    atr_distance plain_distance signal_bar_distance distance_by distance exit_when exit check_stack
    check_size are_skip_days skip_days signal signals spec_of_bar spec combinations
    validate_rule_spec
huge_tick = refl

undeclared : validate_rule_spec floats none (spec_with (number 1)) null ≡ err invalid
unfolding ◌>>=◌ need need_some mapping object_with sequence pair operator_of item_of flag_of
    clock_minutes set_bar clock float_limit finite_integer is_count is_number is_within_amount
    is_amount is_usable check_values is_distinct param param_node number_node count amount
    usable_class library_indicator indicator_params operand indicator_output indicator
    library_params library_inputs library_node smoothing_of atr_series range_window prev_node
    rolling_node value_at_node param_series binary_node unary_node atr_node session_node single_node
    other_node series_by series_node series compared every_minutes time_is time_between each
    combined negated condition_by condition_node condition side_node side if_given exit_time
    atr_distance plain_distance signal_bar_distance distance_by distance exit_when exit check_stack
    check_size are_skip_days skip_days signal signals spec_of_bar spec combinations
    validate_rule_spec
undeclared = refl

validate_rule_spec-params_example :
    ((name : String) → is_member name (params normalized) ≡ is_member name (keys variables))
    × (combinations variables ≤ max_variable_grid)
validate_rule_spec-params_example =
    validate_rule_spec-params floats none (spec_with (number 1)) (object variables) normalized
      ("length" ∷ []) variables validated (unfold mapping in refl)

validate_rule_spec-terminates_example :
    validate_rule_spec floats none (spec_with (number 1)) (object variables) ≢ err out_of_fuel
validate_rule_spec-terminates_example =
    validate_rule_spec-terminates floats none (spec_with (number 1)) (object variables)

check_size-Ensures_example :
    Ensures
      (λ _ _.
        (depth (spec_with (number 1)) ≤ max_rule_depth)
        × (size (spec_with (number 1)) ≤ max_rule_nodes))
      (check_size (spec_with (number 1)))
check_size-Ensures_example = check_size-Ensures (spec_with (number 1))

clock_codes_iff_example :
    (clock_codes (codes "09:45") ≡ some 585) ↔ ((585 < 1440) × (hhmm 585 ≡ codes "09:45"))
clock_codes_iff_example = clock_codes_iff (codes "09:45") 585
