-- ===== src/RuleLanguage/Specs.antt =====
-- `_check_size`, `spec` of `_Validator`, `_check_grid_size` and `validate_rule_spec`.
use quant_factory.Prelude.{
  ℕ, zero, suc, ◌+◌, ◌*◌, Bool, true, false, not, ◌&&◌, ◌||◌, Option, none, some, List, [], ◌∷◌,
  String, all, leb, ltb, nat_eq, string_eq, if◌then◌else◌,
}
use quant_factory.Python.Json.{
  Json, null, array, object, text, Items, nil, item, Fields, end, field, get_field, is_text,
}
use quant_factory.RuleLanguage.Checked.{
  Checked, ok, err, invalid, out_of_fuel, need, need_some, pure, ◌>>=◌, ◌>>◌,
}
use quant_factory.RuleLanguage.Nodes.{
  is_member, is_nil, keys, mapping, sequence, object_with, item_of,
}
use quant_factory.RuleLanguage.Parameters.{Floats, is_amount, is_count}
use quant_factory.RuleLanguage.Clock.{Bar, bar_minutes, set_bar, minutes_of}
use quant_factory.RuleLanguage.Indicators.{Library, join, value_or}
use quant_factory.RuleLanguage.Series.{series}
use quant_factory.RuleLanguage.Conditions.{condition, side}
use quant_factory.RuleLanguage.Exits.{exit, exit_time, if_given, optional_field}

abbrev pub max_rule_depth : ℕ
max_rule_depth = 32

abbrev pub max_rule_nodes : ℕ
max_rule_nodes = 500

abbrev pub max_variable_grid : ℕ
max_variable_grid = 100

abbrev pub Stack : Type 0
Stack = List (Json × ℕ)

-- `stack.extend(...)`: the last item is on top.
abbrev pub push_items : Items → (depth : ℕ) → Stack → Stack
push_items nil depth stack = stack
push_items (item x xs) depth stack = push_items xs depth ((x, depth) ∷ stack)

abbrev pub push_fields : Fields → (depth : ℕ) → Stack → Stack
push_fields end depth stack = stack
push_fields (field k v fs) depth stack = push_fields fs depth ((v, depth) ∷ stack)

abbrev pub push : Json → (depth : ℕ) → Stack → Stack
push (object fs) depth stack = push_fields fs depth stack
push (array xs) depth stack = push_items xs depth stack
push _ depth stack = stack

-- the loop of `_check_size`
unfoldable pub check_stack : (fuel : ℕ) → Stack → (nodes : ℕ) → Checked (Unit {0})
check_stack zero stack nodes = err out_of_fuel
check_stack (suc fuel) [] nodes = pure tt
check_stack (suc fuel) ((value, depth) ∷ stack) nodes =
    let rest = check_stack fuel (push value (suc depth) stack) (suc nodes) in
    if ltb max_rule_nodes (suc nodes)
    then err invalid
    else if ltb max_rule_depth depth
    then err invalid
    else rest

-- A round counts a node, and the round after the last allowed node raises.
unfoldable pub check_size : Json → Checked (Unit {0})
check_size spec = check_stack (max_rule_nodes + 2) ((spec, 1) ∷ []) 0

abbrev top_level_keys : List String
top_level_keys =
    "language" ∷ "bar" ∷ "tick_size" ∷ "session" ∷ "signals" ∷ "max_trades_per_session" ∷ []

-- `bar not in BAR_MINUTES`, for a value that may be no text
abbrev pub bar_step : Json → Option ℕ
bar_step (text s) = bar_minutes s
bar_step _ = none

-- `SUPPORTED_SESSION`
abbrev supported_session : Fields
supported_session =
    field "timezone" (text "America/New_York")
      (field "open" (text "09:30") (field "close" (text "16:00") end))

abbrev has_text : String → String → Fields → Bool
has_text key s fs = elim (get_field key fs) [ none ↦ false | some v ↦ is_text v s ]

abbrev is_calendar : Json → Bool
is_calendar (text s) = is_member s ("cpi" ∷ "fomc" ∷ [])
is_calendar _ = false

abbrev names_calendar : String → Items → Bool
names_calendar s nil = false
names_calendar s (item x xs) = is_text x s || names_calendar s xs

abbrev is_repeated : Json → Items → Bool
is_repeated (text s) xs = names_calendar s xs
is_repeated _ xs = false

-- calendars without duplicates
unfoldable pub are_skip_days : Items → Bool
are_skip_days nil = true
are_skip_days (item x xs) = is_calendar x && not (is_repeated x xs) && are_skip_days xs

unfoldable pub skip_days : Json → Checked Json
skip_days value = do xs ← sequence value; need (are_skip_days xs); pure (array xs)

-- `if skip_days: result["skip_days"] = ...`
abbrev pub skip_days_field : Option Json → Fields
skip_days_field (some (array (item x xs))) = field "skip_days" (array (item x xs)) end
skip_days_field _ = end

abbrev pub minutes_at : Option Json → Option ℕ
minutes_at (some (text s)) = some (minutes_of s)
minutes_at _ = none

module _ (floats : Floats) (library : Library) (variables : Fields) where
  module _ (bar : Bar) where
    abbrev pub spec_series : Json → Checked Json
    spec_series = series floats variables bar library max_rule_depth

    abbrev pub spec_condition : Json → Checked Json
    spec_condition = condition bar spec_series max_rule_depth

    unfoldable pub signal : Json → Checked Json
    signal node = do
      fs ← object_with ("when" ∷ "side" ∷ []) [] node
      given ← item_of "when" fs
      when ← spec_condition given
      chosen ← item_of "side" fs
      checked ← side bar spec_series chosen
      pure (object (field "when" when (field "side" checked end)))

    unfoldable pub signals : Items → Checked Items
    signals nil = pure nil
    signals (item x xs) = do checked ← signal x; rest ← signals xs; pure (item checked rest)

    -- `spec` after the choice of the bar
    unfoldable pub spec_of_bar : (bar_name : Json) → Fields → Checked Json
    spec_of_bar bar_name fs = do
      tick_size ← item_of "tick_size" fs
      positive ← is_amount floats tick_size none
      need positive
      given_session ← item_of "session" fs
      session ← object_with (keys supported_session) [] given_session
      need (has_text "timezone" "America/New_York" session)
      need (has_text "open" "09:30" session)
      need (has_text "close" "16:00" session)
      flat_at ← if_given (exit_time bar none) (get_field "flat_at" fs)
      given_signals ← item_of "signals" fs
      xs ← sequence given_signals
      need (not (is_nil xs))
      checked ← signals xs
      max_trades ← item_of "max_trades_per_session" fs
      need (is_count max_trades 1 bar.bars_per_session)
      skipped ← if_given skip_days (get_field "skip_days" fs)
      exits ←
          exit floats variables bar spec_series spec_condition (minutes_at flat_at)
            (value_or (object end) (get_field "exit" fs))
      pure (
          object (
            field "language" (text "qf_rules_v1") (
              field "bar" bar_name (
                field "tick_size" tick_size (
                  field "session" (object supported_session) (
                    field "signals" (array checked) (
                      field "exit" exits (
                        field "max_trades_per_session" max_trades (
                          join (optional_field "flat_at" flat_at) (skip_days_field skipped))))))))))

  -- `spec`
  unfoldable pub spec : Json → Checked Json
  spec node = do
    fs ← object_with top_level_keys ("exit" ∷ "skip_days" ∷ "flat_at" ∷ []) node
    language ← item_of "language" fs
    need (is_text language "qf_rules_v1")
    bar ← item_of "bar" fs
    step ← need_some (bar_step bar)
    spec_of_bar (set_bar step) bar fs

-- The number of the values of a variable. Every variable has been used, so it has a list of values.
abbrev pub length_of : Items → ℕ
length_of nil = 0
length_of (item x xs) = suc (length_of xs)

abbrev pub value_count : Option Json → ℕ
value_count (some (array xs)) = length_of xs
value_count _ = 0

abbrev pub definition_count : Json → ℕ
definition_count (object fs) = value_count (get_field "values" fs)
definition_count _ = 0

-- `combinations` of `_check_grid_size`
unfoldable pub combinations : Fields → ℕ
combinations end = 1
combinations (field name definition rest) = definition_count definition * combinations rest

-- `variables or {}`
abbrev pub variables_of : Json → Checked Fields
variables_of null = ok end []
variables_of node = mapping node

-- a check whose uses are read and kept apart
abbrev pub with_used : {A : Type 0} → Checked A → Checked (A × List String)
with_used (ok a us) = ok (a, us) us
with_used (err e) = err e

-- `validate_rule_spec`
unfoldable pub validate_rule_spec : Floats → Library → (spec variables : Json) → Checked Json
validate_rule_spec floats library node given = do
  mapping node
  variables ← variables_of given
  check_size node
  (normalized, used) ← with_used (spec floats library variables node)
  need (all (λ name. is_member name used) (keys variables))
  need (leb (combinations variables) max_variable_grid)
  pure normalized
