-- ===== src/RuleLanguage/Conditions.antt =====
-- `condition` and `side` of `_Validator`.
use quant_factory.Prelude.{
  ℕ, zero, suc, ◌-◌, Bool, false, not, ◌&&◌, ◌||◌, List, [], ◌∷◌, ◌++◌, String, leb, nat_eq,
  string_eq, ◌==◌, if◌then◌else◌,
}
use Prim.Native.Nat.{◌%◌}
use quant_factory.Python.Json.{Json, array, object, number, text, Items, nil, item, end, field}
use quant_factory.RuleLanguage.Checked.{Checked, err, invalid, out_of_fuel, need, pure, ◌>>=◌, ◌>>◌}
use quant_factory.RuleLanguage.Nodes.{
  is_member, is_nil, sequence, object_with, item_of, pair, operator_of,
}
use quant_factory.RuleLanguage.Parameters.{is_count}
use quant_factory.RuleLanguage.Clock.{
  Bar, clock, minutes_of, session_open_minutes, session_close_minutes,
}

abbrev pub pair_operators : List String
pair_operators = "gt" ∷ "gte" ∷ "lt" ∷ "lte" ∷ "eq" ∷ "crosses_above" ∷ "crosses_below" ∷ []

abbrev pub condition_operators : List String
condition_operators =
    pair_operators ++ ("all" ∷ "any" ∷ "not" ∷ "time_is" ∷ "time_between" ∷ "every_minutes" ∷ [])

abbrev is_multiple : Json → ℕ → Bool
is_multiple (number n) step = n % step == 0
is_multiple _ step = false

-- `SIDE_OPERATORS`
abbrev pub side_operators : List String
side_operators = "sign_of" ∷ "opposite_sign_of" ∷ []

module _ (bar : Bar) (series : Json → Checked Json) where
  unfoldable pub compared : String → Json → Checked Json
  compared operator value = do
    (left, right) ← pair value
    first ← series left
    second ← series right
    pure (object (field operator (array (item first (item second nil))) end))

  unfoldable pub every_minutes : Json → Checked Json
  every_minutes value = do
    need (
        is_count value bar.step (session_close_minutes - session_open_minutes)
        && is_multiple value bar.step)
    pure (object (field "every_minutes" value end))

  unfoldable pub time_is : Json → Checked Json
  time_is value = do
    time ← clock bar.first_end session_close_minutes bar.step value
    pure (object (field "time_is" (text time) end))

  unfoldable pub time_between : Json → Checked Json
  time_between value = do
    (first, second) ← pair value
    start ← clock bar.first_end session_close_minutes bar.step first
    end_of ← clock bar.first_end session_close_minutes bar.step second
    need (leb (minutes_of start) (minutes_of end_of))
    pure (object (field "time_between" (array (item (text start) (item (text end_of) nil))) end))

  module _ (condition : Json → Checked Json) where
    unfoldable pub each : Items → Checked Items
    each nil = pure nil
    each (item x xs) = do checked ← condition x; rest ← each xs; pure (item checked rest)

    unfoldable pub combined : String → Json → Checked Json
    combined operator value = do
      xs ← sequence value
      need (not (is_nil xs))
      checked ← each xs
      pure (object (field operator (array checked) end))

    unfoldable pub negated : Json → Checked Json
    negated value = do checked ← condition value; pure (object (field "not" checked end))

    unfoldable pub condition_by : String → Json → Checked Json
    condition_by operator value =
        if is_member operator pair_operators
        then compared operator value
        else if operator == "all" || operator == "any"
        then combined operator value
        else if operator == "not"
        then negated value
        else if operator == "every_minutes"
        then every_minutes value
        else if operator == "time_is"
        then time_is value
        else time_between value

    unfoldable pub condition_node : Json → Checked Json
    condition_node node = do
      operator ← operator_of condition_operators node
      fs ← object_with (operator ∷ []) [] node
      value ← item_of operator fs
      condition_by operator value

  -- `condition`
  unfoldable pub condition : (fuel : ℕ) → Json → Checked Json
  condition zero node = err out_of_fuel
  condition (suc fuel) node = condition_node (condition fuel) node

  unfoldable pub side_node : String → Json → Checked Json
  side_node key value = do
    need (is_member key side_operators)
    checked ← series value
    pure (object (field key checked end))

  -- `side`
  unfoldable pub side : Json → Checked Json
  side (text s) = do need (s == "long" || s == "short"); pure (text s)
  side (object (field key value end)) = side_node key value
  side _ = err invalid
