-- ===== src/RuleLanguage/Exits.antt =====
-- `distance` and `exit` of `_Validator`.
use quant_factory.Prelude.{
  ℕ, ◌+◌, ◌-◌, Bool, true, false, not, ◌||◌, Option, none, some, List, [], ◌∷◌, String, nat_eq,
  string_eq, ◌==◌, if◌then◌else◌,
}
use quant_factory.Python.Json.{
  Json, object, boolean, text, Fields, end, field, get_field, has_field,
}
use quant_factory.RuleLanguage.Checked.{Checked, need, pure, ◌>>=◌, ◌>>◌}
use quant_factory.RuleLanguage.Nodes.{object_with, item_of, flag_of, operator_of}
use quant_factory.RuleLanguage.Parameters.{Floats, count, amount, max_window_bars}
use quant_factory.RuleLanguage.Clock.{Bar, clock}
use quant_factory.RuleLanguage.Indicators.{join}

-- `(*DISTANCE_KINDS, *_STOP_ONLY_KINDS)`
abbrev pub distance_kinds : List String
distance_kinds = "percent" ∷ "points" ∷ "ticks" ∷ "atr" ∷ "level" ∷ "signal_bar" ∷ "r_multiple" ∷ []

-- `_STOP_ONLY_KINDS[kind]`; any other kind is allowed everywhere.
abbrev is_allowed_stop : (kind stop : String) → Bool
is_allowed_stop kind stop =
    if kind == "level" || kind == "signal_bar"
    then stop == "stop_loss"
    else if kind == "r_multiple"
    then stop == "take_profit" || stop == "trail_after"
    else true

-- `value is not True`
abbrev is_true : Json → Bool
is_true (boolean b) = b
is_true _ = false

abbrev exit_keys : List String
exit_keys =
    "after_bars" ∷ "at_time" ∷ "on_opposite_signal" ∷ "stop_loss" ∷ "take_profit" ∷ "trailing_stop"
    ∷ "trail_after" ∷ "exit_when" ∷ []

-- `key in result[stop]`, of a stop that may be missing
abbrev has_kind : String → Option Json → Bool
has_kind kind (some (object fs)) = has_field kind fs
has_kind kind _ = false

abbrev is_present : {A : Type 0} → Option A → Bool
is_present none = false
is_present (some _) = true

abbrev pub optional_field : String → Option Json → Fields
optional_field key none = end
optional_field key (some v) = field key v end

-- a check of a value that may be missing
unfoldable pub if_given : (Json → Checked Json) → Option Json → Checked (Option Json)
if_given check none = pure none
if_given check (some v) = do checked ← check v; pure (some checked)

module _ (bar : Bar) where
  -- the time and the number of bars at which a position is left
  abbrev longest_hold : Option ℕ → ℕ
  longest_hold none = max_window_bars
  longest_hold (some flat_at) = bar.bars_per_session - 1

  abbrev latest_exit : Option ℕ → ℕ
  latest_exit none = bar.last_exit
  latest_exit (some flat_at) = flat_at

  unfoldable pub exit_time : Option ℕ → Json → Checked Json
  exit_time flat_at value = do
    time ← clock (bar.first_end + bar.step) (latest_exit flat_at) bar.step value
    pure (text time)

module _ (floats : Floats) (variables : Fields) (bar : Bar) (series : Json → Checked Json) where
  unfoldable pub atr_distance : Json → Checked Json
  atr_distance value = do
    atr ← object_with ("length" ∷ "multiple" ∷ []) [] value
    given ← item_of "length" atr
    length ← count floats variables 1 bar.bars_per_session given
    times ← item_of "multiple" atr
    multiple ← amount floats variables none times
    pure (object (field "atr" (object (field "length" length (field "multiple" multiple end))) end))

  abbrev pub largest : (kind : String) → Option ℕ
  largest kind = if kind == "percent" then some 100 else none

  -- the level of a stop, or an amount
  abbrev level_or_amount : (kind : String) → Json → Checked Json
  level_or_amount kind value =
      if kind == "level" then series value else amount floats variables (largest kind) value

  unfoldable pub plain_distance : (kind : String) → Json → Checked Json
  plain_distance kind value = do
    checked ← level_or_amount kind value
    pure (object (field kind checked end))

  unfoldable pub signal_bar_distance : (kind : String) → Json → Checked Json
  signal_bar_distance kind value = do
    need (is_true value)
    pure (object (field kind (boolean true) end))

  unfoldable pub distance_by : (kind : String) → Json → Checked Json
  distance_by kind value =
      if kind == "signal_bar"
      then signal_bar_distance kind value
      else if kind == "atr"
      then atr_distance value
      else plain_distance kind value

  -- `distance`: the stop-only kinds, and those of every stop
  unfoldable pub distance : (stop : String) → Json → Checked Json
  distance stop node = do
    kind ← operator_of distance_kinds node
    fs ← object_with (kind ∷ []) [] node
    value ← item_of kind fs
    need (is_allowed_stop kind stop)
    distance_by kind value

  module _ (condition : Json → Checked Json) where
    -- the sides that are given, sorted
    unfoldable pub exit_when : Json → Checked Json
    exit_when value = do
      when ← object_with [] ("long" ∷ "short" ∷ []) value
      need (is_present (get_field "long" when) || is_present (get_field "short" when))
      long ← if_given condition (get_field "long" when)
      short ← if_given condition (get_field "short" when)
      pure (object (join (optional_field "long" long) (optional_field "short" short)))

    -- `exit`
    unfoldable pub exit : Option ℕ → Json → Checked Json
    exit flat_at node = do
      fs ← object_with [] exit_keys node
      after_bars ←
          if_given (count floats variables 1 (longest_hold bar flat_at)) (get_field "after_bars" fs)
      at_time ← if_given (exit_time bar flat_at) (get_field "at_time" fs)
      opposite ← flag_of (get_field "on_opposite_signal" fs)
      stop_loss ← if_given (distance "stop_loss") (get_field "stop_loss" fs)
      take_profit ← if_given (distance "take_profit") (get_field "take_profit" fs)
      trailing_stop ← if_given (distance "trailing_stop") (get_field "trailing_stop" fs)
      trail_after ← if_given (distance "trail_after") (get_field "trail_after" fs)
      need (not (has_kind "r_multiple" take_profit) || is_present stop_loss)
      need (not (has_kind "r_multiple" trail_after) || is_present stop_loss)
      need (not (is_present trail_after) || is_present trailing_stop)
      when ← if_given exit_when (get_field "exit_when" fs)
      pure (
          object (
            join (optional_field "after_bars" after_bars) (
              join (optional_field "at_time" at_time) (
                field "on_opposite_signal" (boolean opposite) (
                  join (optional_field "stop_loss" stop_loss) (
                    join (optional_field "take_profit" take_profit) (
                      join (optional_field "trailing_stop" trailing_stop) (
                        join (optional_field "trail_after" trail_after)
                          (optional_field "exit_when" when)))))))))
