-- ===== src/RuleLanguage/Series.antt =====
-- `series` and `atr_series` of `_Validator`.
use quant_factory.Prelude.{
  ℕ, zero, suc, ◌-◌, Bool, false, Option, none, some, List, [], ◌∷◌, ◌++◌, String, ltb, nat_eq,
  string_eq, ◌==◌, if◌then◌else◌,
}
use quant_factory.Python.Json.{
  Json, array, object, boolean, number, negative, fraction, text, nil, item, Fields, end, field,
  get_field,
}
use quant_factory.RuleLanguage.Checked.{
  Checked, ok, err, invalid, out_of_fuel, need, pure, ◌>>=◌, ◌>>◌,
}
use quant_factory.RuleLanguage.Nodes.{is_member, object_with, item_of, flag_of, pair, operator_of}
use quant_factory.RuleLanguage.Parameters.{Floats, number_of, finite_integer, count, param}
use quant_factory.RuleLanguage.Clock.{
  Bar, clock, minutes_of, session_open_minutes, session_close_minutes,
}
use quant_factory.RuleLanguage.Indicators.{
  join, Library, indicators, indicator_operators, entry, indicator, library_node, max_window,
  is_empty_mapping,
}

abbrev price_fields : List String
price_fields = "open" ∷ "high" ∷ "low" ∷ "close" ∷ "volume" ∷ []

abbrev pub binary_operators : List String
binary_operators = "add" ∷ "sub" ∷ "mul" ∷ "div" ∷ []

abbrev pub unary_operators : List String
unary_operators = "abs" ∷ "sign" ∷ "neg" ∷ "ticks" ∷ "change" ∷ "pct_change" ∷ "same_sign_run" ∷ []

abbrev pub rolling_operators : List String
rolling_operators = "sma" ∷ "ema" ∷ "median" ∷ "max" ∷ "min" ∷ "std" ∷ "sum" ∷ []

abbrev pub session_operators : List String
session_operators = "vwap" ∷ "session_open" ∷ "bar_index" ∷ []

abbrev range_operators : List String
range_operators = "range_high" ∷ "range_low" ∷ []

abbrev pub series_operators : List String
series_operators =
    "param"
    ∷ (binary_operators
        ++ (unary_operators
            ++ ("prev"
                ∷ (rolling_operators
                    ++ ("atr"
                        ∷ (session_operators
                            ++ ("value_at"
                                ∷ (range_operators
                                    ++ (indicator_operators ++ ("indicator" ∷ []))))))))))

abbrev atr_smoothings : List String
atr_smoothings = "sma" ∷ "wilder" ∷ []

abbrev is_smoothing : Json → Bool
is_smoothing (text s) = is_member s atr_smoothings
is_smoothing _ = false

-- `result["smoothing"] = atr["smoothing"]`, and likewise the flag, where the key is given
unfoldable pub smoothing_of : Option Json → Checked Fields
smoothing_of none = ok end []
smoothing_of (some v) = do need (is_smoothing v); pure (field "smoothing" v end)

abbrev pub flag_if_given : Option Json → Bool → Fields
flag_if_given none across = end
flag_if_given (some _) across = field "across_sessions" (boolean across) end

abbrev least_length : String → ℕ
least_length operator = if operator == "std" then 2 else 1

module _ (floats : Floats) (variables : Fields) (bar : Bar) where
  -- `atr_series`
  unfoldable pub atr_series : Json → Checked Json
  atr_series value = do
    atr ← object_with ("length" ∷ []) ("smoothing" ∷ "across_sessions" ∷ []) value
    across ← flag_of (get_field "across_sessions" atr)
    given ← item_of "length" atr
    length ← count floats variables 1 (max_window bar across) given
    smoothing ← smoothing_of (get_field "smoothing" atr)
    pure (
        object (
          field "length" length
            (join smoothing (flag_if_given (get_field "across_sessions" atr) across))))

  unfoldable pub range_window : String → Json → Checked Json
  range_window operator value = do
    window ← object_with ("from" ∷ "to" ∷ []) [] value
    from ← item_of "from" window
    start ← clock session_open_minutes bar.last_exit bar.step from
    to ← item_of "to" window
    end_of ← clock bar.first_end session_close_minutes bar.step to
    need (ltb (minutes_of start) (minutes_of end_of))
    pure (
        object
          (field operator (object (field "from" (text start) (field "to" (text end_of) end))) end))

  module _ (series : Json → Checked Json) where
    unfoldable pub prev_node : Fields → Json → Checked Json
    prev_node fs value = do
      object_with ("prev" ∷ "bars" ∷ []) [] (object fs)
      checked ← series value
      given ← item_of "bars" fs
      bars ← count floats variables 1 (bar.bars_per_session - 1) given
      pure (object (field "prev" checked (field "bars" bars end)))

    unfoldable pub rolling_node : String → Fields → Json → Checked Json
    rolling_node operator fs value = do
      object_with (operator ∷ "length" ∷ []) ("across_sessions" ∷ []) (object fs)
      across ← flag_of (get_field "across_sessions" fs)
      given ← item_of "length" fs
      length ← count floats variables (least_length operator) (max_window bar across) given
      checked ← series value
      pure (
          object (
            field operator checked
              (field "length" length (field "across_sessions" (boolean across) end))))

    unfoldable pub value_at_node : Fields → Json → Checked Json
    value_at_node fs value = do
      object_with ("value_at" ∷ "time" ∷ []) [] (object fs)
      given ← item_of "time" fs
      time ← clock bar.first_end session_close_minutes bar.step given
      checked ← series value
      pure (object (field "value_at" checked (field "time" (text time) end)))

    unfoldable pub param_series : Json → Checked Json
    param_series value = do
      name ← param floats variables number_of value
      pure (object (field "param" (text name) end))

    unfoldable pub binary_node : String → Json → Checked Json
    binary_node operator value = do
      (left, right) ← pair value
      first ← series left
      second ← series right
      pure (object (field operator (array (item first (item second nil))) end))

    unfoldable pub unary_node : String → Json → Checked Json
    unary_node operator value = do
      checked ← series value
      pure (object (field operator checked end))

    unfoldable pub atr_node : Json → Checked Json
    atr_node value = do atr ← atr_series value; pure (object (field "atr" atr end))

    unfoldable pub session_node : String → Json → Checked Json
    session_node operator value = do
      need (is_empty_mapping value)
      pure (object (field operator (object end) end))

    -- the operators that stand alone in their object
    unfoldable pub single_node : String → Json → Checked Json
    single_node operator value =
        if operator == "param"
        then param_series value
        else if is_member operator binary_operators
        then binary_node operator value
        else if is_member operator unary_operators
        then unary_node operator value
        else if operator == "atr"
        then atr_node value
        else if is_member operator session_operators
        then session_node operator value
        else range_window operator value

    -- an indicator of the catalogue, or another operator of its own
    unfoldable pub other_node : Library → String → Fields → Json → Checked Json
    other_node library operator fs value = elim (entry operator indicators) [
      | some spec ↦ indicator floats variables bar series operator spec (object fs)
      | none ↦
          if operator == "indicator"
          then library_node floats variables bar series library (object fs)
          else (object_with (operator ∷ []) [] (object fs) >> single_node operator value)
    ]

    unfoldable pub series_by : Library → String → Fields → Json → Checked Json
    series_by library operator fs value =
        if operator == "prev"
        then prev_node fs value
        else if is_member operator rolling_operators
        then rolling_node operator fs value
        else if operator == "value_at"
        then value_at_node fs value
        else other_node library operator fs value

    -- `series` of an object
    unfoldable pub series_node : Library → Fields → Checked Json
    series_node library fs = do
      operator ← operator_of series_operators (object fs)
      value ← item_of operator fs
      series_by library operator fs value

  -- `series`
  unfoldable pub series : Library → (fuel : ℕ) → Json → Checked Json
  series library zero node = err out_of_fuel
  series library (suc fuel) (number n) = do finite ← finite_integer n; need finite; pure (number n)
  series library (suc fuel) (negative n) = do
    finite ← finite_integer n
    need finite
    pure (negative n)
  series library (suc fuel) (fraction s) = do need (floats.is_finite s); pure (fraction s)
  series library (suc fuel) (text s) = do need (is_member s price_fields); pure (text s)
  series library (suc fuel) (object fs) = series_node (series library fuel) library fs
  series library (suc fuel) _ = err invalid
