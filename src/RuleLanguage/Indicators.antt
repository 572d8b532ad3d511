-- ===== src/RuleLanguage/Indicators.antt =====
-- rule_language/indicators.py: the catalogue, and `indicator` and `library_indicator` of `_Validator`.
use quant_factory.Prelude.{
  ℕ, Bool, true, false, not, ◌&&◌, ◌||◌, Option, none, some, List, [], ◌∷◌, ◌++◌, String, all,
  nat_eq, string_eq, ◌==◌, if◌then◌else◌,
}
use quant_factory.Python.Json.{Json, null, object, boolean, text, Fields, end, field, get_field}
use quant_factory.RuleLanguage.Checked.{Checked, need, need_some, pure, ◌>>=◌, ◌>>◌}
use quant_factory.RuleLanguage.Nodes.{is_member, object_with, item_of, flag_of}
use quant_factory.RuleLanguage.Parameters.{Floats, count, amount, number_node, max_window_bars}
use quant_factory.RuleLanguage.Clock.{Bar, codes}

-- The kind of a parameter of a named operator: a count with its minimum, or an amount.
pub data ParamKind : Type 0 where
  a_count : (minimum : ℕ) → ParamKind
  an_amount : ParamKind

-- What the validation reads of an `IndicatorSpec`.
pub record IndicatorSpec : Type 0 where
  pub takes_series : Bool
  pub params : List (String × ParamKind)
  pub outputs : List String

abbrev indicator_spec : Bool → List (String × ParamKind) → List String → IndicatorSpec
indicator_spec takes_series params outputs = record {
  takes_series = takes_series;
  params = params;
  outputs = outputs;
}

-- `INDICATORS`
abbrev pub indicators : List (String × IndicatorSpec)
indicators =
    ("rsi", indicator_spec true (("length", a_count 2) ∷ []) [])
    ∷ ("roc", indicator_spec true (("length", a_count 1) ∷ []) [])
    ∷ (
      "macd",
      indicator_spec true (("fast", a_count 1) ∷ ("slow", a_count 1) ∷ ("signal", a_count 1) ∷ [])
          ("line" ∷ "signal" ∷ "histogram" ∷ []),
    )
    ∷ (
      "bollinger",
      indicator_spec true (("length", a_count 2) ∷ ("std_mult", an_amount) ∷ [])
          ("upper" ∷ "middle" ∷ "lower" ∷ "percent_b" ∷ "bandwidth" ∷ []),
    )
    ∷ (
      "stochastic",
      indicator_spec false
          (("k_length", a_count 1) ∷ ("k_smooth", a_count 1) ∷ ("d_length", a_count 1) ∷ [])
          ("k" ∷ "d" ∷ []),
    )
    ∷ (
      "adx",
      indicator_spec false (("length", a_count 2) ∷ []) ("adx" ∷ "plus_di" ∷ "minus_di" ∷ []),
    )
    ∷ ("cci", indicator_spec false (("length", a_count 2) ∷ []) [])
    ∷ ("williams_r", indicator_spec false (("length", a_count 1) ∷ []) [])
    ∷ ("obv", indicator_spec false [] [])
    ∷ (
      "keltner",
      indicator_spec false
          (("length", a_count 1) ∷ ("atr_length", a_count 1) ∷ ("mult", an_amount) ∷ [])
          ("upper" ∷ "middle" ∷ "lower" ∷ []),
    )
    ∷ (
      "donchian",
      indicator_spec false (("length", a_count 1) ∷ []) ("upper" ∷ "lower" ∷ "middle" ∷ []),
    )
    ∷ []

module _ {A : Type 0} where
  -- `table.get(key)`
  abbrev pub entry : String → List (String × A) → Option A
  entry key [] = none
  entry key ((name, value) ∷ rest) = if name == key then some value else entry key rest

  abbrev names : List (String × A) → List String
  names [] = []
  names ((name, value) ∷ rest) = name ∷ names rest

-- `INDICATOR_OPERATORS`
abbrev pub indicator_operators : List String
indicator_operators = names indicators

abbrev max_multiplier : ℕ
max_multiplier = 20

-- A library indicator as its metadata declares it; `true` marks a parameter that is a count.
pub record LibraryIndicator : Type 0 where
  pub inputs : List String
  pub params : List (String × Bool)
  pub outputs : List String

abbrev pub price_inputs : List String
price_inputs = "open" ∷ "high" ∷ "low" ∷ "close" ∷ "volume" ∷ []

-- The default of a parameter of a library class: an integer, a finite float, or anything else.
pub data Default : Type 0 where
  an_integer a_finite_float another : Default

abbrev is_none_given : List String → Bool
is_none_given [] = true
is_none_given (_ ∷ _) = false

-- A class of VectorBT PRO, as its metadata declares it; a parameter may have no default.
pub record IndicatorClass : Type 0 where
  pub is_of_indicators : Bool
  pub input_names : List String
  pub param_defaults : List (String × Option Default)
  pub output_names : List String

-- The installed package: the class of each name that it lists. `none` where it is not installed.
abbrev pub Library : Type 0
Library = Option (String → Option IndicatorClass)

-- `_param_kind`
abbrev param_kind : Option Default → Option Bool
param_kind (some an_integer) = some true
param_kind (some a_finite_float) = some false
param_kind _ = none

abbrev param_kinds : List (String × Option Default) → List (String × Bool)
param_kinds [] = []
param_kinds ((key, default) ∷ rest) = elim (param_kind default) [
  | none ↦ param_kinds rest
  | some is_count ↦ (key, is_count) ∷ param_kinds rest
]

abbrev has_default : String × Option Default → Bool
has_default (key, none) = false
has_default (key, some _) = true

abbrev starts_with : List ℕ → List ℕ → Bool
starts_with [] codes = true
starts_with (a ∷ prefix) [] = false
starts_with (a ∷ prefix) (b ∷ codes) = a == b && starts_with prefix codes

-- the conditions of `library_indicator` on a class
abbrev pub is_usable_class : String → IndicatorClass → Bool
is_usable_class name cls =
    (cls.is_of_indicators || not (starts_with (codes "vbt:") (codes name)))
    && not (is_none_given cls.input_names)
    && all (λ key. is_member key price_inputs) cls.input_names
    && all has_default cls.param_defaults

unfoldable pub usable_class : String → IndicatorClass → Option LibraryIndicator
usable_class name cls =
    if is_usable_class name cls
    then some (record {
      inputs = cls.input_names;
      params = param_kinds cls.param_defaults;
      outputs = cls.output_names;
    })
    else none

-- `name.startswith(LIBRARY_FAMILIES)`, and `name not in UNUSABLE`
abbrev pub is_usable_name : String → Bool
is_usable_name name =
    (starts_with (codes "vbt:") (codes name) || starts_with (codes "talib:") (codes name))
    && not (name == "vbt:VWAP")

abbrev pub class_found : String → Option IndicatorClass → Option LibraryIndicator
class_found name none = none
class_found name (some cls) = usable_class name cls

-- `library_indicator`
unfoldable pub library_indicator : Library → String → Option LibraryIndicator
library_indicator none name = none
library_indicator (some find) name =
    if is_usable_name name then class_found name (find name) else none

-- `library_indicator(name) if isinstance(name, str) else None`
abbrev pub library_spec : Library → Json → Option LibraryIndicator
library_spec library (text name) = library_indicator library name
library_spec library _ = none

-- `("output",) if spec.outputs else ()`
abbrev output_key : List String → List String
output_key [] = []
output_key (_ ∷ _) = "output" ∷ []

-- `output in outputs`
abbrev pub is_output : Json → List String → Bool
is_output (text s) outputs = is_member s outputs
is_output _ outputs = false

-- `spec.outputs[0] if len(spec.outputs) == 1 else None`
abbrev only_output : List String → Json
only_output (output ∷ []) = text output
only_output _ = null

abbrev pub value_or : Json → Option Json → Json
value_or default none = default
value_or default (some v) = v

abbrev pub is_empty_mapping : Json → Bool
is_empty_mapping (object end) = true
is_empty_mapping _ = false

-- the fields of the one after those of the other
abbrev pub join : Fields → Fields → Fields
join end gs = gs
join (field k v fs) gs = field k v (join fs gs)

abbrev pub max_window : Bar → (across : Bool) → ℕ
max_window bar across = if across then max_window_bars else bar.bars_per_session

module _ (floats : Floats) (variables : Fields) (bar : Bar) (series : Json → Checked Json) where
  abbrev pub param_value : ParamKind → (across : Bool) → Json → Checked Json
  param_value (a_count minimum) across value =
      count floats variables minimum (max_window bar across) value
  param_value an_amount across value = amount floats variables (some max_multiplier) value

  -- the loop over `spec.params`
  unfoldable pub indicator_params :
      List (String × ParamKind) → (across : Bool) → Fields → Checked Fields
  indicator_params [] across fs = pure end
  indicator_params ((key, kind) ∷ rest) across fs = do
    value ← item_of key fs
    checked ← param_value kind across value
    others ← indicator_params rest across fs
    pure (field key checked others)

  -- the operand: a series, or `{}`
  unfoldable pub operand : (takes_series : Bool) → Json → Checked Json
  operand true value = series value
  operand false value = do need (is_empty_mapping value); pure (object end)

  -- the choice of an output, where there is one
  unfoldable pub indicator_output : List String → Fields → Checked Fields
  indicator_output [] fs = pure end
  indicator_output (first ∷ rest) fs = do
    output ← item_of "output" fs
    need (is_output output (first ∷ rest))
    pure (field "output" output end)

  -- `indicator`
  unfoldable pub indicator : String → IndicatorSpec → Json → Checked Json
  indicator operator spec node = do
    fs ←
        object_with (operator ∷ (names spec.params ++ output_key spec.outputs))
          ("across_sessions" ∷ []) node
    across ← flag_of (get_field "across_sessions" fs)
    value ← item_of operator fs
    checked ← operand spec.takes_series value
    params ← indicator_params spec.params across fs
    output ← indicator_output spec.outputs fs
    pure (
        object
          (field operator checked (join params (field "across_sessions" (boolean across) output))))

  abbrev pub library_value : (is_count : Bool) → (across : Bool) → Json → Checked Json
  library_value true across value = count floats variables 0 (max_window bar across) value
  library_value false across value = number_node floats variables value

  unfoldable pub library_params : List (String × Bool) → (across : Bool) → Fields → Checked Fields
  library_params [] across fs = pure end
  library_params ((key, is_count) ∷ rest) across fs = do
    value ← item_of key fs
    checked ← library_value is_count across value
    others ← library_params rest across fs
    pure (field key checked others)

  -- the series of the inputs that are given, in the order of the library
  unfoldable pub library_inputs : List String → Fields → Checked Fields
  library_inputs [] fs = pure end
  library_inputs (key ∷ rest) fs = elim (get_field key fs) [
    | none ↦ library_inputs rest fs
    | some value ↦ do
      checked ← series value
      others ← library_inputs rest fs
      pure (field key checked others)
  ]

  -- `library_indicator` of `_Validator`
  unfoldable pub library_node : Library → Json → Checked Json
  library_node library node = do
    fs ←
        object_with ("indicator" ∷ "params" ∷ []) ("inputs" ∷ "output" ∷ "across_sessions" ∷ [])
          node
    name ← item_of "indicator" fs
    spec ← need_some (library_spec library name)
    across ← flag_of (get_field "across_sessions" fs)
    given ← item_of "params" fs
    params ← object_with (names spec.params) [] given
    checked_params ← library_params spec.params across params
    inputs ← object_with [] spec.inputs (value_or (object end) (get_field "inputs" fs))
    checked_inputs ← library_inputs spec.inputs inputs
    let output = value_or (only_output spec.outputs) (get_field "output" fs)
    need (is_output output spec.outputs)
    pure (
        object (
          field "indicator" name (
            field "params" (object checked_params) (
              field "inputs" (object checked_inputs)
                (field "output" output (field "across_sessions" (boolean across) end))))))
