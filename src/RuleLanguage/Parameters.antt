-- ===== src/RuleLanguage/Parameters.antt =====
-- `_is_number`, `_is_count`, `_is_amount`, and `number`, `count`, `amount` and `param` of `_Validator`.
use quant_factory.Prelude.{
  ℕ, ◌-◌, Bool, true, false, not, ◌&&◌, ◌||◌, Option, none, some, [], ◌∷◌, String, leb, ltb,
  string_eq, ◌==◌, if◌then◌else◌,
}
use Prim.Native.Nat.{◌^◌}
use quant_factory.Python.Json.{
  Json, object, number, negative, fraction, text, Items, nil, item, Fields, end, field, get_field,
}
use quant_factory.RuleLanguage.Checked.{
  Checked, ok, err, invalid, overflow, need, need_some, pure, ◌>>=◌, ◌>>◌,
}
use quant_factory.RuleLanguage.Nodes.{is_nil, mapping, sequence, object_with, item_of}

-- A float of a spec is kept by its text. These are Python's tests of it: `math.isfinite(x)`,
-- `x > 0`, `x < limit`, and `float(a) == float(b)` of two numbers.
pub record Floats : Type 0 where
  pub is_finite : String → Bool
  pub is_positive : String → Bool
  pub is_below : String → (limit : ℕ) → Bool
  pub is_same : Json → Json → Bool

abbrev pub max_window_bars : ℕ
max_window_bars = 20000

-- The least integer that rounds to no float: `math.isfinite` raises `OverflowError` from here on.
unfoldable pub float_limit : ℕ
float_limit = 2 ^ 1024 - 2 ^ 970

-- What a value of a variable is used for, with its bounds.
pub data Kind : Type 0 where
  count_of : (minimum maximum : ℕ) → Kind
  amount_of : (maximum : Option ℕ) → Kind
  number_of : Kind

unfoldable pub finite_integer : ℕ → Checked Bool
finite_integer n = if ltb n float_limit then pure true else err overflow

-- `_is_count`
unfoldable pub is_count : Json → (minimum maximum : ℕ) → Bool
is_count (number n) minimum maximum = leb minimum n && leb n maximum
is_count _ minimum maximum = false

abbrev under : Option ℕ → (ℕ → Bool) → Bool
under none test = true
under (some limit) test = test limit

module _ (floats : Floats) where
  -- `_is_number`
  unfoldable pub is_number : Json → Checked Bool
  is_number (number n) = finite_integer n
  is_number (negative n) = finite_integer n
  is_number (fraction s) = pure (floats.is_finite s)
  is_number _ = pure false

  -- `value > 0 and (maximum is None or value < maximum)` of a number
  unfoldable pub is_within_amount : Json → (maximum : Option ℕ) → Bool
  is_within_amount (number n) maximum = ltb 0 n && under maximum (λ limit. ltb n limit)
  is_within_amount (fraction s) maximum =
      floats.is_positive s && under maximum (λ limit. floats.is_below s limit)
  is_within_amount _ maximum = false

  -- `_is_amount`
  unfoldable pub is_amount : Json → (maximum : Option ℕ) → Checked Bool
  is_amount value maximum = do
    finite ← is_number value
    pure (finite && is_within_amount value maximum)

  -- the test of one value of a variable
  unfoldable pub is_usable : Kind → Json → Checked Bool
  is_usable (count_of minimum maximum) value = pure (is_count value minimum maximum)
  is_usable (amount_of maximum) value = is_amount value maximum
  is_usable number_of value = is_number value

  unfoldable pub check_values : Kind → Items → Checked (Unit {0})
  check_values kind nil = pure tt
  check_values kind (item value rest) = do
    usable ← is_usable kind value
    need usable
    check_values kind rest

  abbrev has_equal : Json → Items → Bool
  has_equal value nil = false
  has_equal value (item other rest) = floats.is_same value other || has_equal value rest

  -- `len({float(value) for value in values}) == len(values)`
  unfoldable pub is_distinct : Items → Bool
  is_distinct nil = true
  is_distinct (item value rest) = not (has_equal value rest) && is_distinct rest

  module _ (variables : Fields) where
    -- `param`: a value that is no name, the empty name and an undeclared one are refused.
    unfoldable pub param : Kind → Json → Checked String
    param kind (text name) = do
      need (not (name == ""))
      definition ← need_some (get_field name variables)
      fs ← mapping definition
      values ← item_of "values" fs
      xs ← sequence values
      need (not (is_nil xs))
      check_values kind xs
      need (is_distinct xs)
      ok name (name ∷ [])
    param kind _ = err invalid

    -- `{"param": self.param(node["param"], ...)}` of a mapping
    unfoldable pub param_node : Kind → Json → Checked Json
    param_node kind node = do
      fs ← object_with ("param" ∷ []) [] node
      value ← item_of "param" fs
      name ← param kind value
      pure (object (field "param" (text name) end))

    unfoldable pub number_node : Json → Checked Json
    number_node (object fs) = param_node number_of (object fs)
    number_node node = do finite ← is_number node; need finite; pure node

    unfoldable pub count : (minimum maximum : ℕ) → Json → Checked Json
    count minimum maximum (object fs) = param_node (count_of minimum maximum) (object fs)
    count minimum maximum node = do need (is_count node minimum maximum); pure node

    unfoldable pub amount : (maximum : Option ℕ) → Json → Checked Json
    amount maximum (object fs) = param_node (amount_of maximum) (object fs)
    amount maximum node = do usable ← is_amount node maximum; need usable; pure node
