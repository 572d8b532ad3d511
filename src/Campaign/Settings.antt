-- ===== src/Campaign/Settings.antt =====
-- orchestration/auto_campaign.py with rule_language/validation.py: the settings of an accepted spec.
use native.Mathlib.Nat.{mul_left_comm}
use quant_factory.Prelude.{
  suc, ◌*◌, ◌≤◌, Bool, true, false, ◌&&◌, Option, none, some, List, [], ◌∷◌, map, length, String,
  Bool-cases, inl, inr, ◌≡◌, refl, ap, ◌∙◌, arith, &&-parts,
}
use quant_factory.Python.{ok, or_raise, key_error}
use quant_factory.Python.Json.{
  Json, null, boolean, number, negative, fraction, text, array, object, Items, nil, item, Fields,
  end, field, get_field,
}
use quant_factory.RuleLanguage.Checked.{Checked}
use quant_factory.RuleLanguage.Parameters.{Floats}
use quant_factory.RuleLanguage.Indicators.{Library}
use quant_factory.RuleLanguage.Nodes.{keys}
use quant_factory.RuleLanguage.Specs.{
  value_count, length_of, definition_count, combinations, variables_of, validate_rule_spec,
  max_variable_grid,
}
use quant_factory.RuleLanguage.Tracking.{validate_rule_spec-params}
use quant_factory.Strategies.Products.{product, number_of, length-product}
use quant_factory.Chunking.Positions.{length-map}
use quant_factory.Python.Raising.{◌>>=◌}
use quant_factory.Campaign.Combinations.{
  list_of, text_leb, insert_field, sorted_fields, to_list, values_of, all_values, zip_fields,
  parameter_combinations,
}

abbrev is_array : Option Json → Bool
is_array (some (array xs)) = true
is_array _ = false

abbrev has_list : Json → Bool
has_list (object fs) = is_array (get_field "values" fs)
has_list _ = false

-- Every variable is defined by an object with a list of values.
abbrev have_lists : Fields → Bool
have_lists end = true
have_lists (field k v fs) = has_list v && have_lists fs

length-to_list : (xs : Items) → length (to_list xs) ≡ length_of xs
length-to_list nil = refl
length-to_list (item x xs) = ap suc (length-to_list xs)

list_of-length :
    (o : Option Json)
    → is_array o ≡ true
    → (values : List Json) × ((or_raise o key_error >>= list_of) ≡ ok values)
      × (length values ≡ value_count o)
list_of-length (some (array xs)) h = (to_list xs, refl, length-to_list xs)
list_of-length none h = absurd (cc h)
list_of-length (some null) h = absurd (cc h)
list_of-length (some (boolean b)) h = absurd (cc h)
list_of-length (some (number n)) h = absurd (cc h)
list_of-length (some (negative n)) h = absurd (cc h)
list_of-length (some (fraction s)) h = absurd (cc h)
list_of-length (some (text s)) h = absurd (cc h)
list_of-length (some (object fs)) h = absurd (cc h)

&&-swap : (a b c : Bool) → (a && (b && c)) ≡ (b && (a && c))
&&-swap true b c = refl
&&-swap false true c = refl
&&-swap false false c = refl

values_of-length :
    (v : Json)
    → has_list v ≡ true
    → (values : List Json) × (values_of v ≡ ok values) × (length values ≡ definition_count v)
values_of-length (object fs) h = list_of-length (get_field "values" fs) h
values_of-length null h = absurd (cc h)
values_of-length (boolean b) h = absurd (cc h)
values_of-length (number n) h = absurd (cc h)
values_of-length (negative n) h = absurd (cc h)
values_of-length (fraction s) h = absurd (cc h)
values_of-length (text s) h = absurd (cc h)
values_of-length (array xs) h = absurd (cc h)

have_lists-insert_field :
    (k : String) (v : Json) (fs : Fields)
    → have_lists (insert_field k v fs) ≡ (has_list v && have_lists fs)
have_lists-insert_field k v end = refl
have_lists-insert_field k v (field j w fs) = elim (Bool-cases (text_leb k j)) [
  | inl before ↦ rw before refl
  | inr after ↦
      rw (after, have_lists-insert_field k v fs) (&&-swap (has_list w) (has_list v) (have_lists fs))
]

have_lists-sorted_fields : (fs : Fields) → have_lists (sorted_fields fs) ≡ have_lists fs
unfolding sorted_fields
have_lists-sorted_fields end = refl
have_lists-sorted_fields (field k v fs) =
    have_lists-insert_field k v (sorted_fields fs)
    ∙ ap (λ b. has_list v && b) (have_lists-sorted_fields fs)

combinations-insert_field :
    (k : String) (v : Json) (fs : Fields)
    → combinations (insert_field k v fs) ≡ definition_count v * combinations fs
unfolding combinations
combinations-insert_field k v end = refl
combinations-insert_field k v (field j w fs) = elim (Bool-cases (text_leb k j)) [
  | inl before ↦ rw before refl
  | inr after ↦
      rw (after, combinations-insert_field k v fs)
        (mul_left_comm (definition_count w) (definition_count v) (combinations fs))
]

combinations-sorted_fields : (fs : Fields) → combinations (sorted_fields fs) ≡ combinations fs
unfolding sorted_fields combinations
combinations-sorted_fields end = refl
combinations-sorted_fields (field k v fs) =
    combinations-insert_field k v (sorted_fields fs)
    ∙ ap (λ n. definition_count v * n) (combinations-sorted_fields fs)

all_values-number_of :
    (fs : Fields)
    → have_lists fs ≡ true
    → (values : List (List Json)) × (all_values fs ≡ ok values)
      × (number_of values ≡ combinations fs)
unfolding all_values combinations
all_values-number_of end h = ([], refl, refl)
all_values-number_of (field k v fs) h =
    let (first, rest) = &&-parts (has_list v) (have_lists fs) h in
    let (values, found, counted) = values_of-length v first in
    let (others, found', counted') = all_values-number_of fs rest in
    (values ∷ others, rw (found, found') refl, rw (counted, counted') refl)

-- Where a spec is accepted with some variables, each defined by a list of values, the test of its
-- strategy gets settings: as many as the product of the numbers of values, and at most 100.
pub parameter_combinations-bounded :
    (floats : Floats) (library : Library) (node given normalized : Json) (used : List String)
    (variables : Fields)
    → validate_rule_spec floats library node given ≡ Checked.ok normalized used
    → variables_of given ≡ Checked.ok variables []
    → have_lists variables ≡ true
    → (settings : List Fields) × (parameter_combinations variables ≡ ok settings)
      × (length settings ≡ combinations variables)
      × (length settings ≤ max_variable_grid)
unfolding parameter_combinations
parameter_combinations-bounded floats library node given normalized used variables accepted same
      lists =
    let (_, small) =
      validate_rule_spec-params floats library node given normalized used variables accepted same in
    let (values, found, counted) =
      all_values-number_of (sorted_fields variables) (have_lists-sorted_fields variables ∙ lists) in
    let settings = map (zip_fields (keys (sorted_fields variables))) (product values) in
    let number : length settings ≡ combinations variables =
      length-map (zip_fields (keys (sorted_fields variables))) (product values)
      ∙ length-product values
      ∙ counted
      ∙ combinations-sorted_fields variables in
    (settings, rw found refl, number, omega (arith, number, small))
