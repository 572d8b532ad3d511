-- ===== src/RuleLanguage/Catalogue.antt =====
-- Indicators: the variables that they use.
use quant_factory.Prelude.{
  sym, ap, Option-cases, ℕ, ◌≤◌, Bool, true, false, Option, none, some, List, [], ◌∷◌, ◌++◌, ◌≡◌,
  refl, arith, String, string_eq, ◌==◌, Bool-cases, inl, inr, all, All,
}
use quant_factory.Python.Json.{Json, object, boolean, text, Fields, end, field, get_field}
use quant_factory.RuleLanguage.Checked.{
  Checked, Ensures, Ensures-need, Ensures-some, Ensures-ok, Ensures-bind,
}
use quant_factory.RuleLanguage.Nodes.{is_member}
use quant_factory.RuleLanguage.Clock.{Bar}
use quant_factory.RuleLanguage.Parameters.{Floats}
use quant_factory.RuleLanguage.Indicators.{
  value_or, usable_class, class_found, is_usable_name, library_spec, is_usable_class,
  library_indicator, IndicatorClass, is_output, ParamKind, a_count, an_amount, IndicatorSpec,
  param_value, indicator_params, operand, indicator_output, indicator, library_value,
  library_params, library_inputs, library_node, price_inputs, Library, LibraryIndicator,
}
use mathlib.Core.List.{append-nil}
use quant_factory.RuleLanguage.Rules.{Ensures-object, Ensures-item, Ensures-flag, Ensures-plain}
use quant_factory.RuleLanguage.Names.{
  count-TracksValue, amount-TracksValue, number_node-Tracks, TracksValue,
}
use quant_factory.RuleLanguage.Variables.{
  params-join, Tracks, TracksFields, Refers-nil, Refers-append, not_param, params, params_fields,
  name_at,
}
use quant_factory.RuleLanguage.Depth.{depth, depth_fields, depth-get_field}

-- A part of a node, where the node's own fields have been read again.
below-object :
    (fs gs : Fields) (limit : ℕ) (v : Json)
    → object fs ≡ object gs
    → depth_fields fs ≤ limit
    → depth v ≤ depth_fields gs
    → depth v ≤ limit
below-object fs gs limit v same le below =
    let e : fs ≡ gs = cc same in omega (arith, ap depth_fields e)

-- The mapping of a key that may be missing lies below the node.
optional-below :
    (key : String) (gs inputs : Fields) (limit : ℕ)
    → value_or (object end) (get_field key gs) ≡ object inputs
    → depth_fields gs ≤ limit
    → depth_fields inputs ≤ limit
unfolding depth
optional-below key gs inputs limit same le = elim (Option-cases (get_field key gs)) [
  | inl missing ↦ let e : end ≡ inputs = cc (rw missing at same) in omega (arith, ap depth_fields e)
  | inr (v, found) ↦
      let e : v ≡ object inputs = rw found at same in
      omega (arith, ap depth e, depth-get_field key gs v found)
]

is_output-params :
    (output : Json) (outputs : List String) → is_output output outputs ≡ true → params output ≡ []
unfolding params
is_output-params (text s) outputs h = refl
is_output-params v outputs h = absurd (cc h)

-- An input of a library indicator is a price field.
abbrev ArePrices : List String → Type 0
ArePrices keys = All (λ key. is_member key price_inputs ≡ true) keys

all-All :
    (keys : List String) → all (λ key. is_member key price_inputs) keys ≡ true → ArePrices keys
all-All [] h = tt
all-All (key ∷ rest) h = ground (arith, all-All rest)

-- A usable library indicator reads price fields alone.
usable_class-ArePrices :
    (name : String) (cls : IndicatorClass) (spec : LibraryIndicator)
    → usable_class name cls ≡ some spec
    → ArePrices spec.inputs
unfolding usable_class
usable_class-ArePrices name cls spec h = elim (Bool-cases (is_usable_class name cls)) [
  | inl usable ↦
      let same : cls.input_names ≡ spec.inputs = ground arith in
      rw (sym same) (all-All cls.input_names (ground arith))
  | inr other ↦ absurd (ground arith)
]

class_found-ArePrices :
    (name : String) (o : Option IndicatorClass) (spec : LibraryIndicator)
    → class_found name o ≡ some spec
    → ArePrices spec.inputs
class_found-ArePrices name none spec h = cc
class_found-ArePrices name (some cls) spec h = usable_class-ArePrices name cls spec h

library_indicator-ArePrices :
    (library : Library) (name : String) (spec : LibraryIndicator)
    → library_indicator library name ≡ some spec
    → ArePrices spec.inputs
unfolding library_indicator
library_indicator-ArePrices none name spec h = cc
library_indicator-ArePrices (some find) name spec h = elim (Bool-cases (is_usable_name name)) [
  | inl usable ↦ class_found-ArePrices name (find name) spec (rw usable at h)
  | inr other ↦ absurd (cc (rw other at h))
]

library_spec-known :
    (library : Library) (name : Json) (spec : LibraryIndicator)
    → library_spec library name ≡ some spec
    → (params name ≡ []) × ArePrices spec.inputs
unfolding params
library_spec-known library (text name) spec h =
    (refl, library_indicator-ArePrices library name spec h)
library_spec-known library v spec h = absurd (cc h)

module _ (floats : Floats) (variables : Fields) (bar : Bar) (series : Json → Checked Json) where
  -- A value that is no text adds its own variables, under whatever key.
  field-Tracks :
      (key : String) (v : Json) (fs : Fields) (us vs : List String)
      → name_at v ≡ []
      → Tracks variables v us
      → TracksFields variables fs vs
      → TracksFields variables (field key v fs) (us ++ vs)
  unfolding params
  field-Tracks key v fs us vs plain h k = elim (Bool-cases (key == "param")) [
    | inl is ↦ rw is (rw plain (Refers-append variables _ _ _ _ h k))
    | inr other ↦ rw other (Refers-append variables _ _ _ _ h k)
  ]

  param_value-Tracks :
      (kind : ParamKind) (across : Bool) (v : Json)
      → Ensures
          (TracksValue floats variables)
          (param_value floats variables bar series kind across v)
  param_value-Tracks (a_count minimum) across v = count-TracksValue floats variables minimum _ v
  param_value-Tracks an_amount across v = amount-TracksValue floats variables _ v

  indicator_params-Tracks :
      (specs : List (String × ParamKind)) (across : Bool) (fs : Fields)
      → Ensures
          (TracksFields variables)
          (indicator_params floats variables bar series specs across fs)
  unfolding indicator_params params
  indicator_params-Tracks [] across fs = Ensures-ok _ _ _ (Refers-nil variables)
  indicator_params-Tracks ((key, kind) ∷ rest) across fs = Ensures-item _ _ _ _ (λ given _.
      Ensures-bind _ _ _ _ (param_value-Tracks kind across given) (λ v us h.
        Ensures-bind _ _ _ _ (indicator_params-Tracks rest across fs) (λ others vs k.
          Ensures-ok _ _ _ (rw (append-nil vs) (field-Tracks key v others us vs h.1 h.0 k)))))

  indicator_output-Plain :
      (outputs : List String) (fs : Fields)
      → Ensures
          (λ gs us. (us ≡ []) × (params_fields gs ≡ []))
          (indicator_output floats variables bar series outputs fs)
  unfolding indicator_output params
  indicator_output-Plain [] fs = Ensures-ok _ _ _ (refl, refl)
  indicator_output-Plain (first ∷ rest) fs = Ensures-item _ _ _ _ (λ output _.
      Ensures-need _ _ _
        (λ is. Ensures-ok _ _ _ (refl, rw (is_output-params output (first ∷ rest) is))))

  library_value-Tracks :
      (is_count : Bool) (across : Bool) (v : Json)
      → Ensures
          (TracksValue floats variables)
          (library_value floats variables bar series is_count across v)
  library_value-Tracks true across v = count-TracksValue floats variables 0 _ v
  library_value-Tracks false across v = number_node-Tracks floats variables v

  library_params-Tracks :
      (specs : List (String × Bool)) (across : Bool) (fs : Fields)
      → Ensures
          (TracksFields variables)
          (library_params floats variables bar series specs across fs)
  unfolding library_params params
  library_params-Tracks [] across fs = Ensures-ok _ _ _ (Refers-nil variables)
  library_params-Tracks ((key, is_count) ∷ rest) across fs = Ensures-item _ _ _ _ (λ given _.
      Ensures-bind _ _ _ _ (library_value-Tracks is_count across given) (λ v us h.
        Ensures-bind _ _ _ _ (library_params-Tracks rest across fs) (λ others vs k.
          Ensures-ok _ _ _ (rw (append-nil vs) (field-Tracks key v others us vs h.1 h.0 k)))))

  module _ (limit : ℕ)
      (checked : (v : Json) → depth v ≤ limit → Ensures (Tracks variables) (series v)) where
    operand-Tracks :
        (takes_series : Bool) (v : Json)
        → depth v ≤ limit
        → Ensures (Tracks variables) (operand floats variables bar series takes_series v)
    unfolding operand params
    operand-Tracks true v le = checked v le
    operand-Tracks false v le = Ensures-need _ _ _ (λ _. Ensures-ok _ _ _ (Refers-nil variables))

    pub indicator-Tracks :
        (operator : String) (spec : IndicatorSpec) (fs : Fields)
        → (operator == "param") ≡ false
        → depth_fields fs ≤ limit
        → Ensures
            (Tracks variables)
            (indicator floats variables bar series operator spec (object fs))
    unfolding indicator params
    indicator-Tracks operator spec fs other le = Ensures-object _ _ _ _ _ (λ gs same.
        Ensures-flag _ _ _ (λ across. Ensures-item _ _ _ _ (λ given below.
          Ensures-bind _ _ _ _
            (operand-Tracks spec.takes_series given (below-object fs gs limit given same le below))
            (λ v us h.
              Ensures-bind _ _ _ _ (indicator_params-Tracks spec.params across gs) (λ ps vs k.
                Ensures-plain _ _ _ _ (indicator_output-Plain spec.outputs gs) (λ output plain.
                  Ensures-ok _ _ _ (
                    rw other (
                      rw (params-join ps (field "across_sessions" (boolean across) output)) (
                        rw plain (
                          Refers-append variables _ _ _ _ h
                            (Refers-append variables _ _ _ _ k (Refers-nil variables))))))))))))

    library_inputs-Tracks :
        (keys : List String) (fs : Fields)
        → ArePrices keys
        → depth_fields fs ≤ limit
        → Ensures (TracksFields variables) (library_inputs floats variables bar series keys fs)
    unfolding library_inputs params
    library_inputs-Tracks [] fs prices le = Ensures-ok _ _ _ (Refers-nil variables)
    library_inputs-Tracks (key ∷ rest) fs prices le = elim (Option-cases (get_field key fs)) [
      | inl missing ↦ rw (missing, library_inputs) (library_inputs-Tracks rest fs prices.1 le)
      | inr (given, found) ↦
          rw (found, library_inputs)
            (Ensures-bind _ _ _ _
              (checked given (omega (arith, depth-get_field key fs given found)))
              (λ v us h.
                Ensures-bind _ _ _ _ (library_inputs-Tracks rest fs prices.1 le) (λ others vs k.
                  Ensures-ok _ _ _ (
                    rw (append-nil vs) (
                      rw (not_param key price_inputs refl prices.0)
                        (Refers-append variables _ _ _ _ h k))))))
    ]

    pub library_node-Tracks :
        (library : Library) (fs : Fields)
        → depth_fields fs ≤ limit
        → Ensures (Tracks variables) (library_node floats variables bar series library (object fs))
    unfolding library_node params
    library_node-Tracks library fs le = Ensures-object _ _ _ _ _ (λ gs same.
        Ensures-item _ _ _ _ (λ name _. Ensures-some _ _ _ (λ spec known.
          Ensures-flag _ _ _ (λ across. Ensures-item _ _ _ _ (λ given _.
            Ensures-object _ _ _ _ _ (λ ps _.
              Ensures-bind _ _ _ _ (library_params-Tracks spec.params across ps) (λ checked_ps us h.
                Ensures-object _ _ _ _ _ (λ inputs found.
                  Ensures-bind _ _ _ _
                    (library_inputs-Tracks spec.inputs inputs
                      (library_spec-known library name spec known).1
                      (optional-below "inputs" gs inputs limit found
                        (let e : fs ≡ gs = cc same in omega (arith, ap depth_fields e))))
                    (λ checked_inputs vs k. Ensures-need _ _ _ (λ is. Ensures-ok _ _ _ (
                      rw (library_spec-known library name spec known).0 (
                        rw (is_output-params _ spec.outputs is) (
                          Refers-append variables _ _ _ _ h
                            (Refers-append variables _ _ _ _ k (Refers-nil variables)))))))))))))))
