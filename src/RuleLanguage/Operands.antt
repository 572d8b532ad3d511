-- ===== src/RuleLanguage/Operands.antt =====
-- `series`: the variables that it uses, and its fuel.
use quant_factory.RuleLanguage.Catalogue.{indicator-Tracks, library_node-Tracks}
use quant_factory.Prelude.{
  Option-cases, ℕ, zero, suc, ◌≤◌, Bool, true, false, Option, none, some, [], ◌++◌, ◌≡◌, refl,
  arith, String, string_eq, ◌==◌, Bool-cases, inl, inr,
}
use quant_factory.Python.Json.{
  Json, null, array, object, boolean, number, negative, fraction, text, Fields, get_field,
}
use quant_factory.RuleLanguage.Checked.{
  Ensures-if, Checked, Ensures, Ensures-need, Ensures-invalid, Ensures-ok, Ensures-bind,
}
use quant_factory.RuleLanguage.Nodes.{is_member}
use quant_factory.RuleLanguage.Clock.{Bar}
use quant_factory.RuleLanguage.Parameters.{Floats, number_of}
use quant_factory.RuleLanguage.Indicators.{IndicatorSpec, Library, indicators, entry}
use quant_factory.RuleLanguage.Series.{
  flag_if_given, smoothing_of, prev_node, rolling_node, value_at_node, binary_node, unary_node,
  atr_node, atr_series, session_node, range_window, param_series, single_node, other_node,
  series_by, series_node, series, rolling_operators, binary_operators, unary_operators,
  session_operators, series_operators,
}
use quant_factory.RuleLanguage.Rules.{
  Ensures-object, Ensures-item, Ensures-flag, Ensures-plain, clock-IsTime, pair-depth,
  operator_of-member,
}
use native.Mathlib.Nat.{le_trans}
use mathlib.Core.List.{append-nil}
use quant_factory.RuleLanguage.Names.{
  finite_integer-Plain, count-Tracks, param-declared, param_name-Tracks,
}
use quant_factory.RuleLanguage.Variables.{
  params-join, params_fields, Tracks, Refers-nil, Refers-append, Refers-crossed, not_param, params,
}
use quant_factory.RuleLanguage.Depth.{depth, depth_fields}

pub no_depth : (v : Json) → depth v ≤ 0 → ⊥
unfolding depth
no_depth (object fs) h = omega arith
no_depth (array xs) h = omega arith
no_depth v h = omega arith

indicator_not_param :
    (operator : String) (spec : IndicatorSpec)
    → entry operator indicators ≡ some spec
    → (operator == "param") ≡ false
indicator_not_param operator spec found = elim (Bool-cases (operator == "param")) [
  | inl is ↦
      let same : operator ≡ "param" = (string_eq.same_iff operator "param").0 is in
      absurd (cc (rw same at found))
  | inr other ↦ other
]

module _ (floats : Floats) (variables : Fields) (bar : Bar) where
  range_window-Tracks :
      (operator : String) (v : Json)
      → (operator == "param") ≡ false
      → Ensures (Tracks variables) (range_window floats variables bar operator v)
  unfolding range_window params
  range_window-Tracks operator v other = Ensures-object _ _ _ _ _ (λ window _.
      Ensures-item _ _ _ _ (λ from _. Ensures-plain _ _ _ _ (clock-IsTime _ _ _ from) (λ start _.
        Ensures-item _ _ _ _ (λ to _. Ensures-plain _ _ _ _ (clock-IsTime _ _ _ to) (λ end_of _.
          Ensures-need _ _ _ (λ _. Ensures-ok _ _ _ (rw other (Refers-nil variables))))))))

  smoothing_of-Plain :
      (o : Option Json) → Ensures (λ fs us. (us ≡ []) × (params_fields fs ≡ [])) (smoothing_of o)
  unfolding smoothing_of params
  smoothing_of-Plain none = Ensures-ok _ _ _ (refl, refl)
  smoothing_of-Plain (some (text s)) = Ensures-need _ _ _ (λ _. Ensures-ok _ _ _ (refl, refl))
  smoothing_of-Plain (some v) = Ensures-need _ _ _ (λ e. absurd (cc e))

  flag_if_given-params :
      (o : Option Json) (across : Bool) → params_fields (flag_if_given o across) ≡ []
  unfolding params
  flag_if_given-params none across = refl
  flag_if_given-params (some v) across = refl

  atr_series-Tracks : (v : Json) → Ensures (Tracks variables) (atr_series floats variables bar v)
  unfolding atr_series params
  atr_series-Tracks v = Ensures-object _ _ _ _ _ (λ atr _. Ensures-flag _ _ _ (λ across.
      Ensures-item _ _ _ _ (λ given _.
        Ensures-bind _ _ _ _ (count-Tracks floats variables _ _ given) (λ length us h.
          Ensures-plain _ _ _ _ (smoothing_of-Plain (get_field "smoothing" atr)) (λ smoothing k.
            Ensures-ok _ _ _ (
              rw (params-join smoothing (flag_if_given (get_field "across_sessions" atr) across)) (
                rw k (
                  rw (flag_if_given-params (get_field "across_sessions" atr) across)
                    (Refers-append variables _ _ _ _ h (Refers-nil variables))))))))))

  atr_node-Tracks :
      (series : Json → Checked Json) (v : Json)
      → Ensures (Tracks variables) (atr_node floats variables bar series v)
  unfolding atr_node params
  atr_node-Tracks series v =
      Ensures-bind _ _ _ _ (atr_series-Tracks v)
        (λ atr us h. Ensures-ok _ _ _ (Refers-append variables _ _ _ _ h (Refers-nil variables)))

  module _ (series : Json → Checked Json) (limit : ℕ)
      (checked : (v : Json) → depth v ≤ limit → Ensures (Tracks variables) (series v)) where
    prev_node-Tracks :
        (fs : Fields) (v : Json)
        → depth v ≤ limit
        → Ensures (Tracks variables) (prev_node floats variables bar series fs v)
    unfolding prev_node params
    prev_node-Tracks fs v le = Ensures-object _ _ _ _ _ (λ _ _.
        Ensures-bind _ _ _ _ (checked v le) (λ operand us h. Ensures-item _ _ _ _ (λ given _.
          Ensures-bind _ _ _ _ (count-Tracks floats variables 1 _ given) (λ bars vs k.
            Ensures-ok _ _ _ (
              Refers-append variables _ _ _ _ h
                (Refers-append variables _ _ _ _ k (Refers-nil variables)))))))

    rolling_node-Tracks :
        (operator : String) (fs : Fields) (v : Json)
        → depth v ≤ limit
        → is_member operator rolling_operators ≡ true
        → Ensures (Tracks variables) (rolling_node floats variables bar series operator fs v)
    unfolding rolling_node params
    rolling_node-Tracks operator fs v le member = Ensures-object _ _ _ _ _ (λ _ _.
        Ensures-flag _ _ _ (λ across. Ensures-item _ _ _ _ (λ given _.
          Ensures-bind _ _ _ _ (count-Tracks floats variables _ _ given) (λ length us h.
            Ensures-bind _ _ _ _ (checked v le) (λ operand vs k. Ensures-ok _ _ _ (
              rw (not_param operator rolling_operators refl member)
                (Refers-crossed variables _ _ _ _ k h)))))))

    value_at_node-Tracks :
        (fs : Fields) (v : Json)
        → depth v ≤ limit
        → Ensures (Tracks variables) (value_at_node floats variables bar series fs v)
    unfolding value_at_node params
    value_at_node-Tracks fs v le = Ensures-object _ _ _ _ _ (λ _ _. Ensures-item _ _ _ _ (λ given _.
        Ensures-plain _ _ _ _ (clock-IsTime _ _ _ given) (λ time _.
          Ensures-bind _ _ _ _ (checked v le) (λ operand us h.
            Ensures-ok _ _ _ (Refers-append variables _ _ _ _ h (Refers-nil variables))))))

    binary_node-Tracks :
        (operator : String) (v : Json)
        → depth v ≤ limit
        → (operator == "param") ≡ false
        → Ensures (Tracks variables) (binary_node floats variables bar series operator v)
    unfolding binary_node params
    binary_node-Tracks operator v le other =
        Ensures-plain _ _ _ _ (pair-depth v) (λ (left, right) h.
          Ensures-bind _ _ _ _ (checked left (omega (arith, h.0))) (λ first us k.
            Ensures-bind _ _ _ _ (checked right (omega (arith, h.1))) (λ second vs m.
              Ensures-ok _ _ _ (
                rw other (
                  rw (append-nil (params first ++ (params second ++ []))) (
                    Refers-append variables _ _ _ _ k
                      (Refers-append variables _ _ _ _ m (Refers-nil variables))))))))

    unary_node-Tracks :
        (operator : String) (v : Json)
        → depth v ≤ limit
        → (operator == "param") ≡ false
        → Ensures (Tracks variables) (unary_node floats variables bar series operator v)
    unfolding unary_node params
    unary_node-Tracks operator v le other = Ensures-bind _ _ _ _ (checked v le) (λ operand us h.
        Ensures-ok _ _ _ (rw other (Refers-append variables _ _ _ _ h (Refers-nil variables))))

    session_node-Tracks :
        (operator : String) (v : Json)
        → (operator == "param") ≡ false
        → Ensures (Tracks variables) (session_node floats variables bar series operator v)
    unfolding session_node params
    session_node-Tracks operator v other =
        Ensures-need _ _ _ (λ _. Ensures-ok _ _ _ (rw other (Refers-nil variables)))

    param_series-Tracks :
        (v : Json) → Ensures (Tracks variables) (param_series floats variables bar series v)
    unfolding param_series
    param_series-Tracks v =
        Ensures-bind _ _ _ _ (param-declared floats variables number_of v)
          (λ name us h. Ensures-ok _ _ _ (rw h.0 (param_name-Tracks floats variables name h.1)))

    single_node-Tracks :
        (operator : String) (v : Json)
        → depth v ≤ limit
        → Ensures (Tracks variables) (single_node floats variables bar series operator v)
    unfolding single_node
    single_node-Tracks operator v le =
        Ensures-if _ (operator == "param") _ _ (λ _. param_series-Tracks v)
          (λ other.
            Ensures-if _ (is_member operator binary_operators) _ _
              (λ _. binary_node-Tracks operator v le other)
              (λ _.
                Ensures-if _ (is_member operator unary_operators) _ _
                  (λ _. unary_node-Tracks operator v le other)
                  (λ _.
                    Ensures-if _ (operator == "atr") _ _ (λ _. atr_node-Tracks series v)
                      (λ _.
                        Ensures-if _ (is_member operator session_operators) _ _
                          (λ _. session_node-Tracks operator v other)
                          (λ _. range_window-Tracks operator v other)))))

    other_node-Tracks :
        (library : Library) (operator : String) (fs : Fields) (v : Json)
        → depth v ≤ limit
        → depth_fields fs ≤ limit
        → Ensures (Tracks variables) (other_node floats variables bar series library operator fs v)
    unfolding other_node
    other_node-Tracks library operator fs v le below =
        elim (Option-cases (entry operator indicators)) [
          | inl missing ↦
              rw (missing, other_node)
                (Ensures-if _ (operator == "indicator") _ _
                  (λ _.
                    library_node-Tracks floats variables bar series limit checked library fs below)
                  (λ _. Ensures-object _ _ _ _ _ (λ _ _. single_node-Tracks operator v le)))
          | inr (spec, found) ↦
              rw (found, other_node)
                (indicator-Tracks floats variables bar series limit checked operator spec fs
                  (indicator_not_param operator spec found) below)
        ]

    series_by-Tracks :
        (library : Library) (operator : String) (fs : Fields) (v : Json)
        → depth v ≤ limit
        → depth_fields fs ≤ limit
        → Ensures (Tracks variables) (series_by floats variables bar series library operator fs v)
    unfolding series_by
    series_by-Tracks library operator fs v le below =
        Ensures-if _ (operator == "prev") _ _ (λ _. prev_node-Tracks fs v le)
          (λ _.
            Ensures-if _ (is_member operator rolling_operators) _ _
              (λ member. rolling_node-Tracks operator fs v le member)
              (λ _.
                Ensures-if _ (operator == "value_at") _ _ (λ _. value_at_node-Tracks fs v le)
                  (λ _. other_node-Tracks library operator fs v le below)))

    series_node-Tracks :
        (library : Library) (fs : Fields)
        → depth_fields fs ≤ limit
        → Ensures (Tracks variables) (series_node floats variables bar series library fs)
    unfolding series_node
    series_node-Tracks library fs below =
        Ensures-plain _ _ _ _ (operator_of-member series_operators (object fs)) (λ operator _.
          Ensures-item _ _ _ _
            (λ v le. series_by-Tracks library operator fs v (le_trans le below) below))

  -- Fuel for every level of the document is enough, and the copy refers to the names used.
  pub series-Tracks :
      (library : Library) (fuel : ℕ) (v : Json)
      → depth v ≤ fuel
      → Ensures (Tracks variables) (series floats variables bar library fuel v)
  unfolding series params
  series-Tracks library zero v le = absurd (no_depth v le)
  series-Tracks library (suc fuel) (number n) le =
      Ensures-plain _ _ _ _ (finite_integer-Plain n)
        (λ _ _. Ensures-need _ _ _ (λ _. Ensures-ok _ _ _ (Refers-nil variables)))
  series-Tracks library (suc fuel) (negative n) le =
      Ensures-plain _ _ _ _ (finite_integer-Plain n)
        (λ _ _. Ensures-need _ _ _ (λ _. Ensures-ok _ _ _ (Refers-nil variables)))
  series-Tracks library (suc fuel) (fraction s) le =
      Ensures-need _ _ _ (λ _. Ensures-ok _ _ _ (Refers-nil variables))
  series-Tracks library (suc fuel) (text s) le =
      Ensures-need _ _ _ (λ _. Ensures-ok _ _ _ (Refers-nil variables))
  series-Tracks library (suc fuel) (object fs) le =
      series_node-Tracks (series floats variables bar library fuel) fuel
        (λ v below. series-Tracks library fuel v below) library fs (unfold depth in omega arith)
  series-Tracks library (suc fuel) null le = Ensures-invalid _
  series-Tracks library (suc fuel) (boolean _) le = Ensures-invalid _
  series-Tracks library (suc fuel) (array _) le = Ensures-invalid _
