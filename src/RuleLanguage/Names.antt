-- ===== src/RuleLanguage/Names.antt =====
-- `param`, `number`, `count` and `amount`: the variables that they use.
use quant_factory.Prelude.{ℕ, true, Option, List, [], ◌∷◌, ◌≡◌, refl, arith, String, string_eq}
use quant_factory.Python.Json.{
  Json, array, object, number, negative, text, Items, nil, item, Fields, end, field, has_field,
}
use quant_factory.RuleLanguage.Checked.{
  Ensures-weaker, Checked, Ensures, Ensures-need, Ensures-some, Ensures-invalid, Ensures-ok,
  Ensures-bind, need, ◌>>=◌,
}
use quant_factory.RuleLanguage.Parameters.{
  Floats, Kind, count_of, amount_of, number_of, finite_integer, is_count, is_number, is_amount,
  is_usable, check_values, param, param_node, number_node, count, amount,
}
use quant_factory.RuleLanguage.Rules.{
  Ensures-object, Ensures-mapping, Ensures-sequence, Ensures-item, Ensures-plain,
}
use quant_factory.RuleLanguage.Variables.{name_at, Refers-nil, Tracks, params}

-- A test that uses no variable.
abbrev Plain : {A : Type 0} → Checked A → Type 0
Plain m = Ensures (λ _ us. (us ≡ []) × Unit {0}) m

pub finite_integer-Plain : (n : ℕ) → Plain (finite_integer n)
unfolding Ensures finite_integer
finite_integer-Plain n = ground arith

module _ (floats : Floats) where
  pub is_number-Plain : (v : Json) → Plain (is_number floats v)
  unfolding is_number Ensures
  is_number-Plain (number n) = finite_integer-Plain n
  is_number-Plain (negative n) = finite_integer-Plain n
  is_number-Plain _ = (refl, tt)

  is_amount-Plain : (v : Json) (maximum : Option ℕ) → Plain (is_amount floats v maximum)
  unfolding is_amount
  is_amount-Plain v maximum =
      Ensures-plain _ _ _ _ (is_number-Plain v) (λ _ _. Ensures-ok _ _ _ (refl, tt))

  is_usable-Plain : (kind : Kind) (v : Json) → Plain (is_usable floats kind v)
  unfolding is_usable
  is_usable-Plain (count_of minimum maximum) v = Ensures-ok _ _ _ (refl, tt)
  is_usable-Plain (amount_of maximum) v = is_amount-Plain v maximum
  is_usable-Plain number_of v = is_number-Plain v

  check_values-Plain : (kind : Kind) (xs : Items) → Plain (check_values floats kind xs)
  unfolding check_values
  check_values-Plain kind nil = Ensures-ok _ _ _ (refl, tt)
  check_values-Plain kind (item v xs) =
      Ensures-plain _ _ _ _ (is_usable-Plain kind v)
        (λ _ _. Ensures-need _ _ _ (λ _. check_values-Plain kind xs))

  module _ (variables : Fields) where
    -- The one name that is used is declared.
    pub param-declared :
        (kind : Kind) (v : Json)
        → Ensures
            (λ name us. (us ≡ name ∷ []) × (has_field name variables ≡ true))
            (param floats variables kind v)
    unfolding param
    param-declared kind (text name) = Ensures-need _ _ _ (λ _.
        Ensures-some _ _ _ (λ definition declared. Ensures-mapping _ _ _ (λ fs _.
          Ensures-item _ _ _ _ (λ values _. Ensures-sequence _ _ _ (λ xs _. Ensures-need _ _ _ (λ _.
            Ensures-plain _ _ _ _ (check_values-Plain kind xs) (λ _ _.
              Ensures-need _ _ _ (λ _. Ensures-ok _ _ _ (refl, rw (declared, has_field))))))))))
    param-declared kind _ = Ensures-invalid _

    pub param_name-Tracks :
        (name : String)
        → has_field name variables ≡ true
        → Tracks variables (object (field "param" (text name) end)) (name ∷ [])
    unfolding params
    param_name-Tracks name declared other = ground (arith, (string_eq.same_iff name other).0)

    -- A value of a parameter: a number, or the name of a variable in an object.
    abbrev pub TracksValue : Json → List String → Type 0
    TracksValue v us = Tracks variables v us × (name_at v ≡ [])

    param_node-Tracks :
        (kind : Kind) (v : Json) → Ensures TracksValue (param_node floats variables kind v)
    unfolding param_node
    param_node-Tracks kind v = Ensures-object _ _ _ _ _ (λ fs _. Ensures-item _ _ _ _ (λ given _.
        Ensures-bind _ _ _ _ (param-declared kind given)
          (λ name us h. Ensures-ok _ _ _ (rw h.0 (param_name-Tracks name h.1), refl))))

    pub number_node-Tracks : (v : Json) → Ensures TracksValue (number_node floats variables v)
    unfolding number_node params
    number_node-Tracks (object fs) = param_node-Tracks number_of (object fs)
    number_node-Tracks (array xs) = unfold is_number Ensures ◌>>=◌ need in tt
    number_node-Tracks (text s) = unfold is_number Ensures ◌>>=◌ need in tt
    number_node-Tracks v =
        Ensures-plain _ _ _ _ (is_number-Plain v)
          (λ _ _. Ensures-need _ _ _ (λ _. Ensures-ok _ _ _ (Refers-nil variables, refl)))

    pub count-TracksValue :
        (minimum maximum : ℕ) (v : Json)
        → Ensures TracksValue (count floats variables minimum maximum v)
    unfolding count params
    count-TracksValue minimum maximum (object fs) =
        param_node-Tracks (count_of minimum maximum) (object fs)
    count-TracksValue minimum maximum (array xs) = unfold is_count Ensures ◌>>=◌ need in tt
    count-TracksValue minimum maximum (text s) = unfold is_count Ensures ◌>>=◌ need in tt
    count-TracksValue minimum maximum v =
        Ensures-need _ _ _ (λ _. Ensures-ok _ _ _ (Refers-nil variables, refl))

    pub amount-TracksValue :
        (maximum : Option ℕ) (v : Json) → Ensures TracksValue (amount floats variables maximum v)
    unfolding amount params
    amount-TracksValue maximum (object fs) = param_node-Tracks (amount_of maximum) (object fs)
    amount-TracksValue maximum (array xs) = unfold is_amount is_number Ensures ◌>>=◌ need in tt
    amount-TracksValue maximum (text s) = unfold is_amount is_number Ensures ◌>>=◌ need in tt
    amount-TracksValue maximum v =
        Ensures-plain _ _ _ _ (is_amount-Plain v maximum)
          (λ _ _. Ensures-need _ _ _ (λ _. Ensures-ok _ _ _ (Refers-nil variables, refl)))

    pub count-Tracks :
        (minimum maximum : ℕ) (v : Json)
        → Ensures (Tracks variables) (count floats variables minimum maximum v)
    count-Tracks minimum maximum v =
        Ensures-weaker _ _ _ (λ _ _ h. h.0) (count-TracksValue minimum maximum v)

    pub amount-Tracks :
        (maximum : Option ℕ) (v : Json)
        → Ensures (Tracks variables) (amount floats variables maximum v)
    amount-Tracks maximum v = Ensures-weaker _ _ _ (λ _ _ h. h.0) (amount-TracksValue maximum v)
