-- ===== src/RuleLanguage/Pieces.antt =====
-- The parts of a spec that refer to no variable, and the depth of its fields.
use quant_factory.RuleLanguage.Names.{is_number-Plain}
use quant_factory.Prelude.{
  inr, inl, Option-cases, ap, ℕ, suc, ◌≤◌, true, Option, none, some, [], ◌++◌, ◌≡◌, refl, arith,
  String, string_eq,
}
use quant_factory.Python.Json.{
  Json, array, object, number, text, Items, nil, item, Fields, end, get_field,
}
use quant_factory.RuleLanguage.Checked.{◌>>=◌, Ensures, Ensures-need, Ensures-ok}
use quant_factory.RuleLanguage.Parameters.{is_number, is_count, is_amount, Floats}
use quant_factory.RuleLanguage.Indicators.{value_or}
use quant_factory.RuleLanguage.Exits.{if_given}
use quant_factory.RuleLanguage.Specs.{bar_step, skip_days, skip_days_field, are_skip_days}
use quant_factory.RuleLanguage.Rules.{Ensures-sequence, Ensures-plain}
use quant_factory.RuleLanguage.Variables.{params, params_fields, params_items}
use quant_factory.RuleLanguage.Depth.{depth, depth_fields, depth-get_field}

skip_days-params : (xs : Items) → are_skip_days xs ≡ true → params_items xs ≡ []
unfolding are_skip_days params
skip_days-params nil h = refl
skip_days-params (item (text s) xs) h = skip_days-params xs (ground arith)
skip_days-params (item v xs) h = absurd (cc h)

skip_days_field-params :
    (xs : Items) → are_skip_days xs ≡ true → params_fields (skip_days_field (some (array xs))) ≡ []
unfolding params
skip_days_field-params nil h = refl
skip_days_field-params (item x xs) h = ap (λ names. names ++ []) (skip_days-params (item x xs) h)

skip_days_value-Plain :
    (v : Json)
    → Ensures (λ w us. (us ≡ []) × (params_fields (skip_days_field (some w)) ≡ [])) (skip_days v)
unfolding skip_days
skip_days_value-Plain v =
    Ensures-sequence _ _ _
      (λ xs _. Ensures-need _ _ _ (λ h. Ensures-ok _ _ _ (refl, skip_days_field-params xs h)))

pub skip_days-Plain :
    (o : Option Json)
    → Ensures
        (λ given us. (us ≡ []) × (params_fields (skip_days_field given) ≡ []))
        (if_given skip_days o)
unfolding if_given params
skip_days-Plain none = Ensures-ok _ _ _ (refl, refl)
skip_days-Plain (some v) =
    Ensures-plain _ _ _ _ (skip_days_value-Plain v) (λ w h. Ensures-ok _ _ _ (refl, h))

-- An amount and a count are numbers, which refer to nothing.
pub is_amount-number :
    (floats : Floats) (v : Json)
    → Ensures (λ b us. (us ≡ []) × (b ≡ true → params v ≡ [])) (is_amount floats v none)
unfolding is_amount params
is_amount-number floats (object fs) = unfold is_number Ensures ◌>>=◌ in (refl, λ e. cc)
is_amount-number floats (array xs) = unfold is_number Ensures ◌>>=◌ in (refl, λ e. cc)
is_amount-number floats v =
    Ensures-plain _ _ _ _ (is_number-Plain floats v) (λ _ _. Ensures-ok _ _ _ (refl, λ _. refl))

pub is_count-params :
    (v : Json) (minimum maximum : ℕ) → is_count v minimum maximum ≡ true → params v ≡ []
unfolding is_count params
is_count-params (number n) minimum maximum h = refl
is_count-params v minimum maximum h = absurd (cc h)

pub bar_step-params : (v : Json) (step : ℕ) → bar_step v ≡ some step → params v ≡ []
unfolding params
bar_step-params (text s) step h = refl
bar_step-params v step h = absurd (cc h)

pub fields_within :
    (node : Json) (fs : Fields) (limit : ℕ)
    → node ≡ object fs
    → depth node ≤ limit
    → depth_fields fs ≤ limit
unfolding depth
fields_within node fs limit same le = omega (arith, ap depth same)

pub optional_depth :
    (key : String) (fs : Fields) (limit : ℕ)
    → depth_fields fs ≤ limit
    → depth (value_or (object end) (get_field key fs)) ≤ suc limit
unfolding depth
optional_depth key fs limit le = elim (Option-cases (get_field key fs)) [
  | inl missing ↦ rw missing (omega arith)
  | inr (v, found) ↦ rw found (omega (arith, depth-get_field key fs v found))
]
