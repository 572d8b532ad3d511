-- ===== src/Strategies/Grid.antt =====
-- strategies/parameter_governance.py: the grid of a plan that has been accepted.
use quant_factory.Prelude.{
  sym, ◌∙◌, ℕ, ◌≤◌, Bool, true, false, ◌&&◌, List, [], ◌∷◌, map, length, all, keep, HasEq, ◌!=◌,
  string_eq, ap, sym, ◌∙◌, ltb, Bool-cases, inl, inr, ◌≡◌, refl, arith,
}
use quant_factory.Python.{Result, ok, err, Exn, value_error, raise_if, raise_unless}
use quant_factory.Python.Raising.{◌>>=◌, >>=-eq-ok}
use quant_factory.Strategies.{
  name_of, approval_states, is_blank, ParameterDefinition, StrategySpecification,
  ParameterPlanSummary, contains, has_no_repeat, prod, is_empty_tuple, candidate_values,
  is_optimized, contribution_of, check_metadata, check_candidates, check_grid,
  validate_parameter_definition, validate_each, validate_parameter_plan, plan_summary,
  summarize_parameter_plan,
}
use quant_factory.Strategies.Products.{product, number_of, length-product}
use quant_factory.Strategies.Counting.{tally, one_if, same_list, is_choice, tally-product}

module _ {Value : Type 0} where
  -- the candidates of the optimized parameters, in order
  abbrev pub grid_values : List (ParameterDefinition Value) → List (List Value)
  grid_values ds = map candidate_values (keep is_optimized ds)

  abbrev reference_of : ParameterDefinition Value → Value
  reference_of d = d.reference_value

  -- the part of `reference_configuration` that the grid varies
  abbrev pub reference_choice : List (ParameterDefinition Value) → List Value
  reference_choice ds = map reference_of (keep is_optimized ds)

  prod-contributions :
      (ds : List (ParameterDefinition Value))
      → prod (map contribution_of ds) ≡ number_of (map candidate_values ds)
  prod-contributions [] = refl
  prod-contributions (d ∷ ds) = rw (prod-contributions ds) refl

  tally-le-length : (p : List Value → Bool) (xs : List (List Value)) → tally p xs ≤ length xs
  tally-le-length p [] = omega arith
  tally-le-length p (x ∷ xs) = elim (Bool-cases (p x)) [
    | inl found ↦ rw found (omega (arith, tally-le-length p xs))
    | inr other ↦ rw other (omega (arith, tally-le-length p xs))
  ]

abbrev total_of : Result ParameterPlanSummary → ℕ
total_of (ok summary) = summary.total_combinations
total_of (err _) = 0

raise_unless-true :
    (b : Bool) (e : Exn) (rest : Unit {0} → Result (Unit {0}))
    → (raise_unless b e >>= rest) ≡ ok tt
    → (b ≡ true) × (rest tt ≡ ok tt)
raise_unless-true true e rest h = (refl, h)
raise_unless-true false e rest h = absurd (cc h)

module _ {Value : Type 0} ⦃e : HasEq Value⦄ where
  check_candidates-ok :
      (d : ParameterDefinition Value)
      → check_candidates d ≡ ok tt
      → (has_no_repeat (candidate_values d) ≡ true)
        × (contains d.reference_value (candidate_values d) ≡ true)
  unfolding check_candidates
  check_candidates-ok d passed =
      let (_, _, given) =
        >>=-eq-ok (raise_if (is_empty_tuple (candidate_values d)) value_error) _ passed in
      let (unique, rest) =
        raise_unless-true (has_no_repeat (candidate_values d)) value_error _ given in
      (
        unique,
        (raise_unless-true (contains d.reference_value (candidate_values d)) value_error _ rest).0,
      )

  check_grid-ok :
      (d : ParameterDefinition Value) (require_approved : Bool)
      → validate_parameter_definition d require_approved ≡ ok tt
      → check_grid d ≡ ok tt
  unfolding validate_parameter_definition
  check_grid-ok d require_approved passed =
      let (_, _, rest) = >>=-eq-ok (check_metadata d require_approved) _ passed in
      let (_, grid, _) = >>=-eq-ok (check_grid d) _ rest in grid

  validate_each-grid :
      (ds : List (ParameterDefinition Value)) (require_approved : Bool)
      → validate_each ds require_approved ≡ ok tt
      → (all has_no_repeat (grid_values ds) ≡ true)
        × (is_choice (reference_choice ds) (grid_values ds) ≡ true)
  unfolding validate_each check_grid check_candidates
  validate_each-grid [] require_approved passed = (refl, refl)
  validate_each-grid (d ∷ ds) require_approved passed =
      let (_, first, others) =
        >>=-eq-ok (validate_parameter_definition d require_approved) _ passed in
      let (unique, chosen) = validate_each-grid ds require_approved others in
      let checked = check_grid-ok d require_approved first in
      elim (Bool-cases d.optimizable) [
        | inl varied ↦
            let (once, found) = check_candidates-ok d (rw varied at checked) in
            rw (varied, once, found) (unique, chosen)
        | inr fixed ↦ rw fixed (unique, chosen)
      ]

  validate_each-ok :
      (s : StrategySpecification Value) (require_approved : Bool)
      → validate_parameter_plan s require_approved ≡ ok tt
      → validate_each s.parameters require_approved ≡ ok tt
  unfolding validate_parameter_plan
  validate_each-ok s require_approved passed =
      let (_, _, a) = >>=-eq-ok (raise_if (is_blank s.hypothesis) value_error) _ passed in
      let (_, _, b) = >>=-eq-ok (raise_if (is_blank s.source) value_error) _ a in
      let (_, _, c) =
        >>=-eq-ok (raise_unless (contains s.approval_state approval_states) value_error) _ b in
      let (_, _, d) =
        >>=-eq-ok (raise_if (require_approved && s.approval_state != "approved") value_error) _ c in
      let (_, _, each) =
        >>=-eq-ok (raise_unless (has_no_repeat (map name_of s.parameters)) value_error) _ d in
      each

  -- When a plan is summarized, the product of the optimized parameters' candidates has as many
  -- combinations as the summary says, at least one; every choice of one candidate for each
  -- optimized parameter stands in it exactly once, nothing else does, and the reference values are
  -- such a choice.
  pub summarize_parameter_plan-grid :
      (s : StrategySpecification Value) (warning_threshold : ℕ) (require_approved : Bool)
      (summary : ParameterPlanSummary)
      → summarize_parameter_plan s warning_threshold require_approved ≡ ok summary
      → (length (product (grid_values s.parameters)) ≡ summary.total_combinations)
        × (1 ≤ summary.total_combinations)
        × ((ts : List Value)
            → tally (same_list ts) (product (grid_values s.parameters))
              ≡ one_if (is_choice ts (grid_values s.parameters)))
        × (is_choice (reference_choice s.parameters) (grid_values s.parameters) ≡ true)
  unfolding summarize_parameter_plan validate_parameter_plan plan_summary
  summarize_parameter_plan-grid s warning_threshold require_approved summary returned =
      let (_, _, valid) = >>=-eq-ok (raise_if (ltb warning_threshold 1) value_error) _ returned in
      let (_, checked, made) =
        >>=-eq-ok (validate_parameter_plan s require_approved)
          (λ _. ok (plan_summary s.parameters warning_threshold)) valid in
      let (unique, chosen) =
        validate_each-grid s.parameters require_approved
          (validate_each-ok s require_approved checked) in
      let total : prod (map contribution_of (keep is_optimized s.parameters))
          ≡ summary.total_combinations =
        ap total_of made in
      let counted =
        length-product (grid_values s.parameters)
        ∙ sym (prod-contributions (keep is_optimized s.parameters))
        ∙ total in
      let found = tally-product (reference_choice s.parameters) (grid_values s.parameters) unique in
      let once = rw chosen at found in
      let some_choice =
        tally-le-length (same_list (reference_choice s.parameters))
          (product (grid_values s.parameters)) in
      (
        counted,
        omega (arith, once, some_choice, counted),
        λ ts. tally-product ts (grid_values s.parameters) unique,
        chosen,
      )
