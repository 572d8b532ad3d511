-- ===== src/Strategies/Samples.antt =====
-- Tests of the parameter plans, and the theorem at a plan of three parameters.
use quant_factory.Prelude.{
  ℕ, ◌≤◌, true, false, none, some, List, [], ◌∷◌, length, String, nat_eq, string_eq, ◌≡◌, refl,
}
use quant_factory.Python.{ok, err, value_error}
use quant_factory.Python.Text.{strip, left_strip, right_strip, is_space, is_empty}
use quant_factory.Strategies.{
  ParameterDefinition, StrategySpecification, ParameterPlanSummary, to_set, check_metadata,
  check_candidates, check_grid, check_structure, validate_parameter_definition, validate_each,
  validate_parameter_plan, plan_summary, summarize_parameter_plan,
}
use quant_factory.Strategies.Products.{product}
use quant_factory.Strategies.Counting.{tally, one_if, same_list, is_choice}
use quant_factory.Strategies.Grid.{grid_values, reference_choice, summarize_parameter_plan-grid}

abbrev optimized : (name : String) → (reference : ℕ) → List ℕ → ParameterDefinition ℕ
optimized name reference candidates = record {
  name = name;
  default = reference;
  optimizable = true;
  allowed_values = some candidates;
  classification = "bounded_discrete";
  reference_value = reference;
  source = "the published rules";
  rationale = "a bounded range";
  structural = false;
  expected_grid_contribution = some (length candidates);
  approval_state = "approved";
}

abbrev fixed : (name : String) → (value : ℕ) → ParameterDefinition ℕ
fixed name value = record {
  name = name;
  default = value;
  optimizable = false;
  allowed_values = none;
  classification = "fixed";
  reference_value = value;
  source = "the published rules";
  rationale = "not varied";
  structural = false;
  expected_grid_contribution = none;
  approval_state = "approved";
}

abbrev plan_of : List (ParameterDefinition ℕ) → StrategySpecification ℕ
plan_of ds = record {
  parameters = ds;
  hypothesis = "The opening range breaks out.";
  source = "the published rules";
  approval_state = "approved";
}

abbrev breakout : StrategySpecification ℕ
breakout = plan_of (
    optimized "minutes" 30 (15 ∷ 30 ∷ [])
    ∷ fixed "units" 1
    ∷ optimized "ticks" 0 (0 ∷ 1 ∷ 2 ∷ [])
    ∷ [])

abbrev breakout_summary : ParameterPlanSummary
breakout_summary = record {
  optimized_parameters =
      record { name = "minutes"; classification = "bounded_discrete"; candidate_count = 2 }
      ∷ record { name = "ticks"; classification = "bounded_discrete"; candidate_count = 3 }
      ∷ [];
  total_combinations = 6;
  fixed_parameters = "units" ∷ [];
  fixed_parameter_count = 1;
  structural_choice_parameters = [];
  warning_threshold = 5;
  warns_of_size = true;
  warns_of_structure = false;
}

summarize_breakout : summarize_parameter_plan breakout 5 true ≡ ok breakout_summary
unfolding summarize_parameter_plan validate_parameter_plan validate_each
    validate_parameter_definition check_metadata check_candidates check_grid check_structure
    plan_summary to_set strip left_strip right_strip is_space is_empty
summarize_breakout = refl

-- A repeated candidate is refused.
repeated_candidate :
    summarize_parameter_plan (plan_of (optimized "ticks" 1 (1 ∷ 1 ∷ []) ∷ [])) 5 true
    ≡ err value_error
unfolding summarize_parameter_plan validate_parameter_plan validate_each
    validate_parameter_definition check_metadata check_candidates check_grid check_structure
    plan_summary to_set strip left_strip right_strip is_space is_empty
repeated_candidate = refl

summarize_parameter_plan-grid_example :
    (length (product (grid_values breakout.parameters)) ≡ breakout_summary.total_combinations)
    × (1 ≤ breakout_summary.total_combinations)
    × ((ts : List ℕ)
        → tally (same_list ts) (product (grid_values breakout.parameters))
          ≡ one_if (is_choice ts (grid_values breakout.parameters)))
    × (is_choice (reference_choice breakout.parameters) (grid_values breakout.parameters) ≡ true)
summarize_parameter_plan-grid_example =
    summarize_parameter_plan-grid breakout 5 true breakout_summary summarize_breakout
