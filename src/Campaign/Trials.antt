-- ===== src/Campaign/Trials.antt =====
-- Tests of the settings of a rule strategy, and the theorem at an accepted spec.
use quant_factory.Prelude.{none, ℕ, ◌≤◌, List, [], ◌∷◌, length, ◌≡◌, refl}
use quant_factory.Python.{ok}
use quant_factory.Python.Json.{number, array, object, Items, nil, item, Fields, end, field}
use quant_factory.RuleLanguage.Nodes.{mapping}
use quant_factory.RuleLanguage.Specs.{combinations, max_variable_grid}
use quant_factory.RuleLanguage.Samples.{floats, spec_with, normalized, variables, validated}
use quant_factory.Strategies.Products.{product}
use quant_factory.Campaign.Combinations.{sorted_fields, all_values, parameter_combinations}
use quant_factory.Campaign.Settings.{parameter_combinations-bounded}

abbrev values : Items → Fields
values xs = field "values" (array xs) end

abbrev pair_of : (a b : ℕ) → Fields
pair_of a b = field "entry" (number a) (field "exit" (number b) end)

-- The names are sorted, and the last one varies fastest.
combinations_of_two :
    parameter_combinations (
      field "exit"
        (object (values (item (number 1) (item (number 2) nil))))
        (field "entry" (object (values (item (number 3) (item (number 4) nil)))) end))
    ≡ ok (pair_of 3 1 ∷ pair_of 3 2 ∷ pair_of 4 1 ∷ pair_of 4 2 ∷ [])
unfolding parameter_combinations all_values sorted_fields product
combinations_of_two = refl

no_variables : parameter_combinations end ≡ ok (end ∷ [])
unfolding parameter_combinations all_values sorted_fields product
no_variables = refl

parameter_combinations-bounded_example :
    (settings : List Fields) × (parameter_combinations variables ≡ ok settings)
    × (length settings ≡ combinations variables)
    × (length settings ≤ max_variable_grid)
parameter_combinations-bounded_example =
    parameter_combinations-bounded floats none (spec_with (number 1)) (object variables) normalized
      ("length" ∷ []) variables validated (unfold mapping in refl) refl
