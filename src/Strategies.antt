-- ===== src/Strategies.antt =====
-- strategies/models.py and strategies/parameter_governance.py: the approved parameter plans.
--
-- `Value` is the type of the values of a parameter, `None` among them, with Python's `==`; a value
-- is kept up to that equality.
pub mod Products
mod Counting
pub mod Grid
mod Samples
use quant_factory.Prelude.{
  ℕ, suc, ◌*◌, Bool, true, false, not, ◌&&◌, ◌||◌, Option, none, some, List, [], ◌∷◌, map, length,
  any, keep, String, HasEq, ltb, nat_eq, string_eq, option_eq, ◌==◌, ◌!=◌, if◌then◌else◌,
}
use quant_factory.Python.{Result, ok, err, value_error, raise_if, raise_unless}
use quant_factory.Python.Raising.{◌>>=◌, ◌>>◌}
use quant_factory.Python.Text.{strip}
use quant_factory.RuleLanguage.Specs.{max_variable_grid}

-- The fields of `ParameterDefinition` that the plans read. A grid contribution is not negative.
pub record ParameterDefinition (Value : Type 0) : Type 0 where
  pub name : String
  pub default : Value
  pub optimizable : Bool
  pub allowed_values : Option (List Value)
  pub classification : String
  pub reference_value : Value
  pub source : String
  pub rationale : String
  pub structural : Bool
  pub expected_grid_contribution : Option ℕ
  pub approval_state : String

pub record StrategySpecification (Value : Type 0) : Type 0 where
  pub parameters : List (ParameterDefinition Value)
  pub hypothesis : String
  pub source : String
  pub approval_state : String

pub record ParameterGridContribution : Type 0 where
  pub name : String
  pub classification : String
  pub candidate_count : ℕ

pub record ParameterPlanSummary : Type 0 where
  pub optimized_parameters : List ParameterGridContribution
  pub total_combinations : ℕ
  pub fixed_parameters : List String
  pub fixed_parameter_count : ℕ
  pub structural_choice_parameters : List String
  pub warning_threshold : ℕ
  pub warns_of_size : Bool
  pub warns_of_structure : Bool

-- `value in values`
abbrev pub contains {ℓ} : {A : Type ℓ} ⦃e : HasEq A⦄ → A → List A → Bool
contains x xs = any (λ y. y == x) xs

-- `set(values)`
unfoldable pub to_set {ℓ} : {A : Type ℓ} ⦃e : HasEq A⦄ → List A → List A
to_set [] = []
to_set (x ∷ xs) = let rest = to_set xs in if contains x xs then rest else x ∷ rest

-- `len(values) == len(set(values))`
abbrev pub has_no_repeat {ℓ} : {A : Type ℓ} ⦃e : HasEq A⦄ → List A → Bool
has_no_repeat xs = length xs == length (to_set xs)

abbrev parameter_classifications : List String
parameter_classifications =
    "fixed" ∷ "source_defined" ∷ "bounded_discrete" ∷ "local_sensitivity" ∷ "structural_choice" ∷ []

abbrev pub approval_states : List String
approval_states = "draft" ∷ "approved" ∷ "rejected" ∷ []

-- `PROVISIONAL_GRID_WARNING_THRESHOLD`
abbrev provisional_grid_warning_threshold : ℕ
provisional_grid_warning_threshold = max_variable_grid

-- `not text.strip()`
abbrev pub is_blank : String → Bool
is_blank s = strip s == ""

abbrev or_no_values {ℓ} : {A : Type ℓ} → Option (List A) → List A
or_no_values none = []
or_no_values (some xs) = xs

abbrev pub is_empty_tuple {ℓ} : {A : Type ℓ} → List A → Bool
is_empty_tuple [] = true
is_empty_tuple (_ ∷ _) = false

-- `math.prod` of the candidate counts
abbrev pub prod : List ParameterGridContribution → ℕ
prod [] = 1
prod (c ∷ cs) = c.candidate_count * prod cs

module _ {Value : Type 0} where
  -- `candidate_values`
  abbrev pub candidate_values : ParameterDefinition Value → List Value
  candidate_values d = or_no_values d.allowed_values

  abbrev pub is_optimized : ParameterDefinition Value → Bool
  is_optimized d = d.optimizable

  abbrev pub name_of : ParameterDefinition Value → String
  name_of d = d.name

  abbrev is_classified : String → ParameterDefinition Value → Bool
  is_classified classification d = d.classification == classification

  abbrev pub contribution_of : ParameterDefinition Value → ParameterGridContribution
  contribution_of d = record {
    name = d.name;
    classification = d.classification;
    candidate_count = length (candidate_values d);
  }

-- `in {None, 1}`
abbrev contributes_one : Option ℕ → Bool
contributes_one none = true
contributes_one (some n) = n == 1

module _ {Value : Type 0} ⦃e : HasEq Value⦄ where
  -- the checks of the texts, in the order of `validate_parameter_definition`
  unfoldable pub check_metadata :
      ParameterDefinition Value → (require_approved : Bool) → Result (Unit {0})
  check_metadata d require_approved = do
    raise_unless (contains d.classification parameter_classifications) value_error
    raise_if (is_blank d.name) value_error
    raise_unless (contains d.approval_state approval_states) value_error
    raise_if (is_blank d.source) value_error
    raise_if (is_blank d.rationale) value_error
    raise_if (d.reference_value != d.default) value_error
    raise_if (require_approved && d.approval_state != "approved") value_error

  -- the candidates of an optimized parameter
  unfoldable pub check_candidates : ParameterDefinition Value → Result (Unit {0})
  check_candidates d = do
    raise_if (is_empty_tuple (candidate_values d)) value_error
    raise_unless (has_no_repeat (candidate_values d)) value_error
    raise_unless (contains d.reference_value (candidate_values d)) value_error
    raise_unless (d.expected_grid_contribution == some (length (candidate_values d))) value_error

  unfoldable pub check_grid : ParameterDefinition Value → Result (Unit {0})
  check_grid d =
      if d.optimizable
      then check_candidates d
      else raise_unless (contributes_one d.expected_grid_contribution) value_error

  -- the checks of the classification
  unfoldable pub check_structure : ParameterDefinition Value → Result (Unit {0})
  check_structure d = do
    raise_if (is_classified "fixed" d && d.optimizable) value_error
    if is_classified "structural_choice" d
        then (do raise_unless d.structural value_error; raise_if d.optimizable value_error)
        else raise_if d.structural value_error

  unfoldable pub validate_parameter_definition :
      ParameterDefinition Value → (require_approved : Bool) → Result (Unit {0})
  validate_parameter_definition d require_approved = do
    check_metadata d require_approved
    check_grid d
    check_structure d

  unfoldable pub validate_each :
      List (ParameterDefinition Value) → (require_approved : Bool) → Result (Unit {0})
  validate_each [] require_approved = ok tt
  validate_each (d ∷ ds) require_approved = do
    validate_parameter_definition d require_approved
    validate_each ds require_approved

  unfoldable pub validate_parameter_plan :
      StrategySpecification Value → (require_approved : Bool) → Result (Unit {0})
  validate_parameter_plan s require_approved = do
    raise_if (is_blank s.hypothesis) value_error
    raise_if (is_blank s.source) value_error
    raise_unless (contains s.approval_state approval_states) value_error
    raise_if (require_approved && s.approval_state != "approved") value_error
    raise_unless (has_no_repeat (map name_of s.parameters)) value_error
    validate_each s.parameters require_approved

  -- the summary of a plan that has been checked
  unfoldable pub plan_summary : List (ParameterDefinition Value) → ℕ → ParameterPlanSummary
  plan_summary ds warning_threshold =
      let contributions = map contribution_of (keep is_optimized ds) in
      let structural = map name_of (keep (is_classified "structural_choice") ds) in
      record {
        optimized_parameters = contributions;
        total_combinations = prod contributions;
        fixed_parameters = map name_of (keep (is_classified "fixed") ds);
        fixed_parameter_count = length (keep (is_classified "fixed") ds);
        structural_choice_parameters = structural;
        warning_threshold = warning_threshold;
        warns_of_size = ltb warning_threshold (prod contributions);
        warns_of_structure = not (is_empty_tuple structural);
      }

  unfoldable pub summarize_parameter_plan :
      StrategySpecification Value
      → (warning_threshold : ℕ) (require_approved : Bool) → Result ParameterPlanSummary
  summarize_parameter_plan s warning_threshold require_approved = do
    raise_if (ltb warning_threshold 1) value_error
    validate_parameter_plan s require_approved
    ok (plan_summary s.parameters warning_threshold)
