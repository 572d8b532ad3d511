-- ===== src/Launch/Requests.antt =====
-- orchestration/research_launch_claims.py: the checks of keys, identities and texts, and
-- `_normalize_request`.
use quant_factory.Prelude.{
  ℕ, Bool, true, false, ◌||◌, not, Option, none, some, List, [], ◌∷◌, String, arith, ◌≡◌, nat_eq,
  string_eq, ◌==◌, ltb, any, all, if◌then◌else◌,
}
use quant_factory.Python.{Result, ok, err, launch_key, value_error, raise_unless}
use quant_factory.Python.Raising.{◌>>=◌, ◌>>◌}
use quant_factory.Python.Text
use quant_factory.Python.Text.{
  is_letter, is_digit, full_match, is_canonical_uuid, is_empty, strip, all_codes,
}
use quant_factory.Python.Json.{Texts}
use quant_factory.Persistence.{ResearchLaunchOperation, run_test}
use quant_factory.Launch.{ResearchLaunchRequest}

abbrev is_key_code : ℕ → Bool
is_key_code c = is_letter c || is_digit c || c == b'_' || c == b'-'

abbrev is_run_id_code : ℕ → Bool
is_run_id_code c = is_key_code c || c == b'.' || c == b':'

unfoldable pub validate_launch_key : String → Result String
validate_launch_key value = if full_match is_key_code 16 128 value then ok value else err launch_key

unfoldable pub validate_run_id : String → Result String
validate_run_id value = if full_match is_run_id_code 1 160 value then ok value else err value_error

unfoldable pub validate_dispatcher_id : String → Result String
validate_dispatcher_id value = if is_canonical_uuid value then ok value else err value_error

-- `any(ord(char) < 32 for char in normalized)` is refused.
unfoldable pub bounded_text : ℕ → String → Result String
bounded_text maximum value =
    let normalized = strip value in
    if is_empty normalized
      || ltb maximum (Text.length normalized)
      || not (all_codes (λ c. if ltb c 32 then false else true) normalized)
    then err value_error
    else ok normalized

unfoldable pub optional_bounded_text : ℕ → Option String → Result (Option String)
optional_bounded_text maximum none = ok none
optional_bounded_text maximum (some value) = do v ← bounded_text maximum value; ok (some v)

abbrev allowed_lineage_keys : List String
allowed_lineage_keys =
    "parent_run_id" ∷ "reproduction_of_run_id" ∷ "source_manifest_checksum"
    ∷ "source_runtime_identity" ∷ "source_dataset_identity"
    ∷ "source_execution_assumptions_identity" ∷ []

unfoldable pub has_allowed_keys : Texts → Bool
has_allowed_keys lineage = all (λ e. any (λ k. k == e.0) allowed_lineage_keys) lineage

unfoldable pub normalize_lineage : Texts → Result Texts
normalize_lineage [] = ok []
normalize_lineage ((key, value) ∷ lineage) = do
  k ← bounded_text 64 key
  v ← bounded_text 256 value
  rest ← normalize_lineage lineage
  ok ((k, v) ∷ rest)

pub record NormalizedRequest : Type 0 where
  pub operation : ResearchLaunchOperation
  pub configuration_id : String
  pub source_run_id : Option String
  pub source_lineage : Texts

abbrev or_empty : Option Texts → Texts
or_empty none = []
or_empty (some d) = d

abbrev is_run_test : ResearchLaunchOperation → Bool
is_run_test run_test = true
is_run_test _ = false

abbrev is_some : {A : Type 0} → Option A → Bool
is_some none = false
is_some (some a) = true

abbrev pub is_nonempty : Texts → Bool
is_nonempty [] = false
is_nonempty (e ∷ d) = true

-- A plain test carries no source run and no lineage; the other operations need a source run.
abbrev pub source_fits : ResearchLaunchOperation → Option String → Texts → Bool
source_fits operation source lineage =
    if is_run_test operation then not (is_some source || is_nonempty lineage) else is_some source

unfoldable pub normalize_request : ResearchLaunchRequest → Result NormalizedRequest
normalize_request request = do
  configuration_id ← bounded_text 200 request.configuration_id
  source_run_id ← optional_bounded_text 160 request.source_run_id
  raise_unless (has_allowed_keys (or_empty request.source_lineage)) value_error
  lineage ← normalize_lineage (or_empty request.source_lineage)
  raise_unless (source_fits request.operation source_run_id lineage) value_error
  ok (record {
    operation = request.operation;
    configuration_id = configuration_id;
    source_run_id = source_run_id;
    source_lineage = lineage;
  })

-- A valid key is kept as it is.
pub validate_launch_key_same : (key k : String) → validate_launch_key key ≡ ok k → k ≡ key
unfolding validate_launch_key
validate_launch_key_same key k h = ground arith

pub validate_dispatcher_id_same :
    (value v : String) → validate_dispatcher_id value ≡ ok v → v ≡ value
unfolding validate_dispatcher_id
validate_dispatcher_id_same value v h = ground arith
