-- ===== src/Launch/Claims.antt =====
-- orchestration/research_launch_claims.py, `_canonical_request_for_configuration` and
-- `_validate_persisted_claim`: what a claim records, and when a recorded claim still holds.
use quant_factory.Prelude.{
  Bool, true, ◌&&◌, ◌||◌, not, Option, none, some, String, string_eq, ◌==◌, if◌then◌else◌,
}
use quant_factory.Python.{
  Result, ok, err, key_error, launch, launch_integrity, raise_unless, or_raise,
}
use quant_factory.Python.Raising.{◌>>=◌, ◌>>◌}
use quant_factory.Python.Json.{
  Json, Fields, Codec, Texts, null, text, object, end, field, get, get_field, has_field, is_text,
  texts_eq, to_texts, of_texts, of_optional_text,
}
use quant_factory.Persistence.{
  Database, ResearchLaunchOperation, run_test, historical_relaunch, reproduction, is_stage,
  stage_value, operation_value, is_created, is_lifecycle, StrategyRecord, ConfigurationRecord,
  ResearchRunSubmissionRecord, ExperimentRunRecord,
}
use quant_factory.Persistence.Tables.{find, get as get_row}
use quant_factory.Persistence.Runs.{get_run}
use quant_factory.Launch.{ResearchLaunchContract, ResearchLaunchRequest, is_protocol, of_protocol}
use quant_factory.Launch.Requests.{NormalizedRequest, normalize_request, source_fits, is_nonempty}
use quant_factory.Launch.Lineage.{derive_source_lineage}

abbrev configuration_key : ConfigurationRecord → String
configuration_key c = c.configuration_id

unfoldable pub get_configuration : Database → String → Option ConfigurationRecord
get_configuration db id = get_row configuration_key id db.configurations

unfoldable pub get_strategy :
    Database → (strategy_id strategy_version : String) → Option StrategyRecord
get_strategy db id version =
    find (λ s. (s.strategy_id == id) && (s.strategy_version == version)) db.strategies

pub record CanonicalRequest : Type 0 where
  pub serialized : String
  pub fingerprint : String
  pub configuration_id : String
  pub strategy_id : String
  pub strategy_version : String

abbrev object_of : Json → Result Fields
object_of (object fs) = ok fs
object_of _ = err launch_integrity

-- `ResearchLaunchOperation(document["operation_kind"])`
unfoldable pub operation_of : Option Json → Result ResearchLaunchOperation
operation_of (some (text s)) =
    if s == "run_test"
    then ok run_test
    else if s == "historical_relaunch"
    then ok historical_relaunch
    else if s == "reproduction"
    then ok reproduction
    else err launch_integrity
operation_of _ = err launch_integrity

abbrev source_run_of : Json → Result (Option String)
source_run_of null = ok none
source_run_of (text s) = ok (some s)
source_run_of _ = err launch_integrity

abbrev matches_expected : Texts → Texts → Bool
matches_expected expected derived = if is_nonempty expected then texts_eq expected derived else true

module _ (codec : Codec) (contract : ResearchLaunchContract) where
  unfoldable pub request_fingerprint : String → String
  request_fingerprint canonical_request_json = codec.sha256 canonical_request_json

  abbrev is_launchable : StrategyRecord → Bool
  is_launchable s = s.active && is_lifecycle s.lifecycle contract.required_strategy_lifecycle

  unfoldable pub request_document : NormalizedRequest → ConfigurationRecord → Texts → Json
  request_document request configuration lineage = object (
      field "protocol_version" (of_protocol contract.protocol_version) (
        field "operation_kind" (text (operation_value request.operation)) (
          field "configuration_id" (text configuration.configuration_id) (
            field "configuration_hash" (text configuration.config_hash) (
              field "strategy_id" (text configuration.strategy_id) (
                field "strategy_version" (text configuration.strategy_version) (
                  field contract.stage_field (text (stage_value contract.stage)) (
                    field "accepted_launch_policy" (text contract.accepted_launch_policy) (
                      field "source_run_id" (of_optional_text request.source_run_id)
                        (field "source_lineage" (object (of_texts lineage)) end))))))))))

  -- The saved configuration is intact and names its own strategy and launch inputs.
  unfoldable pub check_configuration : ConfigurationRecord → Result (Unit {0})
  check_configuration configuration = do
    raise_unless (configuration.config_hash == codec.sha256 configuration.canonical_config_json)
        launch_integrity
    value ← or_raise (codec.loads configuration.canonical_config_json) launch_integrity
    document ← object_of value
    raise_unless (is_text (get "strategy_id" document) configuration.strategy_id) launch_integrity
    raise_unless (is_text (get "strategy_version" document) configuration.strategy_version)
        launch_integrity
    raise_unless (has_field "parameters" document && has_field "execution" document)
        launch_integrity

  unfoldable pub canonical_request_for_configuration :
      Database → ResearchLaunchRequest → Result CanonicalRequest
  canonical_request_for_configuration db request = do
    normalized ← normalize_request request
    configuration ← or_raise (get_configuration db normalized.configuration_id) key_error
    check_configuration configuration
    strategy ←
        or_raise (get_strategy db configuration.strategy_id configuration.strategy_version)
          launch_integrity
    raise_unless (is_launchable strategy) launch
    lineage ←
        derive_source_lineage codec db normalized.operation normalized.source_run_id contract.stage
          configuration.configuration_id configuration.strategy_id configuration.strategy_version
    raise_unless (matches_expected normalized.source_lineage lineage) launch_integrity
    let serialized = codec.dumps (request_document normalized configuration lineage)
    ok (record {
      serialized = serialized;
      fingerprint = request_fingerprint serialized;
      configuration_id = configuration.configuration_id;
      strategy_id = configuration.strategy_id;
      strategy_version = configuration.strategy_version;
    })

  -- The stored request: its fingerprint, its canonical text and its contract.
  unfoldable pub stored_document : ResearchRunSubmissionRecord → Result Fields
  stored_document submission = do
    raise_unless
        (request_fingerprint submission.canonical_request_json == submission.request_fingerprint)
        launch_integrity
    value ← or_raise (codec.loads submission.canonical_request_json) launch_integrity
    document ← object_of value
    raise_unless (codec.dumps value == submission.canonical_request_json) launch_integrity
    ok document

  unfoldable pub check_contract : Fields → ResearchRunSubmissionRecord → Result (Unit {0})
  check_contract document submission = do
    raise_unless (is_protocol (get "protocol_version" document) contract.protocol_version)
        launch_integrity
    raise_unless (is_text (get "accepted_launch_policy" document) contract.accepted_launch_policy)
        launch_integrity
    raise_unless (is_text (get contract.stage_field document) (stage_value contract.stage))
        launch_integrity
    raise_unless (is_text (get "configuration_id" document) submission.configuration_id)
        launch_integrity

  unfoldable pub check_identity : Fields → ConfigurationRecord → Result (Unit {0})
  check_identity document configuration = do
    raise_unless (codec.sha256 configuration.canonical_config_json == configuration.config_hash)
        launch_integrity
    raise_unless (is_text (get "configuration_hash" document) configuration.config_hash)
        launch_integrity
    raise_unless (is_text (get "strategy_id" document) configuration.strategy_id) launch_integrity
    raise_unless (is_text (get "strategy_version" document) configuration.strategy_version)
        launch_integrity

  -- The run is the one that the claim created, and not yet started where that is required.
  unfoldable pub check_run :
      Bool
      → ResearchRunSubmissionRecord
      → ConfigurationRecord
      → ExperimentRunRecord
      → Result (Unit {0})
  check_run require_created submission configuration run = do
    raise_unless (run.configuration_id == submission.configuration_id) launch_integrity
    raise_unless (run.strategy_id == configuration.strategy_id) launch_integrity
    raise_unless (run.strategy_version == configuration.strategy_version) launch_integrity
    raise_unless (is_stage run.stage contract.stage) launch_integrity
    raise_unless (not require_created || is_created run.status) launch_integrity

  unfoldable pub check_lineage :
      Database → ResearchLaunchOperation → Fields → ConfigurationRecord → Result (Unit {0})
  check_lineage db operation document configuration = do
    source_run_id ← source_run_of (get "source_run_id" document)
    lineage ← or_raise (to_texts (get "source_lineage" document)) launch_integrity
    raise_unless (source_fits operation source_run_id lineage) launch_integrity
    derived ←
        derive_source_lineage codec db operation source_run_id contract.stage
          configuration.configuration_id configuration.strategy_id configuration.strategy_version
    raise_unless (texts_eq lineage derived) launch_integrity

  -- The saved configuration of a stored claim, with its strategy.
  unfoldable pub claimed_configuration :
      Database
      → ResearchRunSubmissionRecord
      → Fields
      → (require_launchable : Bool) → Result ConfigurationRecord
  claimed_configuration db submission document require_launchable = do
    configuration ← or_raise (get_configuration db submission.configuration_id) launch_integrity
    check_identity document configuration
    strategy ←
        or_raise (get_strategy db configuration.strategy_id configuration.strategy_version)
          launch_integrity
    raise_unless (not require_launchable || is_launchable strategy) launch_integrity
    ok configuration

  -- The run of a stored claim, with its lineage.
  unfoldable pub claimed_run :
      Database
      → ResearchRunSubmissionRecord
      → ResearchLaunchOperation
      → Fields
      → ConfigurationRecord
      → (require_created : Bool) → Result ExperimentRunRecord
  claimed_run db submission operation document configuration require_created = do
    run ← or_raise (get_run db submission.run_id) launch_integrity
    check_run require_created submission configuration run
    check_lineage db operation document configuration
    ok run

  -- `_validate_persisted_claim`
  unfoldable pub validate_persisted_claim :
      Database
      → ResearchRunSubmissionRecord
      → (require_created_run require_launchable_configuration : Bool) → Result ExperimentRunRecord
  validate_persisted_claim db submission require_created require_launchable = do
    document ← stored_document submission
    operation ← operation_of (get_field "operation_kind" document)
    check_contract document submission
    configuration ← claimed_configuration db submission document require_launchable
    claimed_run db submission operation document configuration require_created
