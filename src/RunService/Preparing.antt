-- ===== src/RunService/Preparing.antt =====
-- `_validate_timeout`, `_launch_inputs`, `_summary` and the parts of `launch_fixture` that only read.
use quant_factory.Prelude.{
  true, ◌&&◌, ◌||◌, not, Option, none, some, String, nat_eq, string_eq, ◌==◌, ◌!=◌,
}
use quant_factory.Python.{
  Result, ok, err, key_error, value_error, json_decode_error, launch_integrity, run_service,
  raise_unless, raise_if, or_raise,
}
use quant_factory.Python.Raising.{◌>>=◌, ◌>>◌}
use quant_factory.Python.Text.{append}
use quant_factory.Python.Json.{Json, Codec, object, field, end, get, has_field, is_text, to_texts}
use quant_factory.Persistence.{
  Database, infrastructure_fixture, is_lifecycle, operation_value, ExperimentRunRecord,
  ResearchRunSubmissionRecord,
}
use quant_factory.Launch.Claims.{get_configuration, get_strategy}
use quant_factory.RunService.{
  LaunchArguments, LaunchKwargs, Host, Prepared, RunSummary, parsed_fields, has_value,
  optional_text_of, required_text, or_run_service, is_reproduction, unless_null,
}

module _ (host : Host) where
  -- `_validate_timeout`
  unfoldable pub validate_timeout : Option Json → Result (Unit {0})
  validate_timeout none = ok tt
  validate_timeout (some t) = raise_unless (host.is_timeout t) value_error

  -- the checks of the arguments, before the key
  unfoldable pub check_arguments : LaunchArguments → Result (Unit {0})
  check_arguments a = do
    raise_if (a.max_attempts != 1 || not (a.controlled_transient_failures == 0)) value_error
    validate_timeout a.timeout_seconds
    validate_timeout a.prefect_timeout_seconds
    raise_if (has_value a.reproduction_metadata && not (is_reproduction a.operation)) value_error

  -- the document of a run that no claim has made yet
  unfoldable pub new_environment : LaunchArguments → Json
  new_environment a = object (
      field "prefect_spike" (Json.boolean true) (
        field "runtime_lineage" host.runtime_lineage (elim a.reproduction_metadata [
          | none ↦ end
          | some metadata ↦ field "reproduction" metadata end
        ])))

module _ (codec : Codec) where
  -- the idempotency key, unless_null or made of the run identity
  unfoldable pub key_of : LaunchArguments → Result String
  key_of a = elim a.idempotency_key [
    | some key ↦ ok key
    | none ↦ elim a.run_id [
      | none ↦ err value_error
      | some run_id ↦ ok (
          append "launch_fixture_"
            (codec.sha256 (append (operation_value a.operation) (append ":" run_id))))
    ]
  ]

  -- `_launch_inputs`
  unfoldable pub launch_inputs : Database → (configuration_id : String) → Result (Json × Json)
  launch_inputs db configuration_id = do
    configuration ← or_raise (get_configuration db configuration_id) key_error
    document ← parsed_fields run_service (codec.loads configuration.canonical_config_json)
    raise_unless (is_text (get "strategy_id" document) configuration.strategy_id) run_service
    raise_unless (is_text (get "strategy_version" document) configuration.strategy_version)
        run_service
    raise_unless (has_field "parameters" document && has_field "execution" document) run_service
    strategy ←
        or_raise (get_strategy db configuration.strategy_id configuration.strategy_version)
          run_service
    raise_unless (strategy.active && is_lifecycle strategy.lifecycle infrastructure_fixture)
        run_service
    ok (get "parameters" document, get "execution" document)

  -- the block that reads the inputs of a claimed launch
  unfoldable pub read_inputs :
      Database → ResearchRunSubmissionRecord → ExperimentRunRecord → Result Prepared
  read_inputs db submission run = do
    (parameters, execution) ← launch_inputs db submission.configuration_id
    request ← parsed_fields json_decode_error (codec.loads submission.canonical_request_json)
    lineage ← or_raise (to_texts (get "source_lineage" request)) launch_integrity
    source_run_id ← optional_text_of (get "source_run_id" request)
    operation_kind ← required_text (get "operation_kind" request)
    environment ← parsed_fields json_decode_error (codec.loads run.environment_json)
    ok (record {
      saved_parameters = parameters;
      saved_execution_assumptions = execution;
      source_lineage = lineage;
      source_run_id = source_run_id;
      operation_kind = operation_kind;
      runtime_lineage = get "runtime_lineage" environment;
      reproduction_metadata = get "reproduction" environment;
    })

  unfoldable pub prepare :
      Database → ResearchRunSubmissionRecord → ExperimentRunRecord → Result Prepared
  prepare db submission run = or_run_service (read_inputs db submission run)

  -- `_prefect_metadata` and `_summary`
  unfoldable pub summary : ExperimentRunRecord → Result RunSummary
  summary run = do
    environment ← parsed_fields json_decode_error (codec.loads run.environment_json)
    ok (record {
      run_id = run.run_id;
      configuration_id = run.configuration_id;
      strategy_id = run.strategy_id;
      strategy_version = run.strategy_version;
      stage = run.stage;
      status = run.status;
      created_at = run.created_at;
      started_at = run.started_at;
      completed_at = run.completed_at;
      error_summary = run.error_summary;
      prefect_flow_run_id = get "prefect_flow_run_id" environment;
      prefect_api_url = get "prefect_api_url" environment;
      attempt_count = run.attempt_count;
    })

-- `launch_kwargs`
unfoldable pub kwargs_of : LaunchArguments → Prepared → ResearchRunSubmissionRecord → LaunchKwargs
kwargs_of a p submission = record {
  idempotency_key = submission.idempotency_key;
  configuration_id = submission.configuration_id;
  quant_factory_run_id = submission.run_id;
  canonical_request_json = submission.canonical_request_json;
  request_fingerprint = submission.request_fingerprint;
  operation_kind = p.operation_kind;
  source_run_id = p.source_run_id;
  source_lineage = p.source_lineage;
  attempt_marker_path = a.attempt_marker_path;
  fail_after_run_start = a.fail_after_run_start;
  saved_parameters = p.saved_parameters;
  saved_execution_assumptions = p.saved_execution_assumptions;
  frozen_runtime_lineage = p.runtime_lineage;
  timeout_seconds = a.prefect_timeout_seconds;
  reproduction_metadata = unless_null p.reproduction_metadata;
}
