-- ===== src/RunService.antt =====
-- orchestration/run_service.py, `FixtureRunService.launch_fixture`, with orchestration/fixture_contracts.py.
--
-- The launcher is injected: it may change the database, and it returns or raises. The types of the
-- model make the checks of the operation and of the arguments' types.
pub mod Preparing
pub mod Launches
pub mod Launching
pub mod Replaying
pub mod Answering
mod Samples
use quant_factory.Prelude.{
  ℕ, Bool, true, false, ◌&&◌, ◌||◌, not, Option, none, some, String, nat_eq, string_eq, ◌==◌, ◌!=◌,
  if◌then◌else◌,
}
use quant_factory.Python.{
  Exn, Result, ok, err, key_error, value_error, attribute_error, json_decode_error,
  launch_integrity, run_service, fixture_timeout, raise_unless, raise_if, or_raise,
}
use quant_factory.Python.Exec.{Exec, pure, raise, lift, gets, ◌>>=◌, ◌>>◌}
use quant_factory.Python.Text.{append}
use quant_factory.Python.Json.{
  Json, Fields, Codec, Texts, null, text, object, boolean, end, field, get, get_field, has_field,
  is_text, to_texts,
}
use quant_factory.Persistence.{
  Database, RunStage, RunStatus, ResearchLaunchOperation, reproduction, operation_value,
  StrategyLifecycle, infrastructure_fixture, is_lifecycle, ExperimentRunRecord,
  ResearchRunSubmissionRecord, service_integrity_error, error,
}
use quant_factory.Persistence.Runs.{get_run}
use quant_factory.Persistence.Events.{append_event}
use quant_factory.Persistence.Submissions.{get_submission, is_claimed}
use quant_factory.Launch.{
  fixture_launch_contract, ResearchLaunchRequest, ResearchLaunchClaim, ResearchDispatchResult, Call,
}
use quant_factory.Launch.Claims.{get_configuration, get_strategy}
use quant_factory.Launch.Operations.{claim}
use quant_factory.Launch.Dispatch.{launch_get, dispatch}

pub record FixtureExecutionResult : Type 0 where
  pub quant_factory_run_id : String
  pub prefect_flow_run_id : String
  pub configuration_id : String
  pub deterministic_value : ℕ
  pub attempt_count : ℕ
  pub prefect_api_url : Option String

-- `launch_kwargs`, without the path of the database
pub record LaunchKwargs : Type 0 where
  pub idempotency_key : String
  pub configuration_id : String
  pub quant_factory_run_id : String
  pub canonical_request_json : String
  pub request_fingerprint : String
  pub operation_kind : String
  pub source_run_id : Option String
  pub source_lineage : Texts
  pub attempt_marker_path : Option String
  pub fail_after_run_start : Bool
  pub saved_parameters : Json
  pub saved_execution_assumptions : Json
  pub frozen_runtime_lineage : Json
  pub timeout_seconds : Option Json
  pub reproduction_metadata : Option Json

-- `run` is the call of the launcher, `none` where it returns another object. `late` is the database
-- at the end of the timeout, where the call is still running then.
pub record FixtureLauncher : Type 0 where
  pub run : LaunchKwargs → Exec Database (Option FixtureExecutionResult)
  pub late : LaunchKwargs → (timeout : Json) → Database → Option Database

-- The arguments of `launch_fixture`; a timeout is a number.
pub record LaunchArguments : Type 0 where
  pub idempotency_key : Option String
  pub configuration_id : String
  pub operation : ResearchLaunchOperation
  pub source_run_id : Option String
  pub source_lineage : Option Texts
  pub run_id : Option String
  pub attempt_marker_path : Option String
  pub fail_after_run_start : Bool
  pub max_attempts : ℕ
  pub controlled_transient_failures : ℕ
  pub timeout_seconds : Option Json
  pub prefect_timeout_seconds : Option Json
  pub reproduction_metadata : Option Json

-- What a launch meets outside the program: the test of a timeout, which is a comparison of floats,
-- the times, the fresh run identity, and the document of the runtime.
pub record Host : Type 0 where
  pub is_timeout : Json → Bool
  pub claiming : Call
  pub beginning : Call
  pub ending : Call
  pub now : String
  pub runtime_lineage : Json

pub record RunSummary : Type 0 where
  pub run_id : String
  pub configuration_id : String
  pub strategy_id : String
  pub strategy_version : String
  pub stage : RunStage
  pub status : RunStatus
  pub created_at : String
  pub started_at : Option String
  pub completed_at : Option String
  pub error_summary : Option String
  pub prefect_flow_run_id : Json
  pub prefect_api_url : Json
  pub attempt_count : ℕ

pub record RunLaunchResult : Type 0 where
  pub run : RunSummary
  pub prefect_result : Option FixtureExecutionResult
  pub submission : ResearchRunSubmissionRecord
  pub invoked : Bool

-- What `launch_fixture` reads before it dispatches.
pub record Prepared : Type 0 where
  pub saved_parameters : Json
  pub saved_execution_assumptions : Json
  pub source_lineage : Texts
  pub source_run_id : Option String
  pub operation_kind : String
  pub runtime_lineage : Json
  pub reproduction_metadata : Json

-- a parsed document on which `get` is called
abbrev pub parsed_fields : Exn → Option Json → Result Fields
parsed_fields e none = err e
parsed_fields e (some (object fs)) = ok fs
parsed_fields e (some _) = err attribute_error

abbrev pub has_value : {A : Type 0} → Option A → Bool
has_value none = false
has_value (some a) = true

abbrev pub optional_text_of : Json → Result (Option String)
optional_text_of null = ok none
optional_text_of (text s) = ok (some s)
optional_text_of _ = err launch_integrity

abbrev pub required_text : Json → Result String
required_text (text s) = ok s
required_text _ = err launch_integrity

-- `except Exception as exc: raise RunServiceError(...) from exc`
abbrev pub or_run_service : {A : Type 0} → Result A → Result A
or_run_service (ok a) = ok a
or_run_service (err e) = err run_service

abbrev pub is_reproduction : ResearchLaunchOperation → Bool
is_reproduction reproduction = true
is_reproduction _ = false

abbrev pub unless_null : Json → Option Json
unless_null null = none
unless_null value = some value
