-- ===== src/Persistence.antt =====
-- persistence/models.py: the typed records of the experiment database, and its tables.
pub mod Tables
pub mod Runs
pub mod Events
pub mod Submissions
use quant_factory.Prelude.{
  ℕ, ◌≡◌, refl, Bool, true, false, ◌||◌, Option, none, some, List, String, nat_eq, ◌==◌,
  if◌then◌else◌,
}
use quant_factory.Python.{Exn, Result, ok, err, value_error}

pub data StrategyLifecycle : Type 0 where
  infrastructure_fixture candidate rejected watchlist paper_candidate : StrategyLifecycle
  live_test_candidate paused retired : StrategyLifecycle

pub data RunStage : Type 0 where
  fixture screening oos walk_forward robustness monte_carlo : RunStage

pub data RunStatus : Type 0 where
  created running succeeded failed cancelled : RunStatus

pub data ResearchLaunchOperation : Type 0 where
  run_test historical_relaunch reproduction : ResearchLaunchOperation

pub data ResearchSubmissionState : Type 0 where
  claimed invoking acknowledged submission_unknown : ResearchSubmissionState
  failed_before_submission abandoned : ResearchSubmissionState

pub data RunEventType : Type 0 where
  run_created run_started run_succeeded run_failed run_cancelled : RunEventType
  run_cancellation_requested run_retry_scheduled run_timed_out : RunEventType
  run_stale_recovered service_integrity_error : RunEventType

pub data EventSeverity : Type 0 where
  info error : EventSeverity

-- The members of a `str` enumeration are compared by their values, here by their numbers.
abbrev lifecycle_number : StrategyLifecycle → ℕ
lifecycle_number infrastructure_fixture = 0
lifecycle_number candidate = 1
lifecycle_number rejected = 2
lifecycle_number watchlist = 3
lifecycle_number paper_candidate = 4
lifecycle_number live_test_candidate = 5
lifecycle_number paused = 6
lifecycle_number retired = 7

abbrev pub is_lifecycle : StrategyLifecycle → StrategyLifecycle → Bool
is_lifecycle a b = lifecycle_number a == lifecycle_number b

abbrev pub stage_number : RunStage → ℕ
stage_number fixture = 0
stage_number screening = 1
stage_number oos = 2
stage_number walk_forward = 3
stage_number robustness = 4
stage_number monte_carlo = 5

abbrev pub is_stage : RunStage → RunStage → Bool
is_stage a b = stage_number a == stage_number b

abbrev pub stage_value : RunStage → String
stage_value fixture = "fixture"
stage_value screening = "screening"
stage_value oos = "oos"
stage_value walk_forward = "walk_forward"
stage_value robustness = "robustness"
stage_value monte_carlo = "monte_carlo"

abbrev pub operation_value : ResearchLaunchOperation → String
operation_value run_test = "run_test"
operation_value historical_relaunch = "historical_relaunch"
operation_value reproduction = "reproduction"

abbrev pub is_created : RunStatus → Bool
is_created created = true
is_created _ = false

abbrev pub is_succeeded : RunStatus → Bool
is_succeeded succeeded = true
is_succeeded _ = false

-- `TERMINAL_RUN_STATUSES`
abbrev pub is_terminal : RunStatus → Bool
is_terminal created = false
is_terminal running = false
is_terminal _ = true

-- `new in RUN_STATUS_TRANSITIONS[current]`
abbrev may_become : RunStatus → RunStatus → Bool
may_become created running = true
may_become created failed = true
may_become created cancelled = true
may_become running succeeded = true
may_become running failed = true
may_become running cancelled = true
may_become _ _ = false

unfoldable pub validate_run_transition : RunStatus → RunStatus → Result (Unit {0})
validate_run_transition current new = if may_become current new then ok tt else err value_error

pub record StrategyRecord : Type 0 where
  pub strategy_id : String
  pub strategy_version : String
  pub display_name : String
  pub description : String
  pub lifecycle : StrategyLifecycle
  pub active : Bool
  pub created_at : String
  pub updated_at : String

pub record ConfigurationRecord : Type 0 where
  pub configuration_id : String
  pub experiment_id : String
  pub strategy_id : String
  pub strategy_version : String
  pub canonical_config_json : String
  pub config_hash : String
  pub created_at : String

pub record ExperimentRunRecord : Type 0 where
  pub run_id : String
  pub configuration_id : String
  pub strategy_id : String
  pub strategy_version : String
  pub stage : RunStage
  pub status : RunStatus
  pub started_at : Option String
  pub completed_at : Option String
  pub error_summary : Option String
  pub environment_json : String
  pub created_at : String
  pub attempt_count : ℕ

pub record RunEventRecord : Type 0 where
  pub event_id : ℕ
  pub run_id : String
  pub event_type : RunEventType
  pub occurred_at : String
  pub severity : EventSeverity
  pub source : String
  pub message : String

pub record ResearchRunSubmissionRecord : Type 0 where
  pub idempotency_key : String
  pub run_id : String
  pub configuration_id : String
  pub canonical_request_json : String
  pub request_fingerprint : String
  pub state : ResearchSubmissionState
  pub dispatcher_instance_id : Option String
  pub prefect_flow_run_id : Option String
  pub prefect_api_url : Option String
  pub claimed_at : String
  pub invocation_started_at : Option String
  pub acknowledged_at : Option String
  pub unknown_at : Option String
  pub unknown_evidence_reference : Option String
  pub resolved_at : Option String
  pub resolution_evidence_reference : Option String
  pub updated_at : String
  pub error_summary : Option String

-- A row of `run_manifests`.
pub record RunManifestRecord : Type 0 where
  pub run_id : String
  pub manifest_json : String
  pub content_checksum : String

pub record ParameterResultRecord : Type 0 where
  pub run_id : String
  pub row_id : String
  pub normalized_parameters_json : String
  pub metrics_json : String
  pub ranking_position : ℕ
  pub screening_status : String
  pub rejection_reasons : String

-- The tables that the modelled code reads and writes, each in the order of insertion; the parameter
-- results of a run in the order of their ranking.
pub record Database : Type 0 where
  pub strategies : List StrategyRecord
  pub configurations : List ConfigurationRecord
  pub manifests : List RunManifestRecord
  pub runs : List ExperimentRunRecord
  pub events : List RunEventRecord
  pub submissions : List ResearchRunSubmissionRecord
  pub parameter_results : List ParameterResultRecord
