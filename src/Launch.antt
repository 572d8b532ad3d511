-- ===== src/Launch.antt =====
-- orchestration/research_launch_claims.py: the durable claim of one research launch, its hand-over to
-- the dispatcher, and its recovery. This file holds the contracts and the requests.
pub mod Requests
pub mod Lineage
pub mod Claims
pub mod Operations
pub mod Binding
pub mod Dispatch
pub mod Effects
pub mod Acknowledging
pub mod Coupling
pub mod Steps
pub mod Lifecycle
pub mod Consistency
pub mod Progress
pub mod Once
pub mod Dispatching
pub mod Atomic
pub mod Claiming
pub mod Samples
use quant_factory.Prelude.{
  ℕ, Bool, true, false, ◌&&◌, Option, none, some, String, nat_eq, string_eq, ◌==◌,
}
use quant_factory.Python.{Exn}
use quant_factory.Python.Json
use quant_factory.Python.Json.{Json, Texts}
use quant_factory.Persistence.{
  RunStage, StrategyLifecycle, ResearchLaunchOperation, ExperimentRunRecord,
  ResearchRunSubmissionRecord,
}

-- `protocol_version: int | str`
pub data Protocol : Type 0 where
  version : ℕ → Protocol
  name : String → Protocol

pub record ResearchLaunchContract : Type 0 where
  pub protocol_version : Protocol
  pub accepted_launch_policy : String
  pub stage : RunStage
  pub required_strategy_lifecycle : StrategyLifecycle
  pub stage_field : String
  pub created_event_message : String
  pub started_event_message : String

abbrev pub fixture_launch_contract : ResearchLaunchContract
fixture_launch_contract = record {
  protocol_version = version 1;
  accepted_launch_policy = "milestone23_infrastructure_fixture_only";
  stage = RunStage.fixture;
  required_strategy_lifecycle = StrategyLifecycle.infrastructure_fixture;
  stage_field = "fixture_stage";
  created_event_message = "Run created for durable research fixture submission.";
  started_event_message = "Run started through acknowledged Prefect fixture execution.";
}

abbrev candidate_screening_launch_contract : ResearchLaunchContract
candidate_screening_launch_contract = record {
  protocol_version = name "candidate_screening_v1";
  accepted_launch_policy = "owner_approved_candidate_screening_only";
  stage = RunStage.screening;
  required_strategy_lifecycle = StrategyLifecycle.candidate;
  stage_field = "candidate_stage";
  created_event_message = "Run created for explicit candidate screening submission.";
  started_event_message = "Run started through acknowledged Prefect candidate screening execution.";
}

-- `value == protocol_version`: in Python `True` and `1.0` equal 1 too.
abbrev pub is_protocol : Json → Protocol → Bool
is_protocol (Json.number n) (version m) = n == m
is_protocol (Json.boolean true) (version m) = m == 1
is_protocol (Json.fraction s) (version m) = (m == 1) && (s == "1.0")
is_protocol (Json.text s) (name t) = s == t
is_protocol _ _ = false

abbrev pub of_protocol : Protocol → Json
of_protocol (version n) = Json.number n
of_protocol (name s) = Json.text s

pub record ResearchLaunchRequest : Type 0 where
  pub operation : ResearchLaunchOperation
  pub configuration_id : String
  pub source_run_id : Option String
  pub source_lineage : Option Texts

pub record ResearchLaunchClaim : Type 0 where
  pub submission : ResearchRunSubmissionRecord
  pub run : ExperimentRunRecord
  pub is_created : Bool

pub record ResearchDispatchDecision : Type 0 where
  pub submission : ResearchRunSubmissionRecord
  pub should_invoke : Bool

pub record ResearchDispatchResult (A : Type 0) : Type 0 where
  pub submission : ResearchRunSubmissionRecord
  pub invoked : Bool
  pub value : Option A

-- What one call meets outside the program: whether the database stays locked, the readings of
-- `utc_now`, the fresh run identity, and the failure that the test hook raises at a step.
pub record Call : Type 0 where
  pub is_busy : Bool
  pub clock : ℕ → String
  pub new_run_id : String
  pub claim_failure : String → Option Exn
