-- ===== src/FilterChain.antt =====
-- orchestration/filter_chain.py: the stages of validation in their fixed order, each on evidence that
-- is read back. This file holds the records, the decisions and the identity of a stage's run.
pub mod Reserving
pub mod Checking
pub mod Handoffs
pub mod Running
pub mod Replay
pub mod Evidence
pub mod Reached
mod Justified
mod Gates
pub mod Outcomes
pub mod Reserved
mod Samples
use quant_factory.Prelude.{
  Bool, true, false, ◌&&◌, Option, none, some, List, [], ◌∷◌, String, string_eq, ◌==◌,
  if◌then◌else◌, length, nat_eq,
}
use quant_factory.Python.{Exn, Result}
use quant_factory.Python.Text.{append, left_chars}
use quant_factory.Python.Json.{Json, Codec}
use quant_factory.Python.Exec.{Exec}
use quant_factory.Persistence.{RunStage, stage_value, Database}

pub data ChainStatus : Type 0 where
  screened_out stopped ready_for_protected_test : ChainStatus

-- `VALIDATION_STAGE_ORDER`
abbrev pub validation_stage_order : List RunStage
validation_stage_order =
    RunStage.oos ∷ RunStage.walk_forward ∷ RunStage.robustness ∷ RunStage.monte_carlo ∷ []

-- `SCORED_VALIDATION_STAGES`
abbrev pub is_scored : RunStage → Bool
is_scored RunStage.walk_forward = true
is_scored RunStage.robustness = true
is_scored RunStage.monte_carlo = true
is_scored _ = false

-- What the evidence service reads back for a stage other than OOS.
pub record StageOutcome : Type 0 where
  pub status : String
  pub evidence_identity : Option String
  pub reasons : List String

pub record SourceLock : Type 0 where
  pub status : String
  pub artifact_id : String
  pub reasons : List String

pub record GateResult : Type 0 where
  pub eligible_to_execute_lockbox : Bool
  pub reasons : List String

abbrev pub undecided_folds : List String
undecided_folds = "successful walk-forward folds do not define an overall acceptance decision" ∷ []

abbrev pub is_same_reasons : List String → List String → Bool
is_same_reasons [] [] = true
is_same_reasons [] (b ∷ bs) = false
is_same_reasons (a ∷ rest) [] = false
is_same_reasons (a ∷ rest) (b ∷ bs) = a == b && is_same_reasons rest bs

-- `_stage_may_progress`
unfoldable pub stage_may_progress : RunStage → StageOutcome → Bool
stage_may_progress stage outcome =
    if outcome.status == "passed"
    then true
    else if is_scored stage && outcome.status == "failed"
    then true
    else elim stage [
      | RunStage.monte_carlo ↦ outcome.status == "insufficient_evidence"
      | RunStage.walk_forward ↦
          outcome.status == "insufficient_evidence"
          && is_same_reasons outcome.reasons undecided_folds
      | _ ↦ false
    ]

pub record PersistedStageReference : Type 0 where
  pub stage : RunStage
  pub run_id : String

pub record FilterStageContext : Type 0 where
  pub screening_run_id : String
  pub stage : RunStage
  pub run_id : String
  pub previous : List PersistedStageReference

-- `references[-1].run_id if references else screening_run_id`
abbrev pub previous_run_id : String → List PersistedStageReference → String
previous_run_id screening_run_id [] = screening_run_id
previous_run_id screening_run_id (r ∷ rs) = previous_run_id r.run_id rs

pub record FilterStageHandoff : Type 0 where
  pub stage : RunStage
  pub run_id : String
  pub status : String
  pub eligible_to_progress : Bool
  pub evidence_identity : Option String
  pub reasons : List String

pub record FilterChainOutcome : Type 0 where
  pub status : ChainStatus
  pub screening_run_id : String
  pub completed : List FilterStageHandoff
  pub stopped_at : Option String
  pub reasons : List String
  pub protected_test_gate : Option GateResult

-- `Mapping[RunStage, StageAdapter]`: an adapter may change the database, and returns or raises.
abbrev pub StageAdapter : Type 0
StageAdapter = FilterStageContext → Exec Database PersistedStageReference

-- What the chain takes from its neighbours: the evidence service, which reads the database and the
-- stored artifacts, the text of an exception, the runtime lineage that a run is frozen with, and the
-- times that a stage reads.
pub record Surroundings : Type 0 where
  pub source_lock : String → Database → Result SourceLock
  pub stage_outcome : String → Database → Result StageOutcome
  pub lockbox_prerequisites :
      (walk_forward monte_carlo robustness : String) → SourceLock → Database → Result GateResult
  pub message : Exn → String
  pub runtime_lineage : Json
  pub clock : RunStage → String

-- `_handoff_run_id`
unfoldable pub handoff_run_id :
    Codec → (screening_run_id source_run_id : String) → RunStage → String
handoff_run_id codec screening_run_id source_run_id stage = append "run_" (
    left_chars 32 (
      codec.sha256 (
        append "factory_filter_handoff_v1|" (
          append screening_run_id
            (append "|" (append source_run_id (append "|" (stage_value stage))))))))
