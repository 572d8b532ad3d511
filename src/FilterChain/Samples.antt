-- ===== src/FilterChain/Samples.antt =====
-- Tests of the filter chain, and its theorems at a chain of four stages.
use quant_factory.FilterChain.Handoffs.{scored_handoff, oos_handoff, read_handoff}
use quant_factory.FilterChain.Justified.{IsJustified}
use quant_factory.FilterChain.Outcomes.{run_chain-IsJustified}
use quant_factory.FilterChain.Replay.{reopen-run}
use quant_factory.Python.Text.{
  append, left_chars, is_empty, is_space, right_strip, left_strip, strip,
}
use quant_factory.FilterChain.Checking.{validate_persisted_reference}
use quant_factory.FilterChain.Reserved.{IsReserved, run-reserved, AgreeOn}
use quant_factory.FilterChain.{
  handoff_run_id, stage_may_progress, ready_for_protected_test, FilterStageContext,
  FilterStageHandoff, FilterChainOutcome, StageAdapter, StageOutcome, SourceLock, Surroundings,
  GateResult,
}
use quant_factory.FilterChain.Running.{
  run, finish, obtain_reference, run_stage, Adapters, run_stages, run_chain, reopen,
}
use quant_factory.Prelude.{
  ◌≡◌, refl, true, Option, none, some, List, [], ◌∷◌, String, string_eq, ◌==◌, if◌then◌else◌, arith,
}
use quant_factory.Python.{ok, err, adapter_error}
use quant_factory.Python.Json.{Json, object, text, null, field, end, Codec}
use quant_factory.Persistence.{
  Database, ExperimentRunRecord, ParameterResultRecord, RunStage, succeeded,
}
use quant_factory.Persistence.Tables.{get}
use quant_factory.Persistence.Runs.{get_run}

-- The digests tell the four stages of the chain of run s1 apart.
abbrev digest : String → String
digest s =
    if s == "factory_filter_handoff_v1|s1|s1|oos"
    then "1"
    else if s == "factory_filter_handoff_v1|s1|run_1|walk_forward"
    then "2"
    else if s == "factory_filter_handoff_v1|s1|run_2|robustness"
    then "3"
    else "4"

abbrev lineage : String → Json
lineage source =
    object (field "filter_handoff" (object (field "source_run_id" (text source) end)) end)

abbrev codec : Codec
codec = record { sha256 = digest; loads = λ s. some (lineage s); dumps = λ _. "s1" }

abbrev lock : SourceLock
lock = record { status = "passed"; artifact_id = "a1"; reasons = [] }

abbrev scored : StageOutcome
scored = record { status = "failed"; evidence_identity = some "e"; reasons = "weak" ∷ [] }

abbrev gate : GateResult
gate = record { eligible_to_execute_lockbox = true; reasons = [] }

abbrev world : Surroundings
world = record {
  source_lock = λ run_id db. ok lock;
  stage_outcome = λ run_id db. ok scored;
  lockbox_prerequisites = λ a b c l db. ok gate;
  message = λ e. "raised";
  runtime_lineage = null;
  clock = λ stage. "t1";
}

abbrev stage_run : String → RunStage → String → ExperimentRunRecord
stage_run run_id stage source = record {
  run_id = run_id;
  configuration_id = "c";
  strategy_id = "s";
  strategy_version = "1";
  stage = stage;
  status = succeeded;
  started_at = some "t0";
  completed_at = some "t1";
  error_summary = none;
  environment_json = source;
  created_at = "t0";
  attempt_count = 1;
}

abbrev result_row : ParameterResultRecord
result_row = record {
  run_id = "s1";
  row_id = "r1";
  normalized_parameters_json = "p";
  metrics_json = "m";
  ranking_position = 1;
  screening_status = "passed";
  rejection_reasons = "";
}

abbrev screened : Database
screened = record {
  strategies = [];
  configurations = [];
  manifests = [];
  runs = stage_run "s1" RunStage.screening "" ∷ [];
  events = [];
  submissions = [];
  parameter_results = result_row ∷ [];
}

abbrev validated : Database
validated = record screened {
  runs =
      stage_run "s1" RunStage.screening ""
      ∷ stage_run "run_1" RunStage.oos "s1"
      ∷ stage_run "run_2" RunStage.walk_forward "run_1"
      ∷ stage_run "run_3" RunStage.robustness "run_2"
      ∷ stage_run "run_4" RunStage.monte_carlo "run_3"
      ∷ [];
}

abbrev plain : StageAdapter
plain context db = (ok (record { stage = context.stage; run_id = context.run_id }), db)

-- An adapter that refuses a run that is not there.
abbrev wary : StageAdapter
wary context db = elim (get_run db context.run_id) [
  | none ↦ (err adapter_error, db)
  | some _ ↦ plain context db
]

abbrev four : StageAdapter → Adapters
four adapter RunStage.fixture = none
four adapter RunStage.screening = none
four adapter stage = some adapter

abbrev passed_on : RunStage → String → String → Option String → List String → FilterStageHandoff
passed_on stage run_id status identity reasons = record {
  stage = stage;
  run_id = run_id;
  status = status;
  eligible_to_progress = true;
  evidence_identity = identity;
  reasons = reasons;
}

abbrev ready : FilterChainOutcome
ready = record {
  status = ready_for_protected_test;
  screening_run_id = "s1";
  completed =
      passed_on RunStage.oos "run_1" "passed" (some "a1") []
      ∷ passed_on RunStage.walk_forward "run_2" "failed" (some "e") ("weak" ∷ [])
      ∷ passed_on RunStage.robustness "run_3" "failed" (some "e") ("weak" ∷ [])
      ∷ passed_on RunStage.monte_carlo "run_4" "failed" (some "e") ("weak" ∷ [])
      ∷ [];
  stopped_at = none;
  reasons = "Protected test remains locked until separate authority is granted." ∷ [];
  protected_test_gate = some gate;
}

reopen-run_example :
    (validated ≡ validated) × (run codec world "s1" (four plain) validated ≡ (ok ready, validated))
unfolding reopen run_chain run_stages run_stage obtain_reference get_run get read_handoff
    oos_handoff scored_handoff stage_may_progress validate_persisted_reference handoff_run_id finish
    append left_chars strip left_strip right_strip is_space is_empty
reopen-run_example = reopen-run codec world (four plain) "s1" validated validated ready refl refl

run_chain-IsJustified_example : IsJustified codec world none "s1" validated ready validated
unfolding run_chain run_stages run_stage obtain_reference get_run get read_handoff oos_handoff
    scored_handoff stage_may_progress validate_persisted_reference handoff_run_id finish append
    left_chars strip left_strip right_strip is_space is_empty
run_chain-IsJustified_example =
    run_chain-IsJustified codec world none "s1" validated validated ready refl

agrees :
    (context : FilterStageContext) (db : Database)
    → IsReserved context db
    → wary context db ≡ plain context db
agrees context db (found, there, _, _) = ground arith

wary_agrees : (stage : RunStage) → AgreeOn (four wary stage) (four plain stage)
wary_agrees RunStage.fixture = tt
wary_agrees RunStage.screening = tt
wary_agrees RunStage.oos = λ context db reserved. agrees context db reserved
wary_agrees RunStage.walk_forward = λ context db reserved. agrees context db reserved
wary_agrees RunStage.robustness = λ context db reserved. agrees context db reserved
wary_agrees RunStage.monte_carlo = λ context db reserved. agrees context db reserved

run-reserved_example :
    run codec world "s1" (four wary) screened ≡ run codec world "s1" (four plain) screened
run-reserved_example = run-reserved codec world (four wary) (four plain) wary_agrees "s1" screened
