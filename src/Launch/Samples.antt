-- ===== src/Launch/Samples.antt =====
-- Tests of the research launch, and its theorems at a small database.
use quant_factory.Launch.Lineage.{derive_source_lineage}
use quant_factory.Persistence.Tables.{is_updated, update}
use quant_factory.Persistence.Events.{append_event}
use quant_factory.Persistence.Runs.{create_run, get_run}
use quant_factory.Python.Text.{is_space, uuid_groups, right_strip, left_strip, length}
use quant_factory.Python.Text.{is_canonical_uuid, all_codes, is_empty, strip, full_match}
use quant_factory.Launch.Claims.{
  validate_persisted_claim, claimed_run, claimed_configuration, check_lineage, check_run,
  check_identity, check_contract, stored_document, canonical_request_for_configuration,
  check_configuration, request_document, request_fingerprint, operation_of, get_strategy,
  get_configuration,
}
use quant_factory.Python.{contention, ok, err}
use quant_factory.Persistence.Tables.{is_updated, update, get}
use quant_factory.Python.Exec.{Exec}
use quant_factory.Launch.Requests.{
  normalize_request, normalize_lineage, has_allowed_keys, optional_bounded_text, bounded_text,
  validate_dispatcher_id, validate_run_id, validate_launch_key,
}
use quant_factory.Persistence.Submissions.{
  set_invoking, create_submission, set_unknown, is_invoking, set_acknowledged, get_submission,
}
use quant_factory.Launch.Operations.{
  begin_body, claim_body, create_claim, replay_claim, reread, begin_dispatch, unknown_body,
  mark_invocation_unknown, immediate, claim,
}
use quant_factory.Prelude.{
  refl, ◌≡◌, ◌≤◌, true, false, none, some, List, [], ◌∷◌, String, arith, if◌then◌else◌,
}
use quant_factory.Python.Json.{texts_eq, Json, object, text, null, Fields, field, end, Codec}
use quant_factory.Persistence.{
  created, claimed, acknowledged, running, Database, StrategyRecord, ConfigurationRecord,
  StrategyLifecycle, run_test,
}
use quant_factory.Launch.{
  RunStage, Bool, ResearchDispatchResult, ResearchLaunchClaim, ResearchRunSubmissionRecord,
  ExperimentRunRecord, ResearchLaunchContract, ResearchLaunchRequest, Call, fixture_launch_contract,
}
use quant_factory.Launch.Steps.{Commit}
use quant_factory.Launch.Coupling.{IsConsistent}
use quant_factory.Launch.Progress.{Advances, perform_all-Advances, perform_all-settled}
use quant_factory.Launch.Once.{left, told, invocations, invocations-left}
use quant_factory.Launch.Atomic.{raises, perform-raises}
use quant_factory.Launch.Claiming.{claim_again}
use quant_factory.Launch.Dispatch.{dispatch, invoke_marked, after_return, launch_get}
use quant_factory.Launch.Dispatching.{IsMarked, dispatch-marked, dispatch-returned}
use quant_factory.Launch.Lifecycle.{
  perform, perform-Commit, Operation, claiming, beginning, marking,
}
use quant_factory.Launch.Consistency.{perform_all, perform_all-IsConsistent}

abbrev pub key : String
key = "launch_0123456789"

abbrev pub dispatcher : String
dispatcher = "00000000-0000-4000-8000-000000000000"

-- One document serves as configuration, as request and as environment.
abbrev document : Fields
document = field "protocol_version" (Json.number 1) (
    field "operation_kind" (text "run_test") (
      field "configuration_id" (text "c") (
        field "configuration_hash" (text "doc") (
          field "strategy_id" (text "s") (
            field "strategy_version" (text "1") (
              field "fixture_stage" (text "fixture") (
                field "accepted_launch_policy" (text "milestone23_infrastructure_fixture_only") (
                  field "source_run_id" null (
                    field "source_lineage" (object end) (
                      field "parameters" (object end) (field "execution" (object end) end)))))))))))

abbrev pub codec : Codec
codec = record { sha256 = λ s. s; loads = λ _. some (object document); dumps = λ _. "doc" }

abbrev contract : ResearchLaunchContract
contract = fixture_launch_contract

abbrev configuration : ConfigurationRecord
configuration = record {
  configuration_id = "c";
  experiment_id = "e";
  strategy_id = "s";
  strategy_version = "1";
  canonical_config_json = "doc";
  config_hash = "doc";
  created_at = "t0";
}

abbrev strategy : StrategyRecord
strategy = record {
  strategy_id = "s";
  strategy_version = "1";
  display_name = "S";
  description = "";
  lifecycle = StrategyLifecycle.infrastructure_fixture;
  active = true;
  created_at = "t0";
  updated_at = "t0";
}

abbrev pub saved : Database
saved = record {
  strategies = strategy ∷ [];
  configurations = configuration ∷ [];
  manifests = [];
  runs = [];
  events = [];
  submissions = [];
  parameter_results = [];
}

abbrev request : ResearchLaunchRequest
request = record {
  operation = run_test;
  configuration_id = "c";
  source_run_id = none;
  source_lineage = none;
}

abbrev pub call : Call
call = record { is_busy = false; clock = λ n. "t1"; new_run_id = "r1"; claim_failure = λ _. none }

abbrev busy : Call
busy = record call { is_busy = true }

abbrev environment : Json
environment = object end

abbrev ops : List Operation
ops =
    claiming call key request environment
    ∷ beginning call key dispatcher
    ∷ beginning call key dispatcher
    ∷ marking call key dispatcher "lost"
    ∷ []

abbrev after : Database
after = perform_all codec contract ops saved

abbrev new_run : ExperimentRunRecord
new_run = record {
  run_id = "r1";
  configuration_id = "c";
  strategy_id = "s";
  strategy_version = "1";
  stage = RunStage.fixture;
  status = created;
  started_at = none;
  completed_at = none;
  error_summary = none;
  environment_json = "doc";
  created_at = "t1";
  attempt_count = 0;
}

abbrev submission : ResearchRunSubmissionRecord
submission = record {
  idempotency_key = key;
  run_id = "r1";
  configuration_id = "c";
  canonical_request_json = "doc";
  request_fingerprint = "doc";
  state = claimed;
  dispatcher_instance_id = none;
  prefect_flow_run_id = none;
  prefect_api_url = none;
  claimed_at = "t1";
  invocation_started_at = none;
  acknowledged_at = none;
  unknown_at = none;
  unknown_evidence_reference = none;
  resolved_at = none;
  resolution_evidence_reference = none;
  updated_at = "t1";
  error_summary = none;
}

abbrev held : Database
held = record saved { runs = new_run ∷ []; submissions = submission ∷ [] }

abbrev pub settled : ResearchRunSubmissionRecord
settled = record submission { state = acknowledged; prefect_flow_run_id = some "f1" }

abbrev pub started : Database
started = record saved {
  runs = (record new_run { status = running }) ∷ [];
  submissions = settled ∷ [];
}

saved-IsConsistent : IsConsistent saved
unfolding get_submission get
saved-IsConsistent = record {
  coupled = λ k s e. absurd cc;
  distinct = λ j k s t e e' same. absurd cc;
}

perform-Commit_example : Commit held (perform codec contract (beginning call key dispatcher) held)
perform-Commit_example = perform-Commit codec contract (beginning call key dispatcher) held

perform_all-IsConsistent_example : IsConsistent (perform_all codec contract ops saved)
perform_all-IsConsistent_example =
    perform_all-IsConsistent codec contract ops saved saved-IsConsistent

perform_all-Advances_example :
    (t : ResearchRunSubmissionRecord) × (get_submission (perform_all codec contract ops held) key
      ≡ some t)
    × Advances submission t
unfolding get_submission get
perform_all-Advances_example = perform_all-Advances codec contract ops held key submission refl

perform_all-settled_example :
    get_submission (perform_all codec contract ops started) key ≡ some settled
unfolding get_submission get
perform_all-settled_example = perform_all-settled codec contract ops started key settled refl refl

invocations-left_example : invocations codec contract key ops saved ≤ left key saved
invocations-left_example = invocations-left codec contract key ops saved

-- Of the two dispatchers one is told to invoke.
told_once : invocations codec contract key ops saved ≡ 1
unfolding invocations told perform mark_invocation_unknown unknown_body set_unknown
    validate_launch_key validate_run_id validate_dispatcher_id bounded_text optional_bounded_text
    has_allowed_keys normalize_lineage normalize_request get_configuration get_strategy operation_of
    request_fingerprint request_document check_configuration canonical_request_for_configuration
    full_match strip is_empty all_codes is_canonical_uuid length left_strip right_strip uuid_groups
    is_space stored_document check_contract check_identity check_run check_lineage
    claimed_configuration claimed_run validate_persisted_claim immediate reread replay_claim
    create_claim claim_body claim begin_body begin_dispatch get_run create_run append_event
    get_submission create_submission set_invoking set_acknowledged get update is_updated texts_eq
    derive_source_lineage
told_once = refl

perform-raises_example :
    perform codec contract (claiming busy key request environment) saved ≡ saved
unfolding raises claim validate_launch_key immediate full_match
perform-raises_example =
    perform-raises codec contract (claiming busy key request environment) saved refl

abbrev first_answer : ResearchLaunchClaim
first_answer = record { submission = submission; run = new_run; is_created = true }

abbrev second_answer : ResearchLaunchClaim
second_answer = record { submission = submission; run = new_run; is_created = false }

abbrev claimed_db : Database
claimed_db = (claim codec contract call key request environment saved).1

claim_again_example :
    (second_answer.is_created ≡ false)
    × (claimed_db ≡ perform_all codec contract [] claimed_db)
    × Advances first_answer.submission second_answer.submission
unfolding perform_all validate_launch_key validate_run_id validate_dispatcher_id bounded_text
    optional_bounded_text has_allowed_keys normalize_lineage normalize_request get_configuration
    get_strategy operation_of request_fingerprint request_document check_configuration
    canonical_request_for_configuration full_match strip is_empty all_codes is_canonical_uuid length
    left_strip right_strip uuid_groups is_space stored_document check_contract check_identity
    check_run check_lineage claimed_configuration claimed_run validate_persisted_claim immediate
    reread replay_claim create_claim claim_body claim begin_body begin_dispatch get_run create_run
    append_event get_submission create_submission set_invoking set_acknowledged get update
    is_updated texts_eq derive_source_lineage
claim_again_example =
    claim_again codec contract call call key request request environment environment saved
      claimed_db claimed_db [] first_answer second_answer refl refl

abbrev wary : ResearchRunSubmissionRecord → Exec Database String
wary s db = if is_invoking s then (ok s.run_id, db) else (err contention, db)

abbrev plain : ResearchRunSubmissionRecord → Exec Database String
plain s db = (ok s.run_id, db)

wary_agrees :
    (s : ResearchRunSubmissionRecord) (db : Database)
    → IsMarked key dispatcher db s
    → wary s db ≡ plain s db
wary_agrees s db (at_s, state, by) = ground arith

dispatch-marked_example :
    dispatch codec contract call call key dispatcher wary held
    ≡ dispatch codec contract call call key dispatcher plain held
dispatch-marked_example =
    dispatch-marked codec contract key dispatcher call call wary plain held wary_agrees

-- A callable that acknowledges its own submission, as the flow does.
abbrev binds : ResearchRunSubmissionRecord → Exec Database Bool
binds s db = set_acknowledged s.idempotency_key "f1" none "t2" db

abbrev returned : ResearchDispatchResult Bool
returned = record {
  submission = record submission {
    state = acknowledged;
    dispatcher_instance_id = some dispatcher;
    prefect_flow_run_id = some "f1";
    acknowledged_at = some "t2";
    invocation_started_at = some "t1";
    updated_at = "t2";
  };
  invoked = true;
  value = some true;
}

abbrev dispatched_db : Database
dispatched_db = (dispatch codec contract call call key dispatcher binds held).1

dispatch-returned_example :
    (s : ResearchRunSubmissionRecord) × (db1 : Database) × (value : Bool) × IsMarked key dispatcher
      db1 s
    × (binds s db1 ≡ (ok value, dispatched_db))
    × (returned.value ≡ some value)
    × (get_submission dispatched_db key ≡ some returned.submission)
    × (is_invoking returned.submission ≡ false)
unfolding dispatch invoke_marked after_return launch_get validate_launch_key validate_run_id
    validate_dispatcher_id bounded_text optional_bounded_text has_allowed_keys normalize_lineage
    normalize_request get_configuration get_strategy operation_of request_fingerprint
    request_document check_configuration canonical_request_for_configuration full_match strip
    is_empty all_codes is_canonical_uuid length left_strip right_strip uuid_groups is_space
    stored_document check_contract check_identity check_run check_lineage claimed_configuration
    claimed_run validate_persisted_claim immediate reread replay_claim create_claim claim_body claim
    begin_body begin_dispatch get_run create_run append_event get_submission create_submission
    set_invoking set_acknowledged get update is_updated texts_eq derive_source_lineage
dispatch-returned_example =
    dispatch-returned codec contract key dispatcher call call binds held dispatched_db returned refl
      refl
