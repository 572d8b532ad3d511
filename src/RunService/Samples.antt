-- ===== src/RunService/Samples.antt =====
-- Tests of `launch_fixture`, and the theorems at a small database.
use quant_factory.RunService.Answering.{launch_fixture-returned}
use quant_factory.Launch.Requests.{
  bounded_text, has_allowed_keys, normalize_lineage, normalize_request, optional_bounded_text,
  validate_dispatcher_id, validate_launch_key, validate_run_id,
}
use quant_factory.Launch.Claims.{
  canonical_request_for_configuration, check_configuration, check_contract, check_identity,
  check_lineage, check_run, claimed_configuration, claimed_run, get_configuration, get_strategy,
  operation_of, request_document, request_fingerprint, stored_document, validate_persisted_claim,
}
use quant_factory.Python.Text.{
  all_codes, full_match, is_canonical_uuid, is_empty, is_space, left_strip, length, right_strip,
  strip, uuid_groups,
}
use quant_factory.Launch.Operations.{
  begin_body, begin_dispatch, claim, claim_body, create_claim, immediate, replay_claim, reread,
}
use quant_factory.Persistence.Runs.{create_run, get_run}
use quant_factory.Persistence.Events.{append_event}
use quant_factory.Persistence.Submissions.{
  create_submission, get_submission, set_acknowledged, set_invoking,
}
use quant_factory.Persistence.Tables.{get, is_updated, update}
use quant_factory.Python.Json.{texts_eq}
use quant_factory.Launch.Lineage.{derive_source_lineage}
use quant_factory.Launch.Dispatch.{after_return, dispatch, invoke_marked, launch_get}
use quant_factory.RunService.Launches.{
  answer, answer_claim, answer_dispatch, claim_of, dispatch_claim, dispatch_prepared,
  invoke_fixture, launch_fixture, launch_under, launch_with_timeout, timed_call,
}
use quant_factory.RunService.Preparing.{
  check_arguments, key_of, kwargs_of, launch_inputs, new_environment, prepare, read_inputs, summary,
  validate_timeout,
}
use quant_factory.Prelude.{
  String, ◌≡◌, refl, Bool, true, false, Option, none, some, [], ◌∷◌, if◌then◌else◌,
}
use quant_factory.Python.{Result, ok, err, sqlite_integrity}
use quant_factory.Python.Exec.{Exec}
use quant_factory.Python.Json.{null}
use quant_factory.Persistence.{created, fixture, Database, ResearchRunSubmissionRecord, run_test}
use quant_factory.Persistence.Tables.{get}
use quant_factory.Persistence.Submissions.{get_submission, is_invoking}
use quant_factory.Launch.Samples.{key, dispatcher, codec, saved, call, settled, started}
use quant_factory.Launch.Dispatching.{IsMarked}
use quant_factory.RunService.{
  Prepared, FixtureExecutionResult, FixtureLauncher, LaunchArguments, LaunchKwargs, Host,
  RunLaunchResult,
}
use quant_factory.RunService.Preparing.{key_of, kwargs_of, check_arguments, validate_timeout}
use quant_factory.RunService.Launches.{launch_fixture}
use quant_factory.RunService.Launching.{Agree, launch_fixture-marked}
use quant_factory.RunService.Replaying.{launch_fixture-replayed}

abbrev host : Host
host = record {
  is_timeout = λ _. true;
  claiming = call;
  beginning = call;
  ending = call;
  now = "t1";
  runtime_lineage = null;
}

abbrev arguments : LaunchArguments
arguments = record {
  idempotency_key = some key;
  configuration_id = "c";
  operation = run_test;
  source_run_id = none;
  source_lineage = none;
  run_id = some "r1";
  attempt_marker_path = none;
  fail_after_run_start = false;
  max_attempts = 1;
  controlled_transient_failures = 0;
  timeout_seconds = none;
  prefect_timeout_seconds = none;
  reproduction_metadata = none;
}

-- A launcher that acknowledges the submission and returns.
abbrev result : FixtureExecutionResult
result = record {
  quant_factory_run_id = "r1";
  prefect_flow_run_id = "f1";
  configuration_id = "c";
  deterministic_value = 7;
  attempt_count = 3;
  prefect_api_url = none;
}

abbrev first : FixtureLauncher
first = record {
  run = λ kwargs db. (ok (some result), record db { submissions = settled ∷ [] });
  late = λ kwargs timeout db. none;
}

abbrev shown : Result RunLaunchResult × Database → Option (Bool × Option FixtureExecutionResult)
shown (ok r, db) = some (r.invoked, r.prefect_result)
shown (err e, db) = none

abbrev invoked : RunLaunchResult
invoked = record {
  run = record {
    run_id = "r1";
    configuration_id = "c";
    strategy_id = "s";
    strategy_version = "1";
    stage = fixture;
    status = created;
    created_at = "t1";
    started_at = none;
    completed_at = none;
    error_summary = none;
    prefect_flow_run_id = null;
    prefect_api_url = null;
    attempt_count = 0;
  };
  prefect_result = some (record result { attempt_count = 0 });
  submission = settled;
  invoked = true;
}

abbrev after_launch : Database
after_launch = (launch_fixture codec host dispatcher (some first) arguments saved).1

-- The launch of a new key invokes the launcher, and the attempts shown are those of the run.
launched :
    launch_fixture codec host dispatcher (some first) arguments saved ≡ (ok invoked, after_launch)
unfolding validate_launch_key validate_run_id validate_dispatcher_id bounded_text
    optional_bounded_text has_allowed_keys normalize_lineage normalize_request get_configuration
    get_strategy operation_of request_fingerprint request_document check_configuration
    canonical_request_for_configuration full_match strip is_empty all_codes is_canonical_uuid length
    left_strip right_strip uuid_groups is_space stored_document check_contract check_identity
    check_run check_lineage claimed_configuration claimed_run validate_persisted_claim immediate
    reread replay_claim create_claim claim_body claim begin_body begin_dispatch get_run create_run
    append_event get_submission create_submission set_invoking set_acknowledged get update
    is_updated texts_eq derive_source_lineage dispatch invoke_marked after_return launch_get
    launch_fixture launch_under answer claim_of dispatch_claim dispatch_prepared answer_dispatch
    answer_claim invoke_fixture launch_with_timeout timed_call check_arguments validate_timeout
    new_environment key_of launch_inputs read_inputs prepare summary kwargs_of
launched = refl

-- The launch of an acknowledged key does not.
launched_again :
    shown (launch_fixture codec host dispatcher (some first) arguments started) ≡ some (false, none)
unfolding validate_launch_key validate_run_id validate_dispatcher_id bounded_text
    optional_bounded_text has_allowed_keys normalize_lineage normalize_request get_configuration
    get_strategy operation_of request_fingerprint request_document check_configuration
    canonical_request_for_configuration full_match strip is_empty all_codes is_canonical_uuid length
    left_strip right_strip uuid_groups is_space stored_document check_contract check_identity
    check_run check_lineage claimed_configuration claimed_run validate_persisted_claim immediate
    reread replay_claim create_claim claim_body claim begin_body begin_dispatch get_run create_run
    append_event get_submission create_submission set_invoking set_acknowledged get update
    is_updated texts_eq derive_source_lineage dispatch invoke_marked after_return launch_get
    launch_fixture launch_under answer claim_of dispatch_claim dispatch_prepared answer_dispatch
    answer_claim invoke_fixture launch_with_timeout timed_call check_arguments validate_timeout
    new_environment key_of launch_inputs read_inputs prepare summary kwargs_of
launched_again = refl

-- the same, but it raises where the key has no row in state invoking
abbrev guarded :
    Option ResearchRunSubmissionRecord
    → LaunchKwargs
    → Exec Database (Option FixtureExecutionResult)
guarded none kwargs db = (err sqlite_integrity, db)
guarded (some s) kwargs db =
    if is_invoking s then first.run kwargs db else (err sqlite_integrity, db)

abbrev second : FixtureLauncher
second = record {
  run = λ kwargs db. guarded (get_submission db key) kwargs db;
  late = λ kwargs timeout db. none;
}

first-second :
    (s : ResearchRunSubmissionRecord) (kwargs : LaunchKwargs) (db : Database)
    → IsMarked key dispatcher db s
    → Agree first second kwargs db
first-second s kwargs db (at_s, marked, _) = (rw (at_s, marked) refl, λ timeout. refl)

launch_fixture-marked_example :
    launch_fixture codec host dispatcher (some first) arguments saved
    ≡ launch_fixture codec host dispatcher (some second) arguments saved
launch_fixture-marked_example =
    launch_fixture-marked codec host dispatcher arguments first second saved
      (λ k s kwargs db made marked _ _.
        let same : key ≡ k = unfold key_of in (cc made) in
        first-second s kwargs db (rw same marked))

launch_fixture-replayed_example :
    (answer : Result RunLaunchResult) × ((launcher : Option FixtureLauncher)
      → launch_fixture codec host dispatcher launcher arguments started ≡ (answer, started))
    × ((r : RunLaunchResult) → answer ≡ ok r → (r.invoked ≡ false) × (r.submission ≡ settled))
unfolding get_submission get key_of
launch_fixture-replayed_example =
    launch_fixture-replayed settled started codec host dispatcher arguments key refl refl refl

launch_fixture-returned_example :
    (k : String) × (p : Prepared) × (s : ResearchRunSubmissionRecord) × (db1 : Database)
    × (value : FixtureExecutionResult) × (key_of codec arguments ≡ ok k)
    × IsMarked k dispatcher db1 s
    × (invoke_fixture (some first) host arguments p s db1 ≡ (ok value, after_launch))
    × (value.quant_factory_run_id ≡ s.run_id)
    × (get_submission after_launch k ≡ some settled)
    × (is_invoking settled ≡ false)
launch_fixture-returned_example =
    launch_fixture-returned codec host dispatcher arguments (some first) saved after_launch invoked
      launched refl
