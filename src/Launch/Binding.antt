-- ===== src/Launch/Binding.antt =====
-- orchestration/research_launch_claims.py, `bind_prefect_identity`, `_binding_mismatch`,
-- `_append_integrity_event`, `reconcile_unknown_for_run` and `abandon_unknown_for_run`.
--
-- A refused acknowledgement is no exception inside the transaction: its event is committed, and the
-- error is raised afterwards. So the body returns a `Result` as its value.
use quant_factory.Prelude.{
  Bool, true, false, ◌||◌, not, Option, none, some, String, string_eq, option_eq, ◌==◌, ◌!=◌, any,
  if◌then◌else◌,
}
use quant_factory.Python.{Result, ok, err, type_error, launch_integrity, conflict, raise_unless}
use quant_factory.Python.Exec.{Exec, pure, raise, lift, gets, ◌>>=◌, ◌>>◌}
use quant_factory.Python.Json.{Json, Fields, Codec, text, object, null, array, get, set_field}
use quant_factory.Persistence.{
  Database, running, is_created, run_started, service_integrity_error, info, error,
  ExperimentRunRecord, ResearchRunSubmissionRecord, RunEventRecord,
}
use quant_factory.Persistence.Runs.{get_run, set_run, transition}
use quant_factory.Persistence.Events.{append_event, events_for_run}
use quant_factory.Persistence.Submissions.{
  get_submission, get_for_run, set_acknowledged, has_duplicate_prefect, is_unknown, is_acknowledged,
  may_acknowledge,
}
use quant_factory.Launch.{ResearchLaunchContract, Call}
use quant_factory.Launch.Requests.{
  validate_launch_key, validate_run_id, bounded_text, optional_bounded_text,
}
use quant_factory.Launch.Claims.{validate_persisted_claim}
use quant_factory.Launch.Operations.{immediate, reread, or_key_error, time_or, abandon_unknown}

-- The identity that an acknowledgement must repeat.
pub record Acknowledgement : Type 0 where
  pub run_id : String
  pub configuration_id : String
  pub canonical_request_json : String
  pub request_fingerprint : String
  pub prefect_flow_run_id : String
  pub prefect_api_url : Option String

abbrev is_integrity_event : String → RunEventRecord → Bool
is_integrity_event message e = elim e.event_type [
  | service_integrity_error ↦ e.message == message
  | _ ↦ false
]

-- The same message is recorded once for a run.
unfoldable pub append_integrity_event :
    Call → ResearchRunSubmissionRecord → String → Exec Database (Unit {0})
append_integrity_event call submission message db =
    if any (is_integrity_event message) (events_for_run db submission.run_id)
    then (ok tt, db)
    else (do
      append_event (call.clock 0) submission.run_id service_integrity_error error message
      pure tt)
        db

unfoldable pub refuse :
    Call → ResearchRunSubmissionRecord → String → Exec Database (Result ResearchRunSubmissionRecord)
refuse call submission message = do
  append_integrity_event call submission message
  pure (err launch_integrity)

abbrev conflicting_prefect : Json → String → Result Bool
conflicting_prefect null flow_run = ok false
conflicting_prefect (text s) flow_run = ok (s != flow_run)
conflicting_prefect (array _) flow_run = err type_error
conflicting_prefect (object _) flow_run = err type_error
conflicting_prefect _ flow_run = ok true

abbrev with_api_url : Option String → Fields → Fields
with_api_url none fs = fs
with_api_url (some url) fs = set_field "prefect_api_url" (text url) fs

abbrev pub bound_environment : String → Option String → Fields → Fields
bound_environment flow_run api_url fs = with_api_url api_url (
    set_field "prefect_reference_source" (text "durable_research_claim") (
      set_field "prefect_flow_run_id" (text flow_run)
        (set_field "prefect_identity_storage" (text "technical_run_environment") fs)))

abbrev pub with_environment : String → ExperimentRunRecord → ExperimentRunRecord
with_environment json r = record r { environment_json = json }

module _ (codec : Codec) (contract : ResearchLaunchContract) where
  unfoldable pub binding_mismatch : ResearchRunSubmissionRecord → Acknowledgement → Bool
  binding_mismatch s ack =
      s.run_id != ack.run_id
      || s.configuration_id != ack.configuration_id
      || s.canonical_request_json != ack.canonical_request_json
      || s.request_fingerprint != ack.request_fingerprint
      || codec.sha256 ack.canonical_request_json != ack.request_fingerprint

  -- The acknowledgement is accepted: environment, submission, run and event change together.
  unfoldable pub acknowledge :
      Call → String → Acknowledgement → Fields → Exec Database (Result ResearchRunSubmissionRecord)
  acknowledge call key ack environment db =
      (do
        met ← set_acknowledged key ack.prefect_flow_run_id ack.prefect_api_url (call.clock 1)
        lift (raise_unless met launch_integrity)
        started ← transition (call.clock 2) ack.run_id running none
        append_event (time_or (call.clock 3) started.started_at) ack.run_id run_started info
            contract.started_event_message
        current ← reread key
        pure (ok current))
        (set_run ack.run_id
          (with_environment (
            codec.dumps
              (object (bound_environment ack.prefect_flow_run_id ack.prefect_api_url environment))))
          db)

  unfoldable pub bind_environment :
      Call
      → String
      → ResearchRunSubmissionRecord
      → Acknowledgement
      → Fields
      → Exec Database (Result ResearchRunSubmissionRecord)
  bind_environment call key submission ack environment = do
    differs ←
        lift (conflicting_prefect (get "prefect_flow_run_id" environment) ack.prefect_flow_run_id)
    if differs
        then refuse call submission "Research submission run had a conflicting Prefect identity."
        else acknowledge call key ack environment

  abbrev pub environment_of : ExperimentRunRecord → Option Fields
  environment_of run = elim (codec.loads run.environment_json) [
    | none ↦ none
    | some v ↦ elim v [ object fs ↦ some fs | _ ↦ none ]
  ]

  -- The run of an acknowledgeable submission must not have started.
  unfoldable pub bind_run :
      Call
      → String
      → ResearchRunSubmissionRecord
      → Acknowledgement
      → Exec Database (Result ResearchRunSubmissionRecord)
  bind_run call key submission ack db = elim (get_run db ack.run_id) [
    | none ↦ refuse call submission "Research submission run was not Created at acknowledgement." db
    | some run ↦ elim (is_created run.status) [
      | false ↦
          refuse call submission "Research submission run was not Created at acknowledgement." db
      | true ↦ elim (environment_of run) [
        | none ↦ refuse call submission "Research submission run environment was invalid." db
        | some environment ↦ bind_environment call key submission ack environment db
      ]
    ]
  ]

  abbrev other_identity : ResearchRunSubmissionRecord → Acknowledgement → Bool
  other_identity s ack =
      s.prefect_flow_run_id != some ack.prefect_flow_run_id
      || s.prefect_api_url != ack.prefect_api_url

  -- The branches after the persisted claim has been found valid.
  unfoldable pub bind_valid :
      Call
      → String
      → ResearchRunSubmissionRecord
      → Acknowledgement
      → Exec Database (Result ResearchRunSubmissionRecord)
  bind_valid call key submission ack db =
      elim (binding_mismatch submission ack
        || has_duplicate_prefect db key ack.prefect_flow_run_id) [
          | true ↦
              refuse call submission
                "Research submission identity did not match the Prefect acknowledgement." db
          | false ↦ elim (is_acknowledged submission) [
            | true ↦ elim (other_identity submission ack) [
              | true ↦
                  refuse call submission
                    "Research submission received a conflicting Prefect acknowledgement." db
              | false ↦ (ok (ok submission), db)
            ]
            | false ↦ elim (may_acknowledge submission) [
              | false ↦
                  refuse call submission
                    "Research submission acknowledgement arrived in an invalid state." db
              | true ↦ bind_run call key submission ack db
            ]
          ]
        ]

  -- A persisted claim that no longer holds is recorded, if its run is there.
  unfoldable pub bind_invalid :
      Call → ResearchRunSubmissionRecord → Exec Database (Result ResearchRunSubmissionRecord)
  bind_invalid call submission db = elim (get_run db submission.run_id) [
    | none ↦ (ok (err launch_integrity), db)
    | some _ ↦
        refuse call submission
          "Research submission persisted identity failed acknowledgement validation." db
  ]

  unfoldable pub bind_checked :
      Call
      → String
      → ResearchRunSubmissionRecord
      → Acknowledgement
      → Result ExperimentRunRecord
      → Exec Database (Result ResearchRunSubmissionRecord)
  bind_checked call key submission ack (ok _) = bind_valid call key submission ack
  bind_checked call key submission ack (err launch_integrity) = bind_invalid call submission
  bind_checked call key submission ack (err e) = raise e

  unfoldable pub bind_body :
      Call → String → Acknowledgement → Exec Database (Result ResearchRunSubmissionRecord)
  bind_body call key ack = do
    found ← gets (λ db. get_submission db key)
    submission ← lift (or_key_error found)
    db ← gets (λ db. db)
    bind_checked call key submission ack (
        validate_persisted_claim codec contract db submission (not (is_acknowledged submission))
          false)

  unfoldable pub bind_prefect_identity :
      Call → String → Acknowledgement → Exec Database ResearchRunSubmissionRecord
  bind_prefect_identity call idempotency_key ack = do
    key ← lift (validate_launch_key idempotency_key)
    run_id ← lift (validate_run_id ack.run_id)
    configuration_id ← lift (bounded_text 200 ack.configuration_id)
    flow_run ← lift (bounded_text 200 ack.prefect_flow_run_id)
    api_url ← lift (optional_bounded_text 2048 ack.prefect_api_url)
    outcome ← immediate call (
        bind_body call key (record ack {
          configuration_id = configuration_id;
          prefect_flow_run_id = flow_run;
          prefect_api_url = api_url;
        }))
    lift outcome

  abbrev may_reconcile : ResearchRunSubmissionRecord → Bool
  may_reconcile s = is_unknown s || is_acknowledged s

  -- The stored request is repeated verbatim.
  unfoldable pub reconcile_unknown_for_run :
      Call → (run_id flow_run : String) → Option String → Exec Database ResearchRunSubmissionRecord
  reconcile_unknown_for_run call run_id flow_run api_url = do
    id ← lift (validate_run_id run_id)
    found ← gets (λ db. get_for_run db id)
    submission ← lift (or_key_error found)
    lift (raise_unless (may_reconcile submission) conflict)
    bind_prefect_identity call submission.idempotency_key (record {
      run_id = submission.run_id;
      configuration_id = submission.configuration_id;
      canonical_request_json = submission.canonical_request_json;
      request_fingerprint = submission.request_fingerprint;
      prefect_flow_run_id = flow_run;
      prefect_api_url = api_url;
    })

  unfoldable pub abandon_unknown_for_run :
      Call → (run_id evidence summary : String) → Exec Database ResearchRunSubmissionRecord
  abandon_unknown_for_run call run_id evidence summary = do
    id ← lift (validate_run_id run_id)
    found ← gets (λ db. get_for_run db id)
    submission ← lift (or_key_error found)
    abandon_unknown codec contract call submission.idempotency_key evidence summary
