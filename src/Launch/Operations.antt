-- ===== src/Launch/Operations.antt =====
-- orchestration/research_launch_claims.py, `DurableResearchLaunchService`: every operation that
-- writes, as one transaction. `Launch/Binding.antt` holds `bind_prefect_identity` and what calls it.
use quant_factory.Prelude.{
  Bool, true, false, ◌&&◌, not, Option, none, some, String, string_eq, option_eq, ◌==◌,
  if◌then◌else◌,
}
use quant_factory.Python.{
  Result, ok, err, key_error, json_decode_error, attribute_error, assertion_error, launch_integrity,
  conflict, contention, raise_unless, or_raise,
}
use quant_factory.Python.Exec.{Exec, pure, lift, gets, ◌>>=◌, ◌>>◌}
use quant_factory.Python.Json.{
  Json, Fields, Codec, Texts, object, get, is_text, is_optional_text, is_texts,
}
use quant_factory.Persistence.{
  Database, operation_value, created, failed, run_created, run_failed, info, error,
  ResearchRunSubmissionRecord,
}
use quant_factory.Persistence.Runs.{create_run, transition}
use quant_factory.Persistence.Events.{append_event}
use quant_factory.Persistence.Submissions.{
  get_submission, create_submission, set_invoking, set_unknown, set_failed_before_submission,
  set_abandoned, is_claimed, is_invoking, is_acknowledged, is_unknown, is_failed_before,
  is_abandoned,
}
use quant_factory.Launch.{
  ResearchLaunchContract, ResearchLaunchRequest, ResearchLaunchClaim, ResearchDispatchDecision,
  Call,
}
use quant_factory.Launch.Requests.{
  validate_launch_key, validate_run_id, validate_dispatcher_id, bounded_text, normalize_request,
  NormalizedRequest, is_nonempty,
}
use quant_factory.Launch.Claims.{canonical_request_for_configuration, validate_persisted_claim}

-- `_immediate`: the writes are kept if the block ends, and rolled back if it raises.
abbrev pub settle : {A : Type 0} → Database → Result A × Database → Result A × Database
settle before (ok a, after) = (ok a, after)
settle before (err e, after) = (err e, before)

unfoldable pub immediate : {A : Type 0} → Call → Exec Database A → Exec Database A
immediate call body db = if call.is_busy then (err contention, db) else settle db (body db)

-- a time that the row holds, or else `utc_now()`
abbrev pub time_or : String → Option String → String
time_or now none = now
time_or now (some t) = t

abbrev pub or_key_error : Option ResearchRunSubmissionRecord → Result ResearchRunSubmissionRecord
or_key_error o = or_raise o key_error

-- `current = submissions.get(key); assert current is not None`
unfoldable pub reread : String → Exec Database ResearchRunSubmissionRecord
reread key = do
  current ← gets (λ db. get_submission db key)
  lift (or_raise current assertion_error)

abbrev hook : Call → String → Exec Database (Unit {0})
hook call step = lift (elim (call.claim_failure step) [ none ↦ ok tt | some e ↦ err e ])

abbrev document_of : Option Json → Result Fields
document_of none = err launch_integrity
document_of (some (object fs)) = ok fs
document_of (some _) = err attribute_error

abbrev lineage_differs : Fields → Texts → Bool
lineage_differs document expected =
    is_nonempty expected && not (is_texts (get "source_lineage" document) expected)

-- A replayed key must mean the request that it was claimed for.
abbrev same_request : Fields → NormalizedRequest → Bool
same_request document request =
    is_text (get "operation_kind" document) (operation_value request.operation)
    && is_text (get "configuration_id" document) request.configuration_id
    && is_optional_text (get "source_run_id" document) request.source_run_id
    && not (lineage_differs document request.source_lineage)

abbrev pub exit_summary : String
exit_summary = "The recorded dispatcher exited before Prefect acknowledgement could be confirmed."

module _ (codec : Codec) (contract : ResearchLaunchContract) where
  unfoldable pub replay_claim :
      ResearchLaunchRequest → ResearchRunSubmissionRecord → Exec Database ResearchLaunchClaim
  replay_claim request existing = do
    normalized ← lift (normalize_request request)
    document ← lift (document_of (codec.loads existing.canonical_request_json))
    lift (raise_unless (same_request document normalized) conflict)
    db ← gets (λ db. db)
    run ← lift (validate_persisted_claim codec contract db existing false false)
    pure (record { submission = existing; run = run; is_created = false })

  -- `environment_json` is parsed again and stored in canonical form.
  abbrev stored_environment : Json → Result String
  stored_environment environment = elim (codec.loads (codec.dumps environment)) [
    | none ↦ err json_decode_error
    | some v ↦ ok (codec.dumps v)
  ]

  unfoldable pub create_claim :
      Call → String → ResearchLaunchRequest → Json → Exec Database ResearchLaunchClaim
  create_claim call key request environment = do
    db ← gets (λ db. db)
    canonical ← lift (canonical_request_for_configuration codec contract db request)
    run_id ← lift (validate_run_id call.new_run_id)
    environment_json ← lift (stored_environment environment)
    run ←
        create_run (call.clock 1) run_id canonical.configuration_id canonical.strategy_id
          canonical.strategy_version contract.stage created environment_json
    hook call "after_run_create"
    append_event run.created_at run.run_id run_created info contract.created_event_message
    hook call "after_run_created_event"
    submission ←
        create_submission key run.run_id run.configuration_id canonical.serialized
          canonical.fingerprint (call.clock 0)
    hook call "after_submission_create"
    pure (record { submission = submission; run = run; is_created = true })

  unfoldable pub claim_body :
      Call → String → ResearchLaunchRequest → Json → Exec Database ResearchLaunchClaim
  claim_body call key request environment = do
    existing ← gets (λ db. get_submission db key)
    elim existing [
      | some submission ↦ replay_claim request submission
      | none ↦ create_claim call key request environment
    ]

  unfoldable pub claim :
      Call → String → ResearchLaunchRequest → Json → Exec Database ResearchLaunchClaim
  claim call idempotency_key request environment = do
    key ← lift (validate_launch_key idempotency_key)
    immediate call (claim_body call key request environment)

  -- Only a claim that nobody has dispatched is checked again.
  abbrev validate_if_claimed : ResearchRunSubmissionRecord → Exec Database (Unit {0})
  validate_if_claimed existing db = elim (is_claimed existing) [
    | false ↦ (ok tt, db)
    | true ↦ elim (validate_persisted_claim codec contract db existing true true) [
      | ok _ ↦ (ok tt, db)
      | err e ↦ (err e, db)
    ]
  ]

  unfoldable pub begin_body :
      Call → (key dispatcher : String) → Exec Database ResearchDispatchDecision
  begin_body call key dispatcher = do
    found ← gets (λ db. get_submission db key)
    existing ← lift (or_key_error found)
    validate_if_claimed existing
    won ← set_invoking key dispatcher (call.clock 0)
    current ← reread key
    pure (record { submission = current; should_invoke = won })

  unfoldable pub begin_dispatch :
      Call
      → (idempotency_key dispatcher_instance_id : String) → Exec Database ResearchDispatchDecision
  begin_dispatch call idempotency_key dispatcher_instance_id = do
    key ← lift (validate_launch_key idempotency_key)
    dispatcher ← lift (validate_dispatcher_id dispatcher_instance_id)
    immediate call (begin_body call key dispatcher)

  abbrev same_ambiguity : ResearchRunSubmissionRecord → (dispatcher summary : String) → Bool
  same_ambiguity s dispatcher summary =
      s.dispatcher_instance_id == some dispatcher
      && s.error_summary == some summary
      && s.unknown_evidence_reference == none

  unfoldable pub unknown_body :
      Call → (key dispatcher summary : String) → Exec Database ResearchRunSubmissionRecord
  unknown_body call key dispatcher summary = do
    found ← gets (λ db. get_submission db key)
    submission ← lift (or_key_error found)
    if is_unknown submission
        then (do
          lift (raise_unless (same_ambiguity submission dispatcher summary) conflict)
          pure submission)
        else if is_acknowledged submission
        then pure submission
        else (do
          lift (raise_unless (is_invoking submission) conflict)
          lift (raise_unless (submission.dispatcher_instance_id == some dispatcher) conflict)
          met ← set_unknown key (call.clock 0) summary none
          lift (raise_unless met launch_integrity)
          reread key)

  unfoldable pub mark_invocation_unknown :
      Call
      → (idempotency_key dispatcher_instance_id error_summary : String)
      → Exec Database ResearchRunSubmissionRecord
  mark_invocation_unknown call idempotency_key dispatcher_instance_id error_summary = do
    key ← lift (validate_launch_key idempotency_key)
    dispatcher ← lift (validate_dispatcher_id dispatcher_instance_id)
    summary ← lift (bounded_text 500 error_summary)
    immediate call (unknown_body call key dispatcher summary)

  abbrev same_exit : ResearchRunSubmissionRecord → (departed evidence : String) → Bool
  same_exit s departed evidence =
      s.dispatcher_instance_id == some departed && s.unknown_evidence_reference == some evidence

  unfoldable pub recover_body :
      Call → (key departed evidence : String) → Exec Database ResearchRunSubmissionRecord
  recover_body call key departed evidence = do
    found ← gets (λ db. get_submission db key)
    submission ← lift (or_key_error found)
    if is_unknown submission
        then (do
          lift (raise_unless (same_exit submission departed evidence) conflict)
          pure submission)
        else (do
          lift (raise_unless (is_invoking submission) conflict)
          lift (raise_unless (submission.dispatcher_instance_id == some departed) conflict)
          met ← set_unknown key (call.clock 0) exit_summary (some evidence)
          lift (raise_unless met launch_integrity)
          reread key)

  unfoldable pub recover_invoking_after_process_exit :
      Call
      → (idempotency_key departed_dispatcher_instance_id process_exit_evidence_reference : String)
      → Exec Database ResearchRunSubmissionRecord
  recover_invoking_after_process_exit call idempotency_key departed_dispatcher_instance_id
        process_exit_evidence_reference =
      do
        key ← lift (validate_launch_key idempotency_key)
        departed ← lift (validate_dispatcher_id departed_dispatcher_instance_id)
        evidence ← lift (bounded_text 500 process_exit_evidence_reference)
        immediate call (recover_body call key departed evidence)

  -- The run of a resolved claim fails, and its event says why.
  unfoldable pub fail_run : Call → String → (summary message : String) → Exec Database (Unit {0})
  fail_run call run_id summary message = do
    failed_run ← transition (call.clock 1) run_id failed (some summary)
    append_event (time_or (call.clock 2) failed_run.completed_at) run_id run_failed error message
    pure tt

  unfoldable pub fail_before_body :
      Call → (key summary : String) → Exec Database ResearchRunSubmissionRecord
  fail_before_body call key summary = do
    found ← gets (λ db. get_submission db key)
    submission ← lift (or_key_error found)
    if is_failed_before submission
        then (do
          lift (raise_unless (submission.error_summary == some summary) conflict)
          pure submission)
        else (do
          lift (raise_unless (is_claimed submission) conflict)
          db ← gets (λ db. db)
          run ← lift (validate_persisted_claim codec contract db submission true false)
          met ← set_failed_before_submission key (call.clock 0) summary
          lift (raise_unless met launch_integrity)
          fail_run call run.run_id summary "Run failed before any Prefect submission occurred."
          reread key)

  unfoldable pub fail_before_submission :
      Call → (idempotency_key error_summary : String) → Exec Database ResearchRunSubmissionRecord
  fail_before_submission call idempotency_key error_summary = do
    key ← lift (validate_launch_key idempotency_key)
    summary ← lift (bounded_text 500 error_summary)
    immediate call (fail_before_body call key summary)

  unfoldable pub abandon_body :
      Call → (key evidence summary : String) → Exec Database ResearchRunSubmissionRecord
  abandon_body call key evidence summary = do
    found ← gets (λ db. get_submission db key)
    submission ← lift (or_key_error found)
    if is_abandoned submission
        then (do
          lift (
              raise_unless
                (submission.resolution_evidence_reference == some evidence
                  && submission.error_summary == some summary)
                conflict)
          pure submission)
        else (do
          lift (raise_unless (is_unknown submission) conflict)
          db ← gets (λ db. db)
          run ← lift (validate_persisted_claim codec contract db submission true false)
          met ← set_abandoned key (call.clock 0) summary evidence
          lift (raise_unless met launch_integrity)
          fail_run call run.run_id summary
              "Unresolved submission was abandoned without accepted result evidence."
          reread key)

  unfoldable pub abandon_unknown :
      Call
      → (idempotency_key resolution_evidence_reference error_summary : String)
      → Exec Database ResearchRunSubmissionRecord
  abandon_unknown call idempotency_key resolution_evidence_reference error_summary = do
    key ← lift (validate_launch_key idempotency_key)
    evidence ← lift (bounded_text 500 resolution_evidence_reference)
    summary ← lift (bounded_text 500 error_summary)
    immediate call (abandon_body call key evidence summary)
