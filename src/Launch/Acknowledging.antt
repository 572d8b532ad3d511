-- ===== src/Launch/Acknowledging.antt =====
-- orchestration/research_launch_claims.py, `bind_prefect_identity`: what its transaction writes.
use quant_factory.Prelude.{
  ◌≡◌, ◌⊎◌, inl, inr, true, false, not, ◌||◌, none, some, String, arith, Option-cases, Bool-cases,
}
use text.Mathlib.TextEquality.{eq_iff}
use quant_factory.Python.{Result, ok, err, launch_integrity}
use quant_factory.Python.Json.{Fields, object, Codec}
use quant_factory.Persistence.{
  Database, created, running, ExperimentRunRecord, ResearchRunSubmissionRecord,
}
use quant_factory.Persistence.Tables.{update}
use quant_factory.Persistence.Runs.{run_key, get_run, transition, always, moved}
use quant_factory.Persistence.Events.{append_event}
use quant_factory.Persistence.Submissions.{
  submission_key, get_submission, may_acknowledge, to_acknowledged, set_acknowledged,
  has_duplicate_prefect, is_acknowledged,
}
use quant_factory.Launch.{ResearchLaunchContract, Call}
use quant_factory.Launch.Operations.{reread}
use quant_factory.Launch.Binding.{
  Acknowledgement, append_integrity_event, refuse, acknowledge, bind_environment, bind_run,
  bind_valid, bind_invalid, bind_checked, bind_body, environment_of, with_environment,
  bound_environment, binding_mismatch,
}
use quant_factory.Launch.Claims.{validate_persisted_claim}

module _ (codec : Codec) (contract : ResearchLaunchContract) (call : Call) (key : String)
    (ack : Acknowledgement) where
  -- Submissions and runs are as they were.
  abbrev IsQuiet : Database → Database → Type 0
  IsQuiet db db' = (db'.submissions ≡ db.submissions) × (db'.runs ≡ db.runs)

  -- The submission is acknowledged and its run started, by one commit.
  abbrev IsStarted : Database → Database → Type 0
  IsStarted db db' =
      (environment : String) × (db'.submissions
        ≡ update submission_key key may_acknowledge
            (to_acknowledged ack.prefect_flow_run_id ack.prefect_api_url (call.clock 1))
            db.submissions)
      × (db'.runs
          ≡ update run_key ack.run_id always (moved (call.clock 2) running none)
              (update run_key ack.run_id always (with_environment environment) db.runs))

  refuse-IsQuiet :
      (s : ResearchRunSubmissionRecord) (message : String) (db : Database)
      → IsQuiet db (refuse call s message db).1
  unfolding refuse append_integrity_event append_event
  refuse-IsQuiet s message db = ground arith

  acknowledge_effect :
      (environment : Fields) (db db' : Database) (r : Result ResearchRunSubmissionRecord)
      → acknowledge codec contract call key ack environment db ≡ (ok r, db')
      → IsStarted db db'
  unfolding acknowledge set_acknowledged transition append_event reread
  acknowledge_effect environment db db' r h = (
    codec.dumps
        (object (bound_environment ack.prefect_flow_run_id ack.prefect_api_url environment)),
    ground arith,
    ground arith,
  )

  bind_environment_effect :
      (s : ResearchRunSubmissionRecord) (environment : Fields) (db db' : Database)
      (r : Result ResearchRunSubmissionRecord)
      → bind_environment codec contract call key s ack environment db ≡ (ok r, db')
      → IsQuiet db db' ⊎ IsStarted db db'
  unfolding bind_environment
  bind_environment_effect s environment db db' r h = ground (
    arith,
    refuse-IsQuiet s "Research submission run had a conflicting Prefect identity." db,
    acknowledge_effect environment db db' r,
  )

  -- The run of the acknowledgement is there, and not yet started.
  abbrev IsRunStarted : Database → Database → Type 0
  IsRunStarted db db' =
      (run : ExperimentRunRecord) × (get_run db ack.run_id ≡ some run)
      × (run.status ≡ created)
      × IsStarted db db'

  bind_created_effect :
      (s : ResearchRunSubmissionRecord) (db db' : Database) (r : Result ResearchRunSubmissionRecord)
      (run : ExperimentRunRecord)
      → get_run db ack.run_id ≡ some run
      → bind_run codec contract call key s ack db ≡ (ok r, db')
      → IsQuiet db db' ⊎ ((run.status ≡ created) × IsStarted db db')
  unfolding bind_run
  bind_created_effect s db db' r run e h =
      let quiet = λ (m : String). refuse-IsQuiet s m db in
      elim (Option-cases (environment_of codec contract run)) [
        | inl invalid ↦ ground (
          arith,
          quiet "Research submission run was not Created at acknowledgement.",
          quiet "Research submission run environment was invalid.",
        )
        | inr (environment, valid) ↦ ground (
          arith,
          quiet "Research submission run was not Created at acknowledgement.",
          bind_environment_effect s environment db db' r,
        )
      ]

  bind_run_effect :
      (s : ResearchRunSubmissionRecord) (db db' : Database) (r : Result ResearchRunSubmissionRecord)
      → bind_run codec contract call key s ack db ≡ (ok r, db')
      → IsQuiet db db' ⊎ IsRunStarted db db'
  bind_run_effect s db db' r h = elim (Option-cases (get_run db ack.run_id)) [
    | inl missing ↦ inl (absent missing)
    | inr (run, e) ↦ elim (bind_created_effect s db db' r run e h) [
      | inl quiet ↦ inl quiet
      | inr (fresh, started) ↦ inr (run, e, fresh, started)
    ]
  ]
    where
      absent : get_run db ack.run_id ≡ none → IsQuiet db db'
      absent missing =
          unfold bind_run in
          ground (
            arith,
            refuse-IsQuiet s "Research submission run was not Created at acknowledgement." db,
          )

  -- Every started run was claimed under this key, by a submission that awaits its acknowledgement.
  abbrev IsAccepted : ResearchRunSubmissionRecord → Database → Database → Type 0
  IsAccepted s db db' = (may_acknowledge s ≡ true) × (s.run_id ≡ ack.run_id) × IsRunStarted db db'

  run_id-eq :
      (s : ResearchRunSubmissionRecord) (db : Database)
      → (binding_mismatch codec contract s ack
          || has_duplicate_prefect db key ack.prefect_flow_run_id)
        ≡ false
      → s.run_id ≡ ack.run_id
  unfolding binding_mismatch
  run_id-eq s db h = ground (arith, eq_iff s.run_id ack.run_id)

  bind_valid_effect :
      (s : ResearchRunSubmissionRecord) (db db' : Database) (r : Result ResearchRunSubmissionRecord)
      → bind_valid codec contract call key s ack db ≡ (ok r, db')
      → IsQuiet db db' ⊎ IsAccepted s db db'
  unfolding bind_valid
  bind_valid_effect s db db' r h =
      let quiet = λ (m : String). refuse-IsQuiet s m db in
      elim (Bool-cases (
        binding_mismatch codec contract s ack
        || has_duplicate_prefect db key ack.prefect_flow_run_id)) [
          | inl mismatch ↦ inl (
              ground (
                arith,
                quiet "Research submission identity did not match the Prefect acknowledgement.",
              ))
          | inr fits ↦ ground (
            arith,
            quiet "Research submission received a conflicting Prefect acknowledgement.",
            quiet "Research submission acknowledgement arrived in an invalid state.",
            bind_run_effect s db db' r,
            run_id-eq s db fits,
          )
        ]

  bind_invalid-IsQuiet :
      (s : ResearchRunSubmissionRecord) (db : Database)
      → IsQuiet db (bind_invalid codec contract call s db).1
  unfolding bind_invalid
  bind_invalid-IsQuiet s db = ground (
    arith,
    refuse-IsQuiet s "Research submission persisted identity failed acknowledgement validation." db,
  )

  -- Only an integrity error of the check is recorded; any other leaves by the exception.
  bind_checked_effect :
      (s : ResearchRunSubmissionRecord) (db db' : Database) (r : Result ResearchRunSubmissionRecord)
      (v : Result ExperimentRunRecord)
      → bind_checked codec contract call key s ack v db ≡ (ok r, db')
      → IsQuiet db db' ⊎ IsAccepted s db db'
  unfolding bind_checked
  bind_checked_effect s db db' r (ok run) h = bind_valid_effect s db db' r h
  bind_checked_effect s db db' r (err launch_integrity) h =
      inl (ground (arith, bind_invalid-IsQuiet s db))
  bind_checked_effect s db db' r (err e) h = inl (cc)

  pub bind_body_effect :
      (db db' : Database) (r : Result ResearchRunSubmissionRecord)
      → bind_body codec contract call key ack db ≡ (ok r, db')
      → IsQuiet db db'
        ⊎ ((s : ResearchRunSubmissionRecord) × (get_submission db key ≡ some s)
            × IsAccepted s db db')
  unfolding bind_body
  bind_body_effect db db' r h = elim (Option-cases (get_submission db key)) [
    | inl missing ↦ ground arith
    | inr (s, e) ↦
        elim (bind_checked_effect s db db' r
          (validate_persisted_claim codec contract db s (not (is_acknowledged s)) false)
          (ground arith)) [ inl quiet ↦ inl quiet | inr accepted ↦ inr (s, e, accepted) ]
  ]
