-- ===== src/Launch/Effects.antt =====
-- orchestration/research_launch_claims.py: what each transaction writes when it ends without a raise.
use quant_factory.Prelude.{◌≡◌, ◌⊎◌, Bool, true, false, none, some, [], ◌∷◌, ◌++◌, String, arith}
use quant_factory.Python.{ok}
use quant_factory.Python.Raising.{>>=-eq-ok}
use quant_factory.Python.Json.{Json, Fields, get_field, Codec}
use quant_factory.Persistence.{
  Database, ConfigurationRecord, ResearchLaunchOperation, claimed, created, failed,
  ExperimentRunRecord, ResearchRunSubmissionRecord,
}
use quant_factory.Persistence.Tables.{update, is_updated}
use quant_factory.Persistence.Runs.{run_key, get_run, create_run, transition, always, moved}
use quant_factory.Persistence.Events.{append_event}
use quant_factory.Persistence.Submissions.{
  submission_key, get_submission, is_claimed, is_invoking, is_unknown, set_invoking, set_unknown,
  to_invoking, to_unknown, to_failed_before, to_abandoned, set_failed_before_submission,
  set_abandoned, is_taken, create_submission,
}
use quant_factory.Launch.{
  ResearchLaunchContract, ResearchLaunchRequest, ResearchLaunchClaim, ResearchDispatchDecision,
  Call,
}
use quant_factory.Launch.Operations.{
  begin_body, unknown_body, recover_body, fail_before_body, abandon_body, reread, fail_run,
  exit_summary, claim_body, replay_claim, create_claim,
}
use quant_factory.Launch.Claims.{
  validate_persisted_claim, check_run, claimed_run, stored_document, operation_of, check_contract,
  claimed_configuration,
}

module _ (codec : Codec) (contract : ResearchLaunchContract) (db : Database)
    (s : ResearchRunSubmissionRecord) where
  check_run-is_created :
      (configuration : ConfigurationRecord) (run : ExperimentRunRecord)
      → check_run codec contract true s configuration run ≡ ok tt
      → run.status ≡ created
  unfolding check_run
  check_run-is_created configuration run h = ground arith

  claimed_run_lem :
      (operation : ResearchLaunchOperation) (document : Fields)
      (configuration : ConfigurationRecord) (run : ExperimentRunRecord)
      → claimed_run codec contract db s operation document configuration true ≡ ok run
      → (get_run db s.run_id ≡ some run) × (run.status ≡ created)
  unfolding claimed_run
  claimed_run_lem operation document configuration run h =
      ground (arith, check_run-is_created configuration run)

  -- A claim that is found valid names a run that is there, and not yet started where that is required.
  pub validated_run :
      (launchable : Bool) (run : ExperimentRunRecord)
      → validate_persisted_claim codec contract db s true launchable ≡ ok run
      → (get_run db s.run_id ≡ some run) × (run.status ≡ created)
  unfolding validate_persisted_claim
  validated_run launchable run h =
      let (document, _, h1) = >>=-eq-ok (stored_document codec contract s) _ h in
      let (operation, _, h2) =
        >>=-eq-ok (operation_of (get_field "operation_kind" document)) _ h1 in
      let (_, _, h3) = >>=-eq-ok (check_contract codec contract document s) _ h2 in
      let (configuration, _, h4) =
        >>=-eq-ok (claimed_configuration codec contract db s document launchable) _ h3 in
      claimed_run_lem operation document configuration run h4

module _ (codec : Codec) (contract : ResearchLaunchContract) (call : Call) (key : String)
    (db db' : Database) where
  pub begin_body_effect :
      (dispatcher : String) (d : ResearchDispatchDecision)
      → begin_body codec contract call key dispatcher db ≡ (ok d, db')
      → (db'.submissions
          ≡ update submission_key key is_claimed
              (to_invoking dispatcher (call.clock 0))
              db.submissions)
        × (db'.runs ≡ db.runs)
        × (d.should_invoke ≡ is_updated submission_key key is_claimed db.submissions)
        × (get_submission db' key ≡ some d.submission)
  unfolding begin_body set_invoking reread
  begin_body_effect dispatcher d h = ground arith

  pub unknown_body_effect :
      (dispatcher summary : String) (s : ResearchRunSubmissionRecord)
      → unknown_body codec contract call key dispatcher summary db ≡ (ok s, db')
      → (db' ≡ db)
        ⊎ ((db'.submissions
              ≡ update submission_key key is_invoking
                  (to_unknown (call.clock 0) summary none)
                  db.submissions)
            × (db'.runs ≡ db.runs))
  unfolding unknown_body set_unknown reread
  unknown_body_effect dispatcher summary s h = ground arith

  pub recover_body_effect :
      (departed evidence : String) (s : ResearchRunSubmissionRecord)
      → recover_body codec contract call key departed evidence db ≡ (ok s, db')
      → (db' ≡ db)
        ⊎ ((db'.submissions
              ≡ update submission_key key is_invoking
                  (to_unknown (call.clock 0) exit_summary (some evidence))
                  db.submissions)
            × (db'.runs ≡ db.runs))
  unfolding recover_body set_unknown reread
  recover_body_effect departed evidence s h = ground arith

  pub fail_before_body_effect :
      (summary : String) (s : ResearchRunSubmissionRecord)
      → fail_before_body codec contract call key summary db ≡ (ok s, db')
      → (db' ≡ db)
        ⊎ ((old : ResearchRunSubmissionRecord) × (run : ExperimentRunRecord) × (get_submission db
                key
              ≡ some old)
            × (is_claimed old ≡ true)
            × (validate_persisted_claim codec contract db old true false ≡ ok run)
            × (db'.submissions
                ≡ update submission_key key is_claimed
                    (to_failed_before (call.clock 0) summary)
                    db.submissions)
            × (db'.runs
                ≡ update run_key run.run_id always
                    (moved (call.clock 1) failed (some summary))
                    db.runs))
  unfolding fail_before_body set_failed_before_submission reread fail_run transition append_event
  fail_before_body_effect summary s h = ground arith

  pub abandon_body_effect :
      (evidence summary : String) (s : ResearchRunSubmissionRecord)
      → abandon_body codec contract call key evidence summary db ≡ (ok s, db')
      → (db' ≡ db)
        ⊎ ((old : ResearchRunSubmissionRecord) × (run : ExperimentRunRecord) × (get_submission db
                key
              ≡ some old)
            × (is_unknown old ≡ true)
            × (validate_persisted_claim codec contract db old true false ≡ ok run)
            × (db'.submissions
                ≡ update submission_key key is_unknown
                    (to_abandoned (call.clock 0) summary evidence)
                    db.submissions)
            × (db'.runs
                ≡ update run_key run.run_id always
                    (moved (call.clock 1) failed (some summary))
                    db.runs))
  unfolding abandon_body set_abandoned reread fail_run transition append_event
  abandon_body_effect evidence summary s h = ground arith

  pub claim_body_effect :
      (request : ResearchLaunchRequest) (environment : Json) (c : ResearchLaunchClaim)
      → claim_body codec contract call key request environment db ≡ (ok c, db')
      → ((db' ≡ db) × (get_submission db key ≡ some c.submission) × (c.is_created ≡ false))
        ⊎ ((get_submission db key ≡ none)
            × (get_run db c.run.run_id ≡ none)
            × (is_taken db key c.run.run_id ≡ false)
            × (db'.submissions ≡ db.submissions ++ c.submission ∷ [])
            × (db'.runs ≡ db.runs ++ c.run ∷ [])
            × (c.submission.state ≡ claimed)
            × (c.submission.idempotency_key ≡ key)
            × (c.submission.run_id ≡ c.run.run_id)
            × (c.run.status ≡ created)
            × (c.is_created ≡ true))
  unfolding claim_body replay_claim create_claim create_run create_submission append_event
  claim_body_effect request environment c h = ground arith
