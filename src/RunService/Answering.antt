-- ===== src/RunService/Answering.antt =====
-- orchestration/run_service.py, `launch_fixture`: an answer that says that it has invoked.
use quant_factory.Prelude.{
  ◌≡◌, refl, sym, ◌∙◌, ap, inl, inr, Bool, true, false, Option, some, String, string_eq, ◌==◌,
  if◌then◌else◌, Bool-cases,
}
use quant_factory.Python.{ok, launch_integrity, or_raise}
use quant_factory.Python.Exec.{pure-same, Exec, pure, raise, ◌>>◌, bind-eq-ok}
use quant_factory.Python.Json.{Codec}
use quant_factory.Persistence.{Database, ResearchRunSubmissionRecord}
use quant_factory.Persistence.Runs.{get_run}
use quant_factory.Persistence.Submissions.{get_submission, is_claimed, is_invoking}
use quant_factory.Launch.{fixture_launch_contract, ResearchLaunchClaim, ResearchDispatchResult}
use quant_factory.Launch.Steps.{lift-eq-ok}
use quant_factory.Launch.Dispatch.{dispatch, launch_get}
use quant_factory.Launch.Dispatching.{IsMarked, dispatch-returned}
use quant_factory.RunService.{
  FixtureExecutionResult, FixtureLauncher, LaunchArguments, Host, Prepared, RunLaunchResult,
}
use quant_factory.RunService.Preparing.{check_arguments, key_of, prepare, kwargs_of, summary}
use quant_factory.RunService.Launches.{
  launch_with_timeout, record_integrity_error, invoke_fixture, answer_claim, answer_dispatch,
  dispatch_prepared, dispatch_claim, claim_of, answer, launch_under, launch_fixture,
}

chosen :
    (b : Bool) (result value : FixtureExecutionResult) (record_error : Exec Database (Unit {0}))
    (db db' : Database)
    → (if b then pure result else (record_error >> raise launch_integrity)) db ≡ (ok value, db')
    → (b ≡ true) × (result ≡ value)
chosen true result value record_error db db' h = (refl, (pure-same h).0)
chosen false result value record_error db db' h =
    let (_, _, _, raised) = bind-eq-ok record_error (λ _. raise launch_integrity) db h in
    absurd (cc raised)

module _ (codec : Codec) (host : Host) (dispatcher : String) (a : LaunchArguments)
    (launcher : Option FixtureLauncher) where
  invoke_fixture-run :
      (p : Prepared) (s : ResearchRunSubmissionRecord) (db db' : Database)
      (value : FixtureExecutionResult)
      → invoke_fixture launcher host a p s db ≡ (ok value, db')
      → value.quant_factory_run_id ≡ s.run_id
  unfolding invoke_fixture
  invoke_fixture-run p s db db' value h =
      let (result, db1, _, rest) =
        bind-eq-ok (launch_with_timeout launcher (kwargs_of a p s) a.timeout_seconds) _ db h in
      let (same, kept) =
        chosen (result.quant_factory_run_id == s.run_id) result value
          (record_integrity_error host s.run_id) db1 db' rest in
      sym (ap (λ q. q.quant_factory_run_id) kept) ∙ (string_eq.same_iff _ _).0 same

  answer_dispatch-read :
      (d : ResearchDispatchResult FixtureExecutionResult) (db db' : Database) (r : RunLaunchResult)
      → answer_dispatch codec host dispatcher d db ≡ (ok r, db')
      → (db ≡ db') × (r.submission ≡ d.submission) × (r.invoked ≡ d.invoked)
  unfolding answer_dispatch
  answer_dispatch-read d db db' r h =
      let (run, _, h1) =
        lift-eq-ok db db' (or_raise (get_run db d.submission.run_id) launch_integrity) _ r h in
      let (shown, _, h2) = lift-eq-ok db db' (summary codec run) _ r h1 in
      let (made, kept) = pure-same h2 in
      (kept, sym (ap (λ q. q.submission) made), sym (ap (λ q. q.invoked) made))

  answer_claim-quiet :
      (c : ResearchLaunchClaim) (db db' : Database) (r : RunLaunchResult)
      → answer_claim codec host dispatcher c db ≡ (ok r, db')
      → r.invoked ≡ false
  unfolding answer_claim
  answer_claim-quiet c db db' r h =
      let (shown, _, h1) = lift-eq-ok db db' (summary codec c.run) _ r h in
      sym (ap (λ q. q.invoked) (pure-same h1).0)

  answer-dispatched :
      (key : String) (c : ResearchLaunchClaim) (db db' : Database) (r : RunLaunchResult)
      → answer codec host dispatcher launcher a key c db ≡ (ok r, db')
      → r.invoked ≡ true
      → (p : Prepared) × (dispatch_prepared codec host dispatcher launcher a key p db ≡ (ok r, db'))
  unfolding answer dispatch_claim
  answer-dispatched key c db db' r h was = elim (Bool-cases (is_claimed c.submission)) [
    | inl waits ↦
        let (p, _, ended) =
          lift-eq-ok db db' (prepare codec db c.submission c.run)
            (dispatch_prepared codec host dispatcher launcher a key) r (rw waits at h) in
        (p, ended)
    | inr moved ↦ absurd (cc (was, answer_claim-quiet c db db' r (rw moved at h)))
  ]

  -- The launcher has returned on the marked row, and the row is the one shown.
  abbrev HasReturned : (key : String) → Prepared → Database → ResearchRunSubmissionRecord → Type 0
  HasReturned key p db' shown =
      (s : ResearchRunSubmissionRecord) × (db1 : Database) × (value : FixtureExecutionResult)
      × IsMarked key dispatcher db1 s
      × (invoke_fixture launcher host a p s db1 ≡ (ok value, db'))
      × (value.quant_factory_run_id ≡ s.run_id)
      × (get_submission db' key ≡ some shown)
      × (is_invoking shown ≡ false)

  dispatch-HasReturned :
      (key : String) (p : Prepared) (db db' : Database)
      (d : ResearchDispatchResult FixtureExecutionResult)
      → dispatch codec fixture_launch_contract host.beginning host.ending key dispatcher
          (invoke_fixture launcher host a p)
          db
        ≡ (ok d, db')
      → d.invoked ≡ true
      → HasReturned key p db' d.submission
  dispatch-HasReturned key p db db' d ran was =
      let (s, db1, value, marked, called, _, at_d, done) =
        dispatch-returned codec fixture_launch_contract key dispatcher host.beginning host.ending
          (invoke_fixture launcher host a p) db db' d ran was in
      (s, db1, value, marked, called, invoke_fixture-run p s db1 db' value called, at_d, done)

  HasReturned-same :
      (key : String) (p : Prepared) (db db' : Database) (first second : ResearchRunSubmissionRecord)
      → db ≡ db'
      → second ≡ first
      → HasReturned key p db first
      → HasReturned key p db' second
  HasReturned-same key p db db' first second kept shows returned = rw (← kept, shows) returned

  dispatch_prepared-HasReturned :
      (key : String) (p : Prepared) (db db' : Database) (r : RunLaunchResult)
      → dispatch_prepared codec host dispatcher launcher a key p db ≡ (ok r, db')
      → r.invoked ≡ true
      → HasReturned key p db' r.submission
  unfolding dispatch_prepared
  dispatch_prepared-HasReturned key p db db' r h was =
      let (d, db1, ran, ended) =
        bind-eq-ok
          (dispatch codec fixture_launch_contract host.beginning host.ending key dispatcher
            (invoke_fixture launcher host a p))
          (answer_dispatch codec host dispatcher) db h in
      let (kept, shows, says) = answer_dispatch-read d db1 db' r ended in
      HasReturned-same key p db1 db' d.submission r.submission kept shows
        (dispatch-HasReturned key p db db1 d ran (sym says ∙ was))

  -- An answer that says that it has invoked tells that the launcher has been called on the marked
  -- row of the key, has returned a result for the run of that row, and has left the row that the
  -- answer shows, which is no longer in state invoking.
  pub launch_fixture-returned :
      (db db' : Database) (r : RunLaunchResult)
      → launch_fixture codec host dispatcher launcher a db ≡ (ok r, db')
      → r.invoked ≡ true
      → (key : String) × (p : Prepared) × (s : ResearchRunSubmissionRecord) × (db1 : Database)
        × (value : FixtureExecutionResult) × (key_of codec a ≡ ok key)
        × IsMarked key dispatcher db1 s
        × (invoke_fixture launcher host a p s db1 ≡ (ok value, db'))
        × (value.quant_factory_run_id ≡ s.run_id)
        × (get_submission db' key ≡ some r.submission)
        × (is_invoking r.submission ≡ false)
  unfolding launch_fixture launch_under
  launch_fixture-returned db db' r h was =
      let (_, _, h1) = lift-eq-ok db db' (check_arguments host a) _ r h in
      let (key, made, h2) = lift-eq-ok db db' (key_of codec a) _ r h1 in
      let (existing, db1, _, h3) = bind-eq-ok (launch_get key) _ db h2 in
      let (c, db2, _, h4) = bind-eq-ok (claim_of codec host dispatcher a key existing) _ db1 h3 in
      let (p, h5) = answer-dispatched key c db2 db' r h4 was in
      let (s, db3, value, marked, called, same, at_r, done) =
        dispatch_prepared-HasReturned key p db2 db' r h5 was in
      (key, p, s, db3, value, made, marked, called, same, at_r, done)
