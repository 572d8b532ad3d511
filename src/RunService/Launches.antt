-- ===== src/RunService/Launches.antt =====
-- `launch_fixture` with `_launch_with_timeout` and `_record_integrity_error`.
use quant_factory.Prelude.{ℕ, false, Option, none, some, String, string_eq, ◌==◌, if◌then◌else◌}
use quant_factory.Python.{
  err, attribute_error, launch_integrity, run_service, fixture_timeout, or_raise,
}
use quant_factory.Python.Exec.{Exec, pure, raise, lift, gets, ◌>>=◌, ◌>>◌}
use quant_factory.Python.Json.{Json, Codec, object, end}
use quant_factory.Persistence.{
  Database, ResearchRunSubmissionRecord, service_integrity_error, error,
}
use quant_factory.Persistence.Runs.{get_run}
use quant_factory.Persistence.Events.{append_event}
use quant_factory.Persistence.Submissions.{is_claimed}
use quant_factory.Launch.{
  fixture_launch_contract, ResearchLaunchRequest, ResearchLaunchClaim, ResearchDispatchResult, Call,
}
use quant_factory.Launch.Operations.{claim}
use quant_factory.Launch.Dispatch.{launch_get, dispatch}
use quant_factory.RunService.{
  FixtureExecutionResult, FixtureLauncher, LaunchArguments, LaunchKwargs, Host, Prepared,
  RunLaunchResult,
}
use quant_factory.RunService.Preparing.{
  check_arguments, new_environment, key_of, prepare, summary, kwargs_of,
}

abbrev pub claim_request : LaunchArguments → ResearchLaunchRequest
claim_request a = record {
  operation = a.operation;
  configuration_id = a.configuration_id;
  source_run_id = a.source_run_id;
  source_lineage = a.source_lineage;
}

-- `run_id_factory`
abbrev pub with_run_id : Option String → Call → Call
with_run_id none call = call
with_run_id (some run_id) call = record call { new_run_id = run_id }

-- the environment of a new claim; none, and so the empty document, where the key has a row
abbrev pub claim_environment : Host → LaunchArguments → Option ResearchRunSubmissionRecord → Json
claim_environment host a none = new_environment host a
claim_environment host a (some existing) = object end

-- a call that is waited for until the timeout
unfoldable pub timed_call :
    FixtureLauncher → LaunchKwargs → (timeout : Json) → Exec Database FixtureExecutionResult
timed_call launcher kwargs timeout db = elim (launcher.late kwargs timeout db) [
  | some db' ↦ (err fixture_timeout, db')
  | none ↦ (launcher.run kwargs >>= λ result. lift (or_raise result run_service)) db
]

-- `_launch_with_timeout`: an object that is no result is refused at once after a timed call, and at
-- its first attribute otherwise.
unfoldable pub launch_with_timeout :
    Option FixtureLauncher → LaunchKwargs → Option Json → Exec Database FixtureExecutionResult
launch_with_timeout none kwargs timeout = raise run_service
launch_with_timeout (some launcher) kwargs none = do
  result ← launcher.run kwargs
  lift (or_raise result attribute_error)
launch_with_timeout (some launcher) kwargs (some timeout) = timed_call launcher kwargs timeout

-- `_record_integrity_error`
unfoldable pub record_integrity_error : Host → (run_id : String) → Exec Database (Unit {0})
record_integrity_error host run_id = do
  run ← gets (λ db. get_run db run_id)
  elim run [
    | none ↦ pure tt
    | some _ ↦
        (append_event host.now run_id service_integrity_error error
            "Fixture launcher returned a mismatched Quant Factory run ID."
          >>= λ _. pure tt)
  ]

-- `invoke` of `launch_fixture`
unfoldable pub invoke_fixture :
    Option FixtureLauncher
    → Host
    → LaunchArguments
    → Prepared
    → ResearchRunSubmissionRecord
    → Exec Database FixtureExecutionResult
invoke_fixture launcher host a p submission = do
  result ← launch_with_timeout launcher (kwargs_of a p submission) a.timeout_seconds
  if result.quant_factory_run_id == submission.run_id
      then pure result
      else (record_integrity_error host submission.run_id >> raise launch_integrity)

-- `replace(prefect_result, attempt_count=run.attempt_count)`
abbrev recounted : ℕ → Option FixtureExecutionResult → Option FixtureExecutionResult
recounted n none = none
recounted n (some r) = some (record r { attempt_count = n })

module _ (codec : Codec) (host : Host) (dispatcher : String) where
  -- A launch whose submission has left the state claimed is only read.
  unfoldable pub answer_claim : ResearchLaunchClaim → Exec Database RunLaunchResult
  answer_claim c = do
    run ← lift (summary codec c.run)
    pure (record { run = run; prefect_result = none; submission = c.submission; invoked = false })

  -- the end of `launch_fixture`, after `dispatch`
  unfoldable pub answer_dispatch :
      ResearchDispatchResult FixtureExecutionResult → Exec Database RunLaunchResult
  answer_dispatch d = do
    found ← gets (λ db. get_run db d.submission.run_id)
    run ← lift (or_raise found launch_integrity)
    shown ← lift (summary codec run)
    pure (record {
      run = shown;
      prefect_result = if d.invoked then recounted run.attempt_count d.value else none;
      submission = d.submission;
      invoked = d.invoked;
    })

  unfoldable pub dispatch_prepared :
      Option FixtureLauncher
      → LaunchArguments
      → (key : String) → Prepared
      → Exec Database RunLaunchResult
  dispatch_prepared launcher a key p = do
    d ←
        dispatch codec fixture_launch_contract host.beginning host.ending key dispatcher
          (invoke_fixture launcher host a p)
    answer_dispatch d

  unfoldable pub dispatch_claim :
      Option FixtureLauncher
      → LaunchArguments
      → (key : String) → ResearchLaunchClaim
      → Exec Database RunLaunchResult
  dispatch_claim launcher a key c = do
    db ← gets (λ db. db)
    p ← lift (prepare codec db c.submission c.run)
    dispatch_prepared launcher a key p

  -- the call of `claim`
  unfoldable pub claim_of :
      LaunchArguments
      → (key : String) → Option ResearchRunSubmissionRecord
      → Exec Database ResearchLaunchClaim
  claim_of a key existing =
      claim codec fixture_launch_contract (with_run_id a.run_id host.claiming) key (claim_request a)
        (claim_environment host a existing)

  unfoldable pub answer :
      Option FixtureLauncher
      → LaunchArguments
      → (key : String) → ResearchLaunchClaim
      → Exec Database RunLaunchResult
  answer launcher a key c =
      if is_claimed c.submission then dispatch_claim launcher a key c else answer_claim c

  -- the launch under a key
  unfoldable pub launch_under :
      Option FixtureLauncher → LaunchArguments → (key : String) → Exec Database RunLaunchResult
  launch_under launcher a key = do
    existing ← launch_get key
    c ← claim_of a key existing
    answer launcher a key c

  -- `launch_fixture`
  unfoldable pub launch_fixture :
      Option FixtureLauncher → LaunchArguments → Exec Database RunLaunchResult
  launch_fixture launcher a = do
    lift (check_arguments host a)
    key ← lift (key_of codec a)
    launch_under launcher a key
