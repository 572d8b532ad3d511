-- ===== src/RunService/Launching.antt =====
-- orchestration/run_service.py, `launch_fixture`: when the injected launcher is called.
use quant_factory.Prelude.{Bool-cases, ◌≡◌, refl, inl, inr, Option, none, some, String, string_eq}
use quant_factory.Python.{Result, ok, err, or_raise, run_service, fixture_timeout}
use quant_factory.Python.Exec.{gets, Exec, continue, lift, bind-same, ◌>>=◌}
use quant_factory.Python.Json.{Json, Codec}
use quant_factory.Persistence.{Database, ResearchRunSubmissionRecord}
use quant_factory.Persistence.Submissions.{is_claimed}
use quant_factory.Launch.{fixture_launch_contract, ResearchLaunchClaim}
use quant_factory.Launch.Dispatching.{IsMarked, dispatch-marked}
use quant_factory.RunService.{
  launch_get, dispatch, FixtureLauncher, LaunchArguments, LaunchKwargs, Host, Prepared,
  RunLaunchResult,
}
use quant_factory.RunService.Preparing.{check_arguments, key_of, prepare, kwargs_of}
use quant_factory.RunService.Launches.{
  answer, dispatch_prepared, claim_of, timed_call, launch_with_timeout, invoke_fixture,
  answer_dispatch, dispatch_claim, launch_under, launch_fixture,
}

-- Two launchers that do the same with these arguments on this database.
abbrev pub Agree : (first second : FixtureLauncher) → LaunchKwargs → Database → Type 0
Agree first second kwargs db =
    (first.run kwargs db ≡ second.run kwargs db)
    × ((timeout : Json) → first.late kwargs timeout db ≡ second.late kwargs timeout db)

timed_call-same :
    (first second : FixtureLauncher) (kwargs : LaunchKwargs) (timeout : Json) (db : Database)
    → Agree first second kwargs db
    → timed_call first kwargs timeout db ≡ timed_call second kwargs timeout db
unfolding timed_call
timed_call-same first second kwargs timeout db (runs, lates) =
    rw (lates timeout, timed_call) (go (second.late kwargs timeout db))
  where
    go :
        (o : Option Database)
        → elim o [
          | some db' ↦ (err fixture_timeout, db')
          | none ↦ (first.run kwargs >>= λ result. lift (or_raise result run_service)) db
        ]
          ≡ elim o [
            | some db' ↦ (err fixture_timeout, db')
            | none ↦ (second.run kwargs >>= λ result. lift (or_raise result run_service)) db
          ]
    go (some db') = refl
    go none = bind-same (first.run kwargs) (second.run kwargs) _ _ db runs (λ a middle. refl)

launch_with_timeout-same :
    (first second : FixtureLauncher) (kwargs : LaunchKwargs) (timeout : Option Json) (db : Database)
    → Agree first second kwargs db
    → launch_with_timeout (some first) kwargs timeout db
      ≡ launch_with_timeout (some second) kwargs timeout db
unfolding launch_with_timeout
launch_with_timeout-same first second kwargs none db (runs, lates) =
    bind-same (first.run kwargs) (second.run kwargs) _ _ db runs (λ a middle. refl)
launch_with_timeout-same first second kwargs (some timeout) db agree =
    timed_call-same first second kwargs timeout db agree

invoke_fixture-same :
    (first second : FixtureLauncher) (host : Host) (a : LaunchArguments) (p : Prepared)
    (s : ResearchRunSubmissionRecord) (db : Database)
    → Agree first second (kwargs_of a p s) db
    → invoke_fixture (some first) host a p s db ≡ invoke_fixture (some second) host a p s db
unfolding invoke_fixture
invoke_fixture-same first second host a p s db agree =
    bind-same (launch_with_timeout (some first) (kwargs_of a p s) a.timeout_seconds)
      (launch_with_timeout (some second) (kwargs_of a p s) a.timeout_seconds) _ _ db
      (launch_with_timeout-same first second (kwargs_of a p s) a.timeout_seconds db agree)
      (λ r m. refl)

module _ (codec : Codec) (host : Host) (dispatcher : String) (a : LaunchArguments) (key : String)
    (first second : FixtureLauncher)
    (agree : (s : ResearchRunSubmissionRecord) (kwargs : LaunchKwargs) (db : Database)
      → IsMarked key dispatcher db s
      → kwargs.idempotency_key ≡ s.idempotency_key
      → kwargs.quant_factory_run_id ≡ s.run_id
      → Agree first second kwargs db) where
  dispatch_prepared-same :
      (p : Prepared) (db : Database)
      → dispatch_prepared codec host dispatcher (some first) a key p db
        ≡ dispatch_prepared codec host dispatcher (some second) a key p db
  unfolding dispatch_prepared
  dispatch_prepared-same p db =
      let invoke = invoke_fixture (some first) host a p in
      let invoke' = invoke_fixture (some second) host a p in
      bind-same
        (dispatch codec fixture_launch_contract host.beginning host.ending key dispatcher invoke)
        (dispatch codec fixture_launch_contract host.beginning host.ending key dispatcher invoke')
        (answer_dispatch codec host dispatcher) (answer_dispatch codec host dispatcher) db
        (dispatch-marked codec fixture_launch_contract key dispatcher host.beginning host.ending
          invoke invoke' db
          (λ s db1 marked. invoke_fixture-same first second host a p s db1 (
            agree s (kwargs_of a p s) db1 marked (unfold kwargs_of in refl)
              (unfold kwargs_of in refl))))
        (λ d m. refl)

  reading : FixtureLauncher → ResearchLaunchClaim → Database → Exec Database RunLaunchResult
  reading launcher c db =
      lift (prepare codec db c.submission c.run)
      >>= dispatch_prepared codec host dispatcher (some launcher) a key

  dispatch_claim-same :
      (c : ResearchLaunchClaim) (db : Database)
      → dispatch_claim codec host dispatcher (some first) a key c db
        ≡ dispatch_claim codec host dispatcher (some second) a key c db
  unfolding dispatch_claim reading
  dispatch_claim-same c db =
      bind-same (gets (λ db. db)) (gets (λ db. db)) (reading first c) (reading second c) db refl
        (λ db1 m.
          bind-same (lift (prepare codec db1 c.submission c.run))
            (lift (prepare codec db1 c.submission c.run))
            (dispatch_prepared codec host dispatcher (some first) a key)
            (dispatch_prepared codec host dispatcher (some second) a key) m refl
            dispatch_prepared-same)

  answer-same :
      (c : ResearchLaunchClaim) (db : Database)
      → answer codec host dispatcher (some first) a key c db
        ≡ answer codec host dispatcher (some second) a key c db
  unfolding answer
  answer-same c db = elim (Bool-cases (is_claimed c.submission)) [
    | inl waits ↦ rw waits (dispatch_claim-same c db)
    | inr moved ↦ rw moved refl
  ]

  claiming : FixtureLauncher → Option ResearchRunSubmissionRecord → Exec Database RunLaunchResult
  claiming launcher existing =
      claim_of codec host dispatcher a key existing
      >>= answer codec host dispatcher (some launcher) a key

  launch_under-same :
      (db : Database)
      → launch_under codec host dispatcher (some first) a key db
        ≡ launch_under codec host dispatcher (some second) a key db
  unfolding launch_under claiming
  launch_under-same db =
      bind-same (launch_get key) (launch_get key) (claiming first) (claiming second) db refl
        (λ existing m.
          bind-same (claim_of codec host dispatcher a key existing)
            (claim_of codec host dispatcher a key existing)
            (answer codec host dispatcher (some first) a key)
            (answer codec host dispatcher (some second) a key) m refl answer-same)

module _ (codec : Codec) (host : Host) (dispatcher : String) (a : LaunchArguments) where
  -- `launch_fixture` calls the launcher only on a database that already holds the row of the key,
  -- in state invoking with this dispatcher, and with that row's key and run: two launchers that do
  -- the same there, whatever they do elsewhere, give the same answer and the same database.
  pub launch_fixture-marked :
      (first second : FixtureLauncher) (db : Database)
      → ((key : String) (s : ResearchRunSubmissionRecord) (kwargs : LaunchKwargs) (db1 : Database)
          → key_of codec a ≡ ok key
          → IsMarked key dispatcher db1 s
          → kwargs.idempotency_key ≡ s.idempotency_key
          → kwargs.quant_factory_run_id ≡ s.run_id
          → Agree first second kwargs db1)
      → launch_fixture codec host dispatcher (some first) a db
        ≡ launch_fixture codec host dispatcher (some second) a db
  unfolding launch_fixture
  launch_fixture-marked first second db agree =
      bind-same (lift (check_arguments host a)) (lift (check_arguments host a)) (keyed first)
        (keyed second) db refl (λ _ db0. under (key_of codec a) refl db0)
    where
      keyed : FixtureLauncher → Unit {0} → Exec Database RunLaunchResult
      keyed launcher _ =
          lift (key_of codec a) >>= launch_under codec host dispatcher (some launcher) a

      under :
          (k : Result String)
          → key_of codec a ≡ k
          → (db0 : Database)
          → continue k (launch_under codec host dispatcher (some first) a) db0
            ≡ continue k (launch_under codec host dispatcher (some second) a) db0
      under (err e) made db0 = refl
      under (ok key) made db0 =
          launch_under-same codec host dispatcher a key first second
            (λ s kwargs db1. agree key s kwargs db1 made) db0
