-- ===== src/RunService/Replaying.antt =====
-- orchestration/run_service.py, `launch_fixture`: the repeated launch of a key.
use quant_factory.Python.Raising.{ok-injective}
use quant_factory.Prelude.{◌≡◌, refl, sym, ◌∙◌, ap, inl, inr, false, Option, some, String}
use quant_factory.Python.{Exn, Result, ok, err}
use quant_factory.Python.Exec.{Exec, continue, lift, gets, ◌>>=◌}
use quant_factory.Python.Json.{Codec}
use quant_factory.Persistence.{Database, ResearchRunSubmissionRecord}
use quant_factory.Persistence.Submissions.{get_submission, is_claimed}
use quant_factory.Launch.{fixture_launch_contract, ResearchLaunchClaim}
use quant_factory.Launch.Dispatch.{launch_get}
use quant_factory.Launch.Requests.{validate_launch_key}
use quant_factory.Launch.Lifecycle.{claiming, perform}
use quant_factory.Launch.Atomic.{is_err, raises, perform-raises}
use quant_factory.Launch.Claiming.{claim-IsClaimed}
use quant_factory.RunService.{FixtureLauncher, LaunchArguments, Host, RunLaunchResult}
use quant_factory.RunService.Preparing.{check_arguments, key_of, summary}
use quant_factory.RunService.Launches.{
  answer, answer_claim, claim_of, claim_request, with_run_id, claim_environment, launch_under,
  launch_fixture,
}

-- The answer of a launch that reads the row `s` and does nothing else: the same for every launcher.
abbrev IsRead :
    ResearchRunSubmissionRecord
    → Database
    → (Option FixtureLauncher → Result RunLaunchResult × Database)
    → Type 0
IsRead s db launch =
    (answer : Result RunLaunchResult) × ((launcher : Option FixtureLauncher)
      → launch launcher ≡ (answer, db))
    × ((r : RunLaunchResult) → answer ≡ ok r → (r.invoked ≡ false) × (r.submission ≡ s))

module _ (s : ResearchRunSubmissionRecord) (db : Database) where
  lift-IsRead :
      {A : Type 0} (r : Result A) (f : Option FixtureLauncher → A → Exec Database RunLaunchResult)
      → ((a : A) → r ≡ ok a → IsRead s db (λ launcher. f launcher a db))
      → IsRead s db (λ launcher. (lift r >>= f launcher) db)
  lift-IsRead (ok a) f read = read a refl
  lift-IsRead (err e) f read = (err e, λ launcher. refl, λ r h. absurd (cc h))

  module _ (codec : Codec) (host : Host) (dispatcher : String) (a : LaunchArguments) where
    answer_claim-IsRead :
        (c : ResearchLaunchClaim)
        → c.submission ≡ s
        → IsRead s db (λ launcher. answer_claim codec host dispatcher c db)
    unfolding answer_claim
    answer_claim-IsRead c same = lift-IsRead (summary codec c.run) _ (λ run _. (
      _,
      λ launcher. refl,
      λ r h.
          let e = ok-injective h in
          (sym (ap (λ q. q.invoked) e), sym (ap (λ q. q.submission) e) ∙ same),
    ))

    answer-IsRead :
        (key : String) (c : ResearchLaunchClaim)
        → c.submission ≡ s
        → is_claimed s ≡ false
        → IsRead s db (λ launcher. answer codec host dispatcher launcher a key c db)
    unfolding answer
    answer-IsRead key c same moved =
        let still : is_claimed c.submission ≡ false = ap is_claimed same ∙ moved in
        rw still (answer_claim-IsRead c same)

    claim_of-found :
        (key : String) (existing : Option ResearchRunSubmissionRecord) (c : ResearchLaunchClaim)
        (db1 : Database)
        → get_submission db key ≡ some s
        → claim_of codec host dispatcher a key existing db ≡ (ok c, db1)
        → (db1 ≡ db) × (c.submission ≡ s)
    unfolding claim_of
    claim_of-found key existing c db1 at_s returned =
        let (got, how) =
          claim-IsClaimed codec fixture_launch_contract (with_run_id a.run_id host.claiming) db key
            (claim_request a) (claim_environment host a existing) c db1 returned in
        elim how [
          | inl (same, _) ↦
              let here : get_submission db key ≡ some c.submission = rw same at got in
              (same, cc (here, at_s))
          | inr (missing, _) ↦ absurd (cc (missing, at_s))
        ]

    claim_of-kept :
        (key : String) (existing : Option ResearchRunSubmissionRecord) (e : Exn) (db1 : Database)
        → claim_of codec host dispatcher a key existing db ≡ (err e, db1)
        → db1 ≡ db
    unfolding claim_of raises perform
    claim_of-kept key existing e db1 raised =
        let call = with_run_id a.run_id host.claiming in
        let kept =
          perform-raises codec fixture_launch_contract
            (claiming call key (claim_request a) (claim_environment host a existing)) db
            (ap (λ m. is_err m.0) raised) in
        sym (ap (λ m. m.1) raised) ∙ kept

    claim_of-IsRead :
        (key : String) (existing : Option ResearchRunSubmissionRecord)
        → get_submission db key ≡ some s
        → is_claimed s ≡ false
        → IsRead s db (λ launcher.
          (claim_of codec host dispatcher a key existing
              >>= answer codec host dispatcher launcher a key)
            db)
    claim_of-IsRead key existing at_s moved =
        go (claim_of codec host dispatcher a key existing db) refl
      where
        go :
            (m : Result ResearchLaunchClaim × Database)
            → claim_of codec host dispatcher a key existing db ≡ m
            → IsRead s db
                (λ launcher. continue m.0 (answer codec host dispatcher launcher a key) m.1)
        go (err e, db1) raised = (
          err e,
          λ launcher. ap (λ d. (err e, d)) (claim_of-kept key existing e db1 raised),
          λ r h. absurd (cc h),
        )
        go (ok c, db1) returned =
            let (kept, same) = claim_of-found key existing c db1 at_s returned in
            rw kept (answer-IsRead key c same moved)

    launch_under-IsRead :
        (key : String)
        → get_submission db key ≡ some s
        → is_claimed s ≡ false
        → IsRead s db (λ launcher. launch_under codec host dispatcher launcher a key db)
    unfolding launch_under launch_get
    launch_under-IsRead key at_s moved = go (validate_launch_key key)
      where
        go :
            (v : Result String)
            → IsRead s db (λ launcher.
              continue
                (continue v (λ k. gets (λ db. get_submission db k)) db).0
                (λ existing.
                  claim_of codec host dispatcher a key existing
                  >>= answer codec host dispatcher launcher a key)
                (continue v (λ k. gets (λ db. get_submission db k)) db).1)
        go (err e) = (err e, λ launcher. refl, λ r h. absurd (cc h))
        go (ok k) = claim_of-IsRead key (get_submission db k) at_s moved

  -- Where the row of the key has left the state claimed, a launch under the key calls no launcher
  -- and writes nothing: the answer is the same for every launcher, or for none, the database is
  -- left as it is, and an answer that is not an exception is not invoked and has that row.
  pub launch_fixture-replayed :
      (codec : Codec) (host : Host) (dispatcher : String) (a : LaunchArguments) (key : String)
      → key_of codec a ≡ ok key
      → get_submission db key ≡ some s
      → is_claimed s ≡ false
      → (answer : Result RunLaunchResult) × ((launcher : Option FixtureLauncher)
          → launch_fixture codec host dispatcher launcher a db ≡ (answer, db))
        × ((r : RunLaunchResult) → answer ≡ ok r → (r.invoked ≡ false) × (r.submission ≡ s))
  unfolding launch_fixture
  launch_fixture-replayed codec host dispatcher a key made at_s moved =
      lift-IsRead (check_arguments host a) _ (λ _ _. lift-IsRead (key_of codec a) _ (λ k made'.
        let same : key ≡ k = cc (made, made') in
        rw (sym same) (launch_under-IsRead codec host dispatcher a key at_s moved)))
