-- ===== src/Launch/Once.antt =====
-- orchestration/research_launch_claims.py, `begin_dispatch`: who may invoke Prefect for a submission.
use text.Mathlib.TextEquality.{eq_iff}
use quant_factory.Prelude.{
  ℕ, ◌+◌, ◌≤◌, ◌≡◌, refl, ◌⊎◌, inl, inr, Bool, true, false, ◌&&◌, Option, none, some, List, [], ◌∷◌,
  ◌++◌, String, arith, string_eq, ◌==◌, if◌then◌else◌, Bool-cases,
}
use quant_factory.Python.{Result, ok, err}
use quant_factory.Python.Json.{Codec}
use quant_factory.Persistence.{Database, ResearchRunSubmissionRecord}
use quant_factory.Persistence.Tables.{
  update, apply_if, passes, get-append, key-get, is_updated, is_updated-get,
}
use quant_factory.Persistence.Submissions.{
  submission_key, get_submission, is_claimed, is_invoking, is_unknown, may_acknowledge, to_invoking,
  to_unknown, to_acknowledged, to_failed_before, to_abandoned,
}
use quant_factory.Launch.{ResearchLaunchContract, ResearchDispatchDecision, Call}
use quant_factory.Launch.Operations.{begin_dispatch, begin_body}
use quant_factory.Launch.Requests.{validate_launch_key, validate_dispatcher_id}
use quant_factory.Launch.Effects.{begin_body_effect}
use quant_factory.Launch.Steps.{
  lift-elim, immediate-elim, Commit, quiet, claims, dispatches, blurs, starts, fails, abandons,
}
use quant_factory.Launch.Coupling.{submissions_same, submission_after}
use quant_factory.Launch.Lifecycle.{Operation, beginning, perform, perform-Commit}

-- how many invocations a key may still be given: one while nobody has dispatched its claim
abbrev left_in : Option ResearchRunSubmissionRecord → ℕ
left_in none = 1
left_in (some s) = if is_claimed s then 1 else 0

abbrev pub left : String → Database → ℕ
left key db = left_in (get_submission db key)

update-left :
    (db db' : Database) (key j : String) (q : ResearchRunSubmissionRecord → Bool)
    (f : ResearchRunSubmissionRecord → ResearchRunSubmissionRecord)
    → ((s : ResearchRunSubmissionRecord) → (f s).idempotency_key ≡ s.idempotency_key)
    → ((s : ResearchRunSubmissionRecord) → is_claimed (f s) ≡ false)
    → db'.submissions ≡ update submission_key key q f db.submissions
    → left j db' ≤ left j db
update-left db db' key j q f same dispatched e =
    go (get_submission db j) (submission_after db db' key q f same e j)
  where
    go :
        (o : Option ResearchRunSubmissionRecord)
        → get_submission db' j ≡ (if key == j then apply_if q f o else o)
        → left j db' ≤ left_in o
    go none seen = ground arith
    go (some s) seen = ground (arith, dispatched s)

append-left :
    (db db' : Database) (j : String) (s : ResearchRunSubmissionRecord)
    → db'.submissions ≡ db.submissions ++ s ∷ []
    → left j db' ≤ left j db
unfolding get_submission
append-left db db' j s e = ground (arith, get-append submission_key j s db.submissions)

-- No step gives an invocation back.
Commit-left : (db db' : Database) (j : String) → Commit db db' → left j db' ≤ left j db
Commit-left db db' j (quiet subs runs) = ground (arith, submissions_same db db' subs j)
Commit-left db db' j (claims s r fresh no_run free state run_of status subs runs) =
    append-left db db' j s subs
Commit-left db db' j (dispatches key dispatcher now subs runs) =
    update-left db db' key j is_claimed (to_invoking dispatcher now) (λ _. refl) (λ _. refl) subs
Commit-left db db' j (blurs key now summary evidence subs runs) =
    update-left db db' key j is_invoking (to_unknown now summary evidence) (λ _. refl) (λ _. refl)
      subs
Commit-left db db' j
      (starts key flow_run now later environment url s r found may got status subs runs) =
    update-left db db' key j may_acknowledge (to_acknowledged flow_run url now) (λ _. refl)
      (λ _. refl) subs
Commit-left db db' j (fails key now later summary s r found was got status subs runs) =
    update-left db db' key j is_claimed (to_failed_before now summary) (λ _. refl) (λ _. refl) subs
Commit-left db db' j (abandons key now later summary evidence s r found was got status subs runs) =
    update-left db db' key j is_unknown (to_abandoned now summary evidence) (λ _. refl) (λ _. refl)
      subs

-- 1 when the answer tells its caller to invoke Prefect for this key
abbrev told_to_invoke : String → Result ResearchDispatchDecision → ℕ
told_to_invoke key (err e) = 0
told_to_invoke key (ok d) = if d.should_invoke && d.submission.idempotency_key == key then 1 else 0

module _ (codec : Codec) (contract : ResearchLaunchContract) where
  unfoldable pub told : String → Operation → Database → ℕ
  told key (beginning call k dispatcher) db =
      told_to_invoke key (begin_dispatch codec contract call k dispatcher db).0
  told key op db = 0

  begin_body-once :
      (call : Call) (key k dispatcher : String) (db db' : Database) (d : ResearchDispatchDecision)
      → begin_body codec contract call k dispatcher db ≡ (ok d, db')
      → told_to_invoke key (ok d) + left key db' ≤ left key db
  unfolding get_submission
  begin_body-once call key k dispatcher db db' d h =
      let (subs, _, won, again) = begin_body_effect codec contract call k db db' dispatcher d h in
      go (get_submission db key) refl (Bool-cases (k == key)) won again (
        submission_after db db' k is_claimed (to_invoking dispatcher (call.clock 0)) (λ _. refl)
          subs key)
    where
      wins :
          is_updated submission_key k is_claimed db.submissions
          ≡ passes is_claimed (get_submission db k)
      wins = is_updated-get submission_key k is_claimed db.submissions

      same_key : get_submission db' k ≡ some d.submission → d.submission.idempotency_key ≡ k
      same_key e = key-get submission_key k d.submission db'.submissions e

      go :
          (o : Option ResearchRunSubmissionRecord)
          → get_submission db key ≡ o
          → ((k == key) ≡ true) ⊎ ((k == key) ≡ false)
          → d.should_invoke ≡ is_updated submission_key k is_claimed db.submissions
          → get_submission db' k ≡ some d.submission
          → get_submission db' key ≡ (
              if k == key
              then apply_if is_claimed
                  (to_invoking dispatcher (call.clock 0))
                  (get_submission db key)
              else get_submission db key)
          → told_to_invoke key (ok d) + left key db' ≤ left_in o
      go o here (inl hit) won again seen = ground (arith, wins, eq_iff k key)
      go o here (inr miss) won again seen =
          ground (arith, same_key again, eq_iff d.submission.idempotency_key key)

  begin_dispatch-once :
      (call : Call) (key k dispatcher : String) (db : Database)
      → told_to_invoke key (begin_dispatch codec contract call k dispatcher db).0
          + left key (begin_dispatch codec contract call k dispatcher db).1
        ≤ left key db
  unfolding begin_dispatch
  begin_dispatch-once call key k dispatcher db =
      lift-elim db bounded (λ e. ground arith) (validate_launch_key k) _
        λ k'.
          lift-elim db bounded (λ e. ground arith) (validate_dispatcher_id dispatcher) _
            λ d.
              immediate-elim db bounded (λ e. ground arith) call
                (begin_body codec contract call k' d)
                λ x db' h. begin_body-once call key k' d db db' x h
    where
      bounded : Result ResearchDispatchDecision × Database → Type 0
      bounded (r, db') = told_to_invoke key r + left key db' ≤ left key db

  perform-once :
      (key : String) (op : Operation) (db : Database)
      → told key op db + left key (perform codec contract op db) ≤ left key db
  unfolding perform told
  perform-once key (beginning call k dispatcher) db = begin_dispatch-once call key k dispatcher db
  perform-once key op db =
      let kept =
        Commit-left db (perform codec contract op db) key (perform-Commit codec contract op db) in
      omega arith

  -- how many of the calls tell their caller to invoke Prefect for this key
  unfoldable pub invocations : String → List Operation → Database → ℕ
  invocations key [] db = 0
  invocations key (op ∷ ops) db =
      told key op db + invocations key ops (perform codec contract op db)

  -- Over any sequence of calls of the service, by any dispatchers, returning or raising, at most one
  -- answer of `begin_dispatch` for an idempotency key tells its caller to invoke Prefect, and none
  -- does where the submission of the key has already left the state claimed.
  pub invocations-left :
      (key : String) (ops : List Operation) (db : Database) → invocations key ops db ≤ left key db
  unfolding invocations
  invocations-left key [] db = ground arith
  invocations-left key (op ∷ ops) db =
      ground
        (arith, perform-once key op db, invocations-left key ops (perform codec contract op db))
