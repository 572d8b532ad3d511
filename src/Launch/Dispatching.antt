-- ===== src/Launch/Dispatching.antt =====
-- orchestration/research_launch_claims.py, `dispatch`: when the injected callable runs.
use text.Mathlib.TextEquality.{eq_iff}
use quant_factory.Prelude.{
  ◌≡◌, refl, ◌∙◌, inl, inr, true, false, Option, none, some, String, arith, string_eq, ◌==◌,
  if◌then◌else◌, Bool-cases,
}
use quant_factory.Python.{Result, ok, err}
use quant_factory.Python.Exec.{Exec, continue}
use quant_factory.Python.Json.{Codec}
use quant_factory.Persistence.{Database, invoking, ResearchRunSubmissionRecord}
use quant_factory.Persistence.Tables.{apply_if, passes, is_updated, is_updated-get}
use quant_factory.Persistence.Submissions.{
  submission_key, get_submission, is_claimed, is_invoking, to_invoking,
}
use quant_factory.Launch.{
  ResearchLaunchContract, ResearchDispatchDecision, ResearchDispatchResult, Call,
}
use quant_factory.Launch.Requests.{
  validate_launch_key, validate_launch_key_same, validate_dispatcher_id,
  validate_dispatcher_id_same,
}
use quant_factory.Launch.Operations.{begin_dispatch, begin_body}
use quant_factory.Launch.Dispatch.{dispatch, invoke_marked, after_return, after_raise, launch_get}
use quant_factory.Launch.Effects.{begin_body_effect}
use quant_factory.Launch.Steps.{lift-eq-ok, immediate-eq-ok}
use quant_factory.Launch.Coupling.{submission_after}

-- The row of the key is in the database, marked as being invoked by this dispatcher.
abbrev pub IsMarked : String → String → Database → ResearchRunSubmissionRecord → Type 0
IsMarked key dispatcher db s =
    (get_submission db key ≡ some s)
    × (s.state ≡ invoking)
    × (s.dispatcher_instance_id ≡ some dispatcher)

module _ (codec : Codec) (contract : ResearchLaunchContract) (key dispatcher : String) where
  begin_body-IsMarked :
      (call : Call) (db db' : Database) (d : ResearchDispatchDecision)
      → begin_body codec contract call key dispatcher db ≡ (ok d, db')
      → d.should_invoke ≡ true
      → IsMarked key dispatcher db' d.submission
  unfolding get_submission
  begin_body-IsMarked call db db' d h told =
      let (subs, _, won, again) = begin_body_effect codec contract call key db db' dispatcher d h in
      go (get_submission db key) (won ∙ wins) again (
        submission_after db db' key is_claimed (to_invoking dispatcher (call.clock 0)) (λ _. refl)
          subs key)
    where
      wins :
          is_updated submission_key key is_claimed db.submissions
          ≡ passes is_claimed (get_submission db key)
      wins = is_updated-get submission_key key is_claimed db.submissions

      go :
          (o : Option ResearchRunSubmissionRecord)
          → d.should_invoke ≡ passes is_claimed o
          → get_submission db' key ≡ some d.submission
          → get_submission db' key ≡ (
              if key == key
              then apply_if is_claimed (to_invoking dispatcher (call.clock 0)) o
              else o)
          → IsMarked key dispatcher db' d.submission
      go none won again seen = absurd cc
      go (some s) won again seen = (again, rw is_new refl, rw is_new refl)
        where
          is_new : d.submission ≡ to_invoking dispatcher (call.clock 0) s
          is_new = ground (arith, eq_iff key key)

  begin_dispatch-IsMarked :
      (call : Call) (db db' : Database) (d : ResearchDispatchDecision)
      → begin_dispatch codec contract call key dispatcher db ≡ (ok d, db')
      → d.should_invoke ≡ true
      → IsMarked key dispatcher db' d.submission
  unfolding begin_dispatch
  begin_dispatch-IsMarked call db db' d h told =
      let (k, valid, h1) = lift-eq-ok db db' (validate_launch_key key) _ d h in
      let (p, valid', h2) = lift-eq-ok db db' (validate_dispatcher_id dispatcher) _ d h1 in
      let h3 = immediate-eq-ok db db' call (begin_body codec contract call k p) d h2 in
      begin_body-IsMarked call db db' d
        (rw
          (
            ← validate_launch_key_same key k valid,
            ← validate_dispatcher_id_same dispatcher p valid',
          )
          h3)
        told

  module _ {A : Type 0} (call later : Call) where
    -- `dispatch` runs the callable only on a row that the database already holds under the key, in
    -- state invoking with this dispatcher: two callables that agree on such rows, whatever they do
    -- elsewhere, give the same result and the same database.
    pub dispatch-marked :
        (invoke invoke' : ResearchRunSubmissionRecord → Exec Database A) (db : Database)
        → ((s : ResearchRunSubmissionRecord) (db1 : Database)
            → IsMarked key dispatcher db1 s
            → invoke s db1 ≡ invoke' s db1)
        → dispatch codec contract call later key dispatcher invoke db
          ≡ dispatch codec contract call later key dispatcher invoke' db
    unfolding dispatch invoke_marked
    dispatch-marked invoke invoke' db agree =
        go (begin_dispatch codec contract call key dispatcher db) refl
      where
        body :
            (ResearchRunSubmissionRecord → Exec Database A)
            → ResearchDispatchDecision
            → Exec Database (ResearchDispatchResult A)
        body f d =
            if d.should_invoke
            then invoke_marked codec contract later key dispatcher f d.submission
            else λ db1.
                (ok (record { submission = d.submission; invoked = false; value = none }), db1)

        go :
            (m : Result ResearchDispatchDecision × Database)
            → begin_dispatch codec contract call key dispatcher db ≡ m
            → continue m.0 (body invoke) m.1 ≡ continue m.0 (body invoke') m.1
        go (err e, db1) e1 = refl
        go (ok d, db1) e1 = elim (Bool-cases d.should_invoke) [
          | inl told ↦ rw told (
              ground
                (arith, agree d.submission db1 (begin_dispatch-IsMarked call db db1 d e1 told)))
          | inr quiet ↦ rw quiet refl
        ]

    after_raise-raises :
        (db db' : Database) (r : ResearchDispatchResult A)
        → after_raise codec contract later key dispatcher db ≡ (ok r, db')
        → ⊥
    unfolding after_raise
    after_raise-raises db db' r h = ground arith

    after_return_effect :
        (value : A) (db db' : Database) (r : ResearchDispatchResult A)
        → after_return codec contract later key dispatcher value db ≡ (ok r, db')
        → (db' ≡ db)
          × (r.value ≡ some value)
          × (get_submission db' key ≡ some r.submission)
          × (is_invoking r.submission ≡ false)
    unfolding after_return launch_get
    after_return_effect value db db' r h = go (validate_launch_key key) refl h
      where
        go :
            (v : Result String)
            → validate_launch_key key ≡ v
            → after_return codec contract later key dispatcher value db ≡ (ok r, db')
            → (db' ≡ db)
              × (r.value ≡ some value)
              × (get_submission db' key ≡ some r.submission)
              × (is_invoking r.submission ≡ false)
        go (err e) invalid h = absurd (ground arith)
        go (ok k) valid h = ground (arith, validate_launch_key_same key k valid)

    invoke_marked-returned :
        (invoke : ResearchRunSubmissionRecord → Exec Database A) (s : ResearchRunSubmissionRecord)
        (db1 db' : Database) (r : ResearchDispatchResult A)
        → invoke_marked codec contract later key dispatcher invoke s db1 ≡ (ok r, db')
        → (value : A) × (invoke s db1 ≡ (ok value, db'))
          × (r.value ≡ some value)
          × (get_submission db' key ≡ some r.submission)
          × (is_invoking r.submission ≡ false)
    unfolding invoke_marked
    invoke_marked-returned invoke s db1 db' r h = go (invoke s db1) refl
      where
        go :
            (m : Result A × Database)
            → invoke s db1 ≡ m
            → (value : A) × (invoke s db1 ≡ (ok value, db'))
              × (r.value ≡ some value)
              × (get_submission db' key ≡ some r.submission)
              × (is_invoking r.submission ≡ false)
        go (ok value, db2) e =
            let (same, gives, at_r, done) = after_return_effect value db2 db' r (ground arith) in
            (value, rw same e, gives, at_r, done)
        go (err x, db2) e = absurd (after_raise-raises db2 db' r (ground arith))

    -- Where `dispatch` returns that it has invoked, the callable ran on a marked row, it returned,
    -- its value is the one given back, and the row that the database then holds under the key is the
    -- one given back, no longer in state invoking.
    pub dispatch-returned :
        (invoke : ResearchRunSubmissionRecord → Exec Database A) (db db' : Database)
        (r : ResearchDispatchResult A)
        → dispatch codec contract call later key dispatcher invoke db ≡ (ok r, db')
        → r.invoked ≡ true
        → (s : ResearchRunSubmissionRecord) × (db1 : Database) × (value : A) × IsMarked key
            dispatcher db1 s
          × (invoke s db1 ≡ (ok value, db'))
          × (r.value ≡ some value)
          × (get_submission db' key ≡ some r.submission)
          × (is_invoking r.submission ≡ false)
    unfolding dispatch
    dispatch-returned invoke db db' r h was =
        go (begin_dispatch codec contract call key dispatcher db) refl
      where
        go :
            (m : Result ResearchDispatchDecision × Database)
            → begin_dispatch codec contract call key dispatcher db ≡ m
            → (s : ResearchRunSubmissionRecord) × (db1 : Database) × (value : A) × IsMarked key
                dispatcher db1 s
              × (invoke s db1 ≡ (ok value, db'))
              × (r.value ≡ some value)
              × (get_submission db' key ≡ some r.submission)
              × (is_invoking r.submission ≡ false)
        go (err x, db1) e = absurd (ground arith)
        go (ok d, db1) e = elim (Bool-cases d.should_invoke) [
          | inl told ↦
              let (value, ran, gives, at_r, done) =
                invoke_marked-returned invoke d.submission db1 db' r (ground arith) in
              (
                d.submission,
                db1,
                value,
                begin_dispatch-IsMarked call db db1 d e told,
                ran,
                gives,
                at_r,
                done,
              )
          | inr quiet ↦ absurd (ground arith)
        ]
