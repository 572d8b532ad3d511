-- ===== src/Launch/Steps.antt =====
-- orchestration/research_launch_claims.py: the operations of the service as one step relation.
--
-- `Commit db db'` lists what a transaction may write to the submissions and the runs. Every operation,
-- whatever its arguments and whether it returns or raises, makes one such step.
use quant_factory.Prelude.{
  ◌≡◌, refl, ap, arith, ◌⊎◌, inl, inr, true, false, Option, none, some, [], ◌∷◌, ◌++◌, String,
  Bool-cases,
}
use quant_factory.Python.{Exn, contention, Result, ok, err}
use quant_factory.Python.Exec.{Exec, lift, continue, ◌>>=◌}
use quant_factory.Persistence.{
  Database, claimed, created, failed, running, ExperimentRunRecord, ResearchRunSubmissionRecord,
}
use quant_factory.Persistence.Tables.{update}
use quant_factory.Persistence.Runs.{run_key, get_run, always, moved}
use quant_factory.Persistence.Submissions.{
  submission_key, get_submission, is_taken, is_claimed, is_invoking, is_unknown, may_acknowledge,
  to_invoking, to_unknown, to_acknowledged, to_failed_before, to_abandoned,
}
use quant_factory.Launch.{Call}
use quant_factory.Launch.Operations.{immediate, settle}
use quant_factory.Launch.Binding.{with_environment}

pub data Commit (db db' : Database) : Type 0 where
  quiet : db'.submissions ≡ db.submissions → db'.runs ≡ db.runs → Commit db db'
  claims :
      (s : ResearchRunSubmissionRecord) (r : ExperimentRunRecord)
      → get_submission db s.idempotency_key ≡ none
      → get_run db r.run_id ≡ none
      → is_taken db s.idempotency_key r.run_id ≡ false
      → s.state ≡ claimed
      → s.run_id ≡ r.run_id
      → r.status ≡ created
      → db'.submissions ≡ db.submissions ++ s ∷ []
      → db'.runs ≡ db.runs ++ r ∷ []
      → Commit db db'
  dispatches :
      (key dispatcher now : String)
      → db'.submissions
        ≡ update submission_key key is_claimed (to_invoking dispatcher now) db.submissions
      → db'.runs ≡ db.runs
      → Commit db db'
  blurs :
      (key now summary : String) (evidence : Option String)
      → db'.submissions
        ≡ update submission_key key is_invoking (to_unknown now summary evidence) db.submissions
      → db'.runs ≡ db.runs
      → Commit db db'
  starts :
      (key flow_run now later environment : String) (url : Option String)
      (s : ResearchRunSubmissionRecord) (r : ExperimentRunRecord)
      → get_submission db key ≡ some s
      → may_acknowledge s ≡ true
      → get_run db s.run_id ≡ some r
      → r.status ≡ created
      → db'.submissions
        ≡ update submission_key key may_acknowledge
            (to_acknowledged flow_run url now)
            db.submissions
      → db'.runs
        ≡ update run_key s.run_id always
            (moved later running none)
            (update run_key s.run_id always (with_environment environment) db.runs)
      → Commit db db'
  fails :
      (key now later summary : String) (s : ResearchRunSubmissionRecord) (r : ExperimentRunRecord)
      → get_submission db key ≡ some s
      → is_claimed s ≡ true
      → get_run db s.run_id ≡ some r
      → r.status ≡ created
      → db'.submissions
        ≡ update submission_key key is_claimed (to_failed_before now summary) db.submissions
      → db'.runs ≡ update run_key s.run_id always (moved later failed (some summary)) db.runs
      → Commit db db'
  abandons :
      (key now later summary evidence : String) (s : ResearchRunSubmissionRecord)
      (r : ExperimentRunRecord)
      → get_submission db key ≡ some s
      → is_unknown s ≡ true
      → get_run db s.run_id ≡ some r
      → r.status ≡ created
      → db'.submissions
        ≡ update submission_key key is_unknown (to_abandoned now summary evidence) db.submissions
      → db'.runs ≡ update run_key s.run_id always (moved later failed (some summary)) db.runs
      → Commit db db'

pub Commit-same : (db db' : Database) → db' ≡ db → Commit db db'
Commit-same db db' e =
    quiet (ap (λ (d : Database). d.submissions) e) (ap (λ (d : Database). d.runs) e)

-- A transaction that is refused or raises writes nothing; else its body's step is committed.
module _ {A : Type 0} (call : Call) (db : Database) where
  settle-Commit :
      (m : Result A × Database)
      → ((a : A) (db' : Database) → m ≡ (ok a, db') → Commit db db')
      → Commit db (settle db m).1
  settle-Commit (ok a, db') step = step a db' refl
  settle-Commit (err e, db') step = Commit-same db db refl

  pub immediate-Commit :
      (body : Exec Database A)
      → ((a : A) (db' : Database) → body db ≡ (ok a, db') → Commit db db')
      → Commit db (immediate call body db).1
  unfolding immediate
  immediate-Commit body step = elim (Bool-cases call.is_busy) [
    | inl busy ↦ rw busy (Commit-same db db refl)
    | inr free ↦ rw free (settle-Commit (body db) step)
  ]

pub lift-Commit :
    {A B : Type 0} (db : Database) (r : Result A) (f : A → Exec Database B)
    → ((a : A) → Commit db (f a db).1)
    → Commit db ((lift r >>= f) db).1
lift-Commit db (ok a) f step = step a
lift-Commit db (err e) f step = Commit-same db db refl

-- What a refused acknowledgement raises afterwards leaves the commit as it is.
pub relay-Commit :
    {A B : Type 0} (db db' : Database) (r : Result A) (f : A → Result B)
    → Commit db db'
    → Commit db (continue r (λ a. lift (f a)) db').1
relay-Commit db db' (ok a) f c = c
relay-Commit db db' (err e) f c = c

-- What holds of every refusal on the unchanged database and of each end of the body holds of the call.
module _ {A : Type 0} (db : Database) (P : Result A × Database → Type 0)
    (refused : (e : Exn) → P (err e, db)) where
  pub immediate-elim :
      (call : Call) (body : Exec Database A)
      → ((a : A) (db' : Database) → body db ≡ (ok a, db') → P (ok a, db'))
      → P (immediate call body db)
  unfolding immediate
  immediate-elim call body returned = elim (Bool-cases call.is_busy) [
    | inl busy ↦ rw busy (refused contention)
    | inr free ↦ rw free (settled (body db) refl)
  ]
    where
      settled : (m : Result A × Database) → body db ≡ m → P (settle db m)
      settled (ok a, db') e = returned a db' e
      settled (err e, db') _ = refused e

  pub lift-elim :
      {B : Type 0} (r : Result B) (f : B → Exec Database A)
      → ((b : B) → P (f b db))
      → P ((lift r >>= f) db)
  lift-elim (ok b) f step = step b
  lift-elim (err e) f step = refused e

module _ {A : Type 0} (db db' : Database) where
  pub lift-eq-ok :
      {B : Type 0} (r : Result B) (f : B → Exec Database A) (a : A)
      → (lift r >>= f) db ≡ (ok a, db')
      → (b : B) × (r ≡ ok b) × (f b db ≡ (ok a, db'))
  lift-eq-ok (ok b) f a h = (b, refl, h)
  lift-eq-ok (err e) f a h = absurd cc

  lift-eq-err :
      {B : Type 0} (r : Result B) (f : B → Exec Database A) (e : Exn)
      → (lift r >>= f) db ≡ (err e, db')
      → (db' ≡ db) ⊎ ((b : B) × (f b db ≡ (err e, db')))
  lift-eq-err (ok b) f e h = inr (b, h)
  lift-eq-err (err x) f e h = inl cc

  pub immediate-eq-ok :
      (call : Call) (body : Exec Database A) (a : A)
      → immediate call body db ≡ (ok a, db')
      → body db ≡ (ok a, db')
  unfolding immediate
  immediate-eq-ok call body a h = ground arith

  -- A transaction that raises has written nothing.
  immediate-eq-err :
      (call : Call) (body : Exec Database A) (e : Exn)
      → immediate call body db ≡ (err e, db')
      → db' ≡ db
  unfolding immediate
  immediate-eq-err call body e h = ground arith
