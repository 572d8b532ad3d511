-- ===== src/Launch/Atomic.antt =====
-- orchestration/research_launch_claims.py, `_immediate`: what a call that raises leaves behind.
use quant_factory.Prelude.{◌≡◌, refl, Bool, true, false}
use quant_factory.Python.{Result, ok, err}
use quant_factory.Python.Json.{Codec}
use quant_factory.Python.Exec.{Exec, lift, ◌>>=◌}
use quant_factory.Persistence.{Database}
use quant_factory.Launch.{ResearchLaunchContract, Call}
use quant_factory.Launch.Requests.{validate_launch_key, validate_dispatcher_id, bounded_text}
use quant_factory.Launch.Operations.{
  immediate, claim, begin_dispatch, mark_invocation_unknown, recover_invoking_after_process_exit,
  fail_before_submission, abandon_unknown,
}
use quant_factory.Launch.Steps.{lift-elim, immediate-elim}
use quant_factory.Launch.Lifecycle.{
  Operation, claiming, beginning, marking, recovering, failing, abandoning, binding, perform,
}

abbrev pub is_err : {A : Type 0} → Result A → Bool
is_err (ok a) = false
is_err (err e) = true

-- A call that raises wrote nothing.
abbrev IsAtomic : {A : Type 0} → Database → Result A × Database → Type 0
IsAtomic db (r, db') = is_err r ≡ true → db' ≡ db

module _ {A : Type 0} (db : Database) where
  immediate-IsAtomic : (call : Call) (body : Exec Database A) → IsAtomic db (immediate call body db)
  immediate-IsAtomic call body =
      immediate-elim db (IsAtomic db) (λ e _. refl) call body λ a db' h raised. absurd cc

  lift-IsAtomic :
      {B : Type 0} (r : Result B) (f : B → Exec Database A)
      → ((b : B) → IsAtomic db (f b db))
      → IsAtomic db ((lift r >>= f) db)
  lift-IsAtomic r f = lift-elim db (IsAtomic db) (λ e _. refl) r f

module _ (codec : Codec) (contract : ResearchLaunchContract) where
  -- whether a call of the service raises; an acknowledgement is left out, since it records a refusal
  unfoldable pub raises : Operation → Database → Bool
  raises (claiming call key request env) db =
      is_err (claim codec contract call key request env db).0
  raises (beginning call key dispatcher) db =
      is_err (begin_dispatch codec contract call key dispatcher db).0
  raises (marking call key dispatcher summary) db =
      is_err (mark_invocation_unknown codec contract call key dispatcher summary db).0
  raises (recovering call key departed evidence) db =
      is_err (recover_invoking_after_process_exit codec contract call key departed evidence db).0
  raises (failing call key summary) db =
      is_err (fail_before_submission codec contract call key summary db).0
  raises (abandoning call key evidence summary) db =
      is_err (abandon_unknown codec contract call key evidence summary db).0
  raises (binding call key ack) db = false

  -- A call that raises, whether for its arguments, for a database that stays locked, for a guard of
  -- its transaction or for a failure injected between two writes of a claim, leaves every table as it was. (An
  -- acknowledgement is not meant: a refused one records an event and then raises.)
  pub perform-raises :
      (op : Operation) (db : Database) → raises op db ≡ true → perform codec contract op db ≡ db
  unfolding raises perform claim begin_dispatch mark_invocation_unknown
      recover_invoking_after_process_exit fail_before_submission abandon_unknown
  perform-raises (claiming call key request env) db =
      lift-IsAtomic db (validate_launch_key key) _ λ k. immediate-IsAtomic db call _
  perform-raises (beginning call key dispatcher) db =
      lift-IsAtomic db (validate_launch_key key) _ λ k.
        lift-IsAtomic db (validate_dispatcher_id dispatcher) _ λ d. immediate-IsAtomic db call _
  perform-raises (marking call key dispatcher summary) db =
      lift-IsAtomic db (validate_launch_key key) _ λ k.
        lift-IsAtomic db (validate_dispatcher_id dispatcher) _
          λ d. lift-IsAtomic db (bounded_text 500 summary) _ λ t. immediate-IsAtomic db call _
  perform-raises (recovering call key departed evidence) db =
      lift-IsAtomic db (validate_launch_key key) _ λ k.
        lift-IsAtomic db (validate_dispatcher_id departed) _
          λ d. lift-IsAtomic db (bounded_text 500 evidence) _ λ t. immediate-IsAtomic db call _
  perform-raises (failing call key summary) db =
      lift-IsAtomic db (validate_launch_key key) _
        λ k. lift-IsAtomic db (bounded_text 500 summary) _ λ t. immediate-IsAtomic db call _
  perform-raises (abandoning call key evidence summary) db =
      lift-IsAtomic db (validate_launch_key key) _ λ k.
        lift-IsAtomic db (bounded_text 500 evidence) _
          λ v. lift-IsAtomic db (bounded_text 500 summary) _ λ t. immediate-IsAtomic db call _
  perform-raises (binding call key ack) db = λ h. absurd cc
