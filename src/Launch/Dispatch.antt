-- ===== src/Launch/Dispatch.antt =====
-- orchestration/research_launch_claims.py, `dispatch`: invoke once, after the marker.
--
-- `invoke` is the injected callable: it may change the database, and it returns or raises.
use quant_factory.Prelude.{Option, true, false, none, some, String, if◌then◌else◌}
use quant_factory.Python.{ok, err, assertion_error, invocation_unknown, invocation, or_raise}
use quant_factory.Python.Exec.{Exec, pure, raise, lift, gets, ◌>>=◌}
use quant_factory.Python.Json.{Codec}
use quant_factory.Persistence.{Database, ResearchRunSubmissionRecord}
use quant_factory.Persistence.Submissions.{get_submission, get_for_run, is_invoking, is_unknown}
use quant_factory.Launch.{ResearchLaunchContract, ResearchDispatchResult, Call}
use quant_factory.Launch.Requests.{validate_launch_key, validate_run_id}
use quant_factory.Launch.Operations.{begin_dispatch, mark_invocation_unknown}

-- `DurableResearchLaunchService.get` and `get_for_run`
unfoldable pub launch_get : String → Exec Database (Option ResearchRunSubmissionRecord)
launch_get idempotency_key = do
  key ← lift (validate_launch_key idempotency_key)
  gets (λ db. get_submission db key)

unfoldable pub launch_get_for_run : String → Exec Database (Option ResearchRunSubmissionRecord)
launch_get_for_run run_id = do id ← lift (validate_run_id run_id); gets (λ db. get_for_run db id)

module _ (codec : Codec) (contract : ResearchLaunchContract) {A : Type 0} where
  -- `except Exception`: the ambiguity is recorded, and the error says whether it is one.
  unfoldable pub after_raise :
      Call → (key dispatcher : String) → Exec Database (ResearchDispatchResult A)
  after_raise call key dispatcher = do
    current ←
        mark_invocation_unknown codec contract call key dispatcher
          "Prefect submission acknowledgement could not be confirmed."
    raise (if is_unknown current then invocation_unknown else invocation)

  -- The callable returned: an acknowledgement must be on record.
  unfoldable pub after_return :
      Call → (key dispatcher : String) → A → Exec Database (ResearchDispatchResult A)
  after_return call key dispatcher value = do
    found ← launch_get key
    current ← lift (or_raise found assertion_error)
    if is_invoking current
        then (do
          marked ←
              mark_invocation_unknown codec contract call key dispatcher
                "Prefect invocation returned without durable acknowledgement."
          raise invocation_unknown)
        else pure (record { submission = current; invoked = true; value = some value })

  unfoldable pub invoke_marked :
      Call
      → (key dispatcher : String) → (ResearchRunSubmissionRecord → Exec Database A)
      → ResearchRunSubmissionRecord
      → Exec Database (ResearchDispatchResult A)
  invoke_marked call key dispatcher invoke submission db =
      let (r, db') = invoke submission db in
      elim r [
        | ok value ↦ after_return call key dispatcher value db'
        | err e ↦ after_raise call key dispatcher db'
      ]

  unfoldable pub dispatch :
      (begin_call later_call : Call)
      → (key dispatcher : String) → (ResearchRunSubmissionRecord → Exec Database A)
      → Exec Database (ResearchDispatchResult A)
  dispatch begin_call later_call key dispatcher invoke = do
    decision ← begin_dispatch codec contract begin_call key dispatcher
    if decision.should_invoke
        then invoke_marked later_call key dispatcher invoke decision.submission
        else pure (record { submission = decision.submission; invoked = false; value = none })
