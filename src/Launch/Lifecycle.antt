-- ===== src/Launch/Lifecycle.antt =====
-- orchestration/research_launch_claims.py: every operation of the service makes one step.
use quant_factory.Prelude.{◌≡◌, inl, inr, false, none, some, String}
use quant_factory.Python.{Result, ok}
use quant_factory.Python.Json.{Json, Codec}
use quant_factory.Persistence.{Database, ResearchRunSubmissionRecord}
use quant_factory.Persistence.Tables.{key-get}
use quant_factory.Persistence.Runs.{run_key, get_run}
use quant_factory.Launch.{ResearchLaunchContract, ResearchLaunchRequest, Call}
use quant_factory.Launch.Requests.{
  validate_launch_key, validate_run_id, validate_dispatcher_id, bounded_text, optional_bounded_text,
}
use quant_factory.Launch.Operations.{
  immediate, claim, claim_body, begin_dispatch, begin_body, mark_invocation_unknown, unknown_body,
  recover_invoking_after_process_exit, recover_body, fail_before_submission, fail_before_body,
  abandon_unknown, abandon_body, exit_summary,
}
use quant_factory.Launch.Binding.{Acknowledgement, bind_prefect_identity, bind_body}
use quant_factory.Launch.Steps.{
  Commit, quiet, claims, dispatches, blurs, starts, fails, abandons, Commit-same, immediate-Commit,
  lift-Commit, relay-Commit,
}
use quant_factory.Launch.Effects.{
  claim_body_effect, begin_body_effect, unknown_body_effect, recover_body_effect,
  fail_before_body_effect, abandon_body_effect, validated_run,
}
use quant_factory.Launch.Acknowledging.{bind_body_effect}

module _ (codec : Codec) (contract : ResearchLaunchContract) (call : Call) (db : Database) where
  claim-Commit :
      (key : String) (request : ResearchLaunchRequest) (environment : Json)
      → Commit db (claim codec contract call key request environment db).1
  unfolding claim
  claim-Commit key request environment = lift-Commit db (validate_launch_key key) _ λ k.
      immediate-Commit call db (claim_body codec contract call k request environment) λ c db' h.
        elim (claim_body_effect codec contract call k db db' request environment c h) [
          | inl (same, _, _) ↦ Commit-same db db' same
          | inr (fresh, no_run, free, subs, runs, state, key_of, run_of, status, _) ↦
              claims c.submission c.run (rw key_of fresh) no_run (rw key_of free) state run_of
                status subs runs
        ]

  begin_dispatch-Commit :
      (key dispatcher : String) → Commit db (begin_dispatch codec contract call key dispatcher db).1
  unfolding begin_dispatch
  begin_dispatch-Commit key dispatcher = lift-Commit db (validate_launch_key key) _ λ k.
      lift-Commit db (validate_dispatcher_id dispatcher) _ λ d.
        immediate-Commit call db (begin_body codec contract call k d) λ x db' h.
          let (subs, runs, _, _) = begin_body_effect codec contract call k db db' d x h in
          dispatches k d (call.clock 0) subs runs

  mark_invocation_unknown-Commit :
      (key dispatcher summary : String)
      → Commit db (mark_invocation_unknown codec contract call key dispatcher summary db).1
  unfolding mark_invocation_unknown
  mark_invocation_unknown-Commit key dispatcher summary =
      lift-Commit db (validate_launch_key key) _ λ k.
        lift-Commit db (validate_dispatcher_id dispatcher) _ λ d.
          lift-Commit db (bounded_text 500 summary) _ λ t.
            immediate-Commit call db (unknown_body codec contract call k d t) λ x db' h.
              elim (unknown_body_effect codec contract call k db db' d t x h) [
                | inl same ↦ Commit-same db db' same
                | inr (subs, runs) ↦ blurs k (call.clock 0) t none subs runs
              ]

  recover-Commit :
      (key departed evidence : String)
      → Commit db
          (recover_invoking_after_process_exit codec contract call key departed evidence db).1
  unfolding recover_invoking_after_process_exit
  recover-Commit key departed evidence = lift-Commit db (validate_launch_key key) _ λ k.
      lift-Commit db (validate_dispatcher_id departed) _ λ d.
        lift-Commit db (bounded_text 500 evidence) _ λ t.
          immediate-Commit call db (recover_body codec contract call k d t) λ x db' h.
            elim (recover_body_effect codec contract call k db db' d t x h) [
              | inl same ↦ Commit-same db db' same
              | inr (subs, runs) ↦ blurs k (call.clock 0) exit_summary (some t) subs runs
            ]

  fail_before_submission-Commit :
      (key summary : String)
      → Commit db (fail_before_submission codec contract call key summary db).1
  unfolding fail_before_submission
  fail_before_submission-Commit key summary = lift-Commit db (validate_launch_key key) _ λ k.
      lift-Commit db (bounded_text 500 summary) _ λ t.
        immediate-Commit call db (fail_before_body codec contract call k t) λ x db' h.
          elim (fail_before_body_effect codec contract call k db db' t x h) [
            | inl same ↦ Commit-same db db' same
            | inr (s, run, found, state, valid, subs, runs) ↦
                let (got, status) = validated_run codec contract db s false run valid in
                fails k (call.clock 0) (call.clock 1) t s run found state got status subs
                  (rw (← key-get run_key s.run_id run db.runs (unfold get_run in got)) runs)
          ]

  abandon_unknown-Commit :
      (key evidence summary : String)
      → Commit db (abandon_unknown codec contract call key evidence summary db).1
  unfolding abandon_unknown
  abandon_unknown-Commit key evidence summary = lift-Commit db (validate_launch_key key) _ λ k.
      lift-Commit db (bounded_text 500 evidence) _ λ v.
        lift-Commit db (bounded_text 500 summary) _ λ t.
          immediate-Commit call db (abandon_body codec contract call k v t) λ x db' h.
            elim (abandon_body_effect codec contract call k db db' v t x h) [
              | inl same ↦ Commit-same db db' same
              | inr (s, run, found, state, valid, subs, runs) ↦
                  let (got, status) = validated_run codec contract db s false run valid in
                  abandons k (call.clock 0) (call.clock 1) t v s run found state got status subs
                    (rw (← key-get run_key s.run_id run db.runs (unfold get_run in got)) runs)
            ]

  bind_body-Commit :
      (key : String) (ack : Acknowledgement) (db' : Database)
      (r : Result ResearchRunSubmissionRecord)
      → bind_body codec contract call key ack db ≡ (ok r, db')
      → Commit db db'
  bind_body-Commit key ack db' r h =
      elim (bind_body_effect codec contract call key ack db db' r h) [
        | inl (subs, runs) ↦ quiet subs runs
        | inr (s, found, (waiting, run_of, (run, got, status, (environment, subs, runs)))) ↦
            starts key ack.prefect_flow_run_id (call.clock 1) (call.clock 2) environment
              ack.prefect_api_url s run found waiting (rw run_of got) status subs (rw run_of runs)
      ]

  bind_prefect_identity-Commit :
      (key : String) (ack : Acknowledgement)
      → Commit db (bind_prefect_identity codec contract call key ack db).1
  unfolding bind_prefect_identity
  bind_prefect_identity-Commit key ack = lift-Commit db (validate_launch_key key) _ λ k.
      lift-Commit db (validate_run_id ack.run_id) _ λ _.
        lift-Commit db (bounded_text 200 ack.configuration_id) _ λ c.
          lift-Commit db (bounded_text 200 ack.prefect_flow_run_id) _ λ f.
            lift-Commit db (optional_bounded_text 2048 ack.prefect_api_url) _ λ u.
              let given : Acknowledgement = record ack {
                configuration_id = c;
                prefect_flow_run_id = f;
                prefect_api_url = u;
              } in
              relay-Commit db (immediate call (bind_body codec contract call k given) db).1
                (immediate call (bind_body codec contract call k given) db).0 (λ r. r)
                (immediate-Commit call db (bind_body codec contract call k given)
                  λ r db' h. bind_body-Commit k given db' r h)

-- One call of the service's interface.
pub data Operation : Type 0 where
  claiming : Call → String → ResearchLaunchRequest → Json → Operation
  beginning : Call → (key dispatcher : String) → Operation
  marking : Call → (key dispatcher summary : String) → Operation
  recovering : Call → (key departed evidence : String) → Operation
  failing : Call → (key summary : String) → Operation
  abandoning : Call → (key evidence summary : String) → Operation
  binding : Call → String → Acknowledgement → Operation

module _ (codec : Codec) (contract : ResearchLaunchContract) where
  -- The database after a call, whether it returned or raised.
  unfoldable pub perform : Operation → Database → Database
  perform (claiming call key request env) db = (claim codec contract call key request env db).1
  perform (beginning call key dispatcher) db =
      (begin_dispatch codec contract call key dispatcher db).1
  perform (marking call key dispatcher summary) db =
      (mark_invocation_unknown codec contract call key dispatcher summary db).1
  perform (recovering call key departed evidence) db =
      (recover_invoking_after_process_exit codec contract call key departed evidence db).1
  perform (failing call key summary) db =
      (fail_before_submission codec contract call key summary db).1
  perform (abandoning call key evidence summary) db =
      (abandon_unknown codec contract call key evidence summary db).1
  perform (binding call key ack) db = (bind_prefect_identity codec contract call key ack db).1

  -- Every call of the service, returning or raising, makes exactly one step of the claim's life:
  -- nothing, a fresh claim with its run, or one guarded move of a submission with what the move does
  -- to its run.
  pub perform-Commit : (op : Operation) (db : Database) → Commit db (perform op db)
  unfolding perform
  perform-Commit (claiming call key request env) db =
      claim-Commit codec contract call db key request env
  perform-Commit (beginning call key dispatcher) db =
      begin_dispatch-Commit codec contract call db key dispatcher
  perform-Commit (marking call key dispatcher summary) db =
      mark_invocation_unknown-Commit codec contract call db key dispatcher summary
  perform-Commit (recovering call key departed evidence) db =
      recover-Commit codec contract call db key departed evidence
  perform-Commit (failing call key summary) db =
      fail_before_submission-Commit codec contract call db key summary
  perform-Commit (abandoning call key evidence summary) db =
      abandon_unknown-Commit codec contract call db key evidence summary
  perform-Commit (binding call key ack) db =
      bind_prefect_identity-Commit codec contract call db key ack
