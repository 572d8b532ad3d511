-- ===== src/FilterChain/Outcomes.antt =====
-- orchestration/filter_chain.py, `_run`: an outcome of the chain is right.
use quant_factory.FilterChain.Gates.{finish-IsFinished, finished-IsJustified}
use quant_factory.FilterChain.Justified.{Says-IsJustified, qualifies, IsJustified}
use quant_factory.Prelude.{
  ◌≡◌, refl, sym, ap, ◌∙◌, inl, inr, true, false, Option, none, some, List, [], ◌∷◌, ◌++◌, String,
  string_eq, arith, Bool-cases,
}
use quant_factory.Python.{Result, ok, value_error, key_error, raise_unless, or_raise}
use quant_factory.Python.Exec.{bind-eq-ok, pure-same}
use quant_factory.Python.Json.{Codec}
use quant_factory.Persistence.{RunStage, Database, is_succeeded, is_stage, stage_value}
use quant_factory.Persistence.Runs.{get_run}
use quant_factory.Launch.Steps.{lift-eq-ok}
use quant_factory.FilterChain.{
  screened_out, stopped, validation_stage_order, SourceLock, PersistedStageReference,
  FilterChainOutcome, FilterStageHandoff, Surroundings,
}
use quant_factory.FilterChain.Reserving.{stage_reference}
use quant_factory.FilterChain.Running.{
  Adapters, StageResult, screened_outcome, stopped_outcome, list_parameter_results, has_rows,
  later_lock, run_stage, run_stages, run_chain,
}
use quant_factory.FilterChain.Reached.{
  begin, pass, run_for, references_of, references-append, Taken, Reached, run_stage-Taken,
}

module _ (codec : Codec) (world : Surroundings) (adapters : Option Adapters)
    (screening_run_id : String) where
  stopped-IsJustified :
      (start : Database) (stage : RunStage) (stages : List RunStage) (hs : List FilterStageHandoff)
      (lock read : Option SourceLock) (last : FilterStageHandoff) (db end : Database)
      (o : FilterChainOutcome)
      → qualifies codec world adapters screening_run_id start ≡ true
      → Reached codec world adapters screening_run_id start (stage ∷ stages) hs lock db
      → Taken codec world adapters screening_run_id hs stage last read db end
      → last.eligible_to_progress ≡ false
      → stopped_outcome codec world screening_run_id (hs ++ last ∷ []) last ≡ o
      → IsJustified codec world adapters screening_run_id start o end
  stopped-IsJustified start stage stages hs lock read last db end o qualified reached taken off
        shown =
      Says-IsJustified codec world adapters screening_run_id stopped start end o
        (ap (λ x. x.status) shown)
        (
          qualified,
          inl (record {
            before = hs;
            stage = stage;
            later = stages;
            last = last;
            lock = lock;
            read = read;
            middle = db;
            passed = reached;
            taken = taken;
            no_progress = off;
            all_completed = sym (ap (λ x. x.completed) shown);
            stopped_there =
                sym (ap (λ x. x.stopped_at) shown) ∙ ap (λ x. some (stage_value x)) taken.founded.0;
          }),
        )

  next_references :
      (hs : List FilterStageHandoff) (stage : RunStage) (result : StageResult)
      (references : List PersistedStageReference) (db end : Database)
      → references ≡ references_of hs
      → result.reference
        ≡ stage_reference stage (run_for codec world adapters screening_run_id hs stage)
      → Taken codec world adapters screening_run_id hs stage result.handoff result.lock db end
      → references ++ result.reference ∷ [] ≡ references_of (hs ++ result.handoff ∷ [])
  next_references hs stage result references db end same named taken =
      let named' : result.reference ≡ stage_reference result.handoff.stage result.handoff.run_id =
        named ∙ (λ i. stage_reference (sym taken.founded.0 i) (sym taken.founded.1 i)) in
      (λ i. same i ++ named' i ∷ []) ∙ sym (references-append hs result.handoff)

  run_stages-IsJustified :
      (start : Database) (stages : List RunStage) (references : List PersistedStageReference)
      (hs : List FilterStageHandoff) (lock : Option SourceLock) (db end : Database)
      (o : FilterChainOutcome)
      → qualifies codec world adapters screening_run_id start ≡ true
      → references ≡ references_of hs
      → Reached codec world adapters screening_run_id start stages hs lock db
      → run_stages codec world adapters screening_run_id stages references hs lock db ≡ (ok o, end)
      → IsJustified codec world adapters screening_run_id start o end
  unfolding run_stages
  run_stages-IsJustified start [] references hs lock db end o qualified same reached h =
      finished-IsJustified codec world adapters screening_run_id start references hs lock db end o
        qualified same reached
        (finish-IsFinished codec world adapters screening_run_id references hs lock db end o h)
  run_stages-IsJustified start (stage ∷ stages) references hs lock db end o qualified same reached
        h =
      let (result, db1, e, h1) =
        bind-eq-ok (run_stage codec world adapters screening_run_id references stage) _ db h in
      let (named, taken) =
        run_stage-Taken codec world adapters screening_run_id hs stage db db1 result (
          coe 0 1
            (i.
              run_stage codec world adapters screening_run_id (same i) stage db ≡ (ok result, db1))
            e) in
      elim (Bool-cases result.handoff.eligible_to_progress) [
        | inl on ↦
            run_stages-IsJustified start stages (references ++ result.reference ∷ [])
              (hs ++ result.handoff ∷ []) (later_lock lock result.lock) db1 end o qualified
              (next_references hs stage result references db db1 same named taken)
              (pass reached taken on) (ground arith)
        | inr off ↦
            let ended : ◌≡◌ {A = Result FilterChainOutcome × Database}
                (
                  ok (
                      stopped_outcome codec world screening_run_id (hs ++ result.handoff ∷ [])
                        result.handoff),
                  db1,
                )
                (ok o, end) =
              ground arith in
            let (shown, kept) = pure-same ended in
            stopped-IsJustified start stage stages hs lock result.lock result.handoff db end o
              qualified reached
              (coe 0 1
                (i.
                  Taken codec world adapters screening_run_id hs stage result.handoff result.lock db
                    (kept i))
                taken)
              off shown
      ]

  -- The adapters play no part where no screening result passed.
  screened-same :
      (start : Database) (others : Option Adapters)
      → qualifies codec world adapters screening_run_id start ≡ false
      → run_chain codec world others screening_run_id start
        ≡ run_chain codec world adapters screening_run_id start
  unfolding run_chain
  screened-same start others rejected = rw rejected refl

  -- A chain that returns an outcome is justified. Screened out: no screening result has passed, no
  -- stage is shown, nothing was written, and any other adapters, or none, give the same, so none is
  -- called. Stopped or ready: a screening result has passed, and the stages were taken in the fixed
  -- order, each on the run of the stage and of the run before it, which is obtained and found to have
  -- succeeded; the handoff of a stage has the status, the identity and the reasons that the evidence
  -- service then answers for that run, and may pass on exactly where that answer is passed, failed of
  -- a scored stage, or one of the two kinds of insufficient evidence; where the lock of the source
  -- cannot be read it is invalid and may not pass on. Stopped: every stage passed on but the last,
  -- where the chain stops; or all four did, and the prerequisites of the protected test, read at the
  -- end for their runs and the lock of the first, do not open it. Ready: they do.
  pub run_chain-IsJustified :
      (start end : Database) (o : FilterChainOutcome)
      → run_chain codec world adapters screening_run_id start ≡ (ok o, end)
      → IsJustified codec world adapters screening_run_id start o end
  unfolding run_chain
  run_chain-IsJustified start end o h =
      let (screening, _, h1) =
        lift-eq-ok start end (or_raise (get_run start screening_run_id) key_error) _ o h in
      let (_, _, h2) =
        lift-eq-ok start end
          (raise_unless (is_stage screening.stage RunStage.screening) value_error) _ o h1 in
      let (_, _, h3) =
        lift-eq-ok start end (raise_unless (is_succeeded screening.status) value_error) _ o h2 in
      let (_, _, h4) =
        lift-eq-ok start end
          (raise_unless
            (has_rows codec world (list_parameter_results codec world screening_run_id start))
            value_error)
          _ o h3 in
      elim (Bool-cases (qualifies codec world adapters screening_run_id start)) [
        | inl qualified ↦
            run_stages-IsJustified start validation_stage_order [] [] none start end o qualified
              refl begin (ground arith)
        | inr rejected ↦
            let ended : ◌≡◌ {A = Result FilterChainOutcome × Database}
                (
                  ok (
                      screened_outcome codec world screening_run_id
                        (list_parameter_results codec world screening_run_id start)),
                  start,
                )
                (ok o, end) =
              rw rejected at h4 in
            let (shown, kept) = pure-same ended in
            Says-IsJustified codec world adapters screening_run_id screened_out start end o
              (ap (λ x. x.status) shown)
              (
                rejected,
                sym (ap (λ x. x.completed) shown),
                sym kept,
                λ others.
                    screened-same start others rejected
                    ∙ coe 0 1
                        (i.
                          run_chain codec world adapters screening_run_id start
                          ≡ (ok o, sym kept i))
                        h,
              )
      ]
