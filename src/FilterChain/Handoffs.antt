-- ===== src/FilterChain/Handoffs.antt =====
-- orchestration/filter_chain.py, `_run`: the handoff of a stage, from the evidence that is read back.
use quant_factory.FilterChain.{
  stage_may_progress, FilterStageHandoff, StageOutcome, SourceLock, Surroundings,
}
use quant_factory.Prelude.{Bool, true, false, Option, none, some, [], ◌∷◌, String, string_eq, ◌==◌}
use quant_factory.Python.{
  Exn, type_error, attribute_error, assertion_error, sqlite_integrity, adapter_error,
  fixture_timeout, Result, ok, err,
}
use quant_factory.Python.Json.{Codec}
use quant_factory.Persistence.{RunStage, Database}

-- `except (KeyError, RuntimeError, ValueError)`
abbrev pub is_caught : Exn → Bool
is_caught type_error = false
is_caught attribute_error = false
is_caught assertion_error = false
is_caught sqlite_integrity = false
is_caught adapter_error = false
is_caught fixture_timeout = false
is_caught e = true

module _ (codec : Codec) (world : Surroundings) where
  -- What the evidence of a stage says.
  unfoldable pub oos_handoff :
      RunStage → String → Result SourceLock → Result (FilterStageHandoff × Option SourceLock)
  oos_handoff stage run_id (ok lock) = ok (
    record {
      stage = stage;
      run_id = run_id;
      status = lock.status;
      eligible_to_progress = lock.status == "passed";
      evidence_identity = some lock.artifact_id;
      reasons = lock.reasons;
    },
    some lock,
  )
  oos_handoff stage run_id (err e) = elim (is_caught e) [
    | false ↦ err e
    | true ↦ ok (
      record {
        stage = stage;
        run_id = run_id;
        status = "invalid";
        eligible_to_progress = false;
        evidence_identity = none;
        reasons = world.message e ∷ [];
      },
      none,
    )
  ]

  unfoldable pub scored_handoff :
      RunStage → String → Result StageOutcome → Result (FilterStageHandoff × Option SourceLock)
  scored_handoff stage run_id (ok outcome) = ok (
    record {
      stage = stage;
      run_id = run_id;
      status = outcome.status;
      eligible_to_progress = stage_may_progress stage outcome;
      evidence_identity = outcome.evidence_identity;
      reasons = outcome.reasons;
    },
    none,
  )
  scored_handoff stage run_id (err e) = err e

  unfoldable pub read_handoff :
      RunStage → String → Database → Result (FilterStageHandoff × Option SourceLock)
  read_handoff RunStage.oos run_id db =
      oos_handoff RunStage.oos run_id (world.source_lock run_id db)
  read_handoff stage run_id db = scored_handoff stage run_id (world.stage_outcome run_id db)
