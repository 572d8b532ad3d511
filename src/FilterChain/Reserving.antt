-- ===== src/FilterChain/Reserving.antt =====
-- orchestration/filter_chain.py: the reservation of a stage's run, the call of its adapter, and the
-- check of the run that it leaves.
use quant_factory.Prelude.{Bool, true, false, Option, none, some, String, string_eq}
use quant_factory.Python.{Exn, assertion_error, sqlite_integrity, stage_unknown, ok, err}
use quant_factory.Python.Json.{object, text, field, end, Codec, set_field}
use quant_factory.Python.Exec.{Exec, raise, ◌>>=◌, ◌>>◌}
use quant_factory.Persistence.{
  RunStage, RunStatus, created, running, failed, is_succeeded, run_failed, error, Database,
}
use quant_factory.Persistence.Runs.{get_run, create_run, transition}
use quant_factory.Persistence.Events.{append_event}
use quant_factory.FilterChain.{
  Surroundings, PersistedStageReference, FilterStageContext, StageAdapter,
}

abbrev is_sqlite_integrity : Exn → Bool
is_sqlite_integrity sqlite_integrity = true
is_sqlite_integrity e = false

abbrev is_active : RunStatus → Bool
is_active created = true
is_active running = true
is_active _ = false

abbrev given : String → Option String → String
given now none = now
given now (some t) = t

abbrev pub stage_reference : RunStage → String → PersistedStageReference
stage_reference stage run_id = record { stage = stage; run_id = run_id }

module _ (codec : Codec) (world : Surroundings) where
  -- `_freeze_environment` of an environment that has no runtime lineage yet
  unfoldable pub frozen_environment : String → String
  frozen_environment source_run_id = codec.dumps (
      object (
        set_field "runtime_lineage" world.runtime_lineage
          (field "filter_handoff" (object (field "source_run_id" (text source_run_id) end)) end)))

  -- `_reserve_stage_run`: whether this call created the run
  unfoldable pub reserve_stage_run :
      (screening_run_id : String) → RunStage → (run_id source_run_id : String) → Exec Database Bool
  reserve_stage_run screening_run_id stage run_id source_run_id db = elim (get_run db run_id) [
    | some _ ↦ (ok false, db)
    | none ↦ elim (get_run db screening_run_id) [
      | none ↦ (err assertion_error, db)
      | some screening ↦
          let (r, db') =
            create_run (world.clock stage) run_id screening.configuration_id screening.strategy_id
              screening.strategy_version stage created (frozen_environment source_run_id) db in
          elim r [
            | ok _ ↦ (ok true, db')
            | err e ↦ elim (is_sqlite_integrity e) [
              | false ↦ (err e, db')
              | true ↦ elim (get_run db' run_id) [ none ↦ (err e, db') | some _ ↦ (ok false, db') ]
            ]
          ]
    ]
  ]

  -- A run that was reserved and did not succeed is failed: it blocks every later call of the adapter.
  unfoldable pub block_stage : RunStage → String → Exec Database PersistedStageReference
  block_stage stage run_id = do
    failed_run ← transition (world.clock stage) run_id failed (
        some
          "Filter-stage adapter outcome is unknown; automatic rerun is blocked pending owner investigation.")
    append_event (given (world.clock stage) failed_run.completed_at) run_id run_failed error
        "Filter stage stopped with an unknown outcome; automatic rerun is blocked."
    raise stage_unknown

  -- `except Exception`: a run that succeeded all the same is taken.
  unfoldable pub recover_stage : RunStage → String → Exec Database PersistedStageReference
  recover_stage stage run_id db = elim (get_run db run_id) [
    | none ↦ (err stage_unknown, db)
    | some run ↦ elim (is_succeeded run.status) [
      | true ↦ (ok (stage_reference stage run_id), db)
      | false ↦ elim (is_active run.status) [
        | true ↦ block_stage stage run_id db
        | false ↦ (err stage_unknown, db)
      ]
    ]
  ]

  unfoldable pub invoke_stage :
      StageAdapter → FilterStageContext → Exec Database PersistedStageReference
  invoke_stage adapter context db =
      let (r, db') = adapter context db in
      elim r [
        | ok reference ↦ (ok reference, db')
        | err e ↦ recover_stage context.stage context.run_id db'
      ]
