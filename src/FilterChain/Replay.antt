-- ===== src/FilterChain/Replay.antt =====
-- orchestration/filter_chain.py, `reopen`: a chain that can be read back is not run again.
use quant_factory.Python.Exec.{bind-eq-ok}
use quant_factory.FilterChain.Running.{
  context_of, later_lock, finish, is_complete, run_chain, StageResult, run, obtain_reference,
  run_stage, run_stages, reopen, Adapters,
}
use quant_factory.FilterChain.{
  previous_run_id, validation_stage_order, SourceLock, FilterChainOutcome, FilterStageHandoff,
  PersistedStageReference, FilterStageContext, Surroundings,
}
use quant_factory.Prelude.{
  ◌≡◌, inl, inr, true, Option, none, some, List, [], ◌∷◌, ◌++◌, String, arith, Bool-cases,
}
use quant_factory.Python.{ok}
use quant_factory.Python.Json.{Codec}
use quant_factory.Persistence.{RunStage, Database}

module _ (codec : Codec) (world : Surroundings) (adapters : Adapters)
    (screening_run_id : String) where
  -- What a reopened stage reads, a run of the same stage reads too, and neither writes.
  obtained :
      (context : FilterStageContext) (source : String) (db db' : Database)
      (reference : PersistedStageReference)
      → obtain_reference codec world none context source db ≡ (ok reference, db')
      → (db' ≡ db)
        × (obtain_reference codec world (some adapters) context source db ≡ (ok reference, db))
  unfolding obtain_reference
  obtained context source db db' reference h = ground arith

  staged :
      (references : List PersistedStageReference) (stage : RunStage) (db db' : Database)
      (result : StageResult)
      → run_stage codec world none screening_run_id references stage db ≡ (ok result, db')
      → (db' ≡ db)
        × (run_stage codec world (some adapters) screening_run_id references stage db
            ≡ (ok result, db))
  unfolding run_stage
  staged references stage db db' result h =
      let (reference, db1, e, h1) =
        bind-eq-ok
          (obtain_reference codec world none
            (context_of codec world screening_run_id references stage)
            (previous_run_id screening_run_id references))
          _ db h in
      let (same, e') =
        obtained (context_of codec world screening_run_id references stage)
          (previous_run_id screening_run_id references) db db1 reference e in
      ground arith

  looped :
      (stages : List RunStage) (references : List PersistedStageReference)
      (completed : List FilterStageHandoff) (lock : Option SourceLock) (db db' : Database)
      (outcome : FilterChainOutcome)
      → run_stages codec world none screening_run_id stages references completed lock db
        ≡ (ok outcome, db')
      → (db' ≡ db)
        × (run_stages codec world
              (some adapters)
              screening_run_id
              stages
              references
              completed
              lock
              db
            ≡ (ok outcome, db))
  unfolding run_stages finish
  looped [] references completed lock db db' outcome h = ground arith
  looped (stage ∷ stages) references completed lock db db' outcome h =
      let (result, db1, e, h1) =
        bind-eq-ok (run_stage codec world none screening_run_id references stage) _ db h in
      let (same, e') = staged references stage db db1 result e in
      elim (Bool-cases result.handoff.eligible_to_progress) [
        | inl on ↦
            let (same', e2) =
              looped stages (references ++ result.reference ∷ []) (completed ++ result.handoff ∷ [])
                (later_lock lock result.lock) db1 db' outcome (ground arith) in
            ground arith
        | inr off ↦ ground arith
      ]

  -- Where `reopen` returns an outcome it has written nothing, and `run` with any complete adapters
  -- returns the same outcome and leaves the same database.
  pub reopen-run :
      (db db' : Database) (outcome : FilterChainOutcome)
      → is_complete adapters ≡ true
      → reopen codec world screening_run_id db ≡ (ok outcome, db')
      → (db' ≡ db) × (run codec world screening_run_id adapters db ≡ (ok outcome, db))
  unfolding reopen run run_chain
  reopen-run db db' outcome complete h =
      ground (arith, looped validation_stage_order [] [] none db db' outcome)
