-- ===== src/FilterChain/Reserved.antt =====
-- orchestration/filter_chain.py, `_reserve_stage_run`: an adapter is called on a fresh reservation only.
use quant_factory.FilterChain.Reserving.{
  recover_stage, stage_reference, frozen_environment, invoke_stage, reserve_stage_run,
}
use quant_factory.FilterChain.Running.{
  later_lock, is_supplied, context_of, run_chain, reserve_and_invoke, obtain_reference, run_stages,
  run_stage, run, is_complete, Adapters,
}
use quant_factory.FilterChain.{
  validation_stage_order, SourceLock, previous_run_id, FilterStageHandoff, Exec,
  PersistedStageReference, Surroundings, FilterStageContext, StageAdapter,
}
use text.Mathlib.TextEquality.{eq_iff}
use quant_factory.Prelude.{
  if◌then◌else◌, ◌≡◌, refl, ap, inl, inr, Bool, true, false, Option, none, some, List, [], ◌∷◌,
  ◌++◌, String, arith, Bool-cases, Option-cases, string_eq,
}
use quant_factory.Python.{key_error, or_raise, Result, ok, err}
use quant_factory.Python.Exec.{pure, ◌>>=◌, lift, bind-same, continue}
use quant_factory.Python.Json.{Codec}
use quant_factory.Persistence.{RunStage, Database, ExperimentRunRecord, created}
use quant_factory.Persistence.Tables.{get-append}
use quant_factory.Persistence.Runs.{get_run, create_run, run_key}

-- The run of the context is in the database, reserved for the stage and not yet started.
abbrev pub IsReserved : FilterStageContext → Database → Type 0
IsReserved context db =
    (run : ExperimentRunRecord) × (get_run db context.run_id ≡ some run)
    × (run.stage ≡ context.stage)
    × (run.status ≡ created)

-- Two maps hold the same adapters as far as reserved runs go.
abbrev pub AgreeOn : Option StageAdapter → Option StageAdapter → Type 0
AgreeOn none none = Unit
AgreeOn none (some b) = ⊥
AgreeOn (some a) none = ⊥
AgreeOn (some a) (some b) =
    (context : FilterStageContext) (db : Database)
    → IsReserved context db
    → a context db ≡ b context db

create_run-reserves :
    (now run_id c s v : String) (stage : RunStage) (environment : String) (db db' : Database)
    (run : ExperimentRunRecord)
    → create_run now run_id c s v stage created environment db ≡ (ok run, db')
    → (get_run db' run_id ≡ some run) × (run.stage ≡ stage) × (run.status ≡ created)
unfolding create_run get_run
create_run-reserves now run_id c s v stage environment db db' run h =
    ground (arith, get-append run_key run_id run db.runs, eq_iff run_id run_id)

supplied_same : (a b : Option StageAdapter) → AgreeOn a b → is_supplied a ≡ is_supplied b
supplied_same none none _ = refl
supplied_same none (some b) same = absurd same
supplied_same (some a) none same = absurd same
supplied_same (some a) (some b) _ = refl

module _ (codec : Codec) (world : Surroundings) where
  reserve_stage_run-reserves :
      (screening_run_id : String) (stage : RunStage) (run_id source : String) (db db' : Database)
      → reserve_stage_run codec world screening_run_id stage run_id source db ≡ (ok true, db')
      → (run : ExperimentRunRecord) × (get_run db' run_id ≡ some run)
        × (run.stage ≡ stage)
        × (run.status ≡ created)
  unfolding reserve_stage_run
  reserve_stage_run-reserves screening_run_id stage run_id source db db' h =
      elim (Option-cases (get_run db screening_run_id)) [
        | inl missing ↦ absurd (ground arith)
        | inr (screening, found) ↦
            go
              (create_run (world.clock stage) run_id screening.configuration_id
                screening.strategy_id screening.strategy_version stage created
                (frozen_environment codec world source) db)
              screening found refl
      ]
    where
      go :
          (m : Result ExperimentRunRecord × Database) (screening : ExperimentRunRecord)
          → get_run db screening_run_id ≡ some screening
          → create_run
              (world.clock stage)
              run_id
              screening.configuration_id
              screening.strategy_id
              screening.strategy_version
              stage
              created
              (frozen_environment codec world source)
              db
            ≡ m
          → (run : ExperimentRunRecord) × (get_run db' run_id ≡ some run)
            × (run.stage ≡ stage)
            × (run.status ≡ created)
      go (err e, db1) screening found made = absurd (ground arith)
      go (ok run, db1) screening found made =
          let (there, at_stage, new) =
            create_run-reserves (world.clock stage) run_id screening.configuration_id
              screening.strategy_id screening.strategy_version stage
              (frozen_environment codec world source) db db1 run made in
          let same : db' ≡ db1 = ground arith in (run, rw same there, at_stage, new)

  module _ (adapters others : Adapters)
      (agree : (stage : RunStage) → AgreeOn (adapters stage) (others stage)) where
    invoked_same :
        (a b : Option StageAdapter) (context : FilterStageContext) (db : Database)
        → AgreeOn a b
        → IsReserved context db
        → continue (or_raise a key_error) (λ x. invoke_stage codec world x context) db
          ≡ continue (or_raise b key_error) (λ x. invoke_stage codec world x context) db
    unfolding invoke_stage
    invoked_same none none context db same reserved = refl
    invoked_same none (some b) context db same reserved = absurd same
    invoked_same (some a) none context db same reserved = absurd same
    invoked_same (some a) (some b) context db same reserved = ap answered (same context db reserved)
      where
        answered :
            Result PersistedStageReference × Database → Result PersistedStageReference × Database
        answered (r, db1) = elim r [
          | ok reference ↦ (ok reference, db1)
          | err e ↦ recover_stage codec world context.stage context.run_id db1
        ]

    reserved_same :
        (context : FilterStageContext) (source : String) (db : Database)
        → reserve_and_invoke codec world adapters context source db
          ≡ reserve_and_invoke codec world others context source db
    unfolding reserve_and_invoke
    reserved_same context source db =
        go
          (reserve_stage_run codec world context.screening_run_id context.stage context.run_id
            source db)
          refl
      where
        step : Adapters → Bool → Exec Database PersistedStageReference
        step which reserved =
            if reserved
            then (lift (or_raise (which context.stage) key_error) >>= λ adapter.
                invoke_stage codec world adapter context)
            else pure (stage_reference context.stage context.run_id)

        go :
            (m : Result Bool × Database)
            → reserve_stage_run codec world context.screening_run_id context.stage context.run_id
                source db
              ≡ m
            → continue m.0 (step adapters) m.1 ≡ continue m.0 (step others) m.1
        go (err e, db1) h = refl
        go (ok false, db1) h = refl
        go (ok true, db1) h =
            invoked_same (adapters context.stage) (others context.stage) context db1
              (agree context.stage)
              (reserve_stage_run-reserves context.screening_run_id context.stage context.run_id
                source db db1 h)

    obtained_same :
        (context : FilterStageContext) (source : String) (db : Database)
        → obtain_reference codec world (some adapters) context source db
          ≡ obtain_reference codec world (some others) context source db
    unfolding obtain_reference
    obtained_same context source db = ground (arith, reserved_same context source db)

    staged_same :
        (screening_run_id : String) (references : List PersistedStageReference) (stage : RunStage)
        (db : Database)
        → run_stage codec world (some adapters) screening_run_id references stage db
          ≡ run_stage codec world (some others) screening_run_id references stage db
    unfolding run_stage
    staged_same screening_run_id references stage db =
        rw
          (obtained_same (context_of codec world screening_run_id references stage)
            (previous_run_id screening_run_id references) db)
          refl

    looped_same :
        (screening_run_id : String) (stages : List RunStage)
        (references : List PersistedStageReference) (completed : List FilterStageHandoff)
        (lock : Option SourceLock) (db : Database)
        → run_stages codec world
            (some adapters)
            screening_run_id
            stages
            references
            completed
            lock
            db
          ≡ run_stages codec world
              (some others)
              screening_run_id
              stages
              references
              completed
              lock
              db
    unfolding run_stages
    looped_same screening_run_id [] references completed lock db = refl
    looped_same screening_run_id (stage ∷ stages) references completed lock db =
        bind-same (run_stage codec world (some adapters) screening_run_id references stage)
          (run_stage codec world (some others) screening_run_id references stage) _ _ db
          (staged_same screening_run_id references stage db)
          λ result db1. elim (Bool-cases result.handoff.eligible_to_progress) [
            | inl on ↦ rw on (
                looped_same screening_run_id stages (references ++ result.reference ∷ [])
                  (completed ++ result.handoff ∷ []) (later_lock lock result.lock) db1)
            | inr off ↦ rw off refl
          ]

    complete_same : is_complete adapters ≡ is_complete others
    complete_same =
        let at =
          λ (stage : RunStage). supplied_same (adapters stage) (others stage) (agree stage) in
        rw
          (
            at RunStage.oos,
            at RunStage.walk_forward,
            at RunStage.robustness,
            at RunStage.monte_carlo,
            at RunStage.fixture,
            at RunStage.screening,
          )
          refl

    -- An adapter is only called on a run that is in the database, reserved for its stage and not yet
    -- started: two maps of adapters that agree on such runs, whatever they do elsewhere, give the
    -- same result and the same database.
    pub run-reserved :
        (screening_run_id : String) (db : Database)
        → run codec world screening_run_id adapters db ≡ run codec world screening_run_id others db
    unfolding run run_chain
    run-reserved screening_run_id db =
        ground
          (arith, complete_same, looped_same screening_run_id validation_stage_order [] [] none db)
