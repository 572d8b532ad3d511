-- ===== src/FilterChain/Running.antt =====
-- orchestration/filter_chain.py, `FactoryFilterChainService`: one stage, the loop over the stages, and
-- `run` and `reopen`.
use quant_factory.FilterChain.Handoffs.{read_handoff}
use quant_factory.FilterChain.Checking.{validate_persisted_reference}
use quant_factory.FilterChain.Reserving.{invoke_stage, stage_reference, reserve_stage_run}
use quant_factory.Python.Text.{is_empty, strip}
use quant_factory.Python.Text.{append}
use quant_factory.FilterChain.{
  ready_for_protected_test, validation_stage_order, stopped, handoff_run_id, screened_out,
  GateResult, FilterChainOutcome, FilterStageContext, FilterStageHandoff, previous_run_id,
  PersistedStageReference, StageAdapter, SourceLock, Surroundings,
}
use quant_factory.Prelude.{
  keep, Bool, true, false, ◌&&◌, not, Option, none, some, List, [], ◌∷◌, ◌++◌, String, string_eq,
  ◌==◌, if◌then◌else◌, any,
}
use quant_factory.Python.{
  assertion_error, replay_incomplete, Result, ok, err, key_error, value_error, raise_unless,
  or_raise,
}
use quant_factory.Python.Exec.{Exec, pure, lift, gets, ◌>>=◌, ◌>>◌}
use quant_factory.Python.Json.{Codec}
use quant_factory.Persistence.{
  RunStage, is_stage, stage_value, is_succeeded, ParameterResultRecord, Database,
}
use quant_factory.Persistence.Runs.{get_run}

-- `Mapping[RunStage, StageAdapter] | None`: no mapping at all reopens the chain.
abbrev pub Adapters : Type 0
Adapters = RunStage → Option StageAdapter

-- The handoff of a stage, with the lock that the OOS stage reads.
pub record StageResult : Type 0 where
  pub reference : PersistedStageReference
  pub handoff : FilterStageHandoff
  pub lock : Option SourceLock

abbrev pub is_supplied : Option StageAdapter → Bool
is_supplied none = false
is_supplied (some a) = true

-- `_require_complete_adapters`
abbrev pub is_complete : Adapters → Bool
is_complete adapters =
    is_supplied (adapters RunStage.oos)
    && is_supplied (adapters RunStage.walk_forward)
    && is_supplied (adapters RunStage.robustness)
    && is_supplied (adapters RunStage.monte_carlo)
    && not (is_supplied (adapters RunStage.fixture))
    && not (is_supplied (adapters RunStage.screening))

abbrev or_default : String → List String → List String
or_default reason [] = reason ∷ []
or_default reason reasons = reasons

-- `by_stage[stage]`, where a later reference overwrites an earlier one
abbrev pub run_of_stage : RunStage → List PersistedStageReference → Option String
run_of_stage stage [] = none
run_of_stage stage (r ∷ rest) = elim (run_of_stage stage rest) [
  | some run_id ↦ some run_id
  | none ↦ if is_stage r.stage stage then some r.run_id else none
]

abbrev pub later_lock : Option SourceLock → Option SourceLock → Option SourceLock
later_lock old none = old
later_lock old (some lock) = some lock

-- the stripped reasons that are not empty
abbrev rejection_reasons : List ParameterResultRecord → List String
rejection_reasons [] = []
rejection_reasons (row ∷ rows) =
    let rest = rejection_reasons rows in
    let reason = strip row.rejection_reasons in if is_empty reason then rest else reason ∷ rest

module _ (codec : Codec) (world : Surroundings) where
  -- The adapter runs only when this call has reserved the run.
  unfoldable pub reserve_and_invoke :
      Adapters
      → FilterStageContext
      → (source_run_id : String) → Exec Database PersistedStageReference
  reserve_and_invoke adapters context source_run_id = do
    reserved ←
        reserve_stage_run codec world context.screening_run_id context.stage context.run_id
          source_run_id
    if reserved
        then (do
          adapter ← lift (or_raise (adapters context.stage) key_error)
          invoke_stage codec world adapter context)
        else pure (stage_reference context.stage context.run_id)

  unfoldable pub obtain_reference :
      Option Adapters
      → FilterStageContext
      → (source_run_id : String) → Exec Database PersistedStageReference
  obtain_reference none context source_run_id db = elim (get_run db context.run_id) [
    | none ↦ (err replay_incomplete, db)
    | some existing ↦ elim (is_succeeded existing.status) [
      | true ↦ (ok (stage_reference context.stage context.run_id), db)
      | false ↦ (err replay_incomplete, db)
    ]
  ]
  obtain_reference (some adapters) context source_run_id db = elim (get_run db context.run_id) [
    | some existing ↦ (ok (stage_reference context.stage context.run_id), db)
    | none ↦ reserve_and_invoke adapters context source_run_id db
  ]

  abbrev pub context_of : String → List PersistedStageReference → RunStage → FilterStageContext
  context_of screening_run_id references stage = record {
    screening_run_id = screening_run_id;
    stage = stage;
    run_id =
        handoff_run_id codec screening_run_id (previous_run_id screening_run_id references) stage;
    previous = references;
  }

  -- The body of the loop, up to the decision.
  unfoldable pub run_stage :
      Option Adapters → String → List PersistedStageReference → RunStage → Exec Database StageResult
  run_stage adapters screening_run_id references stage = do
    let context = context_of screening_run_id references stage
    let source = previous_run_id screening_run_id references
    reference ← obtain_reference adapters context source
    db ← gets (λ db. db)
    lift (
        validate_persisted_reference codec screening_run_id stage source context.run_id reference
          db)
    read ← lift (read_handoff codec world stage reference.run_id db)
    pure (record { reference = reference; handoff = read.0; lock = read.1 })

  abbrev pub stopped_outcome :
      String → List FilterStageHandoff → FilterStageHandoff → FilterChainOutcome
  stopped_outcome screening_run_id completed handoff = record {
    status = stopped;
    screening_run_id = screening_run_id;
    completed = completed;
    stopped_at = some (stage_value handoff.stage);
    reasons =
        or_default (append (stage_value handoff.stage) " did not qualify for the next filter.")
          handoff.reasons;
    protected_test_gate = none;
  }

  abbrev pub gated_outcome : String → List FilterStageHandoff → GateResult → FilterChainOutcome
  gated_outcome screening_run_id completed gate =
      if gate.eligible_to_execute_lockbox
      then record {
        status = ready_for_protected_test;
        screening_run_id = screening_run_id;
        completed = completed;
        stopped_at = none;
        reasons = "Protected test remains locked until separate authority is granted." ∷ [];
        protected_test_gate = some gate;
      }
      else record {
        status = stopped;
        screening_run_id = screening_run_id;
        completed = completed;
        stopped_at = some "protected_test_gate";
        reasons = or_default "The protected test prerequisites did not pass." gate.reasons;
        protected_test_gate = some gate;
      }

  -- After the last stage: the prerequisites of the protected test.
  unfoldable pub finish :
      String
      → List PersistedStageReference
      → List FilterStageHandoff
      → Option SourceLock
      → Exec Database FilterChainOutcome
  finish screening_run_id references completed source_lock = do
    lock ← lift (or_raise source_lock assertion_error)
    walk_forward ← lift (or_raise (run_of_stage RunStage.walk_forward references) key_error)
    monte_carlo ← lift (or_raise (run_of_stage RunStage.monte_carlo references) key_error)
    robustness ← lift (or_raise (run_of_stage RunStage.robustness references) key_error)
    db ← gets (λ db. db)
    gate ← lift (world.lockbox_prerequisites walk_forward monte_carlo robustness lock db)
    pure (gated_outcome screening_run_id completed gate)

  -- `for expected_stage in VALIDATION_STAGE_ORDER`
  unfoldable pub run_stages :
      Option Adapters
      → String
      → List RunStage
      → List PersistedStageReference
      → List FilterStageHandoff
      → Option SourceLock
      → Exec Database FilterChainOutcome
  run_stages adapters screening_run_id [] references completed source_lock =
      finish screening_run_id references completed source_lock
  run_stages adapters screening_run_id (stage ∷ stages) references completed source_lock = do
    result ← run_stage adapters screening_run_id references stage
    elim result.handoff.eligible_to_progress [
      | true ↦
          run_stages adapters screening_run_id stages (references ++ result.reference ∷ [])
            (completed ++ result.handoff ∷ []) (later_lock source_lock result.lock)
      | false ↦
          pure (stopped_outcome screening_run_id (completed ++ result.handoff ∷ []) result.handoff)
    ]

  abbrev pub list_parameter_results : String → Database → List ParameterResultRecord
  list_parameter_results run_id db = keep (λ row. row.run_id == run_id) db.parameter_results

  abbrev pub screened_outcome : String → List ParameterResultRecord → FilterChainOutcome
  screened_outcome screening_run_id rows = record {
    status = screened_out;
    screening_run_id = screening_run_id;
    completed = [];
    stopped_at = some (stage_value RunStage.screening);
    reasons =
        or_default "No screening result qualified for later filters." (rejection_reasons rows);
    protected_test_gate = none;
  }

  abbrev require_complete : Option Adapters → Result (Unit {0})
  require_complete none = ok tt
  require_complete (some adapters) = raise_unless (is_complete adapters) value_error

  abbrev pub has_rows : List ParameterResultRecord → Bool
  has_rows [] = false
  has_rows (row ∷ rows) = true

  -- `_run`
  unfoldable pub run_chain : Option Adapters → String → Exec Database FilterChainOutcome
  run_chain adapters screening_run_id = do
    db ← gets (λ db. db)
    screening ← lift (or_raise (get_run db screening_run_id) key_error)
    lift (raise_unless (is_stage screening.stage RunStage.screening) value_error)
    lift (raise_unless (is_succeeded screening.status) value_error)
    lift (raise_unless (has_rows (list_parameter_results screening_run_id db)) value_error)
    if any (λ row. row.screening_status == "passed") (list_parameter_results screening_run_id db)
        then (do
          lift (require_complete adapters)
          run_stages adapters screening_run_id validation_stage_order [] [] none)
        else pure (screened_outcome screening_run_id (list_parameter_results screening_run_id db))

  unfoldable pub run : String → Adapters → Exec Database FilterChainOutcome
  run screening_run_id stage_adapters = run_chain (some stage_adapters) screening_run_id

  unfoldable pub reopen : String → Exec Database FilterChainOutcome
  reopen screening_run_id = run_chain none screening_run_id
