-- ===== src/FilterChain/Justified.antt =====
-- orchestration/filter_chain.py, `_run`: what makes an outcome of the chain right.
use quant_factory.Prelude.{
  ◌≡◌, ◌⊎◌, any, Bool, true, false, Option, some, List, [], ◌∷◌, ◌++◌, String, string_eq, ◌==◌,
}
use quant_factory.Python.{ok}
use quant_factory.Python.Json.{Codec}
use quant_factory.Persistence.{RunStage, Database, stage_value}
use quant_factory.FilterChain.{
  ChainStatus, screened_out, stopped, ready_for_protected_test, SourceLock, GateResult,
  FilterChainOutcome, FilterStageHandoff, Surroundings,
}
use quant_factory.FilterChain.Running.{Adapters, list_parameter_results, run_chain}
use quant_factory.FilterChain.Reached.{Taken, Reached}

module _ (codec : Codec) (world : Surroundings) (adapters : Option Adapters)
    (screening_run_id : String) where
  -- The stages before the last have passed on their evidence, and the last may not on its own.
  pub record IsStopped (start : Database) (o : FilterChainOutcome) (end : Database) : Type 0 where
    pub before : List FilterStageHandoff
    pub stage : RunStage
    pub later : List RunStage
    pub last : FilterStageHandoff
    pub lock : Option SourceLock
    pub read : Option SourceLock
    pub middle : Database
    pub passed :
        Reached codec world adapters screening_run_id start (stage ∷ later) before lock middle
    pub taken : Taken codec world adapters screening_run_id before stage last read middle end
    pub no_progress : last.eligible_to_progress ≡ false
    pub all_completed : o.completed ≡ before ++ last ∷ []
    pub stopped_there : o.stopped_at ≡ some (stage_value stage)

  -- All four stages have passed on their evidence, and the prerequisites of the protected test, read
  -- at the end for their runs and the lock of the first, say whether the gate opens.
  pub record IsGated (is_open : Bool) (start : Database) (o : FilterChainOutcome) (end : Database)
      : Type 0 where
    pub oos : FilterStageHandoff
    pub walk_forward : FilterStageHandoff
    pub robustness : FilterStageHandoff
    pub monte_carlo : FilterStageHandoff
    pub lock : SourceLock
    pub gate : GateResult
    pub all_completed : o.completed ≡ oos ∷ walk_forward ∷ robustness ∷ monte_carlo ∷ []
    pub passed :
        Reached codec world adapters screening_run_id start []
          (oos ∷ walk_forward ∷ robustness ∷ monte_carlo ∷ [])
          (some lock)
          end
    pub gate_read :
        world.lockbox_prerequisites walk_forward.run_id monte_carlo.run_id robustness.run_id lock
          end
        ≡ ok gate
    pub gate_shown : o.protected_test_gate ≡ some gate
    pub gate_opens : gate.eligible_to_execute_lockbox ≡ is_open

  -- whether the database has a screening result that passed
  abbrev pub qualifies : Database → Bool
  qualifies db =
      any (λ row. row.screening_status == "passed")
        (list_parameter_results codec world screening_run_id db)

  -- Nothing passed the screening; nothing was written, and any adapters or none give the same.
  abbrev IsScreened : (start : Database) → FilterChainOutcome → (end : Database) → Type 0
  IsScreened start o end =
      (qualifies start ≡ false)
      × (o.completed ≡ [])
      × (end ≡ start)
      × ((others : Option Adapters)
          → run_chain codec world others screening_run_id start ≡ (ok o, start))

  -- what an outcome of a status says
  abbrev Says : ChainStatus → (start : Database) → FilterChainOutcome → (end : Database) → Type 0
  Says screened_out start o end = IsScreened start o end
  Says stopped start o end =
      (qualifies start ≡ true) × (IsStopped start o end ⊎ IsGated false start o end)
  Says ready_for_protected_test start o end = (qualifies start ≡ true) × IsGated true start o end

  abbrev pub IsJustified : (start : Database) → FilterChainOutcome → (end : Database) → Type 0
  IsJustified start o end = Says o.status start o end

  pub Says-IsJustified :
      (status : ChainStatus) (start end : Database) (o : FilterChainOutcome)
      → status ≡ o.status
      → Says status start o end
      → IsJustified start o end
  Says-IsJustified status start end o same says = coe 0 1 (i. Says (same i) start o end) says
