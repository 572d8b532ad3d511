-- ===== src/FilterChain/Checking.antt =====
-- orchestration/filter_chain.py, `_validate_persisted_reference`: the run that a stage names is the one
-- that was reserved for it, and it succeeded.
use quant_factory.Persistence.Runs.{get_run}
use quant_factory.Python.Text.{strip, is_empty}
use quant_factory.FilterChain.{Database, PersistedStageReference}
use quant_factory.Persistence.{is_succeeded, is_stage, ExperimentRunRecord, RunStage}
use quant_factory.Python.{
  attribute_error, or_raise, value_error, raise_unless, err, ok, Result, Exn,
}
use quant_factory.Prelude.{Bool, ◌&&◌, not, String, string_eq, ◌==◌}
use quant_factory.Python.Raising.{◌>>=◌, ◌>>◌}
use quant_factory.Python.Json.{Json, object, Fields, Codec, get, is_text}

module _ (codec : Codec) where
  abbrev has_identity : RunStage → ExperimentRunRecord → ExperimentRunRecord → Bool
  has_identity stage source persisted =
      is_stage persisted.stage stage
      && is_succeeded persisted.status
      && persisted.configuration_id == source.configuration_id
      && persisted.strategy_id == source.strategy_id
      && persisted.strategy_version == source.strategy_version

  abbrev fields_or : Exn → Json → Result Fields
  fields_or e (object fs) = ok fs
  fields_or e v = err e

  -- `_validate_persisted_reference`
  unfoldable pub validate_persisted_reference :
      (screening_run_id : String)
      → RunStage
      → (expected_source_run_id expected_run_id : String) → PersistedStageReference
      → Database
      → Result (Unit {0})
  validate_persisted_reference screening_run_id expected_stage expected_source_run_id
        expected_run_id reference db =
      do
        raise_unless (is_stage reference.stage expected_stage) value_error
        raise_unless (not (is_empty (strip reference.run_id))) value_error
        raise_unless (reference.run_id == expected_run_id) value_error
        source ← or_raise (get_run db screening_run_id) value_error
        persisted ← or_raise (get_run db reference.run_id) value_error
        raise_unless (has_identity expected_stage source persisted) value_error
        value ← or_raise (codec.loads persisted.environment_json) value_error
        environment ← fields_or attribute_error value
        handoff ← fields_or value_error (get "filter_handoff" environment)
        raise_unless (is_text (get "source_run_id" handoff) expected_source_run_id) value_error
