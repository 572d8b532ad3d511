-- ===== src/Launch/Lineage.antt =====
-- orchestration/research_launch_claims.py, `_manifest_checksum` and `_derive_source_lineage`: what a
-- relaunch or a reproduction inherits from its source run.
use quant_factory.Prelude.{Option, [], ◌∷◌, String, string_eq, ◌==◌}
use quant_factory.Python.{
  Result, ok, err, value_error, assertion_error, launch_integrity, raise_unless, or_raise,
}
use quant_factory.Python.Raising.{◌>>=◌, ◌>>◌}
use quant_factory.Python.Json.{
  Json, Items, Fields, Codec, Texts, text, array, object, nil, item, get, get_field, get_item,
  remove_field, set_field, is_text, is_truthy,
}
use quant_factory.Persistence.{
  Database, ResearchLaunchOperation, run_test, historical_relaunch, RunStage, is_stage,
  is_succeeded, RunManifestRecord, ExperimentRunRecord,
}
use quant_factory.Persistence.Tables.{get as get_row}
use quant_factory.Persistence.Runs.{get_run}
use quant_factory.Launch.Requests.{bounded_text}

abbrev manifest_key : RunManifestRecord → String
manifest_key m = m.run_id

unfoldable pub get_manifest : Database → String → Option RunManifestRecord
get_manifest db run_id = get_row manifest_key run_id db.manifests

immutable_artifacts : Items → Result Items
immutable_artifacts nil = ok nil
immutable_artifacts (item (object fs) rest) = do
  others ← immutable_artifacts rest
  ok (item (object (remove_field "availability_state" fs)) others)
immutable_artifacts (item _ rest) = err launch_integrity

abbrev items_of : Json → Result Items
items_of (array xs) = ok xs
items_of _ = err launch_integrity

abbrev fields_of : Json → Result Fields
fields_of (object fs) = ok fs
fields_of _ = err launch_integrity

abbrev text_of : Json → Result String
text_of (text s) = ok s
text_of _ = err value_error

-- `lineage[part][key]`; `KeyError` and `TypeError` become an integrity error.
abbrev inner : String → String → Fields → Result Json
inner part key fs = do
  p ← or_raise (get_field part fs) launch_integrity
  or_raise (get_item key p) launch_integrity

bounded_value : Json → Result String
bounded_value v = do s ← text_of v; t ← bounded_text 256 s; ok s

module _ (codec : Codec) where
  unfoldable pub manifest_checksum : String → Result (Fields × String)
  unfolding immutable_artifacts
  manifest_checksum manifest_json = do
    value ← or_raise (codec.loads manifest_json) launch_integrity
    document ← fields_of value
    let immutable = remove_field "created_at" document
    xs ← items_of (get "artifacts" immutable)
    ys ← immutable_artifacts xs
    ok (document, codec.sha256 (codec.dumps (object (set_field "artifacts" (array ys) immutable))))

  -- The lineage that the source run's own manifest states, for a reproduction.
  unfoldable pub reproduction_lineage : ExperimentRunRecord → Fields → String → Result Texts
  unfolding bounded_value
  reproduction_lineage source lineage checksum = do
    configuration_id ← inner "configuration" "configuration_id" lineage
    config_hash ← inner "configuration" "config_hash" lineage
    raise_unless (is_text configuration_id source.configuration_id) launch_integrity
    raise_unless (is_truthy config_hash) launch_integrity
    runtime ← inner "runtime" "runtime_identity" lineage
    dataset ← inner "data" "dataset_identity" lineage
    execution ← inner "execution_assumptions" "execution_assumptions_identity" lineage
    run_id ← bounded_value (text source.run_id)
    manifest_identity ← bounded_value (text checksum)
    runtime_identity ← bounded_value runtime
    dataset_identity ← bounded_value dataset
    execution_identity ← bounded_value execution
    ok (
        ("reproduction_of_run_id", run_id)
        ∷ ("source_manifest_checksum", manifest_identity)
        ∷ ("source_runtime_identity", runtime_identity)
        ∷ ("source_dataset_identity", dataset_identity)
        ∷ ("source_execution_assumptions_identity", execution_identity)
        ∷ [])

  unfoldable pub reproduced : Database → ExperimentRunRecord → Result Texts
  unfolding manifest_checksum reproduction_lineage
  reproduced db source = do
    raise_unless (is_succeeded source.status) launch_integrity
    stored ← or_raise (get_manifest db source.run_id) launch_integrity
    calculated ← manifest_checksum stored.manifest_json
    raise_unless (calculated.1 == stored.content_checksum) launch_integrity
    let manifest = calculated.0
    raise_unless (is_text (get "run_id" manifest) source.run_id) launch_integrity
    raise_unless (is_text (get "configuration_id" manifest) source.configuration_id)
        launch_integrity
    raise_unless (is_text (get "strategy_id" manifest) source.strategy_id) launch_integrity
    raise_unless (is_text (get "strategy_version" manifest) source.strategy_version)
        launch_integrity
    lineage ← fields_of (get "lineage" manifest)
    reproduction_lineage source lineage stored.content_checksum

  -- `_derive_source_lineage`
  unfoldable pub derive_source_lineage :
      Database
      → ResearchLaunchOperation
      → Option String
      → RunStage
      → (configuration_id strategy_id strategy_version : String) → Result Texts
  unfolding reproduced
  derive_source_lineage db run_test source_run_id stage configuration_id strategy_id
        strategy_version =
      ok []
  derive_source_lineage db operation source_run_id stage configuration_id strategy_id
        strategy_version =
      do
        source_id ← or_raise source_run_id assertion_error
        source ← or_raise (get_run db source_id) launch_integrity
        raise_unless (is_stage source.stage stage) launch_integrity
        raise_unless (source.configuration_id == configuration_id) launch_integrity
        raise_unless (source.strategy_id == strategy_id) launch_integrity
        raise_unless (source.strategy_version == strategy_version) launch_integrity
        elim operation [
          | historical_relaunch ↦ ok (("parent_run_id", source.run_id) ∷ [])
          | _ ↦ reproduced db source
        ]
