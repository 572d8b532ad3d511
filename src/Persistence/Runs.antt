-- ===== src/Persistence/Runs.antt =====
-- persistence/repositories.py, `RunRepository`: runs and their status.
use quant_factory.Prelude.{
  Bool, true, false, Option, none, some, [], ◌∷◌, ◌++◌, String, if◌then◌else◌,
}
use quant_factory.Python.{ok, err, key_error, sqlite_integrity}
use quant_factory.Python.Exec.{Exec}
use quant_factory.Persistence.{
  RunStage, RunStatus, running, is_terminal, ExperimentRunRecord, Database, validate_run_transition,
}
use quant_factory.Persistence.Tables.{get, update}

abbrev pub run_key : ExperimentRunRecord → String
run_key r = r.run_id

unfoldable pub get_run : Database → String → Option ExperimentRunRecord
get_run db run_id = get run_key run_id db.runs

abbrev is_running : RunStatus → Bool
is_running running = true
is_running _ = false

abbrev time_if : Bool → String → Option String
time_if true now = some now
time_if false now = none

-- `current.started_at or (now if ...)`; a stored time is never the empty text
abbrev pub or_else : Option String → Option String → Option String
or_else none o = o
or_else (some t) o = some t

-- `RunRepository.create`: the INSERT refuses a run identity that is taken.
unfoldable pub create_run :
    (now run_id configuration_id strategy_id strategy_version : String)
    → RunStage
    → RunStatus
    → (environment_json : String) → Exec Database ExperimentRunRecord
create_run now run_id configuration_id strategy_id strategy_version stage status environment_json
      db =
    elim (get_run db run_id) [
      | some _ ↦ (err sqlite_integrity, db)
      | none ↦
          let row : ExperimentRunRecord = record {
            run_id = run_id;
            configuration_id = configuration_id;
            strategy_id = strategy_id;
            strategy_version = strategy_version;
            stage = stage;
            status = status;
            started_at = time_if (is_running status) now;
            completed_at = time_if (is_terminal status) now;
            error_summary = none;
            environment_json = environment_json;
            created_at = now;
            attempt_count = 0;
          } in
          (ok row, record db { runs = db.runs ++ row ∷ [] })
    ]

abbrev pub moved :
    (now : String) → RunStatus → Option String → ExperimentRunRecord → ExperimentRunRecord
moved now new error_summary r = record r {
  status = new;
  started_at = or_else r.started_at (time_if (is_running new) now);
  completed_at = if is_terminal new then some now else r.completed_at;
  error_summary = error_summary;
}

abbrev pub always : ExperimentRunRecord → Bool
always r = true

abbrev pub set_run : String → (ExperimentRunRecord → ExperimentRunRecord) → Database → Database
set_run run_id f db = record db { runs = update run_key run_id always f db.runs }

-- `RunRepository.transition`
unfoldable pub transition :
    (now run_id : String) → RunStatus → Option String → Exec Database ExperimentRunRecord
unfolding validate_run_transition
transition now run_id new error_summary db = elim (get_run db run_id) [
  | none ↦ (err key_error, db)
  | some current ↦ elim (validate_run_transition current.status new) [
    | err e ↦ (err e, db)
    | ok _ ↦
        (ok (moved now new error_summary current), set_run run_id (moved now new error_summary) db)
  ]
]
