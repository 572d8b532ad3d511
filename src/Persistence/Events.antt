-- ===== src/Persistence/Events.antt =====
-- persistence/repositories.py, `RunEventRepository`: the append-only operator events.
use quant_factory.Prelude.{
  List, [], ◌∷◌, ◌++◌, String, suc, length, ltb, string_eq, ◌==◌, if◌then◌else◌, keep,
}
use quant_factory.Python.{ok, err, value_error}
use quant_factory.Python.Exec.{Exec}
use quant_factory.Python.Text
use quant_factory.Python.Text.{is_empty, strip}
use quant_factory.Persistence.{RunEventType, EventSeverity, RunEventRecord, Database}

-- `RunEventRepository.append` with the default source; `occurred_at` is the given time or now. The
-- rows are never deleted, so their number gives the next AUTOINCREMENT identity.
unfoldable pub append_event :
    (occurred_at run_id : String)
    → RunEventType
    → EventSeverity
    → (message : String) → Exec Database RunEventRecord
append_event occurred_at run_id event_type severity message db =
    let message' = strip message in
    if is_empty message'
    then (err value_error, db)
    else if ltb 500 (Text.length message')
    then (err value_error, db)
    else let row : RunEventRecord = record {
      event_id = suc (length db.events);
      run_id = run_id;
      event_type = event_type;
      occurred_at = occurred_at;
      severity = severity;
      source = "quant_factory";
      message = message';
    } in
      (ok row, record db { events = db.events ++ row ∷ [] })

-- `RunEventRepository.list_for_run`, up to the order
unfoldable pub events_for_run : Database → String → List RunEventRecord
events_for_run db run_id = keep (λ e. e.run_id == run_id) db.events
