-- ===== src/Persistence/Submissions.antt =====
-- persistence/repositories.py, `ResearchRunSubmissionRepository`: the durable submission rows. Each
-- `set_...` is one UPDATE, guarded by the state that it leaves.
use quant_factory.Prelude.{
  Bool, true, false, ◌&&◌, ◌||◌, Option, none, some, [], ◌∷◌, ◌++◌, String, any, string_eq,
  option_eq, ◌==◌, ◌!=◌, if◌then◌else◌,
}
use quant_factory.Python.{ok, err, sqlite_integrity}
use quant_factory.Python.Exec.{Exec}
use quant_factory.Persistence.{
  claimed, invoking, acknowledged, submission_unknown, failed_before_submission, abandoned,
  ResearchRunSubmissionRecord, Database,
}
use quant_factory.Persistence.Tables.{get, update, is_updated, find}
use quant_factory.Persistence.Runs.{or_else}

abbrev pub submission_key : ResearchRunSubmissionRecord → String
submission_key s = s.idempotency_key

unfoldable pub get_submission : Database → String → Option ResearchRunSubmissionRecord
get_submission db key = get submission_key key db.submissions

unfoldable pub get_for_run : Database → String → Option ResearchRunSubmissionRecord
get_for_run db run_id = find (λ s. s.run_id == run_id) db.submissions

abbrev pub is_taken : Database → String → String → Bool
is_taken db key run_id =
    any (λ s. (s.idempotency_key == key) || (s.run_id == run_id)) db.submissions

-- The INSERT refuses a taken key (PRIMARY KEY) and a taken run (UNIQUE).
unfoldable pub create_submission :
    (idempotency_key run_id configuration_id canonical_request_json request_fingerprint
      claimed_at : String)
    → Exec Database ResearchRunSubmissionRecord
create_submission idempotency_key run_id configuration_id canonical_request_json request_fingerprint
      claimed_at db =
    if is_taken db idempotency_key run_id
    then (err sqlite_integrity, db)
    else let row : ResearchRunSubmissionRecord = record {
      idempotency_key = idempotency_key;
      run_id = run_id;
      configuration_id = configuration_id;
      canonical_request_json = canonical_request_json;
      request_fingerprint = request_fingerprint;
      state = claimed;
      dispatcher_instance_id = none;
      prefect_flow_run_id = none;
      prefect_api_url = none;
      claimed_at = claimed_at;
      invocation_started_at = none;
      acknowledged_at = none;
      unknown_at = none;
      unknown_evidence_reference = none;
      resolved_at = none;
      resolution_evidence_reference = none;
      updated_at = claimed_at;
      error_summary = none;
    } in
      (ok row, record db { submissions = db.submissions ++ row ∷ [] })

abbrev pub is_claimed : ResearchRunSubmissionRecord → Bool
is_claimed s = elim s.state [ claimed ↦ true | _ ↦ false ]

abbrev pub is_invoking : ResearchRunSubmissionRecord → Bool
is_invoking s = elim s.state [ invoking ↦ true | _ ↦ false ]

abbrev pub is_acknowledged : ResearchRunSubmissionRecord → Bool
is_acknowledged s = elim s.state [ acknowledged ↦ true | _ ↦ false ]

abbrev pub is_unknown : ResearchRunSubmissionRecord → Bool
is_unknown s = elim s.state [ submission_unknown ↦ true | _ ↦ false ]

abbrev pub is_failed_before : ResearchRunSubmissionRecord → Bool
is_failed_before s = elim s.state [ failed_before_submission ↦ true | _ ↦ false ]

abbrev pub is_abandoned : ResearchRunSubmissionRecord → Bool
is_abandoned s = elim s.state [ abandoned ↦ true | _ ↦ false ]

abbrev pub may_acknowledge : ResearchRunSubmissionRecord → Bool
may_acknowledge s = elim s.state [ invoking ↦ true | submission_unknown ↦ true | _ ↦ false ]

-- One guarded UPDATE and whether it met its row.
abbrev set_where :
    (ResearchRunSubmissionRecord → Bool)
    → (ResearchRunSubmissionRecord → ResearchRunSubmissionRecord)
    → (key : String) → Exec Database Bool
set_where q f key db = (
  ok (is_updated submission_key key q db.submissions),
  record db { submissions = update submission_key key q f db.submissions },
)

abbrev pub to_invoking :
    (dispatcher now : String) → ResearchRunSubmissionRecord → ResearchRunSubmissionRecord
to_invoking dispatcher now s = record s {
  state = invoking;
  dispatcher_instance_id = some dispatcher;
  invocation_started_at = some now;
  updated_at = now;
}

unfoldable pub set_invoking : (key dispatcher now : String) → Exec Database Bool
set_invoking key dispatcher now = set_where is_claimed (to_invoking dispatcher now) key

abbrev pub to_unknown :
    (now error_summary : String)
    → Option String
    → ResearchRunSubmissionRecord
    → ResearchRunSubmissionRecord
to_unknown now error_summary evidence s = record s {
  state = submission_unknown;
  unknown_at = some now;
  updated_at = now;
  error_summary = some error_summary;
  unknown_evidence_reference = or_else evidence s.unknown_evidence_reference;
}

unfoldable pub set_unknown : (key now error_summary : String) → Option String → Exec Database Bool
set_unknown key now error_summary evidence =
    set_where is_invoking (to_unknown now error_summary evidence) key

abbrev pub to_acknowledged :
    (flow_run : String)
    → Option String
    → (now : String) → ResearchRunSubmissionRecord
    → ResearchRunSubmissionRecord
to_acknowledged flow_run api_url now s = record s {
  state = acknowledged;
  prefect_flow_run_id = some flow_run;
  prefect_api_url = api_url;
  acknowledged_at = some now;
  updated_at = now;
  error_summary = none;
}

-- another row already has this Prefect identity
abbrev pub has_duplicate_prefect : Database → (key flow_run : String) → Bool
has_duplicate_prefect db key flow_run =
    any (λ s. (s.prefect_flow_run_id == some flow_run) && (s.idempotency_key != key)) db.submissions

unfoldable pub set_acknowledged :
    (key flow_run : String) → Option String → (now : String) → Exec Database Bool
set_acknowledged key flow_run api_url now db =
    if has_duplicate_prefect db key flow_run
      && is_updated submission_key key may_acknowledge db.submissions
    then (err sqlite_integrity, db)
    else set_where may_acknowledge (to_acknowledged flow_run api_url now) key db

abbrev pub to_failed_before :
    (now error_summary : String) → ResearchRunSubmissionRecord → ResearchRunSubmissionRecord
to_failed_before now error_summary s = record s {
  state = failed_before_submission;
  resolved_at = some now;
  updated_at = now;
  error_summary = some error_summary;
}

unfoldable pub set_failed_before_submission : (key now error_summary : String) → Exec Database Bool
set_failed_before_submission key now error_summary =
    set_where is_claimed (to_failed_before now error_summary) key

abbrev pub to_abandoned :
    (now error_summary evidence : String)
    → ResearchRunSubmissionRecord
    → ResearchRunSubmissionRecord
to_abandoned now error_summary evidence s = record s {
  state = abandoned;
  resolved_at = some now;
  updated_at = now;
  error_summary = some error_summary;
  resolution_evidence_reference = some evidence;
}

unfoldable pub set_abandoned : (key now error_summary evidence : String) → Exec Database Bool
set_abandoned key now error_summary evidence =
    set_where is_unknown (to_abandoned now error_summary evidence) key
