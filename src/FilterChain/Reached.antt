-- ===== src/FilterChain/Reached.antt =====
-- orchestration/filter_chain.py, `_run`: the stages that a chain has passed, each on its evidence.
use quant_factory.Python.Text.{strip, is_empty}
use quant_factory.Launch.Steps.{lift-eq-ok}
use quant_factory.Python.Raising.{>>=-eq-ok}
use quant_factory.Prelude.{
  if◌then◌else◌, not, ℕ, sym, ◌≡◌, refl, ap, ◌∙◌, Bool, true, false, Option, none, List, [], ◌∷◌,
  ◌++◌, String, string_eq, ◌==◌, nat_eq, nat_beq_iff,
}
use text.Mathlib.TextEquality.{eq_iff}
use quant_factory.Python.{ok, value_error, raise_unless}
use quant_factory.Python.Exec.{pure-same, bind-eq-ok}
use quant_factory.Python.Json.{Codec}
use quant_factory.Persistence.{stage_number, RunStage, Database, is_stage}
use quant_factory.FilterChain.{
  Exn, validation_stage_order, previous_run_id, handoff_run_id, SourceLock, PersistedStageReference,
  FilterStageHandoff, Surroundings,
}
use quant_factory.FilterChain.Reserving.{stage_reference}
use quant_factory.FilterChain.Checking.{validate_persisted_reference}
use quant_factory.FilterChain.Handoffs.{read_handoff}
use quant_factory.FilterChain.Evidence.{IsFounded, read_handoff-IsFounded}
use quant_factory.FilterChain.Running.{
  Adapters, StageResult, context_of, later_lock, obtain_reference, run_stage,
}

-- the references of the stages that have been completed
abbrev pub references_of : List FilterStageHandoff → List PersistedStageReference
references_of [] = []
references_of (h ∷ hs) = stage_reference h.stage h.run_id ∷ references_of hs

abbrev pub stages_of : List FilterStageHandoff → List RunStage
stages_of [] = []
stages_of (h ∷ hs) = h.stage ∷ stages_of hs

stages-append :
    (hs : List FilterStageHandoff) (h : FilterStageHandoff) (rest : List RunStage)
    → stages_of (hs ++ h ∷ []) ++ rest ≡ stages_of hs ++ h.stage ∷ rest
stages-append [] h rest = refl
stages-append (g ∷ hs) h rest = ap (λ (x : List RunStage). g.stage ∷ x) (stages-append hs h rest)

pub references-append :
    (hs : List FilterStageHandoff) (h : FilterStageHandoff)
    → references_of (hs ++ h ∷ []) ≡ references_of hs ++ stage_reference h.stage h.run_id ∷ []
references-append [] h = refl
references-append (g ∷ hs) h =
    ap (λ (x : List PersistedStageReference). stage_reference g.stage g.run_id ∷ x)
      (references-append hs h)

stage_of : ℕ → RunStage
stage_of n =
    if n == 0
    then RunStage.fixture
    else if n == 1
    then RunStage.screening
    else if n == 2
    then RunStage.oos
    else if n == 3
    then RunStage.walk_forward
    else if n == 4
    then RunStage.robustness
    else RunStage.monte_carlo

stage_of-stage_number : (a : RunStage) → stage_of (stage_number a) ≡ a
unfolding stage_of
stage_of-stage_number RunStage.fixture = refl
stage_of-stage_number RunStage.screening = refl
stage_of-stage_number RunStage.oos = refl
stage_of-stage_number RunStage.walk_forward = refl
stage_of-stage_number RunStage.robustness = refl
stage_of-stage_number RunStage.monte_carlo = refl

is_stage-eq : (a b : RunStage) → is_stage a b ≡ true → a ≡ b
is_stage-eq a b h =
    sym (stage_of-stage_number a)
    ∙ ap stage_of ((nat_beq_iff (stage_number a) (stage_number b)).0 h)
    ∙ stage_of-stage_number b

raise_unless-ok : (b : Bool) (e : Exn) → raise_unless b e ≡ ok tt → b ≡ true
raise_unless-ok true e h = refl
raise_unless-ok false e h = absurd (cc h)

-- A reference that has been validated names the stage and the run that were expected.
validated-reference :
    (codec : Codec) (screening_run_id : String) (stage : RunStage) (source run_id : String)
    (reference : PersistedStageReference) (db : Database)
    → validate_persisted_reference codec screening_run_id stage source run_id reference db ≡ ok tt
    → reference ≡ stage_reference stage run_id
unfolding validate_persisted_reference
validated-reference codec screening_run_id stage source run_id reference db h =
    let (_, staged, h1) =
      >>=-eq-ok (raise_unless (is_stage reference.stage stage) value_error) _ h in
    let (_, _, h2) =
      >>=-eq-ok (raise_unless (not (is_empty (strip reference.run_id))) value_error) _ h1 in
    let (_, named, _) = >>=-eq-ok (raise_unless (reference.run_id == run_id) value_error) _ h2 in
    let same_stage = is_stage-eq reference.stage stage (raise_unless-ok _ value_error staged) in
    let same_run = (eq_iff reference.run_id run_id).0 (raise_unless-ok _ value_error named) in
    λ i. record { stage = same_stage i; run_id = same_run i }

module _ (codec : Codec) (world : Surroundings) (adapters : Option Adapters)
    (screening_run_id : String) where
  abbrev pub last_run : List FilterStageHandoff → String
  last_run hs = previous_run_id screening_run_id (references_of hs)

  abbrev pub run_for : List FilterStageHandoff → RunStage → String
  run_for hs stage = handoff_run_id codec screening_run_id (last_run hs) stage

  -- One stage after others: its run is the one of the stage and of the run before it, is obtained
  -- and then found to be that run, succeeded, and the handoff says what the evidence then says.
  pub record Taken (hs : List FilterStageHandoff) (stage : RunStage) (h : FilterStageHandoff)
      (lock : Option SourceLock) (db db' : Database) : Type 0 where
    pub obtained :
        obtain_reference codec world adapters
          (context_of codec world screening_run_id (references_of hs) stage)
          (last_run hs)
          db
        ≡ (ok (stage_reference stage (run_for hs stage)), db')
    pub validated :
        validate_persisted_reference codec screening_run_id stage
          (last_run hs)
          (run_for hs stage)
          (stage_reference stage (run_for hs stage))
          db'
        ≡ ok tt
    pub founded : IsFounded world stage (run_for hs stage) (h, lock) db'

  -- The stages to come, the handoffs so far, which may all pass on, the lock and the database.
  pub data Reached (start : Database)
      : List RunStage → List FilterStageHandoff → Option SourceLock → Database → Type 0 where
    begin : Reached start validation_stage_order [] none start
    pass :
        {stage : RunStage} {stages : List RunStage} {hs : List FilterStageHandoff}
        {lock read : Option SourceLock} {db db' : Database} {h : FilterStageHandoff}
        → Reached start (stage ∷ stages) hs lock db
        → Taken hs stage h read db db'
        → h.eligible_to_progress ≡ true
        → Reached start stages (hs ++ h ∷ []) (later_lock lock read) db'

  taken_lem :
      (hs : List FilterStageHandoff) (stage : RunStage) (reference : PersistedStageReference)
      (read : FilterStageHandoff × Option SourceLock) (db db' : Database)
      → obtain_reference codec world adapters
          (context_of codec world screening_run_id (references_of hs) stage)
          (last_run hs)
          db
        ≡ (ok reference, db')
      → validate_persisted_reference codec screening_run_id stage
          (last_run hs)
          (run_for hs stage)
          reference
          db'
        ≡ ok tt
      → reference ≡ stage_reference stage (run_for hs stage)
      → read_handoff codec world stage reference.run_id db' ≡ ok read
      → Taken hs stage read.0 read.1 db db'
  taken_lem hs stage reference read db db' obtained validated same found = record {
    obtained = rw same at obtained;
    validated = rw same at validated;
    founded =
        read_handoff-IsFounded codec world stage (run_for hs stage) db' read (rw same at found);
  }

  StepOf : List FilterStageHandoff → RunStage → (db db' : Database) → StageResult → Type 0
  StepOf hs stage db db' result =
      (result.reference ≡ stage_reference stage (run_for hs stage))
      × Taken hs stage result.handoff result.lock db db'

  pub run_stage-Taken :
      (hs : List FilterStageHandoff) (stage : RunStage) (db db' : Database) (result : StageResult)
      → run_stage codec world adapters screening_run_id (references_of hs) stage db
        ≡ (ok result, db')
      → (result.reference ≡ stage_reference stage (run_for hs stage))
        × Taken hs stage result.handoff result.lock db db'
  unfolding run_stage StepOf
  run_stage-Taken hs stage db db' result h =
      let context = context_of codec world screening_run_id (references_of hs) stage in
      let (reference, db1, obtained, h1) =
        bind-eq-ok (obtain_reference codec world adapters context (last_run hs)) _ db h in
      let (_, validated, h2) =
        lift-eq-ok db1 db'
          (validate_persisted_reference codec screening_run_id stage (last_run hs) context.run_id
            reference db1)
          _ result h1 in
      let (read, found, h3) =
        lift-eq-ok db1 db' (read_handoff codec world stage reference.run_id db1) _ result h2 in
      let same =
        validated-reference codec screening_run_id stage (last_run hs) (run_for hs stage) reference
          db1 validated in
      let taken = taken_lem hs stage reference read db db1 obtained validated same found in
      let made = pure-same h3 in coe 0 1 (i. StepOf hs stage db (made.1 i) (made.0 i)) (same, taken)

  -- The stages passed and those to come are the whole order.
  pub Reached-order :
      {start : Database} {stages : List RunStage} {hs : List FilterStageHandoff}
      {lock : Option SourceLock} {db : Database}
      → Reached start stages hs lock db
      → stages_of hs ++ stages ≡ validation_stage_order
  Reached-order begin = refl
  Reached-order (pass {stage} {stages} {hs} {h} before taken eligible) =
      stages-append hs h stages
      ∙ ap (λ (x : RunStage). stages_of hs ++ x ∷ stages) taken.founded.0
      ∙ Reached-order before
