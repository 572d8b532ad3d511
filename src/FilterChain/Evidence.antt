-- ===== src/FilterChain/Evidence.antt =====
-- orchestration/filter_chain.py, `_run`: what the evidence of a stage says of its handoff.
use quant_factory.Python.Raising.{ok-injective}
use text.Mathlib.TextEquality.{eq_iff}
use quant_factory.Prelude.{
  ◌≡◌, refl, ◌↔◌, ◌⊎◌, inl, inr, true, false, Option, none, some, List, [], ◌∷◌, String, arith,
  string_eq, Bool-cases,
}
use quant_factory.Python.{Exn, Result, ok, err}
use quant_factory.Python.Json.{Codec}
use quant_factory.Persistence.{RunStage, Database}
use quant_factory.FilterChain.{
  undecided_folds, is_same_reasons, stage_may_progress, StageOutcome, SourceLock,
  FilterStageHandoff, Surroundings,
}
use quant_factory.FilterChain.Handoffs.{is_caught, oos_handoff, scored_handoff, read_handoff}

-- The outcomes that let a stage pass on: a passed one; a failed one of the scored stages, which only
-- rank; and evidence that is insufficient, of the last stage or for lack of a decision on the folds.
abbrev pub MayProgress : RunStage → StageOutcome → Type 0
MayProgress RunStage.walk_forward o =
    (o.status ≡ "passed")
    ⊎ (o.status ≡ "failed")
    ⊎ ((o.status ≡ "insufficient_evidence") × (o.reasons ≡ undecided_folds))
MayProgress RunStage.robustness o = (o.status ≡ "passed") ⊎ (o.status ≡ "failed")
MayProgress RunStage.monte_carlo o =
    (o.status ≡ "passed") ⊎ (o.status ≡ "failed") ⊎ (o.status ≡ "insufficient_evidence")
MayProgress _ o = o.status ≡ "passed"

is_same_reasons_iff : (a b : List String) → (is_same_reasons a b ≡ true) ↔ (a ≡ b)
is_same_reasons_iff [] [] = (λ _. refl, λ _. refl)
is_same_reasons_iff [] (y ∷ b) = (λ h. absurd (cc h), λ h. absurd (cc h))
is_same_reasons_iff (x ∷ a) [] = (λ h. absurd (cc h), λ h. absurd (cc h))
is_same_reasons_iff (x ∷ a) (y ∷ b) = ground (arith, eq_iff x y, is_same_reasons_iff a b)

stage_may_progress_iff :
    (stage : RunStage) (o : StageOutcome)
    → (stage_may_progress stage o ≡ true) ↔ MayProgress stage o
unfolding stage_may_progress
stage_may_progress_iff RunStage.walk_forward o = ground (
  arith,
  eq_iff o.status "passed",
  eq_iff o.status "failed",
  eq_iff o.status "insufficient_evidence",
  is_same_reasons_iff o.reasons undecided_folds,
)
stage_may_progress_iff RunStage.robustness o =
    ground (arith, eq_iff o.status "passed", eq_iff o.status "failed")
stage_may_progress_iff RunStage.monte_carlo o = ground (
  arith,
  eq_iff o.status "passed",
  eq_iff o.status "failed",
  eq_iff o.status "insufficient_evidence",
)
stage_may_progress_iff RunStage.oos o = ground (arith, eq_iff o.status "passed")
stage_may_progress_iff RunStage.screening o = ground (arith, eq_iff o.status "passed")
stage_may_progress_iff RunStage.fixture o = ground (arith, eq_iff o.status "passed")

module _ (world : Surroundings) where
  -- The lock of the source was read for the run, and the handoff and the chain keep what it says.
  pub record IsLocked (run_id : String) (h : FilterStageHandoff) (kept : Option SourceLock)
      (db : Database) : Type 0 where
    pub read : SourceLock
    pub was_read : world.source_lock run_id db ≡ ok read
    pub is_kept : kept ≡ some read
    pub status_read : h.status ≡ read.status
    pub identity_read : h.evidence_identity ≡ some read.artifact_id
    pub reasons_read : h.reasons ≡ read.reasons
    pub progress_read : (h.eligible_to_progress ≡ true) ↔ (read.status ≡ "passed")

  -- The lock of the source could not be read, and the stage may not pass on.
  pub record IsUnreadable (run_id : String) (h : FilterStageHandoff) (kept : Option SourceLock)
      (db : Database) : Type 0 where
    pub raised : Exn
    pub was_raised : world.source_lock run_id db ≡ err raised
    pub nothing_kept : kept ≡ none
    pub is_invalid : h.status ≡ "invalid"
    pub no_progress : h.eligible_to_progress ≡ false

  -- The outcome of the stage was read for the run, and the handoff keeps what it says.
  pub record IsScored (stage : RunStage) (run_id : String) (h : FilterStageHandoff)
      (kept : Option SourceLock) (db : Database) : Type 0 where
    pub read : StageOutcome
    pub was_read : world.stage_outcome run_id db ≡ ok read
    pub nothing_kept : kept ≡ none
    pub status_read : h.status ≡ read.status
    pub identity_read : h.evidence_identity ≡ read.evidence_identity
    pub reasons_read : h.reasons ≡ read.reasons
    pub progress_read : (h.eligible_to_progress ≡ true) ↔ MayProgress stage read

  -- What the evidence service answers in this database for the run of the stage.
  abbrev pub Says :
      RunStage → (run_id : String) → FilterStageHandoff × Option SourceLock → Database → Type 0
  Says RunStage.oos run_id p db = IsLocked run_id p.0 p.1 db ⊎ IsUnreadable run_id p.0 p.1 db
  Says stage run_id p db = IsScored stage run_id p.0 p.1 db

  -- The handoff names the stage and the run, and says what the evidence says.
  abbrev pub IsFounded :
      RunStage → (run_id : String) → FilterStageHandoff × Option SourceLock → Database → Type 0
  IsFounded stage run_id p db = (p.0.stage ≡ stage) × (p.0.run_id ≡ run_id) × Says stage run_id p db

module _ (codec : Codec) (world : Surroundings) where
  oos_handoff-IsFounded :
      (run_id : String) (db : Database) (r : Result SourceLock)
      (p : FilterStageHandoff × Option SourceLock)
      → world.source_lock run_id db ≡ r
      → oos_handoff codec world RunStage.oos run_id r ≡ ok p
      → IsFounded world RunStage.oos run_id p db
  unfolding oos_handoff
  oos_handoff-IsFounded run_id db (ok lock) p was h = rw (← ok-injective h) (
    refl,
    refl,
    inl (record {
      read = lock;
      was_read = was;
      is_kept = refl;
      status_read = refl;
      identity_read = refl;
      reasons_read = refl;
      progress_read = eq_iff lock.status "passed";
    }),
  )
  oos_handoff-IsFounded run_id db (err e) p was h = elim (Bool-cases (is_caught e)) [
    | inl caught ↦ rw (← ok-injective (rw (caught, oos_handoff) at h)) (
      refl,
      refl,
      inr (record {
        raised = e;
        was_raised = was;
        nothing_kept = refl;
        is_invalid = refl;
        no_progress = refl;
      }),
    )
    | inr leaves ↦ absurd (cc (rw (leaves, oos_handoff) at h))
  ]

  scored_handoff-IsScored :
      (stage : RunStage) (run_id : String) (db : Database) (r : Result StageOutcome)
      (p : FilterStageHandoff × Option SourceLock)
      → world.stage_outcome run_id db ≡ r
      → scored_handoff codec world stage run_id r ≡ ok p
      → (p.0.stage ≡ stage) × (p.0.run_id ≡ run_id) × IsScored world stage run_id p.0 p.1 db
  unfolding scored_handoff
  scored_handoff-IsScored stage run_id db (ok outcome) p was h = rw (← ok-injective h) (
    refl,
    refl,
    record {
      read = outcome;
      was_read = was;
      nothing_kept = refl;
      status_read = refl;
      identity_read = refl;
      reasons_read = refl;
      progress_read = stage_may_progress_iff stage outcome;
    },
  )
  scored_handoff-IsScored stage run_id db (err e) p was h = absurd (cc h)

  pub read_handoff-IsFounded :
      (stage : RunStage) (run_id : String) (db : Database)
      (p : FilterStageHandoff × Option SourceLock)
      → read_handoff codec world stage run_id db ≡ ok p
      → IsFounded world stage run_id p db
  unfolding read_handoff
  read_handoff-IsFounded RunStage.oos run_id db p h =
      oos_handoff-IsFounded run_id db (world.source_lock run_id db) p refl h
  read_handoff-IsFounded RunStage.walk_forward run_id db p h =
      scored_handoff-IsScored RunStage.walk_forward run_id db (world.stage_outcome run_id db) p refl
        h
  read_handoff-IsFounded RunStage.robustness run_id db p h =
      scored_handoff-IsScored RunStage.robustness run_id db (world.stage_outcome run_id db) p refl h
  read_handoff-IsFounded RunStage.monte_carlo run_id db p h =
      scored_handoff-IsScored RunStage.monte_carlo run_id db (world.stage_outcome run_id db) p refl
        h
  read_handoff-IsFounded RunStage.screening run_id db p h =
      scored_handoff-IsScored RunStage.screening run_id db (world.stage_outcome run_id db) p refl h
  read_handoff-IsFounded RunStage.fixture run_id db p h =
      scored_handoff-IsScored RunStage.fixture run_id db (world.stage_outcome run_id db) p refl h
