-- ===== src/Launch/Coupling.antt =====
-- orchestration/research_launch_claims.py: the state of a submission and the status of its run agree.
use text.Mathlib.TextEquality.{eq_iff}
use quant_factory.Prelude.{
  ◌≡◌, refl, ap, ◌∙◌, ◌⊎◌, inl, inr, Bool, true, false, Option, none, some, String, arith,
  string_eq, ◌==◌, if◌then◌else◌, Bool-cases,
}
use quant_factory.Persistence.{
  Database, ResearchSubmissionState, claimed, invoking, acknowledged, submission_unknown,
  failed_before_submission, abandoned, RunStatus, created, failed, ExperimentRunRecord,
  ResearchRunSubmissionRecord,
}
use quant_factory.Persistence.Tables.{update, apply_if, get-update}
use quant_factory.Persistence.Runs.{run_key, get_run, always}
use quant_factory.Persistence.Submissions.{submission_key, get_submission}

abbrev status_in : Option ExperimentRunRecord → Option RunStatus
status_in none = none
status_in (some r) = some r.status

abbrev pub status_of : Database → String → Option RunStatus
status_of db run_id = status_in (get_run db run_id)

-- Until its acknowledgement the run of a submission waits; an acknowledged one has been started; a
-- resolved one has failed.
abbrev pub fits : ResearchSubmissionState → Option RunStatus → Bool
fits state none = false
fits claimed (some created) = true
fits invoking (some created) = true
fits submission_unknown (some created) = true
fits acknowledged (some created) = false
fits acknowledged (some status) = true
fits failed_before_submission (some failed) = true
fits abandoned (some failed) = true
fits state (some status) = false

pub record IsConsistent (db : Database) : Type 0 where
  pub coupled :
      (k : String) (s : ResearchRunSubmissionRecord)
      → get_submission db k ≡ some s
      → fits s.state (status_of db s.run_id) ≡ true
  pub distinct :
      (j k : String) (s t : ResearchRunSubmissionRecord)
      → get_submission db j ≡ some s
      → get_submission db k ≡ some t
      → s.run_id ≡ t.run_id
      → j ≡ k

module _ (db db' : Database) where
  -- A guarded UPDATE, as a reader of the table sees it.
  pub submission_after :
      (key : String) (q : ResearchRunSubmissionRecord → Bool)
      (f : ResearchRunSubmissionRecord → ResearchRunSubmissionRecord)
      → ((s : ResearchRunSubmissionRecord) → (f s).idempotency_key ≡ s.idempotency_key)
      → db'.submissions ≡ update submission_key key q f db.submissions
      → (j : String)
      → get_submission db' j
        ≡ (if key == j then apply_if q f (get_submission db j) else get_submission db j)
  unfolding get_submission
  submission_after key q f same e j = rw e (get-update submission_key key j q f db.submissions same)

  run_after :
      (run_id : String) (f : ExperimentRunRecord → ExperimentRunRecord)
      → ((r : ExperimentRunRecord) → (f r).run_id ≡ r.run_id)
      → db'.runs ≡ update run_key run_id always f db.runs
      → (j : String)
      → get_run db' j ≡ (if run_id == j then apply_if always f (get_run db j) else get_run db j)
  unfolding get_run
  run_after run_id f same e j = rw e (get-update run_key run_id j always f db.runs same)

  pub runs_same : db'.runs ≡ db.runs → (j : String) → get_run db' j ≡ get_run db j
  unfolding get_run
  runs_same e j = rw e

  pub submissions_same :
      db'.submissions ≡ db.submissions → (j : String) → get_submission db' j ≡ get_submission db j
  unfolding get_submission
  submissions_same e j = rw e

-- A row after a guarded UPDATE: it was there before, with the same run, and it is the updated row or
-- as it was.
abbrev HasMoved :
    String
    → (ResearchRunSubmissionRecord → Bool)
    → (ResearchRunSubmissionRecord → ResearchRunSubmissionRecord)
    → String
    → ResearchRunSubmissionRecord
    → ResearchRunSubmissionRecord
    → Type 0
HasMoved key q f j s s' =
    ((key ≡ j) × (q s ≡ true) × (s' ≡ f s)) ⊎ ((s' ≡ s) × (key ≡ j → q s ≡ false))

module _ (db db' : Database) (key : String) (q : ResearchRunSubmissionRecord → Bool)
    (f : ResearchRunSubmissionRecord → ResearchRunSubmissionRecord)
    (same : (s : ResearchRunSubmissionRecord) → (f s).idempotency_key ≡ s.idempotency_key)
    (subs : db'.submissions ≡ update submission_key key q f db.submissions) where
  before_update :
      (j : String) (s' : ResearchRunSubmissionRecord)
      → get_submission db' j ≡ some s'
      → (s : ResearchRunSubmissionRecord) × (get_submission db j ≡ some s) × HasMoved key q f j s s'
  before_update j s' e = go (get_submission db j) refl (Bool-cases (key == j))
    where
      seen :
          get_submission db' j
          ≡ (if key == j then apply_if q f (get_submission db j) else get_submission db j)
      seen = submission_after db db' key q f same subs j

      go :
          (o : Option ResearchRunSubmissionRecord)
          → get_submission db j ≡ o
          → ((key == j) ≡ true) ⊎ ((key == j) ≡ false)
          → (s : ResearchRunSubmissionRecord) × (get_submission db j ≡ some s)
            × HasMoved key q f j s s'
      go none none_there c = ground (arith, seen)
      go (some s) there (inl hit) = elim (Bool-cases (q s)) [
        | inl passed ↦ (s, there, inl ((eq_iff key j).0 hit, passed, ground (arith, seen)))
        | inr refused ↦ (s, there, inr (ground (arith, seen), λ _. refused))
      ]
      go (some s) there (inr miss) =
          (s, there, inr (ground (arith, seen), λ e2. absurd (differ e2)))
        where
          differ : key ≡ j → ⊥
          differ e2 = ground (arith, eq_iff key j)

  module _ (h : IsConsistent db)
      (run_same : (s : ResearchRunSubmissionRecord) → (f s).run_id ≡ s.run_id) where
    run_id_kept :
        (j : String) (s s' : ResearchRunSubmissionRecord)
        → HasMoved key q f j s s'
        → s'.run_id ≡ s.run_id
    run_id_kept j s s' (inl (_, _, e)) =
        ap (λ (x : ResearchRunSubmissionRecord). x.run_id) e ∙ run_same s
    run_id_kept j s s' (inr (e, _)) = ap (λ (x : ResearchRunSubmissionRecord). x.run_id) e

    still_distinct :
        (j k : String) (s t : ResearchRunSubmissionRecord)
        → get_submission db' j ≡ some s
        → get_submission db' k ≡ some t
        → s.run_id ≡ t.run_id
        → j ≡ k
    still_distinct j k s' t' e e' same_run =
        let (s, at_j, move) = before_update j s' e in
        let (t, at_k, move') = before_update k t' e' in
        h.distinct j k s t at_j at_k (cc (run_id_kept j s s' move, run_id_kept k t t' move'))

    -- The runs stay as they are, and the new state allows every status that the old one did.
    pub quiet_runs-IsConsistent :
        db'.runs ≡ db.runs
        → ((s : ResearchRunSubmissionRecord) (o : Option RunStatus)
            → q s ≡ true
            → fits s.state o ≡ true
            → fits (f s).state o ≡ true)
        → IsConsistent db'
    quiet_runs-IsConsistent runs allows = record {
      distinct = still_distinct;
      coupled = λ k s' e.
          let (s, at_k, move) = before_update k s' e in
          go k s s' (h.coupled k s at_k) (run_id_kept k s s' move) move;
    }
      where
        go :
            (k : String) (s s' : ResearchRunSubmissionRecord)
            → fits s.state (status_of db s.run_id) ≡ true
            → s'.run_id ≡ s.run_id
            → HasMoved key q f k s s'
            → fits s'.state (status_of db' s'.run_id) ≡ true
        go k s s' ok_before run_id (inl (_, passed, e)) =
            rw (run_id, runs_same db db' runs s.run_id)
              (rw e (allows s (status_of db s.run_id) passed ok_before))
        go k s s' ok_before run_id (inr (e, _)) =
            rw (run_id, runs_same db db' runs s.run_id) (rw e ok_before)

    -- The run of the moved submission changes with it.
    pub moved_run-IsConsistent :
        (s0 : ResearchRunSubmissionRecord) (r0 : ExperimentRunRecord)
        (g : ExperimentRunRecord → ExperimentRunRecord)
        → get_submission db key ≡ some s0
        → q s0 ≡ true
        → get_run db s0.run_id ≡ some r0
        → ((r : ExperimentRunRecord) → (g r).run_id ≡ r.run_id)
        → fits (f s0).state (some (g r0).status) ≡ true
        → db'.runs ≡ update run_key s0.run_id always g db.runs
        → IsConsistent db'
    moved_run-IsConsistent s0 r0 g at_key passed got g_same new_fits runs = record {
      distinct = still_distinct;
      coupled = λ k s' e.
          let (s, at_k, move) = before_update k s' e in
          go k s s' at_k (h.coupled k s at_k) (run_id_kept k s s' move) move
            (run_after db db' s0.run_id g g_same runs s'.run_id);
    }
      where
        go :
            (k : String) (s s' : ResearchRunSubmissionRecord)
            → get_submission db k ≡ some s
            → fits s.state (status_of db s.run_id) ≡ true
            → s'.run_id ≡ s.run_id
            → HasMoved key q f k s s'
            → get_run db' s'.run_id ≡ (
                if s0.run_id == s'.run_id
                then apply_if always g (get_run db s'.run_id)
                else get_run db s'.run_id)
            → fits s'.state (status_of db' s'.run_id) ≡ true
        go k s s' at_k ok_before run_id (inl (here, _, e)) after =
            ground (arith, is_s0, eq_iff s0.run_id s'.run_id)
          where
            is_s0 : s ≡ s0
            is_s0 = ground arith
        go k s s' at_k ok_before run_id (inr (e, stays)) after =
            elim (Bool-cases (s0.run_id == s'.run_id)) [
              | inl same_run ↦ absurd (clash (met ((eq_iff s0.run_id s'.run_id).0 same_run)))
              | inr other ↦ ground arith
            ]
          where
            met : s0.run_id ≡ s'.run_id → key ≡ k
            met e2 = h.distinct key k s0 s at_key at_k (e2 ∙ run_id)

            clash : key ≡ k → ⊥
            clash e2 = ground (arith, stays e2)
