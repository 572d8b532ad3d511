-- ===== src/Launch/Consistency.antt =====
-- orchestration/research_launch_claims.py: every operation keeps submissions and runs in agreement.
use text.Mathlib.TextEquality.{eq_iff}
use quant_factory.Prelude.{
  ◌≡◌, refl, ap, sym, ◌≢◌, ◌∙◌, ◌⊎◌, inl, inr, true, false, ◌||◌, none, some, List, [], ◌∷◌, ◌++◌,
  String, arith, string_eq, ◌==◌, if◌then◌else◌,
}
use quant_factory.Python.Json.{Codec}
use quant_factory.Persistence.{
  Database, claimed, created, running, failed, ExperimentRunRecord, ResearchRunSubmissionRecord,
}
use quant_factory.Persistence.Tables.{get-any, update-update, get-append, first_of_two}
use quant_factory.Persistence.Runs.{run_key, get_run, always, moved}
use quant_factory.Persistence.Submissions.{
  submission_key, get_submission, is_taken, is_claimed, is_invoking, is_unknown, may_acknowledge,
  to_invoking, to_unknown, to_acknowledged, to_failed_before, to_abandoned,
}
use quant_factory.Launch.{ResearchLaunchContract}
use quant_factory.Launch.Binding.{with_environment}
use quant_factory.Launch.Steps.{Commit, quiet, claims, dispatches, blurs, starts, fails, abandons}
use quant_factory.Launch.Coupling.{
  status_of, fits, IsConsistent, runs_same, submissions_same, quiet_runs-IsConsistent,
  moved_run-IsConsistent,
}
use quant_factory.Launch.Lifecycle.{Operation, perform, perform-Commit}

quiet-IsConsistent :
    (db db' : Database)
    → IsConsistent db
    → db'.submissions ≡ db.submissions
    → db'.runs ≡ db.runs
    → IsConsistent db'
quiet-IsConsistent db db' h subs runs = record {
  coupled = λ k s e.
      rw (runs_same db db' runs s.run_id)
        (h.coupled k s (sym (submissions_same db db' subs k) ∙ e));
  distinct = λ j k s t e e'.
      h.distinct j k s t (sym (submissions_same db db' subs j) ∙ e)
        (sym (submissions_same db db' subs k) ∙ e');
}

module _ (db db' : Database) (h : IsConsistent db) (s : ResearchRunSubmissionRecord)
    (r : ExperimentRunRecord) (fresh : get_submission db s.idempotency_key ≡ none)
    (no_run : get_run db r.run_id ≡ none) (free : is_taken db s.idempotency_key r.run_id ≡ false)
    (state : s.state ≡ claimed) (run_of : s.run_id ≡ r.run_id) (status : r.status ≡ created)
    (subs : db'.submissions ≡ db.submissions ++ s ∷ []) (runs : db'.runs ≡ db.runs ++ r ∷ []) where
  after_claim :
      (k : String) (t : ResearchRunSubmissionRecord)
      → get_submission db' k ≡ some t
      → (get_submission db k ≡ some t) ⊎ ((s.idempotency_key ≡ k) × (t ≡ s))
  unfolding get_submission
  after_claim k t e =
      ground (arith, subs, get-append submission_key k s db.submissions, eq_iff s.idempotency_key k)

  run_after_claim :
      (j : String)
      → get_run db' j ≡ first_of_two (get_run db j) (if r.run_id == j then some r else none)
  unfolding get_run
  run_after_claim j = rw runs (get-append run_key j r db.runs)

  other_run :
      (k : String) (t : ResearchRunSubmissionRecord)
      → get_submission db k ≡ some t
      → t.run_id ≢ s.run_id
  unfolding get_submission
  other_run k t e same = ground (
    arith,
    get-any submission_key k t
        (λ x. (x.idempotency_key == s.idempotency_key) || (x.run_id == r.run_id)) db.submissions e
        free,
    eq_iff t.run_id r.run_id,
  )

  claims-IsConsistent : IsConsistent db'
  claims-IsConsistent = record { coupled = coupled_after; distinct = distinct_after }
    where
      coupled_after :
          (k : String) (t : ResearchRunSubmissionRecord)
          → get_submission db' k ≡ some t
          → fits t.state (status_of db' t.run_id) ≡ true
      coupled_after k t e = elim (after_claim k t e) [
        | inl old ↦ ground (arith, h.coupled k t old, run_after_claim t.run_id)
        | inr (_, is_s) ↦ ground (arith, run_after_claim t.run_id, eq_iff r.run_id t.run_id)
      ]

      distinct_after :
          (j k : String) (t u : ResearchRunSubmissionRecord)
          → get_submission db' j ≡ some t
          → get_submission db' k ≡ some u
          → t.run_id ≡ u.run_id
          → j ≡ k
      distinct_after j k t u e e' same = go (after_claim j t e) (after_claim k u e')
        where
          go :
              (get_submission db j ≡ some t) ⊎ ((s.idempotency_key ≡ j) × (t ≡ s))
              → (get_submission db k ≡ some u) ⊎ ((s.idempotency_key ≡ k) × (u ≡ s))
              → j ≡ k
          go (inl old) (inl old') = h.distinct j k t u old old' same
          go (inl old) (inr (_, is_s)) =
              absurd
                (other_run j t old (same ∙ ap (λ (x : ResearchRunSubmissionRecord). x.run_id) is_s))
          go (inr (_, is_s)) (inl old') = absurd (
              other_run k u old'
                (sym same ∙ ap (λ (x : ResearchRunSubmissionRecord). x.run_id) is_s))
          go (inr (at_j, _)) (inr (at_k, _)) = sym at_j ∙ at_k

Commit-IsConsistent : (db db' : Database) → Commit db db' → IsConsistent db → IsConsistent db'
Commit-IsConsistent db db' (quiet subs runs) h = quiet-IsConsistent db db' h subs runs
Commit-IsConsistent db db' (claims s r fresh no_run free state run_of status subs runs) h =
    claims-IsConsistent db db' h s r fresh no_run free state run_of status subs runs
Commit-IsConsistent db db' (dispatches key dispatcher now subs runs) h =
    quiet_runs-IsConsistent db db' key is_claimed (to_invoking dispatcher now) (λ _. refl) subs h
      (λ _. refl) runs λ s o was ok_before. ground arith
Commit-IsConsistent db db' (blurs key now summary evidence subs runs) h =
    quiet_runs-IsConsistent db db' key is_invoking (to_unknown now summary evidence) (λ _. refl)
      subs h (λ _. refl) runs λ s o was ok_before. ground arith
Commit-IsConsistent db db'
      (starts key flow_run now later environment url s r found may got status subs runs) h =
    moved_run-IsConsistent db db' key may_acknowledge (to_acknowledged flow_run url now) (λ _. refl)
      subs h (λ _. refl) s r (λ x. moved later running none (with_environment environment x)) found
      may got (λ _. refl) refl
      (runs
        ∙ update-update run_key s.run_id always (λ _. refl) (moved later running none)
            (with_environment environment) db.runs (λ _. refl))
Commit-IsConsistent db db' (fails key now later summary s r found was got status subs runs) h =
    moved_run-IsConsistent db db' key is_claimed (to_failed_before now summary) (λ _. refl) subs h
      (λ _. refl) s r (moved later failed (some summary)) found was got (λ _. refl) refl runs
Commit-IsConsistent db db'
      (abandons key now later summary evidence s r found was got status subs runs) h =
    moved_run-IsConsistent db db' key is_unknown (to_abandoned now summary evidence) (λ _. refl)
      subs h (λ _. refl) s r (moved later failed (some summary)) found was got (λ _. refl) refl runs

module _ (codec : Codec) (contract : ResearchLaunchContract) where
  -- The calls of one process after another, in the order in which they hold the database.
  unfoldable pub perform_all : List Operation → Database → Database
  perform_all [] db = db
  perform_all (op ∷ ops) db = perform_all ops (perform codec contract op db)

  -- After any sequence of calls, returning or raising, from a database where submissions and runs
  -- agree they agree again: a submission that waits has a run that is created, an acknowledged one a run that
  -- has left that status, a resolved one a failed run, and no two submissions share a run.
  pub perform_all-IsConsistent :
      (ops : List Operation) (db : Database) → IsConsistent db → IsConsistent (perform_all ops db)
  unfolding perform_all
  perform_all-IsConsistent [] db h = h
  perform_all-IsConsistent (op ∷ ops) db h =
      perform_all-IsConsistent ops (perform codec contract op db) (
        Commit-IsConsistent db (perform codec contract op db) (perform-Commit codec contract op db)
          h)
