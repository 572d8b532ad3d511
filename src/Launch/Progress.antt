-- ===== src/Launch/Progress.antt =====
-- orchestration/research_launch_claims.py: what becomes of a submission row over a sequence of calls.
use quant_factory.Prelude.{
  ◌≡◌, ap, refl, ◌∙◌, ◌⊎◌, inl, inr, Bool, true, false, some, List, [], ◌∷◌, ◌++◌, String, arith,
  string_eq, ◌==◌, if◌then◌else◌, Bool-cases,
}
use quant_factory.Python.Json.{Codec}
use quant_factory.Persistence.{
  Database, ResearchSubmissionState, claimed, invoking, acknowledged, submission_unknown,
  failed_before_submission, abandoned, ResearchRunSubmissionRecord,
}
use quant_factory.Persistence.Tables.{update, apply_if, get-append}
use quant_factory.Persistence.Submissions.{
  submission_key, get_submission, is_claimed, is_invoking, is_unknown, may_acknowledge, to_invoking,
  to_unknown, to_acknowledged, to_failed_before, to_abandoned,
}
use quant_factory.Launch.{ResearchLaunchContract}
use quant_factory.Launch.Steps.{Commit, quiet, claims, dispatches, blurs, starts, fails, abandons}
use quant_factory.Launch.Coupling.{submissions_same, submission_after}
use quant_factory.Launch.Lifecycle.{Operation, perform, perform-Commit}
use quant_factory.Launch.Consistency.{perform_all}

-- What a claim fixes for good.
abbrev SameClaim : ResearchRunSubmissionRecord → ResearchRunSubmissionRecord → Type 0
SameClaim s t =
    (t.idempotency_key ≡ s.idempotency_key)
    × (t.run_id ≡ s.run_id)
    × (t.configuration_id ≡ s.configuration_id)
    × (t.canonical_request_json ≡ s.canonical_request_json)
    × (t.request_fingerprint ≡ s.request_fingerprint)
    × (t.claimed_at ≡ s.claimed_at)

-- The moves of a submission, one after another.
pub data Progress : ResearchSubmissionState → ResearchSubmissionState → Type 0 where
  stays : {a : ResearchSubmissionState} → Progress a a
  dispatch : {b : ResearchSubmissionState} → Progress invoking b → Progress claimed b
  fail : {b : ResearchSubmissionState} → Progress failed_before_submission b → Progress claimed b
  lose : {b : ResearchSubmissionState} → Progress submission_unknown b → Progress invoking b
  acknowledge : {b : ResearchSubmissionState} → Progress acknowledged b → Progress invoking b
  find_out : {b : ResearchSubmissionState} → Progress acknowledged b → Progress submission_unknown b
  give_up : {b : ResearchSubmissionState} → Progress abandoned b → Progress submission_unknown b

abbrev pub Advances : ResearchRunSubmissionRecord → ResearchRunSubmissionRecord → Type 0
Advances s t = SameClaim s t × Progress s.state t.state

-- An acknowledged, failed or abandoned submission.
abbrev is_settled : ResearchSubmissionState → Bool
is_settled acknowledged = true
is_settled failed_before_submission = true
is_settled abandoned = true
is_settled state = false

Progress-trans : {a b c : ResearchSubmissionState} → Progress a b → Progress b c → Progress a c
Progress-trans stays q = q
Progress-trans (dispatch p) q = dispatch (Progress-trans p q)
Progress-trans (fail p) q = fail (Progress-trans p q)
Progress-trans (lose p) q = lose (Progress-trans p q)
Progress-trans (acknowledge p) q = acknowledge (Progress-trans p q)
Progress-trans (find_out p) q = find_out (Progress-trans p q)
Progress-trans (give_up p) q = give_up (Progress-trans p q)

Advances-refl : (s : ResearchRunSubmissionRecord) → Advances s s
Advances-refl s = ((refl, refl, refl, refl, refl, refl), stays)

Advances-trans : (s t u : ResearchRunSubmissionRecord) → Advances s t → Advances t u → Advances s u
Advances-trans s t u ((a, b, c, d, e, f), p) ((a', b', c', d', e', f'), p') =
    ((a' ∙ a, b' ∙ b, c' ∙ c, d' ∙ d, e' ∙ e, f' ∙ f), Progress-trans p p')

claimed_state : (s : ResearchRunSubmissionRecord) → is_claimed s ≡ true → s.state ≡ claimed
claimed_state s was = ground arith

invoking_state : (s : ResearchRunSubmissionRecord) → is_invoking s ≡ true → s.state ≡ invoking
invoking_state s was = ground arith

unknown_state :
    (s : ResearchRunSubmissionRecord) → is_unknown s ≡ true → s.state ≡ submission_unknown
unknown_state s was = ground arith

open_state :
    (s : ResearchRunSubmissionRecord)
    → may_acknowledge s ≡ true
    → (s.state ≡ invoking) ⊎ (s.state ≡ submission_unknown)
open_state s was = ground arith

moves_on :
    (s t : ResearchRunSubmissionRecord) (a b : ResearchSubmissionState)
    → s.state ≡ a
    → t.state ≡ b
    → Progress a b
    → is_settled a ≡ false
    → SameClaim s t
    → Advances s t × (is_settled s.state ≡ false)
moves_on s t a b at_a at_b p unsettled same = ((same, rw (at_a, at_b) p), rw at_a unsettled)

-- A row that was there is there again, further on; a settled one is the same.
abbrev Survives : Database → Database → Type 0
Survives db db' =
    (j : String) (s : ResearchRunSubmissionRecord)
    → get_submission db j ≡ some s
    → (t : ResearchRunSubmissionRecord) × (get_submission db' j ≡ some t)
      × Advances s t
      × (is_settled s.state ≡ true → t ≡ s)

module _ (db db' : Database) where
  same_row :
      (j : String) (s : ResearchRunSubmissionRecord)
      → get_submission db' j ≡ some s
      → (t : ResearchRunSubmissionRecord) × (get_submission db' j ≡ some t)
        × Advances s t
        × (is_settled s.state ≡ true → t ≡ s)
  same_row j s e = (s, e, Advances-refl s, λ _. refl)

  update-Survives :
      (key : String) (q : ResearchRunSubmissionRecord → Bool)
      (f : ResearchRunSubmissionRecord → ResearchRunSubmissionRecord)
      → ((s : ResearchRunSubmissionRecord) → (f s).idempotency_key ≡ s.idempotency_key)
      → db'.submissions ≡ update submission_key key q f db.submissions
      → ((s : ResearchRunSubmissionRecord)
          → q s ≡ true
          → Advances s (f s) × (is_settled s.state ≡ false))
      → Survives db db'
  update-Survives key q f same e advance j s there = elim (Bool-cases (key == j)) [
    | inl hit ↦ elim (Bool-cases (q s)) [
      | inl passed ↦
          let (moves, unsettled) = advance s passed in
          (f s, ground (arith, seen), moves, λ settled. ground arith)
      | inr refused ↦ same_row j s (ground (arith, seen))
    ]
    | inr miss ↦ same_row j s (ground (arith, seen))
  ]
    where
      seen :
          get_submission db' j
          ≡ (if key == j then apply_if q f (get_submission db j) else get_submission db j)
      seen = submission_after db db' key q f same e j

  append-Survives :
      (s : ResearchRunSubmissionRecord)
      → db'.submissions ≡ db.submissions ++ s ∷ []
      → Survives db db'
  unfolding get_submission
  append-Survives s e j t there =
      same_row j t
        (unfold get_submission in ground (arith, e, get-append submission_key j s db.submissions))

  Commit-Survives : Commit db db' → Survives db db'
  Commit-Survives (quiet subs runs) = λ j s e. same_row j s (submissions_same db db' subs j ∙ e)
  Commit-Survives (claims s r fresh no_run free state run_of status subs runs) =
      append-Survives s subs
  Commit-Survives (dispatches key dispatcher now subs runs) =
      update-Survives key is_claimed (to_invoking dispatcher now) (λ _. refl) subs
        λ s was.
          moves_on s (to_invoking dispatcher now s) claimed invoking (claimed_state s was) refl
            (dispatch stays) refl (refl, refl, refl, refl, refl, refl)
  Commit-Survives (blurs key now summary evidence subs runs) =
      update-Survives key is_invoking (to_unknown now summary evidence) (λ _. refl) subs
        λ s was.
          moves_on s (to_unknown now summary evidence s) invoking submission_unknown
            (invoking_state s was) refl (lose stays) refl (refl, refl, refl, refl, refl, refl)
  Commit-Survives
        (starts key flow_run now later environment url s r found may got status subs runs) =
      update-Survives key may_acknowledge (to_acknowledged flow_run url now) (λ _. refl) subs
        λ t was. elim (open_state t was) [
          | inl e ↦
              moves_on t (to_acknowledged flow_run url now t) invoking acknowledged e refl
                (acknowledge stays) refl (refl, refl, refl, refl, refl, refl)
          | inr e ↦
              moves_on t (to_acknowledged flow_run url now t) submission_unknown acknowledged e refl
                (find_out stays) refl (refl, refl, refl, refl, refl, refl)
        ]
  Commit-Survives (fails key now later summary s r found was got status subs runs) =
      update-Survives key is_claimed (to_failed_before now summary) (λ _. refl) subs
        λ t was.
          moves_on t (to_failed_before now summary t) claimed failed_before_submission
            (claimed_state t was) refl (fail stays) refl (refl, refl, refl, refl, refl, refl)
  Commit-Survives (abandons key now later summary evidence s r found was got status subs runs) =
      update-Survives key is_unknown (to_abandoned now summary evidence) (λ _. refl) subs
        λ t was.
          moves_on t (to_abandoned now summary evidence t) submission_unknown abandoned
            (unknown_state t was) refl (give_up stays) refl (refl, refl, refl, refl, refl, refl)

module _ (codec : Codec) (contract : ResearchLaunchContract) where
  all-Survives :
      (ops : List Operation) (db : Database) → Survives db (perform_all codec contract ops db)
  unfolding perform_all
  all-Survives [] db j s e = (s, e, Advances-refl s, λ _. refl)
  all-Survives (op ∷ ops) db j s e =
      let (t, at_t, on, final) =
        Commit-Survives db (perform codec contract op db) (perform-Commit codec contract op db) j s
          e in
      let (u, at_u, on', final') = all-Survives ops (perform codec contract op db) j t at_t in
      (
        u,
        at_u,
        Advances-trans s t u on on',
        λ settled. let is_s = final settled in final' (rw is_s settled) ∙ is_s,
      )

  -- A submission is never lost and never becomes another: after any sequence of calls, returning or
  -- raising, its key still has a row, with the run, the configuration, the request, its fingerprint
  -- and the time of the claim as they were. Its state is the same or further along the moves from
  -- claimed to invoking or failed, from invoking to acknowledged or unknown, and from unknown to
  -- acknowledged or abandoned.
  pub perform_all-Advances :
      (ops : List Operation) (db : Database) (j : String) (s : ResearchRunSubmissionRecord)
      → get_submission db j ≡ some s
      → (t : ResearchRunSubmissionRecord) × (get_submission (perform_all codec contract ops db) j
          ≡ some t)
        × Advances s t
  perform_all-Advances ops db j s e =
      let (t, at_t, on, _) = all-Survives ops db j s e in (t, at_t, on)

  -- An acknowledged, failed or abandoned submission is final: after any sequence of calls, returning
  -- or raising, its key has the same row in every field.
  pub perform_all-settled :
      (ops : List Operation) (db : Database) (j : String) (s : ResearchRunSubmissionRecord)
      → get_submission db j ≡ some s
      → is_settled s.state ≡ true
      → get_submission (perform_all codec contract ops db) j ≡ some s
  perform_all-settled ops db j s e settled =
      let (t, at_t, _, same) = all-Survives ops db j s e in at_t ∙ ap some (same settled)
