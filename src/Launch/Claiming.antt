-- ===== src/Launch/Claiming.antt =====
-- orchestration/research_launch_claims.py, `claim`: what a claim answers, and what a repeated one does.
use quant_factory.Prelude.{
  ◌≡◌, ◌⊎◌, inl, inr, true, false, none, some, List, String, arith, string_eq,
}
use text.Mathlib.TextEquality.{eq_iff}
use quant_factory.Python.{ok}
use quant_factory.Python.Json.{Json, Codec}
use quant_factory.Persistence.{Database, ResearchRunSubmissionRecord}
use quant_factory.Persistence.Tables.{get-append}
use quant_factory.Persistence.Submissions.{submission_key, get_submission}
use quant_factory.Launch.{ResearchLaunchContract, ResearchLaunchRequest, ResearchLaunchClaim, Call}
use quant_factory.Launch.Requests.{validate_launch_key, validate_launch_key_same}
use quant_factory.Launch.Operations.{claim, claim_body}
use quant_factory.Launch.Effects.{claim_body_effect}
use quant_factory.Launch.Steps.{lift-eq-ok, immediate-eq-ok}
use quant_factory.Launch.Lifecycle.{Operation}
use quant_factory.Launch.Consistency.{perform_all}
use quant_factory.Launch.Progress.{Advances, perform_all-Advances}

module _ (codec : Codec) (contract : ResearchLaunchContract) where
  -- What an answered claim leaves: its submission under the key, made now where no row had the key, or read
  -- from an unchanged database.
  abbrev IsClaimed : (key : String) → Database → ResearchLaunchClaim → Database → Type 0
  IsClaimed key db c db' =
      (get_submission db' key ≡ some c.submission)
      × (((db' ≡ db) × (c.is_created ≡ false))
          ⊎ ((get_submission db key ≡ none) × (c.is_created ≡ true)))

  module _ (call : Call) (db : Database) where
    claim_body-IsClaimed :
        (key : String) (request : ResearchLaunchRequest) (environment : Json)
        (c : ResearchLaunchClaim) (db' : Database)
        → claim_body codec contract call key request environment db ≡ (ok c, db')
        → IsClaimed key db c db'
    unfolding get_submission
    claim_body-IsClaimed key request environment c db' h = ground (
      arith,
      claim_body_effect codec contract call key db db' request environment c h,
      get-append submission_key key c.submission db.submissions,
      eq_iff c.submission.idempotency_key key,
    )

    pub claim-IsClaimed :
        (key : String) (request : ResearchLaunchRequest) (environment : Json)
        (c : ResearchLaunchClaim) (db' : Database)
        → claim codec contract call key request environment db ≡ (ok c, db')
        → IsClaimed key db c db'
    unfolding claim
    claim-IsClaimed key request environment c db' h =
        let (k, valid, h1) = lift-eq-ok db db' (validate_launch_key key) _ c h in
        let h2 =
          immediate-eq-ok db db' call (claim_body codec contract call k request environment) c h1 in
        rw (← validate_launch_key_same key k valid)
          (claim_body-IsClaimed k request environment c db' h2)

  -- A claim that has answered stays answered: after any further calls, returning or raising, a claim
  -- for the same key that answers creates nothing and leaves the database as it is, and its submission has the run, the
  -- configuration, the request, the fingerprint and the time of the first answer, in a state that follows it.
  pub claim_again :
      (call later : Call) (key : String) (request request' : ResearchLaunchRequest)
      (environment environment' : Json) (db db1 db2 : Database) (ops : List Operation)
      (c c' : ResearchLaunchClaim)
      → claim codec contract call key request environment db ≡ (ok c, db1)
      → claim codec contract later key request' environment' (perform_all codec contract ops db1)
        ≡ (ok c', db2)
      → (c'.is_created ≡ false)
        × (db2 ≡ perform_all codec contract ops db1)
        × Advances c.submission c'.submission
  claim_again call later key request request' environment environment' db db1 db2 ops c c' h h' =
      let (at_c, _) = claim-IsClaimed call db key request environment c db1 h in
      let (t, at_t, on) = perform_all-Advances codec contract ops db1 key c.submission at_c in
      let (at_c', how) =
        claim-IsClaimed later (perform_all codec contract ops db1) key request' environment' c' db2
          h' in
      go t at_t on at_c' how
    where
      go :
          (t : ResearchRunSubmissionRecord)
          → get_submission (perform_all codec contract ops db1) key ≡ some t
          → Advances c.submission t
          → get_submission db2 key ≡ some c'.submission
          → ((db2 ≡ perform_all codec contract ops db1) × (c'.is_created ≡ false))
            ⊎ ((get_submission (perform_all codec contract ops db1) key ≡ none)
                × (c'.is_created ≡ true))
          → (c'.is_created ≡ false)
            × (db2 ≡ perform_all codec contract ops db1)
            × Advances c.submission c'.submission
      go t at_t on at_c' (inl (same, replayed)) = (replayed, same, rw (← is_t) on)
        where
          is_t : t ≡ c'.submission
          is_t = ground arith
      go t at_t on at_c' (inr (missing, _)) = absurd cc
