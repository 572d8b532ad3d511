-- ===== src/Campaign/Samples.antt =====
-- Tests of the automatic campaign, and its theorem at one idea that is interrupted again and again.
use quant_factory.Python.Text.{is_empty}
use quant_factory.Campaign.Queueing.{
  queue_eligible, queue_unless, queue_packet, is_decided, queue_draft, queue_drafts, Pass, run_once,
}
use quant_factory.Campaign.Bounded.{
  restarts, run_campaign-IsBounded, step_campaign, passes_over, queues, run_campaign, CampaignStep,
}
use quant_factory.Campaign.Attempts.{IsBounded}
use quant_factory.Campaign.{
  latest_campaign_event, append_campaign_event, campaign_attempts, GatewayStore,
  campaign_attempts_since_requeue,
}
use quant_factory.Campaign.Records.{AutoTestOutcome, Neighbours, AutoTestRequest, IdeaDraft}
use quant_factory.Campaign.Passes.{
  requeue_all, requeue_after_restart, queue_idea, test_idea, run_queued,
}
use quant_factory.Campaign.Testing.{
  start_test, with_profile, with_start, with_owner, with_market, with_strategy, process,
}
use quant_factory.Prelude.{
  ◌≡◌, refl, false, none, some, List, [], ◌∷◌, String, arith, string_eq, ◌==◌,
}
use quant_factory.Python.{ok}

abbrev settled_outcome : AutoTestOutcome
settled_outcome = record {
  state = "survivor";
  reason_code = "passed";
  reason_detail = none;
  run_id = some "r1";
}

abbrev world : Neighbours String String String String String
world = record {
  digest = λ s. s;
  eligible_packet = λ s. some (s, none);
  rule_spec_reader = λ p. ok (some p);
  build_definition = λ d r p. ok r;
  strategy_id = λ d. ok d;
  packet_market = λ p. ok ("QQQ", "1m");
  earlier_owner = λ s c m t others. ok none;
  requested_start = λ p. ok "2020";
  dataset_profile = λ m t s. ok (some "p");
  executor = λ request. ok settled_outcome;
  safe_detail = λ s. s;
  message = λ e. "bad";
  failure_message = λ e. "failed";
  decimal = λ n. "3";
}

abbrev draft : IdeaDraft
draft = record {
  draft_id = "i1";
  title = "Idea";
  candidate_json = some "d1";
  configuration_id = none;
}

abbrev pass : Pass
pass = record { drafts = draft ∷ []; is_stopped = λ id. false; is_draining = λ id. false }

abbrev empty_store : GatewayStore
empty_store = record { events = []; paused = false }

abbrev requeue : CampaignStep
requeue = queues "i1" "requeued_by_agent" none (some "d1")

abbrev steps : List CampaignStep
steps =
    passes_over pass
    ∷ requeue
    ∷ passes_over pass
    ∷ requeue
    ∷ restarts
    ∷ passes_over pass
    ∷ requeue
    ∷ passes_over pass
    ∷ []

empty_store-IsBounded : IsBounded empty_store
unfolding campaign_attempts_since_requeue
empty_store-IsBounded candidate_id digest = omega arith

settles :
    (request : AutoTestRequest String String) (o : AutoTestOutcome)
    → world.executor request ≡ ok o
    → (o.state == "running") ≡ false
settles request o e = let same : o ≡ settled_outcome = ground arith in rw same refl

run_campaign-IsBounded_example : IsBounded (run_campaign world steps empty_store)
run_campaign-IsBounded_example =
    run_campaign-IsBounded world settles steps empty_store empty_store-IsBounded

-- The fourth pass over the same packet does not start it.
fourth_refused : campaign_attempts "i1" "d1" (run_campaign world steps empty_store) ≡ 3
unfolding campaign_attempts campaign_attempts_since_requeue run_campaign step_campaign run_once
    queue_drafts queue_draft queue_packet queue_unless queue_eligible is_empty is_decided run_queued
    test_idea process with_strategy with_market with_owner with_start with_profile start_test
    queue_idea append_campaign_event requeue_after_restart requeue_all latest_campaign_event
fourth_refused = refl
