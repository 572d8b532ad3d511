-- ===== src/Campaign/Bounded.antt =====
-- agent_gateway/auto_campaign.py: the bound on starts over passes, restarts and requeues.
use quant_factory.Campaign.Queueing.{
  is_waiting, is_skipped, filled, queue_eligible, queue_unless, queue_packet, queue_drafts,
  queue_draft, Pass, run_once,
}
use quant_factory.Campaign.Attempts.{run_queued-IsBounded, append-IsBounded, IsBounded}
use quant_factory.Campaign.{latest_campaign_event, CampaignEvent, GatewayStore}
use quant_factory.Campaign.Records.{IdeaDraft, AutoTestOutcome, AutoTestRequest, Neighbours}
use quant_factory.Campaign.Passes.{open_candidates, requeue_after_restart, queue_idea, requeue_all}
use quant_factory.Prelude.{
  ◌≡◌, refl, Bool, true, false, Option, none, some, List, [], ◌∷◌, String, string_eq, ◌==◌,
}
use quant_factory.Python.{ok}

-- What happens to the log: a pass over the drafts, a restart of the process, or an idea queued.
pub data CampaignStep : Type 0 where
  passes_over : Pass → CampaignStep
  restarts : CampaignStep
  queues : (candidate_id code : String) (detail packet_sha256 : Option String) → CampaignStep

module _ {Packet Rules Definition Start Profile : Type 0}
    (world : Neighbours Packet Rules Definition Start Profile) where
  unfoldable pub step_campaign : CampaignStep → GatewayStore → GatewayStore
  step_campaign (passes_over pass) store = (run_once world pass store).1
  step_campaign restarts store = requeue_after_restart store
  step_campaign (queues candidate_id code detail packet_sha256) store =
      queue_idea candidate_id code detail packet_sha256 store

  unfoldable pub run_campaign : List (CampaignStep) → GatewayStore → GatewayStore
  run_campaign [] store = store
  run_campaign (s ∷ steps) store = run_campaign steps (step_campaign s store)

queue_idea-IsBounded :
    (candidate_id code : String) (detail packet_sha256 : Option String) (store : GatewayStore)
    → IsBounded store
    → IsBounded (queue_idea candidate_id code detail packet_sha256 store)
unfolding queue_idea
queue_idea-IsBounded candidate_id code detail packet_sha256 store h =
    append-IsBounded
      (record {
        candidate_id = candidate_id;
        state = "queued";
        reason_code = some code;
        reason_detail = detail;
        packet_sha256 = packet_sha256;
        run_id = none;
      })
      store refl h

module _ {Packet Rules Definition Start Profile : Type 0}
    (world : Neighbours Packet Rules Definition Start Profile) (pass : Pass)
    (snapshot : GatewayStore) where
  queue_eligible-IsBounded :
      (draft : IdeaDraft) (digest : String) (waiting : Bool)
      (eligible : Option (Packet × Option String)) (store : GatewayStore)
      → IsBounded store
      → IsBounded (queue_eligible world pass draft digest waiting eligible store).1
  unfolding queue_eligible
  queue_eligible-IsBounded draft digest waiting none store h = h
  queue_eligible-IsBounded draft digest true (some (packet, invalid)) store h = h
  queue_eligible-IsBounded draft digest false (some (packet, invalid)) store h =
      queue_idea-IsBounded draft.draft_id "waiting" none (some digest) store h

  queue_unless-IsBounded :
      (skipped : Bool) (draft : IdeaDraft) (json : String) (waiting : Bool) (store : GatewayStore)
      → IsBounded store
      → IsBounded (queue_unless world pass skipped draft json waiting store).1
  unfolding queue_unless
  queue_unless-IsBounded true draft json waiting store h = h
  queue_unless-IsBounded false draft json waiting store h =
      queue_eligible-IsBounded draft (world.digest json) waiting (world.eligible_packet json) store
        h

  queue_packet-IsBounded :
      (draft : IdeaDraft) (json : Option String) (event : Option CampaignEvent)
      (store : GatewayStore)
      → IsBounded store
      → IsBounded (queue_packet world pass draft snapshot json event store).1
  unfolding queue_packet
  queue_packet-IsBounded draft none event store h = h
  queue_packet-IsBounded draft (some json) event store h =
      queue_unless-IsBounded (is_skipped world pass draft json event snapshot) draft json
        (is_waiting event) store h

  queue_draft-IsBounded :
      (draft : IdeaDraft) (store : GatewayStore)
      → IsBounded store
      → IsBounded (queue_draft world pass snapshot draft store).1
  unfolding queue_draft
  queue_draft-IsBounded draft store h =
      queue_packet-IsBounded draft (filled draft.candidate_json)
        (latest_campaign_event draft.draft_id snapshot) store h

  queue_drafts-IsBounded :
      (drafts : List IdeaDraft) (store : GatewayStore)
      → IsBounded store
      → IsBounded (queue_drafts world pass snapshot drafts store).1
  unfolding queue_drafts
  queue_drafts-IsBounded [] store h = h
  queue_drafts-IsBounded (draft ∷ drafts) store h =
      queue_drafts-IsBounded drafts (queue_draft world pass snapshot draft store).1
        (queue_draft-IsBounded draft store h)

requeue_all-IsBounded :
    (rows : List CampaignEvent) (store : GatewayStore)
    → IsBounded store
    → IsBounded (requeue_all rows store)
unfolding requeue_all
requeue_all-IsBounded [] store h = h
requeue_all-IsBounded (e ∷ rows) store h =
    requeue_all-IsBounded rows
      (queue_idea e.candidate_id "requeued_after_restart" none e.packet_sha256 store)
      (queue_idea-IsBounded e.candidate_id "requeued_after_restart" none e.packet_sha256 store h)

module _ {Packet Rules Definition Start Profile : Type 0}
    (world : Neighbours Packet Rules Definition Start Profile)
    (settles : (request : AutoTestRequest Definition Profile) (o : AutoTestOutcome)
      → world.executor request ≡ ok o
      → (o.state == "running") ≡ false) where
  step_campaign-IsBounded :
      (s : CampaignStep) (store : GatewayStore)
      → IsBounded store
      → IsBounded (step_campaign world s store)
  unfolding step_campaign requeue_after_restart run_once
  step_campaign-IsBounded (passes_over pass) store h =
      run_queued-IsBounded world settles (queue_drafts world pass store pass.drafts store).0
        (queue_drafts world pass store pass.drafts store).1
        (queue_drafts-IsBounded world pass store pass.drafts store h)
  step_campaign-IsBounded restarts store h =
      requeue_all-IsBounded (open_candidates [] store.events) store h
  step_campaign-IsBounded (queues candidate_id code detail packet_sha256) store h =
      queue_idea-IsBounded candidate_id code detail packet_sha256 store h

  -- No packet is started more than three times since its last requeue after a fix: this is kept by
  -- any sequence of passes, restarts and requeues, whatever the checks and the tests answer or raise,
  -- provided that no test reports the state running.
  pub run_campaign-IsBounded :
      (steps : List (CampaignStep)) (store : GatewayStore)
      → IsBounded store
      → IsBounded (run_campaign world steps store)
  unfolding run_campaign
  run_campaign-IsBounded [] store h = h
  run_campaign-IsBounded (s ∷ steps) store h =
      run_campaign-IsBounded steps (step_campaign world s store) (step_campaign-IsBounded s store h)
