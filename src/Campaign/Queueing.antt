-- ===== src/Campaign/Queueing.antt =====
-- agent_gateway/auto_campaign.py, `_queue` and `run_once`: which ideas a pass tests.
use quant_factory.Campaign.{latest_campaign_event, GatewayStore, CampaignEvent}
use quant_factory.Campaign.Records.{is_result, is_open, IdeaDraft, Neighbours}
use quant_factory.Campaign.Passes.{run_queued, queue_idea, Queued}
use quant_factory.Prelude.{
  Bool, true, false, ◌&&◌, ◌||◌, not, Option, none, some, List, [], ◌∷◌, String, string_eq,
  option_eq, ◌==◌, if◌then◌else◌,
}
use quant_factory.Python.{Result}
use quant_factory.Python.Text.{is_empty}

-- What a pass meets: the drafts that the research database lists, by time of creation, and whether
-- the process is to stop or a deploy waits when a draft's turn comes.
pub record Pass : Type 0 where
  pub drafts : List IdeaDraft
  pub is_stopped : String → Bool
  pub is_draining : String → Bool

abbrev pub filled : Option String → Option String
filled none = none
filled (some t) = if is_empty t then none else some t

abbrev is_given : Option String → Bool
is_given none = false
is_given (some t) = true

-- `str(value)`
abbrev str_of : Option String → String
str_of none = "None"
str_of (some t) = t

-- The owner of a duplicate has no result and is not being tested.
abbrev owner_failed : Option CampaignEvent → Bool
owner_failed none = false
owner_failed (some owner) = not (is_open owner.state || is_result owner.state)

-- decided already, for this very packet
unfoldable pub is_decided : (digest : String) → Option CampaignEvent → GatewayStore → Bool
is_decided digest none snapshot = false
is_decided digest (some e) snapshot =
    not (is_open e.state)
    && e.packet_sha256 == some digest
    && not (
        e.state == "duplicate_closed"
        && owner_failed (latest_campaign_event (str_of e.reason_detail) snapshot))

abbrev is_given_event : Option CampaignEvent → Bool
is_given_event none = false
is_given_event (some e) = true

abbrev pub is_waiting : Option CampaignEvent → Bool
is_waiting none = false
is_waiting (some e) = is_open e.state

module _ {Packet Rules Definition Start Profile : Type 0}
    (world : Neighbours Packet Rules Definition Start Profile) (pass : Pass) where
  abbrev queued_as : IdeaDraft → Packet → Option String → (digest : String) → Queued Packet
  queued_as draft packet invalid digest = record {
    draft = draft;
    packet = packet;
    invalid = invalid;
    digest = digest;
    is_stopped = pass.is_stopped draft.draft_id;
    is_draining = pass.is_draining draft.draft_id;
  }

  abbrev wait_if : Bool → IdeaDraft → (digest : String) → GatewayStore → GatewayStore
  wait_if true draft digest store = store
  wait_if false draft digest store = queue_idea draft.draft_id "waiting" none (some digest) store

  unfoldable pub queue_eligible :
      IdeaDraft
      → (digest : String) → (is_waiting : Bool) → Option (Packet × Option String)
      → GatewayStore
      → Option (Queued Packet) × GatewayStore
  queue_eligible draft digest waiting none store = (none, store)
  queue_eligible draft digest waiting (some (packet, invalid)) store =
      (some (queued_as draft packet invalid digest), wait_if waiting draft digest store)

  unfoldable pub queue_unless :
      (is_skipped : Bool)
      → IdeaDraft
      → (json : String) → (is_waiting : Bool) → GatewayStore
      → Option (Queued Packet) × GatewayStore
  queue_unless true draft json waiting store = (none, store)
  queue_unless false draft json waiting store =
      queue_eligible draft (world.digest json) waiting (world.eligible_packet json) store

  -- A hand-built setup, or an idea that is decided.
  abbrev pub is_skipped :
      IdeaDraft → (json : String) → Option CampaignEvent → (snapshot : GatewayStore) → Bool
  is_skipped draft json event snapshot =
      (is_given (filled draft.configuration_id) && not (is_given_event event))
      || is_decided (world.digest json) event snapshot

  unfoldable pub queue_packet :
      IdeaDraft
      → (snapshot : GatewayStore) → Option String
      → Option CampaignEvent
      → GatewayStore
      → Option (Queued Packet) × GatewayStore
  queue_packet draft snapshot none event store = (none, store)
  queue_packet draft snapshot (some json) event store =
      queue_unless (is_skipped draft json event snapshot) draft json (is_waiting event) store

  -- One draft; `snapshot` is the log as the pass found it.
  unfoldable pub queue_draft :
      (snapshot : GatewayStore) → IdeaDraft → GatewayStore → Option (Queued Packet) × GatewayStore
  queue_draft snapshot draft store =
      queue_packet draft snapshot (filled draft.candidate_json)
        (latest_campaign_event draft.draft_id snapshot) store

  unfoldable pub queue_drafts :
      (snapshot : GatewayStore)
      → List IdeaDraft
      → GatewayStore
      → List (Queued Packet) × GatewayStore
  queue_drafts snapshot [] store = ([], store)
  queue_drafts snapshot (draft ∷ drafts) store =
      let (q, store') = queue_draft snapshot draft store in
      let (queue, store'') = queue_drafts snapshot drafts store' in
      (elim q [ none ↦ queue | some x ↦ x ∷ queue ], store'')

  -- `run_once`
  unfoldable pub run_once : GatewayStore → Result (Unit {0}) × GatewayStore
  run_once store =
      let (queue, store') = queue_drafts store pass.drafts store in run_queued world queue store'
