-- ===== src/Campaign.antt =====
-- agent_gateway/store.py, `GatewayStore`: the append-only log of the automatic tests, and what it
-- answers. `Campaign/Testing.antt` has agent_gateway/auto_campaign.py.
pub mod Records
pub mod Testing
pub mod Passes
pub mod Queueing
pub mod Attempts
pub mod Bounded
pub mod Combinations
mod Settings
mod Trials
mod Samples
use quant_factory.Prelude.{
  ℕ, ◌+◌, Bool, true, false, ◌&&◌, ◌||◌, not, Option, none, some, List, [], ◌∷◌, String, any,
  string_eq, option_eq, ◌==◌, if◌then◌else◌,
}

-- The columns of `campaign_events` that are read; the time of an event is left out.
pub record CampaignEvent : Type 0 where
  pub candidate_id : String
  pub state : String
  pub reason_code : Option String
  pub reason_detail : Option String
  pub packet_sha256 : Option String
  pub run_id : Option String

-- The rows of `campaign_events`, the latest first, and the latest row of `campaign_control`.
pub record GatewayStore : Type 0 where
  pub events : List CampaignEvent
  pub paused : Bool

abbrev pub requeued_after_fix : String
requeued_after_fix = "requeued_after_fix"

unfoldable pub append_campaign_event : CampaignEvent → GatewayStore → GatewayStore
append_campaign_event event store = record store { events = event ∷ store.events }

-- `latest_campaign_event`, and the entry of a candidate in `latest_campaign_events`
abbrev latest_in : String → List CampaignEvent → Option CampaignEvent
latest_in candidate_id [] = none
latest_in candidate_id (e ∷ older) =
    if e.candidate_id == candidate_id then some e else latest_in candidate_id older

unfoldable pub latest_campaign_event : String → GatewayStore → Option CampaignEvent
latest_campaign_event candidate_id store = latest_in candidate_id store.events

abbrev is_of_packet : (candidate_id packet_sha256 : String) → CampaignEvent → Bool
is_of_packet candidate_id packet_sha256 e =
    e.candidate_id == candidate_id && e.packet_sha256 == some packet_sha256

abbrev pub one_if : Bool → ℕ
one_if true = 1
one_if false = 0

abbrev starts_in : (candidate_id packet_sha256 : String) → List CampaignEvent → ℕ
starts_in candidate_id packet_sha256 [] = 0
starts_in candidate_id packet_sha256 (e ∷ older) =
    one_if (is_of_packet candidate_id packet_sha256 e && e.state == "running")
    + starts_in candidate_id packet_sha256 older

unfoldable pub campaign_attempts : (candidate_id packet_sha256 : String) → GatewayStore → ℕ
campaign_attempts candidate_id packet_sha256 store =
    starts_in candidate_id packet_sha256 store.events

-- The starts that are later than the last requeue of the packet.
abbrev recent_starts_in : (candidate_id packet_sha256 : String) → List CampaignEvent → ℕ
recent_starts_in candidate_id packet_sha256 [] = 0
recent_starts_in candidate_id packet_sha256 (e ∷ older) =
    let rest = recent_starts_in candidate_id packet_sha256 older in
    if is_of_packet candidate_id packet_sha256 e
    then if e.reason_code == some requeued_after_fix
      then 0
      else one_if (e.state == "running") + rest
    else rest

unfoldable pub campaign_attempts_since_requeue :
    (candidate_id packet_sha256 : String) → GatewayStore → ℕ
campaign_attempts_since_requeue candidate_id packet_sha256 store =
    recent_starts_in candidate_id packet_sha256 store.events
