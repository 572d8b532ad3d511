-- ===== src/Campaign/Passes.antt =====
-- agent_gateway/auto_campaign.py, the loop of `run_once`, and `requeue_after_restart`.
use quant_factory.Campaign.Testing.{event_of, process}
use quant_factory.Campaign.Records.{is_open, is_recorded, IdeaDraft, Neighbours}
use quant_factory.Campaign.{append_campaign_event, not, GatewayStore, CampaignEvent}
use quant_factory.Prelude.{
  ◌&&◌, ◌||◌, ◌++◌, not, any, if◌then◌else◌, Bool, true, false, Option, none, some, List, [], ◌∷◌,
  String, string_eq, option_eq, ◌==◌,
}
use quant_factory.Python.{Result, ok, err}

module _ {Packet Rules Definition Start Profile : Type 0}
    (world : Neighbours Packet Rules Definition Start Profile) where
  -- A recorded exception becomes the idea's failure; any other ends the pass.
  abbrev pub after_process :
      IdeaDraft
      → (digest : String) → Result (Unit {0}) × GatewayStore
      → Result (Unit {0}) × GatewayStore
  after_process draft digest (ok _, store) = (ok tt, store)
  after_process draft digest (err e, store) = elim (is_recorded e) [
    | true ↦ (
      ok tt,
      append_campaign_event
          (event_of world draft digest "failed" "run_error" (some (world.failure_message e)) none)
          store,
    )
    | false ↦ (err e, store)
  ]

  -- One idea of a pass.
  unfoldable pub test_idea :
      IdeaDraft
      → Packet
      → Option String
      → (digest : String) → GatewayStore
      → Result (Unit {0}) × GatewayStore
  test_idea draft packet invalid digest store =
      after_process draft digest (process world draft packet invalid digest store)

  -- `self._stop`, `drain_requested()` and the pause of the owner, as they are read before each idea
  abbrev pub may_start : (is_stopped is_draining : Bool) → GatewayStore → Bool
  may_start is_stopped is_draining store = not is_stopped && not is_draining && not store.paused

pub record Queued (Packet : Type 0) : Type 0 where
  pub draft : IdeaDraft
  pub packet : Packet
  pub invalid : Option String
  pub digest : String
  pub is_stopped : Bool
  pub is_draining : Bool

-- `run_once` after `_queue`: the queued ideas one at a time, up to the first that may not start.
module _ {Packet Rules Definition Start Profile : Type 0}
    (world : Neighbours Packet Rules Definition Start Profile) where
  unfoldable pub run_queued : List (Queued Packet) → GatewayStore → Result (Unit {0}) × GatewayStore
  run_queued [] store = (ok tt, store)
  run_queued (q ∷ queue) store = elim (may_start world q.is_stopped q.is_draining store) [
    | false ↦ (ok tt, store)
    | true ↦
        let (r, store') = test_idea world q.draft q.packet q.invalid q.digest store in
        elim r [ err e ↦ (err e, store') | ok _ ↦ run_queued queue store' ]
  ]

-- An idea is queued: by a pass, after a restart, or by the operator after a fix.
unfoldable pub queue_idea :
    (candidate_id code : String)
    → (detail packet_sha256 : Option String) → GatewayStore
    → GatewayStore
queue_idea candidate_id code detail packet_sha256 store =
    append_campaign_event
      (record {
        candidate_id = candidate_id;
        state = "queued";
        reason_code = some code;
        reason_detail = detail;
        packet_sha256 = packet_sha256;
        run_id = none;
      })
      store

-- `requeue_after_restart`: each candidate whose latest event is open, the earliest event first.
abbrev pub open_candidates : (seen : List String) → List CampaignEvent → List CampaignEvent
open_candidates seen [] = []
open_candidates seen (e ∷ older) =
    let rest = open_candidates (e.candidate_id ∷ seen) older in
    if any (λ c. c == e.candidate_id) seen || not (is_open e.state) then rest else rest ++ e ∷ []

unfoldable pub requeue_all : List CampaignEvent → GatewayStore → GatewayStore
requeue_all [] store = store
requeue_all (e ∷ rows) store =
    requeue_all rows (queue_idea e.candidate_id "requeued_after_restart" none e.packet_sha256 store)

unfoldable pub requeue_after_restart : GatewayStore → GatewayStore
requeue_after_restart store = requeue_all (open_candidates [] store.events) store
