-- ===== src/Campaign/Testing.antt =====
-- agent_gateway/auto_campaign.py, `AutoTestCampaign._process`: the test of one idea.
use quant_factory.Campaign.{
  latest_campaign_event, campaign_attempts, campaign_attempts_since_requeue, append_campaign_event,
  CampaignEvent, GatewayStore,
}
use quant_factory.Python.Text.{is_empty, append}
use quant_factory.Campaign.Records.{
  is_requeued, AutoTestRequest, max_attempts, without_result, is_value_error, IdeaDraft, Neighbours,
}
use quant_factory.Prelude.{
  leb, if◌then◌else◌, ℕ, true, false, Option, none, some, [], String, string_eq, option_eq,
}
use quant_factory.Python.{Exn, Result, ok, err}

module _ {Packet Rules Definition Start Profile : Type 0}
    (world : Neighbours Packet Rules Definition Start Profile) where
  abbrev pub event_of :
      IdeaDraft → (digest state code : String) → (detail run_id : Option String) → CampaignEvent
  event_of draft digest state code detail run_id = record {
    candidate_id = draft.draft_id;
    state = state;
    reason_code = some code;
    reason_detail = detail;
    packet_sha256 = some digest;
    run_id = run_id;
  }

  -- The rules of the packet and the strategy that they define; `none` stands for no rules.
  abbrev pub strategy_of : IdeaDraft → Packet → Result (Option Definition)
  strategy_of draft packet = elim (world.rule_spec_reader packet) [
    | err e ↦ err e
    | ok none ↦ ok none
    | ok (some rules) ↦ elim (world.build_definition draft rules packet) [
      | err e ↦ err e
      | ok d ↦ ok (some d)
    ]
  ]

  abbrev pub interrupted : ℕ → String
  interrupted recent =
      append "The test was interrupted "
        (append (world.decimal recent) " times before finishing and was not started again.")

  -- The end of `_process`: the bound on starts, the start and the outcome.
  unfoldable pub start_test :
      IdeaDraft
      → (digest : String) → Definition
      → Profile
      → GatewayStore
      → Result (Unit {0}) × GatewayStore
  start_test draft digest definition profile store =
      if leb max_attempts (campaign_attempts_since_requeue draft.draft_id digest store)
      then (
        ok tt,
        append_campaign_event
            (event_of draft digest "failed" "run_error"
              (some (interrupted (campaign_attempts_since_requeue draft.draft_id digest store)))
              none)
            store,
      )
      else let request : AutoTestRequest Definition Profile = record {
        candidate_id = draft.draft_id;
        definition = definition;
        profile = profile;
        attempt = campaign_attempts draft.draft_id digest store;
        rebuild = is_requeued (latest_campaign_event draft.draft_id store);
      } in
        let started =
          append_campaign_event (event_of draft digest "running" "started" none none) store in
        elim (world.executor request) [
          | err e ↦ (err e, started)
          | ok o ↦ (
            ok tt,
            append_campaign_event
                (event_of draft digest o.state o.reason_code o.reason_detail o.run_id) started,
          )
        ]

  abbrev or_text : String → String → String
  or_text default value = if is_empty value then default else value

  abbrev pub no_dataset : (symbol timeframe : String) → String
  no_dataset symbol timeframe =
      append "No verified local dataset with recorded trading costs exists for " (
        append (or_text "an unnamed market" symbol)
          (append " at " (append (or_text "an unstated timeframe" timeframe) ".")))

  abbrev pub blocked :
      IdeaDraft → (digest code detail : String) → GatewayStore → Result (Unit {0}) × GatewayStore
  blocked draft digest code detail store = (
    ok tt,
    append_campaign_event (event_of draft digest "implementation_blocked" code (some detail) none)
        store,
  )

  -- `except ValueError`: the idea is blocked; any other exception leaves.
  unfoldable pub refuse :
      IdeaDraft → (digest said : String) → Exn → GatewayStore → Result (Unit {0}) × GatewayStore
  refuse draft digest said e store = elim (is_value_error e) [
    | true ↦ blocked draft digest "rules_invalid" (append said (world.message e)) store
    | false ↦ (err e, store)
  ]

  unfoldable pub with_profile :
      IdeaDraft
      → (digest : String) → Definition
      → (symbol timeframe : String) → Result (Option Profile)
      → GatewayStore
      → Result (Unit {0}) × GatewayStore
  with_profile draft digest definition symbol timeframe (err e) store = (err e, store)
  with_profile draft digest definition symbol timeframe (ok none) store =
      blocked draft digest "data_unavailable" (no_dataset symbol timeframe) store
  with_profile draft digest definition symbol timeframe (ok (some profile)) store =
      start_test draft digest definition profile store

  unfoldable pub with_start :
      IdeaDraft
      → (digest : String) → Definition
      → (symbol timeframe : String) → Result Start
      → GatewayStore
      → Result (Unit {0}) × GatewayStore
  with_start draft digest definition symbol timeframe (err e) store =
      refuse draft digest "The start date is invalid: " e store
  with_start draft digest definition symbol timeframe (ok start) store =
      with_profile draft digest definition symbol timeframe
        (world.dataset_profile symbol timeframe start) store

  unfoldable pub with_owner :
      IdeaDraft
      → Packet
      → (digest : String) → Definition
      → (symbol timeframe : String) → Result (Option String)
      → GatewayStore
      → Result (Unit {0}) × GatewayStore
  with_owner draft packet digest definition symbol timeframe (err e) store = (err e, store)
  with_owner draft packet digest definition symbol timeframe (ok (some owner)) store = (
    ok tt,
    append_campaign_event (event_of draft digest "duplicate_closed" "same_rules" (some owner) none)
        store,
  )
  with_owner draft packet digest definition symbol timeframe (ok none) store =
      with_start draft digest definition symbol timeframe (world.requested_start packet) store

  -- From the identity of the strategy and the market of the packet on; what raises leaves.
  unfoldable pub with_market :
      IdeaDraft
      → Packet
      → (digest : String) → Definition
      → (strategy : Result String) → (market : Result (String × String)) → GatewayStore
      → Result (Unit {0}) × GatewayStore
  with_market draft packet digest definition (err e) market store = (err e, store)
  with_market draft packet digest definition (ok strategy_id) (err e) store = (err e, store)
  with_market draft packet digest definition (ok strategy_id) (ok market) store =
      with_owner draft packet digest definition market.0 market.1
        (world.earlier_owner strategy_id draft.draft_id market.0 market.1
          (without_result [] store.events))
        store

  unfoldable pub with_strategy :
      IdeaDraft
      → Packet
      → (digest : String) → Result (Option Definition)
      → GatewayStore
      → Result (Unit {0}) × GatewayStore
  with_strategy draft packet digest (err e) store =
      refuse draft digest "The rule_spec is invalid: " e store
  with_strategy draft packet digest (ok none) store =
      blocked draft digest "rules_missing"
        "The idea has no rule_spec, so no strategy can be generated from it." store
  with_strategy draft packet digest (ok (some definition)) store =
      with_market draft packet digest definition (world.strategy_id definition)
        (world.packet_market packet) store

  -- `_process`
  unfoldable pub process :
      IdeaDraft
      → Packet
      → Option String
      → (digest : String) → GatewayStore
      → Result (Unit {0}) × GatewayStore
  process draft packet (some invalid) digest store =
      blocked draft digest "rules_invalid"
        (append "The rule_spec is invalid: " (world.safe_detail invalid)) store
  process draft packet none digest store =
      with_strategy draft packet digest (strategy_of draft packet) store
