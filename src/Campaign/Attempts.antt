-- ===== src/Campaign/Attempts.antt =====
-- agent_gateway/auto_campaign.py, `MAX_ATTEMPTS`: how often a packet is started.
use quant_factory.Python.Text.{append}
use quant_factory.Campaign.Records.{
  is_recorded, without_result, is_value_error, is_requeued, IdeaDraft, AutoTestOutcome,
  max_attempts, AutoTestRequest, Neighbours,
}
use quant_factory.Campaign.Passes.{may_start, Queued, after_process, test_idea, run_queued}
use quant_factory.Campaign.Testing.{
  no_dataset, with_profile, with_owner, strategy_of, refuse, with_strategy, blocked, with_start,
  with_market, interrupted, process, event_of, start_test,
}
use quant_factory.Campaign.{
  latest_campaign_event, campaign_attempts, CampaignEvent, campaign_attempts_since_requeue,
  append_campaign_event, GatewayStore,
}
use text.Mathlib.TextEquality.{eq_iff}
use quant_factory.Prelude.{
  inr, inl, leb, ◌≤◌, ◌≡◌, refl, false, Option, none, some, List, [], ◌∷◌, String, arith, string_eq,
  option_eq, ◌==◌, Bool-cases,
}
use quant_factory.Python.{Exn, Result, ok, err}

-- A store where no packet has been started more than three times since its last requeue after a fix.
abbrev pub IsBounded : GatewayStore → Type 0
IsBounded store =
    (candidate_id digest : String)
    → campaign_attempts_since_requeue candidate_id digest store ≤ max_attempts

-- An event that is no start adds none.
pub append-IsBounded :
    (e : CampaignEvent) (store : GatewayStore)
    → (e.state == "running") ≡ false
    → IsBounded store
    → IsBounded (append_campaign_event e store)
unfolding append_campaign_event campaign_attempts_since_requeue
append-IsBounded e store idle h candidate_id digest = ground (arith, h candidate_id digest)

module _ {Packet Rules Definition Start Profile : Type 0}
    (world : Neighbours Packet Rules Definition Start Profile)
    (settles : (request : AutoTestRequest Definition Profile) (o : AutoTestOutcome)
      → world.executor request ≡ ok o
      → (o.state == "running") ≡ false) where
  started-IsBounded :
      (draft : IdeaDraft) (digest : String) (store : GatewayStore)
      → leb max_attempts (campaign_attempts_since_requeue draft.draft_id digest store) ≡ false
      → IsBounded store
      → IsBounded
          (append_campaign_event (event_of world draft digest "running" "started" none none) store)
  unfolding append_campaign_event campaign_attempts_since_requeue
  started-IsBounded draft digest store few h candidate_id digest' =
      ground
        (arith, h candidate_id digest', eq_iff draft.draft_id candidate_id, eq_iff digest digest')

  start_test-IsBounded :
      (draft : IdeaDraft) (digest : String) (definition : Definition) (profile : Profile)
      (store : GatewayStore)
      → IsBounded store
      → IsBounded (start_test world draft digest definition profile store).1
  unfolding start_test
  start_test-IsBounded draft digest definition profile store h =
      elim (Bool-cases
        (leb max_attempts (campaign_attempts_since_requeue draft.draft_id digest store))) [
          | inl spent ↦ rw spent (
              append-IsBounded
                (event_of world draft digest "failed" "run_error"
                  (some (
                    interrupted world
                      (campaign_attempts_since_requeue draft.draft_id digest store)))
                  none)
                store refl h)
          | inr few ↦ rw few (
              ended (world.executor (request_of few)) refl
                (started-IsBounded draft digest store few h))
        ]
    where
      request_of :
          leb max_attempts (campaign_attempts_since_requeue draft.draft_id digest store) ≡ false
          → AutoTestRequest Definition Profile
      request_of few = record {
        candidate_id = draft.draft_id;
        definition = definition;
        profile = profile;
        attempt = campaign_attempts draft.draft_id digest store;
        rebuild = is_requeued (latest_campaign_event draft.draft_id store);
      }

      started : GatewayStore
      started =
          append_campaign_event (event_of world draft digest "running" "started" none none) store

      ended :
          (r : Result AutoTestOutcome)
          → world.executor (record {
            candidate_id = draft.draft_id;
            definition = definition;
            profile = profile;
            attempt = campaign_attempts draft.draft_id digest store;
            rebuild = is_requeued (latest_campaign_event draft.draft_id store);
          })
            ≡ r
          → IsBounded started
          → IsBounded
              (elim r as (λ x. Result (Unit {0}) × GatewayStore) [
                | err e ↦ (err e, started)
                | ok o ↦ (
                  ok tt,
                  append_campaign_event
                      (event_of world draft digest o.state o.reason_code o.reason_detail o.run_id)
                      started,
                )
              ]).1
      ended (err e) _ h' = h'
      ended (ok o) e h' =
          append-IsBounded
            (event_of world draft digest o.state o.reason_code o.reason_detail o.run_id) started
            (settles _ o e) h'

  blocked-IsBounded :
      (draft : IdeaDraft) (digest code detail : String) (store : GatewayStore)
      → IsBounded store
      → IsBounded (blocked world draft digest code detail store).1
  blocked-IsBounded draft digest code detail store h =
      append-IsBounded
        (event_of world draft digest "implementation_blocked" code (some detail) none) store refl h

  refuse-IsBounded :
      (draft : IdeaDraft) (digest said : String) (e : Exn) (store : GatewayStore)
      → IsBounded store
      → IsBounded (refuse world draft digest said e store).1
  unfolding refuse
  refuse-IsBounded draft digest said e store h = elim (Bool-cases (is_value_error e)) [
    | inl value ↦
        rw (refuse, value)
          (blocked-IsBounded draft digest "rules_invalid" (append said (world.message e)) store h)
    | inr other ↦ rw (refuse, other) h
  ]

  with_start-IsBounded :
      (draft : IdeaDraft) (digest : String) (definition : Definition) (symbol timeframe : String)
      (start : Result Start) (store : GatewayStore)
      → IsBounded store
      → IsBounded (with_start world draft digest definition symbol timeframe start store).1
  unfolding with_start with_profile
  with_start-IsBounded draft digest definition symbol timeframe (err e) store h =
      refuse-IsBounded draft digest "The start date is invalid: " e store h
  with_start-IsBounded draft digest definition symbol timeframe (ok start) store h =
      go (world.dataset_profile symbol timeframe start)
    where
      go :
          (p : Result (Option Profile))
          → IsBounded (with_profile world draft digest definition symbol timeframe p store).1
      go (err e) = h
      go (ok none) =
          blocked-IsBounded draft digest "data_unavailable" (no_dataset world symbol timeframe)
            store h
      go (ok (some profile)) = start_test-IsBounded draft digest definition profile store h

  with_owner-IsBounded :
      (draft : IdeaDraft) (packet : Packet) (digest : String) (definition : Definition)
      (symbol timeframe : String) (owner : Result (Option String)) (store : GatewayStore)
      → IsBounded store
      → IsBounded (with_owner world draft packet digest definition symbol timeframe owner store).1
  unfolding with_owner
  with_owner-IsBounded draft packet digest definition symbol timeframe (err e) store h = h
  with_owner-IsBounded draft packet digest definition symbol timeframe (ok (some owner)) store h =
      append-IsBounded
        (event_of world draft digest "duplicate_closed" "same_rules" (some owner) none) store refl h
  with_owner-IsBounded draft packet digest definition symbol timeframe (ok none) store h =
      with_start-IsBounded draft digest definition symbol timeframe (world.requested_start packet)
        store h

  with_market-IsBounded :
      (draft : IdeaDraft) (packet : Packet) (digest : String) (definition : Definition)
      (strategy : Result String) (market : Result (String × String)) (store : GatewayStore)
      → IsBounded store
      → IsBounded (with_market world draft packet digest definition strategy market store).1
  unfolding with_market
  with_market-IsBounded draft packet digest definition (err e) market store h = h
  with_market-IsBounded draft packet digest definition (ok strategy_id) (err e) store h = h
  with_market-IsBounded draft packet digest definition (ok strategy_id) (ok market) store h =
      with_owner-IsBounded draft packet digest definition market.0 market.1
        (world.earlier_owner strategy_id draft.draft_id market.0 market.1
          (without_result [] store.events))
        store h

  with_strategy-IsBounded :
      (draft : IdeaDraft) (packet : Packet) (digest : String)
      (strategy : Result (Option Definition)) (store : GatewayStore)
      → IsBounded store
      → IsBounded (with_strategy world draft packet digest strategy store).1
  unfolding with_strategy
  with_strategy-IsBounded draft packet digest (err e) store h =
      refuse-IsBounded draft digest "The rule_spec is invalid: " e store h
  with_strategy-IsBounded draft packet digest (ok none) store h =
      blocked-IsBounded draft digest "rules_missing"
        "The idea has no rule_spec, so no strategy can be generated from it." store h
  with_strategy-IsBounded draft packet digest (ok (some definition)) store h =
      with_market-IsBounded draft packet digest definition (world.strategy_id definition)
        (world.packet_market packet) store h

  process-IsBounded :
      (draft : IdeaDraft) (packet : Packet) (invalid : Option String) (digest : String)
      (store : GatewayStore)
      → IsBounded store
      → IsBounded (process world draft packet invalid digest store).1
  unfolding process
  process-IsBounded draft packet (some invalid) digest store h =
      blocked-IsBounded draft digest "rules_invalid"
        (append "The rule_spec is invalid: " (world.safe_detail invalid)) store h
  process-IsBounded draft packet none digest store h =
      with_strategy-IsBounded draft packet digest (strategy_of world draft packet) store h

  test_idea-IsBounded :
      (draft : IdeaDraft) (packet : Packet) (invalid : Option String) (digest : String)
      (store : GatewayStore)
      → IsBounded store
      → IsBounded (test_idea world draft packet invalid digest store).1
  unfolding test_idea
  test_idea-IsBounded draft packet invalid digest store h =
      go (process world draft packet invalid digest store)
        (process-IsBounded draft packet invalid digest store h)
    where
      go :
          (m : Result (Unit {0}) × GatewayStore)
          → IsBounded m.1
          → IsBounded (after_process world draft digest m).1
      go (ok _, store') h' = h'
      go (err e, store') h' = elim (Bool-cases (is_recorded e)) [
        | inl recorded ↦
            rw (after_process, recorded)
              (append-IsBounded
                (event_of world draft digest "failed" "run_error" (some (world.failure_message e))
                  none)
                store' refl h')
        | inr leaves ↦ rw (after_process, leaves) h'
      ]

  pub run_queued-IsBounded :
      (queue : List (Queued Packet)) (store : GatewayStore)
      → IsBounded store
      → IsBounded (run_queued world queue store).1
  unfolding run_queued
  run_queued-IsBounded [] store h = h
  run_queued-IsBounded (q ∷ queue) store h =
      elim (Bool-cases (may_start world q.is_stopped q.is_draining store)) [
        | inl starts ↦
            rw (run_queued, starts)
              (go (λ store' h'. run_queued-IsBounded queue store' h')
                (test_idea world q.draft q.packet q.invalid q.digest store)
                (test_idea-IsBounded q.draft q.packet q.invalid q.digest store h))
        | inr held ↦ rw (run_queued, held) h
      ]
    where
      go :
          ((store' : GatewayStore) → IsBounded store' → IsBounded (run_queued world queue store').1)
          → (m : Result (Unit {0}) × GatewayStore) → IsBounded m.1
          → IsBounded
              (elim m.0 as (λ x. Result (Unit {0}) × GatewayStore) [
                | err e ↦ (err e, m.1)
                | ok _ ↦ run_queued world queue m.1
              ]).1
      go next (err e, store') h' = h'
      go next (ok _, store') h' = next store' h'
