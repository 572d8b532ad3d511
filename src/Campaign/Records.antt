-- ===== src/Campaign/Records.antt =====
-- agent_gateway/auto_campaign.py: the states of an idea, and what a test is asked and answers.
use quant_factory.Campaign.{requeued_after_fix, CampaignEvent}
use quant_factory.Prelude.{
  ℕ, ◌||◌, any, if◌then◌else◌, Bool, true, false, Option, none, some, List, [], ◌∷◌, String,
  string_eq, option_eq, ◌==◌,
}
use quant_factory.Python.{
  Exn, value_error, json_decode_error, launch_key, type_error, attribute_error, assertion_error,
  adapter_error, Result,
}

abbrev pub is_open : String → Bool
is_open state = state == "queued" || state == "running"

abbrev pub is_result : String → Bool
is_result state = state == "survivor" || state == "screened_out"

abbrev pub max_attempts : ℕ
max_attempts = 3

-- `except ValueError`, and the exceptions that a pass of the campaign records
abbrev pub is_value_error : Exn → Bool
is_value_error value_error = true
is_value_error json_decode_error = true
is_value_error launch_key = true
is_value_error e = false

abbrev pub is_recorded : Exn → Bool
is_recorded type_error = false
is_recorded attribute_error = false
is_recorded assertion_error = false
is_recorded adapter_error = false
is_recorded e = true

pub record AutoTestOutcome : Type 0 where
  pub state : String
  pub reason_code : String
  pub reason_detail : Option String
  pub run_id : Option String

pub record IdeaDraft : Type 0 where
  pub draft_id : String
  pub title : String
  pub candidate_json : Option String
  pub configuration_id : Option String

pub record AutoTestRequest (Definition Profile : Type 0) : Type 0 where
  pub candidate_id : String
  pub definition : Definition
  pub profile : Profile
  pub attempt : ℕ
  pub rebuild : Bool

-- What the campaign takes from its neighbours: the readers of a packet, the builder of a strategy,
-- the research database's record of earlier owners, the data sets, and the child process of a test.
pub record Neighbours (Packet Rules Definition Start Profile : Type 0) : Type 0 where
  pub digest : String → String
  pub eligible_packet : String → Option (Packet × Option String)
  pub rule_spec_reader : Packet → Result (Option Rules)
  pub build_definition : IdeaDraft → Rules → Packet → Result Definition
  pub strategy_id : Definition → Result String
  pub packet_market : Packet → Result (String × String)
  pub earlier_owner :
      (strategy_id candidate_id symbol timeframe : String) → List String → Result (Option String)
  pub requested_start : Packet → Result Start
  pub dataset_profile : (symbol timeframe : String) → Start → Result (Option Profile)
  pub executor : AutoTestRequest Definition Profile → Result AutoTestOutcome
  pub safe_detail : String → String
  pub message : Exn → String
  pub failure_message : Exn → String
  pub decimal : ℕ → String

abbrev pub is_requeued : Option CampaignEvent → Bool
is_requeued none = false
is_requeued (some e) = e.reason_code == some requeued_after_fix

-- the candidates whose latest event is decided without a result
abbrev pub without_result : (seen : List String) → List CampaignEvent → List String
without_result seen [] = []
without_result seen (e ∷ older) =
    let rest = without_result (e.candidate_id ∷ seen) older in
    if any (λ c. c == e.candidate_id) seen || is_open e.state || is_result e.state
    then rest
    else e.candidate_id ∷ rest
