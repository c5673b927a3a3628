-- ===== src/Metering/Meter.antt =====
-- `_meter_context_admission`, `_meter_proof_retrieval` and `_settlement_summary_payload` of app.py, and
-- any history of them. The actor id, which is a hash of the API key, is given.
use sharpe_nova_os.Prelude.{
  ℕ, ◌-◌, ◌*◌, Bool, Option, none, some, List, [], ◌∷◌, String, empty_dict, get_or,
}
use sharpe_nova_os.Metering.Usage.{
  UsageRecord, UsageStore, free_context_call_limit, CallTimes, increment_context_call,
  increment_proof_call, get_usage_record, load_usage,
}
use sharpe_nova_os.Metering.Billing.{
  BillingStore, price_per_decision, bind_wallet, sync_context_usage, get_billing_record,
  load_billing,
}

pub record MeterState : Type 0 where
  pub usage : UsageStore
  pub billing : BillingStore

abbrev pub initial_meter : MeterState
initial_meter = record {
  usage = record { records = empty_dict; file = empty_dict };
  billing = record { records = empty_dict; file = empty_dict };
}

pub record SettlementSummary : Type 0 where
  pub actor_id : String
  pub billing_mode : String
  pub context_calls : ℕ
  pub proof_calls : ℕ
  pub free_limit : ℕ
  pub billable_context_calls : ℕ
  pub price : ℕ
  pub amount_due_usd : ℕ
  pub payment_destination : Option String

-- What happens to the meter; the Boolean of a call is whether its write of the billing file succeeds.
pub data MeterEvent : Type 0 where
  context_call : CallTimes → Bool → String → MeterEvent
  proof_call : CallTimes → String → MeterEvent
  wallet_call : Bool → String → String → MeterEvent
  summary_call : Bool → String → MeterEvent
  restart : MeterEvent

module _ (destination : Option String) where
  abbrev pub sync_counted : Bool → String → Option UsageRecord → BillingStore → BillingStore
  sync_counted writes actor none s = s
  sync_counted writes actor (some r) s =
      (sync_context_usage destination writes actor r.context_calls s).1

  unfoldable pub meter_context_admission : CallTimes → Bool → String → MeterState → MeterState
  meter_context_admission t writes actor s =
      let (counted, usage) = increment_context_call t actor s.usage in
      record { usage = usage; billing = sync_counted writes actor counted s.billing }

  unfoldable pub meter_proof_retrieval : CallTimes → String → MeterState → MeterState
  meter_proof_retrieval t actor s = record s { usage = (increment_proof_call t actor s.usage).1 }

  unfoldable pub settlement_summary_payload :
      Bool → String → MeterState → SettlementSummary × MeterState
  settlement_summary_payload writes actor s =
      let used = get_usage_record actor s.usage in
      let (synced, billing) =
        sync_context_usage destination writes actor used.context_calls s.billing in
      let billed = get_or (get_billing_record destination actor billing) synced in
      (
        record {
          actor_id = actor;
          billing_mode = billed.billing_mode;
          context_calls = used.context_calls;
          proof_calls = used.proof_calls;
          free_limit = free_context_call_limit;
          billable_context_calls = used.context_calls - free_context_call_limit;
          price = price_per_decision;
          amount_due_usd = (used.context_calls - free_context_call_limit) * price_per_decision;
          payment_destination = destination;
        },
        record s { billing = billing },
      )

  unfoldable pub meter_event : MeterEvent → MeterState → MeterState
  meter_event (context_call t writes actor) s = meter_context_admission t writes actor s
  meter_event (proof_call t actor) s = meter_proof_retrieval t actor s
  meter_event (wallet_call writes actor wallet) s = record s {
    billing = (bind_wallet destination writes actor wallet s.billing).1;
  }
  meter_event (summary_call writes actor) s = (settlement_summary_payload writes actor s).1
  meter_event restart s = record { usage = load_usage s.usage; billing = load_billing s.billing }

  unfoldable pub metered : List MeterEvent → MeterState → MeterState
  metered [] s = s
  metered (e ∷ es) s = metered es (meter_event e s)
