-- ===== src/Metering/Bills.antt =====
-- What the billing state of core/billing_state.py holds, over the calls of app.py.
use sharpe_nova_os.Prelude.{
  ℕ, ◌*◌, ◌≡◌, refl, Bool, true, false, Option, none, some, List, [], ◌∷◌, String, ◌==◌,
  if◌then◌else◌, Bool-cases, inl, inr, one_of, Dict, put, get_or,
}
use sharpe_nova_os.Text.{strip}
use sharpe_nova_os.Metering.Usage.{
  UsageRecord, known_actor, increment_context_call, get_usage_record,
}
use sharpe_nova_os.Metering.Billing.{
  BillingRecord, BillingStore, billing_modes, validate_wallet_format, empty_billing_record,
  ensure_billing_record, save_billing, bind_wallet, sync_context_usage, load_billing,
}
use sharpe_nova_os.Metering.Meter.{
  MeterState, initial_meter, MeterEvent, context_call, proof_call, wallet_call, summary_call,
  restart, sync_counted, meter_context_admission, meter_proof_retrieval, settlement_summary_payload,
  meter_event, metered,
}

-- A wallet is bound with a valid text, in the mode `pilot`, and without one the mode is `evaluation`.
abbrev pub IsBound : String → Option String → Type 0
IsBound mode none = mode ≡ "evaluation"
IsBound mode (some wallet) = (mode ≡ "pilot") × (validate_wallet_format wallet ≡ true)

-- The amount is the price of the decisions that were billed.
pub record IsBill (r : BillingRecord) : Type 0 where
  pub amount : r.amount_due_usd ≡ r.decisions_billed * 2
  pub wallet : IsBound r.billing_mode r.usdc_wallet

abbrev IsBillIfAny : Option BillingRecord → Type 0
IsBillIfAny none = Unit
IsBillIfAny (some r) = IsBill r

-- Each record of the memory and of the file is a bill.
pub record HasBills (s : BillingStore) : Type 0 where
  pub records : (k : String) → IsBillIfAny (s.records k)
  pub file : (k : String) → IsBillIfAny (s.file k)

put-IsBill :
    (key : String) (r : BillingRecord) (records : Dict BillingRecord)
    → IsBill r
    → ((k : String) → IsBillIfAny (records k))
    → (k : String) → IsBillIfAny (put key r records k)
put-IsBill key r records bill all k = elim (Bool-cases (k == key)) [
  | inl same ↦ rw same bill
  | inr other ↦ rw other (all k)
]

module _ (destination : Option String) where
  get_or-IsBill :
      (actor : String) (o : Option BillingRecord)
      → IsBillIfAny o
      → IsBill (get_or (empty_billing_record destination actor) o)
  unfolding empty_billing_record
  get_or-IsBill actor none bill = record { amount = refl; wallet = refl }
  get_or-IsBill actor (some r) bill = bill

  mode-IsBound :
      (mode : String) (wallet : Option String)
      → IsBound mode wallet
      → IsBound (if one_of mode billing_modes then mode else "evaluation") wallet
  mode-IsBound mode none b = rw b refl
  mode-IsBound mode (some wallet) b = rw b.0 (refl, b.1)

  ensure_billing_record-IsBill :
      (actor : String) (records : Dict BillingRecord)
      → ((k : String) → IsBillIfAny (records k))
      → IsBill (ensure_billing_record destination actor records)
  unfolding ensure_billing_record
  ensure_billing_record-IsBill actor records all =
      let bill =
        get_or-IsBill (known_actor actor) (records (known_actor actor)) (all (known_actor actor)) in
      record { amount = bill.amount; wallet = mode-IsBound _ _ bill.wallet }

  save_billing-HasBills :
      (writes : Bool) (actor : String) (r : BillingRecord) (s : BillingStore)
      → IsBill r
      → HasBills s
      → HasBills (save_billing destination writes actor r s)
  unfolding save_billing
  save_billing-HasBills true actor r s bill h = record {
    records = put-IsBill (known_actor actor) r s.records bill h.records;
    file = put-IsBill (known_actor actor) r s.records bill h.records;
  }
  save_billing-HasBills false actor r s bill h = record {
    records = put-IsBill (known_actor actor) r s.records bill h.records;
    file = h.file;
  }

  bind_wallet-HasBills :
      (writes : Bool) (actor wallet : String) (s : BillingStore)
      → HasBills s
      → HasBills (bind_wallet destination writes actor wallet s).1
  unfolding bind_wallet
  bind_wallet-HasBills writes actor wallet s h =
      elim (Bool-cases (validate_wallet_format (strip wallet))) [
        | inl valid ↦
            let bill = ensure_billing_record-IsBill actor s.records h.records in
            rw valid (
              save_billing-HasBills writes actor _ s
                (record { amount = bill.amount; wallet = (refl, valid) }) h)
        | inr invalid ↦ rw invalid h
      ]

  sync_context_usage-HasBills :
      (writes : Bool) (actor : String) (calls : ℕ) (s : BillingStore)
      → HasBills s
      → HasBills (sync_context_usage destination writes actor calls s).1
  unfolding sync_context_usage
  sync_context_usage-HasBills writes actor calls s h =
      let bill = ensure_billing_record-IsBill actor s.records h.records in
      save_billing-HasBills writes actor _ s (record { amount = refl; wallet = bill.wallet }) h

  sync_counted-HasBills :
      (writes : Bool) (actor : String) (o : Option UsageRecord) (s : BillingStore)
      → HasBills s
      → HasBills (sync_counted destination writes actor o s)
  sync_counted-HasBills writes actor none s h = h
  sync_counted-HasBills writes actor (some r) s h =
      sync_context_usage-HasBills writes actor r.context_calls s h

  meter_event-HasBills :
      (e : MeterEvent) (s : MeterState)
      → HasBills s.billing
      → HasBills (meter_event destination e s).billing
  unfolding meter_event meter_context_admission meter_proof_retrieval settlement_summary_payload
      load_billing
  meter_event-HasBills (context_call t writes actor) s h =
      sync_counted-HasBills writes actor (increment_context_call t actor s.usage).0 s.billing h
  meter_event-HasBills (proof_call t actor) s h = h
  meter_event-HasBills (wallet_call writes actor wallet) s h =
      bind_wallet-HasBills writes actor wallet s.billing h
  meter_event-HasBills (summary_call writes actor) s h =
      sync_context_usage-HasBills writes actor (get_usage_record actor s.usage).context_calls
        s.billing h
  meter_event-HasBills restart s h = record { records = h.file; file = h.file }

  metered_from-HasBills :
      (es : List MeterEvent) (s : MeterState)
      → HasBills s.billing
      → HasBills (metered destination es s).billing
  unfolding metered
  metered_from-HasBills [] s h = h
  metered_from-HasBills (e ∷ es) s h =
      metered_from-HasBills es (meter_event destination e s) (meter_event-HasBills e s h)

  -- Over any history from an empty meter, with any failing writes and restarts, each billing record in
  -- the memory and in the file owes exactly the price of the decisions billed to it, has a valid wallet
  -- and the mode `pilot` if a wallet was bound, and else the mode `evaluation`.
  pub metered-HasBills :
      (es : List MeterEvent) → HasBills (metered destination es initial_meter).billing
  metered-HasBills es =
      metered_from-HasBills es initial_meter (record { records = λ _. tt; file = λ _. tt })
