-- ===== src/Metering/Billing.antt =====
-- core/billing_state.py. Amounts are in cents, of which the price per decision is 2; the destination of
-- payments, which the environment configures, is a parameter.
use Prim.Native.Char.{code}
use Prim.Native.String.{◌∷◌, []}
use sharpe_nova_os.Prelude.{
  ℕ, zero, suc, ◌-◌, ◌*◌, Bool, true, false, not, ◌&&◌, ◌||◌, eqb, Option, none, some, List, [],
  ◌∷◌, String, if◌then◌else◌, one_of, Dict, put, get_or,
}
use sharpe_nova_os.Text.{strip, in_range}
use sharpe_nova_os.Metering.Usage.{free_context_call_limit, known_actor}

pub record BillingRecord : Type 0 where
  pub actor_id : String
  pub billing_mode : String
  pub usdc_wallet : Option String
  pub payment_destination : Option String
  pub decisions_billed : ℕ
  pub amount_due_usd : ℕ

-- `_BILLING_STATE` and its file.
pub record BillingStore : Type 0 where
  pub records : Dict BillingRecord
  pub file : Dict BillingRecord

-- `BILLING_MODES`
abbrev pub billing_modes : List String
billing_modes = "evaluation" ∷ "pilot" ∷ "active" ∷ []

-- `DEFAULT_PRICE_PER_DECISION_USD`
abbrev pub price_per_decision : ℕ
price_per_decision = 2

-- `[a-fA-F0-9]{n}` up to the end of the text.
unfoldable pub hex_of_any_case : ℕ → String → Bool
hex_of_any_case zero [] = true
hex_of_any_case zero (c ∷ s) = false
hex_of_any_case (suc n) [] = false
hex_of_any_case (suc n) (c ∷ s) =
    let rest = hex_of_any_case n s in
    (in_range 97 102 (code c) || in_range 65 70 (code c) || in_range 48 57 (code c)) && rest

-- `_ETH_WALLET_PATTERN.fullmatch`
unfoldable pub is_wallet : String → Bool
is_wallet [] = false
is_wallet (c ∷ []) = false
is_wallet (c ∷ d ∷ s) = eqb (code c) 48 && eqb (code d) 120 && hex_of_any_case 40 s

unfoldable pub validate_wallet_format : String → Bool
validate_wallet_format wallet = is_wallet (strip wallet)

-- The result of `bind_wallet`; a write that fails raises.
pub data BindResult : Type 0 where
  bound : BillingRecord → BindResult
  invalid_wallet : BindResult
  not_written : BindResult

module _ (destination : Option String) where
  unfoldable pub empty_billing_record : String → BillingRecord
  empty_billing_record actor = record {
    actor_id = known_actor actor;
    billing_mode = "evaluation";
    usdc_wallet = none;
    payment_destination = destination;
    decisions_billed = 0;
    amount_due_usd = 0;
  }

  unfoldable pub ensure_billing_record : String → Dict BillingRecord → BillingRecord
  ensure_billing_record actor records =
      let r = get_or (empty_billing_record (known_actor actor)) (records (known_actor actor)) in
      record r {
        actor_id = known_actor actor;
        billing_mode = if one_of r.billing_mode billing_modes then r.billing_mode else "evaluation";
        payment_destination = destination;
      }

  -- The record goes into the memory, and into the file if it is written.
  unfoldable pub save_billing : Bool → String → BillingRecord → BillingStore → BillingStore
  save_billing writes actor r s =
      let records = put (known_actor actor) r s.records in
      record { records = records; file = if writes then records else s.file }

  unfoldable pub bind_wallet : Bool → String → String → BillingStore → BindResult × BillingStore
  bind_wallet writes actor payer_wallet s =
      let r = record (ensure_billing_record actor s.records) {
        usdc_wallet = some (strip payer_wallet);
        billing_mode = "pilot";
      } in
      if not (validate_wallet_format (strip payer_wallet))
      then (invalid_wallet, s)
      else (if writes then bound r else not_written, save_billing writes actor r s)

  unfoldable pub sync_context_usage :
      Bool → String → ℕ → BillingStore → Option BillingRecord × BillingStore
  sync_context_usage writes actor context_calls s =
      let billable = context_calls - free_context_call_limit in
      let r = record (ensure_billing_record actor s.records) {
        decisions_billed = billable;
        amount_due_usd = billable * price_per_decision;
      } in
      (if writes then some r else none, save_billing writes actor r s)

  unfoldable pub get_billing_record : String → BillingStore → BillingRecord
  get_billing_record actor s =
      record (get_or (empty_billing_record (known_actor actor)) (s.records (known_actor actor))) {
        payment_destination = destination;
      }

-- A new process reads the file.
unfoldable pub load_billing : BillingStore → BillingStore
load_billing s = record s { records = s.file }
