-- ===== src/Tests/Metering.antt =====
-- Runs of the metering (core/usage_meter.py, core/billing_state.py, app.py).
use sharpe_nova_os.Prelude.{true, false, none, inr, List, [], ◌∷◌, refl, ◌≡◌, count_in}
use sharpe_nova_os.Text.{strip}
use sharpe_nova_os.Metering.Usage.{CallTimes}
use sharpe_nova_os.Metering.Billing.{validate_wallet_format, is_wallet, hex_of_any_case}
use sharpe_nova_os.Metering.Meter.{
  initial_meter, MeterEvent, context_call, proof_call, wallet_call, summary_call, restart,
  settlement_summary_payload, metered,
}
use sharpe_nova_os.Metering.Counts.{is_call_of, IsBilledFor, metered-IsBilledFor}
use sharpe_nova_os.Metering.Bills.{HasBills, metered-HasBills}

abbrev times : CallTimes
times = record {
  now = "2026-01-01T00:00:01+00:00";
  later = "2026-01-01T00:00:02+00:00";
  writes = true;
}

abbrev events : List MeterEvent
events =
    context_call times true "actor_1"
    ∷ wallet_call true "actor_1" " 0x00112233445566778899aAbBcCdDeEfF00112233 "
    ∷ restart
    ∷ context_call times false "actor_2"
    ∷ proof_call times "actor_1"
    ∷ context_call times true "actor_1"
    ∷ summary_call true "actor_1"
    ∷ []

valid_wallet : validate_wallet_format " 0x00112233445566778899aAbBcCdDeEfF00112233 " ≡ true
unfolding validate_wallet_format is_wallet hex_of_any_case strip
valid_wallet = refl

metered-IsBilledFor_example :
    IsBilledFor
      (count_in (is_call_of "actor_1") events)
      (settlement_summary_payload none true "actor_1" (metered none events initial_meter)).0
metered-IsBilledFor_example =
    metered-IsBilledFor none "actor_1" events true
      (inr (refl, (tt, (tt, (refl, (refl, (refl, (tt, tt))))))))

metered-HasBills_example : HasBills (metered none events initial_meter).billing
metered-HasBills_example = metered-HasBills none events
