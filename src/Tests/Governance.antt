-- ===== src/Tests/Governance.antt =====
-- Runs of the decision governance (app.py).
use sharpe_nova_os.Prelude.{
  ◌≡◌, refl, ℕ, ◌≤◌, ◌+◌, ◌*◌, true, false, none, some, List, [], ◌∷◌, ◌++◌, String, pos, arith,
  count_in, empty_dict, put,
}
use sharpe_nova_os.Governance.SystemState.{
  halt_active, normal, StateEntry, Payload, Registry, derive_system_state, transition, next_entry,
  apply_system_state, is_under_pressure, is_degraded, is_severe, is_calm, is_review, entered_at,
  lower_name, same_state, is_halt,
}
use sharpe_nova_os.Governance.Recovery.{Application, run, IsReviewed, run-IsReviewed}
use sharpe_nova_os.Governance.Clearing.{IsCleared, run-IsCleared}
use sharpe_nova_os.Governance.HaltRelease.{
  default_evidence, RawConfig, ReleaseConfig, halt_release_config, evidence_items, cooldown_of,
  ReleaseRequest, Releases, evaluate_halt_release_governance, evaluate_configured, clear_expired,
  decide_release, release, release_state_of, parse_release_evidence, provided_authority, is_halted,
}
use sharpe_nova_os.Governance.Release.{
  IsDelayed, evaluation, happen_all, release-delays, is_accepted,
}
use sharpe_nova_os.Governance.Family.{TextHost}
use sharpe_nova_os.Governance.Temporal.{
  TemporalConfig, initial_temporal, is_recent, evaluate_family,
}
use sharpe_nova_os.Governance.Windows.{Visit, admitted_times, admitted-le-max}
use sharpe_nova_os.Governance.Pressure.{visit_all, is_pressure_halt, evaluate-no_pressure_halt}
use sharpe_nova_os.Governance.Budget.{
  RawBudget, BudgetConfig, permission_budget_config, permission_budget_limit, BudgetRequest,
}
use sharpe_nova_os.Governance.Spending.{spent, spent-le-limit}
use sharpe_nova_os.Governance.Queue.{QueueEntry, QueueState, QueueRequest, enqueue}
use sharpe_nova_os.Governance.Places.{IsFound, enqueue-IsFound}
use sharpe_nova_os.Governance.Temporal.{at_least_zero}
use sharpe_nova_os.Text.{strip}
use sharpe_nova_os.Text.Split.{split_at, stripped_parts}

abbrev clean : Payload
clean = record {
  timestamp_utc = none;
  decision_status = some "ALLOW";
  telemetry_integrity_state = some "telemetry_clear";
  loop_integrity_state = none;
  temporal_constraint_triggered = false;
  escalation_flag = false;
  halt_recommendation = none;
  re_evaluation_required = false;
  state = none;
}

abbrev request : Application
request = record { payload = clean; api_key = "key-1"; now = "2026-01-01T00:00:02Z" }

abbrev halted_entry : StateEntry
halted_entry = record {
  system_state = halt_active;
  state_transition_reason = "halt_condition_active";
  state_entered_at = "2026-01-01T00:00:01Z";
  state_release_condition = "halt condition cleared and recovery review completed";
}

abbrev calm_entry : StateEntry
calm_entry = record {
  system_state = normal;
  state_transition_reason = "recovery_review_cleared_to_normal";
  state_entered_at = "2026-01-01T00:00:02Z";
  state_release_condition = "continue clean admissible operation";
}

abbrev registry : Registry
registry = put "key-1" halted_entry empty_dict

clears : run (request ∷ request ∷ []) registry "key-1" ≡ some calm_entry
unfolding run apply_system_state next_entry transition derive_system_state is_degraded
    is_under_pressure is_severe is_calm is_review entered_at lower_name same_state
clears = refl

is_halted_entry : is_severe halt_active ≡ true
unfolding is_severe
is_halted_entry = refl

is_calm_entry : is_calm normal ≡ true
unfolding is_calm
is_calm_entry = refl

run-IsReviewed_example : IsReviewed "key-1" (request ∷ request ∷ []) registry
run-IsReviewed_example =
    run-IsReviewed "key-1" (request ∷ request ∷ []) registry halted_entry calm_entry refl
      is_halted_entry clears is_calm_entry

abbrev other_request : Application
other_request = record request { api_key = "key-2" }

is_clean : is_calm (derive_system_state clean).state ≡ true
unfolding derive_system_state is_degraded is_under_pressure is_calm
is_clean = refl

run-IsCleared_example :
    IsCleared "key-1" request (run (request ∷ (other_request ∷ []) ++ request ∷ []) registry)
run-IsCleared_example =
    run-IsCleared "key-1" request request (other_request ∷ []) registry refl refl is_clean is_clean
      (refl, tt)

abbrev raw : RawConfig
raw = record {
  release_authority = some "risk_officer";
  required_evidence = default_evidence;
  post_release_cooldown_seconds = some (pos 60);
}

abbrev release_config : ReleaseConfig
release_config = record {
  release_authority = "risk_officer";
  required_evidence = "control_integrity_review" ∷ "fresh_telemetry_confirmation" ∷ [];
  post_release_cooldown_seconds = 60;
}

abbrev asks : ReleaseRequest
asks = record {
  api_key = "key-1";
  config = some raw;
  now = 1000;
  authority = some " risk_officer";
  evidence = some "fresh_telemetry_confirmation, control_integrity_review";
}

abbrev text : ℕ → String
text _ = "2026-01-01T00:00:02Z"

abbrev none_released : Releases
none_released = empty_dict

configured : halt_release_config (some raw) ≡ some release_config
unfolding halt_release_config evidence_items cooldown_of strip stripped_parts
configured = refl

accepts : is_accepted (evaluate_halt_release_governance text asks registry none_released).0 ≡ true
unfolding evaluate_halt_release_governance evaluate_configured clear_expired decide_release release
    release_state_of parse_release_evidence provided_authority is_halted is_halt halt_release_config
    evidence_items cooldown_of strip stripped_parts split_at
accepts = refl

abbrev again : ReleaseRequest
again = record asks { now = 30000000 }

release-delays_example :
    IsDelayed
      (evaluate_halt_release_governance text again registry (
        happen_all text
          (evaluation again registry ∷ [])
          (evaluate_halt_release_governance text asks registry none_released).1)).0
release-delays_example =
    release-delays text asks registry none_released release_config (evaluation again registry ∷ [])
      again registry release_config accepts configured (omega arith, tt) refl configured
      (omega arith)

abbrev text_host : TextHost
text_host = record { lower = λ s. s; isoformat = text }

abbrev two_a_minute : TemporalConfig
two_a_minute = record {
  window_seconds = 60;
  max_requests_per_window = 2;
  deny_cooldown_seconds = 1;
  halt_cooldown_seconds = 300;
  retry_spacing_seconds = 0;
  halt_threshold = 0;
}

abbrev visit : ℕ → Visit
visit now = record { now = now; family = "trade:eth" }

abbrev visits : List Visit
visits = visit 1000000 ∷ visit 2000000 ∷ visit 3000000 ∷ []

admitted-le-max_example :
    count_in
      (is_recent 60000000 3000000)
      (admitted_times text_host two_a_minute visits initial_temporal)
    ≤ 2
admitted-le-max_example =
    admitted-le-max text_host two_a_minute visits 3000000 (omega arith)
      (omega arith, (omega arith, (omega arith, tt)))

evaluate-no_pressure_halt_example :
    is_pressure_halt
      (evaluate_family text_host two_a_minute 5000000 "trade:eth"
        (visit_all text_host two_a_minute visits initial_temporal)).0
    ≡ false
evaluate-no_pressure_halt_example =
    evaluate-no_pressure_halt text_host two_a_minute visits (visit 5000000) refl (omega arith)

abbrev raw_budget : RawBudget
raw_budget = record {
  daily_budget = some (pos 300);
  default_daily_budget = none;
  risk_increasing_daily_budget = some (pos 3002);
  risk_reducing_daily_budget = none;
  exception_budget = none;
  delay_on_exhaustion = false;
}

abbrev budget : BudgetConfig
budget = record {
  default_daily_budget = 300;
  risk_increasing_daily_budget = 3002;
  risk_reducing_daily_budget = 300;
  exception_budget = 0;
  delay_on_exhaustion = false;
}

budgeted : permission_budget_config (some raw_budget) ≡ some budget
unfolding permission_budget_config at_least_zero
budgeted = refl

abbrev trade : BudgetRequest
trade = record {
  api_key = "key-1";
  config = some raw_budget;
  intent = some "trade";
  decision_status = "ALLOW";
  admitted_size = some (pos 2100);
  today = "2026-01-01";
}

-- With three units to a hundredth: a budget of 10.006… and sizes of 7.
spent-le-limit_example :
    2 * (spent text_host "key-1" "risk_increasing" 3 (trade ∷ trade ∷ []) empty_dict * 3)
    ≤ 2 * permission_budget_limit budget "risk_increasing" + 3
spent-le-limit_example =
    spent-le-limit text_host 3 (omega arith) "key-1" "risk_increasing" budget "2026-01-01"
      (trade ∷ trade ∷ []) (λ _. (budgeted, refl), (λ _. (budgeted, refl), tt))

abbrev older : QueueEntry
older = record {
  request_id = "request-1";
  priority = "normal";
  conflict_key = "asset:eth";
  expiry_at = none;
  regime = "neutral";
  epoch = 7;
  expire_on_regime_change = true;
  expire_on_epoch_change = true;
  sequence = 1;
}

abbrev queue : QueueState
queue = record { entries = older ∷ []; next_sequence = 2 }

abbrev queued : QueueRequest
queued = record {
  api_key = "key-1";
  config = none;
  intent = some "exit_position";
  asset = some "eth";
  request_id = "request-2";
  now = 5000000;
  epoch = 7;
}

enqueue-IsFound_example :
    IsFound 1 27 (enqueue text_host (λ s. s) "neutral" queued queue).0.queue_position
enqueue-IsFound_example = enqueue-IsFound text_host (λ s. s) "neutral" queued queue
