-- ===== src/Governance/Temporal.antt =====
-- `_temporal_governance_config`, `_temporal_state_for_api_key`,
-- `_prune_temporal_state` and `_evaluate_temporal_governance` of app.py. Times are microseconds since
-- the epoch.
use sharpe_nova_os.Prelude.{
  ℕ, ◌+◌, Bool, true, false, ◌&&◌, Option, none, some, List, [], ◌∷◌, ◌++◌, String, ◌==◌, ltb, leb,
  length, if◌then◌else◌, Dict, empty_dict, put, get_or, ℤ, pos, negsuc,
}
use sharpe_nova_os.Governance.Family.{TextHost, decision_family}
use sharpe_nova_os.Governance.HaltRelease.{microseconds}

-- The entry `temporal_governance` of a key record; its numbers may be missing.
pub record RawTemporal : Type 0 where
  pub window_seconds : Option ℤ
  pub max_requests_per_window : Option ℤ
  pub deny_cooldown_seconds : Option ℤ
  pub halt_cooldown_seconds : Option ℤ
  pub retry_spacing_seconds : Option ℤ
  pub halt_threshold : Option ℤ

pub record TemporalConfig : Type 0 where
  pub window_seconds : ℕ
  pub max_requests_per_window : ℕ
  pub deny_cooldown_seconds : ℕ
  pub halt_cooldown_seconds : ℕ
  pub retry_spacing_seconds : ℕ
  pub halt_threshold : ℕ

-- `max(int(config.get(…, 0) or 0), 0)`
unfoldable pub at_least_zero : Option ℤ → ℕ
at_least_zero none = 0
at_least_zero (some (pos n)) = n
at_least_zero (some (negsuc n)) = 0

unfoldable pub temporal_governance_config : Option RawTemporal → Option TemporalConfig
temporal_governance_config none = none
temporal_governance_config (some c) = some (record {
  window_seconds = at_least_zero c.window_seconds;
  max_requests_per_window = at_least_zero c.max_requests_per_window;
  deny_cooldown_seconds = at_least_zero c.deny_cooldown_seconds;
  halt_cooldown_seconds = at_least_zero c.halt_cooldown_seconds;
  retry_spacing_seconds = at_least_zero c.retry_spacing_seconds;
  halt_threshold = at_least_zero c.halt_threshold;
})

-- An entry of `TEMPORAL_GOVERNANCE_STATE`.
pub record TemporalState : Type 0 where
  pub request_timestamps : List ℕ
  pub family_request_timestamps : Dict (List ℕ)
  pub retry_cooldown_expiry : Dict ℕ
  pub deny_cooldown_expiry : Option ℕ
  pub post_halt_quarantine_expiry : Option ℕ

abbrev pub initial_temporal : TemporalState
initial_temporal = record {
  request_timestamps = [];
  family_request_timestamps = empty_dict;
  retry_cooldown_expiry = empty_dict;
  deny_cooldown_expiry = none;
  post_halt_quarantine_expiry = none;
}

-- `timestamp >= now - window`
abbrev pub is_recent : ℕ → ℕ → ℕ → Bool
is_recent window now t = leb now (t + window)

unfoldable pub retained : ℕ → ℕ → List ℕ → List ℕ
retained window now [] = []
retained window now (t ∷ ts) =
    let rest = retained window now ts in if is_recent window now t then t ∷ rest else rest

abbrev some_if_any : List ℕ → Option (List ℕ)
some_if_any [] = none
some_if_any (t ∷ ts) = some (t ∷ ts)

abbrev retained_family : ℕ → ℕ → Option (List ℕ) → Option (List ℕ)
retained_family window now none = none
retained_family window now (some ts) = some_if_any (retained window now ts)

unfoldable pub prune_temporal_state : ℕ → ℕ → TemporalState → TemporalState
prune_temporal_state now window_seconds s = if leb window_seconds 0 then s else record s {
  request_timestamps = retained (microseconds window_seconds) now s.request_timestamps;
  family_request_timestamps = λ family.
      retained_family (microseconds window_seconds) now (s.family_request_timestamps family);
}

pub record CountWindow : Type 0 where
  pub window_seconds : ℕ
  pub max_requests : ℕ
  pub request_count : ℕ
  pub decision_family : Option String
  pub family_request_count : ℕ

pub record CooldownState : Type 0 where
  pub active : Bool
  pub reason : String
  pub deny_cooldown_active : Bool
  pub halt_quarantine_active : Bool

pub record TemporalResult : Type 0 where
  pub configured : Bool
  pub triggered : Bool
  pub action : Option String
  pub reason : Option String
  pub status_code : ℕ
  pub decision_count_window : CountWindow
  pub cooldown_state : CooldownState
  pub cooldown_active : Bool
  pub retry_cooldown_expiry : Option String
  pub post_halt_quarantine_expiry : Option String
  pub temporal_constraint_triggered : Bool

abbrev pub inactive : CooldownState
inactive = record {
  active = false;
  reason = "none";
  deny_cooldown_active = false;
  halt_quarantine_active = false;
}

-- `_default_temporal_fields`, without a configuration.
abbrev pub unconfigured : TemporalResult
unconfigured = record {
  configured = false;
  triggered = false;
  action = none;
  reason = none;
  status_code = 200;
  decision_count_window = record {
    window_seconds = 0;
    max_requests = 0;
    request_count = 0;
    decision_family = none;
    family_request_count = 0;
  };
  cooldown_state = inactive;
  cooldown_active = false;
  retry_cooldown_expiry = none;
  post_halt_quarantine_expiry = none;
  temporal_constraint_triggered = false;
}

abbrev pub quarantined : CooldownState
quarantined = record inactive {
  active = true;
  reason = "halt_quarantine_active";
  halt_quarantine_active = true;
}

abbrev pub spaced : CooldownState
spaced = record inactive { active = true; reason = "retry_spacing_active" }

abbrev pub denied : CooldownState
denied = record inactive {
  active = true;
  reason = "deny_cooldown_active";
  deny_cooldown_active = true;
}

-- An expiry that is not reached.
abbrev pub unexpired : ℕ → Option ℕ → Option ℕ
unexpired now none = none
unexpired now (some expiry) = if leb expiry now then none else some expiry

-- `retry_cooldown_expiry` and the two other expiries, cleared where they are reached.
unfoldable pub clear_cooldowns : ℕ → String → TemporalState → TemporalState
clear_cooldowns now family s = record s {
  retry_cooldown_expiry = λ k.
      if k == family then unexpired now (s.retry_cooldown_expiry k) else s.retry_cooldown_expiry k;
  deny_cooldown_expiry = unexpired now s.deny_cooldown_expiry;
  post_halt_quarantine_expiry = unexpired now s.post_halt_quarantine_expiry;
}

abbrev pub family_history : String → TemporalState → List ℕ
family_history family s = get_or [] (s.family_request_timestamps family)

-- `config["halt_threshold"] or (max_requests + 1 if max_requests > 0 else 0)`
unfoldable pub threshold_of : TemporalConfig → ℕ
threshold_of c =
    if ltb 0 c.halt_threshold
    then c.halt_threshold
    else if ltb 0 c.max_requests_per_window
    then c.max_requests_per_window + 1
    else 0

abbrev pub last : List ℕ → Option ℕ
last [] = none
last (t ∷ []) = some t
last (t ∷ u ∷ ts) = last (u ∷ ts)

module _ (h : TextHost) (c : TemporalConfig) (now : ℕ) (family : String) where
  abbrev iso : Option ℕ → Option String
  iso none = none
  iso (some t) = some (h.isoformat t)

  -- `decision_count_window`, which counts this request too when `more` is 1.
  abbrev window_of : ℕ → TemporalState → CountWindow
  window_of more s = record {
    window_seconds = c.window_seconds;
    max_requests = c.max_requests_per_window;
    request_count = length s.request_timestamps + more;
    decision_family = some family;
    family_request_count = length (family_history family s) + more;
  }

  -- `build_result`
  abbrev triggered_by :
      String → String → ℕ → CountWindow → CooldownState → Option ℕ → Option ℕ → TemporalResult
  triggered_by action reason status window cooldown retry halt = record {
    configured = true;
    triggered = true;
    action = some action;
    reason = some reason;
    status_code = status;
    decision_count_window = window;
    cooldown_state = cooldown;
    cooldown_active = cooldown.active;
    retry_cooldown_expiry = iso retry;
    post_halt_quarantine_expiry = iso halt;
    temporal_constraint_triggered = true;
  }

  abbrev admitted_state : TemporalState → TemporalState
  admitted_state s = record s {
    request_timestamps = s.request_timestamps ++ now ∷ [];
    family_request_timestamps =
        put family (family_history family s ++ now ∷ []) s.family_request_timestamps;
    retry_cooldown_expiry =
        if ltb 0 c.retry_spacing_seconds
        then put family (now + microseconds c.retry_spacing_seconds) s.retry_cooldown_expiry
        else s.retry_cooldown_expiry;
  }

  -- The request is counted.
  unfoldable pub admit_request : TemporalState → TemporalResult × TemporalState
  admit_request s = (
    record unconfigured {
      configured = true;
      decision_count_window = window_of 1 s;
      retry_cooldown_expiry = iso ((admitted_state s).retry_cooldown_expiry family);
    },
    admitted_state s,
  )

  -- From the request rate on; `retry` is the value of `retry_expiry` then.
  unfoldable pub check_rate : Option ℕ → TemporalState → TemporalResult × TemporalState
  check_rate retry s =
      if ltb 0 c.max_requests_per_window
        && ltb c.max_requests_per_window (length s.request_timestamps + 1)
      then (
        triggered_by "DENY" "request_rate_limit_exceeded" 429 (window_of 1 s) denied retry none,
        record s { deny_cooldown_expiry = some (now + microseconds c.deny_cooldown_seconds) },
      )
      else admit_request s

  unfoldable pub check_spacing_from : TemporalState → Option ℕ → TemporalResult × TemporalState
  check_spacing_from s none = check_rate none s
  check_spacing_from s (some previous) =
      let expiry = previous + microseconds c.retry_spacing_seconds in
      if ltb now expiry
      then (
        triggered_by "DELAY" "retry_spacing_active" 429 (window_of 1 s) spaced (some expiry) none,
        record s { retry_cooldown_expiry = put family expiry s.retry_cooldown_expiry },
      )
      else check_rate (some expiry) s

  unfoldable pub check_spacing : TemporalState → TemporalResult × TemporalState
  check_spacing s =
      if ltb 0 c.retry_spacing_seconds
      then check_spacing_from s (last (family_history family s))
      else check_rate none s

  abbrev quarantine_expiry : ℕ
  quarantine_expiry = now + microseconds c.halt_cooldown_seconds

  unfoldable pub check_pressure : TemporalState → TemporalResult × TemporalState
  check_pressure s =
      if ltb 0 (threshold_of c) && ltb (threshold_of c) (length s.request_timestamps + 1)
      then (
        triggered_by "HALT" "request_pressure_halt" 409 (window_of 1 s) quarantined none
            (some quarantine_expiry),
        record s { post_halt_quarantine_expiry = some quarantine_expiry },
      )
      else check_spacing s

  -- No cooldown but perhaps that of denials.
  unfoldable pub check_denial : TemporalState → Option ℕ → TemporalResult × TemporalState
  check_denial s (some _) =
      (triggered_by "DENY" "deny_cooldown_active" 429 (window_of 0 s) denied none none, s)
  check_denial s none = check_pressure s

  unfoldable pub check_retry : TemporalState → Option ℕ → TemporalResult × TemporalState
  check_retry s (some expiry) =
      (triggered_by "DELAY" "retry_spacing_active" 429 (window_of 0 s) spaced (some expiry) none, s)
  check_retry s none = check_denial s s.deny_cooldown_expiry

  unfoldable pub check_quarantine : TemporalState → Option ℕ → TemporalResult × TemporalState
  check_quarantine s (some expiry) = (
    triggered_by "HALT" "post_halt_quarantine_active" 409 (window_of 0 s) quarantined
        (s.retry_cooldown_expiry family) (some expiry),
    s,
  )
  check_quarantine s none = check_retry s (s.retry_cooldown_expiry family)

  unfoldable pub evaluate_family : TemporalState → TemporalResult × TemporalState
  evaluate_family s =
      let current = clear_cooldowns now family (prune_temporal_state now c.window_seconds s) in
      check_quarantine current current.post_halt_quarantine_expiry

-- `TEMPORAL_GOVERNANCE_STATE`
abbrev pub Temporals : Type 0
Temporals = Dict TemporalState

unfoldable pub temporal_state_of : String → Temporals → TemporalState
temporal_state_of api_key temporals = get_or initial_temporal (temporals api_key)

-- A request as the temporal governance sees it.
pub record TemporalRequest : Type 0 where
  pub api_key : String
  pub config : Option RawTemporal
  pub intent : Option String
  pub asset : Option String
  pub now : ℕ

abbrev pub evaluate_with :
    TextHost → TemporalRequest → Temporals → Option TemporalConfig → TemporalResult × Temporals
evaluate_with h q temporals none = (unconfigured, temporals)
evaluate_with h q temporals (some c) =
    let (result, s) =
      evaluate_family h c q.now (decision_family h q.intent q.asset)
        (temporal_state_of q.api_key temporals) in
    (result, put q.api_key s temporals)

-- `_evaluate_temporal_governance`
unfoldable pub evaluate_temporal_governance :
    TextHost → TemporalRequest → Temporals → TemporalResult × Temporals
evaluate_temporal_governance h q temporals =
    evaluate_with h q temporals (temporal_governance_config q.config)
