-- ===== src/Governance/SystemState.antt =====
-- `_derive_system_state` and `_apply_system_state` of app.py. The constants of the source that name a
-- state are an enumeration here, and a payload has the entries that these functions read or write.
use Prim.Native.String.{◌++◌}
use sharpe_nova_os.Prelude.{
  Bool, true, false, not, ◌&&◌, ◌||◌, Option, none, some, List, String, ◌==◌, one_of, [], ◌∷◌,
  if◌then◌else◌, Dict, put,
}

pub data SystemState : Type 0 where
  normal : SystemState
  constrained_operation : SystemState
  pressure_elevated : SystemState
  telemetry_degraded : SystemState
  halt_recommended : SystemState
  halt_active : SystemState
  recovery_review_required : SystemState

-- `str.lower` of the state's text.
unfoldable pub lower_name : SystemState → String
lower_name normal = "normal"
lower_name constrained_operation = "constrained_operation"
lower_name pressure_elevated = "pressure_elevated"
lower_name telemetry_degraded = "telemetry_degraded"
lower_name halt_recommended = "halt_recommended"
lower_name halt_active = "halt_active"
lower_name recovery_review_required = "recovery_review_required"

-- What a registry entry and a payload say of the state.
pub record StateEntry : Type 0 where
  pub system_state : SystemState
  pub state_transition_reason : String
  pub state_entered_at : String
  pub state_release_condition : String

pub record Payload : Type 0 where
  pub timestamp_utc : Option String
  pub decision_status : Option String
  pub telemetry_integrity_state : Option String
  pub loop_integrity_state : Option String
  pub temporal_constraint_triggered : Bool
  pub escalation_flag : Bool
  pub halt_recommendation : Option String
  pub re_evaluation_required : Bool
  pub state : Option StateEntry

pub record Candidate : Type 0 where
  pub state : SystemState
  pub reason : String
  pub release_condition : String

-- A text that is there and not empty.
abbrev pub is_text : Option String → Bool
is_text none = false
is_text (some s) = not (s == "")

abbrev pub is_one_of : Option String → List String → Bool
is_one_of none names = false
is_one_of (some s) names = one_of s names

abbrev pub text_or : String → Option String → String
text_or default none = default
text_or default (some s) = if s == "" then default else s

-- `telemetry_state not in {"not_evaluated", "telemetry_clear", None}`
unfoldable pub is_degraded : Option String → Bool
is_degraded none = false
is_degraded (some s) = not (one_of s ("not_evaluated" ∷ "telemetry_clear" ∷ []))

unfoldable pub is_under_pressure : Payload → Bool
is_under_pressure p =
    is_one_of p.loop_integrity_state ("retry_delayed" ∷ "retry_blocked" ∷ "pressure_escalated" ∷ [])
    || is_one_of p.decision_status ("RETRY_DELAYED" ∷ "RETRY_BLOCKED" ∷ "PRESSURE_ESCALATED" ∷ [])
    || p.temporal_constraint_triggered && is_one_of p.decision_status ("DELAY" ∷ "DENY" ∷ [])

abbrev halted : Candidate
halted = record {
  state = halt_active;
  reason = "halt_condition_active";
  release_condition = "halt condition cleared and recovery review completed";
}

abbrev degraded : Option String → Candidate
degraded telemetry = record {
  state = telemetry_degraded;
  reason = "telemetry_state_" ++ text_or "" telemetry;
  release_condition = "telemetry integrity restored to admissible state";
}

abbrev recommended : Candidate
recommended = record {
  state = halt_recommended;
  reason = "halt_recommendation_active";
  release_condition = "halt recommendation cleared by subsequent clean control cycle";
}

abbrev reviewed : Candidate
reviewed = record {
  state = recovery_review_required;
  reason = "re_evaluation_required_after_halt_release";
  release_condition = "post-release cooldown completed and the next decision was re-evaluated";
}

abbrev pressured : Candidate
pressured = record {
  state = pressure_elevated;
  reason = "pressure_condition_detected";
  release_condition = "pressure signals clear on subsequent admission cycle";
}

abbrev constrained : Candidate
constrained = record {
  state = constrained_operation;
  reason = "admission_constrained_but_operational";
  release_condition = "constraint conditions clear and normal admission resumes";
}

abbrev baseline : Candidate
baseline = record {
  state = normal;
  reason = "baseline_operational_posture";
  release_condition = "continue clean admissible operation";
}

-- `_derive_system_state`
unfoldable pub derive_system_state : Payload → Candidate
derive_system_state p =
    if is_one_of p.decision_status ("HALT" ∷ [])
    then halted
    else if is_degraded p.telemetry_integrity_state
    then degraded p.telemetry_integrity_state
    else if p.escalation_flag || is_text p.halt_recommendation
    then recommended
    else if p.re_evaluation_required
    then reviewed
    else if is_under_pressure p
    then pressured
    else if is_one_of p.decision_status ("CONSTRAIN" ∷ "REDUCE" ∷ [])
    then constrained
    else baseline

-- `severe_states`
unfoldable pub is_severe : SystemState → Bool
is_severe pressure_elevated = true
is_severe telemetry_degraded = true
is_severe halt_recommended = true
is_severe halt_active = true
is_severe _ = false

-- `{"NORMAL", "CONSTRAINED_OPERATION"}`
unfoldable pub is_calm : SystemState → Bool
is_calm normal = true
is_calm constrained_operation = true
is_calm _ = false

unfoldable pub is_review : SystemState → Bool
is_review recovery_review_required = true
is_review _ = false

unfoldable pub is_halt : SystemState → Bool
is_halt halt_recommended = true
is_halt halt_active = true
is_halt _ = false

unfoldable pub same_state : SystemState → SystemState → Bool
same_state a b = lower_name a == lower_name b

-- What the previous state makes of the candidate.
unfoldable pub transition : Option StateEntry → Candidate → Candidate
transition none c = c
transition (some previous) c =
    if is_severe previous.system_state && is_calm c.state
    then record {
      state = recovery_review_required;
      reason = "recovery_review_required_after_" ++ lower_name previous.system_state;
      release_condition = "one additional clean admission cycle after recovery review requirement";
    }
    else if is_review previous.system_state && is_calm c.state
    then record c { reason = "recovery_review_cleared_to_" ++ lower_name c.state }
    else c

-- `entered_at`
unfoldable pub entered_at : Option StateEntry → SystemState → String → String
entered_at none next timestamp = timestamp
entered_at (some previous) next timestamp =
    if same_state previous.system_state next
    then text_or timestamp (some previous.state_entered_at)
    else timestamp

abbrev pub entry_of : Option StateEntry → Candidate → String → StateEntry
entry_of previous c timestamp = record {
  system_state = c.state;
  state_transition_reason = c.reason;
  state_entered_at = entered_at previous c.state timestamp;
  state_release_condition = c.release_condition;
}

-- `SYSTEM_STATE_REGISTRY`
abbrev pub Registry : Type 0
Registry = Dict StateEntry

unfoldable pub next_entry : Payload → String → Option StateEntry → StateEntry
next_entry p now previous =
    entry_of previous (transition previous (derive_system_state p)) (text_or now p.timestamp_utc)

-- `_apply_system_state`; `now` is `get_current_timestamp()`.
unfoldable pub apply_system_state : Payload → String → String → Registry → Payload × Registry
apply_system_state p api_key now registry =
    let entry = next_entry p now (registry api_key) in
    (
      record p {
        state = some entry;
        escalation_flag = is_halt entry.system_state || p.escalation_flag;
      },
      put api_key entry registry,
    )
