-- ===== src/Governance/HaltRelease.antt =====
-- `_halt_release_config`, `_halt_release_state_for_api_key`, `_parse_release_evidence` and
-- `_evaluate_halt_release_governance` of app.py. Times are microseconds since the epoch, and
-- `isoformat` of a time is given.
use sharpe_nova_os.Prelude.{
  ℕ, zero, suc, ◌+◌, ◌-◌, ◌*◌, ◌/◌, Bool, true, false, ◌&&◌, ◌||◌, Option, none, some, List, [],
  ◌∷◌, String, ◌==◌, leb, opt_eq, one_of, is_some, if◌then◌else◌, Dict, put, get_or, ℤ, pos, negsuc,
}
use sharpe_nova_os.Text.{strip}
use sharpe_nova_os.Text.Split.{split_at, stripped_parts}
use sharpe_nova_os.Governance.SystemState.{StateEntry, Registry, is_halt}

-- What the key record has under `required_evidence`: no such entry, a list, or one other value.
pub data EvidenceEntry : Type 0 where
  default_evidence : EvidenceEntry
  evidence_list : List String → EvidenceEntry
  evidence_item : String → EvidenceEntry

-- The entry `halt_release_governance` of a key record.
pub record RawConfig : Type 0 where
  pub release_authority : Option String
  pub required_evidence : EvidenceEntry
  pub post_release_cooldown_seconds : Option ℤ

pub record ReleaseConfig : Type 0 where
  pub release_authority : String
  pub required_evidence : List String
  pub post_release_cooldown_seconds : ℕ

unfoldable pub evidence_items : EvidenceEntry → List String
evidence_items default_evidence = "control_integrity_review" ∷ "fresh_telemetry_confirmation" ∷ []
evidence_items (evidence_list items) = items
evidence_items (evidence_item item) = item ∷ []

abbrev pub or_text : String → String → String
or_text default s = if s == "" then default else s

-- `max(int(… or 300), 0)`
unfoldable pub cooldown_of : Option ℤ → ℕ
cooldown_of none = 300
cooldown_of (some (pos n)) = elim n [ zero ↦ 300 | suc m ↦ suc m ]
cooldown_of (some (negsuc n)) = 0

unfoldable pub halt_release_config : Option RawConfig → Option ReleaseConfig
halt_release_config none = none
halt_release_config (some c) = some (record {
  release_authority =
      or_text "authorized_operator" (strip (get_or "authorized_operator" c.release_authority));
  required_evidence = stripped_parts (evidence_items c.required_evidence);
  post_release_cooldown_seconds = cooldown_of c.post_release_cooldown_seconds;
})

-- An entry of `HALT_RELEASE_STATE`.
pub record ReleaseState : Type 0 where
  pub cooldown_expiry : Option ℕ
  pub released_at : Option ℕ
  pub release_authority : Option String
  pub release_evidence : List String
  pub re_evaluation_required : Bool

abbrev pub initial_release : ReleaseState
initial_release = record {
  cooldown_expiry = none;
  released_at = none;
  release_authority = none;
  release_evidence = [];
  re_evaluation_required = false;
}

abbrev pub Releases : Type 0
Releases = Dict ReleaseState

-- `_halt_release_state_for_api_key`
unfoldable pub release_state_of : String → Releases → ReleaseState
release_state_of api_key releases = get_or initial_release (releases api_key)

-- `_parse_release_evidence`; 44 is the comma.
unfoldable pub parse_release_evidence : Option String → List String
parse_release_evidence none = []
parse_release_evidence (some text) = if text == "" then [] else stripped_parts (split_at 44 text)

-- `(release_authority_input or "").strip() or None`
unfoldable pub provided_authority : Option String → Option String
provided_authority none = none
provided_authority (some text) = if strip text == "" then none else some (strip text)

pub record Cooldown : Type 0 where
  pub seconds_remaining : ℕ
  pub expires_at : Option String

pub record ReleaseResult : Type 0 where
  pub halt_release_required : Bool
  pub halt_release_authority : Option String
  pub halt_release_evidence : List String
  pub post_release_cooldown : Option Cooldown
  pub re_evaluation_required : Bool
  pub configured : Bool
  pub triggered : Bool
  pub action : Option String
  pub status_code : ℕ
  pub reason : Option String

abbrev pub unconfigured : ReleaseResult
unconfigured = record {
  halt_release_required = false;
  halt_release_authority = none;
  halt_release_evidence = [];
  post_release_cooldown = none;
  re_evaluation_required = false;
  configured = false;
  triggered = false;
  action = none;
  status_code = 200;
  reason = none;
}

-- An expired cooldown is cleared.
unfoldable pub clear_expired : ℕ → ReleaseState → ReleaseState
clear_expired now s = elim s.cooldown_expiry [
  | none ↦ s
  | some expiry ↦ if leb expiry now then record s { cooldown_expiry = none } else s
]

-- `previous_system_state in {"HALT_ACTIVE", "HALT_RECOMMENDED"}`
unfoldable pub is_halted : Option StateEntry → Bool
is_halted none = false
is_halted (some e) = is_halt e.system_state

abbrev pub all_in : List String → List String → Bool
all_in [] provided = true
all_in (item ∷ items) provided = one_of item provided && all_in items provided

abbrev pub microseconds : ℕ → ℕ
microseconds seconds = seconds * 1000000

module _ (isoformat : ℕ → String) (c : ReleaseConfig) (now : ℕ) (halted : Bool) where
  abbrev fields : ReleaseState → ReleaseResult
  fields s = record unconfigured {
    halt_release_required = halted;
    halt_release_authority =
        if halted || is_some s.released_at then some c.release_authority else none;
    halt_release_evidence = if halted then c.required_evidence else s.release_evidence;
    re_evaluation_required = s.re_evaluation_required;
    configured = true;
  }

  unfoldable pub cooling : ReleaseState → ℕ → ReleaseResult
  cooling s expiry = record (fields s) {
    post_release_cooldown = some (record {
      seconds_remaining = (expiry - now) / 1000000;
      expires_at = some (isoformat expiry);
    });
    re_evaluation_required = true;
    triggered = true;
    action = some "DELAY";
    status_code = 429;
    reason = some "post_release_cooldown_active";
  }

  abbrev expiry_of : ℕ
  expiry_of = now + microseconds c.post_release_cooldown_seconds

  unfoldable pub release : Option String → List String → ReleaseState → ReleaseResult × ReleaseState
  release authority evidence s = (
    record (fields s) {
      halt_release_required = false;
      halt_release_authority = some c.release_authority;
      halt_release_evidence = c.required_evidence;
      post_release_cooldown = some (record {
        seconds_remaining = c.post_release_cooldown_seconds;
        expires_at = some (isoformat expiry_of);
      });
      re_evaluation_required = true;
      triggered = true;
      action = some "DELAY";
      status_code = 429;
      reason = some "halt_release_accepted";
    },
    record {
      cooldown_expiry = some expiry_of;
      released_at = some now;
      release_authority = authority;
      release_evidence = evidence;
      re_evaluation_required = true;
    },
  )

  unfoldable pub refuse_release : ReleaseState → ReleaseResult
  refuse_release s = record (fields s) {
    post_release_cooldown =
        some (record { seconds_remaining = c.post_release_cooldown_seconds; expires_at = none });
    triggered = true;
    action = some "HALT";
    status_code = 409;
    reason = some "halt_release_required";
  }

  abbrev or_evidence : List String → List String → List String
  or_evidence default [] = default
  or_evidence default (item ∷ items) = item ∷ items

  abbrev or_authority : Option String → String
  or_authority none = c.release_authority
  or_authority (some a) = or_text c.release_authority a

  unfoldable pub not_halted : ReleaseState → ReleaseResult
  not_halted s =
      if s.re_evaluation_required
      then record (fields s) {
        halt_release_authority = some (or_authority s.release_authority);
        halt_release_evidence = or_evidence c.required_evidence s.release_evidence;
        reason = some "re_evaluation_required";
      }
      else fields s

  -- The evaluation of a key whose cooldown, if it had one, was looked at.
  unfoldable pub decide_release :
      Option String → List String → ReleaseState → Option ℕ → ReleaseResult × ReleaseState
  decide_release authority evidence s (some expiry) = (cooling s expiry, s)
  decide_release authority evidence s none =
      if halted
      then if opt_eq authority (some c.release_authority) && all_in c.required_evidence evidence
        then release authority evidence s
        else (refuse_release s, s)
      else (not_halted s, s)

unfoldable pub evaluate_configured :
    (ℕ → String)
    → ReleaseConfig
    → ℕ
    → Bool
    → Option String
    → List String
    → ReleaseState
    → ReleaseResult × ReleaseState
evaluate_configured isoformat c now halted authority evidence s =
    let current = clear_expired now s in
    decide_release isoformat c now halted authority evidence current current.cooldown_expiry

-- What a request brings for the release of a halt.
pub record ReleaseRequest : Type 0 where
  pub api_key : String
  pub config : Option RawConfig
  pub now : ℕ
  pub authority : Option String
  pub evidence : Option String

abbrev pub evaluate_with :
    (ℕ → String)
    → ReleaseRequest
    → Registry
    → Releases
    → Option ReleaseConfig
    → ReleaseResult × Releases
evaluate_with isoformat q registry releases none = (unconfigured, releases)
evaluate_with isoformat q registry releases (some c) =
    let (result, s) =
      evaluate_configured isoformat c q.now (is_halted (registry q.api_key))
        (provided_authority q.authority) (parse_release_evidence q.evidence)
        (release_state_of q.api_key releases) in
    (result, put q.api_key s releases)

-- `_evaluate_halt_release_governance`
unfoldable pub evaluate_halt_release_governance :
    (ℕ → String) → ReleaseRequest → Registry → Releases → ReleaseResult × Releases
evaluate_halt_release_governance isoformat q registry releases =
    evaluate_with isoformat q registry releases (halt_release_config q.config)

-- The end of a re-evaluation, after an admitted request.
unfoldable pub finish_re_evaluation : String → ReleaseResult → Releases → Releases
finish_re_evaluation api_key result releases =
    if result.re_evaluation_required
    then put api_key (record (release_state_of api_key releases) { re_evaluation_required = false })
        releases
    else releases
