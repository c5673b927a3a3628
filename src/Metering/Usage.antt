-- ===== src/Metering/Usage.antt =====
-- core/usage_meter.py. A stored record has all its entries; the file is what `_write_state` wrote last,
-- and reading it gives this back.
use sharpe_nova_os.Prelude.{
  ℕ, suc, Bool, Option, none, some, String, ◌==◌, ltb, if◌then◌else◌, Dict, put, get_or,
}

pub record UsageRecord : Type 0 where
  pub actor_id : String
  pub context_calls : ℕ
  pub proof_calls : ℕ
  pub first_seen : Option String
  pub last_seen : Option String
  pub usage_state : String

-- `_USAGE_STATE` and its file.
pub record UsageStore : Type 0 where
  pub records : Dict UsageRecord
  pub file : Dict UsageRecord

-- `FREE_CONTEXT_CALL_LIMIT`
abbrev pub free_context_call_limit : ℕ
free_context_call_limit = 50

-- `actor_id or ANONYMOUS_ACTOR_ID`
unfoldable pub known_actor : String → String
known_actor actor = if actor == "" then "anonymous" else actor

unfoldable pub empty_usage_record : String → UsageRecord
empty_usage_record actor = record {
  actor_id = known_actor actor;
  context_calls = 0;
  proof_calls = 0;
  first_seen = none;
  last_seen = none;
  usage_state = "evaluation";
}

-- The two times that a call reads, and whether its write of the file succeeds.
pub record CallTimes : Type 0 where
  pub now : String
  pub later : String
  pub writes : Bool

unfoldable pub ensure_usage_record : String → String → Dict UsageRecord → UsageRecord
ensure_usage_record actor now records =
    let r = get_or (empty_usage_record (known_actor actor)) (records (known_actor actor)) in
    record r { actor_id = known_actor actor; first_seen = some (get_or now r.first_seen) }

-- The record goes into the memory; the call returns it if the file is written too.
unfoldable pub save_usage :
    CallTimes → String → UsageRecord → UsageStore → Option UsageRecord × UsageStore
save_usage t actor r s =
    let records = put (known_actor actor) r s.records in
    if t.writes
    then (some r, record { records = records; file = records })
    else (none, record { records = records; file = s.file })

unfoldable pub counted_context : CallTimes → UsageRecord → UsageRecord
counted_context t r = record r {
  context_calls = suc r.context_calls;
  last_seen = some t.later;
  usage_state =
      if ltb free_context_call_limit (suc r.context_calls)
      then "evaluation_limit_reached"
      else r.usage_state;
}

unfoldable pub increment_context_call :
    CallTimes → String → UsageStore → Option UsageRecord × UsageStore
increment_context_call t actor s =
    save_usage t actor (counted_context t (ensure_usage_record actor t.now s.records)) s

unfoldable pub counted_proof : CallTimes → UsageRecord → UsageRecord
counted_proof t r = record r { proof_calls = suc r.proof_calls; last_seen = some t.later }

unfoldable pub increment_proof_call :
    CallTimes → String → UsageStore → Option UsageRecord × UsageStore
increment_proof_call t actor s =
    save_usage t actor (counted_proof t (ensure_usage_record actor t.now s.records)) s

unfoldable pub get_usage_record : String → UsageStore → UsageRecord
get_usage_record actor s =
    get_or (empty_usage_record (known_actor actor)) (s.records (known_actor actor))

-- A new process reads the file.
unfoldable pub load_usage : UsageStore → UsageStore
load_usage s = record s { records = s.file }
