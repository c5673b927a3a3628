-- ===== src/Governance/Queue.antt =====
-- `_queue_governance_config`, `_decision_direction`, `_queue_priority`, `_queue_conflict_key`,
-- `_prune_queue_entries` and `_evaluate_queue_governance` of app.py. SHA-256 and the time of the
-- timestamp are given; an entry has what the evaluation reads of it.
use Prim.Native.String.{◌++◌, slice, compare}
use Prim.Native.Nat.{Ordering}
use mathlib.Core.List.{◌++◌ as ◌++ₗ◌}
use sharpe_nova_os.Prelude.{
  ℕ, suc, ◌+◌, Bool, true, false, not, ◌&&◌, ◌||◌, Option, none, some, List, [], ◌∷◌, String, ◌==◌,
  ltb, leb, eqb, one_of, length, count_in, if◌then◌else◌, Dict, put, get_or, ℤ,
}
use sharpe_nova_os.Governance.Family.{TextHost, normalize_text, decision_family}
use sharpe_nova_os.Governance.HaltRelease.{microseconds}
use sharpe_nova_os.Governance.Temporal.{at_least_zero}
use sharpe_nova_os.Governance.Budget.{risk_increasing_intents}

-- The entry `decision_queue_governance` of a key record.
pub record RawQueue : Type 0 where
  pub request_ttl_seconds : Option ℤ
  pub expire_on_regime_change : Option Bool
  pub expire_on_epoch_change : Option Bool

pub record QueueConfig : Type 0 where
  pub request_ttl_seconds : ℕ
  pub expire_on_regime_change : Bool
  pub expire_on_epoch_change : Bool

unfoldable pub queue_governance_config : Option RawQueue → QueueConfig
queue_governance_config none = record {
  request_ttl_seconds = 0;
  expire_on_regime_change = true;
  expire_on_epoch_change = true;
}
queue_governance_config (some c) = record {
  request_ttl_seconds = at_least_zero c.request_ttl_seconds;
  expire_on_regime_change = get_or true c.expire_on_regime_change;
  expire_on_epoch_change = get_or true c.expire_on_epoch_change;
}

pub record QueueEntry : Type 0 where
  pub request_id : String
  pub priority : String
  pub conflict_key : String
  pub expiry_at : Option ℕ
  pub regime : String
  pub epoch : ℕ
  pub expire_on_regime_change : Bool
  pub expire_on_epoch_change : Bool
  pub sequence : ℕ

-- An entry of `DECISION_QUEUE_STATE`.
pub record QueueState : Type 0 where
  pub entries : List QueueEntry
  pub next_sequence : ℕ

abbrev pub initial_queue : QueueState
initial_queue = record { entries = []; next_sequence = 1 }

unfoldable pub decision_direction : TextHost → Option String → String
decision_direction h intent =
    if one_of (normalize_text h intent) risk_increasing_intents
    then "risk_increasing"
    else if one_of (normalize_text h intent)
        ("reduce_position" ∷ "exit_position" ∷ "decrease_position" ∷ [])
    then "risk_reducing"
    else "general"

unfoldable pub queue_priority : TextHost → Option String → String
queue_priority h intent =
    if decision_direction h intent == "risk_reducing"
    then "high"
    else if decision_direction h intent == "risk_increasing"
    then "normal"
    else "low"

unfoldable pub queue_priority_rank : String → ℕ
queue_priority_rank priority =
    if priority == "high"
    then 0
    else if priority == "normal"
    then 1
    else if priority == "low"
    then 2
    else 1

unfoldable pub queue_conflict_key : TextHost → Option String → Option String → String
queue_conflict_key h intent asset =
    if normalize_text h asset == ""
    then "family:" ++ decision_family h intent asset
    else "asset:" ++ normalize_text h asset

abbrev is_reached : ℕ → Option ℕ → Bool
is_reached now none = false
is_reached now (some expiry) = leb expiry now

unfoldable pub is_active : ℕ → String → ℕ → QueueEntry → Bool
is_active now regime epoch e =
    not (is_reached now e.expiry_at)
    && not (e.expire_on_regime_change && not (e.regime == regime))
    && not (e.expire_on_epoch_change && not (eqb e.epoch epoch))

unfoldable pub active_entries : ℕ → String → ℕ → List QueueEntry → List QueueEntry
active_entries now regime epoch [] = []
active_entries now regime epoch (e ∷ es) =
    let rest = active_entries now regime epoch es in
    if is_active now regime epoch e then e ∷ rest else rest

-- `entries[-25:]`
unfoldable pub last_25 : List QueueEntry → List QueueEntry
last_25 [] = []
last_25 (e ∷ es) = let rest = last_25 es in if leb (length (e ∷ es)) 25 then e ∷ es else rest

unfoldable pub prune_queue_entries : ℕ → String → ℕ → List QueueEntry → List QueueEntry
prune_queue_entries now regime epoch es = last_25 (active_entries now regime epoch es)

abbrev text_before : String → String → Bool
text_before a b = elim (compare a b) [ Ordering.lt ↦ true | _ ↦ false ]

-- The order of the sorting keys.
unfoldable pub comes_before : QueueEntry → QueueEntry → Bool
comes_before a b =
    let rank = queue_priority_rank a.priority in
    let other = queue_priority_rank b.priority in
    ltb rank other
    || eqb rank other
      && (ltb a.sequence b.sequence
          || eqb a.sequence b.sequence && text_before a.request_id b.request_id)

unfoldable pub insert_sorted : QueueEntry → List QueueEntry → List QueueEntry
insert_sorted x [] = x ∷ []
insert_sorted x (y ∷ ys) =
    let rest = insert_sorted x ys in if comes_before y x then y ∷ rest else x ∷ y ∷ ys

-- `sorted(entries, key=…)`, which is stable.
unfoldable pub sorted : List QueueEntry → List QueueEntry
sorted [] = []
sorted (e ∷ es) = insert_sorted e (sorted es)

abbrev pub has_sequence : ℕ → QueueEntry → Bool
has_sequence n e = eqb e.sequence n

-- `next(index for … in enumerate(entries, start) if …)`; without such an entry it raises.
unfoldable pub position_from : ℕ → ℕ → List QueueEntry → Option ℕ
position_from start n [] = none
position_from start n (e ∷ es) =
    let rest = position_from (suc start) n es in if has_sequence n e then some start else rest

pub record QueueResult : Type 0 where
  pub queue_priority : String
  pub queue_position : Option ℕ
  pub conflict_group_id : Option String
  pub batch_review_required : Bool
  pub request_expiry_at : Option String

-- A request, with the time of its timestamp.
pub record QueueRequest : Type 0 where
  pub api_key : String
  pub config : Option RawQueue
  pub intent : Option String
  pub asset : Option String
  pub request_id : String
  pub now : ℕ
  pub epoch : ℕ

module _ (h : TextHost) (sha256 : String → String) (regime : String) (q : QueueRequest) where
  abbrev expiry_of : Option ℕ
  expiry_of =
      if ltb 0 (queue_governance_config q.config).request_ttl_seconds
      then some (q.now + microseconds (queue_governance_config q.config).request_ttl_seconds)
      else none

  abbrev pub candidate : ℕ → QueueEntry
  candidate sequence = record {
    request_id = q.request_id;
    priority = queue_priority h q.intent;
    conflict_key = queue_conflict_key h q.intent q.asset;
    expiry_at = expiry_of;
    regime = regime;
    epoch = q.epoch;
    expire_on_regime_change = (queue_governance_config q.config).expire_on_regime_change;
    expire_on_epoch_change = (queue_governance_config q.config).expire_on_epoch_change;
    sequence = sequence;
  }

  abbrev iso : Option ℕ → Option String
  iso none = none
  iso (some t) = some (h.isoformat t)

  abbrev in_conflict : List QueueEntry → Bool
  in_conflict es =
      ltb 1 (count_in (λ e. e.conflict_key == queue_conflict_key h q.intent q.asset) es)

  -- The answer for the candidate among the entries.
  unfoldable pub placed : ℕ → List QueueEntry → QueueResult
  placed sequence es = record {
    queue_priority = queue_priority h q.intent;
    queue_position = position_from 1 sequence (sorted es);
    conflict_group_id =
        if in_conflict es
        then some (slice (sha256 (queue_conflict_key h q.intent q.asset)) 0 12)
        else none;
    batch_review_required = in_conflict es;
    request_expiry_at = iso expiry_of;
  }

  unfoldable pub enqueue : QueueState → QueueResult × QueueState
  enqueue s =
      let es =
        prune_queue_entries q.now regime q.epoch s.entries ++ₗ candidate s.next_sequence ∷ [] in
      (placed s.next_sequence es, record { entries = es; next_sequence = suc s.next_sequence })

  -- `_evaluate_queue_governance`, over `DECISION_QUEUE_STATE`.
  unfoldable pub evaluate_queue_governance : Dict QueueState → QueueResult × Dict QueueState
  evaluate_queue_governance queues =
      let (result, s) = enqueue (get_or initial_queue (queues q.api_key)) in
      (result, put q.api_key s queues)
