-- ===== src/Guard.antt =====
-- The runtime guard (retail_context/runtime_guard.py): one row for each request binds it to the
-- digest of its sources, spends one payment continuation, and counts its retries by window.
pub mod Binding
pub mod Attempts
pub mod Retries
pub mod Windows
use sharpe_nova_os.Prelude.{
  ℕ, ◌+◌, Bool, true, false, not, ◌&&◌, ◌||◌, Option, none, some, List, [], ◌∷◌, ◌++◌, String, ◌==◌,
  leb, if◌then◌else◌, ℤ, opt_int_eq, find_first, update_where,
}
use sharpe_nova_os.Exec.{
  Result, ok, err, value_error, runtime_error, sqlite_error, Exec, pure, raise, lift, gets,
  raise_if, ◌>>=◌, ◌>>◌,
}
use sharpe_nova_os.Store.Db.{next_fault, later_faults}
use sharpe_nova_os.Controls.Types.{epoch_or_error, window_start}

pub record RetryDecision : Type 0 where
  pub permitted : Bool
  pub retry_count : ℕ
  pub retry_limit : ℕ
  pub continuation_exempt : Bool

-- `retail_runtime_guards`
pub record GuardRow : Type 0 where
  pub request_id : String
  pub source_binding_digest : String
  pub payment_continuation_used : Bool
  pub retry_window_started_at_epoch : Option ℤ
  pub retry_count : ℕ
  pub updated_at : String
  pub authority_effect : String

-- The database: whether the table exists, its rows, and which connections fail.
pub record GuardDb : Type 0 where
  pub initialized : Bool
  pub guards : List GuardRow
  pub faults : List Bool

abbrev pub connected : GuardDb → GuardDb
connected db = record db { faults = later_faults db.faults }

module _ {A : Type 0} where
  abbrev pub close : GuardDb → Result A × GuardDb → Result A × GuardDb
  close before (ok a, after) = (ok a, after)
  close before (err e, after) = (err e, before)

  -- `self._connect()` up to `connection.close()`: what was not committed is gone.
  unfoldable pub connection : Exec GuardDb A → Exec GuardDb A
  connection work db =
      if next_fault db.faults
      then (err sqlite_error, connected db)
      else close (connected db) (work (connected db))

unfoldable pub initialize : Exec GuardDb Unit
initialize = connection (λ db. (ok tt, record db { initialized = true }))

abbrev pub has_request : String → GuardRow → Bool
has_request request_id r = r.request_id == request_id

-- `SELECT * FROM retail_runtime_guards WHERE request_id = ?`
unfoldable pub find_guard : String → List GuardRow → Option GuardRow
find_guard request_id rs = find_first (has_request request_id) rs

unfoldable pub select_guard : String → Exec GuardDb (Option GuardRow)
select_guard request_id = do
  present ← gets (λ db. db.initialized)
  raise_if (not present) sqlite_error
  gets (λ db. find_guard request_id db.guards)

abbrev pub new_guard : String → String → String → Bool → GuardRow
new_guard request_id digest at used = record {
  request_id = request_id;
  source_binding_digest = digest;
  payment_continuation_used = used;
  retry_window_started_at_epoch = none;
  retry_count = 0;
  updated_at = at;
  authority_effect = "none";
}

unfoldable pub add_guard : GuardRow → Exec GuardDb Unit
add_guard r db = (ok tt, record db { guards = db.guards ++ r ∷ [] })

abbrev pub continued : String → GuardRow → GuardRow
continued at r = record r { payment_continuation_used = true; updated_at = at }

-- `UPDATE … SET payment_continuation_used = 1, updated_at = ? WHERE request_id = ?`
unfoldable pub use_continuation : String → String → Exec GuardDb Unit
use_continuation request_id at db =
    (ok tt, record db { guards = update_where (has_request request_id) (continued at) db.guards })

abbrev pub retried : ℤ → ℕ → String → GuardRow → GuardRow
retried epoch count at r = record r {
  retry_window_started_at_epoch = some epoch;
  retry_count = count;
  updated_at = at;
}

-- `UPDATE … SET retry_window_started_at_epoch = ?, retry_count = ?, updated_at = ? WHERE …`
unfoldable pub write_retry : String → ℤ → ℕ → String → Exec GuardDb Unit
write_retry request_id epoch count at db = (
  ok tt,
  record db { guards = update_where (has_request request_id) (retried epoch count at) db.guards },
)

-- The source binding is reconciled.
abbrev pub is_bound : String → GuardRow → Bool
is_bound digest r = r.source_binding_digest == digest && r.authority_effect == "none"

-- A request with its source binding, seen at a time.
pub record Attempt : Type 0 where
  pub request_id : String
  pub source_binding_digest : String
  pub payment_present : Bool
  pub observed_at : String

unfoldable pub initialize_found : Attempt → Option GuardRow → Exec GuardDb Unit
initialize_found a none =
    add_guard (new_guard a.request_id a.source_binding_digest a.observed_at a.payment_present)
initialize_found a (some r) =
    if not (is_bound a.source_binding_digest r)
    then raise (value_error "source_binding_reconciliation_failed")
    else if a.payment_present && not r.payment_continuation_used
    then use_continuation a.request_id a.observed_at
    else pure tt

-- `initialize_request`; the payment that is already present is that of the attempt.
unfoldable pub initialize_request : Attempt → Exec GuardDb Unit
initialize_request a = connection (do row ← select_guard a.request_id; initialize_found a row)

unfoldable pub current_retries : ℤ → GuardRow → ℕ
current_retries epoch r =
    if opt_int_eq r.retry_window_started_at_epoch (some epoch) then r.retry_count else 0

unfoldable pub count_retry : Attempt → ℤ → ℕ → ℕ → Exec GuardDb RetryDecision
count_retry a epoch retry_limit current =
    if leb retry_limit current
    then pure (record {
      permitted = false;
      retry_count = current;
      retry_limit = retry_limit;
      continuation_exempt = false;
    })
    else (do
      write_retry a.request_id epoch (current + 1) a.observed_at
      pure (record {
        permitted = true;
        retry_count = current + 1;
        retry_limit = retry_limit;
        continuation_exempt = false;
      }))

unfoldable pub consume_bound : Attempt → ℤ → ℕ → GuardRow → Exec GuardDb RetryDecision
consume_bound a epoch retry_limit r =
    if a.payment_present && not r.payment_continuation_used
    then (do
      use_continuation a.request_id a.observed_at
      pure (record {
        permitted = true;
        retry_count = r.retry_count;
        retry_limit = retry_limit;
        continuation_exempt = true;
      }))
    else count_retry a epoch retry_limit (current_retries epoch r)

unfoldable pub consume_found : Attempt → ℤ → ℕ → Option GuardRow → Exec GuardDb RetryDecision
consume_found a epoch retry_limit none = raise (runtime_error "runtime_guard_unavailable")
consume_found a epoch retry_limit (some r) =
    if not (is_bound a.source_binding_digest r)
    then raise (value_error "source_binding_reconciliation_failed")
    else consume_bound a epoch retry_limit r

-- The work of one connection, in the window that starts at `epoch`.
unfoldable pub consume_in_window : Attempt → ℤ → ℕ → Exec GuardDb RetryDecision
consume_in_window a epoch retry_limit =
    connection (do row ← select_guard a.request_id; consume_found a epoch retry_limit row)

-- `epoch_of` reads a time as whole seconds since the epoch (`datetime.fromisoformat`, `timestamp`). A
-- window or a limit below 1 is 0 here. `epoch - epoch % s` is `(epoch // s) * s`.
unfoldable pub consume_existing_attempt :
    (String → Option ℤ) → Attempt → ℕ → ℕ → Exec GuardDb RetryDecision
consume_existing_attempt epoch_of a window_seconds retry_limit = do
  raise_if (leb window_seconds 0 || leb retry_limit 0) (value_error "invalid_retry_limit")
  epoch ← lift (epoch_or_error (epoch_of a.observed_at))
  consume_in_window a (window_start epoch window_seconds) retry_limit

unfoldable pub get_request_guard : String → Exec GuardDb (Option GuardRow)
get_request_guard request_id = connection (select_guard request_id)
