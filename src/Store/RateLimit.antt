-- ===== src/Store/RateLimit.antt =====
-- Rate limits of the control store: `consume_rate_limit` of retail_context/control_store.py.
use sharpe_nova_os.Prelude.{
  ℕ, ◌+◌, Bool, true, false, not, ◌&&◌, ◌||◌, Option, none, some, List, [], ◌∷◌, String, ◌==◌, leb,
  if◌then◌else◌, ℤ, int_eq, find_first,
}
use sharpe_nova_os.Exec.{value_error, ok, Exec, pure, gets, raise_if, ◌>>=◌, ◌>>◌}
use sharpe_nova_os.Store.Db.{Db, RateLimitRow, connection, require_table, is_resource_type}

pub record RateLimitDecision : Type 0 where
  pub permitted : Bool
  pub request_count : ℕ
  pub limit : ℕ
  pub window_started_at_epoch : ℤ

-- The primary key of `retail_rate_limits`.
pub record Window : Type 0 where
  pub subject_hash : String
  pub resource_type : String
  pub window_started_at_epoch : ℤ

abbrev pub in_window : Window → RateLimitRow → Bool
in_window w r =
    r.subject_hash == w.subject_hash
    && r.resource_type == w.resource_type
    && int_eq r.window_started_at_epoch w.window_started_at_epoch

abbrev pub count_of : Option RateLimitRow → ℕ
count_of none = 0
count_of (some r) = r.request_count

-- How many requests a window has counted.
unfoldable pub current_count : Window → List RateLimitRow → ℕ
current_count w rs = count_of (find_first (in_window w) rs)

-- `INSERT … ON CONFLICT(…) DO UPDATE SET request_count = …, updated_at = …`
unfoldable pub upsert_count : Window → ℕ → String → List RateLimitRow → List RateLimitRow
upsert_count w n at [] =
    record {
      subject_hash = w.subject_hash;
      resource_type = w.resource_type;
      window_started_at_epoch = w.window_started_at_epoch;
      request_count = n;
      updated_at = at;
    }
    ∷ []
upsert_count w n at (r ∷ rs) =
    let rest = upsert_count w n at rs in
    if in_window w r then record r { request_count = n; updated_at = at } ∷ rs else r ∷ rest

unfoldable pub write_count : Window → ℕ → String → Exec Db Unit
write_count w n at db = (ok tt, record db { rate_limits = upsert_count w n at db.rate_limits })

abbrev pub decision : Bool → ℕ → ℕ → Window → RateLimitDecision
decision permitted count limit w = record {
  permitted = permitted;
  request_count = count;
  limit = limit;
  window_started_at_epoch = w.window_started_at_epoch;
}

unfoldable pub decide_count : Window → ℕ → String → ℕ → Exec Db RateLimitDecision
decide_count w limit at current =
    if leb limit current
    then pure (decision false current limit w)
    else write_count w (current + 1) at >> pure (decision true (current + 1) limit w)

-- The work under `BEGIN IMMEDIATE`.
unfoldable pub count_request : Window → ℕ → String → Exec Db RateLimitDecision
count_request w limit at = do
  require_table "retail_rate_limits"
  current ← gets (λ db. current_count w db.rate_limits)
  decide_count w limit at current

unfoldable pub consume_rate_limit : Window → ℕ → String → Exec Db RateLimitDecision
consume_rate_limit w limit at = do
  raise_if (not (is_resource_type w.resource_type) || leb limit 0)
      (value_error "invalid_rate_limit")
  connection (count_request w limit at)
