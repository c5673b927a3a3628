-- ===== src/Store/Limits.antt =====
-- The rate limit holds over every history of the control store (retail_context/control_store.py): a
-- window counts exactly the requests that it permitted, and permits no more than its limit.
use sharpe_nova_os.Prelude.{
  ℕ, ◌+◌, ◌≤◌, ◌<◌, ◌≡◌, refl, ◌∙◌, Bool, true, false, ◌&&◌, some, List, [], ◌∷◌, String, arith,
  if◌then◌else◌, find_first,
}
use sharpe_nova_os.Exec.{Result, ok, err, ◌>>=◌}
use sharpe_nova_os.Exec.Evolve.{IsPreorder, Evolves}
use sharpe_nova_os.Telemetry.{TelemetryEvent, Incident, build_retail_telemetry_event}
use sharpe_nova_os.Store.Db.{Db, RateLimitRow, connection, require_table}
use sharpe_nova_os.Store.Db.Evolve.{IsDbPreorder}
use sharpe_nova_os.Store.Methods.{method_rules}
use sharpe_nova_os.Store.Audit.{
  store_event, store_incident, insert_telemetry, insert_incident, unless_post_commit,
  record_telemetry, record_incident,
}
use sharpe_nova_os.Store.Mode.{
  create_schema, initialize, get_service_mode, write_mode, set_service_mode, report_unavailable,
  health_snapshot, is_healthy,
}
use sharpe_nova_os.Store.RateLimit.{
  RateLimitDecision, Window, in_window, count_of, current_count, write_count, decide_count,
  count_request, consume_rate_limit,
}
use sharpe_nova_os.Store.Claims.{
  add_payment, accept_claim, claim_or_refuse, claim_payment, get_payment_claim,
  get_payment_claim_by_settlement,
}
use sharpe_nova_os.Store.Deliveries.{
  Mark, mark_rows, add_delivery_incident, mark_pending, mark_delivery,
}
use sharpe_nova_os.Store.Requests.{
  add_request, admit_request, record_runtime_request, get_runtime_request,
}
use sharpe_nova_os.Store.Calls.{Call, perform, history}
use sharpe_nova_os.Store.Accounting.{same_window, in_window_congr, current_count-upsert}

abbrev pub was_permitted : Result RateLimitDecision → Bool
was_permitted (ok d) = d.permitted
was_permitted (err _) = false

current_count-congr :
    (v w : Window) (rs : List RateLimitRow)
    → same_window v w ≡ true
    → current_count v rs ≡ current_count w rs
unfolding current_count
current_count-congr v w [] h = refl
current_count-congr v w (r ∷ rs) h =
    rw (in_window_congr v w r h) (pick (in_window w r) (current_count-congr v w rs h))
  where
    pick :
        (b : Bool)
        → count_of (find_first (in_window v) rs) ≡ count_of (find_first (in_window w) rs)
        → count_of (if b then some r else find_first (in_window v) rs)
          ≡ count_of (if b then some r else find_first (in_window w) rs)
    pick true e = refl
    pick false e = e

-- One call of `consume_rate_limit` counts a request that it permits, in its own window alone, and
-- permits it only below the limit.
consume-counts :
    (v w : Window) (limit : ℕ) (at : String) (db : Db)
    → (current_count w (consume_rate_limit v limit at db).1.rate_limits
        ≡ current_count w db.rate_limits
          + (if same_window v w && was_permitted (consume_rate_limit v limit at db).0
              then 1
              else 0))
      × (was_permitted (consume_rate_limit v limit at db).0 ≡ true
          → current_count v db.rate_limits < limit)
unfolding consume_rate_limit connection count_request require_table decide_count write_count ◌>>=◌
consume-counts v w limit at db = ground (
  arith,
  current_count-congr v w db.rate_limits,
  current_count-upsert v w (current_count v db.rate_limits + 1) at db.rate_limits,
)

-- A delivery mark writes no rate limit.
abbrev SameRates : Db → Db → Type 0
SameRates s t = s.rate_limits ≡ t.rate_limits

SameRates-order : IsPreorder SameRates
SameRates-order = record { reflexive = λ s. refl; transitive = λ s t u p q. p ∙ q }

SameRates-db : IsDbPreorder SameRates
SameRates-db = record { order = SameRates-order; faults_free = λ s fs. refl }

SameRates-event : (e : TelemetryEvent) → Evolves SameRates (store_event e)
unfolding store_event
SameRates-event e = record { at = λ s. refl }

SameRates-incident : (i : Incident) → Evolves SameRates (store_incident i)
unfolding store_incident
SameRates-incident i = record { at = λ s. refl }

SameRates-mark : (m : Mark) → Evolves SameRates (mark_rows m)
unfolding mark_rows
SameRates-mark m = record { at = λ s. refl }

ruleset rate_rules = (
  method_rules, SameRates-order, SameRates-db, SameRates-event, SameRates-incident, SameRates-mark,
)

mark_delivery-SameRates :
    (sha256 : String → String) (m : Mark) → Evolves SameRates (mark_delivery sha256 m)
unfolding mark_delivery mark_pending add_delivery_incident insert_telemetry insert_incident
mark_delivery-SameRates sha256 m = search rate_rules depth 30

count_kept :
    (w : Window) (s t : Db)
    → SameRates s t
    → current_count w t.rate_limits ≡ current_count w s.rate_limits + 0
count_kept w s t p = rw p (omega arith)

module _ (sha256 : String → String) (w : Window) where
  -- How many requests of the window a call permits.
  pub permits : Call → Db → ℕ
  permits (Call.consume_rate_limit v limit at) db =
      if same_window v w && was_permitted (consume_rate_limit v limit at db).0 then 1 else 0
  permits _ db = 0

  pub total_permits : List Call → Db → ℕ
  unfolding permits
  total_permits [] db = 0
  total_permits (c ∷ cs) db = permits c db + total_permits cs (perform sha256 c db)

  permits-counts :
      (c : Call) (db : Db)
      → current_count w (perform sha256 c db).rate_limits
        ≡ current_count w db.rate_limits + permits c db
  unfolding permits perform
  permits-counts (Call.consume_rate_limit v limit at) db = (consume-counts v w limit at db).0
  permits-counts Call.initialize db = unfold initialize connection create_schema in ground arith
  permits-counts Call.is_healthy db =
      unfold is_healthy health_snapshot connection report_unavailable ◌>>=◌ in ground arith
  permits-counts Call.get_service_mode db =
      unfold get_service_mode connection require_table ◌>>=◌ in ground arith
  permits-counts (Call.set_service_mode m at) db =
      unfold set_service_mode connection require_table write_mode ◌>>=◌ in ground arith
  permits-counts (Call.claim_payment c status) db =
      unfold claim_payment connection require_table claim_or_refuse accept_claim insert_telemetry
        store_event add_payment build_retail_telemetry_event ◌>>=◌ in
      ground arith
  permits-counts (Call.get_payment_claim c) db =
      unfold get_payment_claim connection require_table ◌>>=◌ in ground arith
  permits-counts (Call.get_payment_claim_by_settlement n r) db =
      unfold get_payment_claim_by_settlement connection require_table ◌>>=◌ in ground arith
  permits-counts (Call.mark_delivery m) db =
      count_kept w db (mark_delivery sha256 m db).1 ((mark_delivery-SameRates sha256 m).at db)
  permits-counts (Call.record_telemetry e) db =
      unfold record_telemetry connection insert_telemetry require_table store_event
        unless_post_commit ◌>>=◌ in
      ground arith
  permits-counts (Call.record_incident i) db =
      unfold record_incident connection insert_incident require_table store_incident
        unless_post_commit ◌>>=◌ in
      ground arith
  permits-counts (Call.get_runtime_request k) db =
      unfold get_runtime_request connection require_table ◌>>=◌ in ground arith
  permits-counts (Call.record_runtime_request q) db =
      unfold record_runtime_request connection require_table admit_request add_request ◌>>=◌ in
      ground arith

-- What the program configures: no call asks for more than `limit` in the window.
abbrev pub LimitsAtMost : ℕ → Window → List Call → Type 0
LimitsAtMost limit w [] = Unit
LimitsAtMost limit w (Call.consume_rate_limit v l at ∷ cs) =
    (same_window v w ≡ true → l ≤ limit) × LimitsAtMost limit w cs
LimitsAtMost limit w (_ ∷ cs) = LimitsAtMost limit w cs

-- A permitted request leaves its window within the limit.
consume-le-limit :
    (v w : Window) (l limit : ℕ) (at : String) (db : Db)
    → (same_window v w ≡ true → l ≤ limit)
    → current_count w db.rate_limits ≤ limit
    → current_count w (consume_rate_limit v l at db).1.rate_limits ≤ limit
consume-le-limit v w l limit at db cap h =
    let (counts, below) = consume-counts v w l at db in
    split (same_window v w) (was_permitted (consume_rate_limit v l at db).0) counts below cap
      (current_count-congr v w db.rate_limits)
  where
    split :
        (b p : Bool) {n : ℕ}
        → n ≡ current_count w db.rate_limits + (if b && p then 1 else 0)
        → (p ≡ true → current_count v db.rate_limits < l)
        → (b ≡ true → l ≤ limit)
        → (b ≡ true → current_count v db.rate_limits ≡ current_count w db.rate_limits)
        → n ≤ limit
    split b p e below cap same = ground arith

module _ (sha256 : String → String) (w : Window) where
  -- The stored count of a window grows, over any history, by the number of requests that were
  -- permitted in this window.
  pub total_permits-counts :
      (cs : List Call) (db : Db)
      → current_count w (history sha256 cs db).rate_limits
        ≡ current_count w db.rate_limits + total_permits sha256 w cs db
  unfolding history total_permits
  total_permits-counts [] db = omega arith
  total_permits-counts (c ∷ cs) db =
      omega (arith, permits-counts sha256 w c db, total_permits-counts cs (perform sha256 c db))

  count-le-limit :
      (limit : ℕ) (cs : List Call) (db : Db)
      → LimitsAtMost limit w cs
      → current_count w db.rate_limits ≤ limit
      → current_count w (history sha256 cs db).rate_limits ≤ limit
  unfolding history perform
  count-le-limit limit [] db cap h = h
  count-le-limit limit (Call.consume_rate_limit v l at ∷ cs) db cap h =
      count-le-limit limit cs (perform sha256 (Call.consume_rate_limit v l at) db) cap.1
        (consume-le-limit v w l limit at db cap.0 h)
  count-le-limit limit (c ∷ cs) db cap h =
      count-le-limit limit cs (perform sha256 c db) cap
        (rw (permits-counts sha256 w c db) (unfold permits in omega arith))

  -- Over any history of calls whose limit for a window is at most `limit`, from a window that has not
  -- passed it, the count stays within `limit` and so does the number of requests permitted.
  pub total_permits-le-limit :
      (limit : ℕ) (cs : List Call) (db : Db)
      → LimitsAtMost limit w cs
      → current_count w db.rate_limits ≤ limit
      → (current_count w (history sha256 cs db).rate_limits ≤ limit)
        × (total_permits sha256 w cs db ≤ limit)
  total_permits-le-limit limit cs db cap h = (
    count-le-limit limit cs db cap h,
    omega (arith, count-le-limit limit cs db cap h, total_permits-counts cs db),
  )
