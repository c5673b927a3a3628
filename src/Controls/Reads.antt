-- ===== src/Controls/Reads.antt =====
-- What the controls (retail_context/production_controls.py) learn from the store's answers.
use sharpe_nova_os.Prelude.{
  ℕ, ◌+◌, ◌≤◌, ◌≡◌, refl, ap, ◌∙◌, true, not, ◌||◌, Option, String, leb, arith,
}
use sharpe_nova_os.Exec.{Result, ok, err, pure, lift, gets, ◌>>=◌, ◌>>◌}
use sharpe_nova_os.Exec.Yields.{Yields, Yields-if, Yields-bind, Yields-map, Yields-raise_if}
use sharpe_nova_os.Store.Db.{
  Db, ServiceState, connected, connection, require_table, is_resource_type,
}
use sharpe_nova_os.Store.Db.Yields.{connection-Yields}
use sharpe_nova_os.Store.Mode.{
  is_healthy, health_snapshot, health_of, all_checks, report_unavailable, get_service_mode, mode_of,
}
use sharpe_nova_os.Store.RateLimit.{
  RateLimitDecision, Window, current_count, write_count, decide_count, count_request,
  consume_rate_limit,
}

pub is_healthy-health :
    (db : Db) → Yields (λ b t. b ≡ true → all_checks (health_of db) ≡ true) (is_healthy db)
unfolding is_healthy health_snapshot connection report_unavailable health_of ◌>>=◌
is_healthy-health db = ground arith

pub is_healthy-limits : (db : Db) → (is_healthy db).1.rate_limits ≡ db.rate_limits
unfolding is_healthy health_snapshot connection report_unavailable ◌>>=◌
is_healthy-limits db = ground arith

pub is_healthy-state : (db : Db) → (is_healthy db).1.service_state ≡ db.service_state
unfolding is_healthy health_snapshot connection report_unavailable ◌>>=◌
is_healthy-state db = ground arith

pub get_service_mode-limits : (db : Db) → (get_service_mode db).1.rate_limits ≡ db.rate_limits
unfolding get_service_mode connection require_table ◌>>=◌
get_service_mode-limits db = ground arith

lift-Yields : {A : Type 0} (r : Result A) (db : Db) → Yields (λ a t. r ≡ ok a) (lift r db)
unfolding lift
lift-Yields (ok a) db = refl
lift-Yields (err e) db = tt

state_row-reads :
    (db : Db) (row : Option ServiceState)
    → (connection (require_table "retail_service_state" >> gets (λ s. s.service_state)) db).0
      ≡ ok row
    → db.service_state ≡ row
unfolding connection require_table gets ◌>>=◌
state_row-reads db row e = ground arith

pub get_service_mode-reads :
    (db : Db) → Yields (λ m t. mode_of db.service_state ≡ ok m) (get_service_mode db)
unfolding get_service_mode
get_service_mode-reads db =
    let read = connection (require_table "retail_service_state" >> gets (λ s. s.service_state)) in
    Yields-bind (λ m t. mode_of db.service_state ≡ ok m) read (λ row. lift (mode_of row)) db
      (λ row e.
        Yields-map (λ m t. mode_of row ≡ ok m) (λ m t. mode_of db.service_state ≡ ok m)
          (lift (mode_of row) (read db).1)
          (λ m t same. ap mode_of (state_row-reads db row e) ∙ same)
          (lift-Yields (mode_of row) (read db).1))

count_request-decides :
    (w : Window) (limit : ℕ) (at : String) (db : Db)
    → Yields
        (λ d t.
          d.permitted ≡ true
          → (current_count w db.rate_limits + 1 ≤ limit)
            × (d.request_count ≡ current_count w db.rate_limits + 1))
        (decide_count w limit at (current_count w db.rate_limits) db)
unfolding decide_count write_count pure ◌>>=◌
count_request-decides w limit at db =
    Yields-if _ (leb limit (current_count w db.rate_limits)) _ _ db (λ _ no. absurd (cc))
      (λ room _. (ground arith, refl))

pub consume-decides :
    (w : Window) (limit : ℕ) (at : String) (db : Db)
    → Yields
        (λ d t.
          d.permitted ≡ true
          → (current_count w db.rate_limits + 1 ≤ limit)
            × (d.request_count ≡ current_count w db.rate_limits + 1))
        (consume_rate_limit w limit at db)
unfolding consume_rate_limit count_request require_table gets ◌>>=◌
consume-decides w limit at db =
    let Q : RateLimitDecision → Db → Type 0 = λ d t.
      d.permitted ≡ true
      → (current_count w db.rate_limits + 1 ≤ limit)
        × (d.request_count ≡ current_count w db.rate_limits + 1) in
    Yields-raise_if Q (not (is_resource_type w.resource_type) || leb limit 0) _ _ db (λ _.
      connection-Yields Q (count_request w limit at) db (
        Yields-bind Q (require_table "retail_rate_limits") _ (connected db)
          (λ _ _. count_request-decides w limit at (connected db))))
