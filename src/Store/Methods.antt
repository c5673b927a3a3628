-- ===== src/Store/Methods.antt =====
-- Every method of the control store (retail_context/control_store.py) is built of a few writes under
-- their guards: a relation between states that allows these writes allows every run of a method.
use sharpe_nova_os.Prelude.{
  ℕ, ◌+◌, ◌≡◌, ◌⊎◌, Bool, true, false, not, ◌&&◌, ◌||◌, eqb, opt_negative, [], ◌∷◌, ◌++◌, String,
  refl, arith, eq_iff, leb, one_of, if◌then◌else◌,
}
use sharpe_nova_os.Exec.{Error, sqlite_error, pure, lift, gets, ◌>>=◌, ◌>>◌}
use sharpe_nova_os.Exec.Evolve.{
  IsPreorder, Evolves, Evolves-guard, Evolves-read, Evolves-pure, Evolves-gets, Evolves-bind,
  Evolves-lift, evolve_rules,
}
use sharpe_nova_os.Telemetry.{TelemetryEvent, Incident, build_retail_telemetry_event}
use sharpe_nova_os.Store.Db.{Db, ServiceState, Claim, PaymentRow, RuntimeRequest}
use sharpe_nova_os.Store.Db.Evolve.{IsDbPreorder, Evolves-connection, Evolves-require_table}
use sharpe_nova_os.Store.Audit.{
  store_event, store_incident, insert_telemetry, insert_incident, unless_post_commit,
  record_telemetry, record_incident,
}
use sharpe_nova_os.Store.Mode.{
  create_schema, initialize, get_service_mode, write_mode, set_service_mode, report_unavailable,
  health_snapshot, is_healthy,
}
use sharpe_nova_os.Store.RateLimit.{
  Window, current_count, write_count, decide_count, decision, count_request, consume_rate_limit,
}
use sharpe_nova_os.Store.Claims.{
  new_row, insert_fails, accepted, add_payment, claimed_event, find_claim, accept_claim,
  claim_or_refuse, claim_payment, get_payment_claim, get_payment_claim_by_settlement,
}
use sharpe_nova_os.Store.Deliveries.{
  Mark, mark_rows, fetched, delivery_event, add_delivery_incident, mark_pending, mark_delivery,
}
use sharpe_nova_os.Store.Requests.{
  add_request, request_is_refused, admit_request, record_runtime_request, get_runtime_request,
}

-- The statuses that a delivery mark sets.
abbrev pub IsFinal : String → Type 0
IsFinal s = (s ≡ "delivered") ⊎ (s ≡ "failed")

-- The metrics of a mark keep to the checks of the row.
abbrev pub HasMetrics : Mark → Type 0
HasMetrics m =
    (opt_negative m.response_bytes ≡ false) × (opt_negative m.processing_duration_ms ≡ false)

-- What a relation must allow: each write, where its guard has passed.
pub record Writes (R : Db → Db → Type 0) : Type 0 where
  pub db : IsDbPreorder R
  pub event : (e : TelemetryEvent) → Evolves R (store_event e)
  pub incident : (i : Incident) → Evolves R (store_incident i)
  pub schema : Evolves R create_schema
  pub mode : (m : ServiceState) → Evolves R (write_mode m)
  pub count :
      (w : Window) (limit : ℕ) (at : String) (s : Db)
      → leb limit (current_count w s.rate_limits) ≡ false
      → R s (write_count w (current_count w s.rate_limits + 1) at s).1
  pub payment :
      (c : Claim) (status : String) (s : Db)
      → insert_fails c status s.payments ≡ false
      → R s (add_payment (new_row c status) s).1
  pub marks : (m : Mark) → IsFinal m.status → HasMetrics m → Evolves R (mark_rows m)
  pub request :
      (q : RuntimeRequest) (s : Db)
      → request_is_refused q s.runtime_requests ≡ false
      → R s (add_request q s).1

pub ruleset method_rules = (evolve_rules, Evolves-connection, Evolves-require_table)

module _ {R : Db → Db → Type 0} (allow : Writes R) where
  rows : IsPreorder R
  rows = allow.db.order

  insert_telemetry-Evolves : (e : TelemetryEvent) → Evolves R (insert_telemetry e)
  unfolding insert_telemetry
  insert_telemetry-Evolves e = search (method_rules, rows, allow.db, allow.event)

  insert_incident-Evolves : (i : Incident) → Evolves R (insert_incident i)
  unfolding insert_incident
  insert_incident-Evolves i = search (method_rules, rows, allow.db, allow.incident)

  unless_post_commit-Evolves : (b : Bool) (e : Error) → Evolves R (unless_post_commit b e)
  unfolding unless_post_commit
  unless_post_commit-Evolves b sqlite_error = search (method_rules, rows)
  unless_post_commit-Evolves b _ = search (method_rules, rows)

  pub record_telemetry-Evolves : (e : TelemetryEvent) → Evolves R (record_telemetry e)
  unfolding record_telemetry
  record_telemetry-Evolves e =
      search (method_rules, rows, allow.db, insert_telemetry-Evolves, unless_post_commit-Evolves)

  pub record_incident-Evolves : (i : Incident) → Evolves R (record_incident i)
  unfolding record_incident
  record_incident-Evolves i =
      search (method_rules, rows, allow.db, insert_incident-Evolves, unless_post_commit-Evolves)

  pub initialize-Evolves : Evolves R initialize
  unfolding initialize
  initialize-Evolves = search (method_rules, allow.db, allow.schema)

  pub get_service_mode-Evolves : Evolves R get_service_mode
  unfolding get_service_mode
  get_service_mode-Evolves = search (method_rules, rows, allow.db)

  pub set_service_mode-Evolves : (mode at : String) → Evolves R (set_service_mode mode at)
  unfolding set_service_mode
  set_service_mode-Evolves mode at = search (method_rules, rows, allow.db, allow.mode) depth 9

  report_unavailable-Evolves : (e : Error) → Evolves R (report_unavailable e)
  unfolding report_unavailable
  report_unavailable-Evolves sqlite_error = search (method_rules, rows)
  report_unavailable-Evolves _ = search (method_rules, rows)

  pub health_snapshot-Evolves : Evolves R health_snapshot
  unfolding health_snapshot
  health_snapshot-Evolves = search (method_rules, rows, allow.db, report_unavailable-Evolves)

  pub is_healthy-Evolves : Evolves R is_healthy
  unfolding is_healthy
  is_healthy-Evolves = search (method_rules, rows, health_snapshot-Evolves)

  decide_count-at :
      (w : Window) (limit : ℕ) (at : String) (s : Db)
      → R s (decide_count w limit at (current_count w s.rate_limits) s).1
  unfolding decide_count ◌>>=◌ write_count
  decide_count-at w limit at s =
      branch (leb limit (current_count w s.rate_limits)) (allow.count w limit at s)
    where
      branch :
          (b : Bool)
          → (b ≡ false → R s (write_count w (current_count w s.rate_limits + 1) at s).1)
          → R s
              ((if b
                  then pure (decision false (current_count w s.rate_limits) limit w)
                  else (write_count w (current_count w s.rate_limits + 1) at >>= λ _.
                      pure (decision true (current_count w s.rate_limits + 1) limit w)))
                s).1
      branch true h = rows.reflexive s
      branch false h = h refl

  pub consume_rate_limit-Evolves :
      (w : Window) (limit : ℕ) (at : String) → Evolves R (consume_rate_limit w limit at)
  unfolding consume_rate_limit count_request
  consume_rate_limit-Evolves w limit at = Evolves-guard rows _ _ _ (λ _.
      Evolves-connection allow.db _ (
        Evolves-bind rows _ _ (Evolves-require_table allow.db _)
          (λ _. Evolves-read _ _ (decide_count-at w limit at))))

  admit_request-at :
      (q : RuntimeRequest) (s : Db) (b : Bool)
      → request_is_refused q s.runtime_requests ≡ b
      → R s (admit_request q b s).1
  unfolding admit_request ◌>>=◌ add_request
  admit_request-at q s true h = rows.reflexive s
  admit_request-at q s false h = allow.request q s h

  pub record_runtime_request-Evolves : (q : RuntimeRequest) → Evolves R (record_runtime_request q)
  unfolding record_runtime_request
  record_runtime_request-Evolves q = Evolves-connection allow.db _ (
      Evolves-bind rows _ _ (Evolves-require_table allow.db _)
        (λ _. Evolves-read _ _ (λ s. admit_request-at q s _ refl)))

  pub get_runtime_request-Evolves : (k : String) → Evolves R (get_runtime_request k)
  unfolding get_runtime_request
  get_runtime_request-Evolves k = search (method_rules, rows, allow.db)

  pub get_payment_claim-Evolves : (c : String) → Evolves R (get_payment_claim c)
  unfolding get_payment_claim
  get_payment_claim-Evolves c = search (method_rules, rows, allow.db)

  pub get_payment_claim_by_settlement-Evolves :
      (n r : String) → Evolves R (get_payment_claim_by_settlement n r)
  unfolding get_payment_claim_by_settlement
  get_payment_claim_by_settlement-Evolves n r = search (method_rules, rows, allow.db)

pub IsFinal-status : (s : String) → not (one_of s ("delivered" ∷ "failed" ∷ [])) ≡ false → IsFinal s
IsFinal-status s h = ground (arith, eq_iff s "delivered", eq_iff s "failed")

-- What the two guards of a mark leave.
metrics_fit :
    (rowcount : ℕ) (bytes duration : Bool)
    → (not (eqb rowcount 0) && (bytes || duration)) ≡ false
    → not (eqb rowcount 1) ≡ false
    → (bytes ≡ false) × (duration ≡ false)
metrics_fit rowcount bytes duration metrics one = (ground arith, ground arith)

-- The writing methods with an event of their own.
module _ {R : Db → Db → Type 0} (allow : Writes R) (sha256 : String → String) where
  rest_of_claim-Evolves :
      (c : Claim)
      → Evolves R (do
        event ← lift (build_retail_telemetry_event sha256 (claimed_event c))
        insert_telemetry event
        row ← gets (λ db. find_claim c.claim_id db.payments)
        pure (accepted row))
  rest_of_claim-Evolves c =
      search (method_rules, allow.db.order, insert_telemetry-Evolves allow) depth 9

  claim_or_refuse-at :
      (c : Claim) (status : String) (s : Db) (b : Bool)
      → insert_fails c status s.payments ≡ b
      → R s (claim_or_refuse sha256 c status b s).1
  unfolding claim_or_refuse accept_claim ◌>>=◌ add_payment
  claim_or_refuse-at c status s true h = allow.db.order.reflexive s
  claim_or_refuse-at c status s false h =
      let s' = record s { payments = s.payments ++ new_row c status ∷ [] } in
      allow.db.order.transitive s s' _ (allow.payment c status s h)
        ((rest_of_claim-Evolves c).at s')

  -- Every run of `claim_payment` makes only allowed writes.
  pub claim_payment-Evolves :
      (c : Claim) (status : String) → Evolves R (claim_payment sha256 c status)
  unfolding claim_payment
  claim_payment-Evolves c status = Evolves-connection allow.db _ (
      Evolves-bind allow.db.order _ _ (Evolves-require_table allow.db _)
        (λ _. Evolves-read _ _ (λ s. claim_or_refuse-at c status s _ refl)))

  add_delivery_incident-Evolves :
      (m : Mark) (r : PaymentRow) → Evolves R (add_delivery_incident sha256 m r)
  unfolding add_delivery_incident
  add_delivery_incident-Evolves m r =
      search (method_rules, allow.db.order, insert_incident-Evolves allow) depth 8

  -- What follows the mark of the row.
  marked_rest-Evolves :
      (m : Mark)
      → Evolves R (do
        row ← gets (λ db. find_claim m.claim_id db.payments)
        r ← lift (fetched row)
        event ← lift (build_retail_telemetry_event sha256 (delivery_event m r))
        insert_telemetry event
        add_delivery_incident sha256 m r
        pure r)
  marked_rest-Evolves m =
      search
        (
          method_rules,
          allow.db.order,
          insert_telemetry-Evolves allow,
          add_delivery_incident-Evolves,
        )
        depth 14

  mark_pending-Evolves : (m : Mark) → IsFinal m.status → Evolves R (mark_pending sha256 m)
  unfolding mark_pending
  mark_pending-Evolves m f =
      let order = allow.db.order in
      Evolves-bind order _ _ (Evolves-require_table allow.db _) (λ _.
        Evolves-bind order _ _ (Evolves-gets order _) (λ rowcount.
          Evolves-guard order _ _ _ (λ metrics. Evolves-guard order _ _ _ (λ one.
            let fit : HasMetrics m =
              metrics_fit rowcount (opt_negative m.response_bytes)
                (opt_negative m.processing_duration_ms) metrics one in
            Evolves-bind order _ _ (allow.marks m f fit) (λ _. marked_rest-Evolves m)))))

  pub mark_delivery-Evolves : (m : Mark) → Evolves R (mark_delivery sha256 m)
  unfolding mark_delivery
  mark_delivery-Evolves m = Evolves-guard allow.db.order _ _ _ (λ known.
      Evolves-connection allow.db (mark_pending sha256 m)
        (mark_pending-Evolves m (IsFinal-status m.status known)))
