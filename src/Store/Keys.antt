-- ===== src/Store/Keys.antt =====
-- The uniqueness that the schema of retail_context/control_store.py declares holds in every table that
-- its methods can reach, with the checks: payments, telemetry and incidents, and admitted requests.
use sharpe_nova_os.Prelude.{
  ◌≡◌, refl, ◌∙◌, ◌⊎◌, inl, inr, Bool-cases, opt_negative, All, Bool, true, false, ◌||◌, List, [],
  ◌∷◌, ◌++◌, String, arith, ◌==◌, eq_iff, exists_in, exists_in-append, update_where, if◌then◌else◌,
}
use sharpe_nova_os.Exec.Evolve.{IsPreorder}
use sharpe_nova_os.Telemetry.{TelemetryEvent, Incident}
use sharpe_nova_os.Store.Db.{Db, Claim, PaymentRow, RuntimeRequest, empty, is_resource_type}
use sharpe_nova_os.Store.Audit.{
  event_is_refused, incident_is_refused, add_event, add_incident, store_event, store_incident,
}
use sharpe_nova_os.Store.Mode.{create_schema, write_mode}
use sharpe_nova_os.Store.RateLimit.{write_count}
use sharpe_nova_os.Store.Claims.{claim_checks_fail, insert_fails, new_row, add_payment}
use sharpe_nova_os.Store.Deliveries.{Mark, is_pending_claim, marked, mark_rows}
use sharpe_nova_os.Store.Requests.{request_is_refused, add_request}
use sharpe_nova_os.Store.Methods.{IsFinal, HasMetrics, Writes}
use sharpe_nova_os.Store.Consumption.{rows_of_key, key_is_taken-eq}
use sharpe_nova_os.Store.Calls.{Call, history, history-Writes}

-- No element clashes with a later one.
abbrev pub AreApart {ℓ} : {A : Type ℓ} → (A → A → Bool) → List A → Type 0
AreApart clash [] = Unit
AreApart clash (x ∷ xs) = (exists_in (clash x) xs ≡ false) × AreApart clash xs

abbrev pub payments_clash : PaymentRow → PaymentRow → Bool
payments_clash x y = rows_of_key y.claim x.claim

abbrev pub events_clash : TelemetryEvent → TelemetryEvent → Bool
events_clash x y = x.event_id == y.event_id

abbrev pub incidents_clash : Incident → Incident → Bool
incidents_clash x y = x.incident_id == y.incident_id

abbrev pub requests_clash : RuntimeRequest → RuntimeRequest → Bool
requests_clash x y =
    x.request_id == y.request_id
    || x.request_digest == y.request_digest
    || x.resource_uri == y.resource_uri

-- A payment row keeps to the checks of its table.
abbrev pub IsChecked : PaymentRow → Type 0
IsChecked r =
    (is_resource_type r.resource_type ≡ true)
    × (r.authority_effect ≡ "none")
    × ((r.delivery_status ≡ "pending") ⊎ IsFinal r.delivery_status)
    × (opt_negative r.response_bytes ≡ false)
    × (opt_negative r.processing_duration_ms ≡ false)

-- A telemetry event keeps to the checks of its table.
abbrev pub IsEventChecked : TelemetryEvent → Type 0
IsEventChecked e =
    (opt_negative e.duration_ms ≡ false)
    × (opt_negative e.response_bytes ≡ false)
    × (e.retail_namespace ≡ "retail_production_controls")
    × (e.authority_effect ≡ "none")

-- An incident keeps to the checks of its table.
abbrev pub IsIncidentChecked : Incident → Type 0
IsIncidentChecked i =
    (i.retail_namespace ≡ "retail_production_controls") × (i.authority_effect ≡ "none")

-- An admitted request keeps to the checks of its table.
abbrev pub IsRequestChecked : RuntimeRequest → Type 0
IsRequestChecked q = (is_resource_type q.resource_type ≡ true) × (q.authority_effect ≡ "none")

pub record KeysOf (ps : List PaymentRow) (es : List TelemetryEvent) (is : List Incident)
    (qs : List RuntimeRequest) : Type 0 where
  pub payments : AreApart payments_clash ps
  pub checks : All IsChecked ps
  pub telemetry : AreApart events_clash es
  pub incidents : AreApart incidents_clash is
  pub requests : AreApart requests_clash qs
  pub event_checks : All IsEventChecked es
  pub incident_checks : All IsIncidentChecked is
  pub request_checks : All IsRequestChecked qs

abbrev pub HasKeys : Db → Type 0
HasKeys db = KeysOf db.payments db.telemetry db.incidents db.runtime_requests

AreApart-append {ℓ} :
    {A : Type ℓ} (clash : A → A → Bool) (xs : List A) (y : A)
    → AreApart clash xs
    → exists_in (λ x. clash x y) xs ≡ false
    → AreApart clash (xs ++ y ∷ [])
AreApart-append clash [] y h e = (refl, tt)
AreApart-append clash (x ∷ xs) y h e =
    (rw exists_in-append (ground (arith, h.0)), AreApart-append clash xs y h.1 (ground arith))

All-append {ℓ κ} :
    {A : Type ℓ} (P : A → Type κ) (xs : List A) (y : A) → All P xs → P y → All P (xs ++ y ∷ [])
All-append P [] y h p = (p, tt)
All-append P (x ∷ xs) y h p = (h.0, All-append P xs y h.1 p)

exists_in-marked :
    (r : PaymentRow) (m : Mark) (ps : List PaymentRow)
    → exists_in (payments_clash r) (update_where (is_pending_claim m.claim_id) (marked m) ps)
      ≡ exists_in (payments_clash r) ps
exists_in-marked r m [] = refl
exists_in-marked r m (p ∷ ps) = ground (arith, exists_in-marked r m ps)

AreApart-marked :
    (m : Mark) (ps : List PaymentRow)
    → AreApart payments_clash ps
    → AreApart payments_clash (update_where (is_pending_claim m.claim_id) (marked m) ps)
AreApart-marked m [] h = tt
AreApart-marked m (p ∷ ps) h = (first (is_pending_claim m.claim_id p), AreApart-marked m ps h.1)
  where
    first :
        (b : Bool)
        → exists_in
            (payments_clash (if b then marked m p else p))
            (update_where (is_pending_claim m.claim_id) (marked m) ps)
          ≡ false
    first true = exists_in-marked p m ps ∙ h.0
    first false = exists_in-marked p m ps ∙ h.0

All-marked :
    (m : Mark) (ps : List PaymentRow)
    → IsFinal m.status
    → HasMetrics m
    → All IsChecked ps
    → All IsChecked (update_where (is_pending_claim m.claim_id) (marked m) ps)
All-marked m [] f fit h = tt
All-marked m (p ∷ ps) f fit h = (first (is_pending_claim m.claim_id p), All-marked m ps f fit h.1)
  where
    first : (b : Bool) → IsChecked (if b then marked m p else p)
    first true = (h.0.0, h.0.1, inr f, fit.0, fit.1)
    first false = h.0

new_row-IsChecked :
    (c : Claim) (status : String)
    → claim_checks_fail c status ≡ false
    → IsChecked (new_row c status)
unfolding claim_checks_fail
new_row-IsChecked c status h = ground (
  arith,
  eq_iff c.authority_effect "none",
  eq_iff status "pending",
  eq_iff status "delivered",
  eq_iff status "failed",
)

requests_apart :
    (q : RuntimeRequest) (qs : List RuntimeRequest)
    → request_is_refused q qs ≡ false
    → exists_in (λ r. requests_clash r q) qs ≡ false
unfolding request_is_refused
requests_apart q [] h = refl
requests_apart q (r ∷ qs) h = ground (arith, requests_apart q qs)

HasKeys-order : IsPreorder (λ s t. HasKeys s → HasKeys t)
HasKeys-order = record { reflexive = λ s h. h; transitive = λ s t u f g h. g (f h) }

add_event-AreApart :
    (e : TelemetryEvent) (es : List TelemetryEvent)
    → AreApart events_clash es
    → AreApart events_clash (add_event e es)
unfolding add_event
add_event-AreApart e es h = insert (event_is_refused e es) refl
  where
    insert :
        (b : Bool)
        → event_is_refused e es ≡ b
        → AreApart events_clash (if b then es else es ++ e ∷ [])
    insert true r = h
    insert false r = AreApart-append events_clash es e h (unfold event_is_refused in ground arith)

add_incident-AreApart :
    (i : Incident) (is : List Incident)
    → AreApart incidents_clash is
    → AreApart incidents_clash (add_incident i is)
unfolding add_incident
add_incident-AreApart i is h = insert (incident_is_refused i is) refl
  where
    insert :
        (b : Bool)
        → incident_is_refused i is ≡ b
        → AreApart incidents_clash (if b then is else is ++ i ∷ [])
    insert true r = h
    insert false r =
        AreApart-append incidents_clash is i h (unfold incident_is_refused in ground arith)

event-IsChecked :
    (e : TelemetryEvent) (es : List TelemetryEvent)
    → event_is_refused e es ≡ false
    → IsEventChecked e
unfolding event_is_refused
event-IsChecked e es h = ground (
  arith,
  eq_iff e.retail_namespace "retail_production_controls",
  eq_iff e.authority_effect "none",
)

incident-IsChecked :
    (i : Incident) (is : List Incident) → incident_is_refused i is ≡ false → IsIncidentChecked i
unfolding incident_is_refused
incident-IsChecked i is h = ground (
  arith,
  eq_iff i.retail_namespace "retail_production_controls",
  eq_iff i.authority_effect "none",
)

request-IsChecked :
    (q : RuntimeRequest) (qs : List RuntimeRequest)
    → request_is_refused q qs ≡ false
    → IsRequestChecked q
unfolding request_is_refused
request-IsChecked q qs h = ground (arith, eq_iff q.authority_effect "none")

add_event-All :
    (e : TelemetryEvent) (es : List TelemetryEvent)
    → All IsEventChecked es
    → All IsEventChecked (add_event e es)
unfolding add_event
add_event-All e es h = elim (Bool-cases (event_is_refused e es)) [
  | inl refused ↦ rw refused h
  | inr added ↦ rw added (All-append IsEventChecked es e h (event-IsChecked e es added))
]

add_incident-All :
    (i : Incident) (is : List Incident)
    → All IsIncidentChecked is
    → All IsIncidentChecked (add_incident i is)
unfolding add_incident
add_incident-All i is h = elim (Bool-cases (incident_is_refused i is)) [
  | inl refused ↦ rw refused h
  | inr added ↦ rw added (All-append IsIncidentChecked is i h (incident-IsChecked i is added))
]

payments_apart :
    (c : Claim) (status : String) (ps : List PaymentRow)
    → insert_fails c status ps ≡ false
    → exists_in (λ x. payments_clash x (new_row c status)) ps ≡ false
unfolding insert_fails
payments_apart c status ps h = rw (← key_is_taken-eq c ps) (ground arith)

HasKeys-Writes : Writes (λ s t. HasKeys s → HasKeys t)
unfolding store_event store_incident create_schema write_mode write_count add_payment mark_rows
    add_request
HasKeys-Writes = record {
  db = record { order = HasKeys-order; faults_free = λ s fs h. h };
  event = λ e. record {
    at = λ s h. record {
      payments = h.payments;
      checks = h.checks;
      telemetry = add_event-AreApart e s.telemetry h.telemetry;
      incidents = h.incidents;
      requests = h.requests;
      event_checks = add_event-All e s.telemetry h.event_checks;
      incident_checks = h.incident_checks;
      request_checks = h.request_checks;
    };
  };
  incident = λ i. record {
    at = λ s h. record {
      payments = h.payments;
      checks = h.checks;
      telemetry = h.telemetry;
      incidents = add_incident-AreApart i s.incidents h.incidents;
      requests = h.requests;
      event_checks = h.event_checks;
      incident_checks = add_incident-All i s.incidents h.incident_checks;
      request_checks = h.request_checks;
    };
  };
  schema = record { at = λ s h. h };
  mode = λ m. record { at = λ s h. h };
  count = λ w l at s g h. h;
  payment = λ k status s g h. record {
    payments =
        AreApart-append payments_clash s.payments (new_row k status) h.payments
          (payments_apart k status s.payments g);
    checks =
        All-append IsChecked s.payments (new_row k status) h.checks
          (new_row-IsChecked k status (unfold insert_fails in ground arith));
    telemetry = h.telemetry;
    incidents = h.incidents;
    requests = h.requests;
    event_checks = h.event_checks;
    incident_checks = h.incident_checks;
    request_checks = h.request_checks;
  };
  marks = λ m f fit. record {
    at = λ s h. record {
      payments = AreApart-marked m s.payments h.payments;
      checks = All-marked m s.payments f fit h.checks;
      telemetry = h.telemetry;
      incidents = h.incidents;
      requests = h.requests;
      event_checks = h.event_checks;
      incident_checks = h.incident_checks;
      request_checks = h.request_checks;
    };
  };
  request = λ q s g h. record {
    payments = h.payments;
    checks = h.checks;
    telemetry = h.telemetry;
    incidents = h.incidents;
    requests =
        AreApart-append requests_clash s.runtime_requests q h.requests
          (requests_apart q s.runtime_requests g);
    event_checks = h.event_checks;
    incident_checks = h.incident_checks;
    request_checks =
        All-append IsRequestChecked s.runtime_requests q h.request_checks
          (request-IsChecked q s.runtime_requests g);
  };
}

pub HasKeys-empty : HasKeys empty
HasKeys-empty = record {
  payments = tt;
  checks = tt;
  telemetry = tt;
  incidents = tt;
  requests = tt;
  event_checks = tt;
  incident_checks = tt;
  request_checks = tt;
}

-- From a database in which the declared keys and checks of four tables hold, they hold after any
-- history of calls, faults included. Payments: no two share a claim id, a receipt or a settlement, and
-- each has a supported resource type, no authority effect, one of the three statuses, and no negative
-- length or duration. Telemetry events and incidents: unique identifiers, the namespace of the
-- controls, no authority effect, and no negative metric. Admitted requests: unique identifiers,
-- digests and URIs, a supported resource type and no authority effect.
pub history-HasKeys :
    (sha256 : String → String) (cs : List Call) (db : Db)
    → HasKeys db
    → HasKeys (history sha256 cs db)
history-HasKeys sha256 cs db h = history-Writes sha256 HasKeys-Writes cs db h
