-- ===== src/Store/Growth.antt =====
-- How the control store may change over time: payments are never removed, reordered or altered but
-- for one step from pending to a final status, and what was audited or admitted stays.
use mathlib.Core.Path.{subst}
use mathlib.Core.Option.{some-injective}
use mathlib.Core.List.{append-nil, append_assoc}
use sharpe_nova_os.Prelude.{
  ◌≡◌, refl, sym, ◌∙◌, ap, ◌≢◌, ◌⊎◌, inl, inr, Bool, true, false, List, [], ◌∷◌, ◌++◌, String,
  arith, eq_iff, update_where, exists_in, find_first, some, if◌then◌else◌,
}
use sharpe_nova_os.Exec.Evolve.{IsPreorder, Evolves}
use sharpe_nova_os.Telemetry.{TelemetryEvent, Incident}
use sharpe_nova_os.Store.Db.{Db, Claim, PaymentRow}
use sharpe_nova_os.Store.Audit.{add_event, add_incident, store_event, store_incident}
use sharpe_nova_os.Store.Mode.{create_schema, write_mode}
use sharpe_nova_os.Store.RateLimit.{write_count}
use sharpe_nova_os.Store.Claims.{add_payment}
use sharpe_nova_os.Store.Deliveries.{Mark, is_pending_claim, marked, mark_rows}
use sharpe_nova_os.Store.Requests.{add_request}
use sharpe_nova_os.Store.Methods.{IsFinal, Writes}
use sharpe_nova_os.Store.Db.Evolve.{IsDbPreorder}

-- The life of one row of `retail_payment_consumption`.
abbrev pub Advances : PaymentRow → PaymentRow → Type 0
Advances x y =
    (x ≡ y) ⊎ ((x.claim ≡ y.claim) × (x.delivery_status ≡ "pending") × IsFinal y.delivery_status)

abbrev pub Advanced : List PaymentRow → List PaymentRow → Type 0
Advanced [] ys = Unit
Advanced (x ∷ xs) [] = ⊥
Advanced (x ∷ xs) (y ∷ ys) = Advances x y × Advanced xs ys

abbrev pub Extends {ℓ} : {A : Type ℓ} → List A → List A → Type ℓ
Extends {A} xs ys = (zs : List A) × (xs ++ zs ≡ ys)

pub Advances-claim : (x y : PaymentRow) → Advances x y → x.claim ≡ y.claim
Advances-claim x y (inl p) = ap (λ (r : PaymentRow). r.claim) p
Advances-claim x y (inr a) = a.0

-- What a test of the claim's columns finds, it goes on finding: the same row, further on in its life.
module _ (q : Claim → Bool) where
  pub exists_in-Advanced :
      (xs ys : List PaymentRow)
      → Advanced xs ys
      → exists_in (λ r. q r.claim) xs ≡ true
      → exists_in (λ r. q r.claim) ys ≡ true
  exists_in-Advanced [] ys a h = cc
  exists_in-Advanced (x ∷ xs) [] a h = absurd a
  exists_in-Advanced (x ∷ xs) (y ∷ ys) (a, rest) h =
      ground (arith, ap q (Advances-claim x y a), exists_in-Advanced xs ys rest)

  pub find_first-Advanced :
      (xs ys : List PaymentRow) (x : PaymentRow)
      → Advanced xs ys
      → find_first (λ r. q r.claim) xs ≡ some x
      → (y : PaymentRow) × (find_first (λ r. q r.claim) ys ≡ some y) × Advances x y
  find_first-Advanced [] ys x a h = absurd (cc)
  find_first-Advanced (z ∷ xs) [] x a h = absurd a
  find_first-Advanced (z ∷ xs) (y ∷ ys) x (a, rest) h =
      step (q z.claim) refl h (find_first-Advanced xs ys x rest)
    where
      step :
          (b : Bool)
          → q z.claim ≡ b
          → (if b then some z else find_first (λ r. q r.claim) xs) ≡ some x
          → (find_first (λ r. q r.claim) xs ≡ some x
              → (y : PaymentRow) × (find_first (λ r. q r.claim) ys ≡ some y) × Advances x y)
          → (w : PaymentRow) × ((if q y.claim then some y else find_first (λ r. q r.claim) ys)
              ≡ some w)
            × Advances x w
      step true e p later = (
        y,
        rw (← ap q (Advances-claim z y a)) (rw e),
        subst (λ (t : PaymentRow). Advances t y) (some-injective z x p) a,
      )
      step false e p later =
          let (w, found, adv) = later p in (w, rw (← ap q (Advances-claim z y a)) (rw e found), adv)

pub record Grows (s t : Db) : Type 0 where
  pub payments : Advanced s.payments t.payments
  pub telemetry : Extends s.telemetry t.telemetry
  pub incidents : Extends s.incidents t.incidents
  pub requests : Extends s.runtime_requests t.runtime_requests

pub final-ne-pending : (s : String) → IsFinal s → s ≢ "pending"
final-ne-pending s (inl d) p = ground (arith, eq_iff "delivered" "pending")
final-ne-pending s (inr f) p = ground (arith, eq_iff "failed" "pending")

pub Advances-trans : (x y z : PaymentRow) → Advances x y → Advances y z → Advances x z
Advances-trans x y z (inl p) (inl q) = inl (p ∙ q)
Advances-trans x y z (inl p) (inr (c, s, f)) =
    inr
      (ap (λ (r : PaymentRow). r.claim) p ∙ c, ap (λ (r : PaymentRow). r.delivery_status) p ∙ s, f)
Advances-trans x y z (inr (c, s, f)) (inl q) = inr (
  c ∙ ap (λ (r : PaymentRow). r.claim) q,
  s,
  rw (← ap (λ (r : PaymentRow). r.delivery_status) q) f,
)
Advances-trans x y z (inr (c, s, f)) (inr (_, p, _)) =
    absurd (final-ne-pending y.delivery_status f p)

pub Advanced-refl : (xs : List PaymentRow) → Advanced xs xs
Advanced-refl [] = tt
Advanced-refl (x ∷ xs) = (inl refl, Advanced-refl xs)

pub Advanced-append : (xs ys : List PaymentRow) → Advanced xs (xs ++ ys)
Advanced-append [] ys = tt
Advanced-append (x ∷ xs) ys = (inl refl, Advanced-append xs ys)

pub Advanced-trans : (xs ys zs : List PaymentRow) → Advanced xs ys → Advanced ys zs → Advanced xs zs
Advanced-trans [] ys zs p q = tt
Advanced-trans (x ∷ xs) [] zs p q = absurd p
Advanced-trans (x ∷ xs) (y ∷ ys) [] p q = absurd q
Advanced-trans (x ∷ xs) (y ∷ ys) (z ∷ zs) (p, ps) (q, qs) =
    (Advances-trans x y z p q, Advanced-trans xs ys zs ps qs)

module _ {ℓ} {A : Type ℓ} where
  pub Extends-refl : (xs : List A) → Extends xs xs
  Extends-refl xs = ([], append-nil xs)

  pub Extends-trans : (xs ys zs : List A) → Extends xs ys → Extends ys zs → Extends xs zs
  Extends-trans xs ys zs (us, p) (vs, q) =
      (us ++ vs, sym (append_assoc xs us vs) ∙ ap (λ l. l ++ vs) p ∙ q)

pub Grows-refl : (s : Db) → Grows s s
Grows-refl s = record {
  payments = Advanced-refl s.payments;
  telemetry = Extends-refl s.telemetry;
  incidents = Extends-refl s.incidents;
  requests = Extends-refl s.runtime_requests;
}

Grows-trans : (s t u : Db) → Grows s t → Grows t u → Grows s u
Grows-trans s t u g h = record {
  payments = Advanced-trans s.payments t.payments u.payments g.payments h.payments;
  telemetry = Extends-trans s.telemetry t.telemetry u.telemetry g.telemetry h.telemetry;
  incidents = Extends-trans s.incidents t.incidents u.incidents g.incidents h.incidents;
  requests =
      Extends-trans s.runtime_requests t.runtime_requests u.runtime_requests g.requests h.requests;
}

pub Grows-order : IsPreorder Grows
Grows-order = record { reflexive = Grows-refl; transitive = Grows-trans }

Grows-faults_free : (s : Db) (fs : List Bool) → Grows s (record s { faults = fs })
Grows-faults_free s fs = record {
  payments = Advanced-refl s.payments;
  telemetry = Extends-refl s.telemetry;
  incidents = Extends-refl s.incidents;
  requests = Extends-refl s.runtime_requests;
}

pub Grows-db : IsDbPreorder Grows
Grows-db = record { order = Grows-order; faults_free = Grows-faults_free }

-- An insertion that may be ignored extends the list.
Extends-if {ℓ} : {A : Type ℓ} (b : Bool) (xs ys : List A) → Extends xs (if b then xs else xs ++ ys)
Extends-if true xs ys = Extends-refl xs
Extends-if false xs ys = (ys, refl)

Advances-marked :
    (m : Mark) (p : PaymentRow) (b : Bool)
    → IsFinal m.status
    → is_pending_claim m.claim_id p ≡ b
    → Advances p (if b then marked m p else p)
Advances-marked m p true f e = inr (refl, ground (arith, eq_iff p.delivery_status "pending"), f)
Advances-marked m p false f e = inl refl

-- One `UPDATE` of pending rows to a final status.
Advanced-marked :
    (m : Mark) (ps : List PaymentRow)
    → IsFinal m.status
    → Advanced ps (update_where (is_pending_claim m.claim_id) (marked m) ps)
Advanced-marked m [] f = tt
Advanced-marked m (p ∷ ps) f = (Advances-marked m p _ f refl, Advanced-marked m ps f)

store_event-Grows : (e : TelemetryEvent) → Evolves Grows (store_event e)
unfolding store_event add_event
store_event-Grows e = record {
  at = λ s. record {
    payments = Advanced-refl s.payments;
    telemetry = Extends-if _ s.telemetry (e ∷ []);
    incidents = Extends-refl s.incidents;
    requests = Extends-refl s.runtime_requests;
  };
}

store_incident-Grows : (i : Incident) → Evolves Grows (store_incident i)
unfolding store_incident add_incident
store_incident-Grows i = record {
  at = λ s. record {
    payments = Advanced-refl s.payments;
    telemetry = Extends-refl s.telemetry;
    incidents = Extends-if _ s.incidents (i ∷ []);
    requests = Extends-refl s.runtime_requests;
  };
}

-- A write to the payments alone.
payments-Grows :
    (s : Db) (ps : List PaymentRow) → Advanced s.payments ps → Grows s (record s { payments = ps })
payments-Grows s ps a = record {
  payments = a;
  telemetry = Extends-refl s.telemetry;
  incidents = Extends-refl s.incidents;
  requests = Extends-refl s.runtime_requests;
}

-- A write to the other tables.
kept :
    (s t : Db)
    → Advanced s.payments t.payments
    → s.telemetry ≡ t.telemetry
    → s.incidents ≡ t.incidents
    → Extends s.runtime_requests t.runtime_requests
    → Grows s t
kept s t a p q r = record {
  payments = a;
  telemetry = ([], append-nil s.telemetry ∙ p);
  incidents = ([], append-nil s.incidents ∙ q);
  requests = r;
}

-- Each write of the store's methods lets it grow.
pub Grows-Writes : Writes Grows
unfolding create_schema write_mode write_count add_payment mark_rows add_request
Grows-Writes = record {
  db = Grows-db;
  event = store_event-Grows;
  incident = store_incident-Grows;
  schema = record {
    at = λ s. kept s _ (Advanced-refl s.payments) refl refl (Extends-refl s.runtime_requests);
  };
  mode = λ m. record {
    at = λ s. kept s _ (Advanced-refl s.payments) refl refl (Extends-refl s.runtime_requests);
  };
  count =
      λ w l at s h. kept s _ (Advanced-refl s.payments) refl refl (Extends-refl s.runtime_requests);
  payment = λ c status s h. payments-Grows s _ (Advanced-append s.payments _);
  marks = λ m f fit. record { at = λ s. payments-Grows s _ (Advanced-marked m s.payments f) };
  request = λ q s h. kept s _ (Advanced-refl s.payments) refl refl (q ∷ [], refl);
}
