-- ===== src/Store/Final.antt =====
-- A claim is delivered or failed once: `mark_delivery` (retail_context/control_store.py) never marks a
-- claim a second time.
use sharpe_nova_os.Prelude.{
  ℕ, ◌+◌, ◌≡◌, refl, inl, inr, Bool, true, false, List, [], ◌∷◌, ◌++◌, String, arith, ◌==◌, eq_iff,
  exists_in, exists_in-append, count_in, update_where, if◌then◌else◌, Bool-cases,
}
use sharpe_nova_os.Exec.{returned, ◌>>=◌}
use sharpe_nova_os.Exec.Evolve.{IsPreorder}
use sharpe_nova_os.Store.Db.{Db, Claim, PaymentRow, connected, connection, require_table}
use sharpe_nova_os.Store.Audit.{store_event, store_incident, insert_telemetry, insert_incident}
use sharpe_nova_os.Store.Mode.{create_schema, write_mode}
use sharpe_nova_os.Store.RateLimit.{write_count}
use sharpe_nova_os.Store.Claims.{has_claim_id, insert_fails, new_row, add_payment}
use sharpe_nova_os.Store.Deliveries.{
  Mark, is_pending_claim, marked, mark_rows, fetched, add_delivery_incident, mark_pending,
  mark_delivery,
}
use sharpe_nova_os.Store.Requests.{add_request}
use sharpe_nova_os.Store.Methods.{IsFinal, Writes, IsFinal-status}
use sharpe_nova_os.Store.Calls.{Call, history, history-Writes}

-- The claim id stands in the table, and none of its rows is pending.
abbrev pub IsSettled : String → List PaymentRow → Type 0
IsSettled c ps = (exists_in (has_claim_id c) ps ≡ true) × (count_in (is_pending_claim c) ps ≡ 0)

final-not_pending : (s : String) → IsFinal s → (s == "pending") ≡ false
final-not_pending s (inl p) = rw p refl
final-not_pending s (inr p) = rw p refl

exists_in-marked :
    (c : String) (m : Mark) (ps : List PaymentRow)
    → exists_in (has_claim_id c) (update_where (is_pending_claim m.claim_id) (marked m) ps)
      ≡ exists_in (has_claim_id c) ps
exists_in-marked c m [] = refl
exists_in-marked c m (p ∷ ps) = ground (arith, exists_in-marked c m ps)

-- A mark makes no row pending.
count_in-marked :
    (c : String) (m : Mark) (ps : List PaymentRow)
    → IsFinal m.status
    → count_in (is_pending_claim c) ps ≡ 0
    → count_in (is_pending_claim c) (update_where (is_pending_claim m.claim_id) (marked m) ps) ≡ 0
count_in-marked c m [] f h = refl
count_in-marked c m (p ∷ ps) f h =
    ground (arith, final-not_pending m.status f, count_in-marked c m ps f)

-- A mark leaves no row of its claim pending.
count_in-marked_self :
    (m : Mark) (ps : List PaymentRow)
    → IsFinal m.status
    → count_in
        (is_pending_claim m.claim_id)
        (update_where (is_pending_claim m.claim_id) (marked m) ps)
      ≡ 0
count_in-marked_self m [] f = refl
count_in-marked_self m (p ∷ ps) f =
    ground (arith, final-not_pending m.status f, count_in-marked_self m ps f)

exists_in_of_count :
    (c : String) (ps : List PaymentRow) (n : ℕ)
    → count_in (is_pending_claim c) ps ≡ 1
    → exists_in (has_claim_id c) ps ≡ true
exists_in_of_count c [] n h = absurd (omega arith)
exists_in_of_count c (p ∷ ps) n h = ground (arith, exists_in_of_count c ps n)

count_in-append :
    (q : PaymentRow → Bool) (ps : List PaymentRow) (r : PaymentRow)
    → count_in q (ps ++ r ∷ []) ≡ count_in q ps + (if q r then 1 else 0)
count_in-append q [] r = ground arith
count_in-append q (p ∷ ps) r = ground (arith, count_in-append q ps r)

-- An accepted claim has another id than a settled one.
IsSettled-append :
    (c : String) (k : Claim) (status : String) (ps : List PaymentRow)
    → insert_fails k status ps ≡ false
    → IsSettled c ps
    → IsSettled c (ps ++ new_row k status ∷ [])
unfolding insert_fails
IsSettled-append c k status ps h (e, n) =
    (rw (exists_in-append, e) refl, rw count_in-append (ground (arith, eq_iff k.claim_id c, n, e)))

module _ (c : String) where
  abbrev Settles : Db → Db → Type 0
  Settles s t = IsSettled c s.payments → IsSettled c t.payments

  Settles-order : IsPreorder Settles
  Settles-order = record { reflexive = λ s h. h; transitive = λ s t u f g h. g (f h) }

  Settles-Writes : Writes Settles
  unfolding store_event store_incident create_schema write_mode write_count add_payment mark_rows
      add_request
  Settles-Writes = record {
    db = record { order = Settles-order; faults_free = λ s fs h. h };
    event = λ e. record { at = λ s h. h };
    incident = λ i. record { at = λ s h. h };
    schema = record { at = λ s h. h };
    mode = λ m. record { at = λ s h. h };
    count = λ w l at s g h. h;
    payment = λ k status s g h. IsSettled-append c k status s.payments g h;
    marks = λ m f fit. record {
      at = λ s h. (rw (exists_in-marked c m s.payments) h.0, count_in-marked c m s.payments f h.1);
    };
    request = λ q s g h. h;
  }

module _ (sha256 : String → String) where
  mark_pending-writes :
      (m : Mark) (db : Db)
      → returned (mark_pending sha256 m db).0 ≡ true
      → (count_in (is_pending_claim m.claim_id) db.payments ≡ 1)
        × ((mark_pending sha256 m db).1.payments
            ≡ update_where (is_pending_claim m.claim_id) (marked m) db.payments)
  unfolding mark_pending require_table mark_rows add_delivery_incident insert_telemetry store_event
      insert_incident store_incident fetched ◌>>=◌
  mark_pending-writes m db h = ground arith

  -- A mark that returned had one pending row to change.
  pub mark_delivery-writes :
      (m : Mark) (db : Db)
      → returned (mark_delivery sha256 m db).0 ≡ true
      → IsFinal m.status
        × (count_in (is_pending_claim m.claim_id) db.payments ≡ 1)
        × ((mark_delivery sha256 m db).1.payments
            ≡ update_where (is_pending_claim m.claim_id) (marked m) db.payments)
  unfolding mark_delivery connection ◌>>=◌
  mark_delivery-writes m db h =
      ground (arith, mark_pending-writes m (connected db), IsFinal-status m.status)

  mark_delivery-IsSettled :
      (m : Mark) (db : Db)
      → returned (mark_delivery sha256 m db).0 ≡ true
      → IsSettled m.claim_id (mark_delivery sha256 m db).1.payments
  mark_delivery-IsSettled m db h =
      let (f, one, writes) = mark_delivery-writes m db h in
      rw writes (
        rw exists_in-marked (exists_in_of_count m.claim_id db.payments 1 one),
        count_in-marked_self m db.payments f,
      )

  -- After one mark of a claim returned, delivered or failed, and whatever calls followed, no mark of
  -- this claim returns again.
  pub mark_delivery-once :
      (m : Mark) (db : Db) (cs : List Call) (m' : Mark)
      → returned (mark_delivery sha256 m db).0 ≡ true
      → m.claim_id ≡ m'.claim_id
      → returned (mark_delivery sha256 m' (history sha256 cs (mark_delivery sha256 m db).1)).0
        ≡ false
  mark_delivery-once m db cs m' h same =
      let marked_db = (mark_delivery sha256 m db).1 in
      let later = history sha256 cs marked_db in
      let settled =
        history-Writes sha256 (Settles-Writes m.claim_id) cs marked_db
          (mark_delivery-IsSettled m db h) in
      elim (Bool-cases (returned (mark_delivery sha256 m' later).0)) [
        | inl again ↦
            absurd
              (omega (arith, settled.1, rw (← same) at (mark_delivery-writes m' later again).1))
        | inr never ↦ never
      ]
