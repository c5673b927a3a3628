-- ===== src/Controls/Grants.antt =====
-- What a granted delivery rests on: `claim_settled_payment_for_delivery` of
-- retail_context/production_controls.py over the control store.
use sharpe_nova_os.Prelude.{
  ◌≡◌, refl, sym, ap, ◌∙◌, Bool, true, false, not, ◌&&◌, Option, none, some, List, [], ◌∷◌, String,
  ◌==◌, arith, find_first, exists_in,
}
use sharpe_nova_os.Exec.{ok, pure, ◌>>=◌}
use sharpe_nova_os.Exec.Yields.{
  Yields, Yields-ok, Yields-unless, Yields-attempt, Yields-bind, Yields-lift, Yields-raise_if,
  Yields-map,
}
use sharpe_nova_os.Payment.Types.{PaymentReceipt, PaymentOutcome, receipt_of}
use sharpe_nova_os.Payment.Access.{payment_receipt_allows_resource_access}
use sharpe_nova_os.Store.Db.{Db, Claim, PaymentRow, connection, require_table}
use sharpe_nova_os.Store.Mode.{is_healthy, get_service_mode, health_snapshot, report_unavailable}
use sharpe_nova_os.Store.Claims.{
  has_settlement, key_is_taken, insert_fails, find_settlement, claim_payment,
}
use sharpe_nova_os.Store.Consumption.{was_claimed, claim_payment-inserts}
use sharpe_nova_os.Store.Growth.{Advances-claim, find_first-Advanced, Grows, Grows-Writes}
use sharpe_nova_os.Store.Replay.{SamePayment, find_settlement-inserted}
use sharpe_nova_os.Controls.Types.{
  DeliveryRecord, DeliveryOutcome, ControlHost, timestamp_epoch, validate_request_id,
}
use sharpe_nova_os.Controls.Audit.{report_event, report_event-Evolves}
use sharpe_nova_os.Controls.Claiming.{
  reference_text, delivery_of, delivery_record, deny_delivery, claim_id_of, claim_of,
  report_conflict, deny_replay, grant_delivery, after_claim, claim_in_mode, claim_checked, claim_if,
  claim_settled_payment_for_delivery, claim_event,
}

-- The settlement's row in the payments table, and the id of its claim.
pub record OnLedger (network reference claim_id : String) (ps : List PaymentRow) : Type 0 where
  pub row : PaymentRow
  pub found : find_settlement network reference ps ≡ some row
  pub same : row.claim_id ≡ claim_id

pub OnLedger-Grows :
    (network reference claim_id : String) (s t : Db)
    → Grows s t
    → OnLedger network reference claim_id s.payments
    → OnLedger network reference claim_id t.payments
unfolding find_settlement
OnLedger-Grows network reference claim_id s t g l =
    let (y, found, life) =
      find_first-Advanced (λ k. k.network == network && k.transaction_reference == reference)
        s.payments t.payments l.row g.payments l.found in
    record {
      row = y;
      found = found;
      same = sym (ap (λ (k : Claim). k.claim_id) (Advances-claim l.row y life)) ∙ l.same;
    }

-- A granted delivery: the settlement was not in the table, and now it is, under this claim.
pub record IsGranted (r : PaymentReceipt) (o : DeliveryOutcome) (before after : List PaymentRow)
    : Type 0 where
  pub fresh : find_settlement r.network (reference_text r.transaction_reference) before ≡ none
  pub ledger :
      OnLedger r.network
        (reference_text r.transaction_reference)
        (reference_text o.body.claim_id)
        after

SamePayment-refl : (c : Claim) → SamePayment c c
SamePayment-refl c = record {
  receipt = refl;
  requirement = refl;
  network = refl;
  reference = refl;
  payer = refl;
  resource_type = refl;
  resource_uri = refl;
  amount = refl;
  wallet = refl;
}

none-of_exists {ℓ} :
    {A : Type ℓ} (q : A → Bool) (xs : List A) → exists_in q xs ≡ false → find_first q xs ≡ none
none-of_exists q [] h = refl
none-of_exists q (x ∷ xs) h = ground (arith, none-of_exists q xs)

fresh-of_insert :
    (c : Claim) (status : String) (ps : List PaymentRow)
    → insert_fails c status ps ≡ false
    → find_settlement c.network c.transaction_reference ps ≡ none
unfolding insert_fails key_is_taken find_settlement
fresh-of_insert c status ps h =
    none-of_exists (has_settlement c.network c.transaction_reference) ps (ground arith)

is_healthy-payments : (db : Db) → (is_healthy db).1.payments ≡ db.payments
unfolding is_healthy health_snapshot connection report_unavailable ◌>>=◌
is_healthy-payments db = ground arith

get_service_mode-payments : (db : Db) → (get_service_mode db).1.payments ≡ db.payments
unfolding get_service_mode connection require_table ◌>>=◌
get_service_mode-payments db = ground arith

module _ (h : ControlHost) (r : PaymentReceipt) (id at : String) (before : List PaymentRow) where
  abbrev Grants : DeliveryOutcome → Db → Type 0
  Grants o s = o.capability ≡ true → IsGranted r o before s.payments

  -- A denial carries no capability, whatever is asked of a granted outcome.
  denied :
      (P : DeliveryOutcome → Db → Type 0) (reason : Option String) (s : Db)
      → Yields (λ o t. o.capability ≡ true → P o t) (deny_delivery h r id at reason s)
  unfolding deny_delivery pure
  denied P reason s =
      Yields-lift (λ o t. o.capability ≡ true → P o t)
        (delivery_record h r id at none "denied" reason) _ s (λ b e c. absurd (cc))

  deny_delivery-Grants :
      (reason : Option String) (s : Db) → Yields Grants (deny_delivery h r id at reason s)
  deny_delivery-Grants reason s = denied (λ o t. IsGranted r o before t.payments) reason s

  deny_replay-Grants :
      (reason : Option String) (s : Db) → Yields Grants (deny_replay h r id at reason s)
  unfolding deny_replay
  deny_replay-Grants reason s =
      Yields-bind Grants (report_event h (claim_event h r id at "payment_replay_denied" reason)) _ s
        (λ _ _.
          Yields-bind Grants (report_conflict h r id at reason) _ _
            (λ _ _. deny_delivery-Grants reason _))

  -- The record of a granted delivery names the claim.
  record-claim_id :
      (b : DeliveryRecord)
      → delivery_record h r id at (some (claim_id_of h r id at)) "pending" none ≡ ok b
      → reference_text b.claim_id ≡ claim_id_of h r id at
  unfolding delivery_record delivery_of
  record-claim_id b e = ground arith

  grant_delivery-Grants :
      (s : Db)
      → find_settlement r.network (reference_text r.transaction_reference) before ≡ none
      → OnLedger r.network
          (reference_text r.transaction_reference)
          (claim_id_of h r id at)
          s.payments
      → Yields Grants (grant_delivery h r id at s)
  unfolding grant_delivery pure
  grant_delivery-Grants s fresh l =
      let reported = report_event h (claim_event h r id at "payment_claimed" none) in
      Yields-bind Grants reported _ s (λ _ _.
        Yields-lift Grants (delivery_record h r id at (some (claim_id_of h r id at)) "pending" none)
          _ (reported s).1
          (λ b e c. record {
            fresh = fresh;
            ledger = rw (record-claim_id b e) (
                OnLedger-Grows r.network (reference_text r.transaction_reference)
                  (claim_id_of h r id at) s (reported s).1
                  ((report_event-Evolves Grows-Writes h _).at s) l);
          }))

  -- What an accepted claim leaves.
  claimed-OnLedger :
      (db : Db)
      → was_claimed (claim_payment h.sha256 (claim_of h r id at) "pending" db).0 ≡ true
      → (find_settlement r.network (reference_text r.transaction_reference) db.payments ≡ none)
        × OnLedger r.network
            (reference_text r.transaction_reference)
            (claim_id_of h r id at)
            (claim_payment h.sha256 (claim_of h r id at) "pending" db).1.payments
  unfolding claim_of find_settlement
  claimed-OnLedger db done =
      let c = claim_of h r id at in
      let (fits, appended) = claim_payment-inserts h.sha256 c "pending" db done in
      (
        fresh-of_insert c "pending" db.payments fits,
        record {
          row = record {
            claim = c;
            delivery_status = "pending";
            delivered_at = none;
            failed_at = none;
            response_digest = none;
            response_bytes = none;
            processing_duration_ms = none;
            delivery_failure_reason = none;
          };
          found =
              rw appended
                (find_settlement-inserted c c "pending" db.payments fits (SamePayment-refl c));
          same = refl;
        },
      )

  claim_in_mode-Grants :
      (mode : String) (db : Db)
      → db.payments ≡ before
      → Yields Grants (claim_in_mode h r id at mode db)
  unfolding claim_in_mode after_claim
  claim_in_mode-Grants mode db same =
      Yields-unless Grants (mode == "controlled_proof") _ _ db (λ _. deny_delivery-Grants _ db)
        (λ _.
          Yields-bind Grants (claim_payment h.sha256 (claim_of h r id at) "pending") _ db (λ d e.
            Yields-unless Grants d.claimed _ _ _ (λ _. deny_replay-Grants _ _)
              (λ claimed.
                let made = claimed-OnLedger db (rw e claimed) in
                grant_delivery-Grants _ (rw (← same) made.0) made.1)))

  claim_checked-Grants :
      (db : Db) → db.payments ≡ before → Yields Grants (claim_checked h r id at db)
  unfolding claim_checked
  claim_checked-Grants db same = Yields-bind Grants is_healthy _ db (λ healthy _.
      Yields-raise_if Grants (not healthy) _ _ (is_healthy db).1 (λ _.
        Yields-bind Grants get_service_mode _ (is_healthy db).1 (λ mode _.
          claim_in_mode-Grants mode _
            (get_service_mode-payments (is_healthy db).1 ∙ is_healthy-payments db ∙ same))))

  claim_if-Grants :
      (allowed : Bool) (db : Db)
      → db.payments ≡ before
      → Yields
          (λ o s. o.capability ≡ true → (allowed ≡ true) × IsGranted r o before s.payments)
          (claim_if h r id at allowed db)
  unfolding claim_if
  claim_if-Grants allowed db same =
      Yields-unless _ allowed _ _ db
        (λ _. denied (λ o s. (allowed ≡ true) × IsGranted r o before s.payments) _ db)
        (λ yes_.
          Yields-map Grants _ _ (λ o s g c. (yes_, g c))
            (Yields-attempt Grants (claim_checked h r id at) _ db (claim_checked-Grants db same)
              (λ _. deny_delivery-Grants _ _)))

module _ (h : ControlHost) where
  pub claim_settled-Grants :
      (payment : PaymentOutcome) (id at : String) (db : Db)
      → Yields
          (λ o s.
            o.capability ≡ true
            → (payment_receipt_allows_resource_access h.payment payment ≡ true)
              × IsGranted (receipt_of payment) o db.payments s.payments)
          (claim_settled_payment_for_delivery h payment id at db)
  unfolding claim_settled_payment_for_delivery
  claim_settled-Grants payment id at db = Yields-lift _ (validate_request_id id) _ db (λ valid_id _.
      Yields-lift _ (timestamp_epoch h at) _ db
        (λ _ _. claim_if-Grants h (receipt_of payment) valid_id at db.payments _ db refl))

  -- A delivery outcome with the delivery capability comes only from a payment outcome that may reach
  -- its resource. Its settlement was not in the payments table before, and is there afterwards, under
  -- the claim that the outcome names.
  pub claim_settled-IsGranted :
      (payment : PaymentOutcome) (id at : String) (db : Db) (o : DeliveryOutcome)
      → (claim_settled_payment_for_delivery h payment id at db).0 ≡ ok o
      → o.capability ≡ true
      → (payment_receipt_allows_resource_access h.payment payment ≡ true)
        × IsGranted
            (receipt_of payment)
            o
            db.payments
            (claim_settled_payment_for_delivery h payment id at db).1.payments
  claim_settled-IsGranted payment id at db o e granted =
      Yields-ok _ (claim_settled_payment_for_delivery h payment id at db) o
        (claim_settled-Grants payment id at db) e granted
