-- ===== src/Store/Claims.antt =====
-- Payment claims of the control store: `claim_payment`, `get_payment_claim` and
-- `get_payment_claim_by_settlement` of retail_context/control_store.py.
use sharpe_nova_os.Prelude.{
  Bool, true, false, not, ◌&&◌, ◌||◌, Option, none, some, List, [], ◌∷◌, ◌++◌, String, ◌==◌, one_of,
  opt_eq, find_first, exists_in, if◌then◌else◌,
}
use sharpe_nova_os.Exec.{ok, Exec, pure, lift, gets, ◌>>=◌, ◌>>◌}
use sharpe_nova_os.Telemetry.{
  EventArgs, event_args, build_retail_telemetry_event, authority_effect_none,
}
use sharpe_nova_os.Store.Db.{Db, Claim, PaymentRow, connection, require_table, is_resource_type}
use sharpe_nova_os.Store.Audit.{insert_telemetry}

pub record PaymentClaimDecision : Type 0 where
  pub claimed : Bool
  pub failure_reason : Option String
  pub row : Option PaymentRow

abbrev pub has_claim_id : String → PaymentRow → Bool
has_claim_id c r = r.claim_id == c

abbrev pub has_receipt : String → PaymentRow → Bool
has_receipt p r = r.payment_receipt_id == p

abbrev pub has_settlement : String → String → PaymentRow → Bool
has_settlement network reference r = r.network == network && r.transaction_reference == reference

-- The three keys of `retail_payment_consumption`, one of them in use already.
unfoldable pub key_is_taken : Claim → List PaymentRow → Bool
key_is_taken c ps =
    exists_in (has_claim_id c.claim_id) ps
    || exists_in (has_receipt c.payment_receipt_id) ps
    || exists_in (has_settlement c.network c.transaction_reference) ps

abbrev pub delivery_statuses : List String
delivery_statuses = "pending" ∷ "delivered" ∷ "failed" ∷ []

-- The `CHECK` constraints on a new row.
unfoldable pub claim_checks_fail : Claim → String → Bool
claim_checks_fail c status =
    not (is_resource_type c.resource_type)
    || not (one_of status delivery_statuses)
    || not (c.authority_effect == authority_effect_none)

-- `sqlite3.IntegrityError` on the `INSERT`.
unfoldable pub insert_fails : Claim → String → List PaymentRow → Bool
unfolding claim_checks_fail key_is_taken
insert_fails c status ps = claim_checks_fail c status || key_is_taken c ps

-- The columns that the statement does not name are null.
abbrev pub new_row : Claim → String → PaymentRow
new_row c status = record {
  claim = c;
  delivery_status = status;
  delivered_at = none;
  failed_at = none;
  response_digest = none;
  response_bytes = none;
  processing_duration_ms = none;
  delivery_failure_reason = none;
}

unfoldable pub add_payment : PaymentRow → Exec Db Unit
add_payment r db = (ok tt, record db { payments = db.payments ++ r ∷ [] })

unfoldable pub find_claim : String → List PaymentRow → Option PaymentRow
find_claim c ps = find_first (has_claim_id c) ps

unfoldable pub find_settlement : String → String → List PaymentRow → Option PaymentRow
find_settlement network reference ps = find_first (has_settlement network reference) ps

abbrev pub find_receipt : String → List PaymentRow → Option PaymentRow
find_receipt p ps = find_first (has_receipt p) ps

-- The nine columns that must agree for a claim to count as the same payment.
unfoldable pub same_payment : PaymentRow → Claim → Bool
same_payment r c =
    r.payment_receipt_id == c.payment_receipt_id
    && r.payment_requirement_id == c.payment_requirement_id
    && r.network == c.network
    && r.transaction_reference == c.transaction_reference
    && opt_eq r.payer c.payer
    && r.resource_type == c.resource_type
    && r.resource_uri == c.resource_uri
    && r.amount_atomic == c.amount_atomic
    && r.settlement_wallet == c.settlement_wallet

abbrev pub accepted : Option PaymentRow → PaymentClaimDecision
accepted row = record { claimed = true; failure_reason = none; row = row }

abbrev pub refused : String → Option PaymentRow → PaymentClaimDecision
refused reason existing = record { claimed = false; failure_reason = some reason; row = existing }

-- `transaction_row or receipt_row`, and the reason that the settlement's row gives.
unfoldable pub refusal : Claim → Option PaymentRow → Option PaymentRow → PaymentClaimDecision
refusal c none receipt_row = refused "payment_replay_conflict" receipt_row
refusal c (some r) receipt_row =
    refused (if same_payment r c then "payment_already_consumed" else "payment_replay_conflict")
      (some r)

unfoldable pub refuse : Claim → List PaymentRow → PaymentClaimDecision
unfolding refusal find_settlement
refuse c ps =
    refusal c (find_settlement c.network c.transaction_reference ps)
      (find_receipt c.payment_receipt_id ps)

abbrev pub claimed_event : Claim → EventArgs
claimed_event c = record (event_args c.claimed_at "payment_claimed" c.request_id) {
  resource_type = some c.resource_type;
  payment_receipt_id = some c.payment_receipt_id;
  payment_requirement_id = some c.payment_requirement_id;
  transaction_reference = some c.transaction_reference;
}

module _ (sha256 : String → String) where
  unfoldable pub accept_claim : Claim → String → Exec Db PaymentClaimDecision
  accept_claim c status = do
    add_payment (new_row c status)
    event ← lift (build_retail_telemetry_event sha256 (claimed_event c))
    insert_telemetry event
    row ← gets (λ db. find_claim c.claim_id db.payments)
    pure (accepted row)

  unfoldable pub claim_or_refuse : Claim → String → Bool → Exec Db PaymentClaimDecision
  claim_or_refuse c status fails =
      if fails then gets (λ db. refuse c db.payments) else accept_claim c status

  unfoldable pub claim_payment : Claim → String → Exec Db PaymentClaimDecision
  claim_payment c status = connection (do
    require_table "retail_payment_consumption"
    fails ← gets (λ db. insert_fails c status db.payments)
    claim_or_refuse c status fails)

unfoldable pub get_payment_claim : String → Exec Db (Option PaymentRow)
get_payment_claim claim_id =
    connection
      (require_table "retail_payment_consumption" >> gets (λ db. find_claim claim_id db.payments))

unfoldable pub get_payment_claim_by_settlement : String → String → Exec Db (Option PaymentRow)
get_payment_claim_by_settlement network reference = connection (
    require_table "retail_payment_consumption"
    >> gets (λ db. find_settlement network reference db.payments))
