-- ===== src/Store/Consumption.antt =====
-- A payment is consumed once: what `claim_payment` (retail_context/control_store.py) accepts, and what
-- it answers ever after.
use sharpe_nova_os.Prelude.{
  ◌≡◌, refl, ◌⊎◌, inl, inr, Bool, true, false, ◌&&◌, ◌||◌, List, [], ◌∷◌, ◌++◌, String, arith, ◌==◌,
  eq_iff, exists_in, exists_in-append, Bool-cases,
}
use sharpe_nova_os.Exec.{Result, ok, err, ◌>>=◌}
use sharpe_nova_os.Telemetry.{build_retail_telemetry_event}
use sharpe_nova_os.Store.Db.{Db, Claim, PaymentRow, connection, require_table}
use sharpe_nova_os.Store.Audit.{insert_telemetry, store_event}
use sharpe_nova_os.Store.Claims.{
  PaymentClaimDecision, key_is_taken, insert_fails, new_row, add_payment, accept_claim,
  claim_or_refuse, claim_payment, refuse, refusal,
}
use sharpe_nova_os.Store.Growth.{Advanced, exists_in-Advanced, Grows, Grows-Writes}
use mathlib.Core.Path.{subst}
use sharpe_nova_os.Store.Calls.{Call, history, history-Writes}

-- The claim was accepted.
abbrev pub was_claimed : Result PaymentClaimDecision → Bool
was_claimed (ok d) = d.claimed
was_claimed (err _) = false

module _ (sha256 : String → String) where
  -- An accepted claim is one new row, with no key of an old one.
  pub claim_payment-inserts :
      (c : Claim) (status : String) (db : Db)
      → was_claimed (claim_payment sha256 c status db).0 ≡ true
      → (insert_fails c status db.payments ≡ false)
        × ((claim_payment sha256 c status db).1.payments ≡ db.payments ++ new_row c status ∷ [])
  unfolding claim_payment connection require_table claim_or_refuse accept_claim insert_telemetry
      store_event add_payment build_retail_telemetry_event refuse refusal ◌>>=◌
  claim_payment-inserts c status db h = ground arith

-- The claims share one of the keys of the table.
abbrev pub SharesKey : Claim → Claim → Type 0
SharesKey c c' =
    (c.claim_id ≡ c'.claim_id)
    ⊎ (c.payment_receipt_id ≡ c'.payment_receipt_id)
    ⊎ ((c.network ≡ c'.network) × (c.transaction_reference ≡ c'.transaction_reference))

-- The claims name the same settlement.
abbrev pub settlement_of : Claim → Claim → Bool
settlement_of c c' = c'.network == c.network && c'.transaction_reference == c.transaction_reference

abbrev pub rows_of_key : Claim → Claim → Bool
rows_of_key c c' =
    c'.claim_id == c.claim_id || c'.payment_receipt_id == c.payment_receipt_id || settlement_of c c'

-- The table's three searches are one.
pub key_is_taken-eq :
    (c : Claim) (ps : List PaymentRow)
    → key_is_taken c ps ≡ exists_in (λ r. rows_of_key c r.claim) ps
unfolding key_is_taken
key_is_taken-eq c [] = refl
key_is_taken-eq c (p ∷ ps) = ground (arith, key_is_taken-eq c ps)

exists_in-last :
    (q : PaymentRow → Bool) (ps : List PaymentRow) (r : PaymentRow)
    → q r ≡ true
    → exists_in q (ps ++ r ∷ []) ≡ true
exists_in-last q ps r h = rw (exists_in-append, h) (ground arith)

-- Once a claim with these keys stands in the table, no later claim with one of them is accepted.
pub taken_forever :
    (c c' : Claim) (status : String) (ps qs : List PaymentRow)
    → SharesKey c c'
    → Advanced (ps ++ new_row c status ∷ []) qs
    → key_is_taken c' qs ≡ true
taken_forever c c' status ps qs share a = rw (key_is_taken-eq c' qs) (
    exists_in-Advanced (rows_of_key c') (ps ++ new_row c status ∷ []) qs a
      (exists_in-last (λ r. rows_of_key c' r.claim) ps (new_row c status) (shared share)))
  where
    shared : SharesKey c c' → rows_of_key c' c ≡ true
    shared (inl p) = ground (arith, eq_iff c.claim_id c'.claim_id)
    shared (inr (inl p)) = ground (arith, eq_iff c.payment_receipt_id c'.payment_receipt_id)
    shared (inr (inr (p, t))) = ground (
      arith,
      eq_iff c.network c'.network,
      eq_iff c.transaction_reference c'.transaction_reference,
    )

pub insert_fails_of_taken :
    (c : Claim) (status : String) (ps : List PaymentRow)
    → key_is_taken c ps ≡ true
    → insert_fails c status ps ≡ true
unfolding insert_fails
insert_fails_of_taken c status ps h = rw h (ground arith)

module _ (sha256 : String → String) where
  -- A claim whose insertion fails is not accepted.
  claim_payment-refuses :
      (c : Claim) (status : String) (db : Db)
      → insert_fails c status db.payments ≡ true
      → was_claimed (claim_payment sha256 c status db).0 ≡ false
  claim_payment-refuses c status db h =
      elim (Bool-cases (was_claimed (claim_payment sha256 c status db).0)) [
        | inl yes_ ↦ cc (h, (claim_payment-inserts sha256 c status db yes_).0)
        | inr no_ ↦ no_
      ]

  pub after_history :
      (c : Claim) (status : String) (db : Db) (cs : List Call)
      → was_claimed (claim_payment sha256 c status db).0 ≡ true
      → Advanced
          (db.payments ++ new_row c status ∷ [])
          (history sha256 cs (claim_payment sha256 c status db).1).payments
  after_history c status db cs h =
      let db' = (claim_payment sha256 c status db).1 in
      subst (λ (ps : List PaymentRow). Advanced ps (history sha256 cs db').payments)
        (claim_payment-inserts sha256 c status db h).1
        (history-Writes sha256 Grows-Writes cs db').payments

  -- After a claim was accepted and whatever calls followed, faults included, a claim with the same
  -- claim id, the same payment receipt or the same settlement is never accepted.
  pub claim_payment-once :
      (c : Claim) (status : String) (db : Db) (cs : List Call) (c' : Claim) (status' : String)
      → was_claimed (claim_payment sha256 c status db).0 ≡ true
      → SharesKey c c'
      → was_claimed
          (claim_payment sha256 c' status'
            (history sha256 cs (claim_payment sha256 c status db).1)).0
        ≡ false
  claim_payment-once c status db cs c' status' h share =
      let later = history sha256 cs (claim_payment sha256 c status db).1 in
      claim_payment-refuses c' status' later (
        insert_fails_of_taken c' status' later.payments (
          taken_forever c c' status db.payments later.payments share
            (after_history c status db cs h)))

  -- Over any history of calls, faults included, the claims in the payments table stay, in their order
  -- and with their columns; a row changes at most once, from pending to delivered or failed; and the
  -- telemetry, the incidents and the runtime requests are only added to.
  pub history-Grows : (cs : List Call) (db : Db) → Grows db (history sha256 cs db)
  history-Grows cs db = history-Writes sha256 Grows-Writes cs db
