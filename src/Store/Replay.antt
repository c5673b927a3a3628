-- ===== src/Store/Replay.antt =====
-- A consumed payment is recognised: what `claim_payment` (retail_context/control_store.py) answers to a
-- claim of a payment that was claimed before.
use sharpe_nova_os.Prelude.{
  ◌≡◌, refl, sym, ◌∙◌, ◌⊎◌, inl, inr, Bool, true, false, ◌&&◌, Option, some, List, [], ◌∷◌, ◌++◌,
  String, arith, ◌==◌, eq_iff, eq_refl, find_first, find_first-append, opt_eq, opt_eq_refl,
}
use sharpe_nova_os.Exec.{Result, ok, err, sqlite_error, ◌>>=◌}
use sharpe_nova_os.Store.Db.{Db, Claim, PaymentRow, connection, require_table}
use sharpe_nova_os.Store.Claims.{
  PaymentClaimDecision, has_settlement, insert_fails, new_row, claim_or_refuse, claim_payment,
  refuse, refusal, find_settlement, same_payment, refused,
}
use sharpe_nova_os.Store.Growth.{find_first-Advanced, Advances-claim}
use mathlib.Core.Path.{subst}
use sharpe_nova_os.Store.Calls.{Call, history}
use sharpe_nova_os.Store.Consumption.{
  was_claimed, claim_payment-inserts, taken_forever, insert_fails_of_taken, after_history,
}

-- The nine columns that `claim_payment` compares, of two claims.
pub record SamePayment (c c' : Claim) : Type 0 where
  pub receipt : c.payment_receipt_id ≡ c'.payment_receipt_id
  pub requirement : c.payment_requirement_id ≡ c'.payment_requirement_id
  pub network : c.network ≡ c'.network
  pub reference : c.transaction_reference ≡ c'.transaction_reference
  pub payer : c.payer ≡ c'.payer
  pub resource_type : c.resource_type ≡ c'.resource_type
  pub resource_uri : c.resource_uri ≡ c'.resource_uri
  pub amount : c.amount_atomic ≡ c'.amount_atomic
  pub wallet : c.settlement_wallet ≡ c'.settlement_wallet

-- The answer of a claim whose payment was consumed: the reason, and the row of the first claim `c`.
abbrev pub AlreadyConsumed : Claim → Result PaymentClaimDecision → Type 0
AlreadyConsumed c (ok d) =
    (d.claimed ≡ false)
    × (d.failure_reason ≡ some "payment_already_consumed")
    × (r : PaymentRow) × (d.row ≡ some r)
    × (r.claim ≡ c)
AlreadyConsumed c (err e) = e ≡ sqlite_error

AlreadyConsumed-of :
    (c : Claim) (r : PaymentRow) (out : Result PaymentClaimDecision)
    → r.claim ≡ c
    → (out ≡ err sqlite_error) ⊎ (out ≡ ok (refused "payment_already_consumed" (some r)))
    → AlreadyConsumed c out
AlreadyConsumed-of c r out p (inl e) = rw e refl
AlreadyConsumed-of c r out p (inr e) = rw e (refl, refl, r, refl, p)

-- The test of a claim's columns that `find_settlement` makes of a row.
abbrev settles : Claim → Claim → Bool
settles c k = k.network == c.network && k.transaction_reference == c.transaction_reference

opt_eq_of_eq : (a b : Option String) → a ≡ b → opt_eq a b ≡ true
opt_eq_of_eq a b p = rw p (opt_eq_refl b)

str_eq_of_eq : (a b : String) → a ≡ b → (a == b) ≡ true
str_eq_of_eq a b p = (eq_iff a b).1 p

same_payment-true : (r : PaymentRow) (c : Claim) → SamePayment r.claim c → same_payment r c ≡ true
unfolding same_payment
same_payment-true r c s = rw (
  str_eq_of_eq _ _ s.receipt,
  str_eq_of_eq _ _ s.requirement,
  str_eq_of_eq _ _ s.network,
  str_eq_of_eq _ _ s.reference,
  opt_eq_of_eq _ _ s.payer,
  str_eq_of_eq _ _ s.resource_type,
  str_eq_of_eq _ _ s.resource_uri,
  str_eq_of_eq _ _ s.amount,
  str_eq_of_eq _ _ s.wallet,
)

-- In the table that the accepted claim left, its row is the first with its settlement.
pub find_settlement-inserted :
    (c c' : Claim) (status : String) (ps : List PaymentRow)
    → insert_fails c status ps ≡ false
    → SamePayment c c'
    → find_first (has_settlement c'.network c'.transaction_reference) (ps ++ new_row c status ∷ [])
      ≡ some (new_row c status)
unfolding insert_fails
find_settlement-inserted c c' status ps h s =
    rw (← s.network, ← s.reference)
      (find_first-append (has_settlement c.network c.transaction_reference) ps
          (new_row c status ∷ []) (ground arith)
        ∙ (rw (eq_refl, eq_refl)))

module _ (sha256 : String → String) where
  answers_consumed :
      (c : Claim) (status : String) (db : Db) (r : PaymentRow)
      → insert_fails c status db.payments ≡ true
      → find_settlement c.network c.transaction_reference db.payments ≡ some r
      → same_payment r c ≡ true
      → ((claim_payment sha256 c status db).0 ≡ err sqlite_error)
        ⊎ ((claim_payment sha256 c status db).0 ≡ ok (refused "payment_already_consumed" (some r)))
  unfolding claim_payment connection require_table claim_or_refuse refuse refusal ◌>>=◌
  answers_consumed c status db r h f s = ground arith

  -- After a claim was accepted and whatever calls followed, a claim of the same payment (the nine
  -- columns that are compared) is answered `payment_already_consumed` with the row of the first
  -- claim, unless the database fails.
  pub claim_payment-replayed :
      (c : Claim) (status : String) (db : Db) (cs : List Call) (c' : Claim) (status' : String)
      → was_claimed (claim_payment sha256 c status db).0 ≡ true
      → SamePayment c c'
      → AlreadyConsumed c
          (claim_payment sha256 c' status'
            (history sha256 cs (claim_payment sha256 c status db).1)).0
  claim_payment-replayed c status db cs c' status' h same =
      let later = history sha256 cs (claim_payment sha256 c status db).1 in
      let grown = after_history sha256 c status db cs h in
      let (y, found, life) =
        find_first-Advanced (settles c') (db.payments ++ new_row c status ∷ []) later.payments
          (new_row c status) grown
          (find_settlement-inserted c c' status db.payments
            (claim_payment-inserts sha256 c status db h).0 same) in
      let claim = Advances-claim (new_row c status) y life in
      AlreadyConsumed-of c y _ (sym claim) (
        answers_consumed c' status' later y
          (insert_fails_of_taken c' status' later.payments
            (taken_forever c c' status db.payments later.payments (inr (inl same.receipt)) grown))
          (unfold find_settlement in found)
          (same_payment-true y c' (subst (λ (k : Claim). SamePayment k c') claim same)))
