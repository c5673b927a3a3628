-- ===== src/Delivery/Records.antt =====
-- What is on record of a delivered resource (retail_context/runtime_delivery.py), now and ever after.
use sharpe_nova_os.Prelude.{
  ℕ, ◌≡◌, refl, ◌⊎◌, Bool, true, false, not, ◌&&◌, Option, none, some, String, ◌==◌, eq_iff,
  opt_eq→eq, List, [], ◌∷◌, if◌then◌else◌, ℤ, pos, negsuc, opt_int_eq, arith, inl, inr,
  update_where, Bool-cases,
}
use sharpe_nova_os.Exec.{
  Error, value_error, Result, ok, err, returned, Exec, pure, raise, proceed, attempt, ◌>>=◌, ◌>>◌,
}
use sharpe_nova_os.Store.Db.{Db, PaymentRow, connected, connection, require_table}
use sharpe_nova_os.Store.Claims.{find_claim, get_payment_claim}
use sharpe_nova_os.Store.Deliveries.{Mark, is_pending_claim, marked, mark_delivery}
use sharpe_nova_os.Store.Final.{mark_delivery-writes}
use sharpe_nova_os.Controls.Types.{ControlHost}
use sharpe_nova_os.Delivery.{
  PreparedRequest, RuntimeCapability, DeliveredResource, unavailable, resource, is_recorded,
  redeliver, after_race, mark_raised, deliver_first, deliver_claim, delivered_mark,
}

-- The first row of the claim is delivered, with this digest and this length.
pub record IsOnRecord (claim_id digest : String) (bytes : ℕ) (ps : List PaymentRow) : Type 0 where
  pub row : PaymentRow
  pub found : find_claim claim_id ps ≡ some row
  pub delivered : row.delivery_status ≡ "delivered"
  pub same_digest : row.response_digest ≡ some digest
  pub same_bytes : row.response_bytes ≡ some (pos bytes)

find_claim-marked :
    (m : Mark) (ps : List PaymentRow) (r : PaymentRow)
    → find_claim m.claim_id ps ≡ some r
    → r.delivery_status ≡ "pending"
    → find_claim m.claim_id (update_where (is_pending_claim m.claim_id) (marked m) ps)
      ≡ some (marked m r)
unfolding find_claim
find_claim-marked m [] r h s = cc
find_claim-marked m (x ∷ ps) r h s =
    ground (arith, find_claim-marked m ps r, eq_iff x.delivery_status "pending")

opt_int_eq→eq : (a : Option ℤ) (n : ℕ) → opt_int_eq a (some (pos n)) ≡ true → a ≡ some (pos n)
opt_int_eq→eq none n h = cc
opt_int_eq→eq (some (negsuc m)) n h = cc
opt_int_eq→eq (some (pos m)) n h = ground arith

module _ (h : ControlHost) (utf8_length : String → ℕ) (c : RuntimeCapability) (p : PreparedRequest)
    (at : String) (elapsed : ℕ) (body : String) where
  -- A run that raises says nothing; one that returns has put its resource on record.
  abbrev pub Records : Result DeliveredResource × Db → Type 0
  Records (err _, db) = Unit
  Records (ok d, db) =
      (d.body ≡ body)
      × (d.response_digest ≡ h.sha256 body)
      × (d.response_bytes ≡ utf8_length body)
      × IsOnRecord c.claim_id (h.sha256 body) (utf8_length body) db.payments

  pub Records-if :
      (b : Bool) (m n : Exec Db DeliveredResource) (db : Db)
      → (b ≡ true → Records (m db))
      → (b ≡ false → Records (n db))
      → Records ((if b then m else n) db)
  Records-if true m n db km kn = km refl
  Records-if false m n db km kn = kn refl

  pub Records-raise : (e : Error) (db : Db) → Records (raise e db)
  unfolding raise
  Records-raise e db = tt

  -- A guard that raises.
  Records-guard :
      (b : Bool) (e : Error) (n : Exec Db DeliveredResource) (db : Db)
      → (b ≡ true → Records (n db))
      → Records ((if not b then raise e else n) db)
  Records-guard true e n db kn = kn refl
  Records-guard false e n db kn = Records-raise e db

  pub Records-last :
      {A : Type 0} (o : Result A) (e : Error) (s : Db) → Records (proceed o (λ _. raise e) s)
  unfolding raise
  Records-last (ok _) e s = tt
  Records-last (err _) e s = tt

  pub Records-error :
      {A : Type 0} (m : Exec Db A) (e : Error) (db : Db) → Records ((m >>= λ _. raise e) db)
  unfolding ◌>>=◌
  Records-error m e db = Records-last (m db).0 e (m db).1

  pub read_claim :
      (db : Db)
      → (attempt (get_payment_claim c.claim_id) unavailable db
          ≡ (err (value_error "control_store_unavailable"), connected db))
        ⊎ (attempt (get_payment_claim c.claim_id) unavailable db
            ≡ (ok (find_claim c.claim_id db.payments), connected db))
  unfolding attempt get_payment_claim connection require_table unavailable ◌>>=◌
  read_claim db = ground arith

  pub Records-read :
      (m : Exec Db (Option PaymentRow)) (k : Option PaymentRow → Exec Db DeliveredResource)
      (o : Option PaymentRow) (e : Error) (db s : Db)
      → (m db ≡ (err e, s)) ⊎ (m db ≡ (ok o, s))
      → Records (k o s)
      → Records ((m >>= k) db)
  unfolding ◌>>=◌
  Records-read m k o e db s (inl q) r = rw q tt
  Records-read m k o e db s (inr q) r = rw q r

  recorded :
      (r : PaymentRow) (db : Db) (mode : String)
      → find_claim c.claim_id db.payments ≡ some r
      → r.delivery_status ≡ "delivered"
      → is_recorded h utf8_length c p at elapsed body r ≡ true
      → Records (ok (resource h utf8_length c p at elapsed body mode), db)
  unfolding is_recorded
  recorded r db mode found done rec = (
    refl,
    refl,
    refl,
    record {
      row = r;
      found = found;
      delivered = done;
      same_digest = opt_eq→eq r.response_digest (some (h.sha256 body)) (ground arith);
      same_bytes = opt_int_eq→eq r.response_bytes (utf8_length body) (ground arith);
    },
  )

  Records-redeliver :
      (r : PaymentRow) (db : Db)
      → find_claim c.claim_id db.payments ≡ some r
      → r.delivery_status ≡ "delivered"
      → Records (redeliver h utf8_length c p at elapsed body r db)
  unfolding redeliver pure
  Records-redeliver r db found done =
      elim (Bool-cases (is_recorded h utf8_length c p at elapsed body r)) [
        | inl rec ↦ rw rec (recorded r db "idempotent_redelivery" found done rec)
        | inr differs ↦ rw differs (Records-error _ (value_error "response_digest_mismatch") db)
      ]

  Records-after_race :
      (o : Option PaymentRow) (db : Db)
      → find_claim c.claim_id db.payments ≡ o
      → Records (after_race h utf8_length c p at elapsed body o db)
  unfolding after_race pure
  Records-after_race none db found = Records-raise _ db
  Records-after_race (some r) db found =
      Records-guard (r.delivery_status == "delivered") _ _ db (λ done.
        Records-guard (is_recorded h utf8_length c p at elapsed body r) _ _ db (λ rec.
          recorded r db "idempotent_redelivery" found
            ((eq_iff r.delivery_status "delivered").0 done) rec))

  Records-mark_raised :
      (e : Error) (db : Db) → Records (mark_raised h utf8_length c p at elapsed body e db)
  unfolding mark_raised
  Records-mark_raised (value_error _) db =
      Records-read _ _ _ _ db (connected db) (read_claim db)
        (Records-after_race (find_claim c.claim_id db.payments) (connected db) refl)
  Records-mark_raised _ db = unfold unavailable in Records-raise _ db

  Records-first :
      (m : Exec Db PaymentRow) (o : Result PaymentRow) (db s : Db)
      → m db ≡ (o, s)
      → (returned o ≡ true → IsOnRecord c.claim_id (h.sha256 body) (utf8_length body) s.payments)
      → Records (
          attempt
            (do m; pure (resource h utf8_length c p at elapsed body "initial_delivery"))
            (mark_raised h utf8_length c p at elapsed body)
            db)
  unfolding attempt ◌>>=◌
  Records-first m (ok r) db s e rec = rw e (refl, refl, refl, rec refl)
  Records-first m (err x) db s e rec = rw e (Records-mark_raised x s)

  marked-IsOnRecord :
      (r : PaymentRow) (db : Db)
      → find_claim c.claim_id db.payments ≡ some r
      → r.delivery_status ≡ "pending"
      → returned (mark_delivery h.sha256 (delivered_mark h utf8_length c p at elapsed body) db).0
        ≡ true
      → IsOnRecord c.claim_id
          (h.sha256 body)
          (utf8_length body)
          (mark_delivery h.sha256 (delivered_mark h utf8_length c p at elapsed body) db).1.payments
  marked-IsOnRecord r db found pending done =
      let m = delivered_mark h utf8_length c p at elapsed body in
      record {
        row = marked m r;
        found =
            rw (mark_delivery-writes h.sha256 m db done).2
              (find_claim-marked m db.payments r found pending);
        delivered = refl;
        same_digest = refl;
        same_bytes = refl;
      }

  pub Records-claim :
      (o : Option PaymentRow) (db : Db)
      → find_claim c.claim_id db.payments ≡ o
      → Records (deliver_claim h utf8_length c p at elapsed body o db)
  unfolding deliver_claim deliver_first
  Records-claim none db found = Records-raise _ db
  Records-claim (some r) db found = Records-guard (names r) _ _ db (λ _.
      Records-if (r.delivery_status == "failed") _ _ db (λ _. Records-raise _ db)
        (λ _.
          Records-if (r.delivery_status == "delivered") _ _ db
            (λ done. Records-redeliver r db found ((eq_iff r.delivery_status "delivered").0 done))
            (λ _. Records-guard (r.delivery_status == "pending") _ _ db (λ pending.
              Records-first
                (mark_delivery h.sha256 (delivered_mark h utf8_length c p at elapsed body)) _ db _
                refl
                (marked-IsOnRecord r db found ((eq_iff r.delivery_status "pending").0 pending))))))
    where
      names : PaymentRow → Bool
      names r =
          r.request_id == p.request_id
          && r.resource_uri == p.resource_uri
          && r.payment_receipt_id == c.payment_receipt_id
