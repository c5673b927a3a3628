-- ===== src/Delivery/Redelivery.antt =====
-- A resource that is returned stands on record, and every later delivery of its claim returns the same
-- digest and length (retail_context/runtime_delivery.py).
use mathlib.Core.Path.{subst}
use mathlib.Core.Option.{some-injective}
use sharpe_nova_os.Prelude.{
  ℕ, ◌≡◌, refl, sym, ap, ◌∙◌, inl, inr, ◌≤◌, Option, none, some, String, ltb, List, pos, arith,
  Bool-cases, ◌==◌,
}
use sharpe_nova_os.Exec.{Error, Result, ok, err, Exec, raise, proceed, value_error, ◌>>=◌}
use sharpe_nova_os.Store.Db.{Db, PaymentRow, connected}
use sharpe_nova_os.Store.Claims.{find_claim}
use sharpe_nova_os.Store.Growth.{
  Advances, find_first-Advanced, final-ne-pending, Grows, Grows-Writes, Grows-order,
}
use sharpe_nova_os.Store.Calls.{Call, history, history-Writes}
use sharpe_nova_os.Controls.Types.{ControlHost}
use sharpe_nova_os.Delivery.{
  PreparedRequest, RuntimeCapability, DeliveredResource, capability_is_valid, fail_delivery,
  deliver_body, deliver_or_redeliver_retail_resource,
}
use sharpe_nova_os.Delivery.Evolution.{deliver-Evolves}
use sharpe_nova_os.Delivery.Records.{Records, Records-claim, Records-read, read_claim, IsOnRecord}

-- What a returned resource is, and what the payments say of it.
pub record IsDelivered (h : ControlHost) (utf8_length : String → ℕ) (claim_id : String)
    (rendered : Option String) (limit : ℕ) (d : DeliveredResource) (ps : List PaymentRow)
    : Type 0 where
  pub body : rendered ≡ some d.body
  pub size : utf8_length d.body ≤ limit
  pub digest : d.response_digest ≡ h.sha256 d.body
  pub bytes : d.response_bytes ≡ utf8_length d.body
  pub record_kept : IsOnRecord claim_id d.response_digest d.response_bytes ps

module _ (h : ControlHost) (utf8_length : String → ℕ) (c : RuntimeCapability) (p : PreparedRequest)
    (at : String) (elapsed limit : ℕ) where
  abbrev Told : Option String → Result DeliveredResource × Db → Type 0
  Told o (err _, db) = Unit
  Told o (ok d, db) = IsDelivered h utf8_length c.claim_id o limit d db.payments

  Told-Records :
      (body : String) (o : Result DeliveredResource × Db)
      → utf8_length body ≤ limit
      → Records h utf8_length c p at elapsed body o
      → Told (some body) o
  Told-Records body (err _, db) within r = tt
  Told-Records body (ok d, db) within (same, digest, bytes, kept) = record {
    body = ap some (sym same);
    size = rw same within;
    digest = rw (digest, same) refl;
    bytes = rw (bytes, same) refl;
    record_kept = rw (digest, bytes) kept;
  }

  -- A run that ends in a raise tells nothing.
  Told-last :
      {A : Type 0} (o : Option String) (e : Error) (x : Result A) (s : Db)
      → Told o (proceed x (λ _. raise e) s)
  unfolding raise
  Told-last o e (ok _) s = tt
  Told-last o e (err _) s = tt

  Told-raised :
      {A B : Type 0} (o : Option String) (e : Error) (k : A → Exec Db B) (x : Result A) (s : Db)
      → Told o (proceed x (λ a. k a >>= λ _. raise e) s)
  unfolding ◌>>=◌
  Told-raised o e k (ok a) s = Told-last o e (k a s).0 (k a s).1
  Told-raised o e k (err _) s = tt

  Told-error :
      {A B : Type 0} (o : Option String) (e : Error) (m : Exec Db A) (k : A → Exec Db B) (db : Db)
      → Told o ((m >>= λ a. k a >>= λ _. raise e) db)
  unfolding ◌>>=◌
  Told-error o e m k db = Told-raised o e k (m db).0 (m db).1

  fail_delivery-Told :
      (o : Option String) (reason : String) (db : Db)
      → Told o (fail_delivery h utf8_length c p at elapsed reason db)
  unfolding fail_delivery
  fail_delivery-Told o reason db = Told-error o (value_error reason) _ _ db

  deliver_body-Told :
      (o : Option String) (db : Db) → Told o (deliver_body h utf8_length c p at elapsed limit o db)
  unfolding deliver_body
  deliver_body-Told none db = fail_delivery-Told none _ db
  deliver_body-Told (some body) db = elim (Bool-cases (ltb limit (utf8_length body))) [
    | inl big ↦ rw big (fail_delivery-Told (some body) _ db)
    | inr fits ↦ rw fits (
        Told-Records body _ (ground (arith, fits)) (
          Records-read h utf8_length c p at elapsed body _ _ _ _ db (connected db)
            (read_claim h utf8_length c p at elapsed body db)
            (Records-claim h utf8_length c p at elapsed body (find_claim c.claim_id db.payments)
              (connected db) refl)))
  ]

  deliver-Told :
      (db : Db)
      → Told p.rendered (deliver_or_redeliver_retail_resource h utf8_length c p at elapsed limit db)
  unfolding deliver_or_redeliver_retail_resource ◌>>=◌
  deliver-Told db = elim (Bool-cases (capability_is_valid c p)) [
    | inl valid ↦ rw valid (deliver_body-Told p.rendered db)
    | inr refused ↦ rw refused tt
  ]

  Told-IsDelivered :
      (o : Option String) (out : Result DeliveredResource × Db) (d : DeliveredResource)
      → Told o out
      → out.0 ≡ ok d
      → IsDelivered h utf8_length c.claim_id o limit d out.1.payments
  Told-IsDelivered o (err _, db) d t e = cc
  Told-IsDelivered o (ok x, db) d t e =
      subst (λ (y : DeliveredResource). IsDelivered h utf8_length c.claim_id o limit y db.payments)
        (cc) t

  -- A delivery that returns a resource returns the rendered body, within the size limit, with its
  -- digest and its length, and the store then has the claim as delivered with this digest and length.
  pub deliver-IsDelivered :
      (db : Db) (d : DeliveredResource)
      → (deliver_or_redeliver_retail_resource h utf8_length c p at elapsed limit db).0 ≡ ok d
      → IsDelivered h utf8_length c.claim_id p.rendered limit d
          (deliver_or_redeliver_retail_resource h utf8_length c p at elapsed limit db).1.payments
  deliver-IsDelivered db d e =
      Told-IsDelivered p.rendered
        (deliver_or_redeliver_retail_resource h utf8_length c p at elapsed limit db) d
        (deliver-Told db) e

-- What is on record stays so.
pub on_record_unique :
    (claim_id digest digest' : String) (bytes bytes' : ℕ) (s t : Db)
    → Grows s t
    → IsOnRecord claim_id digest bytes s.payments
    → IsOnRecord claim_id digest' bytes' t.payments
    → (digest ≡ digest') × (bytes ≡ bytes')
unfolding find_claim
on_record_unique claim_id digest digest' bytes bytes' s t g x y =
    let (z, found, life) =
      find_first-Advanced (λ k. k.claim_id == claim_id) s.payments t.payments x.row g.payments
        x.found in
    same z found life
  where
    same :
        (z : PaymentRow)
        → find_claim claim_id t.payments ≡ some z
        → Advances x.row z
        → (digest ≡ digest') × (bytes ≡ bytes')
    same z found (inl stays) =
        let row : y.row ≡ x.row =
          some-injective y.row x.row (sym y.found ∙ found ∙ ap some (sym stays)) in
        let digests : some digest ≡ some digest' =
          sym x.same_digest
          ∙ sym (ap (λ (r : PaymentRow). r.response_digest) row)
          ∙ y.same_digest in
        let lengths : some (pos bytes) ≡ some (pos bytes') =
          sym x.same_bytes ∙ sym (ap (λ (r : PaymentRow). r.response_bytes) row) ∙ y.same_bytes in
        (cc, cc)
    same z found (inr (_, pending, _)) =
        absurd (final-ne-pending x.row.delivery_status (inl x.delivered) pending)

module _ (h : ControlHost) (utf8_length : String → ℕ) where
  -- After a claim's resource was delivered, and whatever calls of the store followed, faults included,
  -- a later delivery of this claim that returns a resource, for any request, returns the same
  -- response digest and length.
  pub deliver-same_digest :
      (c : RuntimeCapability) (p : PreparedRequest) (at : String) (elapsed limit : ℕ) (db : Db)
      (d : DeliveredResource) (cs : List Call) (c' : RuntimeCapability) (p' : PreparedRequest)
      (at' : String) (elapsed' limit' : ℕ) (d' : DeliveredResource)
      → c.claim_id ≡ c'.claim_id
      → (deliver_or_redeliver_retail_resource h utf8_length c p at elapsed limit db).0 ≡ ok d
      → (deliver_or_redeliver_retail_resource h utf8_length c' p' at' elapsed' limit' (
          history h.sha256 cs
            (deliver_or_redeliver_retail_resource h utf8_length c p at elapsed limit db).1)).0
        ≡ ok d'
      → (d.response_digest ≡ d'.response_digest) × (d.response_bytes ≡ d'.response_bytes)
  deliver-same_digest c p at elapsed limit db d cs c' p' at' elapsed' limit' d' same e e' =
      let first = (deliver_or_redeliver_retail_resource h utf8_length c p at elapsed limit db).1 in
      let later = history h.sha256 cs first in
      let second =
        (deliver_or_redeliver_retail_resource h utf8_length c' p' at' elapsed' limit' later).1 in
      on_record_unique c.claim_id d.response_digest d'.response_digest d.response_bytes
        d'.response_bytes first second
        (Grows-order.transitive first later second (history-Writes h.sha256 Grows-Writes cs first)
          ((deliver-Evolves Grows-Writes h utf8_length c' p' at' elapsed' limit').at later))
        (deliver-IsDelivered h utf8_length c p at elapsed limit db d e).record_kept
        (subst (λ (id : String). IsOnRecord id d'.response_digest d'.response_bytes second.payments)
          (sym same)
          (deliver-IsDelivered h utf8_length c' p' at' elapsed' limit' later d' e').record_kept)
