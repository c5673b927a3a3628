-- ===== src/Delivery/Evolution.antt =====
-- Delivery (retail_context/runtime_delivery.py) makes only the writes of the store's methods.
use sharpe_nova_os.Prelude.{ℕ, Option, none, some, String}
use sharpe_nova_os.Exec.{Error, value_error}
use sharpe_nova_os.Exec.Evolve.{Evolves, evolve_rules}
use sharpe_nova_os.Store.Db.{Db, PaymentRow}
use sharpe_nova_os.Store.Methods.{Writes, get_payment_claim-Evolves, mark_delivery-Evolves}
use sharpe_nova_os.Controls.Types.{ControlHost}
use sharpe_nova_os.Controls.Audit.{record_retail_operational_incident-Evolves}
use sharpe_nova_os.Delivery.{
  PreparedRequest, RuntimeCapability, unavailable, fail_claim, fail_delivery, redeliver, after_race,
  mark_raised, deliver_first, deliver_claim, deliver_body, deliver_or_redeliver_retail_resource,
}

module _ {R : Db → Db → Type 0} (allow : Writes R) (h : ControlHost) (utf8_length : String → ℕ)
    (c : RuntimeCapability) (p : PreparedRequest) (at : String) (elapsed : ℕ) where
  fail_claim-Evolves :
      (reason : String) (claim : Option PaymentRow)
      → Evolves R (fail_claim h utf8_length c p at elapsed reason claim)
  unfolding fail_claim unavailable
  fail_claim-Evolves reason claim =
      search (evolve_rules, allow.db.order, mark_delivery-Evolves allow) depth 9

  fail_delivery-Evolves :
      (reason : String) → Evolves R (fail_delivery h utf8_length c p at elapsed reason)
  unfolding fail_delivery unavailable
  fail_delivery-Evolves reason =
      search (evolve_rules, allow.db.order, get_payment_claim-Evolves allow, fail_claim-Evolves)
        depth 9

  after_race-Evolves :
      (body : String) (o : Option PaymentRow)
      → Evolves R (after_race h utf8_length c p at elapsed body o)
  unfolding after_race
  after_race-Evolves body none = search (evolve_rules, allow.db.order)
  after_race-Evolves body (some r) = search (evolve_rules, allow.db.order)

  mark_raised-Evolves :
      (body : String) (e : Error) → Evolves R (mark_raised h utf8_length c p at elapsed body e)
  unfolding mark_raised unavailable
  mark_raised-Evolves body (value_error _) =
      search (evolve_rules, allow.db.order, get_payment_claim-Evolves allow, after_race-Evolves)
        depth 9
  mark_raised-Evolves body _ = search (evolve_rules, allow.db.order)

  deliver_first-Evolves :
      (body : String) → Evolves R (deliver_first h utf8_length c p at elapsed body)
  unfolding deliver_first
  deliver_first-Evolves body =
      search (evolve_rules, allow.db.order, mark_delivery-Evolves allow, mark_raised-Evolves) depth
        9

  deliver_claim-Evolves :
      (body : String) (claim : Option PaymentRow)
      → Evolves R (deliver_claim h utf8_length c p at elapsed body claim)
  unfolding deliver_claim redeliver unavailable
  deliver_claim-Evolves body none = search (evolve_rules, allow.db.order)
  deliver_claim-Evolves body (some r) =
      search
        (
          evolve_rules,
          allow.db.order,
          record_retail_operational_incident-Evolves allow,
          deliver_first-Evolves,
        )
        depth 12

  deliver_body-Evolves :
      (limit : ℕ) (body : Option String)
      → Evolves R (deliver_body h utf8_length c p at elapsed limit body)
  unfolding deliver_body unavailable
  deliver_body-Evolves limit none = fail_delivery-Evolves _
  deliver_body-Evolves limit (some body) =
      search
        (
          evolve_rules,
          allow.db.order,
          get_payment_claim-Evolves allow,
          fail_delivery-Evolves,
          deliver_claim-Evolves,
        )
        depth 9

  pub deliver-Evolves :
      (limit : ℕ)
      → Evolves R (deliver_or_redeliver_retail_resource h utf8_length c p at elapsed limit)
  unfolding deliver_or_redeliver_retail_resource
  deliver-Evolves limit = search (evolve_rules, allow.db.order, deliver_body-Evolves)
