-- ===== src/Service/Evolution.antt =====
-- How the service (retail_context/service.py) may change its three parts.
use sharpe_nova_os.Prelude.{◌≡◌, refl, ◌∙◌, ℕ, Bool, Option, none, some, String}
use sharpe_nova_os.Exec.{Error, value_error, Exec}
use sharpe_nova_os.Exec.Evolve.{
  IsPreorder, Evolves, Evolves-pure, Evolves-if, Evolves-bind, evolve_rules,
}
use sharpe_nova_os.Payment.Types.{PaymentRequirement, PaymentInput, PaymentOutcome}
use sharpe_nova_os.Payment.Process.{Log, process_retail_x402_payment}
use sharpe_nova_os.Store.Db.{Db, RuntimeRequest}
use sharpe_nova_os.Store.Growth.{Grows, Grows-Writes, Grows-order}
use sharpe_nova_os.Store.Methods.{
  is_healthy-Evolves, get_service_mode-Evolves, get_runtime_request-Evolves,
  record_runtime_request-Evolves,
}
use sharpe_nova_os.Controls.Types.{AdmissionOutcome, ControlHost}
use sharpe_nova_os.Controls.Evolution.{evaluate-Evolves}
use sharpe_nova_os.Guard.{GuardRow, GuardDb, get_request_guard, select_guard}
use sharpe_nova_os.Guard.Binding.{
  KeptIn, KeptIn-order, KeptIn-connection, select_guard-Evolves, initialize_request-Evolves,
  consume-Evolves,
}
use sharpe_nova_os.Delivery.Capability.{claim_or_resume-Evolves}
use sharpe_nova_os.Delivery.Evolution.{deliver-Evolves}
use sharpe_nova_os.Service.World.{
  World, on_store, on_guard, on_facilitator, Through, Through-order, on_store-Through,
  on_guard-Through, on_facilitator-Through,
}
use sharpe_nova_os.Service.Request.{
  PreparedRetailRequest, RuntimeConfig, HttpRequest, Decoded, undecodable, other_version, decoded,
  ServiceHost,
}
use sharpe_nova_os.Service.Admission.{
  ensure_guard, consume_retry, retry_failure, admit_known_in, admit_known_if, admit_known,
  guard_failure, after_recorded, after_admission, admit_new, admit_found, ensure_runtime_admission,
}
use sharpe_nova_os.Service.Handler.{
  recovery_response, claim_and_deliver, after_payment, pay, ask_payment, after_admitted,
  admission_unavailable, handle_prepared, handle_digest, handle_body, handle_allowed,
  handle_paid_resource,
}

-- Nothing is asked of the log.
abbrev pub any_log : IsPreorder {S = Log} (λ a b. Unit)
any_log = record { reflexive = λ a. tt; transitive = λ a b c p q. tt }

-- The log stays as it is.
abbrev pub same_log : IsPreorder {S = Log} (λ a b. a ≡ b)
same_log = record { reflexive = λ a. refl; transitive = λ a b c p q. p ∙ q }

get_request_guard-Evolves : (k id : String) → Evolves (KeptIn k) (get_request_guard id)
unfolding get_request_guard
get_request_guard-Evolves k id = KeptIn-connection k (select_guard id) (select_guard-Evolves k id)

module _ {L : Log → Log → Type 0} (k : String) (l : IsPreorder L) where
  -- The store grows, the guard keeps the row of the request `k`, and the log goes by `L`.
  abbrev pub Moves : World → World → Type 0
  Moves = Through Grows (KeptIn k) L

  pub order : IsPreorder Moves
  order = Through-order Grows-order (KeptIn-order k) l

  in_store : {A : Type 0} (m : Exec Db A) → Evolves Grows m → Evolves Moves (on_store m)
  in_store m e = on_store-Through Grows-order (KeptIn-order k) l m e

  in_guard : {A : Type 0} (m : Exec GuardDb A) → Evolves (KeptIn k) m → Evolves Moves (on_guard m)
  in_guard m e = on_guard-Through Grows-order (KeptIn-order k) l m e

  in_log : {A : Type 0} (m : Exec Log A) → Evolves L m → Evolves Moves (on_facilitator m)
  in_log m e = on_facilitator-Through Grows-order (KeptIn-order k) l m e

  module _ (h : ControlHost) (config : RuntimeConfig) (p : PreparedRetailRequest) (at : String)
      (paid : Bool) where
    ensure_guard-Moves :
        (row : Option GuardRow) → Evolves Moves (ensure_guard h config p at paid row)
    unfolding ensure_guard
    ensure_guard-Moves (some _) = search (evolve_rules, order)
    ensure_guard-Moves none = in_guard _ (initialize_request-Evolves k _)

    consume_retry-Moves : Evolves Moves (consume_retry h config p at paid)
    unfolding consume_retry
    consume_retry-Moves =
        search
          (
            evolve_rules,
            order,
            in_guard,
            get_request_guard-Evolves k,
            consume-Evolves k,
            ensure_guard-Moves,
          )
          depth 12

    retry_failure-Moves : (e : Error) → Evolves Moves (retry_failure h config p at paid e)
    unfolding retry_failure
    retry_failure-Moves (value_error reason) = search (evolve_rules, order)
    retry_failure-Moves _ = search (evolve_rules, order)

    admit_known_in-Moves :
        (subject : String) (q : RuntimeRequest) (mode : String)
        → Evolves Moves (admit_known_in h config p at paid subject q mode)
    unfolding admit_known_in
    admit_known_in-Moves subject q mode =
        search (evolve_rules, order, consume_retry-Moves, retry_failure-Moves)

    admit_known_if-Moves :
        (subject : String) (q : RuntimeRequest) (healthy : Bool)
        → Evolves Moves (admit_known_if h config p at paid subject q healthy)
    unfolding admit_known_if
    admit_known_if-Moves subject q healthy = Evolves-if _ _ _ (Evolves-pure order _) (
        Evolves-bind order _ _ (in_store _ (get_service_mode-Evolves Grows-Writes))
          (admit_known_in-Moves subject q))

    pub admit_known-Moves :
        (subject : String) (q : RuntimeRequest)
        → Evolves Moves (admit_known h config p at paid subject q)
    unfolding admit_known
    admit_known-Moves subject q =
        Evolves-bind order _ _ (in_store _ (is_healthy-Evolves Grows-Writes))
          (admit_known_if-Moves subject q)

    guard_failure-Moves : (e : Error) → Evolves Moves (guard_failure h config p at paid e)
    unfolding guard_failure
    guard_failure-Moves (value_error reason) = search (evolve_rules, order)
    guard_failure-Moves _ = search (evolve_rules, order)

    after_recorded-Moves : (b : Bool) → Evolves Moves (after_recorded h config p at paid b)
    unfolding after_recorded
    after_recorded-Moves b =
        search (evolve_rules, order, in_guard, initialize_request-Evolves k, guard_failure-Moves)
          depth 12

    after_admission-Moves :
        (subject : String) (o : AdmissionOutcome)
        → Evolves Moves (after_admission h config p at paid subject o)
    unfolding after_admission
    after_admission-Moves subject o =
        search
          (
            evolve_rules,
            order,
            in_store,
            record_runtime_request-Evolves Grows-Writes,
            after_recorded-Moves,
          )
          depth 12

    admit_found-Moves :
        (subject : String) (q : Option RuntimeRequest)
        → Evolves Moves (admit_found h config p at paid subject q)
    unfolding admit_found admit_new
    admit_found-Moves subject none =
        search
          (evolve_rules, order, in_store, evaluate-Evolves Grows-Writes h, after_admission-Moves)
          depth 12
    admit_found-Moves subject (some q) = admit_known-Moves subject q

    pub ensure-Moves : Evolves Moves (ensure_runtime_admission h config p at paid)
    unfolding ensure_runtime_admission
    ensure-Moves =
        search
          (
            evolve_rules,
            order,
            in_store,
            get_runtime_request-Evolves Grows-Writes,
            admit_found-Moves,
          )
          depth 12

  module _ (h : ServiceHost)
      (asks : (r : PaymentRequirement) (input : PaymentInput)
        → Evolves L (process_retail_x402_payment h.payment h.facilitator r input))
      (config : RuntimeConfig) (at : String) (elapsed : ℕ) where
    recovery-Moves : (e : Error) → Evolves Moves (recovery_response e)
    unfolding recovery_response
    recovery-Moves (value_error reason) = search (evolve_rules, order)
    recovery-Moves _ = search (evolve_rules, order)

    module _ (p : PreparedRetailRequest) where
      pub claim_and_deliver-Moves :
          (o : PaymentOutcome) → Evolves Moves (claim_and_deliver h config at elapsed p o)
      unfolding claim_and_deliver
      claim_and_deliver-Moves o =
          search
            (
              evolve_rules,
              order,
              in_store,
              claim_or_resume-Evolves Grows-Writes h.control,
              deliver-Evolves Grows-Writes h.control h.utf8_length,
            )
            depth 14

      pay-Moves :
          (r : PaymentRequirement) (challenge : String) (d : Decoded)
          → Evolves Moves (pay h config at elapsed p r challenge d)
      unfolding pay after_payment
      pay-Moves r challenge undecodable = search (evolve_rules, order)
      pay-Moves r challenge other_version = search (evolve_rules, order)
      pay-Moves r challenge (decoded paid) =
          search (evolve_rules, order, in_log, asks, claim_and_deliver-Moves, recovery-Moves) depth
            14

      ask_payment-Moves :
          (r : PaymentRequirement) (challenge : String) (header : Option String)
          → Evolves Moves (ask_payment h config at elapsed p r challenge header)
      unfolding ask_payment
      ask_payment-Moves r challenge none = search (evolve_rules, order)
      ask_payment-Moves r challenge (some header) = search (evolve_rules, order, pay-Moves)

      pub after_admitted-Moves :
          (header failure : Option String)
          → Evolves Moves (after_admitted h config at elapsed p header failure)
      unfolding after_admitted
      after_admitted-Moves header (some reason) = search (evolve_rules, order)
      after_admitted-Moves header none = search (evolve_rules, order, ask_payment-Moves) depth 12

      handle_digest-Moves :
          (header : Option String) (same : Bool)
          → Evolves Moves (handle_digest h config at elapsed p header same)
      unfolding handle_digest handle_prepared admission_unavailable
      handle_digest-Moves header same =
          search (evolve_rules, order, after_admitted-Moves, ensure-Moves) depth 14

    handle_body-Moves :
        (q : HttpRequest) (p : Option PreparedRetailRequest)
        → Evolves Moves (handle_body h config at elapsed q p)
    unfolding handle_body
    handle_body-Moves q none = search (evolve_rules, order)
    handle_body-Moves q (some p) = search (evolve_rules, order, handle_digest-Moves) depth 12

    pub handle-Moves :
        (q : HttpRequest) (kind : String)
        → Evolves Moves (handle_paid_resource h config at elapsed q kind)
    unfolding handle_paid_resource handle_allowed
    handle-Moves q kind = search (evolve_rules, order, handle_body-Moves) depth 14
