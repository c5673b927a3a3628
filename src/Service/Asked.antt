-- ===== src/Service/Asked.antt =====
-- When the service (retail_context/service.py) turns to the facilitator.
use sharpe_nova_os.Prelude.{
  ◌≡◌, refl, sym, ap, ◌∙◌, ◌⊎◌, inl, inr, Bool, true, false, ◌||◌, Option, none, some, String, eqb,
  ltb, if◌then◌else◌, ℕ,
}
use sharpe_nova_os.Exec.{Result, ok, err, Exec, pure, attempt, lift, ◌>>=◌}
use sharpe_nova_os.Exec.Evolve.{Evolves, Evolves-attempt, Evolves-pure}
use sharpe_nova_os.Exec.Yields.{Yields, Yields-ok, Yields-attempt, bind-leaves}
use sharpe_nova_os.Payment.Process.{Log}
use sharpe_nova_os.Payment.Access.{is_truthy}
use sharpe_nova_os.Service.World.{World}
use sharpe_nova_os.Service.Request.{
  PreparedRetailRequest, RuntimeConfig, HttpRequest, ServiceHost, compare_digest,
}
use sharpe_nova_os.Service.Admission.{ensure_runtime_admission}
use sharpe_nova_os.Service.Handler.{
  token_matches, after_admitted, admission_unavailable, handle_prepared, handle_digest, handle_body,
  handle_allowed, handle_paid_resource,
}
use sharpe_nova_os.Service.Evolution.{
  any_log, same_log, Moves, order, ensure-Moves, after_admitted-Moves,
}
use sharpe_nova_os.Service.Admitted.{IsAdmitted, IsAdmitted-Grows, ensure-Yields}

-- What a request went through before the facilitator was asked.
pub record IsCleared (h : ServiceHost) (config : RuntimeConfig) (q : HttpRequest) (kind : String)
    (w : World) : Type 0 where
  pub token : token_matches config.controlled_proof_access_token q.proof_token ≡ ok true
  pub p : PreparedRetailRequest
  pub prepared : h.prepare kind q.body ≡ some p
  pub digest : compare_digest q.request_digest p.request_digest ≡ ok true
  pub admitted : IsAdmitted p w.store

if-leaves {ℓ} :
    {S A : Type 0} (P : S → Type ℓ) (b : Bool) (m n : Exec S A) (s : S)
    → P (m s).1
    → P (n s).1
    → P ((if b then m else n) s).1
if-leaves P true m n s km kn = km
if-leaves P false m n s km kn = kn

lift-leaves {ℓ} :
    {S A B : Type 0} (P : S → Type ℓ) (r : Result A) (k : A → Exec S B) (s : S)
    → P s
    → ((a : A) → r ≡ ok a → P (k a s).1)
    → P ((lift r >>= k) s).1
unfolding ◌>>=◌
lift-leaves P (ok a) k s stopped went = went a refl
lift-leaves P (err e) k s stopped went = stopped

module _ (h : ServiceHost) (config : RuntimeConfig) (at : String) (elapsed : ℕ) where
  module _ (p : PreparedRetailRequest) where
    abbrev AsksAdmitted : Log → World → Type 0
    AsksAdmitted log t = (t.asked ≡ log) ⊎ IsAdmitted p t.store

    after_admitted-Asks :
        (header failure : Option String) (w : World)
        → (failure ≡ none → IsAdmitted p w.store)
        → AsksAdmitted w.asked (after_admitted h config at elapsed p header failure w).1
    unfolding after_admitted pure
    after_admitted-Asks header (some reason) w admitted = inl refl
    after_admitted-Asks header none w admitted = inr (admitted_later (admitted refl))
      where
        admitted_later :
            IsAdmitted p w.store
            → IsAdmitted p (after_admitted h config at elapsed p header none w).1.store
        admitted_later a =
            IsAdmitted-Grows p w.store (after_admitted h config at elapsed p header none w).1.store
              ((after_admitted-Moves "" any_log h (λ _ _. record { at = λ _. tt }) config at elapsed
                  p header none).at
                w).store
              a

    abbrev admission : Option String → Exec World (Option String)
    admission header =
        attempt (ensure_runtime_admission h.control config p at (is_truthy header))
          (admission_unavailable h config at elapsed p)

    admission_keeps : (header : Option String) → Evolves (Moves "" same_log) (admission header)
    unfolding admission_unavailable
    admission_keeps header =
        Evolves-attempt (order "" same_log) _ (admission_unavailable h config at elapsed p)
          (ensure-Moves "" same_log h.control config p at (is_truthy header))
          (λ e. Evolves-pure (order "" same_log) _)

    admission-Yields :
        (header : Option String) (w : World)
        → Yields (λ o t. o ≡ none → IsAdmitted p t.store) (admission header w)
    unfolding admission_unavailable pure
    admission-Yields header w =
        Yields-attempt (λ o t. o ≡ none → IsAdmitted p t.store)
          (ensure_runtime_admission h.control config p at (is_truthy header))
          (admission_unavailable h config at elapsed p) w
          (ensure-Yields h.control config p at (is_truthy header) w) (λ e none_. cc)

    handle_prepared-Asks :
        (header : Option String) (w : World)
        → AsksAdmitted w.asked (handle_prepared h config at elapsed p header w).1
    unfolding handle_prepared
    handle_prepared-Asks header w =
        let admit = admission header in
        let same : (admit w).1.asked ≡ w.asked = sym ((admission_keeps header).at w).asked in
        bind-leaves (AsksAdmitted w.asked) admit _ w (λ _ _. inl same)
          (λ failure e.
            elim (after_admitted-Asks header failure (admit w).1
              (Yields-ok _ (admit w) failure (admission-Yields header w) e)) [
                | inl kept ↦ inl (kept ∙ same)
                | inr admitted ↦ inr admitted
              ])

    handle_digest-Asks :
        (header : Option String) (same : Bool) (w : World)
        → ((handle_digest h config at elapsed p header same w).1.asked ≡ w.asked)
          ⊎ ((same ≡ true)
              × IsAdmitted p (handle_digest h config at elapsed p header same w).1.store)
    unfolding handle_digest pure
    handle_digest-Asks header true w = elim (handle_prepared-Asks header w) [
      | inl kept ↦ inl kept
      | inr admitted ↦ inr (refl, admitted)
    ]
    handle_digest-Asks header false w = inl refl

  module _ (q : HttpRequest) (kind : String) where
    -- What is made of a body before the facilitator is asked.
    abbrev BodyCleared : World → Type 0
    BodyCleared t =
        (p : PreparedRetailRequest) × (h.prepare kind q.body ≡ some p)
        × (compare_digest q.request_digest p.request_digest ≡ ok true)
        × IsAdmitted p t.store

    handle_body-Asks :
        (o : Option PreparedRetailRequest) (w : World)
        → h.prepare kind q.body ≡ o
        → ((handle_body h config at elapsed q o w).1.asked ≡ w.asked)
          ⊎ BodyCleared (handle_body h config at elapsed q o w).1
    unfolding handle_body pure
    handle_body-Asks none w prepared = inl refl
    handle_body-Asks (some p) w prepared =
        lift-leaves (λ t. (t.asked ≡ w.asked) ⊎ BodyCleared t)
          (compare_digest q.request_digest p.request_digest) _ w (inl refl)
          (λ same e. elim (handle_digest-Asks p q.payment_header same w) [
            | inl kept ↦ inl kept
            | inr (yes_, admitted) ↦ inr (p, prepared, e ∙ ap ok yes_, admitted)
          ])

    handle_allowed-Asks :
        (allowed : Bool) (w : World)
        → ((handle_allowed h config at elapsed q kind allowed w).1.asked ≡ w.asked)
          ⊎ ((allowed ≡ true) × BodyCleared (handle_allowed h config at elapsed q kind allowed w).1)
    unfolding handle_allowed pure
    handle_allowed-Asks false w = inl refl
    handle_allowed-Asks true w =
        if-leaves (λ t. (t.asked ≡ w.asked) ⊎ ((true ≡ true) × BodyCleared t))
          (eqb q.body_bytes 0 || ltb config.max_request_bytes q.body_bytes) _ _ w (inl refl)
          (elim (handle_body-Asks (h.prepare kind q.body) w refl) [
            | inl kept ↦ inl kept
            | inr cleared ↦ inr (refl, cleared)
          ])

    -- In every run, also one that raises, either the facilitator is not asked at all, or the request
    -- carried the access token, its body was prepared, it named the digest of the prepared request,
    -- and the prepared request is recorded as admitted.
    pub handle-IsCleared :
        (w : World)
        → ((handle_paid_resource h config at elapsed q kind w).1.asked ≡ w.asked)
          ⊎ IsCleared h config q kind (handle_paid_resource h config at elapsed q kind w).1
    unfolding handle_paid_resource
    handle-IsCleared w =
        lift-leaves (λ t. (t.asked ≡ w.asked) ⊎ IsCleared h config q kind t)
          (token_matches config.controlled_proof_access_token q.proof_token) _ w (inl refl)
          (λ allowed e. elim (handle_allowed-Asks allowed w) [
            | inl kept ↦ inl kept
            | inr (yes_, (p, prepared, digest, admitted)) ↦ inr (record {
              token = e ∙ ap ok yes_;
              p = p;
              prepared = prepared;
              digest = digest;
              admitted = admitted;
            })
          ])
