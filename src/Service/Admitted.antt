-- ===== src/Service/Admitted.antt =====
-- What `_ensure_runtime_admission` of retail_context/service.py has made true when it finds nothing wrong.
use sharpe_nova_os.Prelude.{◌≡◌, refl, Bool, true, Option, none, some, String, ◌==◌, arith, eq_iff}
use sharpe_nova_os.Exec.{
  Error, value_error, runtime_error, sqlite_error, validation_error, type_error, Result, ok, err,
  pure, ◌>>◌,
}
use sharpe_nova_os.Exec.Yields.{
  Yields, Yields-ok, Yields-if, Yields-unless, Yields-attempt, Yields-bind, Yields-lift, Yields-map,
  Yields-with,
}
use sharpe_nova_os.Telemetry.{hash_retail_subject}
use sharpe_nova_os.Store.Db.{Db, RuntimeRequest}
use sharpe_nova_os.Store.Growth.{Grows}
use sharpe_nova_os.Store.Mode.{is_healthy, get_service_mode}
use sharpe_nova_os.Store.Requests.{find_request, get_runtime_request, record_runtime_request}
use sharpe_nova_os.Store.Recorded.{get_request-found, find_request-Grows, record_request-Yields}
use sharpe_nova_os.Controls.Types.{ControlHost}
use sharpe_nova_os.Controls.Admission.{
  evaluate_retail_pre_payment_admission, service_admission_allows_payment_challenge,
}
use sharpe_nova_os.Guard.{initialize_request}
use sharpe_nova_os.Service.World.{World, on_store, on_guard}
use sharpe_nova_os.Service.Request.{
  PreparedRetailRequest, RuntimeConfig, request_id_of, resource_uri_of,
}
use sharpe_nova_os.Service.Admission.{
  guard_attempt, runtime_request, is_same_request, retry_failure, admit_known_in, admit_known_if,
  admit_known, guard_failure, after_recorded, after_admission, admit_new, admit_found,
  ensure_runtime_admission,
}
use sharpe_nova_os.Service.Evolution.{any_log, admit_known-Moves}

-- The request is recorded, with its digest and its resource.
pub record IsAdmitted (p : PreparedRetailRequest) (s : Db) : Type 0 where
  pub request : RuntimeRequest
  pub found : find_request (request_id_of p) s.runtime_requests ≡ some request
  pub digest : request.request_digest ≡ p.request_digest
  pub resource_type : request.resource_type ≡ p.resource_type
  pub resource_uri : request.resource_uri ≡ resource_uri_of p

pub IsAdmitted-Grows :
    (p : PreparedRetailRequest) (s t : Db) → Grows s t → IsAdmitted p s → IsAdmitted p t
IsAdmitted-Grows p s t g a = record {
  request = a.request;
  found = find_request-Grows (request_id_of p) a.request s t g a.found;
  digest = a.digest;
  resource_type = a.resource_type;
  resource_uri = a.resource_uri;
}

module _ (h : ControlHost) (config : RuntimeConfig) (p : PreparedRetailRequest) (at : String)
    (paid : Bool) where
  -- What is asked where nothing is wrong.
  abbrev Clear : (World → Type 0) → Option String → World → Type 0
  Clear P o w = o ≡ none → P w

  wrong :
      (P : World → Type 0) (reason : String) (w : World) → Yields (Clear P) (pure (some reason) w)
  unfolding pure
  wrong P reason w e = cc

  retry_failure-Clear :
      (P : World → Type 0) (e : Error) (w : World)
      → Yields (Clear P) (retry_failure h config p at paid e w)
  unfolding retry_failure
  retry_failure-Clear P (value_error reason) w =
      Yields-if (Clear P) (reason == "source_binding_reconciliation_failed") _ _ w
        (λ _. wrong P _ w) (λ _. wrong P _ w)
  retry_failure-Clear P (runtime_error _) w = wrong P _ w
  retry_failure-Clear P sqlite_error w = wrong P _ w
  retry_failure-Clear P validation_error w = wrong P _ w
  retry_failure-Clear P type_error w = wrong P _ w

  guard_failure-Clear :
      (P : World → Type 0) (e : Error) (w : World)
      → Yields (Clear P) (guard_failure h config p at paid e w)
  unfolding guard_failure
  guard_failure-Clear P (value_error reason) w = wrong P _ w
  guard_failure-Clear P (runtime_error _) w = wrong P _ w
  guard_failure-Clear P sqlite_error w = wrong P _ w
  guard_failure-Clear P validation_error w = wrong P _ w
  guard_failure-Clear P type_error w = wrong P _ w

  -- The recorded request that a repeated one was compared with.
  abbrev Matches : String → RuntimeRequest → World → Type 0
  Matches subject q w =
      (is_same_request h config p at paid subject q ≡ true)
      × ((q.resource_uri == resource_uri_of p) ≡ true)

  constantly : {P : Type 0} (o : Result (Option String) × World) → P → Yields (Clear (λ _. P)) o
  constantly (ok a, w) x = λ _. x
  constantly (err e, w) x = tt

  admit_known_in-Clear :
      (subject : String) (q : RuntimeRequest) (mode : String) (w : World)
      → Yields (Clear (Matches subject q)) (admit_known_in h config p at paid subject q mode w)
  unfolding admit_known_in
  admit_known_in-Clear subject q mode w =
      let Q = Clear (Matches subject q) in
      Yields-unless Q (mode == "controlled_proof") _ _ w (λ _. wrong _ _ w)
        (λ _.
          Yields-unless Q (is_same_request h config p at paid subject q) _ _ w (λ _. wrong _ _ w)
            (λ same.
              Yields-unless Q (q.resource_uri == resource_uri_of p) _ _ w (λ _. wrong _ _ w)
                (λ uri. constantly _ (same, uri))))

  admit_known-Clear :
      (subject : String) (q : RuntimeRequest) (w : World)
      → Yields (Clear (Matches subject q)) (admit_known h config p at paid subject q w)
  unfolding admit_known admit_known_if
  admit_known-Clear subject q w =
      let Q = Clear (Matches subject q) in
      Yields-bind Q (on_store is_healthy) _ w (λ healthy _.
        Yields-unless Q healthy _ _ _ (λ _. wrong _ _ _)
          (λ _.
            Yields-bind Q (on_store get_service_mode) _ _
              (λ mode _. admit_known_in-Clear subject q mode _)))

  admit_known-IsAdmitted :
      (subject : String) (q : RuntimeRequest) (w : World)
      → find_request (request_id_of p) w.store.runtime_requests ≡ some q
      → Yields (Clear (λ t. IsAdmitted p t.store)) (admit_known h config p at paid subject q w)
  unfolding is_same_request
  admit_known-IsAdmitted subject q w found =
      Yields-map
        (λ o t.
          (find_request (request_id_of p) t.store.runtime_requests ≡ some q)
          × Clear (Matches subject q) o t)
        (Clear (λ t. IsAdmitted p t.store)) _
        (λ o t both clear.
          let (same, uri) = both.1 clear in
          record {
            request = q;
            found = both.0;
            digest = ground (arith, eq_iff q.request_digest p.request_digest);
            resource_type = ground (arith, eq_iff q.resource_type p.resource_type);
            resource_uri = ground (arith, eq_iff q.resource_uri (resource_uri_of p));
          })
        (Yields-with (Clear (Matches subject q))
          (λ t. find_request (request_id_of p) t.store.runtime_requests ≡ some q)
          (admit_known h config p at paid subject q w)
          (find_request-Grows (request_id_of p) q w.store _
            ((admit_known-Moves "" any_log h config p at paid subject q).at w).store found)
          (admit_known-Clear subject q w))

  after_recorded-IsAdmitted :
      (b : Bool) (w : World)
      → (b ≡ true → IsAdmitted p w.store)
      → Yields (Clear (λ t. IsAdmitted p t.store)) (after_recorded h config p at paid b w)
  unfolding after_recorded on_guard pure
  after_recorded-IsAdmitted b w admitted =
      let Q = Clear (λ t. IsAdmitted p t.store) in
      let start = on_guard (initialize_request (guard_attempt h config p at paid)) in
      Yields-unless Q b _ _ w (λ _. wrong (λ t. IsAdmitted p t.store) _ w)
        (λ recorded.
          Yields-attempt Q (start >> pure none) _ w
            (Yields-bind Q start _ w (λ _ _ _. admitted recorded))
            (λ e. guard_failure-Clear (λ t. IsAdmitted p t.store) e _))

  admit_new-IsAdmitted :
      (subject : String) (w : World)
      → Yields (Clear (λ t. IsAdmitted p t.store)) (admit_new h config p at paid subject w)
  unfolding admit_new after_admission on_store
  admit_new-IsAdmitted subject w =
      let Q = Clear (λ t. IsAdmitted p t.store) in
      let recording = record_runtime_request (runtime_request h config p at paid subject) in
      Yields-bind Q
        (on_store (
          evaluate_retail_pre_payment_admission h p.subject_key p.resource_type (request_id_of p)
            (some config.production_controls) at))
        _ w
        (λ o _.
          Yields-unless Q (service_admission_allows_payment_challenge h o) _ _ _
            (λ _. wrong (λ t. IsAdmitted p t.store) _ _)
            (λ _. Yields-bind Q (on_store recording) _ _ (λ b e.
              after_recorded-IsAdmitted b _ (λ yes_. record {
                request = runtime_request h config p at paid subject;
                found =
                    Yields-ok _ (recording _) b
                      (record_request-Yields (runtime_request h config p at paid subject) _) e yes_;
                digest = refl;
                resource_type = refl;
                resource_uri = refl;
              }))))

  admit_found-IsAdmitted :
      (subject : String) (o : Option RuntimeRequest) (w : World)
      → find_request (request_id_of p) w.store.runtime_requests ≡ o
      → Yields (Clear (λ t. IsAdmitted p t.store)) (admit_found h config p at paid subject o w)
  unfolding admit_found
  admit_found-IsAdmitted subject none w found = admit_new-IsAdmitted subject w
  admit_found-IsAdmitted subject (some q) w found = admit_known-IsAdmitted subject q w found

  pub ensure-Yields :
      (w : World)
      → Yields
          (λ o t. o ≡ none → IsAdmitted p t.store)
          (ensure_runtime_admission h config p at paid w)
  unfolding ensure_runtime_admission on_store
  ensure-Yields w =
      let Q = Clear (λ t. IsAdmitted p t.store) in
      Yields-lift Q (hash_retail_subject h.sha256 p.subject_key) _ w (λ subject _.
        Yields-bind Q (on_store (get_runtime_request (request_id_of p))) _ w (λ o got.
          admit_found-IsAdmitted subject o _ (get_request-found (request_id_of p) w.store o got)))

  -- Where the admission finds nothing wrong, new or repeated, the request is recorded with its digest,
  -- its resource type and its resource URI.
  pub ensure-IsAdmitted :
      (w : World)
      → (ensure_runtime_admission h config p at paid w).0 ≡ ok none
      → IsAdmitted p (ensure_runtime_admission h config p at paid w).1.store
  ensure-IsAdmitted w e =
      Yields-ok (λ o t. o ≡ none → IsAdmitted p t.store)
        (ensure_runtime_admission h config p at paid w) none (ensure-Yields w) e refl
