-- ===== src/Store/Requests.antt =====
-- Admitted requests of the control store: `get_runtime_request` and `record_runtime_request` of
-- retail_context/control_store.py.
use sharpe_nova_os.Prelude.{
  Bool, true, false, not, ◌&&◌, ◌||◌, Option, none, some, List, [], ◌∷◌, ◌++◌, String, ◌==◌,
  find_first, exists_in, if◌then◌else◌,
}
use sharpe_nova_os.Exec.{ok, Exec, pure, gets, ◌>>=◌, ◌>>◌}
use sharpe_nova_os.Telemetry.{authority_effect_none}
use sharpe_nova_os.Store.Db.{Db, RuntimeRequest, connection, require_table, is_resource_type}

abbrev pub has_request_id : String → RuntimeRequest → Bool
has_request_id k r = r.request_id == k

-- The keys and checks of `retail_runtime_requests`.
unfoldable pub request_is_refused : RuntimeRequest → List RuntimeRequest → Bool
request_is_refused q qs =
    exists_in (has_request_id q.request_id) qs
    || exists_in (λ r. r.request_digest == q.request_digest) qs
    || exists_in (λ r. r.resource_uri == q.resource_uri) qs
    || not (is_resource_type q.resource_type)
    || not (q.authority_effect == authority_effect_none)

-- All seven columns agree.
unfoldable pub same_request : RuntimeRequest → RuntimeRequest → Bool
same_request r q =
    r.request_id == q.request_id
    && r.request_digest == q.request_digest
    && r.subject_hash == q.subject_hash
    && r.resource_type == q.resource_type
    && r.resource_uri == q.resource_uri
    && r.admitted_at == q.admitted_at
    && r.authority_effect == q.authority_effect

unfoldable pub find_request : String → List RuntimeRequest → Option RuntimeRequest
find_request k qs = find_first (has_request_id k) qs

unfoldable pub is_recorded : RuntimeRequest → Option RuntimeRequest → Bool
is_recorded q none = false
is_recorded q (some r) = same_request r q

unfoldable pub add_request : RuntimeRequest → Exec Db Unit
add_request q db = (ok tt, record db { runtime_requests = db.runtime_requests ++ q ∷ [] })

unfoldable pub admit_request : RuntimeRequest → Bool → Exec Db Bool
admit_request q refused =
    if refused
    then gets (λ db. is_recorded q (find_request q.request_id db.runtime_requests))
    else add_request q >> pure true

unfoldable pub record_runtime_request : RuntimeRequest → Exec Db Bool
record_runtime_request q = connection (do
  require_table "retail_runtime_requests"
  refused ← gets (λ db. request_is_refused q db.runtime_requests)
  admit_request q refused)

unfoldable pub get_runtime_request : String → Exec Db (Option RuntimeRequest)
get_runtime_request k =
    connection
      (require_table "retail_runtime_requests" >> gets (λ db. find_request k db.runtime_requests))
