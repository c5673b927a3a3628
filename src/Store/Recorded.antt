-- ===== src/Store/Recorded.antt =====
-- A request that was recorded is read again: `record_runtime_request` and `get_runtime_request` of
-- retail_context/control_store.py.
use sharpe_nova_os.Prelude.{
  ◌≡◌, refl, ap, ◌∙◌, Bool, true, false, Option, none, some, List, [], ◌∷◌, ◌++◌, String, arith,
  eq_iff, eq_refl, find_first, find_first-append,
}
use sharpe_nova_os.Exec.{ok, gets, ◌>>=◌}
use sharpe_nova_os.Exec.Yields.{Yields, Yields-ok, Yields-if, Yields-bind}
use sharpe_nova_os.Store.Db.{Db, RuntimeRequest, connected, connection, require_table}
use sharpe_nova_os.Store.Db.Yields.{connection-Yields}
use sharpe_nova_os.Store.Growth.{Grows, Grows-Writes}
use sharpe_nova_os.Store.Calls.{Call, history, history-Writes}
use sharpe_nova_os.Store.Requests.{
  has_request_id, request_is_refused, same_request, find_request, is_recorded, add_request,
  admit_request, record_runtime_request, get_runtime_request,
}

-- A record of all seven columns.
same_request→eq : (r q : RuntimeRequest) → same_request r q ≡ true → r ≡ q
unfolding same_request
same_request→eq r q e =
    let id : r.request_id ≡ q.request_id = ground (arith, eq_iff r.request_id q.request_id) in
    let digest : r.request_digest ≡ q.request_digest =
      ground (arith, eq_iff r.request_digest q.request_digest) in
    let subject : r.subject_hash ≡ q.subject_hash =
      ground (arith, eq_iff r.subject_hash q.subject_hash) in
    let kind : r.resource_type ≡ q.resource_type =
      ground (arith, eq_iff r.resource_type q.resource_type) in
    let uri : r.resource_uri ≡ q.resource_uri =
      ground (arith, eq_iff r.resource_uri q.resource_uri) in
    let at : r.admitted_at ≡ q.admitted_at = ground (arith, eq_iff r.admitted_at q.admitted_at) in
    let effect : r.authority_effect ≡ q.authority_effect =
      ground (arith, eq_iff r.authority_effect q.authority_effect) in
    λ i. record {
      request_id = id i;
      request_digest = digest i;
      subject_hash = subject i;
      resource_type = kind i;
      resource_uri = uri i;
      admitted_at = at i;
      authority_effect = effect i;
    }

find_request-added :
    (q : RuntimeRequest) (qs : List RuntimeRequest)
    → request_is_refused q qs ≡ false
    → find_request q.request_id (qs ++ q ∷ []) ≡ some q
unfolding request_is_refused find_request
find_request-added q qs fits =
    find_first-append (has_request_id q.request_id) qs (q ∷ []) (ground arith)
    ∙ ground (arith, eq_refl q.request_id)

find_first-extended {ℓ} :
    {A : Type ℓ} (p : A → Bool) (xs zs : List A) (y : A)
    → find_first p xs ≡ some y
    → find_first p (xs ++ zs) ≡ some y
find_first-extended p [] zs y h = cc
find_first-extended p (x ∷ xs) zs y h = ground (arith, find_first-extended p xs zs y)

-- What was recorded stays on record.
pub find_request-Grows :
    (k : String) (q : RuntimeRequest) (s t : Db)
    → Grows s t
    → find_request k s.runtime_requests ≡ some q
    → find_request k t.runtime_requests ≡ some q
unfolding find_request
find_request-Grows k q s t g h =
    let (zs, same) = g.requests in
    rw (← same) (find_first-extended (has_request_id k) s.runtime_requests zs q h)

admit_request-Yields :
    (q : RuntimeRequest) (s : Db)
    → Yields
        (λ b t. b ≡ true → find_request q.request_id t.runtime_requests ≡ some q)
        (admit_request q (request_is_refused q s.runtime_requests) s)
unfolding admit_request is_recorded gets ◌>>=◌ add_request
admit_request-Yields q s =
    let Q : Bool → Db → Type 0 =
      λ b t. b ≡ true → find_request q.request_id t.runtime_requests ≡ some q in
    Yields-if Q (request_is_refused q s.runtime_requests) _ _ s
      (λ _ recorded. found (find_request q.request_id s.runtime_requests) recorded)
      (λ fits _. find_request-added q s.runtime_requests fits)
  where
    found : (o : Option RuntimeRequest) → is_recorded q o ≡ true → o ≡ some q
    found none e = cc
    found (some r) e = ap some (same_request→eq r q e)

pub record_request-Yields :
    (q : RuntimeRequest) (db : Db)
    → Yields
        (λ b t. b ≡ true → find_request q.request_id t.runtime_requests ≡ some q)
        (record_runtime_request q db)
unfolding record_runtime_request gets admit_request ◌>>=◌
record_request-Yields q db =
    let Q : Bool → Db → Type 0 =
      λ b t. b ≡ true → find_request q.request_id t.runtime_requests ≡ some q in
    connection-Yields Q _ db (
      Yields-bind Q (require_table "retail_runtime_requests") _ (connected db)
        (λ _ _. admit_request-Yields q (require_table "retail_runtime_requests" (connected db)).1))

get_request-Yields :
    (k : String) (db : Db)
    → Yields (λ o t. o ≡ find_request k db.runtime_requests) (get_runtime_request k db)
unfolding get_runtime_request require_table connection ◌>>=◌
get_request-Yields k db = ground arith

-- A request that was recorded is read again with all its columns, after whatever calls of the store
-- followed, unless the reading itself fails.
pub record-get_runtime_request :
    (sha256 : String → String) (q : RuntimeRequest) (db : Db) (cs : List Call)
    (o : Option RuntimeRequest)
    → (record_runtime_request q db).0 ≡ ok true
    → (get_runtime_request q.request_id (history sha256 cs (record_runtime_request q db).1)).0
      ≡ ok o
    → o ≡ some q
record-get_runtime_request sha256 q db cs o e read =
    let first = (record_runtime_request q db).1 in
    let later = history sha256 cs first in
    Yields-ok _ (get_runtime_request q.request_id later) o (get_request-Yields q.request_id later)
      read
    ∙ find_request-Grows q.request_id q first later (history-Writes sha256 Grows-Writes cs first)
        (Yields-ok _ (record_runtime_request q db) true (record_request-Yields q db) e refl)

-- What was read stands in the store afterwards.
pub get_request-found :
    (k : String) (db : Db) (o : Option RuntimeRequest)
    → (get_runtime_request k db).0 ≡ ok o
    → find_request k (get_runtime_request k db).1.runtime_requests ≡ o
unfolding get_runtime_request require_table connection ◌>>=◌
get_request-found k db o e = ground arith
