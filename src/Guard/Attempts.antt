-- ===== src/Guard/Attempts.antt =====
-- What attempts of a request are answered over any history of the runtime guard
-- (retail_context/runtime_guard.py): one source binding, and one exempt payment continuation.
use sharpe_nova_os.Prelude.{
  ◌≡◌, refl, sym, ◌∙◌, ℕ, Bool, true, false, Option, none, some, List, [], ◌∷◌, ◌++◌, String,
  eq_iff, eq_refl, ◌≢◌, arith, ℤ, update_where, is_some, Bool-cases, inl, inr,
}
use sharpe_nova_os.Exec.{returned, Result, ok, err, ◌>>=◌}
use sharpe_nova_os.Controls.Types.{epoch_or_error}
use sharpe_nova_os.Guard.{
  GuardDb, GuardRow, RetryDecision, Attempt, connection, has_request, find_guard, select_guard,
  new_guard, add_guard, continued, use_continuation, is_bound, initialize_found, initialize_request,
  count_retry, consume_bound, consume_found, consume_in_window, consume_existing_attempt,
}
use sharpe_nova_os.Guard.Binding.{GuardCall, history, Kept, history-KeptIn}

-- The decision exempted the payment continuation.
abbrev pub is_exempt : Result RetryDecision → Bool
is_exempt (ok d) = d.continuation_exempt
is_exempt (err _) = false

abbrev pub is_spent : Option GuardRow → Bool
is_spent none = false
is_spent (some r) = r.payment_continuation_used

abbrev pub is_bound_row : String → Option GuardRow → Bool
is_bound_row digest none = false
is_bound_row digest (some r) = is_bound digest r

find_guard-continued :
    (k at : String) (rs : List GuardRow)
    → is_spent (find_guard k (update_where (has_request k) (continued at) rs))
      ≡ is_some (find_guard k rs)
unfolding find_guard
find_guard-continued k at [] = refl
find_guard-continued k at (x ∷ rs) = ground (arith, find_guard-continued k at rs)

module _ (epoch_of : String → Option ℤ) (a : Attempt) (seconds limit : ℕ) where
  -- No decision without a row that has this source binding.
  consume-refuses :
      (db : GuardDb)
      → is_bound_row a.source_binding_digest (find_guard a.request_id db.guards) ≡ false
      → returned (consume_existing_attempt epoch_of a seconds limit db).0 ≡ false
  unfolding consume_existing_attempt consume_in_window connection select_guard consume_found
      consume_bound count_retry epoch_or_error ◌>>=◌
  consume-refuses db h = ground arith

  consume-exempts :
      (db : GuardDb)
      → is_exempt (consume_existing_attempt epoch_of a seconds limit db).0 ≡ true
      → is_spent
          (find_guard a.request_id (consume_existing_attempt epoch_of a seconds limit db).1.guards)
        ≡ true
  unfolding consume_existing_attempt consume_in_window connection select_guard consume_found
      consume_bound count_retry use_continuation epoch_or_error ◌>>=◌
  consume-exempts db h = ground (arith, find_guard-continued a.request_id a.observed_at db.guards)

  consume-no_exemption :
      (db : GuardDb)
      → is_spent (find_guard a.request_id db.guards) ≡ true
      → is_exempt (consume_existing_attempt epoch_of a seconds limit db).0 ≡ false
  unfolding consume_existing_attempt consume_in_window connection select_guard consume_found
      consume_bound count_retry epoch_or_error ◌>>=◌
  consume-no_exemption db h = ground arith

module _ (k digest : String) where
  is_bound-added :
      (rs : List GuardRow) (at : String) (used : Bool)
      → find_guard k rs ≡ none
      → is_bound_row digest (find_guard k (rs ++ new_guard k digest at used ∷ [])) ≡ true
  unfolding find_guard
  is_bound-added [] at used h = ground (arith, eq_refl k, eq_refl digest)
  is_bound-added (x ∷ rs) at used h = ground (arith, is_bound-added rs at used)

  is_bound-continued :
      (id at : String) (rs : List GuardRow)
      → is_bound_row digest (find_guard k (update_where (has_request id) (continued at) rs))
        ≡ is_bound_row digest (find_guard k rs)
  unfolding find_guard
  is_bound-continued id at [] = refl
  is_bound-continued id at (x ∷ rs) = ground (arith, is_bound-continued id at rs)

  is_bound-Kept :
      (o p : Option GuardRow)
      → Kept o p
      → is_bound_row digest o ≡ true
      → is_bound_row digest p ≡ true
  is_bound-Kept none p h e = cc
  is_bound-Kept (some r) none h e = absurd h
  is_bound-Kept (some r) (some t) h e = rw (← h.digest, ← h.authority) e

is_spent-Kept : (o p : Option GuardRow) → Kept o p → is_spent o ≡ true → is_spent p ≡ true
is_spent-Kept none p h e = cc
is_spent-Kept (some r) none h e = absurd h
is_spent-Kept (some r) (some t) h e = h.spent e

is_bound-other :
    (digest other : String) (o : Option GuardRow)
    → is_bound_row digest o ≡ true
    → digest ≢ other
    → is_bound_row other o ≡ false
is_bound-other digest other none h ne = refl
is_bound-other digest other (some r) h ne = elim (Bool-cases (is_bound other r)) [
  | inl both ↦ absurd (ne (sym (column digest h) ∙ column other both))
  | inr differs ↦ differs
]
  where
    column : (d : String) → is_bound d r ≡ true → r.source_binding_digest ≡ d
    column d e = ground (arith, eq_iff r.source_binding_digest d)

initialize_request-binds :
    (a : Attempt) (db : GuardDb)
    → returned (initialize_request a db).0 ≡ true
    → is_bound_row a.source_binding_digest
        (find_guard a.request_id (initialize_request a db).1.guards)
      ≡ true
unfolding initialize_request connection select_guard initialize_found use_continuation add_guard
    ◌>>=◌
initialize_request-binds a db h = ground (
  arith,
  is_bound-added a.request_id a.source_binding_digest db.guards a.observed_at a.payment_present,
  is_bound-continued a.request_id a.source_binding_digest a.request_id a.observed_at db.guards,
)

module _ (epoch_of : String → Option ℤ) where
  -- After a request was initialized with a source binding, and whatever calls followed, faults
  -- included, an attempt of this request with another source binding never gets a decision.
  pub consume-bound_forever :
      (a : Attempt) (db : GuardDb) (cs : List GuardCall) (digest : String) (paid : Bool)
      (at : String) (seconds limit : ℕ)
      → returned (initialize_request a db).0 ≡ true
      → a.source_binding_digest ≢ digest
      → returned
          (consume_existing_attempt epoch_of
            (record {
              request_id = a.request_id;
              source_binding_digest = digest;
              payment_present = paid;
              observed_at = at;
            })
            seconds
            limit
            (history epoch_of cs (initialize_request a db).1)).0
        ≡ false
  consume-bound_forever a db cs digest paid at seconds limit h ne =
      let first = (initialize_request a db).1 in
      let later = history epoch_of cs first in
      consume-refuses epoch_of _ seconds limit later (
        is_bound-other a.source_binding_digest digest (find_guard a.request_id later.guards)
          (is_bound-Kept a.request_id a.source_binding_digest (find_guard a.request_id first.guards)
            (find_guard a.request_id later.guards) (history-KeptIn a.request_id epoch_of cs first)
            (initialize_request-binds a db h))
          ne)

  -- After an attempt was exempted from the retry limit as the payment continuation of its request, and
  -- whatever calls followed, faults included, no attempt of this request is exempted again.
  pub consume-exempt_once :
      (a : Attempt) (seconds limit : ℕ) (db : GuardDb) (cs : List GuardCall) (digest : String)
      (paid : Bool) (at : String) (seconds' limit' : ℕ)
      → is_exempt (consume_existing_attempt epoch_of a seconds limit db).0 ≡ true
      → is_exempt
          (consume_existing_attempt epoch_of
            (record {
              request_id = a.request_id;
              source_binding_digest = digest;
              payment_present = paid;
              observed_at = at;
            })
            seconds'
            limit'
            (history epoch_of cs (consume_existing_attempt epoch_of a seconds limit db).1)).0
        ≡ false
  consume-exempt_once a seconds limit db cs digest paid at seconds' limit' h =
      let first = (consume_existing_attempt epoch_of a seconds limit db).1 in
      let later = history epoch_of cs first in
      consume-no_exemption epoch_of _ seconds' limit' later (
        is_spent-Kept (find_guard a.request_id first.guards) (find_guard a.request_id later.guards)
          (history-KeptIn a.request_id epoch_of cs first)
          (consume-exempts epoch_of a seconds limit db h))
