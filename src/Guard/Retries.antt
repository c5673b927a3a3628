-- ===== src/Guard/Retries.antt =====
-- What each method of the runtime guard (retail_context/runtime_guard.py) does to the retries that a
-- request's row counts in a window.
use sharpe_nova_os.Prelude.{
  ◌≡◌, refl, ℕ, ◌+◌, ◌≤◌, ◌<◌, Bool, true, false, not, ◌&&◌, Option, none, some, List, [], ◌∷◌,
  ◌++◌, String, ◌==◌, eq_iff, arith, if◌then◌else◌, ℤ, pos, negsuc, int_eq, update_where, is_some,
}
use sharpe_nova_os.Exec.{Result, ok, err, ◌>>=◌}
use sharpe_nova_os.Guard.{
  GuardDb, GuardRow, RetryDecision, Attempt, connection, initialize, has_request, find_guard,
  select_guard, new_guard, add_guard, continued, use_continuation, retried, write_retry,
  initialize_found, initialize_request, count_retry, consume_bound, consume_found,
  consume_in_window, current_retries, get_request_guard,
}

-- The retries that a row counts in a window.
abbrev pub retries_of : ℤ → Option GuardRow → ℕ
retries_of epoch none = 0
retries_of epoch (some r) = current_retries epoch r

-- The decision permitted a retry that counts.
abbrev pub is_counted : Result RetryDecision → Bool
is_counted (ok d) = d.permitted && not d.continuation_exempt
is_counted (err _) = false

int_eq_refl : (n : ℤ) → int_eq n n ≡ true
int_eq_refl (pos n) = ground arith
int_eq_refl (negsuc n) = ground arith

module _ (k : String) (epoch : ℤ) where
  abbrev pub retries_in : GuardDb → ℕ
  retries_in db = retries_of epoch (find_guard k db.guards)

  retries-continued :
      (id at : String) (rs : List GuardRow)
      → retries_of epoch (find_guard k (update_where (has_request id) (continued at) rs))
        ≡ retries_of epoch (find_guard k rs)
  unfolding find_guard current_retries
  retries-continued id at [] = refl
  retries-continued id at (x ∷ rs) = ground (arith, retries-continued id at rs)

  retries-retried :
      (n : ℕ) (at : String) (rs : List GuardRow)
      → is_some (find_guard k rs) ≡ true
      → retries_of epoch (find_guard k (update_where (has_request k) (retried epoch n at) rs)) ≡ n
  unfolding find_guard current_retries
  retries-retried n at [] h = cc
  retries-retried n at (x ∷ rs) h = ground (arith, retries-retried n at rs, int_eq_refl epoch)

  retries-elsewhere :
      (w : ℤ) (n : ℕ) (at : String) (rs : List GuardRow)
      → int_eq w epoch ≡ false
      → retries_of epoch (find_guard k (update_where (has_request k) (retried w n at) rs)) ≡ 0
  unfolding find_guard current_retries
  retries-elsewhere w n at [] h = refl
  retries-elsewhere w n at (x ∷ rs) h = ground (arith, retries-elsewhere w n at rs)

  retries-other :
      (id at : String) (w : ℤ) (n : ℕ) (rs : List GuardRow)
      → (id == k) ≡ false
      → retries_of epoch (find_guard k (update_where (has_request id) (retried w n at) rs))
        ≡ retries_of epoch (find_guard k rs)
  unfolding find_guard current_retries
  retries-other id at w n [] h = refl
  retries-other id at w n (x ∷ rs) h = ground (
    arith,
    retries-other id at w n rs,
    eq_iff x.request_id id,
    eq_iff x.request_id k,
    eq_iff id k,
  )

  retries-added :
      (rs : List GuardRow) (id digest at : String) (used : Bool)
      → retries_of epoch (find_guard k (rs ++ new_guard id digest at used ∷ []))
        ≡ retries_of epoch (find_guard k rs)
  unfolding find_guard current_retries
  retries-added [] id digest at used = ground arith
  retries-added (x ∷ rs) id digest at used = ground (arith, retries-added rs id digest at used)

module _ (k : String) (epoch : ℤ) where
  pub initialize_request-retries :
      (a : Attempt) (db : GuardDb)
      → retries_in k epoch (initialize_request a db).1 ≡ retries_in k epoch db
  unfolding initialize_request connection select_guard initialize_found use_continuation add_guard
      ◌>>=◌
  initialize_request-retries a db = ground (
    arith,
    retries-continued k epoch a.request_id a.observed_at db.guards,
    retries-added k epoch db.guards a.request_id a.source_binding_digest a.observed_at
        a.payment_present,
  )

  pub initialize-retries :
      (db : GuardDb) → retries_in k epoch (initialize db).1 ≡ retries_in k epoch db
  unfolding initialize connection
  initialize-retries db = ground arith

  pub get-retries :
      (id : String) (db : GuardDb)
      → retries_in k epoch (get_request_guard id db).1 ≡ retries_in k epoch db
  unfolding get_request_guard connection select_guard ◌>>=◌
  get-retries id db = ground arith

  abbrev current_in : ℤ → String → GuardDb → ℕ
  current_in w id db = retries_of w (find_guard id db.guards)

  -- An attempt of another request.
  pub consume_other-retries :
      (a : Attempt) (w : ℤ) (limit : ℕ) (db : GuardDb)
      → (a.request_id == k) ≡ false
      → retries_in k epoch (consume_in_window a w limit db).1 ≡ retries_in k epoch db
  unfolding consume_in_window connection select_guard consume_found consume_bound count_retry
      use_continuation write_retry ◌>>=◌
  consume_other-retries a w limit db h = ground (
    arith,
    retries-continued k epoch a.request_id a.observed_at db.guards,
    retries-other k epoch a.request_id a.observed_at w (current_in w a.request_id db + 1) db.guards,
  )

  -- An attempt of the request in another window.
  pub consume_elsewhere-retries :
      (a : Attempt) (w : ℤ) (limit : ℕ) (db : GuardDb)
      → (a.request_id == k) ≡ true
      → int_eq w epoch ≡ false
      → retries_in k epoch (consume_in_window a w limit db).1 ≤ retries_in k epoch db
  unfolding consume_in_window connection select_guard consume_found consume_bound count_retry
      use_continuation write_retry ◌>>=◌
  consume_elsewhere-retries a w limit db h other = ground (
    arith,
    eq_iff a.request_id k,
    retries-continued k epoch a.request_id a.observed_at db.guards,
    retries-elsewhere k epoch w (current_in w k db + 1) a.observed_at db.guards other,
  )

  pub consume_in_window-counts :
      (a : Attempt) (limit : ℕ) (db : GuardDb)
      → (a.request_id == k) ≡ true
      → (retries_in k epoch (consume_in_window a epoch limit db).1
          ≡ retries_in k epoch db
            + (if is_counted (consume_in_window a epoch limit db).0 then 1 else 0))
        × (is_counted (consume_in_window a epoch limit db).0 ≡ true → retries_in k epoch db < limit)
  unfolding consume_in_window connection select_guard consume_found consume_bound count_retry
      use_continuation write_retry ◌>>=◌
  consume_in_window-counts a limit db h = ground (
    arith,
    eq_iff a.request_id k,
    retries-continued k epoch a.request_id a.observed_at db.guards,
    retries-retried k epoch (retries_in k epoch db + 1) a.observed_at db.guards,
  )
