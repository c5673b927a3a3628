-- ===== src/Guard/Binding.antt =====
-- What the runtime guard (retail_context/runtime_guard.py) keeps of a request over any history of
-- its methods: its source binding, and that its payment continuation is spent.
use sharpe_nova_os.Prelude.{
  ◌≡◌, refl, sym, ◌∙◌, ap, ℕ, Bool, true, false, Option, none, some, List, [], ◌∷◌, ◌++◌, String,
  ◌==◌, if◌then◌else◌, ℤ, find_first, update_where,
}
use sharpe_nova_os.Exec.{Exec, sqlite_error, Result, ok, err}
use sharpe_nova_os.Exec.Evolve.{IsPreorder, Evolves, evolve_rules, Evolves-bind}
use sharpe_nova_os.Store.Db.{next_fault}
use sharpe_nova_os.Guard.{
  GuardDb, GuardRow, Attempt, connected, close, connection, initialize, has_request, find_guard,
  select_guard, add_guard, continued, use_continuation, retried, write_retry, initialize_found,
  initialize_request, count_retry, consume_bound, consume_found, consume_in_window,
  consume_existing_attempt, get_request_guard,
}

-- One constructor for each method of `SQLiteRetailRuntimeGuard`.
pub data GuardCall : Type 0 where
  initialize_call : GuardCall
  initialize_request_call : Attempt → GuardCall
  consume_call : Attempt → ℕ → ℕ → GuardCall
  get_call : String → GuardCall

module _ (epoch_of : String → Option ℤ) where
  -- The state after one call, whether it returned or raised.
  unfoldable pub perform : GuardCall → GuardDb → GuardDb
  perform initialize_call db = (initialize db).1
  perform (initialize_request_call a) db = (initialize_request a db).1
  perform (consume_call a seconds limit) db =
      (consume_existing_attempt epoch_of a seconds limit db).1
  perform (get_call k) db = (get_request_guard k db).1

  unfoldable pub history : List GuardCall → GuardDb → GuardDb
  history [] db = db
  history (c ∷ cs) db = history cs (perform c db)

-- The row of a request: still there, with its source binding, and not given its continuation back.
pub record KeptRow (r t : GuardRow) : Type 0 where
  pub digest : r.source_binding_digest ≡ t.source_binding_digest
  pub authority : r.authority_effect ≡ t.authority_effect
  pub spent : r.payment_continuation_used ≡ true → t.payment_continuation_used ≡ true

abbrev pub Kept : Option GuardRow → Option GuardRow → Type 0
Kept none o = Unit
Kept (some r) none = ⊥
Kept (some r) (some t) = KeptRow r t

KeptRow-refl : (r : GuardRow) → KeptRow r r
KeptRow-refl r = record { digest = refl; authority = refl; spent = λ p. p }

Kept-refl : (o : Option GuardRow) → Kept o o
Kept-refl none = tt
Kept-refl (some r) = KeptRow-refl r

Kept-trans : (o p q : Option GuardRow) → Kept o p → Kept p q → Kept o q
Kept-trans none p q h k = tt
Kept-trans (some r) none q h k = absurd h
Kept-trans (some r) (some t) none h k = absurd k
Kept-trans (some r) (some t) (some u) h k = record {
  digest = h.digest ∙ k.digest;
  authority = h.authority ∙ k.authority;
  spent = λ p. k.spent (h.spent p);
}

module _ (k : String) where
  -- An update that keeps the id and the row, keeps what the search of a request finds.
  find_guard-update :
      (q : GuardRow → Bool) (f : GuardRow → GuardRow) (rs : List GuardRow)
      → ((r : GuardRow) → (f r).request_id ≡ r.request_id)
      → ((r : GuardRow) → KeptRow r (f r))
      → Kept (find_guard k rs) (find_guard k (update_where q f rs))
  unfolding find_guard
  find_guard-update q f [] same keep = tt
  find_guard-update q f (r ∷ rs) same keep =
      step (if q r then f r else r) (has_request k r) (has_request k (if q r then f r else r))
        (kept (q r)) (named (q r)) (find_guard-update q f rs same keep)
    where
      kept : (b : Bool) → KeptRow r (if b then f r else r)
      kept true = keep r
      kept false = KeptRow-refl r

      named : (b : Bool) → has_request k r ≡ has_request k (if b then f r else r)
      named true = ap (λ id. id == k) (sym (same r))
      named false = refl

      step :
          (y : GuardRow) (b c : Bool)
          → KeptRow r y
          → b ≡ c
          → Kept (find_first (has_request k) rs) (find_first (has_request k) (update_where q f rs))
          → Kept
              (if b then some r else find_first (has_request k) rs)
              (if c then some y else find_first (has_request k) (update_where q f rs))
      step y true true h e rest = h
      step y true false h e rest = absurd (cc)
      step y false true h e rest = absurd (cc)
      step y false false h e rest = rest

  find_guard-add :
      (rs : List GuardRow) (r : GuardRow) → Kept (find_guard k rs) (find_guard k (rs ++ r ∷ []))
  unfolding find_guard
  find_guard-add [] r = tt
  find_guard-add (x ∷ rs) r = step (has_request k x) (find_guard-add rs r)
    where
      step :
          (c : Bool)
          → Kept (find_first (has_request k) rs) (find_first (has_request k) (rs ++ r ∷ []))
          → Kept
              (if c then some x else find_first (has_request k) rs)
              (if c then some x else find_first (has_request k) (rs ++ r ∷ []))
      step true rest = KeptRow-refl x
      step false rest = rest

  abbrev pub KeptIn : GuardDb → GuardDb → Type 0
  KeptIn s t = Kept (find_guard k s.guards) (find_guard k t.guards)

  continued-KeptIn : (id at : String) (db : GuardDb) → KeptIn db (use_continuation id at db).1
  unfolding use_continuation
  continued-KeptIn id at db =
      find_guard-update (has_request id) (continued at) db.guards (λ r. refl)
        (λ r. record { digest = refl; authority = refl; spent = λ p. refl })

  retried-KeptIn :
      (id : String) (epoch : ℤ) (n : ℕ) (at : String) (db : GuardDb)
      → KeptIn db (write_retry id epoch n at db).1
  unfolding write_retry
  retried-KeptIn id epoch n at db =
      find_guard-update (has_request id) (retried epoch n at) db.guards (λ r. refl)
        (λ r. record { digest = refl; authority = refl; spent = λ p. p })

  pub KeptIn-order : IsPreorder KeptIn
  KeptIn-order = record {
    reflexive = λ s. Kept-refl (find_guard k s.guards);
    transitive =
        λ s t u. Kept-trans (find_guard k s.guards) (find_guard k t.guards) (find_guard k u.guards);
  }

  closing :
      {A : Type 0} (db : GuardDb) (o : Result A × GuardDb)
      → KeptIn db o.1
      → KeptIn db (close (connected db) o).1
  closing db (ok a, t) h = h
  closing db (err e, t) h = Kept-refl (find_guard k db.guards)

  closed :
      {A : Type 0} (m : Exec GuardDb A) (db : GuardDb) (b : Bool)
      → Evolves KeptIn m
      → KeptIn db
          (if b
            then (err sqlite_error, connected db)
            else close (connected db) (m (connected db))).1
  closed m db true km = Kept-refl (find_guard k db.guards)
  closed m db false km = closing db (m (connected db)) (km.at (connected db))

  pub KeptIn-connection :
      {A : Type 0} (m : Exec GuardDb A) → Evolves KeptIn m → Evolves KeptIn (connection m)
  unfolding connection
  KeptIn-connection m km = record { at = λ db. closed m db (next_fault db.faults) km }

  use_continuation-Evolves : (id at : String) → Evolves KeptIn (use_continuation id at)
  use_continuation-Evolves id at = record { at = continued-KeptIn id at }

  write_retry-Evolves :
      (id : String) (epoch : ℤ) (n : ℕ) (at : String) → Evolves KeptIn (write_retry id epoch n at)
  write_retry-Evolves id epoch n at = record { at = retried-KeptIn id epoch n at }

  add_guard-Evolves : (r : GuardRow) → Evolves KeptIn (add_guard r)
  unfolding add_guard
  add_guard-Evolves r = record { at = λ db. find_guard-add db.guards r }

  pub select_guard-Evolves : (id : String) → Evolves KeptIn (select_guard id)
  unfolding select_guard
  select_guard-Evolves id = search (evolve_rules, KeptIn-order)

  initialize_found-Evolves :
      (a : Attempt) (o : Option GuardRow) → Evolves KeptIn (initialize_found a o)
  unfolding initialize_found
  initialize_found-Evolves a none = add_guard-Evolves _
  initialize_found-Evolves a (some r) =
      search (evolve_rules, KeptIn-order, use_continuation-Evolves)

  pub initialize_request-Evolves : (a : Attempt) → Evolves KeptIn (initialize_request a)
  unfolding initialize_request
  initialize_request-Evolves a =
      KeptIn-connection _
        (Evolves-bind KeptIn-order _ _ (select_guard-Evolves _) (initialize_found-Evolves a))

  consume_found-Evolves :
      (a : Attempt) (epoch : ℤ) (limit : ℕ) (o : Option GuardRow)
      → Evolves KeptIn (consume_found a epoch limit o)
  unfolding consume_found consume_bound count_retry
  consume_found-Evolves a epoch limit none = search (evolve_rules, KeptIn-order)
  consume_found-Evolves a epoch limit (some r) =
      search (evolve_rules, KeptIn-order, use_continuation-Evolves, write_retry-Evolves) depth 9

  consume_in_window-Evolves :
      (a : Attempt) (epoch : ℤ) (limit : ℕ) → Evolves KeptIn (consume_in_window a epoch limit)
  unfolding consume_in_window
  consume_in_window-Evolves a epoch limit =
      KeptIn-connection _ (
        Evolves-bind KeptIn-order _ _ (select_guard-Evolves _)
          (consume_found-Evolves a epoch limit))

  pub consume-Evolves :
      (epoch_of : String → Option ℤ) (a : Attempt) (seconds limit : ℕ)
      → Evolves KeptIn (consume_existing_attempt epoch_of a seconds limit)
  unfolding consume_existing_attempt
  consume-Evolves epoch_of a seconds limit =
      search (evolve_rules, KeptIn-order, consume_in_window-Evolves) depth 9

  perform-KeptIn :
      (epoch_of : String → Option ℤ) (c : GuardCall) (db : GuardDb)
      → KeptIn db (perform epoch_of c db)
  unfolding perform get_request_guard initialize
  perform-KeptIn epoch_of initialize_call db =
      (KeptIn-connection (λ s. (ok tt, record s { initialized = true }))
          (record { at = λ s. Kept-refl (find_guard k s.guards) })).at
        db
  perform-KeptIn epoch_of (initialize_request_call a) db = (initialize_request-Evolves a).at db
  perform-KeptIn epoch_of (consume_call a seconds limit) db =
      (consume-Evolves epoch_of a seconds limit).at db
  perform-KeptIn epoch_of (get_call id) db =
      (KeptIn-connection (select_guard id) (select_guard-Evolves id)).at db

  -- Over any history of calls, faults included, the row of a request stays, keeps its source binding,
  -- and does not get a spent payment continuation back.
  pub history-KeptIn :
      (epoch_of : String → Option ℤ) (cs : List GuardCall) (db : GuardDb)
      → KeptIn db (history epoch_of cs db)
  unfolding history
  history-KeptIn epoch_of [] db = Kept-refl (find_guard k db.guards)
  history-KeptIn epoch_of (c ∷ cs) db =
      KeptIn-order.transitive db (perform epoch_of c db)
        (history epoch_of cs (perform epoch_of c db)) (perform-KeptIn epoch_of c db)
        (history-KeptIn epoch_of cs (perform epoch_of c db))
