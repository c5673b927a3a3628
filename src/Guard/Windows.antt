-- ===== src/Guard/Windows.antt =====
-- The retry limit of the runtime guard (retail_context/runtime_guard.py): in every window a request gets
-- at most its limit of retries that are not exempt, as long as its attempts do not go back to an
-- earlier window.
use sharpe_nova_os.Prelude.{
  ◌≡◌, refl, ◌∙◌, ℕ, ◌+◌, ◌≤◌, ◌<◌, ◌⊎◌, inl, inr, Bool, true, false, ◌&&◌, Option, none, some,
  List, [], ◌∷◌, String, ◌==◌, arith, if◌then◌else◌, Bool-cases, All, ℤ, int_eq, int_leb, is_some,
}
use sharpe_nova_os.Prelude.Integers.{int_leb_passed, int_eq-leb, still_past, int_eq→eq, int_eq_sym}
use sharpe_nova_os.Exec.{◌>>=◌}
use sharpe_nova_os.Controls.Types.{epoch_or_error, window_start}
use sharpe_nova_os.Guard.{
  GuardDb, GuardRow, Attempt, initialize, find_guard, initialize_request, consume_existing_attempt,
  get_request_guard,
}
use sharpe_nova_os.Guard.Binding.{
  GuardCall, initialize_call, initialize_request_call, consume_call, get_call, perform,
}
use sharpe_nova_os.Guard.Retries.{
  is_counted, retries_of, retries_in, initialize-retries, get-retries, initialize_request-retries,
  consume_other-retries, consume_elsewhere-retries, consume_in_window-counts,
}

-- The window of an attempt, if its time can be read.
abbrev pub window_at : ℕ → Option ℤ → Option ℤ
window_at seconds none = none
window_at seconds (some t) = some (window_start t seconds)

abbrev pub is_after : Option ℤ → ℤ → Bool
is_after none w = true
is_after (some last) w = int_leb last w

abbrev pub is_window : ℤ → Option ℤ → Bool
is_window epoch none = false
is_window epoch (some w) = int_eq w epoch

-- The later of the last window and the window of an attempt that comes after it.
abbrev pub next_window : Option ℤ → Option ℤ → Option ℤ
next_window last none = last
next_window last (some w) = some w

-- An attempt comes in the last window or in a later one.
abbrev pub IsLater : Option ℤ → Option ℤ → Type 0
IsLater last none = Unit
IsLater last (some w) = is_after last w ≡ true

module _ (epoch_of : String → Option ℤ) (k : String) where
  -- The windows of the request's attempts never go back, from the last one on; other calls and the
  -- attempts of other requests may come between.
  unfoldable pub AreOrdered : Option ℤ → List GuardCall → Type 0
  AreOrdered last [] = Unit
  AreOrdered last (consume_call a seconds l ∷ cs) =
      let w = window_at seconds (epoch_of a.observed_at) in
      ((a.request_id == k) ≡ true → IsLater last w × AreOrdered (next_window last w) cs)
      × ((a.request_id == k) ≡ false → AreOrdered last cs)
  AreOrdered last (_ ∷ cs) = AreOrdered last cs

  module _ (epoch : ℤ) where
    -- The attempts of the request in the window have at most this limit.
    abbrev pub HasLimit : ℕ → GuardCall → Type 0
    HasLimit limit (consume_call a seconds l) =
        (a.request_id == k) ≡ true
        → is_window epoch (window_at seconds (epoch_of a.observed_at)) ≡ true
        → l ≤ limit
    HasLimit limit _ = Unit

    -- How many retries of the request a call permits and counts in the window.
    pub counted : GuardCall → GuardDb → ℕ
    counted (consume_call a seconds l) db =
        if a.request_id == k
          && is_window epoch (window_at seconds (epoch_of a.observed_at))
          && is_counted (consume_existing_attempt epoch_of a seconds l db).0
        then 1
        else 0
    counted _ db = 0

    pub total_retries : List GuardCall → GuardDb → ℕ
    unfolding counted
    total_retries [] db = 0
    total_retries (c ∷ cs) db = counted c db + total_retries cs (perform epoch_of c db)

    other-retries :
        (a : Attempt) (seconds l : ℕ) (o : Option ℤ) (db : GuardDb)
        → epoch_of a.observed_at ≡ o
        → (a.request_id == k) ≡ false
        → retries_in k epoch (consume_existing_attempt epoch_of a seconds l db).1
          ≡ retries_in k epoch db
    unfolding consume_existing_attempt epoch_or_error ◌>>=◌
    other-retries a seconds l none db e h = ground arith
    other-retries a seconds l (some t) db e h =
        ground (arith, consume_other-retries k epoch a (window_start t seconds) l db)

    -- An attempt of the request in the window.
    own-retries :
        (a : Attempt) (seconds l : ℕ) (t : ℤ) (db : GuardDb)
        → epoch_of a.observed_at ≡ some t
        → (a.request_id == k) ≡ true
        → window_start t seconds ≡ epoch
        → (retries_in k epoch (consume_existing_attempt epoch_of a seconds l db).1
            ≡ retries_in k epoch db
              + (if is_counted (consume_existing_attempt epoch_of a seconds l db).0 then 1 else 0))
          × (is_counted (consume_existing_attempt epoch_of a seconds l db).0 ≡ true
              → retries_in k epoch db < l)
    unfolding consume_existing_attempt epoch_or_error ◌>>=◌
    own-retries a seconds l t db e h w =
        let one = consume_in_window-counts k epoch a l db h in ground (arith, w, e, one.0, one.1)

    -- An attempt of the request whose time cannot be read.
    unread-retries :
        (a : Attempt) (seconds l : ℕ) (db : GuardDb)
        → epoch_of a.observed_at ≡ none
        → retries_in k epoch (consume_existing_attempt epoch_of a seconds l db).1
          ≡ retries_in k epoch db
    unfolding consume_existing_attempt epoch_or_error ◌>>=◌
    unread-retries a seconds l db e = ground arith

    -- An attempt of the request in another window.
    elsewhere-retries :
        (a : Attempt) (seconds l : ℕ) (t : ℤ) (db : GuardDb)
        → epoch_of a.observed_at ≡ some t
        → (a.request_id == k) ≡ true
        → int_eq (window_start t seconds) epoch ≡ false
        → retries_in k epoch (consume_existing_attempt epoch_of a seconds l db).1
          ≤ retries_in k epoch db
    unfolding consume_existing_attempt epoch_or_error ◌>>=◌
    elsewhere-retries a seconds l t db e h w =
        ground (arith, consume_elsewhere-retries k epoch a (window_start t seconds) l db h w)

    -- An attempt of a request that is past the window.
    past_step :
        (last : ℤ) (a : Attempt) (seconds l : ℕ) (cs : List GuardCall) (db : GuardDb) (o : Option ℤ)
        → epoch_of a.observed_at ≡ o
        → (a.request_id == k) ≡ true
        → int_leb last epoch ≡ false
        → IsLater (some last) (window_at seconds o)
          × AreOrdered (next_window (some last) (window_at seconds o)) cs
        → ((later : ℤ)
            → int_leb later epoch ≡ false
            → AreOrdered (some later) cs
            → total_retries cs (perform epoch_of (consume_call a seconds l) db) ≡ 0)
        → counted (consume_call a seconds l) db
            + total_retries cs (perform epoch_of (consume_call a seconds l) db)
          ≡ 0
    unfolding counted
    past_step last a seconds l cs db none e own past (later, rest) none_later =
        rw (own, e) (omega (arith, none_later last past rest))
    past_step last a seconds l cs db (some t) e own past (later, rest) none_later =
        let (ahead, apart) = still_past last (window_start t seconds) epoch later past in
        rw (own, e, apart) (omega (arith, none_later (window_start t seconds) ahead rest))

    -- Once the request is past the window, nothing is counted in it.
    passed-total :
        (last : ℤ) (cs : List GuardCall) (db : GuardDb)
        → int_leb last epoch ≡ false
        → AreOrdered (some last) cs
        → total_retries cs db ≡ 0
    unfolding AreOrdered total_retries counted
    passed-total last [] db past ordered = refl
    passed-total last (initialize_call ∷ cs) db past ordered =
        omega (arith, passed-total last cs (perform epoch_of initialize_call db) past ordered)
    passed-total last (initialize_request_call a ∷ cs) db past ordered =
        omega (
          arith,
          passed-total last cs (perform epoch_of (initialize_request_call a) db) past ordered,
        )
    passed-total last (get_call id ∷ cs) db past ordered =
        omega (arith, passed-total last cs (perform epoch_of (get_call id) db) past ordered)
    passed-total last (consume_call a seconds l ∷ cs) db past ordered =
        let after = perform epoch_of (consume_call a seconds l) db in
        elim (Bool-cases (a.request_id == k)) [
          | inl own ↦
              past_step last a seconds l cs db (epoch_of a.observed_at) refl own past
                (ordered.0 own) (λ later ahead rest. passed-total later cs after ahead rest)
          | inr other ↦ rw other (omega (arith, passed-total last cs after past (ordered.1 other)))
        ]

    abbrev is_reached : Option ℤ → Bool
    is_reached none = false
    is_reached (some last) = int_leb epoch last

    -- The row counts nothing in the window before the request reached it.
    abbrev Fits : Option ℤ → GuardDb → Type 0
    Fits last db = (retries_in k epoch db ≡ 0) ⊎ (is_reached last ≡ true)

    Fits-same :
        (last : Option ℤ) (db db' : GuardDb)
        → retries_in k epoch db' ≡ retries_in k epoch db
        → Fits last db
        → Fits last db'
    Fits-same last db db' same (inl zero) = inl (same ∙ zero)
    Fits-same last db db' same (inr reached) = inr reached

    reached_by :
        (last : Option ℤ) (w : ℤ)
        → is_reached last ≡ true
        → is_after last w ≡ true
        → int_eq w epoch ≡ false
        → int_leb w epoch ≡ false
    reached_by none w reached later other = cc
    reached_by (some v) w reached later other = int_leb_passed epoch v w reached later other

    -- An attempt of the request, with what holds of the later calls.
    own_step :
        (limit : ℕ) (last : Option ℤ) (a : Attempt) (seconds l : ℕ) (cs : List GuardCall)
        (db : GuardDb) (o : Option ℤ)
        → epoch_of a.observed_at ≡ o
        → (a.request_id == k) ≡ true
        → (is_window epoch (window_at seconds (epoch_of a.observed_at)) ≡ true → l ≤ limit)
        → retries_in k epoch db ≤ limit
        → Fits last db
        → IsLater last (window_at seconds o)
          × AreOrdered (next_window last (window_at seconds o)) cs
        → let after = (consume_existing_attempt epoch_of a seconds l db).1 in
          ((later : Option ℤ)
            → AreOrdered later cs
            → retries_in k epoch after ≤ limit
            → Fits later after
            → total_retries cs after + retries_in k epoch after ≤ limit)
          → counted (consume_call a seconds l) db + total_retries cs after + retries_in k epoch db
            ≤ limit
    unfolding counted
    own_step limit last a seconds l cs db none e own cap within fits (later, rest) go_on =
        let same = unread-retries a seconds l db e in
        rw (own, e)
          (omega (
            arith,
            same,
            go_on last rest (omega (arith, same, within)) (Fits-same last db _ same fits),
          ))
    own_step limit last a seconds l cs db (some t) e own cap within fits (later, rest) go_on =
        let w = window_start t seconds in
        let after = (consume_existing_attempt epoch_of a seconds l db).1 in
        elim (Bool-cases (int_eq w epoch)) [
          | inl here ↦
              let (counts, below) = own-retries a seconds l t db e own (int_eq→eq w epoch here) in
              let small : l ≤ limit = cap (rw e here) in
              let bound : retries_in k epoch after ≤ limit =
                ground (arith, counts, below, small, within) in
              let total =
                go_on (some w) rest bound (inr (int_eq-leb epoch w (int_eq_sym w epoch here))) in
              rw (own, e, here) (ground (arith, counts, total))
          | inr elsewhere ↦
              let fewer = elsewhere-retries a seconds l t db e own elsewhere in
              elim fits [
                | inl zero ↦
                    let still : retries_in k epoch after ≡ 0 = omega (arith, fewer, zero) in
                    rw (own, e, elsewhere)
                      (omega (
                        arith,
                        zero,
                        still,
                        go_on (some w) rest (omega (arith, still)) (inl still),
                      ))
                | inr reached ↦
                    let past = reached_by last w reached later elsewhere in
                    rw (own, e, elsewhere)
                      (omega (arith, within, passed-total w cs after past rest))
              ]
        ]

    total-le :
        (limit : ℕ) (last : Option ℤ) (cs : List GuardCall) (db : GuardDb)
        → AreOrdered last cs
        → All (HasLimit limit) cs
        → retries_in k epoch db ≤ limit
        → Fits last db
        → total_retries cs db + retries_in k epoch db ≤ limit
    unfolding AreOrdered total_retries counted perform
    total-le limit last [] db ordered caps within fits = omega (arith, within)
    total-le limit last (initialize_call ∷ cs) db ordered caps within fits =
        let same = initialize-retries k epoch db in
        omega (
          arith,
          same,
          total-le limit last cs (initialize db).1 ordered caps.1 (omega (arith, same, within))
              (Fits-same last db _ same fits),
        )
    total-le limit last (initialize_request_call a ∷ cs) db ordered caps within fits =
        let same = initialize_request-retries k epoch a db in
        omega (
          arith,
          same,
          total-le limit last cs (initialize_request a db).1 ordered caps.1
              (omega (arith, same, within)) (Fits-same last db _ same fits),
        )
    total-le limit last (get_call id ∷ cs) db ordered caps within fits =
        let same = get-retries k epoch id db in
        omega (
          arith,
          same,
          total-le limit last cs (get_request_guard id db).1 ordered caps.1
              (omega (arith, same, within)) (Fits-same last db _ same fits),
        )
    total-le limit last (consume_call a seconds l ∷ cs) db ordered (cap, caps) within fits =
        let after = (consume_existing_attempt epoch_of a seconds l db).1 in
        elim (Bool-cases (a.request_id == k)) [
          | inl own ↦
              own_step limit last a seconds l cs db (epoch_of a.observed_at) refl own (cap own)
                within fits (ordered.0 own)
                (λ later rest below fit. total-le limit later cs after rest caps below fit)
          | inr other ↦
              let same = other-retries a seconds l (epoch_of a.observed_at) db refl other in
              rw other (
                omega (
                  arith,
                  same,
                  total-le limit last cs after (ordered.1 other) caps (omega (arith, same, within))
                      (Fits-same last db after same fits),
                ))
        ]

    -- Over any history of calls, faults included, from a state that has no row of the request, in which
    -- the windows of the request's attempts never go back to an earlier one: for each window, the
    -- retries that were permitted in it and not exempt are at most the limit of the attempts in it.
    pub total_retries-le-limit :
        (limit : ℕ) (cs : List GuardCall) (db : GuardDb)
        → is_some (find_guard k db.guards) ≡ false
        → AreOrdered none cs
        → All (HasLimit limit) cs
        → total_retries cs db ≤ limit
    total_retries-le-limit limit cs db absent ordered caps =
        let zero = no_row (find_guard k db.guards) absent in
        omega (arith, total-le limit none cs db ordered caps (omega (arith, zero)) (inl zero))
      where
        no_row : (o : Option GuardRow) → is_some o ≡ false → retries_of epoch o ≡ 0
        no_row none e = refl
        no_row (some r) e = cc
