-- ===== src/Governance/Windows.antt =====
-- The request rate that `_evaluate_temporal_governance` of app.py admits.
use sharpe_nova_os.Prelude.{
  ℕ, ◌+◌, ◌<◌, ◌≤◌, ◌≡◌, refl, ap, ◌∙◌, ◌⊎◌, inl, inr, Bool, true, false, ◌&&◌, Option, none, some,
  List, [], ◌∷◌, ◌++◌, String, arith, ltb, leb, length, length-append, count_in, if◌then◌else◌, All,
}
use sharpe_nova_os.Governance.Family.{TextHost}
use sharpe_nova_os.Governance.HaltRelease.{microseconds}
use sharpe_nova_os.Governance.Temporal.{
  TemporalConfig, TemporalState, initial_temporal, TemporalResult, is_recent, retained,
  prune_temporal_state, clear_cooldowns, last, threshold_of, family_history, admit_request,
  check_rate, check_spacing_from, check_spacing, check_pressure, check_denial, check_retry,
  check_quarantine, evaluate_family,
}

-- A request of one key: its time and its decision family.
pub record Visit : Type 0 where
  pub now : ℕ
  pub family : String

-- A refused request leaves the counted times as they are, and an admitted one is counted within the
-- limit.
abbrev Counts : TemporalConfig → ℕ → TemporalState → TemporalResult × TemporalState → Type 0
Counts c now s o =
    ((o.0.triggered ≡ true) × (o.1.request_timestamps ≡ s.request_timestamps))
    ⊎ ((o.0.triggered ≡ false)
        × (o.1.request_timestamps ≡ s.request_timestamps ++ now ∷ [])
        × (0 < c.max_requests_per_window
            → length s.request_timestamps + 1 ≤ c.max_requests_per_window))

if-Counts :
    (c : TemporalConfig) (now : ℕ) (s : TemporalState) (b : Bool)
    (o o' : TemporalResult × TemporalState)
    → Counts c now s o
    → (b ≡ false → Counts c now s o')
    → Counts c now s (if b then o else o')
if-Counts c now s true o o' k k' = k
if-Counts c now s false o o' k k' = k' refl

module _ (h : TextHost) (c : TemporalConfig) (now : ℕ) (family : String) where
  check_rate-Counts :
      (retry : Option ℕ) (s : TemporalState) → Counts c now s (check_rate h c now family retry s)
  unfolding check_rate admit_request
  check_rate-Counts retry s =
      if-Counts c now s
        (ltb 0 c.max_requests_per_window
          && ltb c.max_requests_per_window (length s.request_timestamps + 1))
        _ _ (inl (refl, refl)) (λ room. inr (refl, refl, λ limited. ground arith))

  check_spacing_from-Counts :
      (s : TemporalState) (previous : Option ℕ)
      → Counts c now s (check_spacing_from h c now family s previous)
  unfolding check_spacing_from
  check_spacing_from-Counts s none = check_rate-Counts none s
  check_spacing_from-Counts s (some previous) =
      if-Counts c now s (ltb now (previous + microseconds c.retry_spacing_seconds)) _ _
        (inl (refl, refl)) (λ _. check_rate-Counts _ s)

  check_pressure-Counts : (s : TemporalState) → Counts c now s (check_pressure h c now family s)
  unfolding check_pressure check_spacing
  check_pressure-Counts s =
      if-Counts c now s
        (ltb 0 (threshold_of c) && ltb (threshold_of c) (length s.request_timestamps + 1)) _ _
        (inl (refl, refl))
        (λ _.
          if-Counts c now s (ltb 0 c.retry_spacing_seconds) _ _
            (check_spacing_from-Counts s (last (family_history family s)))
            (λ _. check_rate-Counts none s))

  check_denial-Counts :
      (s : TemporalState) (denial : Option ℕ)
      → Counts c now s (check_denial h c now family s denial)
  unfolding check_denial
  check_denial-Counts s none = check_pressure-Counts s
  check_denial-Counts s (some _) = inl (refl, refl)

  check_retry-Counts :
      (s : TemporalState) (retry : Option ℕ) → Counts c now s (check_retry h c now family s retry)
  unfolding check_retry
  check_retry-Counts s none = check_denial-Counts s s.deny_cooldown_expiry
  check_retry-Counts s (some _) = inl (refl, refl)

  check_quarantine-Counts :
      (s : TemporalState) (halt : Option ℕ)
      → Counts c now s (check_quarantine h c now family s halt)
  unfolding check_quarantine
  check_quarantine-Counts s none = check_retry-Counts s (s.retry_cooldown_expiry family)
  check_quarantine-Counts s (some _) = inl (refl, refl)

-- The times that are left after pruning.
abbrev pub pruned : TemporalConfig → ℕ → List ℕ → List ℕ
pruned c now ts =
    if leb c.window_seconds 0 then ts else retained (microseconds c.window_seconds) now ts

pub pruned-state :
    (c : TemporalConfig) (now : ℕ) (family : String) (s : TemporalState)
    → (clear_cooldowns now family (prune_temporal_state now c.window_seconds s)).request_timestamps
      ≡ pruned c now s.request_timestamps
unfolding clear_cooldowns prune_temporal_state
pruned-state c now family s = ground arith

length-retained : (w now : ℕ) (ts : List ℕ) → length (retained w now ts) ≤ length ts
unfolding retained
length-retained w now [] = omega arith
length-retained w now (t ∷ ts) = ground (arith, length-retained w now ts)

pub length-pruned :
    (c : TemporalConfig) (now : ℕ) (ts : List ℕ) → length (pruned c now ts) ≤ length ts
length-pruned c now ts = ground (arith, length-retained (microseconds c.window_seconds) now ts)

-- What a later window counts is not pruned.
count-retained :
    (w now m : ℕ) (ts : List ℕ)
    → now ≤ m
    → count_in (is_recent w m) (retained w now ts) ≡ count_in (is_recent w m) ts
unfolding retained
count-retained w now m [] le = refl
count-retained w now m (t ∷ ts) le = ground (arith, count-retained w now m ts le)

count-pruned :
    (c : TemporalConfig) (now m : ℕ) (ts : List ℕ)
    → now ≤ m
    → count_in (is_recent (microseconds c.window_seconds) m) (pruned c now ts)
      ≡ count_in (is_recent (microseconds c.window_seconds) m) ts
count-pruned c now m ts le =
    ground (arith, count-retained (microseconds c.window_seconds) now m ts le)

count_in-le-length : (p : ℕ → Bool) (ts : List ℕ) → count_in p ts ≤ length ts
count_in-le-length p [] = omega arith
count_in-le-length p (t ∷ ts) = ground (arith, count_in-le-length p ts)

count_in-snoc :
    (p : ℕ → Bool) (ts : List ℕ) (t : ℕ)
    → count_in p (ts ++ t ∷ []) ≡ count_in p ts + count_in p (t ∷ [])
count_in-snoc p [] t = omega arith
count_in-snoc p (u ∷ ts) t = ground (arith, count_in-snoc p ts t)

module _ (h : TextHost) (c : TemporalConfig) where
  -- The times of the requests that are admitted.
  unfoldable pub admitted_times : List Visit → TemporalState → List ℕ
  admitted_times [] s = []
  admitted_times (v ∷ rest) s =
      let (result, later) = evaluate_family h c v.now v.family s in
      let times = admitted_times rest later in if result.triggered then times else v.now ∷ times

  -- How one request counts for a later window of `m`.
  pub record IsCounted (now m : ℕ) (s : TemporalState) (o : TemporalResult × TemporalState)
      : Type 0 where
    pub within : length o.1.request_timestamps ≤ c.max_requests_per_window
    pub counted :
        count_in (is_recent (microseconds c.window_seconds) m) o.1.request_timestamps
        ≡ count_in (is_recent (microseconds c.window_seconds) m) s.request_timestamps
          + (if o.0.triggered
              then 0
              else count_in (is_recent (microseconds c.window_seconds) m) (now ∷ []))

  Counts-IsCounted :
      (now m : ℕ) (s current : TemporalState) (o : TemporalResult × TemporalState)
      → 0 < c.max_requests_per_window
      → now ≤ m
      → length s.request_timestamps ≤ c.max_requests_per_window
      → current.request_timestamps ≡ pruned c now s.request_timestamps
      → Counts c now current o
      → IsCounted now m s o
  Counts-IsCounted now m s current o limited le within same (inl (refused, kept)) = record {
    within = omega (
      arith,
      ap (length {A = ℕ}) (kept ∙ same),
      length-pruned c now s.request_timestamps,
      within,
    );
    counted =
        rw (refused, kept, same) (omega (arith, count-pruned c now m s.request_timestamps le));
  }
  Counts-IsCounted now m s current o limited le within same (inr (admitted, added, room)) = record {
    within = omega (
      arith,
      ap (length {A = ℕ}) added,
      length-append current.request_timestamps (now ∷ []),
      room limited,
    );
    counted =
        rw (admitted, added)
          (rw (count_in-snoc, same) (omega (arith, count-pruned c now m s.request_timestamps le)));
  }

  pub evaluate-IsCounted :
      (v : Visit) (m : ℕ) (s : TemporalState)
      → 0 < c.max_requests_per_window
      → v.now ≤ m
      → length s.request_timestamps ≤ c.max_requests_per_window
      → IsCounted v.now m s (evaluate_family h c v.now v.family s)
  unfolding evaluate_family
  evaluate-IsCounted v m s limited le within =
      let current =
        clear_cooldowns v.now v.family (prune_temporal_state v.now c.window_seconds s) in
      Counts-IsCounted v.now m s current (evaluate_family h c v.now v.family s) limited le within
        (pruned-state c v.now v.family s)
        (check_quarantine-Counts h c v.now v.family current current.post_halt_quarantine_expiry)

  admitted-counted :
      (vs : List Visit) (m : ℕ) (s : TemporalState)
      → 0 < c.max_requests_per_window
      → All (λ (v : Visit). v.now ≤ m) vs
      → length s.request_timestamps ≤ c.max_requests_per_window
      → count_in (is_recent (microseconds c.window_seconds) m) s.request_timestamps
          + count_in (is_recent (microseconds c.window_seconds) m) (admitted_times vs s)
        ≤ c.max_requests_per_window
  unfolding admitted_times
  admitted-counted [] m s limited before within = omega (
    arith,
    count_in-le-length (is_recent (microseconds c.window_seconds) m) s.request_timestamps,
    within,
  )
  admitted-counted (v ∷ rest) m s limited (le, before) within =
      let one = evaluate-IsCounted v m s limited le within in
      let later =
        admitted-counted rest m (evaluate_family h c v.now v.family s).1 limited before
          one.within in
      ground (arith, one.counted, later)

  -- At any time, the requests of a key that were admitted up to then and lie within the window before
  -- it are at most the configured number, where one is configured, over any sequence of requests
  -- under one configuration.
  pub admitted-le-max :
      (vs : List Visit) (m : ℕ)
      → 0 < c.max_requests_per_window
      → All (λ (v : Visit). v.now ≤ m) vs
      → count_in (is_recent (microseconds c.window_seconds) m) (admitted_times vs initial_temporal)
        ≤ c.max_requests_per_window
  admitted-le-max vs m limited before =
      omega (arith, admitted-counted vs m initial_temporal limited before (omega (arith, limited)))
