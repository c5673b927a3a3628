-- ===== src/Governance/Pressure.antt =====
-- The halt for request pressure of `_evaluate_temporal_governance` of app.py, where the key record
-- names no threshold for it.
use sharpe_nova_os.Prelude.{
  ℕ, ◌+◌, ◌<◌, ◌≤◌, ◌≡◌, refl, ap, Bool, true, false, ◌&&◌, Option, none, some, List, [], ◌∷◌,
  String, arith, ltb, opt_eq, length, if◌then◌else◌,
}
use sharpe_nova_os.Governance.Family.{TextHost}
use sharpe_nova_os.Governance.HaltRelease.{microseconds}
use sharpe_nova_os.Governance.Temporal.{
  TemporalConfig, TemporalState, initial_temporal, TemporalResult, prune_temporal_state,
  clear_cooldowns, last, threshold_of, family_history, admit_request, check_rate,
  check_spacing_from, check_spacing, check_pressure, check_denial, check_retry, check_quarantine,
  evaluate_family,
}
use sharpe_nova_os.Governance.Windows.{Visit, evaluate-IsCounted, pruned-state, length-pruned}

abbrev pub is_pressure_halt : TemporalResult → Bool
is_pressure_halt r = opt_eq r.reason (some "request_pressure_halt")

abbrev Calm : TemporalResult × TemporalState → Type 0
Calm o = is_pressure_halt o.0 ≡ false

if-Calm :
    (b : Bool) (o o' : TemporalResult × TemporalState)
    → Calm o
    → (b ≡ false → Calm o')
    → Calm (if b then o else o')
if-Calm true o o' k k' = k
if-Calm false o o' k k' = k' refl

module _ (h : TextHost) (c : TemporalConfig) where
  module _ (now : ℕ) (family : String) where
    check_rate-Calm :
        (retry : Option ℕ) (s : TemporalState) → Calm (check_rate h c now family retry s)
    unfolding check_rate admit_request
    check_rate-Calm retry s =
        if-Calm
          (ltb 0 c.max_requests_per_window
            && ltb c.max_requests_per_window (length s.request_timestamps + 1))
          _ _ refl (λ _. refl)

    check_spacing_from-Calm :
        (s : TemporalState) (previous : Option ℕ)
        → Calm (check_spacing_from h c now family s previous)
    unfolding check_spacing_from
    check_spacing_from-Calm s none = check_rate-Calm none s
    check_spacing_from-Calm s (some previous) =
        if-Calm (ltb now (previous + microseconds c.retry_spacing_seconds)) _ _ refl
          (λ _. check_rate-Calm _ s)

    module _ (unset : c.halt_threshold ≡ 0) (limited : 0 < c.max_requests_per_window) where
      check_pressure-Calm :
          (s : TemporalState)
          → length s.request_timestamps ≤ c.max_requests_per_window
          → Calm (check_pressure h c now family s)
      unfolding check_pressure check_spacing threshold_of
      check_pressure-Calm s within =
          let no_halt : (ltb 0 (threshold_of c)
                && ltb (threshold_of c) (length s.request_timestamps + 1))
              ≡ false =
            ground (arith, unset, limited, within) in
          rw no_halt (
            if-Calm (ltb 0 c.retry_spacing_seconds) _ _
              (check_spacing_from-Calm s (last (family_history family s)))
              (λ _. check_rate-Calm none s))

      check_denial-Calm :
          (s : TemporalState) (denial : Option ℕ)
          → length s.request_timestamps ≤ c.max_requests_per_window
          → Calm (check_denial h c now family s denial)
      unfolding check_denial
      check_denial-Calm s none within = check_pressure-Calm s within
      check_denial-Calm s (some _) within = refl

      check_retry-Calm :
          (s : TemporalState) (retry : Option ℕ)
          → length s.request_timestamps ≤ c.max_requests_per_window
          → Calm (check_retry h c now family s retry)
      unfolding check_retry
      check_retry-Calm s none within = check_denial-Calm s s.deny_cooldown_expiry within
      check_retry-Calm s (some _) within = refl

      check_quarantine-Calm :
          (s : TemporalState) (halt : Option ℕ)
          → length s.request_timestamps ≤ c.max_requests_per_window
          → Calm (check_quarantine h c now family s halt)
      unfolding check_quarantine
      check_quarantine-Calm s none within =
          check_retry-Calm s (s.retry_cooldown_expiry family) within
      check_quarantine-Calm s (some _) within = refl

      evaluate-Calm :
          (s : TemporalState)
          → length s.request_timestamps ≤ c.max_requests_per_window
          → Calm (evaluate_family h c now family s)
      unfolding evaluate_family
      evaluate-Calm s within =
          let current = clear_cooldowns now family (prune_temporal_state now c.window_seconds s) in
          check_quarantine-Calm current current.post_halt_quarantine_expiry (
            omega (
              arith,
              ap (length {A = ℕ}) (pruned-state c now family s),
              length-pruned c now s.request_timestamps,
              within,
            ))

  -- The state that the requests of a key leave.
  unfoldable pub visit_all : List Visit → TemporalState → TemporalState
  visit_all [] s = s
  visit_all (v ∷ rest) s = visit_all rest (evaluate_family h c v.now v.family s).1

  visit_all-within :
      (vs : List Visit) (s : TemporalState)
      → 0 < c.max_requests_per_window
      → length s.request_timestamps ≤ c.max_requests_per_window
      → length (visit_all vs s).request_timestamps ≤ c.max_requests_per_window
  unfolding visit_all
  visit_all-within [] s limited within = within
  visit_all-within (v ∷ rest) s limited within =
      visit_all-within rest (evaluate_family h c v.now v.family s).1 limited
        (evaluate-IsCounted h c v v.now s limited (omega arith) within).within

  -- With a request limit and no threshold of its own, no request is ever answered by the halt for
  -- request pressure, whatever requests of the key were made under the configuration before.
  pub evaluate-no_pressure_halt :
      (vs : List Visit) (v : Visit)
      → c.halt_threshold ≡ 0
      → 0 < c.max_requests_per_window
      → is_pressure_halt (evaluate_family h c v.now v.family (visit_all vs initial_temporal)).0
        ≡ false
  evaluate-no_pressure_halt vs v unset limited =
      evaluate-Calm v.now v.family unset limited (visit_all vs initial_temporal)
        (visit_all-within vs initial_temporal limited (omega (arith, limited)))
