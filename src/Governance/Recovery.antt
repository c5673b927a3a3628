-- ===== src/Governance/Recovery.antt =====
-- The states that `_apply_system_state` (app.py) lets a key pass through.
use mathlib.Core.Option.{some-injective}
use sharpe_nova_os.Prelude.{
  ◌≡◌, refl, sym, ap, ◌∙◌, ◌⊎◌, inl, inr, true, false, ◌&&◌, some, List, [], ◌∷◌, ◌++◌, String,
  ◌==◌, arith, Bool-cases, eq_iff,
}
use sharpe_nova_os.Governance.SystemState.{
  SystemState, normal, constrained_operation, pressure_elevated, telemetry_degraded,
  halt_recommended, halt_active, recovery_review_required, StateEntry, Payload, Registry, is_severe,
  is_calm, is_review, transition, derive_system_state, next_entry, apply_system_state,
}

-- One request's application of the system state.
pub record Application : Type 0 where
  pub payload : Payload
  pub api_key : String
  pub now : String

abbrev pub apply : Application → Registry → Registry
apply a registry = (apply_system_state a.payload a.api_key a.now registry).1

-- The requests of all keys, one after the other.
unfoldable pub run : List Application → Registry → Registry
run [] registry = registry
run (a ∷ rest) registry = run rest (apply a registry)

severe-not_calm : (s : SystemState) → is_severe s ≡ true → is_calm s ≡ false
unfolding is_severe is_calm
severe-not_calm normal e = cc
severe-not_calm constrained_operation e = cc
severe-not_calm pressure_elevated e = refl
severe-not_calm telemetry_degraded e = refl
severe-not_calm halt_recommended e = refl
severe-not_calm halt_active e = refl
severe-not_calm recovery_review_required e = cc

next-not_calm :
    (p : Payload) (now : String) (e : StateEntry)
    → is_severe e.system_state ≡ true
    → is_calm (next_entry p now (some e)).system_state ≡ false
unfolding next_entry transition is_calm
next-not_calm p now e severe = elim (Bool-cases (is_calm (derive_system_state p).state)) [
  | inl calm ↦ rw (severe, calm) refl
  | inr other ↦ rw (severe, other) (rw (mild_test e.system_state) other)
]
  where
    mild_test : (s : SystemState) → (is_review s && false) ≡ false
    mild_test s = ground arith

rest_of_states : (s : SystemState) → is_calm s ≡ false → is_review s ≡ false → is_severe s ≡ true
unfolding is_severe is_calm is_review
rest_of_states normal c r = cc
rest_of_states constrained_operation c r = cc
rest_of_states pressure_elevated c r = refl
rest_of_states telemetry_degraded c r = refl
rest_of_states halt_recommended c r = refl
rest_of_states halt_active c r = refl
rest_of_states recovery_review_required c r = cc

-- A review of the key on the way of a history.
pub record IsReviewed (key : String) (as_ : List Application) (registry : Registry) : Type 0 where
  pub done : List Application
  pub rest : List Application
  pub parts : as_ ≡ done ++ rest
  pub entry : StateEntry
  pub reached : run done registry key ≡ some entry
  pub review : is_review entry.system_state ≡ true

-- Before the step of one request, and after it.
one_step :
    (key : String) (a : Application) (registry : Registry) (before : StateEntry)
    → registry key ≡ some before
    → is_severe before.system_state ≡ true
    → (apply a registry key ≡ some before)
      ⊎ ((entry : StateEntry) × (apply a registry key ≡ some entry)
          × (is_calm entry.system_state ≡ false))
unfolding apply_system_state
one_step key a registry before at severe = elim (Bool-cases (key == a.api_key)) [
  | inl same ↦
      let previous : registry a.api_key ≡ some before =
        ap registry (sym (eq_of key a.api_key same)) ∙ at in
      inr (
        next_entry a.payload a.now (some before),
        ground (arith, same, previous),
        next-not_calm a.payload a.now before severe,
      )
  | inr other ↦ inl (ground (arith, other, at))
]
  where
    eq_of : (k l : String) → (k == l) ≡ true → k ≡ l
    eq_of k l e = ground (arith, eq_iff k l)

-- A key that is in a severe state, and later in normal or constrained operation, was in a recovery
-- review in between, whatever requests of this and other keys were made.
pub run-IsReviewed :
    (key : String) (as_ : List Application) (registry : Registry) (before after : StateEntry)
    → registry key ≡ some before
    → is_severe before.system_state ≡ true
    → run as_ registry key ≡ some after
    → is_calm after.system_state ≡ true
    → IsReviewed key as_ registry
unfolding run
run-IsReviewed key [] registry before after at severe reached calm =
    let same : before ≡ after = some-injective before after (sym at ∙ reached) in
    let no : is_calm after.system_state ≡ false =
      ap (λ (e : StateEntry). is_calm e.system_state) (sym same)
      ∙ severe-not_calm before.system_state severe in
    absurd (cc)
run-IsReviewed key (a ∷ rest) registry before after at severe reached calm =
    elim (one_step key a registry before at severe) [
      | inl stays ↦
          longer a
            (run-IsReviewed key rest (apply a registry) before after stays severe reached calm)
      | inr (entry, moved, not_calm) ↦ elim (Bool-cases (is_review entry.system_state)) [
        | inl review ↦ record {
          done = a ∷ [];
          rest = rest;
          parts = refl;
          entry = entry;
          reached = moved;
          review = review;
        }
        | inr other ↦ longer a (
            run-IsReviewed key rest (apply a registry) entry after moved
              (rest_of_states entry.system_state not_calm other) reached calm)
      ]
    ]
  where
    longer :
        (a : Application)
        → IsReviewed key rest (apply a registry)
        → IsReviewed key (a ∷ rest) registry
    longer a r = record {
      done = a ∷ r.done;
      rest = r.rest;
      parts = ap (λ l. a ∷ l) r.parts;
      entry = r.entry;
      reached = r.reached;
      review = r.review;
    }
