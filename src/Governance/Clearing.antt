-- ===== src/Governance/Clearing.antt =====
-- How a key gets out of every state of the system by `_apply_system_state` (app.py) alone.
use sharpe_nova_os.Prelude.{
  ◌≡◌, refl, ap, ◌∙◌, true, false, ◌&&◌, Option, none, some, List, [], ◌∷◌, ◌++◌, String, ◌==◌,
  arith, Bool-cases, inl, inr, All, put_same,
}
use sharpe_nova_os.Governance.SystemState.{
  SystemState, normal, constrained_operation, pressure_elevated, telemetry_degraded,
  halt_recommended, halt_active, recovery_review_required, StateEntry, Registry, is_severe, is_calm,
  is_review, Candidate, transition, derive_system_state, next_entry, apply_system_state,
}
use sharpe_nova_os.Governance.Recovery.{Application, apply, run}

-- A request that by itself stands for normal or constrained operation.
abbrev pub IsClean : Application → Type 0
IsClean a = is_calm (derive_system_state a.payload).state ≡ true

-- The key stands in the state that a request by itself stands for.
pub record IsCleared (key : String) (a : Application) (registry : Registry) : Type 0 where
  pub entry : StateEntry
  pub stored : registry key ≡ some entry
  pub state : entry.system_state ≡ (derive_system_state a.payload).state
  pub calm : is_calm entry.system_state ≡ true

calm-not_severe : (s : SystemState) → is_calm s ≡ true → is_severe s ≡ false
unfolding is_calm is_severe
calm-not_severe normal e = refl
calm-not_severe constrained_operation e = refl
calm-not_severe pressure_elevated e = cc
calm-not_severe telemetry_degraded e = cc
calm-not_severe halt_recommended e = cc
calm-not_severe halt_active e = cc
calm-not_severe recovery_review_required e = cc

review-not_severe : is_severe recovery_review_required ≡ false
unfolding is_severe
review-not_severe = refl

-- A clean request leaves no severe state.
transition-not_severe :
    (previous : Option StateEntry) (c : Candidate)
    → is_calm c.state ≡ true
    → is_severe (transition previous c).state ≡ false
unfolding transition
transition-not_severe none c calm = calm-not_severe c.state calm
transition-not_severe (some e) c calm = elim (Bool-cases (is_severe e.system_state)) [
  | inl severe ↦ rw (severe, calm) review-not_severe
  | inr mild ↦ elim (Bool-cases (is_review e.system_state)) [
    | inl review ↦ rw (mild, review, calm) (calm-not_severe c.state calm)
    | inr other ↦ rw (mild, other) (calm-not_severe c.state calm)
  ]
]

-- After no severe state a clean request has its own.
transition-clears :
    (e : StateEntry) (c : Candidate)
    → is_severe e.system_state ≡ false
    → (transition (some e) c).state ≡ c.state
unfolding transition
transition-clears e c mild = elim (Bool-cases (is_review e.system_state && is_calm c.state)) [
  | inl cleared ↦ rw (mild, cleared) refl
  | inr other ↦ rw (mild, other) refl
]

run-append :
    (xs ys : List Application) (registry : Registry)
    → run (xs ++ ys) registry ≡ run ys (run xs registry)
unfolding run
run-append [] ys registry = refl
run-append (a ∷ xs) ys registry = run-append xs ys (apply a registry)

-- The requests of other keys leave the key's state.
run-others :
    (key : String) (as_ : List Application) (registry : Registry)
    → All (λ (a : Application). (key == a.api_key) ≡ false) as_
    → run as_ registry key ≡ registry key
unfolding run apply_system_state
run-others key [] registry others = refl
run-others key (a ∷ as_) registry (other, others) =
    run-others key as_ (apply a registry) others ∙ ground (arith, other)

apply-stores :
    (key : String) (a : Application) (registry : Registry)
    → a.api_key ≡ key
    → apply a registry key ≡ some (next_entry a.payload a.now (registry key))
unfolding apply_system_state
apply-stores key a registry same = rw same (put_same key _ registry)

second_step :
    (key : String) (a : Application) (registry : Registry) (e : StateEntry)
    → a.api_key ≡ key
    → IsClean a
    → registry key ≡ some e
    → is_severe e.system_state ≡ false
    → IsCleared key a (apply a registry)
unfolding next_entry
second_step key a registry e same clean at mild =
    let same_state = transition-clears e (derive_system_state a.payload) mild in
    record {
      entry = next_entry a.payload a.now (some e);
      stored = apply-stores key a registry same ∙ ap (λ o. some (next_entry a.payload a.now o)) at;
      state = same_state;
      calm = ap is_calm same_state ∙ clean;
    }

-- From any state of a key, also an active halt, two clean requests of the key bring it to normal or
-- constrained operation, whatever requests of other keys come between.
pub run-IsCleared :
    (key : String) (first second : Application) (between : List Application) (registry : Registry)
    → first.api_key ≡ key
    → second.api_key ≡ key
    → IsClean first
    → IsClean second
    → All (λ (a : Application). (key == a.api_key) ≡ false) between
    → IsCleared key second (run (first ∷ between ++ second ∷ []) registry)
unfolding run
run-IsCleared key first second between registry same same' clean clean' others =
    let middle = run between (apply first registry) in
    let at =
      run-others key between (apply first registry) others ∙ apply-stores key first registry same in
    let mild : is_severe (next_entry first.payload first.now (registry key)).system_state ≡ false =
      unfold next_entry in
      transition-not_severe (registry key) (derive_system_state first.payload) clean in
    rw (run-append between (second ∷ []) (apply first registry)) (
      second_step key second middle (next_entry first.payload first.now (registry key)) same' clean'
        at mild)
