-- ===== src/Governance/Release.antt =====
-- An accepted release of a halt is followed by its cooldown (`_evaluate_halt_release_governance` of
-- app.py).
use mathlib.Core.Path.{subst}
use mathlib.Core.Option.{some-injective}
use sharpe_nova_os.Prelude.{
  ℕ, ◌+◌, ◌<◌, ◌≡◌, refl, sym, ap, ◌∙◌, inl, inr, Bool, true, false, ◌&&◌, Option, none, some, List,
  [], ◌∷◌, String, ◌==◌, arith, leb, opt_eq, opt_eq→eq, if◌then◌else◌, Bool-cases, put, All,
  put_same, put_other, eq_iff, eq_refl,
}
use sharpe_nova_os.Governance.SystemState.{Registry}
use sharpe_nova_os.Governance.HaltRelease.{
  ReleaseConfig, halt_release_config, ReleaseState, Releases, release_state_of,
  parse_release_evidence, provided_authority, ReleaseResult, clear_expired, is_halted, all_in,
  microseconds, cooling, release, refuse_release, not_halted, decide_release, evaluate_configured,
  ReleaseRequest, evaluate_with, evaluate_halt_release_governance, finish_re_evaluation,
}

abbrev pub is_accepted : ReleaseResult → Bool
is_accepted r = opt_eq r.reason (some "halt_release_accepted")

-- The answer of a running cooldown.
abbrev pub IsDelayed : ReleaseResult → Type 0
IsDelayed r =
    (r.action ≡ some "DELAY")
    × (r.status_code ≡ 429)
    × (r.reason ≡ some "post_release_cooldown_active")

-- The cooldown of a key runs until `expiry`.
pub record IsCooling (key : String) (expiry : ℕ) (releases : Releases) : Type 0 where
  pub state : ReleaseState
  pub stored : releases key ≡ some state
  pub runs : state.cooldown_expiry ≡ some expiry

-- What an accepted release rests on, and what it leaves.
record IsReleased (q : ReleaseRequest) (registry : Registry) (after : Releases) : Type 0 where
  pub config : ReleaseConfig
  pub configured : halt_release_config q.config ≡ some config
  pub halted : is_halted (registry q.api_key) ≡ true
  pub authority : provided_authority q.authority ≡ some config.release_authority
  pub evidence : all_in config.required_evidence (parse_release_evidence q.evidence) ≡ true
  pub cools : IsCooling q.api_key (q.now + microseconds config.post_release_cooldown_seconds) after

module _ (isoformat : ℕ → String) where
  decide_release-accepts :
      (c : ReleaseConfig) (now : ℕ) (halted : Bool) (authority : Option String)
      (evidence : List String) (s : ReleaseState) (expiry : Option ℕ)
      → is_accepted (decide_release isoformat c now halted authority evidence s expiry).0 ≡ true
      → (halted ≡ true)
        × (opt_eq authority (some c.release_authority) ≡ true)
        × (all_in c.required_evidence evidence ≡ true)
        × ((decide_release isoformat c now halted authority evidence s expiry).1.cooldown_expiry
            ≡ some (now + microseconds c.post_release_cooldown_seconds))
  unfolding decide_release cooling release refuse_release not_halted
  decide_release-accepts c now halted authority evidence s (some expiry) e = cc
  decide_release-accepts c now false authority evidence s none e = absurd (ground arith)
  decide_release-accepts c now true authority evidence s none e =
      accepted (opt_eq authority (some c.release_authority)) (all_in c.required_evidence evidence) e
    where
      accepted :
          (a b : Bool)
          → is_accepted
              (if a && b
                then release isoformat c now true authority evidence s
                else (refuse_release isoformat c now true s, s)).0
            ≡ true
          → (true ≡ true)
            × (a ≡ true)
            × (b ≡ true)
            × ((if a && b
                  then release isoformat c now true authority evidence s
                  else (refuse_release isoformat c now true s, s)).1.cooldown_expiry
                ≡ some (now + microseconds c.post_release_cooldown_seconds))
      accepted true true e = (refl, refl, refl, refl)
      accepted true false e = cc
      accepted false b e = cc

  evaluate_with-IsReleased :
      (q : ReleaseRequest) (registry : Registry) (releases : Releases) (o : Option ReleaseConfig)
      → halt_release_config q.config ≡ o
      → is_accepted (evaluate_with isoformat q registry releases o).0 ≡ true
      → IsReleased q registry (evaluate_with isoformat q registry releases o).1
  unfolding evaluate_configured
  evaluate_with-IsReleased q registry releases none configured e = cc
  evaluate_with-IsReleased q registry releases (some c) configured e =
      let current = clear_expired q.now (release_state_of q.api_key releases) in
      let (halted, authority, evidence, cools) =
        decide_release-accepts c q.now (is_halted (registry q.api_key))
          (provided_authority q.authority) (parse_release_evidence q.evidence) current
          current.cooldown_expiry e in
      record {
        config = c;
        configured = configured;
        halted = halted;
        authority = opt_eq→eq (provided_authority q.authority) (some c.release_authority) authority;
        evidence = evidence;
        cools = record { state = _; stored = put_same q.api_key _ releases; runs = cools };
      }

  -- A release that is accepted is of a configured key that stands in a halt, by the configured
  -- authority with every required item of evidence, and starts the cooldown.
  evaluate-IsReleased :
      (q : ReleaseRequest) (registry : Registry) (releases : Releases)
      → is_accepted (evaluate_halt_release_governance isoformat q registry releases).0 ≡ true
      → IsReleased q registry (evaluate_halt_release_governance isoformat q registry releases).1
  unfolding evaluate_halt_release_governance
  evaluate-IsReleased q registry releases e =
      evaluate_with-IsReleased q registry releases (halt_release_config q.config) refl e

  -- Before its expiry a cooldown is neither cleared nor passed.
  configured-cools :
      (c : ReleaseConfig) (now : ℕ) (halted : Bool) (authority : Option String)
      (evidence : List String) (s : ReleaseState) (expiry : ℕ)
      → s.cooldown_expiry ≡ some expiry
      → now < expiry
      → evaluate_configured isoformat c now halted authority evidence s
        ≡ (cooling isoformat c now halted s expiry, s)
  unfolding evaluate_configured clear_expired decide_release
  configured-cools c now halted authority evidence s expiry runs before =
      let early : leb expiry now ≡ false = ground arith in rw (runs, early) refl

-- What happens to the releases: a request's evaluation, or the end of a re-evaluation.
pub data Event : Type 0 where
  evaluation : ReleaseRequest → Registry → Event
  re_evaluated : String → ReleaseResult → Event

-- The event is before a time.
abbrev pub IsBefore : ℕ → Event → Type 0
IsBefore expiry (evaluation q registry) = q.now < expiry
IsBefore expiry (re_evaluated key result) = Unit

module _ (isoformat : ℕ → String) where
  abbrev pub happen : Event → Releases → Releases
  happen (evaluation q registry) releases =
      (evaluate_halt_release_governance isoformat q registry releases).1
  happen (re_evaluated key result) releases = finish_re_evaluation key result releases

  unfoldable pub happen_all : List Event → Releases → Releases
  happen_all [] releases = releases
  happen_all (e ∷ rest) releases = happen_all rest (happen e releases)

  IsCooling-put :
      (key other : String) (expiry : ℕ) (s : ReleaseState) (releases : Releases)
      → IsCooling key expiry releases
      → ((key == other) ≡ true → s.cooldown_expiry ≡ some expiry)
      → IsCooling key expiry (put other s releases)
  IsCooling-put key other expiry s releases c own = elim (Bool-cases (key == other)) [
    | inl same ↦ record { state = s; stored = ground (arith, same); runs = own same }
    | inr differs ↦ record {
      state = c.state;
      stored = put_other other key s releases differs ∙ c.stored;
      runs = c.runs;
    }
  ]

  stored_state :
      (key other : String) (expiry : ℕ) (releases : Releases)
      → IsCooling key expiry releases
      → (key == other) ≡ true
      → (release_state_of other releases).cooldown_expiry ≡ some expiry
  unfolding release_state_of
  stored_state key other expiry releases c same =
      let id : key ≡ other = ground (arith, eq_iff key other) in rw (← id, c.stored) c.runs

  evaluate_with-IsCooling :
      (key : String) (expiry : ℕ) (q : ReleaseRequest) (registry : Registry) (releases : Releases)
      (o : Option ReleaseConfig)
      → q.now < expiry
      → IsCooling key expiry releases
      → IsCooling key expiry (evaluate_with isoformat q registry releases o).1
  evaluate_with-IsCooling key expiry q registry releases none before c = c
  evaluate_with-IsCooling key expiry q registry releases (some config) before c =
      IsCooling-put key q.api_key expiry _ releases c (λ same.
        let runs = stored_state key q.api_key expiry releases c same in
        ap (λ (o : ReleaseResult × ReleaseState). o.1.cooldown_expiry)
          (configured-cools isoformat config q.now (is_halted (registry q.api_key))
            (provided_authority q.authority) (parse_release_evidence q.evidence)
            (release_state_of q.api_key releases) expiry runs before)
        ∙ runs)

  happen-IsCooling :
      (key : String) (expiry : ℕ) (e : Event) (releases : Releases)
      → IsBefore expiry e
      → IsCooling key expiry releases
      → IsCooling key expiry (happen e releases)
  unfolding evaluate_halt_release_governance finish_re_evaluation
  happen-IsCooling key expiry (evaluation q registry) releases before c =
      evaluate_with-IsCooling key expiry q registry releases (halt_release_config q.config) before c
  happen-IsCooling key expiry (re_evaluated other result) releases before c =
      if_cools result.re_evaluation_required
        (IsCooling-put key other expiry _ releases c (stored_state key other expiry releases c))
    where
      if_cools :
          (b : Bool) {x : Releases}
          → IsCooling key expiry x
          → IsCooling key expiry (if b then x else releases)
      if_cools true k = k
      if_cools false k = c

  happen_all-IsCooling :
      (key : String) (expiry : ℕ) (es : List Event) (releases : Releases)
      → All (IsBefore expiry) es
      → IsCooling key expiry releases
      → IsCooling key expiry (happen_all es releases)
  unfolding happen_all
  happen_all-IsCooling key expiry [] releases before c = c
  happen_all-IsCooling key expiry (e ∷ rest) releases (now, later) c =
      happen_all-IsCooling key expiry rest (happen e releases) later
        (happen-IsCooling key expiry e releases now c)

  evaluate_with-delays :
      (q : ReleaseRequest) (expiry : ℕ) (registry : Registry) (releases : Releases)
      (o : Option ReleaseConfig) (c : ReleaseConfig)
      → o ≡ some c
      → q.now < expiry
      → IsCooling q.api_key expiry releases
      → (evaluate_with isoformat q registry releases o).0
        ≡ cooling isoformat c q.now
            (is_halted (registry q.api_key))
            (release_state_of q.api_key releases)
            expiry
  evaluate_with-delays q expiry registry releases none c e before cools = cc
  evaluate_with-delays q expiry registry releases (some d) c e before cools =
      let same : d ≡ c = cc in
      rw same (
        ap (λ (o : ReleaseResult × ReleaseState). o.0)
          (configured-cools isoformat c q.now (is_halted (registry q.api_key))
            (provided_authority q.authority) (parse_release_evidence q.evidence)
            (release_state_of q.api_key releases) expiry
            (stored_state q.api_key q.api_key expiry releases cools (eq_refl q.api_key)) before))

  -- After the release of a halt was accepted, and whatever evaluations and re-evaluations of any key
  -- followed before the cooldown's expiry, every configured evaluation of the key before the expiry
  -- is answered by a delay, with status 429, however the system's state is.
  pub release-delays :
      (q : ReleaseRequest) (registry : Registry) (releases : Releases) (c : ReleaseConfig)
      (es : List Event) (q' : ReleaseRequest) (registry' : Registry) (c' : ReleaseConfig)
      → is_accepted (evaluate_halt_release_governance isoformat q registry releases).0 ≡ true
      → halt_release_config q.config ≡ some c
      → All (IsBefore (q.now + microseconds c.post_release_cooldown_seconds)) es
      → q'.api_key ≡ q.api_key
      → halt_release_config q'.config ≡ some c'
      → q'.now < q.now + microseconds c.post_release_cooldown_seconds
      → IsDelayed
          (evaluate_halt_release_governance isoformat q' registry'
            (happen_all es (evaluate_halt_release_governance isoformat q registry releases).1)).0
  unfolding evaluate_halt_release_governance cooling
  release-delays q registry releases c es q' registry' c' accepted configured before same
        configured' early =
      let first = (evaluate_halt_release_governance isoformat q registry releases).1 in
      let released = evaluate-IsReleased isoformat q registry releases accepted in
      let config : released.config ≡ c =
        some-injective released.config c (sym released.configured ∙ configured) in
      let expiry = q.now + microseconds c.post_release_cooldown_seconds in
      let cools : IsCooling q.api_key expiry first =
        subst
          (λ (k : ReleaseConfig).
            IsCooling q.api_key (q.now + microseconds k.post_release_cooldown_seconds) first)
          config released.cools in
      let later : IsCooling q'.api_key expiry (happen_all es first) =
        subst (λ (k : String). IsCooling k expiry (happen_all es first)) (sym same)
          (happen_all-IsCooling q.api_key expiry es first before cools) in
      let result =
        evaluate_with-delays q' expiry registry' (happen_all es first)
          (halt_release_config q'.config) c' configured' early later in
      (
        ap (λ (r : ReleaseResult). r.action) result,
        ap (λ (r : ReleaseResult). r.status_code) result,
        ap (λ (r : ReleaseResult). r.reason) result,
      )
