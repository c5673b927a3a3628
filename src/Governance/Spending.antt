-- ===== src/Governance/Spending.antt =====
-- What `_evaluate_permission_budget` of app.py lets the requests of a key consume on one day.
use mathlib.Core.Path.{subst}
use sharpe_nova_os.Prelude.{
  ℕ, ◌+◌, ◌*◌, ◌≤◌, ◌<◌, ◌≡◌, refl, ap, ◌∙◌, Bool, true, false, ◌||◌, Option, none, some, List, [],
  ◌∷◌, String, ◌==◌, ltb, eqb, arith, if◌then◌else◌, Bool-cases, inl, inr, empty_dict, put,
  put_same, get_or, ℤ, pos, negsuc, All, eq_iff, eq_refl,
}
use sharpe_nova_os.Governance.Family.{TextHost}
use sharpe_nova_os.Governance.Rounding.{round_to_cents-whole, round_to_cents-room}
use sharpe_nova_os.Governance.Budget.{
  BudgetConfig, permission_budget_config, permission_budget_class, permission_budget_limit,
  BudgetState, fresh_budget, Budgets, on_day, budget_state_of, BudgetResult, remaining_before,
  consume, spend, spend_if, BudgetRequest, evaluate_with, evaluate_permission_budget,
}

-- What a request consumes is in what remained, and is added to what its class consumed.
record Spends (scale : ℕ) (c : BudgetConfig) (k : String) (s : BudgetState)
    (o : BudgetResult × BudgetState) : Type 0 where
  pub added : o.1 ≡ consume scale c k s o.0.budget_consumed_by_request
  pub left : o.0.budget_consumed_by_request ≤ remaining_before scale c k s

if-Spends :
    (scale : ℕ) (c : BudgetConfig) (k : String) (s : BudgetState) (b : Bool)
    (o o' : BudgetResult × BudgetState)
    → (b ≡ true → Spends scale c k s o)
    → (b ≡ false → Spends scale c k s o')
    → Spends scale c k s (if b then o else o')
if-Spends scale c k s true o o' y n = y refl
if-Spends scale c k s false o o' y n = n refl

spend-Spends :
    (scale : ℕ) (c : BudgetConfig) (k : String) (s : BudgetState) (size : ℕ)
    → 0 < scale
    → Spends scale c k s (spend scale c k s size)
unfolding spend
spend-Spends scale c k s size positive =
    if-Spends scale c k s (eqb (remaining_before scale c k s) 0) _ _
      (λ _. record { added = refl; left = omega arith })
      (λ _.
        if-Spends scale c k s (ltb (remaining_before scale c k s * scale) size) _ _
          (λ _. record { added = refl; left = omega arith })
          (λ fits. record {
            added = refl;
            left =
                round_to_cents-whole scale size (remaining_before scale c k s) positive
                  (ground (arith, fits));
          }))

spend_if-Spends :
    (scale : ℕ) (c : BudgetConfig) (k : String) (s : BudgetState) (status : String)
    (size : Option ℤ)
    → 0 < scale
    → Spends scale c k s (spend_if scale c k s status size)
unfolding spend_if
spend_if-Spends scale c k s status none positive = record { added = refl; left = omega arith }
spend_if-Spends scale c k s status (some (negsuc n)) positive = record {
  added = refl;
  left = omega arith;
}
spend_if-Spends scale c k s status (some (pos n)) positive =
    if-Spends scale c k s (status == "VETO" || eqb n 0) _ _
      (λ _. record { added = refl; left = omega arith }) (λ _. spend-Spends scale c k s n positive)

module _ (h : TextHost) (key k : String) where
  -- What one request consumes of the key's class.
  abbrev share : BudgetRequest → BudgetResult → ℕ
  share q result =
      if key == q.api_key
      then if k == permission_budget_class h q.intent then result.budget_consumed_by_request else 0
      else 0

  -- What the requests of the key consume of the class, one after the other, in hundredths.
  unfoldable pub spent : ℕ → List BudgetRequest → Budgets → ℕ
  spent scale [] budgets = 0
  spent scale (q ∷ rest) budgets =
      let (result, later) = evaluate_permission_budget h scale q budgets in
      share q result + spent scale rest later

  -- The requests of the key come on one day, under one configuration.
  abbrev pub IsDay : BudgetConfig → String → BudgetRequest → Type 0
  IsDay c day q =
      (key == q.api_key) ≡ true → (permission_budget_config q.config ≡ some c) × (q.today ≡ day)

  -- What the class consumed of the day.
  abbrev used : String → Budgets → ℕ
  used day budgets = get_or 0 ((budget_state_of key day budgets).consumed k)

budget_state_of-date :
    (key day : String) (budgets : Budgets)
    → ((budget_state_of key day budgets).as_of_date == day) ≡ true
unfolding budget_state_of
budget_state_of-date key day budgets = dated (get_or (fresh_budget day) (budgets key))
  where
    dated : (s : BudgetState) → ((on_day day s).as_of_date == day) ≡ true
    dated s = elim (Bool-cases (s.as_of_date == day)) [
      | inl same ↦ rw same same
      | inr other ↦ rw other (eq_refl day)
    ]

abbrev share_of : Bool → ℕ → ℕ
share_of same amount = if same then amount else 0

on_day-consume :
    (scale : ℕ) (c : BudgetConfig) (day k cls : String) (s : BudgetState) (amount : ℕ)
    → (s.as_of_date == day) ≡ true
    → get_or 0 ((on_day day (consume scale c cls s amount)).consumed k)
      ≡ get_or 0 (s.consumed k) + share_of (k == cls) amount
on_day-consume scale c day k cls s amount dated = elim (Bool-cases (k == cls)) [
  | inl same ↦ let id : k ≡ cls = ground (arith, eq_iff k cls) in rw (dated, same) (rw id refl)
  | inr other ↦ rw (dated, other) (omega arith)
]

-- Half a hundredth over the limit at most.
abbrev Fits : ℕ → BudgetConfig → String → ℕ → Type 0
Fits scale c k n = 2 * (n * scale) ≤ 2 * permission_budget_limit c k + scale

share-Fits :
    (scale : ℕ) (c : BudgetConfig) (k cls : String) (s : BudgetState) (amount : ℕ)
    → amount ≤ remaining_before scale c cls s
    → Fits scale c k (get_or 0 (s.consumed k))
    → Fits scale c k (get_or 0 (s.consumed k) + share_of (k == cls) amount)
share-Fits scale c k cls s amount left within = elim (Bool-cases (k == cls)) [
  | inl same ↦
      let id : cls ≡ k = ground (arith, eq_iff k cls) in
      rw same (
        round_to_cents-room scale (permission_budget_limit c k) (get_or 0 (s.consumed k)) amount
          (subst (λ (x : String). amount ≤ remaining_before scale c x s) id left) within)
  | inr other ↦
      let none_added : get_or 0 (s.consumed k) + 0 ≡ get_or 0 (s.consumed k) = omega arith in
      rw (other, none_added) within
]

module _ (h : TextHost) (scale : ℕ) (positive : 0 < scale) (key k : String) (c : BudgetConfig)
    (day : String) where
  -- One request of any key.
  record IsWithin (q : BudgetRequest) (budgets : Budgets) (o : BudgetResult × Budgets)
      : Type 0 where
    pub counted : used h key k day o.1 ≡ used h key k day budgets + share h key k q o.0
    pub within : Fits scale c k (used h key k day o.1)

  -- A request of another key.
  other-IsWithin :
      (q : BudgetRequest) (budgets : Budgets) (config : Option BudgetConfig)
      → (key == q.api_key) ≡ false
      → Fits scale c k (used h key k day budgets)
      → IsWithin q budgets (evaluate_with h scale q budgets config)
  unfolding budget_state_of
  other-IsWithin q budgets none other within = record {
    counted = rw other (omega arith);
    within = within;
  }
  other-IsWithin q budgets (some d) other within = record {
    counted = rw other (omega arith);
    within = rw other within;
  }

  -- What a request of the key leaves, from what it consumes.
  own_step :
      (cls : String) (budgets : Budgets) (o : BudgetResult × BudgetState)
      → Spends scale c cls (budget_state_of key day budgets) o
      → Fits scale c k (used h key k day budgets)
      → (used h key k day (put key o.1 budgets)
          ≡ used h key k day budgets + share_of (k == cls) o.0.budget_consumed_by_request)
        × Fits scale c k (used h key k day (put key o.1 budgets))
  unfolding budget_state_of
  own_step cls budgets o spends within =
      let s = on_day day (get_or (fresh_budget day) (budgets key)) in
      let amount = o.0.budget_consumed_by_request in
      let counted : used h key k day (put key o.1 budgets)
          ≡ used h key k day budgets + share_of (k == cls) amount =
        ap
          (λ (x : Option BudgetState).
            get_or 0 ((on_day day (get_or (fresh_budget day) x)).consumed k))
          (put_same key o.1 budgets)
        ∙ ap (λ (x : BudgetState). get_or 0 ((on_day day x).consumed k)) spends.added
        ∙ on_day-consume scale c day k cls s amount (budget_state_of-date key day budgets) in
      (counted, rw counted (share-Fits scale c k cls s amount spends.left within))

  -- A request of the key on the day.
  own-IsWithin :
      (q : BudgetRequest) (budgets : Budgets) (config : Option BudgetConfig)
      → (key == q.api_key) ≡ true
      → config ≡ some c
      → q.today ≡ day
      → Fits scale c k (used h key k day budgets)
      → IsWithin q budgets (evaluate_with h scale q budgets config)
  own-IsWithin q budgets none same configured today within = cc
  own-IsWithin q budgets (some d) same configured today within =
      let cls = permission_budget_class h q.intent in
      let id : key ≡ q.api_key = ground (arith, eq_iff key q.api_key) in
      let config : d ≡ c = cc in
      let s = budget_state_of key day budgets in
      let o = spend_if scale c cls s q.decision_status q.admitted_size in
      let (counted, fits) =
        own_step cls budgets o
          (spend_if-Spends scale c cls s q.decision_status q.admitted_size positive) within in
      rw (← id, config, today) (record { counted = rw (eq_refl key) counted; within = fits })

  evaluate-IsWithin :
      (q : BudgetRequest) (budgets : Budgets)
      → IsDay h key k c day q
      → Fits scale c k (used h key k day budgets)
      → IsWithin q budgets (evaluate_permission_budget h scale q budgets)
  unfolding evaluate_permission_budget
  evaluate-IsWithin q budgets on_the_day within = elim (Bool-cases (key == q.api_key)) [
    | inl same ↦
        let (configured, today) = on_the_day same in
        own-IsWithin q budgets (permission_budget_config q.config) same configured today within
    | inr other ↦ other-IsWithin q budgets (permission_budget_config q.config) other within
  ]

  spent-within :
      (qs : List BudgetRequest) (budgets : Budgets)
      → All (IsDay h key k c day) qs
      → Fits scale c k (used h key k day budgets)
      → Fits scale c k (used h key k day budgets + spent h key k scale qs budgets)
  unfolding spent
  spent-within [] budgets all within =
      let same : used h key k day budgets + 0 ≡ used h key k day budgets = omega arith in
      rw same within
  spent-within (q ∷ rest) budgets (one, all) within =
      let step = evaluate-IsWithin q budgets one within in
      let after = (evaluate_permission_budget h scale q budgets).1 in
      let sum : used h key k day after + spent h key k scale rest after
          ≡ used h key k day budgets + spent h key k scale (q ∷ rest) budgets =
        omega (arith, step.counted) in
      subst (Fits scale c k) sum (spent-within rest after all step.within)

  -- What the requests of a key consume of a class on one day, all under one configuration, is at most
  -- the daily budget of this class and half a hundredth, to which the code rounds, whatever requests of
  -- other keys come between. The budgets and sizes are multiples of a unit, of which any number `scale`
  -- makes one hundredth, and what is consumed is counted in hundredths.
  pub spent-le-limit :
      (qs : List BudgetRequest)
      → All (IsDay h key k c day) qs
      → 2 * (spent h key k scale qs empty_dict * scale) ≤ 2 * permission_budget_limit c k + scale
  unfolding budget_state_of
  spent-le-limit qs all =
      let none_used : used h key k day empty_dict ≡ 0 = rw (eq_refl day) refl in
      let start : Fits scale c k (used h key k day empty_dict) = rw none_used (omega arith) in
      let total : 0 + spent h key k scale qs empty_dict ≡ spent h key k scale qs empty_dict =
        omega arith in
      subst (Fits scale c k) (ap (λ n. n + spent h key k scale qs empty_dict) none_used ∙ total)
        (spent-within qs empty_dict all start)
