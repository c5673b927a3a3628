-- ===== src/Governance/Budget.antt =====
-- `_permission_budget_config`, `_permission_budget_class`, `_permission_budget_limit`,
-- `_permission_budget_state_for_api_key` and `_evaluate_permission_budget` of app.py. Budgets and sizes
-- are multiples of a unit of which `scale` make one hundredth; what the code rounds to two places is
-- counted in hundredths. A configuration has the entries that the evaluation reads.
use sharpe_nova_os.Prelude.{
  ℕ, ◌+◌, ◌-◌, ◌*◌, Bool, true, false, ◌||◌, Option, none, some, List, [], ◌∷◌, String, ◌==◌, ltb,
  eqb, one_of, if◌then◌else◌, Dict, empty_dict, put, get_or, ℤ, pos, negsuc,
}
use sharpe_nova_os.Governance.Family.{TextHost, normalize_text}
use sharpe_nova_os.Governance.Temporal.{at_least_zero}
use sharpe_nova_os.Governance.Rounding.{round_to_cents}

-- The entry `permission_budgeting` of a key record, its amounts in units; one that is null counts as 0.
pub record RawBudget : Type 0 where
  pub daily_budget : Option ℤ
  pub default_daily_budget : Option ℤ
  pub risk_increasing_daily_budget : Option ℤ
  pub risk_reducing_daily_budget : Option ℤ
  pub exception_budget : Option ℤ
  pub delay_on_exhaustion : Bool

-- The amounts are in units; a budget below zero leaves as much as one of zero.
pub record BudgetConfig : Type 0 where
  pub default_daily_budget : ℕ
  pub risk_increasing_daily_budget : ℕ
  pub risk_reducing_daily_budget : ℕ
  pub exception_budget : ℕ
  pub delay_on_exhaustion : Bool

-- `config.get(a, config.get(b, …))`
abbrev or_entry : Option ℤ → Option ℤ → Option ℤ
or_entry none b = b
or_entry (some a) b = some a

unfoldable pub permission_budget_config : Option RawBudget → Option BudgetConfig
permission_budget_config none = none
permission_budget_config (some c) =
    let default = or_entry c.default_daily_budget c.daily_budget in
    some (record {
      default_daily_budget = at_least_zero default;
      risk_increasing_daily_budget =
          at_least_zero (or_entry c.risk_increasing_daily_budget default);
      risk_reducing_daily_budget = at_least_zero (or_entry c.risk_reducing_daily_budget default);
      exception_budget = at_least_zero c.exception_budget;
      delay_on_exhaustion = c.delay_on_exhaustion;
    })

-- `RISK_INCREASING_INTENTS`
abbrev pub risk_increasing_intents : List String
risk_increasing_intents = "trade" ∷ "deploy_liquidity" ∷ "open_position" ∷ "increase_position" ∷ []

unfoldable pub permission_budget_class : TextHost → Option String → String
permission_budget_class h intent =
    if one_of (normalize_text h intent) risk_increasing_intents
    then "risk_increasing"
    else if one_of (normalize_text h intent)
        ("reduce_position" ∷ "exit_position" ∷ "decrease_position" ∷ [])
    then "risk_reducing"
    else "general"

unfoldable pub permission_budget_limit : BudgetConfig → String → ℕ
permission_budget_limit c budget_class =
    if budget_class == "risk_increasing"
    then c.risk_increasing_daily_budget
    else if budget_class == "risk_reducing"
    then c.risk_reducing_daily_budget
    else c.default_daily_budget

-- An entry of `PERMISSION_BUDGET_STATE`; `consumed` has the hundredths that each class consumed.
pub record BudgetState : Type 0 where
  pub as_of_date : String
  pub consumed : Dict ℕ
  pub exception_budget_consumed : ℕ

abbrev pub fresh_budget : String → BudgetState
fresh_budget today = record {
  as_of_date = today;
  consumed = empty_dict;
  exception_budget_consumed = 0;
}

-- `PERMISSION_BUDGET_STATE`
abbrev pub Budgets : Type 0
Budgets = Dict BudgetState

abbrev pub on_day : String → BudgetState → BudgetState
on_day today s = if s.as_of_date == today then s else fresh_budget today

unfoldable pub budget_state_of : String → String → Budgets → BudgetState
budget_state_of api_key today budgets = on_day today (get_or (fresh_budget today) (budgets api_key))

-- `adjusted_size` is in units; what remains and what a request consumed is in hundredths.
pub record BudgetResult : Type 0 where
  pub configured : Bool
  pub triggered : Bool
  pub action : Option String
  pub status_code : ℕ
  pub adjusted_size : Option ℤ
  pub permission_budget_class : Option String
  pub permission_budget_remaining : Option ℕ
  pub budget_consumed_by_request : ℕ
  pub budget_exhausted : Bool
  pub exception_budget_remaining : Option ℕ

-- `_default_permission_budget_fields`, without a configuration.
abbrev pub unbudgeted : Option ℤ → BudgetResult
unbudgeted size = record {
  configured = false;
  triggered = false;
  action = none;
  status_code = 200;
  adjusted_size = size;
  permission_budget_class = none;
  permission_budget_remaining = none;
  budget_consumed_by_request = 0;
  budget_exhausted = false;
  exception_budget_remaining = none;
}

module _ (scale : ℕ) (c : BudgetConfig) (budget_class : String) (s : BudgetState) where
  abbrev pub consumed_before : ℕ
  consumed_before = get_or 0 (s.consumed budget_class)

  abbrev pub remaining_before : ℕ
  remaining_before =
      round_to_cents scale (permission_budget_limit c budget_class - consumed_before * scale)

  -- `class_state["consumed"] = …`
  abbrev pub consume : ℕ → BudgetState
  consume amount = record s { consumed = put budget_class (consumed_before + amount) s.consumed }

  -- The result before the budget is looked at.
  abbrev unspent : Option ℤ → BudgetResult
  unspent size = record {
    configured = true;
    triggered = false;
    action = none;
    status_code = 200;
    adjusted_size = size;
    permission_budget_class = some budget_class;
    permission_budget_remaining = some remaining_before;
    budget_consumed_by_request = 0;
    budget_exhausted = eqb remaining_before 0;
    exception_budget_remaining = some (c.exception_budget - s.exception_budget_consumed);
  }

  -- A request with a positive size.
  unfoldable pub spend : ℕ → BudgetResult × BudgetState
  spend size =
      if eqb remaining_before 0
      then (
        record (unspent (some (pos size))) {
          triggered = true;
          action = some (if c.delay_on_exhaustion then "DELAY" else "DENY");
          status_code = 429;
          adjusted_size = some (pos 0);
          permission_budget_remaining = some 0;
          budget_exhausted = true;
        },
        consume 0,
      )
      else if ltb (remaining_before * scale) size
      then (
        record (unspent (some (pos size))) {
          triggered = true;
          action = some "REDUCE";
          adjusted_size = some (pos (remaining_before * scale));
          budget_consumed_by_request = remaining_before;
          permission_budget_remaining = some 0;
          budget_exhausted = true;
        },
        consume remaining_before,
      )
      else (
        record (unspent (some (pos size))) {
          budget_consumed_by_request = round_to_cents scale size;
          permission_budget_remaining = some (remaining_before - round_to_cents scale size);
          budget_exhausted = eqb (remaining_before - round_to_cents scale size) 0;
        },
        consume (round_to_cents scale size),
      )

  unfoldable pub spend_if : String → Option ℤ → BudgetResult × BudgetState
  spend_if status none = (unspent none, consume 0)
  spend_if status (some (negsuc n)) = (unspent (some (negsuc n)), consume 0)
  spend_if status (some (pos size)) =
      let spent = spend size in
      if status == "VETO" || eqb size 0 then (unspent (some (pos size)), consume 0) else spent

-- A request as the permission budget sees it.
pub record BudgetRequest : Type 0 where
  pub api_key : String
  pub config : Option RawBudget
  pub intent : Option String
  pub decision_status : String
  pub admitted_size : Option ℤ
  pub today : String

module _ (h : TextHost) (scale : ℕ) (q : BudgetRequest) (budgets : Budgets) where
  abbrev pub evaluate_with : Option BudgetConfig → BudgetResult × Budgets
  evaluate_with none = (unbudgeted q.admitted_size, budgets)
  evaluate_with (some c) =
      let (result, s) =
        spend_if scale c (permission_budget_class h q.intent)
          (budget_state_of q.api_key q.today budgets) q.decision_status q.admitted_size in
      (result, put q.api_key s budgets)

  -- `_evaluate_permission_budget`
  unfoldable pub evaluate_permission_budget : BudgetResult × Budgets
  evaluate_permission_budget = evaluate_with (permission_budget_config q.config)
