-- ===== src/Billing/Allowance.antt =====
-- internal/billing/billing.go: what a tenant may still use (`CheckAllowance`) and which models it
-- may list (`CurrentModelPolicy`).
pub mod Admission
mod Examples
use joysteed_maa_s.Base.{
  ℕ, Bool, true, false, not, ◌&&◌, ◌||◌, List, [], ◌∷◌, Option, none, some, Str, ◌==◌, trim_space,
  map, is_empty, any, elem, find, select, leb, ltb, eqb, ℤ, pos, ◌+ℤ◌, ◌-ℤ◌, ltb_ℤ, leb_ℤ, Faults,
  Result, ok, err, Tx, query, throw, pure, ◌>>=◌, ◌>>◌, if◌then◌else◌,
}
use joysteed_maa_s.Billing.Sku.{
  Error, invalid_usage, record_not_found, database, sku_candidates, ModelPolicy,
}
use joysteed_maa_s.Billing.Usage.{UsageEvent}
use joysteed_maa_s.Billing.Invoice.{in_window, sum_column}
use joysteed_maa_s.Billing.Plan.{
  Plan, PlanModel, TenantPlan, Catalog, OveragePolicy, reject, is_plan,
}

pub record AllowanceStatus : Type 0 where
  pub plan_id : Str
  pub model : Str
  pub model_allowed : Bool
  pub pricing_configured : Bool
  pub included_credit_micros : ℤ
  pub used_credit_micros : ℤ
  pub remaining_credit_micros : ℤ
  pub max_concurrent : ℤ
  pub overage_policy : OveragePolicy
  pub allowed : Bool

pub record Books : Type 0 where
  pub catalog : Catalog
  pub events : List UsageEvent

abbrev pub is_reject : OveragePolicy → Bool
is_reject reject = true
is_reject _ = false

abbrev or_missing : {A : Type 0} → Option A → Tx Error Books A
or_missing none = throw record_not_found
or_missing (some a) = pure a

abbrev or_unread : {A : Type 0} → Option A → Tx Error Books A
or_unread none = throw database
or_unread (some a) = pure a

abbrev after : ℕ → Option ℕ → Bool
after at none = true
after at (some ends) = ltb at ends

-- The tenant's plan at a time; the table's key is the tenant, so there is one row at most.
abbrev pub assigned : Str → ℕ → TenantPlan → Bool
assigned tenant at a = (a.tenant_id == tenant) && (leb a.starts_at at && after at a.ends_at)

unfoldable pub credit_allowed : OveragePolicy → ℤ → ℤ → ℤ → Bool
credit_allowed policy used included additional =
    if is_reject policy
    then (if ltb_ℤ (pos 0) additional
        then leb_ℤ (used +ℤ additional) included
        else ltb_ℤ used included)
    else true

abbrev pub at_least_zero : ℤ → ℤ
at_least_zero n = if ltb_ℤ n (pos 0) then pos 0 else n

unfoldable pub allowance_status :
    Str → Str → Plan → Str → ℕ → ℕ → ℤ → Tx Error Books AllowanceStatus
unfolding credit_allowed
allowance_status tenant plan_id plan model from to additional = do
  model_allowed ← query database (λ s.
      any (λ row. (row.plan_id == plan_id) && any (λ c. row.model_id == c) (sku_candidates model))
        s.catalog.plan_models)
  priced ←
      query database
        (λ s. any (λ row. any (λ c. row.id == c) (sku_candidates model)) s.catalog.skus)
  answer ←
      query database
        (λ s. sum_column (λ e. e.amount_micros) (select (in_window tenant from to) s.events))
  used ← or_unread answer
  pure (record {
    plan_id = plan_id;
    model = model;
    model_allowed = model_allowed;
    pricing_configured = priced;
    included_credit_micros = plan.included_credit_micros;
    used_credit_micros = used;
    remaining_credit_micros = at_least_zero (plan.included_credit_micros -ℤ used);
    max_concurrent = plan.max_concurrent;
    overage_policy = plan.overage_policy;
    allowed =
        model_allowed
        && (priced
            && credit_allowed plan.overage_policy used plan.included_credit_micros additional);
  })

-- The arm of `allowanceStatus` for a named model: the guard below leaves no other.
unfoldable pub check_allowance : Str → Str → ℕ → ℕ → ℕ → ℤ → Tx Error Books AllowanceStatus
unfolding allowance_status
check_allowance tenant model at from to additional =
    if is_empty tenant
      || (is_empty (trim_space model)
          || (eqb at 0
              || (eqb from 0 || (eqb to 0 || (not (ltb from to) || ltb_ℤ additional (pos 0))))))
    then throw invalid_usage
    else (do
      found ← query database (λ s. find (assigned tenant at) s.catalog.assignments)
      assignment ← or_missing found
      row ← query database (λ s. find (is_plan assignment.plan_id) s.catalog.plans)
      plan ← or_missing row
      allowance_status tenant assignment.plan_id plan (trim_space model) from to additional)

abbrev pub models_of : Str → List PlanModel → List Str
models_of plan rows = map (λ r. r.model_id) (select (λ r. r.plan_id == plan) rows)

-- `sorted` is the order that the database's `ORDER BY` gives the rows.
unfoldable pub current_model_policy : (List Str → List Str) → Str → ℕ → Tx Error Books ModelPolicy
current_model_policy sorted tenant at =
    if is_empty tenant || eqb at 0 then throw invalid_usage else (do
      found ← query database (λ s. find (assigned tenant at) s.catalog.assignments)
      assignment ← or_missing found
      models ← query database (λ s. sorted (models_of assignment.plan_id s.catalog.plan_models))
      priced ← query database (λ s. sorted (map (λ r. r.id) s.catalog.skus))
      pure (record { plan_id = assignment.plan_id; plan_models = models; priced_models = priced }))
