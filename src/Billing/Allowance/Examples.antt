-- ===== src/Billing/Allowance/Examples.antt =====
-- The allowance theorems of internal/billing at one tenant's books.
use native.Mathlib.Decide.{ℕ_discrete}
use joysteed_maa_s.Base.{
  ℤ, some, select, map, true, [], ◌∷◌, none, text, trim_space, pos, ◌-ℤ◌, ◌<ℤ◌, ◌≡◌, refl, ◌≢◌, ◌↔◌,
  ◌⊎◌, ok, str_discrete, wrap,
}
use joysteed_maa_s.Billing.Sku.{Sku, ModelPolicy, sku_candidates}
use joysteed_maa_s.Billing.Invoice.{in_window, sum_column}
use joysteed_maa_s.Billing.Plan.{Plan, TenantPlan, reject}
use joysteed_maa_s.Billing.Allowance.{
  AllowanceStatus, Books, check_allowance, at_least_zero, models_of,
}
use joysteed_maa_s.Billing.Allowance.Admission.{IsOnPlan, covers, check_allowance_lem}

abbrev starter : Plan
starter = record {
  id = text "starter";
  name = text "Starter";
  currency = text "USD";
  monthly_micros = pos 9;
  included_credit_micros = pos 100;
  max_concurrent = pos 2;
  overage_policy = reject;
  created_at = 1;
}

abbrev mini : Sku
mini = record {
  id = text "m";
  name = text "Mini";
  prompt_micros_per_1m = pos 15;
  completion_micros_per_1m = pos 60;
  legacy_prompt_per_1k = pos 0;
  legacy_completion_per_1k = pos 0;
  created_at = 1;
}

abbrev books : Books
books = record {
  catalog = record {
    plans = starter ∷ [];
    plan_models = record { plan_id = text "starter"; model_id = text "m" } ∷ [];
    assignments =
        record { tenant_id = text "t1"; plan_id = text "starter"; starts_at = 3; ends_at = none }
        ∷ [];
    skus = mini ∷ [];
  };
  events = [];
}

abbrev answer : AllowanceStatus
answer = record {
  plan_id = text "starter";
  model = text "p/m";
  model_allowed = true;
  pricing_configured = true;
  included_credit_micros = pos 100;
  used_credit_micros = pos 0;
  remaining_credit_micros = pos 100;
  max_concurrent = pos 2;
  overage_policy = reject;
  allowed = true;
}

abbrev policy : ModelPolicy
policy = record {
  plan_id = text "starter";
  plan_models = text "m" ∷ [];
  priced_models = text "m" ∷ [];
}

answered : check_allowance (text "t1") (text "p/m") 5 4 9 (pos 0) books [] ≡ ok (answer, books, [])
unfolding check_allowance trim_space str_discrete ℕ_discrete sku_candidates ◌-ℤ◌ sum_column wrap
answered = refl

check_allowance_lem_example :
    (a : TenantPlan) × (p : Plan) × (used : ℤ) × IsOnPlan (text "t1") 5 books a p
    × (sum_column (λ e. e.amount_micros) (select (in_window (text "t1") 4 9) books.events)
        ≡ some used)
    × ((answer.allowed ≡ true) ↔ (
        (covers (models_of a.plan_id books.catalog.plan_models) (trim_space (text "p/m")) ≡ true)
        × (covers (map (λ r. r.id) books.catalog.skus) (trim_space (text "p/m")) ≡ true)
        × ((p.overage_policy ≢ reject) ⊎ (used <ℤ p.included_credit_micros))))
    × (answer.remaining_credit_micros ≡ at_least_zero (p.included_credit_micros -ℤ used))
check_allowance_lem_example =
    check_allowance_lem (text "t1") (text "p/m") 5 4 9 books answer answered
