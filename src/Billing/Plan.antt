-- ===== src/Billing/Plan.antt =====
-- internal/billing/billing.go: plans, their model allow-lists and the tenants' assignments.
use joysteed_maa_s.Base.{
  ℕ, Bool, true, false, not, ◌&&◌, ◌||◌, List, [], ◌∷◌, Option, none, some, Str, ◌==◌, text,
  trim_space, map, is_empty, any, elem, find, select, update_where, eqb, ℤ, pos, ltb_ℤ, leb_ℤ, Tx,
  Faults, Result, ok, query, exec, throw, pure, ◌>>=◌, ◌>>◌, transaction, if◌then◌else◌,
}
use joysteed_maa_s.Billing.Sku.{
  Error, invalid_usage, record_not_found, database, valid_model_id, Sku,
}

-- `OveragePolicy` is a string: `other` is any text but the three that the code knows.
pub data OveragePolicy : Type 0 where
  unset reject allow : OveragePolicy
  other : Str → OveragePolicy

pub record Plan : Type 0 where
  pub id : Str
  pub name : Str
  pub currency : Str
  pub monthly_micros : ℤ
  pub included_credit_micros : ℤ
  pub max_concurrent : ℤ
  pub overage_policy : OveragePolicy
  pub created_at : ℕ

pub record PlanModel : Type 0 where
  pub plan_id : Str
  pub model_id : Str

pub record TenantPlan : Type 0 where
  pub tenant_id : Str
  pub plan_id : Str
  pub starts_at : ℕ
  pub ends_at : Option ℕ

pub record Catalog : Type 0 where
  pub plans : List Plan
  pub plan_models : List PlanModel
  pub assignments : List TenantPlan
  pub skus : List Sku

abbrev known_policy : OveragePolicy → Bool
known_policy (other _) = false
known_policy _ = true

-- The loop of `validPlan` over the models, with what it has seen.
unfoldable pub valid_models : List Str → List Str → Bool
valid_models seen [] = true
valid_models seen (raw ∷ rest) =
    let model = trim_space raw in
    let later = valid_models (model ∷ seen) rest in
    if valid_model_id model then (if elem model seen then false else later) else false

abbrev no_models : List Str → Bool
no_models [] = true
no_models (_ ∷ _) = false

unfoldable pub valid_plan : Plan → List Str → Bool
unfolding valid_models
valid_plan p models =
    if is_empty (trim_space p.id)
      || (is_empty (trim_space p.name)
          || (ltb_ℤ p.monthly_micros (pos 0)
              || (ltb_ℤ p.included_credit_micros (pos 0)
                  || (leb_ℤ p.max_concurrent (pos 0)
                      || (no_models models || not (known_policy p.overage_policy))))))
    then false
    else valid_models [] models

abbrev pub normalize_models : List Str → List Str
normalize_models = map trim_space

abbrev or_usd : Str → Str
or_usd [] = text "USD"
or_usd (c ∷ s) = c ∷ s

abbrev or_reject : OveragePolicy → OveragePolicy
or_reject unset = reject
or_reject p = p

abbrev pub is_plan : Str → Plan → Bool
is_plan id p = p.id == id

abbrev pub lists : Str → Str → PlanModel → Bool
lists plan model row = (row.plan_id == plan) && (row.model_id == model)

-- The composite primary key refuses a second row.
abbrev insert_model : Str → Str → Tx Error Catalog (Unit {0})
insert_model plan model s fs =
    (if any (lists plan model) s.plan_models
        then throw database
        else exec database (λ s. record s {
          plan_models = record { plan_id = plan; model_id = model } ∷ s.plan_models;
        }))
      s fs

unfoldable pub insert_models : Str → List Str → Tx Error Catalog (Unit {0})
insert_models plan [] = pure tt
insert_models plan (m ∷ ms) = let rest = insert_models plan ms in (do insert_model plan m; rest)

abbrev insert_plan : Plan → Tx Error Catalog (Unit {0})
insert_plan p s fs =
    (if any (is_plan p.id) s.plans
        then throw database
        else exec database (λ s. record s { plans = p ∷ s.plans }))
      s fs

unfoldable pub create_plan_tx : Plan → List Str → ℕ → Tx Error Catalog (Unit {0})
unfolding insert_models
create_plan_tx p models now =
    let row : Plan = record {
      id = trim_space p.id;
      name = trim_space p.name;
      currency = or_usd p.currency;
      monthly_micros = p.monthly_micros;
      included_credit_micros = p.included_credit_micros;
      max_concurrent = p.max_concurrent;
      overage_policy = or_reject p.overage_policy;
      created_at = now;
    } in
    if valid_plan p models
    then (do insert_plan row; insert_models row.id (normalize_models models))
    else throw invalid_usage

abbrev require_row : Bool → Tx Error Catalog (Unit {0})
require_row true = pure tt
require_row false = throw record_not_found

unfoldable pub update_plan_tx : Plan → List Str → Tx Error Catalog (Unit {0})
unfolding insert_models
update_plan_tx p models =
    let id = trim_space p.id in
    if valid_plan p models
    then (do
      exec database (λ s. record s {
        plans =
            update_where (is_plan id)
              (λ q. record q {
                name = trim_space p.name;
                currency = or_usd p.currency;
                monthly_micros = p.monthly_micros;
                included_credit_micros = p.included_credit_micros;
                max_concurrent = p.max_concurrent;
                overage_policy = or_reject p.overage_policy;
              })
              s.plans;
      })
      touched ← (λ s fs. ok (any (is_plan id) s.plans, s, fs))
      require_row touched
      exec database
          (λ s. record s { plan_models = select (λ row. not (row.plan_id == id)) s.plan_models })
      insert_models id (normalize_models models))
    else throw invalid_usage

unfoldable pub create_plan :
    Plan → List Str → ℕ → Catalog → Faults → Result Error (Unit {0}) × Catalog
unfolding create_plan_tx
create_plan p models now = transaction (create_plan_tx p models now)

abbrev upsert_assignment : TenantPlan → List TenantPlan → List TenantPlan
upsert_assignment a rows =
    if any (λ b. b.tenant_id == a.tenant_id) rows
    then update_where (λ b. b.tenant_id == a.tenant_id)
        (λ b. record b { plan_id = a.plan_id; starts_at = a.starts_at; ends_at = a.ends_at }) rows
    else a ∷ rows

abbrev or_missing : {A : Type 0} → Option A → Tx Error Catalog A
or_missing none = throw record_not_found
or_missing (some a) = pure a

unfoldable pub set_tenant_plan_tx : Str → Str → ℕ → Tx Error Catalog (Unit {0})
set_tenant_plan_tx tenant plan starts =
    if is_empty tenant || (is_empty (trim_space plan) || eqb starts 0)
    then throw invalid_usage
    else (do
      found ← query database (λ s. find (is_plan plan) s.plans)
      plan_row ← or_missing found
      exec database (λ s. record s {
        assignments =
            upsert_assignment
              (record { tenant_id = tenant; plan_id = plan; starts_at = starts; ends_at = none })
              s.assignments;
      }))
