-- ===== src/Billing/Allowance/Admission.antt =====
-- What an allowance of internal/billing promises, and that the model list agrees with it.
use joysteed_maa_s.Base.{
  Faults, ℕ, ◌≤◌, ◌<◌, Bool, true, ◌&&◌, ◌||◌, some, select, find-true, ==_iff, List, [], ◌∷◌, Str,
  ◌==◌, trim_space, any, elem, find, map, ℤ, pos, ◌-ℤ◌, ◌<ℤ◌, ◌≡◌, refl, sym, ◌∙◌, ◌≢◌, ◌↔◌, ◌⊎◌,
  inl, inr, arith, ok, Option-cases, any-map,
}
use joysteed_maa_s.Billing.Sku.{
  ModelPolicy, sku_candidates, model_id_matches, allows, bare_model, wildcard,
}
use joysteed_maa_s.Billing.Sku.Matching.{candidates_in, bare_in, model_id_matches_lem}
use joysteed_maa_s.Billing.Invoice.{in_window, sum_column}
use joysteed_maa_s.Billing.Plan.{
  Plan, TenantPlan, PlanModel, OveragePolicy, unset, allow, other, reject, is_plan,
}
use joysteed_maa_s.Billing.Allowance.{
  AllowanceStatus, Books, assigned, models_of, check_allowance, current_model_policy, at_least_zero,
  credit_allowed,
}

matches_lem :
    (xs : List Str) (m : Str)
    → model_id_matches xs m ≡ any (λ e. any (λ c. e == c) (sku_candidates m)) xs
matches_lem xs m = unfold model_id_matches in refl

plan_covers :
    (plan : Str) (cs : List Str) (rows : List PlanModel)
    → any (λ row. (row.plan_id == plan) && any (λ c. row.model_id == c) cs) rows
      ≡ any (λ m. any (λ c. m == c) cs) (models_of plan rows)
plan_covers plan cs [] = refl
plan_covers plan cs (r ∷ rows) = ground (arith, plan_covers plan cs rows)

sorted-matches :
    (sorted : List Str → List Str) (xs : List Str) (cs : List Str)
    → ((c : Str) (ys : List Str) → elem c (sorted ys) ≡ elem c ys)
    → any (λ c. elem c (sorted xs)) cs ≡ any (λ c. elem c xs) cs
sorted-matches sorted xs [] same = refl
sorted-matches sorted xs (c ∷ cs) same = ground (arith, same c xs, sorted-matches sorted xs cs same)

model_id_matches-sorted :
    (sorted : List Str → List Str) (xs : List Str) (model : Str)
    → ((c : Str) (ys : List Str) → elem c (sorted ys) ≡ elem c ys)
    → model_id_matches (sorted xs) model ≡ model_id_matches xs model
model_id_matches-sorted sorted xs model same =
    rw (candidates_in (sorted xs) model, candidates_in xs model)
      (sorted-matches sorted xs (sku_candidates model) same)

-- A model is admitted by the allowance check, credit aside, exactly when the tenant's model policy
-- allows it, so the list of models that a tenant sees is the list that it may call.
pub check_allowance-allows :
    (sorted : List Str → List Str) (tenant model : Str) (at from to : ℕ) (b : Books)
    (st : AllowanceStatus) (policy : ModelPolicy)
    → ((c : Str) (ys : List Str) → elem c (sorted ys) ≡ elem c ys)
    → check_allowance tenant model at from to (pos 0) b [] ≡ ok (st, b, [])
    → current_model_policy sorted tenant at b [] ≡ ok (policy, b, [])
    → (st.model_allowed && st.pricing_configured) ≡ allows policy (trim_space model)
unfolding check_allowance current_model_policy allows
check_allowance-allows sorted tenant model at from to b st policy same h k =
    elim (Option-cases (find (assigned tenant at) b.catalog.assignments)) [
      | inl e ↦ absurd (ground arith)
      | inr (a, e) ↦ elim (Option-cases (find (is_plan a.plan_id) b.catalog.plans)) [
        | inl f ↦ absurd (ground arith)
        | inr (p, f) ↦ ground (
          arith,
          plan_covers a.plan_id (sku_candidates (trim_space model)) b.catalog.plan_models,
          any-map (λ m. any (λ c. m == c) (sku_candidates (trim_space model))) (λ r. r.id)
              b.catalog.skus,
          model_id_matches-sorted sorted (models_of a.plan_id b.catalog.plan_models)
              (trim_space model) same,
          model_id_matches-sorted sorted (map (λ r. r.id) b.catalog.skus) (trim_space model) same,
          matches_lem (models_of a.plan_id b.catalog.plan_models) (trim_space model),
          matches_lem (map (λ r. r.id) b.catalog.skus) (trim_space model),
        )
      ]
    ]

credit :
    (policy : OveragePolicy) (used included : ℤ)
    → (credit_allowed policy used included (pos 0) ≡ true)
      ↔ ((policy ≢ reject) ⊎ (used <ℤ included))
unfolding credit_allowed
credit reject used included =
    ((λ h. inr (ground arith)), elim [ inl n ↦ absurd (n refl) | inr k ↦ ground arith ])
credit unset used included = ((λ h. inl (λ e. cc)), λ h. refl)
credit allow used included = ((λ h. inl (λ e. cc)), λ h. refl)
credit (other s) used included = ((λ h. inl (λ e. cc)), λ h. refl)

abbrev Verdict : AllowanceStatus → Type 0
Verdict st = st.allowed ≡ (
    st.model_allowed
    && (st.pricing_configured
        && credit_allowed st.overage_policy st.used_credit_micros st.included_credit_micros
            (pos 0)))

answer :
    (tenant model : Str) (at from to : ℕ) (b : Books) (st : AllowanceStatus)
    → check_allowance tenant model at from to (pos 0) b [] ≡ ok (st, b, [])
    → Verdict st
      × (st.remaining_credit_micros
          ≡ at_least_zero (st.included_credit_micros -ℤ st.used_credit_micros))
answer tenant model at from to b st h =
    elim (Option-cases (find (assigned tenant at) b.catalog.assignments)) [
      | inl e ↦ absurd (unfold check_allowance in ground arith)
      | inr (a, e) ↦ elim (Option-cases (find (is_plan a.plan_id) b.catalog.plans)) [
        | inl f ↦ absurd (unfold check_allowance in ground arith)
        | inr (p, f) ↦
            (unfold check_allowance in ground arith, unfold check_allowance in ground arith)
      ]
    ]

conditions :
    (st : AllowanceStatus)
    → Verdict st
    → st.allowed ≡ true
    → (credit_allowed st.overage_policy st.used_credit_micros st.included_credit_micros (pos 0)
          ≡ true
        → (st.overage_policy ≢ reject) ⊎ (st.used_credit_micros <ℤ st.included_credit_micros))
    → (st.model_allowed ≡ true)
      × (st.pricing_configured ≡ true)
      × ((st.overage_policy ≢ reject) ⊎ (st.used_credit_micros <ℤ st.included_credit_micros))
conditions st all e c = (ground arith, ground arith, c (ground arith))

met :
    (st : AllowanceStatus)
    → Verdict st
    → (st.model_allowed ≡ true)
      × (st.pricing_configured ≡ true)
      × ((st.overage_policy ≢ reject) ⊎ (st.used_credit_micros <ℤ st.included_credit_micros))
    → ((st.overage_policy ≢ reject) ⊎ (st.used_credit_micros <ℤ st.included_credit_micros)
        → credit_allowed st.overage_policy st.used_credit_micros st.included_credit_micros (pos 0)
          ≡ true)
    → st.allowed ≡ true
met st all (m, p, k) c = let paid = c k in ground arith

-- The fields of an answer agree with its verdict.
pub check_allowance_fields :
    (tenant model : Str) (at from to : ℕ) (b : Books) (st : AllowanceStatus)
    → check_allowance tenant model at from to (pos 0) b [] ≡ ok (st, b, [])
    → ((st.allowed ≡ true) ↔ (
        (st.model_allowed ≡ true)
        × (st.pricing_configured ≡ true)
        × ((st.overage_policy ≢ reject) ⊎ (st.used_credit_micros <ℤ st.included_credit_micros))))
      × (st.remaining_credit_micros
          ≡ at_least_zero (st.included_credit_micros -ℤ st.used_credit_micros))
check_allowance_fields tenant model at from to b st h =
    let (all, left) = answer tenant model at from to b st h in
    let c = credit st.overage_policy st.used_credit_micros st.included_credit_micros in
    (((λ e. conditions st all e c.0), (λ e. met st all e c.1)), left)

-- The check writes nothing.
pub check_allowance_keeps :
    (tenant model : Str) (at from to : ℕ) (b b' : Books) (st : AllowanceStatus) (fs : Faults)
    → check_allowance tenant model at from to (pos 0) b [] ≡ ok (st, b', fs)
    → (b' ≡ b) × (fs ≡ [])
check_allowance_keeps tenant model at from to b b' st fs h =
    elim (Option-cases (find (assigned tenant at) b.catalog.assignments)) [
      | inl e ↦ absurd (unfold check_allowance in ground arith)
      | inr (a, e) ↦ elim (Option-cases (find (is_plan a.plan_id) b.catalog.plans)) [
        | inl f ↦ absurd (unfold check_allowance in ground arith)
        | inr (p, f) ↦
            (unfold check_allowance in ground arith, unfold check_allowance in ground arith)
      ]
    ]

-- The list names the model as it is, by its bare name behind the provider, or by the wildcard.
abbrev pub covers : List Str → Str → Bool
covers configured model =
    elem (trim_space model) configured
    || (bare_in (bare_model (trim_space model)) configured || elem wildcard configured)

-- The tenant's assignment at a time, and its plan.
abbrev pub IsOnPlan : Str → ℕ → Books → TenantPlan → Plan → Type 0
IsOnPlan tenant at b a p =
    (find (assigned tenant at) b.catalog.assignments ≡ some a)
    × (find (is_plan a.plan_id) b.catalog.plans ≡ some p)
    × (a.tenant_id ≡ tenant)
    × (a.starts_at ≤ at)
    × ((end : ℕ) → a.ends_at ≡ some end → at < end)

-- The fields of an answer are those of the plan and of the tables.
abbrev Read : Str → Str → ℕ → ℕ → Books → AllowanceStatus → TenantPlan → Plan → Type 0
Read tenant model from to b st a p =
    (sum_column (λ e. e.amount_micros) (select (in_window tenant from to) b.events)
      ≡ some st.used_credit_micros)
    × (st.included_credit_micros ≡ p.included_credit_micros)
    × (st.overage_policy ≡ p.overage_policy)
    × (st.model_allowed
        ≡ model_id_matches (models_of a.plan_id b.catalog.plan_models) (trim_space model))
    × (st.pricing_configured ≡ model_id_matches (map (λ r. r.id) b.catalog.skus) (trim_space model))

read :
    (tenant model : Str) (at from to : ℕ) (b : Books) (st : AllowanceStatus) (a : TenantPlan)
    (p : Plan)
    → check_allowance tenant model at from to (pos 0) b [] ≡ ok (st, b, [])
    → find (assigned tenant at) b.catalog.assignments ≡ some a
    → find (is_plan a.plan_id) b.catalog.plans ≡ some p
    → Read tenant model from to b st a p
unfolding check_allowance
read tenant model at from to b st a p h e f =
    elim (Option-cases
      (sum_column (λ e. e.amount_micros) (select (in_window tenant from to) b.events))) [
        | inl none_read ↦ absurd (ground arith)
        | inr (sum, summed) ↦ (
          ground arith,
          ground arith,
          ground arith,
          ground (
            arith,
            plan_covers a.plan_id (sku_candidates (trim_space model)) b.catalog.plan_models,
            matches_lem (models_of a.plan_id b.catalog.plan_models) (trim_space model),
          ),
          ground (
            arith,
            any-map (λ m. any (λ c. m == c) (sku_candidates (trim_space model))) (λ r. r.id)
                b.catalog.skus,
            matches_lem (map (λ r. r.id) b.catalog.skus) (trim_space model),
          ),
        )
      ]

on_plan :
    (tenant : Str) (at : ℕ) (b : Books) (a : TenantPlan) (p : Plan)
    → find (assigned tenant at) b.catalog.assignments ≡ some a
    → find (is_plan a.plan_id) b.catalog.plans ≡ some p
    → IsOnPlan tenant at b a p
on_plan tenant at b a p e f =
    let true_of = find-true (assigned tenant at) b.catalog.assignments a e in
    (e, f, (==_iff a.tenant_id tenant).0 (ground arith), ground arith, λ end ends. ground arith)

-- Where no statement fails, an answered request is allowed exactly when the tenant's plan at that time
-- lists its model and a price list has it (by its name, its bare name or the wildcard), and the plan
-- either does not reject overage or has more credit than the window's rows have used; what is left is
-- the plan's credit less this use, or zero.
pub check_allowance_lem :
    (tenant model : Str) (at from to : ℕ) (b : Books) (st : AllowanceStatus)
    → check_allowance tenant model at from to (pos 0) b [] ≡ ok (st, b, [])
    → (a : TenantPlan) × (p : Plan) × (used : ℤ) × IsOnPlan tenant at b a p
      × (sum_column (λ e. e.amount_micros) (select (in_window tenant from to) b.events) ≡ some used)
      × ((st.allowed ≡ true) ↔ (
          (covers (models_of a.plan_id b.catalog.plan_models) (trim_space model) ≡ true)
          × (covers (map (λ r. r.id) b.catalog.skus) (trim_space model) ≡ true)
          × ((p.overage_policy ≢ reject) ⊎ (used <ℤ p.included_credit_micros))))
      × (st.remaining_credit_micros ≡ at_least_zero (p.included_credit_micros -ℤ used))
check_allowance_lem tenant model at from to b st h =
    elim (Option-cases (find (assigned tenant at) b.catalog.assignments)) [
      | inl e ↦ absurd (unfold check_allowance in ground arith)
      | inr (a, e) ↦ elim (Option-cases (find (is_plan a.plan_id) b.catalog.plans)) [
        | inl f ↦ absurd (unfold check_allowance in ground arith)
        | inr (p, f) ↦
            let (summed, credit_of, policy, listed, priced) =
              read tenant model at from to b st a p h e f in
            let (verdict, left) = check_allowance_fields tenant model at from to b st h in
            let named =
              listed
              ∙ model_id_matches_lem (models_of a.plan_id b.catalog.plan_models)
                  (trim_space model) in
            let known =
              priced ∙ model_id_matches_lem (map (λ r. r.id) b.catalog.skus) (trim_space model) in
            (
              a,
              p,
              st.used_credit_micros,
              on_plan tenant at b a p e f,
              summed,
              rw (sym named, sym known, sym credit_of, sym policy) verdict,
              rw (sym credit_of) left,
            )
      ]
    ]
