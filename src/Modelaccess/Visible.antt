-- ===== src/Modelaccess/Visible.antt =====
-- What internal/modelaccess leaves in a tenant's model list.
use joysteed_maa_s.Base.{
  Bool, true, false, List, [], ◌∷◌, ◌++◌, Str, text, ◌==◌, ==_iff, trim_space, is_empty, any, All,
  ok, ◌≡◌, refl, arith, ◌⊎◌, inl, inr, Bool-cases,
}
use joysteed_maa_s.Billing.Sku.{ModelPolicy, allows}
use joysteed_maa_s.Modelaccess.{
  Model, Response, allowed_model, kept_models, filter_list_models, single_status_provider,
  reset_provider_pagination, candidates, owner, page,
}

abbrev pub IsVisible : ModelPolicy → Model → Type 0
IsVisible policy m =
    (allows policy (trim_space m.id) ≡ true)
    ⊎ ((provider : Str) × (allows policy (provider ++ (text "/" ++ trim_space m.id)) ≡ true))

by_provider :
    (policy : ModelPolicy) (provider id : Str)
    → any (allows policy) (candidates provider id) ≡ true
    → allows policy id ≡ false
    → allows policy (provider ++ (text "/" ++ id)) ≡ true
by_provider policy [] id h k = ground arith
by_provider policy (c ∷ provider) id h k = ground arith

by_name :
    (policy : ModelPolicy) (provider id : Str)
    → allows policy id ≡ true
    → any (allows policy) (candidates provider id) ≡ true
by_name policy [] id h = ground arith
by_name policy (c ∷ provider) id h = ground arith

visible :
    (policy : ModelPolicy) (m : Model) (hint : Str)
    → (allowed_model policy m hint).1 ≡ true
    → IsVisible policy m
unfolding allowed_model
visible policy m hint h = elim (Bool-cases (allows policy (trim_space m.id))) [
  | inl named ↦ inl named
  | inr not_named ↦ inr (
    owner hint m.owned_by,
    ground (arith, by_provider policy (owner hint m.owned_by) (trim_space m.id)),
  )
]

listed :
    (policy : ModelPolicy) (m : Model) (hint : Str)
    → is_empty (trim_space m.id) ≡ false
    → allows policy (trim_space m.id) ≡ true
    → (allowed_model policy m hint).1 ≡ true
unfolding allowed_model
listed policy m hint h k = ground (arith, by_name policy (owner hint m.owned_by) (trim_space m.id))

abbrev Kept : ModelPolicy → List Model → Model → Type 0
Kept policy kept m =
    is_empty (trim_space m.id) ≡ false
    → allows policy (trim_space m.id) ≡ true
    → any (λ n. n.id == m.id) kept ≡ true

kept_models-IsVisible :
    (lower : Str → Str) (policy : ModelPolicy) (hint : Str) (ms : List Model)
    → All (IsVisible policy) (kept_models lower policy hint ms).0
unfolding kept_models
kept_models-IsVisible lower policy hint [] = tt
kept_models-IsVisible lower policy hint (m ∷ ms) =
    elim (Bool-cases ((allowed_model policy m hint).1)) [
      | inl h ↦ rw h (visible policy m hint h, kept_models-IsVisible lower policy hint ms)
      | inr h ↦ rw h (kept_models-IsVisible lower policy hint ms)
    ]

kept_models-keeps :
    (lower : Str → Str) (policy : ModelPolicy) (hint : Str) (m : Model) (ms : List Model)
    → any (λ n. n.id == m.id) ms ≡ true
    → Kept policy (kept_models lower policy hint ms).0 m
unfolding kept_models
kept_models-keeps lower policy hint m [] h a b = ground arith
kept_models-keeps lower policy hint m (n ∷ ms) h a b = elim (Bool-cases (n.id == m.id)) [
  | inl e ↦ let same = (==_iff n.id m.id).0 e in ground (arith, listed policy n hint)
  | inr e ↦ ground (arith, kept_models-keeps lower policy hint m ms (ground arith) a b)
]

page_models : (ms : List Model) (r : Response) → (page ms r).models ≡ r.models
page_models [] r = refl
page_models (m ∷ ms) r = refl

paged : (r : Response) → (reset_provider_pagination r).models ≡ r.models
unfolding reset_provider_pagination
paged r = ground (arith, page_models r.models r)

-- Every model that is left in the list is allowed by the tenant's policy, by its own name or by a
-- provider's name before it, and every model that the policy allows by its own name is left.
pub filter_list_models-IsVisible :
    (lower : Str → Str) (same_fold : Str → Str → Bool) (tenant : Str) (policy : ModelPolicy)
    (r : Response) (m : Model)
    → is_empty tenant ≡ false
    → any (λ n. n.id == m.id) r.models ≡ true
    → let kept = (filter_list_models lower same_fold tenant (ok policy) r).1.models in
      All (IsVisible policy) kept
      × (is_empty (trim_space m.id) ≡ false
          → allows policy (trim_space m.id) ≡ true
          → any (λ n. n.id == m.id) kept ≡ true)
unfolding filter_list_models
filter_list_models-IsVisible lower same_fold tenant policy r m named there =
    let hint = single_status_provider same_fold r.key_statuses in
    rw (named, paged)
      (
        kept_models-IsVisible lower policy hint r.models,
        kept_models-keeps lower policy hint m r.models there,
      )
