-- ===== src/Modelaccess/Examples.antt =====
-- The model list of internal/modelaccess for one policy.
use native.Mathlib.Decide.{ℕ_discrete}
use joysteed_maa_s.Base.{
  true, false, [], ◌∷◌, some, none, text, ◌==◌, trim_space, is_empty, any, All, ok, ◌≡◌, refl,
  str_discrete,
}
use joysteed_maa_s.Billing.Sku.{ModelPolicy, allows}
use joysteed_maa_s.Modelaccess.{Model, Response, filter_list_models}
use joysteed_maa_s.Modelaccess.Visible.{IsVisible, filter_list_models-IsVisible}

abbrev policy : ModelPolicy
policy = record {
  plan_id = text "starter";
  plan_models = text "m" ∷ [];
  priced_models = text "m" ∷ [];
}

abbrev mini : Model
mini = record { id = text "p/m"; owned_by = none }

abbrev listing : Response
listing = record {
  models = mini ∷ record { id = text "p/x"; owned_by = none } ∷ [];
  key_statuses = record { provider = text "p" } ∷ [];
  first_id = none;
  last_id = some (text "p/x");
}

filter_list_models-IsVisible_example :
    let kept = (filter_list_models (λ s. s) ◌==◌ (text "t1") (ok policy) listing).1.models in
    All (IsVisible policy) kept
    × (is_empty (trim_space mini.id) ≡ false
        → allows policy (trim_space mini.id) ≡ true
        → any (λ n. n.id == mini.id) kept ≡ true)
filter_list_models-IsVisible_example =
    filter_list_models-IsVisible (λ s. s) ◌==◌ (text "t1") policy listing mini refl
      (unfold str_discrete ℕ_discrete in refl)
