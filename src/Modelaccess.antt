-- ===== src/Modelaccess.antt =====
-- internal/modelaccess/filter.go: the model list that a tenant sees. Of the gateway's response the
-- filter uses the fields below; `lower` is strings.ToLower and `same_fold` strings.EqualFold.
pub mod Visible
mod Examples
use joysteed_maa_s.Base.{
  Bool, true, false, not, ◌&&◌, ◌||◌, List, [], ◌∷◌, ◌++◌, Option, some, none, Str, text, ◌==◌,
  elem, trim_space, is_empty, any, select, last, cut, Result, ok, err, if◌then◌else◌,
}
use joysteed_maa_s.Billing.Sku
use joysteed_maa_s.Billing.Sku.{ModelPolicy, allows}

pub record Model : Type 0 where
  pub id : Str
  pub owned_by : Option Str

pub record KeyStatus : Type 0 where
  pub provider : Str

pub record Response : Type 0 where
  pub models : List Model
  pub key_statuses : List KeyStatus
  pub first_id : Option Str
  pub last_id : Option Str

pub data Error : Type 0 where
  tenant_required : Error
  policy_failed : Sku.Error → Error

abbrev before_slash : Option (Str × Str) → Str
before_slash none = []
before_slash (some (l, r)) = l

unfoldable pub provider_from_qualified_id : Str → Str
provider_from_qualified_id id = before_slash (cut b'/' id)

abbrev pub owner : Str → Option Str → Str
owner hint none = hint
owner hint (some name) = if is_empty (trim_space name) then hint else trim_space name

abbrev pub candidates : Str → Str → List Str
candidates [] id = id ∷ []
candidates (c ∷ provider) id = ((c ∷ provider) ++ (text "/" ++ id)) ∷ id ∷ []

abbrev pub qualified : ModelPolicy → Str → Str → Str × Bool
qualified policy provider id =
    if any (allows policy) (candidates provider id) then (provider, true) else ([], false)

unfoldable pub allowed_model : ModelPolicy → Model → Str → Str × Bool
unfolding provider_from_qualified_id
allowed_model policy model hint =
    let id = trim_space model.id in
    let provider = provider_from_qualified_id id in
    if is_empty id
    then ([], false)
    else (if is_empty provider
        then qualified policy (owner hint model.owned_by) id
        else (if allows policy id then (provider, true) else ([], false)))

-- The loop of `singleStatusProvider`, with the provider so far.
unfoldable pub single_from : (Str → Str → Bool) → Str → List KeyStatus → Str
single_from same_fold provider [] = provider
single_from same_fold provider (s ∷ rest) =
    let now = trim_space s.provider in
    let skip = single_from same_fold provider rest in
    let next = single_from same_fold now rest in
    if is_empty now
    then skip
    else (if not (is_empty provider) && not (same_fold provider now) then [] else next)

unfoldable pub single_status_provider : (Str → Str → Bool) → List KeyStatus → Str
unfolding single_from
single_status_provider same_fold = single_from same_fold []

-- The loop of `FilterListModels`: the models kept, and their providers in lower case.
unfoldable pub kept_models : (Str → Str) → ModelPolicy → Str → List Model → List Model × List Str
unfolding allowed_model
kept_models lower policy hint [] = ([], [])
kept_models lower policy hint (m ∷ ms) =
    let (provider, allowed) = allowed_model policy m hint in
    let (models, providers) = kept_models lower policy hint ms in
    if allowed
    then (m ∷ models, if is_empty provider then providers else lower provider ∷ providers)
    else (models, providers)

abbrev has_page : Response → Bool
has_page r = elim r.first_id [
  | some _ ↦ true
  | none ↦ elim r.last_id [ some _ ↦ true | none ↦ false ]
]

abbrev pub page : List Model → Response → Response
page [] r = record r { first_id = none; last_id = none }
page (m ∷ ms) r = record r { first_id = some m.id; last_id = some (last m ms).id }

unfoldable pub reset_provider_pagination : Response → Response
reset_provider_pagination r = if has_page r then page r.models r else r

unfoldable pub filter_list_models :
    (Str → Str)
    → (Str → Str → Bool)
    → Str
    → Result Sku.Error ModelPolicy
    → Response
    → Result Error (Unit {0}) × Response
filter_list_models lower same_fold tenant (err e) r =
    (if is_empty tenant then err tenant_required else err (policy_failed e), r)
filter_list_models lower same_fold tenant (ok policy) r =
    let (models, providers) =
      kept_models lower policy (single_status_provider same_fold r.key_statuses) r.models in
    if is_empty tenant then (err tenant_required, r) else (
      ok tt,
      reset_provider_pagination (record r {
        models = models;
        key_statuses = select (λ s. elem (lower s.provider) providers) r.key_statuses;
      }),
    )
