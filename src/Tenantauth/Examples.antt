-- ===== src/Tenantauth/Examples.antt =====
-- The theorems on internal/tenantauth and its plugin at one request with a key of a trial tenant.
use native.Mathlib.Decide.{ℕ_discrete}
use mathlib.Core.List.Perm as Perm
use joysteed_maa_s.Base.{
  true, false, [], ◌∷◌, Option, none, some, Str, text, ◌==◌, find, has_prefix, ◌≡◌, ◌⊎◌, refl,
  arith, str_discrete,
}
use joysteed_maa_s.Registry.Status.{Status-discrete, trial, valid, serves_traffic}
use joysteed_maa_s.Registry.Store.{Tenant, can_serve_traffic, has_id}
use joysteed_maa_s.Tenantauth.{KeyIdentity, Tables, Library}
use joysteed_maa_s.Tenantauth.Plugin.{
  Context, Headers, non_data_plane_path, header_value, collect, credential, pre_hook,
}
use joysteed_maa_s.Tenantauth.Admits.{IsAuthentic, pre_hook-admits}
use joysteed_maa_s.Tenantauth.Bound.{IsDenied, pre_hook-bound}
use joysteed_maa_s.Tenantauth.Headers.{credential-perm}
use joysteed_maa_s.Tenantauth.Passes.{pre_hook-passes}

abbrev sent_key : Headers → Option Str
sent_key [] = none
sent_key ((name, value) ∷ rest) = some value

abbrev library : Library
library = record {
  hash_sha256 = λ v. 35 ∷ v;
  is_secret_ref = λ v. false;
  by_expiry = λ xs. xs;
  equal_fold = λ a b. a == b;
  parse_virtual_key = sent_key;
}

abbrev key_row : KeyIdentity
key_row = record {
  id = text "k1";
  tenant_id = text "t1";
  is_active = some true;
  expires_at = some 90;
  previous_value_expires_at = none;
  value = [];
  value_hash = text "#sk-1";
  previous_value_hash = [];
}

abbrev owner : Tenant
owner = record {
  id = text "t1";
  slug = text "acme";
  name = text "Acme";
  status = trial;
  trial_ends_at = some 80;
  status_changed_at = 1;
  created_at = 1;
  updated_at = 1;
}

abbrev tables : Tables
tables = record { keys = key_row ∷ []; tenants = owner ∷ [] }

abbrev path : Str
path = text "/v1/chat/completions"

abbrev headers : Headers
headers = (text "x-bf-vk", text "sk-1") ∷ (text "accept", text "all") ∷ []

abbrev unbound : Context
unbound = record { tenant = []; virtual_key = none }

abbrev bound_context : Context
bound_context = record { tenant = text "t1"; virtual_key = some (text "sk-1") }

path_data_plane : non_data_plane_path path ≡ false
unfolding non_data_plane_path has_prefix str_discrete ℕ_discrete
path_data_plane = refl

headers-credential : credential library headers ≡ some (text "sk-1")
unfolding credential collect header_value str_discrete ℕ_discrete
headers-credential = refl

key_row-found : find (λ q. q.value_hash == text "#sk-1") tables.keys ≡ some key_row
unfolding str_discrete ℕ_discrete
key_row-found = refl

owner-found : find (has_id (text "t1")) tables.tenants ≡ some owner
unfolding str_discrete ℕ_discrete
owner-found = refl

owner-serves : can_serve_traffic owner 21 ≡ true
unfolding can_serve_traffic serves_traffic valid Status-discrete
owner-serves = refl

pre_hook-passes_example :
    pre_hook library 20 21 unbound path headers tables [] ≡ (none, bound_context)
pre_hook-passes_example =
    pre_hook-passes library (text "sk-1") 20 21 tables key_row owner unbound path headers refl
      path_data_plane headers-credential (λ e. ground arith) key_row-found
      (unfold str_discrete ℕ_discrete in refl) (λ e. ground arith) owner-found owner-serves

pre_hook-admits_example :
    (unbound.tenant ≡ [])
    × (value : Str) × (credential library headers ≡ some value)
    × (bound_context.virtual_key ≡ some value)
    × IsAuthentic library value 20 21 tables (text "t1")
pre_hook-admits_example =
    pre_hook-admits library (λ p xs h. h) 20 21 unbound bound_context path headers tables []
      path_data_plane pre_hook-passes_example

pre_hook-bound_example :
    ((non_data_plane_path path ≡ true)
      ⊎ IsDenied (pre_hook library 20 21 bound_context path headers tables (true ∷ [])).0)
    × ((pre_hook library 20 21 bound_context path headers tables (true ∷ [])).1 ≡ bound_context)
pre_hook-bound_example =
    pre_hook-bound library 20 21 bound_context path headers tables (true ∷ []) (λ e. ground arith)

credential-perm_example :
    credential library headers
    ≡ credential library ((text "accept", text "all") ∷ (text "x-bf-vk", text "sk-1") ∷ [])
credential-perm_example =
    credential-perm library headers
      ((text "accept", text "all") ∷ (text "x-bf-vk", text "sk-1") ∷ []) (Perm.swap _ _ _)
