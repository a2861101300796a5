-- ===== src/Tenantauth.antt =====
-- internal/tenantauth/resolver.go, and internal/tenant/binding.go (RunAcrossTenants): whose key a
-- credential is. The configuration database is Postgres. A column that is NULL is the empty text, which
-- is no digest; a setting that does not land is a failure of the statement that reads it back.
use joysteed_maa_s.Base.{
  ℕ, Bool, true, false, not, ◌||◌, List, Option, none, some, Str, ◌==◌, is_empty, find, select, ltb,
  Tx, query, exec, ◌>>=◌, ◌>>◌, pure, throw, if◌then◌else◌,
}
use joysteed_maa_s.Registry.Store.{Tenant, Tenants, before, can_serve_traffic, has_id}
pub mod Plugin
pub mod Lookup
pub mod Admits
pub mod Bound
pub mod Passes
pub mod Headers
mod Examples

-- The row of governance_virtual_keys, and the columns by which it is looked up.
pub record KeyIdentity : Type 0 where
  pub id : Str
  pub tenant_id : Str
  pub is_active : Option Bool
  pub expires_at : Option ℕ
  pub previous_value_expires_at : Option ℕ
  pub value : Str
  pub value_hash : Str
  pub previous_value_hash : Str

pub record Tables : Type 0 where
  pub keys : List KeyIdentity
  pub tenants : Tenants

pub data Error : Type 0 where
  invalid_virtual_key unattributed_key tenant_cannot_serve : Error
  mode_with_tenant database : Error

-- What the gateway's packages answer; `by_expiry` is ORDER BY previous_value_expires_at DESC.
pub record Library : Type 0 where
  pub hash_sha256 : Str → Str
  pub is_secret_ref : Str → Bool
  pub by_expiry : List KeyIdentity → List KeyIdentity
  pub equal_fold : Str → Str → Bool
  pub parse_virtual_key : List (Str × Str) → Option Str

unfoldable pub enable_platform_mode : Tx Error Tables (Unit {0})
enable_platform_mode = exec database (λ s. s) >> exec database (λ s. s)

-- `bound` is the tenant of the caller's context.
unfoldable pub run_across_tenants : {A : Type 0} → Str → Tx Error Tables A → Tx Error Tables A
run_across_tenants bound m =
    if not (is_empty bound) then throw mode_with_tenant else (enable_platform_mode >> m)

abbrev pub found_key : Option KeyIdentity → Tx Error Tables KeyIdentity
found_key none = throw invalid_virtual_key
found_key (some key) = pure key

unfoldable pub by_value : Library → Str → Tx Error Tables KeyIdentity
by_value k value =
    if k.is_secret_ref value
    then throw invalid_virtual_key
    else (query database (λ s. find (λ r. r.value == value) s.keys) >>= found_key)

-- A retired value is good until its end, and not at it.
abbrev pub retired_or : Library → Str → ℕ → Option KeyIdentity → Tx Error Tables KeyIdentity
retired_or k value now none = by_value k value
retired_or k value now (some key) =
    if before now key.previous_value_expires_at then pure key else by_value k value

abbrev pub current_or : Library → Str → ℕ → Option KeyIdentity → Tx Error Tables KeyIdentity
current_or k value now (some key) = pure key
current_or k value now none =
    query database (λ s.
      find (λ r. true)
        (k.by_expiry (select (λ r. r.previous_value_hash == k.hash_sha256 value) s.keys)))
    >>= retired_or k value now

unfoldable pub find_key : Library → Str → ℕ → Tx Error Tables KeyIdentity
find_key k value now =
    query database (λ s. find (λ r. r.value_hash == k.hash_sha256 value) s.keys)
    >>= current_or k value now

abbrev pub is_inactive : Option Bool → Bool
is_inactive none = false
is_inactive (some active) = not active

abbrev pub is_expired : ℕ → Option ℕ → Bool
is_expired now none = false
is_expired now (some end) = not (ltb now end)

abbrev pub serving : Str → ℕ → Option Tenant → Tx Error Tables Str
serving id later none = throw tenant_cannot_serve
serving id later (some owner) =
    if not (owner.id == id) || not (can_serve_traffic owner later)
    then throw tenant_cannot_serve
    else pure id

unfoldable pub owner_of : ℕ → ℕ → KeyIdentity → Tx Error Tables Str
owner_of now later key =
    if is_empty key.id
    then throw invalid_virtual_key
    else (if is_inactive key.is_active
        then throw invalid_virtual_key
        else (if is_expired now key.expires_at
            then throw invalid_virtual_key
            else (if is_empty key.tenant_id
                then throw unattributed_key
                else (query database (λ s. find (has_id key.tenant_id) s.tenants)
                    >>= serving key.tenant_id later))))

unfoldable pub resolve_virtual_key : Library → Str → Str → ℕ → ℕ → Tx Error Tables Str
resolve_virtual_key k bound value now later =
    if is_empty value
    then throw invalid_virtual_key
    else (run_across_tenants bound (find_key k value now) >>= owner_of now later)
