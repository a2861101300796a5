-- ===== src/Tenantauth/Plugin.antt =====
-- plugins/tenantauth/plugin.go and internal/tenant/context.go: the hooks that bind a request to its
-- tenant. Of a context stand the tenant, which is empty where there is none, and the credential that
-- governance reads. The headers are a Go map, as the list of its entries in any order.
use joysteed_maa_s.Base.{
  ℕ, Bool, not, ◌&&◌, ◌||◌, List, [], ◌∷◌, Option, none, some, Str, text, ◌==◌, is_empty,
  has_prefix, Result, ok, err, Faults, if◌then◌else◌,
}
use joysteed_maa_s.Tenantauth.{
  Library, Tables, Error, invalid_virtual_key, unattributed_key, tenant_cannot_serve,
  mode_with_tenant, database, resolve_virtual_key,
}

pub record Context : Type 0 where
  pub tenant : Str
  pub virtual_key : Option Str

pub data TenantError : Type 0 where
  missing_tenant tenant_conflict : TenantError

unfoldable pub set_resolved_tenant : Str → Context → Result TenantError Context
set_resolved_tenant id c =
    if is_empty id
    then err missing_tenant
    else (if not (is_empty c.tenant) && not (c.tenant == id)
        then err tenant_conflict
        else ok (record c { tenant = id }))

abbrev pub Headers : Type 0
Headers = List (Str × Str)

pub record Response : Type 0 where
  pub status_code : ℕ
  pub code : Str

abbrev pub denied : ℕ → Str → Response
denied status code = record { status_code = status; code = code }

unfoldable pub non_data_plane_path : Str → Bool
non_data_plane_path path =
    has_prefix path (text "/api/")
    || (path == text "/api")
    || has_prefix path (text "/oauth2/")
    || (path == text "/oauth2")
    || (path == text "/health")
    || (path == text "/ready")
    || (path == text "/metrics")
    || (path == text "/")

module _ (k : Library) where
  abbrev pub differs : Option Str → Str → Bool
  differs none value = Bool.false
  differs (some seen) value = not (seen == value)

  -- The one value of a header in whatever case; `none` where two of its spellings disagree.
  unfoldable pub header_value : Str → Option Str → Headers → Option (Option Str)
  header_value header seen [] = some seen
  header_value header seen ((name, value) ∷ rest) =
      let same = header_value header (some value) rest in
      let other = header_value header seen rest in
      if k.equal_fold name header then (if differs seen value then none else same) else other

  abbrev put : Str → Option Str → Headers → Headers
  put header none set = set
  put header (some value) set = (header, value) ∷ set

  abbrev pub collected : Str → Option (Option Str) → Option Headers → Option Headers
  collected header none rest = none
  collected header (some seen) none = none
  collected header (some seen) (some set) = some (put header seen set)

  unfoldable pub collect : List Str → Headers → Option Headers
  unfolding header_value
  collect [] headers = some []
  collect (header ∷ names) headers =
      collected header (header_value header none headers) (collect names headers)

  abbrev parsed : Option Headers → Option Str
  parsed none = none
  parsed (some set) = k.parse_virtual_key set

  abbrev pub credential_headers : List Str
  credential_headers =
      text "x-bf-vk"
      ∷ text "authorization"
      ∷ text "x-api-key"
      ∷ text "x-goog-api-key"
      ∷ text "api-key"
      ∷ []

  unfoldable pub credential : Headers → Option Str
  unfolding collect
  credential headers = parsed (collect credential_headers headers)

  abbrev pub bound : Str → Context → Result TenantError Context → Option Response × Context
  bound value c (err e) = (some (denied 403 (text "tenant_identity_conflict")), c)
  bound value c (ok c') = (none, record c' { virtual_key = some value })

  abbrev pub answer :
      Str → Context → Result Error (Str × Tables × Faults) → Option Response × Context
  answer value c (ok (id, s, fs)) = bound value c (set_resolved_tenant id c)
  answer value c (err invalid_virtual_key) = (some (denied 401 (text "invalid_virtual_key")), c)
  answer value c (err tenant_cannot_serve) = (some (denied 403 (text "tenant_unavailable")), c)
  answer value c (err unattributed_key) = (some (denied 403 (text "tenant_unavailable")), c)
  answer value c (err mode_with_tenant) = (some (denied 503 (text "authentication_unavailable")), c)
  answer value c (err database) = (some (denied 503 (text "authentication_unavailable")), c)

  abbrev pub resolved : ℕ → ℕ → Context → Option Str → Tables → Faults → Option Response × Context
  resolved now later c none s fs = (some (denied 401 (text "invalid_virtual_key")), c)
  resolved now later c (some value) s fs =
      answer value c (resolve_virtual_key k c.tenant value now later s fs)

  unfoldable pub resolve_and_bind :
      ℕ → ℕ → Context → Headers → Tables → Faults → Option Response × Context
  unfolding credential set_resolved_tenant resolve_virtual_key
  resolve_and_bind now later c headers s fs = resolved now later c (credential headers) s fs

  -- HTTPTransportPreAuthHook and HTTPTransportPreHook, which have one body.
  unfoldable pub pre_hook :
      ℕ → ℕ → Context → Str → Headers → Tables → Faults → Option Response × Context
  unfolding resolve_and_bind non_data_plane_path
  pre_hook now later c path headers s fs =
      if non_data_plane_path path then (none, c) else resolve_and_bind now later c headers s fs
