-- ===== src/Tenantauth/Passes.antt =====
-- plugins/tenantauth: the requests that pass.
use joysteed_maa_s.Base.{
  ℕ, true, false, [], none, some, Str, ◌==◌, is_empty, find, find-true, ok, ◌≡◌, ◌≢◌, refl, ap,
  arith,
}
use joysteed_maa_s.Registry.Store.{Tenant, can_serve_traffic, has_id}
use joysteed_maa_s.Tenantauth.{
  KeyIdentity, Tables, Library, find_key, owner_of, run_across_tenants, enable_platform_mode,
  current_or, resolve_virtual_key,
}
use joysteed_maa_s.Tenantauth.Lookup.{opens}
use joysteed_maa_s.Tenantauth.Plugin.{
  Context, Headers, non_data_plane_path, credential, set_resolved_tenant, resolve_and_bind,
  pre_hook,
}

module _ (k : Library) (value : Str) (now later : ℕ) (s : Tables) (r : KeyIdentity)
    (t : Tenant) where
  owner_passes :
      opens r.tenant_id now r ≡ true
      → r.tenant_id ≢ []
      → find (has_id r.tenant_id) s.tenants ≡ some t
      → can_serve_traffic t later ≡ true
      → owner_of now later r s [] ≡ ok (r.tenant_id, s, [])
  unfolding owner_of
  owner_passes opened named owned serves =
      let same = find-true (has_id r.tenant_id) s.tenants t owned in ground arith

  find_key_passes :
      find (λ q. q.value_hash == k.hash_sha256 value) s.keys ≡ some r
      → find_key k value now s [] ≡ ok (r, s, [])
  unfolding find_key
  find_key_passes found = ap (λ o. current_or k value now o s []) found

  resolve_passes :
      value ≢ []
      → find_key k value now s [] ≡ ok (r, s, [])
      → owner_of now later r s [] ≡ ok (r.tenant_id, s, [])
      → resolve_virtual_key k [] value now later s [] ≡ ok (r.tenant_id, s, [])
  unfolding resolve_virtual_key run_across_tenants enable_platform_mode
  resolve_passes written found passes = ground arith

  -- Where no statement fails, a data-plane request without a tenant passes, bound to the key's tenant,
  -- if the current digest of its credential is that of an active key of the tenant that is not at its
  -- end, and the tenant may be served: whatever retired keys had the same value.
  pub pre_hook-passes :
      (c : Context) (path : Str) (headers : Headers)
      → c.tenant ≡ []
      → non_data_plane_path path ≡ false
      → credential k headers ≡ some value
      → value ≢ []
      → find (λ q. q.value_hash == k.hash_sha256 value) s.keys ≡ some r
      → opens r.tenant_id now r ≡ true
      → r.tenant_id ≢ []
      → find (has_id r.tenant_id) s.tenants ≡ some t
      → can_serve_traffic t later ≡ true
      → pre_hook k now later c path headers s []
        ≡ (none, record { tenant = r.tenant_id; virtual_key = some value })
  unfolding pre_hook resolve_and_bind set_resolved_tenant
  pre_hook-passes c path headers free plane sent written found opened named owned serves =
      let known =
        resolve_passes written (find_key_passes found) (owner_passes opened named owned serves) in
      let filled : is_empty r.tenant_id ≡ false = ground arith in
      rw (plane, sent, free, known, filled) refl
