-- ===== src/Tenantauth/Bound.antt =====
-- plugins/tenantauth: a context keeps the tenant that it has.
use joysteed_maa_s.Base.{
  ℕ, true, false, [], ◌∷◌, Option, none, some, Str, text, is_empty, Faults, ◌≡◌, ◌≢◌, ◌⊎◌, inl, inr,
  refl, arith, Bool-cases,
}
use joysteed_maa_s.Tenantauth.{Tables, Library, run_across_tenants, resolve_virtual_key}
use joysteed_maa_s.Tenantauth.Plugin.{
  Context, Headers, Response, denied, non_data_plane_path, credential, resolved, resolve_and_bind,
  pre_hook,
}

-- The two answers to a request whose context has a tenant already.
abbrev pub IsDenied : Option Response → Type 0
IsDenied o =
    (o ≡ some (denied 401 (text "invalid_virtual_key")))
    ⊎ (o ≡ some (denied 503 (text "authentication_unavailable")))

module _ (k : Library) where
  resolved_bound :
      (o : Option Str) (now later : ℕ) (c : Context) (s : Tables) (fs : Faults)
      → c.tenant ≢ []
      → IsDenied (resolved k now later c o s fs).0 × ((resolved k now later c o s fs).1 ≡ c)
  resolved_bound none now later c s fs h = (inl refl, refl)
  resolved_bound (some []) now later c s fs h = unfold resolve_virtual_key in (inl refl, refl)
  resolved_bound (some (x ∷ value)) now later c s fs h =
      let held : is_empty c.tenant ≡ false = ground arith in
      unfold resolve_virtual_key run_across_tenants in rw held (inr refl, refl)

  -- Once a context has a tenant, no later call of a hook on it changes the context, and each call on
  -- the data plane is denied, as without a key or as if the database were away.
  pub pre_hook-bound :
      (now later : ℕ) (c : Context) (path : Str) (headers : Headers) (s : Tables) (fs : Faults)
      → c.tenant ≢ []
      → ((non_data_plane_path path ≡ true) ⊎ IsDenied (pre_hook k now later c path headers s fs).0)
        × ((pre_hook k now later c path headers s fs).1 ≡ c)
  unfolding pre_hook resolve_and_bind
  pre_hook-bound now later c path headers s fs h = elim (Bool-cases (non_data_plane_path path)) [
    | inl y ↦ rw y (inl refl, refl)
    | inr n ↦
        let (refused, same) = resolved_bound (credential k headers) now later c s fs h in
        rw n (inr refused, same)
  ]
