-- ===== src/Tenantauth/Admits.antt =====
-- internal/tenantauth and plugins/tenantauth: what a request that passes holds.
use joysteed_maa_s.Base.{
  ℕ, Bool, true, false, not, ◌&&◌, ◌||◌, List, [], ◌∷◌, Option, none, some, Str, ◌==◌, ==_iff,
  is_empty, any, find, Tx, Result, ok, err, Faults, ◌>>◌, pure, query_step, guard_step, bind_step,
  ◌≡◌, ◌≢◌, refl, sym, subst, arith,
}
use joysteed_maa_s.Registry.Store.{Tenant, can_serve_traffic, has_id}
use joysteed_maa_s.Tenantauth.{
  KeyIdentity, Tables, Error, mode_with_tenant, database, Library, find_key, is_inactive,
  is_expired, serving, owner_of, run_across_tenants, enable_platform_mode, resolve_virtual_key,
}
use joysteed_maa_s.Tenantauth.Plugin.{
  Context, Headers, non_data_plane_path, credential, set_resolved_tenant, answer, resolved,
  resolve_and_bind, pre_hook,
}
use joysteed_maa_s.Tenantauth.Lookup.{holds, opens, any_where, find_key_ok}

enable_platform_mode_ok :
    (s s' : Tables) (fs fs' : Faults) (x : Unit {0})
    → enable_platform_mode s fs ≡ ok (x, s', fs')
    → s' ≡ s
unfolding enable_platform_mode
enable_platform_mode_ok s s' [] fs' x h = ground arith
enable_platform_mode_ok s s' (true ∷ fs) fs' x h = absurd (ground arith)
enable_platform_mode_ok s s' (false ∷ []) fs' x h = ground arith
enable_platform_mode_ok s s' (false ∷ true ∷ fs) fs' x h = absurd (ground arith)
enable_platform_mode_ok s s' (false ∷ false ∷ fs) fs' x h = ground arith

run_across_tenants_ok :
    {A : Type 0} (tenant : Str) (m : Tx Error Tables A) (s : Tables) (fs : Faults)
    (out : A × Tables × Faults)
    → run_across_tenants tenant m s fs ≡ ok out
    → (is_empty tenant ≡ true) × (gs : Faults) × (m s gs ≡ ok out)
unfolding run_across_tenants
run_across_tenants_ok tenant m s fs out h =
    guard_step (not (is_empty tenant)) mode_with_tenant (enable_platform_mode >> m) s fs out h
      λ free h.
        bind_step enable_platform_mode (λ x. m) s fs out h
          λ x s' gs e h. (
            ground arith,
            gs,
            subst (λ t. m t gs ≡ ok out) (enable_platform_mode_ok s s' fs gs x e) h,
          )

-- The tenant of the id may be served.
abbrev pub serves : Str → ℕ → Tenant → Bool
serves id later t = t.id == id && can_serve_traffic t later

serving_ok :
    (o : Option Tenant) (tenant id : Str) (later : ℕ) (s s' : Tables) (fs fs' : Faults)
    → find (has_id tenant) s.tenants ≡ o
    → serving tenant later o s fs ≡ ok (id, s', fs')
    → (id ≡ tenant) × (any (serves tenant later) s.tenants ≡ true)
serving_ok none tenant id later s s' fs fs' e h = absurd (ground arith)
serving_ok (some t) tenant id later s s' fs fs' e h =
    guard_step (not (t.id == tenant) || not (can_serve_traffic t later)) Error.tenant_cannot_serve
      (pure tenant) s fs (id, s', fs') h
      λ fits h.
        (ground arith, any_where (has_id tenant) (serves tenant later) s.tenants t e (ground arith))

owner_of_ok :
    (now later : ℕ) (r : KeyIdentity) (s s' : Tables) (fs fs' : Faults) (id : Str)
    → owner_of now later r s fs ≡ ok (id, s', fs')
    → (opens id now r ≡ true) × (id ≢ []) × (any (serves id later) s.tenants ≡ true)
unfolding owner_of
owner_of_ok now later r s s' fs fs' id h =
    guard_step (is_empty r.id) Error.invalid_virtual_key _ s fs (id, s', fs') h
      λ a h.
        guard_step (is_inactive r.is_active) Error.invalid_virtual_key _ s fs (id, s', fs') h
          λ b h.
            guard_step (is_expired now r.expires_at) Error.invalid_virtual_key _ s fs (id, s', fs')
              h
              λ c h.
                guard_step (is_empty r.tenant_id) Error.unattributed_key _ s fs (id, s', fs') h
                  λ d h.
                    query_step database (λ s. find (has_id r.tenant_id) s.tenants)
                      (serving r.tenant_id later) s fs (id, s', fs') h
                      λ gs h.
                        let (e, served) = serving_ok _ r.tenant_id id later s s' gs fs' refl h in
                        rw e (ground (arith, ==_iff r.tenant_id r.tenant_id), ground arith, served)

is_empty_nil : (s : Str) → is_empty s ≡ true → s ≡ []
is_empty_nil [] h = refl
is_empty_nil (c ∷ s) h = absurd (ground arith)

-- What a credential that resolves to a tenant says of the tables.
abbrev pub IsAuthentic : Library → Str → ℕ → ℕ → Tables → Str → Type 0
IsAuthentic k value now later s id =
    (id ≢ [])
    × (any (λ r. holds k value now r && opens id now r) s.keys ≡ true)
    × (any (serves id later) s.tenants ≡ true)

module _ (k : Library)
    (orders : (p : KeyIdentity → Bool) (xs : List KeyIdentity)
      → any p (k.by_expiry xs) ≡ true
      → any p xs ≡ true) where
  resolve_virtual_key_ok :
      (tenant value : Str) (now later : ℕ) (s s' : Tables) (fs fs' : Faults) (id : Str)
      → resolve_virtual_key k tenant value now later s fs ≡ ok (id, s', fs')
      → (is_empty tenant ≡ true) × IsAuthentic k value now later s id
  unfolding resolve_virtual_key
  resolve_virtual_key_ok tenant value now later s s' fs fs' id h =
      guard_step (is_empty value) Error.invalid_virtual_key _ s fs (id, s', fs') h
        λ named h.
          bind_step (run_across_tenants tenant (find_key k value now)) (owner_of now later) s fs
            (id, s', fs') h
            λ r t gs e h.
              let (free, hs, found) =
                run_across_tenants_ok tenant (find_key k value now) s fs _ e in
              let (same, (held, stored)) = find_key_ok k value now orders s t hs gs r found in
              let (opened, id_named, served) = owner_of_ok now later r t s' gs fs' id h in
              let served = subst (λ t. any (serves id later) t.tenants ≡ true) same served in
              let held =
                stored (λ r. holds k value now r && opens id now r) (rw (held, opened) refl) in
              (free, (id_named, held, served))

  answer_admits :
      (value : Str) (c c' : Context) (now later : ℕ) (s : Tables) (fs : Faults)
      (o : Result Error (Str × Tables × Faults))
      → resolve_virtual_key k c.tenant value now later s fs ≡ o
      → answer k value c o ≡ (none, c')
      → (c.tenant ≡ []) × (c'.virtual_key ≡ some value) × IsAuthentic k value now later s c'.tenant
  unfolding set_resolved_tenant
  answer_admits value c c' now later s fs (err Error.invalid_virtual_key) e h =
      absurd (ground arith)
  answer_admits value c c' now later s fs (err Error.unattributed_key) e h = absurd (ground arith)
  answer_admits value c c' now later s fs (err Error.tenant_cannot_serve) e h =
      absurd (ground arith)
  answer_admits value c c' now later s fs (err mode_with_tenant) e h = absurd (ground arith)
  answer_admits value c c' now later s fs (err database) e h = absurd (ground arith)
  answer_admits value c c' now later s fs (ok (id, s', fs')) e h =
      let (free, known) = resolve_virtual_key_ok c.tenant value now later s s' fs fs' id e in
      let named = known.0 in
      let same : c'.tenant ≡ id = ground arith in
      (
        is_empty_nil c.tenant free,
        ground arith,
        subst (IsAuthentic k value now later s) (sym same) known,
      )

  credential_admits :
      (o : Option Str) (c c' : Context) (now later : ℕ) (s : Tables) (fs : Faults)
      → resolved k now later c o s fs ≡ (none, c')
      → (c.tenant ≡ [])
        × (value : Str) × (o ≡ some value)
        × (c'.virtual_key ≡ some value)
        × IsAuthentic k value now later s c'.tenant
  credential_admits none c c' now later s fs h = absurd (ground arith)
  credential_admits (some value) c c' now later s fs h =
      let (free, key, known) = answer_admits value c c' now later s fs _ refl h in
      (free, value, refl, key, known)

  -- Where ORDER BY makes up no row: a data-plane request that passes came with one credential and
  -- without a tenant, and is bound to the tenant of a stored key that this credential opens, active,
  -- not at its end and by its current value, its retired one before that one's end, or as written; that
  -- tenant may be served.
  pub pre_hook-admits :
      (now later : ℕ) (c c' : Context) (path : Str) (headers : Headers) (s : Tables) (fs : Faults)
      → non_data_plane_path path ≡ false
      → pre_hook k now later c path headers s fs ≡ (none, c')
      → (c.tenant ≡ [])
        × (value : Str) × (credential k headers ≡ some value)
        × (c'.virtual_key ≡ some value)
        × IsAuthentic k value now later s c'.tenant
  unfolding pre_hook resolve_and_bind
  pre_hook-admits now later c c' path headers s fs plane h =
      credential_admits (credential k headers) c c' now later s fs (ground arith)
