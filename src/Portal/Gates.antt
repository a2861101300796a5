-- ===== src/Portal/Gates.antt =====
-- What a call that internal/portal lets through has shown.
use joysteed_maa_s.Base.{
  ℕ, ◌+◌, ◌<◌, true, false, some, Str, text, ==_iff, has_prefix, pos, ok, err, Faults, prefix_of,
  Option-cases, Bool-cases, ◌≡◌, refl, arith, ◌⊎◌, inl, inr, [], ◌∷◌, is_empty, ◌≢◌, trim_space,
}
use joysteed_maa_s.Rbac.{
  Principal, PrincipalType, platform_admin, tenant_user, other, Access, authorize,
}
use joysteed_maa_s.Rbac.Isolation.{verdict}
use joysteed_maa_s.Portal.{
  SessionClaims, new_session_claims, valid_claims, verify_csrf, admin_permission, portal_permission,
  route_permission, is_read, checked, authorize_route, route_denied,
}

trim-empty : (s : Str) → is_empty s ≡ true → is_empty (trim_space s) ≡ true
unfolding trim_space
trim-empty [] h = refl
trim-empty (c ∷ s) h = ground arith

-- The token of a new session passes the check against forged requests until the session ends, and a
-- token with another digest never does.
pub new_session_claims-csrf :
    (digest : Str → Str) (id : Str) (p : Principal) (lifetime : ℕ) (token other_token : Str)
    (now at : ℕ) (c : SessionClaims)
    → new_session_claims digest id p (pos lifetime) (some token) now ≡ ok (c, token)
    → is_empty token ≡ false
    → is_empty (digest token) ≡ false
    → at < now + lifetime
    → (valid_claims c at ≡ true)
      × (verify_csrf digest c token ≡ true)
      × (digest other_token ≢ digest token → verify_csrf digest c other_token ≡ false)
unfolding new_session_claims valid_claims verify_csrf
new_session_claims-csrf digest id p lifetime token other_token now at c h some_token some_digest
      alive =
    (
      ground (arith, trim-empty id),
      ground (arith, ==_iff (digest token) (digest token)),
      λ away. ground (arith, ==_iff (digest other_token) (digest token)),
    )

one_side :
    (path : Str)
    → has_prefix path (text "/api/admin/") ≡ true
    → has_prefix path (text "/api/portal/") ≡ false
one_side path h = elim (Bool-cases (has_prefix path (text "/api/portal/"))) [
  | inl k ↦
      let (r, e) = prefix_of path (text "/api/admin/") h in
      let (s, f) = prefix_of path (text "/api/portal/") k in absurd (ground arith)
  | inr k ↦ k
]

-- Whatever the tables hold: a tenant's user is denied every route of the administration, and an
-- administrator of the platform every route of the tenants' portal.
pub authorize_route-sides :
    (digest : Str → Str) (method path csrf : Str) (c : SessionClaims) (now : ℕ) (a : Access)
    (fs : Faults)
    → ((has_prefix path (text "/api/admin/") ≡ true)
        → c.principal.type ≡ tenant_user
        → authorize_route digest method path c csrf now a fs ≡ err route_denied)
      × ((has_prefix path (text "/api/portal/") ≡ true)
          → c.principal.type ≡ platform_admin
          → authorize_route digest method path c csrf now a fs ≡ err route_denied)
unfolding authorize_route
authorize_route-sides digest method path csrf c now a fs =
    (λ h k. ground (arith, one_side path), λ h k. ground (arith, one_side path))

checked_ok :
    (digest : Str → Str) (method csrf wanted : Str) (c : SessionClaims) (a : Access)
    → checked digest method c csrf wanted a [] ≡ ok tt
    → (is_empty wanted ≡ false)
      × (verdict (authorize c.principal wanted a []) ≡ ok tt)
      × (is_read method ≡ false → digest csrf ≡ c.csrf_token_hash)
unfolding checked
checked_ok digest method csrf wanted c a h =
    (ground arith, ground arith, λ writes. ground (arith, ==_iff (digest csrf) c.csrf_token_hash))

-- The two sides of the portals, each with the permission that its route asks for.
abbrev pub IsOwnSide : PrincipalType → Str → Str → Str → Type 0
IsOwnSide type method path wanted =
    ((type ≡ platform_admin)
      × (has_prefix path (text "/api/admin/") ≡ true)
      × (wanted ≡ admin_permission method path))
    ⊎ ((type ≡ tenant_user)
        × (has_prefix path (text "/api/portal/") ≡ true)
        × (wanted ≡ portal_permission method path))

own_side :
    (type : PrincipalType) (method path wanted : Str)
    → route_permission type method path ≡ some wanted
    → IsOwnSide type method path wanted
unfolding route_permission
own_side platform_admin method path wanted h = inl (ground arith)
own_side tenant_user method path wanted h = inr (ground arith)
own_side (other s) method path wanted h = absurd (ground arith)

-- Where no statement fails: a call that is let through comes with a session that is still alive; its
-- principal is an administrator of the platform on a route of the administration, or a tenant's user on
-- one of the tenants' portal, and holds the permission that this side asks for the route; if the call
-- is not a read, it carries a token with the session's digest.
pub authorize_route-allowed :
    (digest : Str → Str) (method path csrf : Str) (c : SessionClaims) (now : ℕ) (a : Access)
    → authorize_route digest method path c csrf now a [] ≡ ok tt
    → (now < c.expires_at)
      × ((wanted : Str) × IsOwnSide c.principal.type method path wanted
          × (is_empty wanted ≡ false)
          × (verdict (authorize c.principal wanted a []) ≡ ok tt))
      × (is_read method ≡ false → digest csrf ≡ c.csrf_token_hash)
unfolding authorize_route
authorize_route-allowed digest method path csrf c now a h =
    elim (Option-cases (route_permission c.principal.type method path)) [
      | inl e ↦ absurd (ground arith)
      | inr (wanted, e) ↦
          let (named, granted, guarded) = checked_ok digest method csrf wanted c a (ground arith) in
          (
            ground arith,
            (wanted, own_side c.principal.type method path wanted e, named, granted),
            guarded,
          )
    ]
