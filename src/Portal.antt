-- ===== src/Portal.antt =====
-- internal/rbac/session.go (the claims of a session) and internal/portal/routes.go (which call a
-- session may make). `digest` is the text of a token's SHA-256.
pub mod Gates
mod Examples
use joysteed_maa_s.Base.{
  ℕ, ◌+◌, Bool, true, false, not, ◌&&◌, ◌||◌, Option, some, none, Str, text, ◌==◌, trim_space,
  is_empty, has_prefix, has_suffix, contains, leb, ltb, eqb, ℤ, pos, negsuc, Result, ok, err,
  Faults, if◌then◌else◌,
}
use joysteed_maa_s.Rbac.{
  Principal, PrincipalType, platform_admin, tenant_user, same_type, valid_principal, Access, Error,
  invalid_principal, forbidden, with_principal, require_permission,
}

pub record SessionClaims : Type 0 where
  pub session_id : Str
  pub principal : Principal
  pub csrf_token_hash : Str
  pub expires_at : ℕ

pub data ClaimsError : Type 0 where
  refused_principal lifetime_required no_entropy : ClaimsError

abbrev bad_lifetime : ℤ → Bool
bad_lifetime (pos n) = eqb n 0
bad_lifetime (negsuc _) = true

abbrev span : ℤ → ℕ
span (pos n) = n
span (negsuc _) = 0

-- `token` is what the source of randomness gives, if it answers.
unfoldable pub new_session_claims :
    (Str → Str) → Str → Principal → ℤ → Option Str → ℕ → Result ClaimsError (SessionClaims × Str)
unfolding valid_principal
new_session_claims digest id p lifetime token now =
    if is_empty (trim_space id) || not (valid_principal p)
    then err refused_principal
    else (if bad_lifetime lifetime then err lifetime_required else (elim token [
      | none ↦ err no_entropy
      | some t ↦ ok (
        record {
          session_id = id;
          principal = p;
          csrf_token_hash = digest t;
          expires_at = now + span lifetime;
        },
        t,
      )
    ]))

unfoldable pub valid_claims : SessionClaims → ℕ → Bool
unfolding valid_principal
valid_claims c now =
    not (is_empty c.session_id) && (valid_principal c.principal && ltb now c.expires_at)

unfoldable pub verify_csrf : (Str → Str) → SessionClaims → Str → Bool
verify_csrf digest c token =
    if is_empty token || is_empty c.csrf_token_hash
    then false
    else digest token == c.csrf_token_hash

-- `""` where no permission opens the route.
unfoldable pub admin_permission : Str → Str → Str
admin_permission method path =
    if contains path (text "/audit")
    then (if method == text "GET" then text "audit.read" else text "audit.export")
    else (if contains path (text "/tenants")
        then (if method == text "GET" then text "tenant.read" else text "tenant.manage")
        else (if contains path (text "/billing")
            then (if method == text "GET" then text "billing.read" else text "billing.manage")
            else (if contains path (text "/policy") then text "policy.manage" else text "")))

unfoldable pub portal_permission : Str → Str → Str
portal_permission method path =
    if contains path (text "/request-logs")
      || (contains path (text "/usage/") && has_suffix path (text "/detail"))
    then (if method == text "GET" then text "request_log.read" else text "")
    else (if contains path (text "/audit")
        then text "audit.read"
        else (if contains path (text "/usage") || contains path (text "/billing")
            then (if method == text "GET" then text "billing.read" else text "billing.manage")
            else (if contains path (text "/budget") || contains path (text "/rate-limit")
                then text "budget.manage"
                else (if contains path (text "/members")
                    then text "member.manage"
                    else (if contains path (text "/keys") then text "key.manage" else text "")))))

pub data RouteError : Type 0 where
  route_denied : RouteError
  refused : Error → RouteError

-- The permission of a route for a type of principal; `none` where the route is not its own.
unfoldable pub route_permission : PrincipalType → Str → Str → Option Str
route_permission type method path =
    if has_prefix path (text "/api/admin/") && same_type type platform_admin
    then some (admin_permission method path)
    else (if has_prefix path (text "/api/portal/") && same_type type tenant_user
        then some (portal_permission method path)
        else none)

abbrev pub is_read : Str → Bool
is_read method = method == text "GET" || (method == text "HEAD" || method == text "OPTIONS")

unfoldable pub checked :
    (Str → Str) → Str → SessionClaims → Str → Str → Access → Faults → Result RouteError (Unit {0})
unfolding with_principal require_permission verify_csrf
checked digest method c csrf permission a fs =
    if is_empty permission then err route_denied else (elim (with_principal c.principal) [
      | err _ ↦ err route_denied
      | ok context ↦ elim (require_permission context permission a fs) [
        | err e ↦ err (refused e)
        | ok _ ↦
            if not (is_read method) && not (verify_csrf digest c csrf)
            then err (refused forbidden)
            else ok tt
      ]
    ])

abbrev check_route :
    (Str → Str)
    → Str
    → SessionClaims
    → Str
    → Option Str
    → Access
    → Faults
    → Result RouteError (Unit {0})
check_route digest method c csrf none a fs = err route_denied
check_route digest method c csrf (some permission) a fs =
    checked digest method c csrf permission a fs

unfoldable pub authorize_route :
    (Str → Str)
    → Str
    → Str
    → SessionClaims
    → Str
    → ℕ
    → Access
    → Faults
    → Result RouteError (Unit {0})
unfolding valid_claims route_permission
authorize_route digest method path c csrf now a fs =
    if not (valid_claims c now) || is_empty (trim_space path)
    then err route_denied
    else check_route digest method c csrf (route_permission c.principal.type method path) a fs
