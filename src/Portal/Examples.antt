-- ===== src/Portal/Examples.antt =====
-- The gates of internal/portal for one session.
use native.Mathlib.Decide.{ℕ_discrete}
use joysteed_maa_s.Base.{
  ◌<◌, false, [], ◌∷◌, some, Str, text, has_prefix, ◌≡◌, refl, ok, str_discrete, trim_space,
  contains, has_suffix, is_empty,
}
use joysteed_maa_s.Rbac.{Access, Principal, tenant_user, authorize, permission_matches}
use joysteed_maa_s.Rbac.Isolation.{verdict}
use joysteed_maa_s.Portal.{SessionClaims, portal_permission, is_read, checked, authorize_route}
use joysteed_maa_s.Portal.Gates.{IsOwnSide, authorize_route-allowed}

abbrev user : Principal
user = record { type = tenant_user; id = text "u1"; tenant_id = text "t1" }

abbrev session : SessionClaims
session = record {
  session_id = text "s1";
  principal = user;
  csrf_token_hash = text "tok";
  expires_at = 15;
}

abbrev access : Access
access = record {
  roles =
      record {
        id = text "r1";
        tenant_id = some (text "t1");
        name = text "Viewer";
        description = [];
        created_at = 1;
        updated_at = 1;
      }
      ∷ [];
  role_permissions = record { role_id = text "r1"; permission = text "key.manage" } ∷ [];
  bindings =
      record {
        role_id = text "r1";
        principal_type = tenant_user;
        principal_id = text "u1";
        tenant_id = some (text "t1");
        created_at = 5;
      }
      ∷ [];
}

authorize_route-allowed_example :
    (14 < session.expires_at)
    × ((wanted : Str) × IsOwnSide session.principal.type
          (text "POST")
          (text "/api/portal/keys")
          wanted
        × (is_empty wanted ≡ false)
        × (verdict (authorize session.principal wanted access []) ≡ ok tt))
    × (is_read (text "POST") ≡ false → text "tok" ≡ session.csrf_token_hash)
authorize_route-allowed_example =
    authorize_route-allowed (λ s. s) (text "POST") (text "/api/portal/keys") (text "tok") session 14
      access
      (unfold authorize_route checked authorize trim_space str_discrete ℕ_discrete contains
          has_suffix has_prefix permission_matches portal_permission in
        refl)
