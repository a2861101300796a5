-- ===== src/Rbac/Examples.antt =====
-- The theorems on internal/rbac at one tenant's roles.
use native.Mathlib.Decide.{ℕ_discrete}
use joysteed_maa_s.Base.{
  ℕ, true, List, [], ◌∷◌, some, text, ◌≡◌, refl, Faults, ok, str_discrete, trim_space, has_suffix,
}
use joysteed_maa_s.Rbac.{
  Access, Role, Principal, tenant_user, permission_matches, authorize, bind_role, grant_permission,
}
use joysteed_maa_s.Rbac.Isolation.{side, verdict, authorize_isolated}
use joysteed_maa_s.Rbac.Scope.{
  IsScoped, Call, creates, permits, binds_to, unbinds_from, run, run-IsScoped,
}
use joysteed_maa_s.Rbac.Effect.{authorize-granted}

abbrev viewer : Role
viewer = record {
  id = text "r1";
  tenant_id = some (text "t1");
  name = text "Viewer";
  description = [];
  created_at = 1;
  updated_at = 1;
}

abbrev user : Principal
user = record { type = tenant_user; id = text "u1"; tenant_id = text "t1" }

abbrev start : Access
start = record { roles = viewer ∷ []; role_permissions = []; bindings = [] }

abbrev bound : Access
bound = record start {
  bindings =
      record {
        role_id = text "r1";
        principal_type = tenant_user;
        principal_id = text "u1";
        tenant_id = some (text "t1");
        created_at = 5;
      }
      ∷ [];
}

abbrev granted : Access
granted = record bound {
  role_permissions = record { role_id = text "r1"; permission = text "tenant.*" } ∷ [];
}

abbrev unbound : Access
unbound = record granted { bindings = [] }

authorize_isolated_example :
    verdict (authorize user (text "tenant.read") (side (text "t1") granted) [])
    ≡ verdict (authorize user (text "tenant.read") granted [])
authorize_isolated_example =
    authorize_isolated (text "u1") (text "t1") (text "tenant.read") granted []

abbrev calls : List (ℕ × Faults × Call)
calls =
    (5, [], binds_to (text "r1") user)
    ∷ (6, true ∷ [], permits (text "r1") (text "tenant.*"))
    ∷ (7, [], unbinds_from (text "r1") user)
    ∷ (8, [], creates (record viewer { id = text "r2" }) (text "key.manage" ∷ []))
    ∷ []

run-IsScoped_example : IsScoped (run start calls)
run-IsScoped_example = run-IsScoped start calls tt

authorize-granted_example : authorize user (text "tenant.read") granted [] ≡ ok (tt, granted, [])
authorize-granted_example =
    authorize-granted (text "r1") (text "tenant.*") (text "tenant.read") user 5 start bound granted
      tt (unfold bind_role trim_space str_discrete ℕ_discrete in refl)
      (unfold grant_permission trim_space str_discrete ℕ_discrete in refl)
      (unfold permission_matches has_suffix str_discrete ℕ_discrete in refl)
