-- ===== src/Member/Seed.antt =====
-- internal/member/member.go: EnsureTenantRolesTx and EnsureTenantRoles, which write the four roles of a tenant.
use joysteed_maa_s.Base.{
  ℕ, not, List, [], ◌∷◌, some, Str, text, ◌==◌, is_empty, any, select, update_where, Result, err,
  Tx, Faults, exec, ◌>>◌, pure, throw, transaction, if◌then◌else◌,
}
use joysteed_maa_s.Rbac.{Role, has_role_id, grants}
use joysteed_maa_s.Member.Roles.{RoleName, owner, admin, developer, viewer, role_text, role_id}
use joysteed_maa_s.Member.{Error, invalid_member, database, Tables}

abbrev pub definitions : List (RoleName × Str × List Str)
definitions =
    (
      owner,
      text "Tenant owner",
      text "tenant.read"
          ∷ text "tenant.manage"
          ∷ text "member.manage"
          ∷ text "key.manage"
          ∷ text "key.reveal"
          ∷ text "budget.manage"
          ∷ text "billing.read"
          ∷ text "request_log.read"
          ∷ text "audit.read"
          ∷ text "audit.export"
          ∷ [],
    )
    ∷ (
      admin,
      text "Tenant administrator",
      text "tenant.read"
          ∷ text "member.manage"
          ∷ text "key.manage"
          ∷ text "budget.manage"
          ∷ text "billing.read"
          ∷ text "request_log.read"
          ∷ text "audit.read"
          ∷ [],
    )
    ∷ (
      developer,
      text "Tenant developer",
      text "tenant.read"
          ∷ text "key.manage"
          ∷ text "billing.read"
          ∷ text "request_log.read"
          ∷ text "audit.read"
          ∷ [],
    )
    ∷ (
      viewer,
      text "Tenant viewer",
      text "tenant.read" ∷ text "billing.read" ∷ text "audit.read" ∷ [],
    )
    ∷ []

-- The insert of a role, which on a conflict of ids writes over the row's tenant and texts.
abbrev pub upsert_role : Role → List Role → List Role
upsert_role r roles =
    if any (has_role_id r.id) roles
    then update_where (has_role_id r.id)
        (λ q. record q {
          tenant_id = r.tenant_id;
          name = r.name;
          description = r.description;
          updated_at = r.updated_at;
        })
        roles
    else r ∷ roles

abbrev pub add_permission : Str → Str → Tx Error Tables (Unit {0})
add_permission role permission s fs =
    if any (grants role permission) s.access.role_permissions
    then err database
    else exec database
        (λ s. record s {
          access = record s.access {
            role_permissions =
                record { role_id = role; permission = permission } ∷ s.access.role_permissions;
          };
        })
        s fs

unfoldable pub add_permissions : Str → List Str → Tx Error Tables (Unit {0})
add_permissions role [] = pure tt
add_permissions role (p ∷ ps) = do add_permission role p; add_permissions role ps

abbrev pub write_role : Str → RoleName → Str → ℕ → Tables → Tables
write_role tenant name description now s = record s {
  access = record s.access {
    roles =
        upsert_role
          (record {
            id = role_id tenant name;
            tenant_id = some tenant;
            name = role_text name;
            description = description;
            created_at = now;
            updated_at = now;
          })
          s.access.roles;
  };
}

abbrev pub clear_permissions : Str → Tables → Tables
clear_permissions role s = record s {
  access = record s.access {
    role_permissions = select (λ g. not (g.role_id == role)) s.access.role_permissions;
  };
}

unfoldable pub seed_roles : Str → ℕ → List (RoleName × Str × List Str) → Tx Error Tables (Unit {0})
unfolding add_permissions
seed_roles tenant now [] = pure tt
seed_roles tenant now ((name, description, permissions) ∷ rest) = do
  exec database (write_role tenant name description now)
  exec database (clear_permissions (role_id tenant name))
  add_permissions (role_id tenant name) permissions
  seed_roles tenant now rest

unfoldable pub ensure_tenant_roles_tx : Str → ℕ → Tx Error Tables (Unit {0})
unfolding seed_roles
ensure_tenant_roles_tx tenant now =
    if is_empty tenant then throw invalid_member else seed_roles tenant now definitions

unfoldable pub ensure_tenant_roles : Str → ℕ → Tables → Faults → Result Error (Unit {0}) × Tables
unfolding ensure_tenant_roles_tx
ensure_tenant_roles tenant now =
    if is_empty tenant
    then (λ s fs. (err invalid_member, s))
    else transaction (ensure_tenant_roles_tx tenant now)
