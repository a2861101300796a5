-- ===== src/Rbac.antt =====
-- internal/rbac/rbac.go: principals, roles, and the one authorization test of the portals.
-- The three tables are lists of rows; `now` is what the call's clock reads.
pub mod Matching
pub mod Isolation
pub mod Scope
pub mod Effect
mod Examples
use joysteed_maa_s.Base.{
  ℕ, Bool, true, false, not, ◌&&◌, ◌||◌, List, [], ◌∷◌, Option, none, some, Str, text, ◌==◌,
  trim_space, is_empty, any, elem, find, select, map, has_suffix, has_prefix, take, length, ◌-◌,
  Result, ok, err, Tx, Faults, query, exec, ◌>>=◌, ◌>>◌, pure, throw, transaction, if◌then◌else◌,
}

-- `PrincipalType` is a string: `other` is any text but the two that the code knows.
pub data PrincipalType : Type 0 where
  platform_admin tenant_user : PrincipalType
  other : Str → PrincipalType

abbrev pub same_type : PrincipalType → PrincipalType → Bool
same_type platform_admin platform_admin = true
same_type tenant_user tenant_user = true
same_type (other s) (other t) = s == t
same_type _ _ = false

abbrev pub is_tenant_user : PrincipalType → Bool
is_tenant_user tenant_user = true
is_tenant_user _ = false

pub record Principal : Type 0 where
  pub type : PrincipalType
  pub id : Str
  pub tenant_id : Str

abbrev valid_type : PrincipalType → Str → Bool
valid_type platform_admin tenant = is_empty tenant
valid_type tenant_user tenant = not (is_empty tenant)
valid_type (other _) tenant = false

unfoldable pub valid_principal : Principal → Bool
valid_principal p = if is_empty (trim_space p.id) then false else valid_type p.type p.tenant_id

pub record Role : Type 0 where
  pub id : Str
  pub tenant_id : Option Str
  pub name : Str
  pub description : Str
  pub created_at : ℕ
  pub updated_at : ℕ

pub record RolePermission : Type 0 where
  pub role_id : Str
  pub permission : Str

pub record RoleBinding : Type 0 where
  pub role_id : Str
  pub principal_type : PrincipalType
  pub principal_id : Str
  pub tenant_id : Option Str
  pub created_at : ℕ

pub record Access : Type 0 where
  pub roles : List Role
  pub role_permissions : List RolePermission
  pub bindings : List RoleBinding

pub data Error : Type 0 where
  invalid_principal unauthenticated forbidden tenant_mismatch : Error
  role_required permission_required record_not_found database : Error

-- `column = ?` for a nullable column.
abbrev pub is_tenant : Str → Option Str → Bool
is_tenant t none = false
is_tenant t (some u) = u == t

abbrev pub is_null : Option Str → Bool
is_null none = true
is_null (some _) = false

abbrev pub has_role_id : Str → Role → Bool
has_role_id id r = r.id == id

abbrev pub grants : Str → Str → RolePermission → Bool
grants role permission g = (g.role_id == role) && (g.permission == permission)

abbrev insert_role : Role → Tx Error Access (Unit {0})
insert_role r a fs =
    (if any (has_role_id r.id) a.roles
        then throw database
        else exec database (λ s. record s { roles = r ∷ s.roles }))
      a fs

abbrev insert_permission : Str → Str → Tx Error Access (Unit {0})
insert_permission role permission a fs =
    (if any (grants role permission) a.role_permissions
        then throw database
        else exec database (λ s. record s {
          role_permissions =
              record { role_id = role; permission = permission } ∷ s.role_permissions;
        }))
      a fs

-- The loop of `CreateRole` over the permissions, with what it has seen.
unfoldable pub insert_permissions : Str → List Str → List Str → Tx Error Access (Unit {0})
insert_permissions role seen [] = pure tt
insert_permissions role seen (p ∷ ps) =
    let skip = insert_permissions role seen ps in
    let next = insert_permissions role (p ∷ seen) ps in
    if is_empty (trim_space p)
    then throw permission_required
    else (if elem p seen then skip else (do insert_permission role p; next))

abbrev blank_tenant : Option Str → Bool
blank_tenant none = false
blank_tenant (some t) = is_empty (trim_space t)

unfoldable pub create_role :
    Role → List Str → ℕ → Access → Faults → Result Error (Unit {0}) × Access
unfolding insert_permissions
create_role role permissions now a fs =
    if is_empty (trim_space role.id) || is_empty (trim_space role.name)
    then (err role_required, a)
    else (if blank_tenant role.tenant_id
        then (err tenant_mismatch, a)
        else transaction
            (do
              insert_role (record role { created_at = now; updated_at = now })
              insert_permissions role.id [] permissions)
            a fs)

-- One statement is its own transaction; on a conflict of keys it does nothing.
unfoldable pub grant_permission : Str → Str → Access → Faults → Result Error (Unit {0}) × Access
grant_permission role permission a fs =
    if is_empty (trim_space role) || is_empty (trim_space permission)
    then (err role_required, a)
    else transaction
        (exec database (λ s.
          if any (grants role permission) s.role_permissions then s else (record s {
            role_permissions =
                record { role_id = role; permission = permission } ∷ s.role_permissions;
          })))
        a fs

abbrev or_missing : Option Role → Tx Error Access Role
or_missing none = throw record_not_found
or_missing (some r) = pure r

-- The key of a binding: the role, the principal's type and its id.
abbrev pub binds : Str → Principal → RoleBinding → Bool
binds role p b =
    (b.role_id == role) && (same_type b.principal_type p.type && (b.principal_id == p.id))

abbrev pub nullable_tenant : Str → Option Str
nullable_tenant [] = none
nullable_tenant (c ∷ s) = some (c ∷ s)

abbrev pub mismatch : Principal → Option Str → Bool
mismatch p tenant =
    if is_tenant_user p.type then not (is_tenant p.tenant_id tenant) else not (is_null tenant)

-- On a conflict of keys nothing is written.
abbrev pub insert_binding : RoleBinding → Principal → Access → Access
insert_binding b p a =
    if any (binds b.role_id p) a.bindings then a else (record a { bindings = b ∷ a.bindings })

unfoldable pub bind_to : Str → Principal → ℕ → Role → Tx Error Access (Unit {0})
bind_to role p now r =
    let b : RoleBinding = record {
      role_id = role;
      principal_type = p.type;
      principal_id = p.id;
      tenant_id = nullable_tenant p.tenant_id;
      created_at = now;
    } in
    if mismatch p r.tenant_id then throw tenant_mismatch else exec database (insert_binding b p)

unfoldable pub bind_role : Str → Principal → ℕ → Access → Faults → Result Error (Unit {0}) × Access
unfolding valid_principal bind_to
bind_role role p now a fs =
    if is_empty (trim_space role) || not (valid_principal p)
    then (err invalid_principal, a)
    else transaction
        (do
          found ← query database (λ s. find (has_role_id role) s.roles)
          r ← or_missing found
          bind_to role p now r)
        a fs

-- The rows of a principal's own side: its tenant's, or those of no tenant.
abbrev pub within : Principal → Option Str → Bool
within p tenant = if is_tenant_user p.type then is_tenant p.tenant_id tenant else is_null tenant

unfoldable pub unbind_role : Str → Principal → Access → Faults → Result Error (Unit {0}) × Access
unfolding valid_principal
unbind_role role p a fs =
    if not (valid_principal p)
    then (err invalid_principal, a)
    else transaction
        (exec database (λ s. record s {
          bindings = select (λ b. not (binds role p b && within p b.tenant_id)) s.bindings;
        }))
        a fs

unfoldable pub permission_matches : Str → Str → Bool
permission_matches granted wanted =
    if granted == wanted
    then true
    else (if has_suffix granted (text ".*")
        then has_prefix wanted (take (length granted - 1) granted)
        else false)

-- `SELECT DISTINCT` keeps one row of each value, and fixes no order.
unfoldable pub distinct : List Str → List Str
distinct [] = []
distinct (x ∷ xs) = let rest = distinct xs in if elem x rest then rest else x ∷ rest

-- The joins: a binding of the principal and a role, both on the principal's own side.
unfoldable pub joined : Principal → List Role → List RoleBinding → RolePermission → Bool
joined p roles bindings g =
    any (λ b. binds g.role_id p b && within p b.tenant_id) bindings
    && any (λ r. has_role_id g.role_id r && within p r.tenant_id) roles

unfoldable pub permissions : Principal → Tx Error Access (List Str)
unfolding valid_principal joined distinct
permissions p =
    if not (valid_principal p)
    then throw invalid_principal
    else query database (λ s.
      distinct (map (λ g. g.permission) (select (joined p s.roles s.bindings) s.role_permissions)))

abbrev require : Bool → Tx Error Access (Unit {0})
require true = pure tt
require false = throw forbidden

unfoldable pub authorize : Principal → Str → Tx Error Access (Unit {0})
unfolding permissions
authorize p wanted =
    if not (valid_principal p)
    then throw unauthenticated
    else (do granted ← permissions p; require (any (λ g. permission_matches g wanted) granted))

-- A context carries one principal at most.
unfoldable pub with_principal : Principal → Result Error (Option Principal)
unfolding valid_principal
with_principal p = if valid_principal p then ok (some p) else err invalid_principal

abbrev keep_valid : Principal → Option Principal
keep_valid p = if valid_principal p then some p else none

unfoldable pub principal_from_context : Option Principal → Option Principal
unfolding valid_principal
principal_from_context none = none
principal_from_context (some p) = keep_valid p

abbrev authorize_found : Str → Option Principal → Tx Error Access (Unit {0})
authorize_found wanted none = throw unauthenticated
authorize_found wanted (some p) = authorize p wanted

unfoldable pub require_permission : Option Principal → Str → Tx Error Access (Unit {0})
unfolding principal_from_context
require_permission context wanted = authorize_found wanted (principal_from_context context)
