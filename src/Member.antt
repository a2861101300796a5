-- ===== src/Member.antt =====
-- internal/member/member.go: the portal users of a tenant and the one system role that each has, over
-- the tables of rbac and the registry's tenants. A transaction is one step here.
pub mod Roles
pub mod Update
pub mod Create
pub mod Seed
pub mod Seats
pub mod Steps
pub mod Owner
pub mod Created
pub mod Safety
pub mod Alone
pub mod Answers
mod Examples
use joysteed_maa_s.Base.{
  ℕ, ◌+◌, byte_length, Bool, true, false, not, ◌&&◌, ◌||◌, List, [], ◌∷◌, Option, none, some, Str,
  ◌==◌, trim_space, is_empty, elem, any, find, select, length, ltb, eqb, Result, ok, err, Tx,
  Faults, query, exec, ◌>>=◌, ◌>>◌, pure, throw, if◌then◌else◌,
}
use joysteed_maa_s.Registry.Store.{Tenant}
use joysteed_maa_s.Rbac.{
  Access, Role, RoleBinding, Principal, tenant_user, same_type, is_tenant, binds,
}
use joysteed_maa_s.Member.Roles.{RoleName, valid_role, role_id, role_of_id, tenant_role_ids}

pub data Status : Type 0 where
  active disabled : Status
  other : Str → Status

abbrev pub is_active : Status → Bool
is_active active = true
is_active _ = false

pub record Member : Type 0 where
  pub id : Str
  pub tenant_id : Str
  pub email : Str
  pub display_name : Str
  pub password_hash : Str
  pub status : Status
  pub last_login_at : Option ℕ
  pub created_at : ℕ
  pub updated_at : ℕ

pub record View : Type 0 where
  pub member : Member
  pub role : RoleName

pub data Error : Type 0 where
  invalid_member not_found bad_credentials invalid_role last_owner : Error
  tenant_not_found role_lookup hash_failed no_entropy database : Error

pub record Tables : Type 0 where
  pub members : List Member
  pub access : Access
  pub tenants : List Tenant

-- strings.ToLower, LOWER at the database, mail.ParseAddress, and bcrypt's two functions.
pub record Library : Type 0 where
  pub lower : Str → Str
  pub db_lower : Str → Str
  pub parse_address : Str → Option Str
  pub hash : Str → Option Str
  pub compare : Str → Str → Bool

abbrev same_address : Library → Str → Option Str → Option Str
same_address k value none = none
same_address k value (some address) =
    if not (k.lower address == value) || ltb 254 (byte_length value) then none else some value

unfoldable pub normalize_email : Library → Str → Option Str
unfolding byte_length
normalize_email k email =
    let value = k.lower (trim_space email) in same_address k value (k.parse_address value)

abbrev hashed : Option Str → Result Error Str
hashed none = err hash_failed
hashed (some h) = ok h

unfoldable pub hash_password : Library → Str → Result Error Str
unfolding byte_length
hash_password k value =
    if ltb (byte_length value) 12 || ltb 1024 (byte_length value)
    then err invalid_member
    else hashed (k.hash value)

abbrev pub require : Error → Bool → Tx Error Tables (Unit {0})
require e true = pure tt
require e false = throw e

abbrev pub or_fail {ℓ} :
    {A : Type ℓ} → Error → Option A → Tables → Faults → Result Error (A × Tables × Faults)
or_fail e none s fs = err e
or_fail e (some a) s fs = ok (a, s, fs)

abbrev pub lift : {A : Type 0} → Result Error A → Tx Error Tables A
lift (ok a) = pure a
lift (err e) = throw e

-- A member as rbac's principal.
abbrev pub user : Str → Str → Principal
user tenant id = record { type = tenant_user; id = id; tenant_id = tenant }

-- The bindings that hold one of the four roles of the member's tenant.
abbrev pub is_seat : Str → Str → RoleBinding → Bool
is_seat tenant id b =
    same_type b.principal_type tenant_user
    && (b.principal_id == id
        && (is_tenant tenant b.tenant_id && elem b.role_id (tenant_role_ids tenant)))

abbrev pub with_bindings : (List RoleBinding → List RoleBinding) → Tables → Tables
with_bindings f s = record s { access = record s.access { bindings = f s.access.bindings } }

abbrev pub seat : Str → Str → RoleName → ℕ → RoleBinding
seat tenant id role now = record {
  role_id = role_id tenant role;
  principal_type = tenant_user;
  principal_id = id;
  tenant_id = some tenant;
  created_at = now;
}

-- The binding's primary key refuses an insert.
abbrev pub insert_seat : Str → Str → RoleName → ℕ → Tx Error Tables (Unit {0})
insert_seat tenant id role now s fs =
    if any (binds (role_id tenant role) (user tenant id)) s.access.bindings
    then err database
    else exec database (with_bindings (λ bs. seat tenant id role now ∷ bs)) s fs

abbrev is_role_of : Str → RoleName → Role → Bool
is_role_of tenant role r = r.id == role_id tenant role && is_tenant tenant r.tenant_id

unfoldable pub replace_role : Str → Str → RoleName → ℕ → Tx Error Tables (Unit {0})
replace_role tenant id role now = if not (valid_role role) then throw invalid_role else (do
  exec database (with_bindings (select (λ b. not (is_seat tenant id b))))
  known ← query database (λ s. eqb (length (select (is_role_of tenant role) s.access.roles)) 1)
  require invalid_role known
  insert_seat tenant id role now)

abbrev pub role_found : Option RoleBinding → Tx Error Tables RoleName
role_found none = throw role_lookup
role_found (some b) =
    if valid_role (role_of_id b.role_id) then pure (role_of_id b.role_id) else throw invalid_role

unfoldable pub member_role : Str → Str → Tx Error Tables RoleName
member_role tenant id = do
  found ← query role_lookup (λ s. find (is_seat tenant id) s.access.bindings)
  role_found found

abbrev pub is_member : Str → Str → Member → Bool
is_member tenant id m = m.tenant_id == tenant && m.id == id

abbrev viewed : Member → Tx Error Tables View
viewed row = do role ← member_role row.tenant_id row.id; pure (record { member = row; role = role })

unfoldable pub get : Str → Str → Tx Error Tables View
unfolding member_role
get tenant id = do
  found ← query database (λ s. find (is_member tenant (trim_space id)) s.members)
  row ← or_fail not_found found
  viewed row

-- One query for the members and one for each member's role. `order` is ORDER BY created_at.
unfoldable pub view_all : List Member → Tx Error Tables (List View)
unfolding member_role
view_all [] = pure []
view_all (m ∷ ms) = do v ← viewed m; vs ← view_all ms; pure (v ∷ vs)

unfoldable pub list_members : (List Member → List Member) → Str → Tx Error Tables (List View)
unfolding view_all
list_members order tenant = if is_empty tenant then throw invalid_member else (do
  rows ← query database (λ s. order (select (λ m. m.tenant_id == tenant) s.members))
  view_all rows)
