-- ===== src/Member/Update.antt =====
-- internal/member/member.go: UpdateTx with its rule of the last active owner, and Authenticate.
use native.Mathlib.Decide.{ℕ_discrete}
use joysteed_maa_s.Base.{
  ℕ, Bool, true, false, not, ◌&&◌, ◌||◌, List, Option, none, some, Str, ◌==◌, trim_space, is_empty,
  any, find, update_where, Result, ok, err, Tx, Faults, query, exec, ◌>>=◌, ◌>>◌, pure, throw,
  transaction, if◌then◌else◌,
}
use joysteed_maa_s.Registry.Store.{Tenant}
use joysteed_maa_s.Rbac.{RoleBinding, binds}
use joysteed_maa_s.Member.{
  Status, active, disabled, other, is_active, Member, View, Error, invalid_member, not_found,
  bad_credentials, invalid_role, last_owner, database, Tables, Library, normalize_email,
  hash_password, require, or_fail, lift, user, replace_role, member_role, is_member,
}
use joysteed_maa_s.Member.Roles.{RoleName, owner, valid_role, role_id}

pub record UpdateInput : Type 0 where
  pub display_name : Option Str
  pub password : Option Str
  pub status : Option Status
  pub role : Option RoleName

unfoldable pub RoleName-discrete : Discrete RoleName
RoleName-discrete = hlevel ℕ_discrete

abbrev pub same_role : RoleName → RoleName → Bool
same_role r q = elim (RoleName-discrete r q) [ yes _ ↦ true | no _ ↦ false ]

abbrev pub next_role : RoleName → Option RoleName → Result Error RoleName
next_role current none = ok current
next_role current (some r) = if valid_role r then ok r else err invalid_role

abbrev pub next_status : Status → Option Status → Result Error Status
next_status current none = ok current
next_status current (some (other s)) = err invalid_member
next_status current (some active) = ok active
next_status current (some disabled) = ok disabled

-- An active member of the tenant that is bound to its role of owner.
abbrev pub is_active_owner : Str → List RoleBinding → Member → Bool
is_active_owner tenant bs m =
    m.tenant_id == tenant
    && (is_active m.status && any (binds (role_id tenant owner) (user tenant m.id)) bs)

-- Whether the count of the tenant's other active owners is not 0.
abbrev pub other_owner : Str → Str → Tables → Bool
other_owner tenant id s =
    any (λ m. is_active_owner tenant s.access.bindings m && not (m.id == id)) s.members

unfoldable pub keep_owner : Str → Str → RoleName → RoleName → Status → Tx Error Tables (Unit {0})
keep_owner tenant id current next status =
    if same_role current owner && (not (same_role next owner) || not (is_active status))
    then (do others ← query database (other_owner tenant id); require last_owner others)
    else pure tt

-- The columns that the update names; those that it leaves out keep their values.
abbrev pub updated : Status → Option Str → Option Str → ℕ → Member → Member
updated status name hash now m = record m {
  updated_at = now;
  status = status;
  display_name = elim name [ none ↦ m.display_name | some n ↦ n ];
  password_hash = elim hash [ none ↦ m.password_hash | some h ↦ h ];
}

abbrev pub checked_name : Option Str → Result Error (Option Str)
checked_name none = ok none
checked_name (some name) =
    if is_empty (trim_space name) then err invalid_member else ok (some (trim_space name))

abbrev some_hash : Result Error Str → Result Error (Option Str)
some_hash (ok h) = ok (some h)
some_hash (err e) = err e

abbrev pub checked_password : Library → Option Str → Result Error (Option Str)
checked_password k none = ok none
checked_password k (some password) = some_hash (hash_password k password)

abbrev pub change_role : Str → Str → RoleName → RoleName → ℕ → Tx Error Tables (Unit {0})
change_role tenant id current next now =
    if same_role next current then pure tt else replace_role tenant id next now

unfoldable pub write_member :
    Library → Member → UpdateInput → RoleName → RoleName → Status → ℕ → Tx Error Tables View
write_member k row x current next status now = do
  name ← lift (checked_name x.display_name)
  hash ← lift (checked_password k x.password)
  exec database (λ s. record s {
    members = update_where (λ m. m.id == row.id) (updated status name hash now) s.members;
  })
  change_role row.tenant_id row.id current next now
  found ← query database (λ s. find (λ m. m.id == row.id) s.members)
  written ← or_fail database found
  pure (record { member = written; role = next })

unfoldable pub update_tx : Library → Str → Str → UpdateInput → ℕ → Tx Error Tables View
update_tx k tenant id x now =
    if is_empty tenant || is_empty (trim_space id) then throw invalid_member else (do
      found ← query database (λ s. find (is_member tenant id) s.members)
      row ← or_fail not_found found
      current ← member_role row.tenant_id row.id
      next ← lift (next_role current x.role)
      status ← lift (next_status row.status x.status)
      keep_owner tenant row.id current next status
      write_member k row x current next status now)

unfoldable pub update :
    Library → Str → Str → UpdateInput → ℕ → Tables → Faults → Result Error View × Tables
unfolding update_tx
update k tenant id x now = transaction (update_tx k tenant id x now)

abbrev pub signs_in : Library → Str → Str → List Tenant → Member → Bool
signs_in k slug email tenants m =
    any (λ t. t.id == m.tenant_id && k.db_lower t.slug == k.lower (trim_space slug)) tenants
    && (m.email == email && is_active m.status)

abbrev pub with_role :
    ℕ → Member → Tables → Result Error (RoleName × Tables × Faults) → Result Error View × Tables
with_role now row s (err _) = (err bad_credentials, s)
with_role now row s (ok (role, _, _)) =
    (ok (record { member = record row { last_login_at = some now }; role = role }), s)

abbrev pub logged_in : ℕ → Member → Tables → Faults → Result Error View × Tables
logged_in now row s fs = with_role now row s (member_role row.tenant_id row.id s fs)

abbrev pub stamped : ℕ → Member → Member
stamped now m = record m { last_login_at = some now; updated_at = now }

abbrev pub record_login : ℕ → Member → Tables → Faults → Result Error View × Tables
record_login now row s fs =
    elim (exec {E = Error} {S = Tables} database
      (λ s. record s { members = update_where (λ m. m.id == row.id) (stamped now) s.members }) s
      fs) [ err e ↦ (err e, s) | ok (_, s', fs') ↦ logged_in now row s' fs' ]

abbrev pub compared :
    Library → Str → ℕ → Option Member → Tables → Faults → Result Error View × Tables
compared k password now none s fs = (err bad_credentials, s)
compared k password now (some row) s fs =
    if k.compare row.password_hash password
    then record_login now row s fs
    else (err bad_credentials, s)

abbrev pub sought : Library → Str → Str → Str → ℕ → Tables → Faults → Result Error View × Tables
sought k slug address password now s fs =
    elim (query {E = Error} {S = Tables} database
      (λ s. find (signs_in k slug address s.tenants) s.members) s fs) [
        | err _ ↦ (err bad_credentials, s)
        | ok (found, _, fs') ↦ compared k password now found s fs'
      ]

abbrev pub asked :
    Library → Str → Str → ℕ → Option Str → Tables → Faults → Result Error View × Tables
asked k slug password now none s fs = (err bad_credentials, s)
asked k slug password now (some address) s fs =
    if is_empty (trim_space slug) || is_empty password
    then (err bad_credentials, s)
    else sought k slug address password now s fs

-- Each statement is its own transaction. The lookup joins the tenants, and takes any row that fits.
unfoldable pub authenticate :
    Library → Str → Str → Str → ℕ → Tables → Faults → Result Error View × Tables
unfolding normalize_email member_role
authenticate k slug email password now s fs =
    asked k slug password now (normalize_email k email) s fs
