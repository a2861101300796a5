-- ===== src/Member/Create.antt =====
-- internal/member/member.go: CreateTx and Create.
use joysteed_maa_s.Base.{
  ℕ, Bool, not, ◌&&◌, ◌||◌, List, ◌∷◌, Option, none, some, Str, ◌==◌, trim_space, is_empty, any,
  select, length, eqb, Result, ok, err, Tx, Faults, query, exec, ◌>>=◌, ◌>>◌, pure, transaction,
  if◌then◌else◌,
}
use joysteed_maa_s.Registry.Store.{has_id}
use joysteed_maa_s.Member.Roles.{RoleName, valid_role}
use joysteed_maa_s.Member.{
  active, Member, View, Error, invalid_member, no_entropy, tenant_not_found, database, Tables,
  Library, normalize_email, hash_password, require, lift, replace_role,
}

pub record CreateInput : Type 0 where
  pub tenant_id : Str
  pub email : Str
  pub display_name : Str
  pub password : Str
  pub role : RoleName

abbrev pub taken : Member → List Member → Bool
taken row = any (λ m. m.id == row.id || (m.tenant_id == row.tenant_id && m.email == row.email))

abbrev pub insert_member : Member → Tx Error Tables (Unit {0})
insert_member row s fs =
    if taken row s.members
    then err database
    else exec database (λ s. record s { members = row ∷ s.members }) s fs

unfoldable pub admit_member : Member → RoleName → ℕ → Tx Error Tables View
unfolding replace_role
admit_member row role now = do
  known ← query database (λ s. eqb (length (select (has_id row.tenant_id) s.tenants)) 1)
  require tenant_not_found known
  insert_member row
  replace_role row.tenant_id row.id role now
  pure (record { member = row; role = role })

abbrev pub new_member : CreateInput → ℕ → Str → Str → Str → Member
new_member x now email hash id = record {
  id = id;
  tenant_id = x.tenant_id;
  email = email;
  display_name = trim_space x.display_name;
  password_hash = hash;
  status = active;
  last_login_at = none;
  created_at = now;
  updated_at = now;
}

-- The guards of CreateTx, in their order, and the row that they let through.
unfoldable pub new_row : Library → CreateInput → Option Str → ℕ → Result Error Member
unfolding normalize_email hash_password
new_row k x drawn now =
    if is_empty x.tenant_id || not (valid_role x.role)
    then err invalid_member
    else (elim (normalize_email k x.email) [
      | none ↦ err invalid_member
      | some email ↦
          if is_empty (trim_space x.display_name)
          then err invalid_member
          else (elim (hash_password k x.password) [
            | err e ↦ err e
            | ok hash ↦ elim drawn [
              | none ↦ err no_entropy
              | some id ↦ ok (new_member x now email hash id)
            ]
          ])
    ])

-- `drawn` is the new id, where the source of randomness gives one.
unfoldable pub create_tx : Library → CreateInput → Option Str → ℕ → Tx Error Tables View
unfolding new_row admit_member
create_tx k x drawn now = do row ← lift (new_row k x drawn now); admit_member row x.role now

unfoldable pub create :
    Library → CreateInput → Option Str → ℕ → Tables → Faults → Result Error View × Tables
unfolding create_tx
create k x drawn now = transaction (create_tx k x drawn now)
