-- ===== src/Member/Examples.antt =====
-- The theorems on internal/member at a tenant with one owner and one viewer.
use native.Mathlib.Decide.{ℕ_discrete}
use joysteed_maa_s.Base.{
  byte_length, ℕ, true, false, List, [], ◌∷◌, none, some, Str, text, ◌==◌, ◌≡◌, refl, Faults, err,
  str_discrete, trim_space, arith, inl, inr,
}
use joysteed_maa_s.Registry.Store.{Tenant}
use joysteed_maa_s.Registry.Status.{trial}
use joysteed_maa_s.Rbac.{Role}
use joysteed_maa_s.Member.{
  Member, View, Tables, Library, active, last_owner, normalize_email, member_role, seat,
}
use joysteed_maa_s.Member.Create.{CreateInput}
use joysteed_maa_s.Member.Roles.{
  RoleName, owner, viewer, role_id, role_of_id, role_name, split_on, valid_role,
}
use joysteed_maa_s.Member.Seats.{IsSeated, reseated-IsSeated}
use joysteed_maa_s.Member.Update.{UpdateInput, update, authenticate}
use joysteed_maa_s.Member.Safety.{Call, creates, updates, seeds, signs, run, IsOwned, run-IsOwned}
use joysteed_maa_s.Member.Alone.{IsAlone}
use joysteed_maa_s.Member.Answers.{update-last_owner, IsEntitled, authenticate-IsEntitled}

abbrev library : Library
library = record {
  lower = λ s. s;
  db_lower = λ s. s;
  parse_address = some;
  hash = some;
  compare = λ h p. h == p;
}

abbrev row : Str → Member
row id = record {
  id = id;
  tenant_id = text "t1";
  email = id;
  display_name = text "A";
  password_hash = text "secret";
  status = active;
  last_login_at = none;
  created_at = 1;
  updated_at = 1;
}

abbrev tenant : Tenant
tenant = record {
  id = text "t1";
  slug = text "acme";
  name = text "Acme";
  status = trial;
  trial_ends_at = some 90;
  status_changed_at = 1;
  created_at = 1;
  updated_at = 1;
}

abbrev system_role : RoleName → Role
system_role r = record {
  id = role_id (text "t1") r;
  tenant_id = some (text "t1");
  name = [];
  description = [];
  created_at = 1;
  updated_at = 1;
}

abbrev tables : Tables
tables = record {
  members = row (text "ann") ∷ row (text "bob") ∷ [];
  access = record {
    roles = system_role owner ∷ system_role viewer ∷ [];
    role_permissions = [];
    bindings = seat (text "t1") (text "ann") owner 1 ∷ [];
  };
  tenants = tenant ∷ [];
}

abbrev demote : UpdateInput
demote = record { display_name = none; password = none; status = none; role = some viewer }

abbrev signed_in : View
signed_in = record { member = record (row (text "ann")) { last_login_at = some 7 }; role = owner }

authenticate-IsEntitled_example :
    IsEntitled library (text " acme") (text "ann") (text "secret") 7 tables signed_in
authenticate-IsEntitled_example =
    authenticate-IsEntitled library (text " acme") (text "ann") (text "secret") 7 tables
      (record tables {
        members =
            record (row (text "ann")) { last_login_at = some 7; updated_at = 7 }
            ∷ row (text "bob")
            ∷ [];
      })
      (false ∷ []) signed_in
      (unfold authenticate normalize_email trim_space byte_length member_role str_discrete
          ℕ_discrete role_id role_of_id role_name split_on valid_role in
        refl)

none-IsSeated : IsSeated (text "t1") []
none-IsSeated = (tt, λ id r q v w h k. absurd (ground arith))

seated : IsSeated (text "t1") (seat (text "t1") (text "ann") owner 1 ∷ [])
seated =
    reseated-IsSeated (text "t1") (text "t1") (text "ann") owner 1 [] (unfold valid_role in refl)
      none-IsSeated

ann-IsAlone : IsAlone (text "t1") (text "ann") tables
ann-IsAlone =
    (λ h k e. absurd (k refl), (λ h k e. unfold str_discrete ℕ_discrete role_id in refl, tt))

update-last_owner_example :
    update library (text "t1") (text "ann") demote 7 tables [] ≡ (err last_owner, tables)
update-last_owner_example =
    update-last_owner library (text "t1") (text "ann") demote 7 tables (row (text "ann"))
      (λ e. ground arith) (unfold trim_space in λ e. ground arith) seated
      (unfold str_discrete ℕ_discrete in refl) (unfold str_discrete ℕ_discrete role_id in refl)
      ann-IsAlone (inr (viewer, refl, unfold valid_role in refl), inl refl)
      (inl (viewer, refl, λ e. cc))

newcomer : CreateInput
newcomer = record {
  tenant_id = text "t1";
  email = text "c@d";
  display_name = text "C";
  password = text "twelve bytes";
  role = owner;
}

abbrev calls : List (ℕ × Faults × Call)
calls =
    (2, [], creates newcomer (some (text "cat")))
    ∷ (3, true ∷ [], seeds (text "t1"))
    ∷ (4, [], updates (text "t1") (text "ann") demote)
    ∷ (5, [], signs (text "acme") (text "bob") (text "secret"))
    ∷ []

run-IsOwned_example : IsOwned (text "t1") (run library tables calls)
run-IsOwned_example = run-IsOwned (text "t1") library calls tables (
  ((unfold str_discrete ℕ_discrete in (refl, (refl, tt))), seated),
  unfold str_discrete ℕ_discrete role_id in refl,
)
