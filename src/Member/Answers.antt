-- ===== src/Member/Answers.antt =====
-- internal/member: when an update is refused for the owner's sake, and whom a login lets in.
use joysteed_maa_s.Base.{
  ℕ, true, false, ◌&&◌, ◌||◌, [], ◌∷◌, Option, none, some, Str, ◌==◌, ==_iff, is_empty, trim_space,
  any, find, find-true, ok, err, Faults, ◌≡◌, refl, subst, sym, arith, Bool-cases, ◌⊎◌, ◌≢◌, inl,
  inr,
}
use joysteed_maa_s.Rbac.{RoleBinding}
use joysteed_maa_s.Member.{
  Member, View, Status, is_active, last_owner, role_found, Tables, Library, normalize_email,
  member_role, is_member,
}
use joysteed_maa_s.Member.Roles.{RoleName, owner, valid_role, role_of_id}
use joysteed_maa_s.Member.Seats.{IsSeated}
use joysteed_maa_s.Member.Steps.{HasRole}
use joysteed_maa_s.Member.Owner.{holds}
use joysteed_maa_s.Member.Alone.{IsAlone, IsProper, Demotes, owner_read, no_other, asked_outcome}
use joysteed_maa_s.Member.Update.{
  UpdateInput, next_role, next_status, other_owner, keep_owner, update, update_tx, authenticate,
  asked, sought, compared, record_login, logged_in, with_role, signs_in,
}

-- The update, where what it reads is as the tables say.
update_refused :
    (k : Library) (t id : Str) (x : UpdateInput) (now : ℕ) (s : Tables) (row : Member)
    (next : RoleName) (status : Status)
    → t ≢ []
    → trim_space id ≢ []
    → find (is_member t id) s.members ≡ some row
    → HasRole row.tenant_id row.id owner s.access.bindings
    → next_role owner x.role ≡ ok next
    → next_status row.status x.status ≡ ok status
    → (next ≢ owner) ⊎ (is_active status ≡ false)
    → other_owner t row.id s ≡ false
    → update k t id x now s [] ≡ (err last_owner, s)
unfolding update update_tx member_role keep_owner
update_refused k t id x now s row next status named given found (b, bound, role, valid) e f lost
      alone =
    ground arith

-- Where no statement fails and the bindings to the tenant's roles are sound (each names the tenant, and
-- nobody has two of them): a member that is bound to the role of owner, while no other active member of
-- the tenant is, keeps its role and its status. Every proper update that asks for another role, or for
-- the status disabled, is refused as that of the last owner, and changes nothing.
pub update-last_owner :
    (k : Library) (t id : Str) (x : UpdateInput) (now : ℕ) (s : Tables) (row : Member)
    → t ≢ []
    → trim_space id ≢ []
    → IsSeated t s.access.bindings
    → find (is_member t id) s.members ≡ some row
    → holds t row.id s.access.bindings ≡ true
    → IsAlone t row.id s
    → IsProper x
    → Demotes x
    → update k t id x now s [] ≡ (err last_owner, s)
update-last_owner k t id x now s row named given seated found bound alone proper less =
    let is_row = find-true (is_member t id) s.members row found in
    let home : row.tenant_id ≡ t = (==_iff row.tenant_id t).0 (ground arith) in
    let (next, status, e, f, lost) = asked_outcome x row.status proper less in
    update_refused k t id x now s row next status named given found
      (subst (λ u. HasRole u row.id owner s.access.bindings) (sym home)
        (owner_read t row.id s.access.bindings seated bound))
      e f lost (no_other t row.id s.access.bindings s.members alone)

-- What the two steps behind the password say of the answer.
abbrev Answered : ℕ → Member → View → Type 0
Answered now row v =
    (valid_role v.role ≡ true) × (v.member ≡ record row { last_login_at = some now })

role-Answered :
    (o : Option RoleBinding) (now : ℕ) (row : Member) (s s' : Tables) (fs : Faults) (v : View)
    → with_role now row s (role_found o s fs) ≡ (ok v, s')
    → Answered now row v
role-Answered none now row s s' fs v h = absurd (ground arith)
role-Answered (some b) now row s s' fs v h = elim (Bool-cases (valid_role (role_of_id b.role_id))) [
  | inl y ↦ ground arith
  | inr n ↦ absurd (ground arith)
]

logged_in-Answered :
    (now : ℕ) (row : Member) (s s' : Tables) (fs : Faults) (v : View)
    → logged_in now row s fs ≡ (ok v, s')
    → Answered now row v
unfolding member_role
logged_in-Answered now row s s' [] v h = role-Answered _ now row s s' [] v h
logged_in-Answered now row s s' (true ∷ fs) v h = absurd (ground arith)
logged_in-Answered now row s s' (false ∷ fs) v h = role-Answered _ now row s s' fs v h

record_login-Answered :
    (now : ℕ) (row : Member) (s s' : Tables) (fs : Faults) (v : View)
    → record_login now row s fs ≡ (ok v, s')
    → Answered now row v
record_login-Answered now row s s' [] v h = logged_in-Answered now row _ s' [] v h
record_login-Answered now row s s' (true ∷ fs) v h = absurd (ground arith)
record_login-Answered now row s s' (false ∷ fs) v h = logged_in-Answered now row _ s' fs v h

abbrev LetIn : Library → Str → Str → ℕ → Option Member → View → Type 0
LetIn k slug password now o v =
    (row : Member) × (o ≡ some row)
    × (k.compare row.password_hash password ≡ true)
    × Answered now row v

compared-LetIn :
    (k : Library) (slug password : Str) (now : ℕ) (o : Option Member) (s s' : Tables) (fs : Faults)
    (v : View)
    → compared k password now o s fs ≡ (ok v, s')
    → LetIn k slug password now o v
compared-LetIn k slug password now none s s' fs v h = absurd (ground arith)
compared-LetIn k slug password now (some row) s s' fs v h =
    elim (Bool-cases (k.compare row.password_hash password)) [
      | inl y ↦ (row, refl, y, record_login-Answered now row s s' fs v (ground arith))
      | inr n ↦ absurd (ground arith)
    ]

sought-LetIn :
    (k : Library) (slug address password : Str) (now : ℕ) (s s' : Tables) (fs : Faults) (v : View)
    → sought k slug address password now s fs ≡ (ok v, s')
    → LetIn k slug password now (find (signs_in k slug address s.tenants) s.members) v
sought-LetIn k slug address password now s s' [] v h =
    compared-LetIn k slug password now _ s s' [] v h
sought-LetIn k slug address password now s s' (true ∷ fs) v h = absurd (ground arith)
sought-LetIn k slug address password now s s' (false ∷ fs) v h =
    compared-LetIn k slug password now _ s s' fs v h

asked-LetIn :
    (k : Library) (slug password : Str) (now : ℕ) (o : Option Str) (s s' : Tables) (fs : Faults)
    (v : View)
    → asked k slug password now o s fs ≡ (ok v, s')
    → (address : Str) × (o ≡ some address)
      × LetIn k slug password now (find (signs_in k slug address s.tenants) s.members) v
asked-LetIn k slug password now none s s' fs v h = absurd (ground arith)
asked-LetIn k slug password now (some address) s s' fs v h =
    elim (Bool-cases (is_empty (trim_space slug) || is_empty password)) [
      | inl y ↦ absurd (ground arith)
      | inr n ↦ (address, refl, sought-LetIn k slug address password now s s' fs v (ground arith))
    ]

abbrev pub IsEntitled : Library → Str → Str → Str → ℕ → Tables → View → Type 0
IsEntitled k slug email password now s v =
    (row : Member) × (address : Str) × (normalize_email k email ≡ some address)
    × (find (signs_in k slug address s.tenants) s.members ≡ some row)
    × (row.email ≡ address)
    × (is_active row.status ≡ true)
    × (any (λ u. u.id == row.tenant_id && k.db_lower u.slug == k.lower (trim_space slug)) s.tenants
        ≡ true)
    × (k.compare row.password_hash password ≡ true)
    × (valid_role v.role ≡ true)
    × (v.member ≡ record row { last_login_at = some now })

-- A login that is let in is that of a stored member who is active, holds the address, belongs to a
-- tenant that goes by the slug, and whose stored hash the password fits; the answer is this member with
-- the time of the login, and one of the four roles.
pub authenticate-IsEntitled :
    (k : Library) (slug email password : Str) (now : ℕ) (s s' : Tables) (fs : Faults) (v : View)
    → authenticate k slug email password now s fs ≡ (ok v, s')
    → IsEntitled k slug email password now s v
unfolding authenticate
authenticate-IsEntitled k slug email password now s s' fs v h =
    let (address, normal, seen) =
      asked-LetIn k slug password now (normalize_email k email) s s' fs v h in
    let (row, found, fits, answer) = seen in
    let signs = find-true (signs_in k slug address s.tenants) s.members row found in
    (
      row,
      address,
      normal,
      found,
      (==_iff row.email address).0 (ground arith),
      ground arith,
      ground arith,
      fits,
      answer.0,
      answer.1,
    )
