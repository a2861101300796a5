-- ===== src/Member/Created.antt =====
-- internal/member: what CreateTx, EnsureTenantRolesTx and Authenticate leave of the owners.
use joysteed_maa_s.Base.{
  ℕ, Bool, true, false, ◌&&◌, ◌||◌, List, [], ◌∷◌, Option, Str, ◌==◌, is_empty, any, any_weaken,
  ne_of_test, select, length, eqb, ok, err, Tx, Faults, exec, ◌>>◌, pure, bind_step, query_step,
  exec_step, guard_step, ◌≡◌, refl, sym, ◌∙◌, arith, if◌then◌else◌,
}
use joysteed_maa_s.Registry.Store.{has_id}
use joysteed_maa_s.Rbac.{RoleBinding}
use joysteed_maa_s.Member.{
  Member, View, Tables, Library, Error, database, tenant_not_found, invalid_member, require,
  replace_role, with_bindings,
}
use joysteed_maa_s.Member.Create.{
  taken, insert_member, admit_member, new_row, CreateInput, create_tx,
}
use joysteed_maa_s.Member.Seed.{
  add_permission, add_permissions, write_role, clear_permissions, definitions, seed_roles,
  ensure_tenant_roles_tx,
}
use joysteed_maa_s.Member.Roles.{RoleName, valid_role, role_id}
use joysteed_maa_s.Member.Seats.{reseated, replace_role_ok, reseated-IsSeated}
use joysteed_maa_s.Member.Steps.{lift_step}
use joysteed_maa_s.Member.Update.{is_active_owner}
use joysteed_maa_s.Member.Owner.{IsSound, has_owner, seats_kept}

abbrev admitted : Member → RoleName → ℕ → Tables → Tables
admitted row role now s =
    with_bindings (reseated row.tenant_id row.id role now) (record s { members = row ∷ s.members })

insert_member_step {ℓ} :
    {B : Type 0} {C : Type ℓ} (row : Member) (k : Tx Error Tables B) (s : Tables) (fs : Faults)
    (b : B × Tables × Faults)
    → (insert_member row >> k) s fs ≡ ok b
    → ((fs' : Faults)
        → taken row s.members ≡ false
        → k (record s { members = row ∷ s.members }) fs' ≡ ok b
        → C)
    → C
insert_member_step {C = C} row k s fs b h go = tested (taken row s.members) refl h
  where
    tested :
        (t : Bool)
        → taken row s.members ≡ t
        → ◌>>◌ {E = Error} {S = Tables}
            (λ s fs.
              if t
              then err database
              else exec database (λ s. record s { members = row ∷ s.members }) s fs)
            k
            s
            fs
          ≡ ok b
        → C
    tested true e h = absurd (ground arith)
    tested false e h =
        exec_step {E = Error} {S = Tables} database (λ s. record s { members = row ∷ s.members }) k
          s fs b h (λ fs' h'. go fs' e h')

require_step {ℓ} :
    {B : Type 0} {C : Type ℓ} (e : Error) (t : Bool) (k : Tx Error Tables B) (s : Tables)
    (fs : Faults) (b : B × Tables × Faults)
    → (require e t >> k) s fs ≡ ok b
    → (t ≡ true → k s fs ≡ ok b → C)
    → C
require_step e true k s fs b h go = go refl h
require_step e false k s fs b h go = absurd (ground arith)

pure_state :
    {A : Type 0} (a b : A) (s s' : Tables) (fs fs' : Faults)
    → pure {E = Error} a s fs ≡ ok (b, s', fs')
    → s ≡ s'
pure_state a b s s' fs fs' h = ground arith

admit_member_ok :
    (row : Member) (role : RoleName) (now : ℕ) (s s' : Tables) (fs fs' : Faults) (v : View)
    → admit_member row role now s fs ≡ ok (v, s', fs')
    → (taken row s.members ≡ false) × (valid_role role ≡ true) × (s' ≡ admitted row role now s)
unfolding admit_member
admit_member_ok row role now s s' fs fs' v h =
    let answer : Tx Error Tables View = pure (record { member = row; role = role }) in
    let bind : Tx Error Tables View = replace_role row.tenant_id row.id role now >> answer in
    let known = eqb (length (select (has_id row.tenant_id) s.tenants)) 1 in
    query_step database (λ s. eqb (length (select (has_id row.tenant_id) s.tenants)) 1) _ s fs _ h
      λ f₁ h. require_step tenant_not_found known (insert_member row >> bind) s f₁ _ h λ _ h.
        insert_member_step row bind s f₁ _ h λ f₂ free h.
          bind_step (replace_role row.tenant_id row.id role now) (λ _. answer)
            (record s { members = row ∷ s.members }) f₂ _ h
            λ u s₁ f₃ e h.
              let (v, same) =
                replace_role_ok row.tenant_id row.id role now
                  (record s { members = row ∷ s.members }) s₁ f₂ f₃ u e in
              (free, v, sym (pure_state {A = View} _ _ s₁ s' f₃ fs' h) ∙ same)

-- What a creation that succeeds has written.
pub create_tx_ok :
    (k : Library) (x : CreateInput) (drawn : Option Str) (now : ℕ) (s s' : Tables) (fs fs' : Faults)
    (v : View)
    → create_tx k x drawn now s fs ≡ ok (v, s', fs')
    → (row : Member) × (taken row s.members ≡ false)
      × (valid_role x.role ≡ true)
      × (s' ≡ admitted row x.role now s)
unfolding create_tx
create_tx_ok k x drawn now s s' fs fs' v h = lift_step (new_row k x drawn now) _ s fs _ h λ row _ h.
    let (free, v, same) = admit_member_ok row x.role now s s' fs fs' v h in (row, free, v, same)

untaken :
    (row : Member) (ms : List Member) → taken row ms ≡ false → any (λ n. n.id == row.id) ms ≡ false
untaken row ms h =
    any_weaken (λ n. n.id == row.id)
      (λ m. m.id == row.id || (m.tenant_id == row.tenant_id && m.email == row.email)) ms
      (λ m k. ground arith) h

fresh_kept :
    (t u i : Str) (role : RoleName) (now : ℕ) (bs : List RoleBinding) (ms : List Member)
    → any (λ n. n.id == i) ms ≡ false
    → any (is_active_owner t bs) ms ≡ true
    → any (is_active_owner t (reseated u i role now bs)) ms ≡ true
fresh_kept t u i role now bs [] n h = h
fresh_kept t u i role now bs (m ∷ ms) n h = ground (
  arith,
  seats_kept t u i m.id false role now bs (ne_of_test m.id i (ground arith)),
  fresh_kept t u i role now bs ms,
)

pub admitted-IsSound :
    (t : Str) (row : Member) (role : RoleName) (now : ℕ) (s : Tables)
    → taken row s.members ≡ false
    → valid_role role ≡ true
    → IsSound t s
    → IsSound t (admitted row role now s)
admitted-IsSound t row role now s free v (keyed, seated) = (
  (untaken row s.members free, keyed),
  reseated-IsSeated t row.tenant_id row.id role now s.access.bindings v seated,
)

pub admitted-has_owner :
    (t : Str) (row : Member) (role : RoleName) (now : ℕ) (s : Tables)
    → taken row s.members ≡ false
    → has_owner t s ≡ true
    → has_owner t (admitted row role now s) ≡ true
admitted-has_owner t row role now s free h = ground (
  arith,
  fresh_kept t row.tenant_id row.id role now s.access.bindings s.members
      (untaken row s.members free) h,
)

-- The seeding of roles leaves the members and the bindings as they are.
SameSeats : Tables → Tables → Type 0
SameSeats s s' = (s'.members ≡ s.members) × (s'.access.bindings ≡ s.access.bindings)

add_permission-SameSeats :
    (role p : Str) (s s' : Tables) (fs fs' : Faults) (x : Unit {0})
    → add_permission role p s fs ≡ ok (x, s', fs')
    → SameSeats s s'
unfolding SameSeats
add_permission-SameSeats role p s s' [] fs' x h = ground arith
add_permission-SameSeats role p s s' (true ∷ fs) fs' x h = absurd (ground arith)
add_permission-SameSeats role p s s' (false ∷ fs) fs' x h = ground arith

add_permissions-SameSeats :
    (role : Str) (ps : List Str) (s s' : Tables) (fs fs' : Faults) (x : Unit {0})
    → add_permissions role ps s fs ≡ ok (x, s', fs')
    → SameSeats s s'
unfolding add_permissions SameSeats
add_permissions-SameSeats role [] s s' fs fs' x h = ground arith
add_permissions-SameSeats role (p ∷ ps) s s' fs fs' x h =
    bind_step (add_permission role p) (λ _. add_permissions role ps) s fs _ h
      λ u t f e h.
        let (ms, bs) = add_permission-SameSeats role p s t fs f u e in
        let (ms', bs') = add_permissions-SameSeats role ps t s' f fs' x h in (ms' ∙ ms, bs' ∙ bs)

seed_roles-SameSeats :
    (tenant : Str) (now : ℕ) (ds : List (RoleName × Str × List Str)) (s s' : Tables)
    (fs fs' : Faults) (x : Unit {0})
    → seed_roles tenant now ds s fs ≡ ok (x, s', fs')
    → SameSeats s s'
unfolding seed_roles SameSeats
seed_roles-SameSeats tenant now [] s s' fs fs' x h = ground arith
seed_roles-SameSeats tenant now ((name, description, permissions) ∷ ds) s s' fs fs' x h =
    let rest = seed_roles tenant now ds in
    let granted = add_permissions (role_id tenant name) permissions >> rest in
    let cleared = clear_permissions (role_id tenant name) in
    let s₁ = write_role tenant name description now s in
    exec_step database (write_role tenant name description now) (exec database cleared >> granted) s
      fs _ h
      λ f₁ h. exec_step database cleared granted s₁ f₁ _ h λ f₂ h.
        bind_step (add_permissions (role_id tenant name) permissions) (λ _. rest) (cleared s₁) f₂ _
          h
          λ u t f₃ e h.
            let (ms, bs) =
              add_permissions-SameSeats (role_id tenant name) permissions (cleared s₁) t f₂ f₃ u
                e in
            let (ms', bs') = seed_roles-SameSeats tenant now ds t s' f₃ fs' x h in
            (ms' ∙ ms, bs' ∙ bs)

pub ensure_tenant_roles_tx-SameSeats :
    (tenant : Str) (now : ℕ) (s s' : Tables) (fs fs' : Faults) (x : Unit {0})
    → ensure_tenant_roles_tx tenant now s fs ≡ ok (x, s', fs')
    → (s'.members ≡ s.members) × (s'.access.bindings ≡ s.access.bindings)
unfolding ensure_tenant_roles_tx SameSeats
ensure_tenant_roles_tx-SameSeats tenant now s s' fs fs' x h =
    guard_step (is_empty tenant) invalid_member _ s fs _ h
      λ _ h. seed_roles-SameSeats tenant now definitions s s' fs fs' x h
