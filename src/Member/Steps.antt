-- ===== src/Member/Steps.antt =====
-- internal/member: what a call that succeeds has read and written.
use joysteed_maa_s.Base.{
  ℕ, Bool, true, false, not, ◌&&◌, ◌||◌, List, [], ◌∷◌, Option, none, some, Str, ◌==◌, is_empty,
  trim_space, find, update_where, Result, ok, err, Faults, Tx, pure, ◌>>=◌, ◌>>◌, bind_step,
  query_step, exec_step, guard_step, ◌≡◌, refl, sym, ◌∙◌, arith, Bool-cases, inl, inr,
  if◌then◌else◌,
}
use joysteed_maa_s.Rbac.{RoleBinding}
use joysteed_maa_s.Member.{
  Member, View, Status, Tables, Library, Error, database, invalid_member, not_found, is_active,
  is_seat, is_member, with_bindings, or_fail, lift, member_role, role_found,
}
use joysteed_maa_s.Member.Roles.{RoleName, owner, valid_role, role_of_id}
use joysteed_maa_s.Member.Seats.{reseated, replace_role_ok}
use joysteed_maa_s.Member.Update.{
  UpdateInput, same_role, next_role, next_status, other_owner, keep_owner, updated, checked_name,
  checked_password, change_role, write_member, update_tx,
}

module _ {ℓ} {A B : Type 0} {C : Type ℓ} where
  pub or_fail_step :
      (e : Error) (o : Option A) (k : A → Tx Error Tables B) (s : Tables) (fs : Faults)
      (b : B × Tables × Faults)
      → (or_fail e o >>= k) s fs ≡ ok b
      → ((a : A) → o ≡ some a → k a s fs ≡ ok b → C)
      → C
  or_fail_step e none k s fs b h go = absurd (ground arith)
  or_fail_step e (some a) k s fs b h go = go a refl h

  pub lift_step :
      (r : Result Error A) (k : A → Tx Error Tables B) (s : Tables) (fs : Faults)
      (b : B × Tables × Faults)
      → (lift r >>= k) s fs ≡ ok b
      → ((a : A) → r ≡ ok a → k a s fs ≡ ok b → C)
      → C
  lift_step (err e) k s fs b h go = absurd (ground arith)
  lift_step (ok a) k s fs b h go = go a refl h

-- The role of a member that was found is that of one of its bindings.
abbrev pub HasRole : Str → Str → RoleName → List RoleBinding → Type 0
HasRole t id r bs =
    (b : RoleBinding) × (find (is_seat t id) bs ≡ some b)
    × (role_of_id b.role_id ≡ r)
    × (valid_role r ≡ true)

module _ {ℓ} {B : Type 0} {C : Type ℓ} where
  role_found_step :
      (t id : Str) (o : Option RoleBinding) (k : RoleName → Tx Error Tables B) (s : Tables)
      (fs : Faults) (b : B × Tables × Faults)
      → find (is_seat t id) s.access.bindings ≡ o
      → (role_found o >>= k) s fs ≡ ok b
      → ((r : RoleName) → HasRole t id r s.access.bindings → k r s fs ≡ ok b → C)
      → C
  role_found_step t id none k s fs b e h go = absurd (ground arith)
  role_found_step t id (some q) k s fs b e h go =
      elim (Bool-cases (valid_role (role_of_id q.role_id))) [
        | inl y ↦ go (role_of_id q.role_id) (q, e, refl, y) (ground arith)
        | inr n ↦ absurd (ground arith)
      ]

  pub member_role_step :
      (t id : Str) (k : RoleName → Tx Error Tables B) (s : Tables) (fs : Faults)
      (b : B × Tables × Faults)
      → (member_role t id >>= k) s fs ≡ ok b
      → ((r : RoleName) (fs' : Faults) → HasRole t id r s.access.bindings → k r s fs' ≡ ok b → C)
      → C
  unfolding member_role
  member_role_step t id k s [] b h go =
      role_found_step t id _ k s [] b refl h (λ r has h. go r [] has h)
  member_role_step t id k s (true ∷ fs) b h go = absurd (ground arith)
  member_role_step t id k s (false ∷ fs) b h go =
      role_found_step t id _ k s fs b refl h (λ r has h. go r fs has h)

abbrev pub loses_owner : RoleName → RoleName → Status → Bool
loses_owner current next status =
    same_role current owner && (not (same_role next owner) || not (is_active status))

keep_owner_step {ℓ} :
    {B : Type 0} {C : Type ℓ} (t id : Str) (current next : RoleName) (status : Status)
    (k : Tx Error Tables B) (s : Tables) (fs : Faults) (b : B × Tables × Faults)
    → (keep_owner t id current next status >> k) s fs ≡ ok b
    → ((fs' : Faults)
        → (loses_owner current next status ≡ true → other_owner t id s ≡ true)
        → k s fs' ≡ ok b
        → C)
    → C
unfolding keep_owner
keep_owner_step {C = C} t id current next status k s fs b h go =
    elim (Bool-cases (loses_owner current next status)) [
      | inr n ↦ go fs (λ y. absurd (ground arith)) (ground arith)
      | inl y ↦ elim (Bool-cases (other_owner t id s)) [
        | inl o ↦ asked fs y o h
        | inr n ↦ absurd (refused fs y n h)
      ]
    ]
  where
    asked :
        (fs : Faults)
        → loses_owner current next status ≡ true
        → other_owner t id s ≡ true
        → (keep_owner t id current next status >> k) s fs ≡ ok b
        → C
    asked [] y o h = go [] (λ _. o) (ground arith)
    asked (true ∷ fs) y o h = absurd (ground arith)
    asked (false ∷ fs) y o h = go fs (λ _. o) (ground arith)

    refused :
        (fs : Faults)
        → loses_owner current next status ≡ true
        → other_owner t id s ≡ false
        → (keep_owner t id current next status >> k) s fs ≡ ok b
        → ⊥
    refused [] y o h = ground arith
    refused (true ∷ fs) y o h = ground arith
    refused (false ∷ fs) y o h = ground arith

-- The tables after an update.
abbrev pub changed :
    Member → RoleName → RoleName → Status → Option Str → Option Str → ℕ → Tables → Tables
changed row current next status name hash now s = record {
  members = update_where (λ m. m.id == row.id) (updated status name hash now) s.members;
  access = record s.access {
    bindings =
        if same_role next current
        then s.access.bindings
        else reseated row.tenant_id row.id next now s.access.bindings;
  };
  tenants = s.tenants;
}

change_role_ok :
    (t id : Str) (current next : RoleName) (now : ℕ) (s s' : Tables) (fs fs' : Faults)
    (x : Unit {0})
    → change_role t id current next now s fs ≡ ok (x, s', fs')
    → s' ≡ with_bindings (λ bs. if same_role next current then bs else reseated t id next now bs) s
change_role_ok t id current next now s s' fs fs' x h = elim (Bool-cases (same_role next current)) [
  | inl y ↦ rw y (ground arith)
  | inr n ↦ rw n (replace_role_ok t id next now s s' fs fs' x (ground arith)).1
]

pure_state :
    {A : Type 0} (a b : A) (s s' : Tables) (fs fs' : Faults)
    → pure {E = Error} a s fs ≡ ok (b, s', fs')
    → s ≡ s'
pure_state a b s s' fs fs' h = ground arith

write_member_ok :
    (k : Library) (row : Member) (x : UpdateInput) (current next : RoleName) (status : Status)
    (now : ℕ) (s s' : Tables) (fs fs' : Faults) (v : View)
    → write_member k row x current next status now s fs ≡ ok (v, s', fs')
    → (name : Option Str) × (hash : Option Str) × (s'
        ≡ changed row current next status name hash now s)
unfolding write_member
write_member_ok k row x current next status now s s' fs fs' v h =
    lift_step (checked_name x.display_name) _ s fs _ h λ name _ h.
      lift_step (checked_password k x.password) _ s fs _ h λ hash _ h.
        exec_step database
          (λ s. record s {
            members = update_where (λ m. m.id == row.id) (updated status name hash now) s.members;
          })
          _ s fs _ h
          λ f₁ h.
            bind_step (change_role row.tenant_id row.id current next now) _
              (record s {
                members =
                    update_where (λ m. m.id == row.id) (updated status name hash now) s.members;
              })
              f₁ _ h
              λ u s₁ f₂ e h.
                query_step database (λ s. find (λ m. m.id == row.id) s.members) _ s₁ f₂ _ h
                  λ f₃ h.
                    or_fail_step database (find (λ m. m.id == row.id) s₁.members) _ s₁ f₃ _ h
                      λ m _ h. (
                        name,
                        hash,
                        sym (pure_state _ _ s₁ s' f₃ fs' h)
                            ∙ change_role_ok row.tenant_id row.id current next now _ s₁ f₁ f₂ u e,
                      )

next_role_valid :
    (current next : RoleName) (o : Option RoleName)
    → valid_role current ≡ true
    → next_role current o ≡ ok next
    → valid_role next ≡ true
next_role_valid current next none v h = ground arith
next_role_valid current next (some r) v h = ground arith

-- What an update that succeeds has read: the row, its role, and the answer of the owners' count.
pub update_tx_ok :
    (k : Library) (t id : Str) (x : UpdateInput) (now : ℕ) (s s' : Tables) (fs fs' : Faults)
    (v : View)
    → update_tx k t id x now s fs ≡ ok (v, s', fs')
    → (row : Member) × (current : RoleName) × (next : RoleName) × (status : Status) × (name : Option
        Str)
      × (hash : Option Str) × (find (is_member t id) s.members ≡ some row)
      × HasRole row.tenant_id row.id current s.access.bindings
      × (valid_role next ≡ true)
      × (loses_owner current next status ≡ true → other_owner t row.id s ≡ true)
      × (s' ≡ changed row current next status name hash now s)
unfolding update_tx
update_tx_ok k t id x now s s' fs fs' v h =
    guard_step (is_empty t || is_empty (trim_space id)) invalid_member _ s fs _ h λ _ h.
      query_step database (λ s. find (is_member t id) s.members) _ s fs _ h
        λ f₁ h. or_fail_step not_found (find (is_member t id) s.members) _ s f₁ _ h λ row found h.
          member_role_step row.tenant_id row.id _ s f₁ _ h λ current f₂ has h.
            lift_step (next_role current x.role) _ s f₂ _ h λ next chosen h.
              lift_step (next_status row.status x.status) _ s f₂ _ h λ status _ h.
                keep_owner_step t row.id current next status _ s f₂ _ h λ f₃ kept h.
                  let (name, hash, last) =
                    write_member_ok k row x current next status now s s' f₃ fs' v h in
                  (
                    row,
                    current,
                    next,
                    status,
                    name,
                    hash,
                    found,
                    has,
                    next_role_valid current next x.role has.3 chosen,
                    kept,
                    last,
                  )
