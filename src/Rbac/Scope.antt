-- ===== src/Rbac/Scope.antt =====
-- internal/rbac: every binding stands on the side of its role, whatever is called; and what a
-- binding and a grant give.
use joysteed_maa_s.Base.{
  ℕ, true, false, not, ◌&&◌, List, [], ◌∷◌, Option, none, some, Str, ◌==◌, any, any-find, find, All,
  select-All, ◌≡◌, refl, arith, Faults, ok, err, Option-cases, Bool-cases, inl, inr, subst, sym,
  Result, exec,
}
use joysteed_maa_s.Rbac.{
  Access, Role, RoleBinding, Principal, PrincipalType, tenant_user, platform_admin, other,
  valid_principal, within, binds, has_role_id, Error, create_role, insert_permissions,
  grant_permission, bind_role, bind_to, unbind_role, nullable_tenant, mismatch, insert_binding,
  database, is_tenant_user, is_null,
}

-- The binding's role exists and is of the binding's tenant, and a tenant's user is bound to a
-- tenant's role only.
abbrev pub IsScopedIn : List Role → RoleBinding → Type 0
IsScopedIn roles b =
    (r : Role) × (find (has_role_id b.role_id) roles ≡ some r)
    × (r.tenant_id ≡ b.tenant_id)
    × (is_null b.tenant_id ≡ not (is_tenant_user b.principal_type))

abbrev pub IsScoped : Access → Type 0
IsScoped a = All (IsScopedIn a.roles) a.bindings

-- A new role, whose id is free, hides no other.
scoped_cons :
    (r : Role) (roles : List Role) (bs : List RoleBinding)
    → any (has_role_id r.id) roles ≡ false
    → All (IsScopedIn roles) bs
    → All (IsScopedIn (r ∷ roles)) bs
scoped_cons r roles [] free h = tt
scoped_cons r roles (b ∷ bs) free ((q, found, same, kind), h) =
    ((q, fresh, same, kind), scoped_cons r roles bs free h)
  where
    fresh : find (has_role_id b.role_id) (r ∷ roles) ≡ some q
    fresh = elim (Bool-cases (r.id == b.role_id)) [
      | inl e ↦ absurd (
          ground (
            arith,
            any-find (has_role_id b.role_id) (has_role_id r.id) roles q (λ y k. ground arith) found,
          ))
      | inr e ↦ rw e found
    ]

abbrev with_permission : Str → Str → Access → Access
with_permission role p a = record a {
  role_permissions = record { role_id = role; permission = p } ∷ a.role_permissions;
}

insert_permissions-keeps :
    (role : Str) (seen ps : List Str) (a a' : Access) (fs fs' : Faults)
    → insert_permissions role seen ps a fs ≡ ok (tt, a', fs')
    → (a'.roles ≡ a.roles) × (a'.bindings ≡ a.bindings)
unfolding insert_permissions
insert_permissions-keeps role seen [] a a' fs fs' h = ground arith
insert_permissions-keeps role seen (p ∷ ps) a a' [] fs' h = ground (
  arith,
  insert_permissions-keeps role seen ps a a' [] fs',
  insert_permissions-keeps role (p ∷ seen) ps (with_permission role p a) a' [] fs',
)
insert_permissions-keeps role seen (p ∷ ps) a a' (true ∷ fs) fs' h =
    ground (arith, insert_permissions-keeps role seen ps a a' (true ∷ fs) fs')
insert_permissions-keeps role seen (p ∷ ps) a a' (false ∷ fs) fs' h = ground (
  arith,
  insert_permissions-keeps role seen ps a a' (false ∷ fs) fs',
  insert_permissions-keeps role (p ∷ seen) ps (with_permission role p a) a' fs fs',
)

abbrev tables_after : Access → Result Error (Unit {0} × Access × Faults) → Access
tables_after a (ok (_, s, _)) = s
tables_after a (err e) = a

insert_permissions-IsScoped :
    (role : Str) (seen ps : List Str) (a s : Access) (fs : Faults)
    → IsScoped a
    → IsScoped s
    → IsScoped (tables_after a (insert_permissions role seen ps s fs))
insert_permissions-IsScoped role seen ps a s fs h k =
    ended (insert_permissions role seen ps s fs) refl
  where
    ended :
        (m : Result Error (Unit {0} × Access × Faults))
        → insert_permissions role seen ps s fs ≡ m
        → IsScoped (tables_after a m)
    ended (ok (u, s', fs')) e =
        let (rs, bs) = insert_permissions-keeps role seen ps s s' fs fs' e in
        subst (λ rows. All (IsScopedIn rows) s'.bindings) (sym rs)
          (subst (λ rows. All (IsScopedIn s.roles) rows) (sym bs) k)
    ended (err e) q = h

abbrev with_role : Role → ℕ → Access → Access
with_role role now a = record a {
  roles = record role { created_at = now; updated_at = now } ∷ a.roles;
}

with_role-IsScoped :
    (role : Role) (now : ℕ) (a : Access)
    → any (has_role_id role.id) a.roles ≡ false
    → IsScoped a
    → IsScoped (with_role role now a)
with_role-IsScoped role now a free h =
    scoped_cons (record role { created_at = now; updated_at = now }) a.roles a.bindings free h

create_role-IsScoped :
    (role : Role) (ps : List Str) (now : ℕ) (a : Access) (fs : Faults)
    → IsScoped a
    → IsScoped (create_role role ps now a fs).1
unfolding create_role
create_role-IsScoped role ps now a [] h = ground (
  arith,
  with_role-IsScoped role now a,
  insert_permissions-IsScoped role.id [] ps a (with_role role now a) [],
)
create_role-IsScoped role ps now a (true ∷ fs) h = ground arith
create_role-IsScoped role ps now a (false ∷ fs) h = ground (
  arith,
  with_role-IsScoped role now a,
  insert_permissions-IsScoped role.id [] ps a (with_role role now a) fs,
)

grant_permission-IsScoped :
    (role permission : Str) (a : Access) (fs : Faults)
    → IsScoped a
    → IsScoped (grant_permission role permission a fs).1
unfolding grant_permission
grant_permission-IsScoped role permission a [] h = ground arith
grant_permission-IsScoped role permission a (true ∷ fs) h = ground arith
grant_permission-IsScoped role permission a (false ∷ fs) h = ground arith

unbind_role-IsScoped :
    (role : Str) (p : Principal) (a : Access) (fs : Faults)
    → IsScoped a
    → IsScoped (unbind_role role p a fs).1
unfolding unbind_role
unbind_role-IsScoped role p a [] h = ground (
  arith,
  select-All (IsScopedIn a.roles) (λ b. not (binds role p b && within p b.tenant_id)) a.bindings,
)
unbind_role-IsScoped role p a (true ∷ fs) h = ground arith
unbind_role-IsScoped role p a (false ∷ fs) h = ground (
  arith,
  select-All (IsScopedIn a.roles) (λ b. not (binds role p b && within p b.tenant_id)) a.bindings,
)

-- The role's tenant is the principal's, as the binding records it.
pub same_side :
    (type : PrincipalType) (id t : Str) (tenant : Option Str)
    → valid_principal (record { type = type; id = id; tenant_id = t }) ≡ true
    → mismatch (record { type = type; id = id; tenant_id = t }) tenant ≡ false
    → (tenant ≡ nullable_tenant t) × (is_null (nullable_tenant t) ≡ not (is_tenant_user type))
unfolding valid_principal
same_side tenant_user id [] tenant v m = ground arith
same_side tenant_user id (c ∷ t) none v m = ground arith
same_side tenant_user id (c ∷ t) (some u) v m = ground arith
same_side platform_admin id [] none v m = ground arith
same_side platform_admin id [] (some u) v m = ground arith
same_side platform_admin id (c ∷ t) tenant v m = ground arith
same_side (other s) id t tenant v m = ground arith

abbrev pub binding : Str → Principal → ℕ → RoleBinding
binding role p now = record {
  role_id = role;
  principal_type = p.type;
  principal_id = p.id;
  tenant_id = nullable_tenant p.tenant_id;
  created_at = now;
}

insert_binding-IsScoped :
    (role : Str) (p : Principal) (now : ℕ) (r : Role) (a : Access)
    → valid_principal p ≡ true
    → find (has_role_id role) a.roles ≡ some r
    → mismatch p r.tenant_id ≡ false
    → IsScoped a
    → IsScoped (insert_binding (binding role p now) p a)
insert_binding-IsScoped role p now r a v found m h =
    let (tenant, kind) = same_side p.type p.id p.tenant_id r.tenant_id v m in
    elim (Bool-cases (any (binds role p) a.bindings)) [
      | inl e ↦ rw e h
      | inr e ↦ rw e ((r, found, tenant, kind), h)
    ]

bind_to-IsScoped :
    (role : Str) (p : Principal) (now : ℕ) (r : Role) (a : Access) (fs : Faults)
    → valid_principal p ≡ true
    → find (has_role_id role) a.roles ≡ some r
    → IsScoped a
    → IsScoped (tables_after a (bind_to role p now r a fs))
unfolding bind_to
bind_to-IsScoped role p now r a fs v found h = elim (Bool-cases (mismatch p r.tenant_id)) [
  | inl m ↦ rw m h
  | inr m ↦ rw m (stored fs (insert_binding-IsScoped role p now r a v found m h))
]
  where
    stored :
        (fs : Faults)
        → IsScoped (insert_binding (binding role p now) p a)
        → IsScoped (tables_after a (exec database (insert_binding (binding role p now) p) a fs))
    stored [] k = k
    stored (true ∷ fs) k = h
    stored (false ∷ fs) k = k

bind_role-IsScoped :
    (role : Str) (p : Principal) (now : ℕ) (a : Access) (fs : Faults)
    → IsScoped a
    → IsScoped (bind_role role p now a fs).1
unfolding bind_role
bind_role-IsScoped role p now a fs h = elim (Option-cases (find (has_role_id role) a.roles)) [
  | inl e ↦ missing fs e
  | inr (r, e) ↦ bound fs r e
]
  where
    missing :
        (fs : Faults)
        → find (has_role_id role) a.roles ≡ none
        → IsScoped (bind_role role p now a fs).1
    missing [] e = ground arith
    missing (true ∷ fs) e = ground arith
    missing (false ∷ fs) e = ground arith

    bound :
        (fs : Faults) (r : Role)
        → find (has_role_id role) a.roles ≡ some r
        → IsScoped (bind_role role p now a fs).1
    bound [] r e = ground (arith, bind_to-IsScoped role p now r a [])
    bound (true ∷ fs) r e = ground arith
    bound (false ∷ fs) r e = ground (arith, bind_to-IsScoped role p now r a fs)

pub data Call : Type 0 where
  creates : Role → List Str → Call
  permits : Str → Str → Call
  binds_to unbinds_from : Str → Principal → Call

pub step : Access → ℕ → Faults → Call → Access
step a now fs (creates role ps) = (create_role role ps now a fs).1
step a now fs (permits role permission) = (grant_permission role permission a fs).1
step a now fs (binds_to role p) = (bind_role role p now a fs).1
step a now fs (unbinds_from role p) = (unbind_role role p a fs).1

pub run : Access → List (ℕ × Faults × Call) → Access
run a [] = a
run a ((now, fs, c) ∷ cs) = run (step a now fs c) cs

step-IsScoped :
    (a : Access) (now : ℕ) (fs : Faults) (c : Call) → IsScoped a → IsScoped (step a now fs c)
unfolding step
step-IsScoped a now fs (creates role ps) h = create_role-IsScoped role ps now a fs h
step-IsScoped a now fs (permits role permission) h =
    grant_permission-IsScoped role permission a fs h
step-IsScoped a now fs (binds_to role p) h = bind_role-IsScoped role p now a fs h
step-IsScoped a now fs (unbinds_from role p) h = unbind_role-IsScoped role p a fs h

-- Whatever is called, in whatever order and whichever statements fail: each binding names a role
-- that exists and is of the binding's own tenant, and users of tenants are never bound to a
-- platform role, nor the platform's to a tenant's.
pub run-IsScoped : (a : Access) (cs : List (ℕ × Faults × Call)) → IsScoped a → IsScoped (run a cs)
unfolding run
run-IsScoped a [] h = h
run-IsScoped a ((now, fs, c) ∷ cs) h =
    run-IsScoped (step a now fs c) cs (step-IsScoped a now fs c h)
