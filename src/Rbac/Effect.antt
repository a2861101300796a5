-- ===== src/Rbac/Effect.antt =====
-- internal/rbac: what a binding, a grant and an unbinding change in the answers.
use joysteed_maa_s.Base.{
  ℕ, Bool, true, false, not, ◌&&◌, List, [], ◌∷◌, Option, some, Str, ◌==◌, ==_iff, any,
  any-find-some, select, find, find-true, All-find, elem, map, ◌≡◌, refl, arith, ok, Option-cases,
  Bool-cases, inl, inr, subst, sym,
}
use joysteed_maa_s.Rbac.{
  Access, Role, RolePermission, Principal, PrincipalType, tenant_user, platform_admin, other,
  valid_principal, within, binds, has_role_id, joined, distinct, authorize, permission_matches,
  grant_permission, bind_role, unbind_role, nullable_tenant, mismatch, insert_binding, same_type,
  grants,
}
use joysteed_maa_s.Rbac.Scope.{IsScoped, IsScopedIn, same_side, binding}
use joysteed_maa_s.Rbac.Isolation.{verdict}

any_found {ℓ} :
    {A : Type ℓ} (p q : A → Bool) (xs : List A) (x : A)
    → find p xs ≡ some x
    → q x ≡ true
    → any q xs ≡ true
any_found p q [] x e h = absurd (ground arith)
any_found p q (y ∷ ys) x e h = ground (arith, any_found p q ys x)

any-elem :
    (q : Str → Bool) (x : Str) (xs : List Str) → elem x xs ≡ true → q x ≡ true → any q xs ≡ true
any-elem q x [] e h = ground arith
any-elem q x (y ∷ ys) e h = ground (arith, any-elem q x ys, ==_iff x y, ==_iff y x)

any-distinct : (q : Str → Bool) (xs : List Str) → any q (distinct xs) ≡ any q xs
unfolding distinct
any-distinct q [] = refl
any-distinct q (x ∷ xs) = ground (arith, any-distinct q xs, any-elem q x (distinct xs))

any-joined :
    (q : Str → Bool) (keep : RolePermission → Bool) (gs : List RolePermission)
    → any q (map (λ g. g.permission) (select keep gs)) ≡ any (λ g. keep g && q g.permission) gs
any-joined q keep [] = refl
any-joined q keep (g ∷ gs) = ground (arith, any-joined q keep gs)

-- A permission row that is joined and matches lets the request pass.
passes :
    (p : Principal) (wanted : Str) (a : Access)
    → valid_principal p ≡ true
    → any
        (λ g. joined p a.roles a.bindings g && permission_matches g.permission wanted)
        a.role_permissions
      ≡ true
    → authorize p wanted a [] ≡ ok (tt, a, [])
unfolding authorize
passes p wanted a v h = ground (
  arith,
  any-distinct (λ g. permission_matches g wanted)
      (map (λ g. g.permission) (select (joined p a.roles a.bindings) a.role_permissions)),
  any-joined (λ g. permission_matches g wanted) (joined p a.roles a.bindings) a.role_permissions,
)

abbrev IsBinding : Str → Principal → ℕ → Access → Access → Role → Type 0
IsBinding role p now a b r =
    (find (has_role_id role) a.roles ≡ some r)
    × (valid_principal p ≡ true)
    × (mismatch p r.tenant_id ≡ false)
    × (b ≡ insert_binding (binding role p now) p a)

bind_role_ok :
    (role : Str) (p : Principal) (now : ℕ) (a b : Access)
    → bind_role role p now a [] ≡ (ok tt, b)
    → (r : Role) × IsBinding role p now a b r
unfolding bind_role
bind_role_ok role p now a b e = elim (Option-cases (find (has_role_id role) a.roles)) [
  | inl f ↦ absurd (ground arith)
  | inr (r, f) ↦ (r, (f, ground arith, ground arith, ground arith))
]

within_of :
    (p : Principal) (tenant : Option Str) → mismatch p tenant ≡ false → within p tenant ≡ true
within_of p tenant m = ground arith

same_type_refl : (t : PrincipalType) → same_type t t ≡ true
same_type_refl tenant_user = refl
same_type_refl platform_admin = refl
same_type_refl (other s) = (==_iff s s).1 refl

bound_row :
    (role : Str) (p : Principal) (now : ℕ) (a b : Access) (r : Role)
    → IsScoped a
    → IsBinding role p now a b r
    → any (λ x. binds role p x && within p x.tenant_id) b.bindings ≡ true
bound_row role p now a b r h (f, v, m, e) = elim (Bool-cases (any (binds role p) a.bindings)) [
  | inl old ↦
      let (x, at) = any-find-some (binds role p) a.bindings old in
      let (q, found, same, kind) = All-find (IsScopedIn a.roles) (binds role p) a.bindings x h at in
      let hit = find-true (binds role p) a.bindings x at in
      let owner : x.role_id ≡ role = (==_iff x.role_id role).0 (ground arith) in
      let found' : find (has_role_id role) a.roles ≡ some q =
        subst (λ i. find (has_role_id i) a.roles ≡ some q) owner found in
      let one : r.tenant_id ≡ x.tenant_id = ground arith in
      let side : within p x.tenant_id ≡ true =
        subst (λ t. within p t ≡ true) one (within_of p r.tenant_id m) in
      let stays : b.bindings ≡ a.bindings = ground arith in
      subst (λ bs. any (λ x. binds role p x && within p x.tenant_id) bs ≡ true) (sym stays)
        (any_found (binds role p) (λ x. binds role p x && within p x.tenant_id) a.bindings x at
          (rw (hit, side)))
  | inr new ↦
      let (tenant, kind) = same_side p.type p.id p.tenant_id r.tenant_id v m in
      let side : within p (nullable_tenant p.tenant_id) ≡ true =
        subst (λ t. within p t ≡ true) tenant (within_of p r.tenant_id m) in
      let stays : b.bindings ≡ binding role p now ∷ a.bindings = ground arith in
      ground (arith, same_type_refl p.type, ==_iff role role, ==_iff p.id p.id)
]

-- The binding that a successful call leaves, old or new, and its role, are on the principal's side.
bound :
    (role : Str) (p : Principal) (now : ℕ) (a b : Access) (g : RolePermission)
    → IsScoped a
    → bind_role role p now a [] ≡ (ok tt, b)
    → g.role_id ≡ role
    → (valid_principal p ≡ true) × (joined p b.roles b.bindings g ≡ true)
unfolding joined
bound role p now a b g h e same =
    let (r, (f, v, m, w)) = bind_role_ok role p now a b e in
    let row = bound_row role p now a b r h (f, v, m, w) in
    let fits : (has_role_id role r && within p r.tenant_id) ≡ true =
      ground (arith, find-true (has_role_id role) a.roles r f, within_of p r.tenant_id m) in
    let roles : b.roles ≡ a.roles = ground arith in
    let owner =
      any_found (has_role_id role) (λ r. has_role_id role r && within p r.tenant_id) a.roles r f
        fits in
    (v, rw (same, roles, row, owner))

-- Other rows of the permission table do not matter to a row's join.
granted_row :
    (p : Principal) (role permission wanted : Str) (b c : Access)
    → grant_permission role permission b [] ≡ (ok tt, c)
    → permission_matches permission wanted ≡ true
    → joined p b.roles b.bindings (record { role_id = role; permission = permission }) ≡ true
    → ((g : RolePermission) → g.role_id ≡ role → joined p b.roles b.bindings g ≡ true)
    → any
        (λ g. joined p c.roles c.bindings g && permission_matches g.permission wanted)
        c.role_permissions
      ≡ true
unfolding grant_permission
granted_row p role permission wanted b c e m j all =
    elim (Bool-cases (any (grants role permission) b.role_permissions)) [
      | inl old ↦
          let (g, at) = any-find-some (grants role permission) b.role_permissions old in
          let hit = find-true (grants role permission) b.role_permissions g at in
          let owner : g.role_id ≡ role = (==_iff g.role_id role).0 (ground arith) in
          let same : g.permission ≡ permission =
            (==_iff g.permission permission).0 (ground arith) in
          let stays : c ≡ b = ground arith in
          rw stays (
            any_found (grants role permission)
              (λ g. joined p b.roles b.bindings g && permission_matches g.permission wanted)
              b.role_permissions g at (rw (all g owner, same, m)))
      | inr new ↦ ground arith
    ]

-- Once a role is bound to a principal and a permission granted to the role, every request that the
-- permission covers is allowed, whatever bindings and grants there were before.
pub authorize-granted :
    (role permission wanted : Str) (p : Principal) (now : ℕ) (a b c : Access)
    → IsScoped a
    → bind_role role p now a [] ≡ (ok tt, b)
    → grant_permission role permission b [] ≡ (ok tt, c)
    → permission_matches permission wanted ≡ true
    → authorize p wanted c [] ≡ ok (tt, c, [])
authorize-granted role permission wanted p now a b c h e k m =
    let at = λ (g : RolePermission). bound role p now a b g h e in
    let here : RolePermission = record { role_id = role; permission = permission } in
    let valid = at here refl in
    passes p wanted c valid.0
      (granted_row p role permission wanted b c k m valid.1 (λ g same. (at g same).1))

any_gone {ℓ} :
    {A : Type ℓ} (q : A → Bool) (xs : List A) → any q (select (λ x. not (q x)) xs) ≡ false
any_gone q [] = refl
any_gone q (x ∷ xs) = ground (arith, any_gone q xs)

unjoined :
    (role : Str) (p : Principal) (a b : Access) (g : RolePermission)
    → unbind_role role p a [] ≡ (ok tt, b)
    → g.role_id ≡ role
    → joined p b.roles b.bindings g ≡ false
unfolding unbind_role joined
unjoined role p a b g e same =
    let gone : any (λ x. binds role p x && within p x.tenant_id) b.bindings ≡ false =
      ground (arith, any_gone (λ x. binds role p x && within p x.tenant_id) a.bindings) in
    rw (same, gone)

select-unjoined :
    (role : Str) (keep : RolePermission → Bool) (gs : List RolePermission)
    → ((g : RolePermission) → g.role_id ≡ role → keep g ≡ false)
    → select keep (select (λ g. not (g.role_id == role)) gs) ≡ select keep gs
select-unjoined role keep [] h = refl
select-unjoined role keep (g ∷ gs) h =
    ground (arith, select-unjoined role keep gs h, h g, ==_iff g.role_id role)

-- After an unbinding the principal's answers are those of a store in which the role grants nothing,
-- so what it may still do comes from its other roles.
pub authorize-unbound :
    (role wanted : Str) (p : Principal) (a b : Access)
    → unbind_role role p a [] ≡ (ok tt, b)
    → verdict (authorize p wanted b [])
      ≡ verdict (
          authorize p wanted
            (record b {
              role_permissions = select (λ g. not (g.role_id == role)) b.role_permissions;
            })
            [])
unfolding authorize
authorize-unbound role wanted p a b e = ground (
  arith,
  select-unjoined role (joined p b.roles b.bindings) b.role_permissions
      (λ g same. unjoined role p a b g e same),
)
