-- ===== src/Rbac/Isolation.antt =====
-- No row of another tenant reaches an authorization of internal/rbac.
use joysteed_maa_s.Base.{
  Bool, true, false, ◌&&◌, List, [], ◌∷◌, Str, any, select, ◌≡◌, refl, arith, Faults, ok, err,
  Result,
}
use joysteed_maa_s.Rbac.{
  Access, Role, RolePermission, RoleBinding, Principal, tenant_user, is_tenant, binds, has_role_id,
  joined, authorize, Error,
}

-- What a tenant can see: its roles and bindings, and the permissions, which name no tenant.
abbrev pub side : Str → Access → Access
side t a = record a {
  roles = select (λ r. is_tenant t r.tenant_id) a.roles;
  bindings = select (λ b. is_tenant t b.tenant_id) a.bindings;
}

any-select {ℓ} :
    {A : Type ℓ} (p keep : A → Bool) (xs : List A)
    → any (λ x. p x && keep x) (select keep xs) ≡ any (λ x. p x && keep x) xs
any-select p keep [] = refl
any-select p keep (x ∷ xs) = ground (arith, any-select p keep xs)

joined-side :
    (id t : Str) (roles : List Role) (bs : List RoleBinding) (gs : List RolePermission)
    → select
        (joined
          (record { type = tenant_user; id = id; tenant_id = t })
          (select (λ r. is_tenant t r.tenant_id) roles)
          (select (λ b. is_tenant t b.tenant_id) bs))
        gs
      ≡ select (joined (record { type = tenant_user; id = id; tenant_id = t }) roles bs) gs
unfolding joined
joined-side id t roles bs [] = refl
joined-side id t roles bs (g ∷ gs) = ground (
  arith,
  joined-side id t roles bs gs,
  any-select (binds g.role_id (record { type = tenant_user; id = id; tenant_id = t }))
      (λ b. is_tenant t b.tenant_id) bs,
  any-select (has_role_id g.role_id) (λ r. is_tenant t r.tenant_id) roles,
)

abbrev pub verdict : {A : Type 0} → Result Error (A × Access × Faults) → Result Error A
verdict (ok (x, _, _)) = ok x
verdict (err e) = err e

-- What a tenant's user may do is decided by its own tenant's roles and bindings alone: without every
-- row of another tenant and of the platform, each call has the same answer.
pub authorize_isolated :
    (id t wanted : Str) (a : Access) (fs : Faults)
    → let p : Principal = record { type = tenant_user; id = id; tenant_id = t } in
      verdict (authorize p wanted (side t a) fs) ≡ verdict (authorize p wanted a fs)
unfolding authorize
authorize_isolated id t wanted a [] =
    ground (arith, joined-side id t a.roles a.bindings a.role_permissions)
authorize_isolated id t wanted a (true ∷ fs) = ground arith
authorize_isolated id t wanted a (false ∷ fs) =
    ground (arith, joined-side id t a.roles a.bindings a.role_permissions)
