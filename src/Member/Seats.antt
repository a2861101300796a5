-- ===== src/Member/Seats.antt =====
-- internal/member: what replaceRole does to the bindings of a tenant's roles.
use joysteed_maa_s.Base.{
  ℕ, Bool, true, false, not, List, [], ◌∷◌, Str, ◌==◌, ==_iff, elem, any, select, select-All, All,
  ok, Faults, ◌≡◌, refl, sym, subst, ◌∙◌, arith, Bool-cases, inl, inr, ◌≢◌, ◌⊎◌,
}
use joysteed_maa_s.Rbac.{RoleBinding, tenant_user, same_type, is_tenant, binds}
use joysteed_maa_s.Member.{Tables, user, is_seat, seat, with_bindings, insert_seat, replace_role}
use joysteed_maa_s.Member.Roles.{
  RoleName, owner, admin, developer, viewer, other, valid_role, role_id, tenant_role_ids,
  role_id_injective,
}

-- A binding to one of the tenant's four roles names the tenant.
abbrev pub IsHome : Str → RoleBinding → Type 0
IsHome t b =
    same_type b.principal_type tenant_user ≡ true
    → elem b.role_id (tenant_role_ids t) ≡ true
    → is_tenant t b.tenant_id ≡ true

-- Nobody holds two of the tenant's four roles.
abbrev pub IsSingle : Str → List RoleBinding → Type 0
IsSingle t bs =
    (id : Str) (r q : RoleName)
    → valid_role r ≡ true
    → valid_role q ≡ true
    → any (binds (role_id t r) (user t id)) bs ≡ true
    → any (binds (role_id t q) (user t id)) bs ≡ true
    → r ≡ q

abbrev pub IsSeated : Str → List RoleBinding → Type 0
IsSeated t bs = All (IsHome t) bs × IsSingle t bs

pub elem_role :
    (t : Str) (r : RoleName) → valid_role r ≡ true → elem (role_id t r) (tenant_role_ids t) ≡ true
unfolding valid_role
elem_role t owner h = ground (arith, ==_iff (role_id t owner) (role_id t owner))
elem_role t admin h = ground (arith, ==_iff (role_id t admin) (role_id t admin))
elem_role t developer h = ground (arith, ==_iff (role_id t developer) (role_id t developer))
elem_role t viewer h = ground (arith, ==_iff (role_id t viewer) (role_id t viewer))
elem_role t (other s) h = absurd (ground arith)

pub role_elem :
    (t x : Str)
    → elem x (tenant_role_ids t) ≡ true
    → (r : RoleName) × (valid_role r ≡ true) × (x ≡ role_id t r)
unfolding valid_role
role_elem t x h = elim (Bool-cases (role_id t owner == x)) [
  | inl e ↦ (owner, refl, sym ((==_iff _ _).0 e))
  | inr n ↦ elim (Bool-cases (role_id t admin == x)) [
    | inl e ↦ (admin, refl, sym ((==_iff _ _).0 e))
    | inr m ↦ elim (Bool-cases (role_id t developer == x)) [
      | inl e ↦ (developer, refl, sym ((==_iff _ _).0 e))
      | inr k ↦ (viewer, refl, sym ((==_iff _ _).0 (ground arith)))
    ]
  ]
]

any-select {ℓ} :
    {A : Type ℓ} (p q : A → Bool) (xs : List A) → any p (select q xs) ≡ true → any p xs ≡ true
any-select p q [] h = h
any-select p q (x ∷ xs) h = ground (arith, any-select p q xs)

pub any-select_kept {ℓ} :
    {A : Type ℓ} (p q : A → Bool) (xs : List A)
    → ((x : A) → p x ≡ true → q x ≡ true)
    → any p xs ≡ true
    → any p (select q xs) ≡ true
any-select_kept p q [] keep h = h
any-select_kept p q (x ∷ xs) keep h = ground (arith, keep x, any-select_kept p q xs keep)

-- After the deletion nobody holds a role of the tenant under the id.
vacated :
    (t id : Str) (r : RoleName) (bs : List RoleBinding)
    → valid_role r ≡ true
    → All (IsHome t) bs
    → any (binds (role_id t r) (user t id)) (select (λ b. not (is_seat t id b)) bs) ≡ false
vacated t id r [] v h = refl
vacated t id r (b ∷ bs) v (home, homes) =
    ground (arith, vacated t id r bs v homes, ==_iff b.role_id (role_id t r), elem_role t r v, home)

abbrev pub reseated : Str → Str → RoleName → ℕ → List RoleBinding → List RoleBinding
reseated t id role now bs = seat t id role now ∷ select (λ b. not (is_seat t id b)) bs

seat-IsHome :
    (t u id : Str) (role : RoleName) (now : ℕ)
    → valid_role role ≡ true
    → IsHome t (seat u id role now)
seat-IsHome t u id role now v user held =
    let (r, w, same) = role_elem t (role_id u role) held in
    (==_iff u t).1 (role_id_injective u t role r v w same).0

seat-binds :
    (t u id j : Str) (role r : RoleName) (now : ℕ)
    → valid_role role ≡ true
    → valid_role r ≡ true
    → binds (role_id t r) (user t j) (seat u id role now) ≡ true
    → (u ≡ t) × (role ≡ r) × (id ≡ j)
seat-binds t u id j role r now v w h =
    let (same, role_same) =
      role_id_injective u t role r v w ((==_iff (role_id u role) (role_id t r)).0 (ground arith)) in
    (same, role_same, (==_iff id j).0 (ground arith))

-- A binding of one role for an id after the change: the new seat, or one that stood before.
reseated-binds :
    (t u id j : Str) (role r : RoleName) (now : ℕ) (bs : List RoleBinding)
    → valid_role role ≡ true
    → valid_role r ≡ true
    → All (IsHome t) bs
    → any (binds (role_id t r) (user t j)) (reseated u id role now bs) ≡ true
    → ((u ≡ t) × (role ≡ r) × (id ≡ j))
      ⊎ ((any (binds (role_id t r) (user t j)) bs ≡ true) × ((u ≡ t) → id ≢ j))
reseated-binds t u id j role r now bs v w homes h =
    elim (Bool-cases (binds (role_id t r) (user t j) (seat u id role now))) [
      | inl e ↦ inl (seat-binds t u id j role r now v w e)
      | inr n ↦
          let rest : any (binds (role_id t r) (user t j)) (select (λ b. not (is_seat u id b)) bs)
              ≡ true =
            ground arith in
          inr (
            any-select _ _ bs rest,
            λ same i. absurd (
                ground (
                  arith,
                  vacated t id r bs w homes,
                  subst
                      (λ k.
                        any (binds (role_id t r) (user t k)) (select (λ b. not (is_seat t id b)) bs)
                        ≡ true)
                      (sym i)
                      (subst
                        (λ a.
                          any (binds (role_id t r) (user t j))
                            (select (λ b. not (is_seat a id b)) bs)
                          ≡ true)
                        same rest),
                )),
          )
    ]

pub reseated-IsSeated :
    (t u id : Str) (role : RoleName) (now : ℕ) (bs : List RoleBinding)
    → valid_role role ≡ true
    → IsSeated t bs
    → IsSeated t (reseated u id role now bs)
reseated-IsSeated t u id role now bs v (homes, single) = (
  (seat-IsHome t u id role now v, select-All (IsHome t) _ bs homes),
  λ j r q w x h k. elim (reseated-binds t u id j role r now bs v w homes h) [
    | inl (same, e, i) ↦ elim (reseated-binds t u id j role q now bs v x homes k) [
      | inl (_, e', _) ↦ sym e ∙ e'
      | inr (_, apart) ↦ absurd (apart same i)
    ]
    | inr (a, apart) ↦ elim (reseated-binds t u id j role q now bs v x homes k) [
      | inl (same, _, i) ↦ absurd (apart same i)
      | inr (b, _) ↦ single j r q w x a b
    ]
  ],
)

insert_seat_ok :
    (u id : Str) (role : RoleName) (now : ℕ) (s s' : Tables) (fs fs' : Faults) (x : Unit {0})
    → insert_seat u id role now s fs ≡ ok (x, s', fs')
    → s' ≡ with_bindings (λ bs. seat u id role now ∷ bs) s
insert_seat_ok u id role now s s' [] fs' x h = ground arith
insert_seat_ok u id role now s s' (true ∷ fs) fs' x h = absurd (ground arith)
insert_seat_ok u id role now s s' (false ∷ fs) fs' x h = ground arith

pub replace_role_ok :
    (u id : Str) (role : RoleName) (now : ℕ) (s s' : Tables) (fs fs' : Faults) (x : Unit {0})
    → replace_role u id role now s fs ≡ ok (x, s', fs')
    → (valid_role role ≡ true) × (s' ≡ with_bindings (reseated u id role now) s)
unfolding replace_role
replace_role_ok u id role now s s' [] fs' x h = (
  ground arith,
  ground (
    arith,
    insert_seat_ok u id role now (with_bindings (select (λ b. not (is_seat u id b))) s) s' [] fs' x,
  ),
)
replace_role_ok u id role now s s' (true ∷ fs) fs' x h = absurd (ground arith)
replace_role_ok u id role now s s' (false ∷ []) fs' x h = (
  ground arith,
  ground (
    arith,
    insert_seat_ok u id role now (with_bindings (select (λ b. not (is_seat u id b))) s) s' [] fs' x,
  ),
)
replace_role_ok u id role now s s' (false ∷ true ∷ fs) fs' x h = absurd (ground arith)
replace_role_ok u id role now s s' (false ∷ false ∷ fs) fs' x h = (
  ground arith,
  ground (
    arith,
    insert_seat_ok u id role now (with_bindings (select (λ b. not (is_seat u id b))) s) s' fs fs' x,
  ),
)
