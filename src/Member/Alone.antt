-- ===== src/Member/Alone.antt =====
-- internal/member: the tenant's last active owner, told from the tables alone.
use joysteed_maa_s.Base.{
  true, false, not, ◌&&◌, List, [], ◌∷◌, Option, none, some, Str, ◌==◌, ==_iff, ne_of_test, any,
  elem, find-true, any-find-some, Bool-cases, All, ok, inl, inr, ◌≡◌, ◌≢◌, ◌⊎◌, refl, sym, ap,
  subst, ◌∙◌, arith,
}
use joysteed_maa_s.Rbac.{RoleBinding, binds}
use joysteed_maa_s.Member.{
  Status, active, disabled, other, Member, Tables, is_active, user, is_seat,
}
use joysteed_maa_s.Member.Roles.{
  RoleName, owner, valid_role, role_id, role_of_id, tenant_role_ids, role_of_id-role_id,
}
use joysteed_maa_s.Member.Seats.{IsHome, IsSeated, elem_role, role_elem}
use joysteed_maa_s.Member.Steps.{HasRole}
use joysteed_maa_s.Member.Owner.{holds, role_read}
use joysteed_maa_s.Member.Update.{UpdateInput, next_role, next_status, is_active_owner}

-- No other active member of the tenant is bound to its role of owner.
abbrev pub IsAlone : Str → Str → Tables → Type 0
IsAlone t id s =
    All
      (λ m.
        m.tenant_id ≡ t → m.id ≢ id → m.status ≡ active → holds t m.id s.access.bindings ≡ false)
      s.members

-- The update names one of the four roles, if any, and one of the two statuses, if any.
abbrev pub IsProper : UpdateInput → Type 0
IsProper x =
    ((x.role ≡ none) ⊎ ((r : RoleName) × (x.role ≡ some r) × (valid_role r ≡ true)))
    × ((x.status ≡ none) ⊎ ((x.status ≡ some active) ⊎ (x.status ≡ some disabled)))

-- The update asks for another role than owner, or for the end of the active status.
abbrev pub Demotes : UpdateInput → Type 0
Demotes x = ((r : RoleName) × (x.role ≡ some r) × (r ≢ owner)) ⊎ (x.status ≡ some disabled)

any_seat :
    (t i : Str) (bs : List RoleBinding)
    → All (IsHome t) bs
    → holds t i bs ≡ true
    → any (is_seat t i) bs ≡ true
any_seat t i [] h k = absurd (ground arith)
any_seat t i (b ∷ bs) (home, homes) k = elim (Bool-cases (binds (role_id t owner) (user t i) b)) [
  | inl y ↦
      let role : b.role_id ≡ role_id t owner = (==_iff _ _).0 (ground arith) in
      let known = elem_role t owner (unfold valid_role in refl) in
      let listed : elem b.role_id (tenant_role_ids t) ≡ true =
        subst (λ r. elem r (tenant_role_ids t) ≡ true) (sym role) known in
      ground (arith, home (ground arith) listed)
  | inr n ↦ ground (arith, any_seat t i bs homes)
]

-- A member that is bound to the role of owner is read as one.
pub owner_read :
    (t i : Str) (bs : List RoleBinding) → IsSeated t bs → holds t i bs ≡ true → HasRole t i owner bs
owner_read t i bs (homes, single) held =
    let (b, found) = any-find-some (is_seat t i) bs (any_seat t i bs homes held) in
    let seated = find-true (is_seat t i) bs b found in
    let (q, valid, same) = role_elem t b.role_id (ground arith) in
    let named : role_of_id b.role_id ≡ q = ap role_of_id same ∙ role_of_id-role_id t q valid in
    let is_owner = role_read t i q bs single (b, found, named, valid) held in
    subst (λ r. HasRole t i r bs) is_owner (b, found, named, valid)

is_active_lem : (s : Status) → is_active s ≡ true → s ≡ active
is_active_lem active h = refl
is_active_lem disabled h = absurd (ground arith)
is_active_lem (other s) h = absurd (ground arith)

pub no_other :
    (t id : Str) (bs : List RoleBinding) (ms : List Member)
    → All (λ m. m.tenant_id ≡ t → m.id ≢ id → m.status ≡ active → holds t m.id bs ≡ false) ms
    → any (λ m. is_active_owner t bs m && not (m.id == id)) ms ≡ false
no_other t id bs [] h = refl
no_other t id bs (m ∷ ms) (h, hs) = elim (Bool-cases (is_active_owner t bs m && not (m.id == id))) [
  | inl y ↦
      let home = (==_iff m.tenant_id t).0 (ground arith) in
      let away = ne_of_test m.id id (ground arith) in
      let unbound = h home away (is_active_lem m.status (ground arith)) in absurd (ground arith)
  | inr n ↦ ground (arith, no_other t id bs ms hs)
]

-- What the update makes of the role and of the status.
abbrev pub Outcome : UpdateInput → Status → Type 0
Outcome x current =
    (next : RoleName) × (status : Status) × (next_role owner x.role ≡ ok next)
    × (next_status current x.status ≡ ok status)
    × ((next ≢ owner) ⊎ (is_active status ≡ false))

role_asked :
    (o : Option RoleName)
    → (o ≡ none) ⊎ ((r : RoleName) × (o ≡ some r) × (valid_role r ≡ true))
    → (next : RoleName) × (next_role owner o ≡ ok next) × ((r : RoleName) → o ≡ some r → next ≡ r)
role_asked none h = (owner, refl, λ r e. absurd (ground arith))
role_asked (some q) (inl e) = absurd (ground arith)
role_asked (some q) (inr (r, e, valid)) =
    let same : r ≡ q = ground arith in
    let known : valid_role q ≡ true = subst (λ r. valid_role r ≡ true) same valid in
    (q, rw known refl, λ p f. ground arith)

status_asked :
    (current : Status) (o : Option Status)
    → (o ≡ none) ⊎ ((o ≡ some active) ⊎ (o ≡ some disabled))
    → (status : Status) × (next_status current o ≡ ok status)
      × (o ≡ some disabled → is_active status ≡ false)
status_asked current none h = (current, refl, λ e. absurd (ground arith))
status_asked current (some active) h = (active, refl, λ e. absurd (ground arith))
status_asked current (some disabled) h = (disabled, refl, λ e. refl)
status_asked current (some (other s)) (inl e) = absurd (ground arith)
status_asked current (some (other s)) (inr (inl e)) = absurd (ground arith)
status_asked current (some (other s)) (inr (inr e)) = absurd (ground arith)

pub asked_outcome :
    (x : UpdateInput) (current : Status) → IsProper x → Demotes x → Outcome x current
asked_outcome x current (roles, statuses) less =
    let (next, named, is_next) = role_asked x.role roles in
    let (status, set, off) = status_asked current x.status statuses in
    (
      next,
      status,
      named,
      set,
      elim less [
        | inl (r, e, away) ↦ inl (λ same. away (sym (is_next r e) ∙ same))
        | inr e ↦ inr (off e)
      ],
    )
