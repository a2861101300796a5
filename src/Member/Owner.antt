-- ===== src/Member/Owner.antt =====
-- internal/member: a tenant that has an active owner keeps one.
use joysteed_maa_s.Base.{
  ℕ, Bool, true, false, not, ◌&&◌, List, [], ◌∷◌, Option, some, Str, ◌==◌, ==_iff, ne_of_test, any,
  any-find, any_weaken, find, find-true, update_where, ◌≡◌, ◌≢◌, ◌↔◌, refl, sym, ap, subst, ◌∙◌,
  arith, Bool-cases, inl, inr, if◌then◌else◌,
}
use joysteed_maa_s.Rbac.{RoleBinding, binds}
use joysteed_maa_s.Member.{
  Member, Status, active, disabled, other, Tables, user, is_seat, is_member,
}
use joysteed_maa_s.Member.Roles.{
  RoleName, owner, valid_role, role_id, role_of_id, role_of_id-role_id,
}
use joysteed_maa_s.Member.Seats.{
  IsSeated, IsSingle, reseated, reseated-IsSeated, role_elem, any-select_kept,
}
use joysteed_maa_s.Member.Steps.{HasRole, loses_owner, changed}
use joysteed_maa_s.Member.Update.{same_role, is_active_owner, other_owner, updated}

-- The primary key of the members.
abbrev pub IsKeyed : List Member → Type 0
IsKeyed [] = Unit
IsKeyed (m ∷ ms) = (any (λ n. n.id == m.id) ms ≡ false) × IsKeyed ms

abbrev pub has_owner : Str → Tables → Bool
has_owner t s = any (is_active_owner t s.access.bindings) s.members

-- The tables are sound for a tenant: ids are distinct, and the bindings to its four roles name the
-- tenant and give nobody two of them.
abbrev pub IsSound : Str → Tables → Type 0
IsSound t s = IsKeyed s.members × IsSeated t s.access.bindings

abbrev pub holds : Str → Str → List RoleBinding → Bool
holds t i bs = any (binds (role_id t owner) (user t i)) bs

others_kept :
    (t i : Str) (bs bs' : List RoleBinding) (f : Member → Member) (ms : List Member)
    → ((j : Str) → j ≢ i → holds t j bs ≡ true → holds t j bs' ≡ true)
    → any (λ m. is_active_owner t bs m && not (m.id == i)) ms ≡ true
    → any (is_active_owner t bs') (update_where (λ m. m.id == i) f ms) ≡ true
others_kept t i bs bs' f [] keep h = absurd (ground arith)
others_kept t i bs bs' f (m ∷ ms) keep h = elim (Bool-cases (m.id == i)) [
  | inl e ↦ ground (arith, others_kept t i bs bs' f ms keep)
  | inr n ↦ ground (arith, others_kept t i bs bs' f ms keep, keep m.id (ne_of_test m.id i n))
]

only_left :
    (t i : Str) (bs : List RoleBinding) (ms : List Member)
    → any (is_active_owner t bs) ms ≡ true
    → any (λ m. is_active_owner t bs m && not (m.id == i)) ms ≡ false
    → (any (is_member t i) ms ≡ true) × (holds t i bs ≡ true)
only_left t i bs [] h n = absurd (ground arith)
only_left t i bs (m ∷ ms) h n = elim (Bool-cases (is_active_owner t bs m)) [
  | inl e ↦
      let same : m.id ≡ i = (==_iff m.id i).0 (ground arith) in
      (ground arith, subst (λ j. holds t j bs ≡ true) same (ground arith))
  | inr e ↦
      let (rest, held) = only_left t i bs ms (ground arith) (ground arith) in
      (ground (arith, rest), held)
]

left_active :
    (t i : Str) (bs : List RoleBinding) (name hash : Option Str) (now : ℕ) (ms : List Member)
    → holds t i bs ≡ true
    → any (is_member t i) ms ≡ true
    → any (is_active_owner t bs) (update_where (λ m. m.id == i) (updated active name hash now) ms)
      ≡ true
left_active t i bs name hash now [] held h = absurd (ground arith)
left_active t i bs name hash now (m ∷ ms) held h = elim (Bool-cases (is_member t i m)) [
  | inl e ↦
      let same : i ≡ m.id = sym ((==_iff m.id i).0 (ground arith)) in
      ground (arith, subst (λ j. holds t j bs ≡ true) same held)
  | inr n ↦ ground (arith, left_active t i bs name hash now ms held)
]

id_of : (u id : Str) (m : Member) → is_member u id m ≡ true → (m.id == id) ≡ true
id_of u id m h = ground arith

one_tenant :
    (t u id : Str) (row : Member) (ms : List Member)
    → IsKeyed ms
    → find (is_member u id) ms ≡ some row
    → any (is_member t row.id) ms ≡ true
    → u ≡ t
one_tenant t u id row [] keyed e h = absurd (ground arith)
one_tenant t u id row (m ∷ ms) (fresh, keyed) e h = elim (Bool-cases (is_member u id m)) [
  | inl y ↦
      let same : m ≡ row = ground arith in
      let none_left =
        any_weaken (is_member t m.id) (λ n. n.id == m.id) ms (λ x k. ground arith) fresh in
      let here : m.tenant_id ≡ t = (==_iff m.tenant_id t).0 (
        subst (λ r. any (is_member t r.id) (m ∷ ms) ≡ true → (m.tenant_id == t) ≡ true) same
          (λ k. ground (arith, none_left)) h) in
      sym ((==_iff m.tenant_id u).0 (ground arith)) ∙ here
  | inr n ↦
      let later : find (is_member u id) ms ≡ some row = ground arith in
      let row_id : row.id ≡ id =
        (==_iff row.id id).0 (id_of u id row (find-true (is_member u id) ms row later)) in
      let there : any (λ n. n.id == row.id) ms ≡ true =
        any-find (is_member u id) (λ n. n.id == row.id) ms row
          (λ y k. subst (λ x. (y.id == x) ≡ true) (sym row_id) (id_of u id y k)) later in
      one_tenant t u id row ms keyed later (elim (Bool-cases (m.id == row.id)) [
        | inl e ↦ absurd (
            ground (
              arith,
              subst (λ x. any (λ n. n.id == x) ms ≡ true) (sym ((==_iff m.id row.id).0 e)) there,
            ))
        | inr k ↦ ground arith
      ])
]

any-updated :
    (x i : Str) (status : Status) (name hash : Option Str) (now : ℕ) (ms : List Member)
    → any (λ n. n.id == x) (update_where (λ m. m.id == i) (updated status name hash now) ms)
      ≡ any (λ n. n.id == x) ms
any-updated x i status name hash now [] = refl
any-updated x i status name hash now (m ∷ ms) =
    ground (arith, any-updated x i status name hash now ms)

updated-IsKeyed :
    (i : Str) (status : Status) (name hash : Option Str) (now : ℕ) (ms : List Member)
    → IsKeyed ms
    → IsKeyed (update_where (λ m. m.id == i) (updated status name hash now) ms)
updated-IsKeyed i status name hash now [] h = tt
updated-IsKeyed i status name hash now (m ∷ ms) (fresh, h) = elim (Bool-cases (m.id == i)) [
  | inl e ↦ rw e (
    any-updated m.id i status name hash now ms ∙ fresh,
    updated-IsKeyed i status name hash now ms h,
  )
  | inr n ↦ rw n (
    any-updated m.id i status name hash now ms ∙ fresh,
    updated-IsKeyed i status name hash now ms h,
  )
]

any-found {ℓ} :
    {A : Type ℓ} (p q : A → Bool) (xs : List A) (x : A)
    → find p xs ≡ some x
    → q x ≡ true
    → any q xs ≡ true
any-found p q [] x e h = absurd (ground arith)
any-found p q (y ∷ xs) x e h = elim (Bool-cases (p y)) [
  | inl k ↦ let same : x ≡ y = ground arith in ground (arith, subst (λ z. q z ≡ true) same h)
  | inr k ↦ ground (arith, any-found p q xs x)
]

same_role_iff : (r q : RoleName) → (same_role r q ≡ true) ↔ (r ≡ q)
same_role_iff r q = ground arith

pub seats_kept :
    (t u i j : Str) (kept : Bool) (role : RoleName) (now : ℕ) (bs : List RoleBinding)
    → j ≢ i
    → holds t j bs ≡ true
    → holds t j (if kept then bs else reseated u i role now bs) ≡ true
seats_kept t u i j true role now bs n h = h
seats_kept t u i j false role now bs n h = ground (
  arith,
  any-select_kept (binds (role_id t owner) (user t j)) (λ b. not (is_seat u i b)) bs
      (λ b k. unseated b (ground arith)) h,
)
  where
    unseated : (b : RoleBinding) → (b.principal_id == j) ≡ true → not (is_seat u i b) ≡ true
    unseated b k = ground (arith, ==_iff b.principal_id j, ==_iff b.principal_id i)

stays :
    (current next : RoleName) (status : Status)
    → current ≡ owner
    → loses_owner current next status ≡ false
    → (same_role next current ≡ true) × (status ≡ active)
stays current next active e h = (
  ground (arith, same_role_iff next owner, same_role_iff current owner, same_role_iff next current),
  refl,
)
stays current next disabled e h = absurd (ground (arith, same_role_iff current owner))
stays current next (other s) e h = absurd (ground (arith, same_role_iff current owner))

-- The role that is read for a member is the one that it holds.
pub role_read :
    (t i : Str) (r : RoleName) (bs : List RoleBinding)
    → IsSingle t bs
    → HasRole t i r bs
    → holds t i bs ≡ true
    → r ≡ owner
unfolding valid_role
role_read t i r bs single (b, found, named, v) held =
    let seated = find-true (is_seat t i) bs b found in
    let (q, w, same) = role_elem t b.role_id (ground arith) in
    let is_q : r ≡ q = sym named ∙ ap role_of_id same ∙ role_of_id-role_id t q w in
    let bound =
      any-found (is_seat t i) (binds (role_id t q) (user t i)) bs b found
        (ground (arith, ==_iff b.role_id (role_id t q), same)) in
    is_q ∙ single i q owner w refl bound held

no_loss : (a b : Bool) → (a ≡ true → b ≡ true) → b ≡ false → a ≡ false
no_loss a b h n = ground arith

tenant_of : (u id : Str) (m : Member) → is_member u id m ≡ true → (m.tenant_id == u) ≡ true
tenant_of u id m h = ground arith

pub keeps_owner :
    (t : Str) (row : Member) (current next : RoleName) (status : Status) (name hash : Option Str)
    (now : ℕ) (s : Tables) (u id : Str)
    → IsSound t s
    → has_owner t s ≡ true
    → find (is_member u id) s.members ≡ some row
    → HasRole row.tenant_id row.id current s.access.bindings
    → (loses_owner current next status ≡ true → other_owner u row.id s ≡ true)
    → has_owner t (changed row current next status name hash now s) ≡ true
keeps_owner t row current next status name hash now s u id (keyed, seated) h found has guard =
    elim (Bool-cases (other_owner t row.id s)) [
      | inl o ↦
          others_kept t row.id s.access.bindings _ (updated status name hash now) s.members
            (λ j.
              seats_kept t row.tenant_id row.id j (same_role next current) next now
                s.access.bindings)
            o
      | inr n ↦
          let (there, held) = only_left t row.id s.access.bindings s.members h n in
          let same : u ≡ t = one_tenant t u id row s.members keyed found there in
          let own : row.tenant_id ≡ t =
            (==_iff row.tenant_id u).0
              (tenant_of u id row (find-true (is_member u id) s.members row found))
            ∙ same in
          let is_owner =
            role_read t row.id current s.access.bindings seated.1
              (subst (λ v. HasRole v row.id current s.access.bindings) own has) held in
          let free =
            no_loss (loses_owner current next status) (other_owner t row.id s)
              (subst (λ v. loses_owner current next status ≡ true → other_owner v row.id s ≡ true)
                same guard)
              n in
          let (unmoved, live) = stays current next status is_owner free in
          rw (unmoved, live)
            (left_active t row.id s.access.bindings name hash now s.members held there)
    ]

pub changed-IsSound :
    (t : Str) (row : Member) (current next : RoleName) (status : Status) (name hash : Option Str)
    (now : ℕ) (s : Tables)
    → valid_role next ≡ true
    → IsSound t s
    → IsSound t (changed row current next status name hash now s)
changed-IsSound t row current next status name hash now s v (keyed, seated) = (
  updated-IsKeyed row.id status name hash now s.members keyed,
  elim (Bool-cases (same_role next current)) [
    | inl e ↦ rw e seated
    | inr n ↦ rw n (reseated-IsSeated t row.tenant_id row.id next now s.access.bindings v seated)
  ],
)
