-- ===== src/Member/Safety.antt =====
-- internal/member: whatever is called, a tenant with an active owner keeps one.
use joysteed_maa_s.Base.{
  ℕ, Bool, true, false, ◌||◌, List, [], ◌∷◌, Option, none, some, Str, ◌==◌, is_empty, trim_space,
  any, update_where, Result, ok, err, Faults, transaction_keeps, ◌≡◌, refl, sym, subst, ◌∙◌, arith,
  Bool-cases, inl, inr, if◌then◌else◌,
}
use joysteed_maa_s.Member.{Member, Error, Tables, Library, normalize_email}
use joysteed_maa_s.Member.Create.{CreateInput, create_tx, create}
use joysteed_maa_s.Member.Seed.{ensure_tenant_roles, ensure_tenant_roles_tx}
use joysteed_maa_s.Member.Roles.{RoleName}
use joysteed_maa_s.Member.Seats.{IsSeated}
use joysteed_maa_s.Member.Steps.{update_tx_ok}
use joysteed_maa_s.Member.Update.{
  UpdateInput, is_active_owner, update, update_tx, authenticate, stamped, record_login, with_role,
  compared, sought, asked,
}
use joysteed_maa_s.Member.Owner.{IsKeyed, IsSound, has_owner, keeps_owner, changed-IsSound}
use joysteed_maa_s.Member.Created.{
  create_tx_ok, admitted-IsSound, admitted-has_owner, ensure_tenant_roles_tx-SameSeats,
}

-- The tables are sound for the tenant, and it has an active owner.
abbrev pub IsOwned : Str → Tables → Type 0
IsOwned t s = IsSound t s × (has_owner t s ≡ true)

create-IsOwned :
    (t : Str) (k : Library) (x : CreateInput) (drawn : Option Str) (now : ℕ) (s : Tables)
    (fs : Faults)
    → IsOwned t s
    → IsOwned t (create k x drawn now s fs).1
unfolding create
create-IsOwned t k x drawn now s fs (sound, h) =
    transaction_keeps (IsOwned t) (create_tx k x drawn now) s fs
      (λ v s' fs' e.
        let (row, free, valid, same) = create_tx_ok k x drawn now s s' fs fs' v e in
        subst (IsOwned t) (sym same) (
          admitted-IsSound t row x.role now s free valid sound,
          admitted-has_owner t row x.role now s free h,
        ))
      (sound, h)

update-IsOwned :
    (t : Str) (k : Library) (u id : Str) (x : UpdateInput) (now : ℕ) (s : Tables) (fs : Faults)
    → IsOwned t s
    → IsOwned t (update k u id x now s fs).1
unfolding update
update-IsOwned t k u id x now s fs (sound, h) =
    transaction_keeps (IsOwned t) (update_tx k u id x now) s fs
      (λ v s' fs' e.
        let (row, current, next, status, name, hash, found, has, valid, kept, same) =
          update_tx_ok k u id x now s s' fs fs' v e in
        subst (IsOwned t) (sym same) (
          changed-IsSound t row current next status name hash now s valid sound,
          keeps_owner t row current next status name hash now s u id sound h found has kept,
        ))
      (sound, h)

ensure_tenant_roles-IsOwned :
    (t u : Str) (now : ℕ) (s : Tables) (fs : Faults)
    → IsOwned t s
    → IsOwned t (ensure_tenant_roles u now s fs).1
unfolding ensure_tenant_roles
ensure_tenant_roles-IsOwned t [] now s fs h = h
ensure_tenant_roles-IsOwned t (c ∷ u) now s fs h =
    transaction_keeps (IsOwned t) (ensure_tenant_roles_tx (c ∷ u) now) s fs
      (λ x s' fs' e.
        let (ms, bs) = ensure_tenant_roles_tx-SameSeats (c ∷ u) now s s' fs fs' x e in
        (
          (subst IsKeyed (sym ms) h.0.0, subst (IsSeated t) (sym bs) h.0.1),
          subst (λ ms. any (is_active_owner t s'.access.bindings) ms ≡ true) (sym ms)
              (subst (λ b. any (is_active_owner t b) s.members ≡ true) (sym bs) h.1),
        ))
      h

any-stamped :
    (p : Member → Bool) (i : Str) (now : ℕ) (ms : List Member)
    → ((m : Member) → p (stamped now m) ≡ p m)
    → any p (update_where (λ m. m.id == i) (stamped now) ms) ≡ any p ms
any-stamped p i now [] same = refl
any-stamped p i now (m ∷ ms) same = ground (arith, same m, any-stamped p i now ms same)

stamped-IsKeyed :
    (i : Str) (now : ℕ) (ms : List Member)
    → IsKeyed ms
    → IsKeyed (update_where (λ m. m.id == i) (stamped now) ms)
stamped-IsKeyed i now [] h = tt
stamped-IsKeyed i now (m ∷ ms) (fresh, h) = (
  subst (λ x. any (λ n. n.id == x) (update_where (λ n. n.id == i) (stamped now) ms) ≡ false)
      (same (m.id == i)) (any-stamped (λ n. n.id == m.id) i now ms (λ n. refl) ∙ fresh),
  stamped-IsKeyed i now ms h,
)
  where
    same : (b : Bool) → m.id ≡ (if b then stamped now m else m).id
    same true = refl
    same false = refl

login : Str → ℕ → Tables → Tables
login i now s = record s { members = update_where (λ m. m.id == i) (stamped now) s.members }

login-IsOwned : (t i : Str) (now : ℕ) (s : Tables) → IsOwned t s → IsOwned t (login i now s)
unfolding login
login-IsOwned t i now s ((keyed, seated), h) = (
  (stamped-IsKeyed i now s.members keyed, seated),
  any-stamped (is_active_owner t s.access.bindings) i now s.members (λ m. refl) ∙ h,
)

with_role-tables :
    (now : ℕ) (row : Member) (s : Tables) (r : Result Error (RoleName × Tables × Faults))
    → (with_role now row s r).1 ≡ s
with_role-tables now row s (ok r) = refl
with_role-tables now row s (err e) = refl

record_login-IsOwned :
    (t : Str) (now : ℕ) (row : Member) (s : Tables) (fs : Faults)
    → IsOwned t s
    → IsOwned t (record_login now row s fs).1
unfolding login
record_login-IsOwned t now row s [] h =
    subst (IsOwned t) (sym (with_role-tables now row (login row.id now s) _))
      (login-IsOwned t row.id now s h)
record_login-IsOwned t now row s (true ∷ fs) h = h
record_login-IsOwned t now row s (false ∷ fs) h =
    subst (IsOwned t) (sym (with_role-tables now row (login row.id now s) _))
      (login-IsOwned t row.id now s h)

compared-IsOwned :
    (t : Str) (k : Library) (password : Str) (now : ℕ) (o : Option Member) (s : Tables)
    (fs : Faults)
    → IsOwned t s
    → IsOwned t (compared k password now o s fs).1
compared-IsOwned t k password now none s fs h = h
compared-IsOwned t k password now (some row) s fs h =
    elim (Bool-cases (k.compare row.password_hash password)) [
      | inl y ↦ rw y (record_login-IsOwned t now row s fs h)
      | inr n ↦ rw n h
    ]

sought-IsOwned :
    (t : Str) (k : Library) (slug address password : Str) (now : ℕ) (s : Tables) (fs : Faults)
    → IsOwned t s
    → IsOwned t (sought k slug address password now s fs).1
sought-IsOwned t k slug address password now s [] h = compared-IsOwned t k password now _ s [] h
sought-IsOwned t k slug address password now s (true ∷ fs) h = h
sought-IsOwned t k slug address password now s (false ∷ fs) h =
    compared-IsOwned t k password now _ s fs h

asked-IsOwned :
    (t : Str) (k : Library) (slug password : Str) (now : ℕ) (o : Option Str) (s : Tables)
    (fs : Faults)
    → IsOwned t s
    → IsOwned t (asked k slug password now o s fs).1
asked-IsOwned t k slug password now none s fs h = h
asked-IsOwned t k slug password now (some address) s fs h =
    elim (Bool-cases (is_empty (trim_space slug) || is_empty password)) [
      | inl y ↦ rw y h
      | inr n ↦ rw n (sought-IsOwned t k slug address password now s fs h)
    ]

authenticate-IsOwned :
    (t : Str) (k : Library) (slug email password : Str) (now : ℕ) (s : Tables) (fs : Faults)
    → IsOwned t s
    → IsOwned t (authenticate k slug email password now s fs).1
unfolding authenticate
authenticate-IsOwned t k slug email password now s fs h =
    asked-IsOwned t k slug password now (normalize_email k email) s fs h

pub data Call : Type 0 where
  creates : CreateInput → Option Str → Call
  updates : Str → Str → UpdateInput → Call
  seeds : Str → Call
  signs : Str → Str → Str → Call

pub step : Library → ℕ → Faults → Call → Tables → Tables
step k now fs (creates x drawn) s = (create k x drawn now s fs).1
step k now fs (updates t id x) s = (update k t id x now s fs).1
step k now fs (seeds t) s = (ensure_tenant_roles t now s fs).1
step k now fs (signs slug email password) s = (authenticate k slug email password now s fs).1

pub run : Library → Tables → List (ℕ × Faults × Call) → Tables
unfolding step
run k s [] = s
run k s ((now, fs, c) ∷ cs) = run k (step k now fs c s) cs

step-IsOwned :
    (t : Str) (k : Library) (now : ℕ) (fs : Faults) (c : Call) (s : Tables)
    → IsOwned t s
    → IsOwned t (step k now fs c s)
unfolding step
step-IsOwned t k now fs (creates x drawn) s h = create-IsOwned t k x drawn now s fs h
step-IsOwned t k now fs (updates u id x) s h = update-IsOwned t k u id x now s fs h
step-IsOwned t k now fs (seeds u) s h = ensure_tenant_roles-IsOwned t u now s fs h
step-IsOwned t k now fs (signs slug email password) s h =
    authenticate-IsOwned t k slug email password now s fs h

-- Where the tables are sound for a tenant (distinct ids, bindings to its four roles that name it, and
-- nobody with two of them) and it has an active owner, both still hold after any sequence of calls, for
-- this tenant or for others, and under any failing statements.
pub run-IsOwned :
    (t : Str) (k : Library) (cs : List (ℕ × Faults × Call)) (s : Tables)
    → IsOwned t s
    → IsOwned t (run k s cs)
unfolding run
run-IsOwned t k [] s h = h
run-IsOwned t k ((now, fs, c) ∷ cs) s h =
    run-IsOwned t k cs (step k now fs c s) (step-IsOwned t k now fs c s h)
