-- ===== src/Billing/Account/Funds.antt =====
-- The reservations of internal/billing never hold more than the balance covers.
use joysteed_maa_s.Base.{
  ℕ, ◌+◌, ◌-◌, ◌≤◌, ◌<◌, ◌^◌, Bool, false, ◌&&◌, ◌||◌, List, [], ◌∷◌, some, Str, ◌==◌, any, find,
  update_where, ℤ, pos, negsuc, pos_part, ◌+ℤ◌, ◌-ℤ◌, +ℤ_pos, -ℤ_pos, ltb_ℤ, leb_ℤ, ◌≡◌, refl, ◌≢◌,
  arith, All, if◌then◌else◌, Bool-cases, Option-cases, inl, inr, subst, sym, eq_of_parts, Faults,
  All-find,
}
use joysteed_maa_s.Billing.Account.{
  Account, Ledger, Reservation, HoldStatus, HoldStatus-discrete, reserved, identified, owned_by,
  reserve, capture, transition_reservation,
}
use joysteed_maa_s.Billing.Account.Held.{held, Distinct, IsCharge, settled, held-settled}

-- An account's balance is not negative, and covers what is reserved, which is what is held.
pub record Funds (a : Account) (h : ℕ) : Type 0 where
  pub balance : ℕ
  pub exact : a.reserved_micros ≡ pos h
  pub positive : a.balance_micros ≡ pos balance
  pub covered : h ≤ balance
  pub in_range : balance < 2 ^ 63

pub record IsSound (l : Ledger) : Type 0 where
  pub funds :
      (tenant : Str) (a : Account)
      → find (owned_by tenant) l.accounts ≡ some a
      → Funds a (held tenant l.reservations)
  pub charges : All IsCharge l.reservations
  pub distinct : Distinct l.reservations

-- What the two updates write to a row, from the row that was locked.
abbrev pub holding : Account → ℤ → ℕ → Account → Account
holding account amount now a = record a {
  reserved_micros = account.reserved_micros +ℤ amount;
  updated_at = now;
}

abbrev pub paying : Account → Reservation → Bool → ℕ → Account → Account
paying account r cap now a = record a {
  reserved_micros = account.reserved_micros -ℤ r.amount_micros;
  balance_micros = if cap then account.balance_micros -ℤ r.amount_micros else a.balance_micros;
  updated_at = now;
}

unfoldable pub opened : Str → Str → ℤ → ℕ → Account → Ledger → Ledger
opened tenant key amount now account l = record {
  accounts = update_where (owned_by tenant) (holding account amount now) l.accounts;
  reservations =
      record {
        id = key;
        tenant_id = tenant;
        idempotency_key = key;
        amount_micros = amount;
        status = reserved;
        created_at = now;
        updated_at = now;
      }
      ∷ l.reservations;
}

-- A call of `reserve` leaves the ledger alone, or has checked the balance and takes a hold.
pub reserve_cases :
    (P : Ledger → Type 0) (tenant key : Str) (amount : ℤ) (now : ℕ) (l : Ledger) (fs : Faults)
    → P l
    → ((a : Account)
        → find (owned_by tenant) l.accounts ≡ some a
        → leb_ℤ amount (pos 0) ≡ false
        → ltb_ℤ (a.balance_micros -ℤ a.reserved_micros) amount ≡ false
        → any (λ q. (q.id == key) || (q.idempotency_key == key)) l.reservations ≡ false
        → P (opened tenant key amount now a l))
    → P (reserve tenant key amount now l fs).1
unfolding reserve opened
reserve_cases P tenant key amount now l fs keep move =
    elim (Option-cases (find (owned_by tenant) l.accounts)) [
      | inl e ↦ ground arith
      | inr (a, e) ↦ ground (arith, move a)
    ]

unfoldable pub closed : HoldStatus → Bool → ℕ → Reservation → Account → Ledger → Ledger
closed to capture now r account l = record {
  accounts = update_where (owned_by r.tenant_id) (paying account r capture now) l.accounts;
  reservations = settled r.id to now l.reservations;
}

pub transition_cases :
    (P : Ledger → Type 0) (id : Str) (to : HoldStatus) (cap : Bool) (now : ℕ) (l : Ledger)
    (fs : Faults)
    → P l
    → ((r : Reservation)
        → (a : Account) → find (identified id) l.reservations ≡ some r
        → find (owned_by r.tenant_id) l.accounts ≡ some a
        → r.status ≡ reserved
        → ltb_ℤ a.reserved_micros r.amount_micros ≡ false
        → cap && ltb_ℤ a.balance_micros r.amount_micros ≡ false
        → P (closed to cap now r a l))
    → P (transition_reservation id reserved to cap now l fs).1
unfolding transition_reservation closed settled
transition_cases P id to cap now l fs keep move =
    elim (Option-cases (find (identified id) l.reservations)) [
      | inl e ↦ ground arith
      | inr (r, e) ↦ elim (Option-cases (find (owned_by r.tenant_id) l.accounts)) [
        | inl k ↦ ground arith
        | inr (a, k) ↦ ground (arith, move r a)
      ]
    ]

pub positive_amount : (amount : ℤ) → leb_ℤ amount (pos 0) ≡ false → amount ≡ pos (pos_part amount)
positive_amount (pos n) h = refl
positive_amount (negsuc n) h = absurd (ground arith)

room :
    (a : Account) (h n : ℕ) (f : Funds a h)
    → ltb_ℤ (a.balance_micros -ℤ a.reserved_micros) (pos n) ≡ false
    → n + h ≤ f.balance
room a h n f enough = ground (arith, -ℤ_pos f.balance h f.covered f.in_range)

-- A hold that the balance allows: the reserved sum grows by the amount, exactly.
Funds-hold :
    (a : Account) (h n now : ℕ)
    → Funds a h
    → ltb_ℤ (a.balance_micros -ℤ a.reserved_micros) (pos n) ≡ false
    → Funds (record a { reserved_micros = a.reserved_micros +ℤ pos n; updated_at = now }) (n + h)
Funds-hold a h n now f enough = record {
  balance = f.balance;
  exact = rw f.exact (ground (arith, room a h n f enough, +ℤ_pos h n));
  positive = f.positive;
  covered = room a h n f enough;
  in_range = f.in_range;
}

-- A hold that ends: what it held is free again, and is paid out of the balance if it is captured.
Funds-settle :
    (a : Account) (h n now : ℕ) (cap : Bool)
    → Funds a (h + n)
    → Funds
        (record a {
          reserved_micros = a.reserved_micros -ℤ pos n;
          balance_micros = if cap then a.balance_micros -ℤ pos n else a.balance_micros;
          updated_at = now;
        })
        h
Funds-settle a h n now cap f = record {
  balance = if cap then f.balance - n else f.balance;
  exact = rw f.exact (ground (arith, -ℤ_pos (h + n) n, f.covered, f.in_range));
  positive = rw f.positive (ground (arith, -ℤ_pos f.balance n, f.covered, f.in_range));
  covered = ground (arith, f.covered);
  in_range = ground (arith, f.in_range);
}

-- The account that a tenant has after an update of one tenant's row.
updated_account :
    (P : Account → Type 0) (t tenant : Str) (f : Account → Account) (accounts : List Account)
    (b : Account)
    → ((u : Account) → (f u).tenant_id ≡ u.tenant_id)
    → ((x : Account) → t ≡ tenant → find (owned_by tenant) accounts ≡ some x → P (f x))
    → ((x : Account) → t ≢ tenant → find (owned_by t) accounts ≡ some x → P x)
    → find (owned_by t) (update_where (owned_by tenant) f accounts) ≡ some b
    → P b
updated_account P t tenant f [] b keep hit miss e = absurd (ground arith)
updated_account P t tenant f (u ∷ us) b keep hit miss e = elim (Bool-cases (u.tenant_id == t)) [
  | inl mine ↦ ground (arith, keep u, hit u, miss u)
  | inr not_mine ↦
      updated_account P t tenant f us b keep (λ x same k. hit x same (ground (arith, keep u)))
        (λ x other k. miss x other (ground (arith, keep u))) (ground (arith, keep u))
]

pub opened-Funds :
    (tenant key : Str) (n now : ℕ) (l : Ledger) (a : Account)
    → IsSound l
    → find (owned_by tenant) l.accounts ≡ some a
    → ltb_ℤ (a.balance_micros -ℤ a.reserved_micros) (pos n) ≡ false
    → (t : Str) (b : Account)
    → find (owned_by t) (opened tenant key (pos n) now a l).accounts ≡ some b
    → Funds b (held t (opened tenant key (pos n) now a l).reservations)
unfolding opened HoldStatus-discrete
opened-Funds tenant key n now l a v found enough t b =
    updated_account P t tenant (holding a (pos n) now) l.accounts b (λ u. refl)
      (λ x same k.
        let row : x ≡ a = ground arith in
        let sum : n + held t l.reservations ≡ held t rows = ground arith in
        let mine : find (owned_by t) l.accounts ≡ some a =
          subst (λ i. find (owned_by i) l.accounts ≡ some a) (sym same) found in
        subst (λ u. P (holding a (pos n) now u)) (sym row)
          (subst (Funds (holding a (pos n) now a)) sum
            (Funds-hold a (held t l.reservations) n now (v.funds t a mine) enough)))
      (λ x other k.
        let sum : held t l.reservations ≡ held t rows = ground arith in
        subst (Funds x) sum (v.funds t x k))
  where
    rows : List Reservation
    rows = (opened tenant key (pos n) now a l).reservations

    P : Account → Type 0
    P b = Funds b (held t rows)

pub closed-Funds :
    (to : HoldStatus) (cap : Bool) (now : ℕ) (r : Reservation) (a : Account) (l : Ledger)
    → to ≢ reserved
    → IsSound l
    → find (identified r.id) l.reservations ≡ some r
    → find (owned_by r.tenant_id) l.accounts ≡ some a
    → r.status ≡ reserved
    → (t : Str) (b : Account) → find (owned_by t) (closed to cap now r a l).accounts ≡ some b
    → Funds b (held t (closed to cap now r a l).reservations)
unfolding closed HoldStatus-discrete
closed-Funds to cap now r a l away v open_row found is_open t b =
    updated_account P t r.tenant_id (paying a r cap now) l.accounts b (λ u. refl)
      (λ x same k.
        let row : x ≡ a = ground arith in
        let n : ℕ = pos_part r.amount_micros in
        let charge : r.amount_micros ≡ pos n = eq_of_parts _ _ (
          omega
            (arith, (All-find IsCharge (identified r.id) l.reservations r v.charges open_row).0)) in
        let sum : held t l.reservations ≡ held t rows + n =
          ground (arith, held-settled t r.id to now l.reservations r away v.distinct open_row) in
        let mine : find (owned_by t) l.accounts ≡ some a =
          subst (λ i. find (owned_by i) l.accounts ≡ some a) (sym same) found in
        let funds : Funds a (held t rows + n) = subst (Funds a) sum (v.funds t a mine) in
        subst (λ u. P (paying a r cap now u)) (sym row)
          (rw charge (Funds-settle a (held t rows) n now cap funds)))
      (λ x other k.
        let sum : held t l.reservations ≡ held t rows =
          ground (arith, held-settled t r.id to now l.reservations r away v.distinct open_row) in
        subst (Funds x) sum (v.funds t x k))
  where
    rows : List Reservation
    rows = (closed to cap now r a l).reservations

    P : Account → Type 0
    P b = Funds b (held t rows)
