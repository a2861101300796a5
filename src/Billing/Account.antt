-- ===== src/Billing/Account.antt =====
-- internal/billing/billing.go: prepaid accounts and the reservations that hold part of a balance.
-- A statement's `FOR UPDATE` lock lasts to the end of the transaction, so a transaction is one step.
pub mod Held
pub mod Funds
pub mod Replay
pub mod History
use joysteed_maa_s.Base.{
  ℕ, Bool, true, false, not, ◌&&◌, ◌||◌, List, [], ◌∷◌, Option, none, some, Str, ◌==◌, text,
  trim_space, is_empty, any, find, update_where, ℤ, pos, ◌+ℤ◌, ◌-ℤ◌, ltb_ℤ, leb_ℤ, eqb_ℤ, Tx,
  Faults, Result, ok, err, query, exec, throw, pure, ◌>>=◌, ◌>>◌, transaction, if◌then◌else◌,
}
use joysteed_maa_s.Billing.Sku.{
  Error, invalid_usage, insufficient_balance, reservation_state, record_not_found, database,
}

pub record Account : Type 0 where
  pub tenant_id : Str
  pub currency : Str
  pub balance_micros : ℤ
  pub reserved_micros : ℤ
  pub updated_at : ℕ

-- The three texts that the code writes to the column `status`.
pub data HoldStatus : Type 0 where
  reserved released captured : HoldStatus

unfoldable pub HoldStatus-discrete : Discrete HoldStatus
HoldStatus-discrete = hlevel

abbrev pub same_status : HoldStatus → HoldStatus → Bool
same_status s t = elim (HoldStatus-discrete s t) [ yes _ ↦ true | no _ ↦ false ]

pub record Reservation : Type 0 where
  pub id : Str
  pub tenant_id : Str
  pub idempotency_key : Str
  pub amount_micros : ℤ
  pub status : HoldStatus
  pub created_at : ℕ
  pub updated_at : ℕ

pub record Ledger : Type 0 where
  pub accounts : List Account
  pub reservations : List Reservation

abbrev pub owned_by : Str → Account → Bool
owned_by tenant a = a.tenant_id == tenant

abbrev pub keyed : Str → Reservation → Bool
keyed key r = r.idempotency_key == key

abbrev pub identified : Str → Reservation → Bool
identified id r = r.id == id

abbrev pub or_missing {ℓ} :
    {A : Type ℓ} → Option A → Ledger → Faults → Result Error (A × Ledger × Faults)
or_missing none s fs = err record_not_found
or_missing (some a) s fs = ok (a, s, fs)

abbrev set_accounts : Str → (Account → Account) → Ledger → Ledger
set_accounts tenant f s = record s { accounts = update_where (owned_by tenant) f s.accounts }

-- The primary key and the unique index refuse an insert.
abbrev insert_reservation : Reservation → Tx Error Ledger (Unit {0})
insert_reservation r s fs =
    (if any (λ q. (q.id == r.id) || (q.idempotency_key == r.idempotency_key)) s.reservations
        then throw database
        else exec database (λ s. record s { reservations = r ∷ s.reservations }))
      s fs

-- A reservation that was made before is handed back if it is the same one.
unfoldable pub replay : Str → ℤ → Reservation → Tx Error Ledger Reservation
replay tenant amount r =
    if not (r.tenant_id == tenant) || not (eqb_ℤ r.amount_micros amount)
    then throw reservation_state
    else pure r

unfoldable pub hold : Str → Str → ℤ → ℕ → Tx Error Ledger Reservation
hold tenant key amount now = do
  found ← query database (λ s. find (owned_by tenant) s.accounts)
  account ← or_missing found
  if ltb_ℤ (account.balance_micros -ℤ account.reserved_micros) amount
      then throw insufficient_balance
      else (do
        exec database (
            set_accounts tenant (λ a. record a {
              reserved_micros = account.reserved_micros +ℤ amount;
              updated_at = now;
            }))
        let row : Reservation = record {
          id = key;
          tenant_id = tenant;
          idempotency_key = key;
          amount_micros = amount;
          status = reserved;
          created_at = now;
          updated_at = now;
        }
        insert_reservation row
        pure row)

abbrev pub replay_or_hold : Str → Str → ℤ → ℕ → Option Reservation → Tx Error Ledger Reservation
replay_or_hold tenant key amount now (some r) = replay tenant amount r
replay_or_hold tenant key amount now none = hold tenant key amount now

unfoldable pub reserve : Str → Str → ℤ → ℕ → Ledger → Faults → Result Error Reservation × Ledger
unfolding replay hold
reserve tenant key amount now s fs =
    if is_empty tenant || (is_empty (trim_space key) || leb_ℤ amount (pos 0))
    then (err invalid_usage, s)
    else transaction
        (do
          existing ← query database (λ s. find (keyed key) s.reservations)
          replay_or_hold tenant key amount now existing)
        s fs

-- The account's new balances, and the reservation's new status.
unfoldable pub settle : HoldStatus → Bool → ℕ → Reservation → Tx Error Ledger (Unit {0})
settle to capture now r = do
  found ← query database (λ s. find (owned_by r.tenant_id) s.accounts)
  account ← or_missing found
  if ltb_ℤ account.reserved_micros r.amount_micros
        || (capture && ltb_ℤ account.balance_micros r.amount_micros)
      then throw reservation_state
      else (do
        exec database (
            set_accounts r.tenant_id (λ a. record a {
              reserved_micros = account.reserved_micros -ℤ r.amount_micros;
              balance_micros =
                  if capture then account.balance_micros -ℤ r.amount_micros else a.balance_micros;
              updated_at = now;
            }))
        exec database (λ s. record s {
          reservations =
              update_where (identified r.id) (λ q. record q { status = to; updated_at = now })
                s.reservations;
        }))

unfoldable pub transition_reservation :
    Str → HoldStatus → HoldStatus → Bool → ℕ → Ledger → Faults → Result Error (Unit {0}) × Ledger
unfolding settle
transition_reservation id from to capture now s fs =
    if is_empty id
    then (err invalid_usage, s)
    else transaction
        (do
          found ← query database (λ s. find (identified id) s.reservations)
          r ← or_missing found
          if same_status r.status from
              then settle to capture now r
              else (if same_status r.status to then pure tt else throw reservation_state))
        s fs

unfoldable pub release : Str → ℕ → Ledger → Faults → Result Error (Unit {0}) × Ledger
unfolding transition_reservation
release id = transition_reservation id reserved released false

unfoldable pub capture : Str → ℕ → Ledger → Faults → Result Error (Unit {0}) × Ledger
unfolding transition_reservation
capture id = transition_reservation id reserved captured true

-- An upsert: the row of the tenant is overwritten, or added where there is none.
abbrev upsert : Account → List Account → List Account
upsert a accounts =
    if any (owned_by a.tenant_id) accounts
    then update_where (owned_by a.tenant_id)
        (λ b. record b {
          currency = a.currency;
          balance_micros = a.balance_micros;
          reserved_micros = a.reserved_micros;
          updated_at = a.updated_at;
        })
        accounts
    else a ∷ accounts

unfoldable pub upsert_account : Account → ℕ → Ledger → Faults → Result Error (Unit {0}) × Ledger
upsert_account account now s fs =
    let row : Account = record account {
      currency = if is_empty account.currency then text "USD" else account.currency;
      updated_at = now;
    } in
    if is_empty account.tenant_id
      || (ltb_ℤ account.balance_micros (pos 0)
          || (ltb_ℤ account.reserved_micros (pos 0)
              || ltb_ℤ account.balance_micros account.reserved_micros))
    then (err invalid_usage, s)
    else transaction (exec database (λ s. record s { accounts = upsert row s.accounts })) s fs
