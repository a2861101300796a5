-- ===== src/Billing/Invoice.antt =====
-- internal/billing/billing.go: billing periods and the invoices that close them.
pub mod Totals
pub mod Frozen
use joysteed_maa_s.Base.{
  ℕ, ◌+◌, ◌≤◌, ◌<◌, ◌^◌, Bool, true, false, not, ◌&&◌, ◌||◌, List, [], ◌∷◌, ◌++◌, Option, none,
  some, Str, ◌==◌, text, trim_space, is_empty, any, find, select, length, update_where, ltb, leb,
  eqb, ℤ, pos, pos_part, neg_part, sub_ℕ, Tx, Faults, Result, ok, err, statement, query, exec,
  throw, pure, ◌>>=◌, ◌>>◌, transaction, if◌then◌else◌,
}
use joysteed_maa_s.Billing.Sku.{Error, invalid_usage, record_not_found, database}
use joysteed_maa_s.Billing.Usage.{UsageEvent, is_platform}

pub data PeriodStatus : Type 0 where
  open_period closed : PeriodStatus

pub record InvoicePeriod : Type 0 where
  pub id : Str
  pub tenant_id : Str
  pub starts_at : ℕ
  pub ends_at : ℕ
  pub status : PeriodStatus
  pub created_at : ℕ
  pub closed_at : Option ℕ

pub record Invoice : Type 0 where
  pub id : Str
  pub tenant_id : Str
  pub period_id : Str
  pub currency : Str
  pub platform_cost_micros : ℤ
  pub tenant_subtotal_micros : ℤ
  pub issued_at : Option ℕ
  pub created_at : ℕ

pub record Books : Type 0 where
  pub events : List UsageEvent
  pub periods : List InvoicePeriod
  pub invoices : List Invoice

-- The rows of a tenant in a window that is closed below and open above.
abbrev pub in_window : Str → ℕ → ℕ → UsageEvent → Bool
in_window tenant from to e =
    (e.tenant_id == tenant) && (leb from e.period_start && ltb e.period_start to)

-- `SUM` over a column is exact: what does not fit an int64 is an error when it is read.
unfoldable pub sum_pos : (UsageEvent → ℤ) → List UsageEvent → ℕ
sum_pos f [] = 0
sum_pos f (e ∷ es) = pos_part (f e) + sum_pos f es

unfoldable pub sum_neg : (UsageEvent → ℤ) → List UsageEvent → ℕ
sum_neg f [] = 0
sum_neg f (e ∷ es) = neg_part (f e) + sum_neg f es

unfoldable pub sum_column : (UsageEvent → ℤ) → List UsageEvent → Option ℤ
unfolding sum_pos sum_neg
sum_column f es =
    let a = sum_pos f es in
    let b = sum_neg f es in
    if ltb a (b + 2 ^ 63) && leb b (a + 2 ^ 63) then some (sub_ℕ a b) else none

-- `CASE WHEN key_ownership = 'platform_pool' THEN provider_cost_micros ELSE 0 END`.
abbrev pub platform_cost : UsageEvent → ℤ
platform_cost e = if is_platform e.key_ownership then e.provider_cost_micros else pos 0

abbrev both : Option ℤ → Option ℤ → Option (ℤ × ℤ)
both none b = none
both (some a) none = none
both (some a) (some b) = some (a, b)

unfoldable pub period_totals : InvoicePeriod → List UsageEvent → Option (ℤ × ℤ)
unfolding sum_column
period_totals p events =
    let rows = select (in_window p.tenant_id p.starts_at p.ends_at) events in
    both (sum_column (λ e. e.amount_micros) rows) (sum_column platform_cost rows)

abbrev pub or_fail : {A : Type 0} → Error → Option A → Tx Error Books A
or_fail e none = throw e
or_fail e (some a) = pure a

abbrev pub of_period : Str → Invoice → Bool
of_period period i = i.period_id == period

abbrev pub is_period : Str → InvoicePeriod → Bool
is_period id p = p.id == id

-- The unique index on the period and the primary key refuse an insert.
abbrev insert_invoice : Invoice → Tx Error Books (Unit {0})
insert_invoice i s fs =
    (if any (λ j. (j.id == i.id) || (j.period_id == i.period_id)) s.invoices
        then throw database
        else exec database (λ s. record s { invoices = i ∷ s.invoices }))
      s fs

unfoldable pub draw : Str → ℕ → InvoicePeriod → Tx Error Books Invoice
unfolding period_totals
draw period_id now period = do
  answer ← query database (λ s. period_totals period s.events)
  totals ← or_fail database answer
  let row : Invoice = record {
    id = period_id ++ text ":invoice";
    tenant_id = period.tenant_id;
    period_id = period_id;
    currency = text "USD";
    platform_cost_micros = totals.1;
    tenant_subtotal_micros = totals.0;
    issued_at = some now;
    created_at = now;
  }
  insert_invoice row
  exec database (λ s. record s {
    periods =
        update_where (is_period period.id) (λ p. record p { status = closed; closed_at = some now })
          s.periods;
  })
  pure row

abbrev issued_or_drawn : Str → ℕ → InvoicePeriod → Option Invoice → Tx Error Books Invoice
issued_or_drawn period_id now period (some i) = pure i
issued_or_drawn period_id now period none = draw period_id now period

unfoldable pub issue_invoice : Str → ℕ → Books → Faults → Result Error Invoice × Books
unfolding draw
issue_invoice period_id now s fs =
    if is_empty (trim_space period_id)
    then (err invalid_usage, s)
    else transaction
        (do
          found ← query database (λ s. find (is_period period_id) s.periods)
          period ← or_fail record_not_found found
          existing ← query database (λ s. find (of_period period_id) s.invoices)
          issued_or_drawn period_id now period existing)
        s fs
