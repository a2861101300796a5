-- ===== src/Billing/Invoice/Totals.antt =====
-- What an invoice of internal/billing adds up.
use joysteed_maa_s.Base.{
  ℕ, ◌+◌, ◌≤◌, ◌<◌, ◌^◌, false, List, [], ◌∷◌, some, select, select-All, ℤ, pos, pos_part, neg_part,
  ◌≤ℤ◌, +ℤ_pos, ltb_ℤ, ◌≡◌, refl, arith, All, Faults, Bool-cases, inl, inr, ◌+ℤ◌, eq_of_parts,
}
use joysteed_maa_s.Billing.Usage.{
  UsageEvent, UsageInput, is_platform, rejected_input, bad_charge, usage_row, record_usage,
}
use joysteed_maa_s.Billing.Invoice.{
  InvoicePeriod, platform_cost, in_window, sum_pos, sum_neg, period_totals,
}

-- What a row bills is not negative, and covers what the platform paid for it.
pub record IsBilled (e : UsageEvent) : Type 0 where
  pub owed : neg_part e.amount_micros ≡ 0
  pub paid : neg_part (platform_cost e) ≡ 0
  pub covers : pos_part (platform_cost e) ≤ pos_part e.amount_micros

exact_sum :
    (a b : ℤ)
    → ltb_ℤ a (pos 0) ≡ false
    → ltb_ℤ b (pos 0) ≡ false
    → pos_part a + pos_part b < 2 ^ 63
    → a +ℤ b ≡ pos (pos_part a + pos_part b)
exact_sum a b h k r = ground (
  arith,
  +ℤ_pos (pos_part a) (pos_part b),
  eq_of_parts a (pos (pos_part a)),
  eq_of_parts b (pos (pos_part b)),
)

-- An input that is not rejected has no negative cost, markup or fee.
accepted :
    (x : UsageInput)
    → rejected_input x ≡ false
    → (ltb_ℤ x.provider_cost_micros (pos 0) ≡ false)
      × (ltb_ℤ x.markup_micros (pos 0) ≡ false)
      × (ltb_ℤ x.service_fee_micros (pos 0) ≡ false)
unfolding rejected_input bad_charge
accepted x h = ground arith

usage_row-IsBilled :
    (x : UsageInput) (now : ℕ)
    → rejected_input x ≡ false
    → pos_part x.provider_cost_micros + pos_part x.markup_micros < 2 ^ 63
    → IsBilled (usage_row x now)
unfolding usage_row
usage_row-IsBilled x now fine range =
    let (cost, markup, fee) = accepted x fine in
    let total = exact_sum x.provider_cost_micros x.markup_micros cost markup range in
    elim (Bool-cases (is_platform x.key_ownership)) [
      | inl own ↦ ground arith
      | inr byok ↦ ground arith
    ]

-- Recording usage whose charge fits the machine keeps every row of the ledger billed.
pub record_usage-IsBilled :
    (x : UsageInput) (now : ℕ) (rows : List UsageEvent) (fs : Faults)
    → pos_part x.provider_cost_micros + pos_part x.markup_micros < 2 ^ 63
    → All IsBilled rows
    → All IsBilled (record_usage x now rows fs).1
unfolding record_usage
record_usage-IsBilled x now rows fs range billed = elim (Bool-cases (rejected_input x)) [
  | inl bad ↦ ground arith
  | inr fine ↦ ground (arith, usage_row-IsBilled x now fine range)
]

sum_pos-le :
    (rows : List UsageEvent)
    → All IsBilled rows
    → sum_pos platform_cost rows ≤ sum_pos (λ e. e.amount_micros) rows
unfolding sum_pos
sum_pos-le [] h = omega arith
sum_pos-le (e ∷ es) h = omega (arith, sum_pos-le es h.1, h.0.covers)

sum_neg-zero :
    (rows : List UsageEvent) → All IsBilled rows → sum_neg (λ e. e.amount_micros) rows ≡ 0
unfolding sum_neg
sum_neg-zero [] h = refl
sum_neg-zero (e ∷ es) h = omega (arith, sum_neg-zero es h.1, h.0.owed)

sum_neg_cost-zero : (rows : List UsageEvent) → All IsBilled rows → sum_neg platform_cost rows ≡ 0
unfolding sum_neg
sum_neg_cost-zero [] h = refl
sum_neg_cost-zero (e ∷ es) h = omega (arith, sum_neg_cost-zero es h.1, h.0.paid)

-- The ledger after a sequence of calls that record usage, each at its time and under its own failing
-- statements.
unfoldable pub ledger : List (UsageInput × ℕ × Faults) → List UsageEvent → List UsageEvent
ledger [] rows = rows
ledger ((x, now, fs) ∷ calls) rows = ledger calls (record_usage x now rows fs).1

-- The cost and the markup of a call together are a number of the machine.
abbrev pub IsInRange : UsageInput × ℕ × Faults → Type 0
IsInRange (x, now, fs) = pos_part x.provider_cost_micros + pos_part x.markup_micros < 2 ^ 63

ledger-IsBilled :
    (calls : List (UsageInput × ℕ × Faults)) (rows : List UsageEvent)
    → All IsInRange calls
    → All IsBilled rows
    → All IsBilled (ledger calls rows)
unfolding ledger
ledger-IsBilled [] rows fit billed = billed
ledger-IsBilled ((x, now, fs) ∷ calls) rows fit billed =
    ledger-IsBilled calls _ fit.1 (record_usage-IsBilled x now rows fs fit.0 billed)

-- The platform's cost is summed over the rows on its own keys.
cost_of_pool :
    (rows : List UsageEvent)
    → sum_pos platform_cost rows
      ≡ sum_pos (λ e. e.provider_cost_micros) (select (λ e. is_platform e.key_ownership) rows)
unfolding sum_pos
cost_of_pool [] = refl
cost_of_pool (e ∷ es) = elim (Bool-cases (is_platform e.key_ownership)) [
  | inl y ↦ ground (arith, cost_of_pool es)
  | inr n ↦ ground (arith, cost_of_pool es)
]

-- Whatever usage was recorded, by calls whose cost and markup together fit the machine and under any
-- failing statements: where an invoice's two sums can be read, they are exact, the platform cost is that
-- of the window's rows on the platform's own keys and no other, and the subtotal is no less.
pub period_totals_cover :
    (p : InvoicePeriod) (calls : List (UsageInput × ℕ × Faults)) (subtotal cost : ℤ)
    → All IsInRange calls
    → period_totals p (ledger calls []) ≡ some (subtotal, cost)
    → let rows = select (in_window p.tenant_id p.starts_at p.ends_at) (ledger calls []) in
      (cost ≤ℤ subtotal)
      × (subtotal ≡ pos (sum_pos (λ e. e.amount_micros) rows))
      × (cost
          ≡ pos (
              sum_pos
                (λ e. e.provider_cost_micros)
                (select (λ e. is_platform e.key_ownership) rows)))
unfolding period_totals
period_totals_cover p calls subtotal cost fit h =
    let billed = ledger-IsBilled calls [] fit tt in
    let rows = select (in_window p.tenant_id p.starts_at p.ends_at) (ledger calls []) in
    let mine =
      select-All IsBilled (in_window p.tenant_id p.starts_at p.ends_at) (ledger calls []) billed in
    ground (
      arith,
      sum_pos-le rows mine,
      sum_neg-zero rows mine,
      sum_neg_cost-zero rows mine,
      cost_of_pool rows,
    )
