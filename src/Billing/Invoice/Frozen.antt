-- ===== src/Billing/Invoice/Frozen.antt =====
-- An invoice of internal/billing is drawn once (`IssueInvoice`).
use joysteed_maa_s.Base.{
  ℕ, List, [], some, Str, find, find-update_where, ◌≡◌, refl, arith, Faults, ok, Option-cases, inl,
  inr, find-true,
}
use joysteed_maa_s.Billing.Usage.{UsageEvent}
use joysteed_maa_s.Billing.Invoice.{
  Books, Invoice, InvoicePeriod, closed, of_period, is_period, issue_invoice,
}

-- Once a period has its invoice, asking again returns that invoice and changes nothing, also when
-- the usage ledger has changed in between.
pub issue_invoice_again :
    (id : Str) (now later : ℕ) (b b' : Books) (fs : Faults) (i : Invoice) (events : List UsageEvent)
    → issue_invoice id now b fs ≡ (ok i, b')
    → issue_invoice id later (record b' { events = events }) []
      ≡ (ok i, record b' { events = events })
unfolding issue_invoice
issue_invoice_again id now later b b' fs i events h =
    elim (Option-cases (find (is_period id) b.periods)) [
      | inl k ↦ absurd (ground arith)
      | inr (p, k) ↦ elim (Option-cases (find (of_period id) b.invoices)) [
        | inr (j, m) ↦ ground arith
        | inl m ↦ ground (
          arith,
          find-true (is_period id) b.periods p k,
          find-update_where (is_period id) (is_period p.id)
              (λ (q : InvoicePeriod). record q { status = closed; closed_at = some now }) b.periods
              (λ u. refl),
        )
      ]
    ]
