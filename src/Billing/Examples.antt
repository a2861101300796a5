-- ===== src/Billing/Examples.antt =====
-- Runs of internal/billing, and its theorems at inputs that meet their hypotheses.
use native.Mathlib.Decide.{ℕ_discrete}
use joysteed_maa_s.Base.{
  ℕ, ◌*◌, ◌≤◌, ◌<◌, ◌+◌, true, List, [], ◌∷◌, none, some, Str, text, pos, ◌≤ℤ◌, ◌≡◌, refl, arith,
  Faults, ok, err, str_discrete, select, trim_space, ◌+ℤ◌, ◌-ℤ◌, subst, wrap, find,
}
use joysteed_maa_s.Billing.Sku.{Sku, price, reservation_state}
use joysteed_maa_s.Billing.Sku.Price.{price_rounds_up}
use joysteed_maa_s.Billing.Account.{
  Account, Ledger, Reservation, HoldStatus-discrete, reserved, captured, capture, release, owned_by,
}
use joysteed_maa_s.Billing.Account.Funds.{Funds, IsSound}
use joysteed_maa_s.Billing.Account.Replay.{capture_settles}
use joysteed_maa_s.Billing.Account.History.{Call, reserves, captures, run, run-IsFunded}
use joysteed_maa_s.Billing.Usage.{
  UsageEvent, UsageInput, platform_pool, tenant_byok, success, is_platform, record_usage,
  rejected_input, bad_header, bad_charge, bad_measure, usage_row, valid_usage_status,
}
use joysteed_maa_s.Billing.Invoice.{
  Books, Invoice, InvoicePeriod, open_period, closed, issue_invoice, period_totals, in_window,
  sum_pos,
}
use joysteed_maa_s.Billing.Invoice.Frozen.{issue_invoice_again}
use joysteed_maa_s.Billing.Invoice.Totals.{ledger, period_totals_cover}

abbrev mini : Sku
mini = record {
  id = text "gpt-mini";
  name = text "Mini";
  prompt_micros_per_1m = pos 150000;
  completion_micros_per_1m = pos 600000;
  legacy_prompt_per_1k = pos 150;
  legacy_completion_per_1k = pos 600;
  created_at = 1;
}

price_rounds_up_example :
    (c : ℕ) × (price (pos 1) (pos 3) ≡ pos c)
    × (1 * 3 ≤ c * 1000000)
    × (c * 1000000 < 1 * 3 + 1000000)
price_rounds_up_example = price_rounds_up 1 3 (omega arith)

abbrev wallet : Account
wallet = record {
  tenant_id = text "t1";
  currency = text "USD";
  balance_micros = pos 500;
  reserved_micros = pos 0;
  updated_at = 1;
}

abbrev fresh : Ledger
fresh = record { accounts = wallet ∷ []; reservations = [] }

fresh-IsSound : IsSound fresh
fresh-IsSound = record { funds = λ t a e. funded t a e; charges = tt; distinct = tt }
  where
    funded : (t : Str) (a : Account) → find (owned_by t) (wallet ∷ []) ≡ some a → Funds a 0
    funded t a e =
        let same : wallet ≡ a = ground arith in
        subst (λ b. Funds b 0) same
          (record {
            balance = 500;
            exact = refl;
            positive = refl;
            covered = omega arith;
            in_range = omega arith;
          })

abbrev calls : List (ℕ × Faults × Call)
calls =
    (5, [], reserves (text "t1") (text "job") (pos 200))
    ∷ (6, true ∷ [], captures (text "job"))
    ∷ (7, [], captures (text "job"))
    ∷ []

run-IsFunded_example : IsSound (run fresh calls)
run-IsFunded_example = run-IsFunded fresh calls fresh-IsSound

abbrev job : Reservation
job = record {
  id = text "job";
  tenant_id = text "t1";
  idempotency_key = text "job";
  amount_micros = pos 200;
  status = reserved;
  created_at = 5;
  updated_at = 5;
}

abbrev holding : Ledger
holding = record {
  accounts = record wallet { reserved_micros = pos 200; updated_at = 5 } ∷ [];
  reservations = job ∷ [];
}

abbrev paid : Ledger
paid = record {
  accounts = record wallet { balance_micros = pos 300; updated_at = 7 } ∷ [];
  reservations = record job { status = captured; updated_at = 7 } ∷ [];
}

capture_settles_example :
    (capture (text "job") 8 paid [] ≡ (ok tt, paid))
    × (release (text "job") 8 paid [] ≡ (err reservation_state, paid))
capture_settles_example =
    capture_settles (text "job") 7 8 holding paid []
      (unfold capture str_discrete ℕ_discrete HoldStatus-discrete ◌-ℤ◌ wrap in refl)

abbrev call : UsageInput
call = record {
  id = [];
  idempotency_key = text "r1:attempt:0";
  gateway_log_id = text "r1";
  attempt = pos 0;
  tenant_id = text "t1";
  period_start = 12;
  key_ownership = platform_pool;
  model = text "openai/gpt-mini";
  status = success;
  duration_ms = some (pos 30);
  prompt_tokens = pos 1000;
  completion_tokens = pos 200;
  provider_cost_micros = pos 270;
  markup_micros = pos 27;
  service_fee_micros = pos 0;
}

abbrev used : UsageEvent
used = record {
  id = text "r1:attempt:0";
  tenant_id = text "t1";
  idempotency_key = text "r1:attempt:0";
  gateway_log_id = text "r1";
  attempt = pos 0;
  period_start = 12;
  key_ownership = platform_pool;
  model = text "openai/gpt-mini";
  status = success;
  duration_ms = some (pos 30);
  prompt_tokens = pos 1000;
  completion_tokens = pos 200;
  total_tokens = pos 1200;
  provider_cost_micros = pos 270;
  markup_micros = pos 27;
  service_fee_micros = pos 0;
  amount_micros = pos 297;
  created_at = 13;
}

abbrev january : InvoicePeriod
january = record {
  id = text "t1:10";
  tenant_id = text "t1";
  starts_at = 10;
  ends_at = 20;
  status = open_period;
  created_at = 9;
  closed_at = none;
}

-- The same request on the tenant's own key, which pays the fee alone.
abbrev own_call : UsageInput
own_call = record call {
  idempotency_key = text "r2:attempt:0";
  key_ownership = tenant_byok;
  service_fee_micros = pos 3;
}

abbrev january_calls : List (UsageInput × ℕ × Faults)
january_calls = (call, 20, []) ∷ (own_call, 21, []) ∷ []

period_totals_cover_example :
    (pos 270 ≤ℤ pos 300)
    × (pos 300
        ≡ pos (
            sum_pos
              (λ e. e.amount_micros)
              (select (in_window (text "t1") 10 20) (ledger january_calls []))))
    × (pos 270
        ≡ pos (
            sum_pos
              (λ e. e.provider_cost_micros)
              (select
                (λ e. is_platform e.key_ownership)
                (select (in_window (text "t1") 10 20) (ledger january_calls [])))))
period_totals_cover_example =
    period_totals_cover january january_calls (pos 300) (pos 270) (omega arith, (omega arith, tt))
      (unfold period_totals ledger record_usage rejected_input bad_header bad_charge bad_measure
          usage_row valid_usage_status trim_space str_discrete ℕ_discrete ◌+ℤ◌ wrap in
        refl)

abbrev january_invoice : Invoice
january_invoice = record {
  id = text "t1:10:invoice";
  tenant_id = text "t1";
  period_id = text "t1:10";
  currency = text "USD";
  platform_cost_micros = pos 270;
  tenant_subtotal_micros = pos 297;
  issued_at = some 21;
  created_at = 21;
}

abbrev closed_books : Books
closed_books = record {
  events = used ∷ [];
  periods = record january { status = closed; closed_at = some 21 } ∷ [];
  invoices = january_invoice ∷ [];
}

issue_invoice_again_example :
    issue_invoice (text "t1:10") 30 (record closed_books { events = [] }) []
    ≡ (ok january_invoice, record closed_books { events = [] })
issue_invoice_again_example =
    issue_invoice_again (text "t1:10") 21 30
      (record { events = used ∷ []; periods = january ∷ []; invoices = [] }) closed_books []
      january_invoice [] (unfold issue_invoice trim_space str_discrete ℕ_discrete ◌+ℤ◌ wrap in refl)
