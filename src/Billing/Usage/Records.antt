-- ===== src/Billing/Usage/Records.antt =====
-- What recording usage does to the ledger of internal/billing (`RecordUsage`).
use joysteed_maa_s.Base.{
  ℕ, false, List, [], ◌∷◌, some, any, find, ◌≡◌, arith, Faults, ok, err, Option-cases, Bool-cases,
  inl, inr, ◌≢◌, any-find-none,
}
use joysteed_maa_s.Billing.Sku.{usage_conflict}
use joysteed_maa_s.Billing.Usage.{UsageEvent, UsageInput, rejected_input, keyed, record_usage}

-- Recording again under the same key changes nothing and answers with the row of the first call.
pub record_usage_again :
    (x : UsageInput) (now later : ℕ) (rows rows' : List UsageEvent) (fs : Faults) (e : UsageEvent)
    → record_usage x now rows fs ≡ (ok e, rows')
    → record_usage x later rows' [] ≡ (ok e, rows')
unfolding record_usage
record_usage_again x now later rows rows' fs e h = elim (Bool-cases (rejected_input x)) [
  | inl bad ↦ absurd (ground arith)
  | inr fine ↦ elim (Option-cases (find (keyed x.idempotency_key) rows)) [
    | inl k ↦ ground arith
    | inr (q, k) ↦ ground arith
  ]
]

-- A key that belongs to another tenant is refused, and the ledger keeps its rows.
pub record_usage_conflict :
    (x : UsageInput) (now : ℕ) (rows : List UsageEvent) (q : UsageEvent)
    → rejected_input x ≡ false
    → find (keyed x.idempotency_key) rows ≡ some q
    → q.tenant_id ≢ x.tenant_id
    → record_usage x now rows [] ≡ (err usage_conflict, rows)
unfolding record_usage
record_usage_conflict x now rows q fine found other = ground arith

-- Each key stands in the ledger once.
abbrev pub Unique : List UsageEvent → Type 0
Unique [] = Unit
Unique (e ∷ es) = (any (keyed e.idempotency_key) es ≡ false) × Unique es

pub record_usage-Unique :
    (x : UsageInput) (now : ℕ) (rows : List UsageEvent) (fs : Faults)
    → Unique rows
    → Unique (record_usage x now rows fs).1
unfolding record_usage
record_usage-Unique x now rows fs u = elim (Bool-cases (rejected_input x)) [
  | inl bad ↦ ground arith
  | inr fine ↦ elim (Option-cases (find (keyed x.idempotency_key) rows)) [
    | inl k ↦ ground (arith, any-find-none (keyed x.idempotency_key) rows)
    | inr (q, k) ↦ ground arith
  ]
]
