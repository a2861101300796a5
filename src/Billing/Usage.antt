-- ===== src/Billing/Usage.antt =====
-- internal/billing/billing.go: the usage ledger, its totals and the invoices drawn from it.
pub mod Records
use joysteed_maa_s.Base.{
  ℕ, Bool, true, false, not, ◌&&◌, ◌||◌, List, [], ◌∷◌, Option, none, some, Str, ◌==◌, text,
  trim_space, is_empty, any, find, select, length, update_where, ltb, leb, eqb, ℤ, pos, ◌+ℤ◌, ltb_ℤ,
  Tx, Faults, Result, ok, err, query, exec, throw, pure, ◌>>=◌, ◌>>◌, transaction, if◌then◌else◌,
  ◌++◌,
}
use joysteed_maa_s.Billing.Sku.{Error, invalid_usage, usage_conflict, record_not_found, database}

-- `KeyOwnership` and `UsageStatus` are strings: `other` is any text but the constants.
pub data KeyOwnership : Type 0 where
  platform_pool tenant_byok : KeyOwnership
  other : Str → KeyOwnership

pub data UsageStatus : Type 0 where
  unset unknown success failed : UsageStatus
  other : Str → UsageStatus

pub record UsageEvent : Type 0 where
  pub id : Str
  pub tenant_id : Str
  pub idempotency_key : Str
  pub gateway_log_id : Str
  pub attempt : ℤ
  pub period_start : ℕ
  pub key_ownership : KeyOwnership
  pub model : Str
  pub status : UsageStatus
  pub duration_ms : Option ℤ
  pub prompt_tokens : ℤ
  pub completion_tokens : ℤ
  pub total_tokens : ℤ
  pub provider_cost_micros : ℤ
  pub markup_micros : ℤ
  pub service_fee_micros : ℤ
  pub amount_micros : ℤ
  pub created_at : ℕ

pub record UsageInput : Type 0 where
  pub id : Str
  pub idempotency_key : Str
  pub gateway_log_id : Str
  pub attempt : ℤ
  pub tenant_id : Str
  pub period_start : ℕ
  pub key_ownership : KeyOwnership
  pub model : Str
  pub status : UsageStatus
  pub duration_ms : Option ℤ
  pub prompt_tokens : ℤ
  pub completion_tokens : ℤ
  pub provider_cost_micros : ℤ
  pub markup_micros : ℤ
  pub service_fee_micros : ℤ

abbrev pub is_owner : KeyOwnership → Bool
is_owner platform_pool = true
is_owner tenant_byok = true
is_owner (other _) = false

abbrev pub is_platform : KeyOwnership → Bool
is_platform platform_pool = true
is_platform _ = false

unfoldable pub valid_usage_status : UsageStatus → Bool → Bool
valid_usage_status unset allow_empty = allow_empty
valid_usage_status unknown allow_empty = true
valid_usage_status success allow_empty = true
valid_usage_status failed allow_empty = true
valid_usage_status (other _) allow_empty = false

abbrev or_unknown : UsageStatus → UsageStatus
or_unknown unset = unknown
or_unknown s = s

abbrev negative_duration : Option ℤ → Bool
negative_duration none = false
negative_duration (some d) = ltb_ℤ d (pos 0)

-- The guard of `RecordUsage` in three parts: who and when, the amounts, and the rest.
unfoldable pub bad_header : UsageInput → Bool
bad_header x =
    is_empty x.tenant_id
    || (is_empty (trim_space x.idempotency_key)
        || (eqb x.period_start 0 || not (is_owner x.key_ownership)))

unfoldable pub bad_charge : UsageInput → Bool
bad_charge x =
    ltb_ℤ x.provider_cost_micros (pos 0)
    || (ltb_ℤ x.markup_micros (pos 0) || ltb_ℤ x.service_fee_micros (pos 0))

unfoldable pub bad_measure : UsageInput → Bool
unfolding valid_usage_status
bad_measure x =
    ltb_ℤ x.prompt_tokens (pos 0)
    || (ltb_ℤ x.completion_tokens (pos 0)
        || (negative_duration x.duration_ms || not (valid_usage_status x.status true)))

unfoldable pub rejected_input : UsageInput → Bool
rejected_input x = bad_header x || (bad_charge x || bad_measure x)

abbrev pub keyed : Str → UsageEvent → Bool
keyed key e = e.idempotency_key == key

-- What the tenant pays: on the platform's keys the provider's cost and the markup, on its own keys
-- the service fee alone.
unfoldable pub billed_amount : UsageInput → ℤ
billed_amount x =
    if is_platform x.key_ownership
    then x.provider_cost_micros +ℤ x.markup_micros
    else x.service_fee_micros

unfoldable pub usage_row : UsageInput → ℕ → UsageEvent
unfolding billed_amount
usage_row x now = record {
  id = if is_empty x.id then x.idempotency_key else x.id;
  tenant_id = x.tenant_id;
  idempotency_key = x.idempotency_key;
  gateway_log_id = trim_space x.gateway_log_id;
  attempt = x.attempt;
  period_start = x.period_start;
  key_ownership = x.key_ownership;
  model = x.model;
  status = or_unknown x.status;
  duration_ms = x.duration_ms;
  prompt_tokens = x.prompt_tokens;
  completion_tokens = x.completion_tokens;
  total_tokens = x.prompt_tokens +ℤ x.completion_tokens;
  provider_cost_micros = x.provider_cost_micros;
  markup_micros = x.markup_micros;
  service_fee_micros = x.service_fee_micros;
  amount_micros = billed_amount x;
  created_at = now;
}

-- `ON CONFLICT (idempotency_key) DO NOTHING`; a row with the primary key of another is refused.
abbrev insert_event : UsageEvent → Tx Error (List UsageEvent) (Unit {0})
insert_event e rows fs =
    (if any (keyed e.idempotency_key) rows
        then exec database (λ s. s)
        else (if any (λ q. q.id == e.id) rows then throw database else exec database (λ s. e ∷ s)))
      rows fs

abbrev or_missing : Option UsageEvent → Tx Error (List UsageEvent) UsageEvent
or_missing none = throw record_not_found
or_missing (some e) = pure e

abbrev seen_or_insert : UsageInput → ℕ → Option UsageEvent → Tx Error (List UsageEvent) UsageEvent
seen_or_insert x now (some e) = if e.tenant_id == x.tenant_id then pure e else throw usage_conflict
seen_or_insert x now none = do
  insert_event (usage_row x now)
  out ← query database (find (keyed x.idempotency_key))
  or_missing out

unfoldable pub record_usage :
    UsageInput → ℕ → List UsageEvent → Faults → Result Error UsageEvent × List UsageEvent
unfolding rejected_input usage_row
record_usage x now rows fs =
    if rejected_input x
    then (err invalid_usage, rows)
    else transaction
        (do
          existing ← query database (find (keyed x.idempotency_key))
          seen_or_insert x now existing)
        rows fs
