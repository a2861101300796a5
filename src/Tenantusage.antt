-- ===== src/Tenantusage.antt =====
-- plugins/tenantusage/plugin.go: what stands before and after each request to a provider. A request
-- is admitted over the tables of billing, the quota counter and the semaphore.
pub mod Response
pub mod Settle
pub mod Admits
pub mod Once
pub mod Charges
mod Examples
use joysteed_maa_s.Base.{
  ℕ, ◌+◌, Bool, true, false, not, ◌&&◌, ◌||◌, List, [], ◌∷◌, ◌++◌, Option, some, none, Str, text,
  ◌==◌, trim_space, is_empty, has_prefix, ltb, leb, ℤ, pos, ◌-ℤ◌, ltb_ℤ, leb_ℤ, Result, ok, err,
  Faults, if◌then◌else◌,
}
use joysteed_maa_s.Billing.Allowance.{
  AllowanceStatus, Books, check_allowance, at_least_zero, is_reject,
}
use joysteed_maa_s.Quota
use joysteed_maa_s.Fairness
use joysteed_maa_s.Fairness.{SortedSet, Semaphore, Store, Lease, acquire, unavailable}

-- A `shortCircuit`: the status and the type of the error that the caller gets.
pub data Refusal : Type 0 where
  tenant_required allowance_unavailable model_not_allowed pricing_not_configured : Refusal
  credit_exhausted concurrency_exceeded admission_unavailable : Refusal

unfoldable pub status_of : Refusal → ℕ
status_of tenant_required = 403
status_of allowance_unavailable = 503
status_of model_not_allowed = 403
status_of pricing_not_configured = 403
status_of credit_exhausted = 429
status_of concurrency_exceeded = 429
status_of admission_unavailable = 503

pub record Admission : Type 0 where
  pub settled : Bool
  pub tenant_id : Str
  pub provider : Str
  pub model : Str
  pub request_id : Str
  pub attempt : ℤ
  pub budget : Str
  pub window_end : ℕ
  pub started_at : ℕ
  pub lease : Lease

pub data Decision : Type 0 where
  passed : Decision
  refused : Refusal → Decision
  admitted : Admission → Decision

abbrev trimmed_sku : Str → Str → Str
trimmed_sku provider model =
    if is_empty provider
      || (provider == text "unresolved" || has_prefix model (provider ++ text "/"))
    then model
    else provider ++ (text "/" ++ model)

unfoldable pub canonical_sku : Str → Str → Str
canonical_sku provider model = trimmed_sku (trim_space provider) (trim_space model)

abbrev pub or_unresolved : Str → Str
or_unresolved [] = text "unresolved"
or_unresolved (c ∷ s) = c ∷ s

-- What is spent by the counter, where it is ahead of the ledger.
unfoldable pub spend : ℤ → AllowanceStatus → AllowanceStatus
spend used st =
    if ltb_ℤ st.used_credit_micros used
    then (record st {
      used_credit_micros = used;
      remaining_credit_micros = at_least_zero (st.included_credit_micros -ℤ used);
      allowed = not (is_reject st.overage_policy) || ltb_ℤ used st.included_credit_micros;
    })
    else st

-- What the request's context and the clocks say: times are in nanoseconds, `now_ms` and `server` are
-- those of the semaphore, and `token` comes from the source of randomness.
pub record Request : Type 0 where
  pub tenant_id : Str
  pub provider : Str
  pub model : Str
  pub request_id : Str
  pub attempt : ℤ
  pub now : ℕ
  pub now_ms : ℕ
  pub server : ℕ
  pub token : Option Str
  pub counter_link : Quota.Link
  pub semaphore_link : Fairness.Link

module _ (z : SortedSet) where
  -- `month` gives the month's first instant and the next one's, `budget_of` the budget's name, and
  -- `itoa` is strconv.Itoa.
  pub record Config : Type 0 where
    pub semaphore : Semaphore z
    pub counter : Option Quota.Counter
    pub lease_ttl : ℤ
    pub provider_max_concurrent : ℤ
    pub markup_basis_points : ℤ
    pub month : ℕ → ℕ × ℕ
    pub budget_of : ℕ → Str
    pub itoa : ℤ → Str
    pub lua : ℤ → ℤ

  -- The constructor's defaults and its refusals.
  unfoldable pub new_config : Config → Option Config
  new_config c =
      if ltb_ℤ c.provider_max_concurrent (pos 0) || ltb_ℤ c.markup_basis_points (pos 0)
      then none
      else some (record c {
        lease_ttl = if leb_ℤ c.lease_ttl (pos 0) then pos 300000000000 else c.lease_ttl;
      })

  pub record World : Type 0 where
    pub books : Books
    pub counters : Quota.Store
    pub leases : Store z

  abbrev pub known_spend : Config → Request → Str → World → Result Quota.Error (Option ℤ)
  known_spend c r budget w = elim c.counter [
    | none ↦ ok none
    | some q ↦ elim (Quota.usage q r.tenant_id budget r.server r.counter_link w.counters) [
      | ok used ↦ ok (some used)
      | err e ↦ err e
    ]
  ]

  abbrev pub spend_known : Option ℤ → AllowanceStatus → AllowanceStatus
  spend_known none st = st
  spend_known (some used) st = spend used st

  abbrev pub admission_of : Config → Request → Lease → Admission
  admission_of c r lease = record {
    settled = false;
    tenant_id = r.tenant_id;
    provider = or_unresolved r.provider;
    model = canonical_sku (or_unresolved r.provider) r.model;
    request_id = r.request_id;
    attempt = r.attempt;
    budget = c.budget_of (c.month r.now).0;
    window_end = (c.month r.now).1;
    started_at = r.now;
    lease = lease;
  }

  abbrev pub is_unavailable : Fairness.Error → Bool
  is_unavailable unavailable = true
  is_unavailable _ = false

  abbrev pub leased :
      Config → Request → World → Result Fairness.Error Lease × Store z → Decision × World
  leased c r w (ok lease, st) = (admitted (admission_of c r lease), record w { leases = st })
  leased c r w (err e, st) = (
    refused (if is_unavailable e then concurrency_exceeded else admission_unavailable),
    record w { leases = st },
  )

  unfoldable pub enter : Config → Request → AllowanceStatus → World → Decision × World
  enter c r st w = leased c r w (
      acquire z c.semaphore r.tenant_id (or_unresolved r.provider) st.max_concurrent
        c.provider_max_concurrent c.lease_ttl r.token r.now_ms r.server r.semaphore_link w.leases)

  -- The checks on the plan, then on the credit; the semaphore is asked last.
  unfoldable pub admit : Config → Request → AllowanceStatus → World → Decision × World
  admit c r st w =
      if not st.model_allowed
      then (refused model_not_allowed, w)
      else (if not st.pricing_configured
          then (refused pricing_not_configured, w)
          else (elim (known_spend c r (c.budget_of (c.month r.now).0) w) [
            | err _ ↦ (refused allowance_unavailable, w)
            | ok used ↦
                if not (spend_known used st).allowed
                then (refused credit_exhausted, w)
                else enter c r (spend_known used st) w
          ]))

  unfoldable pub pre_llm_hook : Config → Request → World → Faults → Decision × World
  pre_llm_hook c r w fs =
      if is_empty r.tenant_id
      then (refused tenant_required, w)
      else (if is_empty r.model
          then (passed, w)
          else (elim (check_allowance r.tenant_id (canonical_sku (or_unresolved r.provider) r.model)
              r.now (c.month r.now).0 (c.month r.now).1 (pos 0) w.books fs) [
                | err _ ↦ (refused allowance_unavailable, w)
                | ok (st, _, _) ↦ admit c r st w
              ]))
