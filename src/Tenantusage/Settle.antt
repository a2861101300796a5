-- ===== src/Tenantusage/Settle.antt =====
-- plugins/tenantusage/plugin.go: what follows a request (`PostLLMHook`), and the lease's renewals.
use joysteed_maa_s.Base.{
  ℕ, ◌+◌, ◌-◌, ◌/◌, Bool, true, false, not, ◌&&◌, List, [], ◌∷◌, ◌++◌, Option, some, none, Str,
  text, ltb, ℤ, pos, ◌+ℤ◌, ◌*ℤ◌, div_ℤ, ltb_ℤ, leb_ℤ, eqb_ℤ, Result, ok, err, Faults, if◌then◌else◌,
}
use joysteed_maa_s.Billing.Sku.{price_usage}
use joysteed_maa_s.Billing.Usage.{UsageInput, platform_pool, success, failed, record_usage}
use joysteed_maa_s.Billing.Allowance.{Books}
use joysteed_maa_s.Quota
use joysteed_maa_s.Fairness
use joysteed_maa_s.Fairness.{SortedSet, Lease, release, renew, lease_expired}
use joysteed_maa_s.Tenantusage.{Admission, Config, World}
use joysteed_maa_s.Tenantusage.Response.{LlmUsage}

-- What the hook uses of the gateway's float costs: a test on the sign, the cost in whole micros, and
-- the usage with its cost made uniform.
pub record Costs : Type 1 where
  pub Cost : Type 0
  pub is_positive : Cost → Bool
  pub rounded : Cost → ℤ
  pub normalize : LlmUsage Cost → LlmUsage Cost

-- One call of the hook: the gateway's answers, the clocks, and which statements fail.
pub record Reply (k : Costs) : Type 0 where
  pub streaming : Bool
  pub final : Bool
  pub failure : Bool
  pub usage : Option (LlmUsage k.Cost)
  pub fallback_request_id : Str
  pub at : ℕ
  pub server : ℕ
  pub price_faults : Faults
  pub record_faults : Faults
  pub counter_link : Quota.Link
  pub semaphore_link : Fairness.Link

module _ (k : Costs) where
  unfoldable pub cost_micros : Option k.Cost → ℤ
  cost_micros none = pos 0
  cost_micros (some c) = if k.is_positive c then k.rounded c else pos 0

  unfoldable pub total_tokens : LlmUsage k.Cost → ℤ
  total_tokens u =
      if eqb_ℤ u.total_tokens (pos 0)
      then u.prompt_tokens +ℤ u.completion_tokens
      else u.total_tokens

-- The counter's claim outlives the month by a day, and an hour at least.
unfoldable pub claim_ttl : ℕ → ℕ → ℕ
claim_ttl at window_end =
    let until = window_end + 86400000000000 - at in
    if ltb until 3600000000000 then 3600000000000 else until

abbrev pub or_lease : Str → Str → Str
or_lease [] token = text "lease:" ++ token
or_lease (c ∷ s) token = c ∷ s

abbrev pub or_own : Str → Str → Str
or_own own [] = own
or_own own (c ∷ s) = c ∷ s

module _ (z : SortedSet) (k : Costs) where
  abbrev pub idempotency : Config z → Admission → Str
  idempotency c a = or_lease a.request_id a.lease.token ++ (text ":attempt:" ++ c.itoa a.attempt)

  abbrev pub markup : Config z → ℤ → ℤ
  markup c cost = div_ℤ (cost *ℤ c.markup_basis_points) 10000

  abbrev priced : Reply k → Admission → World z → LlmUsage k.Cost → ℤ
  priced r a w u =
      elim (price_usage a.model u.prompt_tokens u.completion_tokens w.books.catalog.skus
        r.price_faults) [ ok (cost, _, _) ↦ cost | err _ ↦ pos 0 ]

  unfoldable pub provider_micros : Reply k → Admission → World z → LlmUsage k.Cost → ℤ
  unfolding cost_micros
  provider_micros r a w u =
      if eqb_ℤ (cost_micros k u.cost) (pos 0) then priced r a w u else cost_micros k u.cost

  unfoldable pub input_of : Config z → Reply k → Admission → LlmUsage k.Cost → ℤ → UsageInput
  input_of c r a u cost = record {
    id = idempotency c a;
    idempotency_key = idempotency c a;
    gateway_log_id = or_own a.request_id r.fallback_request_id;
    attempt = a.attempt;
    tenant_id = a.tenant_id;
    period_start = r.at;
    key_ownership = platform_pool;
    model = a.model;
    status = if r.failure then failed else success;
    duration_ms = some (pos ((r.at - a.started_at) / 1000000));
    prompt_tokens = u.prompt_tokens;
    completion_tokens = u.completion_tokens;
    provider_cost_micros = cost;
    markup_micros = markup c cost;
    service_fee_micros = pos 0;
  }

  abbrev charge_counter : Config z → Reply k → Admission → ℤ → Quota.Store → Quota.Store
  charge_counter c r a amount st = elim c.counter [
    | none ↦ st
    | some q ↦
        if leb_ℤ amount (pos 0)
        then st
        else ((Quota.charge_once c.lua q a.tenant_id a.budget (idempotency c a) amount
            (pos (claim_ttl r.at a.window_end)) r.server r.counter_link st).1)
  ]

  abbrev record_event : UsageInput → Reply k → Books → Books
  record_event x r b = record b { events = (record_usage x r.at b.events r.record_faults).1 }

  -- The counter is charged before the ledger; each failure is logged and dropped.
  unfoldable pub charge_usage : Config z → Reply k → Admission → LlmUsage k.Cost → World z → World z
  charge_usage c r a u w =
      let cost = provider_micros r a w u in
      if leb_ℤ (total_tokens k u) (pos 0) && leb_ℤ cost (pos 0) then w else (record w {
        counters = charge_counter c r a (cost +ℤ markup c cost) w.counters;
        books = record_event (input_of c r a u cost) r w.books;
      })

  abbrev charge_known :
      Config z → Reply k → Admission → Option (LlmUsage k.Cost) → World z → World z
  charge_known c r a none w = w
  charge_known c r a (some u) w = charge_usage c r a (k.normalize u) w

  unfoldable pub free_lease : Config z → Reply k → Admission → World z → World z
  free_lease c r a w = record w {
    leases = (release z c.semaphore a.lease r.semaphore_link w.leases).1;
  }

  unfoldable pub post_llm_hook : Config z → Reply k → Admission → World z → Admission × World z
  post_llm_hook c r a w =
      if r.streaming && (not r.failure && not r.final)
      then (a, w)
      else (if a.settled
          then (a, w)
          else (record a { settled = true }, charge_known c r a r.usage (free_lease c r a w)))

-- What wakes the goroutine that keeps a lease alive: its ticker, with the clocks, or an end.
pub data Wake : Type 0 where
  tick : ℕ → ℕ → Fairness.Link → Wake
  stop : Wake

unfoldable pub renew_interval : ℤ → ℤ
renew_interval ttl =
    let third = div_ℤ ttl 3 in if ltb_ℤ third (pos 1000000) then pos 1000000 else third

module _ (z : SortedSet) where
  abbrev is_expired : Result Fairness.Error (Unit {0}) → Bool
  is_expired (err lease_expired) = true
  is_expired _ = false

  unfoldable pub keep_lease_alive :
      Config z → Lease → List Wake → Fairness.Store z → Fairness.Store z
  keep_lease_alive c lease [] st = st
  keep_lease_alive c lease (stop ∷ rest) st = st
  keep_lease_alive c lease (tick now server link ∷ rest) st =
      let renewed = renew z c.semaphore lease c.lease_ttl now server link st in
      let later = keep_lease_alive c lease rest renewed.1 in
      if is_expired renewed.0 then renewed.1 else later
