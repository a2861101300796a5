-- ===== src/Tenantusage/Admits.antt =====
-- What a request that plugins/tenantusage admits has shown, down to the plan and the leases.
use joysteed_maa_s.Base.{
  ℕ, ◌≤◌, ◌<◌, true, false, Option, some, none, Str, ℤ, pos, negsuc, ltb_ℤ, ◌<ℤ◌, Result, ok, err,
  Faults, [], ◌≡◌, refl, ◌≢◌, ◌⊎◌, inl, inr, arith, Bool-cases, subst, ◌∙◌,
}
use joysteed_maa_s.Billing.Plan.{OveragePolicy, reject, unset, allow, other}
use joysteed_maa_s.Billing.Sku
use joysteed_maa_s.Billing.Allowance.{AllowanceStatus, Books, check_allowance, is_reject}
use joysteed_maa_s.Billing.Allowance.Admission.{check_allowance_fields, check_allowance_keeps}
use joysteed_maa_s.Quota
use joysteed_maa_s.Fairness
use joysteed_maa_s.Fairness.{SortedSet, Lease, Store, acquire, tenant_key, provider_key}
use joysteed_maa_s.Fairness.Capacity.{acquire-le}
use joysteed_maa_s.Tenantusage.{
  Admission, Config, World, Request, admitted, leased, known_spend, spend_known, or_unresolved,
  canonical_sku, spend, enter, admit, pre_llm_hook,
}

not_reject : (p : OveragePolicy) → is_reject p ≡ false → p ≢ reject
not_reject unset h = λ e. cc
not_reject allow h = λ e. cc
not_reject (other s) h = λ e. cc
not_reject reject h = absurd (ground arith)

abbrev Credit : AllowanceStatus → ℤ → Type 0
Credit st used = (st.overage_policy ≢ reject) ⊎ (used <ℤ st.included_credit_micros)

spend-Credit :
    (st : AllowanceStatus) (used : ℤ)
    → (st.allowed ≡ true → Credit st st.used_credit_micros)
    → (spend used st).allowed ≡ true
    → Credit st st.used_credit_micros × Credit st used
unfolding spend
spend-Credit st used ledger h = elim (Bool-cases (ltb_ℤ st.used_credit_micros used)) [
  | inl ahead ↦ elim (Bool-cases (is_reject st.overage_policy)) [
    | inl strict ↦ (inr (ground arith), inr (ground arith))
    | inr lax ↦ (inl (not_reject st.overage_policy lax), inl (not_reject st.overage_policy lax))
  ]
  | inr behind ↦ elim (ledger (ground arith)) [
    | inl free ↦ (inl free, inl free)
    | inr left ↦ (inr left, inr (ground arith))
  ]
]

spend-max_concurrent :
    (st : AllowanceStatus) (used : ℤ) → (spend used st).max_concurrent ≡ st.max_concurrent
unfolding spend
spend-max_concurrent st used = ground arith

module _ (z : SortedSet) where
  leased_lease :
      (c : Config z) (r : Request) (w w' : World z) (a : Admission)
      (p : Result Fairness.Error Lease × Store z)
      → leased z c r w p ≡ (admitted a, w')
      → p ≡ (ok a.lease, w'.leases)
  leased_lease c r w w' a (ok lease, st) h = ground arith
  leased_lease c r w w' a (err e, st) h = absurd (ground arith)

  -- What the semaphore was asked for a request that was let in.
  entered :
      (c : Config z) (r : Request) (st : AllowanceStatus) (w w' : World z) (a : Admission)
      → enter z c r st w ≡ (admitted a, w')
      → acquire z c.semaphore r.tenant_id
          (or_unresolved r.provider)
          st.max_concurrent
          c.provider_max_concurrent
          c.lease_ttl
          r.token
          r.now_ms
          r.server
          r.semaphore_link
          w.leases
        ≡ (ok a.lease, w'.leases)
  unfolding enter
  entered c r st w w' a h = leased_lease c r w w' a _ h

  abbrev budget : Config z → Request → Str
  budget c r = c.budget_of (c.month r.now).0

  -- The checks that an admitted request has passed, with what the counter said.
  abbrev Checked :
      Config z → Request → AllowanceStatus → World z → World z → Admission → Option ℤ → Type 0
  Checked c r st w w' a used =
      (known_spend z c r (budget c r) w ≡ ok used)
      × (st.model_allowed ≡ true)
      × (st.pricing_configured ≡ true)
      × ((spend_known z used st).allowed ≡ true)
      × (enter z c r (spend_known z used st) w ≡ (admitted a, w'))

  checked :
      (c : Config z) (r : Request) (st : AllowanceStatus) (w w' : World z) (a : Admission)
      (known : Result Quota.Error (Option ℤ))
      → known_spend z c r (budget c r) w ≡ known
      → admit z c r st w ≡ (admitted a, w')
      → (used : Option ℤ) × Checked c r st w w' a used
  unfolding admit
  checked c r st w w' a (err e) k h = absurd (ground arith)
  checked c r st w w' a (ok used) k h =
      (used, (k, ground arith, ground arith, ground arith, ground arith))

  allowed :
      (c : Config z) (r : Request) (w w' : World z) (a : Admission)
      → pre_llm_hook z c r w [] ≡ (admitted a, w')
      → (st : AllowanceStatus) × (check_allowance r.tenant_id
            (canonical_sku (or_unresolved r.provider) r.model)
            r.now
            (c.month r.now).0
            (c.month r.now).1
            (pos 0)
            w.books
            []
          ≡ ok (st, w.books, []))
        × (admit z c r st w ≡ (admitted a, w'))
  unfolding pre_llm_hook
  allowed c r w w' a h =
      answered
        (check_allowance r.tenant_id (canonical_sku (or_unresolved r.provider) r.model) r.now
          (c.month r.now).0 (c.month r.now).1 (pos 0) w.books [])
        refl
    where
      answered :
          (m : Result Sku.Error (AllowanceStatus × Books × Faults))
          → check_allowance r.tenant_id
              (canonical_sku (or_unresolved r.provider) r.model)
              r.now
              (c.month r.now).0
              (c.month r.now).1
              (pos 0)
              w.books
              []
            ≡ m
          → (st : AllowanceStatus) × (check_allowance r.tenant_id
                (canonical_sku (or_unresolved r.provider) r.model)
                r.now
                (c.month r.now).0
                (c.month r.now).1
                (pos 0)
                w.books
                []
              ≡ ok (st, w.books, []))
            × (admit z c r st w ≡ (admitted a, w'))
      answered (err e) k = absurd (ground arith)
      answered (ok (st, b, fs)) k =
          let (same, none_left) = check_allowance_keeps _ _ _ _ _ w.books b st fs k in
          (st, k ∙ ground arith, ground arith)

  same_limit :
      (used : Option ℤ) (st : AllowanceStatus)
      → (spend_known z used st).max_concurrent ≡ st.max_concurrent
  same_limit none st = refl
  same_limit (some used) st = spend-max_concurrent st used

  credits :
      (used : Option ℤ) (st : AllowanceStatus)
      → (st.allowed ≡ true → Credit st st.used_credit_micros)
      → (spend_known z used st).allowed ≡ true
      → Credit st st.used_credit_micros × ((u : ℤ) → used ≡ some u → Credit st u)
  credits none st ledger h = (ledger h, λ u e. absurd (ground arith))
  credits (some v) st ledger h =
      let (by_ledger, by_counter) = spend-Credit st v ledger h in
      (by_ledger, λ u e. let same : v ≡ u = ground arith in subst (Credit st) same by_counter)

  -- The counter's answer is what the hook was given.
  known :
      (c : Config z) (r : Request) (w : World z) (q : Quota.Counter) (used : Option ℤ) (u : ℤ)
      → c.counter ≡ some q
      → known_spend z c r (budget c r) w ≡ ok used
      → Quota.usage q r.tenant_id (budget c r) r.server r.counter_link w.counters ≡ ok u
      → used ≡ some u
  known c r w q used u e k h = ground arith

  abbrev Leases : Config z → Request → World z → World z → ℤ → ℤ → Str → Lease → Type 0
  Leases c r w w' limit bound token lease =
      acquire z c.semaphore r.tenant_id (or_unresolved r.provider) limit bound c.lease_ttl
        (some token) r.now_ms r.server Fairness.answers w.leases
      ≡ (ok lease, w'.leases)

  tenant_le :
      (c : Config z) (r : Request) (w w' : World z) (limit : ℤ) (m n : ℕ) (token : Str)
      (lease : Lease)
      → Leases c r w w' limit (pos n) token lease
      → limit ≡ pos m
      → 0 < m
      → z.card (w'.leases.sets (tenant_key z c.semaphore r.tenant_id)) ≤ m
  tenant_le c r w w' limit m n token lease h e =
      (acquire-le z c.semaphore r.tenant_id (or_unresolved r.provider) m n c.lease_ttl token
        r.now_ms r.server w.leases w'.leases lease
        (subst (λ l. Leases c r w w' l (pos n) token lease) e h)).0

  provider_le :
      (c : Config z) (r : Request) (w w' : World z) (limit : ℤ) (n : ℕ) (token : Str)
      (lease : Lease)
      → Leases c r w w' limit (pos n) token lease
      → 0 < n
      → z.card (w'.leases.sets (provider_key z c.semaphore (or_unresolved r.provider))) ≤ n
  provider_le c r w w' (pos m) n token lease h =
      (acquire-le z c.semaphore r.tenant_id (or_unresolved r.provider) m n c.lease_ttl token
        r.now_ms r.server w.leases w'.leases lease h).1
  provider_le c r w w' (negsuc m) n token lease h = absurd (unfold acquire in ground arith)

  -- Where no statement fails and the semaphore answers, a request is let in only for a model on the
  -- plan that is priced, with credit left by the ledger and by the counter unless the plan takes
  -- overage; and then the tenant holds at most as many leases as its plan allows, and the provider as
  -- the gateway allows, where these have limits.
  pub pre_llm_hook-admits :
      (c : Config z) (r : Request) (w w' : World z) (a : Admission) (m n : ℕ) (token : Str)
      → pre_llm_hook z c r w [] ≡ (admitted a, w')
      → r.semaphore_link ≡ Fairness.answers
      → r.token ≡ some token
      → c.provider_max_concurrent ≡ pos n
      → (st : AllowanceStatus) × (check_allowance r.tenant_id
            (canonical_sku (or_unresolved r.provider) r.model)
            r.now
            (c.month r.now).0
            (c.month r.now).1
            (pos 0)
            w.books
            []
          ≡ ok (st, w.books, []))
        × (st.model_allowed ≡ true)
        × (st.pricing_configured ≡ true)
        × Credit st st.used_credit_micros
        × ((q : Quota.Counter) (used : ℤ)
            → c.counter ≡ some q
            → Quota.usage q r.tenant_id (budget c r) r.server r.counter_link w.counters ≡ ok used
            → Credit st used)
        × (st.max_concurrent ≡ pos m
            → 0 < m
            → z.card (w'.leases.sets (tenant_key z c.semaphore r.tenant_id)) ≤ m)
        × (0 < n
            → z.card (w'.leases.sets (provider_key z c.semaphore (or_unresolved r.provider))) ≤ n)
  pre_llm_hook-admits c r w w' a m n token h answers drawn limit =
      let (st, asked, rest) = allowed c r w w' a h in
      let (used, (k, on_plan, priced, fine, inside)) = checked c r st w w' a _ refl rest in
      let verdict = check_allowance_fields _ _ _ _ _ w.books st asked in
      let (by_ledger, by_counter) = credits used st (λ e. (verdict.0.0 e).2) fine in
      let got : Leases c r w w' st.max_concurrent (pos n) token a.lease =
        subst (λ l. Leases c r w w' l (pos n) token a.lease) (same_limit used st)
          (rw (← limit, ← drawn, ← answers) (entered c r (spend_known z used st) w w' a inside)) in
      (
        st,
        asked,
        on_plan,
        priced,
        by_ledger,
        (λ q u e h. by_counter u (known c r w q used u e k h)),
        tenant_le c r w w' st.max_concurrent m n token a.lease got,
        provider_le c r w w' st.max_concurrent n token a.lease got,
      )
