-- ===== src/Tenantusage/Charges.antt =====
-- plugins/tenantusage: what a settled request leaves in the ledger and in the counter.
use joysteed_maa_s.Base.{
  ℕ, true, false, List, [], ◌∷◌, some, Str, ◌==◌, ==_iff, any, any-of_find, ℤ, pos, ◌+ℤ◌, leb_ℤ, ok,
  Faults, ◌≡◌, refl, arith, ◌∙◌, sym, ap,
}
use joysteed_maa_s.Billing.Usage.{
  UsageEvent, UsageInput, rejected_input, keyed, record_usage, usage_row, billed_amount,
}
use joysteed_maa_s.Quota
use joysteed_maa_s.Quota.Once.{charge_once-adds}
use joysteed_maa_s.Fairness.{SortedSet}
use joysteed_maa_s.Tenantusage.{Admission, Config, World}
use joysteed_maa_s.Tenantusage.Response.{LlmUsage}
use joysteed_maa_s.Tenantusage.Settle.{
  Costs, Reply, post_llm_hook, charge_usage, free_lease, provider_micros, input_of, idempotency,
  markup, claim_ttl,
}
use joysteed_maa_s.Tenantusage.Once.{is_chunk}

recorded :
    (x : UsageInput) (at : ℕ) (rows : List UsageEvent)
    → rejected_input x ≡ false
    → any (keyed x.idempotency_key) rows ≡ false
    → any (λ e. e.id == (usage_row x at).id) rows ≡ false
    → (record_usage x at rows []).1 ≡ usage_row x at ∷ rows
unfolding record_usage
recorded x at rows fine fresh new_id =
    ground (
      arith,
      any-of_find (keyed x.idempotency_key) rows,
      ==_iff x.idempotency_key x.idempotency_key,
    )

ledger :
    (x : UsageInput) (at : ℕ) (rows same : List UsageEvent) (fs : Faults)
    → same ≡ rows
    → fs ≡ []
    → rejected_input x ≡ false
    → any (keyed x.idempotency_key) rows ≡ false
    → any (λ e. e.id == (usage_row x at).id) rows ≡ false
    → (record_usage x at same fs).1 ≡ usage_row x at ∷ rows
ledger x at rows same fs e quiet fine fresh new_id =
    rw (e, quiet) (recorded x at rows fine fresh new_id)

counted :
    (lua : ℤ → ℤ) (c : Quota.Counter) (id budget request : Str) (amount ttl : ℤ) (server : ℕ)
    (link : Quota.Link) (st same st' : Quota.Store) (total used : ℤ)
    → same ≡ st
    → link ≡ Quota.answers
    → Quota.charge_once lua c id budget request amount ttl server link st ≡ (ok (total, true), st')
    → Quota.usage c id budget server Quota.answers st ≡ ok used
    → Quota.usage c id budget server Quota.answers
        (Quota.charge_once lua c id budget request amount ttl server link same).1
      ≡ ok (Quota.plus used amount)
counted lua c id budget request amount ttl server link st same st' total used e answers once
      before =
    rw (e, once)
      (charge_once-adds lua c id budget request amount ttl server st st' total used
        (rw⁻¹ answers once) before)

module _ (z : SortedSet) (k : Costs) where
  settled_world :
      (c : Config z) (r : Reply k) (a : Admission) (w : World z) (u : LlmUsage k.Cost)
      → is_chunk z k r ≡ false
      → a.settled ≡ false
      → r.usage ≡ some u
      → (post_llm_hook z k c r a w).1
        ≡ charge_usage z k c r a (k.normalize u) (free_lease z k c r a w)
  unfolding post_llm_hook
  settled_world c r a w u h n e = ground arith

  free_lease-others :
      (c : Config z) (r : Reply k) (a : Admission) (w : World z)
      → ((free_lease z k c r a w).counters ≡ w.counters)
        × ((free_lease z k c r a w).books.events ≡ w.books.events)
  unfolding free_lease
  free_lease-others c r a w = (refl, refl)

  row_amount :
      (c : Config z) (r : Reply k) (a : Admission) (v : LlmUsage k.Cost) (cost : ℤ)
      → (usage_row (input_of z k c r a v cost) r.at).amount_micros ≡ cost +ℤ markup z k c cost
  unfolding input_of usage_row billed_amount
  row_amount c r a v cost = refl

  row_tenant :
      (c : Config z) (r : Reply k) (a : Admission) (v : LlmUsage k.Cost) (cost : ℤ)
      → (usage_row (input_of z k c r a v cost) r.at).tenant_id ≡ a.tenant_id
  unfolding input_of usage_row
  row_tenant c r a v cost = refl

  charged :
      (c : Config z) (r : Reply k) (a : Admission) (w : World z) (u : LlmUsage k.Cost)
      (q : Quota.Counter)
      → let cost = provider_micros z k r a w u in
        let amount = cost +ℤ markup z k c cost in
        leb_ℤ cost (pos 0) ≡ false
        → leb_ℤ amount (pos 0) ≡ false
        → c.counter ≡ some q
        → ((charge_usage z k c r a u w).counters
            ≡ (Quota.charge_once c.lua q a.tenant_id a.budget
                (idempotency z k c a)
                amount
                (pos (claim_ttl r.at a.window_end))
                r.server
                r.counter_link
                w.counters).1)
          × ((charge_usage z k c r a u w).books.events
              ≡ (record_usage (input_of z k c r a u cost) r.at w.books.events r.record_faults).1)
  unfolding charge_usage
  charged c r a w u q costs owes e = (ground arith, ground arith)

  -- Where a request that is not settled has a cost and a charge above zero, no statement of the ledger
  -- fails and it takes the usage, whose key and id are new there, and the counter is configured, answers
  -- and takes the charge: the ledger gets one row under the request's key, of the provider's cost and the
  -- markup, and the counter holds as much more as that row's amount.
  pub post_llm_hook-charges :
      (c : Config z) (r : Reply k) (a : Admission) (w : World z) (u : LlmUsage k.Cost)
      (q : Quota.Counter) (counters : Quota.Store) (total used : ℤ)
      → let v = k.normalize u in
        let freed = free_lease z k c r a w in
        let cost = provider_micros z k r a freed v in
        let x = input_of z k c r a v cost in
        let amount = cost +ℤ markup z k c cost in
        let after = (post_llm_hook z k c r a w).1 in
        is_chunk z k r ≡ false
        → a.settled ≡ false
        → r.usage ≡ some u
        → leb_ℤ cost (pos 0) ≡ false
        → leb_ℤ amount (pos 0) ≡ false
        → rejected_input x ≡ false
        → any (keyed x.idempotency_key) w.books.events ≡ false
        → any (λ e. e.id == (usage_row x r.at).id) w.books.events ≡ false
        → r.record_faults ≡ []
        → c.counter ≡ some q
        → r.counter_link ≡ Quota.answers
        → Quota.charge_once c.lua q a.tenant_id a.budget
            (idempotency z k c a)
            amount
            (pos (claim_ttl r.at a.window_end))
            r.server
            r.counter_link
            w.counters
          ≡ (ok (total, true), counters)
        → Quota.usage q a.tenant_id a.budget r.server Quota.answers w.counters ≡ ok used
        → (after.books.events ≡ usage_row x r.at ∷ w.books.events)
          × ((usage_row x r.at).amount_micros ≡ amount)
          × ((usage_row x r.at).tenant_id ≡ a.tenant_id)
          × (Quota.usage q a.tenant_id a.budget r.server Quota.answers after.counters
              ≡ ok (Quota.plus used (usage_row x r.at).amount_micros))
  post_llm_hook-charges c r a w u q counters total used h n e costs owes fine fresh new_id quiet
        counter link once before =
      let world = settled_world c r a w u h n e in
      let (at_counter, at_ledger) =
        charged c r a (free_lease z k c r a w) (k.normalize u) q costs owes counter in
      let (same_counters, same_events) = free_lease-others c r a w in
      let v = k.normalize u in
      (
        ap (λ after. after.books.events) world
            ∙ at_ledger
            ∙ ledger _ r.at w.books.events _ r.record_faults same_events quiet fine fresh new_id,
        row_amount c r a v _,
        row_tenant c r a v _,
        ap (λ after. Quota.usage q a.tenant_id a.budget r.server Quota.answers after.counters) world
            ∙ ap (Quota.usage q a.tenant_id a.budget r.server Quota.answers) at_counter
            ∙ counted c.lua q a.tenant_id a.budget _ _ _ r.server r.counter_link w.counters _
                counters total used same_counters link once before
            ∙ ap (λ n. ok (Quota.plus used n)) (sym (row_amount c r a v _)),
      )
