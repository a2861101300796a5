-- ===== src/Tenantusage/Examples.antt =====
-- plugins/tenantusage for one request: admitted, streamed, settled.
use native.Mathlib.Decide.{ℕ_discrete}
use joysteed_maa_s.Base.{
  ℕ, ◌<◌, ◌≤◌, true, false, List, [], ◌∷◌, some, none, text, trim_space, has_prefix, ◌≢◌, ◌⊎◌, ◌<ℤ◌,
  ℤ, pos, ◌+ℤ◌, ◌*ℤ◌, ◌-ℤ◌, div_ℤ, wrap, ok, ◌≡◌, refl, str_discrete,
}
use joysteed_maa_s.Billing.Sku.{sku_candidates}
use joysteed_maa_s.Billing.Invoice.{sum_column}
use joysteed_maa_s.Billing.Plan.{reject}
use joysteed_maa_s.Billing.Usage.{
  UsageEvent, rejected_input, bad_header, bad_charge, bad_measure, usage_row, valid_usage_status,
}
use joysteed_maa_s.Billing.Allowance.{AllowanceStatus, Books, check_allowance}
use joysteed_maa_s.Quota
use joysteed_maa_s.Fairness
use joysteed_maa_s.Fairness.{Lease, acquire, release, acquire_script, tenant_key, provider_key}
use joysteed_maa_s.Fairness.Scores.{scores, distinct_keys}
use joysteed_maa_s.Tenantusage.{
  Admission, Config, World, Request, admitted, pre_llm_hook, admit, enter, spend, canonical_sku,
}
use joysteed_maa_s.Tenantusage.Response.{LlmUsage}
use joysteed_maa_s.Tenantusage.Settle.{
  Costs, Reply, post_llm_hook, free_lease, provider_micros, cost_micros, input_of, claim_ttl,
}
use joysteed_maa_s.Tenantusage.Admits.{pre_llm_hook-admits}
use joysteed_maa_s.Tenantusage.Once.{posts, charged_for, returned, posts_once}
use joysteed_maa_s.Tenantusage.Charges.{post_llm_hook-charges}

abbrev books : Books
books = record {
  catalog = record {
    plans =
        record {
          id = text "s";
          name = text "S";
          currency = text "USD";
          monthly_micros = pos 9;
          included_credit_micros = pos 100;
          max_concurrent = pos 2;
          overage_policy = reject;
          created_at = 1;
        }
        ∷ [];
    plan_models = record { plan_id = text "s"; model_id = text "m" } ∷ [];
    assignments =
        record { tenant_id = text "t"; plan_id = text "s"; starts_at = 3; ends_at = none } ∷ [];
    skus =
        record {
          id = text "m";
          name = text "M";
          prompt_micros_per_1m = pos 15;
          completion_micros_per_1m = pos 60;
          legacy_prompt_per_1k = pos 0;
          legacy_completion_per_1k = pos 0;
          created_at = 1;
        }
        ∷ [];
  };
  events = [];
}

abbrev counter : Quota.Counter
counter = record { prefix = text "q:"; digest = λ s. s }

abbrev config : Config scores
config = record {
  semaphore = record { prefix = text "f:"; key_part = λ s. s };
  counter = some counter;
  lease_ttl = pos 2000000;
  provider_max_concurrent = pos 5;
  markup_basis_points = pos 1000;
  month = λ n. (4, 9);
  budget_of = λ n. text "b";
  itoa = λ n. text "1";
  lua = λ n. n;
}

abbrev fresh : World scores
fresh = record {
  books = books;
  counters = λ k. none;
  leases = record { sets = λ k. []; leases = λ k. none };
}

abbrev request : Request
request = record {
  tenant_id = text "t";
  provider = text "p";
  model = text "m";
  request_id = text "r";
  attempt = pos 1;
  now = 5;
  now_ms = 10;
  server = 11;
  token = some (text "a");
  counter_link = Quota.answers;
  semaphore_link = Fairness.answers;
}

abbrev admission : Admission
admission = record {
  settled = false;
  tenant_id = text "t";
  provider = text "p";
  model = text "p/m";
  request_id = text "r";
  attempt = pos 1;
  budget = text "b";
  window_end = 9;
  started_at = 5;
  lease = record { token = text "a"; tenant_id = text "t"; provider = text "p"; expires_at = 12 };
}

abbrev busy : World scores
busy = (pre_llm_hook scores config request fresh []).1

taken : pre_llm_hook scores config request fresh [] ≡ (admitted admission, busy)
unfolding pre_llm_hook admit enter spend canonical_sku check_allowance trim_space str_discrete
    ℕ_discrete sku_candidates ◌-ℤ◌ sum_column wrap Quota.usage Quota.key acquire acquire_script
    has_prefix
taken = refl

abbrev costs : Costs
costs = record { Cost = ℕ; is_positive = λ n. true; rounded = pos; normalize = λ u. u }

abbrev used : LlmUsage ℕ
used = record {
  prompt_tokens = pos 3;
  completion_tokens = pos 4;
  total_tokens = pos 7;
  cost = some 50;
}

abbrev chunk : Reply costs
chunk = record {
  streaming = true;
  final = false;
  failure = false;
  usage = none;
  fallback_request_id = [];
  at = 6;
  server = 12;
  price_faults = [];
  record_faults = [];
  counter_link = Quota.answers;
  semaphore_link = Fairness.answers;
}

abbrev last : Reply costs
last = record chunk { final = true; usage = some used }

abbrev calls : List (Reply costs)
calls = chunk ∷ last ∷ chunk ∷ last ∷ []

posts_once_example :
    ((posts scores costs config calls admission busy).0 ≡ record admission { settled = true })
    × ((posts scores costs config calls admission busy).1
        ≡ charged_for scores costs config last admission
            (some used)
            (returned scores costs config last admission busy))
    × ((posts scores costs config calls admission busy).1.leases
        ≡ (release scores config.semaphore admission.lease Fairness.answers busy.leases).1)
posts_once_example =
    posts_once scores costs config (chunk ∷ []) last (chunk ∷ last ∷ []) admission busy (refl, tt)
      refl refl

pre_llm_hook-admits_example :
    (st : AllowanceStatus) × (check_allowance
        (text "t")
        (canonical_sku (text "p") (text "m"))
        5
        4
        9
        (pos 0)
        books
        []
      ≡ ok (st, books, []))
    × (st.model_allowed ≡ true)
    × (st.pricing_configured ≡ true)
    × ((st.overage_policy ≢ reject) ⊎ (st.used_credit_micros <ℤ st.included_credit_micros))
    × ((q : Quota.Counter) (n : ℤ)
        → config.counter ≡ some q
        → Quota.usage q (text "t") (text "b") 11 Quota.answers fresh.counters ≡ ok n
        → (st.overage_policy ≢ reject) ⊎ (n <ℤ st.included_credit_micros))
    × (st.max_concurrent ≡ pos 2
        → 0 < 2
        → distinct_keys (busy.leases.sets (tenant_key scores config.semaphore (text "t"))) ≤ 2)
    × (0 < 5
        → distinct_keys (busy.leases.sets (provider_key scores config.semaphore (text "p"))) ≤ 5)
pre_llm_hook-admits_example =
    pre_llm_hook-admits scores config request fresh busy admission 2 5 (text "a") taken refl refl
      refl

abbrev after : World scores
after = (post_llm_hook scores costs config last admission fresh).1

abbrev claimed : Quota.Store
claimed =
    (Quota.charge_once config.lua counter (text "t") (text "b") (text "r:attempt:1") (pos 55)
      (pos (claim_ttl 6 9)) 12 Quota.answers fresh.counters).1

abbrev row : UsageEvent
row = usage_row (input_of scores costs config last admission used (pos 50)) 6

post_llm_hook-charges_example :
    (after.books.events ≡ row ∷ [])
    × (row.amount_micros ≡ pos 55)
    × (row.tenant_id ≡ text "t")
    × (Quota.usage counter (text "t") (text "b") 12 Quota.answers after.counters
        ≡ ok (Quota.plus (pos 0) row.amount_micros))
unfolding provider_micros free_lease cost_micros ◌+ℤ◌ ◌*ℤ◌ div_ℤ wrap rejected_input bad_header
    bad_charge bad_measure input_of trim_space str_discrete ℕ_discrete valid_usage_status
    Quota.charge_once Quota.charge_once_script Quota.key Quota.usage Quota.ttl_millis claim_ttl
post_llm_hook-charges_example =
    post_llm_hook-charges scores costs config last admission fresh used counter claimed (pos 55)
      (pos 0) refl refl refl refl refl refl refl refl refl refl refl refl refl
