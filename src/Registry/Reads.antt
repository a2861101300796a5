-- ===== src/Registry/Reads.antt =====
-- internal/controlplane/store.go: the reads of the registry, and the expiry job's work queue.
use joysteed_maa_s.Base.{
  ℕ, ℤ, pos, pos_part, leb_ℤ, ltb_ℤ, Bool, true, false, ◌&&◌, ◌||◌, Option, none, some, Str, find,
  select, take, Tx, query, throw, pure, ◌>>=◌, leb, ◌≡◌, arith, if◌then◌else◌,
}
use joysteed_maa_s.Registry.Status.{
  trial, same_status, valid, serves_traffic, Error, not_found, database,
}
use joysteed_maa_s.Registry.Store.{Tenant, Tenants, has_id, can_serve_traffic, trial_expired}

abbrev found : Option Tenant → Tx Error Tenants Tenant
found none = throw not_found
found (some t) = pure t

unfoldable pub get : Str → Tx Error Tenants Tenant
get id = query database (find (has_id id)) >>= found

-- `newest` is ORDER BY created_at DESC.
unfoldable pub list_tenants : (Tenants → Tenants) → ℤ → Tx Error Tenants Tenants
list_tenants newest limit =
    let page = if leb_ℤ limit (pos 0) || ltb_ℤ (pos 1000) limit then 100 else pos_part limit in
    query database (λ ts. take page (newest ts))

-- `trial_ends_at IS NOT NULL AND trial_ends_at <= now`.
abbrev pub is_due : ℕ → Option ℕ → Bool
is_due now none = false
is_due now (some end) = leb end now

-- `by_end` is ORDER BY trial_ends_at ASC.
unfoldable pub list_expired_trials : (Tenants → Tenants) → ℕ → Tx Error Tenants Tenants
list_expired_trials by_end now =
    query database
      (λ ts. by_end (select (λ t. same_status t.status trial && is_due now t.trial_ends_at) ts))

-- The job's query names the tenants whose trial TrialExpired calls expired.
pub is_due-trial_expired :
    (t : Tenant) (now : ℕ)
    → (same_status t.status trial && is_due now t.trial_ends_at) ≡ trial_expired t now
unfolding trial_expired
is_due-trial_expired t now = elim t.trial_ends_at [ none ↦ ground arith | some end ↦ ground arith ]

-- Whom the query names, CanServeTraffic refuses already, before the job has run.
pub trial_expired-unserved :
    (t : Tenant) (now : ℕ) → trial_expired t now ≡ true → can_serve_traffic t now ≡ false
unfolding trial_expired can_serve_traffic valid serves_traffic
trial_expired-unserved t now h = elim t.trial_ends_at [
  | none ↦ ground arith
  | some end ↦ ground arith
]
