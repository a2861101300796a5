-- ===== src/Fairness.antt =====
-- internal/fairness/semaphore.go: the leases of tenants and providers, kept in Redis by three Lua
-- scripts that each run as one step. `now` is the caller's clock and `server` that of Redis, which
-- counts the keys' own lifetimes; both count milliseconds.
pub mod Capacity
pub mod Scores
mod Examples
use joysteed_maa_s.Base.{
  ℕ, ◌+◌, ◌/◌, ◌≤◌, Bool, true, false, not, ◌&&◌, ◌||◌, List, [], ◌∷◌, ◌++◌, Option, some, none,
  Str, text, ◌==◌, trim_space, is_empty, leb, ltb, eqb, ℤ, pos, negsuc, ltb_ℤ, leb_ℤ, Result, ok,
  err, if◌then◌else◌, ◌≡◌,
}

abbrev pub held : Option ℕ → ℕ
held none = 0
held (some _) = 1

abbrev pub alive_at : ℕ → Option ℕ → Option ℕ
alive_at now none = none
alive_at now (some score) = if leb score now then none else some score

-- What the scripts rely on of a sorted set: ZSCORE, ZCARD, ZADD, ZREM and
-- ZREMRANGEBYSCORE from -inf to a score.
pub record SortedSet : Type 1 where
  pub Set : Type 0
  pub score : Set → Str → Option ℕ
  pub card : Set → ℕ
  pub add : ℕ → Str → Set → Set
  pub remove : Str → Set → Set
  pub prune : ℕ → Set → Set
  pub score-add :
      (n : ℕ) (m k : Str) (s : Set) → score (add n m s) k ≡ (if m == k then some n else score s k)
  pub score-remove :
      (m k : Str) (s : Set) → score (remove m s) k ≡ (if m == k then none else score s k)
  pub score-prune : (now : ℕ) (k : Str) (s : Set) → score (prune now s) k ≡ alive_at now (score s k)
  pub card-add : (n : ℕ) (m : Str) (s : Set) → card (add n m s) + held (score s m) ≡ card s + 1
  pub card-remove : (m : Str) (s : Set) → card (remove m s) + held (score s m) ≡ card s
  pub card-prune-le : (now : ℕ) (s : Set) → card (prune now s) ≤ card s

pub data Error : Type 0 where
  invalid_request unavailable lease_expired no_entropy redis_failed : Error

-- Whether a script runs, and whether its reply reaches the caller.
pub data Link : Type 0 where
  answers lost down : Link

pub record Lease : Type 0 where
  pub token : Str
  pub tenant_id : Str
  pub provider : Str
  pub expires_at : ℕ

pub record LeaseValue : Type 0 where
  pub value : Str
  pub deadline : ℕ

module _ (z : SortedSet) where
  open z use {Set, score, card, add, remove, prune}

  pub record Store : Type 0 where
    pub sets : Str → Set
    pub leases : Str → Option LeaseValue

  abbrev pub put {ℓ} : {A : Type ℓ} → Str → A → (Str → A) → Str → A
  put k v f j = if k == j then v else f j

  -- `prefix` is the constructor's, with its colon, and `key_part` the digest of a name in hex.
  pub record Semaphore : Type 0 where
    pub prefix : Str
    pub key_part : Str → Str

  abbrev pub tenant_key : Semaphore → Str → Str
  tenant_key s id = s.prefix ++ (text "{maas-semaphore}:tenant:" ++ s.key_part id)

  abbrev pub provider_key : Semaphore → Str → Str
  provider_key s p = s.prefix ++ (text "{maas-semaphore}:provider:" ++ s.key_part p)

  abbrev pub lease_key : Semaphore → Str → Str
  lease_key s t = s.prefix ++ (text "{maas-semaphore}:lease:" ++ s.key_part t)

  -- One command on the set at a key.
  abbrev pub at_key : Str → (Set → Set) → Store → Store
  at_key k f st = record st { sets = put k (f (st.sets k)) st.sets }

  abbrev pub set_lease : Str → Option LeaseValue → Store → Store
  set_lease k v st = record st { leases = put k v st.leases }

  abbrev pub full : ℤ → ℕ → Bool
  full (pos n) used = ltb 0 n && leb n used
  full (negsuc _) used = false

  -- `SET ... PX 0` is an error, which stops the script after its two writes.
  unfoldable pub acquire_script :
      Str → Str → Str → ℕ → ℕ → ℤ → ℤ → Str → Str → ℕ → Store → Result Error Bool × Store
  acquire_script tk pk lk now ttl tenant_limit provider_limit token value server st =
      let swept = at_key pk (prune now) (at_key tk (prune now) st) in
      let added = at_key pk (add (now + ttl) token) (at_key tk (add (now + ttl) token) swept) in
      if full tenant_limit (card (swept.sets tk)) || full provider_limit (card (swept.sets pk))
      then (ok false, swept)
      else (if eqb ttl 0 then (err redis_failed, added) else (
        ok true,
        set_lease lk (some (record { value = value; deadline = server + ttl })) added,
      ))

  -- A key past its deadline does not exist.
  abbrev pub current : ℕ → Option LeaseValue → Option LeaseValue
  current server none = none
  current server (some v) = if leb v.deadline server then none else some v

  -- `PEXPIRE` with 0 deletes the key.
  abbrev extended : ℕ → ℕ → LeaseValue → Option LeaseValue
  extended ttl server v = if eqb ttl 0 then none else some (record v { deadline = server + ttl })

  unfoldable pub renew_script :
      Str → Str → Str → ℕ → ℕ → Str → ℕ → Store → Result Error Bool × Store
  renew_script tk pk lk now ttl token server st =
      let added = at_key pk (add (now + ttl) token) (at_key tk (add (now + ttl) token) st) in
      elim (current server (st.leases lk)) [
        | none ↦ (ok false, st)
        | some v ↦ (ok true, set_lease lk (extended ttl server v) added)
      ]

  unfoldable pub release_script : Str → Str → Str → Str → Store → Result Error Bool × Store
  release_script tk pk lk token st =
      (ok true, set_lease lk none (at_key pk (remove token) (at_key tk (remove token) st)))

  abbrev over : Link → (Store → Result Error Bool × Store) → Store → Result Error Bool × Store
  over answers script st = script st
  over lost script st = (err redis_failed, (script st).1)
  over down script st = (err redis_failed, st)

  abbrev answer {ℓ} : {A : Type ℓ} → Error → A → Result Error Bool → Result Error A
  answer e a (ok true) = ok a
  answer e a (ok false) = err e
  answer e a (err f) = err f

  -- A `time.Duration` counts nanoseconds.
  abbrev pub millis : ℤ → ℕ
  millis (pos n) = n / 1000000
  millis (negsuc _) = 0

  abbrev reply {ℓ} : {A : Type ℓ} → Error → A → Result Error Bool × Store → Result Error A × Store
  reply e a r = (answer e a r.0, r.1)

  -- `token` is what the source of randomness gives, if it answers.
  unfoldable pub acquire :
      Semaphore
      → Str
      → Str
      → ℤ
      → ℤ
      → ℤ
      → Option Str
      → ℕ
      → ℕ
      → Link
      → Store
      → Result Error Lease × Store
  acquire s tenant provider tenant_limit provider_limit ttl none now server link st =
      if is_empty (trim_space tenant)
        || (is_empty (trim_space provider)
            || (ltb_ℤ tenant_limit (pos 0) || (ltb_ℤ provider_limit (pos 0) || leb_ℤ ttl (pos 0))))
      then (err invalid_request, st)
      else (err no_entropy, st)
  acquire s tenant provider tenant_limit provider_limit ttl (some token) now server link st =
      if is_empty (trim_space tenant)
        || (is_empty (trim_space provider)
            || (ltb_ℤ tenant_limit (pos 0) || (ltb_ℤ provider_limit (pos 0) || leb_ℤ ttl (pos 0))))
      then (err invalid_request, st)
      else reply unavailable
          (record {
            token = token;
            tenant_id = tenant;
            provider = provider;
            expires_at = now + millis ttl;
          })
          (over link
            (acquire_script (tenant_key s tenant) (provider_key s provider) (lease_key s token) now
              (millis ttl) tenant_limit provider_limit token (tenant ++ (0 ∷ provider)) server)
            st)

  unfoldable pub renew :
      Semaphore → Lease → ℤ → ℕ → ℕ → Link → Store → Result Error (Unit {0}) × Store
  renew s lease ttl now server link st =
      if is_empty lease.token
        || (is_empty lease.tenant_id || (is_empty lease.provider || leb_ℤ ttl (pos 0)))
      then (err invalid_request, st)
      else reply lease_expired tt (
          over link
            (renew_script (tenant_key s lease.tenant_id) (provider_key s lease.provider)
              (lease_key s lease.token) now (millis ttl) lease.token server)
            st)

  -- The count of deleted keys that the script returns is not looked at.
  unfoldable pub release : Semaphore → Lease → Link → Store → Result Error (Unit {0}) × Store
  release s lease link st =
      if is_empty lease.token || (is_empty lease.tenant_id || is_empty lease.provider)
      then (err invalid_request, st)
      else reply redis_failed tt (
          over link
            (release_script (tenant_key s lease.tenant_id) (provider_key s lease.provider)
              (lease_key s lease.token) lease.token)
            st)

unfoldable pub validate_limits : ℤ → ℤ → Result Error (Unit {0})
validate_limits tenant_limit provider_limit =
    if ltb_ℤ tenant_limit (pos 0) || ltb_ℤ provider_limit (pos 0)
    then err invalid_request
    else ok tt
