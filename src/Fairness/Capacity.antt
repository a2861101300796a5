-- ===== src/Fairness/Capacity.antt =====
-- What the leases of internal/fairness keep: the limits, and no trace of a released lease.
use joysteed_maa_s.Base.{
  is_empty, trim_space, ◌⊎◌, ℕ, ◌+◌, ◌≤◌, ◌<◌, true, false, [], ◌∷◌, ◌++◌, some, none, Str, ◌==◌,
  ==_iff, ne_of_test, ℤ, pos, ok, err, ◌≡◌, ◌≢◌, arith, Bool-cases, inl, inr,
}
use joysteed_maa_s.Fairness.{
  SortedSet, unavailable, Link, answers, lost, down, Lease, Store, Semaphore, at_key, tenant_key,
  provider_key, lease_key, current, full, millis, acquire, acquire_script, release_script, renew,
  renew_script, release, held,
}

cancel : (p a b : Str) → p ++ a ≡ p ++ b → a ≡ b
cancel [] a b h = h
cancel (c ∷ p) a b h = cancel p a b (ground arith)

module _ (z : SortedSet) where
  open z use {
    score, card, add, remove, prune, score-add, score-remove, score-prune, card-add, card-remove,
    card-prune-le,
  }

  -- A tenant's set is never a provider's.
  apart : (s : Semaphore z) (t p : Str) → (tenant_key z s t == provider_key z s p) ≡ false
  apart s t p = elim (Bool-cases (tenant_key z s t == provider_key z s p)) [
    | inl e ↦
        let same = (==_iff (tenant_key z s t) (provider_key z s p)).0 e in
        let rest = cancel s.prefix _ _ same in absurd (ground arith)
    | inr e ↦ e
  ]

  apart-ne : (s : Semaphore z) (t p : Str) → tenant_key z s t ≢ provider_key z s p
  apart-ne s t p = ne_of_test _ _ (apart s t p)

  script_writes :
      (tk pk lk token value : Str) (now ttl server : ℕ) (m n : ℤ) (st st' : Store z)
      → tk ≢ pk
      → acquire_script z tk pk lk now ttl m n token value server st ≡ (ok true, st')
      → (full z m (card (prune now (st.sets tk))) ≡ false)
        × (full z n (card (prune now (st.sets pk))) ≡ false)
        × (st'.sets tk ≡ add (now + ttl) token (prune now (st.sets tk)))
        × (st'.sets pk ≡ add (now + ttl) token (prune now (st.sets pk)))
  unfolding acquire_script
  script_writes tk pk lk token value now ttl server m n st st' away h = (
    ground (arith, ==_iff tk tk, ==_iff pk pk, ==_iff tk pk, ==_iff pk tk),
    ground (arith, ==_iff tk tk, ==_iff pk pk, ==_iff tk pk, ==_iff pk tk),
    ground (arith, ==_iff tk tk, ==_iff pk pk, ==_iff tk pk, ==_iff pk tk),
    ground (arith, ==_iff tk tk, ==_iff pk pk, ==_iff tk pk, ==_iff pk tk),
  )

  acquired :
      (s : Semaphore z) (tenant provider : Str) (m n : ℕ) (ttl : ℤ) (token : Str) (now server : ℕ)
      (st st' : Store z) (lease : Lease)
      → acquire z s tenant provider (pos m) (pos n) ttl (some token) now server answers st
        ≡ (ok lease, st')
      → acquire_script z
          (tenant_key z s tenant)
          (provider_key z s provider)
          (lease_key z s token)
          now
          (millis z ttl)
          (pos m)
          (pos n)
          token
          (tenant ++ (0 ∷ provider))
          server
          st
        ≡ (ok true, st')
  unfolding acquire
  acquired s tenant provider m n ttl token now server st st' lease h = ground arith

  below : (n used size : ℕ) → full z (pos n) used ≡ false → 0 < n → size ≤ used + 1 → size ≤ n
  below n used size h k l = ground arith

  -- A lease is given only below the limits: after it, the tenant and the provider each hold at most
  -- as many leases as their limit allows, where they have one.
  pub acquire-le :
      (s : Semaphore z) (tenant provider : Str) (m n : ℕ) (ttl : ℤ) (token : Str) (now server : ℕ)
      (st st' : Store z) (lease : Lease)
      → acquire z s tenant provider (pos m) (pos n) ttl (some token) now server answers st
        ≡ (ok lease, st')
      → (0 < m → card (st'.sets (tenant_key z s tenant)) ≤ m)
        × (0 < n → card (st'.sets (provider_key z s provider)) ≤ n)
  acquire-le s tenant provider m n ttl token now server st st' lease h =
      let ran = acquired s tenant provider m n ttl token now server st st' lease h in
      let (room, space, mine, theirs) =
        script_writes (tenant_key z s tenant) (provider_key z s provider) (lease_key z s token)
          token (tenant ++ (0 ∷ provider)) now (millis z ttl) server (pos m) (pos n) st st'
          (apart-ne s tenant provider) ran in
      (
        λ k. below m _ _ room k (
            rw mine (
              omega (
                arith,
                card-add (now + millis z ttl) token (prune now (st.sets (tenant_key z s tenant))),
              ))),
        λ k. below n _ _ space k (
            rw theirs (
              omega (
                arith,
                card-add (now + millis z ttl) token
                    (prune now (st.sets (provider_key z s provider))),
              ))),
      )

  swept :
      (tk pk lk token value : Str) (now ttl server : ℕ) (m n : ℤ) (st : Store z)
      → tk ≢ pk
      → (full z m (card (prune now (st.sets tk))) ≡ true)
        ⊎ (full z n (card (prune now (st.sets pk))) ≡ true)
      → acquire_script z tk pk lk now ttl m n token value server st
        ≡ (ok false, at_key z pk (prune now) (at_key z tk (prune now) st))
  unfolding acquire_script
  swept tk pk lk token value now ttl server m n st away (inl h) =
      ground (arith, ==_iff tk tk, ==_iff pk pk, ==_iff tk pk, ==_iff pk tk)
  swept tk pk lk token value now ttl server m n st away (inr h) =
      ground (arith, ==_iff tk tk, ==_iff pk pk, ==_iff tk pk, ==_iff pk tk)

  -- At a limit no lease is given: the call is refused, and of the store only leases that have run
  -- out are gone.
  pub acquire_refused :
      (s : Semaphore z) (tenant provider : Str) (m n ttl : ℕ) (token : Str) (now server : ℕ)
      (st : Store z)
      → is_empty (trim_space tenant) ≡ false
      → is_empty (trim_space provider) ≡ false
      → 0 < ttl
      → (full z (pos m) (card (prune now (st.sets (tenant_key z s tenant)))) ≡ true)
        ⊎ (full z (pos n) (card (prune now (st.sets (provider_key z s provider)))) ≡ true)
      → acquire z s tenant provider (pos m) (pos n) (pos ttl) (some token) now server answers st ≡ (
        err unavailable,
        at_key z
            (provider_key z s provider)
            (prune now)
            (at_key z (tenant_key z s tenant) (prune now) st),
      )
  unfolding acquire
  acquire_refused s tenant provider m n ttl token now server st named served positive h = ground (
    arith,
    swept (tenant_key z s tenant) (provider_key z s provider) (lease_key z s token) token
        (tenant ++ (0 ∷ provider)) now (millis z (pos ttl)) server (pos m) (pos n) st
        (apart-ne s tenant provider) h,
  )

  -- A lease whose key is gone or past its deadline is not renewed, and the store stays as it is.
  pub renew_expired :
      (s : Semaphore z) (lease : Lease) (ttl : ℤ) (now server : ℕ) (link : Link) (st : Store z)
      → current z server (st.leases (lease_key z s lease.token)) ≡ none
      → ((renew z s lease ttl now server link st).1 ≡ st)
        × ((renew z s lease ttl now server link st).0 ≢ ok tt)
  unfolding renew renew_script
  renew_expired s lease ttl now server answers st h = (ground arith, ground arith)
  renew_expired s lease ttl now server lost st h = (ground arith, ground arith)
  renew_expired s lease ttl now server down st h = (ground arith, ground arith)

  -- After a release the lease counts nowhere: its token is in neither set, its key is gone, and the
  -- two sets have lost what they held of it.
  pub release_frees :
      (s : Semaphore z) (lease : Lease) (st : Store z)
      → is_empty lease.token ≡ false
      → is_empty lease.tenant_id ≡ false
      → is_empty lease.provider ≡ false
      → let tk = tenant_key z s lease.tenant_id in
        let pk = provider_key z s lease.provider in
        let st' = (release z s lease answers st).1 in
        ((release z s lease answers st).0 ≡ ok tt)
        × (score (st'.sets tk) lease.token ≡ none)
        × (score (st'.sets pk) lease.token ≡ none)
        × (st'.leases (lease_key z s lease.token) ≡ none)
        × (card (st'.sets tk) + held (score (st.sets tk) lease.token) ≡ card (st.sets tk))
        × (card (st'.sets pk) + held (score (st.sets pk) lease.token) ≡ card (st.sets pk))
  unfolding release release_script
  release_frees s lease st a b c =
      let tk = tenant_key z s lease.tenant_id in
      let pk = provider_key z s lease.provider in
      let away = apart-ne s lease.tenant_id lease.provider in
      (
        ground arith,
        ground (
          arith,
          ==_iff tk tk,
          ==_iff pk tk,
          ==_iff lease.token lease.token,
          score-remove lease.token lease.token (st.sets tk),
        ),
        ground (
          arith,
          ==_iff pk pk,
          ==_iff tk pk,
          ==_iff lease.token lease.token,
          score-remove lease.token lease.token (st.sets pk),
        ),
        ground (arith, ==_iff (lease_key z s lease.token) (lease_key z s lease.token)),
        ground (arith, ==_iff tk tk, ==_iff pk tk, card-remove lease.token (st.sets tk)),
        ground (arith, ==_iff pk pk, ==_iff tk pk, card-remove lease.token (st.sets pk)),
      )
