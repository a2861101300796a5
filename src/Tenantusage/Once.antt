-- ===== src/Tenantusage/Once.antt =====
-- plugins/tenantusage: a request is settled once, however often its end is announced.
use joysteed_maa_s.Base.{
  Bool, true, false, not, ◌&&◌, List, [], ◌∷◌, ◌++◌, All, Option, none, some, ◌≡◌, refl, ap, ◌∙◌,
  arith,
}
use joysteed_maa_s.Fairness.{SortedSet, release}
use joysteed_maa_s.Tenantusage.{Admission, Config, World}
use joysteed_maa_s.Tenantusage.Response.{LlmUsage}
use joysteed_maa_s.Tenantusage.Settle.{Costs, Reply, post_llm_hook, charge_usage, free_lease}

module _ (z : SortedSet) (k : Costs) where
  -- A chunk of a stream that is not the last one and reports no error.
  abbrev pub is_chunk : Reply k → Bool
  is_chunk r = r.streaming && (not r.failure && not r.final)

  -- The hook's calls for one request, one after the other, as its lock orders them.
  pub posts : Config z → List (Reply k) → Admission → World z → Admission × World z
  posts c [] a w = (a, w)
  posts c (r ∷ rs) a w = let done = post_llm_hook z k c r a w in posts c rs done.0 done.1

  chunk_keeps :
      (c : Config z) (r : Reply k) (a : Admission) (w : World z)
      → is_chunk r ≡ true
      → post_llm_hook z k c r a w ≡ (a, w)
  unfolding post_llm_hook
  chunk_keeps c r a w h = ground arith

  settled_keeps :
      (c : Config z) (r : Reply k) (a : Admission) (w : World z)
      → a.settled ≡ true
      → post_llm_hook z k c r a w ≡ (a, w)
  unfolding post_llm_hook
  settled_keeps c r a w h = ground arith

  settles :
      (c : Config z) (r : Reply k) (a : Admission) (w : World z)
      → is_chunk r ≡ false
      → (post_llm_hook z k c r a w).0.settled ≡ true
  unfolding post_llm_hook
  settles c r a w h = ground arith

  posts_settled :
      (c : Config z) (rs : List (Reply k)) (a : Admission) (w : World z)
      → a.settled ≡ true
      → posts c rs a w ≡ (a, w)
  unfolding posts
  posts_settled c [] a w h = refl
  posts_settled c (r ∷ rs) a w h = rw (settled_keeps c r a w h) (posts_settled c rs a w h)

  -- The world with the request's lease given back, and then with its usage charged, if there is any.
  abbrev pub returned : Config z → Reply k → Admission → World z → World z
  returned c r a w = record w {
    leases = (release z c.semaphore a.lease r.semaphore_link w.leases).1;
  }

  abbrev pub charged_for :
      Config z → Reply k → Admission → Option (LlmUsage k.Cost) → World z → World z
  charged_for c r a none w = w
  charged_for c r a (some u) w = charge_usage z k c r a (k.normalize u) w

  settles_world :
      (c : Config z) (r : Reply k) (a : Admission) (w : World z) (o : Option (LlmUsage k.Cost))
      → r.usage ≡ o
      → is_chunk r ≡ false
      → a.settled ≡ false
      → (post_llm_hook z k c r a w).1 ≡ charged_for c r a o (returned c r a w)
  unfolding post_llm_hook free_lease
  settles_world c r a w none e h n = ground arith
  settles_world c r a w (some u) e h n = ground arith

  charged_for-leases :
      (c : Config z) (r : Reply k) (a : Admission) (o : Option (LlmUsage k.Cost)) (w : World z)
      → (charged_for c r a o w).leases ≡ w.leases
  unfolding charge_usage
  charged_for-leases c r a none w = refl
  charged_for-leases c r a (some u) w = ground arith

  settles_admission :
      (c : Config z) (r : Reply k) (a : Admission) (w : World z)
      → is_chunk r ≡ false
      → a.settled ≡ false
      → (post_llm_hook z k c r a w).0 ≡ record a { settled = true }
  unfolding post_llm_hook
  settles_admission c r a w h n = ground arith

  -- For a request that is not settled yet, the first call that is not a chunk of a stream gives its
  -- lease back and charges the usage that it reports, if it reports any; that is all that the calls do
  -- together: the chunks before it and every call after it, final chunks and errors included, change
  -- nothing.
  pub posts_once :
      (c : Config z) (chunks : List (Reply k)) (r : Reply k) (rest : List (Reply k)) (a : Admission)
      (w : World z)
      → All (λ q. is_chunk q ≡ true) chunks
      → is_chunk r ≡ false
      → a.settled ≡ false
      → ((posts c (chunks ++ r ∷ rest) a w).0 ≡ record a { settled = true })
        × ((posts c (chunks ++ r ∷ rest) a w).1 ≡ charged_for c r a r.usage (returned c r a w))
        × ((posts c (chunks ++ r ∷ rest) a w).1.leases
            ≡ (release z c.semaphore a.lease r.semaphore_link w.leases).1)
  unfolding posts
  posts_once c [] r rest a w none_left h n =
      let out = post_llm_hook z k c r a w in
      let done = posts_settled c rest out.0 out.1 (settles c r a w h) in
      let charged = settles_world c r a w r.usage refl h n in
      rw done (
        settles_admission c r a w h n,
        charged,
        ap (λ v. v.leases) charged ∙ charged_for-leases c r a r.usage (returned c r a w),
      )
  posts_once c (q ∷ qs) r rest a w (chunk, chunks) h n =
      rw (posts, chunk_keeps c q a w chunk) (posts_once c qs r rest a w chunks h n)
