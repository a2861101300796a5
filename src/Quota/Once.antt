-- ===== src/Quota/Once.antt =====
-- A request is charged once by internal/quota, and a window is not extended by later charges.
use joysteed_maa_s.Base.{
  ℕ, ◌+◌, ◌<◌, true, false, [], ◌∷◌, ◌++◌, Option, some, none, Str, ◌==◌, ==_iff, trim_space,
  is_empty, ℤ, pos, ok, ◌≡◌, ◌≢◌, ◌⊎◌, inl, inr, arith, Bool-cases, Option-cases, eqb, ◌∙◌,
  if◌then◌else◌,
}
use joysteed_maa_s.Quota.{
  answers, Entry, Store, Counter, current, value_of, exists, plus, bump, key, idempotency_key,
  ttl_millis, charge_once_script, charge_once, usage,
}

longer : (s : Str) (c : ℕ) (t : Str) → s ++ (c ∷ t) ≢ s
longer [] c t h = ground arith
longer (d ∷ s) c t h = longer s c t (ground arith)

-- A claim's key is never its counter's.
apart : (c : Counter) (ck request : Str) → (idempotency_key c ck request == ck) ≡ false
apart c ck request = elim (Bool-cases (idempotency_key c ck request == ck)) [
  | inl e ↦ absurd (longer ck _ _ ((==_iff (idempotency_key c ck request) ck).0 e))
  | inr e ↦ e
]

bump-current :
    (ck : Str) (amount : ℤ) (ttl server : ℕ) (st : Store)
    → value_of (current server (bump ck amount ttl server st ck))
      ≡ plus (value_of (current server (st ck))) amount
unfolding bump
bump-current ck amount ttl server st = elim (Option-cases (current server (st ck))) [
  | inl e ↦ ground (arith, ==_iff ck ck)
  | inr (old, e) ↦ elim (Option-cases (st ck)) [
    | inl f ↦ absurd (ground arith)
    | inr (entry, f) ↦ ground (arith, ==_iff ck ck)
  ]
]

-- What a charge that was applied leaves: the sum, and a claim until its deadline.
abbrev Applied : (ℤ → ℤ) → Counter → Str → Str → ℤ → ℕ → ℕ → Store → Store → ℤ → Type 0
Applied lua c ck request amount ttl server st st' total =
    (total ≡ lua (plus (value_of (current server (st ck))) amount))
    × (st' ck ≡ bump ck amount ttl server st ck)
    × (st' (idempotency_key c ck request)
        ≡ some
            (record { value = pos 1; deadline = if eqb ttl 0 then none else some (server + ttl) }))

applied :
    (lua : ℤ → ℤ) (c : Counter) (ck request : Str) (amount : ℤ) (ttl server : ℕ) (st st' : Store)
    (total : ℤ)
    → charge_once_script lua ck (idempotency_key c ck request) amount ttl server st
      ≡ (ok (total, true), st')
    → Applied lua c ck request amount ttl server st st' total
unfolding charge_once_script
applied lua c ck request amount ttl server st st' total h =
    let claim = idempotency_key c ck request in
    (ground arith, ground (arith, apart c ck request), ground (arith, ==_iff claim claim))

again :
    (lua : ℤ → ℤ) (ck claim : Str) (amount : ℤ) (ttl later : ℕ) (st : Store)
    → exists (current later (st claim)) ≡ true
    → charge_once_script lua ck claim amount ttl later st
      ≡ (ok (value_of (current later (st ck)), false), st)
unfolding charge_once_script
again lua ck claim amount ttl later st h = ground arith

lives :
    (ttl server later : ℕ) (e : Option Entry)
    → e
      ≡ some (record { value = pos 1; deadline = if eqb ttl 0 then none else some (server + ttl) })
    → (ttl ≡ 0) ⊎ (later < server + ttl)
    → exists (current later e) ≡ true
lives ttl server later e same (inl never) = ground arith
lives ttl server later e same (inr early) = ground arith

charged :
    (lua : ℤ → ℤ) (c : Counter) (id budget request ck : Str) (amount ttl : ℤ) (server : ℕ)
    (st st' : Store) (total : ℤ)
    → key c id budget ≡ ok ck
    → charge_once lua c id budget request amount ttl server answers st ≡ (ok (total, true), st')
    → charge_once_script lua ck (idempotency_key c ck request) amount (ttl_millis ttl) server st
      ≡ (ok (total, true), st')
unfolding charge_once
charged lua c id budget request ck amount ttl server st st' total k h = ground arith

named :
    (lua : ℤ → ℤ) (c : Counter) (id budget request : Str) (amount ttl : ℤ) (server : ℕ)
    (st st' : Store) (total : ℤ)
    → charge_once lua c id budget request amount ttl server answers st ≡ (ok (total, true), st')
    → (ck : Str) × (key c id budget ≡ ok ck) × (is_empty (trim_space request) ≡ false)
unfolding charge_once key
named lua c id budget request amount ttl server st st' total h =
    (c.prefix ++ c.digest (id ++ (0 ∷ budget)), ground arith, ground arith)

runs :
    (lua : ℤ → ℤ) (c : Counter) (id budget request ck : Str) (amount : ℕ) (ttl : ℤ) (server : ℕ)
    (st : Store)
    → key c id budget ≡ ok ck
    → is_empty (trim_space request) ≡ false
    → 0 < amount
    → charge_once lua c id budget request (pos amount) ttl server answers st
      ≡ charge_once_script lua ck
          (idempotency_key c ck request)
          (pos amount)
          (ttl_millis ttl)
          server
          st
unfolding charge_once
runs lua c id budget request ck amount ttl server st k said positive = ground arith

reads :
    (c : Counter) (id budget ck : Str) (server : ℕ) (st : Store)
    → key c id budget ≡ ok ck
    → usage c id budget server answers st ≡ ok (value_of (current server (st ck)))
unfolding usage
reads c id budget ck server st k = rw k

-- A charge that was applied adds its amount to the counter.
pub charge_once-adds :
    (lua : ℤ → ℤ) (c : Counter) (id budget request : Str) (amount ttl : ℤ) (server : ℕ)
    (st st' : Store) (total used : ℤ)
    → charge_once lua c id budget request amount ttl server answers st ≡ (ok (total, true), st')
    → usage c id budget server answers st ≡ ok used
    → usage c id budget server answers st' ≡ ok (plus used amount)
charge_once-adds lua c id budget request amount ttl server st st' total used h before =
    let (ck, k, said) = named lua c id budget request amount ttl server st st' total h in
    let (sum, at_counter, at_claim) =
      applied lua c ck request amount (ttl_millis ttl) server st st' total
        (charged lua c id budget request ck amount ttl server st st' total k h) in
    let base = reads c id budget ck server st k in
    let added = bump-current ck amount (ttl_millis ttl) server st in
    reads c id budget ck server st' k ∙ ground arith

-- A request that was charged is not charged again while its claim lives, which is for ever where the
-- window has no end: a second call with any amount changes nothing, says so, and answers the total
-- that the counter holds then. The first call added its amount to the counter.
pub charge_once_again :
    (lua : ℤ → ℤ) (c : Counter) (id budget request : Str) (amount second : ℕ) (ttl ttl' : ℤ)
    (server later : ℕ) (st st' : Store) (total used used' : ℤ)
    → charge_once lua c id budget request (pos amount) ttl server answers st
      ≡ (ok (total, true), st')
    → 0 < second
    → (ttl_millis ttl ≡ 0) ⊎ (later < server + ttl_millis ttl)
    → usage c id budget server answers st ≡ ok used
    → usage c id budget later answers st' ≡ ok used'
    → (charge_once lua c id budget request (pos second) ttl' later answers st'
        ≡ (ok (used', false), st'))
      × (usage c id budget server answers st' ≡ ok (plus used (pos amount)))
charge_once_again lua c id budget request amount second ttl ttl' server later st st' total used
      used' h positive live before after =
    let (ck, k, said) = named lua c id budget request (pos amount) ttl server st st' total h in
    let claim = idempotency_key c ck request in
    let (sum, at_counter, at_claim) =
      applied lua c ck request (pos amount) (ttl_millis ttl) server st st' total
        (charged lua c id budget request ck (pos amount) ttl server st st' total k h) in
    let alive = lives (ttl_millis ttl) server later (st' claim) at_claim live in
    let now = reads c id budget ck later st' k in
    (
      runs lua c id budget request ck second ttl' later st' k said positive
          ∙ (again lua ck claim (pos second) (ttl_millis ttl') later st' alive ∙ ground arith),
      charge_once-adds lua c id budget request (pos amount) ttl server st st' total used h before,
    )
