-- ===== src/Tenantauth/Lookup.antt =====
-- internal/tenantauth/resolver.go: the row that the three lookups of a credential end at.
use joysteed_maa_s.Base.{
  ℕ, Bool, true, false, not, ◌&&◌, ◌||◌, List, [], ◌∷◌, Option, none, some, Str, ◌==◌, is_empty,
  any, find, find-true, select, ok, Faults, query_step, guard_step, ◌≡◌, inl, inr, refl, subst,
  arith, Bool-cases,
}
use joysteed_maa_s.Registry.Store.{before}
use joysteed_maa_s.Tenantauth.{
  KeyIdentity, Tables, Error, database, Library, found_key, retired_or, current_or, by_value,
  find_key, is_inactive, is_expired,
}

-- The row's key is this credential: by its current digest, by the retired one until its end, or as it
-- is written, where it is no reference to a secret.
abbrev pub holds : Library → Str → ℕ → KeyIdentity → Bool
holds k value now r =
    r.value_hash == k.hash_sha256 value
    || (r.previous_value_hash == k.hash_sha256 value && before now r.previous_value_expires_at)
    || (not (k.is_secret_ref value) && r.value == value)

-- The row is a key of the tenant that may be used now.
abbrev pub opens : Str → ℕ → KeyIdentity → Bool
opens tenant now r =
    not (is_empty r.id)
    && not (is_inactive r.is_active)
    && not (is_expired now r.expires_at)
    && r.tenant_id == tenant

pub any_where :
    {A : Type 0} (p q : A → Bool) (xs : List A) (x : A)
    → find p xs ≡ some x
    → q x ≡ true
    → any q xs ≡ true
any_where p q [] x h k = absurd (ground arith)
any_where p q (y ∷ xs) x h k = ground (arith, any_where p q xs x)

-- A row with a Boolean property that the search ended at.
abbrev pub Sought : Library → Str → ℕ → Tables → KeyIdentity → Type 0
Sought k value now s r =
    (holds k value now r ≡ true) × ((q : KeyIdentity → Bool) → q r ≡ true → any q s.keys ≡ true)

any_within :
    {A : Type 0} (p q : A → Bool) (xs : List A) → any q (select p xs) ≡ true → any q xs ≡ true
any_within p q [] h = h
any_within p q (x ∷ xs) h = ground (arith, any_within p q xs)

none_else : {A : Type 0} (p : A → Bool) (xs : List A) → any (λ y. not (p y)) (select p xs) ≡ false
none_else p [] = refl
none_else p (x ∷ xs) = ground (arith, none_else p xs)

found_key_ok :
    (o : Option KeyIdentity) (s s' : Tables) (fs fs' : Faults) (r : KeyIdentity)
    → found_key o s fs ≡ ok (r, s', fs')
    → (o ≡ some r) × (s' ≡ s)
found_key_ok none s s' fs fs' r h = absurd (ground arith)
found_key_ok (some x) s s' fs fs' r h = (ground arith, ground arith)

module _ (k : Library) (value : Str) (now : ℕ) where
  by_value_ok :
      (s s' : Tables) (fs fs' : Faults) (r : KeyIdentity)
      → by_value k value s fs ≡ ok (r, s', fs')
      → (s' ≡ s) × Sought k value now s r
  unfolding by_value
  by_value_ok s s' fs fs' r h =
      guard_step (k.is_secret_ref value) Error.invalid_virtual_key _ s fs (r, s', fs') h
        λ plain h.
          query_step database (λ s. find (λ r. r.value == value) s.keys) found_key s fs (r, s', fs')
            h
            λ gs h.
              let (e, same) = found_key_ok (find (λ r. r.value == value) s.keys) s s' gs fs' r h in
              let same_value = find-true (λ r. r.value == value) s.keys r e in
              (same, (ground arith, λ q y. any_where (λ r. r.value == value) q s.keys r e y))

  module _
      (orders : (p : KeyIdentity → Bool) (xs : List KeyIdentity)
        → any p (k.by_expiry xs) ≡ true
        → any p xs ≡ true) where
    -- The row that was looked up by the retired digest.
    abbrev was : KeyIdentity → Bool
    was r = r.previous_value_hash == k.hash_sha256 value

    by_expiry_ok :
        (s : Tables) (x : KeyIdentity)
        → find (λ r. true) (k.by_expiry (select was s.keys)) ≡ some x
        → (was x ≡ true) × ((q : KeyIdentity → Bool) → q x ≡ true → any q s.keys ≡ true)
    by_expiry_ok s x e =
        let within = λ (q : KeyIdentity → Bool) (y : q x ≡ true).
          orders q (select was s.keys)
            (any_where (λ r. true) q (k.by_expiry (select was s.keys)) x e y) in
        (
          elim (Bool-cases (was x)) [
            | inl y ↦ y
            | inr n ↦
                absurd (ground (arith, within (λ r. not (was r)) (rw n refl), none_else was s.keys))
          ],
          λ q y. any_within was q s.keys (within q y),
        )

    retired_or_ok :
        (o : Option KeyIdentity) (s s' : Tables) (fs fs' : Faults) (r : KeyIdentity)
        → find (λ r. true) (k.by_expiry (select was s.keys)) ≡ o
        → retired_or k value now o s fs ≡ ok (r, s', fs')
        → (s' ≡ s) × Sought k value now s r
    retired_or_ok none s s' fs fs' r e h = by_value_ok s s' fs fs' r h
    retired_or_ok (some x) s s' fs fs' r e h =
        elim (Bool-cases (before now x.previous_value_expires_at)) [
          | inr n ↦ by_value_ok s s' fs fs' r (ground arith)
          | inl y ↦
              let (old, stored) = by_expiry_ok s x e in
              let same : x ≡ r = ground arith in
              (ground arith, subst (Sought k value now s) same (ground arith, stored))
        ]

    current_or_ok :
        (o : Option KeyIdentity) (s s' : Tables) (fs fs' : Faults) (r : KeyIdentity)
        → find (λ r. r.value_hash == k.hash_sha256 value) s.keys ≡ o
        → current_or k value now o s fs ≡ ok (r, s', fs')
        → (s' ≡ s) × Sought k value now s r
    current_or_ok none s s' fs fs' r e h =
        query_step database (λ s. find (λ r. true) (k.by_expiry (select was s.keys)))
          (retired_or k value now) s fs (r, s', fs') h
          (λ gs h. retired_or_ok _ s s' gs fs' r refl h)
    current_or_ok (some x) s s' fs fs' r e h =
        let is = find-true (λ r. r.value_hash == k.hash_sha256 value) s.keys x e in
        let same : x ≡ r = ground arith in
        (
          ground arith,
          subst (Sought k value now s) same (
            ground arith,
            λ q y. any_where (λ r. r.value_hash == k.hash_sha256 value) q s.keys x e y,
          ),
        )

    pub find_key_ok :
        (s s' : Tables) (fs fs' : Faults) (r : KeyIdentity)
        → find_key k value now s fs ≡ ok (r, s', fs')
        → (s' ≡ s) × Sought k value now s r
    unfolding find_key
    find_key_ok s s' fs fs' r h =
        query_step database (λ s. find (λ r. r.value_hash == k.hash_sha256 value) s.keys)
          (current_or k value now) s fs (r, s', fs') h
          (λ gs h. current_or_ok _ s s' gs fs' r refl h)
