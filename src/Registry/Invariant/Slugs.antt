-- ===== src/Registry/Invariant/Slugs.antt =====
-- Login slugs in internal/controlplane/store.go: what keeps two tenants apart when a slug is
-- compared without regard to case.
use joysteed_maa_s.Base.{
  ℕ, Bool, false, not, ◌&&◌, ◌||◌, [], ◌∷◌, Str, ◌==◌, ◌≡◌, refl, ◌≢◌, arith, any, select, none,
  ==_iff, ap, Faults, ok, transaction, trim_space, is_empty,
}
use joysteed_maa_s.Registry.Status.{registered}
use joysteed_maa_s.Registry.Store.{Tenant, Tenants, taken, create, update_profile_tx, lock_tenant}
use joysteed_maa_s.Registry.Invariant.{renamed}

-- The rows of other tenants that a case-insensitive lookup of `slug` would also find.
abbrev pub shadowed : (Str → Str) → Str → Str → Tenants → Bool
shadowed lower id slug = any (λ u. (lower u.slug == lower slug) && not (u.id == id))

shadowed-renamed :
    (lower : Str → Str) (id slug : Str) (name : Str) (now : ℕ) (ts : Tenants)
    → shadowed lower id slug (renamed id slug name now ts) ≡ shadowed lower id slug ts
unfolding renamed
shadowed-renamed lower id slug name now [] = refl
shadowed-renamed lower id slug name now (u ∷ ts) =
    ground (arith, shadowed-renamed lower id slug name now ts)

-- After a profile update that succeeds, no other tenant has the slug in any case.
pub update_profile-unshadowed :
    (lower : Str → Str) (id slug name : Str) (now : ℕ) (ts : Tenants) (fs : Faults) (t : Tenant)
    → (transaction (update_profile_tx lower id slug name now) ts fs).0 ≡ ok t
    → shadowed lower id
        (trim_space slug)
        (transaction (update_profile_tx lower id slug name now) ts fs).1
      ≡ false
update_profile-unshadowed lower id slug name now ts fs t h =
    unfold update_profile_tx lock_tenant renamed in
    ground (arith, shadowed-renamed lower id (trim_space slug) (trim_space name) now ts)

-- The row that a creation writes.
abbrev pub registered_row : Str → Str → Str → ℕ → Tenant
registered_row id slug name now = record {
  id = id;
  slug = trim_space slug;
  name = trim_space name;
  status = registered;
  trial_ends_at = none;
  status_changed_at = now;
  created_at = now;
  updated_at = now;
}

made :
    (id slug name : Str) (now : ℕ) (ts : Tenants)
    → is_empty id ≡ false
    → is_empty (trim_space slug) ≡ false
    → taken id (trim_space slug) ts ≡ false
    → create id slug name now ts []
      ≡ (ok (registered_row id slug name now), registered_row id slug name now ∷ ts)
unfolding create
made id slug name now ts named slugged free = ground arith

-- A row that a selection starts with was in the list.
selected :
    (p q : Tenant → Bool) (ts us : Tenants) (t : Tenant)
    → select p ts ≡ t ∷ us
    → any q ts ≡ false
    → q t ≡ false
selected p q [] us t h k = absurd (ground arith)
selected p q (x ∷ ts) us t h k = ground (arith, selected p q ts us t)

-- Creation compares slugs byte by byte: where a tenant has a slug, and no row has the new id or the new
-- slug, which is that tenant's but for its case, the creation succeeds, and a lookup of the new slug in
-- lower case then matches the rows of both tenants.
pub create-shadowed :
    (lower : Str → Str) (id slug name : Str) (now : ℕ) (ts : Tenants) (t : Tenant)
    → is_empty id ≡ false
    → is_empty (trim_space slug) ≡ false
    → taken id (trim_space slug) ts ≡ false
    → select (λ u. lower u.slug == lower (trim_space slug)) ts ≡ t ∷ []
    → (create id slug name now ts []
        ≡ (ok (registered_row id slug name now), registered_row id slug name now ∷ ts))
      × (select (λ u. lower u.slug == lower (trim_space slug)) (create id slug name now ts []).1
          ≡ registered_row id slug name now ∷ t ∷ [])
      × (t.id ≢ id)
create-shadowed lower id slug name now ts t named slugged free found =
    let grown = made id slug name now ts named slugged free in
    let match = (==_iff (lower (trim_space slug)) (lower (trim_space slug))).1 refl in
    let other =
      selected (λ u. lower u.slug == lower (trim_space slug))
        (λ u. u.id == id || u.slug == trim_space slug) ts [] t found free in
    (
      grown,
      rw grown (rw match (ap (λ us. registered_row id slug name now ∷ us) found)),
      λ same. absurd (ground (arith, ==_iff t.id id)),
    )
