-- ===== src/Registry/Store.antt =====
-- internal/controlplane/tenant.go (the record and its gates) and store.go (the registry).
-- The table is the list of its rows; `now` is what the call's clock reads. gorm stamps `updated_at`
-- on each update and `created_at` on each insert.
use joysteed_maa_s.Base.{
  ℕ, Bool, true, false, not, ◌&&◌, ◌||◌, List, ◌∷◌, Option, none, some, Str, ◌==◌, trim_space,
  is_empty, any, find, update_where, Result, ok, err, if◌then◌else◌, ltb, eqb, Tx, Faults, query,
  exec, ◌>>=◌, ◌>>◌, pure, throw, transaction,
}
use joysteed_maa_s.Registry.Status.{
  Status, registered, trial, same_status, valid, serves_traffic, can_transition, Error, id_required,
  slug_required, slug_conflict, end_date_required, not_found, trial_needs_end_date, database,
}

pub record Tenant : Type 0 where
  pub id : Str
  pub slug : Str
  pub name : Str
  pub status : Status
  pub trial_ends_at : Option ℕ
  pub status_changed_at : ℕ
  pub created_at : ℕ
  pub updated_at : ℕ

abbrev pub Tenants : Type 0
Tenants = List Tenant

abbrev pub before : ℕ → Option ℕ → Bool
before now none = false
before now (some end) = ltb now end

unfoldable pub can_serve_traffic : Tenant → ℕ → Bool
unfolding serves_traffic valid
can_serve_traffic t now =
    if not (valid t.status) || not (serves_traffic t.status)
    then false
    else (if same_status t.status trial then before now t.trial_ends_at else true)

abbrev reached : ℕ → Option ℕ → Bool
reached now none = false
reached now (some end) = not (ltb now end)

unfoldable pub trial_expired : Tenant → ℕ → Bool
trial_expired t now = if same_status t.status trial then reached now t.trial_ends_at else false

abbrev pub has_id : Str → Tenant → Bool
has_id id t = t.id == id

-- The primary key and the unique index on the slug refuse an insert.
abbrev pub taken : Str → Str → Tenants → Bool
taken id slug = any (λ t. t.id == id || t.slug == slug)

abbrev or_not_found {ℓ} :
    {A : Type ℓ} {S : Type 0} → Option A → S → Faults → Result Error (A × S × Faults)
or_not_found none s fs = err not_found
or_not_found (some a) s fs = ok (a, s, fs)

abbrev insert : Tenant → Tx Error Tenants (Unit {0})
insert row ts fs =
    if taken row.id row.slug ts then err database else exec database (λ rows. row ∷ rows) ts fs

unfoldable pub create_tx : Str → Str → Str → ℕ → Tx Error Tenants Tenant
create_tx id raw_slug raw_name now =
    let slug = trim_space raw_slug in
    let row : Tenant = record {
      id = id;
      slug = slug;
      name = trim_space raw_name;
      status = registered;
      trial_ends_at = none;
      status_changed_at = now;
      created_at = now;
      updated_at = now;
    } in
    if is_empty id
    then throw id_required
    else (if is_empty slug then throw slug_required else (do insert row; pure row))

unfoldable pub create : Str → Str → Str → ℕ → Tenants → Faults → Result Error Tenant × Tenants
unfolding create_tx
create id slug name now ts fs =
    if is_empty id
    then (err id_required, ts)
    else (if is_empty (trim_space slug)
        then (err slug_required, ts)
        else transaction (create_tx id slug name now) ts fs)

unfoldable pub lock_tenant : Str → Tx Error Tenants Tenant
lock_tenant id = do found ← query database (find (has_id id)); or_not_found found

-- `lower` is the database's `LOWER`.
unfoldable pub update_profile_tx : (Str → Str) → Str → Str → Str → ℕ → Tx Error Tenants Tenant
unfolding lock_tenant
update_profile_tx lower id raw_slug raw_name now =
    let slug = trim_space raw_slug in
    let name = trim_space raw_name in
    if is_empty slug then throw slug_required else (do
      t ← lock_tenant id
      conflict ← query database (any (λ u. (lower u.slug == lower slug) && not (u.id == id)))
      if conflict then throw slug_conflict else (do
        exec database (
            update_where (has_id id) (λ u. record u { slug = slug; name = name; updated_at = now }))
        pure (record t { slug = slug; name = name; updated_at = now })))

abbrev guard : Result Error (Unit {0}) → Tx Error Tenants (Unit {0})
guard (ok u) s fs = ok (tt, s, fs)
guard (err e) s fs = err e

unfoldable pub transition_tx : Str → Status → ℕ → Tx Error Tenants Tenant
unfolding lock_tenant
transition_tx id to now = if same_status to trial then throw trial_needs_end_date else (do
  t ← lock_tenant id
  guard (can_transition t.status to)
  exec database (
      update_where (has_id id) (λ u. record u {
        status = to;
        trial_ends_at = none;
        status_changed_at = now;
        updated_at = now;
      }))
  pure (record t { status = to; trial_ends_at = none; status_changed_at = now }))

unfoldable pub transition : Str → Status → ℕ → Tenants → Faults → Result Error Tenant × Tenants
unfolding transition_tx
transition id to now = transaction (transition_tx id to now)

-- `time.Time{}`, the zero time, is 0.
unfoldable pub start_trial : Str → ℕ → ℕ → Tenants → Faults → Result Error Tenant × Tenants
unfolding lock_tenant
start_trial id ends_at now ts fs =
    if eqb ends_at 0
    then (err end_date_required, ts)
    else transaction
        (do
          t ← lock_tenant id
          guard (can_transition t.status trial)
          exec database (
              update_where (has_id id) (λ u. record u {
                status = trial;
                trial_ends_at = some ends_at;
                status_changed_at = now;
                updated_at = now;
              }))
          pure (record t { status = trial; trial_ends_at = some ends_at; status_changed_at = now }))
        ts fs
