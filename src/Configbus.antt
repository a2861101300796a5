-- ===== src/Configbus.antt =====
-- internal/configbus: outbox.go numbers each tenant's configuration changes, and reconcile.go brings
-- a node up to them. A node's fence is the generation that it has loaded for each tenant.
pub mod Fence
pub mod Published
mod Examples
use joysteed_maa_s.Base.{
  ℕ, ◌+◌, ◌^◌, Bool, true, false, not, ◌&&◌, ◌||◌, List, [], ◌∷◌, Option, some, none, Str, ◌==◌,
  trim_space, is_empty, any, find, update_where, leb, ltb, eqb, Result, ok, err, Tx, Faults, query,
  exec, ◌>>=◌, ◌>>◌, pure, throw, transaction, if◌then◌else◌,
}

pub record Generation : Type 0 where
  pub tenant_id : Str
  pub generation : ℕ
  pub updated_at : ℕ

-- Less the row's id, which the database numbers.
pub record Change : Type 0 where
  pub tenant_id : Str
  pub generation : ℕ
  pub entity : Str
  pub created_at : ℕ
  pub published_at : Option ℕ

pub record Outbox : Type 0 where
  pub generations : List Generation
  pub changes : List Change

pub data Error : Type 0 where
  tenant_required entity_required database notification_failed invalid_notification reload_failed :
      Error

abbrev pub of_tenant : Str → Generation → Bool
of_tenant id g = g.tenant_id == id

abbrev pub generation_of : Option Generation → ℕ
generation_of none = 0
generation_of (some g) = g.generation

unfoldable pub validate_change : Str → Str → Result Error (Unit {0})
validate_change id entity =
    if is_empty (trim_space id)
    then err tenant_required
    else (if is_empty (trim_space entity) then err entity_required else ok tt)

-- The upsert adds 1 to the tenant's row, or writes a first one; the column is a bigint.
abbrev advance : Str → ℕ → Outbox → Option Generation → Tx Error Outbox (Unit {0})
advance id now s none = exec database (λ s. record s {
  generations = record { tenant_id = id; generation = 1; updated_at = now } ∷ s.generations;
})
advance id now s (some g) =
    if ltb (g.generation + 1) (2 ^ 63)
    then exec database (λ s. record s {
      generations =
          update_where (of_tenant id)
            (λ h. record h { generation = h.generation + 1; updated_at = now }) s.generations;
    })
    else throw database

abbrev allocate : Str → ℕ → Tx Error Outbox ℕ
allocate id now s fs =
    (advance id now s (find (of_tenant id) s.generations)
        >> pure (generation_of (find (of_tenant id) s.generations) + 1))
      s fs

-- The unique index refuses a second change of one generation and entity.
abbrev same_change : Change → Change → Bool
same_change c d =
    (d.tenant_id == c.tenant_id) && (eqb d.generation c.generation && (d.entity == c.entity))

abbrev insert_change : Change → Tx Error Outbox (Unit {0})
insert_change c s fs =
    (if any (same_change c) s.changes
        then throw database
        else exec database (λ s. record s { changes = c ∷ s.changes }))
      s fs

abbrev checked {ℓ} :
    {A : Type ℓ}
    → Result Error (Unit {0})
    → (Outbox → Faults → Result Error (A × Outbox × Faults))
    → Outbox
    → Faults
    → Result Error (A × Outbox × Faults)
checked (ok _) m = m
checked (err e) m = λ s fs. err e

unfoldable pub record_change : Str → Str → ℕ → ℕ → Tx Error Outbox Change
record_change id entity now generation =
    let change : Change = record {
      tenant_id = id;
      generation = generation;
      entity = trim_space entity;
      created_at = now;
      published_at = none;
    } in
    insert_change change >> pure change

unfoldable pub publish_tx : Str → Str → ℕ → Tx Error Outbox Change
unfolding validate_change record_change
publish_tx id entity now =
    checked (validate_change id entity) (allocate id now >>= record_change id entity now)

unfoldable pub publish : Str → Str → ℕ → Outbox → Faults → Result Error Change × Outbox
unfolding publish_tx
publish id entity now = transaction (publish_tx id entity now)

abbrev pub notified :
    Bool → Result Error Change × Outbox → Result Error Change × Option Change × Outbox
notified delivered (err e, s) = (err e, none, s)
notified delivered (ok c, s) = (if delivered then ok c else err notification_failed, some c, s)

-- `delivered` is whether the notifier, where there is one, sends the change.
unfoldable pub publish_and_notify :
    Str → Str → ℕ → Bool → Outbox → Faults → Result Error Change × Option Change × Outbox
unfolding publish
publish_and_notify id entity now delivered s fs = notified delivered (publish id entity now s fs)

unfoldable pub current : Str → Tx Error Outbox ℕ
current id =
    if is_empty (trim_space id)
    then throw tenant_required
    else query database (λ s. generation_of (find (of_tenant id) s.generations))

abbrev pub Fences : Type 0
Fences = Str → ℕ

abbrev raise : Str → ℕ → Fences → Fences
raise id g fence j = if id == j then g else fence j

-- The schedule says which of the reloads to come fail.
abbrev reload : Str → ℕ → Fences → Faults → Result Error (Unit {0}) × Fences × Faults
reload id g fence [] = (ok tt, raise id g fence, [])
reload id g fence (true ∷ fs) = (err reload_failed, fence, fs)
reload id g fence (false ∷ fs) = (ok tt, raise id g fence, fs)

unfoldable pub observe : Str → ℕ → Fences → Faults → Result Error (Unit {0}) × Fences × Faults
observe id g fence fs =
    if is_empty id || eqb g 0
    then (err invalid_notification, fence, fs)
    else (if leb g (fence id) then (ok tt, fence, fs) else reload id g fence fs)

abbrev join : Result Error (Unit {0}) → List Error → List Error
join (ok _) es = es
join (err e) es = e ∷ es

-- The rows that the source lists, each observed whatever the others did; the errors are joined.
unfoldable pub reconcile : List Generation → Fences → Faults → List Error × Fences × Faults
unfolding observe
reconcile [] fence fs = ([], fence, fs)
reconcile (row ∷ rows) fence fs =
    let (r, fence', fs') = observe row.tenant_id row.generation fence fs in
    let (es, fence'', fs'') = reconcile rows fence' fs' in (join r es, fence'', fs'')
