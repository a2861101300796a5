-- ===== src/Virtualkey.antt =====
-- internal/virtualkey/store.go: the tenants' keys, whose wanted state is numbered by the configuration
-- bus. Each call is the body of a transaction. `digest` is the text of the first 8 bytes of a SHA-256.
pub mod Cipher
pub mod Sanitized
pub mod Projector
pub mod Rows
pub mod Invariant
pub mod Calls
pub mod Passes
pub mod History
pub mod Gone
pub mod Kept
pub mod Returns
pub mod Revoked
pub mod Others
pub mod Settles
pub mod Blocked
mod Examples
use joysteed_maa_s.Base.{
  ℕ, Bool, true, false, not, ◌&&◌, ◌||◌, List, [], ◌∷◌, ◌++◌, Option, none, some, Str, text, ◌==◌,
  byte_length, trim_space, is_empty, any, find, select, update_where, take, length, ltb, eqb, ℤ,
  pos, pos_part, ltb_ℤ, leb_ℤ, Result, ok, err, Tx, Faults, query, exec, ◌>>=◌, ◌>>◌, pure, throw,
  if◌then◌else◌,
}
use joysteed_maa_s.Registry.Store.{Tenant, has_id}
use joysteed_maa_s.Configbus.{Outbox, Change, publish_tx}
use joysteed_maa_s.Configbus
use joysteed_maa_s.Virtualkey.Cipher.{Aead, CipherError, encrypt, decrypt, associated_data}

-- Strings in Go, with a constructor for any other text.
pub data Status : Type 0 where
  pending active failed revoking revoked : Status
  other : Str → Status

pub data DesiredState : Type 0 where
  wanted unwanted : DesiredState
  other : Str → DesiredState

pub record Key : Type 0 where
  pub id : Str
  pub tenant_id : Str
  pub name : Str
  pub secret_ciphertext : Str
  pub secret_fingerprint : Str
  pub status : Status
  pub desired_state : DesiredState
  pub desired_generation : ℕ
  pub applied_generation : ℕ
  pub last_error : Str
  pub activated_at : Option ℕ
  pub revoked_at : Option ℕ
  pub created_at : ℕ
  pub updated_at : ℕ

pub record Mutation : Type 0 where
  pub key : Key
  pub before : Option Key
  pub secret : Str
  pub change : Option Change

pub data Error : Type 0 where
  tenant_required name_required key_not_found key_unavailable invalid_transition tenant_not_found :
      Error
  no_entropy database : Error
  cipher_failed : CipherError → Error
  publish_failed : Configbus.Error → Error

pub record Tables : Type 0 where
  pub keys : List Key
  pub outbox : Outbox
  pub tenants : List Tenant

abbrev pub is_gone : Status → Bool
is_gone revoking = true
is_gone revoked = true
is_gone _ = false

abbrev pub is_active : Status → Bool
is_active active = true
is_active _ = false

abbrev pub is_failed : Status → Bool
is_failed failed = true
is_failed _ = false

abbrev pub is_wanted : DesiredState → Bool
is_wanted wanted = true
is_wanted _ = false

abbrev pub is_unwanted : DesiredState → Bool
is_unwanted unwanted = true
is_unwanted _ = false

abbrev pub is_key : Str → Str → Key → Bool
is_key tenant id k = k.tenant_id == tenant && k.id == id

unfoldable pub entity : Str → Str
entity id = text "virtual_key:" ++ id

-- A call of the bus in the same transaction.
abbrev pub bused :
    {A : Type 0}
    → Tables
    → Result Configbus.Error (A × Outbox × Faults)
    → Result Error (A × Tables × Faults)
bused s (ok (a, o, fs)) = ok (a, record s { outbox = o }, fs)
bused s (err e) = err (publish_failed e)

abbrev pub on_bus : {A : Type 0} → Tx Configbus.Error Outbox A → Tx Error Tables A
on_bus m s fs = bused s (m s.outbox fs)

abbrev pub or_throw {ℓ} :
    {A : Type ℓ} → Error → Option A → Tables → Faults → Result Error (A × Tables × Faults)
or_throw e none s fs = err e
or_throw e (some a) s fs = ok (a, s, fs)

abbrev pub sealed_or : Result CipherError Str → Tx Error Tables Str
sealed_or (ok c) = pure c
sealed_or (err e) = throw (cipher_failed e)

abbrev pub page_size : ℤ → ℕ
page_size limit = if leb_ℤ limit (pos 0) || ltb_ℤ (pos 1000) limit then 100 else pos_part limit

-- `order` is ORDER BY created_at DESC.
unfoldable pub list_keys : (List Key → List Key) → Str → ℤ → Tx Error Tables (List Key)
list_keys order tenant limit =
    if is_empty tenant
    then throw tenant_required
    else query database
        (λ s. take (page_size limit) (order (select (λ k. k.tenant_id == tenant) s.keys)))

abbrev pub reveal_row : Aead → Key → Tx Error Tables (Key × Str)
reveal_row a row =
    if not (is_wanted row.desired_state) || is_gone row.status then throw key_unavailable else (do
      secret ← sealed_or (decrypt a row.secret_ciphertext (associated_data row.tenant_id row.id))
      pure (row, secret))

unfoldable pub reveal_tx : Aead → Str → Str → Tx Error Tables (Key × Str)
reveal_tx a tenant id = if is_empty tenant then throw tenant_required else (do
  found ← query database (λ s. find (is_key tenant (trim_space id)) s.keys)
  row ← or_throw key_not_found found
  reveal_row a row)

-- The id, the secret and the nonce that the source of randomness gives, where it answers.
pub record Draws : Type 0 where
  pub id : Option Str
  pub secret : Option Str
  pub nonce : Option Str

-- The primary key and the unique index on a tenant's names refuse an insert.
abbrev pub clashes : Key → Key → Bool
clashes row k = k.id == row.id || (k.tenant_id == row.tenant_id && k.name == row.name)

abbrev pub insert_key : Key → Tx Error Tables (Unit {0})
insert_key row s fs =
    (if any (clashes row) s.keys
        then throw database
        else exec database (λ s. record s { keys = row ∷ s.keys }))
      s fs

abbrev pub new_key : (Str → Str) → Str → Str → Str → Str → Str → ℕ → ℕ → Key
new_key digest tenant name id secret ciphertext generation now = record {
  id = id;
  tenant_id = tenant;
  name = name;
  secret_ciphertext = ciphertext;
  secret_fingerprint = digest secret;
  status = pending;
  desired_state = wanted;
  desired_generation = generation;
  applied_generation = 0;
  last_error = [];
  activated_at = none;
  revoked_at = none;
  created_at = now;
  updated_at = now;
}

unfoldable pub issue_key : Aead → (Str → Str) → Str → Str → Draws → ℕ → Tx Error Tables Mutation
issue_key a digest tenant name drawn now = do
  id ← or_throw no_entropy drawn.id
  secret ← or_throw no_entropy drawn.secret
  ciphertext ← sealed_or (encrypt a drawn.nonce secret (associated_data tenant id))
  change ← on_bus (publish_tx tenant (entity id) now)
  insert_key (new_key digest tenant name id secret ciphertext change.generation now)
  pure (record {
    key = new_key digest tenant name id secret ciphertext change.generation now;
    before = none;
    secret = secret;
    change = some change;
  })

unfoldable pub create_tx : Aead → (Str → Str) → Str → Str → Draws → ℕ → Tx Error Tables Mutation
unfolding issue_key
create_tx a digest tenant given drawn now =
    let name = trim_space given in
    if is_empty tenant
    then throw tenant_required
    else (if is_empty name || ltb 120 (byte_length name) then throw name_required else (do
      count ← query database (λ s. length (select (has_id tenant) s.tenants))
      if not (eqb count 1)
          then throw tenant_not_found
          else issue_key a digest tenant name drawn now))

unfoldable pub lock_key : Str → Str → Tx Error Tables Key
lock_key tenant id = if is_empty tenant then throw tenant_required else (do
  found ← query database (λ s. find (is_key tenant (trim_space id)) s.keys)
  or_throw key_not_found found)

-- `tx.Save` writes every column of the row with this id.
abbrev pub save : Key → Tables → Tables
save row s = record s { keys = update_where (λ k. k.id == row.id) (λ _. row) s.keys }

abbrev pub moved : Key → (Status × DesiredState) → Change → ℕ → Key
moved row (status, desired) change now = record row {
  status = status;
  desired_state = desired;
  desired_generation = change.generation;
  last_error = [];
  updated_at = now;
}

-- The change is published under the id as it was given, then the row is saved.
unfoldable pub move_key : Str → Str → Key → (Status × DesiredState) → ℕ → Tx Error Tables Mutation
move_key tenant id row to now = do
  change ← on_bus (publish_tx tenant (entity id) now)
  exec database (save (moved row to change now))
  pure (record {
    key = moved row to change now;
    before = some row;
    secret = [];
    change = some change;
  })

abbrev pub revoke_row : Str → Str → ℕ → Key → Tx Error Tables Mutation
revoke_row tenant id now row =
    if is_gone row.status
    then pure (record { key = row; before = none; secret = []; change = none })
    else move_key tenant id row (revoking, unwanted) now

unfoldable pub revoke_tx : Str → Str → ℕ → Tx Error Tables Mutation
unfolding lock_key move_key
revoke_tx tenant id now = lock_key tenant id >>= revoke_row tenant id now

abbrev pub retry_row : Str → Str → ℕ → Key → Tx Error Tables Mutation
retry_row tenant id now row =
    if not (is_failed row.status)
    then throw invalid_transition
    else move_key tenant id row
        (if is_unwanted row.desired_state then revoking else pending, row.desired_state) now

unfoldable pub retry_tx : Str → Str → ℕ → Tx Error Tables Mutation
unfolding lock_key move_key
retry_tx tenant id now = lock_key tenant id >>= retry_row tenant id now
