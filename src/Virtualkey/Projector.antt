-- ===== src/Virtualkey/Projector.antt =====
-- internal/virtualkey/projector.go: the pass that brings the data plane to the keys' wanted states. The
-- data plane is a parameter, since a gateway behind an interface answers for it; what it did stays
-- where the transaction of a key is rolled back.
use joysteed_maa_s.Base.{
  ℕ, Bool, true, false, ◌&&◌, ◌||◌, List, [], ◌∷◌, Option, none, some, Str, ◌==◌, is_empty, elem,
  map, find, select, update_where, ltb, leb, eqb, Result, ok, err, Faults, if◌then◌else◌,
}
use joysteed_maa_s.Virtualkey.{
  Key, active, failed, revoked, DesiredState, wanted, unwanted, other, is_wanted, is_active, is_key,
}
use joysteed_maa_s.Virtualkey.Cipher.{Aead, CipherError, error_text, decrypt, associated_data}
use joysteed_maa_s.Virtualkey.Sanitized.{sanitized_error}

pub record Projection : Type 0 where
  pub id : Str
  pub tenant_id : Str
  pub name : Str
  pub secret : Str
  pub generation : ℕ

-- The data plane: each call answers with an error's text or nothing, and the plane that it leaves.
pub record Target : Type 1 where
  pub Plane : Type 0
  pub upsert : Projection → Plane → Option Str × Plane
  pub delete : Str → Str → Plane → Option Str × Plane

pub data ProjectError : Type 0 where
  invalid_fence database invalid_state project_failed revoke_failed restore_failed : ProjectError

abbrev pub projection : Key → Str → Projection
projection row secret = record {
  id = row.id;
  tenant_id = row.tenant_id;
  name = row.name;
  secret = secret;
  generation = row.desired_generation;
}

-- `Where("id = ? AND desired_generation = ?")`.
abbrev pub mark : Key → (Key → Key) → List Key → List Key
mark row = update_where (λ k. k.id == row.id && eqb k.desired_generation row.desired_generation)

abbrev pub first_time : ℕ → Option ℕ → Option ℕ → Option ℕ
first_time now none current = some now
first_time now (some t) current = current

abbrev pub made_active : Key → ℕ → Key → Key
made_active row now k = record k {
  status = active;
  applied_generation = row.desired_generation;
  last_error = [];
  updated_at = now;
  activated_at = first_time now row.activated_at k.activated_at;
}

abbrev pub made_revoked : Key → ℕ → Key → Key
made_revoked row now k = record k {
  status = revoked;
  applied_generation = row.desired_generation;
  last_error = [];
  revoked_at = some now;
  updated_at = now;
}

abbrev pub made_failed : Str → ℕ → Key → Key
made_failed reason now k = record k { status = failed; last_error = reason; updated_at = now }

unfoldable pub mark_failed : Key → Str → ℕ → List Key → List Key
mark_failed row reason now = mark row (made_failed reason now)

abbrev pub is_settled : Str → Key → Bool
is_settled tenant k =
    k.tenant_id == tenant
    && (is_wanted k.desired_state
        && (is_active k.status && eqb k.applied_generation k.desired_generation))

abbrev pub is_dirty : Str → Key → Bool
is_dirty tenant k = k.tenant_id == tenant && ltb k.applied_generation k.desired_generation

abbrev pub id_of : Key → Str
id_of k = k.id

module _ (t : Target) where
  open t use {Plane, upsert, delete}

  -- What a call returns: its error or success, the keys, the plane and the statements to come.
  abbrev pub Outcome : Type 0
  Outcome = Result ProjectError (Unit {0}) × List Key × Plane × Faults

  -- The last write of a transaction; where it fails the keys are rolled back, and its error is returned.
  abbrev pub commit :
      Result ProjectError (Unit {0}) → (List Key → List Key) → List Key → Plane → Faults → Outcome
  commit r write keys p [] = (r, write keys, p, [])
  commit r write keys p (true ∷ fs) = (err database, keys, p, fs)
  commit r write keys p (false ∷ fs) = (r, write keys, p, fs)

  abbrev pub upserted : Key → Str → ℕ → Option Str × Plane → List Key → Faults → Outcome
  upserted row secret now (none, p) keys fs =
      commit (ok tt) (mark row (made_active row now)) keys p fs
  upserted row secret now (some message, p) keys fs =
      commit (err project_failed) (mark_failed row (sanitized_error message secret) now) keys p fs

  abbrev pub activate : Key → ℕ → Result CipherError Str → List Key → Plane → Faults → Outcome
  activate row now (err e) keys p fs =
      commit (err project_failed) (mark_failed row (sanitized_error (error_text e) []) now) keys p
        fs
  activate row now (ok secret) keys p fs =
      upserted row secret now (upsert (projection row secret) p) keys fs

  abbrev pub deleted : Key → ℕ → Option Str × Plane → List Key → Faults → Outcome
  deleted row now (none, p) keys fs = commit (ok tt) (mark row (made_revoked row now)) keys p fs
  deleted row now (some message, p) keys fs =
      commit (err revoke_failed) (mark_failed row (sanitized_error message []) now) keys p fs

  abbrev pub project_row : Aead → Key → ℕ → DesiredState → List Key → Plane → Faults → Outcome
  project_row a row now wanted keys p fs =
      activate row now (decrypt a row.secret_ciphertext (associated_data row.tenant_id row.id)) keys
        p fs
  project_row a row now unwanted keys p fs = deleted row now (delete row.tenant_id row.id p) keys fs
  project_row a row now (other s) keys p fs = (err invalid_state, keys, p, fs)

  abbrev pub project_found : Aead → ℕ → Option Key → List Key → Plane → Faults → Outcome
  project_found a now none keys p fs = (ok tt, keys, p, fs)
  project_found a now (some row) keys p fs =
      if leb row.desired_generation row.applied_generation
      then (ok tt, keys, p, fs)
      else project_row a row now row.desired_state keys p fs

  unfoldable pub project_one : Aead → Str → Str → ℕ → List Key → Plane → Faults → Outcome
  unfolding mark_failed
  project_one a tenant id now keys p [] =
      project_found a now (find (is_key tenant id) keys) keys p []
  project_one a tenant id now keys p (true ∷ fs) = (err database, keys, p, fs)
  project_one a tenant id now keys p (false ∷ fs) =
      project_found a now (find (is_key tenant id) keys) keys p fs

  abbrev join : Result ProjectError (Unit {0}) → List ProjectError → List ProjectError
  join (ok _) es = es
  join (err e) es = e ∷ es

  -- Each key is tried whatever became of the others.
  unfoldable pub project_ids :
      Aead
      → Str
      → ℕ
      → List Str
      → List Key
      → Plane
      → Faults
      → List ProjectError × List Key × Plane × Faults
  unfolding project_one
  project_ids a tenant now [] keys p fs = ([], keys, p, fs)
  project_ids a tenant now (id ∷ ids) keys p fs =
      let (r, keys', p', fs') = project_one a tenant id now keys p fs in
      let (es, keys'', p'', fs'') = project_ids a tenant now ids keys' p' fs' in
      (join r es, keys'', p'', fs'')

  abbrev pub restored_row : Option Str × Plane → Result ProjectError (Unit {0}) × Plane
  restored_row (none, p) = (ok tt, p)
  restored_row (some _, p) = (err restore_failed, p)

  abbrev pub restore_row :
      Key → Result CipherError Str → Plane → Result ProjectError (Unit {0}) × Plane
  restore_row row (err e) p = (err restore_failed, p)
  restore_row row (ok secret) p = restored_row (upsert (projection row secret) p)

  abbrev pub and_then :
      Result ProjectError (Unit {0}) × Plane
      → (Plane → Result ProjectError (Unit {0}) × Plane)
      → Result ProjectError (Unit {0}) × Plane
  and_then (ok x, p) rest = rest p
  and_then (err e, p) rest = (err e, p)

  -- The first key that fails ends it.
  unfoldable pub restore_rows : Aead → List Key → Plane → Result ProjectError (Unit {0}) × Plane
  restore_rows a [] p = (ok tt, p)
  restore_rows a (row ∷ rows) p =
      and_then
        (restore_row row (decrypt a row.secret_ciphertext (associated_data row.tenant_id row.id)) p)
        (λ p'. restore_rows a rows p')

  -- `restored` lists the tenants that this process has restored. `by_id` is ORDER BY id.
  abbrev pub restore_done :
      Str
      → List Str
      → Result ProjectError (Unit {0}) × Plane
      → Faults
      → Result ProjectError (Unit {0}) × List Str × Plane × Faults
  restore_done tenant restored (ok x, p) fs = (ok x, tenant ∷ restored, p, fs)
  restore_done tenant restored (err e, p) fs = (err e, restored, p, fs)

  unfoldable pub restore_tenant_once :
      Aead
      → (List Key → List Key)
      → Str
      → List Str
      → List Key
      → Plane
      → Faults
      → Result ProjectError (Unit {0}) × List Str × Plane × Faults
  unfolding restore_rows
  restore_tenant_once a by_id tenant restored keys p [] =
      if elem tenant restored
      then (ok tt, restored, p, [])
      else restore_done tenant restored (restore_rows a (by_id (select (is_settled tenant) keys)) p)
          []
  restore_tenant_once a by_id tenant restored keys p (fails ∷ fs) =
      if elem tenant restored
      then (ok tt, restored, p, fails ∷ fs)
      else (if fails
          then (err database, restored, p, fs)
          else restore_done tenant restored
              (restore_rows a (by_id (select (is_settled tenant) keys)) p) fs)

  -- What a pass leaves: its errors, the tenants that are restored, the keys and the plane.
  abbrev pub Pass : Type 0
  Pass = List ProjectError × List Str × List Key × Plane

  abbrev pub passed : List Str → List ProjectError × List Key × Plane × Faults → Pass
  passed restored (es, keys, p, _) = (es, restored, keys, p)

  abbrev pub project_dirty :
      Aead
      → (List Key → List Key)
      → Str
      → ℕ
      → List Key
      → Result ProjectError (Unit {0}) × List Str × Plane × Faults
      → Pass
  project_dirty a by_generation tenant now keys (err e, restored, p, fs) =
      (e ∷ [], restored, keys, p)
  project_dirty a by_generation tenant now keys (ok _, restored, p, true ∷ fs) =
      (database ∷ [], restored, keys, p)
  project_dirty a by_generation tenant now keys (ok _, restored, p, false ∷ fs) = passed restored (
      project_ids a tenant now (map id_of (by_generation (select (is_dirty tenant) keys))) keys p
        fs)
  project_dirty a by_generation tenant now keys (ok _, restored, p, []) = passed restored (
      project_ids a tenant now (map id_of (by_generation (select (is_dirty tenant) keys))) keys p
        [])

  -- `by_generation` is ORDER BY desired_generation, id.
  unfoldable pub project_tenant :
      Aead
      → (List Key → List Key)
      → (List Key → List Key)
      → Str
      → ℕ
      → ℕ
      → List Str
      → List Key
      → Plane
      → Faults
      → Pass
  unfolding restore_tenant_once project_ids
  project_tenant a by_id by_generation tenant generation now restored keys p fs =
      if is_empty tenant || eqb generation 0
      then (invalid_fence ∷ [], restored, keys, p)
      else project_dirty a by_generation tenant now keys
          (restore_tenant_once a by_id tenant restored keys p fs)
