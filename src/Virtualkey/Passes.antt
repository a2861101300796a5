-- ===== src/Virtualkey/Passes.antt =====
-- internal/virtualkey: whatever the data plane answers and whichever statements fail, a pass keeps the
-- rows sound.
use joysteed_maa_s.Base.{
  ℕ, ◌<◌, ◌≤◌, true, false, ◌&&◌, ◌||◌, List, [], ◌∷◌, Option, none, some, Str, ◌==◌, is_empty,
  find, leb, eqb, Result, ok, err, Faults, ◌≡◌, ◌≢◌, refl, arith, Bool-cases, ◌⊎◌, inl, inr,
  All-find,
}
use joysteed_maa_s.Virtualkey.{Key, DesiredState, wanted, unwanted, other, is_key}
use joysteed_maa_s.Virtualkey.Cipher.{Aead, CipherError, error_text, decrypt, associated_data}
use joysteed_maa_s.Virtualkey.Sanitized.{sanitized_error}
use joysteed_maa_s.Virtualkey.Projector.{
  Target, ProjectError, mark, made_active, made_revoked, made_failed, mark_failed, commit, upserted,
  activate, deleted, project_row, project_found, project_one, project_ids, restore_tenant_once,
  project_dirty, project_tenant, projection, first_time,
}
use joysteed_maa_s.Virtualkey.Rows.{All-update_row, update_where-IsKeyed}
use joysteed_maa_s.Virtualkey.Invariant.{Fits, AreSound}

-- A write under the lock on the row that was found.
mark-AreSound :
    (g : Str → ℕ) (t id : Str) (row : Key) (f : Key → Key) (ks : List Key)
    → ((k : Key) → (f k).id ≡ k.id)
    → find (is_key t id) ks ≡ some row
    → Fits g (f row)
    → AreSound g ks
    → AreSound g (mark row f ks)
mark-AreSound g t id row f ks same found fits (keyed, h) = (
  update_where-IsKeyed (λ k. k.id == row.id && eqb k.desired_generation row.desired_generation) f ks
      (λ k _. same k) keyed,
  All-update_row (Fits g) t id row
      (λ k. k.id == row.id && eqb k.desired_generation row.desired_generation) f ks keyed found
      (λ k e. ground arith) (λ _. fits) h,
)

dated : (now : ℕ) (o : Option ℕ) → first_time now o o ≢ none
dated now none e = cc
dated now (some t) e = cc

-- Work is due on the row.
abbrev IsDue : Key → Type 0
IsDue row = row.applied_generation < row.desired_generation

module _ (t : Target) (g : Str → ℕ) (tenant id : Str) (row : Key) (now : ℕ) (ks : List Key)
    (found : find (is_key tenant id) ks ≡ some row) (sound : AreSound g ks) (due : IsDue row)
    (bound : row.desired_generation ≤ g row.tenant_id) where
  commit-AreSound :
      (r : Result ProjectError (Unit {0})) (write : List Key → List Key) (p : t.Plane) (fs : Faults)
      → AreSound g (write ks)
      → AreSound g (commit t r write ks p fs).1
  commit-AreSound r write p [] h = h
  commit-AreSound r write p (true ∷ fs) h = sound
  commit-AreSound r write p (false ∷ fs) h = h

  mark_failed-AreSound :
      (reason : Str)
      → (row.desired_state ≡ wanted) ⊎ (row.desired_state ≡ unwanted)
      → AreSound g (mark_failed row reason now ks)
  unfolding mark_failed
  mark_failed-AreSound reason wish =
      mark-AreSound g tenant id row (made_failed reason now) ks (λ k. refl) found
        ((wish, due), bound) sound

  upserted-AreSound :
      (secret : Str) (a : Option Str × t.Plane) (fs : Faults)
      → row.desired_state ≡ wanted
      → AreSound g (upserted t row secret now a ks fs).1
  upserted-AreSound secret (none, p) fs w =
      commit-AreSound _ (mark row (made_active row now)) p fs (
        mark-AreSound g tenant id row (made_active row now) ks (λ k. refl) found
          ((w, refl, dated now row.activated_at), bound) sound)
  upserted-AreSound secret (some m, p) fs w =
      commit-AreSound _ (mark_failed row (sanitized_error m secret) now) p fs
        (mark_failed-AreSound (sanitized_error m secret) (inl w))

  activate-AreSound :
      (r : Result CipherError Str) (p : t.Plane) (fs : Faults)
      → row.desired_state ≡ wanted
      → AreSound g (activate t row now r ks p fs).1
  activate-AreSound (err e) p fs w =
      commit-AreSound _ (mark_failed row (sanitized_error (error_text e) []) now) p fs
        (mark_failed-AreSound (sanitized_error (error_text e) []) (inl w))
  activate-AreSound (ok secret) p fs w =
      upserted-AreSound secret (t.upsert (projection row secret) p) fs w

  deleted-AreSound :
      (a : Option Str × t.Plane) (fs : Faults)
      → row.desired_state ≡ unwanted
      → AreSound g (deleted t row now a ks fs).1
  deleted-AreSound (none, p) fs u = commit-AreSound _ (mark row (made_revoked row now)) p fs (
      mark-AreSound g tenant id row (made_revoked row now) ks (λ k. refl) found
        ((u, refl, λ e. cc), bound) sound)
  deleted-AreSound (some m, p) fs u =
      commit-AreSound _ (mark_failed row (sanitized_error m []) now) p fs
        (mark_failed-AreSound (sanitized_error m []) (inr u))

  project_row-AreSound :
      (a : Aead) (d : DesiredState) (p : t.Plane) (fs : Faults)
      → row.desired_state ≡ d
      → AreSound g (project_row t a row now d ks p fs).1
  project_row-AreSound a wanted p fs w =
      activate-AreSound (decrypt a row.secret_ciphertext (associated_data row.tenant_id row.id)) p
        fs w
  project_row-AreSound a unwanted p fs u = deleted-AreSound (t.delete row.tenant_id row.id p) fs u
  project_row-AreSound a (other s) p fs e = sound

module _ (t : Target) (g : Str → ℕ) (a : Aead) (tenant : Str) (now : ℕ) where
  project_found-AreSound :
      (id : Str) (o : Option Key) (ks : List Key) (p : t.Plane) (fs : Faults)
      → find (is_key tenant id) ks ≡ o
      → AreSound g ks
      → AreSound g (project_found t a now o ks p fs).1
  project_found-AreSound id none ks p fs e sound = sound
  project_found-AreSound id (some row) ks p fs e sound =
      elim (Bool-cases (leb row.desired_generation row.applied_generation)) [
        | inl y ↦ rw y sound
        | inr n ↦ rw n (
            project_row-AreSound t g tenant id row now ks e sound (ground arith)
              (All-find (Fits g) (is_key tenant id) ks row sound.1 e).1 a row.desired_state p fs
              refl)
      ]

  pub project_one-AreSound :
      (id : Str) (ks : List Key) (p : t.Plane) (fs : Faults)
      → AreSound g ks
      → AreSound g (project_one t a tenant id now ks p fs).1
  unfolding project_one
  project_one-AreSound id ks p [] sound = project_found-AreSound id _ ks p [] refl sound
  project_one-AreSound id ks p (true ∷ fs) sound = sound
  project_one-AreSound id ks p (false ∷ fs) sound = project_found-AreSound id _ ks p fs refl sound

  project_ids-AreSound :
      (ids : List Str) (ks : List Key) (p : t.Plane) (fs : Faults)
      → AreSound g ks
      → AreSound g (project_ids t a tenant now ids ks p fs).1
  unfolding project_ids
  project_ids-AreSound [] ks p fs sound = sound
  project_ids-AreSound (id ∷ ids) ks p fs sound =
      let out = project_one t a tenant id now ks p fs in
      project_ids-AreSound ids out.1 out.2 out.3 (project_one-AreSound id ks p fs sound)

  project_dirty-AreSound :
      (by_generation : List Key → List Key) (ks : List Key)
      (r : Result ProjectError (Unit {0}) × List Str × t.Plane × Faults)
      → AreSound g ks
      → AreSound g (project_dirty t a by_generation tenant now ks r).2
  project_dirty-AreSound by_generation ks (err e, restored, p, fs) sound = sound
  project_dirty-AreSound by_generation ks (ok x, restored, p, []) sound =
      project_ids-AreSound _ ks p [] sound
  project_dirty-AreSound by_generation ks (ok x, restored, p, true ∷ fs) sound = sound
  project_dirty-AreSound by_generation ks (ok x, restored, p, false ∷ fs) sound =
      project_ids-AreSound _ ks p fs sound

  pub project_tenant-AreSound :
      (by_id by_generation : List Key → List Key) (generation : ℕ) (restored : List Str)
      (ks : List Key) (p : t.Plane) (fs : Faults)
      → AreSound g ks
      → AreSound g (project_tenant t a by_id by_generation tenant generation now restored ks p fs).2
  unfolding project_tenant
  project_tenant-AreSound by_id by_generation generation restored ks p fs sound =
      elim (Bool-cases (is_empty tenant || eqb generation 0)) [
        | inl y ↦ rw y sound
        | inr n ↦ rw n (
            project_dirty-AreSound by_generation ks
              (restore_tenant_once t a by_id tenant restored ks p fs) sound)
      ]
