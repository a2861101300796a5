-- ===== src/Virtualkey/Others.antt =====
-- internal/virtualkey: a call on one key leaves every other key as it is.
use joysteed_maa_s.Base.{
  ℕ, ◌&&◌, List, [], Option, none, some, Str, ◌==◌, ==_iff, find, find-true, find-update_where, leb,
  eqb, eqb_iff, Result, ok, err, ◌≡◌, ◌≢◌, refl, sym, subst, ◌∙◌, arith, Bool-cases, inl, inr,
  if◌then◌else◌,
}
use joysteed_maa_s.Virtualkey.{Key, DesiredState, wanted, unwanted, other, is_key}
use joysteed_maa_s.Virtualkey.Cipher.{Aead, CipherError, error_text, decrypt, associated_data}
use joysteed_maa_s.Virtualkey.Sanitized.{sanitized_error}
use joysteed_maa_s.Virtualkey.Projector.{
  Target, Projection, mark, made_active, made_revoked, made_failed, mark_failed, Outcome, upserted,
  activate, deleted, project_row, project_found, project_one, projection,
}
use joysteed_maa_s.Virtualkey.Rows.{of_id}

-- A data plane in which the calls on a key succeed and can be seen, and those on other keys do not show.
pub record Shows (t : Target) (id : Str) (view : t.Plane → Option Projection) : Type 0 where
  pub upsert-Shows :
      (x : Projection) (p : t.Plane)
      → x.id ≡ id
      → ((t.upsert x p).0 ≡ none) × (view (t.upsert x p).1 ≡ some x)
  pub delete-Shows :
      (u : Str) (p : t.Plane) → ((t.delete u id p).0 ≡ none) × (view (t.delete u id p).1 ≡ none)
  pub upsert-Other : (x : Projection) (p : t.Plane) → x.id ≢ id → view (t.upsert x p).1 ≡ view p
  pub delete-Other : (u i : Str) (p : t.Plane) → i ≢ id → view (t.delete u i p).1 ≡ view p

module _ (t : Target) (a : Aead) (tenant id : Str) (now : ℕ) (view : t.Plane → Option Projection)
    (shows : Shows t id view) where
  -- A write on the row of another id.
  mark_other :
      (r : Key) (f : Key → Key) (ks : List Key)
      → ((k : Key) → is_key tenant id (f k) ≡ is_key tenant id k)
      → r.id ≢ id
      → find (is_key tenant id) (mark r f ks) ≡ find (is_key tenant id) ks
  mark_other r f ks same away =
      find-update_where (is_key tenant id)
        (λ k. k.id == r.id && eqb k.desired_generation r.desired_generation) f ks same
      ∙ left (find (is_key tenant id) ks) refl
    where
      left :
          (o : Option Key)
          → find (is_key tenant id) ks ≡ o
          → elim o [
            | none ↦ none
            | some k ↦
                some
                  (if k.id == r.id && eqb k.desired_generation r.desired_generation then f k else k)
          ]
            ≡ o
      left none e = refl
      left (some k) e =
          let k_id : k.id ≡ id =
            (==_iff k.id id).0 (of_id tenant id k (find-true (is_key tenant id) ks k e)) in
          ground (arith, ==_iff k.id r.id)

  pub mark_own :
      (row : Key) (f : Key → Key) (ks : List Key)
      → ((k : Key) → is_key tenant id (f k) ≡ is_key tenant id k)
      → find (is_key tenant id) ks ≡ some row
      → find (is_key tenant id) (mark row f ks) ≡ some (f row)
  mark_own row f ks same e = ground (
    arith,
    find-update_where (is_key tenant id)
        (λ k. k.id == row.id && eqb k.desired_generation row.desired_generation) f ks same,
    ==_iff row.id row.id,
    eqb_iff row.desired_generation row.desired_generation,
  )

  -- What a call leaves of the key: the row and the view as they were, and no failing statement ahead.
  abbrev pub Leaves : List Key → t.Plane → Outcome t → Type 0
  Leaves ks p o =
      (find (is_key tenant id) o.1 ≡ find (is_key tenant id) ks) × (view o.2 ≡ view p) × (o.3 ≡ [])

  upserted_other :
      (r : Key) (secret : Str) (ks : List Key) (p : t.Plane) (out : Option Str × t.Plane)
      → r.id ≢ id
      → view out.1 ≡ view p
      → Leaves ks p (upserted t r secret now out ks [])
  unfolding mark_failed
  upserted_other r secret ks p (none, p') away same =
      (mark_other r (made_active r now) ks (λ k. refl) away, same, refl)
  upserted_other r secret ks p (some m, p') away same =
      (mark_other r (made_failed (sanitized_error m secret) now) ks (λ k. refl) away, same, refl)

  activate_other :
      (r : Key) (c : Result CipherError Str) (ks : List Key) (p : t.Plane)
      → r.id ≢ id
      → Leaves ks p (activate t r now c ks p [])
  unfolding mark_failed
  activate_other r (err e) ks p away = (
    mark_other r (made_failed (sanitized_error (error_text e) []) now) ks (λ k. refl) away,
    refl,
    refl,
  )
  activate_other r (ok secret) ks p away =
      upserted_other r secret ks p (t.upsert (projection r secret) p) away
        (shows.upsert-Other (projection r secret) p away)

  deleted_other :
      (r : Key) (ks : List Key) (p : t.Plane) (out : Option Str × t.Plane)
      → r.id ≢ id
      → view out.1 ≡ view p
      → Leaves ks p (deleted t r now out ks [])
  unfolding mark_failed
  deleted_other r ks p (none, p') away same =
      (mark_other r (made_revoked r now) ks (λ k. refl) away, same, refl)
  deleted_other r ks p (some m, p') away same =
      (mark_other r (made_failed (sanitized_error m []) now) ks (λ k. refl) away, same, refl)

  project_row_other :
      (r : Key) (d : DesiredState) (ks : List Key) (p : t.Plane)
      → r.id ≢ id
      → Leaves ks p (project_row t a r now d ks p [])
  project_row_other r wanted ks p away =
      activate_other r (decrypt a r.secret_ciphertext (associated_data r.tenant_id r.id)) ks p away
  project_row_other r unwanted ks p away =
      deleted_other r ks p (t.delete r.tenant_id r.id p) away
        (shows.delete-Other r.tenant_id r.id p away)
  project_row_other r (other s) ks p away = (refl, refl, refl)

  project_found_other :
      (o : Option Key) (ks : List Key) (p : t.Plane) (j : Str)
      → find (is_key tenant j) ks ≡ o
      → j ≢ id
      → Leaves ks p (project_found t a now o ks p [])
  project_found_other none ks p j e away = (refl, refl, refl)
  project_found_other (some r) ks p j e away =
      elim (Bool-cases (leb r.desired_generation r.applied_generation)) [
        | inl y ↦ rw y (refl, refl, refl)
        | inr n ↦
            let r_id : r.id ≡ j =
              (==_iff r.id j).0 (of_id tenant j r (find-true (is_key tenant j) ks r e)) in
            rw n (project_row_other r r.desired_state ks p (subst (λ i. i ≢ id) (sym r_id) away))
      ]

  pub project_one_other :
      (j : Str) (ks : List Key) (p : t.Plane)
      → j ≢ id
      → Leaves ks p (project_one t a tenant j now ks p [])
  unfolding project_one
  project_one_other j ks p away = project_found_other _ ks p j refl away
