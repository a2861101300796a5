-- ===== src/Virtualkey/Kept.antt =====
-- internal/virtualkey: what a call of the projector keeps of a key that is not wanted.
use joysteed_maa_s.Base.{
  ℕ, true, false, ◌&&◌, List, [], ◌∷◌, Option, none, some, Str, ◌==◌, find, leb, eqb, All-find,
  ==_iff, ◌∙◌, Result, ok, err, Faults, ◌≡◌, ◌≢◌, refl, subst, arith, Bool-cases, inl, inr,
}
use joysteed_maa_s.Virtualkey.{Key, DesiredState, wanted, unwanted, other, is_key}
use joysteed_maa_s.Virtualkey.Cipher.{Aead, CipherError, error_text, decrypt, associated_data}
use joysteed_maa_s.Virtualkey.Sanitized.{sanitized_error}
use joysteed_maa_s.Virtualkey.Projector.{
  Target, Projection, ProjectError, mark, made_active, made_revoked, made_failed, mark_failed,
  Outcome, commit, upserted, activate, deleted, project_row, project_found, project_one,
  project_ids, projection,
}
use joysteed_maa_s.Virtualkey.Gone.{NotWanted, AreGone, update-AreGone}

-- What only an upsert of the key can end.
pub record Lasts (t : Target) (id : Str) (Q : t.Plane → Type 0) : Type 0 where
  pub upsert-Lasts : (x : Projection) (p : t.Plane) → x.id ≢ id → Q p → Q (t.upsert x p).1
  pub delete-Lasts : (tenant i : Str) (p : t.Plane) → Q p → Q (t.delete tenant i p).1

module _ (t : Target) (id : Str) (Q : t.Plane → Type 0) (lasts : Lasts t id Q) where
  abbrev Kept : Outcome t → Type 0
  Kept o = AreGone id o.1 × Q o.2

  commit-Kept :
      (r : Result ProjectError (Unit {0})) (write : List Key → List Key) (ks : List Key)
      (p : t.Plane) (fs : Faults)
      → AreGone id ks
      → AreGone id (write ks)
      → Q p
      → Kept (commit t r write ks p fs)
  commit-Kept r write ks p [] g h q = (h, q)
  commit-Kept r write ks p (true ∷ fs) g h q = (g, q)
  commit-Kept r write ks p (false ∷ fs) g h q = (h, q)

  mark-AreGone :
      (row : Key) (f : Key → Key) (ks : List Key)
      → ((k : Key) → (f k).id ≡ k.id)
      → ((k : Key) → (f k).desired_state ≡ k.desired_state)
      → AreGone id ks
      → AreGone id (mark row f ks)
  mark-AreGone row f ks same wish =
      update-AreGone id (λ k. k.id == row.id && eqb k.desired_generation row.desired_generation) f
        ks (λ k _. same k) (λ k _ n e. wish k ∙ n (subst (λ i. (i == id) ≡ true) (same k) e))

  upserted-Kept :
      (row : Key) (secret : Str) (now : ℕ) (a : Option Str × t.Plane) (ks : List Key) (fs : Faults)
      → AreGone id ks
      → Q a.1
      → Kept (upserted t row secret now a ks fs)
  unfolding mark_failed
  upserted-Kept row secret now (none, p) ks fs g q =
      commit-Kept _ (mark row (made_active row now)) ks p fs g
        (mark-AreGone row (made_active row now) ks (λ k. refl) (λ k. refl) g) q
  upserted-Kept row secret now (some m, p) ks fs g q =
      let f = made_failed (sanitized_error m secret) now in
      commit-Kept _ (mark row f) ks p fs g (mark-AreGone row f ks (λ k. refl) (λ k. refl) g) q

  deleted-Kept :
      (row : Key) (now : ℕ) (a : Option Str × t.Plane) (ks : List Key) (fs : Faults)
      → AreGone id ks
      → Q a.1
      → Kept (deleted t row now a ks fs)
  unfolding mark_failed
  deleted-Kept row now (none, p) ks fs g q =
      commit-Kept _ (mark row (made_revoked row now)) ks p fs g
        (mark-AreGone row (made_revoked row now) ks (λ k. refl) (λ k. refl) g) q
  deleted-Kept row now (some m, p) ks fs g q =
      let f = made_failed (sanitized_error m []) now in
      commit-Kept _ (mark row f) ks p fs g (mark-AreGone row f ks (λ k. refl) (λ k. refl) g) q

  -- A row that is wanted is another key's.
  pub elsewhere : (row : Key) → NotWanted id row → row.desired_state ≡ wanted → row.id ≢ id
  elsewhere row n w e =
      ground (arith, n (subst (λ i. (row.id == i) ≡ true) e ((==_iff row.id row.id).1 refl)))

  activate-Kept :
      (row : Key) (now : ℕ) (r : Result CipherError Str) (ks : List Key) (p : t.Plane) (fs : Faults)
      → row.id ≢ id
      → AreGone id ks
      → Q p
      → Kept (activate t row now r ks p fs)
  unfolding mark_failed
  activate-Kept row now (err e) ks p fs away g q =
      let f = made_failed (sanitized_error (error_text e) []) now in
      commit-Kept _ (mark row f) ks p fs g (mark-AreGone row f ks (λ k. refl) (λ k. refl) g) q
  activate-Kept row now (ok secret) ks p fs away g q =
      upserted-Kept row secret now (t.upsert (projection row secret) p) ks fs g
        (lasts.upsert-Lasts (projection row secret) p away q)

  project_row-Kept :
      (a : Aead) (row : Key) (now : ℕ) (d : DesiredState) (ks : List Key) (p : t.Plane)
      (fs : Faults)
      → NotWanted id row
      → row.desired_state ≡ d
      → AreGone id ks
      → Q p
      → Kept (project_row t a row now d ks p fs)
  project_row-Kept a row now wanted ks p fs n e g q =
      activate-Kept row now (decrypt a row.secret_ciphertext (associated_data row.tenant_id row.id))
        ks p fs (elsewhere row n e) g q
  project_row-Kept a row now unwanted ks p fs n e g q =
      deleted-Kept row now (t.delete row.tenant_id row.id p) ks fs g
        (lasts.delete-Lasts row.tenant_id row.id p q)
  project_row-Kept a row now (other s) ks p fs n e g q = (g, q)

  project_found-Kept :
      (a : Aead) (tenant i : Str) (now : ℕ) (o : Option Key) (ks : List Key) (p : t.Plane)
      (fs : Faults)
      → find (is_key tenant i) ks ≡ o
      → AreGone id ks
      → Q p
      → Kept (project_found t a now o ks p fs)
  project_found-Kept a tenant i now none ks p fs e g q = (g, q)
  project_found-Kept a tenant i now (some row) ks p fs e g q =
      elim (Bool-cases (leb row.desired_generation row.applied_generation)) [
        | inl y ↦ rw y (g, q)
        | inr n ↦ rw n (
            project_row-Kept a row now row.desired_state ks p fs
              (All-find (NotWanted id) (is_key tenant i) ks row g.1 e) refl g q)
      ]

  project_one-Kept :
      (a : Aead) (tenant i : Str) (now : ℕ) (ks : List Key) (p : t.Plane) (fs : Faults)
      → AreGone id ks
      → Q p
      → Kept (project_one t a tenant i now ks p fs)
  unfolding project_one
  project_one-Kept a tenant i now ks p [] g q = project_found-Kept a tenant i now _ ks p [] refl g q
  project_one-Kept a tenant i now ks p (true ∷ fs) g q = (g, q)
  project_one-Kept a tenant i now ks p (false ∷ fs) g q =
      project_found-Kept a tenant i now _ ks p fs refl g q

  pub project_ids-Kept :
      (a : Aead) (tenant : Str) (now : ℕ) (ids : List Str) (ks : List Key) (p : t.Plane)
      (fs : Faults)
      → AreGone id ks
      → Q p
      → AreGone id (project_ids t a tenant now ids ks p fs).1
        × Q (project_ids t a tenant now ids ks p fs).2
  unfolding project_ids
  project_ids-Kept a tenant now [] ks p fs g q = (g, q)
  project_ids-Kept a tenant now (i ∷ ids) ks p fs g q =
      let out = project_one t a tenant i now ks p fs in
      let (g', q') = project_one-Kept a tenant i now ks p fs g q in
      project_ids-Kept a tenant now ids out.1 out.2 out.3 g' q'
