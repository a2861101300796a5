-- ===== src/Virtualkey/Blocked.antt =====
-- internal/virtualkey: a key that cannot be restored holds up all work of its tenant.
use joysteed_maa_s.Base.{
  ℕ, Bool, true, false, ◌||◌, List, [], ◌∷◌, Option, none, some, Str, is_empty, elem, any, select,
  eqb, eqb_iff, Result, ok, err, ◌≡◌, ◌≢◌, refl, arith, Bool-cases, inl, inr,
}
use joysteed_maa_s.Virtualkey.{Key}
use joysteed_maa_s.Virtualkey.Cipher.{Aead, CipherError, decrypt, associated_data}
use joysteed_maa_s.Virtualkey.Projector.{
  Target, ProjectError, restore_failed, restored_row, restore_row, and_then, restore_rows,
  restore_done, restore_tenant_once, project_dirty, project_tenant, is_settled, projection,
}

-- The credential on the row cannot be read.
abbrev pub is_unreadable : Aead → Key → Bool
is_unreadable a k = elim (decrypt a k.secret_ciphertext (associated_data k.tenant_id k.id)) [
  | ok _ ↦ false
  | err _ ↦ true
]

module _ (t : Target) (a : Aead) where
  restored_row-error :
      (out : Option Str × t.Plane) (e : ProjectError)
      → (restored_row t out).0 ≡ err e
      → e ≡ restore_failed
  restored_row-error (none, p) e h = absurd (ground arith)
  restored_row-error (some m, p) e h = ground arith

  and_then-error :
      (o : Result ProjectError (Unit {0}) × t.Plane)
      (rest : t.Plane → Result ProjectError (Unit {0}) × t.Plane)
      → ((e : ProjectError) → o.0 ≡ err e → e ≡ restore_failed)
      → ((p : t.Plane) → (rest p).0 ≡ err restore_failed)
      → (and_then t o rest).0 ≡ err restore_failed
  and_then-error (ok x, p) rest own later = later p
  and_then-error (err e, p) rest own later = ground (arith, own e refl)

  restore_row-error :
      (row : Key) (r : Result CipherError Str) (p : t.Plane) (e : ProjectError)
      → (restore_row t row r p).0 ≡ err e
      → e ≡ restore_failed
  restore_row-error row (err c) p e h = ground arith
  restore_row-error row (ok secret) p e h =
      restored_row-error (t.upsert (projection row secret) p) e h

  unreadable :
      (row : Key) (r : Result CipherError Str) (p : t.Plane)
      (rest : t.Plane → Result ProjectError (Unit {0}) × t.Plane)
      → elim r [ ok _ ↦ false | err _ ↦ true ] ≡ true
      → (and_then t (restore_row t row r p) rest).0 ≡ err restore_failed
  unreadable row (ok secret) p rest h = absurd (ground arith)
  unreadable row (err e) p rest h = refl

  restore_rows-error :
      (rows : List Key) (p : t.Plane)
      → any (is_unreadable a) rows ≡ true
      → (restore_rows t a rows p).0 ≡ err restore_failed
  unfolding restore_rows
  restore_rows-error [] p h = absurd (ground arith)
  restore_rows-error (row ∷ rows) p h = elim (Bool-cases (is_unreadable a row)) [
    | inl y ↦
        unreadable row (decrypt a row.secret_ciphertext (associated_data row.tenant_id row.id)) p
          (λ p'. restore_rows t a rows p') y
    | inr n ↦
        and_then-error
          (restore_row t row
            (decrypt a row.secret_ciphertext (associated_data row.tenant_id row.id)) p)
          (λ p'. restore_rows t a rows p')
          (restore_row-error row
            (decrypt a row.secret_ciphertext (associated_data row.tenant_id row.id)) p)
          (λ p'. restore_rows-error rows p' (ground arith))
  ]

  module _ (by_id by_generation : List Key → List Key) (tenant : Str) (generation now : ℕ)
      (restored : List Str) (ks : List Key) where
    blocked :
        (r : Result ProjectError (Unit {0}) × t.Plane)
        → r.0 ≡ err restore_failed
        → ((project_dirty t a by_generation tenant now ks (restore_done t tenant restored r [])).0
            ≡ restore_failed ∷ [])
          × ((project_dirty t a by_generation tenant now ks (restore_done t tenant restored r [])).1
              ≡ restored)
          × ((project_dirty t a by_generation tenant now ks (restore_done t tenant restored r [])).2
              ≡ ks)
    blocked (ok x, p) h = absurd (ground arith)
    blocked (err e, p) h = (ground arith, refl, refl)

    -- Where one active key of the tenant cannot be read, a pass of a process that has not restored the
    -- tenant does nothing to any key of the tenant, revocations included, and the tenant stays to be
    -- restored, so that the next pass meets the same key.
    pub project_tenant-blocked :
        (p : t.Plane)
        → tenant ≢ []
        → generation ≢ 0
        → elem tenant restored ≡ false
        → any (is_unreadable a) (by_id (select (is_settled tenant) ks)) ≡ true
        → ((project_tenant t a by_id by_generation tenant generation now restored ks p []).0
            ≡ restore_failed ∷ [])
          × ((project_tenant t a by_id by_generation tenant generation now restored ks p []).1
              ≡ restored)
          × ((project_tenant t a by_id by_generation tenant generation now restored ks p []).2 ≡ ks)
    unfolding project_tenant restore_tenant_once
    project_tenant-blocked p named numbered fresh stuck =
        let open_pass : is_empty tenant || eqb generation 0 ≡ false =
          ground (arith, eqb_iff generation 0) in
        rw (open_pass, fresh)
          (blocked (restore_rows t a (by_id (select (is_settled tenant) ks)) p)
            (restore_rows-error (by_id (select (is_settled tenant) ks)) p stuck))
