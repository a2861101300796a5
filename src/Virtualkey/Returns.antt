-- ===== src/Virtualkey/Returns.antt =====
-- internal/virtualkey: what the passes do to the data plane once a key is revoked.
use joysteed_maa_s.Base.{
  ℕ, true, false, ◌||◌, List, [], ◌∷◌, Option, none, some, Str, is_empty, elem, select, eqb, All,
  Result, ok, err, Faults, transaction_keeps, ◌≡◌, ◌≢◌, arith, Bool-cases, inl, inr,
}
use joysteed_maa_s.Virtualkey.{Key, wanted, create_tx, revoke_tx, retry_tx}
use joysteed_maa_s.Virtualkey.Cipher.{Aead, CipherError, decrypt, associated_data}
use joysteed_maa_s.Virtualkey.Projector.{
  Target, ProjectError, restored_row, restore_row, and_then, restore_rows, restore_done,
  restore_tenant_once, project_dirty, project_tenant, projection, is_settled, Pass,
}
use joysteed_maa_s.Virtualkey.History.{Call, creates, revokes, retries, passes, World, step, run}
use joysteed_maa_s.Virtualkey.Gone.{
  NotWanted, AreGone, create_tx-AreGone, revoke_tx-AreGone, retry_tx-AreGone,
}
use joysteed_maa_s.Virtualkey.Kept.{Lasts, elsewhere, project_ids-Kept}

-- An order that returns rows of the list that it is given.
abbrev pub IsOrder : (List Key → List Key) → Type 1
IsOrder order = (P : Key → Type 0) (ks : List Key) → All P ks → All P (order ks)

settled_wanted : (tenant : Str) (k : Key) → is_settled tenant k ≡ true → k.desired_state ≡ wanted
settled_wanted tenant k h = ground arith

module _ (t : Target) (id : Str) (Q : t.Plane → Type 0) (lasts : Lasts t id Q) where
  restored_row-Kept : (out : Option Str × t.Plane) → Q out.1 → Q (restored_row t out).1
  restored_row-Kept (none, p) q = q
  restored_row-Kept (some m, p) q = q

  restore_row-Kept :
      (row : Key) (r : Result CipherError Str) (p : t.Plane)
      → row.id ≢ id
      → Q p
      → Q (restore_row t row r p).1
  restore_row-Kept row (err e) p away q = q
  restore_row-Kept row (ok secret) p away q =
      restored_row-Kept (t.upsert (projection row secret) p)
        (lasts.upsert-Lasts (projection row secret) p away q)

  and_then-Kept :
      (o : Result ProjectError (Unit {0}) × t.Plane)
      (rest : t.Plane → Result ProjectError (Unit {0}) × t.Plane)
      → Q o.1
      → ((p : t.Plane) → Q p → Q (rest p).1)
      → Q (and_then t o rest).1
  and_then-Kept (ok x, p) rest q keep = keep p q
  and_then-Kept (err e, p) rest q keep = q

  restore_rows-Kept :
      (a : Aead) (rows : List Key) (p : t.Plane)
      → All (λ k. k.id ≢ id) rows
      → Q p
      → Q (restore_rows t a rows p).1
  unfolding restore_rows
  restore_rows-Kept a [] p away q = q
  restore_rows-Kept a (row ∷ rows) p (n, away) q =
      and_then-Kept
        (restore_row t row (decrypt a row.secret_ciphertext (associated_data row.tenant_id row.id))
          p)
        (λ p'. restore_rows t a rows p')
        (restore_row-Kept row
          (decrypt a row.secret_ciphertext (associated_data row.tenant_id row.id)) p n q)
        (λ p' q'. restore_rows-Kept a rows p' away q')

  settled_away :
      (tenant : Str) (ks : List Key)
      → All (NotWanted id) ks
      → All (λ k. k.id ≢ id) (select (is_settled tenant) ks)
  settled_away tenant [] h = tt
  settled_away tenant (k ∷ ks) (n, h) = elim (Bool-cases (is_settled tenant k)) [
    | inl y ↦
        rw y (elsewhere t id Q lasts k n (settled_wanted tenant k y), settled_away tenant ks h)
    | inr e ↦ rw e (settled_away tenant ks h)
  ]

  restore_done-Kept :
      (tenant : Str) (restored : List Str) (r : Result ProjectError (Unit {0}) × t.Plane)
      (fs : Faults)
      → Q r.1
      → Q (restore_done t tenant restored r fs).2
  restore_done-Kept tenant restored (ok x, p) fs q = q
  restore_done-Kept tenant restored (err e, p) fs q = q

  module _ (a : Aead) (by_id by_generation : List Key → List Key)
      (by_id-IsOrder : IsOrder by_id) where
    restore_tenant_once-Kept :
        (tenant : Str) (restored : List Str) (ks : List Key) (p : t.Plane) (fs : Faults)
        → AreGone id ks
        → Q p
        → Q (restore_tenant_once t a by_id tenant restored ks p fs).2
    unfolding restore_tenant_once
    restore_tenant_once-Kept tenant restored ks p [] g q =
        elim (Bool-cases (elem tenant restored)) [
          | inl y ↦ rw y q
          | inr n ↦ rw n (
              restore_done-Kept tenant restored
                (restore_rows t a (by_id (select (is_settled tenant) ks)) p) []
                (restore_rows-Kept a (by_id (select (is_settled tenant) ks)) p
                  (by_id-IsOrder (λ k. k.id ≢ id) _ (settled_away tenant ks g.1)) q))
        ]
    restore_tenant_once-Kept tenant restored ks p (true ∷ fs) g q =
        elim (Bool-cases (elem tenant restored)) [ inl y ↦ rw y q | inr n ↦ rw n q ]
    restore_tenant_once-Kept tenant restored ks p (false ∷ fs) g q =
        elim (Bool-cases (elem tenant restored)) [
          | inl y ↦ rw y q
          | inr n ↦ rw n (
              restore_done-Kept tenant restored
                (restore_rows t a (by_id (select (is_settled tenant) ks)) p) fs
                (restore_rows-Kept a (by_id (select (is_settled tenant) ks)) p
                  (by_id-IsOrder (λ k. k.id ≢ id) _ (settled_away tenant ks g.1)) q))
        ]

    -- The keys and the plane of a pass.
    abbrev PassKept : Pass t → Type 0
    PassKept o = AreGone id o.2 × Q o.3

    project_dirty-Kept :
        (tenant : Str) (now : ℕ) (ks : List Key)
        (r : Result ProjectError (Unit {0}) × List Str × t.Plane × Faults)
        → AreGone id ks
        → Q r.2
        → PassKept (project_dirty t a by_generation tenant now ks r)
    project_dirty-Kept tenant now ks (err e, restored, p, fs) g q = (g, q)
    project_dirty-Kept tenant now ks (ok x, restored, p, []) g q =
        project_ids-Kept t id Q lasts a tenant now _ ks p [] g q
    project_dirty-Kept tenant now ks (ok x, restored, p, true ∷ fs) g q = (g, q)
    project_dirty-Kept tenant now ks (ok x, restored, p, false ∷ fs) g q =
        project_ids-Kept t id Q lasts a tenant now _ ks p fs g q

    project_tenant-Kept :
        (tenant : Str) (generation now : ℕ) (restored : List Str) (ks : List Key) (p : t.Plane)
        (fs : Faults)
        → AreGone id ks
        → Q p
        → PassKept (project_tenant t a by_id by_generation tenant generation now restored ks p fs)
    unfolding project_tenant
    project_tenant-Kept tenant generation now restored ks p fs g q =
        elim (Bool-cases (is_empty tenant || eqb generation 0)) [
          | inl y ↦ rw y (g, q)
          | inr n ↦ rw n (
              project_dirty-Kept tenant now ks
                (restore_tenant_once t a by_id tenant restored ks p fs) g
                (restore_tenant_once-Kept tenant restored ks p fs g q))
        ]

    step-Kept :
        (digest : Str → Str) (now : ℕ) (fs : Faults) (c : Call) (w : World t)
        → AreGone id w.tables.keys
        → Q w.plane
        → AreGone id (step t a digest by_id by_generation now fs c w).tables.keys
          × Q (step t a digest by_id by_generation now fs c w).plane
    step-Kept digest now fs (creates tenant name drawn) w g q = (
      transaction_keeps (λ s. AreGone id s.keys) (create_tx a digest tenant name drawn now) w.tables
          fs
          (λ x s' fs' e.
            create_tx-AreGone id a digest tenant name drawn now w.tables s' fs fs' x g e)
          g,
      q,
    )
    step-Kept digest now fs (revokes tenant i) w g q = (
      transaction_keeps (λ s. AreGone id s.keys) (revoke_tx tenant i now) w.tables fs
          (λ x s' fs' e. revoke_tx-AreGone id tenant i now w.tables s' fs fs' x g e) g,
      q,
    )
    step-Kept digest now fs (retries tenant i) w g q = (
      transaction_keeps (λ s. AreGone id s.keys) (retry_tx tenant i now) w.tables fs
          (λ x s' fs' e. retry_tx-AreGone id tenant i now w.tables s' fs fs' x g e) g,
      q,
    )
    step-Kept digest now fs (passes tenant generation) w g q =
        project_tenant-Kept tenant generation now w.restored w.tables.keys w.plane fs g q

    pub run-Kept :
        (digest : Str → Str) (w : World t) (cs : List (ℕ × Faults × Call))
        → AreGone id w.tables.keys
        → Q w.plane
        → AreGone id (run t a digest by_id by_generation w cs).tables.keys
          × Q (run t a digest by_id by_generation w cs).plane
    unfolding run
    run-Kept digest w [] g q = (g, q)
    run-Kept digest w ((now, fs, c) ∷ cs) g q =
        let (g', q') = step-Kept digest now fs c w g q in
        run-Kept digest (step t a digest by_id by_generation now fs c w) cs g' q'
