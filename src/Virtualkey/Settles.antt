-- ===== src/Virtualkey/Settles.antt =====
-- internal/virtualkey: a pass brings a key whose work is due to its wanted state, whatever becomes of the
-- tenant's other keys.
use joysteed_maa_s.Base.{
  ℕ, ◌<◌, true, false, ◌||◌, List, [], ◌∷◌, Option, none, some, Str, ◌==◌, ==_iff, ne_of_test,
  is_empty, elem, map, any, any-map, find, find-true, select, leb, eqb, eqb_iff, ok, ◌≡◌, ◌≢◌, refl,
  sym, subst, ◌∙◌, arith, Bool-cases, inl, inr,
}
use joysteed_maa_s.Virtualkey.{Key, DesiredState, wanted, unwanted, other, is_key}
use joysteed_maa_s.Virtualkey.Cipher.{Aead, decrypt, associated_data}
use joysteed_maa_s.Virtualkey.Projector.{
  Target, Projection, made_active, made_revoked, Outcome, upserted, activate, deleted, project_row,
  project_found, project_one, project_ids, restore_tenant_once, project_tenant, projection,
  is_dirty, id_of,
}
use joysteed_maa_s.Virtualkey.Rows.{of_id}
use joysteed_maa_s.Virtualkey.Others.{Shows, mark_own, project_one_other}

-- What a pass makes of the row, and of the key in the data plane.
abbrev pub settled : DesiredState → ℕ → Key → Key
settled wanted now row = made_active row now row
settled unwanted now row = made_revoked row now row
settled (other s) now row = row

abbrev pub shown : DesiredState → Key → Str → Option Projection
shown wanted row secret = some (projection row secret)
shown unwanted row secret = none
shown (other s) row secret = none

-- The credential can be read, where the key is wanted; an unknown wish is never met.
abbrev pub IsReady : Aead → Key → Str → DesiredState → Type 0
IsReady a row secret wanted =
    decrypt a row.secret_ciphertext (associated_data row.tenant_id row.id) ≡ ok secret
IsReady a row secret unwanted = Unit
IsReady a row secret (other s) = ⊥

module _ (t : Target) (a : Aead) (tenant id : Str) (now : ℕ) (view : t.Plane → Option Projection)
    (shows : Shows t id view) where
  module _ (row : Key) (secret : Str) where
    -- The key as the pass found it, or settled and shown.
    abbrev IsSettled : List Key → t.Plane → Type 0
    IsSettled ks p =
        (find (is_key tenant id) ks ≡ some (settled row.desired_state now row))
        × (view p ≡ shown row.desired_state row secret)

    upserted_own :
        (ks : List Key) (out : Option Str × t.Plane)
        → find (is_key tenant id) ks ≡ some row
        → out.0 ≡ none
        → find (is_key tenant id) (upserted t row secret now out ks []).1
            ≡ some (made_active row now row)
          × (view (upserted t row secret now out ks []).2 ≡ view out.1)
          × ((upserted t row secret now out ks []).3 ≡ [])
    upserted_own ks (none, p) e h = (
      mark_own t a tenant id now view shows row (made_active row now) ks (λ k. refl) e,
      refl,
      refl,
    )
    upserted_own ks (some m, p) e h = absurd (ground arith)

    deleted_own :
        (ks : List Key) (out : Option Str × t.Plane)
        → find (is_key tenant id) ks ≡ some row
        → out.0 ≡ none
        → find (is_key tenant id) (deleted t row now out ks []).1 ≡ some (made_revoked row now row)
          × (view (deleted t row now out ks []).2 ≡ view out.1)
          × ((deleted t row now out ks []).3 ≡ [])
    deleted_own ks (none, p) e h = (
      mark_own t a tenant id now view shows row (made_revoked row now) ks (λ k. refl) e,
      refl,
      refl,
    )
    deleted_own ks (some m, p) e h = absurd (ground arith)

    -- What the call on the key itself leaves, by the row's wish.
    abbrev Settles : DesiredState → Outcome t → Type 0
    Settles d o =
        (find (is_key tenant id) o.1 ≡ some (settled d now row))
        × (view o.2 ≡ shown d row secret)
        × (o.3 ≡ [])

    project_row_own :
        (d : DesiredState) (ks : List Key) (p : t.Plane)
        → row.id ≡ id
        → IsReady a row secret d
        → find (is_key tenant id) ks ≡ some row
        → Settles d (project_row t a row now d ks p [])
    project_row_own wanted ks p same ready e =
        let (sent, seen) = shows.upsert-Shows (projection row secret) p same in
        let (there, left, rest) = upserted_own ks (t.upsert (projection row secret) p) e sent in
        subst (λ c. Settles wanted (activate t row now c ks p [])) (sym ready)
          (there, left ∙ seen, rest)
    project_row_own unwanted ks p same ready e =
        let (sent, seen) = shows.delete-Shows row.tenant_id p in
        let gone =
          subst
            (λ i.
              ((t.delete row.tenant_id i p).0 ≡ none)
              × (view (t.delete row.tenant_id i p).1 ≡ none))
            (sym same) (sent, seen) in
        let (there, left, rest) = deleted_own ks (t.delete row.tenant_id row.id p) e gone.0 in
        (there, left ∙ gone.1, rest)
    project_row_own (other s) ks p same ready e = absurd ready

    project_one_own :
        (ks : List Key) (p : t.Plane)
        → row.applied_generation < row.desired_generation
        → IsReady a row secret row.desired_state
        → find (is_key tenant id) ks ≡ some row
        → Settles row.desired_state (project_one t a tenant id now ks p [])
    unfolding project_one
    project_one_own ks p due ready e =
        let row_id : row.id ≡ id =
          (==_iff row.id id).0 (of_id tenant id row (find-true (is_key tenant id) ks row e)) in
        let work : leb row.desired_generation row.applied_generation ≡ false = ground arith in
        subst (λ o. Settles row.desired_state (project_found t a now o ks p [])) (sym e)
          (rw work (project_row_own row.desired_state ks p row_id ready e))

    done :
        (d : DesiredState)
        → IsReady a row secret d
        → leb (settled d now row).desired_generation (settled d now row).applied_generation ≡ true
    done wanted r = ground arith
    done unwanted r = ground arith
    done (other s) r = absurd r

    -- A second call on the settled key does nothing.
    project_one_again :
        (ks : List Key) (p : t.Plane)
        → IsReady a row secret row.desired_state
        → IsSettled ks p
        → IsSettled
            (project_one t a tenant id now ks p []).1
            (project_one t a tenant id now ks p []).2
          × ((project_one t a tenant id now ks p []).3 ≡ [])
    unfolding project_one
    project_one_again ks p ready (e, v) =
        subst
          (λ o.
            IsSettled (project_found t a now o ks p []).1 (project_found t a now o ks p []).2
            × ((project_found t a now o ks p []).3 ≡ []))
          (sym e) (rw (done row.desired_state ready) ((e, v), refl))

    project_one_done :
        (j : Str) (ks : List Key) (p : t.Plane)
        → IsReady a row secret row.desired_state
        → IsSettled ks p
        → IsSettled
            (project_one t a tenant j now ks p []).1
            (project_one t a tenant j now ks p []).2
          × ((project_one t a tenant j now ks p []).3 ≡ [])
    project_one_done j ks p ready s = elim (Bool-cases (j == id)) [
      | inl e ↦
          subst
            (λ i.
              IsSettled (project_one t a tenant i now ks p []).1
                (project_one t a tenant i now ks p []).2
              × ((project_one t a tenant i now ks p []).3 ≡ []))
            (sym ((==_iff j id).0 e)) (project_one_again ks p ready s)
      | inr n ↦
          let (rows, views, fs) =
            project_one_other t a tenant id now view shows j ks p (ne_of_test j id n) in
          ((rows ∙ s.0, views ∙ s.1), fs)
    ]

    project_ids_done :
        (ids : List Str) (ks : List Key) (p : t.Plane)
        → IsReady a row secret row.desired_state
        → IsSettled ks p
        → IsSettled
            (project_ids t a tenant now ids ks p []).1
            (project_ids t a tenant now ids ks p []).2
    unfolding project_ids
    project_ids_done [] ks p ready s = s
    project_ids_done (j ∷ ids) ks p ready s =
        let out = project_one t a tenant j now ks p [] in
        let (s', e) = project_one_done j ks p ready s in
        subst
          (λ f.
            IsSettled (project_ids t a tenant now ids out.1 out.2 f).1
              (project_ids t a tenant now ids out.1 out.2 f).2)
          (sym e) (project_ids_done ids out.1 out.2 ready s')

    due_ids :
        (ids : List Str) (ks : List Key) (p : t.Plane)
        → row.applied_generation < row.desired_generation
        → IsReady a row secret row.desired_state
        → any (λ i. i == id) ids ≡ true
        → find (is_key tenant id) ks ≡ some row
        → IsSettled
            (project_ids t a tenant now ids ks p []).1
            (project_ids t a tenant now ids ks p []).2
    unfolding project_ids
    due_ids [] ks p due ready there e = absurd (ground arith)
    due_ids (j ∷ ids) ks p due ready there e = elim (Bool-cases (j == id)) [
      | inl y ↦
          let same : id ≡ j = sym ((==_iff j id).0 y) in
          let (rows, views, fs) =
            subst (λ i. Settles row.desired_state (project_one t a tenant i now ks p [])) same
              (project_one_own ks p due ready e) in
          subst
            (λ f.
              IsSettled (project_ids t a tenant now ids out.1 out.2 f).1
                (project_ids t a tenant now ids out.1 out.2 f).2)
            (sym fs) (project_ids_done ids out.1 out.2 ready (rows, views))
      | inr n ↦
          let (rows, views, fs) =
            project_one_other t a tenant id now view shows j ks p (ne_of_test j id n) in
          subst
            (λ f.
              IsSettled (project_ids t a tenant now ids out.1 out.2 f).1
                (project_ids t a tenant now ids out.1 out.2 f).2)
            (sym fs) (due_ids ids out.1 out.2 due ready (ground arith) (rows ∙ e))
    ]
      where
        out : Outcome t
        out = project_one t a tenant j now ks p []

any_dirty :
    (tenant id : Str) (row : Key) (ks : List Key)
    → find (is_key tenant id) ks ≡ some row
    → is_dirty tenant row ≡ true
    → any (λ k. k.id == id) (select (is_dirty tenant) ks) ≡ true
any_dirty tenant id row [] e d = absurd (ground arith)
any_dirty tenant id row (k ∷ ks) e d = elim (Bool-cases (is_key tenant id k)) [
  | inl y ↦
      let same : row ≡ k = ground arith in
      rw (subst (λ r. is_dirty tenant r ≡ true) same d) (ground (arith, of_id tenant id k y))
  | inr n ↦ elim (Bool-cases (is_dirty tenant k)) [
    | inl y ↦ rw y (ground (arith, any_dirty tenant id row ks))
    | inr m ↦ rw m (any_dirty tenant id row ks (ground arith) d)
  ]
]

-- Where the tenant is restored, no statement fails and ORDER BY loses no row, a pass brings a key whose
-- work is due, and whose credential can be read if it is wanted, to its wish at the wanted generation, in
-- its row and in the data plane, if the calls on this key succeed there; whatever becomes of the other
-- keys.
pub project_tenant-settles :
    (t : Target) (a : Aead) (by_id by_generation : List Key → List Key) (tenant id : Str)
    (generation now : ℕ) (restored : List Str) (ks : List Key) (p : t.Plane) (row : Key)
    (secret : Str) (view : t.Plane → Option Projection)
    → Shows t id view
    → ((xs : List Key)
        → any (λ k. k.id == id) xs ≡ true
        → any (λ k. k.id == id) (by_generation xs) ≡ true)
    → tenant ≢ []
    → generation ≢ 0
    → elem tenant restored ≡ true
    → find (is_key tenant id) ks ≡ some row
    → row.applied_generation < row.desired_generation
    → IsReady a row secret row.desired_state
    → (find
          (is_key tenant id)
          (project_tenant t a by_id by_generation tenant generation now restored ks p []).2
        ≡ some (settled row.desired_state now row))
      × (view (project_tenant t a by_id by_generation tenant generation now restored ks p []).3
          ≡ shown row.desired_state row secret)
unfolding project_tenant restore_tenant_once
project_tenant-settles t a by_id by_generation tenant id generation now restored ks p row secret
      view shows keeps named numbered known e due ready =
    let open_pass : is_empty tenant || eqb generation 0 ≡ false =
      ground (arith, eqb_iff generation 0) in
    let listed : any (λ i. i == id) (map id_of (by_generation (select (is_dirty tenant) ks)))
        ≡ true =
      any-map (λ i. i == id) id_of (by_generation (select (is_dirty tenant) ks))
      ∙ keeps (select (is_dirty tenant) ks)
          (any_dirty tenant id row ks e (ground (arith, find-true (is_key tenant id) ks row e))) in
    rw (open_pass, known)
      (due_ids t a tenant id now view shows row secret _ ks p due ready listed e)
