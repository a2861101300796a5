-- ===== src/Audit/Filed.antt =====
-- internal/audit/audit.go: which tenant reads an entry, and what stands in it.
use joysteed_maa_s.Base.{
  ℕ, true, false, not, ◌&&◌, List, ◌∷◌, Option, none, some, Str, ◌==◌, ==_iff, is_empty, any,
  select, ok, Faults, throw, query_step, guard_step, bind_step, ◌≡◌, ◌≢◌, refl, sym, ◌∙◌, ap, arith,
  Bool-cases, inl, inr, if◌then◌else◌,
}
use joysteed_maa_s.Rbac.{Principal, tenant_user, valid_principal}
use joysteed_maa_s.Audit.{
  Entry, Input, Error, invalid_entry, redact_failed, id_failed, database, Library, redact_snapshot,
  or_else, is_invalid, scope_tenant, insert_entry, entry, append_tx, filed_under, tenant_ptr,
}

or_else_ok :
    (e : Error) (o : Option Str) (s s' : List Entry) (fs fs' : Faults) (x : Str)
    → or_else e o s fs ≡ ok (x, s', fs')
    → (o ≡ some x) × (s' ≡ s)
or_else_ok e none s s' fs fs' x h = absurd (ground arith)
or_else_ok e (some y) s s' fs fs' x h = (ground arith, ground arith)

insert_entry_ok :
    (e f : Entry) (s s' : List Entry) (fs fs' : Faults)
    → insert_entry e s fs ≡ ok (f, s', fs')
    → (f ≡ e) × (s' ≡ e ∷ s)
insert_entry_ok e f s s' fs fs' h =
    query_step database (any (λ q. q.id == e.id))
      (λ taken. if taken then throw database else (λ s fs. ok (e, e ∷ s, fs))) s fs (f, s', fs') h
      λ gs h. elim (Bool-cases (any (λ q. q.id == e.id) s)) [
        | inl y ↦ absurd (ground arith)
        | inr n ↦ (ground arith, ground arith)
      ]

scope_tenant_ok :
    (x : Input) (s s' : List Entry) (fs fs' : Faults) (tenant : Str)
    → scope_tenant x s fs ≡ ok (tenant, s', fs')
    → x.principal.type ≡ tenant_user
    → tenant ≡ x.principal.tenant_id
unfolding scope_tenant
scope_tenant_ok x s s' fs fs' tenant h user =
    elim (Bool-cases (not (is_empty x.tenant_id) && not (x.tenant_id == x.principal.tenant_id))) [
      | inl y ↦ absurd (ground arith)
      | inr n ↦ ground arith
    ]

scope_tenant_kept :
    (x : Input) (s s' : List Entry) (fs fs' : Faults) (tenant : Str)
    → scope_tenant x s fs ≡ ok (tenant, s', fs')
    → s' ≡ s
unfolding scope_tenant
scope_tenant_kept x s s' fs fs' tenant h = ground arith

-- What an appended entry says of the input.
abbrev pub Records : Library → Input → Entry → Type 0
Records k x e =
    (redact_snapshot k x.before ≡ some e.before_json)
    × (redact_snapshot k x.after ≡ some e.after_json)
    × (e.principal_type ≡ x.principal.type)
    × (e.principal_id ≡ x.principal.id)

appended :
    (k : Library) (x : Input) (draw : Option Str) (now : ℕ) (s s' : List Entry) (fs fs' : Faults)
    (e : Entry)
    → append_tx k x draw now s fs ≡ ok (e, s', fs')
    → x.principal.type ≡ tenant_user
    → (is_invalid x ≡ false)
      × (s' ≡ e ∷ s)
      × (e.tenant_id ≡ tenant_ptr x.principal.tenant_id)
      × Records k x e
unfolding append_tx
appended k x draw now s s' fs fs' e h user =
    guard_step (is_invalid x) invalid_entry _ s fs (e, s', fs') h
      λ valid h.
        bind_step (scope_tenant x) _ s fs (e, s', fs') h
          λ tenant s1 f1 a h.
            bind_step (or_else redact_failed (redact_snapshot k x.before)) _ s1 f1 (e, s', fs') h
              λ before s2 f2 b h.
                bind_step (or_else redact_failed (redact_snapshot k x.after)) _ s2 f2 (e, s', fs') h
                  λ after s3 f3 c h.
                    bind_step (or_else id_failed draw)
                      (λ id. insert_entry (entry x tenant before after id now)) s3 f3 (e, s', fs') h
                      λ id s4 f4 d h.
                        let (was, kept) = or_else_ok redact_failed _ s1 s2 f1 f2 before b in
                        let (is, kept') = or_else_ok redact_failed _ s2 s3 f2 f3 after c in
                        let (drawn, kept'') = or_else_ok id_failed _ s3 s4 f3 f4 id d in
                        let (same, grown) = insert_entry_ok _ e s4 s' f4 fs' h in
                        let start : s4 ≡ s =
                          kept'' ∙ kept' ∙ kept ∙ scope_tenant_kept x s s1 fs f1 tenant a in
                        (
                          valid,
                          grown ∙ ap (λ q. q ∷ s4) (sym same) ∙ ap (λ q. e ∷ q) start,
                          ap (λ q. q.tenant_id) same
                              ∙ ap tenant_ptr (scope_tenant_ok x s s1 fs f1 tenant a user),
                          (
                            was ∙ ap (λ q. some q.before_json) (sym same),
                            is ∙ ap (λ q. some q.after_json) (sym same),
                            ap (λ q. q.principal_type) same,
                            ap (λ q. q.principal_id) same,
                          ),
                        )

user_named :
    (p : Principal) → valid_principal p ≡ true → p.type ≡ tenant_user → is_empty p.tenant_id ≡ false
unfolding valid_principal
user_named p valid user = ground arith

test_of_ne : (a b : Str) → a ≢ b → (a == b) ≡ false
test_of_ne a b h = elim (Bool-cases (a == b)) [ inl y ↦ absurd (h ((==_iff a b).0 y)) | inr n ↦ n ]

filed_there :
    (e : Entry) (tenant : Str)
    → e.tenant_id ≡ some tenant
    → (u : Str) → filed_under u e ≡ (tenant == u)
filed_there e tenant h u = rw h refl

-- What a tenant's user did is appended, with its snapshots redacted, as one entry of the user's own
-- tenant, which its list then shows; what any other tenant is shown stays as it was.
pub append_tx-filed :
    (k : Library) (x : Input) (draw : Option Str) (now : ℕ) (s s' : List Entry) (fs fs' : Faults)
    (e : Entry)
    → append_tx k x draw now s fs ≡ ok (e, s', fs')
    → x.principal.type ≡ tenant_user
    → Records k x e
      × (select (filed_under x.principal.tenant_id) s'
          ≡ e ∷ select (filed_under x.principal.tenant_id) s)
      × ((u : Str)
          → u ≢ x.principal.tenant_id
          → select (filed_under u) s' ≡ select (filed_under u) s)
append_tx-filed k x draw now s s' fs fs' e h user =
    let (valid, grown, filed, records) = appended k x draw now s s' fs fs' e h user in
    let named = user_named x.principal (ground arith) user in
    let there = filed_there e x.principal.tenant_id (filed ∙ rw named refl) in
    let own : filed_under x.principal.tenant_id e ≡ true =
      there x.principal.tenant_id ∙ (==_iff _ _).1 refl in
    (
      records,
      rw grown (rw own refl),
      λ u other.
          let elsewhere : filed_under u e ≡ false =
            there u ∙ test_of_ne x.principal.tenant_id u (λ h. other (sym h)) in
          rw grown (rw elsewhere refl),
    )
