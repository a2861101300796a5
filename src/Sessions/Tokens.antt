-- ===== src/Sessions/Tokens.antt =====
-- What an access token of internal/authn opens, and for how long.
use joysteed_maa_s.Base.{
  ℕ, ◌+◌, ◌<◌, Bool, true, false, not, List, [], ◌∷◌, some, none, Str, ◌==◌, ==_iff, trim_space,
  is_empty, find, find-true, select, All, All-find, select-All, pos, ok, Faults, ◌≡◌, refl, ◌≢◌,
  arith, Option-cases, inl, inr, ap, sym, subst, ◌∙◌,
}
use joysteed_maa_s.Rbac.{
  Principal, PrincipalType, platform_admin, tenant_user, other, same_type, nullable_tenant,
}
use joysteed_maa_s.Portal.{SessionClaims, valid_claims}
use joysteed_maa_s.Sessions.{
  Session, Issued, create_session, claims_of, live, authenticate, revoke, revoke_principal_tx,
  of_principal, of_tenant, or_no_tenant,
}

written : (t : Str) → or_no_tenant (nullable_tenant t) ≡ t
written [] = refl
written (c ∷ t) = refl

trim-empty : (s : Str) → is_empty s ≡ true → is_empty (trim_space s) ≡ true
unfolding trim_space
trim-empty [] h = refl
trim-empty (c ∷ s) h = ground arith

-- Where no statement fails, the token of a new session is answered with the session's claims until
-- the session ends.
pub authenticate-issued :
    (digest csrf_digest : Str → Str) (p : Principal) (lifetime : ℕ) (id access csrf : Str)
    (now at : ℕ) (rows rows' : List Session) (i : Issued)
    → create_session digest csrf_digest p
        (pos lifetime)
        (some id)
        (some access)
        (some csrf)
        now
        rows
        []
      ≡ (ok i, rows')
    → is_empty (trim_space access) ≡ false
    → at < now + lifetime
    → (authenticate digest access at rows' []).0 ≡ ok i.claims
unfolding create_session authenticate
authenticate-issued digest csrf_digest p lifetime id access csrf now at rows rows' i h named alive =
    ground (arith, ==_iff (digest access) (digest access), written p.tenant_id, trim-empty id)

accepted :
    (digest : Str → Str) (access : Str) (now : ℕ) (rows : List Session) (fs : Faults)
    (c : SessionClaims)
    → (authenticate digest access now rows fs).0 ≡ ok c
    → (s : Session) × (find (live (digest access) now) rows ≡ some s)
      × (claims_of s ≡ c)
      × (valid_claims c now ≡ true)
unfolding authenticate
accepted digest access now rows fs c h =
    elim (Option-cases (find (live (digest access) now) rows)) [
      | inl e ↦ absurd (refused fs e h)
      | inr (s, e) ↦ (s, e, same fs s e h, valid fs s e h)
    ]
  where
    refused :
        (fs : Faults)
        → find (live (digest access) now) rows ≡ none
        → (authenticate digest access now rows fs).0 ≢ ok c
    refused [] e h = ground arith
    refused (true ∷ fs) e h = ground arith
    refused (false ∷ fs) e h = ground arith

    same :
        (fs : Faults) (s : Session)
        → find (live (digest access) now) rows ≡ some s
        → (authenticate digest access now rows fs).0 ≡ ok c
        → claims_of s ≡ c
    same [] s e h = ground arith
    same (true ∷ fs) s e h = ground arith
    same (false ∷ fs) s e h = ground arith

    valid :
        (fs : Faults) (s : Session)
        → find (live (digest access) now) rows ≡ some s
        → (authenticate digest access now rows fs).0 ≡ ok c
        → valid_claims c now ≡ true
    valid [] s e h = ground arith
    valid (true ∷ fs) s e h = ground arith
    valid (false ∷ fs) s e h = ground arith

-- Only claims that are still valid are ever answered, and they are those of a row with the token's
-- digest.
pub authenticate-live :
    (digest : Str → Str) (access : Str) (now : ℕ) (rows : List Session) (fs : Faults)
    (c : SessionClaims)
    → (authenticate digest access now rows fs).0 ≡ ok c
    → (valid_claims c now ≡ true)
      × ((s : Session) × (find (live (digest access) now) rows ≡ some s)
          × (s.access_token_hash ≡ digest access)
          × (claims_of s ≡ c))
authenticate-live digest access now rows fs c h =
    let (s, found, same, valid) = accepted digest access now rows fs c h in
    let hit = find-true (live (digest access) now) rows s found in
    (valid, (s, found, (==_iff s.access_token_hash (digest access)).0 (ground arith), same))

find-dropped {ℓ} :
    {A : Type ℓ} (p q : A → Bool) (xs : List A) (x : A)
    → find p (select (λ y. not (q y)) xs) ≡ some x
    → q x ≡ false
find-dropped p q [] x h = ground arith
find-dropped p q (y ∷ ys) x h = ground (arith, find-dropped p q ys x)

-- A revoked token opens nothing, at no time and whatever fails.
pub authenticate-revoked :
    (digest : Str → Str) (access : Str) (rows rows' : List Session) (fs later : Faults) (now : ℕ)
    (c : SessionClaims)
    → revoke digest access rows fs ≡ (ok tt, rows')
    → (authenticate digest access now rows' later).0 ≢ ok c
unfolding revoke
authenticate-revoked digest access rows rows' fs later now c h k =
    let (s, found, same, valid) = accepted digest access now rows' later c k in
    let hit = find-true (live (digest access) now) rows' s found in
    let left = kept fs h in
    absurd (
      ground (
        arith,
        find-dropped (live (digest access) now) (λ s. s.access_token_hash == digest access) rows s
            (subst (λ ss. find (live (digest access) now) ss ≡ some s) left found),
      ))
  where
    kept :
        (fs : Faults)
        → revoke digest access rows fs ≡ (ok tt, rows')
        → rows' ≡ select (λ s. not (s.access_token_hash == digest access)) rows
    kept [] h = ground arith
    kept (true ∷ fs) h = ground arith
    kept (false ∷ fs) h = ground arith

-- The row names its tenant as `Create` does: none for an empty name.
abbrev pub IsWritten : Session → Type 0
IsWritten s = s.tenant_id ≡ nullable_tenant (or_no_tenant s.tenant_id)

same_type_refl : (t : PrincipalType) → same_type t t ≡ true
same_type_refl tenant_user = refl
same_type_refl platform_admin = refl
same_type_refl (other s) = (==_iff s s).1 refl

of_tenant_written : (t : Str) → of_tenant t (nullable_tenant t) ≡ true
of_tenant_written [] = refl
of_tenant_written (c ∷ t) = (==_iff (c ∷ t) (c ∷ t)).1 refl

owned : (s : Session) → IsWritten s → of_principal ((claims_of s).principal) s ≡ true
unfolding claims_of
owned s w = ground (
  arith,
  same_type_refl s.principal_type,
  ==_iff s.principal_id s.principal_id,
  subst (λ t. of_tenant (or_no_tenant s.tenant_id) t ≡ true) (sym w)
      (of_tenant_written (or_no_tenant s.tenant_id)),
)

-- Where the rows name their tenants as `Create` does: once a principal's sessions are revoked, no
-- token opens a session as that principal.
pub authenticate-revoked_principal :
    (digest : Str → Str) (access : Str) (p : Principal) (rows rows' : List Session) (later : Faults)
    (now : ℕ) (c : SessionClaims)
    → All IsWritten rows
    → revoke_principal_tx p rows [] ≡ ok (tt, rows', [])
    → (authenticate digest access now rows' later).0 ≡ ok c
    → c.principal ≢ p
unfolding revoke_principal_tx
authenticate-revoked_principal digest access p rows rows' later now c w h k same_principal =
    let (s, found, same, valid) = accepted digest access now rows' later c k in
    let left : rows' ≡ select (λ s. not (of_principal p s)) rows = ground arith in
    let gone : of_principal p s ≡ false =
      find-dropped (live (digest access) now) (of_principal p) rows s
        (subst (λ ss. find (live (digest access) now) ss ≡ some s) left found) in
    let shaped : IsWritten s =
      All-find IsWritten (live (digest access) now) rows' s
        (subst (λ ss. All IsWritten ss) (sym left)
          (select-All IsWritten (λ s. not (of_principal p s)) rows w))
        found in
    let mine : of_principal p s ≡ true =
      subst (λ q. of_principal q s ≡ true)
        (ap (λ (d : SessionClaims). d.principal) same ∙ same_principal) (owned s shaped) in
    absurd (ground arith)
