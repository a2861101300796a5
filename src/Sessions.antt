-- ===== src/Sessions.antt =====
-- internal/authn/session.go: the table of sessions. `digest` is the text of a token's SHA-256.
pub mod Tokens
mod Examples
use joysteed_maa_s.Base.{
  ℕ, ◌+◌, Bool, true, false, not, ◌&&◌, ◌||◌, List, [], ◌∷◌, Option, some, none, Str, ◌==◌,
  trim_space, is_empty, any, find, select, update_where, leb, ltb, ℤ, pos, leb_ℤ, Result, ok, err,
  Tx, Faults, query, exec, ◌>>=◌, ◌>>◌, pure, throw, transaction, if◌then◌else◌,
}
use joysteed_maa_s.Rbac.{
  Principal, PrincipalType, same_type, valid_principal, nullable_tenant, is_tenant, is_null,
}
use joysteed_maa_s.Portal.{SessionClaims, ClaimsError, new_session_claims, valid_claims}

pub record Session : Type 0 where
  pub id : Str
  pub access_token_hash : Str
  pub csrf_token_hash : Str
  pub principal_type : PrincipalType
  pub principal_id : Str
  pub tenant_id : Option Str
  pub expires_at : ℕ
  pub created_at : ℕ
  pub last_authenticated : ℕ

pub data Error : Type 0 where
  invalid_session no_entropy database : Error

-- The primary key and the unique index on the digest refuse an insert.
abbrev pub clashes : Session → Session → Bool
clashes row s = s.id == row.id || s.access_token_hash == row.access_token_hash

abbrev insert_session : Session → Tx Error (List Session) (Unit {0})
insert_session row rows fs =
    (if any (clashes row) rows then throw database else exec database (λ ss. row ∷ ss)) rows fs

-- `NewSessionClaims` sees a principal and a lifetime that `Create` has checked, so of its errors
-- only a missing token is left.
abbrev claims_error : ClaimsError → Error
claims_error _ = no_entropy

unfoldable pub session_row : (Str → Str) → Str → SessionClaims → ℕ → Session
session_row digest access c now = record {
  id = c.session_id;
  access_token_hash = digest access;
  csrf_token_hash = c.csrf_token_hash;
  principal_type = c.principal.type;
  principal_id = c.principal.id;
  tenant_id = nullable_tenant c.principal.tenant_id;
  expires_at = c.expires_at;
  created_at = now;
  last_authenticated = now;
}

pub record Issued : Type 0 where
  pub access : Str
  pub csrf : Str
  pub claims : SessionClaims

abbrev store_claims :
    (Str → Str)
    → Str
    → ℕ
    → Result ClaimsError (SessionClaims × Str)
    → Tx Error (List Session) Issued
store_claims digest access now (err e) = throw (claims_error e)
store_claims digest access now (ok (c, csrf)) =
    insert_session (session_row digest access c now)
    >> pure (record { access = access; csrf = csrf; claims = c })

-- `id`, `access` and `csrf` are what the source of randomness gives, if it answers.
unfoldable pub create_session :
    (Str → Str)
    → (Str → Str)
    → Principal
    → ℤ
    → Option Str
    → Option Str
    → Option Str
    → ℕ
    → List Session
    → Faults
    → Result Error Issued × List Session
unfolding session_row new_session_claims valid_principal
create_session digest csrf_digest p lifetime none access csrf now rows fs = (
  if not (valid_principal p) || leb_ℤ lifetime (pos 0) then err invalid_session else err no_entropy,
  rows,
)
create_session digest csrf_digest p lifetime (some id) none csrf now rows fs = (
  if not (valid_principal p) || leb_ℤ lifetime (pos 0) then err invalid_session else err no_entropy,
  rows,
)
create_session digest csrf_digest p lifetime (some id) (some access) csrf now rows fs =
    if not (valid_principal p) || leb_ℤ lifetime (pos 0)
    then (err invalid_session, rows)
    else transaction
        (store_claims digest access now (new_session_claims csrf_digest id p lifetime csrf now))
        rows fs

abbrev pub or_no_tenant : Option Str → Str
or_no_tenant none = []
or_no_tenant (some t) = t

unfoldable pub claims_of : Session → SessionClaims
claims_of row = record {
  session_id = row.id;
  principal = record {
    type = row.principal_type;
    id = row.principal_id;
    tenant_id = or_no_tenant row.tenant_id;
  };
  csrf_token_hash = row.csrf_token_hash;
  expires_at = row.expires_at;
}

abbrev pub live : Str → ℕ → Session → Bool
live hash now s = (s.access_token_hash == hash) && ltb now s.expires_at

abbrev touch : Str → ℕ → List Session → List Session
touch id now = update_where (λ s. s.id == id) (λ s. record s { last_authenticated = now })

-- The last write's error is dropped, so a failure of it leaves the rows as they are.
abbrev stamp : Str → ℕ → List Session → Faults → List Session
stamp id now rows [] = touch id now rows
stamp id now rows (true ∷ fs) = rows
stamp id now rows (false ∷ fs) = touch id now rows

abbrev accept :
    ℕ → Option Session → List Session → Faults → Result Error SessionClaims × List Session
accept now none rows fs = (err invalid_session, rows)
accept now (some row) rows fs =
    if valid_claims (claims_of row) now
    then (ok (claims_of row), stamp row.id now rows fs)
    else (err invalid_session, rows)

unfoldable pub authenticate :
    (Str → Str) → Str → ℕ → List Session → Faults → Result Error SessionClaims × List Session
unfolding claims_of valid_claims
authenticate digest access now rows [] =
    if is_empty (trim_space access)
    then (err invalid_session, rows)
    else accept now (find (live (digest access) now) rows) rows []
authenticate digest access now rows (true ∷ fs) =
    if is_empty (trim_space access) then (err invalid_session, rows) else (err database, rows)
authenticate digest access now rows (false ∷ fs) =
    if is_empty (trim_space access)
    then (err invalid_session, rows)
    else accept now (find (live (digest access) now) rows) rows fs

unfoldable pub revoke :
    (Str → Str) → Str → List Session → Faults → Result Error (Unit {0}) × List Session
revoke digest access rows fs =
    if is_empty (trim_space access)
    then (err invalid_session, rows)
    else transaction (exec database (select (λ s. not (s.access_token_hash == digest access)))) rows
        fs

abbrev pub of_tenant : Str → Option Str → Bool
of_tenant [] tenant = is_null tenant
of_tenant (c ∷ t) tenant = is_tenant (c ∷ t) tenant

abbrev pub of_principal : Principal → Session → Bool
of_principal p s =
    same_type s.principal_type p.type
    && ((s.principal_id == p.id) && of_tenant p.tenant_id s.tenant_id)

unfoldable pub revoke_principal_tx : Principal → Tx Error (List Session) (Unit {0})
unfolding valid_principal
revoke_principal_tx p =
    if not (valid_principal p)
    then throw invalid_session
    else exec database (select (λ s. not (of_principal p s)))

unfoldable pub delete_expired : ℕ → List Session → Faults → Result Error (Unit {0}) × List Session
delete_expired now = transaction (exec database (select (λ s. not (leb s.expires_at now))))
