-- ===== src/Sessions/Examples.antt =====
-- The sessions of internal/authn for one administrator.
use native.Mathlib.Decide.{ℕ_discrete}
use joysteed_maa_s.Base.{[], ◌∷◌, none, text, refl, ◌≢◌, str_discrete, trim_space}
use joysteed_maa_s.Rbac.{Principal, platform_admin}
use joysteed_maa_s.Portal.{SessionClaims}
use joysteed_maa_s.Sessions.{Session, Issued, authenticate, revoke_principal_tx}
use joysteed_maa_s.Sessions.Tokens.{authenticate-revoked_principal}

abbrev admin : Principal
admin = record { type = platform_admin; id = text "a"; tenant_id = [] }

abbrev other_admin : Principal
other_admin = record admin { id = text "b" }

abbrev row : Session
row = record {
  id = text "s1";
  access_token_hash = text "acc";
  csrf_token_hash = text "csrf";
  principal_type = platform_admin;
  principal_id = text "a";
  tenant_id = none;
  expires_at = 15;
  created_at = 10;
  last_authenticated = 10;
}

abbrev claims : SessionClaims
claims = record {
  session_id = text "s1";
  principal = admin;
  csrf_token_hash = text "csrf";
  expires_at = 15;
}

abbrev issued : Issued
issued = record { access = text "acc"; csrf = text "csrf"; claims = claims }

authenticate-revoked_principal_example : claims.principal ≢ other_admin
authenticate-revoked_principal_example =
    authenticate-revoked_principal (λ s. s) (text "acc") other_admin (row ∷ []) (row ∷ []) [] 14
      claims (refl, tt) (unfold revoke_principal_tx trim_space str_discrete ℕ_discrete in refl)
      (unfold authenticate trim_space str_discrete ℕ_discrete in refl)
