-- ===== src/Tenantauth/Headers.antt =====
-- plugins/tenantauth/plugin.go: the credential of a request does not hang on the order in which Go walks
-- its map of headers.
use mathlib.Core.List.{Perm, Permᴰ}
use mathlib.Core.Logic.{∥∥₁_elim}
use joysteed_maa_s.Base.{
  subst, List, [], ◌∷◌, Option, none, some, Str, ==_iff, ◌≡◌, refl, ◌∙◌, arith,
}
use joysteed_maa_s.Tenantauth.{Library}
use joysteed_maa_s.Tenantauth.Plugin.{
  Headers, header_value, collect, credential, credential_headers,
}

module _ (k : Library) where
  header_value-swap :
      (header : Str) (seen : Option Str) (x y : Str × Str) (rest : Headers)
      → header_value k header seen (x ∷ y ∷ rest) ≡ header_value k header seen (y ∷ x ∷ rest)
  unfolding header_value
  header_value-swap header none (n, v) (m, w) rest = ground (arith, ==_iff v w, ==_iff w v)
  header_value-swap header (some u) (n, v) (m, w) rest =
      ground (arith, ==_iff u w, ==_iff u v, ==_iff v w, ==_iff w v)

  header_value_permuted :
      {hs gs : Headers} (header : Str) (seen : Option Str)
      → Permᴰ hs gs
      → header_value k header seen hs ≡ header_value k header seen gs
  unfolding header_value
  header_value_permuted header seen Permᴰ.nil = refl
  header_value_permuted header seen (Permᴰ.cons {a = a} {l₁ = hs} {l₂ = gs} e d) =
      let same = λ (o : Option Str). header_value_permuted header o d in
      subst (λ b. header_value k header seen (a ∷ hs) ≡ header_value k header seen (b ∷ gs)) e
        (rw (same seen, same (some a.1)) refl)
  header_value_permuted header seen (Permᴰ.swap {a = a} {b = b} {b' = b'} {l = l} e f) =
      subst (λ c. header_value k header seen (a ∷ b ∷ l) ≡ header_value k header seen (c ∷ b' ∷ l))
        f
        (subst
          (λ c. header_value k header seen (a ∷ b ∷ l) ≡ header_value k header seen (b ∷ c ∷ l)) e
          (header_value-swap header seen a b l))
  header_value_permuted header seen (Permᴰ.trans d e) =
      header_value_permuted header seen d ∙ header_value_permuted header seen e

  collect_permuted :
      {hs gs : Headers} (names : List Str) → Permᴰ hs gs → collect k names hs ≡ collect k names gs
  unfolding collect
  collect_permuted [] d = refl
  collect_permuted (header ∷ names) d =
      rw (header_value_permuted header none d, collect_permuted names d) refl

  credential_permuted : {hs gs : Headers} → Permᴰ hs gs → credential k hs ≡ credential k gs
  unfolding credential
  credential_permuted d = rw (collect_permuted (credential_headers k) d) refl

  -- The credential of a request is the same in whatever order its headers come.
  pub credential-perm : (hs gs : Headers) → Perm hs gs → credential k hs ≡ credential k gs
  credential-perm hs gs p = ∥∥₁_elim p (hlevel) credential_permuted
