-- ===== src/Rbac/Matching.antt =====
-- What a granted permission of internal/rbac covers.
use joysteed_maa_s.Base.{
  true, [], ◌∷◌, ◌++◌, Str, text, ◌==◌, ==_iff, has_prefix, has_suffix, prefix_of,
  after_prefix-append, take, length, ◌-◌, reverse, ◌≡◌, refl, ◌↔◌, ◌⊎◌, inl, inr, arith, Bool-cases,
  sym, ap, ◌∙◌, subst, suc, length-append,
}
use mathlib.Core.List.{reverse-append, reverse-reverse}
use joysteed_maa_s.Rbac.{permission_matches}

has_prefix-append : (p r : Str) → has_prefix (p ++ r) p ≡ true
unfolding has_prefix
has_prefix-append p r = rw (after_prefix-append p r)

suffix_of : (s t : Str) → has_suffix s t ≡ true → (p : Str) × (s ≡ p ++ t)
unfolding has_suffix
suffix_of s t h =
    let (r, e) = prefix_of (reverse s) (reverse t) h in
    (
      reverse r,
      sym (reverse-reverse s)
          ∙ (ap reverse e
              ∙ (reverse-append (reverse t) r
                  ∙ ap (λ (u : Str). reverse r ++ u) (reverse-reverse t))),
    )

has_suffix-append : (p t : Str) → has_suffix (p ++ t) t ≡ true
unfolding has_suffix
has_suffix-append p t = rw (reverse-append p t) (has_prefix-append (reverse t) (reverse p))

-- A pattern less its star.
front : (p : Str) → take (suc (length p)) (p ++ text ".*") ≡ p ++ text "."
front [] = refl
front (c ∷ p) = ap (λ (u : Str). c ∷ u) (front p)

stem : (p : Str) → take (length (p ++ text ".*") - 1) (p ++ text ".*") ≡ p ++ text "."
stem p =
    let size : length (p ++ text ".*") - 1 ≡ suc (length p) =
      omega (arith, length-append p (text ".*")) in
    rw size (front p)

abbrev Below : Str → Str → Type 0
Below granted wanted =
    (p : Str) × (s : Str) × (granted ≡ p ++ text ".*") × (wanted ≡ (p ++ text ".") ++ s)

below : (g w : Str) → permission_matches g w ≡ true → (g ≡ w) ⊎ Below g w
unfolding permission_matches
below g w h = elim (Bool-cases (g == w)) [
  | inl e ↦ inl ((==_iff g w).0 e)
  | inr e ↦
      let starred : has_suffix g (text ".*") ≡ true = ground arith in
      let (p, shape) = suffix_of g (text ".*") starred in
      let fits : has_prefix w (take (length g - 1) g) ≡ true = ground arith in
      let (s, rest) = prefix_of w (p ++ text ".") (
        subst (λ t. has_prefix w t ≡ true) (ap (λ (u : Str). take (length u - 1) u) shape ∙ stem p)
          fits) in
      inr (p, s, shape, rest)
]

matched : (g w : Str) → (g ≡ w) ⊎ Below g w → permission_matches g w ≡ true
unfolding permission_matches
matched g w (inl e) = rw ((==_iff g w).1 e)
matched g w (inr (p, s, shape, rest)) =
    let starred : has_suffix g (text ".*") ≡ true = rw shape (has_suffix-append p (text ".*")) in
    let fits : has_prefix w (take (length g - 1) g) ≡ true =
      rw (shape, stem p, rest) (has_prefix-append (p ++ text ".") s) in
    ground arith

-- A granted permission covers a wanted one exactly when the two are equal, or the granted one ends
-- in `.*` and the wanted one starts with all of it but the star.
pub permission_matches_lem :
    (granted wanted : Str)
    → (permission_matches granted wanted ≡ true) ↔ (
        (granted ≡ wanted)
        ⊎ ((p : Str) × (s : Str) × (granted ≡ p ++ text ".*") × (wanted ≡ (p ++ text ".") ++ s)))
permission_matches_lem g w = (below g w, matched g w)
