-- ===== src/Base/Text.antt =====
-- Go strings as lists of code points (the source's strings are UTF-8), and the functions of the
-- package strings that the source calls.
use Prim.Native.Char.{code}
use Prim.Native.String.{String}
use Prim.Native.Nat.{ℕ, ◌+◌}
use mathlib.Core.Path.{◌≡◌, refl}
use mathlib.Core.Bool.{Bool, true, false, ◌&&◌, ◌||◌}
use mathlib.Core.Logic.{◌↔◌, ◌≢◌, inl, inr}
use mathlib.Core.Option.{Option, none, some}
use mathlib.Core.List.{List, [], ◌∷◌, ◌++◌, reverse}
use native.Mathlib.Omega.{arith}
use native.Mathlib.Decide.{ℕ_discrete}
use joysteed_maa_s.Base.Tests.{Option-cases, leb, ltb, eqb, if◌then◌else◌}
use joysteed_maa_s.Base.Lists.{any}

abbrev pub Str : Type 0
Str = List ℕ

-- A literal of the source.
abbrev pub text : String → Str
text String.[] = []
text (String.◌∷◌ c s) = code c ∷ text s

unfoldable pub str_discrete : Discrete Str
str_discrete = hlevel ℕ_discrete

infix 50 ◌==◌
abbrev pub ◌==◌ : Str → Str → Bool
a == b = elim (str_discrete a b) [ yes _ ↦ true | no _ ↦ false ]

pub ==_iff : (a b : Str) → ((a == b) ≡ true) ↔ (a ≡ b)
==_iff a b = ground arith

pub ne_of_test : (a b : Str) → (a == b) ≡ false → a ≢ b
ne_of_test a b h = ground arith

-- Whether a text stands in a list of texts.
abbrev pub elem : Str → List Str → Bool
elem a = any (λ b. b == a)

-- `unicode.IsSpace`.
abbrev pub is_space : ℕ → Bool
is_space c =
    (leb 9 c && leb c 13)
    || (eqb c 32
        || (eqb c 0x85
            || (eqb c 0xa0
                || (eqb c 0x1680
                    || ((leb 0x2000 c && leb c 0x200a)
                        || (eqb c 0x2028
                            || (eqb c 0x2029
                                || (eqb c 0x202f || (eqb c 0x205f || eqb c 0x3000)))))))))

unfoldable pub trim_left : Str → Str
trim_left [] = []
trim_left (c ∷ s) = let rest = trim_left s in if is_space c then rest else c ∷ s

-- `strings.TrimSpace`.
unfoldable pub trim_space : Str → Str
unfolding trim_left
trim_space s = reverse (trim_left (reverse (trim_left s)))

abbrev pub is_empty : Str → Bool
is_empty [] = true
is_empty (_ ∷ _) = false

-- `strings.HasPrefix` and what is left behind the prefix.
unfoldable pub after_prefix : Str → Str → Option Str
after_prefix s [] = some s
after_prefix [] (p ∷ ps) = none
after_prefix (c ∷ s) (p ∷ ps) = let rest = after_prefix s ps in if eqb c p then rest else none

abbrev is_some {ℓ} : {A : Type ℓ} → Option A → Bool
is_some none = false
is_some (some _) = true

unfoldable pub has_prefix : Str → Str → Bool
unfolding after_prefix
has_prefix s p = is_some (after_prefix s p)

unfoldable pub has_suffix : Str → Str → Bool
unfolding has_prefix
has_suffix s p = has_prefix (reverse s) (reverse p)

-- `strings.Contains`.
unfoldable pub contains : Str → Str → Bool
unfolding has_prefix
contains [] p = has_prefix [] p
contains (c ∷ s) p = let rest = contains s p in if has_prefix (c ∷ s) p then true else rest

-- The text before and behind the first `b`: `strings.IndexByte` as the source uses it.
unfoldable pub cut : ℕ → Str → Option (Str × Str)
cut b [] = none
cut b (c ∷ s) =
    let rest = cut b s in
    if eqb c b then some ([], s) else elim rest [ none ↦ none | some (l, r) ↦ some (c ∷ l, r) ]

-- `len` of a string, which counts the bytes of its UTF-8.
abbrev bytes : ℕ → ℕ
bytes c = if ltb c 0x80 then 1 else (if ltb c 0x800 then 2 else (if ltb c 0x10000 then 3 else 4))

unfoldable pub byte_length : Str → ℕ
byte_length [] = 0
byte_length (c ∷ s) = bytes c + byte_length s

-- `strings.ContainsAny`.
abbrev pub contains_any : Str → Str → Bool
contains_any s cs = any (λ c. any (λ d. eqb c d) cs) s

pub after_prefix-append : (p s : Str) → after_prefix (p ++ s) p ≡ some s
unfolding after_prefix
after_prefix-append [] s = refl
after_prefix-append (c ∷ p) s = ground (arith, after_prefix-append p s)

pub after_prefix-eq : (s p r : Str) → after_prefix s p ≡ some r → s ≡ p ++ r
unfolding after_prefix
after_prefix-eq s [] r h = ground arith
after_prefix-eq [] (p ∷ ps) r h = ground arith
after_prefix-eq (c ∷ s) (p ∷ ps) r h = ground (arith, after_prefix-eq s ps r)

-- A text with a prefix is the prefix and a rest.
pub prefix_of : (s p : Str) → has_prefix s p ≡ true → (r : Str) × (s ≡ p ++ r)
unfolding has_prefix
prefix_of s p h = elim (Option-cases (after_prefix s p)) [
  | inl e ↦ absurd (ground arith)
  | inr (r, e) ↦ (r, after_prefix-eq s p r e)
]

pub cut-eq : (b : ℕ) (s l r : Str) → cut b s ≡ some (l, r) → s ≡ l ++ b ∷ r
unfolding cut
cut-eq b [] l r h = ground arith
cut-eq b (c ∷ s) [] r h = ground arith
cut-eq b (c ∷ s) (x ∷ l) r h = ground (arith, cut-eq b s l r)

trim_example : trim_space (text "  a b ") ≡ text "a b"
unfolding trim_space
trim_example = refl

eq_example : (text "platform_admin" == text "platform_admin") ≡ true
unfolding str_discrete ℕ_discrete
eq_example = refl
