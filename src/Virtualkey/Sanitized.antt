-- ===== src/Virtualkey/Sanitized.antt =====
-- internal/virtualkey/projector.go: the text of a failure, as it is stored on the key's row. A message
-- is the list of its bytes, which are UTF-8, so that strings.Map by a function that moves ASCII
-- characters alone acts byte by byte.
use joysteed_maa_s.Base.{
  ℕ, zero, suc, ◌-◌, true, false, ◌||◌, [], ◌∷◌, ◌++◌, Str, text, any, eqb, is_empty, length, take,
  map, ◌≤◌, length-take-le, after_prefix, has_prefix, contains, if◌then◌else◌, ◌≡◌, ◌≢◌, refl,
  arith, All, Bool-cases, inl, inr,
}

-- `strings.ReplaceAll` by a text that is not empty: the matches from the left that do not overlap.
-- `skip` counts what is left of a match.
unfoldable pub replace_from : Str → Str → ℕ → Str → Str
replace_from old new skip [] = []
replace_from old new (suc k) (c ∷ s) = replace_from old new k s
replace_from old new zero (c ∷ s) =
    let behind = replace_from old new (length old - 1) s in
    let next = replace_from old new zero s in
    if has_prefix (c ∷ s) old then new ++ behind else c ∷ next

abbrev pub blank : ℕ → ℕ
blank c = if eqb c 10 || (eqb c 13 || eqb c 9) then 32 else c

abbrev pub redacted : Str
redacted = text "[redacted]"

abbrev pub redact : Str → Str → Str
redact secret message = if is_empty secret then message else replace_from secret redacted 0 message

unfoldable pub sanitized_error : Str → Str → Str
unfolding replace_from
sanitized_error message secret = take 500 (map blank (redact secret message))

-- A text that can stand for a credential: it starts with no byte of the replacement, and holds neither
-- its brackets nor a blank.
abbrev IsPlain : ℕ → Type 0
IsPlain c = (c ≢ 91) × (c ≢ 93) × (c ≢ 32)

abbrev pub IsCredential : Str → Type 0
IsCredential [] = ⊥
IsCredential (c ∷ s) = (any (eqb c) redacted ≡ false) × All IsPlain (c ∷ s)

-- A prefix of what is left after the replacement was a prefix before it.
replaced_prefix :
    (old s q : Str)
    → All IsPlain q
    → has_prefix (replace_from old redacted 0 s) q ≡ true
    → has_prefix s q ≡ true
unfolding replace_from has_prefix after_prefix
replaced_prefix old [] q plain h = h
replaced_prefix old (c ∷ s) [] plain h = refl
replaced_prefix old (c ∷ s) (d ∷ q) (p, plain) h = elim (Bool-cases (has_prefix (c ∷ s) old)) [
  | inl y ↦ absurd (ground arith)
  | inr n ↦ ground (arith, replaced_prefix old s q plain)
]

-- A text is not found behind bytes that do not start it.
contains_behind :
    (c : ℕ) (q new s : Str)
    → All (λ d. eqb d c ≡ false) new
    → contains s (c ∷ q) ≡ false
    → contains (new ++ s) (c ∷ q) ≡ false
unfolding contains has_prefix after_prefix
contains_behind c q [] s away h = h
contains_behind c q (d ∷ new) s (a, away) h = ground (arith, contains_behind c q new s away h)

apart : (c : ℕ) (new : Str) → any (eqb c) new ≡ false → All (λ d. eqb d c ≡ false) new
apart c [] h = tt
apart c (d ∷ new) h = (ground arith, apart c new (ground arith))

kept_prefix :
    (old : Str) (d : ℕ) (s q : Str)
    → All IsPlain q
    → has_prefix (d ∷ replace_from old redacted 0 s) q ≡ true
    → has_prefix (d ∷ s) q ≡ true
unfolding has_prefix after_prefix
kept_prefix old d s [] plain h = refl
kept_prefix old d s (e ∷ q) (p, plain) h = ground (arith, replaced_prefix old s q plain)

replaced :
    (c : ℕ) (q : Str) (skip : ℕ) (s : Str)
    → IsCredential (c ∷ q)
    → contains (replace_from (c ∷ q) redacted skip s) (c ∷ q) ≡ false
unfolding replace_from contains
replaced c q skip [] k = unfold has_prefix after_prefix in refl
replaced c q (suc n) (d ∷ s) k = replaced c q n s k
replaced c q zero (d ∷ s) k = elim (Bool-cases (has_prefix (d ∷ s) (c ∷ q))) [
  | inl y ↦ rw y (
      contains_behind c q redacted _ (apart c redacted k.0) (replaced c q (length (c ∷ q) - 1) s k))
  | inr n ↦ rw n (ground (arith, replaced c q zero s k, kept_prefix (c ∷ q) d s (c ∷ q) k.1))
]

blank_prefix :
    (s q : Str) → All IsPlain q → has_prefix (map blank s) q ≡ true → has_prefix s q ≡ true
unfolding has_prefix after_prefix
blank_prefix s [] plain h = refl
blank_prefix [] (d ∷ q) plain h = h
blank_prefix (c ∷ s) (d ∷ q) (p, plain) h = ground (arith, blank_prefix s q plain)

blank-contains :
    (s q : Str) → All IsPlain q → contains s q ≡ false → contains (map blank s) q ≡ false
unfolding contains
blank-contains [] q plain h = h
blank-contains (c ∷ s) q plain h =
    ground (arith, blank-contains s q plain, blank_prefix (c ∷ s) q plain)

take_prefix : (n : ℕ) (s q : Str) → has_prefix (take n s) q ≡ true → has_prefix s q ≡ true
unfolding has_prefix after_prefix
take_prefix n s [] h = refl
take_prefix zero s (d ∷ q) h = absurd (ground arith)
take_prefix (suc n) [] (d ∷ q) h = h
take_prefix (suc n) (c ∷ s) (d ∷ q) h = ground (arith, take_prefix n s q)

take-contains : (n : ℕ) (s q : Str) → q ≢ [] → contains s q ≡ false → contains (take n s) q ≡ false
unfolding contains
take-contains zero s [] named h = absurd (named refl)
take-contains zero s (d ∷ q) named h = unfold has_prefix after_prefix in refl
take-contains (suc n) [] q named h = h
take-contains (suc n) (c ∷ s) q named h =
    ground (arith, take-contains n s q named, take_prefix (suc n) (c ∷ s) q)

-- Where a credential starts with no byte of `[redacted]` and holds neither a bracket nor a space:
-- whatever a failed projection says, and wherever it repeats the credential, the text that is stored
-- does not hold it, and has at most 500 bytes.
pub sanitized_error-safe :
    (message secret : Str)
    → IsCredential secret
    → (contains (sanitized_error message secret) secret ≡ false)
      × (length (sanitized_error message secret) ≤ 500)
unfolding sanitized_error
sanitized_error-safe message [] k = absurd k
sanitized_error-safe message (c ∷ q) k = (
  take-contains 500 _ (c ∷ q) (λ e. ground arith)
      (blank-contains _ (c ∷ q) k.1 (replaced c q 0 message k)),
  length-take-le 500 (map blank (redact (c ∷ q) message)),
)
