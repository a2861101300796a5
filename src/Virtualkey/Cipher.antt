-- ===== src/Virtualkey/Cipher.antt =====
-- internal/virtualkey/cipher.go: the recoverable copy of a credential, sealed with the tenant and the
-- key that it belongs to. AES-GCM and base64 are the standard library's: a parameter.
use native.Mathlib.Decide.{ℕ_discrete}
use joysteed_maa_s.Base.{
  ℕ, not, [], ◌∷◌, ◌++◌, Option, none, some, Str, text, ◌==◌, str_discrete, is_empty, cut, ltb,
  length, take, drop, Result, ok, err, if◌then◌else◌, ◌≡◌, ◌≢◌, refl, ap, ◌∙◌, arith, All,
  length-append,
}

-- `seal` and `open_sealed` take the nonce, the text and the associated data; texts are bytes here.
pub record Aead : Type 0 where
  pub nonce_size : ℕ
  pub seal : Str → Str → Str → Str
  pub open_sealed : Str → Str → Str → Option Str
  pub encode : Str → Str
  pub decode : Str → Option Str

-- What the standard library says of them: opening what was sealed, with the same nonce and associated
-- data, gives the text back, and decoding what was encoded gives the bytes back.
pub record IsAead (a : Aead) : Type 0 where
  pub open-seal :
      (nonce plain ad : Str) → a.open_sealed nonce (a.seal nonce plain ad) ad ≡ some plain
  pub decode-encode : (bytes : Str) → a.decode (a.encode bytes) ≡ some bytes

pub data CipherError : Type 0 where
  plaintext_required no_nonce unsupported_version invalid_ciphertext not_authentic : CipherError

pub error_text : CipherError → Str
error_text plaintext_required = text "virtualkey: plaintext is required"
error_text no_nonce = text "virtualkey: generate nonce"
error_text unsupported_version = text "virtualkey: unsupported ciphertext version"
error_text invalid_ciphertext = text "virtualkey: invalid ciphertext"
error_text not_authentic = text "virtualkey: ciphertext authentication failed"

abbrev version : Str
version = text "v1"

-- `nonce` is what the source of randomness gives, if it answers.
unfoldable pub encrypt : Aead → Option Str → Str → Str → Result CipherError Str
encrypt a none plaintext ad = if is_empty plaintext then err plaintext_required else err no_nonce
encrypt a (some nonce) plaintext ad =
    if is_empty plaintext
    then err plaintext_required
    else ok (version ++ (58 ∷ a.encode (nonce ++ a.seal nonce plaintext ad)))

abbrev opened : Option Str → Result CipherError Str
opened none = err not_authentic
opened (some plain) = ok plain

abbrev unsealed : Aead → Str → Option Str → Result CipherError Str
unsealed a ad none = err invalid_ciphertext
unsealed a ad (some sealed) =
    if ltb (length sealed) a.nonce_size
    then err invalid_ciphertext
    else opened (a.open_sealed (take a.nonce_size sealed) (drop a.nonce_size sealed) ad)

abbrev parted : Aead → Str → Option (Str × Str) → Result CipherError Str
parted a ad none = err unsupported_version
parted a ad (some (v, encoded)) =
    if not (v == version) then err unsupported_version else unsealed a ad (a.decode encoded)

unfoldable pub decrypt : Aead → Str → Str → Result CipherError Str
unfolding cut
decrypt a value ad = parted a ad (cut 58 value)

unfoldable pub associated_data : Str → Str → Str
associated_data tenant key = tenant ++ (0 ∷ key)

take-append : (s t : Str) → take (length s) (s ++ t) ≡ s
take-append [] t = refl
take-append (c ∷ s) t = ap (λ r. c ∷ r) (take-append s t)

drop-append : (s t : Str) → drop (length s) (s ++ t) ≡ t
drop-append [] t = refl
drop-append (c ∷ s) t = drop-append s t

opens :
    (a : Aead) (nonce plaintext ad : Str)
    → IsAead a
    → length nonce ≡ a.nonce_size
    → unsealed a ad (some (nonce ++ a.seal nonce plaintext ad)) ≡ ok plaintext
opens a nonce plaintext ad laws size =
    let sealed = a.seal nonce plaintext ad in
    ground (
      arith,
      length-append nonce sealed,
      ap (λ n. take n (nonce ++ sealed)) size,
      ap (λ n. drop n (nonce ++ sealed)) size,
      take-append nonce sealed,
      drop-append nonce sealed,
      laws.open-seal nonce plaintext ad,
    )

decrypt_written :
    (a : Aead) (nonce plaintext ad : Str)
    → IsAead a
    → length nonce ≡ a.nonce_size
    → decrypt a (version ++ (58 ∷ a.encode (nonce ++ a.seal nonce plaintext ad))) ad ≡ ok plaintext
unfolding decrypt cut str_discrete ℕ_discrete
decrypt_written a nonce plaintext ad laws size =
    ap (unsealed a ad) (laws.decode-encode (nonce ++ a.seal nonce plaintext ad))
    ∙ opens a nonce plaintext ad laws size

-- Where the cipher and the encoding keep their laws: a credential that was sealed under some associated
-- data is what opening it under the same gives, for every nonce of the cipher's size.
pub decrypt-encrypt :
    (a : Aead) (nonce plaintext ad sealed : Str)
    → IsAead a
    → length nonce ≡ a.nonce_size
    → encrypt a (some nonce) plaintext ad ≡ ok sealed
    → decrypt a sealed ad ≡ ok plaintext
unfolding encrypt
decrypt-encrypt a nonce plaintext ad sealed laws size h =
    let written : sealed ≡ version ++ (58 ∷ a.encode (nonce ++ a.seal nonce plaintext ad)) =
      ground arith in
    ap (λ v. decrypt a v ad) written ∙ decrypt_written a nonce plaintext ad laws size

-- The associated data of two keys differ, where no tenant id holds the separator.
pub associated_data_injective :
    (t u i j : Str)
    → All (λ c. c ≢ 0) t
    → All (λ c. c ≢ 0) u
    → associated_data t i ≡ associated_data u j
    → (t ≡ u) × (i ≡ j)
unfolding associated_data
associated_data_injective [] [] i j h k e = ground arith
associated_data_injective [] (d ∷ u) i j h k e = absurd (ground arith)
associated_data_injective (c ∷ t) [] i j h k e = absurd (ground arith)
associated_data_injective (c ∷ t) (d ∷ u) i j h k e =
    ground (arith, associated_data_injective t u i j)
