-- ===== src/Audit/Redact.antt =====
-- internal/audit/audit.go: what is left of a snapshot when its credentials are taken out. A value is
-- what encoding/json decodes into an `any`; a Go map is the list of its entries. The lower case of a
-- text, and the decoder and the encoder of JSON, are parameters.
use joysteed_maa_s.Base.{
  Bool, true, false, not, ◌||◌, ◌&&◌, List, [], ◌∷◌, Option, none, some, Str, text, ◌==◌, is_empty,
  any, select, elem, eqb, trim_space, has_suffix, if◌then◌else◌,
}

mutual
  pub data Json : Type 0 where
    null : Json
    boolean : Bool → Json
    number : Str → Json
    string : Str → Json
    array : Items → Json
    object : Fields → Json

  pub data Items : Type 0 where
    no_items : Items
    item : Json → Items → Items

  pub data Fields : Type 0 where
    no_fields : Fields
    field : Str → Json → Fields → Fields

-- The fragments but `key`, which the loop skips.
abbrev pub sensitive_fragments : List Str
sensitive_fragments =
    text "token"
    ∷ text "secret"
    ∷ text "password"
    ∷ text "passwd"
    ∷ text "authorization"
    ∷ text "credential"
    ∷ text "private"
    ∷ []

abbrev pub exact_names : List Str
exact_names =
    text "apikey"
    ∷ text "accesskey"
    ∷ text "privatekey"
    ∷ text "secretkey"
    ∷ text "clientsecret"
    ∷ text "authorization"
    ∷ text "credential"
    ∷ []

-- `-`, `_` and the space are taken out.
abbrev pub normalized : Str → Str
normalized = select (λ c. not (eqb c 45) && not (eqb c 95) && not (eqb c 32))

abbrev pub named_as_key : Str → Bool
named_as_key lower =
    (lower == text "key") || has_suffix lower (text "_key") || has_suffix lower (text "-key")

module _ (to_lower : Str → Str) where
  unfoldable pub sensitive_key : Str → Bool
  sensitive_key key =
      let lower = to_lower (trim_space key) in
      if named_as_key lower
      then true
      else any (λ fragment. has_suffix (normalized lower) fragment) sensitive_fragments
        || elem (normalized lower) exact_names

  abbrev pub hidden : Bool → Json → Json
  hidden force v = if force then string (text "[REDACTED]") else v

  unfoldable mutual
    pub redact_value : Json → Bool → Json
    redact_value null force = hidden force null
    redact_value (boolean b) force = hidden force (boolean b)
    redact_value (number n) force = hidden force (number n)
    redact_value (string s) force = hidden force (string s)
    redact_value (array items) force = array (redact_items items force)
    redact_value (object fields) force = object (redact_fields fields force)

    pub redact_items : Items → Bool → Items
    redact_items no_items force = no_items
    redact_items (item v items) force = item (redact_value v force) (redact_items items force)

    pub redact_fields : Fields → Bool → Fields
    redact_fields no_fields force = no_fields
    redact_fields (field key v fields) force =
        field key (redact_value v (force || sensitive_key key)) (redact_fields fields force)

  module _ (unmarshal : Str → Option Json) (marshal : Json → Str) where
    abbrev encoded : Option Json → Option Str
    encoded none = none
    encoded (some v) = some (marshal (redact_value v false))

    unfoldable pub redact_json : Str → Option Str
    redact_json raw =
        if is_empty raw || (raw == text "null") then some [] else encoded (unmarshal raw)
