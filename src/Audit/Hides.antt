-- ===== src/Audit/Hides.antt =====
-- internal/audit/audit.go: a stored snapshot does not tell what stood below the name of a credential.
use joysteed_maa_s.Base.{
  Bool, true, false, ◌||◌, Option, some, Str, text, ◌==◌, is_empty, ◌≡◌, refl, sym, ap, ◌∙◌, arith,
}
use joysteed_maa_s.Audit.Redact.{
  Json, null, boolean, number, string, array, object, Items, no_items, item, Fields, no_fields,
  field, sensitive_key, redact_value, redact_items, redact_fields, redact_json,
}

-- Neither an array nor an object.
abbrev pub is_leaf : Json → Bool
is_leaf null = true
is_leaf (boolean b) = true
is_leaf (number n) = true
is_leaf (string s) = true
is_leaf (array xs) = false
is_leaf (object xs) = false

module _ (to_lower : Str → Str) where
  -- Two values of one shape that differ only in what stands below the names of credentials; the flag
  -- says that they themselves stand there.
  mutual
    pub data Alike : Bool → Json → Json → Type 0 where
      equal : {force : Bool} (v : Json) → Alike force v v
      leaves : (v w : Json) → is_leaf v ≡ true → is_leaf w ≡ true → Alike true v w
      arrays :
          {force : Bool} {xs ys : Items}
          → AlikeItems force xs ys
          → Alike force (array xs) (array ys)
      objects :
          {force : Bool} {xs ys : Fields}
          → AlikeFields force xs ys
          → Alike force (object xs) (object ys)

    pub data AlikeItems : Bool → Items → Items → Type 0 where
      both_end : {force : Bool} → AlikeItems force no_items no_items
      both_item :
          {force : Bool} {v w : Json} {xs ys : Items}
          → Alike force v w
          → AlikeItems force xs ys
          → AlikeItems force (item v xs) (item w ys)

    pub data AlikeFields : Bool → Fields → Fields → Type 0 where
      both_stop : {force : Bool} → AlikeFields force no_fields no_fields
      both_field :
          {force : Bool} (key : Str) {v w : Json} {xs ys : Fields}
          → Alike (force || sensitive_key to_lower key) v w
          → AlikeFields force xs ys
          → AlikeFields force (field key v xs) (field key w ys)

  leaf_hidden :
      (v : Json) → is_leaf v ≡ true → redact_value to_lower v true ≡ string (text "[REDACTED]")
  unfolding redact_value
  leaf_hidden null h = refl
  leaf_hidden (boolean b) h = refl
  leaf_hidden (number n) h = refl
  leaf_hidden (string s) h = refl
  leaf_hidden (array xs) h = absurd (ground arith)
  leaf_hidden (object xs) h = absurd (ground arith)

  mutual
    unfolding redact_value

    redacted_value :
        {force : Bool} {v w : Json}
        → Alike force v w
        → redact_value to_lower v force ≡ redact_value to_lower w force
    redacted_value (equal v) = refl
    redacted_value (leaves v w h k) = leaf_hidden v h ∙ sym (leaf_hidden w k)
    redacted_value (arrays h) = ap array (redacted_items h)
    redacted_value (objects h) = ap object (redacted_fields h)

    redacted_items :
        {force : Bool} {xs ys : Items}
        → AlikeItems force xs ys
        → redact_items to_lower xs force ≡ redact_items to_lower ys force
    redacted_items both_end = refl
    redacted_items (both_item h t) = rw (redacted_value h, redacted_items t) refl

    redacted_fields :
        {force : Bool} {xs ys : Fields}
        → AlikeFields force xs ys
        → redact_fields to_lower xs force ≡ redact_fields to_lower ys force
    redacted_fields both_stop = refl
    redacted_fields (both_field key h t) = rw (redacted_value h, redacted_fields t) refl

  -- Two texts that are neither empty nor `null`, and that decode to values of one shape which differ only
  -- in what stands below the names of credentials, are stored as one text.
  pub redact_json-hides :
      (unmarshal : Str → Option Json) (marshal : Json → Str) (a b : Str) (v w : Json)
      → unmarshal a ≡ some v
      → unmarshal b ≡ some w
      → Alike false v w
      → is_empty a || (a == text "null") ≡ false
      → is_empty b || (b == text "null") ≡ false
      → redact_json to_lower unmarshal marshal a ≡ redact_json to_lower unmarshal marshal b
  unfolding redact_json
  redact_json-hides unmarshal marshal a b v w read read' alike full full' =
      rw (full, full', read, read', redacted_value alike) refl
