-- ===== src/Audit/Examples.antt =====
-- The theorems on internal/audit at a snapshot with a password.
use native.Mathlib.Decide.{ℕ_discrete}
use joysteed_maa_s.Base.{
  ◌+◌, true, false, ◌&&◌, [], ◌∷◌, ◌++◌, Option, some, Str, text, leb, map, trim_space, select,
  has_prefix, has_suffix, ok, ◌≡◌, ◌≢◌, refl, str_discrete, if◌then◌else◌, subst, sym,
}
use joysteed_maa_s.Rbac.{tenant_user, valid_principal}
use joysteed_maa_s.Audit.Redact.{
  Json, Fields, string, object, no_fields, field, sensitive_key, redact_value, redact_json,
}
use joysteed_maa_s.Audit.Hides.{leaves, objects, both_stop, both_field, Alike, redact_json-hides}
use joysteed_maa_s.Audit.{
  Entry, Input, Library, bytes, absent, entry, redact_snapshot, scope_tenant, append_tx,
  filed_under,
}
use joysteed_maa_s.Audit.Filed.{Records, append_tx-filed}

abbrev lower : Str → Str
lower = map (λ c. if leb 65 c && leb c 90 then c + 32 else c)

abbrev snapshot : Str → Json
snapshot s = object (field (text "Password") (string s) no_fields)

-- A text that stands for the snapshot with it as its password.
abbrev read : Str → Option Json
read raw = some (snapshot raw)

abbrev write_fields : Fields → Str
write_fields (field key (string s) rest) = key ++ s
write_fields rest = []

abbrev write : Json → Str
write (object fields) = write_fields fields
write v = []

password_hidden : sensitive_key lower (text "Password") ≡ true
unfolding sensitive_key has_suffix has_prefix str_discrete ℕ_discrete trim_space
password_hidden = refl

-- A name in camel case that ends in `Key` is not taken for that of a credential.
signing_key_shown : sensitive_key lower (text "signingKey") ≡ false
unfolding sensitive_key has_suffix has_prefix str_discrete ℕ_discrete trim_space
signing_key_shown = refl

redact_json-hides_example :
    redact_json lower read write (text "hunter2") ≡ redact_json lower read write (text "swordfish")
redact_json-hides_example =
    redact_json-hides lower read write (text "hunter2") (text "swordfish")
      (snapshot (text "hunter2")) (snapshot (text "swordfish")) refl refl
      (objects (
        both_field (text "Password")
          (subst (λ b. Alike lower b (string (text "hunter2")) (string (text "swordfish")))
            (sym password_hidden)
            (leaves (string (text "hunter2")) (string (text "swordfish")) refl refl))
          both_stop))
      (unfold str_discrete ℕ_discrete in refl) (unfold str_discrete ℕ_discrete in refl)

abbrev library : Library
library = record { to_lower = lower; unmarshal = read; marshal = write }

abbrev input : Input
input = record {
  principal = record { type = tenant_user; id = text "u1"; tenant_id = text "t1" };
  tenant_id = [];
  action = text "member.update";
  resource_type = text "member";
  resource_id = text "u2";
  before = absent;
  after = bytes (text "hunter2");
  source_ip = [];
  request_id = [];
}

abbrev written : Entry
written = entry input (text "t1") [] (text "Password[REDACTED]") (text "e1") 7

input_appended : append_tx library input (some (text "e1")) 7 [] [] ≡ ok (written, written ∷ [], [])
unfolding append_tx valid_principal scope_tenant redact_snapshot redact_json redact_value
    sensitive_key has_suffix has_prefix str_discrete ℕ_discrete trim_space
input_appended = refl

append_tx-filed_example :
    Records library input written
    × (select (filed_under (text "t1")) (written ∷ [])
        ≡ written ∷ select (filed_under (text "t1")) [])
    × ((u : Str)
        → u ≢ text "t1"
        → select (filed_under u) (written ∷ []) ≡ select (filed_under u) [])
append_tx-filed_example =
    append_tx-filed library input (some (text "e1")) 7 [] (written ∷ []) [] [] written
      input_appended refl
