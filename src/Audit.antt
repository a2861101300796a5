-- ===== src/Audit.antt =====
-- internal/audit/audit.go: the table of audit entries, which only grows. The package's operations write
-- it by AppendTx alone. `draw` is the random id, if the source of random bytes answers.
use joysteed_maa_s.Base.{
  ℕ, ℤ, pos, pos_part, leb_ℤ, ltb_ℤ, Bool, not, ◌&&◌, ◌||◌, List, [], ◌∷◌, Option, none, some, Str,
  ◌==◌, is_empty, trim_space, any, select, take, Tx, Result, ok, Faults, query, ◌>>=◌, ◌>>◌, pure,
  throw, transaction, if◌then◌else◌,
}
use joysteed_maa_s.Rbac.{Principal, PrincipalType, is_tenant_user, valid_principal}
use joysteed_maa_s.Audit.Redact.{Json, redact_json}
pub mod Redact
pub mod Hides
pub mod Filed
mod Examples

pub record Entry : Type 0 where
  pub id : Str
  pub principal_type : PrincipalType
  pub principal_id : Str
  pub tenant_id : Option Str
  pub action : Str
  pub resource_type : Str
  pub resource_id : Str
  pub before_json : Str
  pub after_json : Str
  pub source_ip : Str
  pub request_id : Str
  pub created_at : ℕ

-- A nil value, the bytes of a text, or anything else, with what json.Marshal makes of it.
pub data Snapshot : Type 0 where
  absent : Snapshot
  bytes : Str → Snapshot
  marshalled : Option Str → Snapshot

pub record Input : Type 0 where
  pub principal : Principal
  pub tenant_id : Str
  pub action : Str
  pub resource_type : Str
  pub resource_id : Str
  pub before : Snapshot
  pub after : Snapshot
  pub source_ip : Str
  pub request_id : Str

pub data Error : Type 0 where
  invalid_entry redact_failed id_failed database : Error

-- Lower-casing, and Go's decoder and encoder of JSON.
pub record Library : Type 0 where
  pub to_lower : Str → Str
  pub unmarshal : Str → Option Json
  pub marshal : Json → Str

unfoldable pub redact_snapshot : Library → Snapshot → Option Str
redact_snapshot k absent = some []
redact_snapshot k (bytes raw) = redact_json k.to_lower k.unmarshal k.marshal raw
redact_snapshot k (marshalled none) = none
redact_snapshot k (marshalled (some raw)) = redact_json k.to_lower k.unmarshal k.marshal raw

abbrev pub or_else : Error → Option Str → Tx Error (List Entry) Str
or_else e none = throw e
or_else e (some x) = pure x

abbrev pub tenant_ptr : Str → Option Str
tenant_ptr id = if is_empty id then none else some id

abbrev pub is_invalid : Input → Bool
is_invalid x =
    not (valid_principal x.principal)
    || is_empty (trim_space x.action)
    || is_empty (trim_space x.resource_type)
    || is_empty (trim_space x.resource_id)

-- The tenant that an entry is filed under: a tenant's user files under its own.
unfoldable pub scope_tenant : Input → Tx Error (List Entry) Str
scope_tenant x =
    if not (is_tenant_user x.principal.type)
    then pure x.tenant_id
    else (if not (is_empty x.tenant_id) && not (x.tenant_id == x.principal.tenant_id)
        then throw invalid_entry
        else pure x.principal.tenant_id)

abbrev pub insert_entry : Entry → Tx Error (List Entry) Entry
insert_entry e = do
  taken ← query database (any (λ q. q.id == e.id))
  if taken then throw database else (λ s fs. ok (e, e ∷ s, fs))

abbrev pub entry : Input → Str → Str → Str → Str → ℕ → Entry
entry x tenant before after id now = record {
  id = id;
  principal_type = x.principal.type;
  principal_id = x.principal.id;
  tenant_id = tenant_ptr tenant;
  action = x.action;
  resource_type = x.resource_type;
  resource_id = x.resource_id;
  before_json = before;
  after_json = after;
  source_ip = x.source_ip;
  request_id = x.request_id;
  created_at = now;
}

unfoldable pub append_tx : Library → Input → Option Str → ℕ → Tx Error (List Entry) Entry
append_tx k x draw now = if is_invalid x then throw invalid_entry else (do
  tenant ← scope_tenant x
  before ← or_else redact_failed (redact_snapshot k x.before)
  after ← or_else redact_failed (redact_snapshot k x.after)
  id ← or_else id_failed draw
  insert_entry (entry x tenant before after id now))

unfoldable pub append :
    Library → Input → Option Str → ℕ → List Entry → Faults → Result Error Entry × List Entry
append k x draw now = transaction (append_tx k x draw now)

abbrev pub page_size : ℤ → ℕ
page_size limit = if leb_ℤ limit (pos 0) || ltb_ℤ (pos 1000) limit then 100 else pos_part limit

abbrev pub filed_under : Str → Entry → Bool
filed_under tenant e = elim e.tenant_id [ none ↦ Bool.false | some u ↦ u == tenant ]

-- `order` is ORDER BY created_at DESC.
unfoldable pub list_tenant :
    (List Entry → List Entry) → Str → ℤ → Tx Error (List Entry) (List Entry)
list_tenant order tenant limit =
    if is_empty tenant
    then throw invalid_entry
    else query database (λ s. take (page_size limit) (order (select (filed_under tenant) s)))

unfoldable pub list_platform : (List Entry → List Entry) → ℤ → Tx Error (List Entry) (List Entry)
list_platform order limit = query database (λ s. take (page_size limit) (order s))
