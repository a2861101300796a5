-- ===== src/Quota.antt =====
-- internal/quota/counter.go: spent amounts in Redis, counted by two Lua scripts that each run as one
-- step. `server` is the clock of Redis in milliseconds. `digest` is the hex of a SHA-256, and `lua`
-- how a Lua number, a double, carries an integer back to the caller.
pub mod Once
mod Examples
use joysteed_maa_s.Base.{
  ℕ, ◌+◌, ◌/◌, ◌^◌, Bool, true, false, not, ◌&&◌, ◌||◌, List, [], ◌∷◌, ◌++◌, Option, some, none,
  Str, text, ◌==◌, trim_space, is_empty, ltb, leb, eqb, ℤ, pos, negsuc, pos_part, neg_part, sub_ℕ,
  leb_ℤ, Result, ok, err, if◌then◌else◌,
}

pub data Error : Type 0 where
  invalid_key invalid_amount request_required redis_failed : Error

-- Whether a script runs, and whether its reply reaches the caller.
pub data Link : Type 0 where
  answers lost down : Link

pub record Entry : Type 0 where
  pub value : ℤ
  pub deadline : Option ℕ

-- The keys' values: a claim holds 1.
abbrev pub Store : Type 0
Store = Str → Option Entry

abbrev pub put : Str → Option Entry → Store → Store
put k e st j = if k == j then e else st j

abbrev expired : ℕ → Option ℕ → Bool
expired server none = false
expired server (some d) = leb d server

-- A key past its deadline does not exist.
abbrev pub current : ℕ → Option Entry → Option Entry
current server none = none
current server (some e) = if expired server e.deadline then none else some e

abbrev pub value_of : Option Entry → ℤ
value_of none = pos 0
value_of (some e) = e.value

abbrev pub exists : Option Entry → Bool
exists none = false
exists (some _) = true

abbrev deadline_of : Option Entry → Option ℕ
deadline_of none = none
deadline_of (some e) = e.deadline

-- The sum as an integer, and whether an int64 holds it.
abbrev pub plus : ℤ → ℤ → ℤ
plus a b = sub_ℕ (pos_part a + pos_part b) (neg_part a + neg_part b)

abbrev fits : ℤ → Bool
fits a = ltb (pos_part a) (2 ^ 63) && leb (neg_part a) (2 ^ 63)

abbrev window : ℕ → ℕ → Option ℕ
window server ttl = if eqb ttl 0 then none else some (server + ttl)

-- `INCRBY` on the counter, and the deadline of a counter that did not exist.
unfoldable pub bump : Str → ℤ → ℕ → ℕ → Store → Store
bump ck amount ttl server st =
    let old = current server (st ck) in
    put ck
      (some (record {
        value = plus (value_of old) amount;
        deadline = if exists old then deadline_of old else window server ttl;
      }))
      st

-- `INCRBY` refuses a sum that an int64 does not hold, before anything is written.
unfoldable pub charge_script : (ℤ → ℤ) → Str → ℤ → ℕ → ℕ → Store → Result Error ℤ × Store
unfolding bump
charge_script lua ck amount ttl server st =
    let total = plus (value_of (current server (st ck))) amount in
    if fits total then (ok (lua total), bump ck amount ttl server st) else (err redis_failed, st)

unfoldable pub charge_once_script :
    (ℤ → ℤ) → Str → Str → ℤ → ℕ → ℕ → Store → Result Error (ℤ × Bool) × Store
unfolding bump
charge_once_script lua ck claim amount ttl server st =
    let total = plus (value_of (current server (st ck))) amount in
    if exists (current server (st claim))
    then (ok (value_of (current server (st ck)), false), st)
    else (if fits total
        then (
          ok (lua total, true),
          put claim (some (record { value = pos 1; deadline = window server ttl }))
              (bump ck amount ttl server st),
        )
        else (err redis_failed, st))

abbrev over {ℓ} :
    {A : Type ℓ} → Link → (Store → Result Error A × Store) → Store → Result Error A × Store
over answers script st = script st
over lost script st = (err redis_failed, (script st).1)
over down script st = (err redis_failed, st)

pub record Counter : Type 0 where
  pub prefix : Str
  pub digest : Str → Str

unfoldable pub key : Counter → Str → Str → Result Error Str
key c id budget =
    if is_empty (trim_space id) || is_empty (trim_space budget)
    then err invalid_key
    else ok (c.prefix ++ c.digest (id ++ (0 ∷ budget)))

abbrev pub idempotency_key : Counter → Str → Str → Str
idempotency_key c ck request = ck ++ (text ":claim:" ++ c.digest request)

-- A `time.Duration` counts nanoseconds.
unfoldable pub ttl_millis : ℤ → ℕ
ttl_millis (pos n) = if eqb n 0 then 0 else (if eqb (n / 1000000) 0 then 1 else n / 1000000)
ttl_millis (negsuc _) = 0

abbrev with_key {ℓ} :
    {A : Type ℓ}
    → Result Error Str
    → (Str → Store → Result Error A × Store)
    → Store
    → Result Error A × Store
with_key (err e) run st = (err e, st)
with_key (ok ck) run st = run ck st

unfoldable pub charge :
    (ℤ → ℤ) → Counter → Str → Str → ℤ → ℤ → ℕ → Link → Store → Result Error ℤ × Store
charge lua c id budget amount ttl server link st =
    if leb_ℤ amount (pos 0)
    then (err invalid_amount, st)
    else with_key (key c id budget)
        (λ ck. over link (charge_script lua ck amount (ttl_millis ttl) server)) st

unfoldable pub charge_once :
    (ℤ → ℤ) → Counter → Str → Str → Str → ℤ → ℤ → ℕ → Link → Store → Result Error (ℤ × Bool) × Store
charge_once lua c id budget request amount ttl server link st =
    if leb_ℤ amount (pos 0)
    then (err invalid_amount, st)
    else (if is_empty (trim_space request)
        then (err request_required, st)
        else with_key (key c id budget)
            (λ ck. over link (
              charge_once_script lua ck (idempotency_key c ck request) amount (ttl_millis ttl)
                server))
            st)

abbrev reached {ℓ} : {A : Type ℓ} → Link → A → Result Error A
reached answers a = ok a
reached lost a = err redis_failed
reached down a = err redis_failed

abbrev read_at : ℕ → Link → Store → Result Error Str → Result Error ℤ
read_at server link st (err e) = err e
read_at server link st (ok ck) = reached link (value_of (current server (st ck)))

unfoldable pub usage : Counter → Str → Str → ℕ → Link → Store → Result Error ℤ
usage c id budget server link st = read_at server link st (key c id budget)

unfoldable pub reset : Counter → Str → Str → Link → Store → Result Error (Unit {0}) × Store
reset c id budget link st =
    with_key (key c id budget) (λ ck. over link (λ s. (ok tt, put ck none s))) st
