-- ===== src/Base/Outcome.antt =====
-- Go's `(value, error)` as a sum, and transactions against a database whose statements may fail.
use mathlib.Core.Path.{◌≡◌, refl}
use mathlib.Core.Bool.{Bool, true, false}
use mathlib.Core.List.{List, [], ◌∷◌}
use native.Mathlib.Omega.{arith}
use joysteed_maa_s.Base.Tests.{if◌then◌else◌}

pub data Result {ℓ κ} (E : Type ℓ) (A : Type κ) : Type (ℓ ⊔ κ) where
  ok : A → Result E A
  err : E → Result E A

-- Which of the statements to come fail at the database: `true` is a failure, and past the end of
-- the list the database answers. A transaction over tables `S` either ends with a value, the new
-- tables and the schedule that is left, or fails, and then its tables are rolled back.
abbrev pub Faults : Type 0
Faults = List Bool

abbrev pub Tx : Type 0 → Type 0 → Type 0 → Type 0
Tx E S A = S → Faults → Result E (A × S × Faults)

infixl 5 ◌>>=◌ ◌>>◌
abbrev pub ◌>>=◌ : {E S A B : Type 0} → Tx E S A → (A → Tx E S B) → Tx E S B
◌>>=◌ m f s fs = elim (m s fs) [ ok (a, s', fs') ↦ f a s' fs' | err e ↦ err e ]

abbrev pub ◌>>◌ : {E S B : Type 0} → Tx E S (Unit {0}) → Tx E S B → Tx E S B
m >> k = m >>= λ _. k

abbrev pub pure : {E S A : Type 0} → A → Tx E S A
pure a s fs = ok (a, s, fs)

abbrev pub throw : {E S A : Type 0} → E → Tx E S A
throw e s fs = err e

-- A statement: it fails with `e` where the schedule says so, and otherwise reads and writes.
abbrev pub statement : {E S A : Type 0} → E → (S → A × S) → Tx E S A
statement e run s [] = let (a, s') = run s in ok (a, s', [])
statement e run s (true ∷ fs) = err e
statement e run s (false ∷ fs) = let (a, s') = run s in ok (a, s', fs)

abbrev pub query : {E S A : Type 0} → E → (S → A) → Tx E S A
query e f = statement e (λ s. (f s, s))

abbrev pub exec : {E S : Type 0} → E → (S → S) → Tx E S (Unit {0})
exec e f = statement e (λ s. (tt, f s))

-- `db.Transaction(fn)`: commit on success, roll back on an error.
abbrev pub transaction : {E S A : Type 0} → Tx E S A → S → Faults → Result E A × S
transaction m s fs = elim (m s fs) [ ok (a, s', _) ↦ (ok a, s') | err e ↦ (err e, s) ]

-- An error rolls every write back, whatever the body did before it.
pub transaction_rollback :
    {E S A : Type 0} (m : Tx E S A) (s : S) (fs : Faults) {e : E}
    → (transaction m s fs).0 ≡ err e
    → (transaction m s fs).1 ≡ s
transaction_rollback m s fs h = ground arith

-- A chain that succeeds, split at its first part. What is wanted of the rest is a function of what
-- that part leaves.
module _ {ℓ} {E S A B : Type 0} {C : Type ℓ} where
  pub query_step :
      (e : E) (f : S → A) (k : A → Tx E S B) (s : S) (fs : Faults) (b : B × S × Faults)
      → (query e f >>= k) s fs ≡ ok b
      → ((fs' : Faults) → k (f s) s fs' ≡ ok b → C)
      → C
  query_step e f k s [] b h go = go [] h
  query_step e f k s (true ∷ fs) b h go = absurd (ground arith)
  query_step e f k s (false ∷ fs) b h go = go fs h

module _ {ℓ} {E S B : Type 0} {C : Type ℓ} where
  pub guard_step :
      (t : Bool) (e : E) (m : Tx E S B) (s : S) (fs : Faults) (b : B × S × Faults)
      → (if t then throw e else m) s fs ≡ ok b
      → (t ≡ false → m s fs ≡ ok b → C)
      → C
  guard_step true e m s fs b h go = absurd (ground arith)
  guard_step false e m s fs b h go = go refl h

  pub exec_step :
      (e : E) (f : S → S) (k : Tx E S B) (s : S) (fs : Faults) (b : B × S × Faults)
      → (exec e f >> k) s fs ≡ ok b
      → ((fs' : Faults) → k (f s) fs' ≡ ok b → C)
      → C
  exec_step e f k s [] b h go = go [] h
  exec_step e f k s (true ∷ fs) b h go = absurd (ground arith)
  exec_step e f k s (false ∷ fs) b h go = go fs h

ended {ℓ} :
    {E S A : Type 0} {B : Type ℓ} (o out : Result E (A × S × Faults))
    (k : A → S → Faults → Result E B) (b : B)
    → o ≡ out
    → elim out [ ok (a, s', fs') ↦ k a s' fs' | err e ↦ err e ] ≡ ok b
    → (a : A) × (s' : S) × (fs' : Faults) × (o ≡ ok (a, s', fs')) × (k a s' fs' ≡ ok b)
ended o (ok (a, s', fs')) k b e h = (a, s', fs', e, h)
ended o (err x) k b e h = absurd (ground arith)

pub bind_step {ℓ} :
    {E S A B : Type 0} {C : Type ℓ} (m : Tx E S A) (k : A → Tx E S B) (s : S) (fs : Faults)
    (b : B × S × Faults)
    → (m >>= k) s fs ≡ ok b
    → ((a : A) (s' : S) (fs' : Faults) → m s fs ≡ ok (a, s', fs') → k a s' fs' ≡ ok b → C)
    → C
bind_step m k s fs b h go =
    let (a, s', fs', e, h') = ended (m s fs) (m s fs) k b refl h in go a s' fs' e h'

-- A transaction keeps what its body keeps where it succeeds.
pub transaction_keeps {ℓ} :
    {E S A : Type 0} (P : S → Type ℓ) (m : Tx E S A) (s : S) (fs : Faults)
    → ((a : A) (s' : S) (fs' : Faults) → m s fs ≡ ok (a, s', fs') → P s')
    → P s
    → P (transaction m s fs).1
transaction_keeps {E = E} {S = S} {A = A} P m s fs keep h = kept (m s fs) refl
  where
    kept :
        (out : Result E (A × S × Faults))
        → m s fs ≡ out
        → P (transaction {E = E} {S = S} {A = A} (λ s fs. out) s fs).1
    kept (ok (a, s', fs')) e = keep a s' fs' e
    kept (err x) e = h
