-- ===== src/Virtualkey/Calls.antt =====
-- internal/virtualkey: each call of the store keeps the rows sound.
use joysteed_maa_s.Base.{
  ℕ, Bool, true, false, not, ◌||◌, List, ◌∷◌, Option, none, some, Str, ◌==◌, is_empty, trim_space,
  any, any_weaken, find, All-find, length, select, eqb, ltb, byte_length, Result, ok, err, Faults,
  Tx, exec, throw, ◌>>=◌, ◌>>◌, pure, bind_step, query_step, exec_step, guard_step, ◌≡◌, refl, sym,
  subst, arith, Bool-cases, ◌⊎◌, inl, inr, if◌then◌else◌,
}
use joysteed_maa_s.Registry.Store.{has_id}
use joysteed_maa_s.Configbus.{Change, Outbox, publish_tx}
use joysteed_maa_s.Configbus.Published.{current_of, publish_tx-next, publish_tx-le}
use joysteed_maa_s.Virtualkey.Cipher.{Aead, CipherError, encrypt, associated_data}
use joysteed_maa_s.Virtualkey.{
  Key, Status, pending, failed, revoking, DesiredState, wanted, unwanted, is_key, is_unwanted,
  is_failed, is_gone, Tables, Error, database, Mutation, Draws, entity, move_key, key_not_found,
  tenant_required, name_required, tenant_not_found, no_entropy, lock_key, or_throw, sealed_or,
  revoke_row, revoke_tx, retry_row, retry_tx, clashes, insert_key, new_key, issue_key, create_tx,
}
use joysteed_maa_s.Virtualkey.Invariant.{
  Matches, Fits, IsSound, Goes, bused_step, pure_state, Fits-le, move_key-IsSound,
}

pub or_throw_step {ℓ} :
    {A B : Type 0} {C : Type ℓ} (e : Error) (o : Option A) (k : A → Tx Error Tables B) (s : Tables)
    (fs : Faults) (b : B × Tables × Faults)
    → (or_throw e o >>= k) s fs ≡ ok b
    → ((a : A) → o ≡ some a → k a s fs ≡ ok b → C)
    → C
or_throw_step e none k s fs b h go = absurd (ground arith)
or_throw_step e (some a) k s fs b h go = go a refl h

sealed_or_step {ℓ} :
    {B : Type 0} {C : Type ℓ} (r : Result CipherError Str) (k : Str → Tx Error Tables B)
    (s : Tables) (fs : Faults) (b : B × Tables × Faults)
    → (sealed_or r >>= k) s fs ≡ ok b
    → ((c : Str) → r ≡ ok c → k c s fs ≡ ok b → C)
    → C
sealed_or_step (err e) k s fs b h go = absurd (ground arith)
sealed_or_step (ok c) k s fs b h go = go c refl h

found_row :
    (o : Option Key) (row : Key) (s s' : Tables) (fs fs' : Faults)
    → or_throw key_not_found o s fs ≡ ok (row, s', fs')
    → (o ≡ some row) × (s' ≡ s)
found_row none row s s' fs fs' h = absurd (ground arith)
found_row (some k) row s s' fs fs' h = (ground arith, ground arith)

-- The lock reads the row of the tenant under the trimmed id, and writes nothing.
pub lock_key_ok :
    (t id : Str) (row : Key) (s s' : Tables) (fs fs' : Faults)
    → lock_key t id s fs ≡ ok (row, s', fs')
    → (find (is_key t (trim_space id)) s.keys ≡ some row) × (s' ≡ s)
unfolding lock_key
lock_key_ok t id row s s' fs fs' h = guard_step (is_empty t) tenant_required _ s fs _ h λ _ h.
    query_step database (λ s. find (is_key t (trim_space id)) s.keys) (or_throw key_not_found) s fs
      _ h λ f h. found_row (find (is_key t (trim_space id)) s.keys) row s s' f fs' h

-- What a call on a row does: nothing, or a move that the row's state allows.
abbrev Moves : Key → Tx Error Tables Mutation → Str → Str → ℕ → Type 0
Moves row m t id now =
    (s s' : Tables) (fs fs' : Faults) (x : Mutation)
    → m s fs ≡ ok (x, s', fs')
    → (s' ≡ s)
      ⊎ ((to : Status × DesiredState) × Goes row to
          × (move_key t id row to now s fs ≡ ok (x, s', fs')))

revoke_row-Moves : (t id : Str) (now : ℕ) (row : Key) → Moves row (revoke_row t id now row) t id now
revoke_row-Moves t id now row s s' fs fs' x h = elim (Bool-cases (is_gone row.status)) [
  | inl y ↦ inl (ground arith)
  | inr n ↦ inr ((revoking, unwanted), inl (refl, refl), ground arith)
]

unfoldable pub retried : Key → Status × DesiredState
retried row = (if is_unwanted row.desired_state then revoking else pending, row.desired_state)

retried-Goes : (row : Key) → row.status ≡ failed → Matches row.status row → Goes row (retried row)
unfolding retried
retried-Goes row e m = elim (wish row e m) [
  | inl w ↦ inr (ground arith, w)
  | inr u ↦ inl (ground arith, u)
]
  where
    wish :
        (row : Key)
        → row.status ≡ failed
        → Matches row.status row
        → (row.desired_state ≡ wanted) ⊎ (row.desired_state ≡ unwanted)
    wish row e m = (subst (λ s. Matches s row) e m).0

retry_row-Moves :
    (t id : Str) (now : ℕ) (row : Key)
    → Matches row.status row
    → Moves row (retry_row t id now row) t id now
unfolding retried
retry_row-Moves t id now row m s s' fs fs' x h = elim (Bool-cases (is_failed row.status)) [
  | inl y ↦ inr (retried row, retried-Goes row (ground arith) m, ground arith)
  | inr n ↦ absurd (ground arith)
]

on_row-IsSound :
    (t id : Str) (now : ℕ) (k : Key → Tx Error Tables Mutation) (s s' : Tables) (fs fs' : Faults)
    (x : Mutation)
    → ((row : Key) → Matches row.status row → Moves row (k row) t id now)
    → IsSound s
    → (lock_key t id >>= k) s fs ≡ ok (x, s', fs')
    → IsSound s'
on_row-IsSound t id now k s s' fs fs' x moves sound h =
    bind_step (lock_key t id) k s fs _ h λ row s₁ f e h.
      let (found, same) = lock_key_ok t id row s s₁ fs f e in
      let (m, _) =
        All-find (Fits (λ u. current_of u s.outbox)) (is_key t (trim_space id)) s.keys row sound.1
          found in
      let kept : IsSound s₁ = subst IsSound (sym same) sound in
      elim (moves row m s₁ s' f fs' x h) [
        | inl e ↦ subst IsSound (sym e) kept
        | inr (to, goes, h) ↦
            move_key-IsSound t id (trim_space id) row to now s₁ s' f fs' x
              (subst (λ u. find (is_key t (trim_space id)) u.keys ≡ some row) (sym same) found) goes
              kept h
      ]

pub revoke_tx-IsSound :
    (t id : Str) (now : ℕ) (s s' : Tables) (fs fs' : Faults) (x : Mutation)
    → IsSound s
    → revoke_tx t id now s fs ≡ ok (x, s', fs')
    → IsSound s'
unfolding revoke_tx
revoke_tx-IsSound t id now s s' fs fs' x =
    on_row-IsSound t id now (revoke_row t id now) s s' fs fs' x
      (λ row _. revoke_row-Moves t id now row)

pub retry_tx-IsSound :
    (t id : Str) (now : ℕ) (s s' : Tables) (fs fs' : Faults) (x : Mutation)
    → IsSound s
    → retry_tx t id now s fs ≡ ok (x, s', fs')
    → IsSound s'
unfolding retry_tx
retry_tx-IsSound t id now s s' fs fs' x =
    on_row-IsSound t id now (retry_row t id now) s s' fs fs' x (retry_row-Moves t id now)

insert_key_step {ℓ} :
    {B : Type 0} {C : Type ℓ} (row : Key) (k : Tx Error Tables B) (s : Tables) (fs : Faults)
    (b : B × Tables × Faults)
    → (insert_key row >> k) s fs ≡ ok b
    → ((fs' : Faults)
        → any (clashes row) s.keys ≡ false
        → k (record s { keys = row ∷ s.keys }) fs' ≡ ok b
        → C)
    → C
insert_key_step {C = C} row k s fs b h go = tested (any (clashes row) s.keys) refl h
  where
    tested :
        (c : Bool)
        → any (clashes row) s.keys ≡ c
        → ◌>>◌ {E = Error} {S = Tables}
            (λ s fs.
              (if c then throw database else exec database (λ s. record s { keys = row ∷ s.keys }))
                s fs)
            k
            s
            fs
          ≡ ok b
        → C
    tested true e h = absurd (ground arith)
    tested false e h =
        exec_step {E = Error} {S = Tables} database (λ s. record s { keys = row ∷ s.keys }) k s fs b
          h (λ fs' h'. go fs' e h')

-- What an issue that succeeds has written.
pub issue_key_ok :
    (a : Aead) (digest : Str → Str) (t name : Str) (drawn : Draws) (now : ℕ) (s s' : Tables)
    (fs fs' : Faults) (x : Mutation)
    → issue_key a digest t name drawn now s fs ≡ ok (x, s', fs')
    → (id : Str) × (secret : Str) × (sealed : Str) × (c : Change) × (o : Outbox) × (f : Faults)
      × (publish_tx t (entity id) now s.outbox fs ≡ ok (c, o, f))
      × (any (clashes (new_key digest t name id secret sealed c.generation now)) s.keys ≡ false)
      × (s' ≡ record s {
        outbox = o;
        keys = new_key digest t name id secret sealed c.generation now ∷ s.keys;
      })
unfolding issue_key
issue_key_ok a digest t name drawn now s s' fs fs' x h =
    or_throw_step no_entropy drawn.id _ s fs _ h λ id _ h.
      or_throw_step no_entropy drawn.secret _ s fs _ h λ secret _ h.
        sealed_or_step (encrypt a drawn.nonce secret (associated_data t id)) _ s fs _ h
          λ sealed _ h. bused_step (publish_tx t (entity id) now) _ s fs _ h λ c o f e h.
            let row = new_key digest t name id secret sealed c.generation now in
            let answer : Mutation = record {
              key = row;
              before = none;
              secret = secret;
              change = some c;
            } in
            insert_key_step row (pure answer) (record s { outbox = o }) f _ h
              λ f' free h. (
                id,
                secret,
                sealed,
                c,
                o,
                f,
                e,
                free,
                sym (pure_state {A = Mutation} answer x _ s' f' fs' h),
              )

pub unclashing :
    (row : Key) (ks : List Key)
    → any (clashes row) ks ≡ false
    → any (λ n. n.id == row.id) ks ≡ false
unclashing row ks h = any_weaken (λ n. n.id == row.id) (clashes row) ks (λ k e. ground arith) h

issue_key-IsSound :
    (a : Aead) (digest : Str → Str) (t name : Str) (drawn : Draws) (now : ℕ) (s s' : Tables)
    (fs fs' : Faults) (x : Mutation)
    → IsSound s
    → issue_key a digest t name drawn now s fs ≡ ok (x, s', fs')
    → IsSound s'
issue_key-IsSound a digest t name drawn now s s' fs fs' x (keyed, fits) h =
    let (id, secret, sealed, c, o, f, e, free, same) =
      issue_key_ok a digest t name drawn now s s' fs fs' x h in
    let (next, mine, others) = publish_tx-next t (entity id) now s.outbox o fs f c e in
    subst IsSound (sym same) (
      (unclashing (new_key digest t name id secret sealed c.generation now) s.keys free, keyed),
      (
        ((refl, omega arith), omega arith),
        Fits-le (λ u. current_of u s.outbox) (λ u. current_of u o) s.keys
            (λ u. publish_tx-le t (entity id) now s.outbox o fs f c u e) fits,
      ),
    )

pub create_tx_issue :
    (a : Aead) (digest : Str → Str) (t given : Str) (drawn : Draws) (now : ℕ) (s s' : Tables)
    (fs fs' : Faults) (x : Mutation)
    → create_tx a digest t given drawn now s fs ≡ ok (x, s', fs')
    → (f : Faults) × (issue_key a digest t (trim_space given) drawn now s f ≡ ok (x, s', fs'))
unfolding create_tx
create_tx_issue a digest t given drawn now s s' fs fs' x h =
    guard_step (is_empty t) tenant_required _ s fs _ h λ _ h.
      guard_step (is_empty (trim_space given) || ltb 120 (byte_length (trim_space given)))
        name_required _ s fs _ h
        λ _ h.
          query_step database (λ s. length (select (has_id t) s.tenants))
            (λ count.
              if not (eqb count 1)
              then throw tenant_not_found
              else issue_key a digest t (trim_space given) drawn now)
            s fs _ h
            λ f h.
              guard_step (not (eqb (length (select (has_id t) s.tenants)) 1)) tenant_not_found
                (issue_key a digest t (trim_space given) drawn now) s f _ h λ _ h. (f, h)

pub create_tx-IsSound :
    (a : Aead) (digest : Str → Str) (t given : Str) (drawn : Draws) (now : ℕ) (s s' : Tables)
    (fs fs' : Faults) (x : Mutation)
    → IsSound s
    → create_tx a digest t given drawn now s fs ≡ ok (x, s', fs')
    → IsSound s'
create_tx-IsSound a digest t given drawn now s s' fs fs' x sound h =
    let (f, issued) = create_tx_issue a digest t given drawn now s s' fs fs' x h in
    issue_key-IsSound a digest t (trim_space given) drawn now s s' f fs' x sound issued
