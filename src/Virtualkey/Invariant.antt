-- ===== src/Virtualkey/Invariant.antt =====
-- internal/virtualkey: what each state of a key's row says, kept by the store's calls and by the passes.
use joysteed_maa_s.Base.{
  ℕ, ◌<◌, ◌≤◌, true, List, [], ◌∷◌, none, some, Str, ◌==◌, ==_iff, find, find-true, All, All-find,
  Result, ok, err, Faults, Tx, ◌>>=◌, pure, exec_step, ◌≡◌, ◌≢◌, refl, sym, subst, arith, ◌⊎◌, inl,
  inr,
}
use joysteed_maa_s.Configbus
use joysteed_maa_s.Configbus.{Change, Outbox, publish_tx}
use joysteed_maa_s.Configbus.Published.{current_of, publish_tx-next, publish_tx-le}
use joysteed_maa_s.Virtualkey.{
  Key, Status, pending, active, failed, revoking, revoked, DesiredState, wanted, unwanted, other,
  is_key, Tables, Error, database, Mutation, moved, save, entity, on_bus, bused, move_key,
}
use joysteed_maa_s.Virtualkey.Rows.{IsKeyed, All-update_row, update_where-IsKeyed}

-- What a row's status says of its wanted state, of its two generations and of its dates.
abbrev pub Matches : Status → Key → Type 0
Matches pending k = (k.desired_state ≡ wanted) × (k.applied_generation < k.desired_generation)
Matches active k =
    (k.desired_state ≡ wanted)
    × (k.applied_generation ≡ k.desired_generation)
    × (k.activated_at ≢ none)
Matches failed k =
    ((k.desired_state ≡ wanted) ⊎ (k.desired_state ≡ unwanted))
    × (k.applied_generation < k.desired_generation)
Matches revoking k = (k.desired_state ≡ unwanted) × (k.applied_generation < k.desired_generation)
Matches revoked k =
    (k.desired_state ≡ unwanted)
    × (k.applied_generation ≡ k.desired_generation)
    × (k.revoked_at ≢ none)
Matches (other s) k = ⊥

-- And no key is ahead of its tenant's generation.
abbrev pub Fits : (Str → ℕ) → Key → Type 0
Fits g k = Matches k.status k × (k.desired_generation ≤ g k.tenant_id)

abbrev pub AreSound : (Str → ℕ) → List Key → Type 0
AreSound g ks = IsKeyed ks × All (Fits g) ks

abbrev pub IsSound : Tables → Type 0
IsSound s = AreSound (λ t. current_of t s.outbox) s.keys

pub Fits-le :
    (g g' : Str → ℕ) (ks : List Key) → ((t : Str) → g t ≤ g' t) → All (Fits g) ks → All (Fits g') ks
Fits-le g g' [] le h = tt
Fits-le g g' (k ∷ ks) le ((m, b), h) = ((m, omega (arith, le k.tenant_id)), Fits-le g g' ks le h)

Matches-le : (s : Status) (k : Key) → Matches s k → k.applied_generation ≤ k.desired_generation
Matches-le pending k m = omega arith
Matches-le active k m = omega arith
Matches-le failed k m = omega arith
Matches-le revoking k m = omega arith
Matches-le revoked k m = omega arith
Matches-le (other s) k m = absurd m

-- The two moves that the store makes: to a key that is to be gone, or back to the work that failed.
abbrev pub Goes : Key → Status × DesiredState → Type 0
Goes row (to, desired) =
    ((to ≡ revoking) × (desired ≡ unwanted)) ⊎ ((to ≡ pending) × (desired ≡ wanted))

moved-Fits :
    (g : Str → ℕ) (row : Key) (to : Status × DesiredState) (c : Change) (now : ℕ)
    → Goes row to
    → Matches row.status row
    → row.desired_generation < c.generation
    → c.generation ≤ g row.tenant_id
    → Fits g (moved row to c now)
moved-Fits g row (to, desired) c now (inl (a, b)) m newer le = (
  subst (λ s. Matches s (moved row (s, desired) c now)) (sym a)
      (b, omega (arith, Matches-le row.status row m)),
  le,
)
moved-Fits g row (to, desired) c now (inr (a, b)) m newer le = (
  subst (λ s. Matches s (moved row (s, desired) c now)) (sym a)
      (b, omega (arith, Matches-le row.status row m)),
  le,
)

pub bused_step {ℓ} :
    {A B : Type 0} {C : Type ℓ} (m : Tx Configbus.Error Outbox A) (k : A → Tx Error Tables B)
    (s : Tables) (fs : Faults) (b : B × Tables × Faults)
    → (on_bus m >>= k) s fs ≡ ok b
    → ((a : A) (o : Outbox) (fs' : Faults)
        → m s.outbox fs ≡ ok (a, o, fs')
        → k a (record s { outbox = o }) fs' ≡ ok b
        → C)
    → C
bused_step {A = A} {B = B} {C = C} m k s fs b h go = went (m s.outbox fs) refl h
  where
    went :
        (r : Result Configbus.Error (A × Outbox × Faults))
        → m s.outbox fs ≡ r
        → ◌>>=◌ {E = Error} {S = Tables} (λ s fs. bused s r) k s fs ≡ ok b
        → C
    went (ok (a, o, fs')) e h = go a o fs' e h
    went (err x) e h = absurd (ground arith)

pub pure_state :
    {A : Type 0} (a b : A) (s s' : Tables) (fs fs' : Faults)
    → pure {E = Error} a s fs ≡ ok (b, s', fs')
    → s ≡ s'
pure_state a b s s' fs fs' h = ground arith

-- What a move that succeeds has written.
pub move_key_ok :
    (t id : Str) (row : Key) (to : Status × DesiredState) (now : ℕ) (s s' : Tables)
    (fs fs' : Faults) (x : Mutation)
    → move_key t id row to now s fs ≡ ok (x, s', fs')
    → (c : Change) × (o : Outbox) × (f : Faults) × (publish_tx t (entity id) now s.outbox fs
        ≡ ok (c, o, f))
      × (s' ≡ save (moved row to c now) (record s { outbox = o }))
unfolding move_key
move_key_ok t id row to now s s' fs fs' x h =
    bused_step (publish_tx t (entity id) now) _ s fs _ h λ c o f e h.
      let answer : Mutation = record {
        key = moved row to c now;
        before = some row;
        secret = [];
        change = some c;
      } in
      exec_step database (save (moved row to c now)) (pure answer) (record s { outbox = o }) f _ h
        λ f' h. (c, o, f, e, sym (pure_state {A = Mutation} answer x _ s' f' fs' h))

pub tenant_of : (t id : Str) (k : Key) → is_key t id k ≡ true → (k.tenant_id == t) ≡ true
tenant_of t id k h = ground arith

pub move_key-IsSound :
    (t id i : Str) (row : Key) (to : Status × DesiredState) (now : ℕ) (s s' : Tables)
    (fs fs' : Faults) (x : Mutation)
    → find (is_key t i) s.keys ≡ some row
    → Goes row to
    → IsSound s
    → move_key t id row to now s fs ≡ ok (x, s', fs')
    → IsSound s'
move_key-IsSound t id i row to now s s' fs fs' x found goes (keyed, fits) h =
    let (c, o, f, e, same) = move_key_ok t id row to now s s' fs fs' x h in
    let (next, mine, others) = publish_tx-next t (entity id) now s.outbox o fs f c e in
    let own : row.tenant_id ≡ t =
      (==_iff row.tenant_id t).0 (tenant_of t i row (find-true (is_key t i) s.keys row found)) in
    let (m, bound) =
      All-find (Fits (λ u. current_of u s.outbox)) (is_key t i) s.keys row fits found in
    let known : row.desired_generation ≤ current_of t s.outbox =
      subst (λ u. row.desired_generation ≤ current_of u s.outbox) own bound in
    let held : c.generation ≤ current_of row.tenant_id o =
      subst (λ u. c.generation ≤ current_of u o) (sym own) (omega arith) in
    subst IsSound (sym same) (
      update_where-IsKeyed (λ k. k.id == row.id) (λ _. moved row to c now) s.keys
          (λ k e. sym ((==_iff k.id row.id).0 e)) keyed,
      All-update_row (Fits (λ u. current_of u o)) t i row (λ k. k.id == row.id)
          (λ _. moved row to c now) s.keys keyed found (λ k e. e)
          (λ _. moved-Fits (λ u. current_of u o) row to c now goes m (omega arith) held)
          (Fits-le (λ u. current_of u s.outbox) (λ u. current_of u o) s.keys
            (λ u. publish_tx-le t (entity id) now s.outbox o fs f c u e) fits),
    )
