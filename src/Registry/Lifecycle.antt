-- ===== src/Registry/Lifecycle.antt =====
-- What the lifecycle of internal/controlplane/lifecycle.go permits.
use joysteed_maa_s.Base.{ℕ, true, false, some, ok, ◌≡◌, refl, ◌↔◌, ◌⊎◌, arith, ◌<◌}
use joysteed_maa_s.Registry.Status.{
  Status, registered, trial, active, suspended, deregistered, Status-discrete, can_transition,
  terminal_status,
}
use joysteed_maa_s.Registry.Store.{Tenant, can_serve_traffic, trial_expired}

-- The lifecycle diagram, move by move.
pub data Edge : Status → Status → Type 0 where
  begin_trial : Edge registered trial
  sign : Edge registered active
  withdraw : Edge registered deregistered
  convert : Edge trial active
  expire : Edge trial suspended
  leave_trial : Edge trial deregistered
  miss_payment : Edge active suspended
  close : Edge active deregistered
  pay : Edge suspended active
  close_suspended : Edge suspended deregistered

ruleset edges = (
  begin_trial, sign, withdraw, convert, expire, leave_trial, miss_payment, close, pay,
  close_suspended,
)

Edge-ok : {s t : Status} → Edge s t → can_transition s t ≡ ok tt
unfolding can_transition Status-discrete
Edge-ok begin_trial = refl
Edge-ok sign = refl
Edge-ok withdraw = refl
Edge-ok convert = refl
Edge-ok expire = refl
Edge-ok leave_trial = refl
Edge-ok miss_payment = refl
Edge-ok close = refl
Edge-ok pay = refl
Edge-ok close_suspended = refl

ok-Edge : (s t : Status) → can_transition s t ≡ ok tt → Edge s t
unfolding can_transition Status-discrete
ok-Edge registered trial h = begin_trial
ok-Edge registered active h = sign
ok-Edge registered deregistered h = withdraw
ok-Edge trial active h = convert
ok-Edge trial suspended h = expire
ok-Edge trial deregistered h = leave_trial
ok-Edge active suspended h = miss_payment
ok-Edge active deregistered h = close
ok-Edge suspended active h = pay
ok-Edge suspended deregistered h = close_suspended
ok-Edge _ _ h = absurd (ground arith)

-- `can_transition` accepts exactly the moves of the diagram.
pub can_transition-Edge : (s t : Status) → (can_transition s t ≡ ok tt) ↔ Edge s t
can_transition-Edge s t = (ok-Edge s t, Edge-ok)

-- `deregistered` is the one terminal status.
pub terminal_status-deregistered : (s : Status) → (terminal_status s ≡ true) ↔ (s ≡ deregistered)
unfolding terminal_status
terminal_status-deregistered s = (from s, λ e. ground arith)
  where
    from : (s : Status) → terminal_status s ≡ true → s ≡ deregistered
    from registered h = ground arith
    from _ h = ground arith

serves :
    (t : Tenant) (now : ℕ)
    → can_serve_traffic t now ≡ true
    → (t.status ≡ active)
      ⊎ ((t.status ≡ trial) × ((e : ℕ) × (t.trial_ends_at ≡ some e) × (now < e)))
unfolding can_serve_traffic
serves t now h = ground arith

served :
    (t : Tenant) (now : ℕ)
    → (t.status ≡ active)
      ⊎ ((t.status ≡ trial) × ((e : ℕ) × (t.trial_ends_at ≡ some e) × (now < e)))
    → can_serve_traffic t now ≡ true
unfolding can_serve_traffic
served t now h = ground arith

-- A tenant serves exactly while it is active, or on a trial whose end lies ahead.
pub can_serve_traffic_iff :
    (t : Tenant) (now : ℕ)
    → (can_serve_traffic t now ≡ true) ↔ (
        (t.status ≡ active)
        ⊎ ((t.status ≡ trial) × ((e : ℕ) × (t.trial_ends_at ≡ some e) × (now < e))))
can_serve_traffic_iff t now = (serves t now, λ h. served t now h)

-- No tenant is served and due for expiry at the same time.
pub serve-expired :
    (t : Tenant) (now : ℕ) → can_serve_traffic t now ≡ true → trial_expired t now ≡ false
unfolding can_serve_traffic trial_expired
serve-expired t now h = ground arith
