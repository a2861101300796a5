-- ===== src/Registry/Invariant.antt =====
-- What holds of every row of the registry of internal/controlplane/store.go, and what one call does.
pub mod History
pub mod Slugs
use joysteed_maa_s.Base.{
  ℕ, Bool, true, false, List, [], ◌∷◌, Option, none, some, Str, ◌==◌, Result, ok, err, ◌≡◌, refl,
  ◌≢◌, ◌⊎◌, inl, inr, arith, find, update_where, trim_space, All, All-update_where,
  find-update_where, Faults, ◌>>=◌, ◌>>◌, transaction, is_empty, Option-cases, Bool-cases,
}
use joysteed_maa_s.Registry.Status.{
  Status, registered, trial, active, suspended, deregistered, other, Status-discrete, same_status,
  valid, can_transition, Error, database, not_found, allowed_transitions,
}
use joysteed_maa_s.Registry.Store.{
  Tenant, Tenants, has_id, taken, lock_tenant, create_tx, create, update_profile_tx, transition_tx,
  transition, start_trial,
}

-- A trial has an end date, which is not the zero time, and no other status has one.
abbrev pub Dated : Status → Option ℕ → Type 0
Dated trial none = ⊥
Dated trial (some e) = e ≢ 0
Dated (other s) o = ⊥
Dated s none = Unit
Dated s (some e) = ⊥

abbrev pub IsSound : Tenants → Type 0
IsSound = All (λ t. Dated t.status t.trial_ends_at)

moved : Str → Status → ℕ → Tenants → Tenants
moved id to now =
    update_where (has_id id)
      λ u. record u { status = to; trial_ends_at = none; status_changed_at = now; updated_at = now }

begun : Str → ℕ → ℕ → Tenants → Tenants
begun id ends_at now = update_where (has_id id) λ u. record u {
  status = trial;
  trial_ends_at = some ends_at;
  status_changed_at = now;
  updated_at = now;
}

renamed : Str → Str → Str → ℕ → Tenants → Tenants
renamed id slug name now =
    update_where (has_id id) λ u. record u { slug = slug; name = name; updated_at = now }

registration : Str → Str → Str → ℕ → Tenant
registration id slug name now = record {
  id = id;
  slug = trim_space slug;
  name = trim_space name;
  status = registered;
  trial_ends_at = none;
  status_changed_at = now;
  created_at = now;
  updated_at = now;
}

-- A call of `transition` leaves the registry alone, or has checked the move against the row that
-- it locked and rewrites that row.
transition_cases :
    (P : Tenants → Type 0) (id : Str) (to : Status) (now : ℕ) (ts : Tenants) (fs : Faults)
    → P ts
    → ((t : Tenant)
        → find (has_id id) ts ≡ some t
        → can_transition t.status to ≡ ok tt
        → same_status to trial ≡ false
        → P (moved id to now ts))
    → P (transition id to now ts fs).1
unfolding transition lock_tenant moved
transition_cases P id to now ts fs keep move = elim (Option-cases (find (has_id id) ts)) [
  | inl e ↦ ground arith
  | inr (t, e) ↦ ground (arith, move t)
]

start_trial_cases :
    (P : Tenants → Type 0) (id : Str) (ends_at now : ℕ) (ts : Tenants) (fs : Faults)
    → P ts
    → ((t : Tenant)
        → find (has_id id) ts ≡ some t
        → can_transition t.status trial ≡ ok tt
        → ends_at ≢ 0
        → P (begun id ends_at now ts))
    → P (start_trial id ends_at now ts fs).1
unfolding start_trial lock_tenant begun
start_trial_cases P id ends_at now ts fs keep move = elim (Option-cases (find (has_id id) ts)) [
  | inl e ↦ ground arith
  | inr (t, e) ↦ ground (arith, move t)
]

update_profile_cases :
    (P : Tenants → Type 0) (lower : Str → Str) (id slug name : Str) (now : ℕ) (ts : Tenants)
    (fs : Faults)
    → P ts
    → P (renamed id (trim_space slug) (trim_space name) now ts)
    → P (transaction (update_profile_tx lower id slug name now) ts fs).1
unfolding update_profile_tx lock_tenant renamed
update_profile_cases P lower id slug name now ts fs keep move = ground arith

create_cases :
    (P : Tenants → Type 0) (id slug name : Str) (now : ℕ) (ts : Tenants) (fs : Faults)
    → P ts
    → (taken id (trim_space slug) ts ≡ false → P (registration id slug name now ∷ ts))
    → P (create id slug name now ts fs).1
unfolding create registration
create_cases P id slug name now ts fs keep move = ground arith

pub data Call : Type 0 where
  creates : Str → Str → Str → Call
  renames : Str → Str → Str → Call
  moves : Str → Status → Call
  starts_trial : Str → ℕ → Call

-- One call, at a time and under a schedule of failing statements.
pub step : (Str → Str) → Tenants → ℕ → Faults → Call → Tenants
step lower ts now fs (creates id slug name) = (create id slug name now ts fs).1
step lower ts now fs (renames id slug name) =
    (transaction (update_profile_tx lower id slug name now) ts fs).1
step lower ts now fs (moves id to) = (transition id to now ts fs).1
step lower ts now fs (starts_trial id ends_at) = (start_trial id ends_at now ts fs).1

pub run : (Str → Str) → Tenants → List (ℕ × Faults × Call) → Tenants
run lower ts [] = ts
run lower ts ((now, fs, c) ∷ cs) = run lower (step lower ts now fs c) cs

moved-IsSound :
    (id : Str) (to : Status) (now : ℕ) (ts : Tenants) (from : Status)
    → can_transition from to ≡ ok tt
    → same_status to trial ≡ false
    → IsSound ts
    → IsSound (moved id to now ts)
unfolding moved
moved-IsSound id to now ts from ok_move other_target =
    All-update_where _ (has_id id) _ ts (λ u _ _. undated to ok_move other_target)
  where
    undated :
        (s : Status) → can_transition from s ≡ ok tt → same_status s trial ≡ false → Dated s none
    undated registered h k = tt
    undated trial h k = absurd (unfold Status-discrete in cc k)
    undated active h k = tt
    undated suspended h k = tt
    undated deregistered h k = tt
    undated (other s) h k = absurd (unfold can_transition in ground (arith, h))

-- Every call keeps the rows dated, whatever the database does.
pub step-IsSound :
    (lower : Str → Str) (ts : Tenants) (now : ℕ) (fs : Faults) (c : Call)
    → IsSound ts
    → IsSound (step lower ts now fs c)
unfolding step
step-IsSound lower ts now fs (creates id slug name) h =
    create_cases IsSound id slug name now ts fs h (λ _. unfold registration in (tt, h))
step-IsSound lower ts now fs (renames id slug name) h =
    update_profile_cases IsSound lower id slug name now ts fs h
      (unfold renamed in All-update_where _ (has_id id) _ ts (λ u _ d. d) h)
step-IsSound lower ts now fs (moves id to) h =
    transition_cases IsSound id to now ts fs h
      (λ t _ ok_move other_target. moved-IsSound id to now ts t.status ok_move other_target h)
step-IsSound lower ts now fs (starts_trial id ends_at) h =
    start_trial_cases IsSound id ends_at now ts fs h
      (λ t _ _ given. unfold begun in All-update_where _ (has_id id) _ ts (λ u _ _. given) h)
