-- ===== src/Registry/Invariant/History.antt =====
-- What no history of calls on the registry of internal/controlplane can do.
use joysteed_maa_s.Base.{
  ℕ, Bool, true, false, List, [], ◌∷◌, some, Str, ◌==◌, ◌≡◌, refl, ◌≢◌, inl, inr, arith, find,
  find-update_where, update_where, Faults, ok, Bool-cases, subst, trim_space, ◌||◌, find-true,
  any-find, if◌then◌else◌,
}
use joysteed_maa_s.Registry.Status.{Status, trial, deregistered, can_transition}
use joysteed_maa_s.Registry.Store.{Tenant, Tenants, has_id, taken}
use joysteed_maa_s.Registry.Invariant.{
  IsSound, Call, creates, renames, moves, starts_trial, step, run, step-IsSound, moved, begun,
  renamed, registration, transition_cases, start_trial_cases, update_profile_cases, create_cases,
}

-- Whatever is called, in whatever order, and whichever statements fail, every row of a registry
-- that starts empty has an end date exactly while it is on trial, and a status that is known.
pub run-IsSound :
    (lower : Str → Str) (ts : Tenants) (cs : List (ℕ × Faults × Call))
    → IsSound ts
    → IsSound (run lower ts cs)
unfolding run
run-IsSound lower ts [] h = h
run-IsSound lower ts ((now, fs, c) ∷ cs) h =
    run-IsSound lower (step lower ts now fs c) cs (step-IsSound lower ts now fs c h)

-- The tenant is closed.
abbrev pub IsClosed : Str → Tenants → Type 0
IsClosed id ts = (t : Tenant) × (find (has_id id) ts ≡ some t) × (t.status ≡ deregistered)

-- A row that another tenant's update leaves alone, or that keeps its status, stays closed.
IsClosed-update_where :
    (id id' : Str) (f : Tenant → Tenant) (ts : Tenants)
    → ((u : Tenant) → has_id id (f u) ≡ has_id id u)
    → ((u : Tenant)
        → has_id id u ≡ true
        → has_id id' u ≡ true
        → u.status ≡ deregistered
        → (f u).status ≡ deregistered)
    → IsClosed id ts
    → IsClosed id (update_where (has_id id') f ts)
IsClosed-update_where id id' f ts same_id same_status (t, e, d) = (
  if has_id id' t then f t else t,
  ground (arith, find-update_where (has_id id) (has_id id') f ts same_id),
  kept (has_id id' t) refl,
)
  where
    kept : (b : Bool) → has_id id' t ≡ b → (if b then f t else t).status ≡ deregistered
    kept true h = same_status t (find-true (has_id id) ts t e) h d
    kept false h = d

-- No move out of the closed row passes the check, so the check that passed was on another row.
not_closed :
    (id id' : Str) (ts : Tenants) (to : Status) (t : Tenant)
    → find (has_id id') ts ≡ some t
    → can_transition t.status to ≡ ok tt
    → IsClosed id ts
    → id ≢ id'
unfolding can_transition
not_closed id id' ts to t found moved_ok (u, e, d) same =
    let found' : find (has_id id') ts ≡ some u = subst (λ i. find (has_id i) ts ≡ some u) same e in
    ground arith

same_row : (id id' : Str) (u : Tenant) → has_id id u ≡ true → has_id id' u ≡ true → id ≡ id'
same_row id id' u h k = ground arith

-- A new row under the closed tenant's key is refused.
registration-IsClosed :
    (id id' slug name : Str) (now : ℕ) (ts : Tenants)
    → taken id' (trim_space slug) ts ≡ false
    → IsClosed id ts
    → IsClosed id (registration id' slug name now ∷ ts)
unfolding registration
registration-IsClosed id id' slug name now ts free (t, e, d) = elim (Bool-cases (id' == id)) [
  | inl h ↦ absurd (
      ground (
        arith,
        any-find (has_id id) (λ u. u.id == id' || u.slug == trim_space slug) ts t
            (λ u k. ground arith) e,
      ))
  | inr h ↦ (t, rw h e, d)
]

pub step-IsClosed :
    (lower : Str → Str) (id : Str) (ts : Tenants) (now : ℕ) (fs : Faults) (c : Call)
    → IsClosed id ts
    → IsClosed id (step lower ts now fs c)
unfolding step
step-IsClosed lower id ts now fs (creates id' slug name) h =
    create_cases (IsClosed id) id' slug name now ts fs h
      (λ free. registration-IsClosed id id' slug name now ts free h)
step-IsClosed lower id ts now fs (renames id' slug name) h =
    update_profile_cases (IsClosed id) lower id' slug name now ts fs h
      (unfold renamed in IsClosed-update_where id id' _ ts (λ u. refl) (λ u _ _ d. d) h)
step-IsClosed lower id ts now fs (moves id' to) h =
    transition_cases (IsClosed id) id' to now ts fs h λ t found moved_ok _.
      unfold moved in
      IsClosed-update_where id id' _ ts (λ u. refl)
        (λ u k k' _. absurd (not_closed id id' ts to t found moved_ok h (same_row id id' u k k'))) h
step-IsClosed lower id ts now fs (starts_trial id' ends_at) h =
    start_trial_cases (IsClosed id) id' ends_at now ts fs h λ t found moved_ok _.
      unfold begun in
      IsClosed-update_where id id' _ ts (λ u. refl)
        (λ u k k' _.
          absurd (not_closed id id' ts trial t found moved_ok h (same_row id id' u k k')))
        h

-- A closed tenant stays closed, whatever is called from then on.
pub run-IsClosed :
    (lower : Str → Str) (id : Str) (ts : Tenants) (cs : List (ℕ × Faults × Call))
    → IsClosed id ts
    → IsClosed id (run lower ts cs)
unfolding run
run-IsClosed lower id ts [] h = h
run-IsClosed lower id ts ((now, fs, c) ∷ cs) h =
    run-IsClosed lower id (step lower ts now fs c) cs (step-IsClosed lower id ts now fs c h)
