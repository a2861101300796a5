-- ===== src/Registry/Examples.antt =====
-- Runs of the registry, and its theorems at inputs that meet their hypotheses.
use native.Mathlib.Decide.{ℕ_discrete}
use joysteed_maa_s.Base.{
  ℕ, true, false, List, [], ◌∷◌, none, some, Str, text, ◌≡◌, refl, arith, Faults, str_discrete,
  trim_space, select, ok, ◌==◌, ◌≢◌, transaction, map, leb, ◌&&◌, ◌+◌, if◌then◌else◌,
}
use joysteed_maa_s.Registry.Status.{trial, active, deregistered, Status-discrete, can_transition}
use joysteed_maa_s.Registry.Store.{
  Tenant, Tenants, create, update_profile_tx, can_serve_traffic, trial_expired,
}
use joysteed_maa_s.Registry.Lifecycle.{Edge, can_transition-Edge, serve-expired}
use joysteed_maa_s.Registry.Invariant.{IsSound, Call, moves, run}
use joysteed_maa_s.Registry.Invariant.History.{run-IsSound, IsClosed, run-IsClosed}
use joysteed_maa_s.Registry.Invariant.Slugs.{
  registered_row, shadowed, update_profile-unshadowed, create-shadowed,
}

abbrev acme : Tenant
acme = record {
  id = text "t1";
  slug = text "acme";
  name = text "Acme";
  status = trial;
  trial_ends_at = some 90;
  status_changed_at = 10;
  created_at = 5;
  updated_at = 10;
}

abbrev gone : Tenant
gone = record acme {
  id = text "t2";
  slug = text "gone";
  status = deregistered;
  trial_ends_at = none;
}

abbrev rows : Tenants
rows = acme ∷ gone ∷ []

-- A history with a failing statement in it.
abbrev history : List (ℕ × Faults × Call)
history =
    (20, [], moves (text "t1") active)
    ∷ (30, true ∷ [], moves (text "t1") deregistered)
    ∷ (40, [], moves (text "t2") active)
    ∷ []

-- ASCII lower case, for the examples.
abbrev lower_ascii : Str → Str
lower_ascii = map (λ c. if leb 65 c && leb c 90 then c + 32 else c)

can_transition-Edge_example : Edge trial active
can_transition-Edge_example =
    (can_transition-Edge trial active).0 (unfold can_transition Status-discrete in refl)

serve-expired_example : trial_expired acme 50 ≡ false
serve-expired_example = serve-expired acme 50 (unfold can_serve_traffic Status-discrete in refl)

run-IsSound_example : IsSound (run lower_ascii rows history)
run-IsSound_example = run-IsSound lower_ascii rows history ((λ e. omega arith), (tt, tt))

run-IsClosed_example : IsClosed (text "t2") (run lower_ascii rows history)
run-IsClosed_example =
    run-IsClosed lower_ascii (text "t2") rows history
      (gone, unfold str_discrete ℕ_discrete in refl, refl)

abbrev renamed_acme : Tenant
renamed_acme = record acme { slug = text "Acme-2"; name = text "A"; updated_at = 60 }

update_profile-unshadowed_example :
    shadowed lower_ascii
      (text "t1")
      (trim_space (text " Acme-2"))
      (transaction
        (update_profile_tx lower_ascii (text "t1") (text " Acme-2") (text "A") 60)
        rows
        []).1
    ≡ false
update_profile-unshadowed_example =
    update_profile-unshadowed lower_ascii (text "t1") (text " Acme-2") (text "A") 60 rows []
      renamed_acme (unfold update_profile_tx trim_space str_discrete ℕ_discrete in refl)

create-shadowed_example :
    (create (text "t3") (text "Acme") (text "B") 12 rows [] ≡ (
      ok (registered_row (text "t3") (text "Acme") (text "B") 12),
      registered_row (text "t3") (text "Acme") (text "B") 12 ∷ rows,
    ))
    × (select
          (λ u. lower_ascii u.slug == lower_ascii (trim_space (text "Acme")))
          (create (text "t3") (text "Acme") (text "B") 12 rows []).1
        ≡ registered_row (text "t3") (text "Acme") (text "B") 12 ∷ acme ∷ [])
    × (acme.id ≢ text "t3")
create-shadowed_example =
    create-shadowed lower_ascii (text "t3") (text "Acme") (text "B") 12 rows acme refl
      (unfold trim_space in refl) (unfold trim_space str_discrete ℕ_discrete in refl)
      (unfold trim_space str_discrete ℕ_discrete in refl)
