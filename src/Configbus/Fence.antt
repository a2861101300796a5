-- ===== src/Configbus/Fence.antt =====
-- internal/configbus: generations count up, and a node's fences follow them and never go back.
use native.Mathlib.Nat.{le_trans}
use joysteed_maa_s.Base.{
  ℕ, ◌+◌, ◌≤◌, true, false, List, [], ◌∷◌, some, none, Str, ==_iff, find, find-update_where,
  find-true, All, ok, Faults, ◌≡◌, refl, ◌≢◌, arith, Option-cases, inl, inr, subst, sym,
  update_where,
}
use joysteed_maa_s.Configbus.{
  Generation, Change, Outbox, of_tenant, generation_of, publish, Fences, observe, reconcile,
}

observe-le :
    (id : Str) (g : ℕ) (fence : Fences) (fs : Faults) (j : Str)
    → fence j ≤ (observe id g fence fs).1 j
unfolding observe
observe-le id g fence [] j = ground (arith, ==_iff id j)
observe-le id g fence (true ∷ fs) j = ground arith
observe-le id g fence (false ∷ fs) j = ground (arith, ==_iff id j)

reconcile-le :
    (rows : List Generation) (fence : Fences) (fs : Faults) (j : Str)
    → fence j ≤ (reconcile rows fence fs).1 j
unfolding reconcile
reconcile-le [] fence fs j = omega arith
reconcile-le (row ∷ rows) fence fs j =
    let seen = observe row.tenant_id row.generation fence fs in
    le_trans (observe-le row.tenant_id row.generation fence fs j)
      (reconcile-le rows seen.1 seen.2 j)

pub data Event : Type 0 where
  notified : Str → ℕ → Event
  passed : List Generation → Event

-- What a node does with its fences, each time under a schedule of failing reloads.
pub run : Fences → List (Faults × Event) → Fences
run fence [] = fence
run fence ((fs, notified id g) ∷ es) = run (observe id g fence fs).1 es
run fence ((fs, passed rows) ∷ es) = run (reconcile rows fence fs).1 es

-- A fence never goes back, in whatever order old and new notifications and passes arrive and
-- whichever reloads fail.
pub run_monotone :
    (fence : Fences) (es : List (Faults × Event)) (j : Str) → fence j ≤ run fence es j
unfolding run
run_monotone fence [] j = omega arith
run_monotone fence ((fs, notified id g) ∷ es) j =
    le_trans (observe-le id g fence fs j) (run_monotone (observe id g fence fs).1 es j)
run_monotone fence ((fs, passed rows) ∷ es) j =
    le_trans (reconcile-le rows fence fs j) (run_monotone (reconcile rows fence fs).1 es j)

reached : (id : Str) (g : ℕ) (fence : Fences) → id ≢ [] → g ≤ (observe id g fence []).1 id
unfolding observe
reached [] g fence h = absurd (h refl)
reached (c ∷ id) g fence h = ground (arith, ==_iff (c ∷ id) (c ∷ id))

settled : (id : Str) (g : ℕ) (fence : Fences) → (observe id g fence []).2 ≡ []
unfolding observe
settled id g fence = ground arith

-- A pass in which no reload fails brings the node up to every generation that the source lists for a
-- named tenant, whatever it had before.
pub reconcile_converges :
    (rows : List Generation) (fence : Fences)
    → All
        (λ row. row.tenant_id ≢ [] → row.generation ≤ (reconcile rows fence []).1 row.tenant_id)
        rows
unfolding reconcile
reconcile_converges [] fence = tt
reconcile_converges (row ∷ rows) fence =
    let seen = observe row.tenant_id row.generation fence [] in
    (
      λ named.
          le_trans (reached row.tenant_id row.generation fence named)
            (reconcile-le rows seen.1 seen.2 row.tenant_id),
      subst
          (λ fs.
            All (λ r. r.tenant_id ≢ [] → r.generation ≤ (reconcile rows seen.1 fs).1 r.tenant_id)
              rows)
          (sym (settled row.tenant_id row.generation fence)) (reconcile_converges rows seen.1),
    )

abbrev pub bump : ℕ → Generation → Generation
bump now g = record g { generation = g.generation + 1; updated_at = now }

pub others_keep :
    (id j : Str) (now : ℕ) (gs : List Generation)
    → j ≢ id
    → find (of_tenant j) (update_where (of_tenant id) (bump now) gs) ≡ find (of_tenant j) gs
others_keep id j now [] away = refl
others_keep id j now (g ∷ gs) away =
    ground (arith, others_keep id j now gs away, ==_iff g.tenant_id j, ==_iff g.tenant_id id)

published :
    (id entity : Str) (now : ℕ) (s s' : Outbox) (c : Change)
    → publish id entity now s [] ≡ (ok c, s')
    → (c.generation ≡ generation_of (find (of_tenant id) s.generations) + 1)
      × (s'.generations ≡ elim (find (of_tenant id) s.generations) [
        | none ↦ record { tenant_id = id; generation = 1; updated_at = now } ∷ s.generations
        | some g ↦ update_where (of_tenant id) (bump now) s.generations
      ])
unfolding publish
published id entity now s s' c h = elim (Option-cases (find (of_tenant id) s.generations)) [
  | inl e ↦ (ground arith, ground arith)
  | inr (g, e) ↦ (ground arith, ground arith)
]

-- Where no statement fails, a published change bears the generation after the tenant's last one,
-- which becomes the tenant's generation; every other tenant keeps its own.
pub publish-next :
    (id entity : Str) (now : ℕ) (s s' : Outbox) (c : Change) (j : Str)
    → publish id entity now s [] ≡ (ok c, s')
    → (c.generation ≡ generation_of (find (of_tenant id) s.generations) + 1)
      × (generation_of (find (of_tenant id) s'.generations) ≡ c.generation)
      × (j ≢ id → find (of_tenant j) s'.generations ≡ find (of_tenant j) s.generations)
publish-next id entity now s s' c j h =
    let (next, rows) = published id entity now s s' c h in
    elim (Option-cases (find (of_tenant id) s.generations)) [
      | inl e ↦ (next, ground (arith, ==_iff id id), λ away. ground (arith, ==_iff id j))
      | inr (g, e) ↦
          let bumped : s'.generations ≡ update_where (of_tenant id) (bump now) s.generations =
            ground arith in
          (
            next,
            ground (
              arith,
              find-update_where (of_tenant id) (of_tenant id) (bump now) s.generations (λ h. refl),
              find-true (of_tenant id) s.generations g e,
            ),
            λ away. rw bumped (others_keep id j now s.generations away),
          )
    ]
