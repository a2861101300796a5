-- ===== src/Configbus/Published.antt =====
-- internal/configbus: what PublishTx leaves in a transaction of its caller, whichever statements fail.
use joysteed_maa_s.Base.{
  ℕ, ◌+◌, ◌≤◌, true, false, [], ◌∷◌, some, none, Str, ◌==◌, ==_iff, ne_of_test, find,
  find-update_where, find-true, ok, Faults, ◌≡◌, refl, ◌≢◌, arith, Option-cases, Bool-cases, inl,
  inr, subst, sym, ap, ◌∙◌, update_where,
}
use joysteed_maa_s.Configbus.{Change, Outbox, of_tenant, generation_of, publish_tx}
use joysteed_maa_s.Configbus.Fence.{bump, others_keep}

abbrev pub current_of : Str → Outbox → ℕ
current_of id o = generation_of (find (of_tenant id) o.generations)

-- The rows after a publication, and the change that it returns.
abbrev IsAdvanced : Str → ℕ → Outbox → Outbox → Change → Type 0
IsAdvanced id now o o' c =
    (c.generation ≡ current_of id o + 1)
    × (o'.generations ≡ elim (find (of_tenant id) o.generations) [
      | none ↦ record { tenant_id = id; generation = 1; updated_at = now } ∷ o.generations
      | some g ↦ update_where (of_tenant id) (bump now) o.generations
    ])

advanced :
    (id entity : Str) (now : ℕ) (o o' : Outbox) (fs fs' : Faults) (c : Change)
    → publish_tx id entity now o fs ≡ ok (c, o', fs')
    → IsAdvanced id now o o' c
unfolding publish_tx
advanced id entity now o o' [] fs' c h = elim (Option-cases (find (of_tenant id) o.generations)) [
  | inl e ↦ (ground arith, ground arith)
  | inr (g, e) ↦ (ground arith, ground arith)
]
advanced id entity now o o' (true ∷ fs) fs' c h =
    elim (Option-cases (find (of_tenant id) o.generations)) [
      | inl e ↦ absurd (ground arith)
      | inr (g, e) ↦ absurd (ground arith)
    ]
advanced id entity now o o' (false ∷ []) fs' c h =
    elim (Option-cases (find (of_tenant id) o.generations)) [
      | inl e ↦ (ground arith, ground arith)
      | inr (g, e) ↦ (ground arith, ground arith)
    ]
advanced id entity now o o' (false ∷ true ∷ fs) fs' c h =
    elim (Option-cases (find (of_tenant id) o.generations)) [
      | inl e ↦ absurd (ground arith)
      | inr (g, e) ↦ absurd (ground arith)
    ]
advanced id entity now o o' (false ∷ false ∷ fs) fs' c h =
    elim (Option-cases (find (of_tenant id) o.generations)) [
      | inl e ↦ (ground arith, ground arith)
      | inr (g, e) ↦ (ground arith, ground arith)
    ]

-- A publication that succeeds bears the generation after the tenant's last one, which becomes the
-- tenant's generation; every other tenant keeps its own.
pub publish_tx-next :
    (id entity : Str) (now : ℕ) (o o' : Outbox) (fs fs' : Faults) (c : Change)
    → publish_tx id entity now o fs ≡ ok (c, o', fs')
    → (c.generation ≡ current_of id o + 1)
      × (current_of id o' ≡ c.generation)
      × ((j : Str) → j ≢ id → current_of j o' ≡ current_of j o)
publish_tx-next id entity now o o' fs fs' c h =
    let (next, rows) = advanced id entity now o o' fs fs' c h in
    elim (Option-cases (find (of_tenant id) o.generations)) [
      | inl e ↦ (next, ground (arith, ==_iff id id), λ j away. ground (arith, ==_iff id j))
      | inr (g, e) ↦
          let bumped : o'.generations ≡ update_where (of_tenant id) (bump now) o.generations =
            ground arith in
          (
            next,
            ground (
              arith,
              find-update_where (of_tenant id) (of_tenant id) (bump now) o.generations (λ h. refl),
              find-true (of_tenant id) o.generations g e,
            ),
            λ j away.
                ap (λ gs. generation_of (find (of_tenant j) gs)) bumped
                ∙ ap generation_of (others_keep id j now o.generations away),
          )
    ]

-- No tenant's generation goes back.
pub publish_tx-le :
    (id entity : Str) (now : ℕ) (o o' : Outbox) (fs fs' : Faults) (c : Change) (j : Str)
    → publish_tx id entity now o fs ≡ ok (c, o', fs')
    → current_of j o ≤ current_of j o'
publish_tx-le id entity now o o' fs fs' c j h =
    let (next, mine, others) = publish_tx-next id entity now o o' fs fs' c h in
    elim (Bool-cases (j == id)) [
      | inl e ↦
          subst (λ k. current_of k o ≤ current_of k o') (sym ((==_iff j id).0 e)) (omega arith)
      | inr n ↦ omega (arith, others j (ne_of_test j id n))
    ]
