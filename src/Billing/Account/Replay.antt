-- ===== src/Billing/Account/Replay.antt =====
-- Repeated calls on reservations of internal/billing.
use joysteed_maa_s.Base.{
  ℕ, [], Str, find, find-update_where, ℤ, ◌≡◌, refl, arith, Faults, ok, err, Option-cases, inl, inr,
  find-true,
}
use joysteed_maa_s.Billing.Sku.{reservation_state}
use joysteed_maa_s.Billing.Account.{
  Ledger, Reservation, HoldStatus-discrete, captured, identified, keyed, owned_by, reserve, release,
  capture,
}

-- A reservation that succeeded can be asked for again: the answer is the same reservation, and
-- nothing more is held.
pub reserve_again :
    (tenant key : Str) (amount : ℤ) (now later : ℕ) (l l' : Ledger) (fs : Faults) (r : Reservation)
    → reserve tenant key amount now l fs ≡ (ok r, l')
    → reserve tenant key amount later l' [] ≡ (ok r, l')
unfolding reserve HoldStatus-discrete
reserve_again tenant key amount now later l l' fs r h =
    elim (Option-cases (find (keyed key) l.reservations)) [
      | inr (q, e) ↦ ground arith
      | inl e ↦ elim (Option-cases (find (owned_by tenant) l.accounts)) [
        | inl k ↦ absurd (ground arith)
        | inr (a, k) ↦ ground arith
      ]
    ]

-- A captured reservation stays captured: a second capture succeeds and takes nothing, and a release
-- is refused.
pub capture_settles :
    (id : Str) (now later : ℕ) (l l' : Ledger) (fs : Faults)
    → capture id now l fs ≡ (ok tt, l')
    → (capture id later l' [] ≡ (ok tt, l'))
      × (release id later l' [] ≡ (err reservation_state, l'))
unfolding capture release HoldStatus-discrete
capture_settles id now later l l' fs h = elim (Option-cases (find (identified id) l.reservations)) [
  | inl e ↦ absurd (ground arith)
  | inr (r, e) ↦ elim (Option-cases (find (owned_by r.tenant_id) l.accounts)) [
    | inl k ↦ ground arith
    | inr (a, k) ↦ ground (
      arith,
      find-true (identified id) l.reservations r e,
      find-update_where (identified id) (identified r.id)
          (λ (q : Reservation). record q { status = captured; updated_at = now }) l.reservations
          (λ u. refl),
    )
  ]
]
