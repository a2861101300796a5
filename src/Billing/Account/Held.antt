-- ===== src/Billing/Account/Held.antt =====
-- How much of a tenant's balance the open reservations of internal/billing hold.
use joysteed_maa_s.Base.{
  ℕ, ◌+◌, ◌<◌, false, ◌&&◌, List, [], ◌∷◌, some, Str, ◌==◌, any, find, update_where, pos_part,
  neg_part, ◌≡◌, refl, ◌≢◌, arith, if◌then◌else◌, Bool-cases, inl, inr,
}
use joysteed_maa_s.Billing.Account.{Reservation, HoldStatus, same_status, reserved, identified}

-- What a reservation holds of a tenant's balance.
abbrev pub weight : Str → Reservation → ℕ
weight tenant r =
    if r.tenant_id == tenant && same_status r.status reserved then pos_part r.amount_micros else 0

abbrev pub held : Str → List Reservation → ℕ
held tenant [] = 0
held tenant (r ∷ rs) = weight tenant r + held tenant rs

-- No two reservations share an id.
abbrev pub Distinct : List Reservation → Type 0
Distinct [] = Unit
Distinct (r ∷ rs) = (any (identified r.id) rs ≡ false) × Distinct rs

-- An amount is positive.
abbrev pub IsCharge : Reservation → Type 0
IsCharge r = (neg_part r.amount_micros ≡ 0) × (0 < pos_part r.amount_micros)

unfoldable pub settled : Str → HoldStatus → ℕ → List Reservation → List Reservation
settled id to now = update_where (identified id) λ q. record q { status = to; updated_at = now }

settled_other :
    (id : Str) (to : HoldStatus) (now : ℕ) (rs : List Reservation)
    → any (identified id) rs ≡ false
    → settled id to now rs ≡ rs
unfolding settled
settled_other id to now [] h = refl
settled_other id to now (r ∷ rs) h = ground (arith, settled_other id to now rs)

any-settled :
    (id id' : Str) (to : HoldStatus) (now : ℕ) (rs : List Reservation)
    → any (identified id') (settled id to now rs) ≡ any (identified id') rs
unfolding settled
any-settled id id' to now [] = refl
any-settled id id' to now (r ∷ rs) = ground (arith, any-settled id id' to now rs)

pub settled-Distinct :
    (id : Str) (to : HoldStatus) (now : ℕ) (rs : List Reservation)
    → Distinct rs
    → Distinct (settled id to now rs)
unfolding settled
settled-Distinct id to now [] h = tt
settled-Distinct id to now (r ∷ rs) h =
    ground (arith, any-settled id r.id to now rs, settled-Distinct id to now rs h.1)

-- Settling an open reservation frees its weight, and no other tenant's.
pub held-settled :
    (tenant id : Str) (to : HoldStatus) (now : ℕ) (rs : List Reservation) (r : Reservation)
    → to ≢ reserved
    → Distinct rs
    → find (identified id) rs ≡ some r
    → held tenant (settled id to now rs) + weight tenant r ≡ held tenant rs
unfolding settled
held-settled tenant id to now [] r away d e = absurd (ground arith)
held-settled tenant id to now (q ∷ rs) r away d e = elim (Bool-cases (identified id q)) [
  | inl hit ↦ ground (arith, settled_other id to now rs)
  | inr miss ↦ ground (arith, held-settled tenant id to now rs r away d.1)
]
