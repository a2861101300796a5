-- ===== src/Billing/Sku/Price.antt =====
-- What a request costs (`PriceUsage`).
use joysteed_maa_s.Base.{ℕ, ◌+◌, ◌*◌, ◌/◌, ◌≤◌, ◌<◌, ◌^◌, ◌≡◌, arith, pos, div_ℤ, *ℤ_pos, +ℤ_pos}
use joysteed_maa_s.Billing.Sku.{price}

price-div :
    (t r : ℕ) → t * r + 999999 < 2 ^ 63 → price (pos t) (pos r) ≡ pos ((t * r + 999999) / 1000000)
unfolding price div_ℤ
price-div t r h = ground (arith, *ℤ_pos t r, +ℤ_pos (t * r) 999999)

-- Inside the machine's range a price is the exact product in micros, rounded up to a micro.
pub price_rounds_up :
    (t r : ℕ)
    → t * r + 999999 < 2 ^ 63
    → (c : ℕ) × (price (pos t) (pos r) ≡ pos c)
      × (t * r ≤ c * 1000000)
      × (c * 1000000 < t * r + 1000000)
price_rounds_up t r h = ((t * r + 999999) / 1000000, price-div t r h, omega arith, omega arith)
