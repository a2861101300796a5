-- ===== src/Base/Int.antt =====
-- Go's int64 over the native numbers: integers, and the arithmetic of the machine, which wraps.
use Prim.Native.Nat.{ℕ, suc, ◌+◌, ◌-◌, ◌*◌, ◌/◌, ◌%◌, ◌≤◌, ◌<◌, ◌^◌}
use mathlib.Core.Path.{◌≡◌}
use mathlib.Core.Bool.{Bool}
use native.Mathlib.Omega.{arith}
use joysteed_maa_s.Base.Tests.{ltb, leb, eqb, if◌then◌else◌}

-- `negsuc n` is -(n + 1).
pub data ℤ : Type 0 where
  pos : ℕ → ℤ
  negsuc : ℕ → ℤ

abbrev pub pos_part : ℤ → ℕ
pos_part (pos n) = n
pos_part (negsuc n) = 0

abbrev pub neg_part : ℤ → ℕ
neg_part (pos n) = 0
neg_part (negsuc n) = suc n

-- a - b, as an integer.
abbrev pub sub_ℕ : ℕ → ℕ → ℤ
sub_ℕ a b = if leb b a then pos (a - b) else negsuc (b - a - 1)

infix 50 ◌≤ℤ◌ ◌<ℤ◌
abbrev pub ◌≤ℤ◌ : ℤ → ℤ → Type 0
a ≤ℤ b = pos_part a + neg_part b ≤ pos_part b + neg_part a

abbrev pub ◌<ℤ◌ : ℤ → ℤ → Type 0
a <ℤ b = pos_part a + neg_part b < pos_part b + neg_part a

abbrev pub ltb_ℤ : ℤ → ℤ → Bool
ltb_ℤ a b = ltb (pos_part a + neg_part b) (pos_part b + neg_part a)

abbrev pub leb_ℤ : ℤ → ℤ → Bool
leb_ℤ a b = leb (pos_part a + neg_part b) (pos_part b + neg_part a)

abbrev pub eqb_ℤ : ℤ → ℤ → Bool
eqb_ℤ a b = eqb (pos_part a + neg_part b) (pos_part b + neg_part a)

-- The int64 values.
abbrev pub IsI64 : ℤ → Type 0
IsI64 a = (pos_part a < 2 ^ 63) × (neg_part a ≤ 2 ^ 63)

-- The int64 with the low 64 bits of `a - b`.
unfoldable pub wrap : ℕ → ℕ → ℤ
wrap a b =
    let u = (a + (2 ^ 64 - b % 2 ^ 64)) % 2 ^ 64 in
    if ltb u (2 ^ 63) then pos u else negsuc (2 ^ 64 - 1 - u)

infixl 65 ◌+ℤ◌ ◌-ℤ◌
infixl 70 ◌*ℤ◌
unfoldable pub ◌+ℤ◌ : ℤ → ℤ → ℤ
a +ℤ b = wrap (pos_part a + pos_part b) (neg_part a + neg_part b)

unfoldable pub ◌-ℤ◌ : ℤ → ℤ → ℤ
a -ℤ b = wrap (pos_part a + neg_part b) (neg_part a + pos_part b)

unfoldable pub ◌*ℤ◌ : ℤ → ℤ → ℤ
a *ℤ b =
    wrap (pos_part a * pos_part b + neg_part a * neg_part b)
      (pos_part a * neg_part b + neg_part a * pos_part b)

-- Division by a positive constant, towards zero, as Go divides.
unfoldable pub div_ℤ : ℤ → ℕ → ℤ
div_ℤ (pos n) k = pos (n / k)
div_ℤ (negsuc n) k = sub_ℕ 0 (suc n / k)

-- Inside the range the machine's arithmetic is exact.
pub wrap-exact :
    (a b : ℕ) → a < b + 2 ^ 63 → b ≤ a + 2 ^ 63 → pos_part (wrap a b) + b ≡ neg_part (wrap a b) + a
unfolding wrap
wrap-exact a b h k = ground arith

pub wrap-IsI64 : (a b : ℕ) → IsI64 (wrap a b)
unfolding wrap
wrap-IsI64 a b = ground arith

pub +ℤ_parts :
    (a b : ℤ)
    → pos_part a + pos_part b < neg_part a + neg_part b + 2 ^ 63
    → neg_part a + neg_part b ≤ pos_part a + pos_part b + 2 ^ 63
    → pos_part (a +ℤ b) + neg_part a + neg_part b ≡ neg_part (a +ℤ b) + pos_part a + pos_part b
unfolding ◌+ℤ◌
+ℤ_parts a b h k = omega (arith, wrap-exact (pos_part a + pos_part b) (neg_part a + neg_part b) h k)

pub -ℤ_parts :
    (a b : ℤ)
    → pos_part a + neg_part b < neg_part a + pos_part b + 2 ^ 63
    → neg_part a + pos_part b ≤ pos_part a + neg_part b + 2 ^ 63
    → pos_part (a -ℤ b) + neg_part a + pos_part b ≡ neg_part (a -ℤ b) + pos_part a + neg_part b
unfolding ◌-ℤ◌
-ℤ_parts a b h k = omega (arith, wrap-exact (pos_part a + neg_part b) (neg_part a + pos_part b) h k)

pub +ℤ-IsI64 : (a b : ℤ) → IsI64 (a +ℤ b)
unfolding ◌+ℤ◌
+ℤ-IsI64 a b = wrap-IsI64 (pos_part a + pos_part b) (neg_part a + neg_part b)

pub -ℤ-IsI64 : (a b : ℤ) → IsI64 (a -ℤ b)
unfolding ◌-ℤ◌
-ℤ-IsI64 a b = wrap-IsI64 (pos_part a + neg_part b) (neg_part a + pos_part b)

pub eq_of_parts : (a b : ℤ) → pos_part a + neg_part b ≡ pos_part b + neg_part a → a ≡ b
eq_of_parts a b h = ground arith

-- The parts never both differ from zero.
pub parts-zero : (a : ℤ) → pos_part a * neg_part a ≡ 0
parts-zero a = ground arith

-- Arithmetic on numbers that are not negative and stay in range is that of the numbers.
pub +ℤ_pos : (a b : ℕ) → a + b < 2 ^ 63 → pos a +ℤ pos b ≡ pos (a + b)
unfolding ◌+ℤ◌
+ℤ_pos a b h = eq_of_parts _ _ (omega (arith, wrap-exact (a + b) 0 h (omega arith)))

pub *ℤ_pos : (a b : ℕ) → a * b < 2 ^ 63 → pos a *ℤ pos b ≡ pos (a * b)
unfolding ◌*ℤ◌
*ℤ_pos a b h =
    eq_of_parts _ _
      (omega (arith, wrap-exact (a * b + 0 * 0) (a * 0 + 0 * b) (omega arith) (omega arith)))

pub -ℤ_pos : (a b : ℕ) → b ≤ a → a < 2 ^ 63 → pos a -ℤ pos b ≡ pos (a - b)
unfolding ◌-ℤ◌
-ℤ_pos a b h k =
    eq_of_parts _ _ (omega (arith, wrap-exact (a + 0) (0 + b) (omega arith) (omega arith)))
