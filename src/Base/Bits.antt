-- ===== src/Base/Bits.antt =====
-- A field of a packed number, taken out by a mask and a shift.
use Prim.Native.Nat.{ℕ, zero, suc, ◌+◌, ◌*◌, ◌/◌, ◌%◌, ◌≤◌, min, bit_and, digits, bit_and-bitwise}
use mathlib.Core.Path.{◌≡◌, refl, ◌∙◌}
use native.Mathlib.Omega.{arith}

-- `w` ones, and `k` zeros below them
abbrev mask : ℕ → ℕ → ℕ
mask zero zero = 0
mask zero (suc w) = mask zero w * 2 + 1
mask (suc k) w = mask k w * 2

-- The bits of a number that such a mask keeps.
kept : ℕ → ℕ → ℕ → ℕ
kept zero zero a = 0
kept zero (suc w) a = kept zero w (a / 2) * 2 + a % 2
kept (suc k) w a = kept k w (a / 2) * 2

abbrev and_within : ℕ → ℕ → ℕ → ℕ
and_within n a b = digits (λ b. zero) min n a b

none_kept : (n a : ℕ) → and_within n a 0 ≡ 0
none_kept zero a = refl
none_kept (suc n) zero = refl
none_kept (suc n) (suc a) = omega (arith, none_kept n (suc a / 2))

kept-zero : (k w : ℕ) → kept k w 0 ≡ 0
unfolding kept
kept-zero zero zero = refl
kept-zero zero (suc w) = omega (arith, kept-zero zero w)
kept-zero (suc k) w = omega (arith, kept-zero k w)

kept-nothing : (k w a : ℕ) → a ≤ 0 → kept k w a ≡ 0
kept-nothing k w zero h = kept-zero k w
kept-nothing k w (suc a) h = absurd (omega arith)

and_within-mask : (k w n a : ℕ) → a ≤ n → and_within n a (mask k w) ≡ kept k w a
unfolding kept
and_within-mask zero zero n a h = none_kept n a
and_within-mask zero (suc w) zero a h = omega (arith, kept-nothing zero (suc w) a h)
and_within-mask zero (suc w) (suc n) zero h = omega (arith, kept-zero zero w)
and_within-mask zero (suc w) (suc n) (suc a) h =
    let half : (mask zero w * 2 + 1) / 2 ≡ mask zero w = omega arith in
    rw half (omega (arith, and_within-mask zero w n (suc a / 2) (omega arith)))
and_within-mask (suc k) w zero a h = omega (arith, kept-nothing (suc k) w a h)
and_within-mask (suc k) w (suc n) zero h = omega (arith, kept-zero k w)
and_within-mask (suc k) w (suc n) (suc a) h =
    let half : mask k w * 2 / 2 ≡ mask k w = omega arith in
    rw half (omega (arith, and_within-mask k w n (suc a / 2) (omega arith)))

bit_and-mask : (k w a : ℕ) → bit_and a (mask k w) ≡ kept k w a
bit_and-mask k w a = bit_and-bitwise a (mask k w) ∙ and_within-mask k w a a (omega arith)

-- The fields of 5 bits from bit 7, of 4 from bit 12, and of 11 from bit 16.
pub field_5_7 : (a : ℕ) → bit_and a 3968 / 128 ≡ a / 128 % 32
unfolding kept
field_5_7 a = omega (arith, bit_and-mask 7 5 a)

pub field_4_12 : (a : ℕ) → bit_and a 61440 / 4096 ≡ a / 4096 % 16
unfolding kept
field_4_12 a = omega (arith, bit_and-mask 12 4 a)

pub field_11_16 : (a : ℕ) → bit_and a 134152192 / 65536 ≡ a / 65536 % 2048
unfolding kept
field_11_16 a = omega (arith, bit_and-mask 16 11 a)
