-- ===== src/Spoke/Mirror/Dates.antt =====
-- The packed dates of the Things database.
use Prim.Native.Nat.{bit_and, ◌*◌, ◌/◌}
use things_team.Base.{ℕ, ◌+◌, ◌<◌, ◌≡◌, ap, some, arith, false, ◌==◌}
use things_team.Base.Bits.{field_5_7, field_4_12, field_11_16}
use things_team.Spoke.Mirror.{things_date, iso_date}

-- YYYYYYYYYYYMMMMDDDDD0000000 in binary, with any seven bits below
abbrev pub packed : ℕ → ℕ → ℕ → ℕ → ℕ
packed year month day low = year * 65536 + month * 4096 + day * 128 + low

iso_date_fields : (a b c y m d : ℕ) → a ≡ y → b ≡ m → c ≡ d → iso_date a b c ≡ iso_date y m d
iso_date_fields a b c y m d p q r = cc

-- A date packed in a column is read as its three numbers, padded and in ISO order, whatever the seven
-- low bits hold, if the year has at most 11 bits, the month 4 and the day 5, and the day is not 0.
pub things_date-packed :
    (year month day low : ℕ)
    → year < 2048
    → month < 16
    → day < 32
    → low < 128
    → 0 < day
    → things_date (some (packed year month day low)) ≡ some (iso_date year month day)
unfolding things_date
things_date-packed year month day low y m d l nonzero =
    let c : ℕ = packed year month day low in
    let written : (c == 0) ≡ false = ground arith in
    rw written (
      ap some (
        iso_date_fields (bit_and c 134152192 / 65536) (bit_and c 61440 / 4096)
          (bit_and c 3968 / 128) year month day (omega (arith, field_11_16 c))
          (omega (arith, field_4_12 c)) (omega (arith, field_5_7 c))))
