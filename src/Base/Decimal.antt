-- ===== src/Base/Decimal.antt =====
-- Go's `strconv.Atoi` on a 64-bit platform.
use mosquitto_operator.Base.{
  ℕ, zero, suc, ◌+◌, ◌-◌, ◌*◌, ◌/◌, ◌%◌, ◌^◌, ◌≡◌, refl, Option, none, some, [], ◌∷◌, Bytes, leb,
  ltb, ◌==◌, ◌&&◌, if◌then◌else◌, codes,
}

-- `negsuc n` is -(n + 1).
pub data ℤ : Type 0 where
  pos : ℕ → ℤ
  negsuc : ℕ → ℤ

-- The number that digits spell behind `n`; `none` at another byte.
digits : ℕ → Bytes → Option ℕ
digits n [] = some n
digits n (c ∷ s) = if leb b'0' c && leb c b'9' then digits (n * 10 + (c - b'0')) s else none

unsigned : Bytes → Option ℕ
unsigned [] = none
unsigned (c ∷ s) = digits 0 (c ∷ s)

positive : Option ℕ → Option ℤ
positive none = none
positive (some n) = if ltb n (2 ^ 63) then some (pos n) else none

negative : Option ℕ → Option ℤ
negative none = none
negative (some n) =
    if n == 0 then some (pos 0) else if leb n (2 ^ 63) then some (negsuc (n - 1)) else none

unfoldable pub atoi : Bytes → Option ℤ
unfolding digits unsigned positive negative
atoi [] = none
atoi (c ∷ s) =
    if c == b'-'
    then negative (unsigned s)
    else if c == b'+'
    then positive (unsigned s)
    else positive (unsigned (c ∷ s))

atoi_test : atoi (codes "1000") ≡ some (pos 1000)
unfolding atoi
atoi_test = refl

-- `%d`: the digits before `out`. The fuel is the number of digits at most.
digits_of : ℕ → ℕ → Bytes → Bytes
digits_of zero n out = out
digits_of (suc fuel) n out =
    let rest = digits_of fuel (n / 10) ((b'0' + n % 10) ∷ out) in if n == 0 then out else rest

-- A 64-bit number has at most 20 digits.
unfoldable pub itoa : ℕ → Bytes
unfolding digits_of
itoa n = if n == 0 then b'0' ∷ [] else digits_of 20 n []

itoa_test : itoa 18446744073709551615 ≡ codes "18446744073709551615"
unfolding itoa
itoa_test = refl
