-- ===== src/Wire/Decimal.antt =====
-- `decimal_` of mqtt_envelope_decoder.h and mqtt_result_decoder.h: a transaction id in decimal, as a
-- `uint64_t`.
use Prim.Native.Nat.{◌*◌}
use esphome_communication_ne.Prelude.{
  ℕ, ◌+◌, ◌-◌, ◌/◌, ◌^◌, ◌≤◌, ◌<◌, ◌≡◌, ◌↔◌, refl, Bool, true, false, ◌||◌, Option, none, some, [],
  ◌∷◌, ◌==◌, ltb, if◌then◌else◌, Bytes, All, arith,
}

abbrev pub is_digit : ℕ → Bool
is_digit c = if ltb c b'0' then false else if ltb b'9' c then false else true

-- The loop over the bytes; `number` is what has been read. `maximum` is the largest value of the
-- unsigned type.
unfoldable pub digits_from : ℕ → ℕ → Bytes → Option ℕ
digits_from maximum number [] = some number
digits_from maximum number (c ∷ r) =
    if ltb c b'0' || ltb b'9' c || ltb ((maximum - (c - b'0')) / 10) number
    then none
    else digits_from maximum (number * 10 + (c - b'0')) r

abbrev pub uint64_max : ℕ
uint64_max = 2 ^ 64 - 1

abbrev pub nonzero : Option ℕ → Option ℕ
nonzero none = none
nonzero (some n) = if n == 0 then none else some n

unfoldable pub decimal_ : Bytes → Option ℕ
unfolding digits_from
decimal_ [] = none
decimal_ (c ∷ r) = nonzero (digits_from uint64_max 0 (c ∷ r))

-- The number that a string of digits writes, with no bound on it.
abbrev pub value_from : ℕ → Bytes → ℕ
value_from number [] = number
value_from number (c ∷ r) = value_from (number * 10 + (c - b'0')) r

abbrev pub IsDigit : ℕ → Type 0
IsDigit c = (b'0' ≤ c) × (c ≤ b'9')

pub value_from-le : (number : ℕ) (text : Bytes) → number ≤ value_from number text
value_from-le number [] = omega arith
value_from-le number (c ∷ r) = omega (arith, value_from-le (number * 10 + (c - b'0')) r)

digits_from_sound :
    (maximum number : ℕ) (text : Bytes) (n : ℕ)
    → 9 ≤ maximum
    → number ≤ maximum
    → digits_from maximum number text ≡ some n
    → All IsDigit text × (value_from number text ≡ n) × (n ≤ maximum)
unfolding digits_from
digits_from_sound maximum number [] n m b h = ground arith
digits_from_sound maximum number (c ∷ r) n m b h =
    ground (arith, digits_from_sound maximum (number * 10 + (c - b'0')) r n)

digits_from_complete :
    (maximum number : ℕ) (text : Bytes)
    → 9 ≤ maximum
    → All IsDigit text
    → value_from number text ≤ maximum
    → digits_from maximum number text ≡ some (value_from number text)
unfolding digits_from
digits_from_complete maximum number [] m d b = refl
digits_from_complete maximum number (c ∷ r) m d b = ground (
  arith,
  digits_from_complete maximum (number * 10 + (c - b'0')) r,
  value_from-le (number * 10 + (c - b'0')) r,
)

-- `decimal_` accepts exactly the nonempty strings of digits whose value is from 1 to 2 ^ 64 - 1,
-- leading zeros included, and gives that value.
pub decimal-eq-some_iff :
    (text : Bytes) (n : ℕ)
    → (decimal_ text ≡ some n)
      ↔ (All IsDigit text × (value_from 0 text ≡ n) × (0 < n) × (n ≤ uint64_max))
unfolding decimal_
decimal-eq-some_iff [] n = (λ h. cc, λ h. absurd (omega arith))
decimal-eq-some_iff (c ∷ r) n = (
  λ h. ground (arith, digits_from_sound uint64_max 0 (c ∷ r) n),
  λ h. ground (arith, digits_from_complete uint64_max 0 (c ∷ r)),
)
