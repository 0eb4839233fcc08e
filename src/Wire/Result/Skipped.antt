-- ===== src/Wire/Result/Skipped.antt =====
-- `skip_` of mqtt_result_decoder.h passes over exactly one value.
use esphome_communication_ne.Prelude.{
  ℕ, suc, ◌+◌, ◌≤◌, ◌<◌, ◌≡◌, ◌≢◌, refl, Bool, true, false, Option, none, some, List, [], ◌∷◌,
  length, length-append, Bytes, arith,
}
use esphome_communication_ne.Wire.Reader.{Reader, is_space, space_, readers}
use esphome_communication_ne.Wire.Result.Skip.{skip_number, skip_from, skip_items, skip_inside}
use esphome_communication_ne.Wire.Result.Values.{
  Letter, plain, escaped, true_word, false_word, null_word, Value, Values, Members, string, number,
  word, empty, array, object, end, item, done, member, print_letters, print_fraction, print_number,
  IsWhole, whole-IsDigit, print, print_values, print_members, Fits,
}

letters-length : (ls : List Letter) (rest : Bytes) → length rest < length (print_letters ls rest)
letters-length [] rest = omega arith
letters-length (plain c ∷ ls) rest = omega (arith, letters-length ls rest)
letters-length (escaped c ∷ ls) rest = omega (arith, letters-length ls rest)

fraction-length :
    (part : Option Bytes) (rest : Bytes) → length rest ≤ length (print_fraction part rest)
fraction-length none rest = omega arith
fraction-length (some part) rest = omega (arith, length-append part rest)

number-length :
    (negative : Bool) (whole : Bytes) (part : Option Bytes) (rest : Bytes)
    → length rest ≤ length (print_number negative whole part rest)
number-length true whole part rest =
    omega (arith, length-append whole (print_fraction part rest), fraction-length part rest)
number-length false whole part rest =
    omega (arith, length-append whole (print_fraction part rest), fraction-length part rest)

-- How many items a list holds.
unfoldable pub count : Values → ℕ
count end = 0
count (item v vs) = suc (count vs)

unfoldable pub count_members : Members → ℕ
count_members done = 0
count_members (member k v ms) = suc (count_members ms)

mutual
  unfolding print print_values print_members count count_members

  pub print-length : (v : Value) (rest : Bytes) → length rest ≤ length (print v rest)
  print-length (string ls) rest = omega (arith, letters-length ls rest)
  print-length (number negative whole part) rest = number-length negative whole part rest
  print-length (word true_word) rest = omega arith
  print-length (word false_word) rest = omega arith
  print-length (word null_word) rest = omega arith
  print-length (empty true) rest = omega arith
  print-length (empty false) rest = omega arith
  print-length (array v vs) rest =
      omega (arith, print-length v (print_values vs rest), values-length vs rest)
  print-length (object k v ms) rest = omega (
    arith,
    print-length k (b':' ∷ print v (print_members ms rest)),
    print-length v (print_members ms rest),
    members-length ms rest,
  )

  pub values-length :
      (vs : Values) (rest : Bytes) → count vs + length rest < length (print_values vs rest)
  values-length end rest = omega arith
  values-length (item v vs) rest =
      omega (arith, print-length v (print_values vs rest), values-length vs rest)

  pub members-length :
      (ms : Members) (rest : Bytes)
      → count_members ms + length rest < length (print_members ms rest)
  members-length done rest = omega arith
  members-length (member k v ms) rest = omega (
    arith,
    print-length k (b':' ∷ print v (print_members ms rest)),
    print-length v (print_members ms rest),
    members-length ms rest,
  )

-- A number starts with no blank and with none of the bytes that start another value.
pub number_from :
    (inside : Bool → Reader (Unit {0})) (negative : Bool) (whole : Bytes) (part : Option Bytes)
    (rest : Bytes)
    → IsWhole whole
    → skip_from inside (space_ (print_number negative whole part rest))
      ≡ skip_number (print_number negative whole part rest)
unfolding skip_from space_
number_from inside negative [] part rest w = absurd w
number_from inside true (d ∷ whole) part rest w = refl
number_from inside false (d ∷ whole) part rest w =
    let digit = whole-IsDigit d whole w in ground arith

-- The first byte of a value.
abbrev pub IsStart : ℕ → Type 0
IsStart d = (is_space d ≡ false) × (d ≢ b']') × (d ≢ b'}')

pub print-IsStart :
    (v : Value) (levels : ℕ) (rest : Bytes)
    → Fits v levels
    → (d : ℕ) × (r : Bytes) × (print v rest ≡ d ∷ r) × IsStart d
unfolding print Fits
print-IsStart (string ls) levels rest h = (_, _, refl, (refl, omega arith, omega arith))
print-IsStart (number true whole part) levels rest h =
    (_, _, refl, (refl, omega arith, omega arith))
print-IsStart (number false [] part) levels rest h = absurd h.0
print-IsStart (number false (d ∷ whole) part) levels rest h =
    let digit = whole-IsDigit d whole h.0 in
    (_, _, refl, (ground arith, ground arith, ground arith))
print-IsStart (word true_word) levels rest h = (_, _, refl, (refl, omega arith, omega arith))
print-IsStart (word false_word) levels rest h = (_, _, refl, (refl, omega arith, omega arith))
print-IsStart (word null_word) levels rest h = (_, _, refl, (refl, omega arith, omega arith))
print-IsStart (empty true) levels rest h = (_, _, refl, (refl, omega arith, omega arith))
print-IsStart (empty false) levels rest h = (_, _, refl, (refl, omega arith, omega arith))
print-IsStart (array v vs) levels rest h = (_, _, refl, (refl, omega arith, omega arith))
print-IsStart (object k v ms) levels rest h = (_, _, refl, (refl, omega arith, omega arith))

module _ (value : Reader (Unit {0})) where
  -- An array or an object with something in it goes to the loop.
  pub inside_filled :
      (b : Bool) (d : ℕ) (r : Bytes)
      → IsStart d
      → skip_inside value b (d ∷ r) ≡ skip_items value (suc (length (d ∷ r))) b (d ∷ r)
  unfolding skip_inside readers
  inside_filled true d r h = let no_space = h.0 in rw no_space (ground (arith, h.2))
  inside_filled false d r h = let no_space = h.0 in rw no_space (ground (arith, h.1))

  -- The same for a value that is printed.
  pub inside_print :
      (b : Bool) (v : Value) (levels : ℕ) (rest : Bytes)
      → Fits v levels
      → skip_inside value b (print v rest)
        ≡ skip_items value (suc (length (print v rest))) b (print v rest)
  inside_print b v levels rest h =
      let (d, r, e, s) = print-IsStart v levels rest h in rw e (inside_filled b d r s)

  pub items_last :
      (fuel : ℕ) (r rest : Bytes)
      → value r ≡ some (tt, b']' ∷ rest)
      → skip_items value (suc fuel) false r ≡ some (tt, rest)
  unfolding skip_items readers
  items_last fuel r rest h = rw (h, skip_items) refl

  pub items_next :
      (fuel : ℕ) (r rest : Bytes)
      → value r ≡ some (tt, b',' ∷ rest)
      → skip_items value (suc fuel) false r ≡ skip_items value fuel false rest
  unfolding skip_items readers
  items_next fuel r rest h = rw (h, skip_items) refl

  pub members_last :
      (fuel : ℕ) (r r' rest : Bytes)
      → value r ≡ some (tt, b':' ∷ r')
      → value r' ≡ some (tt, b'}' ∷ rest)
      → skip_items value (suc fuel) true r ≡ some (tt, rest)
  unfolding skip_items readers
  members_last fuel r r' rest h k = rw (h, skip_items) (rw (k, skip_items) refl)

  pub members_next :
      (fuel : ℕ) (r r' rest : Bytes)
      → value r ≡ some (tt, b':' ∷ r')
      → value r' ≡ some (tt, b',' ∷ rest)
      → skip_items value (suc fuel) true r ≡ skip_items value fuel true rest
  unfolding skip_items readers
  members_next fuel r r' rest h k = rw (h, skip_items) (rw (k, skip_items) refl)
