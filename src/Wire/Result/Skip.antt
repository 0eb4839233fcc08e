-- ===== src/Wire/Result/Skip.antt =====
-- `skip_` of mqtt_result_decoder.h: a value whose meaning belongs to the executor is passed over.
use esphome_communication_ne.Prelude.{
  ℕ, zero, suc, Bool, true, false, not, ◌&&◌, ◌||◌, none, some, [], ◌∷◌, ◌==◌, ltb, if◌then◌else◌,
  length, Bytes, codes,
}
use esphome_communication_ne.Wire.Reader.{Reader, ◌>>◌, space_, consume_, expect}

-- `strchr("\"\\/bfnrt", escaped) != nullptr`; `strchr` also finds the terminating NUL.
abbrev pub is_escape : ℕ → Bool
is_escape c =
    c == b'"'
    || c == b'\\'
    || c == b'/'
    || c == b'b'
    || c == b'f'
    || c == b'n'
    || c == b'r'
    || c == b't'
    || c == 0

-- The loop over a string, behind its opening quote; the flag is true behind a backslash.
unfoldable pub skip_chars : Bool → Reader (Unit {0})
skip_chars escaped [] = none
skip_chars true (c ∷ r) = let rest = skip_chars false r in if is_escape c then rest else none
skip_chars false (c ∷ r) =
    let escape = skip_chars true r in
    let rest = skip_chars false r in
    if c == b'"'
    then some (tt, r)
    else if c == b'\\'
    then escape
    else if ltb c 0x20
    then none
    else rest

-- `n <= length_ - pos_` and `memcmp(...) == 0`, and the move behind the literal.
unfoldable pub skip_literal : Bytes → Reader (Unit {0})
skip_literal [] r = some (tt, r)
skip_literal (c ∷ l) [] = none
skip_literal (c ∷ l) (d ∷ r) = if d == c then skip_literal l r else none

abbrev pub is_digit : ℕ → Bool
is_digit c = not (ltb c b'0') && not (ltb b'9' c)

unfoldable pub skip_digits : Bytes → Bytes
skip_digits [] = []
skip_digits (c ∷ r) = if is_digit c then skip_digits r else c ∷ r

-- A digit has to stand here; the digits are passed over.
abbrev pub some_digits : Reader (Unit {0})
some_digits [] = none
some_digits (c ∷ r) = if is_digit c then some (tt, skip_digits (c ∷ r)) else none

-- After a zero no further digit belongs to the number.
abbrev pub whole_part : Reader (Unit {0})
whole_part [] = none
whole_part (c ∷ r) =
    if not (is_digit c)
    then none
    else if c == b'0'
    then some (tt, r)
    else some (tt, skip_digits (c ∷ r))

abbrev pub fraction : Reader (Unit {0})
fraction [] = some (tt, [])
fraction (c ∷ r) = if c == b'.' then some_digits r else some (tt, c ∷ r)

unfoldable pub skip_number : Reader (Unit {0})
skip_number [] = none
skip_number (c ∷ r) =
    if c == b'-'
    then (whole_part >> fraction) r
    else if is_digit c
    then (whole_part >> fraction) (c ∷ r)
    else none

-- What a value begins with decides; `inside` is the loop over an object or an array.
unfoldable pub skip_from : (Bool → Reader (Unit {0})) → Reader (Unit {0})
skip_from inside [] = none
skip_from inside (c ∷ r) =
    if c == b'"'
    then skip_chars false r
    else if c == b'{'
    then inside true r
    else if c == b'['
    then inside false r
    else if c == b't'
    then skip_literal (codes "true") (c ∷ r)
    else if c == b'f'
    then skip_literal (codes "false") (c ∷ r)
    else if c == b'n'
    then skip_literal (codes "null") (c ∷ r)
    else skip_number (c ∷ r)

-- `close` for an object and for an array.
abbrev pub close : Bool → ℕ
close true = b'}'
close false = b']'

-- The loop over the items of an object (true) or an array (false), on fuel; `value` skips a value
-- one level down. The key of an object may be any value.
unfoldable pub skip_items : Reader (Unit {0}) → ℕ → Bool → Reader (Unit {0})
skip_items value zero is_object r = none
skip_items value (suc fuel) is_object r =
    elim ((if is_object then (value >> (expect b':' >> value)) else value) r) [
      | none ↦ none
      | some (_, r') ↦
          if (consume_ (close is_object) r').0
          then some (tt, (consume_ (close is_object) r').1)
          else elim (expect b',' (consume_ (close is_object) r').1) [
            | none ↦ none
            | some (_, r'') ↦ skip_items value fuel is_object r''
          ]
    ]

-- Behind the opening bracket: an empty object or array, or items.
unfoldable pub skip_inside : Reader (Unit {0}) → Bool → Reader (Unit {0})
skip_inside value is_object r =
    if (consume_ (close is_object) r).0
    then some (tt, (consume_ (close is_object) r).1)
    else skip_items value (suc (length r)) is_object (consume_ (close is_object) r).1

-- `skip_(depth)`; the argument is 9 - depth, how many levels may follow, with 0 where `depth > 8`.
unfoldable pub skip_levels : ℕ → Reader (Unit {0})
skip_levels zero r = none
skip_levels (suc levels) r = skip_from (skip_inside (skip_levels levels)) (space_ r)

-- `skip_(0)`
unfoldable pub skip_ : Reader (Unit {0})
skip_ = skip_levels 9
