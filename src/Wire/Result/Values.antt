-- ===== src/Wire/Result/Values.antt =====
-- `skip_` of mqtt_result_decoder.h: the values that it passes over.
use esphome_communication_ne.Prelude.{
  ℕ, ◌-◌, ◌≤◌, ◌<◌, ◌≡◌, ◌≢◌, ◌⊎◌, ◌∙◌, refl, Bool, true, false, Option, none, some, List, [], ◌∷◌,
  ◌++◌, length, Bytes, All, arith, codes, inl,
}
use esphome_communication_ne.Wire.Decimal.{IsDigit}
use esphome_communication_ne.Wire.Reader.{Reader, ◌>>=◌, ◌>>◌}
use esphome_communication_ne.Wire.Result.Skip.{
  skip_chars, skip_digits, whole_part, fraction, skip_number,
}

-- A character of a string, as it is printed: a byte, or a backslash and a byte.
pub data Letter : Type 0 where
  plain : ℕ → Letter
  escaped : ℕ → Letter

-- What may stand behind a backslash: the escapes of one character, and the byte 0.
abbrev pub IsEscape : ℕ → Type 0
IsEscape c =
    (c ≡ b'"')
    ⊎ (c ≡ b'\\')
    ⊎ (c ≡ b'/')
    ⊎ (c ≡ b'b')
    ⊎ (c ≡ b'f')
    ⊎ (c ≡ b'n')
    ⊎ (c ≡ b'r')
    ⊎ (c ≡ b't')
    ⊎ (c ≡ 0)

abbrev pub IsLetter : Letter → Type 0
IsLetter (plain c) = (0x20 ≤ c) × (c ≢ b'"') × (c ≢ b'\\')
IsLetter (escaped c) = IsEscape c

-- The words of JSON.
pub data Word : Type 0 where
  true_word false_word null_word : Word

mutual
  pub data Value : Type 0 where
    string : List Letter → Value
    number : Bool → Bytes → Option Bytes → Value
    word : Word → Value
    empty : Bool → Value
    array : Value → Values → Value
    object : Value → Value → Members → Value

  pub data Values : Type 0 where
    end : Values
    item : Value → Values → Values

  -- The key of a member is a value of any kind.
  pub data Members : Type 0 where
    done : Members
    member : Value → Value → Members → Members

abbrev pub word_bytes : Word → Bytes
word_bytes true_word = codes "true"
word_bytes false_word = codes "false"
word_bytes null_word = codes "null"

abbrev pub print_letters : List Letter → Bytes → Bytes
print_letters [] rest = b'"' ∷ rest
print_letters (plain c ∷ ls) rest = c ∷ print_letters ls rest
print_letters (escaped c ∷ ls) rest = b'\\' ∷ c ∷ print_letters ls rest

abbrev pub print_fraction : Option Bytes → Bytes → Bytes
print_fraction none rest = rest
print_fraction (some digits) rest = b'.' ∷ (digits ++ rest)

abbrev pub print_number : Bool → Bytes → Option Bytes → Bytes → Bytes
print_number true whole part rest = b'-' ∷ (whole ++ print_fraction part rest)
print_number false whole part rest = whole ++ print_fraction part rest

abbrev pub AllDigits : Bytes → Type 0
AllDigits text = All IsDigit text × (0 < length text)

-- No zero in front of further digits.
abbrev pub IsWhole : Bytes → Type 0
IsWhole [] = ⊥
IsWhole (c ∷ []) = IsDigit c
IsWhole (c ∷ d ∷ r) = (c ≢ b'0') × AllDigits (c ∷ d ∷ r)

abbrev pub IsFraction : Option Bytes → Type 0
IsFraction none = Unit
IsFraction (some digits) = AllDigits digits

-- No digit stands first.
abbrev pub NoDigit : Bytes → Type 0
NoDigit [] = Unit
NoDigit (c ∷ r) = (c < b'0') ⊎ (b'9' < c)

abbrev pub NoPoint : Bytes → Type 0
NoPoint [] = Unit
NoPoint (c ∷ r) = c ≢ b'.'

-- What may stand behind the digits of a number: no further digit, and no point where the number has
-- no fraction.
abbrev pub EndsNumber : Option Bytes → Bytes → Type 0
EndsNumber none rest = NoDigit rest × NoPoint rest
EndsNumber (some digits) rest = NoDigit rest

pub letters-skip :
    (ls : List Letter) (rest : Bytes)
    → All IsLetter ls
    → skip_chars false (print_letters ls rest) ≡ some (tt, rest)
unfolding skip_chars
letters-skip [] rest h = refl
letters-skip (plain c ∷ ls) rest h = ground (arith, h.0.0, h.0.1, h.0.2, letters-skip ls rest h.1)
letters-skip (escaped c ∷ ls) rest h = ground (arith, letters-skip ls rest h.1)

-- Digits end where no digit follows.
digits-skip :
    (text rest : Bytes) → All IsDigit text → NoDigit rest → skip_digits (text ++ rest) ≡ rest
unfolding skip_digits
digits-skip [] [] h n = refl
digits-skip [] (c ∷ rest) h n = ground (arith, n)
digits-skip (d ∷ text) rest h n = ground (arith, h.0, digits-skip text rest h.1 n)

whole-skip :
    (text rest : Bytes) → IsWhole text → NoDigit rest → whole_part (text ++ rest) ≡ some (tt, rest)
unfolding skip_digits
whole-skip [] rest h n = absurd h
whole-skip (d ∷ []) [] h n = ground (arith, h)
whole-skip (d ∷ []) (c ∷ rest) h n = ground (arith, h, n)
whole-skip (d ∷ e ∷ text) rest h n =
    ground (arith, h.0, h.1.0.0, digits-skip (d ∷ e ∷ text) rest h.1.0 n)

fraction-skip :
    (part : Option Bytes) (rest : Bytes)
    → IsFraction part
    → EndsNumber part rest
    → fraction (print_fraction part rest) ≡ some (tt, rest)
fraction-skip none [] h l = refl
fraction-skip none (c ∷ rest) h l = ground (arith, l.1)
fraction-skip (some []) rest h l = absurd (omega (arith, h.1))
fraction-skip (some (d ∷ text)) rest h l = ground (arith, h.0.0, digits-skip (d ∷ text) rest h.0 l)

pub whole-IsDigit : (d : ℕ) (text : Bytes) → IsWhole (d ∷ text) → IsDigit d
whole-IsDigit d [] h = h
whole-IsDigit d (e ∷ text) h = h.1.0.0

then_skip : (m n : Reader (Unit {0})) (r r' : Bytes) → m r ≡ some (tt, r') → (m >> n) r ≡ n r'
unfolding ◌>>=◌
then_skip m n r r' h = rw (h, ◌>>◌, ◌>>=◌) refl

-- No digit stands behind the whole part.
NoDigit-fraction :
    (part : Option Bytes) (rest : Bytes) → EndsNumber part rest → NoDigit (print_fraction part rest)
NoDigit-fraction none rest l = l.0
NoDigit-fraction (some part) rest l = inl (omega arith)

digits_of_number :
    (whole : Bytes) (part : Option Bytes) (rest : Bytes)
    → IsWhole whole
    → IsFraction part
    → EndsNumber part rest
    → (whole_part >> fraction) (whole ++ print_fraction part rest) ≡ some (tt, rest)
digits_of_number whole part rest w f l =
    then_skip whole_part fraction (whole ++ print_fraction part rest) (print_fraction part rest)
      (whole-skip whole (print_fraction part rest) w (NoDigit-fraction part rest l))
    ∙ fraction-skip part rest f l

pub number-skip :
    (negative : Bool) (whole : Bytes) (part : Option Bytes) (rest : Bytes)
    → IsWhole whole
    → IsFraction part
    → EndsNumber part rest
    → skip_number (print_number negative whole part rest) ≡ some (tt, rest)
unfolding skip_number
number-skip true whole part rest w f l = digits_of_number whole part rest w f l
number-skip false [] part rest w f l = absurd w
number-skip false (d ∷ whole) part rest w f l =
    let digit = whole-IsDigit d whole w in
    let tail = digits_of_number (d ∷ whole) part rest w f l in ground (arith, digit, tail)

unfoldable mutual
  -- The value as it is printed, with what stands behind.
  pub print : Value → Bytes → Bytes
  print (string ls) rest = b'"' ∷ print_letters ls rest
  print (number negative whole part) rest = print_number negative whole part rest
  print (word w) rest = word_bytes w ++ rest
  print (empty true) rest = b'{' ∷ b'}' ∷ rest
  print (empty false) rest = b'[' ∷ b']' ∷ rest
  print (array v vs) rest = b'[' ∷ print v (print_values vs rest)
  print (object k v ms) rest = b'{' ∷ print k (b':' ∷ print v (print_members ms rest))

  pub print_values : Values → Bytes → Bytes
  print_values end rest = b']' ∷ rest
  print_values (item v vs) rest = b',' ∷ print v (print_values vs rest)

  pub print_members : Members → Bytes → Bytes
  print_members done rest = b'}' ∷ rest
  print_members (member k v ms) rest = b',' ∷ print k (b':' ∷ print v (print_members ms rest))

unfoldable mutual
  -- The value is well formed, and it and what it holds nest at most this many levels.
  pub Fits : Value → ℕ → Type 0
  Fits (string ls) levels = All IsLetter ls × (0 < levels)
  Fits (number negative whole part) levels = IsWhole whole × IsFraction part × (0 < levels)
  Fits (word w) levels = 0 < levels
  Fits (empty b) levels = 0 < levels
  Fits (array v vs) levels = (0 < levels) × Fits v (levels - 1) × AllFit vs (levels - 1)
  Fits (object k v ms) levels =
      (0 < levels) × Fits k (levels - 1) × Fits v (levels - 1) × AllFitMembers ms (levels - 1)

  pub AllFit : Values → ℕ → Type 0
  AllFit end levels = Unit
  AllFit (item v vs) levels = Fits v levels × AllFit vs levels

  pub AllFitMembers : Members → ℕ → Type 0
  AllFitMembers done levels = Unit
  AllFitMembers (member k v ms) levels = Fits k levels × Fits v levels × AllFitMembers ms levels

-- What may stand behind a value: anything, but for a number.
abbrev pub Stops : Value → Bytes → Type 0
Stops (number negative whole part) rest = EndsNumber part rest
Stops _ rest = Unit

-- A comma, a closing bracket or a colon, as it stands behind a value in an object or an array.
abbrev pub IsStop : ℕ → Type 0
IsStop c = (c ≡ b',') ⊎ (c ≡ b'}') ⊎ (c ≡ b']') ⊎ (c ≡ b':')

pub IsStop-Stops : (v : Value) (c : ℕ) (rest : Bytes) → IsStop c → Stops v (c ∷ rest)
IsStop-Stops (number negative whole none) c rest s = (ground (arith, s), ground (arith, s))
IsStop-Stops (number negative whole (some part)) c rest s = ground (arith, s)
IsStop-Stops _ c rest s = tt
