-- ===== src/Wire/Reader.antt =====
-- The reading of JSON that MqttEnvelopeReader (mqtt_envelope_decoder.h) and MqttResultReader
-- (mqtt_result_decoder.h) share. The state of a reader is the rest of the payload, the bytes from
-- `pos_` up to `length_`; where a method returns false the decoder returns false, so a reader gives
-- none. Both classes read an object by one loop, here `members`, over the reader of one member.
use esphome_communication_ne.Prelude.{
  ℕ, zero, suc, ◌+◌, Bool, true, false, not, ◌||◌, Option, none, some, [], ◌∷◌, ◌==◌, leb,
  if◌then◌else◌, length, Bytes,
}

abbrev pub Reader : Type 0 → Type 0
Reader A = Bytes → Option (A × Bytes)

infixl 5 ◌>>=◌ ◌>>◌
unfoldable pub ◌>>=◌ : {A B : Type 0} → Reader A → (A → Reader B) → Reader B
◌>>=◌ m f r = elim (m r) [ none ↦ none | some (a, rest) ↦ f a rest ]

abbrev pub ◌>>◌ : {A B : Type 0} → Reader A → Reader B → Reader B
m >> k = m >>= λ _. k

abbrev pub pure : {A : Type 0} → A → Reader A
pure a r = some (a, r)

abbrev pub fail : {A : Type 0} → Reader A
fail r = none

-- A computed value that may be refused.
abbrev pub lift : {A : Type 0} → Option A → Reader A
lift none r = none
lift (some a) r = some (a, r)

abbrev pub guard : Bool → Reader (Unit {0})
guard true r = some (tt, r)
guard false r = none

abbrev pub is_space : ℕ → Bool
is_space c = c == b' ' || c == 10 || c == 13 || c == 9

unfoldable pub space_ : Bytes → Bytes
space_ [] = []
space_ (c ∷ r) = if is_space c then space_ r else c ∷ r

abbrev pub drop_if : ℕ → Bytes → Bool × Bytes
drop_if c [] = (false, [])
drop_if c (d ∷ r) = if d == c then (true, r) else (false, d ∷ r)

-- Whether the byte was there, and the rest; the blanks before it are consumed in both cases.
unfoldable pub consume_ : ℕ → Bytes → Bool × Bytes
unfolding space_
consume_ c r = drop_if c (space_ r)

-- `if (!consume_(c)) return false;`
unfoldable pub expect : ℕ → Reader (Unit {0})
unfolding consume_
expect c r = if (consume_ c r).0 then some (tt, (consume_ c r).1) else none

abbrev pub not_close : Reader (Unit {0})
not_close [] = none
not_close (c ∷ r) = if c == b'}' then none else some (tt, c ∷ r)

-- `object_open_` and `open_`.
unfoldable pub open_ : Reader (Unit {0})
open_ = expect b'{' >>= λ _ r. not_close (space_ r)

-- The loop of `string_` behind the opening quote, with the bytes written so far counted; `allowed`
-- is the class's own test of a byte.
unfoldable pub chars : (ℕ → Bool) → ℕ → ℕ → Reader Bytes
chars allowed capacity written [] = none
chars allowed capacity written (c ∷ r) =
    let rest = chars allowed capacity (suc written) r in
    if c == b'"'
    then (if written == 0 then none else some ([], r))
    else if not (allowed c) || leb capacity (written + 1)
    then none
    else elim rest [ none ↦ none | some (text, r') ↦ some (c ∷ text, r') ]

unfoldable pub quoted : (ℕ → Bool) → ℕ → Reader Bytes
quoted allowed capacity = expect b'"' >> chars allowed capacity 0

-- To compute with the readers, all but `chars` and the loops: named on an `unfolding` line.
unfoldable pub readers : Unit {0}
unfolding ◌>>=◌ space_ consume_ expect open_ quoted
readers = tt

module _ {S : Type 0} (member : S → Reader S) where
  -- The loop over the members of an object that is open: `do { … } while (true)`, on fuel.
  unfoldable pub members : ℕ → S → Reader S
  members zero s r = none
  members (suc fuel) s r = elim (member s r) [
    | none ↦ none
    | some (s', r') ↦
        if (consume_ b'}' r').0
        then some (s', (consume_ b'}' r').1)
        else elim (expect b',' (consume_ b'}' r').1) [
          | none ↦ none
          | some (_, r'') ↦ members fuel s' r''
        ]
  ]

  -- The fuel is more than the bytes that are left, and a member takes one at least.
  unfoldable pub object : S → Reader S
  object s = open_ >>= λ _ r. members (suc (length r)) s r
