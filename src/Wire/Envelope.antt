-- ===== src/Wire/Envelope.antt =====
-- mqtt_envelope_decoder.h: the envelope of a command. A bit of `seen` is set exactly where the field
-- of `Envelope`, or of the pair, is `some`.
pub mod Loops
pub mod Parts
pub mod RoundTrip
pub mod Checked
pub mod Sound
use Prim.Native.Nat.{◌*◌}
use esphome_communication_ne.Canonical.{encode_canonical_command}
use esphome_communication_ne.Prelude.{
  ℕ, zero, suc, ◌+◌, ◌-◌, ◌/◌, ◌^◌, Bool, true, false, not, ◌&&◌, ◌||◌, Option, none, some, [], ◌∷◌,
  ◌==◌, ltb, leb, if◌then◌else◌, length, Bytes, str_eq, Span, null, block, codes,
}
use esphome_communication_ne.Wire.Decimal.{decimal_}
use esphome_communication_ne.Wire.Reader.{
  Reader, ◌>>=◌, ◌>>◌, pure, fail, lift, guard, space_, expect, quoted, object,
}

pub record MqttCommandFields : Type 0 where
  pub source : Bytes
  pub device : Bytes
  pub resource : Bytes
  pub action : Bytes
  pub reply_topic : Bytes
  pub transaction_id : ℕ
  pub source_boot_id : ℕ
  pub timeout_ms : ℕ

-- The locals of `decode`, as far as they are read.
pub record Envelope : Type 0 where
  pub transaction_id : Option ℕ
  pub reply_topic : Option Bytes
  pub source : Option (Bytes × ℕ)
  pub target : Option (Bytes × Bytes)
  pub command : Option Bytes
  pub timeout : Option ℕ

abbrev pub empty_envelope : Envelope
empty_envelope = record {
  transaction_id = none;
  reply_topic = none;
  source = none;
  target = none;
  command = none;
  timeout = none;
}

abbrev pub is_visible : ℕ → Bool
is_visible c = not (ltb c 0x21) && not (ltb 0x7e c) && not (c == b'\\')

unfoldable pub string_ : ℕ → Reader Bytes
string_ = quoted is_visible

abbrev pub is_none : {A : Type 0} → Option A → Bool
is_none none = true
is_none (some a) = false

-- An object of two members: what the first and the second have given.
pub record Two (A B : Type 0) : Type 0 where
  pub first : Option A
  pub second : Option B

abbrev pub no_members : {A B : Type 0} → Two A B
no_members = record { first = none; second = none }

abbrev pub both : {A B : Type 0} → Two A B → Reader (A × B)
both s = elim s.first [
  | none ↦ fail
  | some a ↦ elim s.second [ none ↦ fail | some b ↦ pure (a, b) ]
]

-- A member of `source_`: the value is read before the key is looked at.
unfoldable pub source_member : Two Bytes ℕ → Reader (Two Bytes ℕ)
source_member s = do
  key ← string_ 32
  expect b':'
  value ← string_ 64
  if str_eq key (codes "device_id")
      then (guard (is_none s.first) >> pure (record s { first = some value }))
      else if str_eq key (codes "boot_id")
      then (guard (is_none s.second)
          >> (lift (decimal_ value) >>= λ n. pure (record s { second = some n })))
      else guard false >> pure s

unfoldable pub source_ : Reader (Bytes × ℕ)
source_ = object source_member no_members >>= both

unfoldable pub target_member : Two Bytes Bytes → Reader (Two Bytes Bytes)
target_member s = do
  key ← string_ 32
  expect b':'
  if str_eq key (codes "device_id")
      then (guard (is_none s.first) >> (string_ 64 >>= λ v. pure (record s { first = some v })))
      else if str_eq key (codes "resource")
      then (guard (is_none s.second) >> (string_ 64 >>= λ v. pure (record s { second = some v })))
      else guard false >> pure s

unfoldable pub target_ : Reader (Bytes × Bytes)
target_ = object target_member no_members >>= both

-- The name of the command, and whether the empty payload was there.
unfoldable pub command_member : Two Bytes (Unit {0}) → Reader (Two Bytes (Unit {0}))
command_member s = do
  key ← string_ 32
  expect b':'
  if str_eq key (codes "name")
      then (string_ 64 >>= λ v. guard (is_none s.first) >> pure (record s { first = some v }))
      else if str_eq key (codes "payload")
      then (expect b'{'
          >> (expect b'}' >> (guard (is_none s.second) >> pure (record s { second = some tt }))))
      else guard false >> pure s

unfoldable pub command_ : Reader Bytes
command_ = object command_member no_members >>= λ s. lift s.first

-- The loop of `timeout_`: the value, the count of digits and the rest.
unfoldable pub timeout_digits : ℕ → ℕ → Bytes → Option (ℕ × ℕ × Bytes)
timeout_digits value digits [] = some (value, digits, [])
timeout_digits value digits (c ∷ r) =
    if ltb c b'0' || ltb b'9' c
    then some (value, digits, c ∷ r)
    else if ltb ((2 ^ 32 - 1 - (c - b'0')) / 10) value
    then none
    else timeout_digits (value * 10 + (c - b'0')) (digits + 1) r

abbrev pub starts_with_zero : Bytes → Bool
starts_with_zero [] = false
starts_with_zero (c ∷ r) = c == b'0'

unfoldable pub timeout_ : Reader ℕ
timeout_ r = elim (timeout_digits 0 0 (space_ r)) [
  | none ↦ none
  | some (value, digits, rest) ↦
      if digits == 0 || value == 0 || (starts_with_zero (space_ r) && ltb 1 digits)
      then none
      else some (value, rest)
]

-- `strchr(reply, c) != nullptr`
unfoldable pub contains : ℕ → Bytes → Bool
contains c [] = false
contains c (d ∷ r) = d == c || contains c r

-- A round of the loop of `decode`, up to the comma.
unfoldable pub member : Envelope → Reader Envelope
member e = do
  key ← string_ 32
  expect b':'
  if str_eq key (codes "transaction_id")
      then (string_ 21 >>= λ t. lift (decimal_ t) >>= λ n.
          guard (is_none e.transaction_id) >> pure (record e { transaction_id = some n }))
      else if str_eq key (codes "reply_to")
      then (string_ 193 >>= λ t.
          guard (not (contains b'+' t || contains b'#' t))
          >> (guard (is_none e.reply_topic) >> pure (record e { reply_topic = some t })))
      else if str_eq key (codes "source")
      then (source_ >>= λ v. guard (is_none e.source) >> pure (record e { source = some v }))
      else if str_eq key (codes "target")
      then (target_ >>= λ v. guard (is_none e.target) >> pure (record e { target = some v }))
      else if str_eq key (codes "command")
      then (command_ >>= λ v. guard (is_none e.command) >> pure (record e { command = some v }))
      else if str_eq key (codes "timeout_ms")
      then (timeout_ >>= λ v. guard (is_none e.timeout) >> pure (record e { timeout = some v }))
      else guard false >> pure e

abbrev pub or_zero : Option ℕ → ℕ
or_zero none = 0
or_zero (some n) = n

-- `(seen & 31) != 31` refuses an envelope that lacks one of the five.
unfoldable pub fields_of : Envelope → Option MqttCommandFields
fields_of e = elim e.transaction_id [
  | none ↦ none
  | some id ↦ elim e.reply_topic [
    | none ↦ none
    | some reply ↦ elim e.source [
      | none ↦ none
      | some (source, boot) ↦ elim e.target [
        | none ↦ none
        | some (device, resource) ↦ elim e.command [
          | none ↦ none
          | some action ↦ some (record {
            source = source;
            device = device;
            resource = resource;
            action = action;
            reply_topic = reply;
            transaction_id = id;
            source_boot_id = boot;
            timeout_ms = or_zero e.timeout;
          })
        ]
      ]
    ]
  ]
]

-- `expected && strcmp(value, expected) != 0`, negated.
abbrev pub is_expected : Option Bytes → Bytes → Bool
is_expected none value = true
is_expected (some expected) value = str_eq value expected

-- The object of a payload and nothing behind it.
unfoldable pub parse : Bytes → Option MqttCommandFields
parse payload = elim (object member empty_envelope payload) [
  | none ↦ none
  | some (e, rest) ↦ elim (space_ rest) [ [] ↦ fields_of e | c ∷ r ↦ none ]
]

-- What `decode` writes where it returns true: the canonical bytes, and the fields, of which
-- `MqttCommandIdentity` holds two.
pub record Decoded : Type 0 where
  pub canonical : Bytes
  pub fields : MqttCommandFields

unfoldable pub decode_fields :
    Bytes → Bool → ℕ → Option Bytes → Option Bytes → MqttCommandFields → Option Decoded
decode_fields device out_is_null capacity source reply f =
    if not (str_eq f.device device)
      || not (is_expected source f.source)
      || not (is_expected reply f.reply_topic)
    then none
    else elim (encode_canonical_command
        (record {
          device = some f.device;
          resource = some f.resource;
          action = some f.action;
          arguments = null 0;
        })
        out_is_null capacity) [
          | none ↦ none
          | some canonical ↦ some (record { canonical = canonical; fields = f })
        ]

unfoldable pub decode_mqtt_command_envelope :
    Span → Option Bytes → Bool → ℕ → Option Bytes → Option Bytes → Option Decoded
unfolding parse decode_fields
decode_mqtt_command_envelope (null n) device out_is_null capacity source reply = none
decode_mqtt_command_envelope (block payload) none out_is_null capacity source reply = none
decode_mqtt_command_envelope (block payload) (some device) out_is_null capacity source reply =
    if out_is_null || length payload == 0 || ltb 1280 (length payload)
    then none
    else elim (parse payload) [
      | none ↦ none
      | some f ↦ decode_fields device out_is_null capacity source reply f
    ]
