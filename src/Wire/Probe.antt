-- ===== src/Wire/Probe.antt =====
-- mqtt_command_decoder.h: the flat probe format. In the source each of its tokens is read behind a
-- call of `space()`, as `expect` and `quoted` do.
use esphome_communication_ne.Canonical.{encode_canonical_command}
use esphome_communication_ne.Prelude.{
  ℕ, ◌≤◌, ◌≡◌, refl, Bool, true, false, not, ◌||◌, Option, none, some, [], ◌∷◌, ◌==◌, ltb,
  if◌then◌else◌, length, Bytes, str_eq, str_eq_refl, Span, null, block, codes, arith,
}
use esphome_communication_ne.Wire.Envelope.{is_visible, is_none}
use esphome_communication_ne.Wire.Printed.{print_string, IsText, chars-print}
use esphome_communication_ne.Wire.Reader.{
  Reader, ◌>>=◌, ◌>>◌, pure, guard, space_, expect, quoted, readers,
}

-- `device`, `resource` and `action`; a bit of `seen` is set where the field is `some`.
pub record Probe : Type 0 where
  pub device : Option Bytes
  pub resource : Option Bytes
  pub action : Option Bytes

abbrev pub empty_probe : Probe
empty_probe = record { device = none; resource = none; action = none }

-- `index`, and the test of `seen`.
pub data Key : Type 0 where
  device_key resource_key action_key : Key

abbrev pub key_of : Bytes → Option Key
key_of key =
    if str_eq key (codes "device")
    then some device_key
    else if str_eq key (codes "resource")
    then some resource_key
    else if str_eq key (codes "action")
    then some action_key
    else none

abbrev pub is_new : Option Key → Probe → Bool
is_new none s = false
is_new (some device_key) s = is_none s.device
is_new (some resource_key) s = is_none s.resource
is_new (some action_key) s = is_none s.action

abbrev pub with_field : Option Key → Bytes → Probe → Probe
with_field none value s = s
with_field (some device_key) value s = record s { device = some value }
with_field (some resource_key) value s = record s { resource = some value }
with_field (some action_key) value s = record s { action = some value }

-- A round of the loop, without the comma.
unfoldable pub probe_member : Probe → Reader Probe
probe_member s = do
  key ← quoted is_visible 16
  guard (is_new (key_of key) s)
  expect b':'
  value ← quoted is_visible 64
  pure (with_field (key_of key) value s)

unfoldable pub probe : Reader Probe
probe = do
  expect b'{'
  s ← probe_member empty_probe
  expect b','
  t ← probe_member s
  expect b','
  u ← probe_member t
  expect b'}'
  pure u

-- The tests behind the object, and the encoding.
unfoldable pub encode_probe : Bytes → Bool → ℕ → Probe → Option Bytes
encode_probe expected out_is_null capacity s = elim s.device [
  | none ↦ none
  | some device ↦
      if not (str_eq device expected)
      then none
      else encode_canonical_command
          (record {
            device = some device;
            resource = s.resource;
            action = s.action;
            arguments = null 0;
          })
          out_is_null capacity
]

unfoldable pub decode_mqtt_command_probe : Span → Option Bytes → Bool → ℕ → Option Bytes
decode_mqtt_command_probe (null n) device out_is_null capacity = none
decode_mqtt_command_probe (block payload) none out_is_null capacity = none
decode_mqtt_command_probe (block payload) (some device) out_is_null capacity =
    if out_is_null || length payload == 0 || ltb 256 (length payload)
    then none
    else elim (probe payload) [
      | none ↦ none
      | some (s, rest) ↦ elim (space_ rest) [
        | [] ↦ encode_probe device out_is_null capacity s
        | c ∷ r ↦ none
      ]
    ]

abbrev pub key_text : Key → Bytes
key_text device_key = codes "device"
key_text resource_key = codes "resource"
key_text action_key = codes "action"

abbrev pub print_member : Key → Bytes → Bytes → Bytes
print_member key value rest = print_string (key_text key) (b':' ∷ print_string value rest)

member-print :
    (s : Probe) (key : Key) (value rest : Bytes)
    → is_new (some key) s ≡ true
    → IsText is_visible 64 value
    → probe_member s (print_member key value rest) ≡ some (with_field (some key) value s, rest)
unfolding probe_member readers str_eq
member-print s device_key value rest new h = ground (
  arith,
  new,
  chars-print is_visible 16 (codes "device") (b':' ∷ print_string value rest) (ground arith),
  chars-print is_visible 64 value rest h,
)
member-print s resource_key value rest new h = ground (
  arith,
  new,
  chars-print is_visible 16 (codes "resource") (b':' ∷ print_string value rest) (ground arith),
  chars-print is_visible 64 value rest h,
)
member-print s action_key value rest new h = ground (
  arith,
  new,
  chars-print is_visible 16 (codes "action") (b':' ∷ print_string value rest) (ground arith),
  chars-print is_visible 64 value rest h,
)

abbrev pub print_probe : Key → Key → Key → Bytes → Bytes → Bytes → Bytes
print_probe k l m a b c =
    b'{' ∷ print_member k a (b',' ∷ print_member l b (b',' ∷ print_member m c (b'}' ∷ [])))

new_first : (k : Key) → is_new (some k) empty_probe ≡ true
new_first device_key = refl
new_first _ = refl

-- A probe whose three members are printed in any order, each once, within its bounds and for the
-- device that is expected, is decoded to the canonical bytes of its target and action, and refused
-- where these do not fit.
pub decode_mqtt_command_probe-print :
    (k l m : Key) (a b c : Bytes) (s : Probe) (device : Bytes) (capacity : ℕ)
    → is_new (some l) (with_field (some k) a empty_probe) ≡ true
    → is_new (some m) (with_field (some l) b (with_field (some k) a empty_probe)) ≡ true
    → IsText is_visible 64 a
    → IsText is_visible 64 b
    → IsText is_visible 64 c
    → with_field (some m) c (with_field (some l) b (with_field (some k) a empty_probe)) ≡ s
    → s.device ≡ some device
    → length (print_probe k l m a b c) ≤ 256
    → decode_mqtt_command_probe (block (print_probe k l m a b c)) (some device) false capacity
      ≡ encode_canonical_command
          (record {
            device = s.device;
            resource = s.resource;
            action = s.action;
            arguments = null 0;
          })
          false
          capacity
unfolding decode_mqtt_command_probe probe encode_probe readers
decode_mqtt_command_probe-print k l m a b c s device capacity new_l new_m ha hb hc e d fits =
    let t = with_field (some k) a empty_probe in
    let u = with_field (some l) b t in
    ground (
      arith,
      member-print empty_probe k a (b',' ∷ print_member l b (b',' ∷ print_member m c (b'}' ∷ [])))
          (new_first k) ha,
      member-print t l b (b',' ∷ print_member m c (b'}' ∷ [])) new_l hb,
      member-print u m c (b'}' ∷ []) new_m hc,
      str_eq_refl device,
    )
