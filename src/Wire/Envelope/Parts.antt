-- ===== src/Wire/Envelope/Parts.antt =====
-- mqtt_envelope_decoder.h: the source, the target, the command and the timeout that a sender prints
-- are read back.
use Prim.Native.Nat.{◌*◌}
use esphome_communication_ne.Prelude.{
  ℕ, ◌+◌, ◌-◌, ◌^◌, ◌<◌, ◌≡◌, refl, false, none, some, List, [], ◌∷◌, ◌++◌, length, Bytes, All,
  arith, codes, str_eq,
}
use esphome_communication_ne.Wire.Decimal.{decimal_, IsDigit, value_from, value_from-le}
use esphome_communication_ne.Wire.Envelope.{
  Two, no_members, is_visible, string_, source_member, source_, target_member, target_,
  command_member, command_, timeout_digits, timeout_, starts_with_zero,
}
use esphome_communication_ne.Wire.Envelope.Loops.{
  source_member-Shrinks, target_member-Shrinks, command_member-Shrinks,
}
use esphome_communication_ne.Wire.Reader.{chars, readers}
use esphome_communication_ne.Wire.Printed.{
  print_string, IsText, IsDelimiter, print_members, applied, AllFit, chars-print, object-print,
}

abbrev pub IsName : Bytes → Type 0
IsName = IsText is_visible 64

-- The members of a source and of a target, the text of a number beside its value.
pub data SourceMember : Type 0 where
  device : Bytes → SourceMember
  boot_id : Bytes → ℕ → SourceMember

abbrev pub print_source_member : SourceMember → Bytes → Bytes
print_source_member (device d) rest = print_string (codes "device_id") (b':' ∷ print_string d rest)
print_source_member (boot_id t n) rest = print_string (codes "boot_id") (b':' ∷ print_string t rest)

abbrev pub add_source : Two Bytes ℕ → SourceMember → Two Bytes ℕ
add_source s (device d) = record s { first = some d }
add_source s (boot_id t n) = record s { second = some n }

abbrev pub SourceFits : Two Bytes ℕ → SourceMember → Type 0
SourceFits s (device d) = IsName d × (s.first ≡ none)
SourceFits s (boot_id t n) = IsName t × (decimal_ t ≡ some n) × (s.second ≡ none)

-- A key of the format is read.
pub key-print :
    (key rest : Bytes)
    → IsText is_visible 32 key
    → chars is_visible 32 0 (key ++ b'"' ∷ rest) ≡ some (key, rest)
key-print key rest h = chars-print is_visible 32 key rest h

source_member-print :
    (s : Two Bytes ℕ) (m : SourceMember) (c : ℕ) (rest : Bytes)
    → SourceFits s m
    → IsDelimiter c
    → source_member s (print_source_member m (c ∷ rest)) ≡ some (add_source s m, c ∷ rest)
unfolding source_member string_ readers str_eq
source_member-print s (device d) c rest h l = ground (
  arith,
  key-print (codes "device_id") (b':' ∷ print_string d (c ∷ rest)) (ground arith),
  chars-print is_visible 64 d (c ∷ rest) h.0,
  h.1,
)
source_member-print s (boot_id t n) c rest h l = ground (
  arith,
  key-print (codes "boot_id") (b':' ∷ print_string t (c ∷ rest)) (ground arith),
  chars-print is_visible 64 t (c ∷ rest) h.0,
  h.1,
  h.2,
)

starts_source :
    (m : SourceMember) (rest : Bytes) → (r : Bytes) × (print_source_member m rest ≡ b'"' ∷ r)
starts_source (device d) rest = (_, refl)
starts_source (boot_id t n) rest = (_, refl)

pub source-print :
    (m : SourceMember) (ms : List SourceMember) (rest name : Bytes) (boot : ℕ)
    → AllFit add_source SourceFits no_members m ms
    → (applied add_source no_members m ms).first ≡ some name
    → (applied add_source no_members m ms).second ≡ some boot
    → source_ (b'{' ∷ print_members print_source_member m ms rest) ≡ some ((name, boot), rest)
unfolding source_ readers
source-print m ms rest name boot h d b = ground (
  arith,
  object-print print_source_member add_source SourceFits source_member source_member-Shrinks
      source_member-print starts_source no_members m ms rest h,
)

pub data TargetMember : Type 0 where
  device : Bytes → TargetMember
  resource : Bytes → TargetMember

abbrev pub print_target_member : TargetMember → Bytes → Bytes
print_target_member (TargetMember.device d) rest =
    print_string (codes "device_id") (b':' ∷ print_string d rest)
print_target_member (resource t) rest = print_string (codes "resource") (b':' ∷ print_string t rest)

abbrev pub add_target : Two Bytes Bytes → TargetMember → Two Bytes Bytes
add_target s (TargetMember.device d) = record s { first = some d }
add_target s (resource t) = record s { second = some t }

abbrev pub TargetFits : Two Bytes Bytes → TargetMember → Type 0
TargetFits s (TargetMember.device d) = IsName d × (s.first ≡ none)
TargetFits s (resource t) = IsName t × (s.second ≡ none)

target_member-print :
    (s : Two Bytes Bytes) (m : TargetMember) (c : ℕ) (rest : Bytes)
    → TargetFits s m
    → IsDelimiter c
    → target_member s (print_target_member m (c ∷ rest)) ≡ some (add_target s m, c ∷ rest)
unfolding target_member string_ readers str_eq
target_member-print s (TargetMember.device d) c rest h l = ground (
  arith,
  key-print (codes "device_id") (b':' ∷ print_string d (c ∷ rest)) (ground arith),
  chars-print is_visible 64 d (c ∷ rest) h.0,
  h.1,
)
target_member-print s (resource t) c rest h l = ground (
  arith,
  key-print (codes "resource") (b':' ∷ print_string t (c ∷ rest)) (ground arith),
  chars-print is_visible 64 t (c ∷ rest) h.0,
  h.1,
)

starts_target :
    (m : TargetMember) (rest : Bytes) → (r : Bytes) × (print_target_member m rest ≡ b'"' ∷ r)
starts_target (TargetMember.device d) rest = (_, refl)
starts_target (resource t) rest = (_, refl)

pub target-print :
    (m : TargetMember) (ms : List TargetMember) (rest name path : Bytes)
    → AllFit add_target TargetFits no_members m ms
    → (applied add_target no_members m ms).first ≡ some name
    → (applied add_target no_members m ms).second ≡ some path
    → target_ (b'{' ∷ print_members print_target_member m ms rest) ≡ some ((name, path), rest)
unfolding target_ readers
target-print m ms rest name path h d b = ground (
  arith,
  object-print print_target_member add_target TargetFits target_member target_member-Shrinks
      target_member-print starts_target no_members m ms rest h,
)

-- A command: its name, and the empty payload that may stand beside it.
pub data CommandMember : Type 0 where
  name : Bytes → CommandMember
  payload : CommandMember

abbrev pub print_command_member : CommandMember → Bytes → Bytes
print_command_member (name t) rest = print_string (codes "name") (b':' ∷ print_string t rest)
print_command_member payload rest = print_string (codes "payload") (b':' ∷ b'{' ∷ b'}' ∷ rest)

abbrev pub add_command : Two Bytes (Unit {0}) → CommandMember → Two Bytes (Unit {0})
add_command s (name t) = record s { first = some t }
add_command s payload = record s { second = some tt }

abbrev pub CommandFits : Two Bytes (Unit {0}) → CommandMember → Type 0
CommandFits s (name t) = IsName t × (s.first ≡ none)
CommandFits s payload = s.second ≡ none

command_member-print :
    (s : Two Bytes (Unit {0})) (m : CommandMember) (c : ℕ) (rest : Bytes)
    → CommandFits s m
    → IsDelimiter c
    → command_member s (print_command_member m (c ∷ rest)) ≡ some (add_command s m, c ∷ rest)
unfolding command_member string_ readers str_eq
command_member-print s (name t) c rest h l = ground (
  arith,
  key-print (codes "name") (b':' ∷ print_string t (c ∷ rest)) (ground arith),
  chars-print is_visible 64 t (c ∷ rest) h.0,
  h.1,
)
command_member-print s payload c rest h l =
    ground (arith, key-print (codes "payload") (b':' ∷ b'{' ∷ b'}' ∷ c ∷ rest) (ground arith), h)

starts_command :
    (m : CommandMember) (rest : Bytes) → (r : Bytes) × (print_command_member m rest ≡ b'"' ∷ r)
starts_command (name t) rest = (_, refl)
starts_command payload rest = (_, refl)

pub command-print :
    (m : CommandMember) (ms : List CommandMember) (rest action : Bytes)
    → AllFit add_command CommandFits no_members m ms
    → (applied add_command no_members m ms).first ≡ some action
    → command_ (b'{' ∷ print_members print_command_member m ms rest) ≡ some (action, rest)
unfolding command_ readers
command-print m ms rest action h d = ground (
  arith,
  object-print print_command_member add_command CommandFits command_member command_member-Shrinks
      command_member-print starts_command no_members m ms rest h,
)

-- A timeout: digits with no zero in front, for a number from 1 to 2 ^ 32 - 1.
abbrev pub IsTimeout : Bytes → ℕ → Type 0
IsTimeout text n =
    All IsDigit text
    × (starts_with_zero text ≡ false)
    × (value_from 0 text ≡ n)
    × (0 < n)
    × (n < 2 ^ 32)

timeout_digits-print :
    (value digits : ℕ) (text : Bytes) (c : ℕ) (rest : Bytes)
    → All IsDigit text
    → value_from value text < 2 ^ 32
    → IsDelimiter c
    → timeout_digits value digits (text ++ c ∷ rest)
      ≡ some (value_from value text, digits + length text, c ∷ rest)
unfolding timeout_digits
timeout_digits-print value digits [] c rest h b l = ground arith
timeout_digits-print value digits (d ∷ text) c rest h b l = ground (
  arith,
  h.0,
  value_from-le (value * 10 + (d - b'0')) text,
  timeout_digits-print (value * 10 + (d - b'0')) (digits + 1) text c rest h.1 b l,
)

pub timeout-print :
    (text : Bytes) (n c : ℕ) (rest : Bytes)
    → IsTimeout text n
    → IsDelimiter c
    → timeout_ (text ++ c ∷ rest) ≡ some (n, c ∷ rest)
unfolding timeout_ readers
timeout-print [] n c rest h l = absurd (omega arith)
timeout-print (d ∷ text) n c rest h l =
    ground (arith, h.0.0, h.1, h.2, timeout_digits-print 0 0 (d ∷ text) c rest h.0 (rw h.2 h.4) l)
