-- ===== src/Wire/Envelope/RoundTrip.antt =====
-- mqtt_envelope_decoder.h: an envelope that a sender prints is decoded to its fields.
use esphome_communication_ne.Canonical.{encode_canonical_command}
use esphome_communication_ne.Prelude.{
  ℕ, ◌≤◌, ◌≡◌, ◌∙◌, refl, sym, false, Option, none, some, List, [], ◌∷◌, ◌++◌, length, Bytes, arith,
  codes, str_eq, str_eq_refl, null, block,
}
use esphome_communication_ne.Wire.Decimal.{decimal_}
use esphome_communication_ne.Wire.Envelope.{
  Envelope, empty_envelope, MqttCommandFields, no_members, is_visible, string_, contains, member,
  or_zero, fields_of, parse, decode_fields, decode_mqtt_command_envelope,
}
use esphome_communication_ne.Wire.Envelope.Loops.{member-Shrinks}
use esphome_communication_ne.Wire.Envelope.Parts.{
  SourceMember, print_source_member, add_source, SourceFits, source-print, TargetMember,
  print_target_member, add_target, TargetFits, target-print, CommandMember, print_command_member,
  add_command, CommandFits, command-print, IsTimeout, timeout-print, key-print,
}
use esphome_communication_ne.Wire.Printed.{
  print_string, IsText, IsDelimiter, print_members, applied, AllFit, chars-print, object-print,
}
use esphome_communication_ne.Wire.Reader.{readers}

-- A member of an envelope: what is printed, with the values that it stands for.
pub data EnvelopeMember : Type 0 where
  transaction_id : Bytes → ℕ → EnvelopeMember
  reply_to : Bytes → EnvelopeMember
  source : SourceMember → List SourceMember → Bytes → ℕ → EnvelopeMember
  target : TargetMember → List TargetMember → Bytes → Bytes → EnvelopeMember
  command : CommandMember → List CommandMember → Bytes → EnvelopeMember
  timeout_ms : Bytes → ℕ → EnvelopeMember

abbrev print_key : Bytes → Bytes → Bytes
print_key key rest = print_string key (b':' ∷ rest)

abbrev pub print_member : EnvelopeMember → Bytes → Bytes
print_member (transaction_id t n) rest = print_key (codes "transaction_id") (print_string t rest)
print_member (reply_to t) rest = print_key (codes "reply_to") (print_string t rest)
print_member (source m ms d n) rest =
    print_key (codes "source") (b'{' ∷ print_members print_source_member m ms rest)
print_member (target m ms d t) rest =
    print_key (codes "target") (b'{' ∷ print_members print_target_member m ms rest)
print_member (command m ms t) rest =
    print_key (codes "command") (b'{' ∷ print_members print_command_member m ms rest)
print_member (timeout_ms t n) rest = print_key (codes "timeout_ms") (t ++ rest)

abbrev pub add_member : Envelope → EnvelopeMember → Envelope
add_member e (transaction_id t n) = record e { transaction_id = some n }
add_member e (reply_to t) = record e { reply_topic = some t }
add_member e (source m ms d n) = record e { source = some (d, n) }
add_member e (target m ms d t) = record e { target = some (d, t) }
add_member e (command m ms t) = record e { command = some t }
add_member e (timeout_ms t n) = record e { timeout = some n }

-- The member is new in the envelope, its texts are in bounds, and what it prints is its values.
abbrev pub Fits : Envelope → EnvelopeMember → Type 0
Fits e (transaction_id t n) =
    IsText is_visible 21 t × (decimal_ t ≡ some n) × (e.transaction_id ≡ none)
Fits e (reply_to t) =
    IsText is_visible 193 t
    × (contains b'+' t ≡ false)
    × (contains b'#' t ≡ false)
    × (e.reply_topic ≡ none)
Fits e (source m ms d n) =
    AllFit add_source SourceFits no_members m ms
    × ((applied add_source no_members m ms).first ≡ some d)
    × ((applied add_source no_members m ms).second ≡ some n)
    × (e.source ≡ none)
Fits e (target m ms d t) =
    AllFit add_target TargetFits no_members m ms
    × ((applied add_target no_members m ms).first ≡ some d)
    × ((applied add_target no_members m ms).second ≡ some t)
    × (e.target ≡ none)
Fits e (command m ms t) =
    AllFit add_command CommandFits no_members m ms
    × ((applied add_command no_members m ms).first ≡ some t)
    × (e.command ≡ none)
Fits e (timeout_ms t n) = IsTimeout t n × (e.timeout ≡ none)

member-print :
    (e : Envelope) (m : EnvelopeMember) (c : ℕ) (rest : Bytes)
    → Fits e m
    → IsDelimiter c
    → member e (print_member m (c ∷ rest)) ≡ some (add_member e m, c ∷ rest)
unfolding member string_ readers str_eq
member-print e (transaction_id t n) c rest h l = ground (
  arith,
  key-print (codes "transaction_id") (b':' ∷ print_string t (c ∷ rest)) (ground arith),
  chars-print is_visible 21 t (c ∷ rest) h.0,
  h.1,
  h.2,
)
member-print e (reply_to t) c rest h l = ground (
  arith,
  key-print (codes "reply_to") (b':' ∷ print_string t (c ∷ rest)) (ground arith),
  chars-print is_visible 193 t (c ∷ rest) h.0,
  h.1,
  h.2,
  h.3,
)
member-print e (source m ms d n) c rest h l =
    let value = b'{' ∷ print_members print_source_member m ms (c ∷ rest) in
    ground (
      arith,
      key-print (codes "source") (b':' ∷ value) (ground arith),
      source-print m ms (c ∷ rest) d n h.0 h.1 h.2,
      h.3,
    )
member-print e (target m ms d t) c rest h l =
    let value = b'{' ∷ print_members print_target_member m ms (c ∷ rest) in
    ground (
      arith,
      key-print (codes "target") (b':' ∷ value) (ground arith),
      target-print m ms (c ∷ rest) d t h.0 h.1 h.2,
      h.3,
    )
member-print e (command m ms t) c rest h l =
    let value = b'{' ∷ print_members print_command_member m ms (c ∷ rest) in
    ground (
      arith,
      key-print (codes "command") (b':' ∷ value) (ground arith),
      command-print m ms (c ∷ rest) t h.0 h.1,
      h.2,
    )
member-print e (timeout_ms t n) c rest h l = ground (
  arith,
  key-print (codes "timeout_ms") (b':' ∷ (t ++ c ∷ rest)) (ground arith),
  timeout-print t n c rest h.0 l,
  h.1,
)

starts_member : (m : EnvelopeMember) (rest : Bytes) → (r : Bytes) × (print_member m rest ≡ b'"' ∷ r)
starts_member (transaction_id t n) rest = (_, refl)
starts_member (reply_to t) rest = (_, refl)
starts_member (source m ms d n) rest = (_, refl)
starts_member (target m ms d t) rest = (_, refl)
starts_member (command m ms t) rest = (_, refl)
starts_member (timeout_ms t n) rest = (_, refl)

-- An envelope of these members, in the order given.
abbrev pub print_envelope : EnvelopeMember → List EnvelopeMember → Bytes
print_envelope m ms = b'{' ∷ print_members print_member m ms []

parse-print :
    (m : EnvelopeMember) (ms : List EnvelopeMember)
    → AllFit add_member Fits empty_envelope m ms
    → parse (print_envelope m ms) ≡ fields_of (applied add_member empty_envelope m ms)
unfolding parse readers
parse-print m ms h = ground (
  arith,
  object-print print_member add_member Fits member member-Shrinks member-print starts_member
      empty_envelope m ms [] h,
)

-- The timeout of the fields is the one that was read, or 0.
abbrev pub CarriesTimeout : Option ℕ → ℕ → Type 0
CarriesTimeout none k = k ≡ 0
CarriesTimeout (some n) k = k ≡ n

-- The five members that are needed have been read, and the fields hold what they stand for.
abbrev pub Carries : Envelope → MqttCommandFields → Type 0
Carries e f =
    (e.transaction_id ≡ some f.transaction_id)
    × (e.reply_topic ≡ some f.reply_topic)
    × (e.source ≡ some (f.source, f.source_boot_id))
    × (e.target ≡ some (f.device, f.resource))
    × (e.command ≡ some f.action)
    × CarriesTimeout e.timeout f.timeout_ms

or_zero-Carries : (t : Option ℕ) (n : ℕ) → CarriesTimeout t n → or_zero t ≡ n
or_zero-Carries none n h = sym h
or_zero-Carries (some t) n h = sym h

fields_of-Carries : (e : Envelope) (f : MqttCommandFields) → Carries e f → fields_of e ≡ some f
unfolding fields_of
fields_of-Carries e f h =
    rw (h.0, fields_of)
      (rw h.1 (rw h.2 (rw h.3 (rw h.4 (rw (or_zero-Carries e.timeout f.timeout_ms h.5) refl)))))

-- An envelope that is printed with its members in any order, each once and within its bounds, and
-- the members of its source, target and command in any order too, with the five members that are
-- needed and at most 1280 bytes, is decoded to exactly its fields, with the timeout 0 where it has
-- none, and to the canonical bytes of its target and action, where these fit; the receiver is to
-- expect that device, source and reply topic.
pub decode_mqtt_command_envelope-print :
    (m : EnvelopeMember) (ms : List EnvelopeMember) (f : MqttCommandFields) (capacity : ℕ)
    (canonical : Bytes)
    → AllFit add_member Fits empty_envelope m ms
    → Carries (applied add_member empty_envelope m ms) f
    → length (print_envelope m ms) ≤ 1280
    → encode_canonical_command
        (record {
          device = some f.device;
          resource = some f.resource;
          action = some f.action;
          arguments = null 0;
        })
        false
        capacity
      ≡ some canonical
    → decode_mqtt_command_envelope
        (block (print_envelope m ms))
        (some f.device)
        false
        capacity
        (some f.source)
        (some f.reply_topic)
      ≡ some (record { canonical = canonical; fields = f })
unfolding decode_mqtt_command_envelope decode_fields
decode_mqtt_command_envelope-print m ms f capacity canonical h fields fits encoded =
    let parsed : parse (print_envelope m ms) ≡ some f =
      parse-print m ms h ∙ fields_of-Carries (applied add_member empty_envelope m ms) f fields in
    ground (
      arith,
      parsed,
      str_eq_refl f.device,
      str_eq_refl f.source,
      str_eq_refl f.reply_topic,
      encoded,
    )
