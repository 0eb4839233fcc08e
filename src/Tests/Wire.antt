-- ===== src/Tests/Wire.antt =====
-- tests/mqtt_envelope_decoder_test.cpp, tests/mqtt_command_decoder_test.cpp and
-- tests/passive_inbound_inspector_test.cpp, on the model.
use esphome_communication_ne.Admission.{
  RouteAdmission, admission_limits, matches_, encode_routed_command_, route_of, routed,
}
use esphome_communication_ne.Canonical.{
  write_part, check_part, required_size, canonical_bytes, encode_canonical_command,
}
use esphome_communication_ne.Gate.{InboundCommandView}
use esphome_communication_ne.Inspector.{inspect_inbound_command, inspect-routed, view_of}
use esphome_communication_ne.Prelude.{
  ◌≡◌, ◌≤◌, ◌<◌, ◌++◌, ◌↔◌, ◌^◌, ◌%◌, refl, some, none, false, true, All, List, ◌∷◌, [], Bytes,
  block, codes, arith, find_index?, str_eq, strnlen,
}
use esphome_communication_ne.Registry.{length_, find_index, find, id_at}
use esphome_communication_ne.Replay.{empty_guard}
use esphome_communication_ne.Wire.Decimal.{
  decimal_, digits_from, IsDigit, value_from, uint64_max, decimal-eq-some_iff,
}
use esphome_communication_ne.Wire.Envelope
use esphome_communication_ne.Wire.Envelope.{
  MqttCommandFields, Decoded, decode_mqtt_command_envelope, no_members,
}
use esphome_communication_ne.Wire.Envelope.Loops.{source_member-Shrinks}
use esphome_communication_ne.Wire.Envelope.Parts
use esphome_communication_ne.Wire.Envelope.RoundTrip.{
  EnvelopeMember, print_envelope, decode_mqtt_command_envelope-print,
}
use esphome_communication_ne.Wire.Envelope.Sound.{
  IsUsable, decode-IsUsable, decode-injective, intent,
}
use esphome_communication_ne.Wire.Envelope.Checked.{IfSome}
use esphome_communication_ne.Wire.Probe.{
  decode_mqtt_command_probe, print_probe, device_key, resource_key, action_key, probe_member, probe,
  encode_probe, decode_mqtt_command_probe-print,
}
use esphome_communication_ne.Wire.Reader.{readers, chars, members, object}
use esphome_communication_ne.Wire.Result
use esphome_communication_ne.Wire.Shrinks.{loop}

unfoldable pub program : Unit {0}
unfolding find_index? str_eq strnlen length_ find_index find id_at matches_ encode_routed_command_
    route_of routed write_part check_part required_size canonical_bytes encode_canonical_command
    inspect_inbound_command decimal_ digits_from Envelope.string_ Envelope.source_member
    Envelope.source_ Envelope.target_member Envelope.target_ Envelope.command_member
    Envelope.command_ Envelope.timeout_digits Envelope.timeout_ Envelope.contains Envelope.member
    Envelope.fields_of Envelope.parse Envelope.decode_fields decode_mqtt_command_envelope
    probe_member probe encode_probe decode_mqtt_command_probe readers chars members object
program = tt

-- An envelope in an order of its own, with a timeout.
abbrev pub first : EnvelopeMember
first =
    EnvelopeMember.command Parts.CommandMember.payload
      (Parts.CommandMember.name (codes "open") ∷ []) (codes "open")

abbrev pub others : List EnvelopeMember
others =
    EnvelopeMember.target (Parts.TargetMember.resource (codes "cover"))
      (Parts.TargetMember.device (codes "lamp") ∷ []) (codes "lamp") (codes "cover")
    ∷ EnvelopeMember.timeout_ms (codes "300") 300
    ∷ EnvelopeMember.source (Parts.SourceMember.boot_id (codes "7") 7)
        (Parts.SourceMember.device (codes "tx") ∷ []) (codes "tx") 7
    ∷ EnvelopeMember.reply_to (codes "tx/r")
    ∷ EnvelopeMember.transaction_id (codes "42") 42
    ∷ []

abbrev pub fields : MqttCommandFields
fields = record {
  source = codes "tx";
  device = codes "lamp";
  resource = codes "cover";
  action = codes "open";
  reply_topic = codes "tx/r";
  transaction_id = 42;
  source_boot_id = 7;
  timeout_ms = 300;
}

abbrev canonical : Bytes
canonical = 1 ∷ 4 ∷ codes "lamp" ++ 5 ∷ codes "cover" ++ 4 ∷ codes "open" ++ 0 ∷ []

abbrev pub decoded : Decoded
decoded = record { canonical = canonical; fields = fields }

decode_mqtt_command_envelope-print_example :
    decode_mqtt_command_envelope
      (block (print_envelope first others))
      (some (codes "lamp"))
      false
      192
      (some (codes "tx"))
      (some (codes "tx/r"))
    ≡ some decoded
unfolding program
decode_mqtt_command_envelope-print_example =
    decode_mqtt_command_envelope-print first others fields 192 canonical (ground arith)
      (refl, refl, refl, refl, refl, refl) (omega arith) refl

given :
    decode_mqtt_command_envelope
      (block (print_envelope first others))
      (some (codes "lamp"))
      false
      192
      none
      none
    ≡ some decoded
unfolding program
given = refl

refused :
    (decode_mqtt_command_envelope
        (block (print_envelope first others))
        (some (codes "lamp"))
        true
        192
        none
        none
      ≡ none)
    × (decode_mqtt_command_envelope
          (block (print_envelope first others))
          (some (codes "door"))
          false
          192
          none
          none
        ≡ none)
    × (decode_mqtt_command_envelope
          (block (print_envelope first others))
          (some (codes "lamp"))
          false
          192
          (some (codes "other"))
          none
        ≡ none)
    × (decode_mqtt_command_envelope
          (block (print_envelope first []))
          (some (codes "lamp"))
          false
          192
          none
          none
        ≡ none)
unfolding program
refused = (refl, refl, refl, refl)

decode-IsUsable_example :
    IsUsable fields
    × (some (codes "lamp") ≡ some fields.device)
    × IfSome (λ e. e ≡ fields.source) none
    × IfSome (λ e. e ≡ fields.reply_topic) none
    × (encode_canonical_command (intent fields) false 192 ≡ some canonical)
decode-IsUsable_example =
    decode-IsUsable (block (print_envelope first others)) (some (codes "lamp")) false 192 none none
      decoded given

decode-injective_example :
    (fields.device ≡ fields.device)
    × (fields.resource ≡ fields.resource)
    × (fields.action ≡ fields.action)
decode-injective_example =
    decode-injective (block (print_envelope first others)) (block (print_envelope first others))
      (some (codes "lamp")) (some (codes "lamp")) false false 192 192 none none none none decoded
      decoded given given refl

abbrev source_bytes : Bytes
source_bytes = codes "\"boot_id\":\"7\",\"device_id\":\"tx\"}"

read_source :
    loop Envelope.source_member source_member-Shrinks no_members source_bytes
    ≡ some (record { first = some (codes "tx"); second = some 7 }, [])
unfolding program
read_source = refl

decimal-eq-some_iff_example :
    (decimal_ (codes "042") ≡ some 42)
    ↔ (All IsDigit (codes "042") × (value_from 0 (codes "042") ≡ 42) × (0 < 42) × (42 ≤ uint64_max))
decimal-eq-some_iff_example = decimal-eq-some_iff (codes "042") 42

decimals :
    (decimal_ (codes "042") ≡ some 42)
    × (decimal_ (codes "18446744073709551615") ≡ some uint64_max)
    × (decimal_ (codes "18446744073709551616") ≡ none)
    × (decimal_ (codes "0") ≡ none)
unfolding program
decimals = (refl, refl, refl, refl)

decode_mqtt_command_probe-print_example :
    decode_mqtt_command_probe
      (block (
        print_probe resource_key device_key action_key
          (codes "cover")
          (codes "lamp")
          (codes "open")))
      (some (codes "lamp"))
      false
      192
    ≡ encode_canonical_command (intent fields) false 192
decode_mqtt_command_probe-print_example =
    decode_mqtt_command_probe-print resource_key device_key action_key (codes "cover")
      (codes "lamp") (codes "open")
      (record {
        device = some (codes "lamp");
        resource = some (codes "cover");
        action = some (codes "open");
      })
      (codes "lamp") 192 refl refl (ground arith) (ground arith) (ground arith) refl refl
      (omega arith)

abbrev admission : RouteAdmission
admission = record {
  local_device = some (codes "lamp");
  routes = record {
    capacity = 16;
    entries =
        record { id = codes "r1"; resource = codes "cover"; command = codes "close" }
        ∷ record { id = codes "r2"; resource = codes "cover"; command = codes "open" }
        ∷ [];
  };
  gate = empty_guard admission_limits 8;
}

abbrev view : InboundCommandView
view = record {
  source_id = some (codes "tx");
  source_boot_id = 7;
  transaction_id = 42;
  intent = intent fields;
}

inspected :
    inspect_inbound_command admission.routes admission.local_device view.intent.device
      view.intent.resource view.intent.action
      (block (codes "{}"))
      false
      192
    ≡ some (codes "r2", canonical)
unfolding program
inspected = refl

inspect-routed_example :
    routed admission (view_of view)
    ≡ some (
      codes "r2",
      1 ∷ (find_index admission.routes view.intent.resource view.intent.action % 2 ^ 8) ∷ [],
    )
inspect-routed_example =
    inspect-routed admission view (block (codes "{}")) false 192 (codes "r2") canonical
      (omega arith) inspected
