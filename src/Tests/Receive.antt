-- ===== src/Tests/Receive.antt =====
-- tests/cross_transport_receiver_test.cpp, on the model: from the bytes of a payload to an action.
use esphome_communication_ne.Executor.Once.{new_receiver}
use esphome_communication_ne.Executor.Receive.Authority.{IsGranted, receive-IsGranted}
use esphome_communication_ne.Executor.Receive.{command_of, receive_mqtt_inbound_}
use esphome_communication_ne.Executor.State.{Receiver, empty_execution}
use esphome_communication_ne.Prelude.{
  ◌<◌, ◌≡◌, refl, true, false, some, none, ◌∷◌, [], block, codes,
}
use esphome_communication_ne.Tests.Executor.{program as executor_program, platform, binding}
use esphome_communication_ne.Tests.Wire.{program as wire_program, first, others, fields}
use esphome_communication_ne.Wire.Envelope.Checked.{IfSome}
use esphome_communication_ne.Wire.Envelope.RoundTrip.{print_envelope}
use esphome_communication_ne.Wire.Envelope.Sound.{IsUsable}
use esphome_communication_ne.Wire.Envelope.{Decoded, decode_mqtt_command_envelope}

program : Unit {0}
unfolding executor_program wire_program receive_mqtt_inbound_
program = tt

abbrev receiver : Receiver
receiver =
    new_receiver true (some (codes "lamp"))
      (record {
        capacity = 16;
        entries = record { id = codes "r1"; resource = codes "cover"; command = codes "open" } ∷ [];
      })
      8 (binding ∷ []) (empty_execution ∷ [])

triggered :
    (receive_mqtt_inbound_ platform
      (λ f. true)
      false
      receiver
      (block (print_envelope first others))
      (some (codes "lamp"))
      (some (codes "tx"))
      none
      1000).triggered
    ≡ some (binding, command_of fields)
unfolding program
triggered = refl

refused :
    ((receive_mqtt_inbound_ platform
        (λ f. true)
        false
        (record receiver { inbound_routes_valid = false })
        (block (print_envelope first others))
        (some (codes "lamp"))
        none
        none
        1000).refusal
      ≡ some 42)
    × ((receive_mqtt_inbound_ platform
          (λ f. true)
          false
          receiver
          (block (codes "{}"))
          (some (codes "lamp"))
          none
          none
          1000).refusal
        ≡ none)
unfolding program
refused = (refl, refl)

receive-IsGranted_example :
    (d : Decoded) × (decode_mqtt_command_envelope
        (block (print_envelope first others))
        (some (codes "lamp"))
        false
        192
        (some (codes "tx"))
        none
      ≡ some d)
    × IsUsable d.fields
    × (0 < d.fields.timeout_ms)
    × (some (codes "lamp") ≡ some d.fields.device)
    × IfSome (λ e. e ≡ d.fields.source) (some (codes "tx"))
    × IfSome (λ e. e ≡ d.fields.reply_topic) none
    × IsGranted platform receiver (command_of d.fields) binding (command_of fields)
receive-IsGranted_example =
    receive-IsGranted platform (λ f. true) false receiver (block (print_envelope first others))
      (some (codes "lamp")) (some (codes "tx")) none 1000 binding (command_of fields) triggered
