-- ===== src/Executor/Receive.antt =====
-- communication_net_protocol.cpp: `receive_mqtt_inbound_`, from the bytes of a payload to a start.
pub mod Authority
use esphome_communication_ne.Executor.Dispatch.{Outcome, start_inbound_}
use esphome_communication_ne.Executor.State.{
  NetCommand, NetStart, Platform, Receiver, Triggered, started,
}
use esphome_communication_ne.Prelude.{
  ℕ, Bool, true, false, not, ◌||◌, Option, none, some, [], ◌∷◌, ◌==◌, if◌then◌else◌, Bytes, Span,
}
use esphome_communication_ne.Wire.Envelope.{MqttCommandFields, decode_mqtt_command_envelope}

-- What a payload leads to: the new state, what is triggered, and the transaction of the refusal that
-- is published, if any.
pub record Received : Type 0 where
  pub receiver : Receiver
  pub triggered : Triggered
  pub refusal : Option ℕ

abbrev pub ignored : Receiver → Received
ignored r = record { receiver = r; triggered = none; refusal = none }

-- The command that is assembled from the fields.
abbrev pub command_of : MqttCommandFields → NetCommand
command_of f = record {
  transaction_id = f.transaction_id;
  source_boot_id = f.source_boot_id;
  timeout_ms = f.timeout_ms;
  source_device_id = f.source;
  device_id = f.device;
  resource = f.resource;
  name = f.action;
  payload = b'{' ∷ b'}' ∷ [];
}

abbrev pub is_started : NetStart → Bool
is_started started = true
is_started _ = false

abbrev pub received : Outcome → ℕ → Received
received o transaction_id = record {
  receiver = o.receiver;
  triggered = o.triggered;
  refusal = if is_started o.answer then none else some transaction_id;
}

-- The device, source and reply topic are those that the component is configured with; `assigns`
-- tells whether the bounded texts of NetCommand take the fields.
unfoldable pub receive_mqtt_inbound_ :
    (p : Platform)
    → (MqttCommandFields → Bool)
    → p.World
    → Receiver
    → Span
    → Option Bytes
    → Option Bytes
    → Option Bytes
    → ℕ
    → Received
receive_mqtt_inbound_ p assigns w r payload device source reply now_ms =
    elim (decode_mqtt_command_envelope payload device false 192 source reply) [
      | none ↦ ignored r
      | some d ↦
          if d.fields.source_boot_id == 0 || d.fields.timeout_ms == 0
          then ignored r
          else if not (assigns d.fields)
          then ignored r
          else received (start_inbound_ p w r (command_of d.fields) now_ms false)
              d.fields.transaction_id
    ]
