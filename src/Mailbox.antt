-- ===== src/Mailbox.antt =====
-- components/communication_net_protocol/mqtt_mailbox.h: one receive slot between the MQTT callback
-- and the loop. The contents of the arrays up to their lengths are `topic` and `payload`.
pub mod Delivery
use esphome_communication_ne.Prelude.{
  ℕ, ◌+◌, Bool, true, false, not, ◌&&◌, ◌||◌, Option, none, some, List, [], ◌∷◌, ◌==◌, ltb, leb,
  if◌then◌else◌, length, Bytes, Span, null, block, span_length, add32,
}

abbrev pub max_topic : ℕ
max_topic = 192

abbrev pub max_payload : ℕ
max_payload = 1280

pub record MqttMailbox : Type 0 where
  pub topic : Bytes
  pub payload : Bytes
  pub dropped : ℕ
  pub occupied : Bool

abbrev pub empty_mailbox : MqttMailbox
empty_mailbox = record { topic = []; payload = []; dropped = 0; occupied = false }

pub record Message : Type 0 where
  pub topic : Bytes
  pub payload : Bytes

abbrev pub span_bytes : Span → Bytes
span_bytes (null n) = []
span_bytes (block b) = b

abbrev pub span_is_valid : Span → Bool
span_is_valid (null n) = n == 0
span_is_valid (block b) = true

abbrev pub is_null : Span → Bool
is_null (null n) = true
is_null (block b) = false

unfoldable pub put : MqttMailbox → Span → Span → MqttMailbox × Bool
put m topic payload =
    if m.occupied
      || is_null topic
      || span_length topic == 0
      || ltb max_topic (span_length topic)
      || ltb max_payload (span_length payload)
      || not (span_is_valid payload)
    then (record m { dropped = add32 m.dropped 1 }, false)
    else (
      record m { topic = span_bytes topic; payload = span_bytes payload; occupied = true },
      true,
    )

-- `topic_is_null` and `payload_is_null` tell whether the caller gave the buffers.
unfoldable pub take : MqttMailbox → Bool → ℕ → Bool → ℕ → MqttMailbox × Option Message
take m topic_is_null topic_capacity payload_is_null payload_capacity =
    if not m.occupied
      || topic_is_null
      || leb topic_capacity (length m.topic)
      || ltb payload_capacity (length m.payload)
      || (payload_is_null && not (length m.payload == 0))
    then (m, none)
    else (record m { occupied = false }, some (record { topic = m.topic; payload = m.payload }))

unfoldable pub peek : MqttMailbox → Option Message
peek m = if not m.occupied then none else some (record { topic = m.topic; payload = m.payload })

unfoldable pub release : MqttMailbox → MqttMailbox
release m = record m { occupied = false }

-- What happens to a mailbox: the callback puts, the loop takes, peeks or releases.
pub data Event : Type 0 where
  put_event : (topic payload : Span) → Event
  take_event :
      (topic_is_null : Bool) (topic_capacity : ℕ) (payload_is_null : Bool) (payload_capacity : ℕ)
      → Event
  release_event : Event

unfoldable pub after : MqttMailbox → Event → MqttMailbox
after m (put_event topic payload) = (put m topic payload).0
after m (take_event a b c d) = (take m a b c d).0
after m release_event = release m

-- The message that the event stores, and the one that it gives away.
unfoldable pub stored : MqttMailbox → Event → List Message
stored m (put_event topic payload) =
    if (put m topic payload).1
    then record { topic = span_bytes topic; payload = span_bytes payload } ∷ []
    else []
stored m _ = []

abbrev pub from_option : Option Message → List Message
from_option none = []
from_option (some x) = x ∷ []

-- A release gives away what `peek` showed.
unfoldable pub given : MqttMailbox → Event → List Message
given m (put_event topic payload) = []
given m (take_event a b c d) = from_option (take m a b c d).1
given m release_event = from_option (peek m)
