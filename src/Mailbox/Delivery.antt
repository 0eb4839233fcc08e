-- ===== src/Mailbox/Delivery.antt =====
-- mqtt_mailbox.h: what is put is what is taken.
use mathlib.Core.List.{append-nil, append_assoc}
use esphome_communication_ne.Prelude.{
  ℕ, ◌<◌, ◌≤◌, true, false, ◌||◌, some, List, [], ◌∷◌, ◌++◌, ◌==◌, ltb, ◌≡◌, refl, ◌∙◌, ap, sym,
  arith, length, not, Bytes, Span, null, block, Bool-cases, inl, inr, ◌⊎◌, add32,
}
use esphome_communication_ne.Mailbox.{
  MqttMailbox, Message, Event, put_event, take_event, release_event, max_topic, max_payload,
  empty_mailbox, put, take, peek, release, after, stored, given, from_option, span_bytes,
}

-- All that a sequence of events stores, and all that it gives away, in order.
unfoldable pub all_stored : MqttMailbox → List Event → List Message
all_stored m [] = []
all_stored m (e ∷ es) = stored m e ++ all_stored (after m e) es

unfoldable pub all_given : MqttMailbox → List Event → List Message
all_given m [] = []
all_given m (e ∷ es) = given m e ++ all_given (after m e) es

unfoldable pub run : MqttMailbox → List Event → MqttMailbox
run m [] = m
run m (e ∷ es) = run (after m e) es

-- One event stores or gives away at most what changes in the slot.
step-balance :
    (m : MqttMailbox) (e : Event)
    → from_option (peek m) ++ stored m e ≡ given m e ++ from_option (peek (after m e))
unfolding peek stored given after put take release
step-balance m (put_event (null a) p) = ground arith
step-balance m (put_event (block a) (null n)) = ground arith
step-balance m (put_event (block a) (block b)) = ground arith
step-balance m (take_event a b c d) = ground arith
step-balance m release_event = ground arith

run-balance :
    (es : List Event) (m : MqttMailbox)
    → from_option (peek m) ++ all_stored m es ≡ all_given m es ++ from_option (peek (run m es))
unfolding all_stored all_given run
run-balance [] m = append-nil (from_option (peek m)) ∙ refl
run-balance (e ∷ es) m =
    sym (append_assoc (from_option (peek m)) (stored m e) (all_stored (after m e) es))
    ∙ ap (λ l. l ++ all_stored (after m e) es) (step-balance m e)
    ∙ append_assoc (given m e) (from_option (peek (after m e))) (all_stored (after m e) es)
    ∙ ap (λ l. given m e ++ l) (run-balance es (after m e))
    ∙ sym (
        append_assoc (given m e) (all_given (after m e) es)
          (from_option (peek (run (after m e) es))))

-- Over any sequence of puts, takes and releases on a new mailbox, the messages that are given away
-- are those that were stored, in the order of storing and each once, and what is stored and not
-- given away is the one message that the slot holds at the end.
pub run-all_given :
    (es : List Event)
    → all_stored empty_mailbox es
      ≡ all_given empty_mailbox es ++ from_option (peek (run empty_mailbox es))
run-all_given es = unfold peek in run-balance es empty_mailbox

-- A topic of 1 to 192 bytes, at an address that is not null.
abbrev pub IsTopic : Span → Type 0
IsTopic (null n) = ⊥
IsTopic (block topic) = (0 < length topic) × (length topic ≤ 192)

-- A payload of at most 1280 bytes, which may be null where it is empty.
abbrev pub IsPayload : Span → Type 0
IsPayload (null n) = n ≡ 0
IsPayload (block payload) = length payload ≤ 1280

-- The messages that a put accepts, into a free slot.
pub record Accepts (m : MqttMailbox) (topic payload : Span) : Type 0 where
  pub free : m.occupied ≡ false
  pub topic_fits : IsTopic topic
  pub payload_fits : IsPayload payload

-- A put succeeds exactly where the slot is free, the topic is not null and of 1 to 192 bytes, and
-- the payload is of at most 1280 bytes and not null but where its length is 0; the message then
-- stands in the slot and no drop is counted. Where it fails the slot is as before and one more drop
-- is counted, modulo 2 ^ 32.
pub put-Accepts :
    (m : MqttMailbox) (topic payload : Span)
    → (Accepts m topic payload
        × (put m topic payload ≡ (
          record m { topic = span_bytes topic; payload = span_bytes payload; occupied = true },
          true,
        )))
      ⊎ ((¬ Accepts m topic payload)
          × (put m topic payload ≡ (record m { dropped = add32 m.dropped 1 }, false)))
unfolding put
put-Accepts m (null n) payload = inr ((λ a. absurd a.topic_fits), ground arith)
put-Accepts m (block topic) (null n) =
    elim (Bool-cases (
      m.occupied
      || length topic == 0
      || ltb max_topic (length topic)
      || ltb max_payload n
      || not (n == 0))) [
        | inl e ↦ inr ((λ a. ground (arith, a.free, a.topic_fits, a.payload_fits)), ground arith)
        | inr e ↦ inl (
          record {
            free = ground arith;
            topic_fits = (ground arith, ground arith);
            payload_fits = ground arith;
          },
          ground arith,
        )
      ]
put-Accepts m (block topic) (block payload) =
    elim (Bool-cases (
      m.occupied
      || length topic == 0
      || ltb max_topic (length topic)
      || ltb max_payload (length payload))) [
        | inl e ↦ inr ((λ a. ground (arith, a.free, a.topic_fits, a.payload_fits)), ground arith)
        | inr e ↦ inl (
          record {
            free = ground arith;
            topic_fits = (ground arith, ground arith);
            payload_fits = ground arith;
          },
          ground arith,
        )
      ]

-- A message that was accepted is taken whole by a buffer that is large enough (the topic with its
-- NUL), and the slot is free again.
pub take-put :
    (m : MqttMailbox) (topic payload : Bytes) (topic_capacity payload_capacity : ℕ)
    → (put m (block topic) (block payload)).1 ≡ true
    → length topic < topic_capacity
    → length payload ≤ payload_capacity
    → ((take (put m (block topic) (block payload)).0 false topic_capacity false payload_capacity).1
        ≡ some (record { topic = topic; payload = payload }))
      × ((take
            (put m (block topic) (block payload)).0
            false
            topic_capacity
            false
            payload_capacity).0.occupied
          ≡ false)
unfolding put take
take-put m topic payload a b h p q = ground arith
