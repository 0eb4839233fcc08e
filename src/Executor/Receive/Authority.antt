-- ===== src/Executor/Receive/Authority.antt =====
-- communication_net_protocol.cpp: what a triggered action goes back to.
use esphome_communication_ne.Admission.{admit}
use esphome_communication_ne.Executor.Binding.{DeclarativeInboundBinding}
use esphome_communication_ne.Executor.Dispatch.{
  expectation, start_action, start_new, start_decided, start_normal_, related_lane, free_lane,
  start_inbound_,
}
use esphome_communication_ne.Executor.Receive.{command_of, receive_mqtt_inbound_}
use esphome_communication_ne.Executor.Start.{has_empty_payload, declared_binding, passage}
use esphome_communication_ne.Executor.State.{NetCommand, Platform, Receiver, lane_at, view_of}
use esphome_communication_ne.Prelude.{
  ℕ, ◌<◌, ◌≡◌, refl, Bool, true, false, not, ◌||◌, Option, none, some, ◌==◌, Bytes, Span, arith,
  Bool-cases, Option-cases, inl, inr,
}
use esphome_communication_ne.Replay.{InboundDecision, new_command}
use esphome_communication_ne.Wire.Envelope.Checked.{IfSome}
use esphome_communication_ne.Wire.Envelope.Sound.{IsUsable, decode-IsUsable}
use esphome_communication_ne.Wire.Envelope.{
  MqttCommandFields, Decoded, decode_mqtt_command_envelope,
}

-- Why an action is triggered for a command.
pub record IsGranted (p : Platform) (r : Receiver) (c : NetCommand) (b : DeclarativeInboundBinding)
    (c' : NetCommand) : Type 0 where
  pub same : c' ≡ c
  pub routes : r.inbound_routes_valid ≡ true
  pub valid : p.valid c ≡ true
  pub bare : has_empty_payload c ≡ true
  pub declared : declared_binding r c ≡ some b
  pub new : (admit r.admission (view_of c)).1 ≡ new_command

module _ (p : Platform) (w : p.World) (b : DeclarativeInboundBinding) (c' : NetCommand) where
  action-triggered :
      (r : Receiver) (i : ℕ) (c : NetCommand) (d : DeclarativeInboundBinding) (now : ℕ)
      (radio : Bool)
      → (start_action p w r i c d now radio).triggered ≡ some (b, c')
      → (c' ≡ c) × (d ≡ b)
  unfolding start_action
  action-triggered r i c d now radio h =
      elim (Option-cases (expectation p w d (lane_at r i).inbound_expected_on)) [
        | inl e ↦ absurd (ground (arith, e, h))
        | inr (expected, e) ↦ (ground (arith, e, h), ground (arith, e, h))
      ]

  decided-triggered :
      (r : Receiver) (i : ℕ) (c : NetCommand) (declared : Option DeclarativeInboundBinding)
      (interrupt : Bool) (now : ℕ) (radio : Bool) (d : InboundDecision)
      → (start_decided p w r i c declared interrupt now radio d).triggered ≡ some (b, c')
      → (d ≡ new_command) × (declared ≡ some b) × (c' ≡ c)
  unfolding start_decided start_new
  decided-triggered r i c none interrupt now radio new_command h = absurd (cc)
  decided-triggered r i c (some d) true now radio new_command h = (refl, cc, cc)
  decided-triggered r i c (some d) false now radio new_command h =
      let (same, bound) = action-triggered r i c d now radio h in (refl, cc, same)
  decided-triggered r i c declared interrupt now radio _ h = absurd (cc)

  normal-IsGranted :
      (r : Receiver) (i : ℕ) (c : NetCommand) (now : ℕ) (radio : Bool)
      → (start_normal_ p w r i c now radio).triggered ≡ some (b, c')
      → IsGranted p r c b c'
  unfolding start_normal_
  normal-IsGranted r i c now radio h = elim (Bool-cases (not r.inbound_routes_valid)) [
    | inl closed ↦ absurd (ground (arith, h, closed))
    | inr valid ↦ elim (Bool-cases (not (p.valid c) || not (has_empty_payload c))) [
      | inl bad ↦ absurd (ground (arith, h, valid, bad))
      | inr good ↦
          elim (Option-cases (passage r.interrupt (lane_at r i) (declared_binding r c) c)) [
            | inl e ↦ absurd (ground (arith, h, valid, good, e))
            | inr (interrupt, e) ↦
                let (new, declared, same) =
                  decided-triggered (record r { admission = (admit r.admission (view_of c)).0 }) i c
                    (declared_binding r c) interrupt now radio (admit r.admission (view_of c)).1
                    (rw (valid, start_normal_) at (rw good at (rw e at h))) in
                record {
                  same = same;
                  routes = ground (arith, valid);
                  valid = ground (arith, good);
                  bare = ground (arith, good);
                  declared = declared;
                  new = new;
                }
          ]
    ]
  ]

  -- An action is triggered only for the command itself, by the binding that is declared for its
  -- route, with valid routes, a valid command and no payload, and where the admission finds it new.
  pub inbound-IsGranted :
      (r : Receiver) (c : NetCommand) (now : ℕ) (radio : Bool)
      → (start_inbound_ p w r c now radio).triggered ≡ some (b, c')
      → IsGranted p r c b c'
  unfolding start_inbound_
  inbound-IsGranted r c now radio h = elim (Option-cases (related_lane r.interrupt c 0 r.lanes)) [
    | inr (i, e) ↦ normal-IsGranted r i c now radio (rw (e, start_inbound_) at h)
    | inl e ↦ elim (Option-cases (free_lane r.interrupt 0 r.lanes)) [
      | inl busy ↦ absurd (ground (arith, h, e, busy))
      | inr (i, free) ↦ normal-IsGranted r i c now radio (rw free at (rw (e, start_inbound_) at h))
    ]
  ]

-- Whatever the bytes of an MQTT payload, an action is triggered only if they are decoded to a usable
-- envelope for the configured device, source and reply topic, with a timeout that is not 0. The
-- action is the binding that is declared for the route of the envelope's command, the routes and the
-- command are valid, and the admission finds the command new.
pub receive-IsGranted :
    (p : Platform) (assigns : MqttCommandFields → Bool) (w : p.World) (r : Receiver)
    (payload : Span) (device source reply : Option Bytes) (now : ℕ) (b : DeclarativeInboundBinding)
    (c : NetCommand)
    → (receive_mqtt_inbound_ p assigns w r payload device source reply now).triggered ≡ some (b, c)
    → (d : Decoded) × (decode_mqtt_command_envelope payload device false 192 source reply ≡ some d)
      × IsUsable d.fields
      × (0 < d.fields.timeout_ms)
      × (device ≡ some d.fields.device)
      × IfSome (λ e. e ≡ d.fields.source) source
      × IfSome (λ e. e ≡ d.fields.reply_topic) reply
      × IsGranted p r (command_of d.fields) b c
unfolding receive_mqtt_inbound_
receive-IsGranted p assigns w r payload device source reply now b c h =
    elim (Option-cases (decode_mqtt_command_envelope payload device false 192 source reply)) [
      | inl e ↦ absurd (ground (arith, h, e))
      | inr (d, e) ↦ elim (Bool-cases (d.fields.source_boot_id == 0 || d.fields.timeout_ms == 0)) [
        | inl zero_id ↦ absurd (ground (arith, h, e, zero_id))
        | inr known ↦ elim (Bool-cases (not (assigns d.fields))) [
          | inl long ↦ absurd (ground (arith, h, e, known, long))
          | inr fits ↦
              let (usable, is_device, is_source, is_reply, encoded) =
                decode-IsUsable payload device false 192 source reply d e in
              (
                d,
                e,
                usable,
                ground (arith, known),
                is_device,
                is_source,
                is_reply,
                inbound-IsGranted p w b c r (command_of d.fields) now false
                    (rw fits at (rw known at (rw (e, receive_mqtt_inbound_) at h))),
              )
        ]
      ]
    ]
