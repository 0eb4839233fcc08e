-- ===== src/Executor/Dispatch.antt =====
-- communication_net_protocol.cpp: `start_normal_` from the admission on, `start_inbound_` and
-- `start`.
use esphome_communication_ne.Admission
use esphome_communication_ne.Admission.{RouteAdmission}
use esphome_communication_ne.Executor.Binding.{DeclarativeInboundBinding, light}
use esphome_communication_ne.Executor.Start.{
  finish_inbound_, has_empty_payload, declared_binding, passage, start_terminal, start_pending,
  start_interrupt, any_on, expects_on, unavailable, after_trigger,
}
use esphome_communication_ne.Executor.State.{
  NetCommand, NetStart, Platform, NormalExecution, Interrupt, Receiver, Triggered, lane_at,
  with_lane, view_of, started, busy, invalid_command, refused,
}
use esphome_communication_ne.Prelude.{
  ℕ, suc, Bool, true, false, not, ◌&&◌, ◌||◌, Option, none, some, List, [], ◌∷◌, ◌==◌,
  if◌then◌else◌, str_eq, null,
}
use esphome_communication_ne.Replay.{
  InboundDecision, InboundTerminalStatus, new_command, duplicate_pending, duplicate_terminal,
}

-- What a call of `start` gives: the new state, what it triggers, and its answer.
pub record Outcome : Type 0 where
  pub receiver : Receiver
  pub triggered : Triggered
  pub answer : NetStart

abbrev pub quiet : Receiver × NetStart → Outcome
quiet s = record { receiver = s.0; triggered = none; answer = s.1 }

-- The state that the entities of the binding are expected to reach, or none where the sensor has no
-- state.
unfoldable pub expectation :
    (p : Platform) → p.World → DeclarativeInboundBinding → Bool → Option Bool
expectation p w b old = elim (light b) [
  | some l ↦ some (expects_on b.expected (p.is_on w l || any_on p w b.toggle_references))
  | none ↦ elim b.sensor [
    | none ↦ some old
    | some sensor ↦
        if not (p.has_state w sensor)
        then none
        else some (expects_on b.expected (p.sensor_state w sensor))
  ]
]

-- A new command for the lane `i`.
unfoldable pub start_action :
    (p : Platform)
    → p.World
    → Receiver
    → ℕ
    → NetCommand
    → DeclarativeInboundBinding
    → ℕ
    → Bool
    → Outcome
start_action p w r i c b now_ms radio =
    let e : NormalExecution = record (lane_at r i) {
      active_command = c;
      active_binding = some b;
      inbound_started_ms = now_ms;
      inbound_timeout_ms = b.timeout_ms;
      radio_waiting = radio;
      mqtt_waiting = not radio;
      inbound_active = true;
    } in
    elim (expectation p w b e.inbound_expected_on) [
      | none ↦ record {
        receiver = finish_inbound_ p (with_lane r i e) i (unavailable c);
        triggered = none;
        answer = started;
      }
      | some expected ↦ record {
        receiver =
            after_trigger p (with_lane r i (record e { inbound_expected_on = expected })) i c b
              radio;
        triggered = some (b, c);
        answer = started;
      }
    ]

unfoldable pub start_new :
    (p : Platform)
    → p.World
    → Receiver
    → ℕ
    → NetCommand
    → Option DeclarativeInboundBinding
    → Bool
    → ℕ
    → Bool
    → Outcome
start_new p w r i c none interrupt now_ms radio = record {
  receiver = record r {
    admission =
        (Admission.complete r.admission (view_of c)
          (record { status = InboundTerminalStatus.rejected; result = null 0 })).0;
  };
  triggered = none;
  answer = refused;
}
start_new p w r i c (some b) interrupt now_ms radio =
    if interrupt
    then record {
      receiver = start_interrupt r i c b now_ms radio;
      triggered = some (b, c);
      answer = started;
    }
    else start_action p w r i c b now_ms radio

unfoldable pub start_decided :
    (p : Platform)
    → p.World
    → Receiver
    → ℕ
    → NetCommand
    → Option DeclarativeInboundBinding
    → Bool
    → ℕ
    → Bool
    → InboundDecision
    → Outcome
start_decided p w r i c declared interrupt now_ms radio new_command =
    start_new p w r i c declared interrupt now_ms radio
start_decided p w r i c declared interrupt now_ms radio duplicate_terminal =
    quiet (start_terminal p r i c interrupt radio)
start_decided p w r i c declared interrupt now_ms radio duplicate_pending =
    quiet (start_pending r i c interrupt radio)
start_decided p w r i c declared interrupt now_ms radio _ = quiet (r, refused)

unfoldable pub start_normal_ :
    (p : Platform) → p.World → Receiver → ℕ → NetCommand → ℕ → Bool → Outcome
start_normal_ p w r i c now_ms radio =
    if not r.inbound_routes_valid
    then quiet (r, busy)
    else if not (p.valid c) || not (has_empty_payload c)
    then quiet (r, invalid_command)
    else let declared = declared_binding r c in
      elim (passage r.interrupt (lane_at r i) declared c) [
        | none ↦ quiet (r, busy)
        | some interrupt ↦
            let admitted = Admission.admit r.admission (view_of c) in
            start_decided p w (record r { admission = admitted.0 }) i c declared interrupt now_ms
              radio admitted.1
      ]

abbrev pub is_target : Interrupt → ℕ → Bool
is_target t i = elim t.target [ none ↦ false | some j ↦ j == i ]

-- `&slot != interrupt_target_` compares the index.
unfoldable pub normal_available_ : Interrupt → ℕ → NormalExecution → Bool
normal_available_ t i e =
    not e.inbound_active
    && not e.radio_result_ready
    && not e.mqtt_result_ready
    && (not (is_target t i)
        || (not t.active && not t.radio_result_ready && not t.mqtt_result_ready))

unfoldable pub same_identity : NetCommand → NetCommand → Bool
same_identity a c =
    a.transaction_id == c.transaction_id
    && a.source_boot_id == c.source_boot_id
    && str_eq a.source_device_id c.source_device_id

unfoldable pub same_resource : NetCommand → NetCommand → Bool
same_resource a c = str_eq a.device_id c.device_id && str_eq a.resource c.resource

-- The first loop of `start_inbound_`, from the lane `i` on.
unfoldable pub related_lane : Interrupt → NetCommand → ℕ → List NormalExecution → Option ℕ
unfolding normal_available_ same_identity same_resource
related_lane t c i [] = none
related_lane t c i (e ∷ es) =
    let rest = related_lane t c (suc i) es in
    if not (normal_available_ t i e)
      && (same_identity e.active_command c || same_resource e.active_command c)
    then some i
    else rest

-- The second loop.
unfoldable pub free_lane : Interrupt → ℕ → List NormalExecution → Option ℕ
unfolding normal_available_
free_lane t i [] = none
free_lane t i (e ∷ es) =
    let rest = free_lane t (suc i) es in if normal_available_ t i e then some i else rest

unfoldable pub start_inbound_ :
    (p : Platform) → p.World → Receiver → NetCommand → ℕ → Bool → Outcome
start_inbound_ p w r c now_ms radio = elim (related_lane r.interrupt c 0 r.lanes) [
  | some i ↦ start_normal_ p w r i c now_ms radio
  | none ↦ elim (free_lane r.interrupt 0 r.lanes) [
    | none ↦ quiet (r, busy)
    | some i ↦ start_normal_ p w r i c now_ms radio
  ]
]

-- `verified_command_ == &command`, for a command at an address.
abbrev pub is_verified : Option ℕ → ℕ → Bool
is_verified none address = false
is_verified (some verified) address = verified == address

-- The radio's observer, and its call of the handler.
unfoldable pub on_command_identity : Receiver → ℕ → Receiver
on_command_identity r address = record r { verified_command = some address }

unfoldable pub start : (p : Platform) → p.World → Receiver → ℕ → NetCommand → ℕ → Outcome
start p w r address c now_ms =
    let r' : Receiver = record r { verified_command = none } in
    if not (is_verified r.verified_command address)
    then quiet (r', refused)
    else start_inbound_ p w r' c now_ms true
