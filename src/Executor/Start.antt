-- ===== src/Executor/Start.antt =====
-- communication_net_protocol.cpp: `start`, `start_inbound_`, `start_normal_` and `finish_inbound_`.
use esphome_communication_ne.Admission
use esphome_communication_ne.Admission.{RouteAdmission}
use esphome_communication_ne.Executor.Binding.{
  DeclarativeInboundBinding, LightExpectedState, on, off, toggled, light,
}
use esphome_communication_ne.Executor.State.{
  NetCommand, NetResult, NetStatus, NetErrorCode, NetStart, Platform, NormalExecution, Interrupt,
  Receiver, no_result, lane_at, with_lane, view_of, progress, started, busy, refused,
}
use esphome_communication_ne.Prelude.{
  ℕ, Bool, true, false, not, ◌&&◌, ◌||◌, Option, none, some, List, [], ◌∷◌, ◌==◌, ltb,
  if◌then◌else◌, length, get_elem?, set, str_eq, block, codes,
}
use esphome_communication_ne.Registry.{find_index}
use esphome_communication_ne.Replay.{InboundTerminalStatus}

abbrev pub is_null : Option ℕ → Bool
is_null none = true
is_null (some entity) = false

abbrev pub is_succeeded : NetStatus → Bool
is_succeeded NetStatus.succeeded = true
is_succeeded _ = false

abbrev pub terminal_status : NetStatus → InboundTerminalStatus
terminal_status NetStatus.succeeded = InboundTerminalStatus.succeeded
terminal_status _ = InboundTerminalStatus.failed

-- The first part of `finish_inbound_` and of `finish_interrupt_`: the result is kept for replays.
unfoldable pub record_result : Platform → RouteAdmission → NetCommand → NetResult → RouteAdmission
record_result p a c result = elim (p.encode result) [
  | none ↦ a
  | some encoded ↦
      if ltb 256 (length encoded)
      then a
      else (Admission.complete a (view_of c)
          (record { status = terminal_status result.status; result = block encoded })).0
]

unfoldable pub finish_inbound_ : Platform → Receiver → ℕ → NetResult → Receiver
finish_inbound_ p r i result =
    let e = lane_at r i in
    record r {
      admission = record_result p r.admission e.active_command result;
      lanes = set r.lanes i (record e {
        inbound_active = false;
        active_binding = none;
        inbound_result = result;
        radio_result_ready = e.radio_waiting;
        mqtt_result_ready = e.mqtt_waiting;
      });
    }

abbrev pub has_empty_payload : NetCommand → Bool
has_empty_payload c = length c.payload == 0 || str_eq c.payload (b'{' ∷ b'}' ∷ [])

unfoldable pub declared_binding : Receiver → NetCommand → Option DeclarativeInboundBinding
declared_binding r c =
    get_elem? r.bindings (find_index r.admission.routes (some c.resource) (some c.name))

unfoldable pub command_matches_active_resource_ : NormalExecution → NetCommand → Bool
command_matches_active_resource_ e c =
    e.inbound_active
    && str_eq c.source_device_id e.active_command.source_device_id
    && c.source_boot_id == e.active_command.source_boot_id
    && str_eq c.device_id e.active_command.device_id
    && str_eq c.resource e.active_command.resource

abbrev pub is_interruptible : Option DeclarativeInboundBinding → Bool
is_interruptible none = false
is_interruptible (some b) = b.interruptible

abbrev pub is_interrupting : Option DeclarativeInboundBinding → Bool
is_interrupting none = false
is_interrupting (some b) = b.interrupts_active

-- The tests of `start_normal_` up to the admission: none where it answers BUSY, else `interrupt`.
unfoldable pub passage :
    Interrupt → NormalExecution → Option DeclarativeInboundBinding → NetCommand → Option Bool
unfolding command_matches_active_resource_
passage t e declared c =
    if e.inbound_active && not (c.transaction_id == e.active_command.transaction_id)
    then (let interrupt =
          is_interruptible e.active_binding
          && is_interrupting declared
          && command_matches_active_resource_ e c in
        let same = t.active && c.transaction_id == t.command.transaction_id in
        if not interrupt
          || (t.active && not same)
          || (not same && (t.radio_result_ready || t.mqtt_result_ready))
        then none
        else some true)
    else if (e.radio_result_ready || e.mqtt_result_ready)
        && not (e.inbound_result.transaction_id == c.transaction_id)
    then none
    else some false

abbrev pub lane_ready : Bool → NormalExecution → NormalExecution
lane_ready true e = record e { radio_result_ready = true }
lane_ready false e = record e { mqtt_result_ready = true }

abbrev pub lane_is_ready : Bool → NormalExecution → Bool
lane_is_ready true e = e.radio_result_ready
lane_is_ready false e = e.mqtt_result_ready

abbrev pub interrupt_ready : Bool → Interrupt → Interrupt
interrupt_ready true t = record t { radio_result_ready = true }
interrupt_ready false t = record t { mqtt_result_ready = true }

abbrev pub interrupt_is_ready : Bool → Interrupt → Bool
interrupt_is_ready true t = t.radio_result_ready
interrupt_is_ready false t = t.mqtt_result_ready

-- The replayed result goes to the lane of the command. Only the radio path tests a normal lane for a
-- result that still waits.
unfoldable pub give_replay :
    Receiver → ℕ → NetCommand → Bool → Bool → NetResult → Receiver × NetStart
give_replay r i c interrupt radio replay =
    if interrupt
    then (if interrupt_is_ready radio r.interrupt then (r, busy) else (
      record r { interrupt = interrupt_ready radio (record r.interrupt { result = replay }) },
      started,
    ))
    else if radio && (lane_at r i).radio_result_ready
    then (r, busy)
    else (
      with_lane r i
          (lane_ready radio (record (lane_at r i) { active_command = c; inbound_result = replay })),
      started,
    )

unfoldable pub start_terminal :
    Platform → Receiver → ℕ → NetCommand → Bool → Bool → Receiver × NetStart
start_terminal p r i c interrupt radio =
    elim (Admission.replay_terminal r.admission (view_of c) false 256) [
      | none ↦ (r, refused)
      | some replayed ↦ elim (p.decode c.transaction_id replayed.payload) [
        | none ↦ (r, refused)
        | some replay ↦ give_replay r i c interrupt radio replay
      ]
    ]

-- A duplicate of a command that is still executed registers its way back.
unfoldable pub start_pending : Receiver → ℕ → NetCommand → Bool → Bool → Receiver × NetStart
start_pending r i c interrupt radio =
    let t = r.interrupt in
    let e = lane_at r i in
    if interrupt && t.active && c.transaction_id == t.command.transaction_id
    then (
      record r {
        interrupt = interrupt_ready radio (record t {
          radio_waiting = t.radio_waiting || radio;
          mqtt_waiting = t.mqtt_waiting || not radio;
          result = progress c.transaction_id t.timeout_ms;
        });
      },
      started,
    )
    else if e.inbound_active && c.transaction_id == e.active_command.transaction_id
    then (
      with_lane r i (
          lane_ready radio (record e {
            radio_waiting = e.radio_waiting || radio;
            mqtt_waiting = e.mqtt_waiting || not radio;
            inbound_result = progress c.transaction_id e.inbound_timeout_ms;
          })),
      started,
    )
    else (r, refused)

-- A new command that interrupts the lane `i`.
unfoldable pub start_interrupt :
    Receiver → ℕ → NetCommand → DeclarativeInboundBinding → ℕ → Bool → Receiver
start_interrupt r i c b now_ms radio = record r {
  interrupt = interrupt_ready radio (record r.interrupt {
    target = some i;
    command = c;
    binding = some b;
    started_ms = now_ms;
    timeout_ms = b.timeout_ms;
    radio_waiting = radio;
    mqtt_waiting = not radio;
    active = true;
    result =
        progress c.transaction_id
          (if b.timer_completion then b.completion_delay_ms else b.timeout_ms);
  });
}

unfoldable pub any_on : (p : Platform) → p.World → List ℕ → Bool
any_on p w [] = false
any_on p w (l ∷ ls) = p.is_on w l || any_on p w ls

-- `expected == ON || (expected == TOGGLED && !now_on)`
abbrev pub expects_on : LightExpectedState → Bool → Bool
expects_on on now_on = true
expects_on off now_on = false
expects_on toggled now_on = not now_on

unfoldable pub unavailable : NetCommand → NetResult
unavailable c = record no_result {
  transaction_id = c.transaction_id;
  status = NetStatus.failed;
  error_code = NetErrorCode.target_unavailable;
  error_message = codes "binary sensor state unavailable";
}

-- There is a light, a sensor, a cover or a timer to wait for.
unfoldable pub waits : DeclarativeInboundBinding → Bool
waits b = not (is_null (light b) && is_null b.sensor && is_null b.cover && not b.timer_completion)

-- `immediate`
unfoldable pub at_once : NetCommand → NetResult
at_once c = record no_result {
  transaction_id = c.transaction_id;
  status = NetStatus.succeeded;
  started = true;
}

-- Behind the trigger: a command with nothing to wait for is done, any other is in progress.
unfoldable pub after_trigger :
    Platform → Receiver → ℕ → NetCommand → DeclarativeInboundBinding → Bool → Receiver
after_trigger p r i c b radio =
    if not (waits b)
    then finish_inbound_ p r i (at_once c)
    else let e = lane_at r i in
      with_lane r i (
        lane_ready radio
          (record e { inbound_result = progress c.transaction_id e.inbound_timeout_ms }))
