-- ===== src/Executor/Completion.antt =====
-- communication_net_protocol.cpp: `loop_normal_` and `loop_interrupt_`, which observe whether a
-- command has had its effect.
use esphome_communication_ne.Executor.Binding.{
  DeclarativeInboundBinding, CoverExpectedState, fully_open, fully_closed, idle,
}
use esphome_communication_ne.Executor.Start.{is_null, waits, finish_inbound_, record_result}
use esphome_communication_ne.Executor.State.{
  NetResult, NetStatus, NetErrorCode, NetStateCompleteness, Platform, NormalExecution, Receiver,
  no_result, lane_at,
}
use esphome_communication_ne.Prelude.{
  ℕ, zero, suc, ◌+◌, ◌/◌, Bool, true, false, not, ◌&&◌, ◌||◌, none, some, List, [], ◌∷◌, ltb, leb,
  if◌then◌else◌, length, get_or, Bytes, str_eq, codes, sub32,
}
use Prim.Native.Nat.{◌*◌}

-- `a == b` for two bools.
abbrev pub same : Bool → Bool → Bool
same true b = b
same false b = not b

-- `current_operation == IDLE` and the position.
unfoldable pub cover_completed : (p : Platform) → p.World → CoverExpectedState → ℕ → Bool
cover_completed p w fully_open cover = p.is_idle w cover && p.is_open w cover
cover_completed p w fully_closed cover = p.is_idle w cover && p.is_closed w cover
cover_completed p w idle cover = p.is_idle w cover

unfoldable pub all_on : (p : Platform) → p.World → Bool → List ℕ → Bool
all_on p w expected [] = true
all_on p w expected (l ∷ ls) = same (p.is_on w l) expected && all_on p w expected ls

-- `actual >= expected - 1 && actual <= expected + 1`, on int.
abbrev pub is_near : ℕ → ℕ → Bool
is_near expected actual = leb expected (actual + 1) && leb actual (expected + 1)

unfoldable pub all_rgb : (p : Platform) → p.World → List ℕ → List ℕ → Bool
all_rgb p w expected [] = true
all_rgb p w expected (l ∷ ls) =
    is_near (get_or expected 0 0) (p.red w l)
    && is_near (get_or expected 1 0) (p.green w l)
    && is_near (get_or expected 2 0) (p.blue w l)
    && all_rgb p w expected ls

unfoldable pub all_bright : (p : Platform) → p.World → ℕ → List ℕ → Bool
all_bright p w expected [] = true
all_bright p w expected (l ∷ ls) = is_near expected (p.brightness w l) && all_bright p w expected ls

unfoldable pub all_effect : (p : Platform) → p.World → Bytes → List ℕ → Bool
all_effect p w expected [] = true
all_effect p w expected (l ∷ ls) = str_eq (p.effect w l) expected && all_effect p w expected ls

-- The first test of `completed`: by the timer, by the cover, or by the sensor and the lights.
unfoldable pub state_reached :
    (p : Platform) → p.World → DeclarativeInboundBinding → Bool → ℕ → Bool
unfolding cover_completed all_on
state_reached p w b expected_on elapsed =
    if b.timer_completion then leb b.completion_delay_ms elapsed else elim b.cover [
      | some cover ↦ cover_completed p w b.cover_expected cover
      | none ↦
          (elim b.sensor [
            | none ↦ true
            | some sensor ↦ p.has_state w sensor && same (p.sensor_state w sensor) expected_on
          ])
          && all_on p w expected_on b.lights
    ]

-- `completed`, with the tests of color, brightness and effect.
unfoldable pub completed : (p : Platform) → p.World → DeclarativeInboundBinding → Bool → ℕ → Bool
unfolding state_reached all_rgb all_bright all_effect
completed p w b expected_on elapsed =
    state_reached p w b expected_on elapsed
    && (not b.check_rgb || all_rgb p w b.expected_rgb b.rgb_lights)
    && (not b.check_brightness
        || all_bright p w ((b.expected_brightness * 255 + 50) / 100) b.brightness_lights)
    && (elim b.expected_effect [ none ↦ true | some name ↦ all_effect p w name b.effect_lights ])

-- `state`, of a binding with a light or a sensor.
abbrev pub state_byte : (p : Platform) → p.World → DeclarativeInboundBinding → ℕ
state_byte p w b = elim b.sensor [
  | some sensor ↦ if p.sensor_state w sensor then 1 else 0
  | none ↦ if p.is_on w (get_or b.lights 0 0) then 1 else 0
]

-- The state that a completed command reports: none for a timer or a cover, else the color of the
-- first light, which a binding with `result_rgb` has (`__init__.py` refuses others), or one byte.
unfoldable pub with_remote_state :
    (p : Platform) → p.World → DeclarativeInboundBinding → NetResult → NetResult
with_remote_state p w b result =
    if b.timer_completion || not (is_null b.cover)
    then record result { completeness = NetStateCompleteness.not_provided }
    else let l = get_or b.lights 0 0 in
      if b.result_rgb
      then record result {
        completeness = NetStateCompleteness.complete;
        schema = codes "rgb-state/v1";
        content = state_byte p w b ∷ p.red w l ∷ p.green w l ∷ p.blue w l ∷ p.brightness w l ∷ [];
      }
      else record result {
        completeness = NetStateCompleteness.complete;
        schema = codes "binary-state/v1";
        content = state_byte p w b ∷ [];
      }

-- The result of a command that ends at `elapsed`, by completion or by its timeout.
unfoldable pub ended :
    (p : Platform) → p.World → DeclarativeInboundBinding → ℕ → ℕ → Bool → NetResult
unfolding with_remote_state
ended p w b transaction_id elapsed is_completed =
    let result : NetResult = record no_result {
      transaction_id = transaction_id;
      latency_ms = elapsed;
      started = true;
    } in
    if is_completed
    then with_remote_state p w b (record result { status = NetStatus.succeeded })
    else record result {
      status = NetStatus.failed;
      error_code = NetErrorCode.timed_out;
      error_message = codes "declared completion state not observed";
    }

unfoldable pub loop_normal_ : (p : Platform) → p.World → Receiver → ℕ → ℕ → Receiver
loop_normal_ p w r i now_ms =
    let e = lane_at r i in
    elim e.active_binding [
      | none ↦ r
      | some b ↦
          let elapsed = sub32 now_ms e.inbound_started_ms in
          let done = completed p w b e.inbound_expected_on elapsed in
          if not e.inbound_active || not (waits b)
          then r
          else if not done && ltb elapsed e.inbound_timeout_ms
          then r
          else finish_inbound_ p r i (ended p w b e.active_command.transaction_id elapsed done)
    ]

unfoldable pub finish_interrupt_ : Platform → Receiver → NetResult → Receiver
finish_interrupt_ p r result =
    let t = r.interrupt in
    record r {
      admission = record_result p r.admission t.command result;
      interrupt = record t {
        active = false;
        binding = none;
        result = result;
        radio_result_ready = t.radio_waiting;
        mqtt_result_ready = t.mqtt_waiting;
      };
    }

-- A cover decides alone, whatever the timer says.
unfoldable pub interrupt_completed : (p : Platform) → p.World → DeclarativeInboundBinding → ℕ → Bool
unfolding cover_completed
interrupt_completed p w b elapsed = elim b.cover [
  | some cover ↦ cover_completed p w b.cover_expected cover
  | none ↦ b.timer_completion && leb b.completion_delay_ms elapsed
]

unfoldable pub interrupt_ended : ℕ → ℕ → Bool → NetResult
interrupt_ended transaction_id elapsed is_completed =
    let result : NetResult = record no_result {
      transaction_id = transaction_id;
      latency_ms = elapsed;
      started = true;
    } in
    if is_completed then record result { status = NetStatus.succeeded } else record result {
      status = NetStatus.failed;
      error_code = NetErrorCode.timed_out;
      error_message = codes "interrupt completion timed out";
    }

-- The terminal result of the command that was interrupted.
unfoldable pub interrupted_result : NormalExecution → ℕ → NetResult
interrupted_result e now_ms = record no_result {
  transaction_id = e.active_command.transaction_id;
  latency_ms = sub32 now_ms e.inbound_started_ms;
  status = NetStatus.failed;
  started = true;
  error_code = NetErrorCode.interrupted;
  error_message = codes "operation interrupted by command";
}

-- `loop_interrupt_`, with the target `i` selected.
unfoldable pub loop_interrupt_ : (p : Platform) → p.World → Receiver → ℕ → ℕ → Receiver
unfolding interrupt_ended interrupted_result
loop_interrupt_ p w r i now_ms =
    let t = r.interrupt in
    elim t.binding [
      | none ↦ r
      | some b ↦
          let elapsed = sub32 now_ms t.started_ms in
          let done = interrupt_completed p w b elapsed in
          if not t.active || (not done && ltb elapsed t.timeout_ms)
          then r
          else let r' =
              finish_interrupt_ p r (interrupt_ended t.command.transaction_id elapsed done) in
            let e = lane_at r' i in
            if done && e.inbound_active
            then finish_inbound_ p r' i (interrupted_result e now_ms)
            else r'
    ]

-- The loop over the normal executions: the first `n` of them.
unfoldable pub loop_lanes : (p : Platform) → p.World → Receiver → ℕ → ℕ → Receiver
loop_lanes p w r zero now_ms = r
loop_lanes p w r (suc n) now_ms = loop_normal_ p w (loop_lanes p w r n now_ms) n now_ms

-- `loop(now_ms)`
unfoldable pub loop : (p : Platform) → p.World → Receiver → ℕ → Receiver
loop p w r now_ms = elim r.interrupt.target [
  | none ↦ loop_lanes p w r (length r.lanes) now_ms
  | some i ↦ let r' = loop_interrupt_ p w r i now_ms in loop_lanes p w r' (length r'.lanes) now_ms
]
