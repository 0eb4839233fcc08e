-- ===== src/Executor/Results.antt =====
-- communication_net_protocol.cpp: `has_result`, `take_result`, `cancel`, and what
-- `publish_normal_result_` does to the lanes.
use esphome_communication_ne.Executor.State.{
  NetResult, NetStatus, NormalExecution, Interrupt, Receiver, lane_at, with_lane,
}
use esphome_communication_ne.Prelude.{
  ℕ, zero, suc, Bool, true, false, ◌&&◌, ◌||◌, Option, none, some, ◌==◌, if◌then◌else◌, find_index?,
}

abbrev pub is_in_progress : NetStatus → Bool
is_in_progress NetStatus.in_progress = true
is_in_progress _ = false

abbrev pub is_ready_for : ℕ → NormalExecution → Bool
is_ready_for id e = e.radio_result_ready && e.inbound_result.transaction_id == id

abbrev pub interrupt_ready_for : ℕ → Interrupt → Bool
interrupt_ready_for id t = t.radio_result_ready && t.result.transaction_id == id

abbrev pub is_found : Option ℕ → Bool
is_found none = false
is_found (some i) = true

-- `has_result()` and `has_result(id)`
unfoldable pub has_any_result : Receiver → Bool
has_any_result r =
    r.interrupt.radio_result_ready
    || is_found (find_index? (λ (e : NormalExecution). e.radio_result_ready) r.lanes)

unfoldable pub has_result : Receiver → ℕ → Bool
has_result r id =
    interrupt_ready_for id r.interrupt || is_found (find_index? (is_ready_for id) r.lanes)

-- `take_result(id, result)`
unfoldable pub take_result : Receiver → ℕ → Receiver × Option NetResult
take_result r id =
    let t = r.interrupt in
    if interrupt_ready_for id t
    then (
      record r {
        interrupt = record t {
          radio_result_ready = false;
          radio_waiting = t.radio_waiting && is_in_progress t.result.status;
        };
      },
      some t.result,
    )
    else elim (find_index? (is_ready_for id) r.lanes) [
      | none ↦ (r, none)
      | some i ↦
          let e = lane_at r i in
          (
            with_lane r i (record e {
              radio_result_ready = false;
              radio_waiting = e.radio_waiting && is_in_progress e.inbound_result.status;
            }),
            some e.inbound_result,
          )
    ]

-- `take_result(result)`
unfoldable pub take_any_result : Receiver → Receiver × Option NetResult
take_any_result r =
    if r.interrupt.radio_result_ready
    then take_result r r.interrupt.result.transaction_id
    else elim (find_index? (λ (e : NormalExecution). e.radio_result_ready) r.lanes) [
      | none ↦ (r, none)
      | some i ↦ take_result r (lane_at r i).inbound_result.transaction_id
    ]

abbrev pub executes : ℕ → NormalExecution → Bool
executes id e = e.inbound_active && e.active_command.transaction_id == id

unfoldable pub cancel : Receiver → ℕ → Receiver × Bool
cancel r id =
    if r.interrupt.active && r.interrupt.command.transaction_id == id
    then (record r { interrupt = record r.interrupt { active = false; binding = none } }, true)
    else elim (find_index? (executes id) r.lanes) [
      | none ↦ (r, false)
      | some i ↦ (
        with_lane r i (record (lane_at r i) { inbound_active = false; active_binding = none }),
        true,
      )
    ]

-- `publish_normal_result_`, for the lane `i`: `sends` tells of a result whether there is a reply
-- topic, the text fits, and the MQTT client takes it.
unfoldable pub publish_normal_result_ : (NetResult → Bool) → Receiver → ℕ → Receiver
publish_normal_result_ sends r i =
    let t = r.interrupt in
    let e = lane_at r i in
    if t.mqtt_result_ready
    then (if sends t.result
        then record r {
          interrupt = record t {
            mqtt_result_ready = false;
            mqtt_waiting = t.mqtt_waiting && is_in_progress t.result.status;
          };
        }
        else r)
    else if e.mqtt_result_ready
    then (if sends e.inbound_result
        then with_lane r i (record e {
          mqtt_result_ready = false;
          mqtt_waiting = e.mqtt_waiting && is_in_progress e.inbound_result.status;
        })
        else r)
    else r

-- `publish_inbound_result_`: the first `n` lanes.
unfoldable pub publish_lanes : (NetResult → Bool) → Receiver → ℕ → Receiver
publish_lanes sends r zero = r
publish_lanes sends r (suc n) = publish_normal_result_ sends (publish_lanes sends r n) n
