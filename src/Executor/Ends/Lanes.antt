-- ===== src/Executor/Ends/Lanes.antt =====
-- communication_net_protocol.cpp: what the calls of the loop do to one lane.
use esphome_communication_ne.Executor.Binding.{DeclarativeInboundBinding}
use esphome_communication_ne.Executor.Dispatch.{expectation, start_action}
use esphome_communication_ne.Executor.Results.{is_in_progress}
use esphome_communication_ne.Executor.Start.{
  waits, lane_ready, at_once, unavailable, finish_inbound_, after_trigger,
}
use esphome_communication_ne.Executor.State.{
  NetCommand, NetResult, Platform, NormalExecution, Receiver, lane_at, with_lane, empty_execution,
}
use esphome_communication_ne.Prelude.{
  ℕ, ◌<◌, ◌≡◌, ◌≢◌, ◌⊎◌, refl, ◌∙◌, Bool, true, false, not, none, some, inl, inr, length,
  length-set, get_or-set_self, get_or-set_ne, arith, Bool-cases, Option-cases,
}

-- The lane executes the command.
pub record IsStarted (c : NetCommand) (b : DeclarativeInboundBinding) (s : ℕ) (radio : Bool)
    (e : NormalExecution) : Type 0 where
  pub command : e.active_command ≡ c
  pub binding : e.active_binding ≡ some b
  pub started : e.inbound_started_ms ≡ s
  pub timeout : e.inbound_timeout_ms ≡ b.timeout_ms
  pub radio_waiting : e.radio_waiting ≡ radio
  pub mqtt_waiting : e.mqtt_waiting ≡ not radio
  pub active : e.inbound_active ≡ true

-- The command has ended: its final result is ready for the transport it came from.
pub record IsEnded (c : NetCommand) (radio : Bool) (e : NormalExecution) : Type 0 where
  pub idle : e.inbound_active ≡ false
  pub transaction : e.inbound_result.transaction_id ≡ c.transaction_id
  pub final : is_in_progress e.inbound_result.status ≡ false
  pub to_radio : e.radio_result_ready ≡ radio
  pub to_mqtt : e.mqtt_result_ready ≡ not radio

-- The lane executes a command that waits for its effect, or the command has ended.
abbrev pub Settles : NetCommand → DeclarativeInboundBinding → ℕ → Bool → NormalExecution → Type 0
Settles c b s radio e = (waits b ≡ true × IsStarted c b s radio e) ⊎ IsEnded c radio e

lane_ready-IsStarted :
    (c : NetCommand) (b : DeclarativeInboundBinding) (s : ℕ) (radio to_radio : Bool)
    (e : NormalExecution) (result : NetResult)
    → IsStarted c b s radio e
    → IsStarted c b s radio (lane_ready to_radio (record e { inbound_result = result }))
lane_ready-IsStarted c b s radio true e result st = record {
  command = st.command;
  binding = st.binding;
  started = st.started;
  timeout = st.timeout;
  radio_waiting = st.radio_waiting;
  mqtt_waiting = st.mqtt_waiting;
  active = st.active;
}
lane_ready-IsStarted c b s radio false e result st = record {
  command = st.command;
  binding = st.binding;
  started = st.started;
  timeout = st.timeout;
  radio_waiting = st.radio_waiting;
  mqtt_waiting = st.mqtt_waiting;
  active = st.active;
}

with_lane-lane :
    (r : Receiver) (i : ℕ) (e : NormalExecution)
    → i < length r.lanes
    → lane_at (with_lane r i e) i ≡ e
with_lane-lane r i e h = get_or-set_self r.lanes i e empty_execution h

module _ (p : Platform) where
  finish-lane :
      (r : Receiver) (i : ℕ) (result : NetResult)
      → i < length r.lanes
      → lane_at (finish_inbound_ p r i result) i ≡ (record (lane_at r i) {
        inbound_active = false;
        active_binding = none;
        inbound_result = result;
        radio_result_ready = (lane_at r i).radio_waiting;
        mqtt_result_ready = (lane_at r i).mqtt_waiting;
      })
  unfolding finish_inbound_
  finish-lane r i result h = get_or-set_self r.lanes i _ empty_execution h

  pub finish-other :
      (r : Receiver) (i j : ℕ) (result : NetResult)
      → i ≢ j
      → lane_at (finish_inbound_ p r i result) j ≡ lane_at r j
  unfolding finish_inbound_
  finish-other r i j result h = get_or-set_ne r.lanes i j _ empty_execution h

  pub length-finish :
      (r : Receiver) (i : ℕ) (result : NetResult)
      → length (finish_inbound_ p r i result).lanes ≡ length r.lanes
  unfolding finish_inbound_
  length-finish r i result = length-set r.lanes i _

  pub finish-IsEnded :
      (r : Receiver) (i : ℕ) (c : NetCommand) (b : DeclarativeInboundBinding) (s : ℕ) (radio : Bool)
      (result : NetResult)
      → i < length r.lanes
      → IsStarted c b s radio (lane_at r i)
      → result.transaction_id ≡ c.transaction_id
      → is_in_progress result.status ≡ false
      → IsEnded c radio (lane_at (finish_inbound_ p r i result) i)
  finish-IsEnded r i c b s radio result h st ht hs = rw (finish-lane r i result h) (record {
    idle = refl;
    transaction = ht;
    final = hs;
    to_radio = st.radio_waiting;
    to_mqtt = st.mqtt_waiting;
  })

  after_trigger-lane :
      (r : Receiver) (i : ℕ) (c : NetCommand) (b : DeclarativeInboundBinding) (s : ℕ) (radio : Bool)
      → i < length r.lanes
      → IsStarted c b s radio (lane_at r i)
      → Settles c b s radio (lane_at (after_trigger p r i c b radio) i)
  unfolding after_trigger at_once
  after_trigger-lane r i c b s radio h st = elim (Bool-cases (waits b)) [
    | inl more ↦
        rw (more, after_trigger)
          (rw (with_lane-lane r i _ h) (inl (refl, lane_ready-IsStarted c b s radio radio _ _ st)))
    | inr done ↦
        rw (done, after_trigger) (inr (finish-IsEnded r i c b s radio (at_once c) h st refl refl))
  ]

  -- The lane that `start_action` fills.
  abbrev filled :
      NormalExecution → NetCommand → DeclarativeInboundBinding → ℕ → Bool → Bool → NormalExecution
  filled e c b s radio expected = record e {
    active_command = c;
    active_binding = some b;
    inbound_started_ms = s;
    inbound_timeout_ms = b.timeout_ms;
    inbound_expected_on = expected;
    radio_waiting = radio;
    mqtt_waiting = not radio;
    inbound_active = true;
  }

  filled-IsStarted :
      (r : Receiver) (i : ℕ) (c : NetCommand) (b : DeclarativeInboundBinding) (s : ℕ)
      (radio expected : Bool)
      → i < length r.lanes
      → IsStarted c b s radio
          (lane_at (with_lane r i (filled (lane_at r i) c b s radio expected)) i)
  filled-IsStarted r i c b s radio expected h =
      rw (with_lane-lane r i (filled (lane_at r i) c b s radio expected) h) (record {
        command = refl;
        binding = refl;
        started = refl;
        timeout = refl;
        radio_waiting = refl;
        mqtt_waiting = refl;
        active = refl;
      })

  -- A command that is started executes, or has ended at once.
  pub action-lane :
      (w : p.World) (r : Receiver) (i : ℕ) (c : NetCommand) (b : DeclarativeInboundBinding) (s : ℕ)
      (radio : Bool)
      → i < length r.lanes
      → Settles c b s radio (lane_at (start_action p w r i c b s radio).receiver i)
  unfolding start_action unavailable
  action-lane w r i c b s radio h =
      let old = (lane_at r i).inbound_expected_on in
      elim (Option-cases (expectation p w b old)) [
        | inl blind ↦
            rw (blind, start_action)
              (inr (
                finish-IsEnded (with_lane r i (filled (lane_at r i) c b s radio old)) i c b s radio
                  (unavailable c)
                  (omega (arith, h, length-set r.lanes i (filled (lane_at r i) c b s radio old)))
                  (filled-IsStarted r i c b s radio old h) refl refl))
        | inr (expected, reads) ↦
            rw (reads, start_action)
              (after_trigger-lane (with_lane r i (filled (lane_at r i) c b s radio expected)) i c b
                s radio
                (omega (arith, h, length-set r.lanes i (filled (lane_at r i) c b s radio expected)))
                (filled-IsStarted r i c b s radio expected h))
      ]

  length-after_trigger :
      (r : Receiver) (i : ℕ) (c : NetCommand) (b : DeclarativeInboundBinding) (radio : Bool)
      → length (after_trigger p r i c b radio).lanes ≡ length r.lanes
  unfolding after_trigger
  length-after_trigger r i c b radio = elim (Bool-cases (waits b)) [
    | inl more ↦ rw (more, after_trigger) (length-set r.lanes i _)
    | inr done ↦ rw (done, after_trigger) (length-finish r i (at_once c))
  ]

  pub length-action :
      (w : p.World) (r : Receiver) (i : ℕ) (c : NetCommand) (b : DeclarativeInboundBinding) (s : ℕ)
      (radio : Bool)
      → length (start_action p w r i c b s radio).receiver.lanes ≡ length r.lanes
  unfolding start_action
  length-action w r i c b s radio =
      let old = (lane_at r i).inbound_expected_on in
      elim (Option-cases (expectation p w b old)) [
        | inl blind ↦
            rw (blind, start_action)
              (length-finish (with_lane r i (filled (lane_at r i) c b s radio old)) i
                  (unavailable c)
                ∙ length-set r.lanes i _)
        | inr (expected, reads) ↦
            rw (reads, start_action)
              (length-after_trigger (with_lane r i (filled (lane_at r i) c b s radio expected)) i c
                  b radio
                ∙ length-set r.lanes i _)
      ]
