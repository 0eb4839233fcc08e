-- ===== src/Executor/Ends/Interrupt.antt =====
-- communication_net_protocol.cpp: a command that interrupts ends, by its deadline at the latest.
use esphome_communication_ne.Executor.Binding.{DeclarativeInboundBinding}
use esphome_communication_ne.Executor.Completion.{
  loop_normal_, finish_interrupt_, interrupt_completed, interrupt_ended, loop_interrupt_,
  loop_lanes, loop,
}
use esphome_communication_ne.Executor.Ends.Steps.{normal-cases}
use esphome_communication_ne.Executor.Results.{is_in_progress}
use esphome_communication_ne.Executor.Start.{finish_inbound_, start_interrupt}
use esphome_communication_ne.Executor.State.{NetCommand, Platform, Interrupt, Receiver, lane_at}
use esphome_communication_ne.Prelude.{
  ℕ, zero, suc, ◌<◌, ◌≤◌, ◌^◌, ◌≡◌, ◌∙◌, refl, Bool, true, false, not, ◌&&◌, ◌||◌, some, inl, inr,
  ltb, length, arith, add32, sub32, Bool-cases,
}

-- The lane of the interruption executes the command.
record IsInterrupting (c : NetCommand) (b : DeclarativeInboundBinding) (s : ℕ) (radio : Bool)
    (t : Interrupt) : Type 0 where
  transaction : t.command.transaction_id ≡ c.transaction_id
  binding : t.binding ≡ some b
  started : t.started_ms ≡ s
  timeout : t.timeout_ms ≡ b.timeout_ms
  radio_waiting : t.radio_waiting ≡ radio
  mqtt_waiting : t.mqtt_waiting ≡ not radio
  active : t.active ≡ true

-- The command that interrupted has ended: its final result is ready for the transport it came from.
pub record IsInterruptEnded (c : NetCommand) (radio : Bool) (t : Interrupt) : Type 0 where
  pub idle : t.active ≡ false
  pub transaction : t.result.transaction_id ≡ c.transaction_id
  pub final : is_in_progress t.result.status ≡ false
  pub to_radio : t.radio_result_ready ≡ radio
  pub to_mqtt : t.mqtt_result_ready ≡ not radio

module _ (p : Platform) (w : p.World) where
  normal-interrupt : (r : Receiver) (i now : ℕ) → (loop_normal_ p w r i now).interrupt ≡ r.interrupt
  unfolding finish_inbound_
  normal-interrupt r i now = elim (normal-cases p w r i now) [
    | inl e ↦ rw e refl
    | inr (result, e) ↦ rw e refl
  ]

  lanes-interrupt : (r : Receiver) (n now : ℕ) → (loop_lanes p w r n now).interrupt ≡ r.interrupt
  unfolding loop_lanes
  lanes-interrupt r zero now = refl
  lanes-interrupt r (suc n) now =
      normal-interrupt (loop_lanes p w r n now) n now ∙ lanes-interrupt r n now

  finish-IsInterruptEnded :
      (r : Receiver) (i : ℕ) (c : NetCommand) (b : DeclarativeInboundBinding) (s elapsed : ℕ)
      (radio done : Bool)
      → IsInterrupting c b s radio r.interrupt
      → IsInterruptEnded c radio
          (finish_interrupt_ p r
            (interrupt_ended r.interrupt.command.transaction_id elapsed done)).interrupt
  unfolding finish_interrupt_ interrupt_ended
  finish-IsInterruptEnded r i c b s elapsed radio done t = record {
    idle = refl;
    transaction = ground (arith, t.transaction);
    final = ground arith;
    to_radio = t.radio_waiting;
    to_mqtt = t.mqtt_waiting;
  }

  interrupt-IsInterruptEnded :
      (r : Receiver) (i : ℕ) (c : NetCommand) (b : DeclarativeInboundBinding) (s d : ℕ)
      (radio : Bool)
      → s < 2 ^ 32
      → d < 2 ^ 32
      → b.timeout_ms ≤ d
      → IsInterrupting c b s radio r.interrupt
      → IsInterruptEnded c radio (loop_interrupt_ p w r i (add32 s d)).interrupt
  unfolding loop_interrupt_ finish_inbound_
  interrupt-IsInterruptEnded r i c b s d radio ls ld late t =
      let elapsed = sub32 (add32 s d) r.interrupt.started_ms in
      let done = interrupt_completed p w b elapsed in
      let r' =
        finish_interrupt_ p r (interrupt_ended r.interrupt.command.transaction_id elapsed done) in
      let e = finish-IsInterruptEnded r i c b s elapsed radio done t in
      elim (Bool-cases (done && (lane_at r' i).inbound_active)) [
        | inl ends ↦ rw (t.binding, loop_interrupt_) (rw (ripe done) (rw ends e))
        | inr stays ↦ rw (t.binding, loop_interrupt_) (rw (ripe done) (rw stays e))
      ]
    where
      same : sub32 (add32 s d) r.interrupt.started_ms ≡ d
      same = rw t.started (omega arith)

      ripe :
          (done : Bool)
          → (not r.interrupt.active
              || (not done
                  && ltb (sub32 (add32 s d) r.interrupt.started_ms) r.interrupt.timeout_ms))
            ≡ false
      ripe true = ground (arith, t.active)
      ripe false = ground (arith, t.active, same, t.timeout)

start_interrupt-IsInterrupting :
    (r : Receiver) (i : ℕ) (c : NetCommand) (b : DeclarativeInboundBinding) (s : ℕ) (radio : Bool)
    → IsInterrupting c b s radio (start_interrupt r i c b s radio).interrupt
unfolding start_interrupt
start_interrupt-IsInterrupting r i c b s true = record {
  transaction = refl;
  binding = refl;
  started = refl;
  timeout = refl;
  radio_waiting = refl;
  mqtt_waiting = refl;
  active = refl;
}
start_interrupt-IsInterrupting r i c b s false = record {
  transaction = refl;
  binding = refl;
  started = refl;
  timeout = refl;
  radio_waiting = refl;
  mqtt_waiting = refl;
  active = refl;
}

start_interrupt-target :
    (r : Receiver) (i : ℕ) (c : NetCommand) (b : DeclarativeInboundBinding) (s : ℕ) (radio : Bool)
    → (start_interrupt r i c b s radio).interrupt.target ≡ some i
unfolding start_interrupt
start_interrupt-target r i c b s true = refl
start_interrupt-target r i c b s false = refl

-- A new command that interrupts the lane `i`, started at a time `s`, has ended after the loop `d`
-- milliseconds later, if `d` is at least the timeout of its binding and the clock of 32 bits has not
-- come round since: its lane is idle, and a result for its transaction that is not IN_PROGRESS is
-- ready for the transport that the command came from, and for it alone, whatever the state of the
-- entities is then.
pub loop-start_interrupt :
    (p : Platform) (w : p.World) (r : Receiver) (i : ℕ) (c : NetCommand)
    (b : DeclarativeInboundBinding) (s d : ℕ) (radio : Bool)
    → s < 2 ^ 32
    → d < 2 ^ 32
    → b.timeout_ms ≤ d
    → IsInterruptEnded c radio (loop p w (start_interrupt r i c b s radio) (add32 s d)).interrupt
unfolding loop
loop-start_interrupt p w r i c b s d radio ls ld late =
    let r' = loop_interrupt_ p w (start_interrupt r i c b s radio) i (add32 s d) in
    rw (start_interrupt-target r i c b s radio, loop)
      (rw (lanes-interrupt p w r' (length r'.lanes) (add32 s d)) (
        interrupt-IsInterruptEnded p w (start_interrupt r i c b s radio) i c b s d radio ls ld late
          (start_interrupt-IsInterrupting r i c b s radio)))
