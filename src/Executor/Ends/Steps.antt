-- ===== src/Executor/Ends/Steps.antt =====
-- communication_net_protocol.cpp: what one step of the loop does to a lane.
use esphome_communication_ne.Executor.Binding.{DeclarativeInboundBinding}
use esphome_communication_ne.Executor.Completion.{
  completed, with_remote_state, ended, loop_normal_, finish_interrupt_, interrupt_completed,
  interrupt_ended, interrupted_result, loop_interrupt_,
}
use esphome_communication_ne.Executor.Results.{is_in_progress}
use esphome_communication_ne.Executor.Start.{waits, finish_inbound_}
use esphome_communication_ne.Executor.State.{NetCommand, NetResult, Platform, Receiver, lane_at}
use esphome_communication_ne.Prelude.{
  ℕ, ◌<◌, ◌≤◌, ◌^◌, ◌≡◌, ◌≢◌, ◌⊎◌, refl, ap, ◌∙◌, Bool, true, false, not, ◌&&◌, ◌||◌, inl, inr, ltb,
  ◌==◌, length, arith, add32, sub32, Bool-cases, Option-cases,
}
use esphome_communication_ne.Executor.Ends.Lanes.{
  IsEnded, Settles, finish-other, length-finish, finish-IsEnded,
}

module _ (p : Platform) where
  -- The loop ends the command of a lane or leaves the receiver as it is.
  pub normal-cases :
      (w : p.World) (r : Receiver) (i now : ℕ)
      → (loop_normal_ p w r i now ≡ r)
        ⊎ ((result : NetResult) × (loop_normal_ p w r i now ≡ finish_inbound_ p r i result))
  unfolding loop_normal_
  normal-cases w r i now = elim (Option-cases (lane_at r i).active_binding) [
    | inl e ↦ inl (rw (e, loop_normal_) refl)
    | inr (d, e) ↦
        let elapsed = sub32 now (lane_at r i).inbound_started_ms in
        let done = completed p w d (lane_at r i).inbound_expected_on elapsed in
        elim (Bool-cases (not (lane_at r i).inbound_active || not (waits d))) [
          | inl idle ↦ inl (rw (e, loop_normal_) (rw idle refl))
          | inr busy ↦
              elim (Bool-cases (not done && ltb elapsed (lane_at r i).inbound_timeout_ms)) [
                | inl early ↦ inl (rw (e, loop_normal_) (rw busy (rw early refl)))
                | inr late ↦ inr (
                  ended p w d (lane_at r i).active_command.transaction_id elapsed done,
                  rw (e, loop_normal_) (rw busy (rw late refl)),
                )
              ]
        ]
  ]

  pub normal-other :
      (w : p.World) (r : Receiver) (i j now : ℕ)
      → i ≢ j
      → lane_at (loop_normal_ p w r i now) j ≡ lane_at r j
  normal-other w r i j now h = elim (normal-cases w r i now) [
    | inl e ↦ rw e refl
    | inr (result, e) ↦ rw e (finish-other p r i j result h)
  ]

  pub length-normal :
      (w : p.World) (r : Receiver) (i now : ℕ)
      → length (loop_normal_ p w r i now).lanes ≡ length r.lanes
  length-normal w r i now = elim (normal-cases w r i now) [
    | inl e ↦ rw e refl
    | inr (result, e) ↦ rw e (length-finish p r i result)
  ]

  ended-final :
      (w : p.World) (d : DeclarativeInboundBinding) (k elapsed : ℕ) (done : Bool)
      → ((ended p w d k elapsed done).transaction_id ≡ k)
        × (is_in_progress (ended p w d k elapsed done).status ≡ false)
  unfolding ended with_remote_state
  ended-final w d k elapsed done = (ground arith, ground arith)

  -- At its deadline a command has ended, whatever the state of its entities.
  pub normal-IsEnded :
      (w : p.World) (r : Receiver) (i : ℕ) (c : NetCommand) (b : DeclarativeInboundBinding)
      (s d : ℕ) (radio : Bool)
      → i < length r.lanes
      → s < 2 ^ 32
      → d < 2 ^ 32
      → b.timeout_ms ≤ d
      → Settles c b s radio (lane_at r i)
      → IsEnded c radio (lane_at (loop_normal_ p w r i (add32 s d)) i)
  unfolding loop_normal_
  normal-IsEnded w r i c b s d radio h ls ld late (inr e) =
      elim (Option-cases (lane_at r i).active_binding) [
        | inl unbound ↦ rw (unbound, loop_normal_) e
        | inr (d, bound) ↦ rw (bound, loop_normal_) (rw e.idle e)
      ]
  normal-IsEnded w r i c b s d radio h ls ld late (inl (more, st)) =
      let elapsed = sub32 (add32 s d) (lane_at r i).inbound_started_ms in
      let done = completed p w b (lane_at r i).inbound_expected_on elapsed in
      rw (st.binding, loop_normal_)
        (rw st.active (
          rw more (
            rw (ripe done) (
              finish-IsEnded p r i c b s radio
                (ended p w b (lane_at r i).active_command.transaction_id elapsed done) h st
                ((ended-final w b (lane_at r i).active_command.transaction_id elapsed done).0
                  ∙ ap (λ (x : NetCommand). x.transaction_id) st.command)
                (ended-final w b (lane_at r i).active_command.transaction_id elapsed done).1))))
    where
      same : sub32 (add32 s d) (lane_at r i).inbound_started_ms ≡ d
      same = rw st.started (omega arith)

      ripe :
          (done : Bool)
          → (not done
              && ltb
                  (sub32 (add32 s d) (lane_at r i).inbound_started_ms)
                  (lane_at r i).inbound_timeout_ms)
            ≡ false
      ripe true = refl
      ripe false = ground (arith, same, st.timeout)

  -- The interrupting lane leaves the lanes, or ends the command it interrupts.
  interrupt-cases :
      (w : p.World) (r : Receiver) (j now : ℕ)
      → ((loop_interrupt_ p w r j now).lanes ≡ r.lanes)
        ⊎ ((result : NetResult) × (loop_interrupt_ p w r j now
              ≡ finish_inbound_ p
                  (finish_interrupt_ p r result)
                  j
                  (interrupted_result (lane_at r j) now))
            × ((lane_at r j).inbound_active ≡ true))
  unfolding loop_interrupt_ finish_interrupt_
  interrupt-cases w r j now = elim (Option-cases r.interrupt.binding) [
    | inl e ↦ inl (rw (e, loop_interrupt_) refl)
    | inr (d, e) ↦
        let elapsed = sub32 now r.interrupt.started_ms in
        let done = interrupt_completed p w d elapsed in
        let result = interrupt_ended r.interrupt.command.transaction_id elapsed done in
        elim (Bool-cases
          (not r.interrupt.active || (not done && ltb elapsed r.interrupt.timeout_ms))) [
            | inl early ↦ inl (rw (e, loop_interrupt_) (rw early refl))
            | inr late ↦ elim (Bool-cases (done && (lane_at r j).inbound_active)) [
              | inl ends ↦
                  inr
                    (result, rw (e, loop_interrupt_) (rw late (rw ends refl)), ground (arith, ends))
              | inr stays ↦ inl (rw (e, loop_interrupt_) (rw late (rw stays refl)))
            ]
          ]
  ]

  pub length-interrupt :
      (w : p.World) (r : Receiver) (j now : ℕ)
      → length (loop_interrupt_ p w r j now).lanes ≡ length r.lanes
  unfolding finish_interrupt_
  length-interrupt w r j now = elim (interrupt-cases w r j now) [
    | inl e ↦ rw e refl
    | inr (result, e, active) ↦ rw e (length-finish p (finish_interrupt_ p r result) j _)
  ]

  interrupted-IsEnded :
      (r : Receiver) (i j : ℕ) (result : NetResult) (now : ℕ) (c : NetCommand)
      (b : DeclarativeInboundBinding) (s : ℕ) (radio : Bool)
      → i < length r.lanes
      → j ≡ i
      → (lane_at r j).inbound_active ≡ true
      → Settles c b s radio (lane_at r i)
      → IsEnded c radio (
          lane_at
            (finish_inbound_ p
              (finish_interrupt_ p r result)
              j
              (interrupted_result (lane_at r j) now))
            i)
  unfolding finish_interrupt_ interrupted_result
  interrupted-IsEnded r i j result now c b s radio h same active (inl (more, st)) = rw same (
      finish-IsEnded p (finish_interrupt_ p r result) i c b s radio
        (interrupted_result (lane_at r i) now) h st
        (ap (λ (x : NetCommand). x.transaction_id) st.command) refl)
  interrupted-IsEnded r i j result now c b s radio h same active (inr e) =
      absurd (ground (arith, e.idle, rw same at active))

  -- The interrupting lane lets a command go on, or ends it.
  pub interrupt-Settles :
      (w : p.World) (r : Receiver) (i j now : ℕ) (c : NetCommand) (b : DeclarativeInboundBinding)
      (s : ℕ) (radio : Bool)
      → i < length r.lanes
      → Settles c b s radio (lane_at r i)
      → Settles c b s radio (lane_at (loop_interrupt_ p w r j now) i)
  unfolding finish_interrupt_ interrupted_result
  interrupt-Settles w r i j now c b s radio h e = elim (interrupt-cases w r j now) [
    | inl kept ↦ rw kept e
    | inr (result, ends, active) ↦ elim (Bool-cases (j == i)) [
      | inr other ↦ rw ends (
          rw
            (finish-other p (finish_interrupt_ p r result) j i
              (interrupted_result (lane_at r j) now) (λ q. ground (arith, q)))
            e)
      | inl same ↦
          rw ends (
            inr
              (interrupted-IsEnded r i j result now c b s radio h (ground (arith, same)) active e))
    ]
  ]
