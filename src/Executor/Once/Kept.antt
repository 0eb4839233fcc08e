-- ===== src/Executor/Once/Kept.antt =====
-- communication_net_protocol.cpp: what the loop and the calls of the transports leave of the
-- admission's grants.
use esphome_communication_ne.Executor.Completion.{
  completed, loop_normal_, finish_interrupt_, interrupt_completed, interrupt_ended, loop_interrupt_,
  loop_lanes, loop,
}
use esphome_communication_ne.Executor.Once.Grants.{Budget, Budget-record, Budget-finish}
use esphome_communication_ne.Executor.Results.{
  take_result, take_any_result, cancel, executes, is_ready_for, publish_normal_result_,
  publish_lanes,
}
use esphome_communication_ne.Executor.Start.{waits}
use esphome_communication_ne.Executor.State.{
  NetResult, NormalExecution, Platform, Receiver, lane_at,
}
use esphome_communication_ne.Prelude.{
  ℕ, zero, suc, ◌≡◌, refl, Bool, not, ◌&&◌, ◌||◌, ltb, find_index?, length, Bytes, arith, sub32,
  Bool-cases, Option-cases, inl, inr,
}

module _ (source : Bytes) (boot k : ℕ) (p : Platform) (w : p.World) (n : ℕ) where
  Budget-loop_normal_ :
      (r : Receiver) (i now : ℕ)
      → Budget source boot k n r.admission
      → Budget source boot k n (loop_normal_ p w r i now).admission
  unfolding loop_normal_
  Budget-loop_normal_ r i now b = elim (Option-cases (lane_at r i).active_binding) [
    | inl e ↦ rw (e, loop_normal_) b
    | inr (d, e) ↦ elim (Bool-cases (not (lane_at r i).inbound_active || not (waits d))) [
      | inl idle ↦ rw (e, loop_normal_) (rw idle b)
      | inr busy ↦
          let elapsed = sub32 now (lane_at r i).inbound_started_ms in
          let done = completed p w d (lane_at r i).inbound_expected_on elapsed in
          elim (Bool-cases (not done && ltb elapsed (lane_at r i).inbound_timeout_ms)) [
            | inl early ↦ rw (e, loop_normal_) (rw busy (rw early b))
            | inr late ↦
                rw (e, loop_normal_) (rw busy (rw late (Budget-finish source boot k p n r i _ b)))
          ]
    ]
  ]

  pub Budget-loop_lanes :
      (r : Receiver) (m now : ℕ)
      → Budget source boot k n r.admission
      → Budget source boot k n (loop_lanes p w r m now).admission
  unfolding loop_lanes
  Budget-loop_lanes r zero now b = b
  Budget-loop_lanes r (suc m) now b =
      Budget-loop_normal_ (loop_lanes p w r m now) m now (Budget-loop_lanes r m now b)

  Budget-loop_interrupt_ :
      (r : Receiver) (i now : ℕ)
      → Budget source boot k n r.admission
      → Budget source boot k n (loop_interrupt_ p w r i now).admission
  unfolding loop_interrupt_ finish_interrupt_
  Budget-loop_interrupt_ r i now b = elim (Option-cases r.interrupt.binding) [
    | inl e ↦ rw (e, loop_interrupt_) b
    | inr (d, e) ↦
        let elapsed = sub32 now r.interrupt.started_ms in
        let done = interrupt_completed p w d elapsed in
        elim (Bool-cases
          (not r.interrupt.active || (not done && ltb elapsed r.interrupt.timeout_ms))) [
            | inl early ↦ rw (e, loop_interrupt_) (rw early b)
            | inr late ↦
                let r' =
                  finish_interrupt_ p r
                    (interrupt_ended r.interrupt.command.transaction_id elapsed done) in
                elim (Bool-cases (done && (lane_at r i).inbound_active)) [
                  | inl ends ↦
                      rw (e, loop_interrupt_)
                        (rw late (
                          rw ends (
                            Budget-finish source boot k p n r' i _ (
                              Budget-record source boot k p n r.admission r.interrupt.command _
                                b))))
                  | inr stays ↦
                      rw (e, loop_interrupt_)
                        (rw late (
                          rw stays
                            (Budget-record source boot k p n r.admission r.interrupt.command _ b)))
                ]
          ]
  ]

  pub Budget-loop :
      (r : Receiver) (now : ℕ)
      → Budget source boot k n r.admission
      → Budget source boot k n (loop p w r now).admission
  unfolding loop
  Budget-loop r now b = elim (Option-cases r.interrupt.target) [
    | inl e ↦ rw (e, loop) (Budget-loop_lanes r (length r.lanes) now b)
    | inr (i, e) ↦
        rw (e, loop)
          (Budget-loop_lanes (loop_interrupt_ p w r i now) _ now (Budget-loop_interrupt_ r i now b))
  ]

pub take_result-admission : (r : Receiver) (id : ℕ) → (take_result r id).0.admission ≡ r.admission
unfolding take_result
take_result-admission r id = elim (Option-cases (find_index? (is_ready_for id) r.lanes)) [
  | inl e ↦ ground (arith, e)
  | inr (i, e) ↦ ground (arith, e)
]

pub take_any_result-admission : (r : Receiver) → (take_any_result r).0.admission ≡ r.admission
unfolding take_any_result
take_any_result-admission r =
    elim (Option-cases (find_index? (λ (e : NormalExecution). e.radio_result_ready) r.lanes)) [
      | inl e ↦ ground (arith, e, take_result-admission r r.interrupt.result.transaction_id)
      | inr (i, e) ↦ ground (
        arith,
        e,
        take_result-admission r r.interrupt.result.transaction_id,
        take_result-admission r (lane_at r i).inbound_result.transaction_id,
      )
    ]

pub cancel-admission : (r : Receiver) (id : ℕ) → (cancel r id).0.admission ≡ r.admission
unfolding cancel
cancel-admission r id = elim (Option-cases (find_index? (executes id) r.lanes)) [
  | inl e ↦ ground (arith, e)
  | inr (i, e) ↦ ground (arith, e)
]

pub publish_lanes-admission :
    (sends : NetResult → Bool) (r : Receiver) (n : ℕ)
    → (publish_lanes sends r n).admission ≡ r.admission
unfolding publish_lanes publish_normal_result_
publish_lanes-admission sends r zero = refl
publish_lanes-admission sends r (suc n) = ground (arith, publish_lanes-admission sends r n)
