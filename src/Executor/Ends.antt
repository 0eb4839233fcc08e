-- ===== src/Executor/Ends.antt =====
-- communication_net_protocol.cpp: a command that has been started ends, by its deadline at the
-- latest.
pub mod Lanes
pub mod Steps
pub mod Interrupt
use esphome_communication_ne.Executor.Binding.{DeclarativeInboundBinding}
use esphome_communication_ne.Executor.Completion.{loop_lanes, loop_interrupt_, loop}
use esphome_communication_ne.Executor.Dispatch.{start_action}
use esphome_communication_ne.Executor.Ends.Lanes.{IsEnded, Settles, action-lane, length-action}
use esphome_communication_ne.Executor.Ends.Steps.{
  length-normal, normal-other, normal-IsEnded, interrupt-Settles, length-interrupt,
}
use esphome_communication_ne.Executor.State.{NetCommand, Platform, Receiver, lane_at}
use esphome_communication_ne.Prelude.{
  ℕ, zero, suc, ◌<◌, ◌≤◌, ◌^◌, ◌≡◌, refl, ◌∙◌, Bool, inl, inr, length, arith, add32, Option-cases,
  ◌==◌, Bool-cases,
}

module _ (p : Platform) (w : p.World) (i now : ℕ) where
  length-lanes : (r : Receiver) (n : ℕ) → length (loop_lanes p w r n now).lanes ≡ length r.lanes
  unfolding loop_lanes
  length-lanes r zero = refl
  length-lanes r (suc n) = length-normal p w (loop_lanes p w r n now) n now ∙ length-lanes r n

  lanes-before : (r : Receiver) (n : ℕ) → n ≤ i → lane_at (loop_lanes p w r n now) i ≡ lane_at r i
  unfolding loop_lanes
  lanes-before r zero h = refl
  lanes-before r (suc n) h =
      normal-other p w (loop_lanes p w r n now) n i now (λ e. omega (arith, e, h))
      ∙ lanes-before r n (omega (arith, h))

module _ (p : Platform) (w : p.World) (c : NetCommand) (b : DeclarativeInboundBinding) (s : ℕ)
    (radio : Bool) (i d : ℕ) where
  lanes-IsEnded :
      (r : Receiver) (n : ℕ)
      → i < length r.lanes
      → i < n
      → s < 2 ^ 32
      → d < 2 ^ 32
      → b.timeout_ms ≤ d
      → Settles c b s radio (lane_at r i)
      → IsEnded c radio (lane_at (loop_lanes p w r n (add32 s d)) i)
  unfolding loop_lanes
  lanes-IsEnded r zero h m ls ld late e = absurd (omega (arith, m))
  lanes-IsEnded r (suc n) h m ls ld late e =
      let now = add32 s d in
      let r' = loop_lanes p w r n now in
      elim (Bool-cases (n == i)) [
        | inl same ↦
            let at_i : n ≡ i = ground (arith, same) in
            rw at_i (
              normal-IsEnded p w (loop_lanes p w r i now) i c b s d radio
                (omega (arith, length-lanes p w i now r i, h)) ls ld late
                (rw (lanes-before p w i now r i (omega arith)) e))
        | inr other ↦
            rw (normal-other p w r' n i now (λ q. ground (arith, q, other)))
              (lanes-IsEnded r n h (ground (arith, other, m)) ls ld late e)
      ]

  loop-IsEnded :
      (r : Receiver)
      → i < length r.lanes
      → s < 2 ^ 32
      → d < 2 ^ 32
      → b.timeout_ms ≤ d
      → Settles c b s radio (lane_at r i)
      → IsEnded c radio (lane_at (loop p w r (add32 s d)) i)
  unfolding loop
  loop-IsEnded r h ls ld late e = elim (Option-cases r.interrupt.target) [
    | inl none_yet ↦ rw (none_yet, loop) (lanes-IsEnded r _ h h ls ld late e)
    | inr (j, target) ↦
        let r' = loop_interrupt_ p w r j (add32 s d) in
        let h' : i < length r'.lanes = omega (arith, h, length-interrupt p w r j (add32 s d)) in
        rw (target, loop)
          (lanes-IsEnded r' _ h' h' ls ld late
            (interrupt-Settles p w r i j (add32 s d) c b s radio h e))
  ]

-- A new command that does not interrupt, started in the lane `i` at a time `s`, has ended after the
-- loop `d` milliseconds later, if `d` is at least the timeout of its binding and the clock of 32 bits
-- has not come round since: the lane is idle, and a result for the command's transaction that is not
-- IN_PROGRESS is ready for the transport that the command came from, and for it alone. It holds
-- whatever the state of the entities is then, and for a command that ends at once, that times out or
-- that is interrupted.
pub loop-start_action :
    (p : Platform) (w w' : p.World) (r : Receiver) (i : ℕ) (c : NetCommand)
    (b : DeclarativeInboundBinding) (s d : ℕ) (radio : Bool)
    → i < length r.lanes
    → s < 2 ^ 32
    → d < 2 ^ 32
    → b.timeout_ms ≤ d
    → IsEnded c radio
        (lane_at (loop p w' (start_action p w r i c b s radio).receiver (add32 s d)) i)
loop-start_action p w w' r i c b s d radio h ls ld late =
    loop-IsEnded p w' c b s radio i d (start_action p w r i c b s radio).receiver
      (omega (arith, h, length-action p w r i c b s radio)) ls ld late
      (action-lane p w r i c b s radio h)
