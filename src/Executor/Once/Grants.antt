-- ===== src/Executor/Once/Grants.antt =====
-- communication_net_protocol.cpp: what the starts of a command leave of the admission's grants.
use esphome_communication_ne.Admission.{RouteAdmission, admit, complete, routed}
use esphome_communication_ne.Admission.Delivery
use esphome_communication_ne.Admission.Delivery.{
  is_from, one_if_some, executions, executions-le_one, admit_call, complete_call,
}
use esphome_communication_ne.Executor.Binding.{DeclarativeInboundBinding}
use esphome_communication_ne.Executor.Dispatch.{
  expectation, start_action, start_new, start_decided, start_normal_, related_lane, free_lane,
  start_inbound_, is_verified, start,
}
use esphome_communication_ne.Executor.Once.Calls.{counts}
use esphome_communication_ne.Executor.Start.{
  waits, at_once, terminal_status, record_result, finish_inbound_, has_empty_payload,
  declared_binding, passage, give_replay, start_terminal, start_pending, start_interrupt,
  unavailable, after_trigger,
}
use esphome_communication_ne.Executor.State.{
  NetCommand, NetResult, Platform, Receiver, lane_at, view_of,
}
use esphome_communication_ne.Gate.{InboundCommandView}
use esphome_communication_ne.Prelude.{
  ℕ, ◌+◌, ◌≤◌, ◌≡◌, refl, Bool, true, false, not, ◌||◌, Option, none, some, List, ◌∷◌, ltb,
  if◌then◌else◌, length, Bytes, arith, Bool-cases, Option-cases, inl, inr, block,
}
use esphome_communication_ne.Replay.{
  InboundDecision, InboundTerminalView, new_command, duplicate_pending, duplicate_terminal,
}

module _ (source : Bytes) (boot k : ℕ) where
  -- After `n` executions of the transaction, the admission grants only what is left of one.
  pub record Budget (n : ℕ) (a : RouteAdmission) : Type 0 where
    pub left : (cs : List Delivery.Call) → n + executions a cs source boot k ≤ 1

  pub Budget-le : {n m : ℕ} {a : RouteAdmission} → m ≤ n → Budget n a → Budget m a
  Budget-le h b = record { left = λ cs. omega (arith, h, b.left cs) }

  pub Budget-complete :
      (n : ℕ) (a : RouteAdmission) (v : InboundCommandView) (t : InboundTerminalView)
      → Budget n a
      → Budget n (complete a v t).0
  unfolding executions Delivery.after Delivery.executes
  Budget-complete n a v t b = record { left = λ cs. omega (arith, b.left (complete_call v t ∷ cs)) }

  pub Budget-admit :
      (n : ℕ) (a : RouteAdmission) (v : InboundCommandView)
      → Budget n a
      → Budget
          (n + (if is_from source boot k v then one_if_some (admit a v).2 else 0))
          (admit a v).0
  unfolding executions Delivery.after Delivery.executes
  Budget-admit n a v b = record { left = λ cs. omega (arith, b.left (admit_call v ∷ cs)) }

  -- The operations that leave the admission as it is, or record a result in it.
  pub Budget-record :
      (p : Platform) (n : ℕ) (a : RouteAdmission) (c : NetCommand) (result : NetResult)
      → Budget n a
      → Budget n (record_result p a c result)
  unfolding record_result
  Budget-record p n a c result b = elim (Option-cases (p.encode result)) [
    | inl e ↦ rw (e, record_result) b
    | inr (encoded, e) ↦ elim (Bool-cases (ltb 256 (length encoded))) [
      | inl long ↦ rw (e, record_result) (rw long b)
      | inr fits ↦
          rw (e, record_result)
            (rw fits (
              Budget-complete n a (view_of c)
                (record { status = terminal_status result.status; result = block encoded }) b))
    ]
  ]

  pub Budget-finish :
      (p : Platform) (n : ℕ) (r : Receiver) (i : ℕ) (result : NetResult)
      → Budget n r.admission
      → Budget n (finish_inbound_ p r i result).admission
  unfolding finish_inbound_
  Budget-finish p n r i result b =
      Budget-record p n r.admission (lane_at r i).active_command result b

  pub Budget-after_trigger :
      (p : Platform) (n : ℕ) (r : Receiver) (i : ℕ) (c : NetCommand) (d : DeclarativeInboundBinding)
      (radio : Bool)
      → Budget n r.admission
      → Budget n (after_trigger p r i c d radio).admission
  unfolding after_trigger
  Budget-after_trigger p n r i c d radio b = elim (Bool-cases (waits d)) [
    | inl e ↦ rw (e, after_trigger) b
    | inr e ↦ rw (e, after_trigger) (Budget-finish p n r i (at_once c) b)
  ]

  pub terminal-admission :
      (p : Platform) (r : Receiver) (i : ℕ) (c : NetCommand) (interrupt radio : Bool)
      → (start_terminal p r i c interrupt radio).0.admission ≡ r.admission
  unfolding start_terminal give_replay
  terminal-admission p r i c interrupt radio = ground arith

  pub pending-admission :
      (r : Receiver) (i : ℕ) (c : NetCommand) (interrupt radio : Bool)
      → (start_pending r i c interrupt radio).0.admission ≡ r.admission
  unfolding start_pending
  pending-admission r i c interrupt radio = ground arith

  pub Budget-action :
      (p : Platform) (w : p.World) (n : ℕ) (r : Receiver) (i : ℕ) (c : NetCommand)
      (d : DeclarativeInboundBinding) (now : ℕ) (radio : Bool)
      → Budget (n + counts source boot k (some (d, c))) r.admission
      → Budget
          (n + counts source boot k (start_action p w r i c d now radio).triggered)
          (start_action p w r i c d now radio).receiver.admission
  unfolding start_action
  Budget-action p w n r i c d now radio b =
      elim (Option-cases (expectation p w d (lane_at r i).inbound_expected_on)) [
        | inl e ↦
            rw (e, start_action)
              (Budget-finish p (n + 0) _ i (unavailable c) (Budget-le (omega arith) b))
        | inr (expected, e) ↦ rw (e, start_action) (Budget-after_trigger p _ _ i c d radio b)
      ]

  pub Budget-new :
      (p : Platform) (w : p.World) (n : ℕ) (r : Receiver) (i : ℕ) (c : NetCommand)
      (d : Option DeclarativeInboundBinding) (interrupt : Bool) (now : ℕ) (radio : Bool)
      → Budget (n + (if is_from source boot k (view_of c) then 1 else 0)) r.admission
      → Budget
          (n + counts source boot k (start_new p w r i c d interrupt now radio).triggered)
          (start_new p w r i c d interrupt now radio).receiver.admission
  unfolding start_new start_interrupt
  Budget-new p w n r i c none interrupt now radio b =
      Budget-complete (n + 0) r.admission (view_of c) _ (Budget-le (omega arith) b)
  Budget-new p w n r i c (some d) true now radio b = b
  Budget-new p w n r i c (some d) false now radio b = Budget-action p w n r i c d now radio b

  -- What a decision lets through, where a new command has taken its one route.
  pub Budget-decided :
      (p : Platform) (w : p.World) (n m : ℕ) (r : Receiver) (i : ℕ) (c : NetCommand)
      (declared : Option DeclarativeInboundBinding) (interrupt : Bool) (now : ℕ) (radio : Bool)
      (d : InboundDecision)
      → (d ≡ new_command → m ≡ 1)
      → Budget (n + (if is_from source boot k (view_of c) then m else 0)) r.admission
      → Budget
          (n
            + counts source boot k
                (start_decided p w r i c declared interrupt now radio d).triggered)
          (start_decided p w r i c declared interrupt now radio d).receiver.admission
  unfolding start_decided
  Budget-decided p w n m r i c declared interrupt now radio new_command one b =
      Budget-new p w n r i c declared interrupt now radio (Budget-le (ground (arith, one refl)) b)
  Budget-decided p w n m r i c declared interrupt now radio duplicate_terminal one b =
      rw (terminal-admission p r i c interrupt radio) (Budget-le (omega arith) b)
  Budget-decided p w n m r i c declared interrupt now radio duplicate_pending one b =
      rw (pending-admission r i c interrupt radio) (Budget-le (omega arith) b)
  Budget-decided p w n m r i c declared interrupt now radio _ one b = Budget-le (omega arith) b

  admit-new :
      (a : RouteAdmission) (v : InboundCommandView)
      → (admit a v).1 ≡ new_command
      → one_if_some (admit a v).2 ≡ 1
  unfolding admit
  admit-new a v h = elim (Option-cases (routed a v)) [
    | inl e ↦ ground (arith, e, h)
    | inr ((id, command), e) ↦ ground (arith, e, h)
  ]

  pub Budget-normal :
      (p : Platform) (w : p.World) (n : ℕ) (r : Receiver) (i : ℕ) (c : NetCommand) (now : ℕ)
      (radio : Bool)
      → Budget n r.admission
      → Budget
          (n + counts source boot k (start_normal_ p w r i c now radio).triggered)
          (start_normal_ p w r i c now radio).receiver.admission
  unfolding start_normal_
  Budget-normal p w n r i c now radio b = elim (Bool-cases (not r.inbound_routes_valid)) [
    | inl closed ↦ rw (closed, start_normal_) (Budget-le (omega arith) b)
    | inr valid ↦ elim (Bool-cases (not (p.valid c) || not (has_empty_payload c))) [
      | inl bad ↦ rw (valid, start_normal_) (rw bad (Budget-le (omega arith) b))
      | inr good ↦
          elim (Option-cases (passage r.interrupt (lane_at r i) (declared_binding r c) c)) [
            | inl e ↦ rw (valid, start_normal_) (rw good (rw e (Budget-le (omega arith) b)))
            | inr (interrupt, e) ↦
                rw (valid, start_normal_)
                  (rw good (
                    rw e (
                      Budget-decided p w n (one_if_some (admit r.admission (view_of c)).2)
                        (record r { admission = (admit r.admission (view_of c)).0 }) i c
                        (declared_binding r c) interrupt now radio (admit r.admission (view_of c)).1
                        (admit-new r.admission (view_of c))
                        (Budget-admit n r.admission (view_of c) b))))
          ]
    ]
  ]

  pub Budget-inbound :
      (p : Platform) (w : p.World) (n : ℕ) (r : Receiver) (c : NetCommand) (now : ℕ) (radio : Bool)
      → Budget n r.admission
      → Budget
          (n + counts source boot k (start_inbound_ p w r c now radio).triggered)
          (start_inbound_ p w r c now radio).receiver.admission
  unfolding start_inbound_
  Budget-inbound p w n r c now radio b =
      elim (Option-cases (related_lane r.interrupt c 0 r.lanes)) [
        | inr (i, e) ↦ rw (e, start_inbound_) (Budget-normal p w n r i c now radio b)
        | inl e ↦ elim (Option-cases (free_lane r.interrupt 0 r.lanes)) [
          | inl busy ↦ rw (e, start_inbound_) (rw busy (Budget-le (omega arith) b))
          | inr (i, free) ↦ rw (e, start_inbound_) (rw free (Budget-normal p w n r i c now radio b))
        ]
      ]

  pub Budget-start :
      (p : Platform) (w : p.World) (n : ℕ) (r : Receiver) (address : ℕ) (c : NetCommand) (now : ℕ)
      → Budget n r.admission
      → Budget
          (n + counts source boot k (start p w r address c now).triggered)
          (start p w r address c now).receiver.admission
  unfolding start
  Budget-start p w n r address c now b =
      elim (Bool-cases (not (is_verified r.verified_command address))) [
        | inl refused ↦ rw (refused, start) (Budget-le (omega arith) b)
        | inr verified ↦
            rw (verified, start)
              (Budget-inbound p w n (record r { verified_command = none }) c now true b)
      ]
