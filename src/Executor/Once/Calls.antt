-- ===== src/Executor/Once/Calls.antt =====
-- communication_net_protocol.cpp: the calls of the receiver, and what they trigger.
use esphome_communication_ne.Admission.Delivery.{is_from}
use esphome_communication_ne.Executor.Completion.{loop}
use esphome_communication_ne.Executor.Dispatch.{Outcome, start_inbound_, on_command_identity, start}
use esphome_communication_ne.Executor.Results.{take_result, take_any_result, cancel, publish_lanes}
use esphome_communication_ne.Executor.State.{
  NetCommand, NetResult, Platform, Receiver, Triggered, view_of,
}
use esphome_communication_ne.Prelude.{
  ℕ, ◌+◌, Bool, false, none, some, List, [], ◌∷◌, if◌then◌else◌, length, Bytes,
}

-- The calls: a verified identity, a start from the radio at an address, a start from MQTT, the loop
-- in a world, and what a transport does with the results.
pub data Call (p : Platform) : Type 0 where
  identity_call : (address : ℕ) → Call p
  start_call : (w : p.World) (address : ℕ) (c : NetCommand) (now_ms : ℕ) → Call p
  mqtt_call : (w : p.World) (c : NetCommand) (now_ms : ℕ) → Call p
  loop_call : (w : p.World) (now_ms : ℕ) → Call p
  take_call : (id : ℕ) → Call p
  take_any_call : Call p
  cancel_call : (id : ℕ) → Call p
  publish_call : (sends : NetResult → Bool) → Call p

-- A call that starts nothing.
abbrev pub silent : Receiver → Receiver × Triggered
silent r = (r, none)

abbrev pub outcome : Outcome → Receiver × Triggered
outcome o = (o.receiver, o.triggered)

-- The new state, and what the call triggers.
unfoldable pub after : (p : Platform) → Receiver → Call p → Receiver × Triggered
after p r (identity_call address) = silent (on_command_identity r address)
after p r (start_call w address c now_ms) = outcome (start p w r address c now_ms)
after p r (mqtt_call w c now_ms) = outcome (start_inbound_ p w r c now_ms false)
after p r (loop_call w now_ms) = silent (loop p w r now_ms)
after p r (take_call id) = silent (take_result r id).0
after p r take_any_call = silent (take_any_result r).0
after p r (cancel_call id) = silent (cancel r id).0
after p r (publish_call sends) = silent (publish_lanes sends r (length r.lanes))

-- 1 if what is triggered is the transaction.
abbrev pub counts : Bytes → ℕ → ℕ → Triggered → ℕ
counts source boot k none = 0
counts source boot k (some (b, c)) = if is_from source boot k (view_of c) then 1 else 0

-- How often the calls trigger a transaction of a session of a sender.
unfoldable pub triggers : (p : Platform) → Receiver → List (Call p) → Bytes → ℕ → ℕ → ℕ
triggers p r [] source boot k = 0
triggers p r (c ∷ cs) source boot k =
    counts source boot k (after p r c).1 + triggers p (after p r c).0 cs source boot k
