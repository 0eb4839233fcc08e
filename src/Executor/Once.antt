-- ===== src/Executor/Once.antt =====
-- communication_net_protocol.cpp: the action of a command is triggered at most once.
pub mod Calls
pub mod Grants
pub mod Kept
use esphome_communication_ne.Admission.Delivery.{executions-le_one}
use esphome_communication_ne.Admission.{admission_limits}
use esphome_communication_ne.Executor.Binding.{DeclarativeInboundBinding}
use esphome_communication_ne.Executor.Dispatch.{on_command_identity}
use esphome_communication_ne.Executor.Once.Grants.{Budget, Budget-le, Budget-inbound, Budget-start}
use esphome_communication_ne.Executor.Once.Calls.{
  Call, identity_call, start_call, mqtt_call, loop_call, take_call, take_any_call, cancel_call,
  publish_call, after, counts, triggers,
}
use esphome_communication_ne.Executor.Once.Kept.{
  Budget-loop, take_result-admission, take_any_result-admission, cancel-admission,
  publish_lanes-admission,
}
use esphome_communication_ne.Executor.State.{NormalExecution, Platform, Receiver, empty_interrupt}
use esphome_communication_ne.Prelude.{
  ℕ, ◌+◌, ◌≤◌, Bool, false, true, Option, none, List, [], ◌∷◌, length, Bytes, arith,
}
use esphome_communication_ne.Registry.{InboundRouteRegistry}
use esphome_communication_ne.Replay.{empty_guard}

-- The receiver before the first call: a new guard behind any routes, and idle lanes or not.
abbrev pub new_receiver :
    Bool
    → Option Bytes
    → InboundRouteRegistry
    → ℕ
    → List DeclarativeInboundBinding
    → List NormalExecution
    → Receiver
new_receiver routes_valid device routes capacity bindings lanes = record {
  inbound_routes_valid = routes_valid;
  admission = record {
    local_device = device;
    routes = routes;
    gate = empty_guard admission_limits capacity;
  };
  bindings = bindings;
  verified_command = none;
  lanes = lanes;
  interrupt = empty_interrupt;
}

module _ (source : Bytes) (boot k : ℕ) (p : Platform) where
  Budget-after :
      (n : ℕ) (r : Receiver) (c : Call p)
      → Budget source boot k n r.admission
      → Budget source boot k (n + counts source boot k (after p r c).1) (after p r c).0.admission
  unfolding after on_command_identity
  Budget-after n r (identity_call address) b = Budget-le source boot k (omega arith) b
  Budget-after n r (start_call w address c now) b =
      Budget-start source boot k p w n r address c now b
  Budget-after n r (mqtt_call w c now) b = Budget-inbound source boot k p w n r c now false b
  Budget-after n r (loop_call w now) b =
      Budget-le source boot k (omega arith) (Budget-loop source boot k p w n r now b)
  Budget-after n r (take_call id) b =
      rw (take_result-admission r id) (Budget-le source boot k (omega arith) b)
  Budget-after n r take_any_call b =
      rw (take_any_result-admission r) (Budget-le source boot k (omega arith) b)
  Budget-after n r (cancel_call id) b =
      rw (cancel-admission r id) (Budget-le source boot k (omega arith) b)
  Budget-after n r (publish_call sends) b =
      rw (publish_lanes-admission sends r (length r.lanes))
        (Budget-le source boot k (omega arith) b)

  triggers-le :
      (cs : List (Call p)) (n : ℕ) (r : Receiver)
      → Budget source boot k n r.admission
      → n + triggers p r cs source boot k ≤ 1
  unfolding triggers
  triggers-le [] n r b = omega (arith, b.left [])
  triggers-le (c ∷ cs) n r b =
      omega (arith, triggers-le cs _ (after p r c).0 (Budget-after n r c b))

-- A receiver with a new guard of a capacity of at most 16, whatever its routes, bindings and lanes,
-- triggers an action for one transaction of one session of one sender at most once, over every
-- sequence of verified and unverified starts from the radio, starts from MQTT, loops, taken results,
-- cancellations and published results.
pub triggers-le_one :
    (p : Platform) (routes_valid : Bool) (device : Option Bytes) (routes : InboundRouteRegistry)
    (capacity : ℕ) (bindings : List DeclarativeInboundBinding) (lanes : List NormalExecution)
    (cs : List (Call p)) (source : Bytes) (boot k : ℕ)
    → capacity ≤ 16
    → triggers p (new_receiver routes_valid device routes capacity bindings lanes) cs source boot k
      ≤ 1
triggers-le_one p routes_valid device routes capacity bindings lanes cs source boot k small =
    omega (
      arith,
      triggers-le source boot k p cs 0
          (new_receiver routes_valid device routes capacity bindings lanes)
          (record {
            left = λ ds.
                omega (arith, executions-le_one device routes capacity ds source boot k small);
          }),
    )
