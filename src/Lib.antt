-- ===== src/Lib.antt =====
-- Verification of the ESPHome component communication_net_protocol: the headers of
-- components/communication_net_protocol that decide what a device does with a command.
--
-- Inbound side. A message arrives in a callback, which stores it in the mailbox (Mailbox.antt,
-- mqtt_mailbox.h); the loop takes it, and the receiver decides. InboundRouteRegistry
-- (Registry.antt, inbound_route_registry.h) knows the declared pairs of a resource and a command.
-- RouteAdmission (Admission.antt, route_admission.h) checks the device and the route and asks the
-- replay guard (Replay.antt, inbound_replay_guard.h), which remembers transactions and their
-- results. InboundCommandGate (Gate.antt, inbound_command_gate.h) is the other client of the
-- guard; it names a command by its canonical bytes (Canonical.antt, canonical_command.h).
--
-- From bytes to an action. MQTT payloads are read by MqttEnvelopeReader (Wire/Envelope.antt,
-- mqtt_envelope_decoder.h), MqttResultReader (Wire/Result.antt, mqtt_result_decoder.h) and
-- decode_mqtt_command_probe (Wire/Probe.antt, mqtt_command_decoder.h); what the readers share is
-- Wire/Reader.antt and Wire/Decimal.antt. The inspector (Inspector.antt,
-- passive_inbound_inspector.h) matches a command and reserves nothing. The executor
-- (Executor.antt, communication_net_protocol.h and .cpp) is the client of the admission: start,
-- start_inbound_ and start_normal_ are Executor/Start.antt and Executor/Dispatch.antt, the loops
-- Executor/Completion.antt, the results and cancel Executor/Results.antt, and
-- receive_mqtt_inbound_ is Executor/Receive.antt, over the state of Executor/State.antt and the
-- bindings of Executor/Binding.antt (declarative_inbound_binding.h).
--
-- Outbound side. TransactionTracker (Tracker.antt, transaction_tracker.h) follows the transactions
-- of a sender. The runner sends one request over the transports of a policy:
-- Outbound/Transaction.antt is outbound_communication_transaction.h, Outbound/Policy.antt is
-- outbound_communication_policy.h, Outbound/Transport.antt is outbound_communication_transport.h,
-- Outbound/Runner.antt and Outbound/Runner/Loop.antt are
-- outbound_communication_transaction_runner.h and outbound_runner_impl.h.
--
-- The definitions carry the names of the source. A method that changes its object takes the object
-- and returns the new one, with the method's result; a template parameter is an argument or a
-- field. A C string is the list of its bytes before the NUL, a null pointer is none, and a pointer
-- with a length is a Span, null or a block. The clock is a uint32_t: sub32 and add32 wrap at 2 ^
-- 32. The 64-bit ids and the sizes are natural numbers, since the code only compares and stores
-- them; decimal_ has its test against UINT64_MAX written out. The loops over arrays are recursion
-- on lists; attempt_rounds runs on the bound of the source's own for loop. The loops over a
-- payload run on fuel, one more than the bytes that are left: each round consumes one byte at
-- least, so the fuel never ends (Wire.Shrinks). The transport adapters are an abstract class, so
-- they are the parameter Adapters: any functions on any World, which the environment may change
-- between calls.
--
-- The executor is modelled as it is built with USE_COMMUNICATION_NET_ACTIVE_GATE and
-- USE_COMMUNICATION_NET_INTERRUPTIBLE_INBOUND and without USE_COMMUNICATION_NET_STATE_SNAPSHOT. A
-- selected lane is its index, an entity is a number, and the address of a command is a number. The
-- entities, NetCommand::valid and the result codec belong to ESPHome and to espnow_net_protocol:
-- they are the parameter Platform, any functions on any World. A trigger is an output of the call.
--
-- The children of a module prove: Tracker/Slots, Tracker/Invariant, Tracker/Terminal and
-- Tracker/Deadline; Replay/State, Replay/Eviction, Replay/Writes, Replay/Finish, Replay/Seen and
-- Replay/Once; Canonical/Unambiguous; Mailbox/Delivery; Registry/Routes; Admission/Delivery;
-- Outbound/Runner/Results, Outbound/Runner/Outcome and Outbound/Runner/Deadline; Executor/Once and
-- Executor/Ends with their children, but for Executor/Once/Calls, and Executor/Receive/Authority;
-- Wire/Shrinks, Wire/Rounds, Wire/Endings, Wire/Yields and Wire/Printed, and the children of
-- Wire/Envelope and of Wire/Result but for Wire/Result/Skip, which is a part of the model.
-- Prelude.antt holds what they share, and Tests.antt the concrete cases.
--
-- Not modelled: the rest of communication_net_protocol.cpp, which is the text of a published
-- result, the query of a state snapshot, and glue to devices, the MQTT client and the radio; the
-- light snapshots (light_state_snapshot.h and .cpp); the MQTT client's wire (mqtt_wire_transport.h
-- and .cpp); and the Python code generation.
pub mod Prelude
pub mod Tracker
pub mod Replay
pub mod Canonical
pub mod Mailbox
pub mod Registry
pub mod Gate
pub mod Admission
pub mod Inspector
pub mod Outbound
pub mod Executor
pub mod Wire
mod Tests
