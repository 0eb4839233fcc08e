-- ===== src/Executor.antt =====
-- The inbound executor of components/communication_net_protocol/communication_net_protocol.h and
-- communication_net_protocol.cpp, as it is built with the active gate and interruptible bindings and
-- without state snapshots.
pub mod Binding
pub mod State
pub mod Start
pub mod Dispatch
pub mod Completion
pub mod Results
pub mod Once
pub mod Ends
pub mod Receive
