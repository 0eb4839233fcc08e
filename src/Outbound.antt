-- ===== src/Outbound.antt =====
-- The outbound half of the component: a command is sent over the transports of a policy, in order,
-- until one of them brings its outcome.
pub mod Transaction
pub mod Policy
pub mod Transport
pub mod Runner
