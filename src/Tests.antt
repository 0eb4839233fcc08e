-- ===== src/Tests.antt =====
-- The test programs of the repository, on the model, and the concrete cases of the theorems.
mod Tracker
mod Replay
mod Canonical
mod Mailbox
mod Registry
mod Admission
mod Outbound
mod Wire
mod Result
mod Executor
mod Receive
