-- ===== src/Provisioning.antt =====
-- The provisioning service: internal/services/provisioning.go and
-- internal/services/update_operations.go. This module has the calls that the service makes and the
-- bookkeeping of the operation status; the children have the polling and the operations.
--
-- The status object that the Go code mutates through a pointer is the `object` of the world; every
-- write of it to the state store is a call `save_provisioning`.
pub mod Calls
pub mod Retry
pub mod Coordinator
pub mod Deploy
pub mod Operations
pub mod Executor
pub mod Starting
pub mod Cancelling
pub mod Assertions
pub mod Requests
pub mod Rules
pub mod Outcome
pub mod Polling
pub mod Attempts
pub mod Acks
