-- ===== src/Tasks.antt =====
-- Package tasks: the service of task lists.
pub mod Types
pub mod Convert
pub mod Validate
pub mod Recurrence
pub mod Server
pub mod Stored
