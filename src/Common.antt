-- ===== src/Common.antt =====
-- Package common: the errors, limits and validations that the services share.
pub mod Errors
pub mod Filepath
pub mod Names
pub mod Uuid
pub mod Paths
pub mod Disk
pub mod AtomicWrite
pub mod PathLock
