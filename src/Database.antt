-- ===== src/Database.antt =====
-- Package database: the SQLite store of task lists, tasks and note metadata.
pub mod Types
pub mod Conn
pub mod Sql
pub mod Schema
pub mod Answers
pub mod Notes
pub mod Helpers
pub mod TaskLists
pub mod Folders
pub mod Upcoming
pub mod Integrity
