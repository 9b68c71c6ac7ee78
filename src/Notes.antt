-- ===== src/Notes.antt =====
-- Package notes: note files with their metadata in the database.
pub mod Preview
pub mod Server
