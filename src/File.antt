-- ===== src/File.antt =====
-- Package file: the folders below the data directory and what they hold.
pub mod Server
