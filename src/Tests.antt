-- ===== src/Tests.antt =====
-- Runs of the modelled code on concrete inputs, and the main theorems at such inputs.
mod Tables
mod Tasks
mod Accounts
mod Lists
mod Paths
mod PlainLibraries
mod ListFailures
mod Notes
mod Locks
mod Folders
mod Start
