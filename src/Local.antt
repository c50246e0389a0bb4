-- ===== src/Local.antt =====
-- The local connector of src/connectors/local_unix.cpp: what it does on its own machine.
pub mod Modes
pub mod Processes
pub mod Locks
pub mod Removal
