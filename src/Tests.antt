-- ===== src/Tests.antt =====
-- Runs of the definitions, and the theorems at concrete inputs.
mod Runs
mod Witnesses
mod Links
mod Updates
mod Records
mod Recordings
mod Rooms
mod Peers
