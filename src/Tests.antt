-- ===== src/Tests.antt =====
-- The theorems at concrete inputs.
mod Media
mod Sessions
mod Accounts
mod Rooms
mod Backfill
mod Gate
mod Inputs
mod Plans
mod Views
mod Segments
mod Streams
