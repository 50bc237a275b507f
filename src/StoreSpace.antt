-- ===== src/StoreSpace.antt =====
-- internal/storespace: stores with their areas, recorders and camera channels.
pub mod Model
pub mod Areas
pub mod Channels
pub mod Scan
pub mod Accounts
pub mod Names
pub mod Validation
pub mod Plan
