-- ===== src/Snapshot.antt =====
-- internal/nvrsnapshot: from RTP packets to one JPEG thumbnail.
pub mod Rtp
pub mod Depacketizer
pub mod AccessUnit
pub mod Decode
pub mod Capture
pub mod Backfill
