-- ===== src/MusicBox.antt =====
-- internal/musicbox: the server-side music player of a room.
pub mod Types
pub mod Queue
pub mod Advance
pub mod Stream
pub mod Player
pub mod Search
pub mod Prefetch
