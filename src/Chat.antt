-- ===== src/Chat.antt =====
-- internal/chat: rooms and their members.
pub mod Members
pub mod Rooms
