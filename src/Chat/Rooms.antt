-- ===== src/Chat/Rooms.antt =====
-- internal/chat: the membership of one room.
pub mod State
pub mod Decide
pub mod Apply
pub mod Transactions
pub mod Handle
pub mod Led
pub mod Ruled
pub mod Review
pub mod Sound
pub mod Blocked
pub mod Lawful
pub mod Atomic
pub mod Stale
pub mod Powerless
pub mod Race
mod Tests
