-- ===== src/Journal.antt =====
-- The submission journal: its entries and its interface, and the in-memory journal.
pub mod Entry
pub mod Memory
unfoldable pub use Entry.*
