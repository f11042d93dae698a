-- ===== src/Storage.antt =====
-- internal/storage: the off-heap store of one DMap on one partition.
pub mod Memory
pub mod Entry
pub mod Table
pub mod Store
pub mod Merge
pub mod Transport
mod Tests
