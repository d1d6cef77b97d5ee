-- ===== src/Kvsm.antt =====
-- lsm/kvsm: the expiring key-value table.
pub mod Entry
pub mod LinkedList
pub mod Store
pub mod Worker
pub mod Invariant
pub mod Reads
pub mod Reachable
mod Tests
