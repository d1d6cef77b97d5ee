-- ===== src/Lsm.antt =====
-- lsm: the store of response items, in memory and on disk.
pub mod Range
pub mod File
pub mod Disk
pub mod Mem
pub mod Log
pub mod Item
pub mod Pools
pub mod Store
mod Tests
