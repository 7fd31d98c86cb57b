-- ===== src/Internal/Maintenance.antt =====
-- `CacheStackMaintenance` of src/internal/CacheStackMaintenance.ts, which orders and fences writes.
pub mod Epochs
pub mod Fences
pub mod Writes
pub mod WriteBehind
