-- ===== src/ObjectPool.antt =====
-- lib/object-pool: reusable objects, and the reclaiming of those that are not needed.
pub mod Pool
pub mod Window
