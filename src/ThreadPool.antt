-- ===== src/ThreadPool.antt =====
-- include/thread-pool.
pub mod BoundedQueue
pub mod FixedFunction
pub mod Sizing
pub mod Workers
mod Tests
