-- ===== src/Threads.antt =====
-- src/com/xtllib/xtl_thread.h: the lock for one writer or many readers, the life of a
-- thread, and semaphores.
pub mod Locks
pub mod Exclusion
pub mod Steps
pub mod Lives
pub mod Semaphores
pub mod Waiting
