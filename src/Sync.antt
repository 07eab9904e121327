-- ===== src/Sync.antt =====
-- sources/libs/brutal-sync and sources/kernel/cpu.c: the lock, the reader and writer lock, the
-- reference counter, and the interrupts that a processor keeps off while it holds a lock.
pub mod Cpu
pub mod Lock
pub mod RwLock
pub mod Family
pub mod Threads
mod Tests
