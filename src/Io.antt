-- ===== src/Io.antt =====
-- sources/libs/brutal-io: streams in memory, bit streams and the sliding window, and their results.
pub mod Res
pub mod Mem
pub mod Window
pub mod RBits
pub mod WBits
pub mod Copy
mod Tests
