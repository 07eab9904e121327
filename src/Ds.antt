-- ===== src/Ds.antt =====
-- sources/libs/brutal-ds: the containers of the kernel.
pub mod Bits
pub mod Ring
pub mod Vec
pub mod Slot
pub mod RangeAlloc
pub mod Map
mod Tests
