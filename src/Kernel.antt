-- ===== src/Kernel.antt =====
-- sources/kernel: the managers of the kernel.
pub mod Abi
pub mod Pmm
pub mod Object
pub mod Domain
pub mod Parcel
pub mod Channel
pub mod Event
pub mod Sched
pub mod Memory
pub mod Space
pub mod Vmm
pub mod System
pub mod Syscalls
mod Tests
