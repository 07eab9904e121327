-- ===== src/Bvm.antt =====
-- sources/libs/bvm: the virtual machine, its values, objects, stack and instructions.
pub mod Int64
pub mod Val
pub mod Func
pub mod Obj
pub mod Local
pub mod Eval
mod Tests
