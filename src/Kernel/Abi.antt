-- ===== src/Kernel/Abi.antt =====
-- sources/libs/bal/abi/types.h: the results of the system calls.
use mathlib.Core.Bool.{Bool, true, false}

pub data BrResult : Type 0 where
  success interrupted timeout already_binded already_ack not_binded : BrResult
  not_permitted bad_address bad_arguments bad_handle bad_id bad_syscall : BrResult
  not_implemented out_of_memory channel_full channel_empty would_block : BrResult

-- `BrType`
pub data BrType : Type 0 where
  none_ any_ memory domain space task : BrType

-- Equality of two types of objects, `==` in the source.
abbrev pub type_eq : BrType → BrType → Bool
type_eq none_ none_ = true
type_eq any_ any_ = true
type_eq memory memory = true
type_eq domain domain = true
type_eq space space = true
type_eq task task = true
type_eq _ _ = false
