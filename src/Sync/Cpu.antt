-- ===== src/Sync/Cpu.antt =====
-- sources/kernel/cpu.c, which sources/libs/embed/kernel/sync.c calls when a lock is taken and
-- released: interrupts are off while the depth is positive. `int retain_depth` is an integer here.
use brutal.Base.{Bool, true, false, Option, some, if◌then◌else◌, ◌>>◌, assert, not}
use brutal.Base.{ℕ, zero, suc}

-- `negative n` is -(n + 1).
pub data Depth : Type 0 where
  positive : ℕ → Depth
  negative : ℕ → Depth

abbrev pub deeper : Depth → Depth
deeper (positive n) = positive (suc n)
deeper (negative zero) = positive 0
deeper (negative (suc n)) = negative n

abbrev pub shallower : Depth → Depth
shallower (positive zero) = negative 0
shallower (positive (suc n)) = positive n
shallower (negative n) = negative (suc n)

abbrev pub at_zero : Depth → Bool
at_zero (positive zero) = true
at_zero _ = false

pub record CpuRetain : Type 0 where
  pub retain_enable : Bool
  pub retain_depth : Depth
  pub interrupts : Bool  -- what `cpu_enable_interrupts` turns on

unfoldable pub cpu_begin_interrupt : CpuRetain → Option CpuRetain
cpu_begin_interrupt c = assert c.retain_enable >> some (record c { retain_enable = false })

unfoldable pub cpu_end_interrupt : CpuRetain → Option CpuRetain
cpu_end_interrupt c = assert (not c.retain_enable) >> some (record c { retain_enable = true })

unfoldable pub cpu_retain_disable : CpuRetain → CpuRetain
cpu_retain_disable c = record c { retain_enable = false }

unfoldable pub cpu_retain_enable : CpuRetain → CpuRetain
cpu_retain_enable c = record c { retain_enable = true }

unfoldable pub cpu_retain_interrupts : CpuRetain → CpuRetain
cpu_retain_interrupts c =
    if c.retain_enable
    then record c { interrupts = false; retain_depth = deeper c.retain_depth }
    else c

unfoldable pub cpu_release_interrupts : CpuRetain → CpuRetain
cpu_release_interrupts c =
    if c.retain_enable
    then record c {
      retain_depth = shallower c.retain_depth;
      interrupts = if at_zero (shallower c.retain_depth) then true else c.interrupts;
    }
    else c
