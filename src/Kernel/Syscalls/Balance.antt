-- ===== src/Kernel/Syscalls/Balance.antt =====
-- The reference counts after the calls of sources/kernel/syscalls.c that look objects up.
use brutal.Base.{ℕ, ◌+◌, ◌^◌, ◌<◌, ◌≤◌, Bool, true, false, Option, some, List, ◌≡◌, ◌⊎◌}
use brutal.Ds.Vec.{capacity}
use brutal.Ds.RangeAlloc.{USizeRange}
use brutal.Ds.RangeAlloc.Cover.{IsRanges}
use brutal.Kernel.Abi.{BrResult, success, BrType, memory}
use brutal.Kernel.Space.{Mmap, Space}
use brutal.Kernel.Space.Laws.{IsPaged}
use brutal.Kernel.System.{System, br_handle_self}
use brutal.Kernel.System.Counts.{one, Holds}
use brutal.Kernel.Syscalls.{BrMapArgs}

abbrev pub IsHandle : ℕ → Type 0
IsHandle h = (h ≡ br_handle_self) ⊎ (h < 2 ^ 31)

abbrev pub IsMappable : Space → Type 0
IsMappable sp = (sp.mmaps.len ≤ capacity sp.mmaps) × IsRanges sp.alloc × IsPaged sp

abbrev pub succeeded : BrResult → Bool
succeeded success = true
succeeded _ = false

-- Every count but that of the null pointer is as it was.
abbrev pub SameRefs : System → System → Type 0
SameRefs s s' = (j : ℕ) → 0 < j → s'.objects.refs j ≡ s.objects.refs j

-- The object `o` has one reference more.
abbrev pub OneMore : System → ℕ → System → Type 0
OneMore s o s' = (j : ℕ) → 0 < j → s'.objects.refs j ≡ s.objects.refs j + one o j

-- A call that succeeds leaves one reference more to the object of the handle, and any other none.
abbrev pub Balanced : System → ℕ → ℕ → BrType → BrResult → System → Type 0
Balanced s me h t res s' =
    ((succeeded res ≡ true) × ((o : ℕ) × Holds s me h t o × OneMore s o s'))
    ⊎ ((succeeded res ≡ false) × SameRefs s s')

module _ (acquire : ℕ → Option (List Mmap)) (acquire_ranges : ℕ → Option (List USizeRange)) where
  abbrev MapEnds : System → ℕ → ℕ → Option (BrResult × BrMapArgs × System) → Type 0
  MapEnds s me h run =
      (res : BrResult) × (args' : BrMapArgs) × (s' : System) × (run ≡ some (res, args', s'))
      × Balanced s me h memory res s'
