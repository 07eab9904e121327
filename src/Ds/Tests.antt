-- ===== src/Ds/Tests.antt =====
-- The theorems on the containers of sources/libs/brutal-ds at concrete inputs.
use brutal.Base.{ℕ, true, Option, some, List, [], ◌∷◌, replicate, refl, arith}
use brutal.Ds.Bits.{Bits, BitsRange, bits_set_range}
use brutal.Ds.Bits.Laws.{IsBitmap}
use brutal.Ds.Bits.Range.{SetRange, bits_set_range-SetRange}
use brutal.Ds.Ring.{Ring, ring_init}
use brutal.Ds.Ring.Fifo.{IsRingOf, ring_init-IsRingOf}
use brutal.Ds.Vec.{Vec}
use brutal.Ds.Slot.{Slot}

-- Bits 0, 3 and 12 are in use.
abbrev two_bytes : Bits
two_bytes = record { data_ = 9 ∷ 16 ∷ []; size = 2 }

two_bytes-IsBitmap : IsBitmap two_bytes
two_bytes-IsBitmap = record { bytes = (omega arith, (omega arith, tt)); sized = refl }

abbrev span : BitsRange
span = record { base = 2; size = 5 }

bits_set_range_example : SetRange two_bytes span true (bits_set_range two_bytes span true)
bits_set_range_example =
    bits_set_range-SetRange two_bytes span true two_bytes-IsBitmap (omega arith) (omega arith)

abbrev queue : List ℕ
queue = 6 ∷ 7 ∷ []

-- A ring of three cells that went round once.
abbrev three_cells : Ring ℕ
three_cells = record { data_ = 7 ∷ 0 ∷ 6 ∷ []; head = 1; tail = 2; used = 2; capacity = 3 }

three_cells-IsRingOf : IsRingOf queue three_cells
three_cells-IsRingOf = record {
  cells = refl;
  tail_in = omega arith;
  fits = omega arith;
  head_at = refl;
  count = refl;
  holds = (refl, (refl, tt));
}

abbrev new_ring : Ring ℕ
new_ring = ring_init 0 4

ring_init_example : IsRingOf [] new_ring
ring_init_example = ring_init-IsRingOf 0 4 (omega arith)

abbrev three_items : Vec ℕ
three_items = record { cells = 4 ∷ 5 ∷ 6 ∷ 0 ∷ []; len = 3 }

abbrev zeroed_cells : ℕ → Option (List ℕ)
zeroed_cells n = some (replicate n 0)

abbrev one_slot : Slot ℕ
one_slot = record { data_ = 5 ∷ []; used = true ∷ []; capacity = 1 }
