-- ===== src/Mem/Tests.antt =====
-- Copies within a memory.
use brutal.Base.{◌≡◌, refl}
use brutal.Mem.{mem_move, mem_cpy}
use brutal.Mem.Move.{moved, mem_move-moved}

-- Up by two over an overlap: the bytes arrive as they were.
mem_move-moved_example : mem_move 12 10 4 (λ a. a) 15 ≡ moved 12 10 4 (λ a. a) 15
mem_move-moved_example = mem_move-moved 12 10 4 (λ a. a) 15

-- A plain copy writes over bytes that it still has to read.
cpy_overlap : mem_cpy 12 10 4 (λ a. a) 15 ≡ 11
unfolding mem_cpy brutal.Mem.copy_up
cpy_overlap = refl
