-- ===== src/Io/Tests.antt =====
-- Streams, bits and the window on a few bytes.
use brutal.Base.{[], ◌∷◌, replicate, get_elem?, ◌≡◌, refl, arith}
use brutal.Io.Res.{ok, ◌>>=◌}
use brutal.Io.Mem.{IoMem}
use brutal.Io.Window.{IoWindow, io_window_write, io_window_peek_from_back}
use brutal.Io.Window.Laws.{stream, IsKept, io_window_write-stream, io_window_peek_from_back-stream}
use brutal.Io.RBits.{IoRBits, io_rbits_ensure_bits, io_rbits_pop_bits}
use brutal.Io.RBits.Laws.{bits_left, IsClean, io_rbits_pop_bits-io_rbits_ensure_bits}
use brutal.Io.Copy.{io_copy_n}
use brutal.Io.Copy.Laws.{Copied, io_copy_n-Copied}

-- A window of two bytes that holds four: one more byte makes it pass two on.
abbrev narrow : IoWindow
narrow = record {
  held = 1 ∷ 2 ∷ 3 ∷ 4 ∷ [];
  capacity = 2;
  underlying = record { bytes = replicate 9 0; used = 0 };
}

narrow-IsKept : IsKept narrow 2
narrow-IsKept = record { few = omega arith; enough = omega arith; room = omega arith }

io_window_write-stream_example :
    ((io_window_write narrow (5 ∷ [])).0 ≡ 1)
    × (stream (io_window_write narrow (5 ∷ [])).1 ≡ 1 ∷ 2 ∷ 3 ∷ 4 ∷ 5 ∷ [])
    × IsKept (io_window_write narrow (5 ∷ [])).1 1
    × ((io_window_write narrow (5 ∷ [])).1.capacity ≡ 2)
io_window_write-stream_example =
    io_window_write-stream narrow (5 ∷ []) 1 narrow-IsKept (omega arith)

io_window_peek_from_back-stream_example :
    io_window_peek_from_back narrow 2 ≡ get_elem? (stream narrow) 2
io_window_peek_from_back-stream_example =
    io_window_peek_from_back-stream narrow 2 2 narrow-IsKept (omega arith) (omega arith)
      (omega arith)

-- Three bits are left of a byte, and one byte is still to come.
abbrev halfway : IoRBits
halfway = record { reader = record { bytes = 7 ∷ 5 ∷ []; used = 1 }; bitbuf = 6; bitcount = 3 }

halfway-IsClean : IsClean halfway
halfway-IsClean = record { small = omega arith; bytes = (omega arith, tt) }

io_rbits_pop_bits-io_rbits_ensure_bits_example :
    (r : IoRBits) × ((io_rbits_ensure_bits 5 halfway >>= io_rbits_pop_bits 5) ≡ ok (14, r))
    × (bits_left r ≡ 1 ∷ 0 ∷ 0 ∷ 0 ∷ 0 ∷ 0 ∷ [])
    × IsClean r
io_rbits_pop_bits-io_rbits_ensure_bits_example =
    io_rbits_pop_bits-io_rbits_ensure_bits halfway (0 ∷ 1 ∷ 1 ∷ 1 ∷ 0 ∷ [])
      (1 ∷ 0 ∷ 0 ∷ 0 ∷ 0 ∷ 0 ∷ []) halfway-IsClean refl (omega arith)

abbrev source : IoMem
source = record { bytes = 8 ∷ 9 ∷ 10 ∷ []; used = 1 }

abbrev wide : IoWindow
wide = record {
  held = 7 ∷ [];
  capacity = 512;
  underlying = record { bytes = replicate 4 0; used = 0 };
}

io_copy_n-Copied_example :
    (from' : IoMem) × (to' : IoWindow) × (io_copy_n source wide 2 ≡ ok (2, from', to'))
    × Copied source wide 2 1 from' to'
io_copy_n-Copied_example =
    io_copy_n-Copied source wide 2 1 (omega arith) (omega arith)
      (record { few = omega arith; enough = omega arith; room = omega arith })
