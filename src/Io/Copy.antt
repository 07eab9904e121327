-- ===== src/Io/Copy.antt =====
-- `io_copy_n` of sources/libs/brutal-io/funcs.c, from a stream over an array into a window.
pub mod Laws
use brutal.Base.{ℕ, zero, suc, ◌+◌, ◌-◌, min, length, ltb, ◌==◌, if◌then◌else◌}
use brutal.Io.Res.{Res, ok, fault}
use brutal.Io.Mem.{IoMem, io_mem_read}
use brutal.Io.Window.{IoWindow, io_window_write}

-- The loop, with `total` bytes copied; a round that copies nothing ends it.
unfoldable pub copy_loop : ℕ → IoMem → IoWindow → ℕ → ℕ → Res (ℕ × IoMem × IoWindow)
copy_loop zero from to size total = fault
copy_loop (suc fuel) from to size total =
    let (bytes, from') = io_mem_read from (min 512 (size - total)) in
    let (count, to') = io_window_write to bytes in
    let rest = copy_loop fuel from' to' size (total + count) in
    if length bytes == 0
    then ok (total, from', to)
    else if count == 0
    then ok (total, from', to')
    else if ltb (total + count) size
    then rest
    else ok (total + count, from', to')

-- Every round that goes on has copied a byte.
unfoldable pub io_copy_n : IoMem → IoWindow → ℕ → Res (ℕ × IoMem × IoWindow)
io_copy_n from to size = copy_loop (suc size) from to size 0
