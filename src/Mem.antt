-- ===== src/Mem.antt =====
-- sources/libs/brutal-mem: copying, moving and setting bytes. The memory gives each address its
-- byte; that the addresses may be accessed is the caller's part.
pub mod Move
mod Tests
use brutal.Base.{ℕ, zero, suc, ◌+◌, ltb, ◌==◌, if◌then◌else◌}

abbrev pub Bytes : Type 0
Bytes = ℕ → ℕ

abbrev pub store : Bytes → ℕ → ℕ → Bytes
store m a v b = if a == b then v else m b

-- `for (size_t i = 0; i < n; i++) dest[i] = src[i]`, with `rounds` left from index `i` on
unfoldable pub copy_up : ℕ → ℕ → ℕ → ℕ → Bytes → Bytes
copy_up to from zero i m = m
copy_up to from (suc rounds) i m = copy_up to from rounds (suc i) (store m (to + i) (m (from + i)))

-- `for (size_t i = n; i > 0; i--) dest[i - 1] = src[i - 1]`
unfoldable pub copy_down : ℕ → ℕ → ℕ → Bytes → Bytes
copy_down to from zero m = m
copy_down to from (suc i) m = copy_down to from i (store m (to + i) (m (from + i)))

unfoldable pub mem_cpy : ℕ → ℕ → ℕ → Bytes → Bytes
mem_cpy to from n m = copy_up to from n 0 m

unfoldable pub mem_move : ℕ → ℕ → ℕ → Bytes → Bytes
mem_move dest src n m =
    if ltb dest src
    then copy_up dest src n 0 m
    else if ltb src dest
    then copy_down dest src n m
    else m

unfoldable pub set_up : ℕ → ℕ → ℕ → ℕ → Bytes → Bytes
set_up s c zero i m = m
set_up s c (suc rounds) i m = set_up s c rounds (suc i) (store m (s + i) c)

unfoldable pub mem_set : ℕ → ℕ → ℕ → Bytes → Bytes
mem_set s c n m = set_up s c n 0 m
