-- ===== src/Io/Window.antt =====
-- sources/libs/brutal-io/window.c: the last bytes of a stream stay at hand while older ones are
-- written on. `held` are the first `used` bytes of the window's memory, whose length is three times
-- the capacity; the stream below is a stream over an array.
pub mod Laws
use brutal.Base.{
  ℕ, ◌+◌, ◌-◌, ◌*◌, min, Bool, Option, none, some, List, [], ◌++◌, length, get_elem?, take, drop,
  ltb, leb, if◌then◌else◌, ◌>>=◌, ◌>>◌, assert,
}
use brutal.Io.Mem.{IoMem, io_mem_write}

pub record IoWindow : Type 0 where
  pub held : List ℕ
  pub capacity : ℕ
  pub underlying : IoMem

abbrev pub window_max_capacity_factor : ℕ
window_max_capacity_factor = 3

abbrev pub window_flush_threshold_factor : ℕ
window_flush_threshold_factor = 2

unfoldable pub io_window_init : IoMem → ℕ → IoWindow
io_window_init underlying capacity = record {
  held = [];
  capacity = capacity;
  underlying = underlying;
}

-- `src_size` is at most the capacity, so `src_start` is 0.
unfoldable pub io_window_flush_chunk : IoWindow → IoWindow
io_window_flush_chunk self =
    let src_size = min (length self.held) self.capacity in
    let src_start = if ltb self.capacity src_size then src_size - self.capacity else 0 in
    record self {
      held = drop src_size self.held;
      underlying = (io_mem_write self.underlying (take src_size (drop src_start self.held))).1;
    }

unfoldable pub io_window_flush_all : IoWindow → IoWindow
io_window_flush_all self = record self {
  held = [];
  underlying = (io_mem_write self.underlying self.held).1;
}

abbrev flushed : IoWindow → IoWindow
flushed self =
    if ltb (self.capacity * window_flush_threshold_factor) (length self.held)
    then io_window_flush_chunk self
    else self

-- `io_window_write_impl`: the number of bytes taken, and the window.
unfoldable pub io_window_write : IoWindow → List ℕ → ℕ × IoWindow
io_window_write self bytes =
    let to_write =
      min (self.capacity * window_max_capacity_factor - length self.held) (length bytes) in
    (to_write, flushed (record self { held = self.held ++ take to_write bytes }))

unfoldable pub io_window_peek_from_back : IoWindow → ℕ → Option ℕ
io_window_peek_from_back self offset =
    assert (leb offset (length self.held)) >> get_elem? self.held (length self.held - offset)
