-- ===== src/Io/Mem.antt =====
-- sources/libs/brutal-io/mem.c: a stream over an array. `capacity` is the length of the array.
pub mod Laws
use brutal.Base.{ℕ, ◌+◌, ◌-◌, min, List, ◌++◌, length, take, drop}

pub record IoMem : Type 0 where
  pub bytes : List ℕ
  pub used : ℕ

unfoldable pub io_mem_init : List ℕ → IoMem
io_mem_init bytes = record { bytes = bytes; used = 0 }

-- The bytes that were read, `size` of them or what is left.
unfoldable pub io_mem_read : IoMem → ℕ → List ℕ × IoMem
io_mem_read self size =
    let read = min size (length self.bytes - self.used) in
    (take read (drop self.used self.bytes), record self { used = self.used + read })

-- The number of bytes that were written: what does not fit is left out.
unfoldable pub io_mem_write : IoMem → List ℕ → ℕ × IoMem
io_mem_write self bytes =
    let to_write = min (length self.bytes - self.used) (length bytes) in
    (
      to_write,
      record {
        bytes =
            take self.used self.bytes
            ++ take to_write bytes
            ++ drop (self.used + to_write) self.bytes;
        used = self.used + to_write;
      },
    )
