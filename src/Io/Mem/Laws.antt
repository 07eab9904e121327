-- ===== src/Io/Mem/Laws.antt =====
-- A stream over an array as the bytes that are left to read, and as those that were written.
use brutal.Base.{
  ℕ, ◌+◌, ◌-◌, ◌≤◌, min, List, ◌++◌, length, take, drop, ◌≡◌, ap, sym, ◌∙◌, arith, length-append,
  length-take, length-drop, drop-drop, take-past, take-append, take-min,
}
use brutal.Io.Mem.{IoMem, io_mem_read, io_mem_write}

abbrev pub left : IoMem → List ℕ
left self = drop self.used self.bytes

abbrev pub written : IoMem → List ℕ
written self = take self.used self.bytes

-- `n` more bytes fit.
abbrev pub Room : IoMem → ℕ → Type 0
Room self n = self.used + n ≤ length self.bytes

-- A read takes the bytes that are left from the front, and as many as there are.
pub io_mem_read-left :
    (self : IoMem) (size : ℕ)
    → ((io_mem_read self size).0 ≡ take size (left self))
      × (left (io_mem_read self size).1 ≡ drop (length (take size (left self))) (left self))
unfolding io_mem_read
io_mem_read-left self size =
    let e : length (left self) ≡ length self.bytes - self.used = length-drop self.bytes self.used in
    let read : take (min size (length self.bytes - self.used)) (left self) ≡ take size (left self) =
      rw (← e) (take-min (left self) size) in
    let count : length (take size (left self)) ≡ min size (length self.bytes - self.used) =
      sym (ap length read) ∙ length-take (left self) _ (omega (arith, e)) in
    (read, rw count (sym (drop-drop self.bytes self.used _)))

-- A write of bytes that fit appends them to what was written.
pub io_mem_write-written :
    (self : IoMem) (bytes : List ℕ)
    → Room self (length bytes)
    → ((io_mem_write self bytes).0 ≡ length bytes)
      × (written (io_mem_write self bytes).1 ≡ written self ++ bytes)
      × ((n : ℕ) → Room self (length bytes + n) → Room (io_mem_write self bytes).1 n)
unfolding io_mem_write
io_mem_write-written self bytes room =
    let clip : min (length self.bytes - self.used) (length bytes) ≡ length bytes = omega arith in
    let whole : take (length bytes) bytes ≡ bytes = take-past bytes _ (omega arith) in
    let front : length (written self) ≡ self.used =
      length-take self.bytes self.used (omega arith) in
    let upto : length (written self ++ bytes) ≡ self.used + length bytes =
      length-append (written self) bytes ∙ omega arith in
    let rest = length-drop self.bytes (self.used + length bytes) in
    let tail = drop (self.used + length bytes) self.bytes in
    (
      clip,
      rw (clip, whole) (take-append (written self ++ bytes) tail _ upto),
      λ n fits. rw (clip, whole) (omega (arith, length-append (written self ++ bytes) tail)),
    )
