-- ===== src/Io/Window/Laws.antt =====
-- The window as one stream: what went on to the stream below, and what is still held.
use brutal.Base.{
  ℕ, ◌+◌, ◌-◌, ◌*◌, ◌≤◌, ◌<◌, min, true, false, List, ◌++◌, length, get_elem?, take, drop, ◌≡◌,
  refl, ap, sym, ◌∙◌, ltb, leb, Bool-cases, inl, inr, arith, length-append, length-take,
  length-drop, take-past, take-append-drop, get_elem?-append_right,
}
use mathlib.Core.List.{append_assoc}
use brutal.Io.Mem.{IoMem, io_mem_write}
use brutal.Io.Mem.Laws.{written, Room, io_mem_write-written}
use brutal.Io.Window.{
  IoWindow, io_window_init, io_window_flush_chunk, io_window_flush_all, io_window_write,
  io_window_peek_from_back,
}

abbrev pub stream : IoWindow → List ℕ
stream self = written self.underlying ++ self.held

-- At most two capacities are held, and at least one as soon as the stream is that long; below there
-- is room for what is held and `n` bytes more.
pub record IsKept (self : IoWindow) (n : ℕ) : Type 0 where
  pub few : length self.held ≤ self.capacity * 2
  pub enough : min (length (stream self)) self.capacity ≤ length self.held
  pub room : Room self.underlying (length self.held + n)

-- Passing a capacity of bytes on changes nothing of the stream.
io_window_flush_chunk-stream :
    (self : IoWindow) (n : ℕ)
    → self.capacity * 2 < length self.held
    → length self.held ≤ self.capacity * 3
    → Room self.underlying (length self.held + n)
    → (stream (io_window_flush_chunk self) ≡ stream self)
      × IsKept (io_window_flush_chunk self) n
      × ((io_window_flush_chunk self).capacity ≡ self.capacity)
unfolding io_window_flush_chunk
io_window_flush_chunk-stream self n many most room =
    let size : min (length self.held) self.capacity ≡ self.capacity = omega arith in
    let start : ltb self.capacity self.capacity ≡ false = ground arith in
    let chunk = take self.capacity self.held in
    let rest = drop self.capacity self.held in
    let sent = length-take self.held self.capacity (omega arith) in
    let stays = length-drop self.held self.capacity in
    let (all, grown, fits) = io_mem_write-written self.underlying chunk (omega (arith, sent)) in
    let same : written (io_mem_write self.underlying chunk).1 ++ rest ≡ stream self =
      ap (λ xs. xs ++ rest) grown
      ∙ append_assoc (written self.underlying) chunk rest
      ∙ ap (λ xs. written self.underlying ++ xs) (take-append-drop self.held self.capacity) in
    rw (size, start)
      (
        same,
        record {
          few = omega (arith, stays);
          enough = omega (arith, stays);
          room = fits (length rest + n) (omega (arith, sent, stays));
        },
        refl,
      )

-- On a window that holds at most two capacities, and one as soon as its stream is that long, with
-- room below: a write of at most a capacity of bytes takes them all, appends them to the stream,
-- that is, what went on below and what is held, and keeps the window so.
pub io_window_write-stream :
    (self : IoWindow) (bytes : List ℕ) (n : ℕ)
    → IsKept self (length bytes + n)
    → length bytes ≤ self.capacity
    → ((io_window_write self bytes).0 ≡ length bytes)
      × (stream (io_window_write self bytes).1 ≡ stream self ++ bytes)
      × IsKept (io_window_write self bytes).1 n
      × ((io_window_write self bytes).1.capacity ≡ self.capacity)
unfolding io_window_write
io_window_write-stream self bytes n kept small =
    let clip : min (self.capacity * 3 - length self.held) (length bytes) ≡ length bytes =
      omega (arith, kept.few) in
    let all : take (length bytes) bytes ≡ bytes = take-past bytes _ (omega arith) in
    let more = length-append self.held bytes in
    let whole = append_assoc (written self.underlying) self.held bytes in
    let long = length-append (written self.underlying) (self.held ++ bytes) in
    let short = length-append (written self.underlying) self.held in
    let fits : Room self.underlying (length (self.held ++ bytes) + n) = omega (arith, kept.room) in
    elim (Bool-cases (ltb (self.capacity * 2) (length (self.held ++ bytes)))) [
      | inr keep ↦
          let few : length (self.held ++ bytes) ≤ self.capacity * 2 = ground arith in
          rw (clip, all, keep)
            (
              refl,
              sym whole,
              record { few = few; enough = omega (arith, kept.enough); room = fits },
              refl,
            )
      | inl flush ↦
          let w : IoWindow = record self { held = self.held ++ bytes } in
          let many : self.capacity * 2 < length (self.held ++ bytes) = ground arith in
          let (same, is, capacity) =
            io_window_flush_chunk-stream w n many (omega (arith, kept.few)) fits in
          rw (clip, all, flush) (refl, same ∙ sym whole, is, capacity)
    ]

-- On a window that holds one capacity as soon as its stream is that long: a peek at an offset of
-- at least 1, and within the stream and the capacity, reads the byte of the stream that far from
-- its end.
pub io_window_peek_from_back-stream :
    (self : IoWindow) (n offset : ℕ)
    → IsKept self n
    → 0 < offset
    → offset ≤ length (stream self)
    → offset ≤ self.capacity
    → io_window_peek_from_back self offset ≡ get_elem? (stream self) (length (stream self) - offset)
unfolding io_window_peek_from_back
io_window_peek_from_back-stream self n offset kept pos old near =
    let total = length-append (written self.underlying) self.held in
    let held : offset ≤ length self.held = omega (arith, kept.enough) in
    let test : leb offset (length self.held) ≡ true = ground arith in
    let there = get_elem?-append_right (written self.underlying) self.held in
    rw test (sym (there (length self.held - offset)) ∙ ap (get_elem? (stream self)) (omega arith))

-- A flush of everything at the end leaves the stream below with the whole stream.
pub io_window_flush_all-stream :
    (self : IoWindow) (n : ℕ)
    → IsKept self n
    → written (io_window_flush_all self).underlying ≡ stream self
unfolding io_window_flush_all
io_window_flush_all-stream self n kept =
    (io_mem_write-written self.underlying self.held (omega (arith, kept.room))).1

-- A fresh window over a stream.
io_window_init-IsKept :
    (out : IoMem) (capacity n : ℕ)
    → out.used ≡ 0
    → Room out n
    → IsKept (io_window_init out capacity) n
unfolding io_window_init
io_window_init-IsKept out capacity n fresh room =
    let empty : length (stream (io_window_init out capacity)) ≡ 0 = rw fresh refl in
    record { few = omega arith; enough = omega (arith, empty); room = omega arith }
