-- ===== src/Io/Copy/Laws.antt =====
-- `io_copy_n` of sources/libs/brutal-io/funcs.c copies what it is asked for.
use brutal.Base.{
  ℕ, zero, suc, ◌+◌, ◌-◌, ◌≤◌, ◌<◌, min, true, false, [], ◌++◌, length, take, drop, ◌≡◌, refl, ap,
  sym, ◌∙◌, ltb, ◌==◌, Bool-cases, inl, inr, arith, take-add, subst, length-take, length-drop,
  drop-drop,
}
use mathlib.Core.List.{append_assoc, append-nil}
use brutal.Io.Res.{ok}
use brutal.Io.Mem.{IoMem, io_mem_read}
use brutal.Io.Mem.Laws.{left, io_mem_read-left}
use brutal.Io.Window.{IoWindow, io_window_write}
use brutal.Io.Window.Laws.{stream, IsKept, io_window_write-stream}
use brutal.Io.Copy.{copy_loop, io_copy_n}

-- What copying `size` bytes has done.
pub record Copied (from : IoMem) (to : IoWindow) (size n : ℕ) (from' : IoMem) (to' : IoWindow)
    : Type 0 where
  pub rest : left from' ≡ drop size (left from)
  pub grown : stream to' ≡ stream to ++ take size (left from)
  pub kept : IsKept to' n
  pub capacity : to'.capacity ≡ to.capacity

-- One read of at most 512 bytes, and the write of what it gave.
copy_once :
    (from : IoMem) (to : IoWindow) (todo want k n : ℕ)
    → want ≡ min 512 todo
    → k ≡ min 512 todo
    → todo ≤ length (left from)
    → 512 ≤ to.capacity
    → IsKept to (k + n)
    → let (bytes, from') = io_mem_read from want in
      (length bytes ≡ k)
      × ((io_window_write to bytes).0 ≡ k)
      × Copied from to k n from' (io_window_write to bytes).1
copy_once from to todo want k n ew ek there wide kept =
    let (read, rest) = io_mem_read-left from want in
    let bytes = (io_mem_read from want).0 in
    let count : length bytes ≡ k =
      ap length read ∙ length-take (left from) want (omega arith) ∙ omega arith in
    let asked : want ≡ k = omega arith in
    let (took, grown, kept', capacity) =
      io_window_write-stream to bytes n (rw count kept) (omega arith) in
    (
      count,
      took ∙ count,
      record {
        rest = rest ∙ ap (λ l. drop l (left from)) (sym (ap length read) ∙ count);
        grown = grown ∙ ap (λ l. stream to ++ l) (read ∙ ap (λ k. take k (left from)) asked);
        kept = kept';
        capacity = capacity;
      },
    )

-- Two copies one after the other.
Copied-twice :
    {from from₁ from₂ : IoMem} {to to₁ to₂ : IoWindow} (k l n : ℕ)
    → Copied from to k (l + n) from₁ to₁
    → Copied from₁ to₁ l n from₂ to₂
    → Copied from to (k + l) n from₂ to₂
Copied-twice {from} {from₁} {to} k l n a b = record {
  rest = b.rest ∙ ap (drop l) a.rest ∙ drop-drop (left from) k l;
  grown =
      b.grown
      ∙ ap (λ s. s ++ take l (left from₁)) a.grown
      ∙ append_assoc (stream to) (take k (left from)) _
      ∙ ap (λ s. stream to ++ (take k (left from) ++ take l s)) a.rest
      ∙ ap (λ s. stream to ++ s) (sym (take-add (left from) k l));
  kept = b.kept;
  capacity = b.capacity ∙ a.capacity;
}

copy_loop-last :
    (fuel : ℕ) (from : IoMem) (to : IoWindow) (size total k : ℕ)
    → let (bytes, from') = io_mem_read from (min 512 (size - total)) in
      length bytes ≡ k
      → (io_window_write to bytes).0 ≡ k
      → 0 < k
      → total + k ≡ size
      → copy_loop (suc fuel) from to size total ≡ ok (size, from', (io_window_write to bytes).1)
unfolding copy_loop
copy_loop-last fuel from to size total k some_read took pos e =
    let test : (k == 0) ≡ false = ground arith in
    let done : ltb size size ≡ false = ground arith in rw (some_read, took, test, e, done)

copy_loop-more :
    (fuel : ℕ) (from : IoMem) (to : IoWindow) (size total k : ℕ)
    → let (bytes, from') = io_mem_read from (min 512 (size - total)) in
      length bytes ≡ k
      → (io_window_write to bytes).0 ≡ k
      → 0 < k
      → total + k < size
      → copy_loop (suc fuel) from to size total
        ≡ copy_loop fuel from' (io_window_write to bytes).1 size (total + k)
unfolding copy_loop
copy_loop-more fuel from to size total k some_read took pos e =
    let test : (k == 0) ≡ false = ground arith in
    let more : ltb (total + k) size ≡ true = ground arith in rw (some_read, took, test, more)

-- The loop with `todo` bytes to go copies them and reports the size.
record Copies (fuel : ℕ) (from : IoMem) (to : IoWindow) (todo size total n : ℕ) : Type 0 where
  from' : IoMem
  to' : IoWindow
  ran : copy_loop fuel from to size total ≡ ok (size, from', to')
  copied : Copied from to todo n from' to'

copy_loop-Copies :
    (fuel : ℕ) (from : IoMem) (to : IoWindow) (todo size total n : ℕ)
    → size ≡ total + todo
    → 0 < todo
    → todo ≤ fuel
    → todo ≤ length (left from)
    → 512 ≤ to.capacity
    → IsKept to (todo + n)
    → Copies fuel from to todo size total n
copy_loop-Copies zero from to todo size total n e pos h there wide kept = absurd (omega arith)
copy_loop-Copies (suc fuel) from to todo size total n e pos h there wide kept =
    elim (Bool-cases (ltb 512 todo)) [
      | inr few ↦
          let small : min 512 todo ≡ todo = ground arith in
          let (count, took, copied) =
            copy_once from to todo (min 512 (size - total)) todo n (omega arith) (sym small) there
              wide kept in
          record {
            from' = _;
            to' = _;
            ran = copy_loop-last fuel from to size total todo count took pos (sym e);
            copied = copied;
          }
      | inl many ↦
          let big : 512 < todo = ground arith in
          let (count, took, copied) =
            copy_once from to todo (min 512 (size - total)) 512 (todo - 512 + n) (omega arith)
              (omega arith) there wide (subst (λ k. IsKept to k) (omega arith) kept) in
          let rest =
            copy_loop-Copies fuel (io_mem_read from (min 512 (size - total))).1
              (io_window_write to (io_mem_read from (min 512 (size - total))).0).1 (todo - 512) size
              (total + 512) n (omega arith) (omega arith) (omega arith)
              (omega (arith, ap length copied.rest, length-drop (left from) 512))
              (rw copied.capacity wide) copied.kept in
          record {
            from' = rest.from';
            to' = rest.to';
            ran =
                copy_loop-more fuel from to size total 512 count took (omega arith) (omega arith)
                ∙ rest.ran;
            copied =
                subst (λ k. Copied from to k n rest.from' rest.to') (omega arith)
                  (Copied-twice 512 (todo - 512) n copied rest.copied);
          }
    ]

-- A copy of a number of bytes that are there, into a window of at least 512 bytes with room below,
-- ends, reports that number, has taken the bytes from the reader and appended them to the stream
-- of the window in order.
pub io_copy_n-Copied :
    (from : IoMem) (to : IoWindow) (size n : ℕ)
    → size ≤ length (left from)
    → 512 ≤ to.capacity
    → IsKept to (size + n)
    → (from' : IoMem) × (to' : IoWindow) × (io_copy_n from to size ≡ ok (size, from', to'))
      × Copied from to size n from' to'
unfolding io_copy_n copy_loop
io_copy_n-Copied from to zero n there wide kept =
    let want : min 512 (0 - 0) ≡ 0 = omega arith in
    let (read, rest) = io_mem_read-left from 0 in
    let count : length (io_mem_read from 0).0 ≡ 0 = ap length read in
    let whole : stream to ++ [] ≡ stream to = append-nil (stream to) in
    (
      (io_mem_read from 0).1,
      to,
      rw (want, count),
      record {
        rest = rest;
        grown = sym whole;
        kept = subst (λ k. IsKept to k) (omega arith) kept;
        capacity = refl;
      },
    )
io_copy_n-Copied from to (suc s) n there wide kept =
    let c =
      copy_loop-Copies (suc (suc s)) from to (suc s) (suc s) 0 n (omega arith) (omega arith)
        (omega arith) there wide kept in
    (c.from', c.to', c.ran, c.copied)
