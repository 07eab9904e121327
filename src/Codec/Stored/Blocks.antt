-- ===== src/Codec/Stored/Blocks.antt =====
-- The loop over the blocks of sources/libs/codec-deflate/inflate.c, on a row of uncompressed blocks.
use brutal.Base.{
  ℕ, zero, suc, ◌+◌, ◌-◌, ◌≤◌, ◌<◌, true, false, List, ◌++◌, length, take, drop, ltb, ◌≡◌, refl, ap,
  sym, ◌∙◌, subst, arith, length-append, length-drop, length-take-min, min, take-append-drop,
  take-past, Bool-cases, inl, inr,
}
use mathlib.Core.List.{append_assoc}
use brutal.Io.Res.{ok}
use brutal.Io.Window.Laws.{stream}
use brutal.Codec.Inflate.{DeflateDecompressor, deflate_decompress_block, block_loop}
use brutal.Codec.Stored.{block, stored}
use brutal.Codec.Stored.Write.{stored-last, stored-more, full_chunk}
use brutal.Codec.Stored.Read.{Between, Took, block-Took}

block_loop-last :
    (rounds fuel : ℕ) (junk : List ℕ) (ctx done : DeflateDecompressor) (total size : ℕ)
    → deflate_decompress_block fuel junk ctx ≡ ok (true, size, done)
    → block_loop (suc rounds) fuel junk ctx total ≡ ok (total + size, done)
unfolding block_loop
block_loop-last rounds fuel junk ctx done total size e = rw e

block_loop-more :
    (rounds fuel : ℕ) (junk : List ℕ) (ctx done : DeflateDecompressor) (total size : ℕ)
    → deflate_decompress_block fuel junk ctx ≡ ok (false, size, done)
    → block_loop (suc rounds) fuel junk ctx total ≡ block_loop rounds fuel junk done (total + size)
unfolding block_loop
block_loop-more rounds fuel junk ctx done total size e = rw e

-- The loop over the blocks has read `bytes`.
pub record Inflated (rounds fuel : ℕ) (junk : List ℕ) (ctx : DeflateDecompressor) (total : ℕ)
    (bytes rest : List ℕ) (n : ℕ) : Type 0 where
  pub done : DeflateDecompressor
  pub ran : block_loop rounds fuel junk ctx total ≡ ok (total + length bytes, done)
  pub took : Took ctx bytes rest n done

whole_chunk :
    (bytes : List ℕ) (max : ℕ)
    → length (take max bytes) ≡ min max (length bytes)
    → length (take max bytes) < max
    → take max bytes ≡ bytes
whole_chunk bytes max size short = take-past bytes max (omega arith)

Inflated-more :
    (rounds fuel : ℕ) (junk : List ℕ) (ctx c : DeflateDecompressor) (total : ℕ)
    (chunk tail rest : List ℕ) (n : ℕ)
    → deflate_decompress_block fuel junk ctx ≡ ok (false, length chunk, c)
    → stream c.window ≡ stream ctx.window ++ chunk
    → Inflated rounds fuel junk c (total + length chunk) tail rest n
    → Inflated (suc rounds) fuel junk ctx total (chunk ++ tail) rest n
Inflated-more rounds fuel junk ctx c total chunk tail rest n ran grown after = record {
  done = after.done;
  ran =
      block_loop-more rounds fuel junk ctx c total (length chunk) ran
      ∙ after.ran
      ∙ ap (λ k. ok (k, after.done))
          (sizes total (length chunk) (length tail) (length (chunk ++ tail))
            (length-append chunk tail));
  took = record {
    ready = after.took.ready;
    grown =
        after.took.grown ∙ ap (λ l. l ++ tail) grown ∙ append_assoc (stream ctx.window) chunk tail;
  };
}
  where
    sizes : (t c b l : ℕ) → l ≡ c + b → t + c + b ≡ t + l
    sizes t c b l e = omega arith

short_chunk : (n : ℕ) → ltb n 65535 ≡ true → n < 65535
short_chunk n e = ground arith

module _ (fuel : ℕ) (junk : List ℕ) where
  inflate_round :
      (f rounds : ℕ) (ctx : DeflateDecompressor) (total : ℕ) (bytes chunk rest : List ℕ) (n : ℕ)
      → ((c : DeflateDecompressor) (t : ℕ) (b : List ℕ)
          → length b < f
          → Between c (stored f b ++ rest) (length b + n)
          → Inflated rounds fuel junk c t b rest n)
      → take 65535 bytes ≡ chunk
      → length chunk ≡ min 65535 (length bytes)
      → length bytes < suc f
      → Between ctx (stored (suc f) bytes ++ rest) (length bytes + n)
      → Inflated (suc rounds) fuel junk ctx total bytes rest n
  inflate_round f rounds ctx total bytes chunk rest n again e size h between =
      elim (Bool-cases (ltb (length chunk) 65535)) [
        | inl last ↦
            let all : chunk ≡ bytes =
              sym e
              ∙ whole_chunk bytes 65535 (length-take-min bytes 65535)
                  (rw e (short_chunk (length chunk) last)) in
            let between' : Between ctx (block true chunk ++ rest) (length chunk + n) =
              subst (λ k. Between ctx (block true chunk ++ rest) (k + n)) (ap length (sym all))
                (subst (λ l. Between ctx (l ++ rest) (length bytes + n))
                  (stored-last f bytes chunk e last) between) in
            let (done, ran, took) =
              block-Took fuel junk ctx true chunk rest n (omega arith) between' in
            subst (λ l. Inflated (suc rounds) fuel junk ctx total l rest n) all
              (record {
                done = done;
                ran = block_loop-last rounds fuel junk ctx done total (length chunk) ran;
                took = took;
              })
        | inr full ↦
            let tail = drop 65535 bytes in
            let long = full_chunk (length chunk) (omega arith) full in
            let whole : chunk ++ tail ≡ bytes =
              ap (λ l. l ++ tail) (sym e) ∙ take-append-drop bytes 65535 in
            let size' : length tail ≡ length bytes - 65535 = length-drop bytes 65535 in
            let row : stored (suc f) bytes ++ rest ≡ block false chunk ++ (stored f tail ++ rest) =
              ap (λ l. l ++ rest) (stored-more f bytes chunk e full)
              ∙ append_assoc (block false chunk) (stored f tail) rest in
            let between' : Between ctx (block false chunk ++ (stored f tail ++ rest))
                (length chunk + (length tail + n)) =
              subst (λ k. Between ctx (block false chunk ++ (stored f tail ++ rest)) k)
                (omega arith) (subst (λ l. Between ctx l (length bytes + n)) row between) in
            let (done, ran, took) =
              block-Took fuel junk ctx false chunk (stored f tail ++ rest) (length tail + n)
                (omega arith) between' in
            let after = again done (total + length chunk) tail (omega arith) took.ready in
            subst (λ l. Inflated (suc rounds) fuel junk ctx total l rest n) whole
              (Inflated-more rounds fuel junk ctx done total chunk tail rest n ran took.grown after)
      ]

  pub inflate_all :
      (f rounds : ℕ) (ctx : DeflateDecompressor) (total : ℕ) (bytes rest : List ℕ) (n : ℕ)
      → length bytes < f
      → f ≤ rounds
      → Between ctx (stored f bytes ++ rest) (length bytes + n)
      → Inflated rounds fuel junk ctx total bytes rest n
  inflate_all zero rounds ctx total bytes rest n h k between = elim h [ ]
  inflate_all (suc f) zero ctx total bytes rest n h k between = elim k [ ]
  inflate_all (suc f) (suc rounds) ctx total bytes rest n h k between =
      inflate_round f rounds ctx total bytes (take 65535 bytes) rest n
        (λ c t b h' between'. inflate_all f rounds c t b rest n h' (omega arith) between') refl
        (length-take-min bytes 65535) h between
