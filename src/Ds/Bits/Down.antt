-- ===== src/Ds/Bits/Down.antt =====
-- The downward search of `bits_find_free`, in sources/libs/brutal-ds/bits.c.
use brutal.Base.{
  ℕ, zero, suc, ◌+◌, ◌-◌, ◌≤◌, ◌<◌, min, Bool, Bool-cases, true, false, none, some, ◌≡◌, refl,
  arith, ◌==◌, ==_iff, ◌⊎◌, inl, inr, ap, sym,
}
use native.Mathlib.Nat.{le_refl}
use brutal.Ds.Bits.{
  Bits, BitsRange, empty_range, bits_get, bits_len, extend_run, find_loop, bits_find_free,
}
use brutal.Ds.Bits.Laws.{IsBitmap, bits_get-lt, bits_get-ge}
use brutal.Ds.Bits.Find.{FreeRun, Search}

module _ (b : Bits) (n start : ℕ) where
  -- What the downward loop knows at bit `i`: the run begins just above `i`, is free and too
  -- short, and every run in the window ends within it or lower.
  record DownInv (i : ℕ) (run : BitsRange) : Type 0 where
    short : run.size < n
    adjacent : (run.size ≡ 0) ⊎ (run.base ≡ i + 1)
    ends : i + run.size ≤ start
    free : FreeRun b run.base run.size
    lower : (c : ℕ) → 1 ≤ c → c + n ≤ start + 1 → FreeRun b c n → c + n ≤ i + run.size + 1

  DownInv-used :
      {i : ℕ} {run : BitsRange}
      → bits_get b (suc i) ≡ some true
      → DownInv (suc i) run
      → DownInv i (extend_run true (suc i) true run)
  unfolding extend_run
  DownInv-used {i} {run} read inv = record {
    short = omega (arith, inv.short);
    adjacent = inl refl;
    ends = omega (arith, inv.ends);
    free = λ j p q. absurd (omega arith);
    lower = λ c p q f. ground (arith, inv.lower c p q f, inv.short, f (suc i), read);
  }

  extend_down-free :
      {i : ℕ} {run : BitsRange}
      → bits_get b (suc i) ≡ some false
      → DownInv (suc i) run
      → let next = extend_run true (suc i) false run in
        FreeRun b next.base next.size × (next.base ≡ i + 1) × (next.size ≡ run.size + 1)
  unfolding extend_run
  extend_down-free {i} {run} read inv =
      (λ j p q. ground (arith, inv.free j, inv.adjacent, read, at j), ground arith, refl)
    where
      at : (j : ℕ) → j ≡ suc i → bits_get b j ≡ bits_get b (suc i)
      at j e = ap (bits_get b) e

  DownInv-free :
      {i : ℕ} {run : BitsRange}
      → bits_get b (suc i) ≡ some false
      → DownInv (suc i) run
      → run.size + 1 < n
      → DownInv i (extend_run true (suc i) false run)
  DownInv-free {i} {run} read inv h =
      let e = extend_down-free read inv in
      record {
        short = omega (arith, e.2, h);
        adjacent = inr e.1;
        ends = omega (arith, e.2, inv.ends);
        free = e.0;
        lower = λ c p q f. omega (arith, inv.lower c p q f, e.2);
      }

  down_step :
      (i : ℕ) (run : BitsRange) (u : Bool)
      → bits_get b (suc i) ≡ some u
      → DownInv (suc i) run
      → ((next : BitsRange)
          → DownInv i next
          → Search b n 1 (start + 1) (find_loop i b n true i next))
      → Search b n 1 (start + 1) (find_loop (suc i) b n true (suc i) run)
  unfolding find_loop
  down_step i run true read inv rest =
      let r = rest (extend_run true (suc i) true run) (DownInv-used read inv) in
      record {
        found = r.found;
        returns = ground (arith, r.returns, read, inv.short, reset (suc i) run, pred_suc);
        verdict = r.verdict;
      }
    where
      reset : (k : ℕ) (q : BitsRange) → extend_run true k true q ≡ empty_range
      reset k q = unfold extend_run in refl

      pred_suc : suc i - 1 ≡ i
      pred_suc = omega arith
  down_step i run false read inv rest =
      let e = extend_down-free read inv in
      elim (Bool-cases (n == (extend_run true (suc i) false run).size)) [
        | inl done ↦
            let fits = (==_iff n _).0 done in
            record {
              found = extend_run true (suc i) false run;
              returns = rw (read, done);
              verdict = inl (
                sym fits,
                omega (arith, e.1),
                omega (arith, e.1, e.2, fits, inv.ends),
                λ j p q. e.0 j p (omega (arith, fits)),
              );
            }
        | inr more ↦
            let longer : run.size + 1 < n = ground (arith, more, e.2, inv.short) in
            let r = rest (extend_run true (suc i) false run) (DownInv-free read inv longer) in
            let pred_suc : suc i - 1 ≡ i = omega arith in
            record {
              found = r.found;
              returns = rw (read, more, pred_suc) r.returns;
              verdict = r.verdict;
            }
      ]

  find_down :
      (i : ℕ) (run : BitsRange)
      → IsBitmap b
      → start < bits_len b
      → DownInv i run
      → Search b n 1 (start + 1) (find_loop i b n true i run)
  unfolding find_loop
  find_down zero run w h inv = record {
    found = empty_range;
    returns = refl;
    verdict = inr (refl, λ c p q f. omega (arith, inv.lower c p q f, inv.short));
  }
  find_down (suc i) run w h inv =
      let (u, read) = bits_get-lt (suc i) w (omega (arith, inv.ends)) in
      down_step i run u read inv (λ next inv'. find_down i next w h inv')

-- On a well-formed bitmap, from a bit in it and for a size above 0: the downward search returns a
-- run of that many clear bits between bit 1 and `start`, or the empty range and there is no such
-- run.
pub bits_find_free-down :
    (b : Bits) (start n : ℕ)
    → IsBitmap b
    → start < bits_len b
    → 0 < n
    → Search b n 1 (start + 1) (bits_find_free b start n true)
unfolding bits_find_free
bits_find_free-down b start n w h pos = rw enters (
    find_down b n start start empty_range w h (record {
      short = pos;
      adjacent = inl refl;
      ends = omega arith;
      free = λ j p q. absurd (omega arith);
      lower = λ c p q f. omega arith;
    }))
  where
    clip : min start (bits_len b) ≡ start
    clip = omega arith

    enters : bits_find_free b start n true ≡ find_loop start b n true start empty_range
    enters = ground (arith, clip)

find_loop-fault :
    (left : ℕ) (b : Bits) (n i : ℕ)
    → 0 < left
    → bits_get b i ≡ none
    → find_loop left b n true i empty_range ≡ none
unfolding find_loop
find_loop-fault zero b n i h e = absurd (omega arith)
find_loop-fault (suc left) b n i h e = rw e

-- On a well-formed bitmap that is not empty, a downward search from its length, or from above,
-- faults: it reads past the last byte.
pub bits_find_free-down_past_end :
    (b : Bits) (start n : ℕ)
    → IsBitmap b
    → 0 < b.size
    → bits_len b ≤ start
    → bits_find_free b start n true ≡ none
unfolding bits_find_free
bits_find_free-down_past_end b start n w some_bytes h = rw enters reads
  where
    clip : min start (bits_len b) ≡ bits_len b
    clip = omega arith

    enters :
        bits_find_free b start n true ≡ find_loop (bits_len b) b n true (bits_len b) empty_range
    enters = ground (arith, clip)

    reads : find_loop (bits_len b) b n true (bits_len b) empty_range ≡ none
    reads =
        find_loop-fault (bits_len b) b n (bits_len b) (omega arith)
          (bits_get-ge (bits_len b) w (le_refl _))
