-- ===== src/Ds/Bits/Find.antt =====
-- The upward search of `bits_find_free`, in sources/libs/brutal-ds/bits.c.
use brutal.Base.{
  ℕ, zero, suc, ◌+◌, ◌-◌, ◌≤◌, ◌<◌, min, Bool, Bool-cases, true, false, Option, some, ◌≡◌, refl,
  arith, ◌==◌, ==_iff, ◌⊎◌, inl, inr, ap, sym,
}
use brutal.Ds.Bits.{
  Bits, BitsRange, empty_range, bits_get, bits_len, extend_run, find_loop, bits_find_free,
}
use brutal.Ds.Bits.Laws.{IsBitmap, bits_get-lt}

-- The `n` bits from `base` on are in the bitmap and clear.
abbrev pub FreeRun : Bits → ℕ → ℕ → Type 0
FreeRun b base n = (j : ℕ) → base ≤ j → j < base + n → bits_get b j ≡ some false

-- No run of `n` clear bits lies in `[lo, hi)`.
abbrev pub NoFreeRun : Bits → ℕ → ℕ → ℕ → Type 0
NoFreeRun b n lo hi = (c : ℕ) → lo ≤ c → c + n ≤ hi → ¬ FreeRun b c n

-- The search in `[lo, hi)` returns a free run of the wanted size, or the empty range and there
-- is none.
pub record Search (b : Bits) (n lo hi : ℕ) (result : Option BitsRange) : Type 0 where
  pub found : BitsRange
  pub returns : result ≡ some found
  pub verdict :
      ((found.size ≡ n) × (lo ≤ found.base) × (found.base + n ≤ hi) × FreeRun b found.base n)
      ⊎ ((found ≡ empty_range) × NoFreeRun b n lo hi)

module _ (b : Bits) (n lo hi : ℕ) where
  -- What the upward loop knows at bit `i`: the run ends before `i`, is free and too short, and
  -- every run in the window starts at it or later.
  record UpInv (i : ℕ) (run : BitsRange) : Type 0 where
    short : run.size < n
    adjacent : (run.size ≡ 0) ⊎ (run.base + run.size ≡ i)
    above : (run.size ≡ 0) ⊎ (lo ≤ run.base)
    window : lo ≤ i
    free : FreeRun b run.base run.size
    later : (c : ℕ) → lo ≤ c → c + n ≤ hi → FreeRun b c n → i ≤ c + run.size

  UpInv-used :
      {i : ℕ} {run : BitsRange}
      → bits_get b i ≡ some true
      → UpInv i run
      → UpInv (i + 1) (extend_run false i true run)
  unfolding extend_run
  UpInv-used {i} {run} read inv = record {
    short = omega (arith, inv.short);
    adjacent = inl refl;
    above = inl refl;
    window = omega (arith, inv.window);
    free = λ j p q. absurd (omega arith);
    later = λ c p q f. ground (arith, inv.later c p q f, inv.short, f i, read);
  }

  extend_up-free :
      {i : ℕ} {run : BitsRange}
      → bits_get b i ≡ some false
      → UpInv i run
      → let next = extend_run false i false run in
        FreeRun b next.base next.size
        × (next.base + next.size ≡ i + 1)
        × (lo ≤ next.base)
        × (next.size ≡ run.size + 1)
  unfolding extend_run
  extend_up-free {i} {run} read inv = (
    λ j p q. ground (arith, inv.free j, inv.adjacent, read, at j),
    ground (arith, inv.adjacent),
    ground (arith, inv.above, inv.window),
    refl,
  )
    where
      at : (j : ℕ) → j ≡ i → bits_get b j ≡ bits_get b i
      at j e = ap (bits_get b) e

  UpInv-free :
      {i : ℕ} {run : BitsRange}
      → bits_get b i ≡ some false
      → UpInv i run
      → run.size + 1 < n
      → UpInv (i + 1) (extend_run false i false run)
  UpInv-free {i} {run} read inv h =
      let e = extend_up-free read inv in
      record {
        short = omega (arith, e.3, h);
        adjacent = inr e.1;
        above = inr e.2;
        window = omega (arith, inv.window);
        free = e.0;
        later = λ c p q f. omega (arith, inv.later c p q f, e.3);
      }

  up_step :
      (left i : ℕ) (run : BitsRange) (u : Bool)
      → bits_get b i ≡ some u
      → UpInv i run
      → i < hi
      → ((next : BitsRange)
          → UpInv (i + 1) next
          → Search b n lo hi (find_loop left b n false (i + 1) next))
      → Search b n lo hi (find_loop (suc left) b n false i run)
  unfolding find_loop
  up_step left i run true read inv h rest =
      let r = rest (extend_run false i true run) (UpInv-used read inv) in
      record {
        found = r.found;
        returns = ground (arith, r.returns, read, inv.short, reset i run);
        verdict = r.verdict;
      }
    where
      reset : (k : ℕ) (q : BitsRange) → extend_run false k true q ≡ empty_range
      reset k q = unfold extend_run in refl
  up_step left i run false read inv h rest =
      elim (Bool-cases (n == (extend_run false i false run).size)) [
        | inl done ↦
            let e = extend_up-free read inv in
            let fits = (==_iff n _).0 done in
            record {
              found = extend_run false i false run;
              returns = rw (read, done);
              verdict =
                  inl (
                    sym fits,
                    e.2,
                    omega (arith, e.1, fits),
                    λ j p q. e.0 j p (omega (arith, fits)),
                  );
            }
        | inr more ↦
            let e = extend_up-free read inv in
            let longer : run.size + 1 < n = ground (arith, more, e.3, inv.short) in
            let r = rest (extend_run false i false run) (UpInv-free read inv longer) in
            record { found = r.found; returns = rw (read, more) r.returns; verdict = r.verdict }
      ]

  find_up :
      (left i : ℕ) (run : BitsRange)
      → IsBitmap b
      → hi ≡ bits_len b
      → i + left ≡ hi
      → UpInv i run
      → Search b n lo hi (find_loop left b n false i run)
  unfolding find_loop
  find_up zero i run w len e inv = record {
    found = empty_range;
    returns = refl;
    verdict = inr (refl, λ c p q f. omega (arith, inv.later c p q f, inv.short));
  }
  find_up (suc left) i run w len e inv =
      let (u, read) = bits_get-lt i w (omega arith) in
      up_step left i run u read inv (omega arith)
        (λ run' inv'. find_up left (i + 1) run' w len (omega arith) inv')

-- On a well-formed bitmap that is not empty, and for a size above 0: the upward search returns a
-- run of that many clear bits between `start` and the end of the bitmap, or the empty range and
-- there is no such run.
pub bits_find_free-up :
    (b : Bits) (start n : ℕ)
    → IsBitmap b
    → 0 < b.size
    → 0 < n
    → Search b n (min start (bits_len b)) (bits_len b) (bits_find_free b start n false)
unfolding bits_find_free
bits_find_free-up b start n w some_bytes pos = rw enters (
    find_up b n (min start (bits_len b)) (bits_len b) (bits_len b - min start (bits_len b))
      (min start (bits_len b)) empty_range w refl (omega arith)
      (record {
        short = pos;
        adjacent = inl refl;
        above = inl refl;
        window = omega arith;
        free = λ j p q. absurd (omega arith);
        later = λ c p q f. omega arith;
      }))
  where
    enters :
        bits_find_free b start n false
        ≡ find_loop
            (bits_len b - min start (bits_len b))
            b
            n
            false
            (min start (bits_len b))
            empty_range
    enters = ground arith
