-- ===== src/Mem/Move.antt =====
-- Moving bytes within one memory, also where the two ranges overlap.
use brutal.Base.{
  ℕ, zero, suc, ◌+◌, ◌-◌, ◌≤◌, ◌&&◌, ◌≡◌, ap, ◌∙◌, ◌⊎◌, inl, inr, ltb, leb, if◌then◌else◌,
  Bool-cases, arith,
}
use brutal.Mem.{Bytes, store, copy_up, copy_down, mem_cpy, mem_move, set_up, mem_set}

-- The memory after `n` bytes have gone from `src` to `dest` all at once.
abbrev pub moved : ℕ → ℕ → ℕ → Bytes → Bytes
moved dest src n m b = if leb dest b && ltb b (dest + n) then m (src + (b - dest)) else m b

copy_down_lem :
    (dest src i : ℕ) (m : Bytes) (b : ℕ)
    → src ≤ dest
    → copy_down dest src i m b ≡ moved dest src i m b
unfolding copy_down
copy_down_lem dest src zero m b h = ground arith
copy_down_lem dest src (suc i) m b h =
    let ih = copy_down_lem dest src i (store m (dest + i) (m (src + i))) b h in
    let at = λ (e : b - dest ≡ i). ap (λ k. m (src + k)) e in rw ih (ground (arith, at))

copy_up_lem :
    (dest src rounds i : ℕ) (m : Bytes) (b : ℕ)
    → (dest ≤ src) ⊎ (src + (i + rounds) ≤ dest)
    → copy_up dest src rounds i m b
      ≡ (if leb (dest + i) b && ltb b (dest + (i + rounds)) then m (src + (b - dest)) else m b)
unfolding copy_up
copy_up_lem dest src zero i m b h = ground arith
copy_up_lem dest src (suc rounds) i m b h =
    let ih =
      copy_up_lem dest src rounds (suc i) (store m (dest + i) (m (src + i))) b (ground arith) in
    let at = λ (e : b - dest ≡ i). ap (λ k. m (src + k)) e in rw ih (ground (arith, at))

-- `mem_move` leaves at every address what moving all the bytes at once would leave, whether or not
-- the ranges overlap.
pub mem_move-moved :
    (dest src n : ℕ) (m : Bytes) (b : ℕ) → mem_move dest src n m b ≡ moved dest src n m b
unfolding mem_move
mem_move-moved dest src n m b = elim (Bool-cases (ltb dest src)) [
  | inl up ↦ rw up (copy_up_lem dest src n 0 m b (inl (ground arith)) ∙ ground arith)
  | inr level ↦ elim (Bool-cases (ltb src dest)) [
    | inl down ↦ rw (level, down) (copy_down_lem dest src n m b (ground arith))
    | inr same ↦
        rw (level, same)
          (let e : dest ≡ src = ground arith in
            let at = λ (k : dest + (b - dest) ≡ b). ap m k in rw (← e) (ground (arith, at)))
  ]
]

-- Where the copy goes down, or the source ends before the destination starts, `mem_cpy` leaves the
-- same as `mem_move`.
mem_cpy-mem_move :
    (dest src n : ℕ) (m : Bytes) (b : ℕ)
    → (dest ≤ src) ⊎ (src + n ≤ dest)
    → mem_cpy dest src n m b ≡ mem_move dest src n m b
unfolding mem_cpy
mem_cpy-mem_move dest src n m b h =
    let e : src + (0 + n) ≡ src + n = omega arith in
    let h' : (dest ≤ src) ⊎ (src + (0 + n) ≤ dest) = rw e h in
    rw mem_move-moved (copy_up_lem dest src n 0 m b h' ∙ ground arith)

-- `mem_set` writes the byte at every address of the range and at no other.
set_up_lem :
    (s c rounds i : ℕ) (m : Bytes) (b : ℕ)
    → set_up s c rounds i m b ≡ (if leb (s + i) b && ltb b (s + (i + rounds)) then c else m b)
unfolding set_up
set_up_lem s c zero i m b = ground arith
set_up_lem s c (suc rounds) i m b =
    rw (set_up_lem s c rounds (suc i) (store m (s + i) c) b) (ground arith)

mem_set_lem :
    (s c n : ℕ) (m : Bytes) (b : ℕ)
    → mem_set s c n m b ≡ (if leb s b && ltb b (s + n) then c else m b)
unfolding mem_set
mem_set_lem s c n m b = set_up_lem s c n 0 m b ∙ ground arith
