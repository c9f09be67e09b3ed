-- ===== src/Chunk/Bounds.antt =====
-- NonAlignedCopy.h: no `ssize_t` computation overflows.
use qemu_cvbd_shraed_memory.Common.{
  ℕ, zero, suc, ◌+◌, ◌^◌, ◌≤◌, ◌<◌, ◌≡◌, true, false, arith, dec_lt,
}
use qemu_cvbd_shraed_memory.Common.Int.{pos, ◌+ℤ◌, rem, IsInt64}
use qemu_cvbd_shraed_memory.Chunk.{NonAlignedCopy, init, is_valid, remaining, available, next}
use qemu_cvbd_shraed_memory.Chunk.Partition.{
  at, span, span_le, is_valid-at, remaining-at, available-at, next-at,
}

-- The iterator after at most `k` rounds of the loop.
abbrev pub after : ℕ → NonAlignedCopy → NonAlignedCopy
after zero a = a
after (suc k) a = elim (is_valid a) [ true ↦ after k (next a).0 | false ↦ a ]

-- Every intermediate result of `IsValid` and `Next` at `a` is a 64-bit signed integer.
pub record IsSafe (a : NonAlignedCopy) : Type 0 where
  pub end_fits : IsInt64 (a.start +ℤ a.len)
  pub rest_fits : IsInt64 (remaining a)
  pub rem_fits : IsInt64 (rem a.cur a.block_size)
  pub room_fits : IsInt64 (available a)
  pub cur_fits : IsInt64 (next a).0.cur

module _ (s l b : ℕ) (h : 0 < b) (small : b < 2 ^ 63) (fits : s + l < 2 ^ 63) where
  IsSafe-at : (c : ℕ) → c ≤ s + l → IsSafe (at s l b c)
  unfolding ◌+ℤ◌ rem
  IsSafe-at c k = record {
    end_fits = ground arith;
    rest_fits = rw (remaining-at s l b c k) (omega arith);
    rem_fits = omega arith;
    room_fits = rw (available-at s l b c h) (omega arith);
    cur_fits = rw (next-at s l b c h k) (omega (arith, span_le s l b c h k));
  }

  IsSafe-after : (k c : ℕ) → c ≤ s + l → IsSafe (after k (at s l b c))
  IsSafe-after zero c le = IsSafe-at c le
  IsSafe-after (suc k) c le = elim (dec_lt c (s + l)) [
    | yes more ↦
        let valid : is_valid (at s l b c) ≡ true = ground (arith, is_valid-at s l b c) in
        rw (valid, after)
          (rw (next-at s l b c h le) (IsSafe-after k (c + span s l b c) (span_le s l b c h le)))
    | no none_left ↦
        let over : is_valid (at s l b c) ≡ false = ground (arith, is_valid-at s l b c) in
        rw (over, after) (IsSafe-at c le)
  ]

-- For a request that ends below 2^63 and a block size from 1 to 2^63 - 1, no addition, subtraction
-- or remainder of any round overflows.
pub after-IsSafe :
    (s l b k : ℕ)
    → 0 < b
    → b < 2 ^ 63
    → s + l < 2 ^ 63
    → IsSafe (after k (init (pos s) (pos l) (pos b)))
unfolding init
after-IsSafe s l b k h small fits = IsSafe-after s l b h small fits k s (omega arith)
