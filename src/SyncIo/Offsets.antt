-- ===== src/SyncIo/Offsets.antt =====
-- cvbd_syncio.c: where the loops find a piece in the caller's buffer.
use qemu_cvbd_shraed_memory.Common.{ℕ, ◌+◌, ◌-◌, ◌%◌, ◌^◌, ◌≤◌, ◌<◌, ◌≡◌, true, arith}
use qemu_cvbd_shraed_memory.Common.Int.{ℤ, pos, to_u64, to_i64}
use qemu_cvbd_shraed_memory.Cvbd.{in_bytes}
use qemu_cvbd_shraed_memory.SyncIo.{relative_off, in_request}

module _ (sector_size : ℕ) (sector_num nb_sectors : ℤ) (o l : ℕ)
    (first : to_i64 (in_bytes sector_size sector_num) ≡ pos o)
    (bytes : in_bytes sector_size nb_sectors ≡ l) (fits : o + l < 2 ^ 63) where
  first_byte : in_bytes sector_size sector_num ≡ o
  unfolding to_i64
  first_byte = ground arith

  pub relative_off-at :
      (c : ℕ) → o ≤ c → c ≤ o + l → relative_off sector_size (pos c) sector_num ≡ pos (c - o)
  unfolding relative_off to_i64 to_u64
  relative_off-at c low high =
      let q : (c % 2 ^ 64 + (2 ^ 64 - o)) % 2 ^ 64 ≡ c - o = omega arith in
      rw first_byte (ground arith)

  pub in_request-at : (k : ℕ) → k < l → in_request sector_size (pos k) nb_sectors ≡ true
  unfolding in_request to_u64
  in_request-at k small = rw bytes (ground arith)

pub to_i64-small : (n : ℕ) → n < 2 ^ 63 → to_i64 n ≡ pos n
unfolding to_i64
to_i64-small n small = ground arith
