-- ===== src/Cvbd/Alignment.antt =====
-- cvbd.c: which requests `is_request_aligned` lets through.
use qemu_cvbd_shraed_memory.Common.{ℕ, ◌+◌, ◌%◌, ◌≡◌, ◌↔◌, true, arith}
use qemu_cvbd_shraed_memory.Common.Int.{ℤ, pos, negsuc, pos_part, neg_part, to_u64}
use qemu_cvbd_shraed_memory.Cvbd.{is_request_aligned, in_bytes, cvbd_blksize}

-- The product wraps at 2^64, which is a multiple of the block size.
in_bytes-mod : (x : ℤ) → (in_bytes 512 x % cvbd_blksize ≡ 0) ↔ ((pos_part x + neg_part x) % 8 ≡ 0)
unfolding to_u64
in_bytes-mod (pos n) = (omega arith, omega arith)
in_bytes-mod (negsuc n) = (omega arith, omega arith)

-- With sectors of 512 bytes, exactly the requests whose first sector and number of sectors are
-- multiples of 8 pass, negative ones and those whose product wraps included.
pub is_request_aligned_iff :
    (sector_size : ℕ) (sector_num nb_sectors : ℤ)
    → sector_size ≡ 512
    → (is_request_aligned sector_size sector_num nb_sectors ≡ true) ↔ (
        ((pos_part sector_num + neg_part sector_num) % 8 ≡ 0)
        × ((pos_part nb_sectors + neg_part nb_sectors) % 8 ≡ 0))
unfolding is_request_aligned
is_request_aligned_iff sector_size sector_num nb_sectors e =
    rw e (ground (arith, in_bytes-mod sector_num, in_bytes-mod nb_sectors))
