-- ===== src/SyncIo.antt =====
-- cvbd_syncio.c: the synchronous block driver, which cuts each request into messages. Its
-- `is_request_aligned` is that of cvbd.c.
pub mod Lists
pub mod Offsets
pub mod Writing
pub mod Reading
pub mod Lifetime
mod Tests
use qemu_cvbd_shraed_memory.Common.{
  ℕ, zero, suc, ◌+◌, ◌-◌, ◌*◌, ◌%◌, ◌^◌, Bool, true, false, not, Option, none, some, List, [],
  length, drop, ltb,
}
use qemu_cvbd_shraed_memory.Common.Int.{ℤ, pos, to_u64, to_i64}
use qemu_cvbd_shraed_memory.Common.Outcome.{
  Outcome, ok, thrown, stopped, Stop, aborted, crashed, blocked, M, ◌>>=◌, ◌>>◌, pure, stop, assert,
  branch,
}
use qemu_cvbd_shraed_memory.Chunk.{NonAlignedCopy, Piece, init, is_valid, next}
use qemu_cvbd_shraed_memory.Iov.{Bytes, overwrite}
use qemu_cvbd_shraed_memory.Message.{Layout}
use qemu_cvbd_shraed_memory.Aio.{minus_eio, minus_einval}
use qemu_cvbd_shraed_memory.Cvbd.{in_bytes, is_request_aligned}
use qemu_cvbd_shraed_memory.SyncClient.{
  Port, SharedMemClient, getsize_volume, shared_mem_read, shared_mem_write,
}

abbrev pub msgq_max_size : ℕ
msgq_max_size = 4096 * 128

-- `retOff - (sector_num * BDRV_SECTOR_SIZE)`, computed without sign, as the `ssize_t` that it is
-- stored in.
unfoldable pub relative_off : ℕ → ℤ → ℤ → ℤ
relative_off sector_size ret_off sector_num =
    to_i64 (to_u64 ret_off + (2 ^ 64 - in_bytes sector_size sector_num))

-- `relativeOff < nb_sectors * BDRV_SECTOR_SIZE`: the comparison is without sign.
unfoldable pub in_request : ℕ → ℤ → ℤ → Bool
in_request sector_size relative nb_sectors = ltb (to_u64 relative) (in_bytes sector_size nb_sectors)

-- `NonAlignedCopyInit(&a, offset, size, MSGQ_MAX_SIZE)`.
unfoldable pub chunks : ℕ → ℤ → ℤ → NonAlignedCopy
chunks sector_size sector_num nb_sectors =
    init (to_i64 (in_bytes sector_size sector_num)) (to_i64 (in_bytes sector_size nb_sectors))
      (pos msgq_max_size)

module _ (port : Port) (layout : Layout) (sector_size : ℕ) (sector_num nb_sectors : ℤ) where
  -- The body of `cvbd_write`'s loop for one piece; a failed write ends at `assert(0)`.
  unfoldable pub write_piece : Bytes → Piece → M (SharedMemClient port layout) (Unit {0})
  write_piece buffer piece = do
    let relative = relative_off sector_size piece.offset sector_num
    assert (in_request sector_size relative nb_sectors)
    done ←
        (shared_mem_write port layout (drop (to_u64 relative) buffer) (to_u64 piece.size)
          piece.offset)
    assert done

  -- The loop, for fewer than `fuel` pieces.
  unfoldable pub write_loop :
      ℕ → Bytes → NonAlignedCopy → M (SharedMemClient port layout) (Unit {0})
  write_loop zero buffer a = stop blocked
  write_loop (suc fuel) buffer a =
      branch (is_valid a) (write_piece buffer (next a).1 >> write_loop fuel buffer (next a).0)
        (pure tt)

  -- The body of `cvbd_read`'s loop: the buffer after one piece.
  unfoldable pub read_piece : Bytes → Piece → M (SharedMemClient port layout) Bytes
  read_piece buffer piece = do
    let relative = relative_off sector_size piece.offset sector_num
    assert (in_request sector_size relative nb_sectors)
    got ← shared_mem_read port layout (to_u64 piece.size) piece.offset
    let bytes : Bytes = elim got [ none ↦ [] | some b ↦ b ]
    assert (elim got [ none ↦ false | some _ ↦ true ])
    branch (ltb (length buffer) (to_u64 relative + length bytes)) (stop crashed) (pure tt)
    pure (overwrite buffer (to_u64 relative) bytes)

  unfoldable pub read_loop : ℕ → Bytes → NonAlignedCopy → M (SharedMemClient port layout) Bytes
  read_loop zero buffer a = stop blocked
  read_loop (suc fuel) buffer a =
      branch (is_valid a) (read_piece buffer (next a).1 >>= λ b. read_loop fuel b (next a).0)
        (pure buffer)

  -- `cvbd_write`. `err` is `true` whenever the loop ends.
  unfoldable pub cvbd_write : Bytes → M (SharedMemClient port layout) ℤ
  cvbd_write buffer =
      branch (not (is_request_aligned sector_size sector_num nb_sectors)) (pure minus_einval) (do
        write_loop (suc (in_bytes sector_size nb_sectors)) buffer
            (chunks sector_size sector_num nb_sectors)
        pure (pos 0))

  -- `cvbd_read`: the result and the buffer.
  unfoldable pub cvbd_read : Bytes → M (SharedMemClient port layout) (ℤ × Bytes)
  cvbd_read buffer =
      branch (not (is_request_aligned sector_size sector_num nb_sectors))
        (pure (minus_einval, buffer))
        (do
          filled ←
              (read_loop (suc (in_bytes sector_size nb_sectors)) buffer
                (chunks sector_size sector_num nb_sectors))
          pure (pos 0, filled))

-- `cvbd_getlength`: the size goes through an unsigned variable.
unfoldable pub cvbd_getlength : (port : Port) (layout : Layout) → M (SharedMemClient port layout) ℤ
cvbd_getlength port layout = do size ← getsize_volume port layout; pure (to_i64 (to_u64 size))
