-- ===== src/Cvbd.antt =====
-- cvbd.c: the asynchronous block driver. A coroutine function is its part before
-- `qemu_coroutine_yield` and its part behind it.
pub mod Alignment
pub mod Requests
pub mod Flush
pub mod Returns
pub mod Woken
pub mod Lifetime
mod Tests
use qemu_cvbd_shraed_memory.Common.{
  ℕ, ◌*◌, ◌%◌, ◌^◌, Bool, true, false, not, ◌&&◌, List, [], ◌∷◌, ◌==◌, if◌then◌else◌,
}
use qemu_cvbd_shraed_memory.Common.Int.{ℤ, pos, to_u64, to_i64}
use qemu_cvbd_shraed_memory.Common.Outcome.{
  Outcome, ok, thrown, stopped, Stop, aborted, crashed, M, ◌>>=◌, ◌>>◌, pure, get, put, stop,
  assert, branch,
}
use qemu_cvbd_shraed_memory.Common.Store.{addresses, free}
use qemu_cvbd_shraed_memory.Iov.{Bytes}
use qemu_cvbd_shraed_memory.Host.{Env}
use qemu_cvbd_shraed_memory.Aio.{Acb, minus_einval}
use qemu_cvbd_shraed_memory.AsyncClient.{
  Client, deref, store_acb, shared_mem_writev, shared_mem_readv, shared_mem_fsync,
}

-- `CVBD_BLKSIZE`.
abbrev pub cvbd_blksize : ℕ
cvbd_blksize = 4096

-- `sectors * BDRV_SECTOR_SIZE`: the product of an integer and an unsigned 64-bit constant.
abbrev pub in_bytes : ℕ → ℤ → ℕ
in_bytes sector_size sectors = to_u64 sectors * sector_size % 2 ^ 64

unfoldable pub is_request_aligned : ℕ → ℤ → ℤ → Bool
is_request_aligned sector_size sector_num nb_sectors =
    in_bytes sector_size sector_num % cvbd_blksize == 0
    && in_bytes sector_size nb_sectors % cvbd_blksize == 0

-- A coroutine function has returned, or waits at its `yield` for the block at this address.
pub data Started : Type 0 where
  returned : ℤ → Started
  yielded : ℕ → Started

-- What `g_slice_new` hands out, before its fields are set.
abbrev pub raw_acb : Acb
raw_acb = record { size = 0; ret = pos 0; qiov = []; callback = false; scheduled = 0; bh = false }

module _ (env : Env) where
  unfoldable pub new_acb : M (Client env) ℕ
  new_acb s =
      let a = env.slice_new (addresses s.acbs) in ok a (record s { acbs = (a, raw_acb) ∷ s.acbs })

  unfoldable pub set_acb : ℕ → ℕ → List Bytes → M (Client env) (Unit {0})
  unfolding store_acb
  set_acb a size qiov =
      store_acb env a (record {
        size = size;
        ret = pos 0;
        qiov = qiov;
        callback = true;
        scheduled = 0;
        bh = false;
      })

  -- `cvbd_co_rw` up to its `yield`. The misaligned request returns past the `g_slice_free`.
  unfoldable pub co_rw : ℤ → ℤ → List Bytes → Bool → M (Client env) Started
  unfolding new_acb set_acb
  co_rw sector_num nb_sectors qiov write = do
    let size = in_bytes env.bdrv_sector_size nb_sectors
    let offset = to_i64 (in_bytes env.bdrv_sector_size sector_num)
    a ← new_acb
    branch (not (is_request_aligned env.bdrv_sector_size sector_num nb_sectors))
        (pure (returned minus_einval))
        (do
          set_acb a size qiov
          rc ← branch write (shared_mem_writev env offset a) (shared_mem_readv env offset a)
          assert rc
          pure (yielded a))

  unfoldable pub co_readv : ℤ → ℤ → List Bytes → M (Client env) Started
  unfolding co_rw
  co_readv sector_num nb_sectors qiov = co_rw sector_num nb_sectors qiov false

  unfoldable pub co_writev : ℤ → ℤ → List Bytes → M (Client env) Started
  unfolding co_rw
  co_writev sector_num nb_sectors qiov = co_rw sector_num nb_sectors qiov true

  -- `cvbd_co_flush_to_disk` up to its `yield`. `rc` is a `bool`, so `rc < 0` never holds.
  unfoldable pub co_flush_to_disk : M (Client env) Started
  unfolding new_acb set_acb
  co_flush_to_disk = do a ← new_acb; set_acb a 0 []; _ ← shared_mem_fsync env a; pure (yielded a)

  -- The rest of each of these functions: what the coroutine returns once it is entered again.
  unfoldable pub resume : ℕ → M (Client env) ℤ
  unfolding deref
  resume a = do acb ← deref env a; s ← get; put (record s { acbs = free a s.acbs }); pure acb.ret

  -- `cvbd_complete_aio`, the bottom half. `qemu_bh_delete` reads the object that `bh` points to.
  unfoldable pub complete_aio : ℕ → M (Client env) ℤ
  unfolding deref store_acb resume
  complete_aio a = do
    acb ← deref env a
    branch acb.bh (pure tt) (stop crashed)
    store_acb env a (record acb { bh = false })
    resume a
