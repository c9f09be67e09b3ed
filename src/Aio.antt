-- ===== src/Aio.antt =====
-- cvbd.c: the control block of one asynchronous request, and its completion. `CVBDAIOCB` is
-- declared in cvbd.h, which is not in the repository: it is the fields that the sources use.
use qemu_cvbd_shraed_memory.Common.{ℕ, suc, Bool, true, ◌||◌, List, if◌then◌else◌}
use qemu_cvbd_shraed_memory.Common.Int.{ℤ, pos, negsuc, eqb_ℤ, ltb_ℤ}
use qemu_cvbd_shraed_memory.Iov.{Bytes}

-- `qiov` is the request's vector (empty for a null pointer). `callback` tells whether a callback is
-- set: the only one that the program has is `cvbd_finish_aio`. `scheduled` counts the bottom halves
-- made for the block, and `bh` tells whether the field of this name points to one.
pub record Acb : Type 0 where
  pub size : ℕ
  pub ret : ℤ
  pub qiov : List Bytes
  pub callback : Bool
  pub scheduled : ℕ
  pub bh : Bool

-- -EIO and -EINVAL.
abbrev pub minus_eio : ℤ
minus_eio = negsuc 4

abbrev pub minus_einval : ℤ
minus_einval = negsuc 21

-- `cvbd_finish_aio`: the result for the coroutine, which is woken.
unfoldable pub finish_aio : ℤ → Acb → Acb
finish_aio result acb =
    let settled =
      if eqb_ℤ result (pos 0) || eqb_ℤ acb.ret (pos acb.size)
      then pos 0
      else if ltb_ℤ result (pos 0)
      then result
      else minus_eio in
    record acb { ret = settled; scheduled = suc acb.scheduled; bh = true }
