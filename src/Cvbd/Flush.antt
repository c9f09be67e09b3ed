-- ===== src/Cvbd/Flush.antt =====
-- cvbd.c: what `cvbd_co_flush_to_disk` posts.
use qemu_cvbd_shraed_memory.Common.{suc, ◌≡◌, false, true, none, some, [], ◌∷◌, arith}
use qemu_cvbd_shraed_memory.Common.Int.{pos}
use qemu_cvbd_shraed_memory.Common.Outcome.{ok, stopped, blocked}
use qemu_cvbd_shraed_memory.Common.Store.{addresses, update-cons_self}
use qemu_cvbd_shraed_memory.Message.{req_fsync, Header, fsync_request}
use qemu_cvbd_shraed_memory.Host.{Env}
use qemu_cvbd_shraed_memory.Aio.{Acb}
use qemu_cvbd_shraed_memory.AsyncClient.{Client, shared_mem_fsync}
use qemu_cvbd_shraed_memory.Cvbd.{yielded, raw_acb, co_flush_to_disk}

-- The block of a flush that waits for its reply.
abbrev pub waiting_acb : Acb
waiting_acb = record {
  size = 0;
  ret = pos 0;
  qiov = [];
  callback = true;
  scheduled = 0;
  bh = false;
}

module _ (env : Env) (s : Client env) where
  abbrev pub flush_header : Header
  flush_header = record {
    stop = false;
    type = req_fsync;
    id = suc s.id;
    volume = s.volume;
    acb = env.slice_new (addresses s.acbs);
  }

  abbrev pub after_flush : env.requests.Shm → Client env
  after_flush shm = record s {
    id = suc s.id;
    request_msg = fsync_request flush_header;
    outgoing = shm;
    acbs = (env.slice_new (addresses s.acbs), waiting_acb) ∷ s.acbs;
  }

  pub co_flush-post :
      (shm : env.requests.Shm)
      → env.requests.send s.request_mq (fsync_request flush_header) s.outgoing ≡ some shm
      → co_flush_to_disk env s ≡ ok (yielded (env.slice_new (addresses s.acbs))) (after_flush shm)
  unfolding co_flush_to_disk shared_mem_fsync
  co_flush-post shm sent =
      ground (arith, update-cons_self (env.slice_new (addresses s.acbs)) waiting_acb raw_acb s.acbs)

  pub co_flush-full :
      env.requests.send s.request_mq (fsync_request flush_header) s.outgoing ≡ none
      → co_flush_to_disk env s ≡ stopped blocked
  unfolding co_flush_to_disk shared_mem_fsync
  co_flush-full full =
      ground (arith, update-cons_self (env.slice_new (addresses s.acbs)) waiting_acb raw_acb s.acbs)
