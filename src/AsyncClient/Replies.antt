-- ===== src/AsyncClient/Replies.antt =====
-- SharedMemClientASync.cpp: what the reply thread does with each reply.
use qemu_cvbd_shraed_memory.Common.{
  ℕ, suc, ◌+◌, ◌≡◌, ◌≢◌, ◌≤◌, refl, ◌∙◌, true, false, some, length, take, arith,
}
use qemu_cvbd_shraed_memory.Common.Int.{ℤ, pos}
use qemu_cvbd_shraed_memory.Common.Outcome.{ok}
use qemu_cvbd_shraed_memory.Common.Store.{find, update, find-update, update-update}
use qemu_cvbd_shraed_memory.Iov.{iov_from_buf}
use qemu_cvbd_shraed_memory.Iov.Gather.{flat}
use qemu_cvbd_shraed_memory.Iov.Scatter.{copy, iov_from_buf_lem}
use qemu_cvbd_shraed_memory.Message.{
  ReadReply, read_reply, req_read, FsyncReply, fsync_reply, req_fsync, GetSizeReply, getsize_reply,
  req_getsize,
}
use qemu_cvbd_shraed_memory.Host.{Env}
use qemu_cvbd_shraed_memory.Aio.{Acb, finish_aio}
use qemu_cvbd_shraed_memory.AsyncClient.{
  Client, complete, read_done, fsync_done, co_reply, co_reply_round, signal_completion,
}

pub complete-done :
    (env : Env) (s : Client env) (a : ℕ) (result : ℤ) (acb : Acb)
    → find a s.acbs ≡ some acb
    → acb.callback ≡ true
    → complete env a result s ≡ ok tt (record s { acbs = update a (finish_aio result acb) s.acbs })
unfolding complete
complete-done env s a result acb live cb = ground arith

module _ (env : Env) (s : Client env) (r : ReadReply) (acb : Acb) (shm : env.replies.Shm) where
  -- The block of the request after its reply.
  abbrev pub filled : Acb
  filled = record acb {
    qiov = (iov_from_buf acb.qiov 0 r.bytes r.size_in_bytes 0).iov;
    ret = pos 0;
    scheduled = suc acb.scheduled;
    bh = true;
  }

  abbrev received : Client env
  received = record s { reply_msg = read_reply r; incoming = shm }

  read_done-filled :
      r.header.acb ≢ 0
      → find r.header.acb s.acbs ≡ some acb
      → acb.callback ≡ true
      → r.size_in_bytes ≤ length r.bytes
      → read_done env r.header.acb received
        ≡ ok tt (record received { acbs = update r.header.acb filled s.acbs })
  unfolding read_done finish_aio
  read_done-filled nz live cb fits =
      let got = iov_from_buf acb.qiov 0 r.bytes r.size_in_bytes 0 in
      let mid : Acb = record acb { qiov = got.iov; ret = pos r.size_in_bytes } in
      let t : Client env = record received { acbs = update r.header.acb mid s.acbs } in
      let at_start : got.offset ≡ 0 =
        (iov_from_buf_lem acb.qiov 0 r.bytes r.size_in_bytes fits).2.1 (omega arith) in
      let stored : find r.header.acb t.acbs ≡ some mid =
        find-update r.header.acb r.header.acb mid acb s.acbs live ∙ ground arith in
      ground (
        arith,
        env.layout.as_read_reply_lem r,
        at_start,
        complete-done env t r.header.acb (pos 0) mid stored cb,
        update-update r.header.acb filled mid s.acbs,
      )

  pub read_reply-round :
      env.replies.receive s.reply_mq s.incoming ≡ some (read_reply r, shm)
      → r.header.stop ≡ false
      → r.header.type ≡ req_read
      → r.header.acb ≢ 0
      → find r.header.acb s.acbs ≡ some acb
      → acb.callback ≡ true
      → r.size_in_bytes ≤ length r.bytes
      → co_reply_round env s
        ≡ ok true (record received { acbs = update r.header.acb filled s.acbs })
  unfolding co_reply_round co_reply
  read_reply-round e st ty nz live cb fits = ground (arith, read_done-filled nz live cb fits)

pub fsync_reply-round :
    (env : Env) (s : Client env) (r : FsyncReply) (acb : Acb) (shm : env.replies.Shm)
    → env.replies.receive s.reply_mq s.incoming ≡ some (fsync_reply r, shm)
    → r.header.stop ≡ false
    → r.header.type ≡ req_fsync
    → r.header.acb ≢ 0
    → find r.header.acb s.acbs ≡ some acb
    → acb.callback ≡ true
    → co_reply_round env s
      ≡ ok true (record s {
        reply_msg = fsync_reply r;
        incoming = shm;
        acbs = update r.header.acb (finish_aio r.err (record acb { ret = r.err })) s.acbs;
      })
unfolding co_reply_round co_reply fsync_done
fsync_reply-round env s r acb shm got goes type nn live cb =
    let a = r.header.acb in
    let mid : Acb = record acb { ret = r.err } in
    let t : Client env = record s {
      reply_msg = fsync_reply r;
      incoming = shm;
      acbs = update a mid s.acbs;
    } in
    let stored : find a t.acbs ≡ some mid = find-update a a mid acb s.acbs live ∙ ground arith in
    ground (
      arith,
      env.layout.as_fsync_reply_lem r,
      complete-done env t a r.err mid stored cb,
      update-update a (finish_aio r.err mid) mid s.acbs,
    )

pub getsize_reply-round :
    (env : Env) (s : Client env) (r : GetSizeReply) (shm : env.replies.Shm)
    → env.replies.receive s.reply_mq s.incoming ≡ some (getsize_reply r, shm)
    → r.header.stop ≡ false
    → r.header.type ≡ req_getsize
    → co_reply_round env s
      ≡ ok true (record s { reply_msg = getsize_reply r; incoming = shm; waiting = false })
unfolding co_reply_round co_reply signal_completion
getsize_reply-round env s r shm got goes type = ground arith

-- A read reply for a live control block with a callback, whose array holds as many bytes as it
-- says, completes the request with result 0, however many bytes it brings: they are written over
-- the start of the request's vector, the rest of the vector stays as it was, and the coroutine is
-- woken once.
pub co_reply-read :
    (env : Env) (s : Client env) (r : ReadReply) (acb : Acb) (shm : env.replies.Shm)
    → env.replies.receive s.reply_mq s.incoming ≡ some (read_reply r, shm)
    → r.header.stop ≡ false
    → r.header.type ≡ req_read
    → r.header.acb ≢ 0
    → find r.header.acb s.acbs ≡ some acb
    → acb.callback ≡ true
    → r.size_in_bytes ≤ length r.bytes
    → (s' : Client env) × (acb' : Acb) × (co_reply_round env s ≡ ok true s')
      × (find r.header.acb s'.acbs ≡ some acb')
      × (acb'.ret ≡ pos 0)
      × (flat acb'.qiov ≡ copy (flat acb.qiov) (take r.size_in_bytes r.bytes))
      × (acb'.scheduled ≡ acb.scheduled + 1)
co_reply-read env s r acb shm e st ty nz live cb fits =
    let done = filled env s r acb shm in
    (
      record s { reply_msg = read_reply r; incoming = shm; acbs = update r.header.acb done s.acbs },
      done,
      read_reply-round env s r acb shm e st ty nz live cb fits,
      find-update r.header.acb r.header.acb done acb s.acbs live ∙ ground arith,
      refl,
      (iov_from_buf_lem acb.qiov 0 r.bytes r.size_in_bytes fits).0,
      omega arith,
    )
