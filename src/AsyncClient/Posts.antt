-- ===== src/AsyncClient/Posts.antt =====
-- SharedMemClientASync.cpp: what `send_readv` and `send_writev` post.
use qemu_cvbd_shraed_memory.Common.{
  ℕ, suc, ◌≡◌, ◌≤◌, ◌<◌, ◌∙◌, true, false, some, none, [], take, arith, Option-cases, inl, inr, sym,
}
use qemu_cvbd_shraed_memory.Common.Int.{ℤ, pos}
use qemu_cvbd_shraed_memory.Common.Outcome.{ok, stopped, aborted, blocked}
use qemu_cvbd_shraed_memory.Common.Outcome.Keeps.{ok-state}
use qemu_cvbd_shraed_memory.Common.Store.{find, update, find-update, update-update}
use qemu_cvbd_shraed_memory.Iov.{overwrite, iov_to_buf}
use qemu_cvbd_shraed_memory.Iov.Gather.{flat, iov_to_buf_lem}
use qemu_cvbd_shraed_memory.Message.{
  max_data_size, RequestType, Header, WriteRequest, ReadRequest, write_request, read_request,
  req_read, req_write, req_getsize, getsize_request,
}
use qemu_cvbd_shraed_memory.Host.{Env}
use qemu_cvbd_shraed_memory.Aio.{Acb, finish_aio}
use qemu_cvbd_shraed_memory.AsyncClient.{
  Client, send_readv, send_writev, shared_mem_readv, shared_mem_writev, getsize_volume,
}
use qemu_cvbd_shraed_memory.AsyncClient.Replies.{complete-done}

module _ (env : Env) (s : Client env) (offset : ℤ) (a : ℕ) (acb : Acb) where
  -- The header of the next request.
  abbrev pub header_next : RequestType → Header
  header_next type = record { stop = false; type = type; id = suc s.id; volume = s.volume; acb = a }

  abbrev pub read_next : ReadRequest
  read_next = record { header = header_next req_read; offset = offset; size_in_bytes = acb.size }

  -- The array of the request buffer keeps what the copy does not reach.
  abbrev pub write_next : WriteRequest
  write_next = record {
    header = header_next req_write;
    offset = offset;
    size_in_bytes = acb.size;
    bytes = overwrite (env.layout.as_write s.request_msg).bytes 0 (take acb.size (flat acb.qiov));
  }

  pub send_readv-post :
      (shm : env.requests.Shm)
      → find a s.acbs ≡ some acb
      → acb.size ≤ max_data_size
      → env.requests.send s.request_mq (read_request read_next) s.outgoing ≡ some shm
      → send_readv env offset a s
        ≡ ok tt (record s { id = suc s.id; request_msg = read_request read_next; outgoing = shm })
  unfolding send_readv
  send_readv-post shm live small sent = ground arith

  abbrev pub written : Acb
  written = record acb { ret = pos 0; scheduled = suc acb.scheduled; bh = true }

  pub send_writev-post :
      (shm : env.requests.Shm)
      → find a s.acbs ≡ some acb
      → acb.callback ≡ true
      → acb.size ≤ max_data_size
      → env.requests.send s.request_mq (write_request write_next) s.outgoing ≡ some shm
      → send_writev env offset a s
        ≡ ok tt (record s {
          id = suc s.id;
          request_msg = write_request write_next;
          outgoing = shm;
          acbs = update a written s.acbs;
        })
  unfolding send_writev finish_aio
  send_writev-post shm live cb small sent =
      let mid : Acb = record acb { ret = pos acb.size } in
      let t : Client env = record s {
        id = suc s.id;
        request_msg = write_request write_next;
        outgoing = shm;
        acbs = update a mid s.acbs;
      } in
      let stored : find a t.acbs ≡ some mid = find-update a a mid acb s.acbs live ∙ ground arith in
      let gathered = iov_to_buf_lem acb.qiov 0 acb.size in
      let at_start : (iov_to_buf acb.qiov 0 acb.size 0 []).offset ≡ 0 =
        gathered.2.1 (omega arith) in
      ground (
        arith,
        gathered.0,
        at_start,
        complete-done env t a (pos 0) mid stored cb,
        update-update a written mid s.acbs,
      )

  -- A full queue blocks the thread that posts.
  pub send_readv-full :
      find a s.acbs ≡ some acb
      → acb.size ≤ max_data_size
      → env.requests.send s.request_mq (read_request read_next) s.outgoing ≡ none
      → shared_mem_readv env offset a s ≡ stopped blocked
  unfolding shared_mem_readv
  send_readv-full live small full = ground arith

  pub send_writev-full :
      find a s.acbs ≡ some acb
      → acb.size ≤ max_data_size
      → env.requests.send s.request_mq (write_request write_next) s.outgoing ≡ none
      → shared_mem_writev env offset a s ≡ stopped blocked
  unfolding shared_mem_writev
  send_writev-full live small full =
      let gathered = iov_to_buf_lem acb.qiov 0 acb.size in
      let at_start : (iov_to_buf acb.qiov 0 acb.size 0 []).offset ≡ 0 =
        gathered.2.1 (omega arith) in
      ground (arith, gathered.0, at_start)

  -- A request above `max_data_size` bytes fails the assertion, and ends QEMU.
  pub send_too_large :
      find a s.acbs ≡ some acb
      → max_data_size < acb.size
      → (shared_mem_readv env offset a s ≡ stopped aborted)
        × (shared_mem_writev env offset a s ≡ stopped aborted)
  unfolding shared_mem_readv shared_mem_writev
  send_too_large live large = ground arith

module _ (env : Env) (s : Client env) where
  -- The request for the size names no block.
  abbrev pub size_header : Header
  size_header = record {
    stop = false;
    type = req_getsize;
    id = suc s.id;
    volume = s.volume;
    acb = 0;
  }

  abbrev pub after_getsize : env.requests.Shm → Client env
  after_getsize shm = record s {
    id = suc s.id;
    request_msg = getsize_request size_header;
    outgoing = shm;
  }

  getsize-post :
      (shm : env.requests.Shm)
      → env.requests.send s.request_mq (getsize_request size_header) s.outgoing ≡ some shm
      → getsize_volume env s
        ≡ ok ((env.layout.as_getsize_reply s.reply_msg).size_in_bytes) (after_getsize shm)
  unfolding getsize_volume
  getsize-post shm sent = ground arith

  getsize-full :
      env.requests.send s.request_mq (getsize_request size_header) s.outgoing ≡ none
      → getsize_volume env s ≡ stopped blocked
  unfolding getsize_volume
  getsize-full full = ground arith

  -- The size is asked for, or the caller never goes on.
  pub getsize-returns :
      (size : ℤ) (t : Client env)
      → getsize_volume env s ≡ ok size t
      → (shm : env.requests.Shm) × (env.requests.send s.request_mq
            (getsize_request size_header)
            s.outgoing
          ≡ some shm)
        × (t ≡ after_getsize shm)
  getsize-returns size t e =
      elim (Option-cases
        (env.requests.send s.request_mq (getsize_request size_header) s.outgoing)) [
          | inl full ↦ absurd (cc (e, getsize-full full))
          | inr (shm, sent) ↦ (shm, sent, ok-state _ _ _ _ (sym e ∙ getsize-post shm sent))
        ]
