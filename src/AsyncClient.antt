-- ===== src/AsyncClient.antt =====
-- SharedMemClientASync.cpp: the client that QEMU's block driver posts requests with. The state is
-- what the client's methods and its reply thread share: the object, the two queues, the request
-- blocks by address, and the counter `id`, which is taken not to pass the range of `int`.
pub mod Replies
pub mod Posts
pub mod Waiting
pub mod Making
pub mod Blocking
pub mod Ending
mod Tests
use qemu_cvbd_shraed_memory.Common.{
  ℕ, zero, suc, ◌≡◌, Bool, true, false, not, Option, none, some, List, [], length, leb, ◌==◌,
  if◌then◌else◌,
}
use qemu_cvbd_shraed_memory.Common.Int.{ℤ, pos, eqb_ℤ}
use qemu_cvbd_shraed_memory.Common.Outcome.{
  Outcome, ok, thrown, stopped, Stop, aborted, crashed, blocked, M, ◌>>=◌, ◌>>◌, pure, get, put,
  stop, throw, assert, catch, branch, terminate,
}
use qemu_cvbd_shraed_memory.Common.Store.{Store, find, update}
use qemu_cvbd_shraed_memory.Iov.{Bytes, overwrite, iov_to_buf, iov_from_buf}
use qemu_cvbd_shraed_memory.Message.{
  max_data_size, RequestType, req_read, req_write, req_open, req_close, req_getsize, req_fsync,
  Header, WriteRequest, ReadRequest, Request, write_request, read_request, open_request,
  close_request, getsize_request, fsync_request, Reply, reply_header, init_write, init_read,
  init_open,
}
use qemu_cvbd_shraed_memory.Host.{Env}
use qemu_cvbd_shraed_memory.Aio.{Acb, finish_aio}

module _ (env : Env) where
  open env use {requests, replies, layout}

  -- `waiting` tells that a thread waits on `io_complete_`.
  pub record Client : Type 0 where
    pub request_mq : ℕ
    pub reply_mq : ℕ
    pub request_msg : Request
    pub reply_msg : Reply
    pub volume_name : Bytes
    pub volume : ℕ
    pub id : ℕ
    pub waiting : Bool
    pub outgoing : requests.Shm
    pub incoming : replies.Shm
    pub acbs : Store Acb

  -- `Header(false, type, ++id, volume_, acb)`.
  unfoldable pub new_header : RequestType → ℕ → M Client Header
  new_header type acb s =
      ok (record { stop = false; type = type; id = suc s.id; volume = s.volume; acb = acb })
        (record s { id = suc s.id })

  -- `request_mq_->send(request_msg_.get(), …)`, after the request was written to the buffer.
  unfoldable pub post : Request → M Client (Unit {0})
  post m s = elim (requests.send s.request_mq m s.outgoing) [
    | none ↦ stopped blocked
    | some shm ↦ ok tt (record s { request_msg = m; outgoing = shm })
  ]

  unfoldable pub deref : ℕ → M Client Acb
  deref a s = elim (find a s.acbs) [ none ↦ stopped crashed | some acb ↦ ok acb s ]

  unfoldable pub store_acb : ℕ → Acb → M Client (Unit {0})
  store_acb a acb s = ok tt (record s { acbs = update a acb s.acbs })

  -- `acb->callback(ret, acb)`.
  unfoldable pub complete : ℕ → ℤ → M Client (Unit {0})
  unfolding deref store_acb
  complete a result = do acb ← deref a; assert acb.callback; store_acb a (finish_aio result acb)

  -- The request of `send_open`: a copy past the end of an array is undefined behaviour.
  unfoldable pub open_request_of : Header → M Client Request
  open_request_of header s =
      elim (init_open (record (layout.as_open s.request_msg) { header = header }) s.volume_name
        s.volume_name) [ none ↦ stopped crashed | some m ↦ ok (open_request m) s ]

  -- `send_open` up to WAIT_TO_COMPLETE.
  unfoldable pub post_open : M Client (Unit {0})
  unfolding new_header post open_request_of
  post_open = do header ← new_header req_open 0; m ← open_request_of header; post m

  -- WAIT_TO_COMPLETE: the thread waits from here until SIGNAL_COMPLETION finds it waiting.
  unfoldable pub wait_to_complete : M Client (Unit {0})
  wait_to_complete s = ok tt (record s { waiting = true })

  -- SIGNAL_COMPLETION; a signal that finds nobody waiting is lost.
  unfoldable pub signal_completion : M Client (Unit {0})
  signal_completion s = ok tt (record s { waiting = false })

  -- The end of WAIT_TO_COMPLETE: a thread that no signal has found is still in `pthread_cond_wait`.
  unfoldable pub wait_ends : M Client (Unit {0})
  wait_ends s = branch s.waiting (stop blocked) (pure tt) s

  -- `send_open` from the end of its wait on.
  unfoldable pub finish_open : M Client ℤ
  unfolding wait_ends
  finish_open = do
    wait_ends
    s ← get
    let reply = layout.as_open_reply s.reply_msg
    assert (elim (reply.header.type) [ req_open ↦ true | _ ↦ false ])
    branch (eqb_ℤ reply.err (pos 0)) (put (record s { volume = reply.volume })) (pure tt)
    pure reply.err

  unfoldable pub send_close : M Client (Unit {0})
  unfolding new_header post
  send_close = do header ← new_header req_close 0; post (close_request header)

  -- There is no wait: the size is read from whatever the reply buffer holds.
  unfoldable pub send_getsize : M Client ℤ
  unfolding new_header post
  send_getsize = do
    header ← new_header req_getsize 0
    post (getsize_request header)
    s ← get
    pure ((layout.as_getsize_reply s.reply_msg).size_in_bytes)

  unfoldable pub send_readv : ℤ → ℕ → M Client (Unit {0})
  unfolding deref new_header post
  send_readv offset a = do
    acb ← deref a
    assert (leb acb.size max_data_size)
    header ← new_header req_read a
    s ← get
    post (
        read_request
          (init_read (record (layout.as_read s.request_msg) { header = header }) offset acb.size))

  -- The second assertion compares `acb->size` with itself; the number of bytes that `iov_to_buf`
  -- found is not looked at.
  unfoldable pub send_writev : ℤ → ℕ → M Client (Unit {0})
  unfolding deref new_header post store_acb
  send_writev offset a = do
    acb ← deref a
    assert (leb acb.size max_data_size)
    header ← new_header req_write a
    s ← get
    let m = init_write (record (layout.as_write s.request_msg) { header = header }) offset acb.size
    let g = iov_to_buf acb.qiov 0 m.size_in_bytes 0 []
    assert (g.offset == 0)
    assert (acb.size == m.size_in_bytes)
    post (write_request (record m { bytes = overwrite m.bytes 0 g.out }))
    assert acb.callback
    store_acb a (record acb { ret = pos acb.size })
    complete a (pos 0)

  unfoldable pub send_fsync : ℕ → M Client (Unit {0})
  unfolding new_header post
  send_fsync a = do header ← new_header req_fsync a; post (fsync_request header)

  -- What `handle_co_reply` does with a reply for a read.
  unfoldable pub read_done : ℕ → M Client (Unit {0})
  unfolding deref store_acb
  read_done a = do
    s ← get
    let reply = layout.as_read_reply s.reply_msg
    assert (not (a == 0))
    acb ← deref a
    let r = iov_from_buf acb.qiov 0 reply.bytes reply.size_in_bytes 0
    assert (r.offset == 0)
    store_acb a (record acb { qiov = r.iov; ret = pos reply.size_in_bytes })
    complete a (pos 0)

  unfoldable pub fsync_done : ℕ → M Client (Unit {0})
  unfolding deref store_acb
  fsync_done a = do
    s ← get
    let reply = layout.as_fsync_reply s.reply_msg
    assert (not (a == 0))
    acb ← deref a
    store_acb a (record acb { ret = reply.err })
    complete a reply.err

  -- The chain of tests of `handle_co_reply`; the reply is in the buffer.
  unfoldable pub co_reply : Header → M Client (Unit {0})
  co_reply header s = elim (header.type) [
    | req_read ↦ read_done header.acb s
    | req_fsync ↦ fsync_done header.acb s
    | req_open ↦ signal_completion s
    | req_getsize ↦ signal_completion s
    | _ ↦ stopped aborted
  ]

  -- One round of the loop of `handle_co_reply`; `false` where it returns.
  unfoldable pub co_reply_round : M Client Bool
  co_reply_round s = elim (replies.receive s.reply_mq s.incoming) [
    | none ↦ stopped blocked
    | some (m, shm) ↦
        branch ((reply_header m).stop) (pure false) (do co_reply (reply_header m); pure true)
          (record s { reply_msg = m; incoming = shm })
  ]

  -- `handle_co_reply`, for at most `n` rounds.
  unfoldable pub handle_co_reply : ℕ → M Client Bool
  handle_co_reply zero = pure true
  handle_co_reply (suc n) = do
    go ← terminate co_reply_round
    branch go (handle_co_reply n) (pure false)

  -- The `extern "C"` wrappers catch every exception.
  unfoldable pub shared_mem_writev : ℤ → ℕ → M Client Bool
  unfolding send_writev
  shared_mem_writev offset a = catch (do send_writev offset a; pure true) false

  unfoldable pub shared_mem_readv : ℤ → ℕ → M Client Bool
  unfolding send_readv
  shared_mem_readv offset a = catch (do send_readv offset a; pure true) false

  unfoldable pub shared_mem_fsync : ℕ → M Client Bool
  unfolding send_fsync
  shared_mem_fsync a = catch (do send_fsync a; pure true) false

  unfoldable pub release_volume : M Client Bool
  unfolding send_close
  release_volume = catch (do send_close; pure true) false

  unfoldable pub getsize_volume : M Client ℤ
  unfolding send_getsize
  getsize_volume = catch send_getsize (pos 0)
