-- ===== src/SyncClient.antt =====
-- SharedMemClient.cpp: the client of the synchronous driver, which waits for each reply itself.
pub mod Device
pub mod Requests
use qemu_cvbd_shraed_memory.Common.{
  ℕ, suc, Bool, true, false, Option, none, some, length, take, ltb, leb, ◌==◌,
}
use qemu_cvbd_shraed_memory.Common.Int.{ℤ, pos, sub_ℕ, eqb_ℤ}
use qemu_cvbd_shraed_memory.Common.Outcome.{
  Outcome, ok, thrown, stopped, Stop, aborted, crashed, blocked, M, ◌>>=◌, ◌>>◌, pure, get, put,
  stop, assert, catch, branch,
}
use qemu_cvbd_shraed_memory.Iov.{Bytes, overwrite}
use qemu_cvbd_shraed_memory.Message.{
  max_data_size, RequestType, req_read, req_write, req_open, req_close, req_getsize, Header,
  Request, write_request, read_request, open_request, close_request, getsize_request, Reply, Layout,
  init_write, init_read, init_open,
}

-- The two queues as this client sees them, with everything that runs behind them: `none` where the
-- call never returns.
pub record Port : Type 1 where
  pub World : Type 0
  pub send : ℕ → Request → World → Option World
  pub receive : ℕ → World → Option (Reply × World)

module _ (port : Port) (layout : Layout) where
  -- `id` is the counter that the code increments, taken not to pass the range of `int`.
  pub record SharedMemClient : Type 0 where
    pub request_mq : ℕ
    pub reply_mq : ℕ
    pub request_msg : Request
    pub reply_msg : Reply
    pub volume_name : Bytes
    pub volume : ℕ
    pub id : ℕ
    pub world : port.World

  -- `Header(false, type, ++id, volume_, 0)`.
  unfoldable pub next_header : RequestType → M SharedMemClient Header
  next_header type s =
      ok (record { stop = false; type = type; id = suc s.id; volume = s.volume; acb = 0 })
        (record s { id = suc s.id })

  -- `request_mq_->send`, after the request was written to the buffer.
  unfoldable pub send_request : Request → M SharedMemClient (Unit {0})
  send_request m s = elim (port.send s.request_mq m s.world) [
    | none ↦ stopped blocked
    | some w ↦ ok tt (record s { request_msg = m; world = w })
  ]

  -- `reply_mq_->receive` into the reply buffer.
  unfoldable pub receive_reply : M SharedMemClient (Unit {0})
  receive_reply s = elim (port.receive s.reply_mq s.world) [
    | none ↦ stopped blocked
    | some (m, w) ↦ ok tt (record s { reply_msg = m; world = w })
  ]

  -- A copy past the end of an array is undefined behaviour.
  unfoldable pub named_request : Header → M SharedMemClient Request
  named_request header s =
      elim (init_open (record (layout.as_open s.request_msg) { header = header }) s.volume_name
        s.volume_name) [ none ↦ stopped crashed | some m ↦ ok (open_request m) s ]

  unfoldable pub send_open : M SharedMemClient ℤ
  unfolding next_header named_request send_request receive_reply
  send_open = do
    header ← next_header req_open
    m ← named_request header
    send_request m
    receive_reply
    s ← get
    let reply = layout.as_open_reply s.reply_msg
    assert (elim (reply.header.type) [ req_open ↦ true | _ ↦ false ])
    branch (eqb_ℤ reply.err (pos 0)) (put (record s { volume = reply.volume })) (pure tt)
    pure reply.err

  unfoldable pub send_close : M SharedMemClient (Unit {0})
  unfolding next_header send_request
  send_close = do header ← next_header req_close; send_request (close_request header)

  unfoldable pub send_getsize : M SharedMemClient ℤ
  unfolding next_header send_request receive_reply
  send_getsize = do
    header ← next_header req_getsize
    send_request (getsize_request header)
    receive_reply
    s ← get
    let reply = layout.as_getsize_reply s.reply_msg
    assert (elim (reply.header.type) [ req_getsize ↦ true | _ ↦ false ])
    pure reply.size_in_bytes

  -- `message` is the memory from the pointer on; `memcpy` may not read past its end.
  unfoldable pub send_write : Bytes → ℕ → ℤ → M SharedMemClient (Unit {0})
  unfolding next_header send_request
  send_write message size offset = do
    assert (leb size max_data_size)
    header ← next_header req_write
    s ← get
    let m = init_write (record (layout.as_write s.request_msg) { header = header }) offset size
    branch (ltb (length message) size) (stop crashed) (pure tt)
    send_request (write_request (record m { bytes = overwrite m.bytes 0 (take size message) }))

  -- Returns the bytes that are copied to `message`.
  unfoldable pub send_read : ℕ → ℤ → M SharedMemClient Bytes
  unfolding next_header send_request receive_reply
  send_read size offset = do
    assert (leb size max_data_size)
    header ← next_header req_read
    s ← get
    send_request (
        read_request
          (init_read (record (layout.as_read s.request_msg) { header = header }) offset size))
    receive_reply
    t ← get
    let reply = layout.as_read_reply t.reply_msg
    assert (elim (reply.header.type) [ req_read ↦ true | _ ↦ false ])
    assert (size == reply.size_in_bytes)
    pure (take size reply.bytes)

  -- The `extern "C"` wrappers catch every exception. `false` of `shared_mem_read` is `none`.
  unfoldable pub shared_mem_write : Bytes → ℕ → ℤ → M SharedMemClient Bool
  unfolding send_write
  shared_mem_write message size offset = catch (do send_write message size offset; pure true) false

  unfoldable pub shared_mem_read : ℕ → ℤ → M SharedMemClient (Option Bytes)
  unfolding send_read
  shared_mem_read size offset = catch (do bytes ← send_read size offset; pure (some bytes)) none

  -- `errno` is the caller's, after the exception.
  unfoldable pub create_volume : ℕ → M SharedMemClient ℤ
  unfolding send_open
  create_volume errno = catch send_open (sub_ℕ 0 errno)

  unfoldable pub release_volume : M SharedMemClient Bool
  unfolding send_close
  release_volume = catch (do send_close; pure true) false

  unfoldable pub getsize_volume : M SharedMemClient ℤ
  unfolding send_getsize
  getsize_volume = catch send_getsize (pos 0)
