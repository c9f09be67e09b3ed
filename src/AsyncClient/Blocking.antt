-- ===== src/AsyncClient/Blocking.antt =====
-- SharedMemClientASync.cpp: `send_write` and `send_read`, which this client has from the synchronous
-- one. Its driver does not call them: the reply thread takes answers from the same queue.
use qemu_cvbd_shraed_memory.Common.{
  ℕ, ◌≡◌, Bool, true, false, Option, none, some, [], ◌∷◌, length, take, ltb, leb, ◌==◌, arith,
}
use qemu_cvbd_shraed_memory.Common.Int.{ℤ}
use qemu_cvbd_shraed_memory.Common.Outcome.{
  ok, stopped, aborted, crashed, blocked, M, ◌>>=◌, ◌>>◌, pure, get, stop, assert, catch, branch,
}
use qemu_cvbd_shraed_memory.Iov.{Bytes, overwrite}
use qemu_cvbd_shraed_memory.Message.{
  max_data_size, req_read, req_write, ReadReply, read_reply, write_request, read_request,
  init_write, init_read,
}
use qemu_cvbd_shraed_memory.Host.{Env}
use qemu_cvbd_shraed_memory.AsyncClient.{
  Client, new_header, post, co_reply_round, co_reply, read_done,
}

module _ (env : Env) where
  open env use {replies, layout}

  -- `message` is the memory from the pointer on; `memcpy` may not read past its end.
  unfoldable pub send_write : Bytes → ℕ → ℤ → M (Client env) (Unit {0})
  unfolding new_header post
  send_write message size offset = do
    assert (leb size max_data_size)
    header ← new_header env req_write 0
    s ← get
    let m = init_write (record (layout.as_write s.request_msg) { header = header }) offset size
    branch (ltb (length message) size) (stop crashed) (pure tt)
    post env (write_request (record m { bytes = overwrite m.bytes 0 (take size message) }))

  -- `send_read` up to its `receive`, and from there on. It returns the bytes that go to `message`.
  unfoldable pub post_read : ℕ → ℤ → M (Client env) (Unit {0})
  unfolding new_header post
  post_read size offset = do
    assert (leb size max_data_size)
    header ← new_header env req_read 0
    s ← get
    post env (
        read_request
          (init_read (record (layout.as_read s.request_msg) { header = header }) offset size))

  unfoldable pub receive_reply : M (Client env) (Unit {0})
  receive_reply s = elim (replies.receive s.reply_mq s.incoming) [
    | none ↦ stopped blocked
    | some (m, shm) ↦ ok tt (record s { reply_msg = m; incoming = shm })
  ]

  unfoldable pub finish_read : ℕ → M (Client env) Bytes
  unfolding receive_reply
  finish_read size = do
    receive_reply
    t ← get
    let reply = layout.as_read_reply t.reply_msg
    assert (elim (reply.header.type) [ req_read ↦ true | _ ↦ false ])
    assert (size == reply.size_in_bytes)
    pure (take size reply.bytes)

  unfoldable pub send_read : ℕ → ℤ → M (Client env) Bytes
  unfolding post_read finish_read
  send_read size offset = do post_read size offset; finish_read size

  -- The `extern "C"` wrappers. `false` of `shared_mem_read` is `none`.
  unfoldable pub shared_mem_write : Bytes → ℕ → ℤ → M (Client env) Bool
  unfolding send_write
  shared_mem_write message size offset = catch (do send_write message size offset; pure true) false

  unfoldable pub shared_mem_read : ℕ → ℤ → M (Client env) (Option Bytes)
  unfolding send_read
  shared_mem_read size offset = catch (do bytes ← send_read size offset; pure (some bytes)) none

-- `send_read` waits for the answer to its request, a read of `size` bytes with no control block, which
-- is the only message in the reply queue. Where it takes the answer itself, it returns the bytes. Where
-- the reply thread takes it first, the assertion on the control block ends the process.
pub finish_read-race :
    (env : Env) (s : Client env) (r : ReadReply) (size : ℕ)
    → env.replies.messages s.reply_mq s.incoming ≡ read_reply r ∷ []
    → r.header.stop ≡ false
    → r.header.type ≡ req_read
    → r.header.acb ≡ 0
    → r.size_in_bytes ≡ size
    → (t : Client env) × (finish_read env size s ≡ ok (take size r.bytes) t)
      × (env.replies.messages s.reply_mq t.incoming ≡ [])
      × (co_reply_round env s ≡ stopped aborted)
unfolding finish_read co_reply_round co_reply read_done
finish_read-race env s r size one goes type no_block same =
    let (shm, taken, empty, kept) =
      env.replies.receive_first s.reply_mq (read_reply r) [] s.incoming one in
    (
      record s { reply_msg = read_reply r; incoming = shm },
      ground (arith, taken, env.layout.as_read_reply_lem r),
      empty,
      ground (arith, taken, env.layout.as_read_reply_lem r),
    )
