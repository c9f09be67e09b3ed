-- ===== src/Server.antt =====
-- server.c and SharedMemServer.h: the file server, `IOHandler` behind the loop of `SharedMemServer`.
-- One request thread serves one queue (`max_queue_num` is 1), so the state belongs to it alone.
use qemu_cvbd_shraed_memory.Common.{
  ℕ, zero, suc, ◌^◌, Bool, true, false, none, some, [], ◌∷◌, ◌++◌, length, take, ltb, ◌==◌,
  if◌then◌else◌,
}
use qemu_cvbd_shraed_memory.Common.Int.{ℤ, pos, negsuc, sub_ℕ, ltb_ℤ}
use qemu_cvbd_shraed_memory.Common.Outcome.{
  Outcome, ok, thrown, stopped, Stop, aborted, crashed, blocked, M, ◌>>=◌, ◌>>◌, pure, get, put,
  stop, assert, branch, terminate,
}
use qemu_cvbd_shraed_memory.Common.Store.{Store, addresses, find, free}
use qemu_cvbd_shraed_memory.Iov.{Bytes}
use qemu_cvbd_shraed_memory.Message.{
  codes, max_data_size, RequestType, req_write, req_read, req_open, req_close, req_getsize,
  req_fsync, Header, WriteRequest, ReadRequest, OpenRequest, ReadReply, OpenReply, GetSizeReply,
  FsyncReply, Request, Reply, read_reply, open_reply, getsize_reply, fsync_reply, header_of, Layout,
  c_string,
}
pub mod Files
pub mod Descriptors
pub mod Volumes
pub mod Opening
pub mod Served
mod Tests
use qemu_cvbd_shraed_memory.Host.{Env, Sys, ret, fail}

pub record VolumeState : Type 0 where
  pub volume_name : Bytes
  pub volume_id : ℕ
  pub fd : ℕ
  pub reply_mq : ℕ

-- `open_path` is the file of a volume.
abbrev pub open_path : Bytes → Bytes
open_path name = codes "/ssdfs/vdisk0/" ++ name

abbrev pub enoent : ℕ
enoent = 2

-- `-e`.
abbrev pub neg : ℕ → ℤ
neg e = sub_ℕ 0 e

module _ (env : Env) where
  open env use {host, requests, replies, layout}

  pub record Server : Type 0 where
    pub disk : host.Disk
    pub errno : ℕ
    pub heap : Store VolumeState
    pub request_mq : ℕ  -- the one entry of `request_mqs_`
    pub incoming : requests.Shm
    pub outgoing : replies.Shm

  -- A system call; a failing one sets `errno`.
  unfoldable pub sys : {A : Type 0} → (host.Disk → Sys A × host.Disk) → M Server (Sys A)
  sys call s =
      let (r, d) = call s.disk in
      elim r [
        | ret a ↦ ok (ret a) (record s { disk = d })
        | fail e ↦ ok (fail e) (record s { disk = d; errno = e })
      ]

  -- `vol->…` on a `VolumeState *`: only a live object may be read.
  unfoldable pub deref : ℕ → M Server VolumeState
  deref a s = elim (find a s.heap) [ none ↦ stopped crashed | some v ↦ ok v s ]

  -- A use of the array `data` at a length that the sender chose.
  unfoldable pub in_array : ℕ → M Server (Unit {0})
  in_array size = branch (ltb max_data_size size) (stop crashed) (pure tt)

  unfoldable pub c_str : Bytes → M Server Bytes
  c_str bytes s = elim (c_string bytes) [ none ↦ stopped crashed | some name ↦ ok name s ]

  -- `send` on a queue that the server has opened.
  unfoldable pub send_on : ℕ → Reply → M Server (Unit {0})
  send_on mq reply s = elim (replies.send mq reply s.outgoing) [
    | none ↦ stopped blocked
    | some shm ↦ ok tt (record s { outgoing = shm })
  ]

  -- `volState->reply_mq_->send(reply, …)`.
  unfoldable pub send_reply : ℕ → Reply → M Server (Unit {0})
  unfolding deref send_on
  send_reply a reply = do v ← deref a; send_on v.reply_mq reply

  -- The constructor of `message_queue` with `open_only`, which throws if there is no such queue.
  unfoldable pub open_mq : Bytes → M Server ℕ
  open_mq name s = elim (replies.open_only name s.outgoing) [ none ↦ thrown s | some mq ↦ ok mq s ]

  -- `close(VolumeState *)`, which `close(CloseRequest *)` calls.
  unfoldable pub close_volume : ℕ → M Server (Unit {0})
  unfolding deref
  close_volume a s =
      branch (a == 0) (pure tt)
        (do v ← deref a; put (record s { disk = host.close v.fd s.disk; heap = free a s.heap })) s

  unfoldable pub close : Header → M Server (Unit {0})
  unfolding close_volume
  close header = close_volume header.volume

  -- The end of `open`, from the volume's address and `ret`. There is no queue to send on where
  -- `vol` is null.
  unfoldable pub answer_open : OpenRequest → ℕ → ℤ → M Server (Unit {0})
  unfolding send_reply close_volume
  answer_open req vol result =
      let failed = ltb_ℤ result (pos 0) in
      let reply = open_reply (record {
        header = record (req.header) { volume = vol };
        volume = vol;
        err = if failed then result else pos 0;
      }) in
      do
        branch (vol == 0) (pure tt) (send_reply vol reply)
        branch failed (close_volume vol) (pure tt)

  -- `new VolumeState(…)`, once its queue is open.
  unfoldable pub new_volume : Bytes → ℕ → ℕ → M Server ℕ
  new_volume name fd mq s =
      let vol = host.alloc (addresses s.heap) in
      let state : VolumeState = record {
        volume_name = name;
        volume_id = 0;
        fd = fd;
        reply_mq = mq;
      } in
      ok vol (record s { heap = (vol, state) ∷ s.heap })

  -- From `new VolumeState` on. Where the queue cannot be opened its constructor throws, and the
  -- object is freed again.
  unfoldable pub open_volume : OpenRequest → Bytes → ℕ → M Server (Unit {0})
  open_volume req name fd = do
    mq_name ← c_str req.reply_mq_name
    mq ← open_mq mq_name
    vol ← new_volume name fd mq
    truncated ← sys (host.ftruncate fd (2 ^ 34))
    answer_open req vol (elim truncated [ ret _ ↦ pos fd | fail e ↦ neg e ])

  -- After the second `::open`, with O_CREAT, and after the first one.
  unfoldable pub after_create : OpenRequest → Bytes → Sys ℕ → M Server (Unit {0})
  after_create req name (ret fd) = open_volume req name fd
  after_create req name (fail e) = answer_open req 0 (neg e)

  unfoldable pub after_open : OpenRequest → Bytes → Sys ℕ → M Server (Unit {0})
  after_open req name (ret fd) = open_volume req name fd
  after_open req name (fail e) = do
    assert (e == enoent)
    created ← sys (host.open_creat (open_path name))
    after_create req name created

  unfoldable pub open_file : OpenRequest → M Server (Unit {0})
  open_file req = do
    name ← c_str req.volume_name
    existing ← sys (host.open_rdwr (open_path name))
    after_open req name existing

  -- The null check of `getsize`, `fsync` and `read` skips the call, and the reply is sent all the
  -- same.
  unfoldable pub getsize : Header → M Server (Unit {0})
  unfolding deref sys send_reply
  getsize header = do
    size ←
        (branch (header.volume == 0) (pure (pos 0)) (do
          v ← deref header.volume
          stat ← sys (host.fstat_size v.fd)
          pure (elim stat [ ret n ↦ pos n | fail e ↦ pos 0 ])))
    send_reply header.volume (getsize_reply (record { header = header; size_in_bytes = size }))

  unfoldable pub fsync : Header → M Server (Unit {0})
  unfolding deref sys send_reply
  fsync header = do
    failed ←
        (branch (header.volume == 0) (pure true) (do
          v ← deref header.volume
          done ← sys (host.fsync v.fd)
          pure (elim done [ ret _ ↦ false | fail e ↦ true ])))
    s ← get
    send_reply header.volume
        (fsync_reply (record { header = header; err = if failed then neg s.errno else pos 0 }))

  -- A short or failed `pwrite` fails the assertion: -1 is no size that the array can have.
  unfoldable pub write : WriteRequest → M Server (Unit {0})
  unfolding deref in_array sys
  write req = branch (req.header.volume == 0) (pure tt) (do
    v ← deref req.header.volume
    in_array req.size_in_bytes
    written ← sys (host.pwrite v.fd (take req.size_in_bytes req.bytes) req.offset)
    assert (elim written [ ret n ↦ n == req.size_in_bytes | fail e ↦ false ]))

  -- `bytes` are those that `pread` stored; what the array holds behind them is not modelled.
  unfoldable pub read : ReadRequest → M Server (Unit {0})
  unfolding deref in_array sys send_reply
  read req = do
    stored ←
        (branch (req.header.volume == 0) (pure []) (do
          v ← deref req.header.volume
          in_array req.size_in_bytes
          result ← sys (host.pread v.fd req.size_in_bytes req.offset)
          let bytes : Bytes = elim result [ ret b ↦ b | fail e ↦ [] ]
          assert (elim result [ ret b ↦ length b == req.size_in_bytes | fail e ↦ false ])
          pure bytes))
    send_reply req.header.volume
        (read_reply (record { header = req.header; size_in_bytes = length stored; bytes = stored }))

  -- One request, by the type in its header.
  unfoldable pub dispatch : Request → M Server (Unit {0})
  dispatch m s = elim ((header_of m).type) [
    | req_write ↦ write (layout.as_write m) s
    | req_read ↦ read (layout.as_read m) s
    | req_open ↦ open_file (layout.as_open m) s
    | req_close ↦ close (header_of m) s
    | req_getsize ↦ getsize (header_of m) s
    | req_fsync ↦ fsync (header_of m) s
    | _ ↦ ok tt s
  ]

  -- One round of the loop of `handle_requests`; `false` where it returns.
  unfoldable pub round : M Server Bool
  round s = elim (requests.receive s.request_mq s.incoming) [
    | none ↦ stopped blocked
    | some (m, shm) ↦
        branch ((header_of m).stop) (pure false) (do dispatch m; pure true)
          (record s { incoming = shm })
  ]

  -- `handle_requests`, for at most `n` rounds. What a handler throws ends the process.
  unfoldable pub handle_requests : ℕ → M Server Bool
  handle_requests zero = pure true
  handle_requests (suc n) = do go ← terminate round; branch go (handle_requests n) (pure false)
