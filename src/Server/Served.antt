-- ===== src/Server/Served.antt =====
-- server.c: what a handler that returns has done to the server.
use qemu_cvbd_shraed_memory.Common.{◌≡◌, ◌≢◌, some, [], length, take, arith}
use qemu_cvbd_shraed_memory.Common.Int.{ℤ, pos}
use qemu_cvbd_shraed_memory.Common.Outcome.{ok}
use qemu_cvbd_shraed_memory.Common.Store.{find}
use qemu_cvbd_shraed_memory.Iov.{Bytes}
use qemu_cvbd_shraed_memory.Message.{
  Header, WriteRequest, ReadRequest, read_reply, fsync_reply, getsize_reply, req_fsync, req_getsize,
  fsync_request, getsize_request,
}
use qemu_cvbd_shraed_memory.Host.{Env, ret, fail}
use qemu_cvbd_shraed_memory.Server.{VolumeState, Server, neg, write, read, fsync, getsize, dispatch}

pub dispatch-fsync :
    (env : Env) (x : Server env) (h : Header)
    → h.type ≡ req_fsync
    → dispatch env (fsync_request h) x ≡ fsync env h x
unfolding dispatch
dispatch-fsync env x h type = ground arith

pub dispatch-getsize :
    (env : Env) (x : Server env) (h : Header)
    → h.type ≡ req_getsize
    → dispatch env (getsize_request h) x ≡ getsize env h x
unfolding dispatch
dispatch-getsize env x h type = ground arith

module _ (env : Env) (s t : Server env) (v : VolumeState) where
  -- The bytes that the server reads for a request.
  abbrev pub stored : ReadRequest → Bytes
  stored r = elim ((env.host.pread v.fd r.size_in_bytes r.offset s.disk).0) [
    | ret b ↦ b
    | fail e ↦ []
  ]

  -- The result of `fsync` that it sends.
  abbrev pub synced : ℤ
  synced = elim ((env.host.fsync v.fd s.disk).0) [ ret _ ↦ pos 0 | fail e ↦ neg e ]

  -- The size that it sends.
  abbrev pub sized : ℤ
  sized = elim ((env.host.fstat_size v.fd s.disk).0) [ ret n ↦ pos n | fail e ↦ pos 0 ]

  pub read-returns :
      (r : ReadRequest)
      → r.header.volume ≢ 0
      → find r.header.volume s.heap ≡ some v
      → read env r s ≡ ok tt t
      → (env.replies.send v.reply_mq
            (read_reply
              (record { header = r.header; size_in_bytes = length (stored r); bytes = stored r }))
            s.outgoing
          ≡ some t.outgoing)
        × (t ≡ record s { disk = t.disk; outgoing = t.outgoing })
  unfolding read
  read-returns r nn live e = (ground arith, ground arith)

  pub fsync-returns :
      (h : Header)
      → h.volume ≢ 0
      → find h.volume s.heap ≡ some v
      → fsync env h s ≡ ok tt t
      → (env.replies.send v.reply_mq (fsync_reply (record { header = h; err = synced })) s.outgoing
          ≡ some t.outgoing)
        × (t ≡ record s { disk = t.disk; errno = t.errno; outgoing = t.outgoing })
  unfolding fsync
  fsync-returns h nn live e = (ground arith, ground arith)

  pub getsize-returns :
      (h : Header)
      → h.volume ≢ 0
      → find h.volume s.heap ≡ some v
      → getsize env h s ≡ ok tt t
      → (env.replies.send v.reply_mq
            (getsize_reply (record { header = h; size_in_bytes = sized }))
            s.outgoing
          ≡ some t.outgoing)
        × (t ≡ record s { disk = t.disk; errno = t.errno; outgoing = t.outgoing })
  unfolding getsize
  getsize-returns h nn live e = (ground arith, ground arith)

  pub write-returns :
      (w : WriteRequest)
      → w.header.volume ≢ 0
      → find w.header.volume s.heap ≡ some v
      → write env w s ≡ ok tt t
      → t ≡ record s { disk = t.disk }
  unfolding write
  write-returns w nn live e = ground arith

  -- The disk is as the one call on the volume's file left it.
  pub write-disk :
      (w : WriteRequest)
      → w.header.volume ≢ 0
      → find w.header.volume s.heap ≡ some v
      → write env w s ≡ ok tt t
      → t.disk ≡ (env.host.pwrite v.fd (take w.size_in_bytes w.bytes) w.offset s.disk).1
  unfolding write
  write-disk w nn live e = ground arith

  pub read-disk :
      (r : ReadRequest)
      → r.header.volume ≢ 0
      → find r.header.volume s.heap ≡ some v
      → read env r s ≡ ok tt t
      → t.disk ≡ (env.host.pread v.fd r.size_in_bytes r.offset s.disk).1
  unfolding read
  read-disk r nn live e = ground arith

  pub fsync-disk :
      (h : Header)
      → h.volume ≢ 0
      → find h.volume s.heap ≡ some v
      → fsync env h s ≡ ok tt t
      → t.disk ≡ (env.host.fsync v.fd s.disk).1
  unfolding fsync
  fsync-disk h nn live e = ground arith

  pub getsize-disk :
      (h : Header)
      → h.volume ≢ 0
      → find h.volume s.heap ≡ some v
      → getsize env h s ≡ ok tt t
      → t.disk ≡ (env.host.fstat_size v.fd s.disk).1
  unfolding getsize
  getsize-disk h nn live e = ground arith
