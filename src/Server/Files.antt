-- ===== src/Server/Files.antt =====
-- server.c: what `IOHandler::write` and `IOHandler::read` do to a volume's file.
use qemu_cvbd_shraed_memory.Common.{
  ℕ, ◌+◌, ◌≤◌, ◌<◌, ◌≡◌, ◌≢◌, refl, ◌∙◌, some, [], ◌∷◌, ◌++◌, length, take, drop, ◌-◌, arith,
  length-take, drop-append, take-append, drop_all, take_all, append-nil,
}
use qemu_cvbd_shraed_memory.Common.Int.{pos}
use qemu_cvbd_shraed_memory.Common.Outcome.{ok, ◌>>◌}
use qemu_cvbd_shraed_memory.Common.Store.{find}
use qemu_cvbd_shraed_memory.Iov.{Bytes, overwrite}
use qemu_cvbd_shraed_memory.Message.{
  max_data_size, req_write, req_read, WriteRequest, ReadRequest, write_request, read_request, Reply,
  read_reply,
}
use qemu_cvbd_shraed_memory.Host.{Env, ret}
use qemu_cvbd_shraed_memory.Server.{VolumeState, Server, write, read, dispatch}

module _ (env : Env) (s : Server env) (v : VolumeState) where
  open env use {host, replies}

  pub write-done :
      (req : WriteRequest) (d : host.Disk)
      → req.header.volume ≢ 0
      → find req.header.volume s.heap ≡ some v
      → req.size_in_bytes ≤ max_data_size
      → host.pwrite v.fd (take req.size_in_bytes req.bytes) req.offset s.disk
        ≡ (ret req.size_in_bytes, d)
      → write env req s ≡ ok tt (record s { disk = d })
  unfolding write
  write-done req d n e h p = ground arith

  pub read-done :
      (req : ReadRequest) (bytes : Bytes) (d : host.Disk) (shm : replies.Shm)
      → req.header.volume ≢ 0
      → find req.header.volume s.heap ≡ some v
      → req.size_in_bytes ≤ max_data_size
      → host.pread v.fd req.size_in_bytes req.offset s.disk ≡ (ret bytes, d)
      → length bytes ≡ req.size_in_bytes
      → replies.send v.reply_mq
          (read_reply (record { header = req.header; size_in_bytes = length bytes; bytes = bytes }))
          s.outgoing
        ≡ some shm
      → read env req s ≡ ok tt (record s { disk = d; outgoing = shm })
  unfolding read
  read-done req bytes d shm n e h p l q = ground arith

-- What was written over a list is read back.
pub read-overwrite :
    (c new : Bytes) (o n : ℕ)
    → o ≤ length c
    → length new ≡ n
    → take n (drop o (overwrite c o new)) ≡ new
read-overwrite c new o n h l =
    let t : length (take o c) ≡ o = omega (arith, length-take o c) in
    let z : o - length (take o c) ≡ 0 = omega arith in
    let w : n - length new ≡ 0 = omega arith in
    rw
      (
        drop-append o (take o c) (new ++ drop (o + length new) c),
        drop_all o (take o c) (omega arith),
        z,
        take-append n new (drop (o + length new) c),
        take_all n new (omega arith),
        w,
        append-nil,
      )
      refl

-- The header of a request decides its handler; the cast finds the member that the client stored.
pub dispatch-write :
    (env : Env) (s : Server env) (w : WriteRequest)
    → w.header.type ≡ req_write
    → dispatch env (write_request w) s ≡ write env w s
unfolding dispatch
dispatch-write env s w e = ground (arith, env.layout.as_write_lem w)

pub dispatch-read :
    (env : Env) (s : Server env) (r : ReadRequest)
    → r.header.type ≡ req_read
    → dispatch env (read_request r) s ≡ read env r s
unfolding dispatch
dispatch-read env s r e = ground (arith, env.layout.as_read_lem r)

-- A write request and then a read request of the same bytes of a live volume, in a file that
-- reaches so far, with system calls that are not cut short and room in the reply queue: the server
-- serves both, and the one message that it sends holds the bytes of the write.
read-write :
    (env : Env) (s : Server env) (v : VolumeState) (w : WriteRequest) (r : ReadRequest) (o : ℕ)
    (d d' : env.host.Disk) (bytes : Bytes)
    → w.header.type ≡ req_write
    → r.header.type ≡ req_read
    → w.header.volume ≢ 0
    → r.header.volume ≡ w.header.volume
    → find w.header.volume s.heap ≡ some v
    → w.offset ≡ pos o
    → r.offset ≡ pos o
    → r.size_in_bytes ≡ w.size_in_bytes
    → w.size_in_bytes ≤ max_data_size
    → w.size_in_bytes ≤ length w.bytes
    → o + w.size_in_bytes ≤ length (env.host.contents v.fd s.disk)
    → env.host.pwrite v.fd (take w.size_in_bytes w.bytes) (pos o) s.disk ≡ (ret w.size_in_bytes, d)
    → env.host.pread v.fd w.size_in_bytes (pos o) d ≡ (ret bytes, d')
    → length bytes ≡ w.size_in_bytes
    → length (env.replies.messages v.reply_mq s.outgoing)
      < env.replies.capacity v.reply_mq s.outgoing
    → (s' : Server env) × ((do dispatch env (write_request w); dispatch env (read_request r)) s
        ≡ ok tt s')
      × (env.replies.messages v.reply_mq s'.outgoing
          ≡ env.replies.messages v.reply_mq s.outgoing
            ++ read_reply (record {
              header = r.header;
              size_in_bytes = w.size_in_bytes;
              bytes = take w.size_in_bytes w.bytes;
            })
              ∷ [])
read-write env s v w r o d d' bytes tw tr nz sv live wo ro sz small full fits pw pr len room =
    let n = w.size_in_bytes in
    let new = take n w.bytes in
    let msg : Reply =
      read_reply (record { header = r.header; size_in_bytes = length bytes; bytes = bytes }) in
    let (shm, sent) = env.replies.send_room v.reply_mq msg s.outgoing room in
    let size : length new ≡ n = omega (arith, length-take n w.bytes) in
    let stored = env.host.pwrite_in_file v.fd new o n s.disk d pw fits in
    let found = (env.host.pread_lem v.fd n o bytes d d' pr).1 in
    let same : bytes ≡ new =
      found
      ∙ rw (len, stored, take_all n new (omega arith))
          (read-overwrite (env.host.contents v.fd s.disk) new o n (omega arith) size) in
    let after_write : Server env = record s { disk = d } in
    let first : dispatch env (write_request w) s ≡ ok tt after_write =
      dispatch-write env s w tw ∙ write-done env s v w d nz live small (rw wo pw) in
    let second : dispatch env (read_request r) after_write
        ≡ ok tt (record s { disk = d'; outgoing = shm }) =
      dispatch-read env after_write r tr
      ∙ read-done env after_write v r bytes d' shm (rw sv nz) (rw sv live) (rw sz small)
          (rw (ro, sz) pr) (rw sz len) sent in
    (
      record s { disk = d'; outgoing = shm },
      rw (first, ◌>>◌) second,
      (env.replies.send_messages v.reply_mq msg s.outgoing shm sent).0 ∙ rw (len, same) refl,
    )
