-- ===== src/System/Sequential/Several.antt =====
-- The server's one queue is shared by the clients of all volumes: each volume is an array of bytes of
-- its own.
use qemu_cvbd_shraed_memory.Common.{ℕ, ◌≡◌, ◌≢◌, sym, ap, ◌∙◌, false, some}
use qemu_cvbd_shraed_memory.Common.Int.{ℤ}
use qemu_cvbd_shraed_memory.Common.Outcome.{ok}
use qemu_cvbd_shraed_memory.Common.Store.{find}
use qemu_cvbd_shraed_memory.Iov.{Bytes}
use qemu_cvbd_shraed_memory.Message.{
  Request, write_request, read_request, fsync_request, getsize_request, header_of, Reply,
  WriteRequest, ReadRequest, Header,
}
use qemu_cvbd_shraed_memory.Host.{Env}
use qemu_cvbd_shraed_memory.Server.{VolumeState, Server, dispatch, write, read, fsync, getsize}
use qemu_cvbd_shraed_memory.Server.Files.{dispatch-write, dispatch-read}
use qemu_cvbd_shraed_memory.Server.Served.{
  dispatch-fsync, dispatch-getsize, read-returns, fsync-returns, getsize-returns, write-returns,
  write-disk, read-disk, fsync-disk, getsize-disk,
}
use qemu_cvbd_shraed_memory.System.Sequential.{IsInside}

module _ (env : Env) where
  open env use {host, requests, replies}

  -- Two volumes with different files and different reply queues: a call on the file of one leaves the
  -- file of the other as it was, and so does a message to its client.
  pub record Apart (v w : VolumeState) : Type 0 where
    pub write_apart :
        (bytes : Bytes) (offset : ℤ) (d : host.Disk)
        → host.contents w.fd (host.pwrite v.fd bytes offset d).1 ≡ host.contents w.fd d
    pub read_apart :
        (n : ℕ) (offset : ℤ) (d : host.Disk)
        → host.contents w.fd (host.pread v.fd n offset d).1 ≡ host.contents w.fd d
    pub sync_apart :
        (d : host.Disk) → host.contents w.fd (host.fsync v.fd d).1 ≡ host.contents w.fd d
    pub size_apart :
        (d : host.Disk) → host.contents w.fd (host.fstat_size v.fd d).1 ≡ host.contents w.fd d
    pub send_apart :
        (m : Reply) (s s' : replies.Shm)
        → replies.send v.reply_mq m s ≡ some s'
        → (replies.messages w.reply_mq s' ≡ replies.messages w.reply_mq s)
          × (replies.capacity w.reply_mq s' ≡ replies.capacity w.reply_mq s)

  -- What a step leaves of a volume.
  pub record Leaves (w : VolumeState) (s t : Server env) : Type 0 where
    pub file : host.contents w.fd t.disk ≡ host.contents w.fd s.disk
    pub queue : replies.messages w.reply_mq t.outgoing ≡ replies.messages w.reply_mq s.outgoing
    pub room : replies.capacity w.reply_mq t.outgoing ≡ replies.capacity w.reply_mq s.outgoing

  -- An answer on one reply queue leaves the other.
  sent-Leaves :
      (v w : VolumeState) (apart : Apart v w) (s t : Server env) (a : Reply)
      → host.contents w.fd t.disk ≡ host.contents w.fd s.disk
      → replies.send v.reply_mq a s.outgoing ≡ some t.outgoing
      → Leaves w s t
  sent-Leaves v w apart s t a same sent =
      let (kept, cap) = apart.send_apart a s.outgoing t.outgoing sent in
      record { file = same; queue = kept; room = cap }

  -- Whatever a request to one volume is, the other volume is left as it was.
  module _ (v w : VolumeState) (apart : Apart v w) (s t : Server env) where
    write-Leaves :
        (r : WriteRequest)
        → r.header.volume ≢ 0
        → find r.header.volume s.heap ≡ some v
        → write env r s ≡ ok tt t
        → Leaves w s t
    write-Leaves r nonnull live e =
        let same = write-returns env s t v r nonnull live e in
        record {
          file =
              ap (host.contents w.fd) (write-disk env s t v r nonnull live e)
              ∙ apart.write_apart _ _ s.disk;
          queue = ap (λ x. replies.messages w.reply_mq x.outgoing) same;
          room = ap (λ x. replies.capacity w.reply_mq x.outgoing) same;
        }

    read-Leaves :
        (r : ReadRequest)
        → r.header.volume ≢ 0
        → find r.header.volume s.heap ≡ some v
        → read env r s ≡ ok tt t
        → Leaves w s t
    read-Leaves r nonnull live e =
        sent-Leaves v w apart s t _
          (ap (host.contents w.fd) (read-disk env s t v r nonnull live e)
            ∙ apart.read_apart _ _ s.disk)
          (read-returns env s t v r nonnull live e).0

    fsync-Leaves :
        (h : Header)
        → h.volume ≢ 0
        → find h.volume s.heap ≡ some v
        → fsync env h s ≡ ok tt t
        → Leaves w s t
    fsync-Leaves h nonnull live e =
        sent-Leaves v w apart s t _
          (ap (host.contents w.fd) (fsync-disk env s t v h nonnull live e)
            ∙ apart.sync_apart s.disk)
          (fsync-returns env s t v h nonnull live e).0

    getsize-Leaves :
        (h : Header)
        → h.volume ≢ 0
        → find h.volume s.heap ≡ some v
        → getsize env h s ≡ ok tt t
        → Leaves w s t
    getsize-Leaves h nonnull live e =
        sent-Leaves v w apart s t _
          (ap (host.contents w.fd) (getsize-disk env s t v h nonnull live e)
            ∙ apart.size_apart s.disk)
          (getsize-returns env s t v h nonnull live e).0

pub goes_on : (k size : ℕ) (m : Request) → IsInside k size m → (header_of m).stop ≡ false
goes_on k size (write_request w) i = i.0.0
goes_on k size (read_request r) i = i.0.0
goes_on k size (fsync_request h) i = i.0
goes_on k size (getsize_request h) i = i.0
goes_on k size other i = absurd i

-- A request to one volume leaves every other as it was.
pub dispatch-Leaves :
    (env : Env) (v w : VolumeState) (apart : Apart env v w) (s t : Server env) (size : ℕ)
    (m : Request)
    → IsInside (header_of m).volume size m
    → (header_of m).volume ≢ 0
    → find (header_of m).volume s.heap ≡ some v
    → dispatch env m s ≡ ok tt t
    → Leaves env w s t
dispatch-Leaves env v w apart s t size (write_request r) i nonnull live e =
    write-Leaves env v w apart s t r nonnull live (sym (dispatch-write env s r i.0.1) ∙ e)
dispatch-Leaves env v w apart s t size (read_request r) i nonnull live e =
    read-Leaves env v w apart s t r nonnull live (sym (dispatch-read env s r i.0.1) ∙ e)
dispatch-Leaves env v w apart s t size (fsync_request h) i nonnull live e =
    fsync-Leaves env v w apart s t h nonnull live (sym (dispatch-fsync env s h i.1) ∙ e)
dispatch-Leaves env v w apart s t size (getsize_request h) i nonnull live e =
    getsize-Leaves env v w apart s t h nonnull live (sym (dispatch-getsize env s h i.1) ∙ e)
dispatch-Leaves env v w apart s t size other i nonnull live e = absurd i

pub dispatch-heap :
    (env : Env) (v : VolumeState) (s t : Server env) (size : ℕ) (m : Request)
    → IsInside (header_of m).volume size m
    → (header_of m).volume ≢ 0
    → find (header_of m).volume s.heap ≡ some v
    → dispatch env m s ≡ ok tt t
    → t.heap ≡ s.heap
dispatch-heap env v s t size (write_request r) i nonnull live e =
    ap (λ x. x.heap)
      (write-returns env s t v r nonnull live (sym (dispatch-write env s r i.0.1) ∙ e))
dispatch-heap env v s t size (read_request r) i nonnull live e =
    ap (λ x. x.heap)
      (read-returns env s t v r nonnull live (sym (dispatch-read env s r i.0.1) ∙ e)).1
dispatch-heap env v s t size (fsync_request h) i nonnull live e =
    ap (λ x. x.heap)
      (fsync-returns env s t v h nonnull live (sym (dispatch-fsync env s h i.1) ∙ e)).1
dispatch-heap env v s t size (getsize_request h) i nonnull live e =
    ap (λ x. x.heap)
      (getsize-returns env s t v h nonnull live (sym (dispatch-getsize env s h i.1) ∙ e)).1
dispatch-heap env v s t size other i nonnull live e = absurd i
