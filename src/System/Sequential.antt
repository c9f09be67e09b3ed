-- ===== src/System/Sequential.antt =====
-- The server as one array of bytes, on which requests take effect one after the other.
pub mod Serving
pub mod OneFile
pub mod Stopping
pub mod Several
pub mod Shared
mod Tests
use qemu_cvbd_shraed_memory.Common.{
  ℕ, suc, ◌+◌, ◌≡◌, ◌≢◌, ◌≤◌, refl, sym, ap, ap₂, ◌∙◌, true, false, some, List, [], ◌∷◌, ◌++◌,
  length, take, drop, All, arith, length-take, take_all, append-nil, append_assoc, length-append,
}
use qemu_cvbd_shraed_memory.Common.Int.{ℤ, pos}
use qemu_cvbd_shraed_memory.Common.Outcome.{ok}
use qemu_cvbd_shraed_memory.Common.Store.{find}
use qemu_cvbd_shraed_memory.Iov.{Bytes, overwrite}
use qemu_cvbd_shraed_memory.Message.{
  max_data_size, RequestType, req_write, req_read, req_fsync, req_getsize, Header, Request,
  write_request, read_request, fsync_request, getsize_request, Reply, read_reply, fsync_reply,
  getsize_reply, header_of,
}
use qemu_cvbd_shraed_memory.Host.{Env, Host, ret}
use qemu_cvbd_shraed_memory.Server.{VolumeState, Server, handle_requests, dispatch, fsync}
use qemu_cvbd_shraed_memory.Server.Files.{write-done, read-done, dispatch-write, dispatch-read}
use qemu_cvbd_shraed_memory.SyncIo.Lists.{length-overwrite}
use qemu_cvbd_shraed_memory.System.Steps.{serve_one}
use qemu_cvbd_shraed_memory.System.Closing.{dispatch-getsize}
use qemu_cvbd_shraed_memory.System.Volume.{WholeCalls}

-- Inside the file no call is cut short, and the calls that ask or synchronise succeed.
pub record Reliable (host : Host) (fd : ℕ) : Type 0 where
  pub whole : WholeCalls host fd
  pub synced :
      (d : host.Disk)
      → (d' : host.Disk) × (host.fsync fd d ≡ (ret tt, d'))
        × (host.contents fd d' ≡ host.contents fd d)
  pub sized :
      (d : host.Disk)
      → (d' : host.Disk) × (host.fstat_size fd d ≡ (ret (length (host.contents fd d)), d'))
        × (host.contents fd d' ≡ host.contents fd d)

-- An offset that is not negative.
abbrev pub at : ℤ → ℕ
at (pos o) = o
at other = 0

-- What a request does to the bytes of a volume, and what the client hears.
abbrev pub after : Request → Bytes → Bytes
after (write_request w) disk = overwrite disk (at w.offset) (take w.size_in_bytes w.bytes)
after other disk = disk

abbrev pub heard : Request → Bytes → List Reply
heard (read_request r) disk =
    read_reply (record {
      header = r.header;
      size_in_bytes = r.size_in_bytes;
      bytes = take r.size_in_bytes (drop (at r.offset) disk);
    })
    ∷ []
heard (fsync_request h) disk = fsync_reply (record { header = h; err = pos 0 }) ∷ []
heard (getsize_request h) disk =
    getsize_reply (record { header = h; size_in_bytes = pos (length disk) }) ∷ []
heard other disk = []

abbrev pub after_all : List Request → Bytes → Bytes
after_all [] disk = disk
after_all (m ∷ ms) disk = after_all ms (after m disk)

abbrev pub heard_all : List Request → Bytes → List Reply
heard_all [] disk = []
heard_all (m ∷ ms) disk = heard m disk ++ heard_all ms (after m disk)

-- A request to this volume, of this size, that a client with an open volume may send: its range lies
-- inside the file and fits into a message.
abbrev Head : RequestType → ℕ → Header → Type 0
Head type volume h = (h.stop ≡ false) × (h.type ≡ type) × (h.volume ≡ volume)

abbrev pub IsInside : ℕ → ℕ → Request → Type 0
IsInside volume size (write_request w) =
    Head req_write volume w.header
    × (w.offset ≡ pos (at w.offset))
    × (w.size_in_bytes ≤ max_data_size)
    × (w.size_in_bytes ≤ length w.bytes)
    × (at w.offset + w.size_in_bytes ≤ size)
IsInside volume size (read_request r) =
    Head req_read volume r.header
    × (r.offset ≡ pos (at r.offset))
    × (r.size_in_bytes ≤ max_data_size)
    × (at r.offset + r.size_in_bytes ≤ size)
IsInside volume size (fsync_request h) = Head req_fsync volume h
IsInside volume size (getsize_request h) = Head req_getsize volume h
IsInside volume size other = ⊥

module _ (env : Env) (volume : ℕ) (v : VolumeState) where
  open env use {host, requests, replies}

  -- A server that stands for these bytes, with these requests in its queue.
  pub record Stands (q : ℕ) (disk : Bytes) (ms : List Request) (sent : List Reply) (s : Server env)
      : Type 0 where
    pub one_queue : s.request_mq ≡ q
    pub live : find volume s.heap ≡ some v
    pub bytes : host.contents v.fd s.disk ≡ disk
    pub queue : requests.messages q s.incoming ≡ ms
    pub answers : replies.messages v.reply_mq s.outgoing ≡ sent
