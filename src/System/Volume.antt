-- ===== src/System/Volume.antt =====
-- The server as the device behind the synchronous client: its thread serves each request before
-- the client goes on.
use qemu_cvbd_shraed_memory.Common.{
  ℕ, ◌+◌, ◌≡◌, ◌≢◌, ◌≤◌, ◌<◌, refl, ◌∙◌, false, Option, none, some, [], length, take, drop, arith,
  length-take, take_all,
}
use qemu_cvbd_shraed_memory.Common.Int.{pos}
use qemu_cvbd_shraed_memory.Common.Outcome.{ok, thrown, stopped}
use qemu_cvbd_shraed_memory.Common.Store.{find}
use qemu_cvbd_shraed_memory.Iov.{Bytes, overwrite}
use qemu_cvbd_shraed_memory.Message.{
  max_data_size, req_write, req_read, WriteRequest, ReadRequest, ReadReply, Request, Reply,
  write_request, read_request, read_reply,
}
use qemu_cvbd_shraed_memory.Host.{Env, Host, ret}
use qemu_cvbd_shraed_memory.Server.{VolumeState, Server, handle_requests}
use qemu_cvbd_shraed_memory.Server.Files.{write-done, read-done, dispatch-write, dispatch-read}
use qemu_cvbd_shraed_memory.SyncClient.{Port}
use qemu_cvbd_shraed_memory.SyncClient.Device.{Device}
use qemu_cvbd_shraed_memory.System.Steps.{serve_one}

unfoldable pub send_served : (env : Env) → ℕ → Request → Server env → Option (Server env)
send_served env q m s = elim (env.requests.send q m s.incoming) [
  | none ↦ none
  | some shm ↦ elim (handle_requests env 1 (record s { incoming = shm })) [
    | ok _ t ↦ some t
    | thrown _ ↦ none
    | stopped _ ↦ none
  ]
]

unfoldable pub take_reply : (env : Env) → ℕ → Server env → Option (Reply × Server env)
take_reply env q s = elim (env.replies.receive q s.outgoing) [
  | none ↦ none
  | some (m, shm) ↦ some (m, record s { outgoing = shm })
]

abbrev pub served : Env → Port
served env = record { World = Server env; send = send_served env; receive = take_reply env }

-- Inside the file, the system calls on this descriptor are not cut short.
pub record WholeCalls (host : Host) (fd : ℕ) : Type 0 where
  pub write_whole :
      (bytes : Bytes) (o : ℕ) (d : host.Disk)
      → o + length bytes ≤ length (host.contents fd d)
      → (d' : host.Disk) × (host.pwrite fd bytes (pos o) d ≡ (ret (length bytes), d'))
  pub read_whole :
      (n o : ℕ) (d : host.Disk)
      → o + n ≤ length (host.contents fd d)
      → (bytes : Bytes) × (d' : host.Disk) × (host.pread fd n (pos o) d ≡ (ret bytes, d'))
        × (length bytes ≡ n)

-- A server with this volume open at this address, and nothing in the queues.
pub record Idle (env : Env) (q volume : ℕ) (v : VolumeState) (s : Server env) : Type 0 where
  pub one_queue : s.request_mq ≡ q
  pub live : find volume s.heap ≡ some v
  pub no_requests : env.requests.messages q s.incoming ≡ []
  pub request_room : 0 < env.requests.capacity q s.incoming
  pub no_replies : env.replies.messages v.reply_mq s.outgoing ≡ []
  pub reply_room : 0 < env.replies.capacity v.reply_mq s.outgoing

module _ (env : Env) (q volume : ℕ) (v : VolumeState) (nonnull : volume ≢ 0)
    (whole : WholeCalls env.host v.fd) (s : Server env) (idle : Idle env q volume v s) where
  open env use {host, requests, replies}

  pub write_served :
      (r : WriteRequest) (o : ℕ)
      → r.header.stop ≡ false
      → r.header.type ≡ req_write
      → r.header.volume ≡ volume
      → r.offset ≡ pos o
      → r.size_in_bytes ≤ max_data_size
      → r.size_in_bytes ≤ length r.bytes
      → o + r.size_in_bytes ≤ length (host.contents v.fd s.disk)
      → (t : Server env) × (send_served env q (write_request r) s ≡ some t)
        × Idle env q volume v t
        × (host.contents v.fd t.disk
            ≡ overwrite (host.contents v.fd s.disk) o (take r.size_in_bytes r.bytes))
  unfolding send_served
  write_served r o goes type same at_o small enough inside =
      let m : Request = write_request r in
      let n = r.size_in_bytes in
      let payload = take n r.bytes in
      let len : length payload ≡ n = omega (arith, length-take n r.bytes) in
      let (shm, sent) = requests.send_room q m s.incoming (rw idle.no_requests idle.request_room) in
      let (queued, cap) = requests.send_messages q m s.incoming shm sent in
      let (left, taken, empty, kept) =
        requests.receive_first q m [] shm (queued ∙ rw idle.no_requests refl) in
      let (d, stored) = whole.write_whole payload o s.disk (omega arith) in
      let before : Server env = record s { incoming = left } in
      let effect = host.pwrite_in_file v.fd payload o n s.disk d (stored ∙ rw len refl) inside in
      let run =
        dispatch-write env before r type
        ∙ write-done env before v r d (rw same nonnull) (rw same idle.live) small
            (rw (at_o, stored, len) refl) in
      let round =
        serve_one env (record s { incoming = shm }) (record before { disk = d }) m left
          (rw idle.one_queue taken) goes run in
      (
        record before { disk = d },
        ground (arith, sent, round),
        record {
          one_queue = idle.one_queue;
          live = idle.live;
          no_requests = empty;
          request_room = rw (kept, cap) idle.request_room;
          no_replies = idle.no_replies;
          reply_room = idle.reply_room;
        },
        effect ∙ rw (take_all n payload (omega arith)) refl,
      )

  pub read_served :
      (r : ReadRequest) (o : ℕ)
      → r.header.stop ≡ false
      → r.header.type ≡ req_read
      → r.header.volume ≡ volume
      → r.offset ≡ pos o
      → r.size_in_bytes ≤ max_data_size
      → o + r.size_in_bytes ≤ length (host.contents v.fd s.disk)
      → (t u : Server env) × (reply : ReadReply) × (send_served env q (read_request r) s ≡ some t)
        × (take_reply env v.reply_mq t ≡ some (read_reply reply, u))
        × Idle env q volume v u
        × (host.contents v.fd u.disk ≡ host.contents v.fd s.disk)
        × (reply.header.type ≡ req_read)
        × (reply.size_in_bytes ≡ r.size_in_bytes)
        × (take r.size_in_bytes reply.bytes
            ≡ take r.size_in_bytes (drop o (host.contents v.fd s.disk)))
  unfolding send_served take_reply
  read_served r o goes type same at_o small inside =
      let m : Request = read_request r in
      let n = r.size_in_bytes in
      let (shm, sent) = requests.send_room q m s.incoming (rw idle.no_requests idle.request_room) in
      let (queued, cap) = requests.send_messages q m s.incoming shm sent in
      let (left, taken, empty, kept) =
        requests.receive_first q m [] shm (queued ∙ rw idle.no_requests refl) in
      let (loaded, d, got, full) = whole.read_whole n o s.disk inside in
      let (short, text, unchanged) = host.pread_lem v.fd n o loaded s.disk d got in
      let before : Server env = record s { incoming = left } in
      let reply : ReadReply = record {
        header = r.header;
        size_in_bytes = length loaded;
        bytes = loaded;
      } in
      let (rshm, answered) =
        replies.send_room v.reply_mq (read_reply reply) s.outgoing
          (rw idle.no_replies idle.reply_room) in
      let (answers, rcap) =
        replies.send_messages v.reply_mq (read_reply reply) s.outgoing rshm answered in
      let (rleft, rtaken, rempty, rkept) =
        replies.receive_first v.reply_mq (read_reply reply) [] rshm
          (answers ∙ rw idle.no_replies refl) in
      let after : Server env = record before { disk = d; outgoing = rshm } in
      let run =
        dispatch-read env before r type
        ∙ read-done env before v r loaded d rshm (rw same nonnull) (rw same idle.live) small
            (rw at_o got) full answered in
      let round =
        serve_one env (record s { incoming = shm }) after m left (rw idle.one_queue taken) goes
          run in
      (
        after,
        record after { outgoing = rleft },
        reply,
        ground (arith, sent, round),
        ground (arith, rtaken),
        record {
          one_queue = idle.one_queue;
          live = idle.live;
          no_requests = empty;
          request_room = rw (kept, cap) idle.request_room;
          no_replies = rempty;
          reply_room = rw (rkept, rcap) idle.reply_room;
        },
        unchanged,
        type,
        full,
        take_all n loaded (omega arith) ∙ text ∙ rw full refl,
      )

-- The contract that the synchronous client relies on.
abbrev pub volume_device :
    (env : Env) (q volume : ℕ) (v : VolumeState)
    → volume ≢ 0
    → WholeCalls env.host v.fd
    → Device (served env) q v.reply_mq volume
volume_device env q volume v nonnull whole = record {
  Ready = Idle env q volume v;
  disk = λ s. env.host.contents v.fd s.disk;
  write_lem = λ s r o idle. write_served env q volume v nonnull whole s idle r o;
  read_lem = λ s r o idle. read_served env q volume v nonnull whole s idle r o;
}
