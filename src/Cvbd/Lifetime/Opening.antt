-- ===== src/Cvbd/Lifetime/Opening.antt =====
-- cvbd.c: what `cvbd_open` does where it fails, and where it succeeds.
use qemu_cvbd_shraed_memory.Common.{
  ℕ, ◌^◌, ◌%◌, ◌≡◌, ◌≢◌, ◌≤◌, ◌<◌, refl, sym, ◌∙◌, false, none, some, [], length, drop, arith,
  append-nil,
}
use qemu_cvbd_shraed_memory.Common.Int.{pos}
use qemu_cvbd_shraed_memory.Common.Outcome.{ok, stopped, blocked}
use qemu_cvbd_shraed_memory.Common.Store.{find}
use qemu_cvbd_shraed_memory.Iov.{Bytes}
use qemu_cvbd_shraed_memory.Message.{OpenRequest, c_string, max_queue_num, max_queue_size}
use qemu_cvbd_shraed_memory.Message.Names.{NoNul, init_open_lem}
use qemu_cvbd_shraed_memory.Host.{Env, ret}
use qemu_cvbd_shraed_memory.Server.{VolumeState, open_path}
use qemu_cvbd_shraed_memory.Queues.{queue_name, last_char}
use qemu_cvbd_shraed_memory.AsyncClient.{Client}
use qemu_cvbd_shraed_memory.System.{System}
use qemu_cvbd_shraed_memory.System.Flight.{queued, answers}
use qemu_cvbd_shraed_memory.Cvbd.{cvbd_blksize}
use qemu_cvbd_shraed_memory.AsyncClient.Making.{Fresh}
use qemu_cvbd_shraed_memory.Cvbd.Lifetime.{
  State, wait_first, signal_first, answered_open, create_volume, cvbd_open,
}
use qemu_cvbd_shraed_memory.Cvbd.Lifetime.Answered.{answered_open-opens}

module _ (env : Env) (decimal : ℕ → Bytes) (fresh : Fresh) (s : State env decimal fresh) (errno : ℕ)
    (name : Bytes) (q k : ℕ) (shm : env.replies.Shm) where
  -- The device after `cvbd_open`.
  abbrev opened : System env → State env decimal fresh
  opened t = record {
    reads = 0;
    writes = 0;
    missing_reads = 0;
    read_modify_writes = 0;
    request_alignment = cvbd_blksize;
    options = record (s.options) { export = none };
    handle = some (t.client);
    server = t.server;
  }

  -- The client as it is constructed, beside the server.
  abbrev made : System env
  made = record {
    client = record {
      request_mq = q;
      reply_mq = k;
      request_msg = fresh.request_msg;
      reply_msg = fresh.reply_msg;
      volume_name = name;
      volume = fresh.volume;
      id = fresh.id;
      waiting = false;
      outgoing = s.server.incoming;
      incoming = shm;
      acbs = [];
    };
    server = record (s.server) { outgoing = shm };
  }

  cvbd_open-made :
      (t : System env)
      → 0 < length name
      → env.requests.open_only (queue_name env decimal 0) s.server.incoming ≡ some q
      → env.replies.create_only name max_queue_size (env.replies.remove name s.server.outgoing).1
        ≡ some (k, shm)
      → answered_open env wait_first made ≡ ok (pos 0) t
      → cvbd_open env decimal fresh (some name) errno wait_first s ≡ ok (pos 0) (opened t)
  unfolding cvbd_open create_volume
  cvbd_open-made t some_name found created run =
      let zero_queue : last_char env decimal name % max_queue_num ≡ 0 = omega arith in
      ground (arith, zero_queue, found, created, run)

  cvbd_open-hangs :
      0 < length name
      → env.requests.open_only (queue_name env decimal 0) s.server.incoming ≡ some q
      → env.replies.create_only name max_queue_size (env.replies.remove name s.server.outgoing).1
        ≡ some (k, shm)
      → answered_open env signal_first made ≡ stopped blocked
      → cvbd_open env decimal fresh (some name) errno signal_first s ≡ stopped blocked
  unfolding cvbd_open create_volume
  cvbd_open-hangs some_name found created run =
      let zero_queue : last_char env decimal name % max_queue_num ≡ 0 = omega arith in
      ground (arith, zero_queue, found, created, run)

  -- A server runs, whose request queue is the one that the client will find, is empty and has room.
  -- The name is not empty, holds no NUL, fits into the arrays of the request, and the bytes behind it
  -- in the new request buffer are NUL; its reply queue can be created, its file opens and `ftruncate`
  -- succeeds. Where the answer is signalled before the thread waits, the signal is lost and
  -- `cvbd_open` never returns. Where the thread waits first, `cvbd_open` returns 0 with a client
  -- at the handle, whose volume is not null and is the server's new one, with this file and the
  -- client's reply queue. Both use the same request queue, both queues are empty and the client has
  -- no request block: nothing is under way. The disk is as `ftruncate` left it, requests are to be
  -- aligned to 4096 bytes, "export" is out of the options, and the reply queue can hold
  -- `max_queue_size` answers.
  pub cvbd_open-quiet :
      (fd : ℕ) (d d' : env.host.Disk)
      → 0 < length name
      → NoNul name
      → length name ≤ length (env.layout.as_open fresh.request_msg).volume_name
      → length name ≤ length (env.layout.as_open fresh.request_msg).reply_mq_name
      → c_string (drop (length name) (env.layout.as_open fresh.request_msg).volume_name) ≡ some []
      → c_string (drop (length name) (env.layout.as_open fresh.request_msg).reply_mq_name) ≡ some []
      → env.requests.open_only (queue_name env decimal 0) s.server.incoming ≡ some q
      → s.server.request_mq ≡ q
      → env.requests.messages q s.server.incoming ≡ []
      → 0 < env.requests.capacity q s.server.incoming
      → env.replies.create_only name max_queue_size (env.replies.remove name s.server.outgoing).1
        ≡ some (k, shm)
      → env.host.open_rdwr (open_path name) s.server.disk ≡ (ret fd, d)
      → env.host.ftruncate fd (2 ^ 34) d ≡ (ret tt, d')
      → let v : VolumeState = record { volume_name = name; volume_id = 0; fd = fd; reply_mq = k } in
        (cvbd_open env decimal fresh (some name) errno signal_first s ≡ stopped blocked)
        × (t : State env decimal fresh) × (c : Client env) × (cvbd_open env decimal fresh
              (some name)
              errno
              wait_first
              s
            ≡ ok (pos 0) t)
        × (t.handle ≡ some c)
        × (c.volume ≢ 0)
        × (find c.volume t.server.heap ≡ some v)
        × (t.server.request_mq ≡ c.request_mq)
        × (v.reply_mq ≡ c.reply_mq)
        × (queued env (record { client = c; server = t.server }) ≡ [])
        × (answers env (record { client = c; server = t.server }) ≡ [])
        × (c.acbs ≡ [])
        × (t.server.disk ≡ d')
        × (t.request_alignment ≡ 4096)
        × (t.options.export ≡ none)
        × (env.replies.capacity k t.server.outgoing ≡ max_queue_size)
  cvbd_open-quiet fd d d' some_name no_nul fits mq_fits end mq_end found served_mq idle room created
        opens truncates =
      let (empty, reply_room, finds) =
        env.replies.create_messages name max_queue_size k _ shm created in
      let raw : OpenRequest = env.layout.as_open fresh.request_msg in
      let (req, named, volume_name, mq_name) =
        init_open_lem (record raw { header = _ }) name name fits mq_fits no_nul in
      let (
        hangs, t, run, nonnull, live, one_mq, same_mq, none_queued, none_answered, no_blocks, disk,
        cap,
      ) =
        answered_open-opens env made req name name fd d d' named
          (volume_name ∙ rw (end, append-nil name) refl)
          (mq_name ∙ rw (mq_end, append-nil name) refl) served_mq idle room opens finds empty
          (omega (arith, reply_room)) truncates in
      (
        cvbd_open-hangs some_name found created hangs,
        opened t,
        t.client,
        cvbd_open-made t some_name found created run,
        refl,
        nonnull,
        live,
        one_mq,
        sym same_mq,
        none_queued,
        none_answered,
        no_blocks,
        disk,
        refl,
        refl,
        cap ∙ reply_room,
      )
