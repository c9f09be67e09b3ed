-- ===== src/SyncIo/Lifetime/Opening.antt =====
-- cvbd_syncio.c: what `cvbd_open` does where it fails, and where it succeeds.
use qemu_cvbd_shraed_memory.Common.{
  ℕ, ◌^◌, ◌%◌, ◌≡◌, ◌≢◌, ◌≤◌, ◌<◌, refl, ◌∙◌, Option, none, some, [], length, drop, arith,
  append-nil,
}
use qemu_cvbd_shraed_memory.Common.Int.{pos}
use qemu_cvbd_shraed_memory.Common.Outcome.{ok}
use qemu_cvbd_shraed_memory.Iov.{Bytes}
use qemu_cvbd_shraed_memory.Message.{OpenRequest, c_string, max_queue_num, max_queue_size}
use qemu_cvbd_shraed_memory.Message.Names.{NoNul, init_open_lem}
use qemu_cvbd_shraed_memory.Host.{Env, ret}
use qemu_cvbd_shraed_memory.Server.{VolumeState, Server, open_path}
use qemu_cvbd_shraed_memory.Aio.{minus_einval}
use qemu_cvbd_shraed_memory.Queues.{queue_name, last_char, shared_mem_make_client}
use qemu_cvbd_shraed_memory.SyncClient.{SharedMemClient, send_open, create_volume}
use qemu_cvbd_shraed_memory.SyncClient.Requests.{Attached}
use qemu_cvbd_shraed_memory.System.Volume.{served, WholeCalls, volume_device}
use qemu_cvbd_shraed_memory.System.Opening.{send_open-Attached}
use qemu_cvbd_shraed_memory.SyncIo.Lifetime.{Fresh, State, cvbd_open}
use qemu_cvbd_shraed_memory.Cvbd.{cvbd_blksize}

module _ (env : Env) (decimal : ℕ → Bytes) (fresh : Fresh) (s : State env decimal fresh) where
  -- The device after `cvbd_open`, up to its handle and its world.
  abbrev opened :
      Option (SharedMemClient (served env) env.layout) → Server env → State env decimal fresh
  opened handle world = record {
    reads = 0;
    writes = 0;
    missing_reads = 0;
    read_modify_writes = 0;
    request_alignment = cvbd_blksize;
    options = record (s.options) { export = none };
    handle = handle;
    world = world;
  }

  abbrev unnamed : Bytes → Server env
  unnamed name = record (s.world) { outgoing = (env.replies.remove name s.world.outgoing).1 }

  -- Without a name, and with a name that is not empty while no server has made its request queue,
  -- `cvbd_open` returns -EINVAL and leaves a null handle. It has sent no request and taken no
  -- answer; where there is a name, a reply queue of this name is removed, and nothing else of the
  -- server has changed.
  pub cvbd_open-fails :
      (name : Bytes) (errno : ℕ)
      → 0 < length name
      → env.requests.open_only (queue_name env decimal 0) s.world.incoming ≡ none
      → (t u : State env decimal fresh) × (cvbd_open env decimal fresh none errno s
          ≡ ok minus_einval t)
        × (t.handle ≡ none)
        × (t.world ≡ s.world)
        × (cvbd_open env decimal fresh (some name) errno s ≡ ok minus_einval u)
        × (u.handle ≡ none)
        × (u.world ≡ unnamed name)
  unfolding cvbd_open shared_mem_make_client
  cvbd_open-fails name errno some_name missing =
      let zero_queue : last_char env decimal name % max_queue_num ≡ 0 = omega arith in
      (
        opened none s.world,
        opened none (unnamed name),
        refl,
        refl,
        refl,
        ground (arith, zero_queue, missing),
        refl,
        refl,
      )

  module _ (name : Bytes) (q k : ℕ) (shm : env.replies.Shm) where
    -- The world with the new reply queue, and the client that finds it.
    abbrev made : Server env
    made = record (s.world) { outgoing = shm }

    abbrev client : SharedMemClient (served env) env.layout
    client = record {
      request_mq = q;
      reply_mq = k;
      request_msg = fresh.request_msg;
      reply_msg = fresh.reply_msg;
      volume_name = name;
      volume = fresh.volume;
      id = fresh.id;
      world = made;
    }

    cvbd_open-made :
        (errno : ℕ) (c : SharedMemClient (served env) env.layout)
        → 0 < length name
        → env.requests.open_only (queue_name env decimal 0) s.world.incoming ≡ some q
        → env.replies.create_only name max_queue_size (env.replies.remove name s.world.outgoing).1
          ≡ some (k, shm)
        → send_open (served env) env.layout client ≡ ok (pos 0) c
        → cvbd_open env decimal fresh (some name) errno s ≡ ok (pos 0) (opened (some c) (c.world))
    unfolding cvbd_open shared_mem_make_client create_volume
    cvbd_open-made errno c some_name found created run =
        let zero_queue : last_char env decimal name % max_queue_num ≡ 0 = omega arith in
        ground (arith, zero_queue, found, created, run)

    -- A server runs, whose request queue is the one that the client will find, is empty and has room.
    -- The name is not empty, holds no NUL, fits into the arrays of the request, and the bytes behind it
    -- in the new request buffer are NUL; its reply queue can be created, its file opens, `ftruncate`
    -- succeeds, and later calls on the file are not cut short inside it. Then `cvbd_open` returns 0
    -- with a client at the handle that is attached to the new volume, with the disk as `ftruncate`
    -- left it; requests are to be aligned to 4096 bytes, and "export" is out of the options.
    pub cvbd_open-Attached :
        (errno fd : ℕ) (d d' : env.host.Disk) (whole : WholeCalls env.host fd)
        → 0 < length name
        → NoNul name
        → length name ≤ length (env.layout.as_open fresh.request_msg).volume_name
        → length name ≤ length (env.layout.as_open fresh.request_msg).reply_mq_name
        → c_string (drop (length name) (env.layout.as_open fresh.request_msg).volume_name) ≡ some []
        → c_string (drop (length name) (env.layout.as_open fresh.request_msg).reply_mq_name)
          ≡ some []
        → env.requests.open_only (queue_name env decimal 0) s.world.incoming ≡ some q
        → s.world.request_mq ≡ q
        → env.requests.messages q s.world.incoming ≡ []
        → 0 < env.requests.capacity q s.world.incoming
        → env.replies.create_only name max_queue_size (env.replies.remove name s.world.outgoing).1
          ≡ some (k, shm)
        → env.host.open_rdwr (open_path name) s.world.disk ≡ (ret fd, d)
        → env.host.ftruncate fd (2 ^ 34) d ≡ (ret tt, d')
        → let v : VolumeState = record {
          volume_name = name;
          volume_id = 0;
          fd = fd;
          reply_mq = k;
        } in
          (t : State env decimal fresh) × (c : SharedMemClient (served env) env.layout)
          × (nonnull : c.volume ≢ 0) × (cvbd_open env decimal fresh (some name) errno s
              ≡ ok (pos 0) t)
          × (t.handle ≡ some c)
          × (c.world ≡ t.world)
          × Attached (volume_device env q c.volume v nonnull whole) env.layout c
          × (t.world.disk ≡ d')
          × (t.request_alignment ≡ 4096)
          × (t.options.export ≡ none)
    cvbd_open-Attached errno fd d d' whole some_name no_nul fits mq_fits end mq_end found served_mq
          idle room created opens truncates =
        let (empty, reply_room, finds) =
          env.replies.create_messages name max_queue_size k _ shm created in
        let raw : OpenRequest = env.layout.as_open fresh.request_msg in
        let (req, named, volume_name, mq_name) =
          init_open_lem (record raw { header = _ }) name name fits mq_fits no_nul in
        let (c, nonnull, run, attached, disk) =
          send_open-Attached env client req name name fd d d' whole named
            (volume_name ∙ rw (end, append-nil name) refl)
            (mq_name ∙ rw (mq_end, append-nil name) refl) served_mq idle room opens finds empty
            (omega (arith, reply_room)) truncates in
        (
          opened (some c) (c.world),
          c,
          nonnull,
          cvbd_open-made errno c some_name found created run,
          refl,
          refl,
          attached,
          disk,
          refl,
          refl,
        )
