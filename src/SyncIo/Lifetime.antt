-- ===== src/SyncIo/Lifetime.antt =====
-- cvbd_syncio.c: opening a device, its calls, and closing it. The client's queues lead to a server
-- that serves each request before the client goes on.
pub mod Opening
pub mod Session
mod Tests
use qemu_cvbd_shraed_memory.Common.{ℕ, Bool, true, false, Option, none, some, ◌==◌}
use qemu_cvbd_shraed_memory.Common.Int.{ℤ, pos, eqb_ℤ}
use qemu_cvbd_shraed_memory.Common.Outcome.{
  Outcome, ok, thrown, stopped, Stop, crashed, M, ◌>>=◌, ◌>>◌, pure, stop,
}
use qemu_cvbd_shraed_memory.Iov.{Bytes}
use qemu_cvbd_shraed_memory.Message.{Request, Reply}
use qemu_cvbd_shraed_memory.Host.{Env}
use qemu_cvbd_shraed_memory.Server.{Server}
use qemu_cvbd_shraed_memory.Aio.{minus_einval}
use qemu_cvbd_shraed_memory.Cvbd.{cvbd_blksize}
use qemu_cvbd_shraed_memory.Uri.{Dict}
use qemu_cvbd_shraed_memory.Queues.{shared_mem_make_client}
use qemu_cvbd_shraed_memory.SyncClient.{SharedMemClient, create_volume, release_volume}
use qemu_cvbd_shraed_memory.System.Volume.{served}
use qemu_cvbd_shraed_memory.SyncIo.{cvbd_read, cvbd_write}

-- What `new Request()` and `new Reply()` hold, what the constructor leaves in `volume_`, and the
-- counter that clients of one process share.
pub record Fresh : Type 0 where
  pub request_msg : Request
  pub reply_msg : Reply
  pub volume : ℕ
  pub id : ℕ

module _ (env : Env) (decimal : ℕ → Bytes) (fresh : Fresh) where
  -- The fields of BlockDriverState and CVBDState that the driver uses, and the driver's options. The
  -- world in the handle is out of date.
  pub record State : Type 0 where
    pub request_alignment : ℕ
    pub missing_reads : ℕ
    pub reads : ℕ
    pub writes : ℕ
    pub read_modify_writes : ℕ
    pub handle : Option (SharedMemClient (served env) env.layout)
    pub options : Dict
    pub world : Server env

  -- A method of the client at the handle; there is none at a null pointer.
  unfoldable pub on_handle :
      {A : Type 0} → M (SharedMemClient (served env) env.layout) A → M State A
  on_handle m s = elim (s.handle) [
    | none ↦ stopped crashed
    | some c ↦ elim (m (record c { world = s.world })) [
      | ok a d ↦ ok a (record s { handle = some d; world = d.world })
      | thrown d ↦ thrown (record s { handle = some d; world = d.world })
      | stopped e ↦ stopped e
    ]
  ]

  -- `s->sharedMemHandle = shared_mem_make_client(export)`. A string made from a null pointer throws.
  unfoldable pub make_client : Option Bytes → M State Bool
  make_client none s = ok false (record s { handle = none })
  make_client (some name) s =
      elim (shared_mem_make_client env decimal name
        (record { outgoing = s.world.incoming; incoming = s.world.outgoing })) [
          | ok made m ↦
              let w : Server env = record (s.world) {
                incoming = m.outgoing;
                outgoing = m.incoming;
              } in
              elim made [
                | none ↦ ok false (record s { handle = none; world = w })
                | some o ↦ ok true (record s {
                  handle = some (record {
                    request_mq = o.request_mq;
                    reply_mq = o.reply_mq;
                    request_msg = fresh.request_msg;
                    reply_msg = fresh.reply_msg;
                    volume_name = name;
                    volume = fresh.volume;
                    id = fresh.id;
                    world = w;
                  });
                  world = w;
                })
              ]
          | thrown m ↦ thrown s
          | stopped e ↦ stopped e
        ]

  -- `cvbd_config`: "export" is taken out of the options.
  unfoldable pub cvbd_config : M State (Unit {0})
  cvbd_config s = ok tt (record s { options = record (s.options) { export = none } })

  -- `cvbd_open`: `volume` is the option "export", and `errno` what `create_volume` finds there.
  unfoldable pub cvbd_open : Option Bytes → ℕ → M State ℤ
  unfolding make_client on_handle cvbd_config
  cvbd_open volume errno = do
    reset
    made ← make_client volume
    result ← elim made [
      | false ↦ pure minus_einval
      | true ↦ on_handle (create_volume (served env) env.layout errno)
    ]
    cvbd_config
    pure result
    where
      reset : M State (Unit {0})
      reset s = ok tt (record s {
        reads = 0;
        writes = 0;
        missing_reads = 0;
        read_modify_writes = 0;
        request_alignment = cvbd_blksize;
      })

  -- `~SharedMemClient`: the name of the reply queue goes.
  unfoldable pub delete_client : SharedMemClient (served env) env.layout → M State (Unit {0})
  delete_client c s = ok tt (record s {
    world = record (s.world) { outgoing = (env.replies.remove c.volume_name s.world.outgoing).1 };
  })

  -- `shared_mem_destroy_client`: the handle is an object no more; nothing is deleted at a null pointer.
  unfoldable pub destroy_client : M State (Unit {0})
  unfolding delete_client
  destroy_client s = elim (s.handle) [
    | none ↦ ok tt s
    | some c ↦ (do delete_client c; λ t. ok tt (record t { handle = none })) s
  ]

  unfoldable pub cvbd_close : M State (Unit {0})
  unfolding on_handle destroy_client
  cvbd_close = do _ ← on_handle (release_volume (served env) env.layout); destroy_client

  -- A device is opened, written to, read from, and closed: the results, and the buffer read into.
  unfoldable pub session : Option Bytes → ℕ → ℤ → ℤ → Bytes → Bytes → M State (ℤ × ℤ × (ℤ × Bytes))
  unfolding on_handle cvbd_open cvbd_close
  session volume errno sector_num nb_sectors buffer other = do
    opened ← cvbd_open volume errno
    wrote ←
        (on_handle
          (cvbd_write (served env) env.layout env.bdrv_sector_size sector_num nb_sectors buffer))
    got ←
        (on_handle
          (cvbd_read (served env) env.layout env.bdrv_sector_size sector_num nb_sectors other))
    cvbd_close
    pure (opened, wrote, got)
