-- ===== src/Cvbd/Lifetime.antt =====
-- cvbd.c: opening a device, its size, and closing it. The client runs beside the server and its own
-- reply thread.
pub mod Answered
pub mod Opening
pub mod Closing
pub mod Running
mod Tests
use qemu_cvbd_shraed_memory.Common.{ℕ, Bool, true, false, Option, none, some, []}
use qemu_cvbd_shraed_memory.Common.Int.{ℤ, pos, sub_ℕ, to_u64, to_i64}
use qemu_cvbd_shraed_memory.Common.Outcome.{
  Outcome, ok, thrown, stopped, Stop, crashed, M, ◌>>=◌, ◌>>◌, pure, catch,
}
use qemu_cvbd_shraed_memory.Iov.{Bytes}
use qemu_cvbd_shraed_memory.Host.{Env}
use qemu_cvbd_shraed_memory.Server.{Server, handle_requests}
use qemu_cvbd_shraed_memory.Aio.{minus_einval}
use qemu_cvbd_shraed_memory.Cvbd.{cvbd_blksize}
use qemu_cvbd_shraed_memory.Uri.{Dict}
use qemu_cvbd_shraed_memory.AsyncClient.Making
use qemu_cvbd_shraed_memory.AsyncClient.Making.{Fresh}
use qemu_cvbd_shraed_memory.AsyncClient.{
  Client, post_open, wait_to_complete, finish_open, co_reply_round, release_volume, getsize_volume,
}
use qemu_cvbd_shraed_memory.AsyncClient.Ending.{destroy}
use qemu_cvbd_shraed_memory.System.{System, on_client, on_server}

-- What comes first: the wait of the thread that opens, or the signal that the answer has come.
pub data First : Type 0 where
  wait_first signal_first : First

module _ (env : Env) where
  -- The server serves the request, and the reply thread takes the answer and signals.
  unfoldable pub answered : M (System env) (Unit {0})
  unfolding on_client on_server
  answered = do
    _ ← on_server env (handle_requests env 1)
    _ ← on_client env (co_reply_round env)
    pure tt

  -- `send_open` beside the server and the reply thread. No further message is under way when the
  -- wait has to end, so that no other signal will come.
  unfoldable pub answered_open : First → M (System env) ℤ
  unfolding on_client answered
  answered_open first = do
    on_client env (post_open env)
    elim first [
      | wait_first ↦ (do on_client env (wait_to_complete env); answered)
      | signal_first ↦ (do answered; on_client env (wait_to_complete env))
    ]
    on_client env (finish_open env)

  -- `create_volume`; `errno` is the caller's, after an exception.
  unfoldable pub create_volume : ℕ → First → M (System env) ℤ
  unfolding answered_open
  create_volume errno first = catch (answered_open first) (sub_ℕ 0 errno)

module _ (env : Env) (decimal : ℕ → Bytes) (fresh : Fresh) where
  -- The fields of BlockDriverState and CVBDState that the driver uses, the driver's options, and the
  -- server, whose queues are the current ones.
  pub record State : Type 0 where
    pub request_alignment : ℕ
    pub missing_reads : ℕ
    pub reads : ℕ
    pub writes : ℕ
    pub read_modify_writes : ℕ
    pub handle : Option (Client env)
    pub options : Dict
    pub server : Server env

  -- What runs while the driver is in a method of the client at the handle; there is none at a null
  -- pointer.
  unfoldable pub on_handle : {A : Type 0} → M (System env) A → M State A
  on_handle m s = elim (s.handle) [
    | none ↦ stopped crashed
    | some c ↦ elim (m (record { client = c; server = s.server })) [
      | ok a t ↦ ok a (record s { handle = some (t.client); server = t.server })
      | thrown t ↦ thrown (record s { handle = some (t.client); server = t.server })
      | stopped e ↦ stopped e
    ]
  ]

  -- `s->sharedMemHandle = shared_mem_make_client(export)`.
  unfoldable pub make_client : Option Bytes → M State Bool
  unfolding Making.make_client
  make_client volume s =
      elim (Making.make_client env decimal fresh volume
        (record { outgoing = s.server.incoming; incoming = s.server.outgoing })) [
          | ok made m ↦
              ok (elim made [ none ↦ false | some _ ↦ true ])
                (record s {
                  handle = made;
                  server = record (s.server) { incoming = m.outgoing; outgoing = m.incoming };
                })
          | thrown m ↦ thrown s
          | stopped e ↦ stopped e
        ]

  -- `cvbd_config`: "export" is taken out of the options.
  unfoldable pub cvbd_config : M State (Unit {0})
  cvbd_config s = ok tt (record s { options = record (s.options) { export = none } })

  -- `cvbd_open`: `volume` is the option "export", and `errno` what `create_volume` finds there.
  unfoldable pub cvbd_open : Option Bytes → ℕ → First → M State ℤ
  unfolding make_client on_handle cvbd_config create_volume
  cvbd_open volume errno first = do
    reset
    made ← make_client volume
    result ← elim made [
      | false ↦ pure minus_einval
      | true ↦ on_handle (create_volume env errno first)
    ]
    cvbd_config
    pure result
    where
      reset : M State (Unit {0})
      reset s = ok tt (record s {
        reads = 0;
        writes = 0;
        missing_reads = 0;
        read_modify_writes = 0;
        request_alignment = cvbd_blksize;
      })

  -- `shared_mem_destroy_client`; nothing is deleted at a null pointer.
  unfoldable pub destroy_client : M State (Unit {0})
  unfolding on_handle on_client destroy
  destroy_client s = elim (s.handle) [
    | none ↦ ok tt s
    | some _ ↦
        (do on_handle (on_client env (destroy env)); λ t. ok tt (record t { handle = none })) s
  ]

  unfoldable pub cvbd_close : M State (Unit {0})
  unfolding on_handle on_client destroy_client
  cvbd_close = do _ ← on_handle (on_client env (release_volume env)); destroy_client

  -- `cvbd_getlength`: the size goes through an unsigned variable.
  unfoldable pub cvbd_getlength : M State ℤ
  unfolding on_handle on_client
  cvbd_getlength = do
    size ← on_handle (on_client env (getsize_volume env))
    pure (to_i64 (to_u64 size))
