-- ===== src/Queues/Starting.antt =====
-- SharedMemServer.h and server.c: the server that `main` starts. Its one request thread serves the
-- one queue that its constructor has made.
use qemu_cvbd_shraed_memory.Common.{ℕ, ◌≡◌, some, List, [], ◌∷◌, arith}
use qemu_cvbd_shraed_memory.Common.Outcome.{ok, thrown, stopped, aborted, M, ◌>>=◌}
use qemu_cvbd_shraed_memory.Iov.{Bytes}
use qemu_cvbd_shraed_memory.Message.{max_queue_size}
use qemu_cvbd_shraed_memory.Host.{Env}
use qemu_cvbd_shraed_memory.Server.{Server}
use qemu_cvbd_shraed_memory.Queues.{queue_name, start_server, create_queues, create_queue}

module _ (env : Env) (decimal : ℕ → Bytes) where
  -- The first loop of the constructor, in the process of the server.
  unfoldable pub make_queues : M (Server env) (List ℕ)
  make_queues s = elim (start_server env decimal s.incoming) [
    | ok hs shm ↦ ok hs (record s { incoming = shm })
    | thrown shm ↦ thrown (record s { incoming = shm })
    | stopped e ↦ stopped e
  ]

  -- `request_mqs_.at(index)` of the thread with the index 0; out of range it throws, and nothing
  -- catches that.
  unfoldable pub on_queue : List ℕ → M (Server env) (Unit {0})
  on_queue [] s = stopped aborted
  on_queue (h ∷ hs) s = ok tt (record s { request_mq = h })

  -- `main`, until the thread serves its first request.
  unfoldable pub start : M (Server env) (Unit {0})
  unfolding make_queues on_queue
  start = do hs ← make_queues; on_queue hs

  pub start-made :
      (s : Server env) (h : ℕ) (shm : env.requests.Shm)
      → env.requests.create_only
          (queue_name env decimal 0)
          max_queue_size
          (env.requests.remove (queue_name env decimal 0) s.incoming).1
        ≡ some (h, shm)
      → start s ≡ ok tt (record s { request_mq = h; incoming = shm })
  unfolding start start_server create_queues create_queue
  start-made s h shm made = ground (arith, made)
