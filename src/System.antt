-- ===== src/System.antt =====
-- One client and the server over the same shared memory: what each does is what the code of its
-- component does, and the two queues that it leaves are what the other finds.
pub mod Steps
pub mod Exchange
pub mod Volume
pub mod Synchronous
pub mod Opening
pub mod Closing
pub mod Flush
pub mod Sequential
pub mod Flight
mod Tests
use qemu_cvbd_shraed_memory.Common.{ℕ, Bool, List}
use qemu_cvbd_shraed_memory.Common.Int.{ℤ}
use qemu_cvbd_shraed_memory.Common.Outcome.{Outcome, ok, thrown, stopped, M, ◌>>=◌}
use qemu_cvbd_shraed_memory.Iov.{Bytes}
use qemu_cvbd_shraed_memory.Host.{Env}
use qemu_cvbd_shraed_memory.Server.{Server, handle_requests}
use qemu_cvbd_shraed_memory.AsyncClient.{Client, co_reply_round}
use qemu_cvbd_shraed_memory.Cvbd.{
  Started, returned, yielded, co_readv, co_writev, co_flush_to_disk, complete_aio,
}

-- The queues in `server` are the current ones.
pub record System (env : Env) : Type 0 where
  pub client : Client env
  pub server : Server env

module _ (env : Env) where
  abbrev pub client_view : System env → Client env
  client_view s = record (s.client) { outgoing = s.server.incoming; incoming = s.server.outgoing }

  abbrev pub after_client : System env → Client env → System env
  after_client s c = record {
    client = c;
    server = record (s.server) { incoming = c.outgoing; outgoing = c.incoming };
  }

  unfoldable pub on_client : {A : Type 0} → M (Client env) A → M (System env) A
  on_client m s = elim (m (client_view s)) [
    | ok a c ↦ ok a (after_client s c)
    | thrown c ↦ thrown (after_client s c)
    | stopped e ↦ stopped e
  ]

  unfoldable pub on_server : {A : Type 0} → M (Server env) A → M (System env) A
  on_server m s = elim (m s.server) [
    | ok a t ↦ ok a (record s { server = t })
    | thrown t ↦ thrown (record s { server = t })
    | stopped e ↦ stopped e
  ]

  -- A write by one coroutine, and a read of the same sectors by another, each served in turn; the
  -- reply thread takes the answer.
  unfoldable pub write_then_read : ℤ → ℤ → List Bytes → List Bytes → M (System env) Started
  write_then_read sector_num nb_sectors from to = do
    _ ← on_client (co_writev env sector_num nb_sectors from)
    _ ← on_server (handle_requests env 1)
    reading ← on_client (co_readv env sector_num nb_sectors to)
    _ ← on_server (handle_requests env 1)
    _ ← on_client (co_reply_round env)
    λ s. ok reading s

  -- A flush by one coroutine, from the call to its result: the server answers, and the reply thread
  -- takes the answer.
  unfoldable pub flush : M (System env) ℤ
  flush = do
    started ← on_client (co_flush_to_disk env)
    λ s. elim started [
      | returned result ↦ ok result s
      | yielded a ↦
          (do
            _ ← on_server (handle_requests env 1)
            _ ← on_client (co_reply_round env)
            on_client (complete_aio env a))
            s
    ]
