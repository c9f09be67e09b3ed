-- ===== src/AsyncClient/Making.antt =====
-- SharedMemClientASync.cpp: the constructor of the client, and the function that calls it. The reply
-- thread that it starts is the rounds of `co_reply_round`, and the condition variable that it
-- initialises is `waiting`.
use qemu_cvbd_shraed_memory.Common.{ℕ, false, Option, none, some, []}
use qemu_cvbd_shraed_memory.Common.Outcome.{ok, M, ◌>>=◌, pure, catch}
use qemu_cvbd_shraed_memory.Iov.{Bytes}
use qemu_cvbd_shraed_memory.Message.{Request, Reply}
use qemu_cvbd_shraed_memory.Host.{Env}
use qemu_cvbd_shraed_memory.Queues.{Memory, Opened}
use qemu_cvbd_shraed_memory.Queues
use qemu_cvbd_shraed_memory.AsyncClient.{Client}

-- What `new Request()` and `new Reply()` hold, what the constructor leaves in `volume_`, and the
-- counter that clients of one process share.
pub record Fresh : Type 0 where
  pub request_msg : Request
  pub reply_msg : Reply
  pub volume : ℕ
  pub id : ℕ

module _ (env : Env) (decimal : ℕ → Bytes) (fresh : Fresh) where
  -- `SharedMemClient(volume_name)`. Its queues are made as in the other client.
  unfoldable pub new_client : Bytes → M (Memory env decimal) (Client env)
  unfolding Queues.new_client
  new_client volume_name = Queues.new_client env decimal volume_name >>= λ o m.
      ok
        (record {
          request_mq = o.request_mq;
          reply_mq = o.reply_mq;
          request_msg = fresh.request_msg;
          reply_msg = fresh.reply_msg;
          volume_name = volume_name;
          volume = fresh.volume;
          id = fresh.id;
          waiting = false;
          outgoing = m.outgoing;
          incoming = m.incoming;
          acbs = [];
        })
        m

  -- `shared_mem_make_client`; a string made from a null pointer throws, and `none` is a null pointer.
  unfoldable pub make_client : Option Bytes → M (Memory env decimal) (Option (Client env))
  unfolding new_client
  make_client none = pure none
  make_client (some volume_name) = catch (do c ← new_client volume_name; pure (some c)) none
