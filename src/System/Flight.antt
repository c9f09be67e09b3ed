-- ===== src/System/Flight.antt =====
-- Many coroutines of one client over the server, in any order of steps: coroutines start requests,
-- QEMU's main loop asks for the size, the server's thread serves requests, the reply thread takes
-- answers, and woken coroutines go on.
pub mod Counts
pub mod Starts
pub mod Serves
pub mod Told
pub mod Answers
pub mod Resumes
pub mod Safety
pub mod Drains
pub mod Logs
pub mod Order
pub mod Turns
pub mod Linear
pub mod Futures
pub mod Blocks
pub mod Reads
pub mod Later
pub mod Completes
pub mod Results
pub mod Barrier
pub mod Delivery
mod Tests
use qemu_cvbd_shraed_memory.Common.{
  All, ℕ, ◌+◌, ◌≡◌, ◌≢◌, Bool, true, false, Option, none, some, List, [], ◌∷◌, length, ◌==◌,
  if◌then◌else◌,
}
use qemu_cvbd_shraed_memory.Common.Int.{ℤ}
use qemu_cvbd_shraed_memory.Common.Outcome.{ok}
use qemu_cvbd_shraed_memory.Common.Store.{find, Distinct}
use qemu_cvbd_shraed_memory.Iov.{Bytes}
use qemu_cvbd_shraed_memory.Message.{
  Request, write_request, read_request, fsync_request, getsize_request, Reply, read_reply,
  fsync_reply, getsize_reply, RequestType, req_read, req_write, req_fsync, req_getsize, Header,
}
use qemu_cvbd_shraed_memory.Host.{Env}
use qemu_cvbd_shraed_memory.Server.{VolumeState, Server, handle_requests}
use qemu_cvbd_shraed_memory.Aio.{Acb}
use qemu_cvbd_shraed_memory.AsyncClient.{Client, co_reply_round, getsize_volume}
use qemu_cvbd_shraed_memory.Cvbd.{Started, co_readv, co_writev, co_flush_to_disk, complete_aio}
use qemu_cvbd_shraed_memory.System.{System, client_view, on_client, on_server}

-- One step of a thread, which does not end the process or block for good. A coroutine goes on in its
-- bottom half, which the block's `scheduled` counts.
pub data Step (env : Env) (s t : System env) : Type 0 where
  start_read :
      (sector_num nb_sectors : ℤ) (qiov : List Bytes) (r : Started)
      → on_client env (co_readv env sector_num nb_sectors qiov) s ≡ ok r t
      → Step env s t
  start_write :
      (sector_num nb_sectors : ℤ) (qiov : List Bytes) (r : Started)
      → on_client env (co_writev env sector_num nb_sectors qiov) s ≡ ok r t
      → Step env s t
  start_flush : (r : Started) → on_client env (co_flush_to_disk env) s ≡ ok r t → Step env s t
  ask_size : (size : ℤ) → on_client env (getsize_volume env) s ≡ ok size t → Step env s t
  serve : (go : Bool) → on_server env (handle_requests env 1) s ≡ ok go t → Step env s t
  answer : (go : Bool) → on_client env (co_reply_round env) s ≡ ok go t → Step env s t
  go_on :
      (a : ℕ) (acb : Acb) (result : ℤ)
      → find a s.client.acbs ≡ some acb
      → acb.scheduled ≢ 0
      → on_client env (complete_aio env a) s ≡ ok result t
      → Step env s t

pub data Reach (env : Env) (s : System env) : System env → Type 0 where
  here : Reach env s s
  next : {t u : System env} → Reach env s t → Step env t u → Reach env s u

-- How many answers for the block at an address a request or a reply stands for.
abbrev pub names : Header → ℕ → ℕ
names h a = if h.acb == a then 1 else 0

abbrev pub asks : Request → ℕ → ℕ
asks (read_request r) a = names r.header a
asks (fsync_request h) a = names h a
asks other a = 0

abbrev pub tells : Reply → ℕ → ℕ
tells (read_reply r) a = names r.header a
tells (fsync_reply r) a = names r.header a
tells other a = 0

abbrev pub asked : List Request → ℕ → ℕ
asked [] a = 0
asked (m ∷ ms) a = asks m a + asked ms a

abbrev pub told : List Reply → ℕ → ℕ
told [] a = 0
told (m ∷ ms) a = tells m a + told ms a

-- The requests of a client with an open volume, and the server's answers to them.
abbrev pub Plain : RequestType → ℕ → Header → Type 0
Plain type volume h = (h.stop ≡ false) × (h.type ≡ type) × (h.volume ≡ volume)

abbrev pub IsSent : ℕ → Request → Type 0
IsSent volume (read_request r) = Plain req_read volume r.header
IsSent volume (write_request r) = Plain req_write volume r.header
IsSent volume (fsync_request h) = Plain req_fsync volume h
IsSent volume (getsize_request h) = Plain req_getsize volume h
IsSent volume other = ⊥

abbrev pub IsAnswer : ℕ → Reply → Type 0
IsAnswer volume (read_reply r) = Plain req_read volume r.header × (r.size_in_bytes ≡ length r.bytes)
IsAnswer volume (fsync_reply r) = Plain req_fsync volume r.header
IsAnswer volume (getsize_reply r) = Plain req_getsize volume r.header
IsAnswer volume other = ⊥

-- A posted block waits for exactly one answer, or its coroutine was woken exactly once. A block that
-- a misaligned request left behind is named by no message, and no message names a freed block.
abbrev pub Waits : Bool → ℕ → ℕ → Type 0
Waits true scheduled answers = scheduled + answers ≡ 1
Waits false scheduled answers = answers ≡ 0

abbrev pub Settles : Option Acb → ℕ → Type 0
Settles none answers = answers ≡ 0
Settles (some acb) answers = Waits acb.callback acb.scheduled answers

module _ (env : Env) where
  -- The two queues of the client.
  abbrev pub queued : System env → List Request
  queued s = env.requests.messages s.client.request_mq s.server.incoming

  abbrev pub answers : System env → List Reply
  answers s = env.replies.messages s.client.reply_mq s.server.outgoing

  -- The steps that the threads still have to take, at most, when no request is started: two for a
  -- request, one for an answer, one for a block.
  abbrev pub work : System env → ℕ
  work s = length (queued s) + length (queued s) + length (answers s) + length s.client.acbs

  pub record Inv (v : VolumeState) (s : System env) : Type 0 where
    pub nonnull : s.client.volume ≢ 0
    pub live : find s.client.volume s.server.heap ≡ some v
    pub one_request_mq : s.server.request_mq ≡ s.client.request_mq
    pub one_reply_mq : v.reply_mq ≡ s.client.reply_mq
    pub sent : All (IsSent s.client.volume) (queued s)
    pub answered : All (IsAnswer s.client.volume) (answers s)
    pub blocks : (a : ℕ) → Settles (find a s.client.acbs) (asked (queued s) a + told (answers s) a)
    pub halves :
        (a : ℕ) (acb : Acb) → find a s.client.acbs ≡ some acb → acb.scheduled ≢ 0 → acb.bh ≡ true
    pub distinct : Distinct s.client.acbs
    pub no_null : find 0 s.client.acbs ≡ none
