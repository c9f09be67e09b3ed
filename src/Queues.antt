-- ===== src/Queues.antt =====
-- SharedMemServer.h, SharedMemClient.cpp and SharedMemClientASync.cpp: the constructors, which make
-- and open the queues. Both clients have the same text here.
pub mod Starting
pub mod Meeting
pub mod Ending
use qemu_cvbd_shraed_memory.Common.{
  ℕ, zero, suc, ◌+◌, ◌-◌, ◌%◌, ◌^◌, Bool, true, false, Option, none, some, List, [], ◌∷◌, ◌++◌,
  length, ltb, if◌then◌else◌,
}
use qemu_cvbd_shraed_memory.Common.Outcome.{
  Outcome, ok, thrown, stopped, Stop, aborted, crashed, M, ◌>>=◌, ◌>>◌, pure, assert, catch, stop,
  branch,
}
use qemu_cvbd_shraed_memory.Iov.{Bytes}
use qemu_cvbd_shraed_memory.Message.{
  Header, blank, close_request, request_mq_name_format, max_queue_num, max_queue_size,
}
use qemu_cvbd_shraed_memory.Message.Sizes.{header_size, request_size}
use qemu_cvbd_shraed_memory.Host.{Env}

-- `decimal` is what a stream prints for a number.
module _ (env : Env) (decimal : ℕ → Bytes) where
  open env use {requests, replies}

  abbrev pub queue_name : ℕ → Bytes
  queue_name i = decimal i ++ request_mq_name_format

  -- One round of the constructor's first loop; `create_only` throws where the name exists.
  unfoldable pub create_queue : ℕ → M requests.Shm ℕ
  create_queue i s =
      elim (requests.create_only (queue_name i) max_queue_size
        (requests.remove (queue_name i) s).1) [
          | none ↦ thrown (requests.remove (queue_name i) s).1
          | some (h, t) ↦ ok h t
        ]

  -- The first loop of `SharedMemServer`, from `i` on; then come `n` more rounds.
  unfoldable pub create_queues : ℕ → ℕ → M requests.Shm (List ℕ)
  create_queues zero i = pure []
  create_queues (suc n) i = do h ← create_queue i; hs ← create_queues n (suc i); pure (h ∷ hs)

  -- `main` of server.c, up to the join.
  unfoldable pub start_server : M requests.Shm (List ℕ)
  start_server = create_queues max_queue_num 0

  -- `volume_name.at(volume_name.length() - 1)`, a signed `char`, converted to 64 bits.
  abbrev pub last_char : Bytes → ℕ
  last_char [] = 0
  last_char (c ∷ []) = if ltb c 128 then c else 2 ^ 64 - 256 + c
  last_char (c ∷ (d ∷ cs)) = last_char (d ∷ cs)

  -- What the constructor of a client changes and opens.
  pub record Memory : Type 0 where
    pub outgoing : requests.Shm
    pub incoming : replies.Shm

  pub record Opened : Type 0 where
    pub request_mq : ℕ
    pub reply_mq : ℕ

  unfoldable pub remove_reply_queue : Bytes → M Memory (Unit {0})
  remove_reply_queue name s = ok tt (record s { incoming = (replies.remove name s.incoming).1 })

  unfoldable pub open_request_queue : Bytes → M Memory ℕ
  open_request_queue name s = elim (requests.open_only name s.outgoing) [
    | none ↦ thrown s
    | some h ↦ ok h s
  ]

  unfoldable pub create_reply_queue : Bytes → M Memory ℕ
  create_reply_queue name s = elim (replies.create_only name max_queue_size s.incoming) [
    | none ↦ thrown s
    | some (h, t) ↦ ok h (record s { incoming = t })
  ]

  -- `SharedMemClient(volume_name)`.
  unfoldable pub new_client : Bytes → M Memory Opened
  unfolding remove_reply_queue open_request_queue create_reply_queue
  new_client volume_name = do
    assert (ltb 0 (length volume_name))
    let queue_num = last_char volume_name % max_queue_num
    remove_reply_queue volume_name
    request_mq ← open_request_queue (queue_name queue_num)
    reply_mq ← create_reply_queue volume_name
    pure (record { request_mq = request_mq; reply_mq = reply_mq })

  -- `shared_mem_make_client`; `none` is a null pointer.
  unfoldable pub shared_mem_make_client : Bytes → M Memory (Option Opened)
  unfolding new_client
  shared_mem_make_client volume_name = catch (do c ← new_client volume_name; pure (some c)) none

  -- What `getStopRequest<Header>()` points to.
  abbrev pub stop_header : Header
  stop_header = record blank { stop = true }

  -- `(*itr)->try_send(getStopRequest<Header>(), request_size, 0)`: unless the queue is full,
  -- `request_size` bytes are copied from an object of `header_size` bytes.
  unfoldable pub try_stop : ℕ → M requests.Shm Bool
  try_stop h s = elim (requests.send h (close_request stop_header) s) [
    | none ↦ ok false s
    | some t ↦ branch (ltb header_size (request_size env.path_max)) (stop crashed) (pure true) t
  ]

  -- The first loop of `~SharedMemServer`, from the queue `i` on.
  unfoldable pub stop_queues : ℕ → List ℕ → M requests.Shm (Unit {0})
  unfolding try_stop
  stop_queues i [] = pure tt
  stop_queues i (h ∷ hs) = do _ ← try_stop h; remove_queue; stop_queues (suc i) hs
    where
      remove_queue : M requests.Shm (Unit {0})
      remove_queue s = ok tt ((requests.remove (queue_name i) s).1)
