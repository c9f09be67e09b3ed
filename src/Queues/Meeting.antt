-- ===== src/Queues/Meeting.antt =====
-- The queue that a client opens is the one that the server's thread serves.
use qemu_cvbd_shraed_memory.Common.{ℕ, ◌<◌, ◌%◌, ◌≡◌, some, [], ◌∷◌, length, arith}
use qemu_cvbd_shraed_memory.Common.Outcome.{ok}
use qemu_cvbd_shraed_memory.Iov.{Bytes}
use qemu_cvbd_shraed_memory.Message.{max_queue_num, max_queue_size}
use qemu_cvbd_shraed_memory.Host.{Env}
use qemu_cvbd_shraed_memory.Queues.{
  queue_name, create_queue, create_queues, start_server, last_char, shared_mem_make_client,
}

-- Where the server can create its queue and the client, with any name but the empty one, its reply
-- queue: the server makes this one queue, the client opens exactly the queue that the server has
-- made, both queues are empty with room for `max_queue_size` messages, and the server will find the
-- reply queue under the volume's name.
shared_mem_make_client-start_server :
    (env : Env) (decimal : ℕ → Bytes) (name : Bytes) (h k : ℕ) (s shm : env.requests.Shm)
    (r r' : env.replies.Shm)
    → 0 < length name
    → env.requests.create_only
        (queue_name env decimal 0)
        max_queue_size
        (env.requests.remove (queue_name env decimal 0) s).1
      ≡ some (h, shm)
    → env.replies.create_only name max_queue_size (env.replies.remove name r).1 ≡ some (k, r')
    → (start_server env decimal s ≡ ok (h ∷ []) shm)
      × (shared_mem_make_client env decimal name (record { outgoing = shm; incoming = r })
          ≡ ok
              (some (record { request_mq = h; reply_mq = k }))
              (record { outgoing = shm; incoming = r' }))
      × (env.requests.messages h shm ≡ [])
      × (env.requests.capacity h shm ≡ max_queue_size)
      × (env.replies.messages k r' ≡ [])
      × (env.replies.capacity k r' ≡ max_queue_size)
      × (env.replies.open_only name r' ≡ some k)
unfolding start_server create_queues create_queue shared_mem_make_client
shared_mem_make_client-start_server env decimal name h k s shm r r' some_name made made' =
    let (empty, room, found) =
      env.requests.create_messages (queue_name env decimal 0) max_queue_size h _ shm made in
    let (empty', room', found') = env.replies.create_messages name max_queue_size k _ r' made' in
    let zero_queue : last_char env decimal name % max_queue_num ≡ 0 = omega arith in
    (
      ground (arith, made),
      ground (arith, zero_queue, found, made'),
      empty,
      room,
      empty',
      room',
      found',
    )
