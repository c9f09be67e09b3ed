-- ===== src/Cvbd/Lifetime/Running.antt =====
-- server.c and cvbd.c: from the start of the server and the opening of a device to the end of all
-- requests.
use qemu_cvbd_shraed_memory.Common.{
  All, ℕ, ◌+◌, ◌^◌, ◌≡◌, ◌≢◌, ◌≤◌, ◌<◌, ap, refl, sym, ◌∙◌, subst, true, some, [], length, drop,
  arith,
}
use qemu_cvbd_shraed_memory.Common.Int.{ℤ, pos}
use qemu_cvbd_shraed_memory.Common.Outcome.{Outcome, ok, stopped, blocked}
use qemu_cvbd_shraed_memory.Common.Outcome.Keeps.{ok-state}
use qemu_cvbd_shraed_memory.Common.Store.{find}
use qemu_cvbd_shraed_memory.Iov.{Bytes}
use qemu_cvbd_shraed_memory.Message.{c_string, max_queue_size}
use qemu_cvbd_shraed_memory.Message.Names.{NoNul}
use qemu_cvbd_shraed_memory.Host.{Env, ret}
use qemu_cvbd_shraed_memory.Server.{Server, VolumeState, handle_requests, open_path}
use qemu_cvbd_shraed_memory.Queues.{queue_name}
use qemu_cvbd_shraed_memory.Queues.Starting.{start, start-made}
use qemu_cvbd_shraed_memory.AsyncClient.{Client, handle_co_reply}
use qemu_cvbd_shraed_memory.AsyncClient.Making.{Fresh}
use qemu_cvbd_shraed_memory.System.{System, on_client, on_server}
use qemu_cvbd_shraed_memory.System.Sequential.{IsInside, Reliable, after_all}
use qemu_cvbd_shraed_memory.System.Flight.{Reach, Settles, queued, answers}
use qemu_cvbd_shraed_memory.System.Flight.Logs.{all_sent}
use qemu_cvbd_shraed_memory.System.Flight.Completes.{all_complete}
use qemu_cvbd_shraed_memory.Cvbd.Lifetime.{State, First, wait_first, signal_first, cvbd_open}
use qemu_cvbd_shraed_memory.Cvbd.Lifetime.Opening.{cvbd_open-quiet}

module _ (env : Env) (decimal : ℕ → Bytes) (fresh : Fresh) (name : Bytes) (k fd : ℕ)
    (d' : env.host.Disk) where
  -- Nothing is under way between this client, on the volume with this name, and the server.
  abbrev Quiet : Client env → State env decimal fresh → Type 0
  Quiet c t =
      (c.volume ≢ 0)
      × (find c.volume t.server.heap
          ≡ some (record { volume_name = name; volume_id = 0; fd = fd; reply_mq = k }))
      × (t.server.request_mq ≡ c.request_mq)
      × (k ≡ c.reply_mq)
      × (queued env (record { client = c; server = t.server }) ≡ [])
      × (answers env (record { client = c; server = t.server }) ≡ [])
      × (c.acbs ≡ [])
      × (t.server.disk ≡ d')
      × (env.replies.capacity k t.server.outgoing ≡ max_queue_size)

module _ (env : Env) (decimal : ℕ → Bytes) (fresh : Fresh) (s t : State env decimal fresh)
    (errno : ℕ) (first : First) (name : Bytes) (h k fd : ℕ) (shm : env.requests.Shm)
    (shm' : env.replies.Shm) (d d' : env.host.Disk) (u : Server env) (c : Client env) where
  -- What a server that was just started and a device that was then opened have in common.
  opened-Quiet :
      start env decimal s.server ≡ ok tt u
      → cvbd_open env decimal fresh (some name) errno first (record s { server = u }) ≡ ok (pos 0) t
      → t.handle ≡ some c
      → 0 < length name
      → NoNul name
      → length name ≤ length (env.layout.as_open fresh.request_msg).volume_name
      → length name ≤ length (env.layout.as_open fresh.request_msg).reply_mq_name
      → c_string (drop (length name) (env.layout.as_open fresh.request_msg).volume_name) ≡ some []
      → c_string (drop (length name) (env.layout.as_open fresh.request_msg).reply_mq_name) ≡ some []
      → env.requests.create_only
          (queue_name env decimal 0)
          max_queue_size
          (env.requests.remove (queue_name env decimal 0) s.server.incoming).1
        ≡ some (h, shm)
      → env.replies.create_only name max_queue_size (env.replies.remove name s.server.outgoing).1
        ≡ some (k, shm')
      → env.host.open_rdwr (open_path name) s.server.disk ≡ (ret fd, d)
      → env.host.ftruncate fd (2 ^ 34) d ≡ (ret tt, d')
      → Quiet env decimal fresh name k fd d' c t
  opened-Quiet started opened attached some_name no_nul fits mq_fits end mq_end made made' opens
        truncates =
      let (empty, capacity, finds) =
        env.requests.create_messages (queue_name env decimal 0) max_queue_size h _ shm made in
      let is_u : record (s.server) { request_mq = h; incoming = shm } ≡ u =
        ok-state tt tt _ u (sym (start-made env decimal s.server h shm made) ∙ started) in
      let (
        hangs, t', c', run, handle, nonnull, live, one_mq, same_mq, none_queued, none_answered,
        no_blocks, disk, aligned, exported, cap,
      ) =
        cvbd_open-quiet env decimal fresh
          (record s { server = record (s.server) { request_mq = h; incoming = shm } }) errno name h
          k shm' fd d d' some_name no_nul fits mq_fits end mq_end finds refl empty
          (omega (arith, capacity)) made' opens truncates in
      let open_now : First → Server env → Outcome (State env decimal fresh) ℤ =
        λ order x. cvbd_open env decimal fresh (some name) errno order (record s { server = x }) in
      let waited : open_now wait_first u ≡ ok (pos 0) t =
        elim first
            as (λ order. open_now order u ≡ ok (pos 0) t → open_now wait_first u ≡ ok (pos 0) t) [
              | wait_first ↦ λ e. e
              | signal_first ↦ λ e.
                  let hung : open_now signal_first u ≡ stopped blocked =
                    sym (ap (open_now signal_first) is_u) ∙ hangs in
                  absurd (cc (e, hung))
            ]
          opened in
      let is_t : t' ≡ t =
        ok-state (pos 0) (pos 0) t' t (sym run ∙ ap (open_now wait_first) is_u ∙ waited) in
      let both : some c' ≡ some c = sym handle ∙ ap (λ x. x.handle) is_t ∙ attached in
      let is_c : c' ≡ c = cc in
      subst (λ x. Quiet env decimal fresh name k fd d' x t) is_c
        (subst (λ y. Quiet env decimal fresh name k fd d' c' y) is_t
          (nonnull, live, one_mq, same_mq, none_queued, none_answered, no_blocks, disk, cap))

module _ (env : Env) (decimal : ℕ → Bytes) (fresh : Fresh) (s t : State env decimal fresh)
    (errno : ℕ) (first : First) (name : Bytes) (h k fd : ℕ) (shm : env.requests.Shm)
    (shm' : env.replies.Shm) (d d' : env.host.Disk) (u : Server env) (c : Client env)
    (w : System env) where
  -- The client of the opened device, beside the server.
  abbrev device : System env
  device = record { client = c; server = t.server }

  -- A server that has just been started, and a device that `cvbd_open` has then opened: `start`
  -- returns, `cvbd_open` returns 0, and a client is at the handle. The name is not empty, holds no
  -- NUL, fits into the arrays of the request, and the bytes behind it in the new request buffer are
  -- NUL; the queues can be created, the file opens, `ftruncate` succeeds, calls on the file inside it
  -- are not cut short, and `fsync` and `fstat` succeed. After any sequence of steps of coroutines,
  -- server and reply thread in which every message that was posted is a write or a read inside the
  -- file, a flush, or a request for the size, where the answers and requests that are left in the
  -- queues are `max_queue_size` together at most: the server serves all requests in its queue, and
  -- then the reply thread takes all answers. Afterwards both queues are empty, each block that was
  -- posted has had its coroutine woken exactly once, and the file holds the bytes that `ftruncate`
  -- left, with all posted messages applied in the order in which they were posted.
  pub cvbd_open-completes :
      (reliable : Reliable env.host fd) (started : start env decimal s.server ≡ ok tt u)
      (opened : cvbd_open env decimal fresh (some name) errno first (record s { server = u })
        ≡ ok (pos 0) t)
      (attached : t.handle ≡ some c) (reached : Reach env device w)
      → 0 < length name
      → NoNul name
      → length name ≤ length (env.layout.as_open fresh.request_msg).volume_name
      → length name ≤ length (env.layout.as_open fresh.request_msg).reply_mq_name
      → c_string (drop (length name) (env.layout.as_open fresh.request_msg).volume_name) ≡ some []
      → c_string (drop (length name) (env.layout.as_open fresh.request_msg).reply_mq_name) ≡ some []
      → env.requests.create_only
          (queue_name env decimal 0)
          max_queue_size
          (env.requests.remove (queue_name env decimal 0) s.server.incoming).1
        ≡ some (h, shm)
      → env.replies.create_only name max_queue_size (env.replies.remove name s.server.outgoing).1
        ≡ some (k, shm')
      → env.host.open_rdwr (open_path name) s.server.disk ≡ (ret fd, d)
      → env.host.ftruncate fd (2 ^ 34) d ≡ (ret tt, d')
      → All (IsInside c.volume (length (env.host.contents fd d'))) (all_sent reached)
      → length (answers env w) + length (queued env w) ≤ max_queue_size
      → (mid z : System env) × (on_server env (handle_requests env (length (queued env w))) w
          ≡ ok true mid)
        × (on_client env (handle_co_reply env (length (answers env mid))) mid ≡ ok true z)
        × (queued env z ≡ [])
        × (answers env z ≡ [])
        × ((a : ℕ) → Settles (find a z.client.acbs) 0)
        × (env.host.contents fd z.server.disk
            ≡ after_all (all_sent reached) (env.host.contents fd d'))
  cvbd_open-completes reliable started opened attached reached some_name no_nul fits mq_fits end
        mq_end made made' opens truncates inside room =
      let (nonnull, live, one_mq, same_mq, none_queued, none_answered, no_blocks, disk, cap) =
        opened-Quiet env decimal fresh s t errno first name h k fd shm shm' d d' u c started opened
          attached some_name no_nul fits mq_fits end mq_end made made' opens truncates in
      let v : VolumeState = record { volume_name = name; volume_id = 0; fd = fd; reply_mq = k } in
      let (mid, z, serves, takes, none_left, none_waiting, settled, effect) =
        all_complete env v device w reliable reached nonnull live one_mq same_mq none_queued
          none_answered no_blocks
          (subst (λ x. All (IsInside c.volume (length (env.host.contents fd x))) (all_sent reached))
            (sym disk) inside)
          (omega (arith, room, cap)) in
      (
        mid,
        z,
        serves,
        takes,
        none_left,
        none_waiting,
        settled,
        effect ∙ ap (λ x. after_all (all_sent reached) (env.host.contents fd x)) disk,
      )
