-- ===== src/Cvbd/Lifetime/Closing.antt =====
-- cvbd.c: the size of an open device, and closing it.
use qemu_cvbd_shraed_memory.Common.{
  ℕ, suc, ◌≡◌, ◌<◌, ◌++◌, refl, inl, inr, Option, Option-cases, false, none, some, [], ◌∷◌, length,
  arith,
}
use qemu_cvbd_shraed_memory.Common.Int.{to_u64, to_i64}
use qemu_cvbd_shraed_memory.Common.Outcome.{Outcome, ok, stopped, crashed, blocked}
use qemu_cvbd_shraed_memory.Iov.{Bytes}
use qemu_cvbd_shraed_memory.Message.{
  Header, Request, req_getsize, req_close, getsize_request, close_request,
}
use qemu_cvbd_shraed_memory.Message.Sizes.{reply_size-header_size}
use qemu_cvbd_shraed_memory.Host.{Env}
use qemu_cvbd_shraed_memory.AsyncClient.{Client, release_volume, getsize_volume}
use qemu_cvbd_shraed_memory.AsyncClient.Ending.{destroy, stop_message}
use qemu_cvbd_shraed_memory.AsyncClient.Making.{Fresh}
use qemu_cvbd_shraed_memory.Cvbd.Lifetime.{State, cvbd_close, cvbd_getlength}

module _ (env : Env) (decimal : ℕ → Bytes) (fresh : Fresh) (s : State env decimal fresh)
    (c : Client env) (held : s.handle ≡ some c)
    (room : length (env.requests.messages c.request_mq s.server.incoming)
      < env.requests.capacity c.request_mq s.server.incoming) where
  -- A request of the client that is a header.
  abbrev head : Header
  head = record { stop = false; type = req_getsize; id = suc c.id; volume = c.volume; acb = 0 }

  -- For an open device whose request queue has room, `cvbd_getlength` posts a request for the size
  -- and returns at once: its result is what the reply buffer, as it was before, holds where a
  -- reply to such a request has its size. Nothing of the server but its request queue has changed.
  pub cvbd_getlength-stale :
      (t : State env decimal fresh) × (cvbd_getlength env decimal fresh s
        ≡ ok (to_i64 (to_u64 (env.layout.as_getsize_reply c.reply_msg).size_in_bytes)) t)
      × (env.requests.messages c.request_mq t.server.incoming
          ≡ env.requests.messages c.request_mq s.server.incoming ++ getsize_request head ∷ [])
      × (t.server ≡ record (s.server) { incoming = t.server.incoming })
  unfolding cvbd_getlength getsize_volume
  cvbd_getlength-stale =
      let (shm, sent) =
        env.requests.send_room c.request_mq (getsize_request head) s.server.incoming room in
      (
        record s {
          handle = some (record c {
            id = suc c.id;
            request_msg = getsize_request head;
            outgoing = shm;
            incoming = s.server.outgoing;
          });
          server = record (s.server) { incoming = shm };
        },
        ground (arith, held, sent),
        (env.requests.send_messages c.request_mq (getsize_request head) s.server.incoming shm
            sent).0,
        refl,
      )

module _ (env : Env) (decimal : ℕ → Bytes) (fresh : Fresh) (s : State env decimal fresh)
    (c : Client env) where
  -- What the client posts to close its volume.
  abbrev pub closing : Request
  closing =
      close_request
        (record { stop = false; type = req_close; id = suc c.id; volume = c.volume; acb = 0 })

  abbrev removed : env.replies.Shm
  removed = (env.replies.remove c.volume_name s.server.outgoing).1

  -- How `cvbd_close` ends, by what the request queue makes of the request to close the volume and the
  -- reply queue of the stop message.
  abbrev pub Closes :
      Option env.requests.Shm
      → Option env.replies.Shm
      → Outcome (State env decimal fresh) (Unit {0})
      → Type 0
  Closes none stopping o = o ≡ stopped blocked
  Closes (some shm) (some rshm) o = o ≡ stopped crashed
  Closes (some shm) none o =
      (t : State env decimal fresh) × (o ≡ ok tt t)
      × (t.handle ≡ none)
      × (env.requests.messages c.request_mq t.server.incoming
          ≡ env.requests.messages c.request_mq s.server.incoming ++ closing ∷ [])
      × (env.replies.messages c.reply_mq t.server.outgoing
          ≡ env.replies.messages c.reply_mq s.server.outgoing)
      × (t.server.heap ≡ s.server.heap)
      × (t.server.disk ≡ s.server.disk)

  -- For an open device, whatever is in the two queues of its client. Where the request queue does not
  -- take the request to close the volume, `cvbd_close` blocks. Where both queues take what is sent to
  -- them, the destructor of the client copies `reply_size` bytes from a stop message that has fewer,
  -- and reads past its end. Where the reply queue is full, so that its `try_send` copies nothing,
  -- `cvbd_close` returns: the device has no client, the request to close the volume, under the
  -- client's next number, is behind the other requests, the reply queue holds what it held, and the
  -- server's volumes and files are as they were.
  pub cvbd_close_outcomes :
      s.handle ≡ some c
      → Closes
          (env.requests.send c.request_mq closing s.server.incoming)
          (env.replies.send c.reply_mq (stop_message env) removed)
          (cvbd_close env decimal fresh s)
  unfolding cvbd_close release_volume destroy
  cvbd_close_outcomes held =
      elim (Option-cases (env.requests.send c.request_mq closing s.server.incoming)) [
        | inl full ↦ rw full (ground (arith, held, full))
        | inr (shm, sent) ↦
            elim (Option-cases (env.replies.send c.reply_mq (stop_message env) removed)) [
              | inr (rshm, stopping) ↦
                  rw (sent, stopping) (ground (arith, held, sent, stopping, reply_size-header_size))
              | inl no_room ↦
                  rw (sent, no_room)
                    (
                      record s {
                        handle = none;
                        server = record (s.server) { incoming = shm; outgoing = removed };
                      },
                      ground (arith, held, sent, no_room),
                      refl,
                      (env.requests.send_messages c.request_mq closing s.server.incoming shm
                          sent).0,
                      (env.replies.remove_keeps c.volume_name c.reply_mq s.server.outgoing).0,
                      refl,
                      refl,
                    )
            ]
      ]
