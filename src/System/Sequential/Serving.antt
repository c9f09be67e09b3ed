-- ===== src/System/Sequential/Serving.antt =====
-- The server serves a queue of requests as the array of bytes does.
use qemu_cvbd_shraed_memory.Common.{
  ℕ, suc, ◌+◌, ◌≡◌, ◌≢◌, ◌≤◌, refl, sym, ap, ap₂, ◌∙◌, true, false, some, List, [], ◌∷◌, ◌++◌,
  length, take, drop, All, arith, length-take, take_all, append-nil, append_assoc, length-append,
}
use qemu_cvbd_shraed_memory.Common.Int.{pos}
use qemu_cvbd_shraed_memory.Common.Outcome.{ok}
use qemu_cvbd_shraed_memory.Common.Store.{find}
use qemu_cvbd_shraed_memory.Iov.{Bytes}
use qemu_cvbd_shraed_memory.Message.{
  req_fsync, Header, Request, write_request, read_request, fsync_request, getsize_request, Reply,
  read_reply, fsync_reply, header_of,
}
use qemu_cvbd_shraed_memory.Host.{Env, ret}
use qemu_cvbd_shraed_memory.Server.{VolumeState, Server, handle_requests, dispatch, fsync}
use qemu_cvbd_shraed_memory.Server.Files.{write-done, read-done, dispatch-write, dispatch-read}
use qemu_cvbd_shraed_memory.SyncIo.Lists.{length-overwrite}
use qemu_cvbd_shraed_memory.System.Steps.{serve_one}
use qemu_cvbd_shraed_memory.System.Closing.{dispatch-getsize}
use qemu_cvbd_shraed_memory.System.Sequential.{
  Reliable, Stands, IsInside, at, after, heard, after_all, heard_all,
}

module _ (env : Env) (volume : ℕ) (v : VolumeState) (nonnull : volume ≢ 0) where
  open env use {host, requests, replies}

  dispatch-fsync :
      (s : Server env) (h : Header) (d : host.Disk) (shm : replies.Shm)
      → h.type ≡ req_fsync
      → h.volume ≢ 0
      → find h.volume s.heap ≡ some v
      → host.fsync v.fd s.disk ≡ (ret tt, d)
      → replies.send v.reply_mq (fsync_reply (record { header = h; err = pos 0 })) s.outgoing
        ≡ some shm
      → dispatch env (fsync_request h) s ≡ ok tt (record s { disk = d; outgoing = shm })
  unfolding dispatch fsync
  dispatch-fsync s h d shm type nz live done sent = ground arith

  module _ (reliable : Reliable host v.fd) (q : ℕ) (disk : Bytes) (rest : List Request)
      (sent : List Reply) (s : Server env) where
    -- Serving the first request, whose answer is `a`.
    replied :
        (m : Request) (a : Reply) (d : host.Disk)
        → Stands env volume v q disk (m ∷ rest) sent s
        → (header_of m).stop ≡ false
        → host.contents v.fd d ≡ disk
        → ((rshm : replies.Shm) × (replies.send v.reply_mq a s.outgoing ≡ some rshm))
        → ((shm : requests.Shm) (rshm : replies.Shm)
            → replies.send v.reply_mq a s.outgoing ≡ some rshm
            → dispatch env m (record s { incoming = shm })
              ≡ ok tt (record s { incoming = shm; disk = d; outgoing = rshm }))
        → (t : Server env) × (handle_requests env 1 s ≡ ok true t)
          × (replies.capacity v.reply_mq t.outgoing ≡ replies.capacity v.reply_mq s.outgoing)
          × Stands env volume v q disk rest (sent ++ a ∷ []) t
    replied m a d stands goes same (rshm, answered) run =
        let (shm, taken, left, kept) = requests.receive_first q m rest s.incoming stands.queue in
        let (grown, cap) = replies.send_messages v.reply_mq a s.outgoing rshm answered in
        let t : Server env = record s { incoming = shm; disk = d; outgoing = rshm } in
        (
          t,
          serve_one env s t m shm (rw stands.one_queue taken) goes (run shm rshm answered),
          cap,
          record {
            one_queue = stands.one_queue;
            live = stands.live;
            bytes = same;
            queue = left;
            answers = grown ∙ rw stands.answers refl;
          },
        )

    -- The first request is served.
    pub serve_first :
        (m : Request)
        → Stands env volume v q disk (m ∷ rest) sent s
        → IsInside volume (length disk) m
        → ((a : Reply)
            → heard m disk ≡ a ∷ []
            → (rshm : replies.Shm) × (replies.send v.reply_mq a s.outgoing ≡ some rshm))
        → (t : Server env) × (handle_requests env 1 s ≡ ok true t)
          × (replies.capacity v.reply_mq t.outgoing ≡ replies.capacity v.reply_mq s.outgoing)
          × Stands env volume v q (after m disk) rest (sent ++ heard m disk) t
    serve_first (write_request w) stands ((goes, type, same), o, small, enough, inside) accepts =
        let n = w.size_in_bytes in
        let payload = take n w.bytes in
        let len : length payload ≡ n = omega (arith, length-take n w.bytes) in
        let (shm, taken, left, kept) =
          requests.receive_first q (write_request w) rest s.incoming stands.queue in
        let (d, stored) =
          reliable.whole.write_whole payload (at w.offset) s.disk
            (omega (arith, inside, len, ap (length {A = ℕ}) stands.bytes)) in
        let effect =
          host.pwrite_in_file v.fd payload (at w.offset) n s.disk d
            (stored ∙ ap (λ k. (ret k, d)) len)
            (omega (arith, inside, ap (length {A = ℕ}) stands.bytes)) in
        let before : Server env = record s { incoming = shm } in
        let t : Server env = record before { disk = d } in
        let run =
          dispatch-write env before w type
          ∙ write-done env before v w d (rw same nonnull) (rw same stands.live) small
              (rw (o, stored, len) refl) in
        (
          t,
          serve_one env s t (write_request w) shm (rw stands.one_queue taken) goes run,
          refl,
          record {
            one_queue = stands.one_queue;
            live = stands.live;
            bytes = effect ∙ rw (stands.bytes, take_all n payload (omega arith)) refl;
            queue = left;
            answers = stands.answers ∙ sym (append-nil sent);
          },
        )
    serve_first (read_request r) stands ((goes, type, same), o, small, inside) accepts =
        let n = r.size_in_bytes in
        let (loaded, d, got, full) =
          reliable.whole.read_whole n (at r.offset) s.disk
            (omega (arith, inside, ap (length {A = ℕ}) stands.bytes)) in
        let (short, text, unchanged) = host.pread_lem v.fd n (at r.offset) loaded s.disk d got in
        let exact : loaded ≡ take n (drop (at r.offset) disk) =
          text ∙ rw (full, stands.bytes) refl in
        let reply : ℕ → Bytes → Reply =
          λ k b. read_reply (record { header = r.header; size_in_bytes = k; bytes = b }) in
        let one_reply = ap₂ reply full exact in
        replied (read_request r) _ d stands goes (unchanged ∙ stands.bytes) (accepts _ refl)
          λ shm rshm answered.
            let before : Server env = record s { incoming = shm } in
            dispatch-read env before r type
            ∙ read-done env before v r loaded d rshm (rw same nonnull) (rw same stands.live) small
                (rw o got) full
                (ap (λ x. replies.send v.reply_mq x s.outgoing) one_reply ∙ answered)
    serve_first (fsync_request h) stands (goes, type, same) accepts =
        let (d, done, unchanged) = reliable.synced s.disk in
        replied (fsync_request h) _ d stands goes (unchanged ∙ stands.bytes) (accepts _ refl)
          λ shm rshm answered.
            dispatch-fsync (record s { incoming = shm }) h d rshm type (rw same nonnull)
              (rw same stands.live) done answered
    serve_first (getsize_request h) stands (goes, type, same) accepts =
        let (d, size, unchanged) = reliable.sized s.disk in
        let size' : host.fstat_size v.fd s.disk ≡ (ret (length disk), d) =
          size ∙ ap (λ b. (ret (length b), d)) stands.bytes in
        replied (getsize_request h) _ d stands goes (unchanged ∙ stands.bytes) (accepts _ refl)
          λ shm rshm answered.
            dispatch-getsize env (record s { incoming = shm }) v h (rw same nonnull)
              (rw same stands.live) (length disk) d rshm type size' answered
    serve_first other stands inside accepts = absurd inside

  pub one_more :
      (n : ℕ) (s t : Server env)
      → handle_requests env 1 s ≡ ok true t
      → handle_requests env (suc n) s ≡ handle_requests env n t
  unfolding handle_requests
  one_more n s t run = ground arith

  pub length-after :
      (m : Request) (disk : Bytes)
      → IsInside volume (length disk) m
      → length (after m disk) ≡ length disk
  length-after (write_request w) disk inside =
      length-overwrite disk (take w.size_in_bytes w.bytes) (at w.offset)
        (omega (arith, inside.4, length-take w.size_in_bytes w.bytes))
  length-after other disk inside = refl

  pub length-heard : (m : Request) (disk : Bytes) → length (heard m disk) ≤ 1
  length-heard (read_request r) disk = omega arith
  length-heard (fsync_request h) disk = omega arith
  length-heard (getsize_request h) disk = omega arith
  length-heard other disk = omega arith

  -- A server that stands for the bytes of a volume, with these requests at the head of its queue: writes
  -- and reads inside the volume, flushes and requests for the size, in any number and order, and room
  -- for all answers. Calls on the volume's file inside it are not cut short, and `fsync` and `fstat`
  -- succeed. The request thread serves them all, one in each round, and then stands for the bytes on
  -- which the requests took effect one after the other, with the rest of the queue; what it has sent
  -- is, in this order, what each read, flush or request for the size hears of the bytes at its turn.
  handle_requests-sequential :
      (reliable : Reliable host v.fd) (q : ℕ) (disk : Bytes) (ms rest : List Request)
      (sent : List Reply) (s : Server env)
      → Stands env volume v q disk (ms ++ rest) sent s
      → All (IsInside volume (length disk)) ms
      → length sent + length ms ≤ replies.capacity v.reply_mq s.outgoing
      → (t : Server env) × (handle_requests env (length ms) s ≡ ok true t)
        × Stands env volume v q (after_all ms disk) rest (sent ++ heard_all ms disk) t
  unfolding handle_requests
  handle_requests-sequential reliable q disk [] rest sent s stands inside room =
      (s, refl, rw (append-nil sent) stands)
  handle_requests-sequential reliable q disk (m ∷ ms) rest sent s stands inside room =
      let (t, first, cap, stands') =
        serve_first reliable q disk (ms ++ rest) sent s m stands inside.0 (λ a e.
          replies.send_room v.reply_mq a s.outgoing (rw stands.answers (omega (arith, room)))) in
      let same = length-after m disk inside.0 in
      let one = length-heard m disk in
      let (u, run, stands'') =
        handle_requests-sequential reliable q (after m disk) ms rest (sent ++ heard m disk) t
          stands' (rw same inside.1)
          (rw cap (omega (arith, room, one, length-append sent (heard m disk)))) in
      (
        u,
        one_more (length ms) s t first ∙ run,
        rw (← append_assoc sent (heard m disk) (heard_all ms (after m disk))) stands'',
      )
