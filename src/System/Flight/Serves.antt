-- ===== src/System/Flight/Serves.antt =====
-- Serving a request keeps the count of answers: its answer takes its place.
use qemu_cvbd_shraed_memory.Common.{
  All, All-append, length-append, ◌≤◌, ◌<◌, ℕ, ◌+◌, ◌≡◌, refl, sym, ap, ◌∙◌, Bool, List, [], ◌∷◌,
  ◌++◌, append-nil, length, arith,
}
use qemu_cvbd_shraed_memory.Common.Outcome.{ok}
use qemu_cvbd_shraed_memory.Common.Store.{find}
use qemu_cvbd_shraed_memory.Message.{
  Request, write_request, read_request, fsync_request, open_request, close_request, getsize_request,
  Reply, read_reply, fsync_reply, getsize_reply,
}
use qemu_cvbd_shraed_memory.Iov.{Bytes}
use qemu_cvbd_shraed_memory.Host.{Env}
use qemu_cvbd_shraed_memory.Server.{VolumeState, Server, handle_requests}
use qemu_cvbd_shraed_memory.Server.Files.{dispatch-write, dispatch-read}
use qemu_cvbd_shraed_memory.Server.Served.{
  dispatch-fsync, dispatch-getsize, stored, synced, sized, read-returns, fsync-returns,
  getsize-returns, write-returns,
}
use qemu_cvbd_shraed_memory.System.{System}
use qemu_cvbd_shraed_memory.System.Steps.{serve_empty, serve-returns}
use qemu_cvbd_shraed_memory.System.Flight.{
  asks, asked, told, IsAnswer, Settles, queued, answers, work, Inv,
}
use qemu_cvbd_shraed_memory.System.Flight.Counts.{told-append}

module _ (env : Env) (v : VolumeState) (s : System env) (inv : Inv env v s) where
  -- A server that has taken the first message of the queue, and sent what it asks for.
  served-Inv :
      (u : Server env) (m : Request) (ms : List Request) (extra : List Reply)
      → queued env s ≡ m ∷ ms
      → u.heap ≡ s.server.heap
      → u.request_mq ≡ s.server.request_mq
      → env.requests.messages s.client.request_mq u.incoming ≡ ms
      → env.replies.messages s.client.reply_mq u.outgoing ≡ answers env s ++ extra
      → All (IsAnswer s.client.volume) extra
      → ((a : ℕ) → told extra a ≡ asks m a)
      → length extra ≤ 1
      → Inv env v (record s { server = u }) × (work env (record s { server = u }) < work env s)
  served-Inv u m ms extra first sh sq left grown ea same short = (
    record {
      nonnull = inv.nonnull;
      live = rw sh inv.live;
      one_request_mq = sq ∙ inv.one_request_mq;
      one_reply_mq = inv.one_reply_mq;
      sent = rw left (rw first at (inv.sent)).1;
      answered =
          rw grown (All-append (IsAnswer s.client.volume) (answers env s) extra inv.answered ea);
      blocks = λ a. rw (left, grown, told-append (answers env s) extra a) (moved a);
      halves = inv.halves;
      distinct = inv.distinct;
      no_null = inv.no_null;
    },
    rw (left, grown, first, length-append (answers env s) extra) (omega (arith, short)),
  )
    where
      moved :
          (a : ℕ)
          → Settles (find a s.client.acbs) (asked ms a + (told (answers env s) a + told extra a))
      moved a =
          let n : asked ms a + (told (answers env s) a + told extra a)
              ≡ asks m a + asked ms a + told (answers env s) a =
            omega (arith, same a) in
          rw n (rw first at (inv.blocks a))

  pub serve-Inv :
      (go : Bool) (u : Server env)
      → handle_requests env 1 s.server ≡ ok go u
      → Inv env v (record s { server = u }) × (work env (record s { server = u }) < work env s)
  serve-Inv go u e = serve_list (queued env s) refl
    where
      serve_list :
          (ms : List Request)
          → queued env s ≡ ms
          → Inv env v (record s { server = u }) × (work env (record s { server = u }) < work env s)
      serve_list [] first = absurd (cc (e, serve_empty env s.server (rw inv.one_request_mq first)))
      serve_list (read_request r ∷ ms) first =
          let (goes, type, vol) = (rw first at (inv.sent)).0 in
          let (shm, left, run) =
            serve-returns env s.server u (read_request r) ms go (rw inv.one_request_mq first) goes
              e in
          let before : Server env = record (s.server) { incoming = shm } in
          let (answered, same) =
            read-returns env before u v r (rw vol inv.nonnull) (rw vol inv.live)
              (sym (dispatch-read env before r type) ∙ run) in
          let got : Bytes = stored env before u v r in
          let answer : Reply =
            read_reply (record { header = r.header; size_in_bytes = length got; bytes = got }) in
          let grown =
            (env.replies.send_messages v.reply_mq answer s.server.outgoing u.outgoing answered).0 in
          served-Inv u (read_request r) ms (answer ∷ []) first (ap (λ x. x.heap) same)
            (ap (λ x. x.request_mq) same)
            (rw (ap (λ x. x.incoming) same) (rw inv.one_request_mq at left))
            (rw inv.one_reply_mq at grown) (((goes, type, vol), refl), tt) (λ a. omega arith)
            (omega arith)
      serve_list (write_request w ∷ ms) first =
          let (goes, type, vol) = (rw first at (inv.sent)).0 in
          let (shm, left, run) =
            serve-returns env s.server u (write_request w) ms go (rw inv.one_request_mq first) goes
              e in
          let before : Server env = record (s.server) { incoming = shm } in
          let same =
            write-returns env before u v w (rw vol inv.nonnull) (rw vol inv.live)
              (sym (dispatch-write env before w type) ∙ run) in
          served-Inv u (write_request w) ms [] first (ap (λ x. x.heap) same)
            (ap (λ x. x.request_mq) same)
            (rw (ap (λ x. x.incoming) same) (rw inv.one_request_mq at left))
            (ap (λ x. env.replies.messages s.client.reply_mq x.outgoing) same
              ∙ sym (append-nil (answers env s)))
            tt (λ a. refl) (omega arith)
      serve_list (fsync_request h ∷ ms) first =
          let (goes, type, vol) = (rw first at (inv.sent)).0 in
          let (shm, left, run) =
            serve-returns env s.server u (fsync_request h) ms go (rw inv.one_request_mq first) goes
              e in
          let before : Server env = record (s.server) { incoming = shm } in
          let (answered, same) =
            fsync-returns env before u v h (rw vol inv.nonnull) (rw vol inv.live)
              (sym (dispatch-fsync env before h type) ∙ run) in
          let answer : Reply = fsync_reply (record { header = h; err = synced env before u v }) in
          let grown =
            (env.replies.send_messages v.reply_mq answer s.server.outgoing u.outgoing answered).0 in
          served-Inv u (fsync_request h) ms (answer ∷ []) first (ap (λ x. x.heap) same)
            (ap (λ x. x.request_mq) same)
            (rw (ap (λ x. x.incoming) same) (rw inv.one_request_mq at left))
            (rw inv.one_reply_mq at grown) (((goes, type, vol)), tt) (λ a. omega arith)
            (omega arith)
      serve_list (open_request r ∷ ms) first = absurd ((rw first at (inv.sent)).0)
      serve_list (close_request h ∷ ms) first = absurd ((rw first at (inv.sent)).0)
      serve_list (getsize_request h ∷ ms) first =
          let (goes, type, vol) = (rw first at (inv.sent)).0 in
          let (shm, left, run) =
            serve-returns env s.server u (getsize_request h) ms go (rw inv.one_request_mq first)
              goes e in
          let before : Server env = record (s.server) { incoming = shm } in
          let (answered, same) =
            getsize-returns env before u v h (rw vol inv.nonnull) (rw vol inv.live)
              (sym (dispatch-getsize env before h type) ∙ run) in
          let answer : Reply =
            getsize_reply (record { header = h; size_in_bytes = sized env before u v }) in
          let grown =
            (env.replies.send_messages v.reply_mq answer s.server.outgoing u.outgoing answered).0 in
          served-Inv u (getsize_request h) ms (answer ∷ []) first (ap (λ x. x.heap) same)
            (ap (λ x. x.request_mq) same)
            (rw (ap (λ x. x.incoming) same) (rw inv.one_request_mq at left))
            (rw inv.one_reply_mq at grown) (((goes, type, vol)), tt) (λ a. refl) (omega arith)
