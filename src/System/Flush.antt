-- ===== src/System/Flush.antt =====
-- `cvbd_co_flush_to_disk`, from the coroutine over the server's `fsync` back to its result.
use qemu_cvbd_shraed_memory.Common.{
  ℕ, suc, ◌≡◌, ◌≢◌, ◌<◌, refl, ◌∙◌, true, false, some, [], ◌∷◌, arith,
}
use qemu_cvbd_shraed_memory.Common.Int.{ℤ, pos}
use qemu_cvbd_shraed_memory.Common.Outcome.{ok, ◌>>=◌}
use qemu_cvbd_shraed_memory.Common.Store.{
  addresses, find, find-cons_self, update-cons_self, free-cons_self,
}
use qemu_cvbd_shraed_memory.Message.{
  req_fsync, Header, Request, fsync_request, fsync_reply, FsyncReply,
}
use qemu_cvbd_shraed_memory.Host.{Env, Sys, ret, fail}
use qemu_cvbd_shraed_memory.Server.{VolumeState, Server, neg, dispatch, fsync, handle_requests}
use qemu_cvbd_shraed_memory.Aio.{Acb, finish_aio}
use qemu_cvbd_shraed_memory.AsyncClient.{Client, co_reply_round}
use qemu_cvbd_shraed_memory.AsyncClient.Replies.{fsync_reply-round}
use qemu_cvbd_shraed_memory.Cvbd.{yielded, co_flush_to_disk, complete_aio}
use qemu_cvbd_shraed_memory.System.{System, client_view, after_client, flush}
use qemu_cvbd_shraed_memory.Cvbd.Flush.{waiting_acb, co_flush-post}
use qemu_cvbd_shraed_memory.Cvbd.Woken.{complete_aio-done}
use qemu_cvbd_shraed_memory.System.Steps.{serve_one, on_client-ok, on_server-ok}

-- What the client is told of `fsync`.
abbrev pub err_of : Sys (Unit {0}) → ℤ
err_of (ret _) = pos 0
err_of (fail e) = neg e

module _ (env : Env) where
  abbrev settled : ℤ → Acb
  settled err = record waiting_acb { ret = err; scheduled = 1; bh = true }

  dispatch-fsync :
      (s : Server env) (v : VolumeState) (h : Header) (r : Sys (Unit {0})) (d : env.host.Disk)
      (shm : env.replies.Shm)
      → h.volume ≢ 0
      → find h.volume s.heap ≡ some v
      → h.type ≡ req_fsync
      → env.host.fsync v.fd s.disk ≡ (r, d)
      → env.replies.send v.reply_mq (fsync_reply (record { header = h; err = err_of r })) s.outgoing
        ≡ some shm
      → (e : ℕ) × (dispatch env (fsync_request h) s
          ≡ ok tt (record s { disk = d; errno = e; outgoing = shm }))
  unfolding dispatch fsync
  dispatch-fsync s v h (ret _) d shm nn live type synced sent = (s.errno, ground arith)
  dispatch-fsync s v h (fail e) d shm nn live type synced sent = (e, ground arith)

  finish-settled :
      (r : Sys (Unit {0}))
      → finish_aio (err_of r) (record waiting_acb { ret = err_of r }) ≡ settled (err_of r)
  unfolding finish_aio
  finish-settled (ret _) = refl
  finish-settled (fail e) = ground arith

-- A flush by a client with an open volume, where the queues are empty and have room: the server
-- answers, the disk is as one `fsync` on the volume's file left it, and the coroutine returns 0 if
-- that call succeeded and its negative error if it failed. Afterwards the control blocks are those
-- from before.
pub flush-fsync :
    (env : Env) (s : System env) (v : VolumeState) (r : Sys (Unit {0})) (d : env.host.Disk)
    → s.client.volume ≢ 0
    → find s.client.volume s.server.heap ≡ some v
    → s.server.request_mq ≡ s.client.request_mq
    → v.reply_mq ≡ s.client.reply_mq
    → env.requests.messages s.client.request_mq s.server.incoming ≡ []
    → 0 < env.requests.capacity s.client.request_mq s.server.incoming
    → env.replies.messages v.reply_mq s.server.outgoing ≡ []
    → 0 < env.replies.capacity v.reply_mq s.server.outgoing
    → env.host.fsync v.fd s.server.disk ≡ (r, d)
    → (t : System env) × (flush env s ≡ ok (err_of r) t)
      × (t.server.disk ≡ d)
      × (t.client.acbs ≡ s.client.acbs)
unfolding flush
flush-fsync env s v r d nn live sq rp rm rc pm pc synced =
    let c = client_view env s in
    let q = s.client.request_mq in
    let a = env.slice_new (addresses c.acbs) in
    let h : Header = record {
      stop = false;
      type = req_fsync;
      id = suc c.id;
      volume = c.volume;
      acb = a;
    } in
    let m : Request = fsync_request h in
    let (shm, sent) = env.requests.send_room q m s.server.incoming (rw rm rc) in
    let queued = (env.requests.send_messages q m s.server.incoming shm sent).0 in
    let (left, taken, empty, kept) = env.requests.receive_first q m [] shm (queued ∙ rw rm refl) in
    let posted : Client env = record c {
      id = suc c.id;
      request_msg = m;
      outgoing = shm;
      acbs = (a, waiting_acb) ∷ c.acbs;
    } in
    let mid = after_client env s posted in
    let reply : FsyncReply = record { header = h; err = err_of r } in
    let (rshm, answered) =
      env.replies.send_room v.reply_mq (fsync_reply reply) s.server.outgoing (rw pm pc) in
    let answers =
      (env.replies.send_messages v.reply_mq (fsync_reply reply) s.server.outgoing rshm
        answered).0 in
    let (rleft, rtaken, rempty, rkept) =
      env.replies.receive_first v.reply_mq (fsync_reply reply) [] rshm (answers ∙ rw pm refl) in
    let before : Server env = record (mid.server) { incoming = left } in
    let (e, run) = dispatch-fsync env before v h r d rshm nn live refl synced answered in
    let after : Server env = record before { disk = d; errno = e; outgoing = rshm } in
    let late : System env = record mid { server = after } in
    let view = client_view env late in
    let here : find a view.acbs ≡ some waiting_acb = find-cons_self a waiting_acb c.acbs in
    let woken : Client env = record view {
      reply_msg = fsync_reply reply;
      incoming = rleft;
      acbs = (a, settled env (err_of r)) ∷ c.acbs;
    } in
    let done = after_client env late woken in
    let e1 =
      on_client-ok env (co_flush_to_disk env) s (yielded a) posted (co_flush-post env c shm sent) in
    let e2 =
      on_server-ok env (handle_requests env 1) mid true after
        (serve_one env (mid.server) after m left (rw sq taken) refl run) in
    let e3 = on_client-ok env (co_reply_round env) late true woken (
      fsync_reply-round env view reply waiting_acb rleft (rw (← rp) rtaken) refl refl
        (env.slice_nonnull _) here refl
      ∙ rw (finish-settled env r, update-cons_self a (settled env (err_of r)) waiting_acb c.acbs)
          refl) in
    let last : Client env = record (client_view env done) { acbs = c.acbs } in
    let e4 = on_client-ok env (complete_aio env a) done (err_of r) last (
      complete_aio-done env (client_view env done) a (settled env (err_of r))
        (find-cons_self a (settled env (err_of r)) c.acbs) refl
      ∙ rw (free-cons_self a (settled env (err_of r)) c.acbs) refl) in
    (after_client env done last, rw (e1, ◌>>=◌) (rw (e2, ◌>>=◌) (rw (e3, ◌>>=◌) e4)), refl, refl)
