-- ===== src/Cvbd/Lifetime/Answered.antt =====
-- cvbd.c: `create_volume` against the server and the reply thread.
use qemu_cvbd_shraed_memory.Common.{
  ℕ, suc, ◌^◌, ◌≡◌, ◌≢◌, ◌<◌, refl, ap, ◌∙◌, true, false, some, [], ◌∷◌, length, arith,
}
use qemu_cvbd_shraed_memory.Common.Int.{pos}
use qemu_cvbd_shraed_memory.Common.Outcome.{ok, stopped, blocked}
use qemu_cvbd_shraed_memory.Common.Store.{addresses, find, find-cons_self}
use qemu_cvbd_shraed_memory.Iov.{Bytes}
use qemu_cvbd_shraed_memory.Message.{
  OpenRequest, OpenReply, Header, Request, open_request, c_string, init_open, req_open,
}
use qemu_cvbd_shraed_memory.Host.{Env, ret}
use qemu_cvbd_shraed_memory.Server.{VolumeState, Server, open_path, handle_requests}
use qemu_cvbd_shraed_memory.Server.Opening.{vol, answer, volume, open_file-opened}
use qemu_cvbd_shraed_memory.AsyncClient.{
  post_open, wait_to_complete, finish_open, co_reply_round, co_reply, signal_completion,
}
use qemu_cvbd_shraed_memory.System.{System}
use qemu_cvbd_shraed_memory.System.Steps.{serve_one}
use qemu_cvbd_shraed_memory.System.Opening.{dispatch-open, init_open-header}
use qemu_cvbd_shraed_memory.System.Flight.{queued, answers}
use qemu_cvbd_shraed_memory.Cvbd.Lifetime.{wait_first, signal_first, answered, answered_open}

-- A client and a server with nothing under way, and the request of the client for its volume.
module _ (env : Env) (s : System env) where
  abbrev first_header : Header
  first_header = record {
    stop = false;
    type = req_open;
    id = suc s.client.id;
    volume = s.client.volume;
    acb = 0;
  }

  pub answered_open-opens :
      (req : OpenRequest) (name mq_name : Bytes) (fd : ℕ) (d d' : env.host.Disk)
      → init_open
          (record (env.layout.as_open s.client.request_msg) { header = first_header })
          s.client.volume_name
          s.client.volume_name
        ≡ some req
      → c_string req.volume_name ≡ some name
      → c_string req.reply_mq_name ≡ some mq_name
      → s.server.request_mq ≡ s.client.request_mq
      → queued env s ≡ []
      → 0 < env.requests.capacity s.client.request_mq s.server.incoming
      → env.host.open_rdwr (open_path name) s.server.disk ≡ (ret fd, d)
      → env.replies.open_only mq_name s.server.outgoing ≡ some s.client.reply_mq
      → answers env s ≡ []
      → 0 < env.replies.capacity s.client.reply_mq s.server.outgoing
      → env.host.ftruncate fd (2 ^ 34) d ≡ (ret tt, d')
      → let v : VolumeState = record {
        volume_name = name;
        volume_id = 0;
        fd = fd;
        reply_mq = s.client.reply_mq;
      } in
        (answered_open env signal_first s ≡ stopped blocked)
        × (t : System env) × (answered_open env wait_first s ≡ ok (pos 0) t)
        × (t.client.volume ≢ 0)
        × (find t.client.volume t.server.heap ≡ some v)
        × (t.server.request_mq ≡ t.client.request_mq)
        × (t.client.reply_mq ≡ s.client.reply_mq)
        × (queued env t ≡ [])
        × (answers env t ≡ [])
        × (t.client.acbs ≡ s.client.acbs)
        × (t.server.disk ≡ d')
        × (env.replies.capacity s.client.reply_mq t.server.outgoing
            ≡ env.replies.capacity s.client.reply_mq s.server.outgoing)
  unfolding answered_open post_open wait_to_complete co_reply_round co_reply signal_completion
      finish_open answered
  answered_open-opens req name mq_name fd d d' named cn cq sq rm rc op oq pm pc tr =
      let q = s.client.request_mq in
      let m : Request = open_request req in
      let (shm, sent) = env.requests.send_room q m s.server.incoming (rw rm rc) in
      let (queue, cap) = env.requests.send_messages q m s.server.incoming shm sent in
      let (left, taken, empty, kept) = env.requests.receive_first q m [] shm (queue ∙ rw rm refl) in
      let head =
        init_open-header (record (env.layout.as_open s.client.request_msg) { header = _ }) req
          s.client.volume_name s.client.volume_name named in
      let type : req.header.type ≡ req_open = ap (λ h. h.type) head in
      let goes : req.header.stop ≡ false = ap (λ h. h.stop) head in
      let mq = s.client.reply_mq in
      let before : Server env = record (s.server) { incoming = left } in
      let room : length (env.replies.messages mq before.outgoing)
          < env.replies.capacity mq before.outgoing =
        rw pm pc in
      let a = vol env before req name mq_name fd mq d d' cn cq op oq room in
      let v = volume env before req name mq_name fd mq d d' cn cq op oq room in
      let reply = answer env before req name mq_name fd mq d d' cn cq op oq room (pos 0) in
      let r : OpenReply = record {
        header = record (req.header) { volume = a };
        volume = a;
        err = pos 0;
      } in
      let (rshm, answered) = env.replies.send_room mq reply s.server.outgoing room in
      let (told, rcap) = env.replies.send_messages mq reply s.server.outgoing rshm answered in
      let (rleft, rtaken, rempty, rkept) =
        env.replies.receive_first mq reply [] rshm (told ∙ rw pm refl) in
      let after : Server env = record before {
        disk = d';
        heap = (a, v) ∷ before.heap;
        outgoing = rshm;
      } in
      let run =
        dispatch-open env before req type
        ∙ open_file-opened env before req name mq_name fd mq d d' cn cq op oq room rshm tr
            answered in
      let round : handle_requests env 1 (record (s.server) { incoming = shm }) ≡ ok true after =
        serve_one env (record (s.server) { incoming = shm }) after m left (rw sq taken) goes run in
      (
        ground (arith, named, sent, round, rtaken, type, goes),
        record {
          client = record (s.client) {
            id = suc s.client.id;
            request_msg = m;
            reply_msg = reply;
            volume = a;
            waiting = false;
            outgoing = left;
            incoming = rleft;
          };
          server = record after { outgoing = rleft };
        },
        ground (arith, named, sent, round, rtaken, type, goes, env.layout.as_open_reply_lem r),
        env.host.alloc_nonnull (addresses before.heap),
        find-cons_self a v before.heap,
        sq,
        refl,
        empty,
        rempty,
        refl,
        refl,
        rkept ∙ rcap,
      )
