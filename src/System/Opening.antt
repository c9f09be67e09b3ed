-- ===== src/System/Opening.antt =====
-- `send_open` of the synchronous client against the server's `open`.
use qemu_cvbd_shraed_memory.Common.{
  ℕ, suc, ◌^◌, ◌≡◌, ◌≢◌, ◌<◌, refl, ap, ◌∙◌, false, some, [], ◌∷◌, length, arith,
}
use qemu_cvbd_shraed_memory.Common.Int.{pos}
use qemu_cvbd_shraed_memory.Common.Outcome.{ok}
use qemu_cvbd_shraed_memory.Common.Store.{addresses, find-cons_self}
use qemu_cvbd_shraed_memory.Iov.{Bytes}
use qemu_cvbd_shraed_memory.Message.{
  req_open, OpenRequest, OpenReply, open_request, Request, init_open, c_string,
}
use qemu_cvbd_shraed_memory.Host.{Env, ret}
use qemu_cvbd_shraed_memory.Server.{VolumeState, Server, open_path, dispatch, open_file}
use qemu_cvbd_shraed_memory.Server.Opening.{vol, answer, volume, open_file-opened}
use qemu_cvbd_shraed_memory.SyncClient.{SharedMemClient, send_open}
use qemu_cvbd_shraed_memory.SyncClient.Requests.{Attached}
use qemu_cvbd_shraed_memory.System.Steps.{serve_one}
use qemu_cvbd_shraed_memory.System.Volume.{
  send_served, take_reply, served, WholeCalls, volume_device,
}

pub dispatch-open :
    (env : Env) (s : Server env) (r : OpenRequest)
    → r.header.type ≡ req_open
    → dispatch env (open_request r) s ≡ open_file env r s
unfolding dispatch
dispatch-open env s r e = ground (arith, env.layout.as_open_lem r)

pub init_open-header :
    (r r' : OpenRequest) (name mq_name : Bytes)
    → init_open r name mq_name ≡ some r'
    → r'.header ≡ r.header
unfolding init_open
init_open-header r r' name mq_name e = ground arith

-- A synchronous client opens a volume: the request's buffer yields the names, under which the
-- server finds the file and the client's queue, both queues are empty and have room, `ftruncate`
-- succeeds, and later calls on the file are not cut short inside it. `send_open` then returns 0,
-- the client has taken the one reply and is attached to the new volume, whose address is not null,
-- with the disk as `ftruncate` left it.
pub send_open-Attached :
    (env : Env) (s : SharedMemClient (served env) env.layout) (req : OpenRequest)
    (name mq_name : Bytes) (fd : ℕ) (d d' : env.host.Disk) (whole : WholeCalls env.host fd)
    → init_open
        (record (env.layout.as_open s.request_msg) {
          header = record {
            stop = false;
            type = req_open;
            id = suc s.id;
            volume = s.volume;
            acb = 0;
          };
        })
        s.volume_name
        s.volume_name
      ≡ some req
    → c_string req.volume_name ≡ some name
    → c_string req.reply_mq_name ≡ some mq_name
    → s.world.request_mq ≡ s.request_mq
    → env.requests.messages s.request_mq s.world.incoming ≡ []
    → 0 < env.requests.capacity s.request_mq s.world.incoming
    → env.host.open_rdwr (open_path name) s.world.disk ≡ (ret fd, d)
    → env.replies.open_only mq_name s.world.outgoing ≡ some s.reply_mq
    → env.replies.messages s.reply_mq s.world.outgoing ≡ []
    → 0 < env.replies.capacity s.reply_mq s.world.outgoing
    → env.host.ftruncate fd (2 ^ 34) d ≡ (ret tt, d')
    → let v : VolumeState = record {
      volume_name = name;
      volume_id = 0;
      fd = fd;
      reply_mq = s.reply_mq;
    } in
      (t : SharedMemClient (served env) env.layout) × (nonnull : t.volume ≢ 0) × (send_open
          (served env)
          env.layout
          s
        ≡ ok (pos 0) t)
      × Attached (volume_device env s.request_mq t.volume v nonnull whole) env.layout t
      × (t.world.disk ≡ d')
unfolding send_open send_served take_reply
send_open-Attached env s req name mq_name fd d d' whole named cn cq sq rm rc op oq pm pc tr =
    let q = s.request_mq in
    let m : Request = open_request req in
    let (shm, sent) = env.requests.send_room q m s.world.incoming (rw rm rc) in
    let (queued, cap) = env.requests.send_messages q m s.world.incoming shm sent in
    let (left, taken, empty, kept) = env.requests.receive_first q m [] shm (queued ∙ rw rm refl) in
    let head =
      init_open-header (record (env.layout.as_open s.request_msg) { header = _ }) req s.volume_name
        s.volume_name named in
    let type : req.header.type ≡ req_open = ap (λ h. h.type) head in
    let goes : req.header.stop ≡ false = ap (λ h. h.stop) head in
    let mq = s.reply_mq in
    let before : Server env = record (s.world) { incoming = left } in
    let room : length (env.replies.messages mq before.outgoing)
        < env.replies.capacity mq before.outgoing =
      rw pm pc in
    let a = vol env before req name mq_name fd mq d d' cn cq op oq room in
    let v = volume env before req name mq_name fd mq d d' cn cq op oq room in
    let reply = answer env before req name mq_name fd mq d d' cn cq op oq room (pos 0) in
    let r : OpenReply = record {
      header = record (req.header) { volume = a };
      volume = a;
      err = pos 0;
    } in
    let (rshm, answered) = env.replies.send_room mq reply s.world.outgoing room in
    let (answers, rcap) = env.replies.send_messages mq reply s.world.outgoing rshm answered in
    let (rleft, rtaken, rempty, rkept) =
      env.replies.receive_first mq reply [] rshm (answers ∙ rw pm refl) in
    let after : Server env = record before {
      disk = d';
      heap = (a, v) ∷ before.heap;
      outgoing = rshm;
    } in
    let run =
      dispatch-open env before req type
      ∙ open_file-opened env before req name mq_name fd mq d d' cn cq op oq room rshm tr answered in
    let round =
      serve_one env (record (s.world) { incoming = shm }) after m left (rw sq taken) goes run in
    (
      record s {
        id = suc s.id;
        request_msg = m;
        reply_msg = reply;
        volume = a;
        world = record after { outgoing = rleft };
      },
      env.host.alloc_nonnull (addresses before.heap),
      ground (arith, named, sent, round, rtaken, type, env.layout.as_open_reply_lem r),
      record {
        same_requests = refl;
        same_replies = refl;
        same_volume = refl;
        ready = record {
          one_queue = sq;
          live = find-cons_self a v before.heap;
          no_requests = empty;
          request_room = rw (kept, cap) rc;
          no_replies = rempty;
          reply_room = rw (rkept, rcap) pc;
        };
      },
      refl,
    )
