-- ===== src/System/Closing.antt =====
-- The size of a volume and its release, from the synchronous client to the server's answer.
use qemu_cvbd_shraed_memory.Common.{
  ℕ, suc, ◌^◌, ◌≡◌, ◌≢◌, ◌<◌, refl, ◌∙◌, true, false, some, [], arith,
}
use qemu_cvbd_shraed_memory.Common.Int.{pos, to_i64, to_u64}
use qemu_cvbd_shraed_memory.Common.Outcome.{ok}
use qemu_cvbd_shraed_memory.Common.Store.{find, free}
use qemu_cvbd_shraed_memory.Message.{
  req_getsize, req_close, Header, Request, close_request, getsize_request, getsize_reply,
  GetSizeReply,
}
use qemu_cvbd_shraed_memory.Host.{Env, ret}
use qemu_cvbd_shraed_memory.Server.{VolumeState, Server, dispatch, getsize, close}
use qemu_cvbd_shraed_memory.SyncClient.{SharedMemClient, getsize_volume, release_volume}
use qemu_cvbd_shraed_memory.SyncClient.Requests.{Attached}
use qemu_cvbd_shraed_memory.SyncIo.{cvbd_getlength}
use qemu_cvbd_shraed_memory.System.Steps.{serve_one}
use qemu_cvbd_shraed_memory.System.Volume.{
  send_served, take_reply, served, WholeCalls, volume_device,
}

module _ (env : Env) (s : Server env) (v : VolumeState) (h : Header) (nonnull : h.volume ≢ 0)
    (live : find h.volume s.heap ≡ some v) where
  pub dispatch-getsize :
      (n : ℕ) (d : env.host.Disk) (shm : env.replies.Shm)
      → h.type ≡ req_getsize
      → env.host.fstat_size v.fd s.disk ≡ (ret n, d)
      → env.replies.send v.reply_mq
          (getsize_reply (record { header = h; size_in_bytes = pos n }))
          s.outgoing
        ≡ some shm
      → dispatch env (getsize_request h) s ≡ ok tt (record s { disk = d; outgoing = shm })
  unfolding dispatch getsize
  dispatch-getsize n d shm type stat sent = ground arith

  dispatch-close :
      h.type ≡ req_close
      → dispatch env (close_request h) s
        ≡ ok tt (record s { disk = env.host.close v.fd s.disk; heap = free h.volume s.heap })
  unfolding dispatch close
  dispatch-close type = ground arith

to_i64-to_u64 : (n : ℕ) → n < 2 ^ 63 → to_i64 (to_u64 (pos n)) ≡ pos n
unfolding to_i64 to_u64
to_i64-to_u64 n small = ground arith

module _ (env : Env) (q volume : ℕ) (v : VolumeState) (nonnull : volume ≢ 0)
    (whole : WholeCalls env.host v.fd) (s : SharedMemClient (served env) env.layout)
    (attached : Attached (volume_device env q volume v nonnull whole) env.layout s) where
  -- For a client attached to a volume, the length that the driver reports is the size of the volume's
  -- file, where `fstat` succeeds and the size is below 2^63, and the client stays attached.
  pub cvbd_getlength-size :
      (n : ℕ) (d : env.host.Disk)
      → env.host.fstat_size v.fd s.world.disk ≡ (ret n, d)
      → n < 2 ^ 63
      → (t : SharedMemClient (served env) env.layout) × (cvbd_getlength (served env) env.layout s
          ≡ ok (pos n) t)
        × Attached (volume_device env q volume v nonnull whole) env.layout t
        × (t.world.disk ≡ d)
  unfolding cvbd_getlength getsize_volume send_served take_reply
  cvbd_getlength-size n d stat small =
      let idle = attached.ready in
      let h : Header = record {
        stop = false;
        type = req_getsize;
        id = suc s.id;
        volume = s.volume;
        acb = 0;
      } in
      let m : Request = getsize_request h in
      let (shm, sent) =
        env.requests.send_room q m s.world.incoming (rw idle.no_requests idle.request_room) in
      let (queued, cap) = env.requests.send_messages q m s.world.incoming shm sent in
      let (left, taken, empty, kept) =
        env.requests.receive_first q m [] shm (queued ∙ rw idle.no_requests refl) in
      let r : GetSizeReply = record { header = h; size_in_bytes = pos n } in
      let mq = v.reply_mq in
      let (rshm, answered) =
        env.replies.send_room mq (getsize_reply r) s.world.outgoing
          (rw idle.no_replies idle.reply_room) in
      let (answers, rcap) =
        env.replies.send_messages mq (getsize_reply r) s.world.outgoing rshm answered in
      let (rleft, rtaken, rempty, rkept) =
        env.replies.receive_first mq (getsize_reply r) [] rshm
          (answers ∙ rw idle.no_replies refl) in
      let before : Server env = record (s.world) { incoming = left } in
      let after : Server env = record before { disk = d; outgoing = rshm } in
      let run =
        dispatch-getsize env before v h (rw attached.same_volume nonnull)
          (rw attached.same_volume idle.live) n d rshm refl stat answered in
      let round =
        serve_one env (record (s.world) { incoming = shm }) after m left (rw idle.one_queue taken)
          refl run in
      let back : to_i64 (to_u64 (pos n)) ≡ pos n = to_i64-to_u64 n small in
      (
        record s {
          id = suc s.id;
          request_msg = m;
          reply_msg = getsize_reply r;
          world = record after { outgoing = rleft };
        },
        ground (
          arith,
          sent,
          round,
          rtaken,
          back,
          env.layout.as_getsize_reply_lem r,
          attached.same_requests,
          attached.same_replies,
        ),
        record {
          same_requests = attached.same_requests;
          same_replies = attached.same_replies;
          same_volume = attached.same_volume;
          ready = record {
            one_queue = idle.one_queue;
            live = idle.live;
            no_requests = empty;
            request_room = rw (kept, cap) idle.request_room;
            no_replies = rempty;
            reply_room = rw (rkept, rcap) idle.reply_room;
          };
        },
        refl,
      )

  -- An attached client that releases its volume hears nothing back: the server has closed the
  -- file, freed the volume at the client's address, kept the others, sent no reply, and emptied
  -- the request queue.
  pub release_volume-close :
      (t : SharedMemClient (served env) env.layout) × (release_volume (served env) env.layout s
        ≡ ok true t)
      × (t.world.disk ≡ env.host.close v.fd s.world.disk)
      × (t.world.heap ≡ free volume s.world.heap)
      × (t.world.outgoing ≡ s.world.outgoing)
      × (env.requests.messages q t.world.incoming ≡ [])
  unfolding release_volume send_served
  release_volume-close =
      let idle = attached.ready in
      let h : Header = record {
        stop = false;
        type = req_close;
        id = suc s.id;
        volume = s.volume;
        acb = 0;
      } in
      let m : Request = close_request h in
      let (shm, sent) =
        env.requests.send_room q m s.world.incoming (rw idle.no_requests idle.request_room) in
      let (queued, cap) = env.requests.send_messages q m s.world.incoming shm sent in
      let (left, taken, empty, kept) =
        env.requests.receive_first q m [] shm (queued ∙ rw idle.no_requests refl) in
      let before : Server env = record (s.world) { incoming = left } in
      let after : Server env = record before {
        disk = env.host.close v.fd before.disk;
        heap = free s.volume before.heap;
      } in
      let run =
        dispatch-close env before v h (rw attached.same_volume nonnull)
          (rw attached.same_volume idle.live) refl in
      let round =
        serve_one env (record (s.world) { incoming = shm }) after m left (rw idle.one_queue taken)
          refl run in
      (
        record s { id = suc s.id; request_msg = m; world = after },
        ground (arith, sent, round, attached.same_requests),
        refl,
        rw attached.same_volume refl,
        refl,
        empty,
      )
