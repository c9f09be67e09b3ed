-- ===== src/System/Exchange.antt =====
-- From `cvbd_co_writev` over the server's file to `cvbd_co_readv`: the bytes come back.
use qemu_cvbd_shraed_memory.Common.{
  ℕ, ◌+◌, ◌≡◌, ◌≢◌, ◌≤◌, ◌<◌, refl, sym, ap, ◌∙◌, true, some, List, [], length, take, arith,
  take_all,
}
use qemu_cvbd_shraed_memory.Common.Int.{ℤ, pos, to_i64}
use qemu_cvbd_shraed_memory.Common.Outcome.{ok, ◌>>=◌}
use qemu_cvbd_shraed_memory.Common.Store.{find, update, find-update, find-cons_self}
use qemu_cvbd_shraed_memory.Iov.{Bytes}
use qemu_cvbd_shraed_memory.Iov.Gather.{flat}
use qemu_cvbd_shraed_memory.Iov.Scatter.{copy, copy_all, iov_from_buf_lem}
use qemu_cvbd_shraed_memory.Message.{
  max_data_size, Request, write_request, read_request, read_reply, ReadReply,
}
use qemu_cvbd_shraed_memory.Host.{Env, ret}
use qemu_cvbd_shraed_memory.Server.{VolumeState, Server, handle_requests}
use qemu_cvbd_shraed_memory.Server.Files.{
  write-done, read-done, dispatch-write, dispatch-read, read-overwrite,
}
use qemu_cvbd_shraed_memory.Aio.{Acb}
use qemu_cvbd_shraed_memory.AsyncClient.{Client, co_reply_round}
use qemu_cvbd_shraed_memory.AsyncClient.Replies.{filled, read_reply-round}
use qemu_cvbd_shraed_memory.AsyncClient.Posts.{write_next, read_next}
use qemu_cvbd_shraed_memory.Cvbd.{in_bytes, is_request_aligned, yielded, co_readv, co_writev}
use qemu_cvbd_shraed_memory.Cvbd.Requests.{
  block, offset, posted, ready, after_writev, after_readv, co_writev-post, co_readv-post,
}
use qemu_cvbd_shraed_memory.System.Steps.{on_client-ok, on_server-ok, serve_one}
use qemu_cvbd_shraed_memory.System.{
  System, client_view, after_client, on_client, on_server, write_then_read,
}

module _ (env : Env) (s : System env) (v : VolumeState) (sector_num nb_sectors : ℤ) (o : ℕ)
    (aligned : is_request_aligned env.bdrv_sector_size sector_num nb_sectors ≡ true)
    (small : in_bytes env.bdrv_sector_size nb_sectors ≤ max_data_size)
    (from_start : to_i64 (in_bytes env.bdrv_sector_size sector_num) ≡ pos o)
    (nonnull : s.client.volume ≢ 0) (live : find s.client.volume s.server.heap ≡ some v)
    (one_request_mq : s.server.request_mq ≡ s.client.request_mq)
    (idle : env.requests.messages s.client.request_mq s.server.incoming ≡ [])
    (request_room : 0 < env.requests.capacity s.client.request_mq s.server.incoming) where
  open env use {host, requests, replies, layout}

  abbrev bytes : ℕ
  bytes = in_bytes env.bdrv_sector_size nb_sectors

  write_phase :
      (from : List Bytes) (d : host.Disk)
      → bytes ≤ length (layout.as_write s.client.request_msg).bytes
      → length (flat from) ≡ bytes
      → host.pwrite v.fd (flat from) (pos o) s.server.disk ≡ (ret bytes, d)
      → (mid t : System env) × (on_client env (co_writev env sector_num nb_sectors from) s
          ≡ ok (yielded (block env (client_view env s) sector_num nb_sectors from)) mid)
        × (on_server env (handle_requests env 1) mid ≡ ok true t)
        × (t.server.disk ≡ d)
        × (t.server.heap ≡ s.server.heap)
        × (t.server.outgoing ≡ s.server.outgoing)
        × (t.server.request_mq ≡ s.server.request_mq)
        × (t.client.volume ≡ s.client.volume)
        × (t.client.request_mq ≡ s.client.request_mq)
        × (t.client.reply_mq ≡ s.client.reply_mq)
        × (requests.messages s.client.request_mq t.server.incoming ≡ [])
        × (requests.capacity s.client.request_mq t.server.incoming
            ≡ requests.capacity s.client.request_mq s.server.incoming)
  write_phase from d array filled pw =
      let c = client_view env s in
      let q = s.client.request_mq in
      let w =
        write_next env (ready env c sector_num nb_sectors from)
          (offset env c sector_num nb_sectors from) (block env c sector_num nb_sectors from)
          (posted env c sector_num nb_sectors from) in
      let m : Request = write_request w in
      let (shm, sent) = requests.send_room q m s.server.incoming (rw idle request_room) in
      let (queued, same_capacity) = requests.send_messages q m s.server.incoming shm sent in
      let (left, taken, empty, kept) = requests.receive_first q m [] shm (queued ∙ rw idle refl) in
      let c' = after_writev env c sector_num nb_sectors from aligned shm in
      let mid = after_client env s c' in
      let whole : take bytes (flat from) ≡ flat from = take_all bytes (flat from) (omega arith) in
      let payload : take bytes w.bytes ≡ flat from = rw whole (
        read-overwrite (layout.as_write s.client.request_msg).bytes (flat from) 0 bytes
          (omega arith) filled) in
      let before : Server env = record (mid.server) { incoming = left } in
      let served =
        dispatch-write env before w refl
        ∙ write-done env before v w d nonnull live small (rw (payload, from_start) pw) in
      (
        mid,
        record mid { server = record before { disk = d } },
        on_client-ok env _ s _ c'
            (co_writev-post env c sector_num nb_sectors from aligned shm small sent),
        on_server-ok env (handle_requests env 1) mid true _
            (serve_one env (mid.server) _ m left (rw one_request_mq taken) refl served),
        refl,
        refl,
        refl,
        refl,
        refl,
        refl,
        refl,
        empty,
        kept ∙ same_capacity,
      )

  -- A read posted, served and answered.
  read_phase :
      (to : List Bytes) (d : host.Disk) (loaded : Bytes)
      → v.reply_mq ≡ s.client.reply_mq
      → replies.messages v.reply_mq s.server.outgoing ≡ []
      → 0 < replies.capacity v.reply_mq s.server.outgoing
      → host.pread v.fd bytes (pos o) s.server.disk ≡ (ret loaded, d)
      → length loaded ≡ bytes
      → let a = block env (client_view env s) sector_num nb_sectors to in
        (mid late t : System env) × (acb : Acb) × (on_client env
            (co_readv env sector_num nb_sectors to)
            s
          ≡ ok (yielded a) mid)
        × (on_server env (handle_requests env 1) mid ≡ ok true late)
        × (on_client env (co_reply_round env) late ≡ ok true t)
        × (find a t.client.acbs ≡ some acb)
        × (acb.ret ≡ pos 0)
        × (acb.scheduled ≡ 1)
        × (flat acb.qiov ≡ copy (flat to) loaded)
  read_phase to d loaded one_reply_mq quiet reply_room pr full =
      let c = client_view env s in
      let q = s.client.request_mq in
      let a = block env c sector_num nb_sectors to in
      let acb = posted env c sector_num nb_sectors to in
      let r =
        read_next env (ready env c sector_num nb_sectors to) (offset env c sector_num nb_sectors to)
          a acb in
      let m : Request = read_request r in
      let (shm, sent) = requests.send_room q m s.server.incoming (rw idle request_room) in
      let queued = (requests.send_messages q m s.server.incoming shm sent).0 in
      let (left, taken, empty, kept) = requests.receive_first q m [] shm (queued ∙ rw idle refl) in
      let c' = after_readv env c sector_num nb_sectors to aligned shm in
      let mid = after_client env s c' in
      let before : Server env = record (mid.server) { incoming = left } in
      let rr : ReadReply = record {
        header = r.header;
        size_in_bytes = length loaded;
        bytes = loaded;
      } in
      let (rshm, answered) =
        replies.send_room v.reply_mq (read_reply rr) s.server.outgoing (rw quiet reply_room) in
      let answers =
        (replies.send_messages v.reply_mq (read_reply rr) s.server.outgoing rshm answered).0 in
      let (rleft, rtaken, rempty, rkept) =
        replies.receive_first v.reply_mq (read_reply rr) [] rshm (answers ∙ rw quiet refl) in
      let served =
        dispatch-read env before r refl
        ∙ read-done env before v r loaded d rshm nonnull live small (rw from_start pr) full
            answered in
      let late : System env = record mid { server = record before { disk = d; outgoing = rshm } } in
      let view = client_view env late in
      let here : find a view.acbs ≡ some acb = find-cons_self a acb s.client.acbs in
      let done = filled env view rr acb rleft in
      let last : Client env = record view {
        reply_msg = read_reply rr;
        incoming = rleft;
        acbs = update a done view.acbs;
      } in
      (
        mid,
        late,
        after_client env late last,
        done,
        on_client-ok env _ s _ c'
            (co_readv-post env c sector_num nb_sectors to aligned shm small sent),
        on_server-ok env (handle_requests env 1) mid true _
            (serve_one env (mid.server) _ m left (rw one_request_mq taken) refl served),
        on_client-ok env (co_reply_round env) late true last (
            read_reply-round env view rr acb rleft (rw (← one_reply_mq) rtaken) refl refl
              (env.slice_nonnull _) here refl (omega arith)),
        find-update a a done acb view.acbs here ∙ ground arith,
        refl,
        refl,
        (iov_from_buf_lem to 0 loaded (length loaded) (omega arith)).0
            ∙ ap (copy (flat to)) (take_all (length loaded) loaded (omega arith)),
      )

-- A coroutine writes the bytes of a vector to aligned sectors of an open volume, and another reads
-- the same sectors into a vector of the same size: both requests are posted and served, the reply
-- thread completes the read with result 0 and wakes its coroutine once, and the second vector then
-- holds the bytes of the first. Assumed are at most `max_data_size` bytes, which the array of the
-- request's buffer holds, a file that reaches so far, system calls that are not cut short, and
-- queues that are empty at the start and have room.
pub write_then_read_lem :
    (env : Env) (s : System env) (v : VolumeState) (sector_num nb_sectors : ℤ)
    (from to : List Bytes) (o : ℕ) (d d' : env.host.Disk) (loaded : Bytes)
    → is_request_aligned env.bdrv_sector_size sector_num nb_sectors ≡ true
    → in_bytes env.bdrv_sector_size nb_sectors ≤ max_data_size
    → to_i64 (in_bytes env.bdrv_sector_size sector_num) ≡ pos o
    → s.client.volume ≢ 0
    → find s.client.volume s.server.heap ≡ some v
    → s.server.request_mq ≡ s.client.request_mq
    → v.reply_mq ≡ s.client.reply_mq
    → env.requests.messages s.client.request_mq s.server.incoming ≡ []
    → 0 < env.requests.capacity s.client.request_mq s.server.incoming
    → env.replies.messages v.reply_mq s.server.outgoing ≡ []
    → 0 < env.replies.capacity v.reply_mq s.server.outgoing
    → in_bytes env.bdrv_sector_size nb_sectors
      ≤ length (env.layout.as_write s.client.request_msg).bytes
    → length (flat from) ≡ in_bytes env.bdrv_sector_size nb_sectors
    → length (flat to) ≡ in_bytes env.bdrv_sector_size nb_sectors
    → o + in_bytes env.bdrv_sector_size nb_sectors ≤ length (env.host.contents v.fd s.server.disk)
    → env.host.pwrite v.fd (flat from) (pos o) s.server.disk
      ≡ (ret (in_bytes env.bdrv_sector_size nb_sectors), d)
    → env.host.pread v.fd (in_bytes env.bdrv_sector_size nb_sectors) (pos o) d ≡ (ret loaded, d')
    → length loaded ≡ in_bytes env.bdrv_sector_size nb_sectors
    → (a : ℕ) × (t : System env) × (acb : Acb) × (write_then_read env sector_num nb_sectors from to
          s
        ≡ ok (yielded a) t)
      × (find a t.client.acbs ≡ some acb)
      × (acb.ret ≡ pos 0)
      × (acb.scheduled ≡ 1)
      × (flat acb.qiov ≡ flat from)
unfolding write_then_read
write_then_read_lem env s v sector_num nb_sectors from to o d d' loaded al sm fs nn lv rq rp rm rc
      pm pc ar lf lt fits pw pr ll =
    let n = in_bytes env.bdrv_sector_size nb_sectors in
    let (w1, w2, e1, e2, disk, heap, out, smq, vol, cmq, rmq, idle, cap) =
      write_phase env s v sector_num nb_sectors o al sm fs nn lv rq rm rc from d ar lf pw in
    let (r1, r2, r3, acb, f1, f2, f3, found, zero_ret, once, text) =
      read_phase env w2 v sector_num nb_sectors o al sm fs (rw vol nn) (rw (vol, heap) lv)
        (smq ∙ rq ∙ sym cmq) (rw cmq idle) (rw (cmq, cap) rc) to d' loaded (rp ∙ sym rmq)
        (rw out pm) (rw out pc) (rw disk pr) ll in
    let stored = env.host.pwrite_in_file v.fd (flat from) o n s.server.disk d pw fits in
    let same : loaded ≡ flat from =
      (env.host.pread_lem v.fd n o loaded d d' pr).1
      ∙ rw (ll, stored, take_all n (flat from) (omega arith))
          (read-overwrite (env.host.contents v.fd s.server.disk) (flat from) o n (omega arith)
            lf) in
    (
      block env (client_view env w2) sector_num nb_sectors to,
      r3,
      acb,
      rw (e1, ◌>>=◌) (rw (e2, ◌>>=◌) (rw (f1, ◌>>=◌) (rw (f2, ◌>>=◌) (rw (f3, ◌>>=◌) refl)))),
      found,
      zero_ret,
      once,
      text ∙ rw same (copy_all (flat to) (flat from) (lf ∙ sym lt)),
    )
