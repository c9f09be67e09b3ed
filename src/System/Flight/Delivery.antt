-- ===== src/System/Flight/Delivery.antt =====
-- A coroutine's read, from the call to the result, while all else goes on in any order.
use qemu_cvbd_shraed_memory.Common.{
  ℕ, ◌+◌, ◌≡◌, ◌≢◌, refl, sym, ap, ◌∙◌, subst, inl, inr, none, some, List, [], ◌∷◌, ◌++◌, All,
  All-append, length, take, drop, arith,
}
use qemu_cvbd_shraed_memory.Common.Int.{ℤ, pos, to_i64}
use qemu_cvbd_shraed_memory.Common.Outcome.{ok}
use qemu_cvbd_shraed_memory.Common.Store.{addresses, find, free, find-cons_self, find-Fresh}
use qemu_cvbd_shraed_memory.Iov.{Bytes}
use qemu_cvbd_shraed_memory.Iov.Gather.{flat}
use qemu_cvbd_shraed_memory.Iov.Scatter.{copy}
use qemu_cvbd_shraed_memory.Message.{Request, Reply, ReadReply, read_reply, req_read}
use qemu_cvbd_shraed_memory.Host.{Env}
use qemu_cvbd_shraed_memory.Server.{VolumeState}
use qemu_cvbd_shraed_memory.Aio.{Acb}
use qemu_cvbd_shraed_memory.AsyncClient.{Client}
use qemu_cvbd_shraed_memory.AsyncClient.Posts.{header_next}
use qemu_cvbd_shraed_memory.Cvbd.{in_bytes, yielded, co_readv, complete_aio}
use qemu_cvbd_shraed_memory.Cvbd.Requests.{offset, posted, ready, after_readv}
use qemu_cvbd_shraed_memory.Cvbd.Returns.{read_message, co_readv-yields}
use qemu_cvbd_shraed_memory.Cvbd.Woken.{complete_aio-done}
use qemu_cvbd_shraed_memory.System.{System, client_view, after_client, on_client}
use qemu_cvbd_shraed_memory.System.Steps.{on_client-returns, on_client-ok}
use qemu_cvbd_shraed_memory.System.Sequential.{Reliable, at, IsInside, after_all, heard_all}
use qemu_cvbd_shraed_memory.System.Flight.{
  Step, start_read, Reach, next, queued, answers, asked, told, Inv,
}
use qemu_cvbd_shraed_memory.System.Flight.Logs.{
  sends_in, takes_in, all_sent, all_taken, after_all-append,
}
use qemu_cvbd_shraed_memory.System.Flight.Safety.{Step-Inv, quiet-Inv, Reach-Inv}
use qemu_cvbd_shraed_memory.System.Flight.Order.{All-left, Ordered}
use qemu_cvbd_shraed_memory.System.Flight.Linear.{step-Ordered, reach-Ordered}
use qemu_cvbd_shraed_memory.System.Flight.Futures.{
  IsRight, All-unnamed, future, future-start, told-heard_all,
}
use qemu_cvbd_shraed_memory.System.Flight.Counts.{told-append}
use qemu_cvbd_shraed_memory.System.Flight.Reads.{Reading}
use qemu_cvbd_shraed_memory.System.Flight.Later.{AllRest, reach-Reading}

module _ (env : Env) (v : VolumeState) (disk : Bytes) (t : System env) (sector_num nb_sectors : ℤ)
    (qiov : List Bytes) where
  abbrev view : Client env
  view = client_view env t

  -- What the server answers to the read, if these are the file's bytes at its turn.
  abbrev reply_at : Bytes → ReadReply
  reply_at bytes = record {
    header =
        header_next env (ready env view sector_num nb_sectors qiov)
          (offset env view sector_num nb_sectors qiov) (env.slice_new (addresses t.client.acbs))
          (posted env view sector_num nb_sectors qiov) req_read;
    size_in_bytes = in_bytes env.bdrv_sector_size nb_sectors;
    bytes =
        take (in_bytes env.bdrv_sector_size nb_sectors)
          (drop (at (to_i64 (in_bytes env.bdrv_sector_size sector_num))) bytes);
  }

  -- No answer that is still to come names a new block.
  unnamed : (b : ℕ) → Inv env v t → find b t.client.acbs ≡ none → told (future env v t) b ≡ 0
  unnamed b inv unused =
      let bytes = env.host.contents v.fd t.server.disk in
      let zero_named : asked (queued env t) b + told (answers env t) b ≡ 0 =
        rw unused at (inv.blocks b) in
      omega (
        arith,
        zero_named,
        told-append (answers env t) (heard_all (queued env t) bytes) b,
        told-heard_all (queued env t) bytes b,
      )

  -- A read that was posted is under way.
  posted-Reading :
      (sent : List Request) (taken : List Reply) (done : List Request) (a : ℕ) (c : Client env)
      → Inv env v t
      → Ordered env v disk sent taken done t
      → co_readv env sector_num nb_sectors qiov view ≡ ok (yielded a) c
      → Reading env v a (flat qiov) (reply_at (after_all sent disk)) (after_client env t c)
  posted-Reading sent taken done a c inv o run =
      let m = read_message env view sector_num nb_sectors qiov in
      let b = env.slice_new (addresses t.client.acbs) in
      let (al, shm, accepted, is, address) =
        co_readv-yields env view sector_num nb_sectors qiov a c run in
      let grown =
        (env.requests.send_messages t.client.request_mq m t.server.incoming shm accepted).0 in
      let now = after_readv env view sector_num nb_sectors qiov al shm in
      let bytes = env.host.contents v.fd t.server.disk in
      let late = after_all (queued env t) bytes in
      let at_turn : late ≡ after_all sent disk =
        ap (after_all (queued env t)) o.bytes
        ∙ sym (after_all-append done (queued env t) disk)
        ∙ ap (λ ms. after_all ms disk) o.served in
      let right = IsRight b (read_reply (reply_at (after_all sent disk))) in
      rw (is, address)
        (record {
          acb = posted env view sector_num nb_sectors qiov;
          live = find-cons_self b (posted env view sector_num nb_sectors qiov) t.client.acbs;
          posted = refl;
          fate = inl (
            refl,
            refl,
            subst (All right) (sym (future-start env v t now (m ∷ []) grown refl)) (
                All-append right (future env v t) (heard_all (m ∷ []) late)
                  (All-unnamed b (read_reply (reply_at (after_all sent disk))) (future env v t) (
                    unnamed b inv
                      (find-Fresh b t.client.acbs (env.slice_fresh (addresses t.client.acbs)))))
                  (λ named. ap (λ x. read_reply (reply_at x)) at_turn, tt)),
          );
        })

-- A client with an open volume, no block and two empty queues, and a server with the volume's
-- state that uses the same queues; calls on the volume's file inside it are not cut short, and
-- `fsync` and `fstat` succeed. After some steps a coroutine calls `cvbd_co_readv` and waits for its
-- block. Other steps follow, in any order, until the coroutine's bottom half has been made, and every
-- message that was posted is a write or a read inside the file, a flush, or a request for the size.
-- Then the bottom half lets the coroutine return 0, and frees its block; and the coroutine's vector
-- holds, from its start and as far as it reaches, the bytes of the file at the read's offset, as the
-- file is once the writes that were posted before the read, and no others, have taken effect.
pub co_readv-delivers :
    (env : Env) (v : VolumeState) (s t u w : System env) (reliable : Reliable env.host v.fd)
    (before : Reach env s t) (sector_num nb_sectors : ℤ) (qiov : List Bytes) (a : ℕ)
    (posts : on_client env (co_readv env sector_num nb_sectors qiov) t ≡ ok (yielded a) u)
    (later : Reach env u w) (acb : Acb)
    → s.client.volume ≢ 0
    → find s.client.volume s.server.heap ≡ some v
    → s.server.request_mq ≡ s.client.request_mq
    → v.reply_mq ≡ s.client.reply_mq
    → queued env s ≡ []
    → answers env s ≡ []
    → s.client.acbs ≡ []
    → All (IsInside s.client.volume (length (env.host.contents v.fd s.server.disk))) (
        all_sent (next before (start_read sector_num nb_sectors qiov (yielded a) posts))
        ++ all_sent later)
    → AllRest a later
    → find a w.client.acbs ≡ some acb
    → acb.scheduled ≢ 0
    → (z : System env) × (on_client env (complete_aio env a) w ≡ ok (pos 0) z)
      × (z.client.acbs ≡ free a w.client.acbs)
      × (flat acb.qiov
          ≡ copy (flat qiov) (
              take (in_bytes env.bdrv_sector_size nb_sectors) (
                drop
                  (at (to_i64 (in_bytes env.bdrv_sector_size sector_num)))
                  (after_all (all_sent before) (env.host.contents v.fd s.server.disk)))))
co_readv-delivers env v s t u w reliable before sector_num nb_sectors qiov a posts later acb nonnull
      live sq sr na nb no_blocks inside rest there woken =
    let volume = s.client.volume in
    let disk = env.host.contents v.fd s.server.disk in
    let P = IsInside volume (length disk) in
    let step : Step env t u = start_read sector_num nb_sectors qiov (yielded a) posts in
    let inv = quiet-Inv env v s t nonnull live sq sr na nb no_blocks in
    let inv_t = Reach-Inv env v s t inv before in
    let inv_u = (Step-Inv env v t u step inv_t).0 in
    let inside_before =
      All-left P (all_sent before) (sends_in step)
        (All-left P (all_sent (next before step)) (all_sent later) inside) in
    let (done, o, cap) =
      reach-Ordered env v volume nonnull disk reliable s t before inv na nb refl inside_before in
    let (done', o', cap') =
      step-Ordered env v volume nonnull disk reliable (all_sent before) (all_taken before) done t u
        step inv_t inside_before o in
    let (c, run, same) =
      on_client-returns env (co_readv env sector_num nb_sectors qiov) t u (yielded a) posts in
    let reply =
      reply_at env v disk t sector_num nb_sectors qiov (after_all (all_sent before) disk) in
    let (done'', o'', r) =
      reach-Reading env v volume nonnull disk reliable a (flat qiov) reply
        (all_sent before ++ sends_in step) (all_taken before ++ takes_in step) done' u w later inv_u
        o' inside rest
        (rw same (
          posted-Reading env v disk t sector_num nb_sectors qiov (all_sent before)
            (all_taken before) done a c inv_t o run)) in
    let is : r.acb ≡ acb = cc (r.live, there) in
    let half = (Reach-Inv env v u w inv_u later).halves a acb there woken in
    let freed : Client env = record (client_view env w) { acbs = free a w.client.acbs } in
    elim (r.fate) [
      | inl waits ↦ absurd (woken (sym (ap (λ x. x.scheduled) is) ∙ waits.0))
      | inr (once, zero_ret, text) ↦ (
        after_client env w freed,
        on_client-ok env (complete_aio env a) w (pos 0) freed (
            complete_aio-done env (client_view env w) a acb there half
            ∙ ap (λ n. ok n freed) (sym (ap (λ x. x.ret) is) ∙ zero_ret)),
        refl,
        sym (ap (λ x. flat x.qiov) is) ∙ text,
      )
    ]
