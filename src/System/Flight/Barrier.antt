-- ===== src/System/Flight/Barrier.antt =====
-- A coroutine's flush, from the call to the result, while all else goes on in any order.
use qemu_cvbd_shraed_memory.Common.{
  ℕ, ◌+◌, ◌≡◌, ◌≢◌, refl, sym, ap, ◌∙◌, subst, Bool, true, false, some, List, [], ◌∷◌, ◌++◌,
  append-nil, append_assoc, All, length, arith,
}
use qemu_cvbd_shraed_memory.Common.Int.{pos}
use qemu_cvbd_shraed_memory.Common.Outcome.{ok}
use qemu_cvbd_shraed_memory.Common.Outcome.Keeps.{ok-value}
use qemu_cvbd_shraed_memory.Common.Store.{addresses, find, free}
use qemu_cvbd_shraed_memory.Message.{Request, fsync_request}
use qemu_cvbd_shraed_memory.Host.{Env}
use qemu_cvbd_shraed_memory.Server.{VolumeState}
use qemu_cvbd_shraed_memory.Aio.{Acb}
use qemu_cvbd_shraed_memory.AsyncClient.{Client}
use qemu_cvbd_shraed_memory.Cvbd.{yielded, co_flush_to_disk, complete_aio}
use qemu_cvbd_shraed_memory.Cvbd.Flush.{flush_header, co_flush-post}
use qemu_cvbd_shraed_memory.Cvbd.Returns.{co_flush-returns}
use qemu_cvbd_shraed_memory.Cvbd.Woken.{complete_aio-done}
use qemu_cvbd_shraed_memory.System.{System, client_view, after_client, on_client}
use qemu_cvbd_shraed_memory.System.Steps.{on_client-returns, on_client-ok}
use qemu_cvbd_shraed_memory.System.Sequential.{Reliable, IsInside, after, after_all}
use qemu_cvbd_shraed_memory.System.Flight.{
  Step, start_flush, Reach, here, next, asks, asked, told, Waits, queued, answers,
}
use qemu_cvbd_shraed_memory.System.Flight.Counts.{asked-append}
use qemu_cvbd_shraed_memory.System.Flight.Logs.{sends, sends_in, all_sent, after_all-append}
use qemu_cvbd_shraed_memory.System.Flight.Safety.{quiet-Inv, Reach-Inv}
use qemu_cvbd_shraed_memory.System.Flight.Linear.{reach-Ordered}
use qemu_cvbd_shraed_memory.System.Flight.Results.{reach-AllZero}

-- The steps of two sequences, one after the other.
abbrev join : {env : Env} {s t u : System env} → Reach env s t → Reach env t u → Reach env s u
join before here = before
join before (next later step) = next (join before later) step

all_sent-join :
    {env : Env} {s t u : System env} (before : Reach env s t) (later : Reach env t u)
    → all_sent (join before later) ≡ all_sent before ++ all_sent later
all_sent-join before here = sym (append-nil (all_sent before))
all_sent-join before (next later step) =
    ap (λ xs. xs ++ sends_in step) (all_sent-join before later)
    ∙ append_assoc (all_sent before) (all_sent later) (sends_in step)

-- Where no request in the queue names a block, the request that does is done, and so are all that
-- were posted before it.
named-done :
    (a : ℕ) (m : Request) (done waiting sent later : List Request)
    → done ++ waiting ≡ sent ++ m ∷ later
    → asked waiting a ≡ 0
    → asks m a ≡ 1
    → (rest : List Request) × (done ≡ sent ++ m ∷ rest) × (rest ++ waiting ≡ later)
named-done a m [] waiting sent later e none_waits named =
    let count : asked waiting a ≡ asked (sent ++ m ∷ later) a = ap (λ xs. asked xs a) e in
    absurd (omega (arith, count, none_waits, named, asked-append sent (m ∷ later) a))
named-done a m (d ∷ done) waiting [] later e none_waits named =
    let same : d ≡ m = cc in (done, cc, cc)
named-done a m (d ∷ done) waiting (x ∷ sent) later e none_waits named =
    let (rest, is, left) = named-done a m done waiting sent later (cc) none_waits named in
    let same : d ≡ x = cc in (rest, cc, left)

-- A block that was woken waits for no answer.
woken-asked : (cb : Bool) (scheduled n k : ℕ) → Waits cb scheduled (n + k) → scheduled ≢ 0 → n ≡ 0
woken-asked true scheduled n k waits woken = omega (arith, waits, woken)
woken-asked false scheduled n k waits woken = omega (arith, waits)

module _ (env : Env) (t u : System env) (a : ℕ)
    (posts : on_client env (co_flush_to_disk env) t ≡ ok (yielded a) u) where
  -- What a flush that waits has posted.
  flush_posts :
      (m : Request) × (sends env t u ≡ m ∷ [])
      × (m ≡ fsync_request (flush_header env (client_view env t)))
      × (asks m a ≡ 1)
  flush_posts =
      let view = client_view env t in
      let (c, run, same) = on_client-returns env (co_flush_to_disk env) t u (yielded a) posts in
      let (shm, sent, is) = co_flush-returns env view (yielded a) c run in
      let address : yielded a ≡ yielded (env.slice_new (addresses t.client.acbs)) =
        ok-value _ _ _ _ (sym run ∙ co_flush-post env view shm sent) in
      let here_it_is : a ≡ env.slice_new (addresses t.client.acbs) = cc in
      (
        fsync_request (flush_header env view),
        rw (same, is) (ground arith),
        refl,
        rw here_it_is (ground arith),
      )

-- A client with an open volume, no block and two empty queues, and a server with the volume's
-- state that uses the same queues; calls on the volume's file inside it are not cut short, and
-- `fsync` and `fstat` succeed. After some steps a coroutine calls `cvbd_co_flush_to_disk` and waits
-- for its block. Other steps follow, in any order, until the block has been woken, and every message
-- that was posted is a write or a read inside the file, a flush, or a request for the size. Then the
-- bottom half lets the coroutine return 0, and frees the block; and every message that was posted
-- before the flush is done: the file holds the bytes on which they took effect one after the other,
-- and after them a first part of the messages that were posted later, the rest of which is still in
-- the request queue.
pub co_flush_to_disk-covers :
    (env : Env) (v : VolumeState) (s t u w : System env) (reliable : Reliable env.host v.fd)
    (before : Reach env s t) (a : ℕ)
    (posts : on_client env (co_flush_to_disk env) t ≡ ok (yielded a) u) (later : Reach env u w)
    (acb : Acb)
    → s.client.volume ≢ 0
    → find s.client.volume s.server.heap ≡ some v
    → s.server.request_mq ≡ s.client.request_mq
    → v.reply_mq ≡ s.client.reply_mq
    → queued env s ≡ []
    → answers env s ≡ []
    → s.client.acbs ≡ []
    → All
        (IsInside s.client.volume (length (env.host.contents v.fd s.server.disk)))
        (all_sent (next before (start_flush (yielded a) posts)) ++ all_sent later)
    → find a w.client.acbs ≡ some acb
    → acb.scheduled ≢ 0
    → (z : System env) × (on_client env (complete_aio env a) w ≡ ok (pos 0) z)
      × (z.client.acbs ≡ free a w.client.acbs)
      × (done_later : List Request) × (done_later ++ queued env z ≡ all_sent later)
      × (env.host.contents v.fd z.server.disk
          ≡ after_all done_later
              (after_all (all_sent before) (env.host.contents v.fd s.server.disk)))
unfolding find
co_flush_to_disk-covers env v s t u w reliable before a posts later acb nonnull live sq sr na nb
      no_blocks inside there woken =
    let volume = s.client.volume in
    let disk = env.host.contents v.fd s.server.disk in
    let P = IsInside volume (length disk) in
    let step : Step env t u = start_flush (yielded a) posts in
    let whole : Reach env s w = join (next before step) later in
    let (m, sends_one, is_flush, named) = flush_posts env t u a posts in
    let both = all_sent-join (next before step) later in
    let inv = quiet-Inv env v s w nonnull live sq sr na nb no_blocks in
    let inside' : All P (all_sent whole) = subst (All P) (sym both) inside in
    let (done, o, cap) =
      reach-Ordered env v volume nonnull disk reliable s w whole inv na nb refl inside' in
    let none_waits : asked (queued env w) a ≡ 0 =
      woken-asked acb.callback acb.scheduled (asked (queued env w) a) (told (answers env w) a)
        (rw there at ((Reach-Inv env v s w inv whole).blocks a)) woken in
    let in_order : done ++ queued env w ≡ all_sent before ++ m ∷ all_sent later =
      o.served
      ∙ both
      ∙ ap (λ xs. (all_sent before ++ xs) ++ all_sent later) sends_one
      ∙ append_assoc (all_sent before) (m ∷ []) (all_sent later) in
    let (rest, is, left) =
      named-done a m done (queued env w) (all_sent before) (all_sent later) in_order none_waits
        named in
    let zero_ret =
      reach-AllZero env v volume nonnull disk reliable s w whole inv na nb refl inside'
        (λ x other found. absurd (cc (rw no_blocks at found))) a acb there in
    let half = (Reach-Inv env v s w inv whole).halves a acb there woken in
    let freed : Client env = record (client_view env w) { acbs = free a w.client.acbs } in
    (
      after_client env w freed,
      on_client-ok env (complete_aio env a) w (pos 0) freed (
          complete_aio-done env (client_view env w) a acb there half
          ∙ ap (λ n. ok n freed) zero_ret),
      refl,
      rest,
      left,
      o.bytes
          ∙ ap (λ ms. after_all ms disk) is
          ∙ after_all-append (all_sent before) (m ∷ rest) disk
          ∙ ap (λ y. after_all rest (after y (after_all (all_sent before) disk))) is_flush,
    )
